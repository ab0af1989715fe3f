-- ===== src/Collection/Samples.antt =====
-- Runs of the collection repository at concrete rows, and its theorems at them.
use job_search.Base.{◌≡◌, refl, true, false, none, some, [], ◌∷◌, arith}
use job_search.Base.Table
use job_search.Collection.Models.{
  CrawlRun, CollectionRequest, is_queued, queued, running, failed, succeeded, on_demand,
}
use job_search.Collection.Session.{Tables, Session, clean, paired_update}
use job_search.Collection.Repository.{
  finished, lock_run_request, after_update, is_owned, requeue_values, claim_result, claim_row,
  get_request_for_run, RunClaim, FinishReport, claim_queued, claim_update, claim_values,
  requeue_for_retry, finish, finish_values,
}
use job_search.Collection.Repository.Events.{
  perform, claim, undispatch, requeue, exhaust, finish_run, perform_all, terminal_forever,
  fenced_by_token,
}
use job_search.Collection.Repository.Pairing.{IsPaired, AllHonest, IsPaired-perform_all}
use job_search.Collection.Repository.Claims.{claim_queued_success, claim_race}
use job_search.Collection.Repository.Steps.{BelongsTo}

abbrev fresh_request : CollectionRequest
fresh_request = record {
  id = 7;
  query = "Acme";
  normalized_query = "acme";
  status = queued;
  company_id = none;
  error_code = none;
  completed_at = none;
  created_at = 1;
}

abbrev fresh_run : CrawlRun
fresh_run = record {
  id = 3;
  collection_request_id = some 7;
  company_id = none;
  run_type = on_demand;
  status = queued;
  celery_task_id = none;
  providers_attempted = [];
  documents_found = 0;
  jobs_found = 0;
  jobs_written = 0;
  error_code = none;
  error_detail = none;
  claim_token = none;
  started_at = none;
  completed_at = none;
  created_at = 1;
}

abbrev store : CrawlRun → CollectionRequest → Session
store run request = clean (record { runs = (3, run) ∷ []; requests = (7, request) ∷ [] })

abbrev fresh : Session
fresh = store fresh_run fresh_request

abbrev claimed_run : CrawlRun
claimed_run = record fresh_run { status = running; claim_token = some 11; started_at = some 5 }

abbrev working_store : Session
working_store = store claimed_run (record fresh_request { status = running })

abbrev failed_run : CrawlRun
failed_run = record claimed_run { status = failed; completed_at = some 9 }

abbrev report : FinishReport
report = record {
  status = succeeded;
  providers_attempted = "ats" ∷ [];
  documents_found = 2;
  jobs_found = 4;
  persistence = none;
  error_code = none;
  error_detail = none;
}

-- Claim, requeue, claim again, finish.
life_of_a_run :
    (perform_all
      (claim 3 7 11 5 ∷ requeue 3 11 6 ∷ claim 3 7 12 7 ∷ finish_run fresh_run 12 report 8 ∷ [])
      fresh).committed.runs
    ≡ (
      3,
      record fresh_run {
        status = succeeded;
        claim_token = some 12;
        started_at = some 7;
        completed_at = some 8;
        providers_attempted = "ats" ∷ [];
        documents_found = 2;
        jobs_found = 4;
      },
    )
      ∷ []
unfolding perform_all perform paired_update Table.get Table.put Table.update_where finish finished
    claim_update claim_result requeue_for_retry lock_run_request get_request_for_run claim_values
    after_update is_owned requeue_values finish_values
life_of_a_run = refl

terminal_forever_example :
    Table.get 3
      (perform_all
        (claim 3 7 12 6 ∷ requeue 3 11 6 ∷ exhaust 3 11 7 ∷ [])
        (store failed_run (record fresh_request { status = failed }))).committed.runs
    ≡ some failed_run
unfolding Table.get
terminal_forever_example =
    terminal_forever 3 failed_run (claim 3 7 12 6 ∷ requeue 3 11 6 ∷ exhaust 3 11 7 ∷ [])
      (store failed_run (record fresh_request { status = failed })) refl refl

fenced_by_token_example :
    Table.get 3
      (perform_all
        (claim 3 7 12 6 ∷ requeue 3 12 6 ∷ undispatch 3 7 ∷ [])
        working_store).committed.runs
    ≡ some claimed_run
unfolding Table.get
fenced_by_token_example =
    fenced_by_token 3 claimed_run (claim 3 7 12 6 ∷ requeue 3 12 6 ∷ undispatch 3 7 ∷ [])
      working_store refl refl (ground arith, (ground arith, (ground arith, tt)))

fresh-IsPaired : IsPaired fresh.committed
unfolding Table.get
fresh-IsPaired = record {
  keyed = record { run_ids = λ k r. ground arith; request_ids = λ k r. ground arith };
  linked_once = λ j k q. ground arith;
  same_state = λ k q run request. ground arith;
}

fresh-AllHonest : AllHonest (claim 3 7 11 5 ∷ undispatch 3 6 ∷ exhaust 3 11 7 ∷ []) fresh
unfolding Table.get
fresh-AllHonest = ((λ run h. ground arith), (tt, (tt, tt)))

IsPaired-perform_all_example :
    IsPaired (perform_all (claim 3 7 11 5 ∷ undispatch 3 6 ∷ exhaust 3 11 7 ∷ []) fresh).committed
IsPaired-perform_all_example =
    IsPaired-perform_all (claim 3 7 11 5 ∷ undispatch 3 6 ∷ exhaust 3 11 7 ∷ []) fresh
      fresh-AllHonest fresh-IsPaired

abbrev first_claim : RunClaim
first_claim = record { run = claimed_run; claimed = true; claim_token = some 11 }

abbrev late_claim : RunClaim
late_claim = record { run = claimed_run; claimed = false; claim_token = some 11 }

first_claimed : (claim_queued (λ t. t) 3 11 5 fresh).0 ≡ some first_claim
unfolding claim_queued claim_update paired_update Table.get Table.put claim_result claim_row
    claim_values get_request_for_run
first_claimed = refl

claim_queued_success_example :
    (run : CrawlRun) × (Table.get 3 fresh.committed.runs ≡ some run)
    × (is_queued run.status ≡ true)
    × (first_claim ≡ record { run = claim_values 11 5 run; claimed = true; claim_token = some 11 })
    × (Table.get 3 (claim_queued (λ t. t) 3 11 5 fresh).1.committed.runs ≡ some first_claim.run)
claim_queued_success_example =
    claim_queued_success (λ t. t) 3 11 5 fresh first_claim first_claimed refl

-- The second worker read the queued row, and the first one's claim came in between.
abbrev after_first : Tables
after_first = (claim_queued (λ t. t) 3 11 5 fresh).1.committed

late_lost : (claim_queued (λ t. after_first) 3 12 6 fresh).0 ≡ some late_claim
unfolding claim_queued claim_update paired_update Table.get Table.put claim_result claim_row
    claim_values get_request_for_run
late_lost = refl

claim_race_example : late_claim.claimed ≡ false
claim_race_example =
    claim_race 3 11 12 5 6 (λ t. t) (λ t. after_first) fresh fresh first_claim late_claim
      first_claimed refl refl late_lost

fresh-BelongsTo : BelongsTo fresh.committed 3 7
unfolding Table.get
fresh-BelongsTo run h = ground arith

first_updated : (claim_update (λ t. t) 3 7 11 5 fresh).0 ≡ some first_claim
unfolding claim_update paired_update Table.get Table.put claim_result claim_row claim_values
first_updated = refl
