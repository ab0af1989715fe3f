-- ===== src/Collection/Service/Samples.antt =====
-- Submissions for one company: alone, in a race, and without a broker.
use job_search.Base.{
  ℕ, String, ◌≡◌, refl, Bool, true, false, Option, none, some, [], ◌∷◌, arith, Outcome, returned,
  raised,
}
use job_search.Base.Table
use job_search.Collection.Models.{CollectionRequest, queued, succeeded}
use job_search.Collection.Session.{Tables, Session, clean, paired_update}
use job_search.Collection.Repository.{
  fail_queued_dispatch, lock_run_request, get_request_for_run, after_update, fail_values,
  fail_request_values, reload_run,
}
use job_search.Collection.Service.{
  new_request, new_run, earliest, get_active_request, insert_pair, undispatched, dispatched,
  after_insert, submit_unless, submit, is_active_for,
}
use job_search.Collection.Service.Active.{IsUnique}
use job_search.Collection.Service.Submission.{Submitted, submit-Submitted}

abbrev done_request : CollectionRequest
done_request = record {
  id = 1;
  query = "Acme";
  normalized_query = "acme";
  status = succeeded;
  company_id = none;
  error_code = none;
  completed_at = some 4;
  created_at = 2;
}

abbrev tables : Tables
tables = record { runs = []; requests = (1, done_request) ∷ [] }

abbrev alone : Tables → Tables
alone t = t

abbrev normalized : String → String
normalized query = "acme"

abbrev submitted : Option ℕ → (Tables → Tables) → Outcome CollectionRequest × Session
submitted task race =
    submit race alone alone (λ run_id. task) 3 7 9 normalized normalized "Acme" (clean tables)

tables-IsUnique : IsUnique tables
tables-IsUnique nq = ground arith

submit-Submitted_example : Submitted "acme" true (submitted (some 5) alone)
submit-Submitted_example =
    submit-Submitted alone alone alone (λ run_id. some 5) 3 7 9 normalized normalized "Acme"
      (clean tables) (λ t u. u) (λ t u. u) (λ t u. u) tables-IsUnique

abbrev rival : CollectionRequest
rival = record done_request { id = 2; status = queued }

-- A rival that commits first: its request is returned.
lost_race :
    submitted (some 5) (λ t. record t { requests = Table.put 2 rival t.requests })
    ≡ (returned rival, clean (record tables { requests = Table.put 2 rival tables.requests }))
unfolding new_request new_run earliest get_active_request insert_pair after_insert submit_unless
    submit Table.get Table.put
lost_race = refl

abbrev status_of : Outcome CollectionRequest → Bool
status_of (returned r) = is_active_for "acme" r
status_of (raised e) = true

-- Without a broker the new request has failed.
no_broker : status_of (submitted none alone).0 ≡ false
unfolding new_request new_run earliest get_active_request insert_pair undispatched dispatched
    after_insert submit_unless submit Table.get Table.put Table.update_where fail_queued_dispatch
    lock_run_request get_request_for_run after_update fail_values fail_request_values reload_run
    paired_update
no_broker = refl
