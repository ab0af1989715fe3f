-- ===== src/Ingestion/Samples.antt =====
-- A run without providers: it is claimed, finds no documents, and is stored as failed.
use job_search.Base.{ℕ, ◌≡◌, refl, true, none, some, [], ◌∷◌}
use job_search.Base.Table
use job_search.Collection.Models.{CrawlRun, CollectionRequest, queued, running, on_demand}
use job_search.Collection.Session.{Tables, Session, clean, paired_update}
use job_search.Collection.Repository.{
  RunClaim, claim_queued, claim_update, claim_result, claim_values, get_request_for_run, is_owned,
}
use job_search.Ingestion.Services.{done, Services}
use job_search.Ingestion.Orchestrator.{run_orchestrator}
use job_search.Ingestion.Orchestrator.Endings.{Owned, EndsWell, run_orchestrator-EndsWell}

abbrev services : Services ℕ ℕ ℕ
services = record {
  discover = none;
  persist_direct = none;
  resolve_company_id = λ name. done none;
  company_name_variants = λ name. name ∷ [];
  ats_discovery_queries = λ name restricted. name ∷ [];
  scan_ats_career_urls = λ documents names. [];
  entry_candidate_to_ats_url = λ entry. none;
  url_key = λ url. url;
  ats_host = λ url. none;
  ats_platform = λ url. done "moka";
  is_public = λ code. true;
  detail_text = λ diagnostics. "issues";
}

abbrev request : CollectionRequest
request = record {
  id = 7;
  query = "Acme";
  normalized_query = "acme";
  status = queued;
  company_id = none;
  error_code = none;
  completed_at = none;
  created_at = 1;
}

abbrev run : CrawlRun
run = record {
  id = 3;
  collection_request_id = some 7;
  company_id = none;
  run_type = on_demand;
  status = queued;
  celery_task_id = none;
  providers_attempted = [];
  documents_found = 0;
  jobs_found = 0;
  jobs_written = 0;
  error_code = none;
  error_detail = none;
  claim_token = none;
  started_at = none;
  completed_at = none;
  created_at = 1;
}

abbrev store : Session
store = clean (record { runs = (3, run) ∷ []; requests = (7, request) ∷ [] })

abbrev claimed_run : CrawlRun
claimed_run = record run { status = running; claim_token = some 11; started_at = some 5 }

abbrev claim : RunClaim
claim = record { run = claimed_run; claimed = true; claim_token = some 11 }

abbrev alone : Tables → Tables
alone t = t

is_claimed : (claim_queued alone 3 11 5 store).0 ≡ some claim
unfolding claim_queued claim_update claim_result claim_values get_request_for_run paired_update
    Table.get Table.put Table.update_where
is_claimed = refl

claim_stays : Owned (alone (claim_queued alone 3 11 5 store).1.committed) claimed_run 11 7
unfolding claim_queued claim_update claim_result claim_values get_request_for_run paired_update
    Table.get Table.put Table.update_where is_owned
claim_stays = record {
  request = record request { status = running };
  linked = refl;
  stored = refl;
  owned = refl;
  wanted = refl;
  open_request = refl;
}

run_orchestrator-EndsWell_example :
    EndsWell 3 11 (run_orchestrator services [] alone true 3 9 alone 11 5 store)
run_orchestrator-EndsWell_example =
    run_orchestrator-EndsWell services [] alone true 3 9 alone 11 5 7 store claim is_claimed refl
      refl claim_stays
