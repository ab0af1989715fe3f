-- ===== src/Tasks/Recovery.antt =====
-- What a worker does where no runtime is configured, and after a failure of the infrastructure:
-- `_mark_collection_unavailable` and `_recover_retry_state` of backend/app/tasks/collection.py. The
-- result is the run that it is made from, or none for an unknown run.
pub mod Stale
use job_search.Base.{
  ℕ, Bool, true, false, not, Option, none, some, [], Outcome, returned, raised, if◌then◌else◌,
}
use job_search.Collection.Models.{CollectionStatus, CrawlRun, failed, is_terminal}
use job_search.Collection.Session.{Tables, Session, rollback}
use job_search.Collection.Repository.{
  RunClaim, FinishReport, claim_queued, requeue_for_retry, fail_retry_exhausted, finish,
}

abbrev pub unavailable_report : FinishReport
unavailable_report = record {
  status = failed;
  providers_attempted = [];
  documents_found = 0;
  jobs_found = 0;
  persistence = none;
  error_code = some "collection_unavailable";
  error_detail = some "collection_unavailable";
}

pub finished_run : Outcome CrawlRun × Session → Outcome (Option CrawlRun) × Session
finished_run (returned run, s) = (returned (some run), s)
finished_run (raised e, s) = (raised e, s)

pub finish_with : CrawlRun → Option ℕ → ℕ → Session → Outcome (Option CrawlRun) × Session
finish_with run none now s = (returned (some run), s)
finish_with run (some token) now s = finished_run (finish run token unavailable_report now s)

pub mark_claimed : Option RunClaim × Session → ℕ → Outcome (Option CrawlRun) × Session
mark_claimed (none, s) now = (returned none, s)
mark_claimed (some claim, s) now =
    if is_terminal claim.run.status
    then (returned (some claim.run), s)
    else if not claim.claimed
    then (returned (some claim.run), s)
    else finish_with claim.run claim.claim_token now s

-- `token` is the claim token that `claim_queued` draws.
pub mark_collection_unavailable :
    (Tables → Tables) → ℕ → ℕ → ℕ → Session → Outcome (Option CrawlRun) × Session
mark_collection_unavailable other run_id token now s =
    mark_claimed (claim_queued other run_id token now s) now

pub recover_retry_state : Bool → ℕ → ℕ → ℕ → Session → Option CrawlRun × Session
recover_retry_state exhausted run_id token now s =
    if exhausted
    then fail_retry_exhausted run_id token now (rollback s)
    else requeue_for_retry run_id token now (rollback s)
