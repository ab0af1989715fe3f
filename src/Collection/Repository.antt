-- ===== src/Collection/Repository.antt =====
-- `CollectionRepository` of backend/app/collection/repository.py. Each method takes the session and
-- returns its result and the session after it.
pub mod Machine
pub mod Steps
pub mod Events
pub mod Pairing
pub mod Claims
use job_search.Base.{
  ℕ, String, ◌≡◌, Bool, true, false, not, ◌&&◌, ◌||◌, Option, none, some, List, [], ◌∷◌, holds,
  is_none, if◌then◌else◌, Outcome, returned, raised, keep, is_none,
}
use job_search.Base.Table
use job_search.Collection.Models.{
  CollectionStatus, CrawlRun, CollectionRequest, RunType, queued, running, failed, is_queued,
  is_running, is_terminal, is_active_status,
}
use job_search.Collection.Session.{
  Tables, Session, rollback, commit, interfere, get_run, get_request, paired_update,
}

pub record RunClaim : Type 0 where
  pub run : CrawlRun
  pub claimed : Bool
  pub claim_token : Option ℕ

-- The outcome of the persistence step, as far as `finish` reads it.
pub record PersistenceResult : Type 0 where
  pub company_id : Option ℕ
  pub jobs_written : ℕ

unfoldable pub get_request_for_run : CrawlRun → Session → Option CollectionRequest
get_request_for_run run s = elim run.collection_request_id [
  | none ↦ none
  | some request_id ↦ get_request request_id s
]

-- `_lock_run_request` after its rollback.
unfoldable pub lock_run_request : ℕ → Session → Option (CrawlRun × CollectionRequest)
lock_run_request run_id s = elim (get_run run_id s) [
  | none ↦ none
  | some run ↦ elim (get_request_for_run run s) [ none ↦ none | some request ↦ some (run, request) ]
]

-- `_reload_run` with no pending writes, and the row that it reads.
unfoldable pub reload_run : ℕ → Session → Option CrawlRun × Session
reload_run run_id s = (get_run run_id (rollback s), rollback s)

unfoldable pub after_update : ℕ → Bool × Session → Option CrawlRun × Session
after_update run_id (done, s) = (get_run run_id s, s)

unfoldable pub claim_row : Bool → Option ℕ → Option CrawlRun → Option RunClaim
claim_row claimed token none = none
claim_row claimed token (some run) =
    some (record { run = run; claimed = claimed; claim_token = token })

-- After the updates of a claim: the claim, or the row that somebody else has taken.
unfoldable pub claim_result : ℕ → ℕ → Bool × Session → Option RunClaim × Session
unfolding claim_row
claim_result run_id claim_token (true, s) =
    (claim_row true (some claim_token) (get_run run_id s), s)
claim_result run_id claim_token (false, s) = elim (get_run run_id s) [
  | none ↦ (none, s)
  | some current ↦ (claim_row false current.claim_token (some current), s)
]

unfoldable pub claim_values : ℕ → ℕ → CrawlRun → CrawlRun
claim_values claim_token now run = record run {
  status = running;
  claim_token = some claim_token;
  started_at = some now;
}

unfoldable pub claim_update :
    (Tables → Tables) → ℕ → ℕ → ℕ → ℕ → Session → Option RunClaim × Session
claim_update other run_id request_id claim_token now s = claim_result run_id claim_token (
    paired_update run_id (λ run. is_queued run.status) (claim_values claim_token now) request_id
      (λ request. is_queued request.status) (λ request. record request { status = running })
      (interfere other (rollback s)))

-- `_claim_queued`. `other` is what other sessions commit between the reads and the updates.
unfoldable pub claim_queued : (Tables → Tables) → ℕ → ℕ → ℕ → Session → Option RunClaim × Session
unfolding claim_row
claim_queued other run_id claim_token now s = elim (get_run run_id s) [
  | none ↦ (none, s)
  | some run ↦
      let lost : Option RunClaim × Session = (claim_row false run.claim_token (some run), s) in
      if is_terminal run.status || is_running run.status
      then lost
      else elim (get_request_for_run run s) [
        | none ↦ lost
        | some request ↦
            if not (is_queued run.status) || not (is_queued request.status)
            then lost
            else claim_update other run_id request.id claim_token now s
      ]
]

-- The join of `owns_claim`: a running run with the token, and its running request.
pub owns_claim : ℕ → ℕ → Session → Bool × Session
owns_claim run_id token s = elim (lock_run_request run_id (rollback s)) [
  | none ↦ (false, rollback s)
  | some (run, request) ↦ (
    is_running run.status && holds run.claim_token token && is_running request.status,
    rollback s,
  )
]

pub recover_claim_token : ℕ → ℕ → Session → Option ℕ × Session
recover_claim_token run_id token s = elim (get_run run_id (rollback s)) [
  | none ↦ (none, rollback s)
  | some run ↦ (
    if not (is_running run.status) || not (holds run.claim_token token)
        then none
        else run.claim_token,
    rollback s,
  )
]

unfoldable pub fail_values : String → ℕ → CrawlRun → CrawlRun
fail_values code now run = record run {
  status = failed;
  error_code = some code;
  error_detail = some code;
  completed_at = some now;
}

unfoldable pub fail_request_values : String → ℕ → CollectionRequest → CollectionRequest
fail_request_values code now request = record request {
  status = failed;
  error_code = some code;
  completed_at = some now;
}

unfoldable pub fail_queued_dispatch : ℕ → ℕ → Session → Option CrawlRun × Session
unfolding reload_run after_update
fail_queued_dispatch run_id now s = elim (lock_run_request run_id (rollback s)) [
  | none ↦ reload_run run_id s
  | some (run, request) ↦
      if not (is_queued run.status) || not (is_queued request.status)
      then reload_run run_id s
      else after_update run_id (
          paired_update run_id (λ r. is_queued r.status) (fail_values "collection_unavailable" now)
            request.id (λ q. is_queued q.status) (fail_request_values "collection_unavailable" now)
            (rollback s))
]

-- `WHERE status = RUNNING AND claim_token = expected`
unfoldable pub is_owned : ℕ → CrawlRun → Bool
is_owned token run = is_running run.status && holds run.claim_token token

pub fail_invalid_locked : CrawlRun → CollectionRequest → ℕ → ℕ → Session → Option CrawlRun × Session
unfolding reload_run after_update
fail_invalid_locked run request token now s =
    if not (is_running run.status)
      || not (holds run.claim_token token)
      || not (is_queued request.status)
    then reload_run run.id s
    else after_update run.id (
        paired_update run.id (is_owned token) (fail_values "invalid_run_state" now) request.id
          (λ q. is_queued q.status) (fail_request_values "invalid_run_state" now) s)

unfoldable pub requeue_values : CrawlRun → CrawlRun
requeue_values run = record run {
  status = queued;
  claim_token = none;
  started_at = none;
  celery_task_id = none;
}

unfoldable pub requeue_for_retry : ℕ → ℕ → ℕ → Session → Option CrawlRun × Session
requeue_for_retry run_id token now s = elim (lock_run_request run_id (rollback s)) [
  | none ↦ reload_run run_id s
  | some (run, request) ↦
      if is_terminal run.status
      then reload_run run_id s
      else if is_queued run.status && is_queued request.status
      then reload_run run_id s
      else if not (holds run.claim_token token)
      then reload_run run_id s
      else if not (is_running run.status) || not (is_running request.status)
      then fail_invalid_locked run request token now (rollback s)
      else after_update run_id (
          paired_update run_id (is_owned token) requeue_values request.id (λ q. is_running q.status)
            (λ q. record q { status = queued }) (rollback s))
]

pub fail_retry_exhausted : ℕ → ℕ → ℕ → Session → Option CrawlRun × Session
fail_retry_exhausted run_id token now s = elim (lock_run_request run_id (rollback s)) [
  | none ↦ reload_run run_id s
  | some (run, request) ↦
      if is_terminal run.status
      then reload_run run_id s
      else if not (holds run.claim_token token)
      then reload_run run_id s
      else if not (is_running run.status) || not (is_running request.status)
      then fail_invalid_locked run request token now (rollback s)
      else after_update run_id (
          paired_update run_id (is_owned token) (fail_values "collection_unavailable" now)
            request.id (λ q. is_running q.status) (fail_request_values "collection_unavailable" now)
            (rollback s))
]

-- What a worker reports when its run ends.
pub record FinishReport : Type 0 where
  pub status : CollectionStatus
  pub providers_attempted : List String
  pub documents_found : ℕ
  pub jobs_found : ℕ
  pub persistence : Option PersistenceResult
  pub error_code : Option String
  pub error_detail : Option String

abbrev pub written : Option PersistenceResult → ℕ
written none = 0
written (some p) = p.jobs_written

abbrev pub company_of : Option PersistenceResult → Option ℕ
company_of none = none
company_of (some p) = p.company_id

unfoldable pub finish_values : FinishReport → ℕ → CrawlRun → CrawlRun
finish_values report now run = record run {
  status = report.status;
  providers_attempted = report.providers_attempted;
  documents_found = report.documents_found;
  jobs_found = report.jobs_found;
  jobs_written = written report.persistence;
  company_id = company_of report.persistence;
  error_code = report.error_code;
  error_detail = report.error_detail;
  completed_at = some now;
}

unfoldable pub finish_request_values : FinishReport → ℕ → CollectionRequest → CollectionRequest
finish_request_values report now request = record request {
  status = report.status;
  company_id = company_of report.persistence;
  error_code = report.error_code;
  completed_at = some now;
}

unfoldable pub finished : ℕ → Bool × Session → Outcome CrawlRun × Session
finished run_id (done, s) = elim (get_run run_id s) [
  | none ↦ (raised "invalid_run_state", s)
  | some run ↦ (returned run, s)
]

-- `run` is the worker's copy of the row; only its id and its request are read.
unfoldable pub finish : CrawlRun → ℕ → FinishReport → ℕ → Session → Outcome CrawlRun × Session
finish run token report now s =
    if not (is_terminal report.status)
    then (raised "terminal status required", s)
    else elim run.collection_request_id [
      | none ↦ (raised "invalid_run_state", s)
      | some request_id ↦ finished run.id (
          paired_update run.id (is_owned token) (finish_values report now) request_id
            (λ q. is_running q.status) (finish_request_values report now) (rollback s))
    ]
