-- ===== src/Collection/Service.antt =====
-- `CollectionService.submit` and `get` of backend/app/collection/service.py, with `get_active_request` and
-- `create_request` of repository.py. What other sessions commit comes in at each pause as a function on
-- the committed tables. After a commit the service goes on with the rows in its memory, since the session
-- has expire_on_commit=False (backend/app/core/database.py).
pub mod Active
pub mod Submission
mod Samples
use text.Mathlib.Text.{◌==◌ as str_eq}
use job_search.Base.{
  ℕ, String, Bool, true, false, not, ◌&&◌, ◌||◌, Option, none, some, List, [], ◌∷◌, keep, any_of,
  ltb, is_none, Outcome, returned, raised, if◌then◌else◌,
}
use job_search.Base.Table
use job_search.Collection.Models.{CollectionRequest, CrawlRun, queued, on_demand, is_active_status}
use job_search.Collection.Session.{
  Tables, Session, clean, commit, interfere, get_run, get_request, paired_write,
}
use job_search.Collection.Repository.{fail_queued_dispatch}

-- The rows that the unique index on active queries is about.
abbrev pub is_active_for : String → CollectionRequest → Bool
is_active_for normalized_query r =
    str_eq r.normalized_query normalized_query && is_active_status r.status

-- `ORDER BY created_at`, its first row.
abbrev pub before_or : CollectionRequest → Option CollectionRequest → Option CollectionRequest
before_or r none = some r
before_or r (some q) = if ltb q.created_at r.created_at then some q else some r

pub earliest : List CollectionRequest → Option CollectionRequest
earliest [] = none
earliest (r ∷ rs) = before_or r (earliest rs)

pub get_active_request : String → Session → Option CollectionRequest
get_active_request normalized_query s =
    earliest (keep (is_active_for normalized_query) (Table.rows s.working.requests))

-- The rows of `create_request`.
pub new_request : (request_id now : ℕ) → String → String → CollectionRequest
new_request request_id now query normalized_query = record {
  id = request_id;
  query = query;
  normalized_query = normalized_query;
  status = queued;
  company_id = none;
  error_code = none;
  completed_at = none;
  created_at = now;
}

pub new_run : (run_id request_id now : ℕ) → CrawlRun
new_run run_id request_id now = record {
  id = run_id;
  collection_request_id = some request_id;
  company_id = none;
  run_type = on_demand;
  status = queued;
  celery_task_id = none;
  providers_attempted = [];
  documents_found = 0;
  jobs_found = 0;
  jobs_written = 0;
  error_code = none;
  error_detail = none;
  claim_token = none;
  started_at = none;
  completed_at = none;
  created_at = now;
}

abbrev pub active_request_index : String
active_request_index = "uq_collection_requests_active_query"

-- The INSERTs at the commit, under the primary keys and the index.
pub insert_pair : CrawlRun → CollectionRequest → Tables → Outcome Tables
insert_pair run request t =
    if not (is_none (Table.get run.id t.runs)) || not (is_none (Table.get request.id t.requests))
    then raised "primary key"
    else if any_of (is_active_for request.normalized_query) (Table.rows t.requests)
    then raised active_request_index
    else returned (paired_write run.id run request.id request t)

-- `or_raise e found` returns what was found.
abbrev pub or_raise :
    String → Option CollectionRequest → Session → Outcome CollectionRequest × Session
or_raise e none s = (raised e, s)
or_raise e (some request) s = (returned request, s)

module _ (before_commit after_conflict after_commit : Tables → Tables) (dispatch : ℕ → Option ℕ)
    (run_id request_id now : ℕ) where
  -- The failed dispatch: the run that it has left, and the request.
  pub undispatched : Option CrawlRun × Session → Outcome CollectionRequest × Session
  undispatched (none, s) = (raised "dispatch failed", s)
  undispatched (some run, s) = or_raise "dispatch failed" (get_request request_id s) s

  -- The id of the task is stored in the run.
  pub store_task :
      CollectionRequest → ℕ → Option CrawlRun → Session → Outcome CollectionRequest × Session
  store_task request task_id none s = (raised "StaleDataError", s)
  store_task request task_id (some run) s = (
    returned request,
    clean (record s.working {
      runs = Table.put run_id (record run { celery_task_id = some task_id }) s.working.runs;
    }),
  )

  pub dispatched : CollectionRequest → Option ℕ → Session → Outcome CollectionRequest × Session
  unfolding undispatched store_task
  dispatched request none s = undispatched (fail_queued_dispatch run_id now s)
  dispatched request (some task_id) s = store_task request task_id (get_run run_id s) s

  -- What follows the commit, which may have failed. The tables are those that it has met.
  pub after_insert :
      CollectionRequest → Tables → Outcome Tables → Outcome CollectionRequest × Session
  unfolding dispatched
  after_insert request met (returned t) =
      dispatched request (dispatch run_id) (interfere after_commit (clean t))
  after_insert request met (raised e) =
      let s = interfere after_conflict (clean met) in
      if str_eq e active_request_index
      then or_raise "IntegrityError" (get_active_request request.normalized_query s) s
      else (raised "IntegrityError", clean met)

  -- The first read may have found an active request.
  pub submit_unless :
      CollectionRequest → Option CollectionRequest → Session → Outcome CollectionRequest × Session
  unfolding after_insert
  submit_unless request (some existing) s = (returned existing, s)
  submit_unless request none s =
      let met = before_commit s.committed in
      after_insert request met (insert_pair (new_run run_id request_id now) request met)

  pub submit :
      (normalize_name strip : String → String)
      → String
      → Session
      → Outcome CollectionRequest × Session
  unfolding submit_unless
  submit normalize_name strip query s =
      submit_unless (new_request request_id now (strip query) (normalize_name query))
        (get_active_request (normalize_name query) s) s

pub get : ℕ → Session → Outcome CollectionRequest × Session
get request_id s = or_raise "collection_request_not_found" (get_request request_id s) s
