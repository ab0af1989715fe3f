-- ===== src/Tasks/Schedule.antt =====
-- `redispatch_stale_queued_runs` of backend/app/tasks/schedule.py, on the session of Collection. Runs
-- stand in the order of their creation. Sending a task to the broker is a parameter: the id of the
-- task, or none where the connection fails. Between two statements no other session commits.
pub mod Terminal
use job_search.Base.{
  ℕ, ◌+◌, ◌-◌, Bool, true, false, ◌&&◌, Option, none, some, List, [], ◌∷◌, keep, ltb, is_none,
  if◌then◌else◌,
}
use job_search.Base.Table
use job_search.Collection.Models.{CrawlRun, is_queued, is_running}
use job_search.Collection.Session.{Session, rollback, commit, get_run}
use job_search.Collection.Repository.{requeue_for_retry}

pub record Settings : Type 0 where
  pub collection_stale_queued_seconds : ℕ
  pub collection_stale_running_seconds : ℕ

pub record Redispatched : Type 0 where
  pub redispatched : ℕ
  pub requeued : ℕ

-- `started_at < cutoff`, which is false where the column is empty.
pub before : Option ℕ → ℕ → Bool
before none cutoff = false
before (some t) cutoff = ltb t cutoff

pub stale_running : ℕ → Session → List CrawlRun
stale_running cutoff s =
    keep (λ r. is_running r.status && before r.started_at cutoff) (Table.rows s.working.runs)

pub stale_queued : ℕ → Session → List CrawlRun
stale_queued cutoff s =
    keep (λ r. is_queued r.status && is_none r.celery_task_id && ltb r.created_at cutoff)
      (Table.rows s.working.runs)

pub is_requeued : Option CrawlRun → ℕ
is_requeued none = 0
is_requeued (some run) = if is_queued run.status then 1 else 0

-- The claim token that the row has now, since the rows of the loop are read again after a commit.
pub token_now : Option CrawlRun → Option ℕ
token_now none = none
token_now (some run) = run.claim_token

pub requeue_one : ℕ → ℕ → Option ℕ → Session → ℕ × Session
requeue_one run_id now none s = (0, s)
requeue_one run_id now (some token) s =
    let (recovered, after) = requeue_for_retry run_id token now s in (is_requeued recovered, after)

pub requeue_loop : ℕ → List CrawlRun → ℕ → Session → ℕ × Session
requeue_loop now [] count s = (count, s)
requeue_loop now (run ∷ runs) count s =
    let (n, after) = requeue_one run.id now (token_now (get_run run.id s)) s in
    requeue_loop now runs (count + n) after

-- The UPDATE of the task id and its commit.
pub record_task : ℕ → Option ℕ → Session → ℕ × Session
record_task run_id none s = (0, s)
record_task run_id (some task_id) s =
    let (runs, n) =
      Table.update_where run_id (λ r. is_queued r.status && is_none r.celery_task_id)
        (λ r. record r { celery_task_id = some task_id }) s.working.runs in
    (n, commit (record s { working = record s.working { runs = runs } }))

module _ (delay : ℕ → Option ℕ) where
  pub dispatch_loop : List CrawlRun → ℕ → Session → ℕ × Session
  dispatch_loop [] count s = (count, s)
  dispatch_loop (run ∷ runs) count s =
      let (n, after) = record_task run.id (delay run.id) s in dispatch_loop runs (count + n) after

  -- The second query opens a new transaction on the committed tables.
  pub redispatch_stale_queued_runs : Settings → ℕ → Session → Redispatched × Session
  redispatch_stale_queued_runs settings now s =
      let (requeued, s1) =
        requeue_loop now (stale_running (now - settings.collection_stale_running_seconds) s) 0 s in
      let s2 = rollback s1 in
      let (redispatched, s3) =
        dispatch_loop (stale_queued (now - settings.collection_stale_queued_seconds) s2) 0 s2 in
      (record { redispatched = redispatched; requeued = requeued }, s3)
