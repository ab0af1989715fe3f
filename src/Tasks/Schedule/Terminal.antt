-- ===== src/Tasks/Schedule/Terminal.antt =====
-- What `redispatch_stale_queued_runs` of backend/app/tasks/schedule.py leaves alone.
use job_search.Base.{
  ℕ, ◌-◌, ◌≡◌, refl, inl, inr, true, false, ◌&&◌, Option, none, some, List, [], ◌∷◌, arith, is_none,
  ◌==◌, ==_iff, Bool-cases, Option-cases,
}
use job_search.Base.Table
use job_search.Base.Table.{get-put}
use job_search.Collection.Models.{CollectionStatus, CrawlRun, is_queued, is_terminal}
use job_search.Collection.Session.{Session, get_run}
use job_search.Collection.Repository.Events.{requeue, perform, terminal_forever, perform_all}
use job_search.Tasks.Schedule.{
  Settings, stale_running, token_now, requeue_one, requeue_loop, record_task, dispatch_loop,
  redispatch_stale_queued_runs,
}

terminal_not_queued : (s : CollectionStatus) → is_terminal s ≡ true → is_queued s ≡ false
terminal_not_queued CollectionStatus.queued h = absurd (ground (arith, h))
terminal_not_queued CollectionStatus.running h = refl
terminal_not_queued CollectionStatus.succeeded h = refl
terminal_not_queued CollectionStatus.partial h = refl
terminal_not_queued CollectionStatus.failed h = refl

module _ (j : ℕ) (r : CrawlRun) (h : is_terminal r.status ≡ true) where
  requeue_one-keeps :
      (run_id now : ℕ) (token : Option ℕ) (s : Session)
      → Table.get j s.committed.runs ≡ some r
      → Table.get j (requeue_one run_id now token s).1.committed.runs ≡ some r
  unfolding requeue_one perform perform_all
  requeue_one-keeps run_id now none s g = g
  requeue_one-keeps run_id now (some token) s g =
      terminal_forever j r (requeue run_id token now ∷ []) s g h

  requeue_loop-keeps :
      (now : ℕ) (runs : List CrawlRun) (count : ℕ) (s : Session)
      → Table.get j s.committed.runs ≡ some r
      → Table.get j (requeue_loop now runs count s).1.committed.runs ≡ some r
  unfolding requeue_loop
  requeue_loop-keeps now [] count s g = g
  requeue_loop-keeps now (run ∷ runs) count s g =
      requeue_loop-keeps now runs _ _
        (requeue_one-keeps run.id now (token_now (get_run run.id s)) s g)

  -- Both views of the session show the row.
  abbrev Shows : Session → Type 0
  Shows s = (Table.get j s.working.runs ≡ some r) × (Table.get j s.committed.runs ≡ some r)

  queued_row :
      (run_id : ℕ) (q : CrawlRun) (t : Table.Table CrawlRun)
      → run_id ≡ j
      → Table.get run_id t ≡ some q
      → (is_queued q.status && is_none q.celery_task_id) ≡ true
      → Table.get j t ≡ some r
      → ⊥
  queued_row run_id q t p e w g =
      let same_row : q ≡ r = cc in
      let ended : is_terminal q.status ≡ true = rw same_row h in
      ground (arith, w, terminal_not_queued q.status ended)

  update-keeps :
      (run_id task_id : ℕ) (t : Table.Table CrawlRun)
      → Table.get j t ≡ some r
      → Table.get j
          (Table.update_where run_id
            (λ q. is_queued q.status && is_none q.celery_task_id)
            (λ q. record q { celery_task_id = some task_id })
            t).0
        ≡ some r
  unfolding Table.update_where
  update-keeps run_id task_id t g = elim (Option-cases (Table.get run_id t)) [
    | inl e ↦ rw e g
    | inr (q, e) ↦ elim (Bool-cases (is_queued q.status && is_none q.celery_task_id)) [
      | inl w ↦ rw e (
          rw w (
            rw get-put (elim (Bool-cases (run_id == j)) [
              | inl p ↦ absurd (queued_row run_id q t ((==_iff run_id j).0 p) e w g)
              | inr p ↦ rw p g
            ])))
      | inr w ↦ rw e (rw w g)
    ]
  ]

  record_task-keeps :
      (run_id : ℕ) (task : Option ℕ) (s : Session) → Shows s → Shows (record_task run_id task s).1
  unfolding record_task
  record_task-keeps run_id none s g = g
  record_task-keeps run_id (some task_id) s g = (
    update-keeps run_id task_id s.working.runs g.0,
    update-keeps run_id task_id s.working.runs g.0,
  )

  dispatch_loop-keeps :
      (delay : ℕ → Option ℕ) (runs : List CrawlRun) (count : ℕ) (s : Session)
      → Shows s
      → Shows (dispatch_loop delay runs count s).1
  unfolding dispatch_loop
  dispatch_loop-keeps delay [] count s g = g
  dispatch_loop-keeps delay (run ∷ runs) count s g =
      dispatch_loop-keeps delay runs _ _ (record_task-keeps run.id (delay run.id) s g)

  -- A run that has reached a terminal status keeps its whole row when the task that recovers stale runs
  -- runs, whichever runs are stale and whatever the broker answers.
  pub redispatch_stale_queued_runs-keeps :
      (delay : ℕ → Option ℕ) (settings : Settings) (now : ℕ) (s : Session)
      → Table.get j s.committed.runs ≡ some r
      → Table.get j (redispatch_stale_queued_runs delay settings now s).1.committed.runs ≡ some r
  unfolding redispatch_stale_queued_runs
  redispatch_stale_queued_runs-keeps delay settings now s g =
      let kept =
        requeue_loop-keeps now (stale_running (now - settings.collection_stale_running_seconds) s) 0
          s g in
      (dispatch_loop-keeps delay _ 0 _ (kept, kept)).1
