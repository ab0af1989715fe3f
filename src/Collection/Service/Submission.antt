-- ===== src/Collection/Service/Submission.antt =====
-- What a submission leaves and answers (backend/app/collection/service.py).
use text.Mathlib.TextEquality.{eq_iff}
use text.Mathlib.Text.{◌==◌ as str_eq}
use job_search.Base.{
  ℕ, String, ◌≡◌, refl, ◌≤◌, inl, inr, Bool, true, false, not, ◌||◌, Option, none, some, arith,
  any_of, count_of, is_none, Outcome, returned, raised, Bool-cases,
}
use job_search.Base.Table
use job_search.Collection.Models.{CrawlRun, CollectionRequest}
use job_search.Collection.Session.{Tables, Session, clean, get_run, get_request, paired_write}
use job_search.Collection.Repository.{fail_queued_dispatch}
use job_search.Collection.Repository.Steps.{fail_queued_dispatch-Moved}
use job_search.Collection.Service.{
  is_active_for, get_active_request, new_request, new_run, insert_pair, active_request_index,
  or_raise, undispatched, store_task, dispatched, after_insert, submit_unless, submit,
}
use job_search.Collection.Service.Active.{
  IsUnique, IsUnique-Moved, count_of-put_new, any_of-count_of, earliest-keep,
}

nothing_there {ℓ} : {A : Type ℓ} (o : Option A) → is_none o ≡ true → o ≡ none
nothing_there none h = refl
nothing_there (some a) h = ground arith

insert_pair-IsUnique :
    (run : CrawlRun) (request : CollectionRequest) (t t' : Tables)
    → insert_pair run request t ≡ returned t'
    → IsUnique t
    → IsUnique t'
unfolding insert_pair
insert_pair-IsUnique run request t t' h u nq =
    elim (Bool-cases (
      not (is_none (Table.get run.id t.runs)) || not (is_none (Table.get request.id t.requests)))) [
        | inl a ↦ ground arith
        | inr a ↦
            elim (Bool-cases
              (any_of (is_active_for request.normalized_query) (Table.rows t.requests))) [
                | inl b ↦ ground arith
                | inr b ↦ inserted a b
              ]
      ]
  where
    inserted :
        (not (is_none (Table.get run.id t.runs)) || not (is_none (Table.get request.id t.requests)))
          ≡ false
        → any_of (is_active_for request.normalized_query) (Table.rows t.requests) ≡ false
        → count_of (is_active_for nq) (Table.rows t'.requests) ≤ 1
    inserted a b =
        let same : returned (paired_write run.id run request.id request t) ≡ returned t' =
          rw a at (rw b at h) in
        let stored : t'.requests ≡ Table.put request.id request t.requests = cc in
        let missing = nothing_there (Table.get request.id t.requests) (ground arith) in
        let total = count_of-put_new (is_active_for nq) request.id request t.requests missing in
        rw stored (elim (Bool-cases (is_active_for nq request)) [
          | inl n ↦
              let names = (eq_iff request.normalized_query nq).0 (ground arith) in
              let none_yet =
                any_of-count_of (is_active_for nq) (Table.rows t.requests) (rw (← names) b) in
              ground (arith, total, none_yet, n)
          | inr n ↦ let before = u nq in ground (arith, total, before, n)
        ])

get_active_request-passes :
    (nq : String) (s : Session) (r : CollectionRequest)
    → get_active_request nq s ≡ some r
    → is_active_for nq r ≡ true
unfolding get_active_request
get_active_request-passes nq s r h =
    earliest-keep (is_active_for nq) (Table.rows s.working.requests) r h

-- A raised answer, or an active request of the query, or any where the broker has not accepted.
abbrev pub answers_active : String → Bool → Outcome CollectionRequest → Bool
answers_active normalized_query accepted (raised e) = true
answers_active normalized_query accepted (returned r) =
    is_active_for normalized_query r || not accepted

module _ (nq : String) (accepted : Bool) where
  -- The state and the answer of a submission.
  abbrev pub Submitted : Outcome CollectionRequest × Session → Type 0
  Submitted (answer, s) = IsUnique s.committed × (answers_active nq accepted answer ≡ true)

  or_raise-Submitted :
      (e : String) (found : Option CollectionRequest) (s : Session)
      → IsUnique s.committed
      → ((r : CollectionRequest) → found ≡ some r → (is_active_for nq r || not accepted) ≡ true)
      → Submitted (or_raise e found s)
  or_raise-Submitted e none s u h = (u, refl)
  or_raise-Submitted e (some r) s u h = (u, h r refl)

  module _ (before_commit after_conflict after_commit : Tables → Tables) (dispatch : ℕ → Option ℕ)
      (run_id request_id now : ℕ) where
    store_task-Submitted :
        (request : CollectionRequest) (task_id : ℕ) (found : Option CrawlRun) (s : Session)
        → is_active_for nq request ≡ true
        → IsUnique s.working
        → IsUnique s.committed
        → Submitted (
            store_task before_commit after_conflict after_commit dispatch run_id request_id now
              request task_id found s)
    unfolding store_task
    store_task-Submitted request task_id none s h w u = (u, refl)
    store_task-Submitted request task_id (some run) s h w u = (w, ground (arith, h))

    undispatched-Submitted :
        (found : Option CrawlRun) (s : Session)
        → IsUnique s.committed
        → accepted ≡ false
        → Submitted (
            undispatched before_commit after_conflict after_commit dispatch run_id request_id now
              (found, s))
    unfolding undispatched
    undispatched-Submitted none s u h = (u, refl)
    undispatched-Submitted (some run) s u h =
        or_raise-Submitted "dispatch failed" (get_request request_id s) s u (λ r e. ground arith)

    dispatched-Submitted :
        (request : CollectionRequest) (task : Option ℕ) (t : Tables)
        → accepted ≡ not (is_none task)
        → is_active_for nq request ≡ true
        → IsUnique t
        → Submitted (
            dispatched before_commit after_conflict after_commit dispatch run_id request_id now
              request task
              (clean t))
    unfolding dispatched
    dispatched-Submitted request none t a h u =
        let failing = fail_queued_dispatch run_id now (clean t) in
        undispatched-Submitted failing.0 failing.1
          (IsUnique-Moved t failing.1.committed (fail_queued_dispatch-Moved run_id now (clean t)) u)
          a
    dispatched-Submitted request (some task_id) t a h u =
        store_task-Submitted request task_id (get_run run_id (clean t)) (clean t) h u u

    module _ (keeps_before : (t : Tables) → IsUnique t → IsUnique (before_commit t))
        (keeps_conflict : (t : Tables) → IsUnique t → IsUnique (after_conflict t))
        (keeps_after : (t : Tables) → IsUnique t → IsUnique (after_commit t))
        (known : accepted ≡ not (is_none (dispatch run_id))) where
      after_insert-Submitted :
          (request : CollectionRequest) (met : Tables) (inserted : Outcome Tables)
          → request.normalized_query ≡ nq
          → is_active_for nq request ≡ true
          → IsUnique met
          → ((t : Tables) → inserted ≡ returned t → IsUnique t)
          → Submitted (
              after_insert before_commit after_conflict after_commit dispatch run_id request_id now
                request met inserted)
      unfolding after_insert
      after_insert-Submitted request met (returned t) n h m u =
          dispatched-Submitted request (dispatch run_id) (after_commit t) known h
            (keeps_after t (u t refl))
      after_insert-Submitted request met (raised e) n h m u =
          elim (Bool-cases (str_eq e active_request_index)) [
            | inl d ↦ rw d (
                or_raise-Submitted "IntegrityError" _ (clean (after_conflict met))
                  (keeps_conflict met m)
                  (λ r f.
                    let active =
                      get_active_request-passes nq (clean (after_conflict met)) r (rw n at f) in
                    ground (arith, active)))
            | inr d ↦ rw d (m, refl)
          ]

      submit_unless-Submitted :
          (request : CollectionRequest) (found : Option CollectionRequest) (s : Session)
          → request.normalized_query ≡ nq
          → is_active_for nq request ≡ true
          → IsUnique s.committed
          → ((r : CollectionRequest) → found ≡ some r → is_active_for nq r ≡ true)
          → Submitted (
              submit_unless before_commit after_conflict after_commit dispatch run_id request_id now
                request found s)
      unfolding submit_unless
      submit_unless-Submitted request (some r) s n h u f = (u, ground (arith, f r refl))
      submit_unless-Submitted request none s n h u f =
          let met = before_commit s.committed in
          after_insert-Submitted request met
            (insert_pair (new_run run_id request_id now) request met) n h
            (keeps_before s.committed u)
            (λ t e.
              insert_pair-IsUnique (new_run run_id request_id now) request met t e
                (keeps_before s.committed u))

-- If there is at most one active request for each query, and the other sessions keep it so, then this is
-- so after a submission, however it ends. If it returns a request, then this is an active one for the
-- normalized query, unless the broker has not accepted the task.
pub submit-Submitted :
    (before_commit after_conflict after_commit : Tables → Tables) (dispatch : ℕ → Option ℕ)
    (run_id request_id now : ℕ) (normalize_name strip : String → String) (query : String)
    (s : Session)
    → ((t : Tables) → IsUnique t → IsUnique (before_commit t))
    → ((t : Tables) → IsUnique t → IsUnique (after_conflict t))
    → ((t : Tables) → IsUnique t → IsUnique (after_commit t))
    → IsUnique s.committed
    → Submitted (normalize_name query) (not (is_none (dispatch run_id))) (
        submit before_commit after_conflict after_commit dispatch run_id request_id now
          normalize_name strip query s)
unfolding submit new_request
submit-Submitted before_commit after_conflict after_commit dispatch run_id request_id now
      normalize_name strip query s b c a u =
    let nq = normalize_name query in
    submit_unless-Submitted nq (not (is_none (dispatch run_id))) before_commit after_conflict
      after_commit dispatch run_id request_id now b c a refl
      (new_request request_id now (strip query) nq) (get_active_request nq s) s refl
      (ground (arith, (eq_iff nq nq).1 refl)) u (λ r f. get_active_request-passes nq s r f)
