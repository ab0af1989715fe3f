-- ===== src/Collection/Repository/Steps.antt =====
-- Each method of backend/app/collection/repository.py makes at most one step of the state machine.
use job_search.Base.{
  ℕ, ◌≡◌, refl, inl, inr, Bool, true, false, not, ◌||◌, Option, none, some, arith, holds,
  if◌then◌else◌, if◌then◌else◌, Bool-cases, Option-cases,
}
use job_search.Base.Table
use job_search.Collection.Models.{
  CrawlRun, queued, running, CollectionRequest, is_queued, is_running, is_terminal,
}
use job_search.Collection.Session.{
  Tables, Session, rollback, get_run, get_request, paired_update, paired_update_cases, clean,
}
use job_search.Collection.Repository.{
  FinishReport, get_request_for_run, lock_run_request, reload_run, after_update, claim_result,
  claim_values, claim_update, fail_values, fail_request_values, fail_queued_dispatch,
  fail_invalid_locked, requeue_values, requeue_for_retry, fail_retry_exhausted, finish, finished,
  finish_values, finish_request_values, is_owned,
}
use job_search.Collection.Repository.Machine.{Transition, Moved, same, moved, IsKeyed, token_of}

-- What `lock_run_request` returns are the run and the request that it names.
pub lock_run_request-eq_some :
    (run_id : ℕ) (s : Session) (run : CrawlRun) (request : CollectionRequest)
    → lock_run_request run_id s ≡ some (run, request)
    → (request_id : ℕ) × (get_run run_id s ≡ some run)
      × (run.collection_request_id ≡ some request_id)
      × (get_request request_id s ≡ some request)
unfolding lock_run_request get_request_for_run
lock_run_request-eq_some run_id s run request h = elim (Option-cases (get_run run_id s)) [
  | inl e ↦ absurd (ground arith)
  | inr (found, e) ↦ elim (Option-cases found.collection_request_id) [
    | inl e' ↦ absurd (ground arith)
    | inr (request_id, e') ↦ (request_id, ground arith, ground arith, ground arith)
  ]
]

-- In keyed tables the ids of a locked pair lead back to it.
locked_link :
    (run_id : ℕ) (s : Session) (run : CrawlRun) (request : CollectionRequest)
    → lock_run_request run_id (rollback s) ≡ some (run, request)
    → IsKeyed s.committed
    → (found : CrawlRun) → Table.get run_id s.committed.runs ≡ some found
    → (run.id ≡ run_id) × (found.collection_request_id ≡ some request.id)
locked_link run_id s run request h keyed found g =
    let (request_id, a, b, c) = lock_run_request-eq_some run_id (rollback s) run request h in
    (keyed.run_ids run_id run a, cc (keyed.request_ids request_id request c))

module _ (run_id : ℕ) (p : CrawlRun → Bool) (f : CrawlRun → CrawlRun) (request_id : ℕ)
    (q : CollectionRequest → Bool) (g : CollectionRequest → CollectionRequest) (t : Tables)
    {presented : Option ℕ} {Linked : Type 0}
    (step : (run : CrawlRun) (request : CollectionRequest)
      → p run ≡ true
      → q request ≡ true
      → (tr : Transition run (f run) request (g request)) × (token_of tr ≡ presented))
    (link : Linked
      → (run : CrawlRun) → Table.get run_id t.runs ≡ some run
      → run.collection_request_id ≡ some request_id) where
  -- Paired updates whose tests allow the transition make it, or change nothing.
  paired_update-Moved :
      Moved presented Linked t (paired_update run_id p f request_id q g (clean t)).1.committed
  paired_update-Moved = elim (paired_update_cases run_id p f request_id q g (clean t)) [
    | inl e ↦ rw e (same refl)
    | inr (run, request, e, e', h, h', u) ↦
        let (tr, token) = step run request h h' in
        rw u (
          moved run_id request_id run (f run) request (g request) e e' tr token (λ l. link l run e)
            refl)
  ]

committed-claim_result :
    (run_id token : ℕ) (b : Bool) (s : Session) → (claim_result run_id token (b, s)).1 ≡ s
unfolding claim_result
committed-claim_result run_id token true s = refl
committed-claim_result run_id token false s = ground arith

committed-finished : (run_id : ℕ) (b : Bool) (s : Session) → (finished run_id (b, s)).1 ≡ s
unfolding finished
committed-finished run_id b s = ground arith

-- The stored run, if there is one, belongs to the request.
abbrev pub BelongsTo : Tables → ℕ → ℕ → Type 0
BelongsTo t run_id request_id =
    (run : CrawlRun)
    → Table.get run_id t.runs ≡ some run
    → run.collection_request_id ≡ some request_id

-- The updates of a claim make one step from what the others left, or none.
pub claim_update-Moved :
    (other : Tables → Tables) (run_id request_id token now : ℕ) (s : Session)
    → Moved none
        (BelongsTo (other s.committed) run_id request_id)
        (other s.committed)
        (claim_update other run_id request_id token now s).1.committed
unfolding claim_update
claim_update-Moved other run_id request_id token now s =
    let updated =
      paired_update run_id (λ run. is_queued run.status) (claim_values token now) request_id
        (λ request. is_queued request.status) (λ request. record request { status = running })
        (clean (other s.committed)) in
    rw (committed-claim_result run_id token updated.0 updated.1) (
      paired_update-Moved run_id _ _ request_id _ _ (other s.committed)
        (λ run request h h'. (Transition.claim token now h h' refl refl, refl)) (λ l. l))

module _ (run_id now : ℕ) (s : Session) where
  pub fail_queued_dispatch-Moved :
      Moved none (IsKeyed s.committed) s.committed (fail_queued_dispatch run_id now s).1.committed
  unfolding fail_queued_dispatch
  fail_queued_dispatch-Moved = elim (Option-cases (lock_run_request run_id (rollback s))) [
    | inl e ↦ rw (e, fail_queued_dispatch) (same refl)
    | inr ((run, request), e) ↦
        elim (Bool-cases (not (is_queued run.status) || not (is_queued request.status))) [
          | inl h ↦ rw (e, fail_queued_dispatch) (rw h (same refl))
          | inr h ↦
              rw (e, fail_queued_dispatch)
                (rw h (
                  paired_update-Moved run_id _ _ request.id _ _ s.committed
                    (λ run request h h'. (Transition.undispatch now h h' refl refl, refl))
                    (λ k found g. (locked_link run_id s run request e k found g).1)))
        ]
  ]

fail_invalid_locked-Moved :
    (run : CrawlRun) (request : CollectionRequest) (token now : ℕ) (t : Tables) (Linked : Type 0)
    → (Linked → BelongsTo t run.id request.id)
    → Moved (some token) Linked t (fail_invalid_locked run request token now (clean t)).1.committed
unfolding fail_invalid_locked
fail_invalid_locked-Moved run request token now t Linked link =
    elim (Bool-cases (
      not (is_running run.status)
      || not (holds run.claim_token token)
      || not (is_queued request.status))) [
        | inl h ↦ rw h (same refl)
        | inr h ↦ rw h (
            paired_update-Moved run.id _ _ request.id _ _ t
              (λ run request h h'. (Transition.invalidate token now h h' refl refl, refl)) link)
      ]

-- A call that leaves what it finds, or makes one step with the token.
record Moves {A : Type 0} (token : ℕ) (t : Tables) (x : A × Session) : Type 0 where
  at : Moved (some token) (IsKeyed t) t x.1.committed

Moves-if :
    {A : Type 0} {token : ℕ} {t : Tables} (b : Bool) (x y : A × Session)
    → Moves token t x
    → Moves token t y
    → Moves token t (if b then x else y)
Moves-if true x y mx my = mx
Moves-if false x y mx my = my

reload_run-Moves : (token run_id : ℕ) (s : Session) → Moves token s.committed (reload_run run_id s)
unfolding reload_run
reload_run-Moves token run_id s = record { at = same refl }

fail_invalid_locked-Moves :
    (run_id : ℕ) (run : CrawlRun) (request : CollectionRequest) (token now : ℕ) (s : Session)
    → lock_run_request run_id (rollback s) ≡ some (run, request)
    → Moves token s.committed (fail_invalid_locked run request token now (rollback s))
fail_invalid_locked-Moves run_id run request token now s e = record {
  at =
      fail_invalid_locked-Moved run request token now s.committed (IsKeyed s.committed)
        (λ keyed found g.
          let (request_id, a, b, c) = lock_run_request-eq_some run_id (rollback s) run request e in
          let same_id = keyed.run_ids run_id run a in
          (locked_link run_id s run request e keyed found (rw same_id at g)).1);
}

module _ (run_id token now : ℕ) (s : Session) where
  requeue_for_retry-Moves : Moves token s.committed (requeue_for_retry run_id token now s)
  unfolding requeue_for_retry reload_run fail_invalid_locked after_update
  requeue_for_retry-Moves = elim (Option-cases (lock_run_request run_id (rollback s))) [
    | inl e ↦ rw (e, requeue_for_retry) (reload_run-Moves token run_id s)
    | inr ((run, request), e) ↦
        let requeued =
          paired_update-Moved run_id (is_owned token) requeue_values request.id
            (λ q. is_running q.status) (λ q. record q { status = queued }) s.committed
            {presented = some token} {Linked = IsKeyed s.committed}
            (λ r q h h'. (Transition.requeue token h h' refl refl, refl))
            (λ k found g. (locked_link run_id s run request e k found g).1) in
        rw (e, requeue_for_retry)
          (search (Moves-if, reload_run-Moves, fail_invalid_locked-Moves run_id, e, requeued) depth
            8)
  ]

  fail_retry_exhausted-Moves : Moves token s.committed (fail_retry_exhausted run_id token now s)
  unfolding fail_retry_exhausted reload_run fail_invalid_locked after_update
  fail_retry_exhausted-Moves = elim (Option-cases (lock_run_request run_id (rollback s))) [
    | inl e ↦ rw (e, fail_retry_exhausted) (reload_run-Moves token run_id s)
    | inr ((run, request), e) ↦
        let exhausted =
          paired_update-Moved run_id (is_owned token) (fail_values "collection_unavailable" now)
            request.id (λ q. is_running q.status) (fail_request_values "collection_unavailable" now)
            s.committed {presented = some token} {Linked = IsKeyed s.committed}
            (λ r q h h'. (Transition.exhaust token now h h' refl refl, refl))
            (λ k found g. (locked_link run_id s run request e k found g).1) in
        rw (e, fail_retry_exhausted)
          (search (Moves-if, reload_run-Moves, fail_invalid_locked-Moves run_id, e, exhausted) depth
            8)
  ]

  pub requeue_for_retry-Moved :
      Moved
        (some token)
        (IsKeyed s.committed)
        s.committed
        (requeue_for_retry run_id token now s).1.committed
  requeue_for_retry-Moved = requeue_for_retry-Moves.at

  pub fail_retry_exhausted-Moved :
      Moved
        (some token)
        (IsKeyed s.committed)
        s.committed
        (fail_retry_exhausted run_id token now s).1.committed
  fail_retry_exhausted-Moved = fail_retry_exhausted-Moves.at

-- A stored run that has the id of the worker's copy belongs to the same request.
abbrev pub IsCopyOf : CrawlRun → Tables → Type 0
IsCopyOf run t =
    (found : CrawlRun)
    → Table.get run.id t.runs ≡ some found
    → found.collection_request_id ≡ run.collection_request_id

pub finish-Moved :
    (run : CrawlRun) (token : ℕ) (report : FinishReport) (now : ℕ) (s : Session)
    → Moved
        (some token)
        (IsCopyOf run s.committed)
        s.committed
        (finish run token report now s).1.committed
unfolding finish
finish-Moved run token report now s = elim (Bool-cases (is_terminal report.status)) [
  | inr h ↦ rw h (same refl)
  | inl h ↦ elim (Option-cases run.collection_request_id) [
    | inl e ↦ rw (e, finish) (rw h (same refl))
    | inr (request_id, e) ↦
        let updated =
          paired_update run.id (is_owned token) (finish_values report now) request_id
            (λ q. is_running q.status) (finish_request_values report now) (clean s.committed) in
        rw (e, finish)
          (rw h (
            rw (committed-finished run.id updated.0 updated.1) (
              paired_update-Moved run.id _ _ request_id _ _ s.committed
                (λ run request h' h''.
                  (Transition.finish token now report h h' h'' refl refl, refl))
                (λ copy. copy))))
  ]
]
