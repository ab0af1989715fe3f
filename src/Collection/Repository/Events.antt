-- ===== src/Collection/Repository/Events.antt =====
-- Workers, the scheduler and the API as a sequence of calls on one database: the methods of
-- backend/app/collection/repository.py in any order and with any arguments.
use job_search.Base.{
  ℕ, ◌≡◌, refl, ◌∙◌, ◌≢◌, ◌⊎◌, inl, inr, true, Option, none, some, List, [], ◌∷◌, arith, All, ◌==◌,
  ==_iff, Bool-cases,
}
use job_search.Base.Table
use job_search.Base.Table.{get-put}
use job_search.Collection.Models.{CrawlRun, CollectionRequest, is_running, is_terminal}
use job_search.Collection.Session.{Tables, Session}
use job_search.Collection.Repository.{
  FinishReport, claim_update, fail_queued_dispatch, requeue_for_retry, fail_retry_exhausted, finish,
}
use job_search.Collection.Repository.Machine.{
  Transition, IsKeyed, Moved, same, moved, token_of, not_terminal, token_of-eq_of_running,
}
use job_search.Collection.Repository.Steps.{
  claim_update-Moved, fail_queued_dispatch-Moved, requeue_for_retry-Moved,
  fail_retry_exhausted-Moved, finish-Moved, BelongsTo, IsCopyOf,
}

-- A claim stands as its updates: what it read before may be as old as the interleaving makes it.
pub data Event : Type 0 where
  claim : (run_id request_id token now : ℕ) → Event
  undispatch : (run_id now : ℕ) → Event
  requeue exhaust : (run_id token now : ℕ) → Event
  finish_run : (run : CrawlRun) (token : ℕ) (report : FinishReport) (now : ℕ) → Event

unfoldable pub perform : Event → Session → Session
perform (claim run_id request_id token now) s =
    (claim_update (λ t. t) run_id request_id token now s).1
perform (undispatch run_id now) s = (fail_queued_dispatch run_id now s).1
perform (requeue run_id token now) s = (requeue_for_retry run_id token now s).1
perform (exhaust run_id token now) s = (fail_retry_exhausted run_id token now s).1
perform (finish_run run token report now) s = (finish run token report now s).1

unfoldable pub perform_all : List Event → Session → Session
perform_all [] s = s
perform_all (e ∷ es) s = perform_all es (perform e s)

-- The claim token that a call presents.
abbrev pub presented : Event → Option ℕ
presented (claim run_id request_id token now) = none
presented (undispatch run_id now) = none
presented (requeue run_id token now) = some token
presented (exhaust run_id token now) = some token
presented (finish_run run token report now) = some token

-- The arguments name a run and its own request.
abbrev pub IsLinked : Event → Tables → Type 0
IsLinked (claim run_id request_id token now) t = BelongsTo t run_id request_id
IsLinked (finish_run run token report now) t = IsCopyOf run t
IsLinked (undispatch run_id now) t = IsKeyed t
IsLinked (requeue run_id token now) t = IsKeyed t
IsLinked (exhaust run_id token now) t = IsKeyed t

pub perform-Moved :
    (e : Event) (s : Session)
    → Moved (presented e) (IsLinked e s.committed) s.committed (perform e s).committed
unfolding perform
perform-Moved (claim run_id request_id token now) s =
    claim_update-Moved (λ t. t) run_id request_id token now s
perform-Moved (undispatch run_id now) s = fail_queued_dispatch-Moved run_id now s
perform-Moved (requeue run_id token now) s = requeue_for_retry-Moved run_id token now s
perform-Moved (exhaust run_id token now) s = fail_retry_exhausted-Moved run_id token now s
perform-Moved (finish_run run token report now) s = finish-Moved run token report now s

-- What a move does to one row of the runs: nothing, or one transition under the presented token.
row_of_Moved :
    {shown : Option ℕ} {L : Type 0} {t t' : Tables} (j : ℕ)
    → Moved shown L t t'
    → (Table.get j t'.runs ≡ Table.get j t.runs)
      ⊎ ((run : CrawlRun) × (run' : CrawlRun) × (request : CollectionRequest)
          × (request' : CollectionRequest) × (step : Transition run run' request request')
          × (token_of step ≡ shown)
          × (Table.get j t.runs ≡ some run)
          × (Table.get j t'.runs ≡ some run'))
row_of_Moved j (same e) = inl (rw e refl)
row_of_Moved j (moved run_id request_id run run' request request' a b step tok link e) =
    elim (Bool-cases (run_id == j)) [
      | inl p ↦ inr (
        run,
        run',
        request,
        request',
        step,
        tok,
        rw (← (==_iff run_id j).0 p) a,
        rw e (rw get-put (rw p refl)),
      )
      | inr p ↦ inl (rw e (rw get-put (rw p refl)))
    ]

module _ (j : ℕ) (r : CrawlRun) where
  terminal_of_Moved :
      {shown : Option ℕ} {L : Type 0} {t t' : Tables}
      → Table.get j t.runs ≡ some r
      → is_terminal r.status ≡ true
      → Moved shown L t t'
      → Table.get j t'.runs ≡ some r
  terminal_of_Moved g h m = elim (row_of_Moved j m) [
    | inl e ↦ e ∙ g
    | inr (run, run', request, request', step, tok, a, b) ↦ ground (arith, not_terminal step)
  ]

  -- A run that has reached a terminal status keeps its whole row, whatever calls follow.
  pub terminal_forever :
      (es : List Event) (s : Session)
      → Table.get j s.committed.runs ≡ some r
      → is_terminal r.status ≡ true
      → Table.get j (perform_all es s).committed.runs ≡ some r
  unfolding perform_all
  terminal_forever [] s g h = g
  terminal_forever (e ∷ es) s g h =
      terminal_forever es (perform e s) (terminal_of_Moved g h (perform-Moved e s)) h

  fenced_of_Moved :
      {shown : Option ℕ} {L : Type 0} {t t' : Tables}
      → Table.get j t.runs ≡ some r
      → is_running r.status ≡ true
      → shown ≢ r.claim_token
      → Moved shown L t t'
      → Table.get j t'.runs ≡ some r
  fenced_of_Moved g h ne m = elim (row_of_Moved j m) [
    | inl e ↦ e ∙ g
    | inr (run, run', request, request', step, tok, a, b) ↦
        let same_run : run ≡ r = cc in
        let (token, t, c) = token_of-eq_of_running step (rw same_run h) in absurd (ne (cc))
  ]

  -- While a run is running, calls that do not present its claim token leave its row as it is: no other
  -- worker can claim it, finish it, fail it or put it back in the queue.
  pub fenced_by_token :
      (es : List Event) (s : Session)
      → Table.get j s.committed.runs ≡ some r
      → is_running r.status ≡ true
      → All (λ e. presented e ≢ r.claim_token) es
      → Table.get j (perform_all es s).committed.runs ≡ some r
  unfolding perform_all
  fenced_by_token [] s g h ne = g
  fenced_by_token (e ∷ es) s g h ne =
      fenced_by_token es (perform e s) (fenced_of_Moved g h ne.0 (perform-Moved e s)) h ne.1
