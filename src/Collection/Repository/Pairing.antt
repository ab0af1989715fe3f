-- ===== src/Collection/Repository/Pairing.antt =====
-- A crawl run and its collection request change together, under every call of
-- backend/app/collection/repository.py.
use job_search.Base.{
  ℕ, ◌≡◌, refl, sym, ◌∙◌, Option, none, some, List, [], ◌∷◌, arith, ◌==◌, ==_iff, Bool-cases, inl,
  inr,
}
use job_search.Base.Table
use job_search.Base.Table.{get-put}
use job_search.Collection.Models.{CrawlRun, CollectionRequest}
use job_search.Collection.Session.{Tables, Session, paired_write}
use job_search.Collection.Repository.Machine.{
  Transition, IsKeyed, Moved, same, moved, same_status, same_link, same_ids,
}
use job_search.Collection.Repository.Steps.{BelongsTo, IsCopyOf}
use job_search.Collection.Repository.Events.{
  Event, claim, undispatch, requeue, exhaust, finish_run, perform, perform_all, perform-Moved,
  IsLinked,
}

abbrev pub link_of : Option CrawlRun → Option ℕ
link_of none = none
link_of (some run) = run.collection_request_id

-- Rows stand under their ids, no two runs share a request, and a run has the status of its request.
pub record IsPaired (t : Tables) : Type 0 where
  pub keyed : IsKeyed t
  pub linked_once :
      (j k q : ℕ)
      → link_of (Table.get j t.runs) ≡ some q
      → link_of (Table.get k t.runs) ≡ some q
      → j ≡ k
  pub same_state :
      (k q : ℕ) (run : CrawlRun) (request : CollectionRequest)
      → Table.get k t.runs ≡ some run
      → run.collection_request_id ≡ some q
      → Table.get q t.requests ≡ some request
      → run.status ≡ request.status

module _ (t : Tables) (run_id request_id : ℕ) (run run' : CrawlRun)
    (request request' : CollectionRequest) (a : Table.get run_id t.runs ≡ some run)
    (b : Table.get request_id t.requests ≡ some request)
    (step : Transition run run' request request')
    (link : run.collection_request_id ≡ some request_id) where
  abbrev after : Tables
  after = paired_write run_id run' request_id request' t

  link_kept : (k : ℕ) → link_of (Table.get k after.runs) ≡ link_of (Table.get k t.runs)
  link_kept k = rw get-put (elim (Bool-cases (run_id == k)) [
    | inl p ↦ rw p (rw (← (==_iff run_id k).0 p) (rw a (same_link step)))
    | inr p ↦ rw p refl
  ])

  IsKeyed-after : IsKeyed t → IsKeyed after
  IsKeyed-after keyed = record {
    run_ids = λ k r.
        rw get-put (ground (arith, same_ids step, keyed.run_ids k r, keyed.run_ids run_id run));
    request_ids = λ k q. rw get-put (
        ground (arith, same_ids step, keyed.request_ids k q, keyed.request_ids request_id request));
  }

  state_kept :
      IsPaired t
      → (k q : ℕ) (r : CrawlRun) (s : CollectionRequest) → Table.get k after.runs ≡ some r
      → r.collection_request_id ≡ some q
      → Table.get q after.requests ≡ some s
      → r.status ≡ s.status
  state_kept paired k q r s =
      rw (get-put, get-put)
        (ground (
          arith,
          same_status step,
          same_link step,
          paired.linked_once k run_id request_id,
          paired.same_state k q r s,
        ))

  IsPaired-after : IsPaired t → IsPaired after
  IsPaired-after paired = record {
    keyed = IsKeyed-after paired.keyed;
    linked_once =
        λ j k q lj lk. paired.linked_once j k q (sym (link_kept j) ∙ lj) (sym (link_kept k) ∙ lk);
    same_state = state_kept paired;
  }

IsPaired-Moved :
    {shown : Option ℕ} {L : Type 0} {t t' : Tables}
    → L
    → IsPaired t
    → Moved shown L t t'
    → IsPaired t'
IsPaired-Moved l paired (same e) = rw e paired
IsPaired-Moved {t = t} l paired
      (moved run_id request_id run run' request request' a b step tok link e) =
    rw e (IsPaired-after t run_id request_id run run' request request' a b step (link l) paired)

-- What the callers are to see to: a claim names the run's own request, and a worker finishes with a
-- copy of a run that the store has under that id.
abbrev pub Honest : Event → Tables → Type 0
Honest (claim run_id request_id token now) t = BelongsTo t run_id request_id
Honest (finish_run run token report now) t = IsCopyOf run t
Honest (undispatch run_id now) t = Unit
Honest (requeue run_id token now) t = Unit
Honest (exhaust run_id token now) t = Unit

abbrev pub AllHonest : List Event → Session → Type 0
AllHonest [] s = Unit
AllHonest (e ∷ es) s = Honest e s.committed × AllHonest es (perform e s)

IsLinked-Honest : (e : Event) {t : Tables} → IsKeyed t → Honest e t → IsLinked e t
IsLinked-Honest (claim run_id request_id token now) k h = h
IsLinked-Honest (finish_run run token report now) k h = h
IsLinked-Honest (undispatch run_id now) k h = k
IsLinked-Honest (requeue run_id token now) k h = k
IsLinked-Honest (exhaust run_id token now) k h = k

-- Whatever honest calls follow one another, a run and its request have one status.
pub IsPaired-perform_all :
    (es : List Event) (s : Session)
    → AllHonest es s
    → IsPaired s.committed
    → IsPaired (perform_all es s).committed
unfolding perform_all
IsPaired-perform_all [] s h paired = paired
IsPaired-perform_all (e ∷ es) s h paired =
    IsPaired-perform_all es (perform e s) h.1
      (IsPaired-Moved (IsLinked-Honest e paired.keyed h.0) paired (perform-Moved e s))
