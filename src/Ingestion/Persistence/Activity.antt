-- ===== src/Ingestion/Persistence/Activity.antt =====
-- Whether a posting is active and whether a source of it is, as lists of rows: what the changes of
-- `_upsert_jobs` (backend/app/ingestion/persistence/service.py) do to them.
use job_search.Base.{
  first, keep, ℕ, ◌==◌, ◌≡◌, ◌≢◌, refl, Bool, false, not, some, List, [], ◌∷◌, ◌++◌, any_of,
  if◌then◌else◌, arith,
}
use job_search.Ingestion.DirectAts.{JobPosting}
use job_search.Ingestion.Persistence.{Tables}
use job_search.Ingestion.Persistence.Contracts.{NormalizedJobRecord}
use job_search.Ingestion.Persistence.Conflicts.{change_first}
use job_search.Ingestion.Persistence.Jobs.{merged_job}
use job_search.Ingestion.Persistence.JobLoop.{is_active_source}

-- What the posting of an id says, if it is there.
unfoldable pub shown_activity : ℕ → List JobPosting → Bool → Bool
shown_activity j [] default = default
shown_activity j (p ∷ postings) default =
    if p.id == j then p.is_active else shown_activity j postings default

-- The posting of an id, if it is there, is active just where one of its sources is.
unfoldable pub Agrees : ℕ → Tables → Type 0
Agrees j t =
    let active = any_of (is_active_source j) t.sources in
    shown_activity j t.postings active ≡ active

pub any_of-change_first :
    {A : Type 0} (p q : A → Bool) (f : A → A) (xs : List A) (x : A)
    → first p xs ≡ some x
    → q x ≡ false
    → q (f x) ≡ false
    → any_of q (change_first p f xs) ≡ any_of q xs
unfolding first change_first
any_of-change_first p q f [] x e h h' = refl
any_of-change_first p q f (y ∷ xs) x e h h' = ground (arith, any_of-change_first p q f xs x)

module _ (j : ℕ) where
  pub shown_activity-append :
      (p : JobPosting) (postings : List JobPosting) (default : Bool)
      → p.id ≢ j
      → shown_activity j (postings ++ p ∷ []) default ≡ shown_activity j postings default
  unfolding shown_activity
  shown_activity-append p [] default h = ground arith
  shown_activity-append p (q ∷ postings) default h =
      ground (arith, shown_activity-append p postings default h)

  pub shown_activity-merged_job :
      (k : ℕ) (item : NormalizedJobRecord) (postings : List JobPosting) (default : Bool)
      → shown_activity j (change_first (λ p. p.id == k) (merged_job item) postings) default
        ≡ shown_activity j postings default
  unfolding shown_activity change_first
  shown_activity-merged_job k item [] default = refl
  shown_activity-merged_job k item (q ∷ postings) default =
      ground (arith, shown_activity-merged_job k item postings default)

  pub shown_activity-keep :
      (k : ℕ) (postings : List JobPosting) (default : Bool)
      → shown_activity j (keep (λ p. not (p.id == k)) postings) default
        ≡ (if k == j then default else shown_activity j postings default)
  unfolding shown_activity
  shown_activity-keep k [] default = ground arith
  shown_activity-keep k (q ∷ postings) default =
      ground (arith, shown_activity-keep k postings default)

  pub shown_activity-change_first :
      (k : ℕ) (active : Bool) (postings : List JobPosting) (default : Bool)
      → (k ≡ j → active ≡ default)
      → (k ≢ j → shown_activity j postings default ≡ default)
      → shown_activity j
          (change_first (λ p. p.id == k) (λ p. record p { is_active = active }) postings)
          default
        ≡ default
  unfolding shown_activity change_first
  shown_activity-change_first k active [] default h h' = refl
  shown_activity-change_first k active (q ∷ postings) default h h' =
      ground (arith, shown_activity-change_first k active postings default)
