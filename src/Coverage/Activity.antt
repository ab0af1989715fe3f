-- ===== src/Coverage/Activity.antt =====
-- `recompute_job_activity` of backend/app/ingestion/coverage/repository.py: which postings are active.
pub mod Ids
pub mod Batches
use job_search.Base.{
  ℕ, zero, suc, ◌+◌, ◌≤◌, ◌≡◌, refl, ap, ◌∙◌, sym, Bool, true, false, not, ◌&&◌, ◌||◌, List, [],
  ◌∷◌, ◌++◌, map, arith, ltb, ◌==◌, ==_iff, ◌<◌, All, contains, any_of, count_of, length, take,
  drop, if◌then◌else◌, Bool-cases, inl, inr, Option, some, none,
}
use job_search.Coverage.Models.{JobSource, JobPosting}

-- `sorted(set(ids))`
pub insert_id : ℕ → List ℕ → List ℕ
insert_id a [] = a ∷ []
insert_id a (x ∷ xs) = if a == x then x ∷ xs else if ltb a x then a ∷ x ∷ xs else x ∷ insert_id a xs

unfoldable pub sorted_ids : List ℕ → List ℕ
unfolding insert_id
sorted_ids [] = []
sorted_ids (a ∷ xs) = insert_id a (sorted_ids xs)

abbrev pub job_activity_batch_size : ℕ
job_activity_batch_size = 500

-- A posting that some active source points at.
unfoldable pub has_active_source : List JobSource → ℕ → Bool
has_active_source sources posting_id =
    any_of (λ s. s.job_posting_id == posting_id && s.is_active) sources

unfoldable pub refresh_posting : List ℕ → List JobSource → JobPosting → JobPosting
refresh_posting ids sources p =
    if contains ids p.id then record p { is_active = has_active_source sources p.id } else p

-- One batch: the postings of the batch get their activity, and are counted.
pub refresh_batch : List ℕ → List JobSource → List JobPosting → List JobPosting × ℕ
refresh_batch batch sources postings =
    (map (refresh_posting batch sources) postings, count_of (λ p. contains batch p.id) postings)

-- The loop over the batches. The number of ids is fuel enough, since no batch is empty.
unfoldable pub refresh_batches :
    ℕ → List ℕ → List JobSource → List JobPosting → ℕ → List JobPosting × ℕ
unfolding refresh_batch
refresh_batches fuel [] sources postings count = (postings, count)
refresh_batches zero (a ∷ ids) sources postings count = (postings, count)
refresh_batches (suc fuel) (a ∷ ids) sources postings count =
    let (postings', n) = refresh_batch (take job_activity_batch_size (a ∷ ids)) sources postings in
    refresh_batches fuel (drop job_activity_batch_size (a ∷ ids)) sources postings' (count + n)

unfoldable pub recompute_job_activity :
    List ℕ → List JobSource → List JobPosting → List JobPosting × ℕ
recompute_job_activity job_ids sources postings =
    let ids = sorted_ids job_ids in refresh_batches (length ids) ids sources postings 0
