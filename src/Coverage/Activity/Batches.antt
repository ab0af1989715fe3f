-- ===== src/Coverage/Activity/Batches.antt =====
-- The batches of `recompute_job_activity` of backend/app/ingestion/coverage/repository.py against
-- one pass over the postings.
use job_search.Base.{
  ℕ, zero, suc, ◌+◌, ◌≤◌, ◌≡◌, refl, ap, ◌∙◌, sym, Bool, false, ◌&&◌, ◌||◌, List, [], ◌∷◌, map,
  arith, contains, count_of, length, take, drop,
}
use job_search.Coverage.Models.{JobSource, JobPosting}
use job_search.Coverage.Activity.{
  sorted_ids, job_activity_batch_size, refresh_posting, refresh_batches, recompute_job_activity,
}
use job_search.Coverage.Activity.Ids.{
  Ascending, contains-sorted_ids, contains-take-drop, length-drop-le, drop-Ascending,
  disjoint_parts, sorted_ids-Ascending,
}

-- Refreshing by one list of ids and then another is refreshing by the two together.
refresh_twice :
    (xs ys zs : List ℕ) (sources : List JobSource)
    → ((b : ℕ) → (contains xs b || contains ys b) ≡ contains zs b)
    → (postings : List JobPosting)
    → map (refresh_posting ys sources) (map (refresh_posting xs sources) postings)
      ≡ map (refresh_posting zs sources) postings
unfolding refresh_posting
refresh_twice xs ys zs sources h [] = refl
refresh_twice xs ys zs sources h (p ∷ ps) = cc (refresh_twice xs ys zs sources h ps, one)
  where
    one : refresh_posting ys sources (refresh_posting xs sources p) ≡ refresh_posting zs sources p
    one = ground (arith, h p.id)

refresh_none :
    (sources : List JobSource) (postings : List JobPosting)
    → map (refresh_posting [] sources) postings ≡ postings
unfolding refresh_posting
refresh_none sources [] = refl
refresh_none sources (p ∷ ps) = ap (λ t. p ∷ t) (refresh_none sources ps)

-- With fuel for every id, the batches refresh each posting that is asked for, and no other.
refresh_batches_lem :
    (fuel : ℕ) (ids : List ℕ) (sources : List JobSource) (postings : List JobPosting) (count : ℕ)
    → length ids ≤ fuel
    → (refresh_batches fuel ids sources postings count).0
      ≡ map (refresh_posting ids sources) postings
unfolding refresh_batches
refresh_batches_lem fuel [] sources postings count h = sym (refresh_none sources postings)
refresh_batches_lem zero (a ∷ ids) sources postings count h = absurd (omega arith)
refresh_batches_lem (suc fuel) (a ∷ ids) sources postings count h =
    refresh_batches_lem fuel (drop job_activity_batch_size (a ∷ ids)) sources _ _
      (omega (arith, length-drop-le 499 a ids))
    ∙ refresh_twice (take job_activity_batch_size (a ∷ ids))
        (drop job_activity_batch_size (a ∷ ids)) (a ∷ ids) sources
        (contains-take-drop job_activity_batch_size (a ∷ ids)) postings

count_of-or :
    (p q r : JobPosting → Bool) (ps : List JobPosting)
    → ((x : JobPosting) → (p x || q x) ≡ r x)
    → ((x : JobPosting) → (p x && q x) ≡ false)
    → count_of p ps + count_of q ps ≡ count_of r ps
count_of-or p q r [] h d = refl
count_of-or p q r (x ∷ ps) h d = ground (arith, count_of-or p q r ps h d, h x, d x)

count_of-refresh :
    (xs ids : List ℕ) (sources : List JobSource) (ps : List JobPosting)
    → count_of (λ p. contains ids p.id) (map (refresh_posting xs sources) ps)
      ≡ count_of (λ p. contains ids p.id) ps
unfolding refresh_posting
count_of-refresh xs ids sources [] = refl
count_of-refresh xs ids sources (p ∷ ps) = ground (arith, count_of-refresh xs ids sources ps)

count_none : (ps : List JobPosting) → count_of (λ p. contains [] p.id) ps ≡ 0
count_none [] = refl
count_none (p ∷ ps) = omega (arith, count_none ps)

refresh_batches_count :
    (fuel : ℕ) (ids : List ℕ) (sources : List JobSource) (ps : List JobPosting) (count : ℕ)
    → length ids ≤ fuel
    → Ascending ids
    → (refresh_batches fuel ids sources ps count).1 ≡ count + count_of (λ p. contains ids p.id) ps
unfolding refresh_batches
refresh_batches_count fuel [] sources ps count h asc = omega (arith, count_none ps)
refresh_batches_count zero (a ∷ ids) sources ps count h asc = absurd (omega arith)
refresh_batches_count (suc fuel) (a ∷ ids) sources ps count h asc =
    let batch = take job_activity_batch_size (a ∷ ids) in
    let rest = drop job_activity_batch_size (a ∷ ids) in
    omega (
      arith,
      refresh_batches_count fuel rest sources (map (refresh_posting batch sources) ps)
          (count + count_of (λ p. contains batch p.id) ps) (omega (arith, length-drop-le 499 a ids))
          (drop-Ascending job_activity_batch_size (a ∷ ids) asc),
      count_of-refresh batch rest sources ps,
      count_of-or (λ p. contains batch p.id) (λ p. contains rest p.id)
          (λ p. contains (a ∷ ids) p.id) ps
          (λ p. contains-take-drop job_activity_batch_size (a ∷ ids) p.id)
          (λ p. disjoint_parts job_activity_batch_size (a ∷ ids) p.id asc),
    )

refresh_same :
    (xs ys : List ℕ) (sources : List JobSource)
    → ((b : ℕ) → contains xs b ≡ contains ys b)
    → (postings : List JobPosting)
    → map (refresh_posting xs sources) postings ≡ map (refresh_posting ys sources) postings
unfolding refresh_posting
refresh_same xs ys sources h [] = refl
refresh_same xs ys sources h (p ∷ ps) = rw (h p.id, refresh_same xs ys sources h ps) refl

count_same :
    (xs ys : List ℕ)
    → ((b : ℕ) → contains xs b ≡ contains ys b)
    → (postings : List JobPosting)
    → 0 + count_of (λ p. contains xs p.id) postings ≡ count_of (λ p. contains ys p.id) postings
count_same xs ys h [] = refl
count_same xs ys h (p ∷ ps) = ground (arith, h p.id, count_same xs ys h ps)

pair_path : {A B : Type 0} {x y : A × B} → x.0 ≡ y.0 → x.1 ≡ y.1 → x ≡ y
pair_path p q = λ i. (p i, q i)

-- Whatever ids are asked for, with repetitions and in any order, each posting that is asked for becomes
-- active exactly if it has an active source, the others stay as they are, and the count is the number of
-- postings that are asked for: the batches make no difference.
pub recompute_job_activity_lem :
    (job_ids : List ℕ) (sources : List JobSource) (postings : List JobPosting)
    → recompute_job_activity job_ids sources postings ≡ (
      map (refresh_posting job_ids sources) postings,
      count_of (λ p. contains job_ids p.id) postings,
    )
unfolding recompute_job_activity
recompute_job_activity_lem job_ids sources postings =
    let ids = sorted_ids job_ids in
    let same : (b : ℕ) → contains ids b ≡ contains job_ids b = contains-sorted_ids job_ids in
    pair_path
      (refresh_batches_lem (length ids) ids sources postings 0 (omega arith)
        ∙ refresh_same ids job_ids sources same postings)
      (refresh_batches_count (length ids) ids sources postings 0 (omega arith)
          (sorted_ids-Ascending job_ids)
        ∙ count_same ids job_ids same postings)
