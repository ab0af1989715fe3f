-- ===== src/Manifest/Members/Diversity.antt =====
-- `_diversity_order` of backend/app/manifest/allocation.py loses and invents no candidate.
use job_search.Base.{
  count_of-append, any_item, count_of-any, ℕ, zero, suc, ◌+◌, ◌≤◌, ◌<◌, ◌≡◌, refl, sym, ◌∙◌, inl,
  inr, String, Bool, true, false, List, [], ◌∷◌, ◌++◌, map, keep, all_of, count_of, length, All,
  arith, Bool-cases, if◌then◌else◌,
}
use job_search.Apportion.{sum_of, sort_by}
use job_search.Apportion.Sorting.{sum_of-sort_by}
use job_search.Manifest.Members.{
  ConfidenceTier, ResolvedCandidate, same_pair, pair_before, bucket_of, candidate_before,
  bucket_keys, is_empty, pop_heads, pop_tails, rounds, tier_order, of_tier, tiers_order,
  diversity_order,
}
use job_search.Manifest.Members.Buckets.{times, times_at_most, buckets_present}

count_of-sum_of {ℓ} :
    {A : Type ℓ} (p : A → Bool) (xs : List A)
    → count_of p xs ≡ sum_of (λ x. if p x then 1 else 0) xs
count_of-sum_of p [] = refl
count_of-sum_of p (x ∷ xs) = omega (arith, count_of-sum_of p xs)

count_of-sort_by {ℓ} :
    {A : Type ℓ} (p : A → Bool) (before : A → A → Bool) (xs : List A)
    → count_of p (sort_by before xs) ≡ count_of p xs
count_of-sort_by p before xs =
    count_of-sum_of p (sort_by before xs)
    ∙ sum_of-sort_by (λ x. if p x then 1 else 0) before xs
    ∙ sym (count_of-sum_of p xs)

module _ {A : Type 0} where
  count_of-pop :
      (p : A → Bool) (queues : List (List A))
      → count_of p (pop_heads queues) + sum_of (count_of p) (pop_tails queues)
        ≡ sum_of (count_of p) queues
  unfolding pop_heads pop_tails
  count_of-pop p [] = omega arith
  count_of-pop p ([] ∷ queues) = omega (arith, count_of-pop p queues)
  count_of-pop p ((x ∷ xs) ∷ queues) = omega (arith, count_of-pop p queues)

  empty_queues :
      (p : A → Bool) (queues : List (List A))
      → all_of is_empty queues ≡ true
      → sum_of (count_of p) queues ≡ 0
  empty_queues p [] h = refl
  empty_queues p ([] ∷ queues) h = omega (arith, empty_queues p queues h)
  empty_queues p ((x ∷ xs) ∷ queues) h = ground arith

  -- A round makes the queues shorter.
  shorter :
      (queues : List (List A))
      → all_of is_empty queues ≡ false
      → sum_of length (pop_tails queues) < sum_of length queues
  unfolding pop_tails
  shorter [] h = ground arith
  shorter ([] ∷ queues) h = omega (arith, shorter queues h)
  shorter ((x ∷ xs) ∷ queues) h = omega (arith, no_longer queues)
    where
      no_longer : (qs : List (List A)) → sum_of length (pop_tails qs) ≤ sum_of length qs
      no_longer [] = omega arith
      no_longer ([] ∷ qs) = omega (arith, no_longer qs)
      no_longer ((y ∷ ys) ∷ qs) = omega (arith, no_longer qs)

  no_items :
      (p : A → Bool) (queues : List (List A))
      → sum_of length queues ≤ 0
      → sum_of (count_of p) queues ≡ 0
  no_items p [] h = refl
  no_items p ([] ∷ queues) h = omega (arith, no_items p queues (omega (arith, h)))
  no_items p ((x ∷ xs) ∷ queues) h = absurd (omega (arith, h))

  count_of-rounds :
      (p : A → Bool) (fuel : ℕ) (queues : List (List A))
      → sum_of length queues ≤ fuel
      → count_of p (rounds fuel queues) ≡ sum_of (count_of p) queues
  unfolding rounds
  count_of-rounds p zero queues h = sym (no_items p queues h)
  count_of-rounds p (suc fuel) queues h = elim (Bool-cases (all_of is_empty queues)) [
    | inl e ↦ rw e (sym (empty_queues p queues e))
    | inr e ↦ rw e (
        let less = shorter queues e in
        let rest = count_of-rounds p fuel (pop_tails queues) (omega (arith, less, h)) in
        omega (
          arith,
          count_of-append p (pop_heads queues) (rounds fuel (pop_tails queues)),
          rest,
          count_of-pop p queues,
        ))
  ]

abbrev in_bucket : String × String → ResolvedCandidate → Bool
in_bucket key c = same_pair (bucket_of c) key

pub sum_of-ext {ℓ} :
    {A : Type ℓ} (f g : A → ℕ) (xs : List A) → ((a : A) → f a ≡ g a) → sum_of f xs ≡ sum_of g xs
sum_of-ext f g [] h = refl
sum_of-ext f g (x ∷ xs) h = omega (arith, h x, sum_of-ext f g xs h)

pub sum_of-map {ℓ κ} :
    {A : Type ℓ} {B : Type κ} (g : B → ℕ) (f : A → B) (xs : List A)
    → sum_of g (map f xs) ≡ sum_of (λ a. g (f a)) xs
sum_of-map g f [] = refl
sum_of-map g f (x ∷ xs) = omega (arith, sum_of-map g f xs)

module _ (p : ResolvedCandidate → Bool) where
  abbrev in_buckets : List (String × String) → List ResolvedCandidate → ℕ
  in_buckets keys xs = sum_of (λ key. count_of p (keep (in_bucket key) xs)) keys

  in_buckets-nil : (keys : List (String × String)) → in_buckets keys [] ≡ 0
  in_buckets-nil [] = refl
  in_buckets-nil (key ∷ keys) = omega (arith, in_buckets-nil keys)

  in_buckets-cons :
      (keys : List (String × String)) (c : ResolvedCandidate) (xs : List ResolvedCandidate)
      → in_buckets keys (c ∷ xs)
        ≡ (if p c then times (bucket_of c) keys else 0) + in_buckets keys xs
  in_buckets-cons [] c xs = ground arith
  in_buckets-cons (key ∷ keys) c xs = ground (arith, in_buckets-cons keys c xs)

  -- Keys that hold each bucket once share out the candidates.
  partition :
      (keys : List (String × String)) (xs : List ResolvedCandidate)
      → All (λ c. times (bucket_of c) keys ≡ 1) xs
      → in_buckets keys xs ≡ count_of p xs
  partition keys [] h = in_buckets-nil keys
  partition keys (c ∷ xs) h = ground (arith, in_buckets-cons keys c xs, partition keys xs h.1, h.0)

  once :
      (xs ys : List ResolvedCandidate)
      → All (λ c. 1 ≤ times (bucket_of c) (bucket_keys xs)) ys
      → All (λ c. times (bucket_of c) (bucket_keys xs) ≡ 1) ys
  once xs [] h = tt
  once xs (c ∷ ys) h = (omega (arith, h.0, times_at_most xs (bucket_of c)), once xs ys h.1)

  queues_count :
      (xs : List ResolvedCandidate)
      → sum_of (count_of p) (
          map
            (λ key. sort_by candidate_before (keep (in_bucket key) xs))
            (sort_by pair_before (bucket_keys xs)))
        ≡ count_of p xs
  queues_count xs =
      sum_of-map (count_of p) (λ key. sort_by candidate_before (keep (in_bucket key) xs))
        (sort_by pair_before (bucket_keys xs))
      ∙ sum_of-ext _ (λ key. count_of p (keep (in_bucket key) xs))
          (sort_by pair_before (bucket_keys xs))
          (λ key. count_of-sort_by p candidate_before (keep (in_bucket key) xs))
      ∙ sum_of-sort_by (λ key. count_of p (keep (in_bucket key) xs)) pair_before (bucket_keys xs)
      ∙ partition (bucket_keys xs) xs (once xs xs (buckets_present xs))

count_of-tier_order :
    (p : ResolvedCandidate → Bool) (xs : List ResolvedCandidate)
    → count_of p (tier_order xs) ≡ count_of p xs
unfolding tier_order
count_of-tier_order p xs =
    let queues =
      map (λ key. sort_by candidate_before (keep (in_bucket key) xs))
        (sort_by pair_before (bucket_keys xs)) in
    let lengths = sum_of-ext length (count_of any_item) queues (λ q. sym (count_of-any q)) in
    let whole = queues_count any_item xs in
    count_of-rounds p (length xs) queues (omega (arith, lengths, whole, count_of-any xs))
    ∙ queues_count p xs

tiers_count :
    (p : ResolvedCandidate → Bool) (xs : List ResolvedCandidate)
    → count_of p (keep (of_tier ConfidenceTier.high) xs)
        + (count_of p (keep (of_tier ConfidenceTier.medium) xs)
            + count_of p (keep (of_tier ConfidenceTier.low) xs))
      ≡ count_of p xs
tiers_count p [] = omega arith
tiers_count p (c ∷ xs) = ground (arith, tiers_count p xs)

-- Of the candidates that pass some test, the order has as many as were given.
pub count_of-diversity_order :
    (p : ResolvedCandidate → Bool) (xs : List ResolvedCandidate)
    → count_of p (diversity_order xs) ≡ count_of p xs
unfolding tiers_order
count_of-diversity_order p xs =
    let highs = keep (of_tier ConfidenceTier.high) xs in
    let mediums = keep (of_tier ConfidenceTier.medium) xs in
    let lows = keep (of_tier ConfidenceTier.low) xs in
    omega (
      arith,
      count_of-append p (tier_order highs) (tier_order mediums ++ (tier_order lows ++ [])),
      count_of-append p (tier_order mediums) (tier_order lows ++ []),
      count_of-append p (tier_order lows) [],
      count_of-tier_order p highs,
      count_of-tier_order p mediums,
      count_of-tier_order p lows,
      tiers_count p xs,
    )
