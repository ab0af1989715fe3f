-- ===== src/Manifest/Members/Buckets.antt =====
-- The keys of the buckets in `_diversity_order` of backend/app/manifest/allocation.py.
use text.Mathlib.TextEquality.{eq_iff}
use job_search.Base.{
  ℕ, ◌≤◌, ◌≡◌, refl, ap, ◌∙◌, inl, inr, String, Bool, true, false, List, [], ◌∷◌, any_of, count_of,
  All, arith, Bool-cases,
}
use job_search.Manifest.Members.{ResolvedCandidate, same_pair, bucket_of, bucket_keys}

same_pair→eq : (a b : String × String) → same_pair a b ≡ true → a ≡ b
same_pair→eq a b h =
    let first = (eq_iff a.0 b.0).0 (ground arith) in
    let second = (eq_iff a.1 b.1).0 (ground arith) in pair_eq a b first second
  where
    pair_eq : (a b : String × String) → a.0 ≡ b.0 → a.1 ≡ b.1 → a ≡ b
    pair_eq a b e e' = rw (e, e') refl

none_counted {ℓ} :
    {A : Type ℓ} (p : A → Bool) (xs : List A) → any_of p xs ≡ false → count_of p xs ≡ 0
none_counted p [] h = refl
none_counted p (x ∷ xs) h = ground (arith, none_counted p xs (ground arith))

some_counted {ℓ} :
    {A : Type ℓ} (p : A → Bool) (xs : List A) → any_of p xs ≡ true → 1 ≤ count_of p xs
some_counted p [] h = ground arith
some_counted p (x ∷ xs) h = elim (Bool-cases (p x)) [
  | inl e ↦ ground arith
  | inr e ↦ ground (arith, some_counted p xs (ground arith))
]

-- How often a key stands among the keys.
abbrev pub times : String × String → List (String × String) → ℕ
times key keys = count_of (same_pair key) keys

pub times_at_most :
    (xs : List ResolvedCandidate) (key : String × String) → times key (bucket_keys xs) ≤ 1
unfolding bucket_keys
times_at_most [] key = omega arith
times_at_most (c ∷ xs) key = elim (Bool-cases (any_of (same_pair (bucket_of c)) (bucket_keys xs))) [
  | inl e ↦ rw e (times_at_most xs key)
  | inr e ↦ rw e (elim (Bool-cases (same_pair key (bucket_of c))) [
    | inl d ↦
        let same = same_pair→eq key (bucket_of c) d in
        let absent : times key (bucket_keys xs) ≡ 0 =
          ap (λ k. times k (bucket_keys xs)) same
          ∙ none_counted (same_pair (bucket_of c)) (bucket_keys xs) e in
        ground (arith, absent)
    | inr d ↦ ground (arith, times_at_most xs key)
  ])
]

times-present :
    (c : ResolvedCandidate) (xs : List ResolvedCandidate)
    → 1 ≤ times (bucket_of c) (bucket_keys (c ∷ xs))
unfolding bucket_keys
times-present c xs = elim (Bool-cases (any_of (same_pair (bucket_of c)) (bucket_keys xs))) [
  | inl e ↦ rw e (some_counted (same_pair (bucket_of c)) (bucket_keys xs) e)
  | inr e ↦ rw e (
      ground (
        arith,
        (eq_iff (bucket_of c).0 (bucket_of c).0).1 refl,
        (eq_iff (bucket_of c).1 (bucket_of c).1).1 refl,
      ))
]

times-later :
    (key : String × String) (c : ResolvedCandidate) (xs : List ResolvedCandidate)
    → times key (bucket_keys xs) ≤ times key (bucket_keys (c ∷ xs))
unfolding bucket_keys
times-later key c xs = elim (Bool-cases (any_of (same_pair (bucket_of c)) (bucket_keys xs))) [
  | inl e ↦ rw e (omega arith)
  | inr e ↦ rw e (omega arith)
]

-- Each candidate's bucket stands there.
pub buckets_present :
    (xs : List ResolvedCandidate) → All (λ c. 1 ≤ times (bucket_of c) (bucket_keys xs)) xs
buckets_present [] = tt
buckets_present (c ∷ xs) = (times-present c xs, later xs (buckets_present xs))
  where
    later :
        (ys : List ResolvedCandidate)
        → All (λ y. 1 ≤ times (bucket_of y) (bucket_keys xs)) ys
        → All (λ y. 1 ≤ times (bucket_of y) (bucket_keys (c ∷ xs))) ys
    later [] h = tt
    later (y ∷ ys) h = (omega (arith, h.0, times-later (bucket_of y) c xs), later ys h.1)
