-- ===== src/Apportion/Sorting.antt =====
-- A sorted list has the same items, and the same sums.
use job_search.Base.{
  ℕ, zero, suc, ◌+◌, ◌≤◌, ◌≡◌, refl, ◌∙◌, inl, inr, Bool, false, ◌||◌, List, [], ◌∷◌, All, length,
  min, arith, ◌==◌, Bool-cases,
}
use job_search.Apportion.{sum_of, insert_by, sort_by, is_among, HasDistinctCodes, seat}

module _ {ℓ} {A : Type ℓ} where
  pub sum_of-cong :
      (f g : A → ℕ) (items : List A) → All (λ a. f a ≡ g a) items → sum_of f items ≡ sum_of g items
  sum_of-cong f g [] h = refl
  sum_of-cong f g (a ∷ items) h = omega (arith, h.0, sum_of-cong f g items h.1)

  pub sum_of-le :
      (f g : A → ℕ) (items : List A) → All (λ a. f a ≤ g a) items → sum_of f items ≤ sum_of g items
  sum_of-le f g [] h = omega arith
  sum_of-le f g (a ∷ items) h = omega (arith, h.0, sum_of-le f g items h.1)

  pub sum_of-add :
      (f g : A → ℕ) (items : List A)
      → sum_of (λ a. f a + g a) items ≡ sum_of f items + sum_of g items
  sum_of-add f g [] = omega arith
  sum_of-add f g (a ∷ items) = omega (arith, sum_of-add f g items)

  sum_of-insert_by :
      (f : A → ℕ) (before : A → A → Bool) (a : A) (xs : List A)
      → sum_of f (insert_by before a xs) ≡ f a + sum_of f xs
  unfolding insert_by
  sum_of-insert_by f before a [] = refl
  sum_of-insert_by f before a (x ∷ xs) = ground (arith, sum_of-insert_by f before a xs)

  pub sum_of-sort_by :
      (f : A → ℕ) (before : A → A → Bool) (xs : List A) → sum_of f (sort_by before xs) ≡ sum_of f xs
  unfolding sort_by
  sum_of-sort_by f before [] = refl
  sum_of-sort_by f before (a ∷ xs) =
      omega (arith, sum_of-insert_by f before a (sort_by before xs), sum_of-sort_by f before xs)

  is_among-insert_by :
      (code : A → ℕ) (before : A → A → Bool) (b a : A) (xs : List A)
      → is_among code b (insert_by before a xs) ≡ (code a == code b || is_among code b xs)
  unfolding insert_by
  is_among-insert_by code before b a [] = refl
  is_among-insert_by code before b a (x ∷ xs) =
      ground (arith, is_among-insert_by code before b a xs)

  pub is_among-sort_by :
      (code : A → ℕ) (before : A → A → Bool) (b : A) (xs : List A)
      → is_among code b (sort_by before xs) ≡ is_among code b xs
  unfolding sort_by
  is_among-sort_by code before b [] = refl
  is_among-sort_by code before b (a ∷ xs) = ground (
    arith,
    is_among-insert_by code before b a (sort_by before xs),
    is_among-sort_by code before b xs,
  )

  insert_by-HasDistinctCodes :
      (code : A → ℕ) (before : A → A → Bool) (a : A) (xs : List A)
      → is_among code a xs ≡ false
      → HasDistinctCodes code xs
      → HasDistinctCodes code (insert_by before a xs)
  unfolding insert_by
  insert_by-HasDistinctCodes code before a [] n d = (refl, tt)
  insert_by-HasDistinctCodes code before a (x ∷ xs) n d = elim (Bool-cases (before x a)) [
    | inl e ↦ rw e (
      ground (arith, is_among-insert_by code before x a xs, n, d.0),
      insert_by-HasDistinctCodes code before a xs (ground arith) d.1,
    )
    | inr e ↦ rw e (n, d)
  ]

  pub sort_by-HasDistinctCodes :
      (code : A → ℕ) (before : A → A → Bool) (xs : List A)
      → HasDistinctCodes code xs
      → HasDistinctCodes code (sort_by before xs)
  unfolding sort_by
  sort_by-HasDistinctCodes code before [] d = tt
  sort_by-HasDistinctCodes code before (a ∷ xs) d =
      insert_by-HasDistinctCodes code before a (sort_by before xs)
        (is_among-sort_by code before a xs ∙ d.0) (sort_by-HasDistinctCodes code before xs d.1)

  length-insert_by :
      (before : A → A → Bool) (a : A) (xs : List A)
      → length (insert_by before a xs) ≡ suc (length xs)
  unfolding insert_by
  length-insert_by before a [] = refl
  length-insert_by before a (x ∷ xs) = ground (arith, length-insert_by before a xs)

  pub length-sort_by :
      (before : A → A → Bool) (xs : List A) → length (sort_by before xs) ≡ length xs
  unfolding sort_by
  length-sort_by before [] = refl
  length-sort_by before (a ∷ xs) =
      omega (arith, length-insert_by before a (sort_by before xs), length-sort_by before xs)

  -- A predicate of the items is one of the sorted items.
  All-insert_by {κ} :
      (P : A → Type κ) (before : A → A → Bool) (a : A) (xs : List A)
      → P a
      → All P xs
      → All P (insert_by before a xs)
  unfolding insert_by
  All-insert_by P before a [] p h = (p, tt)
  All-insert_by P before a (x ∷ xs) p h = elim (Bool-cases (before x a)) [
    | inl e ↦ rw e (h.0, All-insert_by P before a xs p h.1)
    | inr e ↦ rw e (p, h)
  ]

  pub All-sort_by {κ} :
      (P : A → Type κ) (before : A → A → Bool) (xs : List A) → All P xs → All P (sort_by before xs)
  unfolding sort_by
  All-sort_by P before [] h = tt
  All-sort_by P before (a ∷ xs) h =
      All-insert_by P before a (sort_by before xs) h.0 (All-sort_by P before xs h.1)

  -- Distinct items of an order take as many seats as there are, or as the order is long.
  All-not_first :
      (code : A → ℕ) (x : A) (xs : List A)
      → is_among code x xs ≡ false
      → All (λ a. (code x == code a) ≡ false) xs
  All-not_first code x [] h = tt
  All-not_first code x (y ∷ xs) h = (ground (arith, h), All-not_first code x xs (ground (arith, h)))

  pub All-map {κ μ} :
      (P : A → Type κ) (Q : A → Type μ) (xs : List A) → ((a : A) → P a → Q a) → All P xs → All Q xs
  All-map P Q [] f h = tt
  All-map P Q (x ∷ xs) f h = (f x h.0, All-map P Q xs f h.1)

  sum_of-seat_zero : (code : A → ℕ) (order items : List A) → sum_of (seat code 0 order) items ≡ 0
  sum_of-seat_zero code order [] = refl
  sum_of-seat_zero code order (a ∷ items) = omega (arith, sum_of-seat_zero code order items)

  pub sum_of-seat :
      (code : A → ℕ) (n : ℕ) (order : List A)
      → HasDistinctCodes code order
      → sum_of (seat code n order) order ≡ min n (length order)
  sum_of-seat code zero order d = omega (arith, sum_of-seat_zero code order order)
  sum_of-seat code (suc n) [] d = omega arith
  sum_of-seat code (suc n) (x ∷ order) d = ground (
    arith,
    sum_of-cong (seat code (suc n) (x ∷ order)) (seat code n order) order (
        All-map (λ a. (code x == code a) ≡ false)
          (λ a. seat code (suc n) (x ∷ order) a ≡ seat code n order a) order
          (λ a h. ground (arith, h)) (All-not_first code x order d.0)),
    sum_of-seat code n order d.1,
  )
