-- ===== src/Apportion/Remainders.antt =====
-- The seats of a largest-remainder allocation: the seats left after rounding down go to the items with
-- the largest remainders, one each.
use native.Mathlib.Nat.{
  mod-lt, div-add-mod', add-mul, le_of_mul-le-mul_right, mul-le-mul_left, lt_of_mul-lt-mul_left,
  mul_comm,
}
use job_search.Base.{
  ℕ, zero, suc, ◌+◌, ◌-◌, ◌*◌, ◌/◌, ◌%◌, ◌≤◌, ◌<◌, ◌≡◌, refl, ap, inl, inr, Bool, true, false, List,
  [], ◌∷◌, All, length, take, arith, ◌==◌, ==_iff, Bool-cases,
}
use job_search.Apportion.{sum_of, insert_by, sort_by, is_among, HasDistinctCodes, seat}
use job_search.Apportion.Sorting.{
  sum_of-cong, sum_of-add, sum_of-sort_by, sort_by-HasDistinctCodes, length-sort_by, sum_of-seat,
  All-sort_by,
}

suc_mul : (n t : ℕ) → suc n * t ≡ n * t + t
suc_mul n t = grind arith

sub_mul : (n s t : ℕ) → s ≤ n → (n - s) * t + s * t ≡ n * t
sub_mul n s t h =
    let e : n ≡ (n - s) + s = omega arith in
    omega (arith, ap (λ (k : ℕ). k * t) e, add-mul (n - s) s t)

module _ {ℓ} {A : Type ℓ} where
  abbrev pub IsDescending : (A → ℕ) → List A → Type 0
  IsDescending key [] = Unit
  IsDescending key (x ∷ xs) = All (λ b. key b ≤ key x) xs × IsDescending key xs

  -- The test puts the larger key first.
  pub record PutsLargerFirst (key : A → ℕ) (before : A → A → Bool) : Type ℓ where
    pub goes_first : (x a : A) → before x a ≡ true → key a ≤ key x
    pub goes_later : (x a : A) → before x a ≡ false → key x ≤ key a

  All-le-insert :
      (key : A → ℕ) (before : A → A → Bool) (m : ℕ) (a : A) (xs : List A)
      → key a ≤ m
      → All (λ b. key b ≤ m) xs
      → All (λ b. key b ≤ m) (insert_by before a xs)
  unfolding insert_by
  All-le-insert key before m a [] h k = (h, tt)
  All-le-insert key before m a (x ∷ xs) h k = elim (Bool-cases (before x a)) [
    | inl e ↦ rw e (k.0, All-le-insert key before m a xs h k.1)
    | inr e ↦ rw e (h, k)
  ]

  All-le_mono :
      (key : A → ℕ) (m n : ℕ) (xs : List A)
      → m ≤ n
      → All (λ b. key b ≤ m) xs
      → All (λ b. key b ≤ n) xs
  All-le_mono key m n [] h k = tt
  All-le_mono key m n (x ∷ xs) h k = (omega arith, All-le_mono key m n xs h k.1)

  insert_by-IsDescending :
      (key : A → ℕ) (before : A → A → Bool) (a : A) (xs : List A)
      → PutsLargerFirst key before
      → IsDescending key xs
      → IsDescending key (insert_by before a xs)
  unfolding insert_by
  insert_by-IsDescending key before a [] p d = (tt, tt)
  insert_by-IsDescending key before a (x ∷ xs) p d = elim (Bool-cases (before x a)) [
    | inl e ↦ rw e (
      All-le-insert key before (key x) a xs (p.goes_first x a e) d.0,
      insert_by-IsDescending key before a xs p d.1,
    )
    | inr e ↦
        let le = p.goes_later x a e in rw e ((le, All-le_mono key (key x) (key a) xs le d.0), d)
  ]

  pub sort_by-IsDescending :
      (key : A → ℕ) (before : A → A → Bool) (xs : List A)
      → PutsLargerFirst key before
      → IsDescending key (sort_by before xs)
  unfolding sort_by
  sort_by-IsDescending key before [] p = tt
  sort_by-IsDescending key before (a ∷ xs) p =
      insert_by-IsDescending key before a (sort_by before xs) p
        (sort_by-IsDescending key before xs p)

  sum_of_zero : (key : A → ℕ) (xs : List A) → All (λ b. key b ≤ 0) xs → sum_of key xs ≡ 0
  sum_of_zero key [] h = refl
  sum_of_zero key (x ∷ xs) h = omega (arith, sum_of_zero key xs h.1)

  -- Keys below `t` that add up to `n` times `t`: there are `n` of them that are positive, and they come
  -- first.
  pub first_are_positive :
      (key : A → ℕ) (t n : ℕ) (xs : List A)
      → IsDescending key xs
      → All (λ a. key a < t) xs
      → n * t ≤ sum_of key xs
      → All (λ a. 0 < key a) (take n xs)
  first_are_positive key t zero xs d b h = tt
  first_are_positive key t (suc n) [] d b h = tt
  first_are_positive key t (suc n) (x ∷ xs) d b h = elim (Bool-cases (key x == 0)) [
    | inl e ↦ absurd (
        omega (
          arith,
          suc_mul n t,
          sum_of_zero key xs (All-le_mono key (key x) 0 xs (ground arith) d.0),
          (==_iff (key x) 0).0 e,
          b.0,
        ))
    | inr e ↦
        (ground arith, first_are_positive key t n xs d.1 b.1 (omega (arith, suc_mul n t, b.0)))
  ]

  pub enough_items :
      (key : A → ℕ) (t n : ℕ) (xs : List A)
      → 0 < t
      → All (λ a. key a < t) xs
      → n * t ≤ sum_of key xs
      → n ≤ length xs
  enough_items key t zero xs p b h = omega arith
  enough_items key t (suc n) [] p b h = absurd (omega (arith, suc_mul n t))
  enough_items key t (suc n) (x ∷ xs) p b h =
      omega (arith, enough_items key t n xs p b.1 (omega (arith, suc_mul n t, b.0)))

  All-tabulate {κ} : (P : A → Type κ) (xs : List A) → ((a : A) → P a) → All P xs
  All-tabulate P [] f = tt
  All-tabulate P (x ∷ xs) f = (f x, All-tabulate P xs f)

  sum_of-mul : (f : A → ℕ) (k : ℕ) (xs : List A) → sum_of (λ a. f a * k) xs ≡ sum_of f xs * k
  sum_of-mul f k [] = grind arith
  sum_of-mul f k (x ∷ xs) = omega (arith, add-mul (f x) (sum_of f xs) k, sum_of-mul f k xs)

  -- Who is among the first has the property that the first have.
  among_first :
      (code : A → ℕ) (key : A → ℕ) (a : A) (xs : List A)
      → ((x : A) → code x ≡ code a → x ≡ a)
      → All (λ x. 0 < key x) xs
      → is_among code a xs ≡ true
      → 0 < key a
  among_first code key a [] same h e = absurd (ground (arith, e))
  among_first code key a (x ∷ xs) same h e = elim (Bool-cases (code x == code a)) [
    | inl c ↦ rw (same x ((==_iff (code x) (code a)).0 c)) at (h.0)
    | inr c ↦ among_first code key a xs same h.1 (ground (arith, e, c))
  ]

-- `seats` seats for the items, in proportion to their weights.
module _ {ℓ} {A : Type ℓ} (code : A → ℕ) (weight : A → ℕ) (seats : ℕ) (items : List A) where
  abbrev pub total_weight : ℕ
  total_weight = sum_of weight items

  abbrev pub rounded_down : A → ℕ
  rounded_down a = weight a * seats / total_weight

  abbrev pub remainder : A → ℕ
  remainder a = weight a * seats % total_weight

  abbrev pub leftover : ℕ
  leftover = seats - sum_of rounded_down items

  module _ (before : A → A → Bool) where
    abbrev pub share : A → ℕ
    share a = rounded_down a + seat code leftover (sort_by before items) a

    module _ (positive : 0 < total_weight) where
      division :
          sum_of rounded_down items * total_weight + sum_of remainder items ≡ seats * total_weight
      division = omega (
        arith,
        sum_of-cong (λ a. rounded_down a * total_weight + remainder a) (λ a. weight a * seats) items
            (All-tabulate (λ a. rounded_down a * total_weight + remainder a ≡ weight a * seats)
              items (λ a. div-add-mod' (weight a * seats) total_weight)),
        sum_of-add (λ a. rounded_down a * total_weight) remainder items,
        sum_of-mul rounded_down total_weight items,
        sum_of-mul weight seats items,
        mul_comm total_weight seats,
      )

      rounded_down-le-seats : sum_of rounded_down items ≤ seats
      rounded_down-le-seats =
          le_of_mul-le-mul_right {k = total_weight} (omega (arith, division)) positive

      leftover_lem : leftover * total_weight ≡ sum_of remainder items
      leftover_lem = omega (
        arith,
        division,
        sub_mul seats (sum_of rounded_down items) total_weight rounded_down-le-seats,
      )

      remainder_lt : (a : A) → remainder a < total_weight
      remainder_lt a = mod-lt (weight a * seats) positive

      leftover-le-length : leftover ≤ length items
      leftover-le-length =
          enough_items remainder total_weight leftover items positive
            (All-tabulate (λ a. remainder a < total_weight) items remainder_lt)
            (omega (arith, leftover_lem))

      -- The shares add up to the seats.
      pub sum_of-share : HasDistinctCodes code items → sum_of share items ≡ seats
      sum_of-share d = omega (
        arith,
        sum_of-add rounded_down (seat code leftover (sort_by before items)) items,
        sum_of-sort_by (seat code leftover (sort_by before items)) before items,
        sum_of-seat code leftover (sort_by before items)
            (sort_by-HasDistinctCodes code before items d),
        length-sort_by before items,
        leftover-le-length,
        rounded_down-le-seats,
      )

      remainder_positive :
          PutsLargerFirst remainder before
          → ((x a : A) → code x ≡ code a → x ≡ a)
          → (a : A) → is_among code a (take leftover (sort_by before items)) ≡ true
          → 0 < remainder a
      remainder_positive p same a e =
          among_first code remainder a (take leftover (sort_by before items)) (λ x. same x a)
            (first_are_positive remainder total_weight leftover (sort_by before items)
              (sort_by-IsDescending remainder before items p)
              (All-sort_by (λ x. remainder x < total_weight) before items
                (All-tabulate (λ x. remainder x < total_weight) items remainder_lt))
              (omega (arith, leftover_lem, sum_of-sort_by remainder before items)))
            e

      -- No share is more than the weight, where there are no more seats than weight.
      pub share-le-weight :
          PutsLargerFirst remainder before
          → ((x a : A) → code x ≡ code a → x ≡ a)
          → seats ≤ total_weight
          → (a : A) → share a ≤ weight a
      share-le-weight p same le a =
          let split = div-add-mod' (weight a * seats) total_weight in
          let bound = mul-le-mul_left (weight a) le in
          elim (Bool-cases (is_among code a (take leftover (sort_by before items)))) [
            | inl e ↦
                let more = remainder_positive p same a e in
                let less : total_weight * rounded_down a < total_weight * weight a = omega (
                  arith,
                  split,
                  bound,
                  more,
                  mul_comm total_weight (rounded_down a),
                  mul_comm total_weight (weight a),
                ) in
                rw e (omega (arith, lt_of_mul-lt-mul_left total_weight less))
            | inr e ↦
                let less : rounded_down a * total_weight ≤ weight a * total_weight =
                  omega (arith, split, bound) in
                rw e (omega (arith, le_of_mul-le-mul_right less positive))
          ]
