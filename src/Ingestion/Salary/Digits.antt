-- ===== src/Ingestion/Salary/Digits.antt =====
-- Texts of digits and their numbers, for backend/app/ingestion/normalization/salary.py.
use job_search.Base.{
  All, inl, inr, Bool-cases, ◌&&◌, ℕ, ◌+◌, ◌*◌, ◌≤◌, ◌<◌, ◌==◌, ◌≡◌, refl, ◌∙◌, List, [], ◌∷◌, ◌++◌,
  ltb, leb, if◌then◌else◌, arith, none, some,
}
use job_search.Ingestion.Salary.{
  read_digits, value, strip_zeros, or_zero, text_after, salary_months_from_digits, exceeds,
  maximum_months,
}

abbrev pub IsDigit : ℕ → Type 0
IsDigit d = d < 10

pub read_digits-append :
    (read : ℕ) (xs ys : List ℕ) → read_digits read (xs ++ ys) ≡ read_digits (read_digits read xs) ys
unfolding read_digits
read_digits-append read [] ys = refl
read_digits-append read (x ∷ xs) ys = read_digits-append (10 * read + x) xs ys

pub value-strip_zeros : (digits : List ℕ) → value (strip_zeros digits) ≡ value digits
unfolding read_digits strip_zeros
value-strip_zeros [] = refl
value-strip_zeros (d ∷ digits) = ground (arith, value-strip_zeros digits)

pub read_digits_le : (read : ℕ) (digits : List ℕ) → read ≤ read_digits read digits
unfolding read_digits
read_digits_le read [] = omega arith
read_digits_le read (d ∷ digits) = omega (arith, read_digits_le (10 * read + d) digits)

-- The text does not begin with a zero.
abbrev IsStripped : List ℕ → Type 0
IsStripped [] = Unit
IsStripped (d ∷ digits) = 1 ≤ d

strip_zeros-IsStripped : (digits : List ℕ) → IsStripped (strip_zeros digits)
unfolding strip_zeros
strip_zeros-IsStripped [] = tt
strip_zeros-IsStripped (d ∷ digits) = elim (Bool-cases (d == 0)) [
  | inl e ↦ rw e (strip_zeros-IsStripped digits)
  | inr e ↦ rw e (let more : 1 ≤ d = ground arith in more)
]

strip_zeros-All : (digits : List ℕ) → All IsDigit digits → All IsDigit (strip_zeros digits)
unfolding strip_zeros
strip_zeros-All [] h = tt
strip_zeros-All (d ∷ digits) h = elim (Bool-cases (d == 0)) [
  | inl e ↦ rw e (strip_zeros-All digits h.1)
  | inr e ↦ rw e h
]

-- Without leading zeros, the comparison of texts is that of numbers.
exceeds-value :
    (digits : List ℕ)
    → All IsDigit digits
    → IsStripped digits
    → exceeds digits maximum_months ≡ ltb 32767 (value digits)
unfolding read_digits text_after
exceeds-value [] h k = refl
exceeds-value (a ∷ []) h k = ground arith
exceeds-value (a ∷ b ∷ []) h k = ground arith
exceeds-value (a ∷ b ∷ c ∷ []) h k = ground arith
exceeds-value (a ∷ b ∷ c ∷ d ∷ []) h k = ground arith
exceeds-value (a ∷ b ∷ c ∷ d ∷ e ∷ []) h k = ground arith
exceeds-value (a ∷ b ∷ c ∷ d ∷ e ∷ f ∷ digits) h k = ground (
  arith,
  read_digits_le (10 * (10 * (10 * (10 * (10 * (10 * 0 + a) + b) + c) + d) + e) + f) digits,
)

or_zero-value : (digits : List ℕ) → value (or_zero digits) ≡ value digits
unfolding read_digits
or_zero-value [] = refl
or_zero-value (d ∷ digits) = refl

exceeds-or_zero :
    (digits : List ℕ) → exceeds (or_zero digits) maximum_months ≡ exceeds digits maximum_months
unfolding text_after
exceeds-or_zero [] = refl
exceeds-or_zero (d ∷ digits) = refl

-- The months of a text of digits, with any leading zeros, are its number where that is in the domain of
-- the column, 1 to 32767, and nothing otherwise.
pub salary_months_from_digits_lem :
    (digits : List ℕ)
    → All IsDigit digits
    → salary_months_from_digits digits
      ≡ (if leb 1 (value digits) && leb (value digits) 32767 then some (value digits) else none)
unfolding salary_months_from_digits
salary_months_from_digits_lem digits h =
    let stripped = strip_zeros digits in
    let same = or_zero-value stripped ∙ value-strip_zeros digits in
    let test =
      exceeds-or_zero stripped
      ∙ exceeds-value stripped (strip_zeros-All digits h) (strip_zeros-IsStripped digits) in
    ground (arith, same, test, value-strip_zeros digits)
