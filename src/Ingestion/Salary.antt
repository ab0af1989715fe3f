-- ===== src/Ingestion/Salary.antt =====
-- The parsing of salaries (backend/app/ingestion/normalization/salary.py). What the regular expressions
-- capture is a parameter: digits are numbers below 10, the most significant first, and a decimal has a
-- fractional part where its text has a point. Digits are those of ASCII, and the limit of `int` on the number
-- of digits, which no text of a salary reaches, is not modelled.
pub mod Digits
pub mod Amounts
mod Samples
use job_search.Base.{
  ℕ, zero, suc, ◌+◌, ◌*◌, ◌/◌, ◌%◌, ◌==◌, String, Bool, true, false, not, ◌&&◌, ◌||◌, Option, none,
  some, List, [], ◌∷◌, ◌++◌, length, leb, ltb, is_none, if◌then◌else◌,
}
use job_search.Ingestion.Persistence.Contracts.{max_sql_integer}

pub record Decimal : Type 0 where
  pub whole : List ℕ
  pub fractional : Option (List ℕ)

pub record NormalizedSalary : Type 0 where
  pub minimum_monthly : Option ℕ
  pub maximum_monthly : Option ℕ
  pub months : Option ℕ
  pub warnings : List String

-- `int(digits)`, after what was read before.
pub read_digits : ℕ → List ℕ → ℕ
read_digits read [] = read
read_digits read (d ∷ digits) = read_digits (10 * read + d) digits

abbrev pub value : List ℕ → ℕ
value digits = read_digits 0 digits

-- `value.lstrip("0")`
pub strip_zeros : List ℕ → List ℕ
strip_zeros [] = []
strip_zeros (d ∷ digits) = if d == 0 then strip_zeros digits else d ∷ digits

-- `digits or "0"`
abbrev pub or_zero : List ℕ → List ℕ
or_zero [] = 0 ∷ []
or_zero (d ∷ digits) = d ∷ digits

-- `left > right`, as texts.
pub text_after : List ℕ → List ℕ → Bool
text_after [] right = false
text_after (a ∷ left) [] = true
text_after (a ∷ left) (b ∷ right) = if a == b then text_after left right else ltb b a

-- `str(32_767)`
abbrev pub maximum_months : List ℕ
maximum_months = 3 ∷ 2 ∷ 7 ∷ 6 ∷ 7 ∷ []

-- The text is too long, or as long and greater.
abbrev pub exceeds : List ℕ → List ℕ → Bool
exceeds digits maximum =
    ltb (length maximum) (length digits)
    || (length digits == length maximum && text_after digits maximum)

pub salary_months_from_digits : List ℕ → Option ℕ
salary_months_from_digits digits =
    let normalized = or_zero (strip_zeros digits) in
    if exceeds normalized maximum_months
    then none
    else if leb 1 (value normalized)
    then some (value normalized)
    else none

pub power_of_ten : ℕ → ℕ
power_of_ten zero = 1
power_of_ten (suc n) = 10 * power_of_ten n

abbrev pub within : ℕ → Option ℕ
within n = if leb n max_sql_integer then some n else none

-- An exact number of RMB, from thousands.
pub monthly_rmb_from_k : List ℕ → Option (List ℕ) → Option ℕ
monthly_rmb_from_k whole none = within (value whole * 1000)
monthly_rmb_from_k whole (some fractional) =
    let coefficient = value (whole ++ fractional) * 1000 in
    let divisor = power_of_ten (length fractional) in
    if not (coefficient % divisor == 0) then none else within (coefficient / divisor)

abbrev pub invalid_salary : NormalizedSalary
invalid_salary = record {
  minimum_monthly = none;
  maximum_monthly = none;
  months = none;
  warnings = "invalid_salary" ∷ [];
}

-- The months that are found in the text, if any: the outer option says whether they are valid.
abbrev pub months_of : Option (List ℕ) → Option (Option ℕ)
months_of none = some none
months_of (some digits) = elim (salary_months_from_digits digits) [
  | none ↦ none
  | some months ↦ some (some months)
]

pub bounded_salary : Option ℕ → Option ℕ → Option (Option ℕ) → NormalizedSalary
bounded_salary (some minimum) (some maximum) (some months) =
    if ltb maximum minimum then invalid_salary else record {
      minimum_monthly = some minimum;
      maximum_monthly = some maximum;
      months = months;
      warnings = [];
    }
bounded_salary minimum maximum months = invalid_salary

module _ (monthly_range : String → Option (Decimal × Decimal))
    (months_pattern : String → Option (List ℕ)) where
  pub salary_of_match : String → Option (Decimal × Decimal) → NormalizedSalary
  salary_of_match raw none = invalid_salary
  salary_of_match raw (some (minimum, maximum)) =
      bounded_salary (monthly_rmb_from_k minimum.whole minimum.fractional)
        (monthly_rmb_from_k maximum.whole maximum.fractional) (months_of (months_pattern raw))

  unfoldable pub normalize_salary : Option String → NormalizedSalary
  normalize_salary none = record {
    minimum_monthly = none;
    maximum_monthly = none;
    months = none;
    warnings = [];
  }
  normalize_salary (some raw_salary) = salary_of_match raw_salary (monthly_range raw_salary)
