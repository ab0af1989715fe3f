-- ===== src/Ingestion/Salary/Samples.antt =====
-- The months 013, 12.345 thousand, and a range of amounts with its months.
use job_search.Base.{
  All, ℕ, ◌≡◌, refl, ◌&&◌, String, Option, none, some, List, [], ◌∷◌, leb, if◌then◌else◌, arith,
}
use job_search.Ingestion.Salary.{
  Decimal, read_digits, value, strip_zeros, text_after, power_of_ten, monthly_rmb_from_k,
  salary_months_from_digits, bounded_salary, salary_of_match, normalize_salary,
}
use job_search.Ingestion.Salary.Digits.{IsDigit, salary_months_from_digits_lem}
use job_search.Ingestion.Salary.Amounts.{
  decimals, monthly_rmb_from_k-decimals, IsInDomain, normalize_salary-IsInDomain,
}

salary_months_from_digits_example : salary_months_from_digits (0 ∷ 1 ∷ 3 ∷ []) ≡ (
    if leb 1 (value (0 ∷ 1 ∷ 3 ∷ [])) && leb (value (0 ∷ 1 ∷ 3 ∷ [])) 32767
    then some (value (0 ∷ 1 ∷ 3 ∷ []))
    else none)
salary_months_from_digits_example =
    salary_months_from_digits_lem (0 ∷ 1 ∷ 3 ∷ []) (omega arith, (omega arith, (omega arith, tt)))

monthly_rmb_from_k-decimals_example :
    monthly_rmb_from_k (1 ∷ 2 ∷ []) (some (decimals 12345)) ≡ some 12345
unfolding read_digits
monthly_rmb_from_k-decimals_example =
    monthly_rmb_from_k-decimals 12345 (1 ∷ 2 ∷ []) (omega arith) refl

abbrev range : String → Option (Decimal × Decimal)
range raw = some (
  record { whole = 1 ∷ 2 ∷ []; fractional = some (5 ∷ []) },
  record { whole = 2 ∷ 0 ∷ []; fractional = none },
)

abbrev months : String → Option (List ℕ)
months raw = some (1 ∷ 4 ∷ [])

months-All : (raw : String) (digits : List ℕ) → months raw ≡ some digits → All IsDigit digits
months-All raw digits e =
    let same : (1 ∷ 4 ∷ []) ≡ digits = cc in rw (← same) (omega arith, (omega arith, tt))

normalize_salary-IsInDomain_example :
    IsInDomain (normalize_salary range months (some "12.5k-20k·14薪"))
normalize_salary-IsInDomain_example =
    normalize_salary-IsInDomain range months (some "12.5k-20k·14薪") months-All

parsed : normalize_salary range months (some "12.5k-20k·14薪") ≡ record {
  minimum_monthly = some 12500;
  maximum_monthly = some 20000;
  months = some 14;
  warnings = [];
}
unfolding read_digits strip_zeros text_after power_of_ten monthly_rmb_from_k
    salary_months_from_digits bounded_salary salary_of_match normalize_salary
parsed = refl
