-- ===== src/Ingestion/Salary/Amounts.antt =====
-- Salaries in thousands with decimals (backend/app/ingestion/normalization/salary.py).
use job_search.Base.{
  All, inl, inr, Option-cases, ℕ, ◌*◌, ◌/◌, ◌%◌, ◌≤◌, ◌≡◌, refl, ◌∙◌, Bool, true, List, [], ◌∷◌,
  ◌++◌, leb, arith, Option, none, some, String,
}
use job_search.Ingestion.Persistence.Contracts.{max_sql_integer, at_most, months_in_domain}
use job_search.Ingestion.Salary.{
  Decimal, NormalizedSalary, read_digits, value, power_of_ten, within, monthly_rmb_from_k,
  months_of, bounded_salary, salary_of_match, normalize_salary,
}
use job_search.Ingestion.Salary.Digits.{read_digits-append, salary_months_from_digits_lem, IsDigit}

-- The three decimals of a number of thousands.
abbrev pub decimals : ℕ → List ℕ
decimals n = (n % 1000) / 100 ∷ (n / 10) % 10 ∷ n % 10 ∷ []

-- An amount of RMB in the domain of the column, written in thousands with three decimals, is read back;
-- the digits before the point may have leading zeros.
pub monthly_rmb_from_k-decimals :
    (n : ℕ) (whole : List ℕ)
    → n ≤ 2147483647
    → value whole ≡ n / 1000
    → monthly_rmb_from_k whole (some (decimals n)) ≡ some n
unfolding monthly_rmb_from_k power_of_ten read_digits
monthly_rmb_from_k-decimals n whole h e =
    let read : value (whole ++ decimals n) ≡ n =
      read_digits-append 0 whole (decimals n) ∙ omega arith in
    rw read (ground arith)

within-cases : (n : ℕ) {m : ℕ} → within n ≡ some m → m ≤ 2147483647
within-cases n e = ground arith

monthly_rmb_from_k-le :
    (whole : List ℕ) (fractional : Option (List ℕ)) {m : ℕ}
    → monthly_rmb_from_k whole fractional ≡ some m
    → m ≤ 2147483647
unfolding monthly_rmb_from_k
monthly_rmb_from_k-le whole none e = within-cases (value whole * 1000) e
monthly_rmb_from_k-le whole (some fractional) e = ground arith

abbrev ordered : Option ℕ → Option ℕ → Bool
ordered (some minimum) (some maximum) = leb minimum maximum
ordered minimum maximum = true

-- The columns of a posting hold the salary.
pub IsInDomain : NormalizedSalary → Type 0
IsInDomain s =
    (at_most max_sql_integer s.minimum_monthly ≡ true)
    × (at_most max_sql_integer s.maximum_monthly ≡ true)
    × (months_in_domain s.months ≡ true)
    × (ordered s.minimum_monthly s.maximum_monthly ≡ true)

months_of-domain :
    (found : Option (List ℕ)) {months : Option ℕ}
    → ((digits : List ℕ) → found ≡ some digits → All IsDigit digits)
    → months_of found ≡ some months
    → months_in_domain months ≡ true
months_of-domain none {months} h e = let same : none ≡ months = cc in rw (← same) refl
months_of-domain (some digits) {months} h e =
    ground (arith, salary_months_from_digits_lem digits (h digits refl))

bounded_salary-IsInDomain :
    (minimum maximum : Option ℕ) (months : Option (Option ℕ))
    → ((m : ℕ) → minimum ≡ some m → m ≤ 2147483647)
    → ((m : ℕ) → maximum ≡ some m → m ≤ 2147483647)
    → ((found : Option ℕ) → months ≡ some found → months_in_domain found ≡ true)
    → IsInDomain (bounded_salary minimum maximum months)
unfolding bounded_salary IsInDomain
bounded_salary-IsInDomain (some a) (some b) (some found) h h' k =
    ground (arith, h a refl, h' b refl, k found refl)
bounded_salary-IsInDomain none maximum months h h' k = (refl, refl, refl, refl)
bounded_salary-IsInDomain (some a) none months h h' k = (refl, refl, refl, refl)
bounded_salary-IsInDomain (some a) (some b) none h h' k = (refl, refl, refl, refl)

-- Where the pattern for the months captures digits, whatever the text, the salary that is parsed fits the
-- columns, as the validator of the batches wants it, and its minimum is at most its maximum.
pub normalize_salary-IsInDomain :
    (monthly_range : String → Option (Decimal × Decimal))
    (months_pattern : String → Option (List ℕ)) (raw_salary : Option String)
    → ((raw : String) (digits : List ℕ) → months_pattern raw ≡ some digits → All IsDigit digits)
    → IsInDomain (normalize_salary monthly_range months_pattern raw_salary)
unfolding normalize_salary salary_of_match IsInDomain
normalize_salary-IsInDomain monthly_range months_pattern none h = (refl, refl, refl, refl)
normalize_salary-IsInDomain monthly_range months_pattern (some raw) h =
    elim (Option-cases (monthly_range raw)) [
      | inl unknown ↦ rw unknown (refl, refl, refl, refl)
      | inr ((a, b), known) ↦ rw known (
          bounded_salary-IsInDomain (monthly_rmb_from_k a.whole a.fractional)
            (monthly_rmb_from_k b.whole b.fractional) (months_of (months_pattern raw))
            (λ m e. monthly_rmb_from_k-le a.whole a.fractional e)
            (λ m e. monthly_rmb_from_k-le b.whole b.fractional e)
            (λ found e. months_of-domain (months_pattern raw) (λ digits e'. h raw digits e') e))
    ]
