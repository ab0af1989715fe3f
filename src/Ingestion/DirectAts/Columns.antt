-- ===== src/Ingestion/DirectAts/Columns.antt =====
-- The jobs whose rows fit their columns, in backend/app/ingestion/direct_ats.py.
use Prim.Native.String.{count}
use job_search.Base.{
  ℕ, ◌≤◌, String, ◌≡◌, refl, inl, inr, Bool, true, Option, none, some, List, [], ◌∷◌, ◌++◌, map,
  all_of, arith, ◌==◌, Bool-cases, if◌then◌else◌,
}
use job_search.Ingestion.DirectAts.{
  JobPosting, ParsedJob, number_fits, largest_integer, largest_small_integer, posting_fits,
  preferring, merge_job_from_parsed,
}
use job_search.Ingestion.DirectAts.Writing.{Externals, or_text, source_key, new_posting}

pub all_of-append {ℓ} :
    {A : Type ℓ} (p : A → Bool) (xs ys : List A)
    → all_of p xs ≡ true
    → all_of p ys ≡ true
    → all_of p (xs ++ ys) ≡ true
all_of-append p [] ys h k = k
all_of-append p (x ∷ xs) ys h k =
    let head : p x ≡ true = ground arith in
    let rest = all_of-append p xs ys (ground arith) k in rw (head, rest) refl

-- The texts and the amounts of a job fit the columns.
pub record FitsColumns (ext : Externals) (platform : String) (parsed : ParsedJob) : Type 0 where
  pub title : count parsed.title ≤ 255
  pub normalized_title : count (ext.normalize_name parsed.title) ≤ 255
  pub city : count (or_text parsed.city "") ≤ 50
  pub salary_min_monthly : number_fits largest_integer parsed.salary_min_monthly ≡ true
  pub salary_max_monthly : number_fits largest_integer parsed.salary_max_monthly ≡ true
  pub salary_months : number_fits largest_small_integer parsed.salary_months ≡ true
  pub provider : count (source_key platform parsed).0 ≤ 50
  pub source_raw_id : count (source_key platform parsed).1 ≤ 255
  pub url : count parsed.url ≤ 2000

pub new_posting_fits :
    (ext : Externals) (company_id : ℕ) (platform : String) (now : ℕ) (position : ℕ)
    (parsed : ParsedJob)
    → FitsColumns ext platform parsed
    → posting_fits (new_posting ext company_id platform now position parsed) ≡ true
unfolding posting_fits
new_posting_fits ext company_id platform now position parsed f = ground (
  arith, f.title, f.normalized_title, f.city, f.salary_min_monthly, f.salary_max_monthly,
  f.salary_months,
)

preferring_fits :
    (largest : ℕ) (a b : Option ℕ)
    → number_fits largest a ≡ true
    → number_fits largest b ≡ true
    → number_fits largest (preferring a b) ≡ true
preferring_fits largest a none h k = h
preferring_fits largest a (some b) h k = k

module _ (ext : Externals) (platform : String) where
  merged_fits :
      (p : JobPosting) (parsed : ParsedJob)
      → FitsColumns ext platform parsed
      → posting_fits p ≡ true
      → posting_fits (merge_job_from_parsed p parsed) ≡ true
  unfolding posting_fits merge_job_from_parsed
  merged_fits p parsed f h = ground (
    arith,
    h,
    preferring_fits largest_integer p.salary_min_monthly parsed.salary_min_monthly (ground arith)
        f.salary_min_monthly,
    preferring_fits largest_integer p.salary_max_monthly parsed.salary_max_monthly (ground arith)
        f.salary_max_monthly,
    preferring_fits largest_small_integer p.salary_months parsed.salary_months (ground arith)
        f.salary_months,
  )

  pub all_merged_fit :
      (job_id : ℕ) (parsed : ParsedJob) (ps : List JobPosting)
      → FitsColumns ext platform parsed
      → all_of posting_fits ps ≡ true
      → all_of posting_fits
          (map (λ p. if p.id == job_id then merge_job_from_parsed p parsed else p) ps)
        ≡ true
  all_merged_fit job_id parsed [] f h = refl
  all_merged_fit job_id parsed (p ∷ ps) f h =
      let rest = all_merged_fit job_id parsed ps f (ground arith) in
      let head : posting_fits p ≡ true = ground arith in
      let merged = merged_fits p parsed f head in
      elim (Bool-cases (p.id == job_id)) [
        | inl e ↦ rw (e, merged, rest) refl
        | inr e ↦ rw (e, head, rest) refl
      ]
