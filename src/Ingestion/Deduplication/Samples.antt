-- ===== src/Ingestion/Deduplication/Samples.antt =====
-- A job among two postings of its company, of which one is alike and in the same city.
use job_search.Base.{
  ℕ, String, ◌≡◌, refl, Bool, false, Option, none, some, [], ◌∷◌, ◌==◌, if◌then◌else◌,
}
use Prim.Native.String.{count}
use job_search.Ingestion.DirectAts.{JobType}
use job_search.Ingestion.Persistence.Contracts.{
  EmploymentType, JobCandidate, NormalizedJobCandidate,
}
use job_search.Ingestion.Salary.{normalize_salary}
use job_search.Ingestion.Deduplication.{
  JobForComparison, existing, JobDeduplicationRepository, normalize_job, best_after, best_match,
  jobs_are_duplicates, match_of_best, resolve_by_title, resolve_after, exact_match,
  resolve_job_match,
}
use job_search.Ingestion.Deduplication.Best.{IsRight, resolve_job_match-IsRight}

abbrev similarity : String → String → ℕ
similarity a b = if count a == count b then 9000 else 1000

abbrev id_before : Option ℕ → Option ℕ → Bool
id_before a b = false

abbrev candidate : JobCandidate
candidate = record {
  title = "Cook";
  employment_type = some EmploymentType.full_time;
  location = some "Paris";
  salary = none;
  provider = some "feishu";
  source_raw_id = some "a";
  description = none;
  evidence_ids = [];
}

abbrev posting : ℕ → String → JobForComparison
posting id title = record {
  job_posting_id = some id;
  normalized_title = title;
  city = "Paris";
  job_type = JobType.full_time;
  employment_type = none;
}

abbrev repository : JobDeduplicationRepository
repository = record {
  find_by_source = λ provider raw_id. some (record { job_posting_id = 9; company_id = 2 });
  list_for_company = λ company_id. posting 4 "Baker" ∷ posting 5 "Chef" ∷ [];
}

abbrev normalized : NormalizedJobCandidate
normalized = record {
  candidate = candidate;
  normalized_title = "Cook";
  normalized_city = "Paris";
  job_type = JobType.full_time;
  employment_type = some EmploymentType.full_time;
  salary_minimum_monthly = none;
  salary_maximum_monthly = none;
  salary_months = none;
  warnings = [];
}

normalized_job : normalize_job (λ name. name) (λ raw. none) (λ raw. none) candidate ≡ normalized
unfolding normalize_job normalize_salary
normalized_job = refl

resolve_job_match-IsRight_example :
    IsRight similarity id_before normalized
      (repository.list_for_company 1)
      (resolve_job_match similarity id_before repository 1 normalized)
unfolding exact_match
resolve_job_match-IsRight_example =
    resolve_job_match-IsRight similarity id_before repository 1 normalized (λ exact e.
      let same : record { job_posting_id = 9; company_id = 2 } ≡ exact = cc in rw (← same) refl)

found_posting : resolve_job_match similarity id_before repository 1 normalized ≡ existing (some 5)
unfolding best_after best_match jobs_are_duplicates match_of_best resolve_by_title resolve_after
    exact_match resolve_job_match
found_posting = refl
