-- ===== src/Ingestion/Deduplication.antt =====
-- The normalization of jobs (backend/app/ingestion/normalization/job.py) and the search for the posting
-- that a job is already stored as (backend/app/ingestion/deduplication). Similarities, floating-point
-- percentages in the source, are numbers of a hundredth of a percent. They, the order of the texts of ids,
-- and the answers of the repository are parameters.
pub mod Best
mod Samples
use text.Mathlib.Text.{◌==◌ as str_eq}
use job_search.Base.{
  keep, ℕ, ◌==◌, String, Bool, true, false, not, ◌&&◌, ◌||◌, Option, none, some, List, [], ◌∷◌, leb,
  ltb, if◌then◌else◌,
}
use job_search.Ingestion.DirectAts.{JobType}
use job_search.Ingestion.Persistence.Contracts.{
  EmploymentType, JobCandidate, NormalizedJobCandidate,
}
use job_search.Ingestion.Salary.{Decimal, NormalizedSalary, normalize_salary}

pub record JobForComparison : Type 0 where
  pub job_posting_id : Option ℕ
  pub normalized_title : String
  pub city : String
  pub job_type : JobType
  pub employment_type : Option EmploymentType

pub record SourceJobMatch : Type 0 where
  pub job_posting_id : ℕ
  pub company_id : ℕ

pub data JobMatch : Type 0 where
  existing : Option ℕ → JobMatch
  new : JobMatch

abbrev pub job_type_by_employment_type : Option EmploymentType → JobType
job_type_by_employment_type none = JobType.unknown
job_type_by_employment_type (some EmploymentType.full_time) = JobType.full_time
job_type_by_employment_type (some EmploymentType.part_time) = JobType.part_time
job_type_by_employment_type (some EmploymentType.internship) = JobType.internship
job_type_by_employment_type (some EmploymentType.temporary) = JobType.temporary

-- `_comparison_employment_type`
abbrev pub comparison_employment_type : JobType → Option EmploymentType → Option EmploymentType
comparison_employment_type type (some employment) = some employment
comparison_employment_type JobType.full_time none = some EmploymentType.full_time
comparison_employment_type JobType.internship none = some EmploymentType.internship
comparison_employment_type _ none = none

abbrev pub same_employment : EmploymentType → EmploymentType → Bool
same_employment EmploymentType.full_time EmploymentType.full_time = true
same_employment EmploymentType.part_time EmploymentType.part_time = true
same_employment EmploymentType.internship EmploymentType.internship = true
same_employment EmploymentType.temporary EmploymentType.temporary = true
same_employment left right = false

-- `_types_are_compatible`
abbrev pub types_are_compatible : Option EmploymentType → Option EmploymentType → Bool
types_are_compatible none right = true
types_are_compatible (some left) none = true
types_are_compatible (some left) (some right) = same_employment left right

module _ (normalize_name : String → String) (monthly_range : String → Option (Decimal × Decimal))
    (months_pattern : String → Option (List ℕ)) where
  -- `normalize_name(location) if location else ""`
  abbrev pub normalized_location : Option String → String
  normalized_location none = ""
  normalized_location (some location) = if str_eq location "" then "" else normalize_name location

  pub normalize_job : JobCandidate → NormalizedJobCandidate
  normalize_job candidate =
      let salary = normalize_salary monthly_range months_pattern candidate.salary in
      record {
        candidate = candidate;
        normalized_title = normalize_name candidate.title;
        normalized_city = normalized_location candidate.location;
        job_type = job_type_by_employment_type candidate.employment_type;
        employment_type = candidate.employment_type;
        salary_minimum_monthly = salary.minimum_monthly;
        salary_maximum_monthly = salary.maximum_monthly;
        salary_months = salary.months;
        warnings = salary.warnings;
      }

abbrev pub similarity_threshold : ℕ
similarity_threshold = 7500

-- The answers of the repository.
pub record JobDeduplicationRepository : Type 0 where
  pub find_by_source : String → String → Option SourceJobMatch
  pub list_for_company : ℕ → List JobForComparison

abbrev pub is_eligible : NormalizedJobCandidate → JobForComparison → Bool
is_eligible normalized item =
    str_eq item.city normalized.normalized_city
    && types_are_compatible (comparison_employment_type item.job_type item.employment_type)
        normalized.employment_type

pub exact_match : JobDeduplicationRepository → Option String → Option String → Option SourceJobMatch
exact_match repository (some provider) (some source_raw_id) =
    repository.find_by_source provider source_raw_id
exact_match repository provider source_raw_id = none

module _ (similarity : String → String → ℕ) (id_before : Option ℕ → Option ℕ → Bool) where
  -- The keys of `max`, the similarity and the text of the id: whether the second is greater.
  abbrev pub is_better : String → JobForComparison → JobForComparison → Bool
  is_better title best item =
      let old = similarity title best.normalized_title in
      let new_similarity = similarity title item.normalized_title in
      ltb old new_similarity
      || (old == new_similarity && id_before best.job_posting_id item.job_posting_id)

  -- `max`, which keeps the first of the greatest.
  pub best_after : String → JobForComparison → List JobForComparison → JobForComparison
  best_after title best [] = best
  best_after title best (item ∷ items) =
      best_after title (if is_better title best item then item else best) items

  pub best_match : String → List JobForComparison → Option JobForComparison
  best_match title [] = none
  best_match title (item ∷ items) = some (best_after title item items)

  -- `jobs_are_duplicates` (backend/app/ingestion/deduplication/semantic.py).
  pub jobs_are_duplicates : NormalizedJobCandidate → JobForComparison → Bool
  jobs_are_duplicates normalized item =
      leb similarity_threshold (similarity normalized.normalized_title item.normalized_title)
      && str_eq normalized.normalized_city item.city

  pub match_of_best : NormalizedJobCandidate → Option JobForComparison → JobMatch
  match_of_best normalized none = new
  match_of_best normalized (some best) =
      if ltb (similarity normalized.normalized_title best.normalized_title) similarity_threshold
      then new
      else if jobs_are_duplicates normalized best
      then existing best.job_posting_id
      else new

  pub resolve_by_title : NormalizedJobCandidate → List JobForComparison → JobMatch
  resolve_by_title normalized comparisons =
      match_of_best normalized
        (best_match normalized.normalized_title (keep (is_eligible normalized) comparisons))

  -- After the lookup by the source.
  pub resolve_after :
      ℕ → NormalizedJobCandidate → List JobForComparison → Option SourceJobMatch → JobMatch
  resolve_after company_id normalized comparisons none = resolve_by_title normalized comparisons
  resolve_after company_id normalized comparisons (some exact) =
      if exact.company_id == company_id
      then existing (some exact.job_posting_id)
      else resolve_by_title normalized comparisons

  -- `JobDeduplicator.resolve`, on the candidate and what `normalize_job` makes of it.
  pub resolve_job_match : JobDeduplicationRepository → ℕ → NormalizedJobCandidate → JobMatch
  resolve_job_match repository company_id normalized =
      resolve_after company_id normalized (repository.list_for_company company_id)
        (exact_match repository normalized.candidate.provider normalized.candidate.source_raw_id)
