-- ===== src/Ingestion/Persistence/Contracts.antt =====
-- The batches that are persisted, and their validators (backend/app/ingestion/persistence/contracts.py).
-- The lengths of single texts are left out, and a JSON value is its text.
use Prim.Native.String.{count}
use text.Mathlib.Text.{◌==◌ as str_eq}
use job_search.Base.{
  ℕ, String, Bool, true, false, not, ◌&&◌, ◌||◌, Option, none, some, List, [], ◌∷◌, ◌++◌, map,
  any_of, all_of, leb, is_none, Outcome, returned, ◌>>◌, require,
}
use job_search.Ingestion.DirectAts.{JobType, VerificationStatus}
use job_search.Ingestion.Persistence.{FilingType}

pub data EmploymentType : Type 0 where
  full_time part_time internship temporary : EmploymentType

pub record RawDocument : Type 0 where
  pub provider : String
  pub external_id : Option String
  pub url : String
  pub title : Option String
  pub text : String
  pub published_at : Option ℕ
  pub authority_level : Option ℕ

pub record NormalizedDocument : Type 0 where
  pub evidence_id : String
  pub document : RawDocument
  pub fetched_at : ℕ

pub record CompanyFieldEvidence : Type 0 where
  pub field_name : String
  pub evidence_id : String
  pub confidence : ℕ

-- The stage and the scale are the values of their enumerations. Only a profile candidate has headquarters
-- and a year of foundation.
pub record CompanyCandidate : Type 0 where
  pub name : String
  pub aliases : List String
  pub website : Option String
  pub description : Option String
  pub headquarters : Option String
  pub founded_year : Option ℕ
  pub city : Option String
  pub industry : Option String
  pub sub_industry : Option String
  pub funding_stage : String
  pub scale : String
  pub evidence_ids : List String

-- With the fields of its `NormalizedCompanyCandidate`.
pub record NormalizedCompanyRecord : Type 0 where
  pub candidate : CompanyCandidate
  pub normalized_name : String
  pub company_id : Option ℕ
  pub field_evidence : List CompanyFieldEvidence

pub record JobCandidate : Type 0 where
  pub title : String
  pub employment_type : Option EmploymentType
  pub location : Option String
  pub salary : Option String
  pub provider : Option String
  pub source_raw_id : Option String
  pub description : Option String
  pub evidence_ids : List String

pub record NormalizedJobCandidate : Type 0 where
  pub candidate : JobCandidate
  pub normalized_title : String
  pub normalized_city : String
  pub job_type : JobType
  pub employment_type : Option EmploymentType
  pub salary_minimum_monthly : Option ℕ
  pub salary_maximum_monthly : Option ℕ
  pub salary_months : Option ℕ
  pub warnings : List String

pub record NormalizedJobRecord : Type 0 where
  pub candidate : NormalizedJobCandidate
  pub job_posting_id : Option ℕ
  pub source_evidence_id : Option String
  pub apply_url : String
  pub posted_at : Option ℕ
  pub seen_at : ℕ
  pub is_active : Bool

pub record NormalizedFilingRecord : Type 0 where
  pub filing_type : FilingType
  pub filing_number : String
  pub filing_name : String
  pub filing_authority : Option String
  pub filing_date : Option ℕ
  pub filing_status : Option String
  pub detail_url : Option String
  pub source_evidence_id : Option String

pub record NormalizedProfileFieldRecord : Type 0 where
  pub field_key : String
  pub value : String
  pub source_evidence_id : String
  pub verification_status : VerificationStatus

pub record NormalizedBatch : Type 0 where
  pub documents : List NormalizedDocument
  pub company : NormalizedCompanyRecord
  pub jobs : List NormalizedJobRecord
  pub filings : List NormalizedFilingRecord
  pub profile_fields : List NormalizedProfileFieldRecord
  pub collected_at : ℕ

abbrev pub max_sql_integer : ℕ
max_sql_integer = 2147483647

abbrev pub max_sql_smallint : ℕ
max_sql_smallint = 32767

-- `value is None or value <= bound`
abbrev pub at_most : ℕ → Option ℕ → Bool
at_most bound none = true
at_most bound (some n) = leb n bound

-- `salary_months is None or 1 <= salary_months <= 32767`
abbrev pub months_in_domain : Option ℕ → Bool
months_in_domain none = true
months_in_domain (some n) = leb 1 n && leb n max_sql_smallint

unfoldable pub validate_database_lengths : NormalizedJobRecord → Outcome NormalizedJobRecord
validate_database_lengths record_ = do
  require (leb (count record_.candidate.normalized_title) 255)
      "normalized job title exceeds 255 characters"
  require (leb (count record_.candidate.normalized_city) 50)
      "normalized job city exceeds 50 characters"
  require
      (at_most max_sql_integer record_.candidate.salary_minimum_monthly
        && at_most max_sql_integer record_.candidate.salary_maximum_monthly)
      "normalized salary exceeds database integer domain"
  require (months_in_domain record_.candidate.salary_months)
      "normalized salary months exceed database domain"
  returned record_

abbrev pub text_among : List String → String → Bool
text_among texts a = any_of (str_eq a) texts

unfoldable pub has_repeated_text : List String → Bool
has_repeated_text [] = false
has_repeated_text (a ∷ texts) = text_among texts a || has_repeated_text texts

abbrev pub given : Option String → List String
given none = []
given (some a) = a ∷ []

abbrev pub concat_map {ℓ κ} : {A : Type ℓ} {B : Type κ} → (A → List B) → List A → List B
concat_map f [] = []
concat_map f (x ∷ xs) = f x ++ concat_map f xs

-- The evidence that a batch refers to.
unfoldable pub references : NormalizedBatch → List String
references batch =
    map (λ item. item.evidence_id) batch.company.field_evidence
    ++ batch.company.candidate.evidence_ids
    ++ concat_map (λ job. job.candidate.candidate.evidence_ids) batch.jobs
    ++ concat_map (λ job. given job.source_evidence_id) batch.jobs
    ++ concat_map (λ filing. given filing.source_evidence_id) batch.filings
    ++ map (λ field. field.source_evidence_id) batch.profile_fields

unfoldable pub validate_references : NormalizedBatch → Outcome NormalizedBatch
validate_references batch =
    let known = map (λ item. item.evidence_id) batch.documents in
    (do
      require (not (has_repeated_text known)) "duplicate evidence_id in documents"
      require (all_of (text_among known) (references batch)) "unknown evidence_id reference"
      require
          (all_of
            (λ job.
              not (is_none job.candidate.candidate.provider)
              && not (is_none job.candidate.candidate.source_raw_id))
            batch.jobs)
          "job provider and source_raw_id are required"
      returned batch)
