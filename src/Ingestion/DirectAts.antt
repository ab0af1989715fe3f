-- ===== src/Ingestion/DirectAts.antt =====
-- The writing of jobs from recruiting systems (backend/app/ingestion/direct_ats.py), on the tables as the
-- database has them and the sources that the session has not flushed. The session does not flush by itself
-- (`SessionLocal` of backend/app/core/database.py has autoflush=False). A call that raises is rolled back.
-- Columns that this code neither reads nor writes are left out. Widths of columns and foreign keys
-- (backend/app/models/job.py and job_entry.py) are tested where the session flushes the rows. Amounts are
-- not negative, and the characters that the database does not take are not modelled.
pub mod Writing
pub mod Persistence
pub mod Keys
pub mod Columns
pub mod Sources
pub mod Loop
pub mod Listing
pub mod Postings
mod Samples
use Prim.Native.String.{◌++◌ as str_append, count}
use text.Mathlib.Text.{◌==◌ as str_eq}
use job_search.Base.{
  ℕ, zero, suc, ◌+◌, ◌==◌, String, Bool, true, false, not, ◌&&◌, ◌||◌, Option, none, some, List, [],
  ◌∷◌, ◌++◌, map, any_of, length, leb, ltb, is_none, holds, Outcome, returned, raised, ◌>>=◌, ◌>>◌,
  require, if◌then◌else◌,
}
use job_search.Coverage.Models.{JobEntryStatus, JobSnapshotStatus, is_succeeded}
use job_search.Collection.Repository.{PersistenceResult}

pub data JobType : Type 0 where
  full_time part_time internship temporary campus experienced unknown : JobType

pub data VerificationStatus : Type 0 where
  verified pending_verification : VerificationStatus

pub record ParsedJob : Type 0 where
  pub title : String
  pub url : String
  pub city : Option String
  pub job_type : Option String
  pub salary_min_monthly : Option ℕ
  pub salary_max_monthly : Option ℕ
  pub salary_months : Option ℕ
  pub description : Option String
  pub posted_at : Option ℕ
  pub provider : Option String
  pub source_raw_id : Option String

pub record JobEntry : Type 0 where
  pub id : ℕ
  pub company_id : ℕ
  pub url : String
  pub normalized_url : String
  pub provider : String
  pub platform : String
  pub status : JobEntryStatus
  pub is_primary : Bool
  pub verification_status : VerificationStatus
  pub verified_at : Option ℕ
  pub last_checked_at : Option ℕ
  pub last_success_at : Option ℕ

pub record JobPosting : Type 0 where
  pub id : ℕ
  pub company_id : ℕ
  pub title : String
  pub normalized_title : String
  pub city : String
  pub job_type : JobType
  pub salary_min_monthly : Option ℕ
  pub salary_max_monthly : Option ℕ
  pub salary_months : Option ℕ
  pub description : String
  pub posted_at : Option ℕ
  pub is_active : Bool

pub record JobSource : Type 0 where
  pub id : ℕ
  pub job_posting_id : ℕ
  pub source_document_id : Option ℕ
  pub job_entry_id : Option ℕ
  pub provider : String
  pub source_raw_id : String
  pub apply_url : String
  pub first_seen_at : ℕ
  pub last_seen_at : ℕ
  pub is_active : Bool

pub record JobCollectionSnapshot : Type 0 where
  pub id : ℕ
  pub job_entry_id : ℕ
  pub crawl_run_id : Option ℕ
  pub status : JobSnapshotStatus
  pub lifecycle_applied : Bool
  pub pagination_complete : Bool
  pub empty_confirmed : Bool
  pub reported_total : Option ℕ
  pub observed_count : ℕ
  pub pages_fetched : ℕ
  pub content_fingerprint : Option String
  pub error_code : Option String
  pub command_hash : ℕ
  pub started_at : ℕ
  pub completed_at : ℕ

pub record DirectAtsSnapshotMetadata : Type 0 where
  pub status : JobSnapshotStatus
  pub pagination_complete : Bool
  pub empty_confirmed : Bool
  pub reported_total : Option ℕ
  pub observed_count : Option ℕ
  pub pages_fetched : ℕ
  pub content_fingerprint : Option String
  pub error_code : Option String

pub record Company : Type 0 where
  pub id : ℕ
  pub normalized_name : String

pub record CompanyAlias : Type 0 where
  pub company_id : ℕ
  pub normalized_alias : String

-- The tables.
pub record Store : Type 0 where
  pub companies : List Company
  pub aliases : List CompanyAlias
  pub run_ids : List ℕ
  pub entries : List JobEntry
  pub postings : List JobPosting
  pub sources : List JobSource
  pub snapshots : List JobCollectionSnapshot

-- The loop over the jobs: the tables, the sources that are not flushed, and the counter.
pub record Work : Type 0 where
  pub postings : List JobPosting
  pub sources : List JobSource
  pub pending : List JobSource
  pub written : ℕ

pub record DirectAtsWriteResult : Type 0 where
  pub jobs_written : ℕ
  pub observed_count : ℕ

abbrev pub job_type_value : JobType → String
job_type_value JobType.full_time = "full_time"
job_type_value JobType.part_time = "part_time"
job_type_value JobType.internship = "internship"
job_type_value JobType.temporary = "temporary"
job_type_value JobType.campus = "campus"
job_type_value JobType.experienced = "experienced"
job_type_value JobType.unknown = "unknown"

abbrev pub job_types : List JobType
job_types =
    JobType.full_time ∷ JobType.part_time ∷ JobType.internship ∷ JobType.temporary ∷ JobType.campus
    ∷ JobType.experienced ∷ JobType.unknown ∷ []

-- `JobType(value)`, or unknown where that raises.
job_type_among : List JobType → String → JobType
job_type_among [] value = JobType.unknown
job_type_among (t ∷ ts) value =
    if str_eq (job_type_value t) value then t else job_type_among ts value

pub parse_job_type : Option String → JobType
unfolding job_type_among
parse_job_type none = JobType.unknown
parse_job_type (some value) = job_type_among job_types value

abbrev pub is_unknown : JobType → Bool
is_unknown JobType.unknown = true
is_unknown _ = false

abbrev pub merged_job_type : JobType → JobType → JobType
merged_job_type existing parsed =
    if not (is_unknown parsed)
      && (is_unknown existing || str_eq (job_type_value existing) (job_type_value parsed))
    then parsed
    else existing

abbrev pub merged_description : String → Option String → String
merged_description existing none = existing
merged_description existing (some parsed) =
    if ltb (count existing) (count parsed) then parsed else existing

-- `if parsed is not None: existing = parsed`
abbrev pub preferring {ℓ} : {A : Type ℓ} → Option A → Option A → Option A
preferring existing none = existing
preferring existing (some a) = some a

abbrev pub earlier : Option ℕ → Option ℕ → Option ℕ
earlier existing none = existing
earlier none (some b) = some b
earlier (some a) (some b) = if ltb b a then some b else some a

pub merge_job_from_parsed : JobPosting → ParsedJob → JobPosting
merge_job_from_parsed job parsed = record job {
  job_type = merged_job_type job.job_type (parse_job_type parsed.job_type);
  description = merged_description job.description parsed.description;
  salary_min_monthly = preferring job.salary_min_monthly parsed.salary_min_monthly;
  salary_max_monthly = preferring job.salary_max_monthly parsed.salary_max_monthly;
  salary_months = preferring job.salary_months parsed.salary_months;
  posted_at = earlier job.posted_at parsed.posted_at;
}

-- `String(width)`, `Integer` and `SmallInteger`.
abbrev pub text_fits : ℕ → String → Bool
text_fits width text = leb (count text) width

abbrev pub optional_text_fits : ℕ → Option String → Bool
optional_text_fits width none = true
optional_text_fits width (some text) = text_fits width text

abbrev pub largest_integer : ℕ
largest_integer = 2147483647

abbrev pub largest_small_integer : ℕ
largest_small_integer = 32767

abbrev pub number_fits : ℕ → Option ℕ → Bool
number_fits largest none = true
number_fits largest (some n) = leb n largest

pub posting_fits : JobPosting → Bool
posting_fits p =
    text_fits 255 p.title
    && text_fits 255 p.normalized_title
    && text_fits 50 p.city
    && number_fits largest_integer p.salary_min_monthly
    && number_fits largest_integer p.salary_max_monthly
    && number_fits largest_small_integer p.salary_months

pub source_fits : JobSource → Bool
source_fits s =
    text_fits 50 s.provider && text_fits 255 s.source_raw_id && text_fits 2000 s.apply_url

pub entry_fits : JobEntry → Bool
entry_fits e =
    text_fits 2000 e.url
    && text_fits 2000 e.normalized_url
    && text_fits 50 e.provider
    && text_fits 50 e.platform

pub snapshot_fits : JobCollectionSnapshot → Bool
snapshot_fits s =
    number_fits largest_integer s.reported_total
    && leb s.observed_count largest_integer
    && leb s.pages_fetched largest_small_integer
    && optional_text_fits 64 s.content_fingerprint
    && optional_text_fits 50 s.error_code
