-- ===== src/Coverage/Models.antt =====
-- The rows that coverage snapshots read and write (backend/app/models/job_entry.py, job.py and
-- source.py). Columns that no modelled code reads are left out. UUIDs and times are numbers.
use job_search.Base.{ℕ, String, Bool, true, false, Option, List}
use job_search.Base.Table.{Table}

pub data JobEntryStatus : Type 0 where
  unknown active stale disabled : JobEntryStatus

pub data JobSnapshotStatus : Type 0 where
  succeeded partial failed : JobSnapshotStatus

abbrev pub is_succeeded : JobSnapshotStatus → Bool
is_succeeded succeeded = true
is_succeeded _ = false

pub record JobEntry : Type 0 where
  pub id : ℕ
  pub company_id : ℕ
  pub url : String
  pub normalized_url : String
  pub provider : String
  pub platform : String
  pub requires_rendering : Bool
  pub status : JobEntryStatus
  pub failure_count : ℕ
  pub last_checked_at : Option ℕ
  pub last_success_at : Option ℕ

pub record JobCollectionSnapshot : Type 0 where
  pub id : ℕ
  pub job_entry_id : ℕ
  pub crawl_run_id : ℕ
  pub status : JobSnapshotStatus
  pub lifecycle_applied : Bool
  pub pagination_complete : Bool
  pub empty_confirmed : Bool
  pub reported_total : Option ℕ
  pub observed_count : ℕ
  pub pages_fetched : ℕ
  pub content_fingerprint : Option String
  pub command_hash : ℕ
  pub error_code : Option String
  pub started_at : ℕ
  pub completed_at : ℕ

pub record JobSource : Type 0 where
  pub id : ℕ
  pub job_posting_id : ℕ
  pub job_entry_id : Option ℕ
  pub last_seen_snapshot_id : Option ℕ
  pub last_seen_at : ℕ
  pub is_active : Bool
  pub missing_complete_snapshots : ℕ
  pub lifecycle_managed : Bool

pub record JobPosting : Type 0 where
  pub id : ℕ
  pub company_id : ℕ
  pub is_active : Bool

-- `run_companies` holds the company of each crawl run. Sources stand in the order of their ids.
pub record Store : Type 0 where
  pub companies : List ℕ
  pub entries : Table JobEntry
  pub run_companies : Table (Option ℕ)
  pub snapshots : List JobCollectionSnapshot
  pub sources : List JobSource
  pub postings : List JobPosting
