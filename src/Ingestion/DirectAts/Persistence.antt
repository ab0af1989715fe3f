-- ===== src/Ingestion/DirectAts/Persistence.antt =====
-- `DirectAtsPersistence.persist` and `write_direct_ats_jobs` of backend/app/ingestion/direct_ats.py, around
-- the loop over the jobs.
use text.Mathlib.Text.{◌==◌ as str_eq}
use job_search.Base.{
  first, ℕ, ◌==◌, String, Bool, true, false, ◌&&◌, Option, none, some, List, [], ◌∷◌, ◌++◌, map,
  any_of, contains, not, length, Outcome, returned, ◌>>=◌, ◌>>◌, require, if◌then◌else◌,
}
use job_search.Coverage.Models.{JobEntryStatus, JobSnapshotStatus, is_succeeded}
use job_search.Collection.Repository.{PersistenceResult}
use job_search.Ingestion.DirectAts.{
  VerificationStatus, ParsedJob, JobEntry, JobCollectionSnapshot, DirectAtsSnapshotMetadata,
  Company, CompanyAlias, Store, DirectAtsWriteResult, entry_fits, snapshot_fits,
}
use job_search.Ingestion.DirectAts.Writing.{Externals, flush, write_jobs}

-- The unique constraint on the entry and the run of a snapshot. A missing run is equal to none.
abbrev pub same_run : Option ℕ → Option ℕ → Bool
same_run (some a) (some b) = a == b
same_run none b = false
same_run (some a) none = false

-- The foreign key of the run, which may be missing.
abbrev pub run_exists : Option ℕ → List ℕ → Bool
run_exists none run_ids = true
run_exists (some run_id) run_ids = contains run_ids run_id

unfoldable pub insert_snapshot :
    JobCollectionSnapshot
    → List ℕ
    → List JobCollectionSnapshot
    → Outcome (List JobCollectionSnapshot)
insert_snapshot row run_ids snapshots = do
  require (snapshot_fits row) "DataError"
  require (run_exists row.crawl_run_id run_ids) "IntegrityError"
  require
      (not (
        any_of (λ s. s.job_entry_id == row.job_entry_id && same_run s.crawl_run_id row.crawl_run_id)
          snapshots))
      "IntegrityError"
  returned (snapshots ++ row ∷ [])

abbrev pub default_metadata : ℕ → DirectAtsSnapshotMetadata
default_metadata jobs = record {
  status = JobSnapshotStatus.partial;
  pagination_complete = false;
  empty_confirmed = false;
  reported_total = none;
  observed_count = some jobs;
  pages_fetched = 1;
  content_fingerprint = none;
  error_code = some "pagination_incomplete";
}

abbrev pub or_given {ℓ} : {A : Type ℓ} → Option A → A → A
or_given none fallback = fallback
or_given (some a) fallback = a

module _ (ext : Externals) (company_id : ℕ) (platform : String) (now : ℕ) where
  abbrev pub new_entry : String → String → JobEntry
  new_entry entry_url normalized_url = record {
    id = ext.entry_uuid;
    company_id = company_id;
    url = entry_url;
    normalized_url = normalized_url;
    provider = "ats";
    platform = platform;
    status = JobEntryStatus.active;
    is_primary = false;
    verification_status = VerificationStatus.pending_verification;
    verified_at = none;
    last_checked_at = none;
    last_success_at = none;
  }

  -- The entry of the URL, or a new one, which is flushed.
  unfoldable pub find_or_add_entry :
      String
      → String
      → List Company
      → Option JobEntry
      → List JobEntry
      → Outcome (JobEntry × List JobEntry)
  find_or_add_entry entry_url normalized_url companies (some entry) entries =
      returned (entry, entries)
  find_or_add_entry entry_url normalized_url companies none entries = do
    require (entry_fits (new_entry entry_url normalized_url)) "DataError"
    require (any_of (λ c. c.id == company_id) companies) "IntegrityError"
    returned
        (new_entry entry_url normalized_url, entries ++ new_entry entry_url normalized_url ∷ [])

  -- The entry becomes the company's primary one.
  unfoldable pub mark_entry : ℕ → JobEntry → JobEntry
  mark_entry entry_id e =
      if e.id == entry_id
      then record e {
        status = JobEntryStatus.active;
        is_primary = true;
        verification_status = VerificationStatus.verified;
        verified_at = some now;
        last_checked_at = some now;
        last_success_at = some now;
      }
      else if e.company_id == company_id
      then record e { is_primary = false }
      else e

  abbrev pub snapshot_row :
      String → ℕ → ℕ → Option ℕ → DirectAtsSnapshotMetadata → JobCollectionSnapshot
  snapshot_row normalized_url entry_id jobs crawl_run_id metadata =
      let observed_count = or_given metadata.observed_count jobs in
      record {
        id = ext.snapshot_uuid;
        job_entry_id = entry_id;
        crawl_run_id = crawl_run_id;
        status = metadata.status;
        lifecycle_applied = is_succeeded metadata.status && metadata.pagination_complete;
        pagination_complete = metadata.pagination_complete;
        empty_confirmed = metadata.empty_confirmed;
        reported_total = metadata.reported_total;
        observed_count = observed_count;
        pages_fetched = metadata.pages_fetched;
        content_fingerprint = metadata.content_fingerprint;
        error_code = metadata.error_code;
        command_hash =
            ext.command_hash normalized_url metadata.status metadata.pagination_complete
              observed_count metadata.pages_fetched metadata.error_code;
        started_at = now;
        completed_at = now;
      }

  unfoldable pub write_under_entry :
      String
      → List ParsedJob
      → Option ℕ
      → Option DirectAtsSnapshotMetadata
      → Store
      → JobEntry × List JobEntry
      → Outcome (DirectAtsWriteResult × Store)
  write_under_entry normalized_url jobs crawl_run_id snapshot st (entry, entries) = do
    written ←
        write_jobs ext company_id platform now entry.id 0 jobs
          (record { postings = st.postings; sources = st.sources; pending = []; written = 0 })
    committed ← flush written
    snapshots ←
        insert_snapshot
          (snapshot_row normalized_url entry.id (length jobs) crawl_run_id
            (or_given snapshot (default_metadata (length jobs))))
          st.run_ids st.snapshots
    returned (
      record { jobs_written = committed.written; observed_count = length jobs },
      record st {
        entries = map (mark_entry entry.id) entries;
        postings = committed.postings;
        sources = committed.sources;
        snapshots = snapshots;
      },
    )

  unfoldable pub write_direct_ats_jobs :
      String
      → List ParsedJob
      → Option ℕ
      → Option DirectAtsSnapshotMetadata
      → Store
      → Outcome (DirectAtsWriteResult × Store)
  write_direct_ats_jobs entry_url jobs crawl_run_id snapshot st = do
    normalized_url ← ext.normalize_url entry_url
    found ←
        find_or_add_entry entry_url normalized_url st.companies
          (first (λ e. e.company_id == company_id && str_eq e.normalized_url normalized_url)
            st.entries)
          st.entries
    write_under_entry normalized_url jobs crawl_run_id snapshot st found

-- The company of a name, by its own name or an alias.
abbrev pub company_or_alias : Option Company → Option CompanyAlias → Option ℕ
company_or_alias (some company) alias = some company.id
company_or_alias none (some alias) = some alias.company_id
company_or_alias none none = none

pub resolve_company_id : Externals → String → Store → Option ℕ
resolve_company_id ext company_name st =
    let normalized_name = ext.normalize_name company_name in
    company_or_alias (first (λ c. str_eq c.normalized_name normalized_name) st.companies)
      (first (λ a. str_eq a.normalized_alias normalized_name) st.aliases)

-- `persist`. The invalidation of the cache is not modelled.
pub persist_for :
    Externals
    → String
    → String
    → List ParsedJob
    → ℕ
    → Option DirectAtsSnapshotMetadata
    → ℕ
    → Option ℕ
    → Store
    → Outcome (Option PersistenceResult × Store)
persist_for ext entry_url platform jobs crawl_run_id snapshot now none st = returned (none, st)
persist_for ext entry_url platform jobs crawl_run_id snapshot now (some company_id) st = do
  (result, st') ←
      write_direct_ats_jobs ext company_id platform now entry_url jobs (some crawl_run_id) snapshot
        st
  returned (some (record { company_id = some company_id; jobs_written = result.jobs_written }), st')

pub persist :
    Externals
    → String
    → String
    → String
    → List ParsedJob
    → ℕ
    → Option DirectAtsSnapshotMetadata
    → ℕ
    → Store
    → Outcome (Option PersistenceResult × Store)
persist ext company_name entry_url platform jobs crawl_run_id snapshot now st =
    persist_for ext entry_url platform jobs crawl_run_id snapshot now
      (resolve_company_id ext company_name st) st
