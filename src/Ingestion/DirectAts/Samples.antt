-- ===== src/Ingestion/DirectAts/Samples.antt =====
-- Two listed jobs: one is new, and the posting of the other is there, without a job source that is active.
use Prim.Native.String.{count}
use text.Mathlib.Text.{◌==◌ as str_eq}
use job_search.Base.{
  ◌≤◌, arith, first, String, ◌≡◌, refl, false, none, some, List, [], ◌∷◌, Outcome, returned, raised,
}
use job_search.Ingestion.DirectAts.{
  JobType, ParsedJob, JobPosting, JobSource, Store, DirectAtsWriteResult, merge_job_from_parsed,
  posting_fits, source_fits, entry_fits, snapshot_fits,
}
use job_search.Ingestion.DirectAts.Writing.{
  Externals, insert_sources, rows_fit, flush, write_posting, write_source, write_job, write_jobs,
}
use job_search.Ingestion.DirectAts.Persistence.{
  find_or_add_entry, insert_snapshot, write_under_entry, write_direct_ats_jobs,
}
use job_search.Ingestion.DirectAts.Columns.{FitsColumns}
use job_search.Ingestion.DirectAts.Listing.{Lists, write_direct_ats_jobs-Lists}
use job_search.Ingestion.DirectAts.Postings.{Grows, jobs_written_lem}

abbrev ext : Externals
ext = record {
  normalize_name = λ name. name;
  normalize_url = λ url. returned url;
  command_hash = λ url status complete observed pages error. 5;
  entry_uuid = 100;
  snapshot_uuid = 101;
  posting_uuid = λ position. position;
  source_uuid = λ position. position;
}

abbrev job : String → String → ParsedJob
job title raw_id = record {
  title = title;
  url = "https://jobs.example/1";
  city = some "Paris";
  job_type = some "full_time";
  salary_min_monthly = none;
  salary_max_monthly = none;
  salary_months = none;
  description = none;
  posted_at = some 3;
  provider = none;
  source_raw_id = some raw_id;
}

abbrev gone : JobPosting
gone = record {
  id = 50;
  company_id = 1;
  title = "Baker";
  normalized_title = "Baker";
  city = "Paris";
  job_type = JobType.unknown;
  salary_min_monthly = none;
  salary_max_monthly = none;
  salary_months = none;
  description = "";
  posted_at = none;
  is_active = false;
}

abbrev gone_source : JobSource
gone_source = record {
  id = 60;
  job_posting_id = 50;
  source_document_id = none;
  job_entry_id = none;
  provider = "ats_moka";
  source_raw_id = "b";
  apply_url = "https://jobs.example/2";
  first_seen_at = 1;
  last_seen_at = 1;
  is_active = false;
}

abbrev store : Store
store = record {
  companies = record { id = 1; normalized_name = "acme" } ∷ [];
  aliases = [];
  run_ids = 4 ∷ [];
  entries = [];
  postings = gone ∷ [];
  sources = gone_source ∷ [];
  snapshots = [];
}

abbrev jobs : List ParsedJob
jobs = job "Cook" "a" ∷ job "Baker" "b" ∷ []

abbrev call : List ParsedJob → Outcome (DirectAtsWriteResult × Store)
call given = write_direct_ats_jobs ext 1 "moka" 9 "https://jobs.example" given (some 4) none store

job_fits :
    (title raw_id : String)
    → count title ≤ 255
    → count raw_id ≤ 255
    → str_eq raw_id "" ≡ false
    → FitsColumns ext "moka" (job title raw_id)
job_fits title raw_id t r filled = record {
  title = t;
  normalized_title = t;
  city = omega arith;
  salary_min_monthly = refl;
  salary_max_monthly = refl;
  salary_months = refl;
  provider = omega arith;
  source_raw_id = rw filled r;
  url = omega arith;
}

write_direct_ats_jobs-Lists_example : Lists ext 1 "moka" 9 "https://jobs.example" jobs (call jobs)
unfolding posting_fits source_fits
write_direct_ats_jobs-Lists_example =
    write_direct_ats_jobs-Lists ext 1 "moka" 9 "https://jobs.example" "https://jobs.example" jobs
      (some 4) none store refl refl refl (omega arith) (omega arith) (omega arith)
      (
        job_fits "Cook" "a" (omega arith) (omega arith) refl,
        (job_fits "Baker" "b" (omega arith) (omega arith) refl, tt),
      )
      refl (record { postings = refl; sources = refl }) ((refl, tt), (tt, tt)) tt

abbrev answer : Outcome (DirectAtsWriteResult × Store) → DirectAtsWriteResult × Store
answer (returned x) = x
answer (raised e) = (record { jobs_written = 0; observed_count = 0 }, store)

jobs_written_example : Grows (gone ∷ []) (answer (call jobs)).1.postings 1
unfolding insert_sources rows_fit posting_fits source_fits entry_fits snapshot_fits flush
    find_or_add_entry first merge_job_from_parsed write_posting write_source write_job write_jobs
    insert_snapshot write_under_entry write_direct_ats_jobs
jobs_written_example =
    jobs_written_lem ext 1 "moka" 9 "https://jobs.example" jobs (some 4) none store
      (answer (call jobs)).0 (answer (call jobs)).1 refl

-- The same job twice in one list: the second source is not seen before the flush, which then fails.
repeated_job : call (job "Cook" "a" ∷ job "Cook" "a" ∷ []) ≡ raised "IntegrityError"
unfolding insert_sources rows_fit posting_fits source_fits entry_fits snapshot_fits flush
    find_or_add_entry first merge_job_from_parsed write_posting write_source write_job write_jobs
    insert_snapshot write_under_entry write_direct_ats_jobs
repeated_job = refl

-- Without the company, the new entry cannot be inserted.
unknown_company :
    write_direct_ats_jobs ext 2 "moka" 9 "https://jobs.example" jobs (some 4) none store
    ≡ raised "IntegrityError"
unfolding entry_fits find_or_add_entry first write_direct_ats_jobs
unknown_company = refl

-- A city of more than fifty characters, which `ParsedJob` allows, does not fit the column.
abbrev far_away : String
far_away = "Llanfairpwllgwyngyllgogerychwyrndrobwllllantysiliogogogoch"

wide_city : call (record (job "Cook" "a") { city = some far_away } ∷ []) ≡ raised "DataError"
unfolding insert_sources rows_fit posting_fits source_fits entry_fits snapshot_fits flush
    find_or_add_entry first merge_job_from_parsed write_posting write_source write_job write_jobs
    insert_snapshot write_under_entry write_direct_ats_jobs
wide_city = refl
