-- ===== src/Ingestion/DirectAts/Writing.antt =====
-- The loop over the jobs in `write_direct_ats_jobs` of backend/app/ingestion/direct_ats.py. The
-- normalizations, the digest and the new UUIDs, those of the loop by the position of the job, are
-- parameters.
use Prim.Native.String.{◌++◌ as str_append}
use text.Mathlib.Text.{◌==◌ as str_eq}
use job_search.Base.{
  first, ℕ, suc, ◌+◌, ◌==◌, String, Bool, true, ◌&&◌, Option, none, some, List, [], ◌∷◌, ◌++◌, map,
  any_of, all_of, Outcome, returned, raised, ◌>>=◌, ◌>>◌, require, if◌then◌else◌,
}
use job_search.Coverage.Models.{JobSnapshotStatus}
use job_search.Ingestion.DirectAts.{
  ParsedJob, JobPosting, JobSource, Work, parse_job_type, merge_job_from_parsed, posting_fits,
  source_fits,
}

-- What the code takes from other modules, from hashlib, and from uuid4.
pub record Externals : Type 0 where
  pub normalize_name : String → String
  -- Raises where the text is no URL of the web.
  pub normalize_url : String → Outcome String
  pub command_hash : String → JobSnapshotStatus → Bool → ℕ → ℕ → Option String → ℕ
  pub entry_uuid : ℕ
  pub snapshot_uuid : ℕ
  pub posting_uuid : ℕ → ℕ
  pub source_uuid : ℕ → ℕ

-- `value or fallback`
abbrev pub or_text : Option String → String → String
or_text none fallback = fallback
or_text (some value) fallback = if str_eq value "" then fallback else value

-- The key of a source, which is unique: the provider and the id that it gives.
abbrev pub source_key : String → ParsedJob → String × String
source_key platform parsed =
    (or_text parsed.provider (str_append "ats_" platform), or_text parsed.source_raw_id parsed.url)

abbrev pub has_source_key : String × String → JobSource → Bool
has_source_key key s = str_eq s.provider key.0 && str_eq s.source_raw_id key.1

abbrev pub same_source : JobSource → JobSource → Bool
same_source a b = has_source_key (a.provider, a.source_raw_id) b

-- The INSERTs of a flush, under the unique constraint.
unfoldable pub insert_sources : List JobSource → List JobSource → Outcome (List JobSource)
insert_sources [] sources = returned sources
insert_sources (s ∷ pending) sources =
    let rest = insert_sources pending (sources ++ s ∷ []) in
    if any_of (same_source s) sources then raised "IntegrityError" else rest

-- The rows of the tables fit their columns, so that only new and changed ones can fail this test.
unfoldable pub rows_fit : Work → Bool
rows_fit w =
    all_of posting_fits w.postings && all_of source_fits w.sources && all_of source_fits w.pending

unfoldable pub flush : Work → Outcome Work
flush w = do
  require (rows_fit w) "DataError"
  sources ← insert_sources w.pending w.sources
  returned (record w { sources = sources; pending = [] })

module _ (ext : Externals) (company_id : ℕ) (platform : String) (now : ℕ) where
  abbrev pub is_posting_of : ParsedJob → JobPosting → Bool
  is_posting_of parsed job =
      job.company_id == company_id
      && str_eq job.normalized_title (ext.normalize_name parsed.title)
      && str_eq job.city (or_text parsed.city "")

  abbrev pub new_posting : ℕ → ParsedJob → JobPosting
  new_posting position parsed = record {
    id = ext.posting_uuid position;
    company_id = company_id;
    title = parsed.title;
    normalized_title = ext.normalize_name parsed.title;
    city = or_text parsed.city "";
    job_type = parse_job_type parsed.job_type;
    salary_min_monthly = parsed.salary_min_monthly;
    salary_max_monthly = parsed.salary_max_monthly;
    salary_months = parsed.salary_months;
    description = or_text parsed.description "";
    posted_at = parsed.posted_at;
    is_active = true;
  }

  -- The posting of a job: a new one is added and flushed, an old one merged.
  unfoldable pub write_posting : ℕ → ParsedJob → Work → Option JobPosting → Outcome (ℕ × Work)
  write_posting position parsed w none = do
    flushed ← flush (record w { postings = w.postings ++ new_posting position parsed ∷ [] })
    returned (ext.posting_uuid position, record flushed { written = flushed.written + 1 })
  write_posting position parsed w (some job) = returned (
    job.id,
    record w {
      postings = map (λ p. if p.id == job.id then merge_job_from_parsed p parsed else p) w.postings;
    },
  )

  module _ (entry_id : ℕ) where
    abbrev pub new_source : ℕ → ParsedJob → ℕ → JobSource
    new_source position parsed job_id = record {
      id = ext.source_uuid position;
      job_posting_id = job_id;
      source_document_id = none;
      job_entry_id = some entry_id;
      provider = (source_key platform parsed).0;
      source_raw_id = (source_key platform parsed).1;
      apply_url = parsed.url;
      first_seen_at = now;
      last_seen_at = now;
      is_active = true;
    }

    abbrev pub refreshed_source : ParsedJob → ℕ → JobSource → JobSource
    refreshed_source parsed job_id s = record s {
      job_posting_id = job_id;
      job_entry_id = some entry_id;
      apply_url = parsed.url;
      last_seen_at = now;
      is_active = true;
    }

    -- The source of a job, among those that are flushed.
    unfoldable pub write_source : ℕ → ParsedJob → ℕ → Work → Work
    write_source position parsed job_id w =
        let key = source_key platform parsed in
        if any_of (has_source_key key) w.sources
        then record w {
          sources =
              map (λ s. if has_source_key key s then refreshed_source parsed job_id s else s)
                w.sources;
        }
        else record w { pending = w.pending ++ new_source position parsed job_id ∷ [] }

    unfoldable pub write_job : ℕ → ParsedJob → Work → Outcome Work
    write_job position parsed w = do
      (job_id, written) ← write_posting position parsed w (first (is_posting_of parsed) w.postings)
      returned (write_source position parsed job_id written)

    unfoldable pub write_jobs : ℕ → List ParsedJob → Work → Outcome Work
    write_jobs position [] w = returned w
    write_jobs position (parsed ∷ jobs) w = do
      written ← write_job position parsed w
      write_jobs (suc position) jobs written
