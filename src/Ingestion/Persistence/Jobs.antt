-- ===== src/Ingestion/Persistence/Jobs.antt =====
-- `_upsert_jobs`, `_resolve_job` and `_merge_job` of `PersistenceService`
-- (backend/app/ingestion/persistence/service.py).
use Prim.Native.String.{count}
use text.Mathlib.Text.{◌==◌ as str_eq}
use job_search.Base.{
  first, ℕ, ◌==◌, String, Bool, true, false, not, ◌||◌, Option, none, some, [], ◌∷◌, ◌++◌, any_of,
  ltb, if◌then◌else◌,
}
use job_search.Ingestion.DirectAts.{
  JobType, JobPosting, JobSource, job_type_value, is_unknown, preferring, earlier,
}
use job_search.Ingestion.DirectAts.Writing.{has_source_key, same_source}
use job_search.Ingestion.Persistence.{
  Tables, Write, ◌>>=◌, ◌>>◌, pure, gets, modify, demand, or_fail, Externals,
}
use job_search.Ingestion.Persistence.Contracts.{NormalizedJobRecord}
use job_search.Ingestion.Persistence.Conflicts.{Model, change}

abbrev pub source_model : Model JobSource
source_model = record {
  rows = λ t. t.sources;
  with_rows = λ rows t. record t { sources = rows };
  violated = λ s rows.
      if any_of (λ row. row.id == s.id) rows
      then some "pk_job_sources"
      else if any_of (same_source s) rows
      then some "uq_job_source_provider_raw_id"
      else none;
}

abbrev pub posting_model : Model JobPosting
posting_model = record {
  rows = λ t. t.postings;
  with_rows = λ rows t. record t { postings = rows };
  violated = λ p rows. if any_of (λ row. row.id == p.id) rows then some "pk_job_postings" else none;
}

abbrev pub get_posting : ℕ → Tables → Option JobPosting
get_posting id t = first (λ p. p.id == id) t.postings

abbrev pub find_source : String × String → Tables → Option JobSource
find_source key t = first (has_source_key key) t.sources

-- `value or ""`
abbrev pub or_empty : Option String → String
or_empty none = ""
or_empty (some a) = a

abbrev pub longer : String → String → String
longer existing incoming = if ltb (count existing) (count incoming) then incoming else existing

abbrev pub compatible_types : JobType → JobType → Bool
compatible_types existing incoming =
    is_unknown incoming
    || is_unknown existing
    || str_eq (job_type_value existing) (job_type_value incoming)

abbrev pub incoming_type : JobType → JobType → JobType
incoming_type existing incoming = if is_unknown incoming then existing else incoming

-- What a record changes in the posting of its job.
abbrev pub merged_job : NormalizedJobRecord → JobPosting → JobPosting
merged_job item p = record p {
  title = item.candidate.candidate.title;
  job_type = incoming_type p.job_type item.candidate.job_type;
  description = longer p.description (or_empty item.candidate.candidate.description);
  posted_at = earlier p.posted_at item.posted_at;
  salary_min_monthly = preferring p.salary_min_monthly item.candidate.salary_minimum_monthly;
  salary_max_monthly = preferring p.salary_max_monthly item.candidate.salary_maximum_monthly;
  salary_months = preferring p.salary_months item.candidate.salary_months;
}

unfoldable pub merge_job : JobPosting → NormalizedJobRecord → Write (Unit {0})
merge_job job item = do
  demand (compatible_types job.job_type item.candidate.job_type) "incompatible canonical job type"
  change posting_model (λ p. p.id == job.id) (merged_job item)

abbrev pub belongs : ℕ → Option JobPosting → Bool
belongs company_id none = false
belongs company_id (some p) = p.company_id == company_id

abbrev pub agrees_with : Option ℕ → ℕ → Bool
agrees_with none id = true
agrees_with (some expected) id = expected == id

-- A posting of the company, or an error.
unfoldable pub owned_posting : ℕ → ℕ → String → Write JobPosting
owned_posting company_id id message = do
  found ← gets (get_posting id)
  demand (belongs company_id found) message
  or_fail found message

unfoldable pub resolve_job : ℕ → NormalizedJobRecord → Option JobSource → Write (Option JobPosting)
resolve_job company_id item (some source) = do
  job ← owned_posting company_id source.job_posting_id "job source belongs to another company"
  demand (agrees_with item.job_posting_id job.id)
      "job source conflicts with the resolved canonical job"
  pure (some job)
resolve_job company_id item none = elim item.job_posting_id [
  | none ↦ pure none
  | some id ↦ (do
    job ← owned_posting company_id id "canonical job does not belong to the persisted company"
    pure (some job))
]

abbrev pub new_job : ℕ → NormalizedJobRecord → ℕ → JobPosting
new_job company_id item id = record {
  id = id;
  company_id = company_id;
  title = item.candidate.candidate.title;
  normalized_title = item.candidate.normalized_title;
  city = item.candidate.normalized_city;
  job_type = item.candidate.job_type;
  salary_min_monthly = item.candidate.salary_minimum_monthly;
  salary_max_monthly = item.candidate.salary_maximum_monthly;
  salary_months = item.candidate.salary_months;
  description = or_empty item.candidate.candidate.description;
  posted_at = item.posted_at;
  is_active = item.is_active;
}

-- The id of the job, and whether it was created.
unfoldable pub stored_job :
    Externals → ℕ → NormalizedJobRecord → Option JobPosting → Write (ℕ × Bool)
stored_job ext company_id item (some job) = do merge_job job item; pure (job.id, false)
stored_job ext company_id item none = do
  t ← gets (λ t. t)
  let id = ext.uuid t
  demand (not (any_of (λ p. p.id == id) t.postings)) "database uniqueness conflict"
  modify (λ t. record t { postings = t.postings ++ new_job company_id item id ∷ [] })
  pure (id, true)
