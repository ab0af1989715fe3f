-- ===== src/Ingestion/Persistence/Service.antt =====
-- `PersistenceService.persist` of backend/app/ingestion/persistence/service.py. The cache that it
-- invalidates is not modelled.
use job_search.Base.{
  ℕ, ◌+◌, ◌==◌, String, Bool, false, not, ◌&&◌, Option, none, some, List, [], ◌∷◌, map, contains,
  length, Outcome, returned, raised, if◌then◌else◌, ◌>>=◌ as ◌and_then◌,
}
use job_search.Base.Table
use job_search.Collection.Models.{CrawlRun, is_running}
use job_search.Ingestion.Persistence.{
  Tables, Write, ◌>>=◌, ◌>>◌, pure, gets, demand, lift, Externals,
}
use job_search.Ingestion.Persistence.Contracts.{
  NormalizedBatch, NormalizedJobRecord, validate_database_lengths, validate_references,
}
use job_search.Ingestion.Persistence.Conflicts.{change}
use job_search.Ingestion.Persistence.Documents.{upsert_documents}
use job_search.Ingestion.Persistence.Companies.{
  company_model, company_identity_names, company_identity_website, upsert_company_locked,
}
use job_search.Ingestion.Persistence.JobLoop.{upsert_jobs}
use job_search.Ingestion.Persistence.Records.{upsert_company_evidence}
use job_search.Ingestion.Persistence.Filings.{upsert_filings}
use job_search.Ingestion.Persistence.Profiles.{upsert_profile_fields, insert_fields}

pub record PersistenceResult : Type 0 where
  pub company_id : ℕ
  pub documents_written : ℕ
  pub jobs_written : ℕ
  pub warnings : List String

abbrev pub is_token : ℕ → Option ℕ → Bool
is_token token none = false
is_token token (some other) = other == token

-- The run that the claim is for: it runs under the token.
unfoldable pub is_run_claimed : ℕ → Option CrawlRun → Bool
is_run_claimed token none = false
is_run_claimed token (some run) = is_running run.status && is_token token run.claim_token

unfoldable pub is_request_running : Tables → Option CrawlRun → Bool
is_request_running t none = false
is_request_running t (some run) = elim run.collection_request_id [
  | none ↦ false
  | some request_id ↦ elim (Table.get request_id t.collection.requests) [
    | none ↦ false
    | some request ↦ is_running request.status
  ]
]

-- `_lock_claim`: the two UPDATEs write what is there already, and each has to touch one row.
unfoldable pub lock_claim : ℕ → ℕ → Write (Unit {0})
lock_claim run_id expected_claim_token = do
  t ← gets (λ t. t)
  let run = Table.get run_id t.collection.runs
  demand (is_run_claimed expected_claim_token run && is_request_running t run)
      "claim ownership lost before persistence"

unfoldable pub lock_expected_claim : ℕ → Option ℕ → Write (Unit {0})
lock_expected_claim run_id none = pure tt
lock_expected_claim run_id (some token) = lock_claim run_id token

-- What ends with an error of the validators ends with one message.
abbrev pub renamed {ℓ} : {A : Type ℓ} → Outcome A → Outcome A
renamed (returned a) = returned a
renamed (raised e) = raised "invalid persistence boundary data"

unfoldable pub validate_jobs : List NormalizedJobRecord → Outcome (Unit {0})
validate_jobs [] = returned tt
validate_jobs (job ∷ jobs) = validate_database_lengths job and_then (λ valid. validate_jobs jobs)

-- `NormalizedBatch.model_validate(...)`
unfoldable pub validate_batch : NormalizedBatch → Outcome NormalizedBatch
validate_batch batch =
    renamed (validate_jobs batch.jobs and_then (λ valid. validate_references batch))

-- `len({document.id for document in documents.values()})`
unfoldable pub count_distinct : List ℕ → ℕ
count_distinct [] = 0
count_distinct (a ∷ ids) = (if contains ids a then 0 else 1) + count_distinct ids

abbrev pub persistence_result : ℕ → List (String × ℕ) → List ℕ → List String → PersistenceResult
persistence_result company_id documents job_ids warnings = record {
  company_id = company_id;
  documents_written = count_distinct (map (λ entry. entry.1) documents);
  jobs_written = length job_ids;
  warnings = warnings;
}

-- The transaction, after the claim.
unfoldable pub write_batch : Externals → NormalizedBatch → List String → Write PersistenceResult
write_batch ext batch identity_names = do
  documents ← upsert_documents ext batch.documents
  (company_id, name) ← upsert_company_locked ext batch.company identity_names
  upsert_company_evidence ext company_id documents batch.company.field_evidence
  (job_ids, warnings) ← upsert_jobs ext company_id documents batch.jobs
  upsert_filings ext company_id documents batch.filings
  added ← upsert_profile_fields company_id documents batch.collected_at batch.profile_fields
  change company_model (λ c. c.id == company_id)
      (λ c. record c { last_collected_at = some batch.collected_at })
  insert_fields company_id added
  pure (persistence_result company_id documents job_ids warnings)

-- The transaction.
unfoldable pub persist_batch :
    Externals → NormalizedBatch → ℕ → Option ℕ → List String → Write PersistenceResult
persist_batch ext batch run_id expected_claim_token identity_names = do
  lock_expected_claim run_id expected_claim_token
  write_batch ext batch identity_names

-- The session has or has no open transaction.
unfoldable pub persist : Externals → Bool → NormalizedBatch → ℕ → Option ℕ → Write PersistenceResult
persist ext in_transaction batch run_id expected_claim_token = do
  valid ← lift (validate_batch batch)
  demand (not in_transaction) "active_session_transaction"
  website ← lift (company_identity_website ext batch.company.candidate.website)
  persist_batch ext batch run_id expected_claim_token (company_identity_names ext batch.company)
