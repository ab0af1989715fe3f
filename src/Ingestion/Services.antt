-- ===== src/Ingestion/Services.antt =====
-- What `IngestionOrchestrator.run` calls (backend/app/ingestion/orchestrator.py): the services and the
-- functions on URLs and names are an interface. How its body ends, and its small helpers.
use text.Mathlib.Text.{◌==◌ as str_eq}
use job_search.Base.{
  ℕ, ◌==◌, String, Bool, false, ◌&&◌, not, Option, none, some, List, [], ◌∷◌, map, any_of, length,
  sum, is_none, if◌then◌else◌,
}
use job_search.Collection.Repository.{PersistenceResult, FinishReport}
use job_search.Coverage.Models.{JobSnapshotStatus}
use job_search.Ingestion.DirectAts.{DirectAtsSnapshotMetadata}
use job_search.Ingestion.Providers.{
  ProviderFetchStats, ProviderOutcome, Diagnostic, or_else, concat_of,
}

-- A call of another service: a result, a failure of the infrastructure (`IdentitySearchUnavailable`,
-- `RetryableInfrastructureError`, `ConnectionError`, `OperationalError`), or any other exception with its
-- code, if it has one.
pub data Attempt {ℓ} (A : Type ℓ) : Type ℓ where
  done : A → Attempt A
  unavailable : Attempt A
  broken : Option String → Attempt A

pub record AtsCareerUrl : Type 0 where
  pub url : String
  pub source_url : String

pub record Services (Doc Job Entry : Type 0) : Type 0 where
  -- `entry_discovery_service.discover`, where the service is there: its high-confidence candidates.
  pub discover : Option (String → Attempt (List Entry))
  -- `direct_ats_persistence`, where it is there.
  pub persist_direct : Option (
      String
      → String
      → String
      → List Job
      → DirectAtsSnapshotMetadata
      → Attempt (Option PersistenceResult))
  pub resolve_company_id : String → Attempt (Option ℕ)
  pub company_name_variants : String → List String
  pub ats_discovery_queries : String → Bool → List String
  pub scan_ats_career_urls : List Doc → List String → List AtsCareerUrl
  pub entry_candidate_to_ats_url : Entry → Option AtsCareerUrl
  -- `candidate.url.rstrip("/").lower()`
  pub url_key : String → String
  -- The host of a URL that `_parse_ats_url` accepts, and `_ats_platform`.
  pub ats_host : String → Option String
  pub ats_platform : String → Attempt String
  pub is_public : String → Bool
  -- The JSON text of the diagnostics.
  pub detail_text : List Diagnostic → String

-- The variables that the exception handler reads.
pub record Progress (Doc : Type 0) : Type 0 where
  pub providers_attempted : List String
  pub documents : List Doc
  pub diagnostics : List Diagnostic
  pub stage : String

-- How the body ends: with a report for `_finish`, or with an exception. Should `_finish` raise, the
-- handler reads the progress beside the report.
pub data Conclusion (Doc : Type 0) : Type 0 where
  conclude : FinishReport → Progress Doc → Conclusion Doc
  interrupted : Conclusion Doc
  failing : Option String → Progress Doc → Conclusion Doc

module _ {Doc Job Entry : Type 0} (services : Services Doc Job Entry) where
  abbrev pub detail_of : List Diagnostic → Option String
  detail_of [] = none
  detail_of (d ∷ ds) = some (services.detail_text (d ∷ ds))

  -- The next step of the body, under the `try`.
  abbrev pub then_do {ℓ} :
      {A : Type ℓ} → Progress Doc → Attempt A → (A → Conclusion Doc) → Conclusion Doc
  then_do progress (done a) next = next a
  then_do progress unavailable next = interrupted
  then_do progress (broken code) next = failing code progress

  pub merge_ats_career_urls : List String → List AtsCareerUrl → List AtsCareerUrl
  merge_ats_career_urls seen [] = []
  merge_ats_career_urls seen (c ∷ cs) =
      let key = services.url_key c.url in
      let fresh = merge_ats_career_urls (key ∷ seen) cs in
      let again = merge_ats_career_urls seen cs in
      if any_of (str_eq key) seen then again else c ∷ fresh

  first_error : List ProviderFetchStats → Option String
  first_error [] = none
  first_error (s ∷ ss) = or_else s.error_code (first_error ss)

  pub snapshot_metadata : List (ProviderOutcome Doc Job) → DirectAtsSnapshotMetadata
  unfolding first_error
  snapshot_metadata outcomes =
      let stats = concat_of (λ o. o.stats) outcomes in
      let pages = sum (map (λ s. s.pages_fetched) stats) in
      record {
        status = JobSnapshotStatus.partial;
        pagination_complete = false;
        empty_confirmed = false;
        reported_total = none;
        observed_count = some (sum (map (λ o. length o.parsed_jobs) outcomes));
        pages_fetched = if pages == 0 then 1 else pages;
        content_fingerprint = none;
        error_code = or_else (first_error stats) (some "pagination_incomplete");
      }

  abbrev pub is_successful : ProviderOutcome Doc Job → Bool
  is_successful o = str_eq o.name "ats" && not (length o.documents == 0) && is_none o.issue
