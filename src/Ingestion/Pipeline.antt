-- ===== src/Ingestion/Pipeline.antt =====
-- The body of `IngestionOrchestrator.run` between the claim and the finish
-- (backend/app/ingestion/orchestrator.py): the discovery of documents and entries, the collection from
-- recruiting systems, and the report that it ends with.
use text.Mathlib.Text.{◌==◌ as str_eq}
use job_search.Base.{
  ℕ, suc, ◌==◌, String, Bool, true, false, ◌&&◌, not, Option, none, some, List, [], ◌∷◌, ◌++◌, map,
  keep, all_of, any_of, length, sum, is_none, if◌then◌else◌,
}
use job_search.Base.Table
use job_search.Base.Table.{Table}
use job_search.Collection.Models.{succeeded, partial, failed}
use job_search.Collection.Repository.{PersistenceResult, FinishReport}
use job_search.Ingestion.Providers.{
  Provider, ProviderOutcome, Diagnostic, no_detail, counted, MergedOutcomes, or_else,
  collect_providers, merge_outcome_dicts, merge_outcomes, concat_of,
}
use job_search.Ingestion.DirectAts.{DirectAtsSnapshotMetadata}
use job_search.Ingestion.Services.{
  Attempt, done, unavailable, broken, AtsCareerUrl, Services, Progress, Conclusion, conclude,
  failing, detail_of, then_do, merge_ats_career_urls, snapshot_metadata, is_successful,
}

-- What the collection from the recruiting systems leaves.
pub record AtsResult (Doc Job : Type 0) : Type 0 where
  pub outcomes : Table (ProviderOutcome Doc Job)
  pub results : List PersistenceResult

-- What is known when the discovery is over.
pub record Discovered (Doc Job Entry : Type 0) : Type 0 where
  pub outcomes : Table (ProviderOutcome Doc Job)
  pub candidates : List Entry

abbrev pub same_company : Option ℕ → Option ℕ → Bool
same_company none none = true
same_company none (some b) = false
same_company (some a) none = false
same_company (some a) (some b) = a == b

module _ {Doc Job Entry : Type 0} (services : Services Doc Job Entry) (request_query : String) where
  abbrev pub persisted :
      AtsResult Doc Job → Attempt (Option PersistenceResult) → Attempt (AtsResult Doc Job)
  persisted r (done none) = done r
  persisted r (done (some p)) = done (record r { results = r.results ++ p ∷ [] })
  persisted r unavailable = unavailable
  persisted r (broken code) = broken code

  -- The candidate's jobs, from the outcomes of one collection.
  persist_outcomes :
      (String
        → String
        → String
        → List Job
        → DirectAtsSnapshotMetadata
        → Attempt (Option PersistenceResult))
      → AtsCareerUrl
      → List (ProviderOutcome Doc Job)
      → Attempt String
      → Attempt (Option PersistenceResult)
  persist_outcomes persist c outcomes (done platform) =
      persist request_query c.url platform (concat_of (λ o. o.parsed_jobs) outcomes)
        (snapshot_metadata services outcomes)
  persist_outcomes persist c outcomes unavailable = unavailable
  persist_outcomes persist c outcomes (broken code) = broken code

  module _ (ats_providers : List (ℕ × Provider Doc Job))
      (persist : String
        → String
        → String
        → List Job
        → DirectAtsSnapshotMetadata
        → Attempt (Option PersistenceResult)) where
    collect_candidate :
        AtsCareerUrl
        → AtsResult Doc Job
        → Table (ProviderOutcome Doc Job)
        → Attempt (AtsResult Doc Job)
    unfolding persist_outcomes
    collect_candidate c r candidate_outcomes =
        let merged = record r { outcomes = merge_outcome_dicts r.outcomes candidate_outcomes } in
        let outcomes = Table.rows candidate_outcomes in
        if any_of (is_successful services) outcomes
        then persisted merged (persist_outcomes persist c outcomes (services.ats_platform c.url))
        else done merged

    -- One round of the loop over the URLs.
    ats_step : AtsCareerUrl → AtsResult Doc Job → Option String → Attempt (AtsResult Doc Job)
    unfolding collect_candidate
    ats_step c r none = done r
    ats_step c r (some host) = collect_candidate c r (
        collect_providers services.is_public ats_providers (record {
          query = request_query;
          website = some c.url;
          allowed_hosts = host ∷ [];
          max_results = 10;
        }))

    pub ats_loop : List AtsCareerUrl → AtsResult Doc Job → Attempt (AtsResult Doc Job)
    unfolding ats_step
    ats_loop [] r = done r
    ats_loop (c ∷ cs) r = elim (ats_step c r (services.ats_host c.url)) [
      | done r' ↦ ats_loop cs r'
      | unavailable ↦ unavailable
      | broken code ↦ broken code
    ]

  -- `_existing_company_result`.
  pub existing_company_result : {A : Type 0} → Option A → Attempt (Option PersistenceResult)
  existing_company_result none = done none
  existing_company_result (some persist) = elim (services.resolve_company_id request_query) [
    | done none ↦ done none
    | done (some company_id) ↦
        done (some (record { company_id = some company_id; jobs_written = 0 }))
    | unavailable ↦ unavailable
    | broken code ↦ broken code
  ]

  abbrev pub progress_of : String → MergedOutcomes Doc → Progress Doc
  progress_of stage merged = record {
    providers_attempted = merged.providers_attempted;
    documents = merged.documents;
    diagnostics = merged.diagnostics;
    stage = stage;
  }

  -- The report of a run that has found nothing to write.
  abbrev pub failed_report :
      MergedOutcomes Doc → Option String → Option PersistenceResult → FinishReport
  failed_report merged code existing = record {
    status = failed;
    providers_attempted = merged.providers_attempted;
    documents_found = length merged.documents;
    jobs_found = 0;
    persistence = existing;
    error_code = code;
    error_detail = detail_of services merged.diagnostics;
  }

  abbrev pub direct_report :
      MergedOutcomes Doc
      → List (ProviderOutcome Doc Job)
      → PersistenceResult
      → List PersistenceResult
      → FinishReport
  direct_report merged outcomes first results = record {
    status = if is_none merged.provider_error_code then succeeded else partial;
    providers_attempted = merged.providers_attempted;
    documents_found = length merged.documents;
    jobs_found = sum (map (λ o. length o.parsed_jobs) (keep (λ o. str_eq o.name "ats") outcomes));
    persistence = some (record {
      company_id = first.company_id;
      jobs_written = sum (map (λ r. r.jobs_written) (first ∷ results));
    });
    error_code = merged.provider_error_code;
    error_detail = detail_of services merged.diagnostics;
  }

  -- What follows the loop, by the results that it has collected.
  unfoldable pub after_ats :
      {A : Type 0}
      → Option A
      → MergedOutcomes Doc
      → AtsResult Doc Job
      → List PersistenceResult
      → Conclusion Doc
  unfolding existing_company_result
  after_ats persist merged r [] =
      then_do services (progress_of "ats" merged) (existing_company_result persist) (λ existing.
        conclude
          (failed_report merged (or_else merged.provider_error_code (some "ats_collection_failed"))
            existing)
          (progress_of "ats" merged))
  after_ats persist merged r (first ∷ results) =
      if all_of (λ p. same_company p.company_id first.company_id) results
      then conclude (direct_report merged (Table.rows r.outcomes) first results)
          (progress_of "ats" merged)
      else failing (some "invalid_company_identity") (progress_of "ats" merged)

  query_loop :
      (ℕ × Provider Doc Job)
      → List String
      → Table (ProviderOutcome Doc Job)
      → Table (ProviderOutcome Doc Job)
  query_loop entry [] outcomes = outcomes
  query_loop entry (query ∷ queries) outcomes = query_loop entry queries (
      merge_outcome_dicts outcomes (
        collect_providers services.is_public (entry ∷ [])
          (record { query = query; website = none; allowed_hosts = []; max_results = 10 })))

  provider_loop :
      String
      → List (ℕ × Provider Doc Job)
      → Table (ProviderOutcome Doc Job)
      → Table (ProviderOutcome Doc Job)
  unfolding query_loop
  provider_loop name [] outcomes = outcomes
  provider_loop name (entry ∷ entries) outcomes = provider_loop name entries (
      query_loop entry (services.ats_discovery_queries name (str_eq entry.1.name "serper"))
        outcomes)

  -- The searches by every name of the company.
  pub name_loop :
      List (ℕ × Provider Doc Job)
      → List String
      → Table (ProviderOutcome Doc Job)
      → Table (ProviderOutcome Doc Job)
  unfolding provider_loop
  name_loop entries [] outcomes = outcomes
  name_loop entries (name ∷ names) outcomes =
      name_loop entries names (provider_loop name entries outcomes)

  pub discover_entries :
      Option (String → Attempt (List Entry))
      → List (ℕ × Provider Doc Job)
      → Table (ProviderOutcome Doc Job)
      → Attempt (Discovered Doc Job Entry)
  discover_entries none entries outcomes = done (record {
    outcomes = name_loop entries (services.company_name_variants request_query) outcomes;
    candidates = [];
  })
  discover_entries (some discover) entries outcomes = elim (discover request_query) [
    | done candidates ↦ done (record { outcomes = outcomes; candidates = candidates })
    | unavailable ↦ unavailable
    | broken code ↦ broken code
  ]

  entry_urls : List Entry → List AtsCareerUrl
  entry_urls [] = []
  entry_urls (c ∷ cs) =
      let rest = entry_urls cs in
      elim (services.entry_candidate_to_ats_url c) [ none ↦ rest | some url ↦ url ∷ rest ]

  enumerate : ℕ → List (Provider Doc Job) → List (ℕ × Provider Doc Job)
  enumerate n [] = []
  enumerate n (p ∷ ps) = (n, p) ∷ enumerate (suc n) ps

  abbrev pub is_empty {ℓ} : {A : Type ℓ} → List A → Bool
  is_empty [] = true
  is_empty (x ∷ xs) = false

  abbrev pub named : String → List (ℕ × Provider Doc Job) → List (ℕ × Provider Doc Job)
  named name entries = keep (λ e. str_eq e.1.name name) entries

  -- The collection from the recruiting systems, where there are URLs and a service to write to.
  unfoldable pub collect_ats :
      List (ℕ × Provider Doc Job)
      → Discovered Doc Job Entry
      → MergedOutcomes Doc
      → List AtsCareerUrl
      → Option (
          String
          → String
          → String
          → List Job
          → DirectAtsSnapshotMetadata
          → Attempt (Option PersistenceResult))
      → Conclusion Doc
  unfolding existing_company_result
  collect_ats ats_providers d merged (c ∷ cs) (some persist) =
      then_do services (progress_of "ats" merged)
        (ats_loop ats_providers persist (c ∷ cs) (record { outcomes = d.outcomes; results = [] }))
        (λ r. after_ats services.persist_direct (merge_outcomes r.outcomes) r r.results)
  collect_ats ats_providers d merged [] persist =
      then_do services (progress_of "provider" merged) (existing_company_result persist)
        (λ existing.
          conclude (failed_report merged (some "ats_entry_discovery_pending") existing)
            (progress_of "provider" merged))
  collect_ats ats_providers d merged (c ∷ cs) none =
      conclude (failed_report merged (some "ats_entry_discovery_pending") none)
        (progress_of "provider" merged)

  -- The diagnostics of the discovery.
  abbrev pub with_candidates : List Entry → MergedOutcomes Doc → MergedOutcomes Doc
  with_candidates [] merged = merged
  with_candidates (c ∷ cs) merged = record merged {
    diagnostics =
        merged.diagnostics
        ++ record {
          stage = "entry_discovery";
          code = "entries_discovered";
          provider = none;
          detail = counted (length (c ∷ cs));
        }
          ∷ [];
  }

  abbrev pub or_no_documents : List Diagnostic → List Diagnostic
  or_no_documents [] =
      record { stage = "provider"; code = "no_documents"; provider = none; detail = no_detail } ∷ []
  or_no_documents (d ∷ ds) = d ∷ ds

  abbrev pub no_documents : MergedOutcomes Doc → Conclusion Doc
  no_documents merged =
      conclude
        (record (failed_report merged (or_else merged.provider_error_code (some "no_documents"))
          none) { documents_found = 0 })
        (progress_of "provider" merged)

  unfoldable pub after_discovery :
      List (ℕ × Provider Doc Job) → Discovered Doc Job Entry → MergedOutcomes Doc → Conclusion Doc
  unfolding entry_urls
  after_discovery ats_providers d merged =
      if is_empty merged.documents && is_empty d.candidates
      then no_documents (record merged { diagnostics = or_no_documents merged.diagnostics })
      else collect_ats ats_providers d merged
          (merge_ats_career_urls services [] (
            entry_urls d.candidates
            ++ services.scan_ats_career_urls merged.documents
                (services.company_name_variants request_query)))
          services.persist_direct

  unfoldable pub run_body : List (Provider Doc Job) → Conclusion Doc
  unfolding enumerate
  run_body providers =
      let entries = enumerate 0 providers in
      let all_discovery = keep (λ e. not e.1.requires_website) entries in
      let serper = named "serper" all_discovery in
      let discovery = if is_empty serper then all_discovery else serper in
      let website = keep (λ e. e.1.requires_website) entries in
      let outcomes =
        collect_providers services.is_public discovery (record {
          query = request_query;
          website = none;
          allowed_hosts = [];
          max_results = 10;
        }) in
      let ats_discovery =
        if is_empty serper then named "zhihu_global_search" discovery else serper in
      then_do services
        (record { providers_attempted = []; documents = []; diagnostics = []; stage = "provider" })
        (discover_entries services.discover ats_discovery outcomes)
        (λ d.
          after_discovery (named "ats" website) d
            (with_candidates d.candidates (merge_outcomes d.outcomes)))
