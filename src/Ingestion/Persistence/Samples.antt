-- ===== src/Ingestion/Persistence/Samples.antt =====
-- The batch of Ingestion/Persistence/Samples/Batch, persisted.
mod Batch
use job_search.Base.{
  ℕ, ◌≡◌, refl, String, Bool, true, false, Option, none, some, List, [], ◌∷◌, map, returned, raised,
  arith, Outcome,
}
use job_search.Base.Table
use job_search.Collection.Models.{CrawlRun, CollectionRequest, RunType, running}
use job_search.Ingestion.DirectAts.{JobType, JobPosting, JobSource, VerificationStatus}
use job_search.Ingestion.Persistence.{Company, Tables, Externals}
use job_search.Base.{first}
use job_search.Ingestion.Persistence.Contracts.{
  EmploymentType, NormalizedBatch, NormalizedJobRecord, NormalizedDocument,
  validate_database_lengths, has_repeated_text, references, validate_references,
}
use job_search.Ingestion.Persistence.Conflicts.{
  change_first, settle, insert_or_reselect, insert_text, sorted_texts,
}
use job_search.Ingestion.Persistence.Documents.{
  stored_document, upsert_document, upsert_documents, document_id,
}
use job_search.Ingestion.Persistence.Companies.{
  company_identity_names, company_identity_name_owner_ids, website_owner_ids, resolved_company,
  set_default, aliases_by_normalized, stored_company_alias, upsert_company_alias,
  upsert_company_aliases, stored_company, check_identity, upsert_company_locked,
}
use job_search.Ingestion.Persistence.Jobs.{merge_job, owned_posting, resolve_job, stored_job}
use job_search.Ingestion.Persistence.JobLoop.{
  evidence_document, winner_job, stored_source, upsert_job, upsert_each, recompute_activity,
  recompute_activities, without_repeats, upsert_jobs,
}
use job_search.Ingestion.Persistence.Records.{
  add_evidence, evidence_by_document, stored_company_source, upsert_coverage, upsert_coverages,
  upsert_company_evidence,
}
use job_search.Ingestion.Persistence.Filings.{
  first_filing, normalize_identity_filing_number, has_repeated_filing, owned_filing_for_identity,
  stored_filing, upsert_filing, upsert_each_filing, upsert_filings,
}
use job_search.Ingestion.Persistence.Profiles.{
  upsert_profile_field, upsert_profile_fields, insert_field, insert_fields,
}
use job_search.Ingestion.Persistence.Service.{
  PersistenceResult, is_run_claimed, is_request_running, lock_claim, lock_expected_claim,
  validate_jobs, validate_batch, count_distinct, write_batch, persist_batch, persist,
}
use job_search.Ingestion.Persistence.Endings.{Ends}
use job_search.Ingestion.Persistence.Activity.{Agrees, shown_activity}
use job_search.Ingestion.Persistence.Owners.{HasOneOwner}
use job_search.Ingestion.Persistence.Names.{upsert_company_locked-HasOneOwner}
use job_search.Ingestion.Persistence.Fencing.{persist-Agrees, persist_fenced}
use job_search.Ingestion.Persistence.Samples.Batch.{
  ext, acme, cook, cook_source, run, request, tables, job, document, batch,
}

tables-Agrees : (j : ℕ) → Agrees j tables
unfolding Agrees shown_activity
tables-Agrees j = ground arith

tables-HasOneOwner : HasOneOwner "acme" tables
unfolding HasOneOwner company_identity_name_owner_ids
tables-HasOneOwner a b h k = ground arith

upsert_company_locked-HasOneOwner_example :
    Ends
      (upsert_company_locked ext batch.company (company_identity_names ext batch.company) tables)
      (λ company t'. HasOneOwner "acme" t')
upsert_company_locked-HasOneOwner_example =
    upsert_company_locked-HasOneOwner ext batch.company "acme" tables refl refl
      (λ name t locked. refl) (λ t one. one) tables-HasOneOwner

persist-Agrees_example :
    Ends (persist ext false batch 4 (some 8) tables) (λ result t'. Agrees 50 t')
persist-Agrees_example =
    persist-Agrees ext false batch 4 (some 8) tables (λ j t agrees. agrees) tables-Agrees 50

persist_fenced_example : Ends (persist ext false batch 4 (some 8) tables) (λ result t'.
    (is_run_claimed 8 (Table.get 4 tables.collection.runs) ≡ true)
    × (is_request_running tables (Table.get 4 tables.collection.runs) ≡ true)
    × (is_run_claimed 8 (Table.get 4 t'.collection.runs) ≡ true)
    × (false ≡ false))
persist_fenced_example = persist_fenced ext batch 4 8 (λ t. refl) false tables

-- What a call returns, with the ids of the postings and whether they are active.
abbrev Answer : Type 0
Answer = PersistenceResult × List (ℕ × Bool) × List String

abbrev answer : Outcome (PersistenceResult × Tables) → Option Answer
answer (raised e) = none
answer (returned (r, t)) =
    some (r, map (λ p. (p.id, p.is_active)) t.postings, map (λ a. a.normalized_alias) t.aliases)

run_of_batch :
    answer (persist ext false batch 4 (some 8) tables)
    ≡ some (
      record {
        company_id = 1;
        documents_written = 1;
        jobs_written = 2;
        warnings = "no maximum" ∷ [];
      },
      (50, false) ∷ (90, true) ∷ [],
      "acme foods" ∷ [],
    )
unfolding first Table.get validate_database_lengths has_repeated_text references validate_references
    change_first settle insert_or_reselect insert_text sorted_texts stored_document upsert_document
    upsert_documents document_id company_identity_name_owner_ids website_owner_ids resolved_company
    set_default aliases_by_normalized stored_company_alias upsert_company_alias
    upsert_company_aliases stored_company check_identity upsert_company_locked merge_job
    owned_posting resolve_job stored_job evidence_document winner_job stored_source upsert_job
    upsert_each recompute_activity recompute_activities without_repeats upsert_jobs add_evidence
    evidence_by_document stored_company_source upsert_coverage upsert_coverages
    upsert_company_evidence first_filing normalize_identity_filing_number has_repeated_filing
    owned_filing_for_identity stored_filing upsert_filing upsert_each_filing upsert_filings
    upsert_profile_field upsert_profile_fields insert_field insert_fields is_run_claimed
    is_request_running lock_claim lock_expected_claim validate_jobs validate_batch count_distinct
    write_batch persist_batch persist
run_of_batch = refl
