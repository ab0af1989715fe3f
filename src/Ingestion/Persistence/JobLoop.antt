-- ===== src/Ingestion/Persistence/JobLoop.antt =====
-- The loops of `_upsert_jobs` of `PersistenceService` (backend/app/ingestion/persistence/service.py).
use job_search.Base.{
  keep, contains, ℕ, ◌==◌, String, Bool, true, false, not, ◌&&◌, Option, none, some, List, [], ◌∷◌,
  any_of, min, max, if◌then◌else◌,
}
use job_search.Ingestion.DirectAts.{JobSource}
use job_search.Ingestion.DirectAts.Writing.{has_source_key}
use job_search.Ingestion.Persistence.{
  Tables, Write, ◌>>=◌, ◌>>◌, pure, gets, modify, demand, or_fail, Externals,
}
use job_search.Ingestion.Persistence.Contracts.{
  NormalizedJobRecord, months_in_domain, text_among, concat_map,
}
use job_search.Ingestion.Persistence.Conflicts.{change, insert_or_reselect}
use job_search.Ingestion.Persistence.Documents.{document_id}
use job_search.Ingestion.Persistence.Jobs.{
  source_model, posting_model, get_posting, find_source, merge_job, owned_posting, resolve_job,
  stored_job,
}

-- `documents[evidence_id].id if evidence_id is not None else None`
unfoldable pub evidence_document : List (String × ℕ) → Option String → Write (Option ℕ)
evidence_document documents none = pure none
evidence_document documents (some evidence_id) = do
  id ← or_fail (document_id documents evidence_id) "KeyError"
  pure (some id)

abbrev pub new_source : NormalizedJobRecord → String × String → ℕ → Option ℕ → ℕ → JobSource
new_source item key job_id document id = record {
  id = id;
  job_posting_id = job_id;
  source_document_id = document;
  job_entry_id = none;
  provider = key.0;
  source_raw_id = key.1;
  apply_url = item.apply_url;
  first_seen_at = item.seen_at;
  last_seen_at = item.seen_at;
  is_active = item.is_active;
}

abbrev pub seen_source : NormalizedJobRecord → ℕ → Option ℕ → JobSource → JobSource
seen_source item job_id document s = record s {
  job_posting_id = job_id;
  source_document_id = document;
  apply_url = item.apply_url;
  first_seen_at = min s.first_seen_at item.seen_at;
  last_seen_at = max s.last_seen_at item.seen_at;
  is_active = item.is_active;
}

abbrev pub delete_posting : ℕ → Tables → Tables
delete_posting id t = record t { postings = keep (λ p. not (p.id == id)) t.postings }

-- `if created: session.delete(job)`
abbrev pub drop_created : Bool → ℕ → Write (Unit {0})
drop_created true id = modify (delete_posting id)
drop_created false id = pure tt

module _ (company_id : ℕ) where
  -- The job of a source that another session has inserted first, in place of the job at hand.
  unfoldable pub winner_job : NormalizedJobRecord → ℕ → Bool → JobSource → Write ℕ
  winner_job item job_id job_was_created s = do
    winner ← owned_posting company_id s.job_posting_id "job source belongs to another company"
    drop_created job_was_created job_id
    merge_job winner item
    pure winner.id

  -- The job that a record ends with, where another session may have been first.
  abbrev pub settled_job : NormalizedJobRecord → ℕ × Bool → JobSource → Bool → Write ℕ
  settled_job item (job_id, job_was_created) s true = winner_job item job_id job_was_created s
  settled_job item (job_id, job_was_created) s false = pure job_id

module _ (ext : Externals) (company_id : ℕ) where
  -- The job of the source, after the source is there.
  unfoldable pub stored_source :
      NormalizedJobRecord → String × String → Option ℕ → ℕ × Bool → Option JobSource → Write ℕ
  stored_source item key document (job_id, job_was_created) (some s) = pure job_id
  stored_source item key document (job_id, job_was_created) none = do
    id ← gets ext.uuid
    (s, source_was_created) ←
        insert_or_reselect ext source_model (find_source key) "uq_job_source_provider_raw_id"
          (new_source item key job_id document id)
    settled_job company_id item (job_id, job_was_created) s
        (not source_was_created && not (s.job_posting_id == job_id))

-- `job_ids.add(job_id)`
abbrev pub add_id : ℕ → List ℕ → List ℕ
add_id id ids = if contains ids id then ids else id ∷ ids

module _ (ext : Externals) (company_id : ℕ) (documents : List (String × ℕ)) where
  -- One record of the loop, up to the id that is added to `job_ids`.
  unfoldable pub upsert_job : NormalizedJobRecord → Write ℕ
  upsert_job item = do
    demand (months_in_domain item.candidate.salary_months)
        "normalized salary months exceed database domain"
    provider ←
        or_fail item.candidate.candidate.provider "job provider and source_raw_id are required"
    source_raw_id ←
        or_fail item.candidate.candidate.source_raw_id "job provider and source_raw_id are required"
    source ← gets (find_source (provider, source_raw_id))
    found ← resolve_job company_id item source
    stored ← stored_job ext company_id item found
    document ← evidence_document documents item.source_evidence_id
    job_id ← stored_source ext company_id item (provider, source_raw_id) document stored source
    change source_model (has_source_key (provider, source_raw_id))
        (seen_source item job_id document)
    pure job_id

  unfoldable pub upsert_each : List NormalizedJobRecord → List ℕ → Write (List ℕ)
  upsert_each [] job_ids = pure job_ids
  upsert_each (item ∷ items) job_ids = do
    job_id ← upsert_job item
    upsert_each items (add_id job_id job_ids)

abbrev pub is_active_source : ℕ → JobSource → Bool
is_active_source id s = s.job_posting_id == id && s.is_active

-- `job.is_active = any(statuses)`
unfoldable pub recompute_activity : ℕ → Write (Unit {0})
recompute_activity id = do
  t ← gets (λ t. t)
  job ← or_fail (get_posting id t) "canonical job disappeared during persistence"
  change posting_model (λ p. p.id == id)
      (λ p. record p { is_active = any_of (is_active_source id) t.sources })

unfoldable pub recompute_activities : List ℕ → Write (Unit {0})
recompute_activities [] = pure tt
recompute_activities (id ∷ ids) = do recompute_activity id; recompute_activities ids

-- `tuple(dict.fromkeys(texts))`
unfoldable pub without_repeats : List String → List String → List String
without_repeats seen [] = []
without_repeats seen (a ∷ texts) =
    let rest = without_repeats (a ∷ seen) texts in if text_among seen a then rest else a ∷ rest

unfoldable pub upsert_jobs :
    Externals → ℕ → List (String × ℕ) → List NormalizedJobRecord → Write (List ℕ × List String)
upsert_jobs ext company_id documents items = do
  job_ids ← upsert_each ext company_id documents items []
  recompute_activities job_ids
  pure (job_ids, without_repeats [] (concat_map (λ item. item.candidate.warnings) items))
