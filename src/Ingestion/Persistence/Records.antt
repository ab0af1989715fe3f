-- ===== src/Ingestion/Persistence/Records.antt =====
-- `_upsert_company_evidence` of `PersistenceService` (backend/app/ingestion/persistence/service.py).
use job_search.Base.{
  first, ℕ, ◌==◌, String, Bool, ◌&&◌, Option, none, some, List, [], ◌∷◌, ◌++◌, any_of, max,
  if◌then◌else◌,
}
use job_search.Ingestion.Persistence.{
  CompanySource, Write, ◌>>=◌, ◌>>◌, pure, gets, or_fail, Externals,
}
use job_search.Ingestion.Persistence.Contracts.{CompanyFieldEvidence}
use job_search.Ingestion.Persistence.Conflicts.{Model, change, insert_or_reselect, sorted_texts}
use job_search.Ingestion.Persistence.Documents.{document_id}

abbrev pub is_company_source : ℕ → ℕ → CompanySource → Bool
is_company_source company_id document s =
    s.company_id == company_id && s.source_document_id == document

abbrev pub company_source_model : Model CompanySource
company_source_model = record {
  rows = λ t. t.company_sources;
  with_rows = λ rows t. record t { company_sources = rows };
  violated = λ s rows.
      if any_of (is_company_source s.company_id s.source_document_id) rows
      then some "pk_company_sources"
      else none;
}

-- The fields that a document covers, and the greatest confidence.
abbrev pub Coverage : Type 0
Coverage = ℕ × List String × ℕ

-- The evidence of one document more.
unfoldable pub add_evidence : ℕ → CompanyFieldEvidence → List Coverage → List Coverage
add_evidence document item [] = (document, item.field_name ∷ [], item.confidence) ∷ []
add_evidence document item ((known, fields, confidence) ∷ rest) =
    let others = add_evidence document item rest in
    if known == document
    then (known, item.field_name ∷ fields, max confidence item.confidence) ∷ rest
    else (known, fields, confidence) ∷ others

unfoldable pub evidence_by_document :
    List (String × ℕ) → List CompanyFieldEvidence → List Coverage → Write (List Coverage)
evidence_by_document documents [] found = pure found
evidence_by_document documents (item ∷ items) found = do
  document ← or_fail (document_id documents item.evidence_id) "KeyError"
  evidence_by_document documents items (add_evidence document item found)

abbrev pub covering : List String → ℕ → CompanySource → CompanySource
covering fields confidence s = record s {
  covered_fields = sorted_texts (s.covered_fields ++ fields);
  confidence = max s.confidence confidence;
}

module _ (ext : Externals) (company_id : ℕ) where
  unfoldable pub stored_company_source : Coverage → Option CompanySource → Write (Unit {0})
  stored_company_source coverage (some s) = pure tt
  stored_company_source (document, fields, confidence) none = do
    (s, created) ←
        insert_or_reselect ext company_source_model
          (λ t. first (is_company_source company_id document) t.company_sources)
          "pk_company_sources"
          (record {
            company_id = company_id;
            source_document_id = document;
            covered_fields = sorted_texts fields;
            confidence = confidence;
          })
    pure tt

  unfoldable pub upsert_coverage : Coverage → Write (Unit {0})
  upsert_coverage (document, fields, confidence) = do
    found ← gets (λ t. first (is_company_source company_id document) t.company_sources)
    stored_company_source (document, fields, confidence) found
    change company_source_model (is_company_source company_id document)
        (covering (sorted_texts fields) confidence)

  unfoldable pub upsert_coverages : List Coverage → Write (Unit {0})
  upsert_coverages [] = pure tt
  upsert_coverages (coverage ∷ rest) = do upsert_coverage coverage; upsert_coverages rest

  unfoldable pub upsert_company_evidence :
      List (String × ℕ) → List CompanyFieldEvidence → Write (Unit {0})
  upsert_company_evidence documents items = do
    coverages ← evidence_by_document documents items []
    upsert_coverages coverages
