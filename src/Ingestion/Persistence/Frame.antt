-- ===== src/Ingestion/Persistence/Frame.antt =====
-- The steps of a batch that are not about jobs leave alone what only the jobs and other sessions write.
use job_search.Base.{
  any_of, not, inl, inr, Option-cases, ℕ, String, Option, none, some, List, [], ◌∷◌, ◌++◌, ◌++◌,
}
use job_search.Ingestion.Persistence.{
  Company, CompanyAlias, SourceDocument, CompanySource, CompanyProfileField, RegulatoryFiling,
  Tables, lift, Externals,
}
use job_search.Ingestion.Persistence.Contracts.{
  NormalizedDocument, NormalizedCompanyRecord, CompanyFieldEvidence, NormalizedFilingRecord,
  NormalizedProfileFieldRecord,
}
use job_search.Ingestion.Persistence.Documents.{stored_document, upsert_document, upsert_documents}
use job_search.Ingestion.Persistence.Companies.{
  stored_company_alias, upsert_company_alias, upsert_company_aliases, stored_company,
  check_identity, resolved_company, upsert_company_locked,
}
use job_search.Ingestion.Persistence.Records.{
  Coverage, evidence_by_document, stored_company_source, upsert_coverage, upsert_coverages,
  upsert_company_evidence,
}
use job_search.Ingestion.Persistence.JobLoop.{evidence_document}
use job_search.Ingestion.Persistence.Filings.{
  normalize_identity_filing_number, owned_filing_for_identity, stored_filing, upsert_filing,
  upsert_each_filing, upsert_filings,
}
use job_search.Ingestion.Persistence.Profiles.{
  is_profile_field, upsert_profile_field, upsert_profile_fields, insert_field, insert_fields,
}
use job_search.Ingestion.Persistence.Keeping.{
  Keeps, IsApart, steps, bind-Keeps, gets-Keeps, demand-Keeps, modify-Keeps,
}

module _ (P : Tables → Type 0) (ext : Externals) (h : IsApart ext P) where
  stored_document-Keeps :
      (item : NormalizedDocument) (url : String) (found : Option SourceDocument)
      → Keeps P (stored_document ext item url found)
  unfolding stored_document
  stored_document-Keeps item url (some d) = search (steps)
  stored_document-Keeps item url none = search (steps, h.calm, h.documents)

  upsert_document-Keeps : (item : NormalizedDocument) → Keeps P (upsert_document ext item)
  unfolding upsert_document
  upsert_document-Keeps item = search (steps, h.documents, stored_document-Keeps)

  pub upsert_documents-Keeps :
      (items : List NormalizedDocument) → Keeps P (upsert_documents ext items)
  unfolding upsert_documents
  upsert_documents-Keeps [] = search (steps)
  upsert_documents-Keeps (item ∷ items) =
      search (steps, upsert_document-Keeps item, upsert_documents-Keeps items)

  stored_company_alias-Keeps :
      (company_id : ℕ) (entry : String × String) (found : Option CompanyAlias)
      → Keeps P (stored_company_alias ext company_id entry found)
  unfolding stored_company_alias
  stored_company_alias-Keeps company_id entry (some a) = search (steps)
  stored_company_alias-Keeps company_id entry none = search (steps, h.calm, h.aliases)

  upsert_company_alias-Keeps :
      (company_id : ℕ) (entry : String × String)
      → Keeps P (upsert_company_alias ext company_id entry)
  unfolding upsert_company_alias
  upsert_company_alias-Keeps company_id entry = search (steps, stored_company_alias-Keeps)

  upsert_company_aliases-Keeps :
      (company_id : ℕ) (entries : List (String × String))
      → Keeps P (upsert_company_aliases ext company_id entries)
  unfolding upsert_company_aliases
  upsert_company_aliases-Keeps company_id [] = search (steps)
  upsert_company_aliases-Keeps company_id (entry ∷ entries) = search (
    steps,
    upsert_company_alias-Keeps company_id entry,
    upsert_company_aliases-Keeps company_id entries,
  )

  module _ (item : NormalizedCompanyRecord) where
    stored_company-Keeps : (found : Option Company) → Keeps P (stored_company ext item found)
    unfolding stored_company
    stored_company-Keeps (some c) = search (steps)
    stored_company-Keeps none = search (steps, h.calm, h.companies)

    resolved_company-Keeps : Keeps P (resolved_company item)
    unfolding resolved_company
    resolved_company-Keeps = elim (Option-cases item.company_id) [
      | inl unknown ↦ rw unknown (search (steps))
      | inr (id, known) ↦ rw known (search (steps))
    ]

    check_identity-Keeps :
        (names : List String) (found : Option Company)
        → Keeps P (check_identity ext item names found)
    unfolding check_identity
    check_identity-Keeps names found = search (steps)

    pub upsert_company_locked-Keeps :
        (names : List String) → Keeps P (upsert_company_locked ext item names)
    unfolding upsert_company_locked
    upsert_company_locked-Keeps names =
        search
          (
            steps,
            h.companies,
            resolved_company-Keeps,
            check_identity-Keeps names,
            stored_company-Keeps,
            upsert_company_aliases-Keeps,
          )
          depth 12

  evidence_by_document-Keeps :
      (documents : List (String × ℕ)) (items : List CompanyFieldEvidence) (found : List Coverage)
      → Keeps P (evidence_by_document documents items found)
  unfolding evidence_by_document
  evidence_by_document-Keeps documents [] found = search (steps)
  evidence_by_document-Keeps documents (item ∷ items) found =
      search (steps, evidence_by_document-Keeps documents items)

  module _ (company_id : ℕ) where
    stored_company_source-Keeps :
        (coverage : Coverage) (found : Option CompanySource)
        → Keeps P (stored_company_source ext company_id coverage found)
    unfolding stored_company_source
    stored_company_source-Keeps coverage (some s) = search (steps)
    stored_company_source-Keeps coverage none = search (steps, h.calm, h.company_sources)

    upsert_coverage-Keeps :
        (coverage : Coverage) → Keeps P (upsert_coverage ext company_id coverage)
    unfolding upsert_coverage
    upsert_coverage-Keeps coverage = search (steps, h.company_sources, stored_company_source-Keeps)

    upsert_coverages-Keeps :
        (coverages : List Coverage) → Keeps P (upsert_coverages ext company_id coverages)
    unfolding upsert_coverages
    upsert_coverages-Keeps [] = search (steps)
    upsert_coverages-Keeps (coverage ∷ rest) =
        search (steps, upsert_coverage-Keeps coverage, upsert_coverages-Keeps rest)

    pub upsert_company_evidence-Keeps :
        (documents : List (String × ℕ)) (items : List CompanyFieldEvidence)
        → Keeps P (upsert_company_evidence ext company_id documents items)
    unfolding upsert_company_evidence
    upsert_company_evidence-Keeps documents items =
        search (steps, evidence_by_document-Keeps documents items, upsert_coverages-Keeps)

  normalized-Keeps : (value : String) → Keeps P (lift (normalize_identity_filing_number ext value))
  normalized-Keeps value = search (steps)

  module _ (company_id : ℕ) (documents : List (String × ℕ)) where
    evidence_document-Keeps :
        (evidence_id : Option String) → Keeps P (evidence_document documents evidence_id)
    unfolding evidence_document
    evidence_document-Keeps none = search (steps)
    evidence_document-Keeps (some evidence_id) = search (steps)

    owned_filing_for_identity-Keeps :
        (item : NormalizedFilingRecord) → Keeps P (owned_filing_for_identity company_id item)
    unfolding owned_filing_for_identity
    owned_filing_for_identity-Keeps item = search (steps)

    stored_filing-Keeps :
        (item : NormalizedFilingRecord) (document : Option ℕ) (found : Option RegulatoryFiling)
        → Keeps P (stored_filing ext company_id item document found)
    unfolding stored_filing
    stored_filing-Keeps item document (some f) = search (steps)
    stored_filing-Keeps item document none =
        search (steps, h.calm, h.filings, owned_filing_for_identity-Keeps) depth 9

    upsert_filing-Keeps :
        (item : NormalizedFilingRecord) → Keeps P (upsert_filing ext company_id documents item)
    unfolding upsert_filing
    upsert_filing-Keeps item =
        search
          (
            steps, h.filings, owned_filing_for_identity-Keeps, stored_filing-Keeps,
            evidence_document-Keeps,
          )
          depth 9

    upsert_each_filing-Keeps :
        (items : List NormalizedFilingRecord)
        → Keeps P (upsert_each_filing ext company_id documents items)
    unfolding upsert_each_filing
    upsert_each_filing-Keeps [] = search (steps)
    upsert_each_filing-Keeps (item ∷ items) =
        search (steps, upsert_filing-Keeps item, upsert_each_filing-Keeps items)

    pub upsert_filings-Keeps :
        (items : List NormalizedFilingRecord)
        → Keeps P (upsert_filings ext company_id documents items)
    unfolding upsert_filings
    upsert_filings-Keeps items =
        bind-Keeps P (demand-Keeps P _ _) (λ done. upsert_each_filing-Keeps items)

    upsert_profile_field-Keeps :
        (collected_at : ℕ) (item : NormalizedProfileFieldRecord)
        → Keeps P (upsert_profile_field company_id documents collected_at item)
    unfolding upsert_profile_field
    upsert_profile_field-Keeps collected_at item = search (steps, h.profile_fields) depth 9

    pub upsert_profile_fields-Keeps :
        (collected_at : ℕ) (items : List NormalizedProfileFieldRecord)
        → Keeps P (upsert_profile_fields company_id documents collected_at items)
    unfolding upsert_profile_fields
    upsert_profile_fields-Keeps collected_at [] = search (steps)
    upsert_profile_fields-Keeps collected_at (item ∷ items) = search (
      steps,
      upsert_profile_field-Keeps collected_at item,
      upsert_profile_fields-Keeps collected_at items,
    )

  module _ (company_id : ℕ) where
    insert_field-Keeps : (f : CompanyProfileField) → Keeps P (insert_field company_id f)
    unfolding insert_field
    insert_field-Keeps f =
        bind-Keeps P
          (gets-Keeps P (λ t. any_of (is_profile_field company_id f.field_key) t.profile_fields))
          (λ stored.
            bind-Keeps P (demand-Keeps P (not stored) "database uniqueness conflict") (λ new.
              modify-Keeps P (λ t. record t { profile_fields = t.profile_fields ++ f ∷ [] })
                (λ t p. h.profile_fields t (t.profile_fields ++ f ∷ []) p)))

    pub insert_fields-Keeps :
        (fields : List CompanyProfileField) → Keeps P (insert_fields company_id fields)
    unfolding insert_fields
    insert_fields-Keeps [] = search (steps)
    insert_fields-Keeps (f ∷ fields) =
        search (steps, insert_field-Keeps f, insert_fields-Keeps fields)
