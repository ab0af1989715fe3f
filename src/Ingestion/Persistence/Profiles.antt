-- ===== src/Ingestion/Persistence/Profiles.antt =====
-- `_upsert_profile_fields` of `PersistenceService` (backend/app/ingestion/persistence/service.py).
use text.Mathlib.Text.{◌==◌ as str_eq}
use job_search.Base.{
  ℕ, ◌==◌, String, Bool, not, ◌&&◌, Option, none, some, List, [], ◌∷◌, ◌++◌, any_of, if◌then◌else◌,
}
use job_search.Ingestion.Persistence.{
  CompanyProfileField, Write, ◌>>=◌, ◌>>◌, pure, gets, modify, demand, or_fail,
}
use job_search.Ingestion.Persistence.Contracts.{NormalizedProfileFieldRecord}
use job_search.Ingestion.Persistence.Conflicts.{Model, change}
use job_search.Ingestion.Persistence.Documents.{document_id}

abbrev pub is_profile_field : ℕ → String → CompanyProfileField → Bool
is_profile_field company_id key f = f.company_id == company_id && str_eq f.field_key key

abbrev pub profile_field :
    NormalizedProfileFieldRecord → ℕ → ℕ → CompanyProfileField → CompanyProfileField
profile_field item document collected_at f = record f {
  value = item.value;
  source_document_id = document;
  verification_status = item.verification_status;
  collected_at = collected_at;
}

abbrev pub profile_field_model : Model CompanyProfileField
profile_field_model = record {
  rows = λ t. t.profile_fields;
  with_rows = λ rows t. record t { profile_fields = rows };
  violated = λ f rows. none;
}

abbrev pub with_pending :
    Option CompanyProfileField → List CompanyProfileField → List CompanyProfileField
with_pending none fields = fields
with_pending (some f) fields = f ∷ fields

module _ (company_id : ℕ) where
  abbrev pub new_field : NormalizedProfileFieldRecord → ℕ → ℕ → CompanyProfileField
  new_field item document collected_at = record {
    company_id = company_id;
    field_key = item.field_key;
    value = item.value;
    source_document_id = document;
    verification_status = item.verification_status;
    collected_at = collected_at;
  }

  module _ (documents : List (String × ℕ)) (collected_at : ℕ) where
    -- A field that is stored is changed; another one is returned, and waits for the flush of the commit.
    unfoldable pub upsert_profile_field :
        NormalizedProfileFieldRecord → Write (Option CompanyProfileField)
    upsert_profile_field item = do
      stored ← gets (λ t. any_of (is_profile_field company_id item.field_key) t.profile_fields)
      document ← or_fail (document_id documents item.source_evidence_id) "KeyError"
      change profile_field_model (is_profile_field company_id item.field_key)
          (profile_field item document collected_at)
      pure (if stored then none else some (new_field item document collected_at))

    unfoldable pub upsert_profile_fields :
        List NormalizedProfileFieldRecord → Write (List CompanyProfileField)
    upsert_profile_fields [] = pure []
    upsert_profile_fields (item ∷ items) = do
      f ← upsert_profile_field item
      added ← upsert_profile_fields items
      pure (with_pending f added)

  -- The INSERTs of that flush.
  unfoldable pub insert_field : CompanyProfileField → Write (Unit {0})
  insert_field f = do
    stored ← gets (λ t. any_of (is_profile_field company_id f.field_key) t.profile_fields)
    demand (not stored) "database uniqueness conflict"
    modify (λ t. record t { profile_fields = t.profile_fields ++ f ∷ [] })

  unfoldable pub insert_fields : List CompanyProfileField → Write (Unit {0})
  insert_fields [] = pure tt
  insert_fields (f ∷ fields) = do insert_field f; insert_fields fields
