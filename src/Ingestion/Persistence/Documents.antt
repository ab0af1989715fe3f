-- ===== src/Ingestion/Persistence/Documents.antt =====
-- `_upsert_documents` and `_document_identity_query` of `PersistenceService`
-- (backend/app/ingestion/persistence/service.py).
use text.Mathlib.Text.{◌==◌ as str_eq}
use job_search.Base.{
  first, ℕ, ◌==◌, String, Bool, false, ◌&&◌, Option, none, some, List, [], ◌∷◌, any_of, leb,
  is_none, if◌then◌else◌,
}
use job_search.Ingestion.Persistence.{
  SourceDocument, Write, ◌>>=◌, ◌>>◌, pure, gets, lift, Externals,
}
use job_search.Ingestion.Persistence.Contracts.{NormalizedDocument}
use job_search.Ingestion.Persistence.Conflicts.{Model, change, insert_or_reselect}

abbrev pub text_is : String → Option String → Bool
text_is a none = false
text_is a (some b) = str_eq a b

-- What identifies a document: its provider, and the id that the provider gives or else the URL and the
-- hash of the content.
abbrev pub document_identity : Option String → String → String → ℕ → SourceDocument → Bool
document_identity none provider url content_hash d =
    str_eq d.provider provider
    && is_none d.external_id
    && str_eq d.url url
    && d.content_hash == content_hash
document_identity (some external_id) provider url content_hash d =
    str_eq d.provider provider && text_is external_id d.external_id

abbrev pub document_constraint : Option String → String
document_constraint none = "uq_source_document_provider_url_hash_without_external_id"
document_constraint (some external_id) = "uq_source_document_provider_external_id"

abbrev pub same_document : SourceDocument → SourceDocument → Bool
same_document a b = document_identity a.external_id a.provider a.url a.content_hash b

abbrev pub document_model : Model SourceDocument
document_model = record {
  rows = λ t. t.documents;
  with_rows = λ rows t. record t { documents = rows };
  violated = λ d rows.
      if any_of (λ row. row.id == d.id) rows
      then some "pk_source_documents"
      else if any_of (same_document d) rows
      then some (document_constraint d.external_id)
      else none;
}

abbrev pub document_values :
    Externals → NormalizedDocument → String → SourceDocument → SourceDocument
document_values ext item url d = record d {
  provider = item.document.provider;
  external_id = item.document.external_id;
  url = url;
  title = item.document.title;
  text_excerpt = ext.plain_text_excerpt item.document.text;
  content_hash = ext.content_hash item.document.text;
  authority_level = item.document.authority_level;
  published_at = item.document.published_at;
  fetched_at = item.fetched_at;
}

abbrev pub new_document : Externals → NormalizedDocument → String → ℕ → SourceDocument
new_document ext item url id = record {
  id = id;
  provider = item.document.provider;
  external_id = item.document.external_id;
  url = url;
  title = item.document.title;
  text_excerpt = ext.plain_text_excerpt item.document.text;
  content_hash = ext.content_hash item.document.text;
  authority_level = item.document.authority_level;
  published_at = item.document.published_at;
  fetched_at = item.fetched_at;
}

module _ (ext : Externals) where
  -- The row of the document, inserted where it was not there.
  unfoldable pub stored_document :
      NormalizedDocument → String → Option SourceDocument → Write SourceDocument
  stored_document item url (some d) = pure d
  stored_document item url none = do
    id ← gets ext.uuid
    (d, created) ←
        insert_or_reselect ext document_model
          (λ t.
            first
              (document_identity item.document.external_id item.document.provider url
                (ext.content_hash item.document.text))
              t.documents)
          (document_constraint item.document.external_id) (new_document ext item url id)
    pure d

  -- The id of the row. An older fetch does not change it.
  unfoldable pub upsert_document : NormalizedDocument → Write ℕ
  upsert_document item = do
    url ← lift (ext.normalize_url item.document.url)
    found ← gets (λ t.
        first
          (document_identity item.document.external_id item.document.provider url
            (ext.content_hash item.document.text))
          t.documents)
    d ← stored_document item url found
    change document_model (λ row. row.id == d.id && leb row.fetched_at item.fetched_at)
        (document_values ext item url)
    pure d.id

  -- The ids of the documents by the ids of the evidence.
  unfoldable pub upsert_documents : List NormalizedDocument → Write (List (String × ℕ))
  upsert_documents [] = pure []
  upsert_documents (item ∷ items) = do
    id ← upsert_document item
    rest ← upsert_documents items
    pure ((item.evidence_id, id) ∷ rest)

-- `documents[evidence_id].id`
unfoldable pub document_id : List (String × ℕ) → String → Option ℕ
document_id [] evidence_id = none
document_id ((known, id) ∷ documents) evidence_id =
    if str_eq known evidence_id then some id else document_id documents evidence_id
