-- ===== src/Ingestion/Persistence/Filings.antt =====
-- `_upsert_filings` and `_owned_filing_for_identity` of `PersistenceService`
-- (backend/app/ingestion/persistence/service.py), and the validator of a filing's number
-- (backend/app/models/filing.py). The advisory locks on the filings leave the tables alone.
use Prim.Native.String.{count}
use text.Mathlib.Text.{◌==◌ as str_eq}
use job_search.Base.{
  keep, ℕ, ◌==◌, String, Bool, true, false, not, ◌&&◌, ◌||◌, Option, none, some, List, [], ◌∷◌,
  any_of, all_of, leb, ltb, Outcome, returned, require, if◌then◌else◌, ◌>>=◌ as ◌and_then◌,
}
use job_search.Ingestion.Persistence.{
  FilingType, RegulatoryFiling, Tables, Write, ◌>>=◌, ◌>>◌, pure, gets, demand, or_fail, lift,
  Externals,
}
use job_search.Ingestion.Persistence.Contracts.{NormalizedFilingRecord}
use job_search.Ingestion.Persistence.Conflicts.{Model, change, insert_or_reselect, text_before}
use job_search.Ingestion.Persistence.Companies.{is_text}
use job_search.Ingestion.Persistence.JobLoop.{evidence_document}

abbrev pub same_filing_type : FilingType → FilingType → Bool
same_filing_type FilingType.icp FilingType.icp = true
same_filing_type FilingType.algorithm FilingType.algorithm = true
same_filing_type FilingType.business_license FilingType.business_license = true
same_filing_type a b = false

abbrev pub has_filing_identity : FilingType → String → RegulatoryFiling → Bool
has_filing_identity type number f =
    same_filing_type f.filing_type type && str_eq f.normalized_filing_number number

abbrev pub filing_model : Model RegulatoryFiling
filing_model = record {
  rows = λ t. t.filings;
  with_rows = λ rows t. record t { filings = rows };
  violated = λ f rows.
      if any_of (λ row. row.id == f.id) rows
      then some "pk_regulatory_filings"
      else if any_of (has_filing_identity f.filing_type f.normalized_filing_number) rows
      then some "uq_filing_type_normalized_number"
      else none;
}

-- `ORDER BY`: the exact number first, then the numbers, then the ids.
abbrev pub filing_before : String → RegulatoryFiling → RegulatoryFiling → Bool
filing_before number a b =
    let exact_a = str_eq a.filing_number number in
    let exact_b = str_eq b.filing_number number in
    (exact_a && not exact_b)
    || ((exact_a || not exact_b)
        && (text_before a.filing_number b.filing_number
            || (str_eq a.filing_number b.filing_number && ltb a.id b.id)))

-- The first row of the order.
unfoldable pub first_filing : String → List RegulatoryFiling → Option RegulatoryFiling
first_filing number [] = none
first_filing number (f ∷ filings) = elim (first_filing number filings) [
  | none ↦ some f
  | some g ↦ if filing_before number g f then some g else some f
]

abbrev pub filing_matches : NormalizedFilingRecord → Tables → List RegulatoryFiling
filing_matches item t = keep (has_filing_identity item.filing_type item.filing_number) t.filings

-- The validator: the normalized number.
unfoldable pub normalize_identity_filing_number : Externals → String → Outcome String
normalize_identity_filing_number ext value =
    let normalized = ext.normalize_name value in
    require (is_text normalized) "filing_number is required" and_then (λ done.
      require (leb (count value) 255 && leb (count normalized) 255)
        "filing_number exceeds database length"
      and_then (λ checked. returned normalized))

abbrev pub filing_values :
    ℕ → NormalizedFilingRecord → Option ℕ → String → RegulatoryFiling → RegulatoryFiling
filing_values company_id item document normalized f = record f {
  company_id = company_id;
  source_document_id = document;
  filing_type = item.filing_type;
  filing_number = item.filing_number;
  normalized_filing_number = normalized;
  filing_name = item.filing_name;
  filing_authority = item.filing_authority;
  filing_date = item.filing_date;
  filing_status = item.filing_status;
  detail_url = item.detail_url;
}

abbrev pub new_filing : ℕ → NormalizedFilingRecord → Option ℕ → String → ℕ → RegulatoryFiling
new_filing company_id item document normalized id = record {
  id = id;
  company_id = company_id;
  source_document_id = document;
  filing_type = item.filing_type;
  filing_number = item.filing_number;
  normalized_filing_number = normalized;
  filing_name = item.filing_name;
  filing_authority = item.filing_authority;
  filing_date = item.filing_date;
  filing_status = item.filing_status;
  detail_url = item.detail_url;
}

-- `len(keys) != len(set(keys))`
unfoldable pub has_repeated_filing : List NormalizedFilingRecord → Bool
has_repeated_filing [] = false
has_repeated_filing (item ∷ items) =
    any_of
      (λ other.
        same_filing_type other.filing_type item.filing_type
        && str_eq other.filing_number item.filing_number)
      items
    || has_repeated_filing items

unfoldable pub owned_filing_for_identity :
    ℕ → NormalizedFilingRecord → Write (Option RegulatoryFiling)
owned_filing_for_identity company_id item = do
  matches ← gets (filing_matches item)
  demand (all_of (λ f. f.company_id == company_id) matches)
      "filing identity has ambiguous company ownership"
  pure (first_filing item.filing_number matches)

module _ (ext : Externals) (company_id : ℕ) where
  -- The row of a filing, inserted where it was not there.
  unfoldable pub stored_filing :
      NormalizedFilingRecord → Option ℕ → Option RegulatoryFiling → Write RegulatoryFiling
  stored_filing item document (some f) = pure f
  stored_filing item document none = do
    normalized ← lift (normalize_identity_filing_number ext item.filing_number)
    id ← gets ext.uuid
    (f, created) ←
        insert_or_reselect ext filing_model
          (λ t. first_filing item.filing_number (filing_matches item t))
          "uq_filing_type_normalized_number" (new_filing company_id item document normalized id)
    found ← owned_filing_for_identity company_id item
    or_fail found "filing identity could not be reselected"

module _ (ext : Externals) (company_id : ℕ) (documents : List (String × ℕ)) where
  unfoldable pub upsert_filing : NormalizedFilingRecord → Write (Unit {0})
  upsert_filing item = do
    found ← owned_filing_for_identity company_id item
    document ← evidence_document documents item.source_evidence_id
    f ← stored_filing ext company_id item document found
    normalized ← lift (normalize_identity_filing_number ext item.filing_number)
    change filing_model (λ row. row.id == f.id) (filing_values company_id item document normalized)

  unfoldable pub upsert_each_filing : List NormalizedFilingRecord → Write (Unit {0})
  upsert_each_filing [] = pure tt
  upsert_each_filing (item ∷ items) = do upsert_filing item; upsert_each_filing items

  unfoldable pub upsert_filings : List NormalizedFilingRecord → Write (Unit {0})
  upsert_filings items = do
    demand (not (has_repeated_filing items)) "duplicate filing identity in batch"
    upsert_each_filing items
