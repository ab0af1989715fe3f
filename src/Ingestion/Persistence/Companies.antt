-- ===== src/Ingestion/Persistence/Companies.antt =====
-- `_upsert_company_locked` and `_upsert_company_aliases` of `PersistenceService`
-- (backend/app/ingestion/persistence/service.py), and the validator of a company's website
-- (backend/app/models/company.py). The advisory locks on the names leave the tables alone.
use Prim.Native.String.{count}
use text.Mathlib.Text.{◌==◌ as str_eq}
use job_search.Base.{
  first, keep, ℕ, ◌==◌, String, Bool, true, false, not, ◌&&◌, Option, none, some, List, [], ◌∷◌,
  ◌++◌, map, any_of, all_of, leb, Outcome, returned, require, if◌then◌else◌, ◌>>=◌ as ◌and_then◌,
}
use job_search.Ingestion.DirectAts.{preferring}
use job_search.Ingestion.Persistence.{
  Company, CompanyAlias, Tables, Write, ◌>>=◌, ◌>>◌, pure, gets, demand, or_fail, lift, Externals,
}
use job_search.Ingestion.Persistence.Contracts.{CompanyCandidate, NormalizedCompanyRecord}
use job_search.Ingestion.Persistence.Conflicts.{
  Model, change, insert_or_reselect, sorted_texts, text_before,
}

abbrev pub company_model : Model Company
company_model = record {
  rows = λ t. t.companies;
  with_rows = λ rows t. record t { companies = rows };
  violated = λ c rows.
      if any_of (λ row. row.id == c.id) rows
      then some "pk_companies"
      else if any_of (λ row. str_eq row.normalized_name c.normalized_name) rows
      then some "uq_company_normalized_name"
      else none;
}

abbrev pub alias_model : Model CompanyAlias
alias_model = record {
  rows = λ t. t.aliases;
  with_rows = λ rows t. record t { aliases = rows };
  violated = λ a rows.
      if any_of (λ row. row.id == a.id) rows
      then some "pk_company_aliases"
      else if any_of (λ row. str_eq row.normalized_alias a.normalized_alias) rows
      then some "uq_company_alias_normalized_alias"
      else none;
}

-- `if text`
abbrev pub is_text : String → Bool
is_text a = not (str_eq a "")

-- `_company_identity_names`
abbrev pub company_identity_names : Externals → NormalizedCompanyRecord → List String
company_identity_names ext item =
    sorted_texts
      (keep is_text (item.normalized_name ∷ map ext.normalize_name item.candidate.aliases))

-- `_company_identity_website`
abbrev pub company_identity_website : Externals → Option String → Outcome (Option String)
company_identity_website ext none = returned none
company_identity_website ext (some website) =
    ext.normalize_public_identity_url website and_then (λ url. returned (some url))

abbrev pub company_of_name : String → Tables → Option Company
company_of_name name t = first (λ c. str_eq c.normalized_name name) t.companies

abbrev pub alias_of_name : String → Tables → Option CompanyAlias
alias_of_name name t = first (λ a. str_eq a.normalized_alias name) t.aliases

-- `_company_identity_name_owner_ids`
unfoldable pub company_identity_name_owner_ids : Tables → String → List ℕ
company_identity_name_owner_ids t name =
    map (λ c. c.id) (keep (λ c. str_eq c.normalized_name name) t.companies)
    ++ map (λ a. a.company_id) (keep (λ a. str_eq a.normalized_alias name) t.aliases)

unfoldable pub website_owner_ids : Tables → Option String → List ℕ
website_owner_ids t none = []
website_owner_ids t (some website) =
    map (λ c. c.id) (keep (λ c. str_eq c.normalized_website website) t.companies)

-- `{company.id}`, or the empty set.
abbrev pub is_allowed : Option Company → ℕ → Bool
is_allowed none id = false
is_allowed (some c) id = c.id == id

-- The company of a record: by its id, which must be known, or by its name.
unfoldable pub resolved_company : NormalizedCompanyRecord → Write (Option Company)
resolved_company item = elim item.company_id [
  | none ↦ gets (company_of_name item.normalized_name)
  | some id ↦ (do
    found ← gets (λ t. first (λ c. c.id == id) t.companies)
    company ← or_fail found "unknown company_id"
    pure (some company))
]

-- The website and the column that is derived from it.
abbrev pub validated_website : Externals → String → Outcome String
validated_website ext website = ext.normalize_public_identity_url website and_then (λ url.
    require (leb (count url) 1000) "website exceeds database length"
    and_then (λ done. returned url))

abbrev pub website_column : Externals → Option String → Outcome (Option String)
website_column ext none = returned none
website_column ext (some website) =
    validated_website ext website and_then (λ url. returned (some url))

abbrev pub text_or : Option String → String → String
text_or none fallback = fallback
text_or (some a) fallback = a

abbrev pub new_company : NormalizedCompanyRecord → Option String → ℕ → Company
new_company item website id = record {
  id = id;
  canonical_name = item.candidate.name;
  normalized_name = item.normalized_name;
  industry = item.candidate.industry;
  sub_industry = item.candidate.sub_industry;
  funding_stage = item.candidate.funding_stage;
  scale = item.candidate.scale;
  city = item.candidate.city;
  headquarters = item.candidate.headquarters;
  founded_year = item.candidate.founded_year;
  website = website;
  normalized_website = text_or website "";
  description = item.candidate.description;
  last_collected_at = none;
}

-- What the candidate gives replaces what the company had.
abbrev pub updated_company : CompanyCandidate → Option String → Company → Company
updated_company candidate website c = record c {
  website = preferring c.website website;
  normalized_website = text_or website c.normalized_website;
  description = preferring c.description candidate.description;
  headquarters = preferring c.headquarters candidate.headquarters;
  founded_year = preferring c.founded_year candidate.founded_year;
  city = preferring c.city candidate.city;
  industry = preferring c.industry candidate.industry;
  sub_industry = preferring c.sub_industry candidate.sub_industry;
  funding_stage = candidate.funding_stage;
  scale = candidate.scale;
}

-- `aliases_by_normalized.setdefault(...)`, with the keys in order.
unfoldable pub set_default : String → String → List (String × String) → List (String × String)
set_default key display [] = (key, display) ∷ []
set_default key display ((known, shown) ∷ aliases) =
    if str_eq key known
    then (known, shown) ∷ aliases
    else if text_before key known
    then (key, display) ∷ (known, shown) ∷ aliases
    else (known, shown) ∷ set_default key display aliases

unfoldable pub aliases_by_normalized :
    Externals → String → List String → List (String × String) → List (String × String)
aliases_by_normalized ext normalized_name [] found = found
aliases_by_normalized ext normalized_name (display ∷ rest) found =
    let key = ext.normalize_name display in
    aliases_by_normalized ext normalized_name rest (
      if is_text key && not (str_eq key normalized_name)
      then set_default key display found
      else found)

module _ (ext : Externals) (company_id : ℕ) where
  abbrev pub owns_name : Option Company → Bool
  owns_name none = true
  owns_name (some c) = c.id == company_id

  unfoldable pub stored_company_alias : String × String → Option CompanyAlias → Write CompanyAlias
  stored_company_alias (key, display) (some a) = pure a
  stored_company_alias (key, display) none = do
    id ← gets ext.uuid
    (a, created) ←
        insert_or_reselect ext alias_model (alias_of_name key) "uq_company_alias_normalized_alias"
          (record { id = id; company_id = company_id; alias = display; normalized_alias = key })
    pure a

  unfoldable pub upsert_company_alias : String × String → Write (Unit {0})
  upsert_company_alias (key, display) = do
    canonical_owner ← gets (company_of_name key)
    demand (owns_name canonical_owner) "company alias is owned by another company"
    found ← gets (alias_of_name key)
    a ← stored_company_alias (key, display) found
    demand (a.company_id == company_id) "company alias is owned by another company"

  unfoldable pub upsert_company_aliases : List (String × String) → Write (Unit {0})
  upsert_company_aliases [] = pure tt
  upsert_company_aliases (entry ∷ aliases) = do
    upsert_company_alias entry
    upsert_company_aliases aliases

module _ (ext : Externals) (item : NormalizedCompanyRecord) where
  unfoldable pub stored_company : Option Company → Write Company
  stored_company (some c) = pure c
  stored_company none = do
    website ← lift (website_column ext item.candidate.website)
    id ← gets ext.uuid
    (c, created) ←
        insert_or_reselect ext company_model (company_of_name item.normalized_name)
          "uq_company_normalized_name" (new_company item website id)
    pure c

  -- No other company has the names and the website of the record.
  unfoldable pub check_identity : List String → Option Company → Write (Unit {0})
  check_identity identity_names found = do
    t ← gets (λ t. t)
    demand
        (all_of (λ name. all_of (is_allowed found) (company_identity_name_owner_ids t name))
          identity_names)
        "company identity name is owned by another company"
    website ← lift (company_identity_website ext item.candidate.website)
    demand (all_of (is_allowed found) (website_owner_ids t website))
        "company website identity is owned by another company"

  -- The company of the record, as it is identified from here on.
  unfoldable pub upsert_company_locked : List String → Write (ℕ × String)
  upsert_company_locked identity_names = do
    found ← resolved_company item
    check_identity identity_names found
    c ← stored_company found
    website ← lift (website_column ext item.candidate.website)
    change company_model (λ row. row.id == c.id) (updated_company item.candidate website)
    upsert_company_aliases ext c.id (
        aliases_by_normalized ext c.normalized_name (item.candidate.name ∷ item.candidate.aliases)
          [])
    pure (c.id, c.normalized_name)
