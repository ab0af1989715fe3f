-- ===== src/CompanyIdentity/Samples.antt =====
-- The resolver at a concrete repository, in which company 7 owns one name and its website.
use job_search.Base.{ℕ, String, ◌≡◌, ◌↔◌, Bool, true, false, none, some, [], ◌∷◌, returned}
use job_search.CompanyIdentity.Contracts.{new, CompanyIdentityInput, validate_kind}
use job_search.CompanyIdentity.Resolver.{
  CompanyIdentityRepository, max_candidates, projections, names_of, owners_of, resolve,
}
use job_search.CompanyIdentity.Resolver.Decisions.{
  NoConflict, LinksTo, resolve_links_iff, resolve_new_iff, validate_kind-resolve,
}

abbrev before : String → String → Bool
before a b = false

abbrev size : String → ℕ
size s = 8

abbrev digest : CompanyIdentityInput → String
digest i = "0f"

abbrev acme : CompanyIdentityInput
acme = record {
  canonical_name = "Acme";
  normalized_name = "acme";
  normalized_aliases = [];
  official_website = some "https://acme.example";
  recruitment_identity = none;
  legal_identifiers = [];
}

abbrev known : CompanyIdentityRepository
known = record {
  find_exact_name_owners = λ names. 7 ∷ 7 ∷ [];
  find_evidence_owner_ids = λ i. 7 ∷ [];
  similarity_search_available = true;
  find_similar_names = λ names n. [];
}

abbrev unknown : CompanyIdentityRepository
unknown = record {
  find_exact_name_owners = λ names. [];
  find_evidence_owner_ids = λ i. [];
  similarity_search_available = true;
  find_similar_names = λ names n. [];
}

resolve_links_iff_example : LinksTo before size digest (resolve before size digest known acme) 7 ↔ (
    (owners_of before size digest known acme ≡ 7 ∷ [])
    × NoConflict known (some 7) (projections acme))
resolve_links_iff_example = resolve_links_iff before size digest known acme 7

resolve_new_iff_example : ((resolve before size digest unknown acme).kind ≡ new) ↔ (
    (owners_of before size digest unknown acme ≡ [])
    × NoConflict unknown none (projections acme)
    × (unknown.similarity_search_available ≡ true)
    × (unknown.find_similar_names (names_of before size digest acme) max_candidates ≡ []))
resolve_new_iff_example = resolve_new_iff before size digest unknown acme

validate_kind-resolve_example :
    validate_kind (resolve before size digest known acme)
    ≡ returned (resolve before size digest known acme)
validate_kind-resolve_example = validate_kind-resolve before size digest known acme
