-- ===== src/CompanyIdentity/Resolver.antt =====
-- `CompanyIdentityResolver` of backend/app/company_identity/resolver.py. The answers of the repository
-- are an interface. A set of company ids is a list without repetitions, a set of reasons a list; the
-- final sorting of reasons and candidates by the fields of the resolution is left out.
pub mod Decisions
use text.Mathlib.Text.{◌==◌ as str_eq}
use job_search.Base.{
  ℕ, String, Bool, true, false, not, ◌&&◌, ◌||◌, Option, none, some, List, [], ◌∷◌, ◌++◌, leb, ltb,
  ◌==◌, contains, take, all_of, any_of, if◌then◌else◌,
}
use job_search.CompanyIdentity.Contracts.{
  IdentityResolutionKind, existing, new, review_required, IdentityReviewReason,
  ambiguous_exact_owner, fuzzy_name_neighbor, short_name_collision, website_identity_conflict,
  recruitment_identity_conflict, legal_identity_conflict, similarity_search_unavailable,
  CompanyIdentityInput, CompanyIdentityCandidateMatch, CompanyIdentityResolution, is_empty,
}

abbrev pub max_candidates : ℕ
max_candidates = 20

abbrev pub short_name_length : ℕ
short_name_length = 4

-- What the resolver asks `CompanyIdentityRepository`.
pub record CompanyIdentityRepository : Type 0 where
  pub find_exact_name_owners : List String → List ℕ
  pub find_evidence_owner_ids : CompanyIdentityInput → List ℕ
  pub similarity_search_available : Bool
  pub find_similar_names : List String → ℕ → List CompanyIdentityCandidateMatch

-- The ids as a `frozenset`.
pub unique : List ℕ → List ℕ
unique [] = []
unique (x ∷ xs) = let rest = unique xs in if contains rest x then rest else x ∷ rest

pub sole_owner : List ℕ → Option ℕ
sole_owner [] = none
sole_owner (k ∷ []) = some k
sole_owner (k ∷ j ∷ rest) = none

-- There are owners by this evidence, and they are not exactly the sole exact owner.
pub conflicts_with : Option ℕ → List ℕ → Bool
conflicts_with sole [] = false
conflicts_with none (o ∷ os) = true
conflicts_with (some k) (o ∷ os) = not (all_of (λ x. x == k) (o ∷ os))

abbrev pub projection : CompanyIdentityInput → CompanyIdentityInput
projection i = record {
  canonical_name = i.canonical_name;
  normalized_name = i.normalized_name;
  normalized_aliases = [];
  official_website = none;
  recruitment_identity = none;
  legal_identifiers = [];
}

pub website_projection :
    CompanyIdentityInput → Option String → List (CompanyIdentityInput × IdentityReviewReason)
website_projection i none = []
website_projection i (some url) =
    (record (projection i) { official_website = some url }, website_identity_conflict) ∷ []

pub recruitment_projection :
    CompanyIdentityInput → Option String → List (CompanyIdentityInput × IdentityReviewReason)
recruitment_projection i none = []
recruitment_projection i (some identity) =
    (record (projection i) { recruitment_identity = some identity }, recruitment_identity_conflict)
    ∷ []

pub legal_projection :
    CompanyIdentityInput → List String → List (CompanyIdentityInput × IdentityReviewReason)
legal_projection i [] = []
legal_projection i (l ∷ ls) =
    (record (projection i) { legal_identifiers = l ∷ ls }, legal_identity_conflict) ∷ []

pub projections : CompanyIdentityInput → List (CompanyIdentityInput × IdentityReviewReason)
projections i =
    website_projection i i.official_website
    ++ recruitment_projection i i.recruitment_identity
    ++ legal_projection i i.legal_identifiers

module _ (repository : CompanyIdentityRepository) where
  pub conflicts_of :
      Option ℕ → List (CompanyIdentityInput × IdentityReviewReason) → List IdentityReviewReason
  conflicts_of sole [] = []
  conflicts_of sole ((p, reason) ∷ ps) =
      let rest = conflicts_of sole ps in
      if conflicts_with sole (repository.find_evidence_owner_ids p) then reason ∷ rest else rest

  pub evidence_conflict_reasons : CompanyIdentityInput → List ℕ → List IdentityReviewReason
  evidence_conflict_reasons i exact_owner_ids =
      conflicts_of (sole_owner exact_owner_ids) (projections i)

abbrev pub review_resolution :
    String
    → List IdentityReviewReason
    → List CompanyIdentityCandidateMatch
    → CompanyIdentityResolution
review_resolution hash reasons candidates = record {
  kind = review_required;
  company_id = none;
  stable_identity_hash = hash;
  candidate_matches = candidates;
  review_reasons = reasons;
}

-- `str_lt` is Python's order of strings, `str_len` its length, `stable_hash` the digest of an identity.
module _ (str_lt : String → String → Bool) (str_len : String → ℕ)
    (stable_hash : CompanyIdentityInput → String) where
  -- The order by `_candidate_order`: a higher score first, then the name, then the id.
  pub candidate_before : CompanyIdentityCandidateMatch → CompanyIdentityCandidateMatch → Bool
  candidate_before a b =
      if not (a.score == b.score)
      then ltb b.score a.score
      else if not (str_eq a.normalized_name b.normalized_name)
      then str_lt a.normalized_name b.normalized_name
      else ltb a.company_id b.company_id

  pub insert_candidate :
      CompanyIdentityCandidateMatch
      → List CompanyIdentityCandidateMatch
      → List CompanyIdentityCandidateMatch
  insert_candidate c [] = c ∷ []
  insert_candidate c (d ∷ ds) =
      let rest = insert_candidate c ds in if candidate_before d c then d ∷ rest else c ∷ d ∷ ds

  pub sort_candidates : List CompanyIdentityCandidateMatch → List CompanyIdentityCandidateMatch
  sort_candidates [] = []
  sort_candidates (c ∷ cs) = insert_candidate c (sort_candidates cs)

  pub by_similarity :
      String
      → List String
      → List IdentityReviewReason
      → List CompanyIdentityCandidateMatch
      → CompanyIdentityResolution
  by_similarity hash names [] [] = record {
    kind = new;
    company_id = none;
    stable_identity_hash = hash;
    candidate_matches = [];
    review_reasons = [];
  }
  by_similarity hash names (r ∷ rs) [] = review_resolution hash (r ∷ rs) []
  by_similarity hash names reasons (c ∷ cs) =
      review_resolution hash
        ((if any_of (λ name. leb (str_len name) short_name_length) names
            then short_name_collision ∷ fuzzy_name_neighbor ∷ []
            else fuzzy_name_neighbor ∷ [])
          ++ reasons)
        (c ∷ cs)

  pub by_owners :
      CompanyIdentityRepository
      → String
      → List String
      → List IdentityReviewReason
      → List ℕ
      → CompanyIdentityResolution
  by_owners repository hash names reasons (k ∷ j ∷ rest) =
      review_resolution hash (ambiguous_exact_owner ∷ reasons) []
  by_owners repository hash names [] (k ∷ []) = record {
    kind = existing;
    company_id = some k;
    stable_identity_hash = hash;
    candidate_matches = [];
    review_reasons = [];
  }
  by_owners repository hash names (r ∷ rs) (k ∷ []) = review_resolution hash (r ∷ rs) []
  by_owners repository hash names reasons [] =
      if not repository.similarity_search_available
      then review_resolution hash (similarity_search_unavailable ∷ reasons) []
      else by_similarity hash names reasons (
          take max_candidates
            (sort_candidates (repository.find_similar_names names max_candidates)))

  abbrev pub names_of : CompanyIdentityInput → List String
  names_of i = i.normalized_name ∷ i.normalized_aliases

  abbrev pub owners_of : CompanyIdentityRepository → CompanyIdentityInput → List ℕ
  owners_of repository i = unique (repository.find_exact_name_owners (names_of i))

  pub resolve : CompanyIdentityRepository → CompanyIdentityInput → CompanyIdentityResolution
  resolve repository i =
      by_owners repository (stable_hash i) (names_of i)
        (evidence_conflict_reasons repository i (owners_of repository i)) (owners_of repository i)
