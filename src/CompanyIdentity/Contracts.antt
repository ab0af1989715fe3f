-- ===== src/CompanyIdentity/Contracts.antt =====
-- backend/app/company_identity/contracts.py: identities, reasons for a review, and resolutions.
-- Company ids are numbers, a score is a number of fixed small units, and the fields that only evidence
-- records read are left out.
use job_search.Base.{
  ℕ, String, Bool, true, false, not, ◌||◌, Option, List, [], ◌∷◌, is_none, Outcome, returned,
  raised, if◌then◌else◌,
}

pub data IdentityResolutionKind : Type 0 where
  existing new review_required : IdentityResolutionKind

pub data IdentityReviewReason : Type 0 where
  ambiguous_exact_owner fuzzy_name_neighbor short_name_collision : IdentityReviewReason
  website_identity_conflict recruitment_identity_conflict : IdentityReviewReason
  legal_identity_conflict similarity_search_unavailable : IdentityReviewReason

pub record CompanyIdentityInput : Type 0 where
  pub canonical_name : String
  pub normalized_name : String
  pub normalized_aliases : List String
  pub official_website : Option String
  pub recruitment_identity : Option String
  pub legal_identifiers : List String

pub record CompanyIdentityCandidateMatch : Type 0 where
  pub company_id : ℕ
  pub normalized_name : String
  pub score : ℕ

pub record CompanyIdentityResolution : Type 0 where
  pub kind : IdentityResolutionKind
  pub company_id : Option ℕ
  pub stable_identity_hash : String
  pub candidate_matches : List CompanyIdentityCandidateMatch
  pub review_reasons : List IdentityReviewReason

abbrev pub is_empty {ℓ} : {A : Type ℓ} → List A → Bool
is_empty [] = true
is_empty (x ∷ xs) = false

abbrev pub has_review_data : CompanyIdentityResolution → Bool
has_review_data r = not (is_empty r.candidate_matches) || not (is_empty r.review_reasons)

unfoldable pub validate_as :
    IdentityResolutionKind → CompanyIdentityResolution → Outcome CompanyIdentityResolution
validate_as existing r =
    if is_none r.company_id
    then raised "existing resolution requires company_id"
    else if has_review_data r
    then raised "existing resolution cannot include review data"
    else returned r
validate_as new r =
    if not (is_none r.company_id)
    then raised "new resolution cannot include company_id"
    else if has_review_data r
    then raised "new resolution cannot include review data"
    else returned r
validate_as review_required r =
    if not (is_none r.company_id)
    then raised "review resolution cannot include company_id"
    else if is_empty r.review_reasons
    then raised "review resolution requires a reason"
    else returned r

abbrev pub validate_kind : CompanyIdentityResolution → Outcome CompanyIdentityResolution
validate_kind r = validate_as r.kind r
