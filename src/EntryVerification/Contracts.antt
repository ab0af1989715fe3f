-- ===== src/EntryVerification/Contracts.antt =====
-- backend/app/ingestion/entry_verification/contracts.py: budgets and results. URLs are strings.
use text.Mathlib.Text.{◌==◌ as str_eq}
use job_search.Base.{
  ℕ, String, Bool, true, false, not, ◌||◌, Option, none, some, List, [], ◌∷◌, is_none, Outcome,
  returned, raised, if◌then◌else◌,
}

pub data EntryVerificationStatus : Type 0 where
  verified unverified unavailable : EntryVerificationStatus

abbrev pub is_verified : EntryVerificationStatus → Bool
is_verified verified = true
is_verified unverified = false
is_verified unavailable = false

abbrev pub stable_entry_failure_codes : List String
stable_entry_failure_codes =
    "not_found" ∷ "unsafe_url" ∷ "robots_disallowed" ∷ "request_timeout" ∷ "access_blocked"
    ∷ "login_required" ∷ "not_recruiting_page" ∷ "company_ownership_unverified" ∷ "budget_exhausted"
    ∷ "provider_unavailable" ∷ []

unfoldable pub member : String → List String → Bool
member s [] = false
member s (t ∷ ts) = str_eq s t || member s ts

pub record EntryVerificationBudget : Type 0 where
  pub max_search_calls : ℕ
  pub max_candidates : ℕ
  pub max_http_requests : ℕ

pub record EntryVerificationResult : Type 0 where
  pub candidate_url : String
  pub final_url : Option String
  pub status : EntryVerificationStatus
  pub reason_code : Option String
  pub http_requests : ℕ
  pub ownership_evidence : Option String

pub is_stable : Option String → Bool
is_stable none = false
is_stable (some code) = member code stable_entry_failure_codes

pub validate_reason : EntryVerificationResult → Outcome EntryVerificationResult
validate_reason r =
    if is_verified r.status
    then if not (is_none r.reason_code) || is_none r.final_url
      then raised "verified result requires final_url and no reason_code"
      else returned r
    else if is_stable r.reason_code
    then returned r
    else raised "non-verified result requires a stable reason_code"
