-- ===== src/Manifest/EvidencePolicy.antt =====
-- `EvidenceAcceptancePolicy` of backend/app/manifest/evidence_policy.py. A confidence is a number of
-- fixed small units; the digest and the fields that no rule reads are left out.
pub mod Decisions
use text.Mathlib.Text.{◌==◌ as str_eq}
use job_search.Base.{
  ℕ, String, Bool, true, false, not, ◌&&◌, ◌||◌, Option, none, some, List, [], ◌∷◌, ltb,
  if◌then◌else◌,
}

pub record AuditStratum : Type 0 where
  pub source_id : String
  pub platform : String

pub record RegisteredSourceValidation : Type 0 where
  pub source_id : String
  pub exact_source_url : String

pub record RobotsValidation : Type 0 where
  pub exact_candidate_url : String

pub record OwnershipValidation : Type 0 where
  pub exact_source_url : String
  pub exact_candidate_url : String

pub record IndependentEvidenceValidation : Type 0 where
  pub registered_source : Option RegisteredSourceValidation
  pub robots : Option RobotsValidation
  pub ownership : Option OwnershipValidation
  pub classification_platform : String

pub record EntryEvidenceCandidate : Type 0 where
  pub source_id : String
  pub platform : String
  pub source_url : String
  pub candidate_url : String
  pub independent_validation : Option IndependentEvidenceValidation

pub record ModelEvidenceAssessment : Type 0 where
  pub confidence : ℕ
  pub risk_labels : List String

pub record AuditFinding : Type 0 where
  pub stratum : AuditStratum
  pub severe_error : Bool

pub data CandidateDecisionStatus : Type 0 where
  accepted rejected review_required : CandidateDecisionStatus

pub record EvidencePolicyDecision : Type 0 where
  pub status : CandidateDecisionStatus
  pub reason_code : String

abbrev pub stratum : EntryEvidenceCandidate → AuditStratum
stratum c = record { source_id = c.source_id; platform = c.platform }

pub same_stratum : AuditStratum → AuditStratum → Bool
same_stratum a b = str_eq a.source_id b.source_id && str_eq a.platform b.platform

pub is_paused : AuditStratum → List AuditStratum → Bool
is_paused s [] = false
is_paused s (p ∷ ps) = same_stratum s p || is_paused s ps

pub paused_strata : List AuditFinding → List AuditStratum
paused_strata [] = []
paused_strata (f ∷ fs) =
    let rest = paused_strata fs in if f.severe_error then f.stratum ∷ rest else rest

abbrev pub is_empty {ℓ} : {A : Type ℓ} → List A → Bool
is_empty [] = true
is_empty (x ∷ xs) = false

abbrev pub review : String → EvidencePolicyDecision
review code = record { status = CandidateDecisionStatus.review_required; reason_code = code }

-- `urlsplit(url).scheme` is the standard library's.
module _ (scheme : String → String) where
  pub source_failure : EntryEvidenceCandidate → Option RegisteredSourceValidation → Option String
  source_failure c none = some "unregistered_source"
  source_failure c (some r) =
      if not (str_eq r.source_id c.source_id)
      then some "unregistered_source"
      else if not (str_eq r.exact_source_url c.source_url)
      then some "unregistered_source"
      else if not (str_eq (scheme c.source_url) "https")
      then some "source_not_https"
      else if not (str_eq (scheme c.candidate_url) "https")
      then some "candidate_not_https"
      else none

  pub validation_failure :
      EntryEvidenceCandidate → Option IndependentEvidenceValidation → Option String
  validation_failure c none = none
  validation_failure c (some v) = source_failure c v.registered_source

  pub hard_failure : EntryEvidenceCandidate → Option String
  hard_failure c = validation_failure c c.independent_validation

pub robots_missing : EntryEvidenceCandidate → Option RobotsValidation → Bool
robots_missing c none = true
robots_missing c (some r) = not (str_eq r.exact_candidate_url c.candidate_url)

pub ownership_missing : EntryEvidenceCandidate → Option OwnershipValidation → Bool
ownership_missing c none = true
ownership_missing c (some o) =
    not (str_eq o.exact_source_url c.source_url)
    || not (str_eq o.exact_candidate_url c.candidate_url)

pub incomplete : EntryEvidenceCandidate → IndependentEvidenceValidation → Bool
incomplete c v =
    robots_missing c v.robots
    || ownership_missing c v.ownership
    || str_eq v.classification_platform "unknown"

pub record EvidenceAcceptancePolicy : Type 0 where
  pub confidence_threshold : ℕ
  pub paused : List AuditStratum

pub assess :
    EvidenceAcceptancePolicy
    → EntryEvidenceCandidate
    → ModelEvidenceAssessment
    → EvidencePolicyDecision
assess policy c a =
    if is_paused (stratum c) policy.paused
    then review "audit_stratum_paused"
    else if ltb a.confidence policy.confidence_threshold
    then review "model_confidence_below_threshold"
    else if not (is_empty a.risk_labels)
    then review "model_risk_flagged"
    else record { status = CandidateDecisionStatus.accepted; reason_code = "accepted" }

pub evaluate_validated :
    EvidenceAcceptancePolicy
    → EntryEvidenceCandidate
    → ModelEvidenceAssessment
    → Option IndependentEvidenceValidation
    → EvidencePolicyDecision
evaluate_validated policy c a none = review "independent_validation_required"
evaluate_validated policy c a (some v) =
    if incomplete c v then review "independent_validation_required" else assess policy c a

pub decided :
    EvidenceAcceptancePolicy
    → EntryEvidenceCandidate
    → ModelEvidenceAssessment
    → Option String
    → Option IndependentEvidenceValidation
    → EvidencePolicyDecision
decided policy c a (some code) o = record {
  status = CandidateDecisionStatus.rejected;
  reason_code = code;
}
decided policy c a none o = evaluate_validated policy c a o

pub evaluate :
    (String → String)
    → EvidenceAcceptancePolicy
    → EntryEvidenceCandidate
    → ModelEvidenceAssessment
    → EvidencePolicyDecision
evaluate scheme policy c a = decided policy c a (hard_failure scheme c) c.independent_validation
