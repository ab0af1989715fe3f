-- ===== src/Manifest/EvidencePolicy/Decisions.antt =====
-- When the policy of backend/app/manifest/evidence_policy.py accepts and when it rejects.
use text.Mathlib.TextEquality.{eq_iff}
use job_search.Base.{
  ◌≤◌, String, ◌≡◌, refl, ◌≢◌, inl, inr, ◌↔◌, true, false, Option, none, some, List, [], ◌∷◌, ◌++◌,
  arith, Option-cases,
}
use job_search.Manifest.EvidencePolicy.{
  AuditStratum, RegisteredSourceValidation, RobotsValidation, OwnershipValidation,
  IndependentEvidenceValidation, EntryEvidenceCandidate, ModelEvidenceAssessment, AuditFinding,
  accepted, rejected, EvidenceAcceptancePolicy, stratum, same_stratum, is_paused, paused_strata,
  source_failure, hard_failure, robots_missing, ownership_missing, incomplete, assess,
  evaluate_validated, evaluate, decided, validation_failure,
}

-- The registry knows the source under this URL, and both URLs are fetched over https.
abbrev pub IsRegistered :
    (String → String) → EntryEvidenceCandidate → Option RegisteredSourceValidation → Type 0
IsRegistered scheme c none = ⊥
IsRegistered scheme c (some s) =
    (s.source_id ≡ c.source_id)
    × (s.exact_source_url ≡ c.source_url)
    × (scheme c.source_url ≡ "https")
    × (scheme c.candidate_url ≡ "https")

abbrev pub RobotsAllow : EntryEvidenceCandidate → Option RobotsValidation → Type 0
RobotsAllow c none = ⊥
RobotsAllow c (some r) = r.exact_candidate_url ≡ c.candidate_url

abbrev pub IsOwned : EntryEvidenceCandidate → Option OwnershipValidation → Type 0
IsOwned c none = ⊥
IsOwned c (some o) = (o.exact_source_url ≡ c.source_url) × (o.exact_candidate_url ≡ c.candidate_url)

-- All that the rules ask of a candidate with these checks, and of the model's assessment.
abbrev pub IsAcceptable :
    (String → String)
    → EvidenceAcceptancePolicy
    → EntryEvidenceCandidate
    → ModelEvidenceAssessment
    → Option IndependentEvidenceValidation
    → Type 0
IsAcceptable scheme policy c a none = ⊥
IsAcceptable scheme policy c a (some v) =
    IsRegistered scheme c v.registered_source
    × RobotsAllow c v.robots
    × IsOwned c v.ownership
    × (v.classification_platform ≢ "unknown")
    × (is_paused (stratum c) policy.paused ≡ false)
    × (policy.confidence_threshold ≤ a.confidence)
    × (a.risk_labels ≡ [])

module _ (scheme : String → String) (c : EntryEvidenceCandidate) where
  source_failure_iff :
      (o : Option RegisteredSourceValidation)
      → (source_failure scheme c o ≡ none) ↔ IsRegistered scheme c o
  unfolding source_failure
  source_failure_iff none = ((λ h. ground arith), (λ h. absurd h))
  source_failure_iff (some s) = (
    (λ h. ground (
      arith,
      eq_iff s.source_id c.source_id,
      eq_iff s.exact_source_url c.source_url,
      eq_iff (scheme c.source_url) "https",
      eq_iff (scheme c.candidate_url) "https",
    )),
    (λ h. ground (
      arith,
      eq_iff s.source_id c.source_id,
      eq_iff s.exact_source_url c.source_url,
      eq_iff (scheme c.source_url) "https",
      eq_iff (scheme c.candidate_url) "https",
    )),
  )

  robots_iff : (o : Option RobotsValidation) → (robots_missing c o ≡ false) ↔ RobotsAllow c o
  unfolding robots_missing
  robots_iff none = ((λ h. ground arith), (λ h. absurd h))
  robots_iff (some r) = (
    (λ h. ground (arith, eq_iff r.exact_candidate_url c.candidate_url)),
    (λ h. ground (arith, eq_iff r.exact_candidate_url c.candidate_url)),
  )

  ownership_iff : (o : Option OwnershipValidation) → (ownership_missing c o ≡ false) ↔ IsOwned c o
  unfolding ownership_missing
  ownership_iff none = ((λ h. ground arith), (λ h. absurd h))
  ownership_iff (some o) = (
    (λ h. ground (
      arith,
      eq_iff o.exact_source_url c.source_url,
      eq_iff o.exact_candidate_url c.candidate_url,
    )),
    (λ h. ground (
      arith,
      eq_iff o.exact_source_url c.source_url,
      eq_iff o.exact_candidate_url c.candidate_url,
    )),
  )

  module _ (policy : EvidenceAcceptancePolicy) (a : ModelEvidenceAssessment) where
    assess_iff : ((assess policy c a).status ≡ accepted) ↔ (
        (is_paused (stratum c) policy.paused ≡ false)
        × (policy.confidence_threshold ≤ a.confidence)
        × (a.risk_labels ≡ []))
    unfolding assess
    assess_iff = ((λ h. ground arith), (λ h. ground arith))

    decided_iff :
        (o : Option IndependentEvidenceValidation)
        → ((decided policy c a (validation_failure scheme c o) o).status ≡ accepted)
          ↔ IsAcceptable scheme policy c a o
    unfolding decided validation_failure evaluate_validated incomplete
    decided_iff none = ((λ h. ground arith), (λ h. absurd h))
    decided_iff (some v) =
        let known = source_failure_iff v.registered_source in
        let allowed = robots_iff v.robots in
        let owned = ownership_iff v.ownership in
        let rest = assess_iff in
        (
          (λ h.
              let passed : source_failure scheme c v.registered_source ≡ none = ground (arith, h) in
              let robots : robots_missing c v.robots ≡ false = ground (arith, h, passed) in
              let owner : ownership_missing c v.ownership ≡ false = ground (arith, h, passed) in
              let (a1, a2, a3) = rest.0 (ground (arith, h, passed)) in
              (
                known.0 passed,
                allowed.0 robots,
                owned.0 owner,
                ground (arith, h, passed, eq_iff v.classification_platform "unknown"),
                a1,
                a2,
                a3,
              )),
          (λ h. ground (
            arith,
            known.1 h.0,
            allowed.1 h.1,
            owned.1 h.2,
            rest.1 (h.4, h.5, h.6),
            h.3,
            eq_iff v.classification_platform "unknown",
          )),
        )

    -- The policy accepts a candidate exactly if every rule is met: the checks made in this process name
    -- its source and its URL, its stratum is not paused, and the model is confident and sees no risk.
    pub accepted_iff :
        ((evaluate scheme policy c a).status ≡ accepted)
        ↔ IsAcceptable scheme policy c a c.independent_validation
    unfolding evaluate hard_failure
    accepted_iff = decided_iff c.independent_validation

    -- A rejection is exactly a hard failure, and its code is that failure's, whatever the model says.
    pub rejected_iff : ((evaluate scheme policy c a).status ≡ rejected) ↔ (
        (code : String) × (hard_failure scheme c ≡ some code)
        × ((evaluate scheme policy c a).reason_code ≡ code))
    unfolding evaluate decided evaluate_validated assess
    rejected_iff = elim (Option-cases (hard_failure scheme c)) [
      | inl e ↦ ((λ h. absurd (ground (arith, h, e))), (λ h. absurd (ground (arith, h.1, e))))
      | inr (code, e) ↦
          ((λ h. (code, e, rw (e, evaluate, decided) refl)), (λ h. rw (e, evaluate, decided) refl))
    ]

is_paused-paused_strata :
    (s : AuditStratum) (before after : List AuditFinding) (f : AuditFinding)
    → f.severe_error ≡ true
    → f.stratum ≡ s
    → is_paused s (paused_strata (before ++ f ∷ after)) ≡ true
unfolding is_paused paused_strata same_stratum
is_paused-paused_strata s [] after f h e =
    rw h
      (ground (arith, eq_iff s.source_id f.stratum.source_id, eq_iff s.platform f.stratum.platform))
is_paused-paused_strata s (g ∷ before) after f h e =
    ground (arith, is_paused-paused_strata s before after f h e)

-- A stratum that has a severe audit finding among those that the policy was built from accepts nothing.
pub severe_finding_pauses :
    (scheme : String → String) (policy : EvidenceAcceptancePolicy) (c : EntryEvidenceCandidate)
    (a : ModelEvidenceAssessment) (before after : List AuditFinding) (f : AuditFinding)
    → policy.paused ≡ paused_strata (before ++ f ∷ after)
    → f.severe_error ≡ true
    → f.stratum ≡ stratum c
    → (evaluate scheme policy c a).status ≢ accepted
severe_finding_pauses scheme policy c a before after f p h e ok =
    let met = (accepted_iff scheme c policy a).0 ok in absurd (go c.independent_validation met)
  where
    paused : is_paused (stratum c) policy.paused ≡ true
    paused = rw p (is_paused-paused_strata (stratum c) before after f h e)

    go : (o : Option IndependentEvidenceValidation) → IsAcceptable scheme policy c a o → ⊥
    go none m = m
    go (some v) m = ground (arith, paused, m.4)
