-- ===== src/Manifest/Samples.antt =====
-- The evidence policy at a concrete candidate, and the quotas of a concrete pool.
use job_search.Base.{ℕ, arith, ◌≤◌, All, returned, String, ◌≡◌, refl, ◌↔◌, true, some, [], ◌∷◌}
use job_search.Apportion.{sum_of, sort_by, insert_by}
use job_search.Manifest.Categories.{AiCategory, categories}
use job_search.Manifest.Allocation.{QuotaAllocation, floor_total, floor_quota, allocate_quotas}
use job_search.Manifest.Allocation.Totals.{
  IsFillable, allocate_quotas_fills, allocate_quotas-IsFillable,
}
use job_search.Manifest.EvidencePolicy.{
  IndependentEvidenceValidation, EntryEvidenceCandidate, ModelEvidenceAssessment, AuditFinding,
  accepted, rejected, EvidenceAcceptancePolicy, stratum, paused_strata, hard_failure, evaluate,
}
use job_search.Manifest.EvidencePolicy.Decisions.{IsAcceptable, accepted_iff, rejected_iff}

abbrev https : String → String
https url = "https"

abbrev validation : IndependentEvidenceValidation
validation = record {
  registered_source =
      some (record { source_id = "acme"; exact_source_url = "https://acme.example" });
  robots = some (record { exact_candidate_url = "https://acme.example/jobs" });
  ownership = some (record {
    exact_source_url = "https://acme.example";
    exact_candidate_url = "https://acme.example/jobs";
  });
  classification_platform = "moka";
}

abbrev candidate : EntryEvidenceCandidate
candidate = record {
  source_id = "acme";
  platform = "moka";
  source_url = "https://acme.example";
  candidate_url = "https://acme.example/jobs";
  independent_validation = some validation;
}

abbrev assessment : ModelEvidenceAssessment
assessment = record { confidence = 95; risk_labels = [] }

abbrev finding : AuditFinding
finding = record { stratum = stratum candidate; severe_error = true }

abbrev open_policy : EvidenceAcceptancePolicy
open_policy = record { confidence_threshold = 90; paused = [] }

abbrev paused_policy : EvidenceAcceptancePolicy
paused_policy = record { confidence_threshold = 90; paused = paused_strata (finding ∷ []) }

accepted_iff_example :
    ((evaluate https open_policy candidate assessment).status ≡ accepted)
    ↔ IsAcceptable https open_policy candidate assessment (some validation)
accepted_iff_example = accepted_iff https candidate open_policy assessment

rejected_iff_example : ((evaluate https open_policy candidate assessment).status ≡ rejected) ↔ (
    (code : String) × (hard_failure https candidate ≡ some code)
    × ((evaluate https open_policy candidate assessment).reason_code ≡ code))
rejected_iff_example = rejected_iff https candidate open_policy assessment

-- Ten candidates in each category, for 45 places.
abbrev pool : AiCategory → ℕ
pool c = 10

pool-IsFillable : IsFillable pool 45
unfolding floor_quota floor_total sort_by insert_by
pool-IsFillable = record {
  positive = omega arith;
  divisible = refl;
  enough = omega arith;
  floors = omega arith;
}

allocate_quotas_fills_example :
    (q : QuotaAllocation) × (allocate_quotas pool 45 ≡ returned q)
    × (sum_of q.final categories ≡ 45)
    × (sum_of q.floor categories ≡ 18)
    × All (λ c. q.final c ≤ pool c) categories
    × All (λ c. q.floor c ≤ q.final c) categories
allocate_quotas_fills_example = allocate_quotas_fills pool 45 pool-IsFillable

allocate_quotas-IsFillable_example : IsFillable pool 45
allocate_quotas-IsFillable_example =
    allocate_quotas-IsFillable pool 45 (allocate_quotas_fills pool 45 pool-IsFillable).0
      (allocate_quotas_fills pool 45 pool-IsFillable).1
