-- ===== src/Rankings/GapPlan.antt =====
-- backend/app/rankings/gap_plan.py: which data of a company is still to be queried.
pub mod Plans
use text.Mathlib.Text.{◌==◌ as str_eq}
use job_search.Base.{
  ℕ, String, Bool, true, false, not, Option, none, some, List, [], ◌∷◌, ◌++◌, any_of, keep,
  if◌then◌else◌,
}

pub data EnrichmentCategory : Type 0 where
  growth intellectual_property market_validation material_risk : EnrichmentCategory

abbrev pub cache_key : EnrichmentCategory → String
cache_key growth = "growth.material_events_3y"
cache_key intellectual_property = "ai.intellectual_property_3y"
cache_key market_validation = "market.public_proofs_3y"
cache_key material_risk = "risk.material_events"

abbrev pub all_categories : List EnrichmentCategory
all_categories = growth ∷ intellectual_property ∷ market_validation ∷ material_risk ∷ []

-- The columns of a candidate that the plan reads.
pub record Candidate : Type 0 where
  pub company_size : Option String
  pub established_at : Option ℕ
  pub insured_employee_count : Option ℕ
  pub employee_report_year : Option ℕ
  pub business_scope : Option String
  pub website_candidate : Option String

pub record RankingEnrichmentPlan : Type 0 where
  pub categories : List EnrichmentCategory
  pub baseline_fields : List String

pub is_in : String → List String → Bool
is_in key keys = any_of (str_eq key) keys

-- `if value is not None: baseline.add(field)`
abbrev pub field_if {ℓ} : {A : Type ℓ} → Option A → String → List String
field_if none field = []
field_if (some a) field = field ∷ []

pub plan_ranking_enrichment : Candidate → List String → RankingEnrichmentPlan
plan_ranking_enrichment candidate fresh_field_keys = record {
  categories = keep (λ c. not (is_in (cache_key c) fresh_field_keys)) all_categories;
  baseline_fields =
      ("company.name" ∷ "company.status" ∷ "company.province" ∷ "company.industry_major" ∷ [])
      ++ field_if candidate.company_size "organization.company_size"
      ++ field_if candidate.established_at "company.established_at"
      ++ field_if candidate.insured_employee_count "organization.insured_employee_count"
      ++ field_if candidate.employee_report_year "organization.employee_report_year"
      ++ field_if candidate.business_scope "company.business_scope"
      ++ field_if candidate.website_candidate "company.website_candidate";
}
