-- ===== src/Rankings/Samples.antt =====
-- Scores and stages of concrete companies.
use text.Mathlib.TextEquality.{eq_iff}
use job_search.Base.{◌≤◌, String, refl, none, some, List, [], ◌∷◌, arith}
use job_search.Rankings.GapPlan.{Candidate}
use job_search.Rankings.Scoring.{market_validation, raw_scores_from_signals}
use job_search.Rankings.Scoring.Bounds.{more_evidence_never_lowers}
use job_search.Rankings.Staging.{
  CompanyStage, early, mature, RankingCandidate, classify_company_stage,
}
use job_search.Rankings.Staging.Rules.{rank, stage_never_goes_back}

more_evidence_never_lowers_example :
    raw_scores_from_signals [] [] market_validation
    ≤ raw_scores_from_signals ("winning_bid" ∷ []) [] market_validation
more_evidence_never_lowers_example =
    more_evidence_never_lowers "winning_bid" [] [] market_validation
      (λ e. ground (arith, (eq_iff "winning_bid" "material_risk").1 e))

abbrev young : RankingCandidate
young = record { established_at = some 1000; insured_employee_count = none }

abbrev grown : RankingCandidate
grown = record { established_at = some 1000; insured_employee_count = some 600 }

stage_never_goes_back_example :
    rank (classify_company_stage young 1100) ≤ rank (classify_company_stage grown 1200)
stage_never_goes_back_example =
    stage_never_goes_back young grown 1100 1200 refl (omega arith) (omega arith)

abbrev stages : List (String × CompanyStage)
stages = ("a", early) ∷ ("b", early) ∷ ("c", mature) ∷ []

abbrev acme : Candidate
acme = record {
  company_size = none;
  established_at = some 1000;
  insured_employee_count = none;
  employee_report_year = none;
  business_scope = none;
  website_candidate = none;
}
