-- ===== src/Rankings/Scoring.antt =====
-- The raw scores of backend/app/rankings/scoring.py. The dictionary of scores is a record with one field
-- for each component, and a set of keys is a list.
pub mod Bounds
use text.Mathlib.Text.{◌==◌ as str_eq}
use job_search.Base.{
  ℕ, ◌+◌, ◌-◌, ◌*◌, min, max, String, Bool, true, false, List, [], ◌∷◌, any_of, count_of, ltb,
  if◌then◌else◌,
}

pub data ScoreComponent : Type 0 where
  ai_core market_validation growth_momentum industry_influence reliability : ScoreComponent

abbrev pub component_maximum : ScoreComponent → ℕ
component_maximum ai_core = 30
component_maximum market_validation = 25
component_maximum growth_momentum = 20
component_maximum industry_influence = 15
component_maximum reliability = 10

-- `counts[key]` and `key in keys`.
pub count_signal : String → List String → ℕ
count_signal key keys = count_of (str_eq key) keys

pub has_key : String → List String → Bool
has_key key keys = any_of (str_eq key) keys

pub ai_ip_count : List String → ℕ
ai_ip_count signals =
    count_signal "ai_invention_patent" signals + count_signal "ai_software_copyright" signals

pub ai_core_score : List String → List String → ℕ
ai_core_score signals verified = min 30 (
    (if ltb 0 (count_signal "ai_business_scope" signals) then 15 else 0)
    + (if has_key "ai.core_level" verified then 15 else 0)
    + (if has_key "ai.products" verified then 10 else 0)
    + min 15 (ai_ip_count signals * 3))

pub at_least_if : Bool → ℕ → ℕ → ℕ
at_least_if test floor score = if test then max score floor else score

pub market_score : List String → List String → ℕ
market_score signals verified =
    at_least_if (has_key "ai.market_proofs" verified) 15
      (min 25 (count_signal "winning_bid" signals * 5))

pub growth_score : List String → List String → ℕ
growth_score signals verified =
    at_least_if (has_key "ai.growth_events" verified) 10
      (min 20 (count_signal "financing" signals * 5))

pub influence_score : List String → List String → ℕ
influence_score signals verified =
    at_least_if (has_key "ai.technology_signals" verified) 8 (min 15 (ai_ip_count signals * 3))

pub reliability_score : List String → ℕ
reliability_score signals = max 0 (10 - min 10 (count_signal "material_risk" signals * 3))

pub raw_scores_from_signals : List String → List String → ScoreComponent → ℕ
raw_scores_from_signals signals verified ai_core = ai_core_score signals verified
raw_scores_from_signals signals verified market_validation = market_score signals verified
raw_scores_from_signals signals verified growth_momentum = growth_score signals verified
raw_scores_from_signals signals verified industry_influence = influence_score signals verified
raw_scores_from_signals signals verified reliability = reliability_score signals
