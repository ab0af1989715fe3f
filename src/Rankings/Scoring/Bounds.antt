-- ===== src/Rankings/Scoring/Bounds.antt =====
-- The range of the raw scores, and how they move with the evidence.
use text.Mathlib.TextEquality.{eq_iff}
use job_search.Base.{ℕ, ◌+◌, ◌*◌, ◌≤◌, min, String, ◌≡◌, ◌≢◌, Bool, true, false, List, ◌∷◌, arith}
use job_search.Rankings.Scoring.{
  ScoreComponent, ai_core, market_validation, growth_momentum, industry_influence, reliability,
  component_maximum, count_signal, has_key, ai_ip_count, ai_core_score, at_least_if, market_score,
  growth_score, influence_score, reliability_score, raw_scores_from_signals,
}

at_least_if_le :
    (b : Bool) (floor score limit : ℕ)
    → floor ≤ limit
    → score ≤ limit
    → at_least_if b floor score ≤ limit
unfolding at_least_if
at_least_if_le true floor score limit f h = omega arith
at_least_if_le false floor score limit f h = h

-- Each raw score lies between 0 and the maximum of its component.
pub raw_scores_within_maximums :
    (signals verified : List String) (c : ScoreComponent)
    → raw_scores_from_signals signals verified c ≤ component_maximum c
unfolding raw_scores_from_signals ai_core_score market_score growth_score influence_score
    reliability_score
raw_scores_within_maximums signals verified ai_core = omega arith
raw_scores_within_maximums signals verified market_validation =
    at_least_if_le (has_key "ai.market_proofs" verified) 15
      (min 25 (count_signal "winning_bid" signals * 5)) 25 (omega arith) (omega arith)
raw_scores_within_maximums signals verified growth_momentum =
    at_least_if_le (has_key "ai.growth_events" verified) 10
      (min 20 (count_signal "financing" signals * 5)) 20 (omega arith) (omega arith)
raw_scores_within_maximums signals verified industry_influence =
    at_least_if_le (has_key "ai.technology_signals" verified) 8 (min 15 (ai_ip_count signals * 3))
      15 (omega arith) (omega arith)
raw_scores_within_maximums signals verified reliability = omega arith

count-cons :
    (key s : String) (signals : List String)
    → count_signal key signals ≤ count_signal key (s ∷ signals)
unfolding count_signal
count-cons key s signals = omega arith

at_least_if_mono :
    (b : Bool) (floor m n : ℕ) → m ≤ n → at_least_if b floor m ≤ at_least_if b floor n
unfolding at_least_if
at_least_if_mono true floor m n h = omega arith
at_least_if_mono false floor m n h = h

count-cons_other :
    (key s : String) (signals : List String)
    → s ≢ key
    → count_signal key (s ∷ signals) ≡ count_signal key signals
unfolding count_signal
count-cons_other key s signals h = ground (arith, eq_iff key s)

-- One more signal that is no material risk lowers the raw score of no component.
pub more_evidence_never_lowers :
    (s : String) (signals verified : List String) (c : ScoreComponent)
    → s ≢ "material_risk"
    → raw_scores_from_signals signals verified c ≤ raw_scores_from_signals (s ∷ signals) verified c
unfolding raw_scores_from_signals ai_core_score market_score growth_score influence_score
    reliability_score ai_ip_count
more_evidence_never_lowers s signals verified ai_core h = ground (
  arith,
  count-cons "ai_business_scope" s signals,
  count-cons "ai_invention_patent" s signals,
  count-cons "ai_software_copyright" s signals,
)
more_evidence_never_lowers s signals verified market_validation h =
    at_least_if_mono (has_key "ai.market_proofs" verified) 15
      (min 25 (count_signal "winning_bid" signals * 5))
      (min 25 (count_signal "winning_bid" (s ∷ signals) * 5))
      (omega (arith, count-cons "winning_bid" s signals))
more_evidence_never_lowers s signals verified growth_momentum h =
    at_least_if_mono (has_key "ai.growth_events" verified) 10
      (min 20 (count_signal "financing" signals * 5))
      (min 20 (count_signal "financing" (s ∷ signals) * 5))
      (omega (arith, count-cons "financing" s signals))
more_evidence_never_lowers s signals verified industry_influence h =
    at_least_if_mono (has_key "ai.technology_signals" verified) 8
      (min 15 (
        (count_signal "ai_invention_patent" signals + count_signal "ai_software_copyright" signals)
        * 3))
      (min 15 (
        (count_signal "ai_invention_patent" (s ∷ signals)
          + count_signal "ai_software_copyright" (s ∷ signals))
        * 3))
      (omega (
        arith,
        count-cons "ai_invention_patent" s signals,
        count-cons "ai_software_copyright" s signals,
      ))
more_evidence_never_lowers s signals verified reliability h =
    omega (arith, count-cons_other "material_risk" s signals h)
