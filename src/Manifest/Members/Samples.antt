-- ===== src/Manifest/Members/Samples.antt =====
-- Five candidates of two categories, for five places.
use job_search.Base.{
  ℕ, String, ◌≡◌, refl, Option, none, some, List, [], ◌∷◌, map, count_of, arith, Outcome, returned,
  raised,
}
use job_search.Apportion.{sort_by, insert_by}
use job_search.Manifest.Categories.{AiCategory, foundation_models, ai_chips_compute}
use job_search.Manifest.Allocation.{floor_quota, floor_total}
use job_search.Manifest.Allocation.Totals.{IsFillable, allocate_quotas_fills}
use job_search.Manifest.Members.{
  ConfidenceTier, ResolvedCandidate, ManifestMemberData, bucket_keys, pop_heads, pop_tails, rounds,
  tier_order, tiers_order, diversity_order, has_repeats, validate_company, member_of,
  select_manifest_members,
}
use job_search.Manifest.Members.Rounds.{count_up}
use job_search.Manifest.Members.Quotas.{in_category, pool_of, allocated_members}

abbrev candidate : ℕ → String → AiCategory → ConfidenceTier → Option String → ResolvedCandidate
candidate company_id name category tier city = record {
  company_id = company_id;
  canonical_name = name;
  normalized_name = name;
  primary_category = category;
  official_website = none;
  recruitment_url = none;
  confidence_tier = tier;
  stable_evidence_id = name;
  scale = none;
  city = city;
}

abbrev candidates : List ResolvedCandidate
candidates =
    candidate 1 "a" foundation_models ConfidenceTier.low none
    ∷ candidate 2 "b" foundation_models ConfidenceTier.high none
    ∷ candidate 3 "c" foundation_models ConfidenceTier.high none
    ∷ candidate 4 "d" ai_chips_compute ConfidenceTier.medium none
    ∷ candidate 5 "e" ai_chips_compute ConfidenceTier.high (some "Berlin")
    ∷ []

candidates_fillable : IsFillable (pool_of candidates) 5
unfolding floor_quota floor_total sort_by insert_by
candidates_fillable = record {
  positive = omega arith;
  divisible = refl;
  enough = omega arith;
  floors = omega arith;
}

-- A reading of URLs that takes each text as it is.
abbrev same_url : String → Outcome String
same_url text = returned text

allocated_members_example :
    (members : List ManifestMemberData) × (select_manifest_members candidates
        (allocate_quotas_fills (pool_of candidates) 5 candidates_fillable).0
        same_url
      ≡ returned members)
    × (map (λ m. m.position) members ≡ count_up 5)
    × ((c : AiCategory)
        → count_of (in_category c) members
          ≡ (allocate_quotas_fills (pool_of candidates) 5 candidates_fillable).0.final c)
unfolding has_repeats
allocated_members_example =
    allocated_members same_url candidates 5
      (allocate_quotas_fills (pool_of candidates) 5 candidates_fillable).0 refl refl (omega arith)
      (allocate_quotas_fills (pool_of candidates) 5 candidates_fillable).1

-- Tiers come one after the other, and the buckets of a tier take turns.
diversity_of_three :
    map
      (λ c. c.company_id)
      (diversity_order (
        candidate 1 "a" foundation_models ConfidenceTier.low none
        ∷ candidate 2 "b" foundation_models ConfidenceTier.high none
        ∷ candidate 3 "c" foundation_models ConfidenceTier.high none
        ∷ candidate 4 "d" foundation_models ConfidenceTier.high (some "Berlin")
        ∷ []))
    ≡ 4 ∷ 2 ∷ 3 ∷ 1 ∷ []
unfolding bucket_keys pop_heads pop_tails rounds tier_order tiers_order sort_by insert_by
diversity_of_three = refl

-- The member after the thousandth fails its validation, and so does one without a name.
past_the_thousandth :
    member_of same_url 1001 (candidate 1 "a" foundation_models ConfidenceTier.low none)
    ≡ raised "ValidationError"
unfolding member_of validate_company
past_the_thousandth = refl

nameless :
    member_of same_url 1 (candidate 1 "" foundation_models ConfidenceTier.low none)
    ≡ raised "ValidationError"
unfolding member_of validate_company
nameless = refl
