-- ===== src/Rankings/Staging/Rules.antt =====
-- What the stages of companies promise.
use job_search.Base.{
  ℕ, ◌-◌, ◌≤◌, max, ◌≡◌, ◌≢◌, ◌⊎◌, inl, inr, refl, false, Option, none, some, List, [], ◌∷◌, String,
  ltb, if◌then◌else◌, arith, Bool-cases,
}
use job_search.Rankings.Staging.{
  CompanyStage, early, growth, mature, is_stage, RankingCandidate, or_zero, stage_by_age,
  stage_since, classify_company_stage, count_stage, merged_stage, merge_with, merge_small_stages,
}

abbrev pub rank : CompanyStage → ℕ
rank early = 0
rank growth = 1
rank mature = 2

stage_by_age_mono :
    (a b m n : ℕ) → a ≤ b → m ≤ n → rank (stage_by_age a m) ≤ rank (stage_by_age b n)
unfolding stage_by_age
stage_by_age_mono a b m n h k = ground arith

stage_since_mono :
    (m n as_of now : ℕ) (o : Option ℕ)
    → m ≤ n
    → as_of ≤ now
    → rank (stage_since m as_of o) ≤ rank (stage_since n now o)
unfolding stage_since
stage_since_mono m n as_of now none h t = omega arith
stage_since_mono m n as_of now (some d) h t =
    stage_by_age_mono (max 0 (as_of - d)) (max 0 (now - d)) m n (omega arith) h

-- A company's stage never goes back while time passes and the number of its employees does not fall.
pub stage_never_goes_back :
    (candidate later : RankingCandidate) (as_of now : ℕ)
    → later.established_at ≡ candidate.established_at
    → or_zero candidate.insured_employee_count ≤ or_zero later.insured_employee_count
    → as_of ≤ now
    → rank (classify_company_stage candidate as_of) ≤ rank (classify_company_stage later now)
unfolding classify_company_stage
stage_never_goes_back candidate later as_of now e m t = rw e (
    stage_since_mono (or_zero candidate.insured_employee_count)
      (or_zero later.insured_employee_count) as_of now candidate.established_at m t)

merged_stage_lem :
    (minimum : ℕ) (counts : CompanyStage → ℕ) (s t : CompanyStage)
    → s ≢ growth
    → is_stage (merged_stage minimum counts t) s
      ≡ (if ltb (counts s) minimum then false else is_stage t s)
merged_stage_lem minimum counts growth t h = absurd (h refl)
merged_stage_lem minimum counts early early h = ground arith
merged_stage_lem minimum counts early growth h = ground arith
merged_stage_lem minimum counts early mature h = ground arith
merged_stage_lem minimum counts mature early h = ground arith
merged_stage_lem minimum counts mature growth h = ground arith
merged_stage_lem minimum counts mature mature h = ground arith

count_stage-merge_with :
    (minimum : ℕ) (counts : CompanyStage → ℕ) (s : CompanyStage)
    (stages : List (String × CompanyStage))
    → s ≢ growth
    → count_stage s (merge_with minimum counts stages)
      ≡ (if ltb (counts s) minimum then 0 else count_stage s stages)
unfolding count_stage merge_with
count_stage-merge_with minimum counts s [] h = ground arith
count_stage-merge_with minimum counts s ((company, stage) ∷ stages) h = ground (
  arith,
  merged_stage_lem minimum counts s stage h,
  count_stage-merge_with minimum counts s stages h,
)

-- After the merge, a stage other than growth is empty or has at least the minimum of companies.
pub merged_stages_are_large :
    (stages : List (String × CompanyStage)) (minimum : ℕ) (s : CompanyStage)
    → s ≢ growth
    → (count_stage s (merge_small_stages stages minimum) ≡ 0)
      ⊎ (minimum ≤ count_stage s (merge_small_stages stages minimum))
unfolding merge_small_stages
merged_stages_are_large stages minimum s h =
    elim (Bool-cases (ltb (count_stage s stages) minimum)) [
      | inl e ↦
          inl (
            ground
              (arith, e, count_stage-merge_with minimum (λ t. count_stage t stages) s stages h))
      | inr e ↦
          inr (
            ground
              (arith, e, count_stage-merge_with minimum (λ t. count_stage t stages) s stages h))
    ]
