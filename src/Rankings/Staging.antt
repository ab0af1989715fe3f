-- ===== src/Rankings/Staging.antt =====
-- backend/app/rankings/staging.py. A date is its number of days; the dictionary of stages is a list of
-- companies with their stages.
pub mod Rules
use job_search.Base.{
  ℕ, ◌+◌, ◌-◌, max, Bool, true, false, not, ◌&&◌, ◌||◌, Option, none, some, List, [], ◌∷◌, String,
  ltb, leb, if◌then◌else◌,
}

pub data CompanyStage : Type 0 where
  early growth mature : CompanyStage

abbrev pub is_stage : CompanyStage → CompanyStage → Bool
is_stage early early = true
is_stage early growth = false
is_stage early mature = false
is_stage growth early = false
is_stage growth growth = true
is_stage growth mature = false
is_stage mature early = false
is_stage mature growth = false
is_stage mature mature = true

-- The columns that the stage depends on.
pub record RankingCandidate : Type 0 where
  pub established_at : Option ℕ
  pub insured_employee_count : Option ℕ

abbrev pub or_zero : Option ℕ → ℕ
or_zero none = 0
or_zero (some n) = n

pub stage_by_age : ℕ → ℕ → CompanyStage
stage_by_age age_days employee_count =
    if ltb age_days 1095 && ltb employee_count 100
    then early
    else if leb 3650 age_days || leb 500 employee_count
    then mature
    else growth

pub stage_since : ℕ → ℕ → Option ℕ → CompanyStage
stage_since employee_count as_of none = growth
stage_since employee_count as_of (some established_at) =
    stage_by_age (max 0 (as_of - established_at)) employee_count

pub classify_company_stage : RankingCandidate → ℕ → CompanyStage
classify_company_stage candidate as_of =
    stage_since (or_zero candidate.insured_employee_count) as_of candidate.established_at

pub count_stage : CompanyStage → List (String × CompanyStage) → ℕ
count_stage s [] = 0
count_stage s ((company, stage) ∷ stages) =
    (if is_stage stage s then 1 else 0) + count_stage s stages

abbrev pub merged_stage : ℕ → (CompanyStage → ℕ) → CompanyStage → CompanyStage
merged_stage minimum_size counts stage =
    if not (is_stage stage growth) && ltb (counts stage) minimum_size then growth else stage

pub merge_with :
    ℕ → (CompanyStage → ℕ) → List (String × CompanyStage) → List (String × CompanyStage)
merge_with minimum_size counts [] = []
merge_with minimum_size counts ((company, stage) ∷ stages) =
    (company, merged_stage minimum_size counts stage) ∷ merge_with minimum_size counts stages

pub merge_small_stages : List (String × CompanyStage) → ℕ → List (String × CompanyStage)
merge_small_stages stages minimum_size = merge_with minimum_size (λ s. count_stage s stages) stages
