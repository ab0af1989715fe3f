-- ===== src/Manifest/Allocation.antt =====
-- `allocate_quotas` of backend/app/manifest/allocation.py. A mapping from categories to counts is a
-- function, so that missing keys are zeros and no count is negative. The names of the categories in the
-- message of a floor shortage are left out.
pub mod Totals
use job_search.Base.{
  ℕ, ◌+◌, ◌-◌, ◌*◌, ◌/◌, ◌%◌, Bool, true, false, not, List, [], ◌∷◌, any_of, length, ltb, ◌==◌,
  Outcome, returned, raised, ◌>>=◌, ◌>>◌, require, if◌then◌else◌,
}
use job_search.Apportion.{sum_of, sort_by, seat}
use job_search.Manifest.Categories.{AiCategory, categories, value_order, larger_first}

pub record QuotaAllocation : Type 0 where
  pub total : ℕ
  pub counts : AiCategory → ℕ
  pub floor : AiCategory → ℕ
  pub proportional : AiCategory → ℕ
  pub final : AiCategory → ℕ

-- `__post_init__`.
pub validate_allocation : QuotaAllocation → Outcome QuotaAllocation
validate_allocation q =
    if not (sum_of q.final categories == q.total)
    then raised "final quota must equal the requested total"
    else if any_of (λ c. not ((q.floor c + q.proportional c) == q.final c)) categories
    then raised "final quota must equal floor plus proportional seats"
    else returned q

module _ (counts : AiCategory → ℕ) (total : ℕ) where
  unfoldable pub floor_total : ℕ
  floor_total = total * 2 / 5

  -- The floor of a category: an equal part, and one more for the largest categories.
  unfoldable pub floor_quota : AiCategory → ℕ
  floor_quota c =
      floor_total / 9
      + seat value_order (floor_total % 9) (sort_by (larger_first counts) categories) c

  pub proportional_total : ℕ
  proportional_total = total - floor_total

  pub remaining_count : AiCategory → ℕ
  remaining_count c = counts c - floor_quota c

  abbrev pub total_remaining : ℕ
  total_remaining = sum_of remaining_count categories

  abbrev pub base_seats : AiCategory → ℕ
  base_seats c = remaining_count c * proportional_total / total_remaining

  abbrev pub seat_remainder : AiCategory → ℕ
  seat_remainder c = remaining_count c * proportional_total % total_remaining

  abbrev pub leftover_seats : ℕ
  leftover_seats = proportional_total - sum_of base_seats categories

  pub proportional_quota : AiCategory → ℕ
  proportional_quota c =
      base_seats c
      + seat value_order leftover_seats (sort_by (larger_first seat_remainder) categories) c

  pub final_quota : AiCategory → ℕ
  final_quota c = floor_quota c + proportional_quota c

  pub allocate_quotas : Outcome QuotaAllocation
  allocate_quotas = do
    require (ltb 0 total) "quota total must be a positive integer"
    require (total % 5 == 0) "quota total must be divisible by 5"
    require (not (ltb (sum_of counts categories) total))
        "candidate pool cannot fill requested total"
    require (not (any_of (λ c. ltb (counts c) (floor_quota c)) categories))
        "category floor shortage"
    require (not (any_of (λ c. ltb (counts c) (final_quota c)) categories))
        "candidate pool cannot fill allocated quota"
    validate_allocation (record {
      total = total;
      counts = counts;
      floor = floor_quota;
      proportional = proportional_quota;
      final = final_quota;
    })
