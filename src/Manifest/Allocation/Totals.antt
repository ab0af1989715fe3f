-- ===== src/Manifest/Allocation/Totals.antt =====
-- What `allocate_quotas` of backend/app/manifest/allocation.py promises of its quotas.
use job_search.Base.{
  require-passed, ==_iff, ◌↔◌, ℕ, ◌+◌, ◌-◌, ◌*◌, ◌/◌, ◌%◌, ◌≤◌, ◌<◌, ◌≡◌, refl, Bool, true, false,
  not, List, [], ◌∷◌, All, any_of, ltb, ◌==◌, returned, arith,
}
use job_search.Apportion.{sum_of, sort_by, seat, HasDistinctCodes}
use job_search.Apportion.Sorting.{
  All-map, sum_of-add, sum_of-cong, sum_of-sort_by, sum_of-seat, sort_by-HasDistinctCodes,
  length-sort_by,
}
use job_search.Apportion.Remainders.{PutsLargerFirst, sum_of-share, share-le-weight}
use job_search.Manifest.Categories.{
  AiCategory, categories, value_order, larger_first, value_order_injective,
}
use job_search.Manifest.Allocation.{
  QuotaAllocation, validate_allocation, floor_total, floor_quota, proportional_total,
  remaining_count, total_remaining, seat_remainder, proportional_quota, final_quota,
  allocate_quotas,
}

categories-HasDistinctCodes : HasDistinctCodes value_order categories
categories-HasDistinctCodes =
    (refl, (refl, (refl, (refl, (refl, (refl, (refl, (refl, (refl, tt)))))))))

larger_first-PutsLargerFirst : (key : AiCategory → ℕ) → PutsLargerFirst key (larger_first key)
larger_first-PutsLargerFirst key = record {
  goes_first = λ x a h. ground (arith, h);
  goes_later = λ x a h. ground (arith, h);
}

-- What a request has to meet: a positive total that five divides, enough candidates, and enough in each
-- category for its floor.
pub record IsFillable (counts : AiCategory → ℕ) (total : ℕ) : Type 0 where
  pub positive : 0 < total
  pub divisible : total % 5 ≡ 0
  pub enough : total ≤ sum_of counts categories
  pub floors : All (λ c. floor_quota counts total c ≤ counts c) categories

none_short_iff :
    (f g : AiCategory → ℕ) (cs : List AiCategory)
    → (any_of (λ c. ltb (f c) (g c)) cs ≡ false) ↔ All (λ c. g c ≤ f c) cs
none_short_iff f g [] = ((λ h. tt), (λ h. refl))
none_short_iff f g (c ∷ cs) =
    let rest = none_short_iff f g cs in
    ((λ h. (ground (arith, h), rest.0 (ground (arith, h)))), (λ h. ground (arith, h.0, rest.1 h.1)))

parts_add_up :
    (f g : AiCategory → ℕ) (cs : List AiCategory)
    → any_of (λ c. not ((f c + g c) == (f c + g c))) cs ≡ false
parts_add_up f g [] = refl
parts_add_up f g (c ∷ cs) = ground (arith, parts_add_up f g cs)

not-true : {b : Bool} → not b ≡ true → b ≡ false
not-true {b} h = ground (arith, h)

module _ (counts : AiCategory → ℕ) (total : ℕ) where
  sum_of-floor_quota : sum_of (floor_quota counts total) categories ≡ floor_total counts total
  unfolding floor_quota
  sum_of-floor_quota =
      let order = sort_by (larger_first counts) categories in
      let extra = seat value_order (floor_total counts total % 9) order in
      omega (
        arith,
        sum_of-add (λ c. floor_total counts total / 9) extra categories,
        sum_of-sort_by extra (larger_first counts) categories,
        sum_of-seat value_order (floor_total counts total % 9) order (
            sort_by-HasDistinctCodes value_order (larger_first counts) categories
              categories-HasDistinctCodes),
        length-sort_by (larger_first counts) categories,
      )

  module _ (fillable : IsFillable counts total) where
    sum_of-remaining_count :
        total_remaining counts total ≡ sum_of counts categories - floor_total counts total
    unfolding remaining_count
    sum_of-remaining_count = omega (
      arith,
      sum_of-add (remaining_count counts total) (floor_quota counts total) categories,
      sum_of-cong (λ c. remaining_count counts total c + floor_quota counts total c) counts
          categories
          (All-map (λ c. floor_quota counts total c ≤ counts c)
            (λ c. remaining_count counts total c + floor_quota counts total c ≡ counts c) categories
            (λ c h. omega arith) fillable.floors),
      sum_of-floor_quota,
    )

    -- There is a proportional seat, and a remaining candidate for each.
    proportional_total_bounds :
        (0 < proportional_total counts total)
        × (proportional_total counts total ≤ total_remaining counts total)
    unfolding proportional_total floor_total
    proportional_total_bounds =
        (omega (arith, fillable.positive), omega (arith, sum_of-remaining_count, fillable.enough))

    some_remaining : 0 < total_remaining counts total
    some_remaining = omega (arith, proportional_total_bounds.0, proportional_total_bounds.1)

    sum_of-proportional_quota :
        sum_of (proportional_quota counts total) categories ≡ proportional_total counts total
    unfolding proportional_quota
    sum_of-proportional_quota =
        sum_of-share value_order (remaining_count counts total) (proportional_total counts total)
          categories (larger_first (seat_remainder counts total)) some_remaining
          categories-HasDistinctCodes

    proportional_quota-le :
        (c : AiCategory) → proportional_quota counts total c ≤ remaining_count counts total c
    unfolding proportional_quota
    proportional_quota-le c =
        share-le-weight value_order (remaining_count counts total) (proportional_total counts total)
          categories (larger_first (seat_remainder counts total)) some_remaining
          (larger_first-PutsLargerFirst (seat_remainder counts total)) value_order_injective
          proportional_total_bounds.1 c

    pub sum_of-final_quota : sum_of (final_quota counts total) categories ≡ total
    unfolding final_quota proportional_total floor_total
    sum_of-final_quota = omega (
      arith,
      sum_of-add (floor_quota counts total) (proportional_quota counts total) categories,
      sum_of-floor_quota,
      sum_of-proportional_quota,
    )

    pub final_quota-le : All (λ c. final_quota counts total c ≤ counts c) categories
    unfolding final_quota remaining_count
    final_quota-le =
        All-map (λ c. floor_quota counts total c ≤ counts c)
          (λ c. final_quota counts total c ≤ counts c) categories
          (λ c h. omega (arith, proportional_quota-le c)) fillable.floors

    abbrev pub quotas : QuotaAllocation
    quotas = record {
      total = total;
      counts = counts;
      floor = floor_quota counts total;
      proportional = proportional_quota counts total;
      final = final_quota counts total;
    }

    validated : validate_allocation quotas ≡ returned quotas
    unfolding validate_allocation final_quota
    validated =
        rw ((==_iff (sum_of (final_quota counts total) categories) total).1 sum_of-final_quota) (
          rw (parts_add_up (floor_quota counts total) (proportional_quota counts total) categories)
            refl)

    pub allocate_quotas_returns : allocate_quotas counts total ≡ returned quotas
    unfolding allocate_quotas
    allocate_quotas_returns =
        let short =
          (none_short_iff counts (floor_quota counts total) categories).1 fillable.floors in
        let over = (none_short_iff counts (final_quota counts total) categories).1 final_quota-le in
        let t1 : ltb 0 total ≡ true = ground (arith, fillable.positive) in
        let t2 : (total % 5 == 0) ≡ true = ground (arith, fillable.divisible) in
        let t3 : ltb (sum_of counts categories) total ≡ false = ground (arith, fillable.enough) in
        rw t1 (rw t2 (rw t3 (rw short (rw over validated))))

    floor_quota-le-final :
        All (λ c. floor_quota counts total c ≤ final_quota counts total c) categories
    unfolding final_quota
    floor_quota-le-final =
        All-map (λ c. floor_quota counts total c ≤ counts c)
          (λ c. floor_quota counts total c ≤ final_quota counts total c) categories
          (λ c h. omega arith) fillable.floors

    -- A request that can be filled is: the quotas that are returned add up to the total, two fifths of
    -- which are floors, and no category gets more than it has candidates or less than its floor. None of
    -- the later checks of the code fails.
    pub allocate_quotas_fills :
        (q : QuotaAllocation) × (allocate_quotas counts total ≡ returned q)
        × (sum_of q.final categories ≡ total)
        × (sum_of q.floor categories ≡ total * 2 / 5)
        × All (λ c. q.final c ≤ counts c) categories
        × All (λ c. q.floor c ≤ q.final c) categories
    unfolding floor_total
    allocate_quotas_fills = (
      quotas, allocate_quotas_returns, sum_of-final_quota, sum_of-floor_quota, final_quota-le,
      floor_quota-le-final,
    )

  -- If quotas are returned, then the request can be filled: the total is positive, five divides it, there
  -- are enough candidates, and enough in each category for its floor. Any other request is refused.
  pub allocate_quotas-IsFillable :
      (q : QuotaAllocation) → allocate_quotas counts total ≡ returned q → IsFillable counts total
  unfolding allocate_quotas
  allocate_quotas-IsFillable q h =
      let (t1, h1) = require-passed (ltb 0 total) _ _ h in
      let (t2, h2) = require-passed (total % 5 == 0) _ _ h1 in
      let (t3, h3) = require-passed (not (ltb (sum_of counts categories) total)) _ _ h2 in
      let (t4, h4) =
        require-passed (not (any_of (λ c. ltb (counts c) (floor_quota counts total c)) categories))
          _ _ h3 in
      record {
        positive = ground (arith, t1);
        divisible = ground (arith, t2);
        enough = ground (arith, t3);
        floors = (none_short_iff counts (floor_quota counts total) categories).0 (not-true t4);
      }
