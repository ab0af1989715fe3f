-- ===== src/Manifest/Members/Quotas.antt =====
-- What `select_manifest_members` of backend/app/manifest/allocation.py returns.
use job_search.Base.{
  any_item, count_of-any, ℕ, ◌≤◌, ◌≡◌, refl, sym, ap, ◌∙◌, inl, inr, Bool, true, false, List, [],
  ◌∷◌, map, keep, all_of, count_of, String, Outcome, length, length-take, length-keep,
  length-keep-le, take, leb, ◌==◌, ==_iff, All, arith, returned, Bool-cases, if◌then◌else◌,
}
use job_search.Apportion.{sum_of}
use job_search.Apportion.Sorting.{sum_of-sort_by}
use job_search.Manifest.Categories.{
  AiCategory, categories, value_order, value_order_injective, foundation_models,
  ai_cloud_model_platforms, ai_chips_compute, autonomous_driving_transport, robotics_embodied_ai,
  computer_vision_imaging, speech_language_technology, enterprise_vertical_ai,
  data_infrastructure_mlops,
}
use job_search.Manifest.Allocation.{QuotaAllocation, allocate_quotas}
use job_search.Manifest.Allocation.Totals.{
  quotas, allocate_quotas_returns, final_quota-le, sum_of-final_quota, allocate_quotas-IsFillable,
}
use job_search.Manifest.Members.{
  ResolvedCandidate, ManifestMemberData, has_repeats, of_category, diversity_order, ordered_in,
  selected_in, category_order, interleave, select_manifest_members,
}
use job_search.Manifest.Members.Diversity.{count_of-diversity_order, sum_of-map, sum_of-ext}
use job_search.Manifest.Members.Rounds.{
  count_up, fewer, missing, HasTaken-start, interleave-Interleaved,
}
use job_search.Manifest.Members.Validation.{is_valid}
use job_search.Manifest.Members.Selection.{all_of-selected}

abbrev pub in_category : AiCategory → ManifestMemberData → Bool
in_category c m = value_order m.company.primary_category == value_order c

count_of-keep_same :
    (c : AiCategory) (xs : List ResolvedCandidate)
    → count_of (of_category c) (keep (of_category c) xs) ≡ count_of (of_category c) xs
count_of-keep_same c [] = refl
count_of-keep_same c (x ∷ xs) = ground (arith, count_of-keep_same c xs)

count_of-keep_other :
    (c d : AiCategory) (xs : List ResolvedCandidate)
    → (value_order c == value_order d) ≡ false
    → count_of (of_category d) (keep (of_category c) xs) ≡ 0
count_of-keep_other c d [] h = refl
count_of-keep_other c d (x ∷ xs) h = ground (arith, count_of-keep_other c d xs h)

count_of-le_length :
    (p : ResolvedCandidate → Bool) (xs : List ResolvedCandidate) → count_of p xs ≤ length xs
count_of-le_length p xs = omega (arith, length-keep p xs, length-keep-le p xs)

-- The quota of one category, and nothing of the others.
abbrev share : QuotaAllocation → AiCategory → AiCategory → ℕ
share q d c = if value_order c == value_order d then q.final c else 0

sum_of-share : (q : QuotaAllocation) (d : AiCategory) → sum_of (share q d) categories ≡ q.final d
sum_of-share q foundation_models = omega arith
sum_of-share q ai_cloud_model_platforms = omega arith
sum_of-share q ai_chips_compute = omega arith
sum_of-share q autonomous_driving_transport = omega arith
sum_of-share q robotics_embodied_ai = omega arith
sum_of-share q computer_vision_imaging = omega arith
sum_of-share q speech_language_technology = omega arith
sum_of-share q enterprise_vertical_ai = omega arith
sum_of-share q data_infrastructure_mlops = omega arith

all_of-every {ℓ} :
    {A : Type ℓ} (p : A → Bool) (xs : List A) → ((a : A) → p a ≡ true) → all_of p xs ≡ true
all_of-every p [] h = refl
all_of-every p (x ∷ xs) h = ground (arith, h x, all_of-every p xs h)

module _ (read_url : String → Outcome String) (candidates : List ResolvedCandidate)
    (q : QuotaAllocation)
    (enough : (c : AiCategory) → q.final c ≤ count_of (of_category c) candidates) where
  length-ordered_in :
      (c : AiCategory) → length (ordered_in candidates q c) ≡ count_of (of_category c) candidates
  unfolding ordered_in
  length-ordered_in c =
      sym (count_of-any (diversity_order (keep (of_category c) candidates)))
      ∙ count_of-diversity_order any_item (keep (of_category c) candidates)
      ∙ count_of-any (keep (of_category c) candidates)
      ∙ length-keep (of_category c) candidates

  length-selected_in : (c : AiCategory) → length (selected_in candidates q c) ≡ q.final c
  unfolding selected_in
  length-selected_in c =
      omega
        (arith, length-take (q.final c) (ordered_in candidates q c), length-ordered_in c, enough c)

  count_of-own :
      (c : AiCategory) → count_of (of_category c) (selected_in candidates q c) ≡ q.final c
  unfolding selected_in ordered_in
  count_of-own c =
      let ordered = diversity_order (keep (of_category c) candidates) in
      omega (
        arith,
        count_of-diversity_order (of_category c) (keep (of_category c) candidates),
        count_of-keep_same c candidates,
        missing read_url (of_category c) (in_category c) (λ n x. refl) (q.final c) (ordered ∷ []),
        length-ordered_in c,
        length-selected_in c,
        count_of-le_length (of_category c) (take (q.final c) ordered),
      )

  count_of-selected_in :
      (d c : AiCategory) → count_of (of_category d) (selected_in candidates q c) ≡ share q d c
  unfolding selected_in ordered_in
  count_of-selected_in d c = elim (Bool-cases (value_order c == value_order d)) [
    | inl e ↦ rw e (
        let same = value_order_injective c d ((==_iff (value_order c) (value_order d)).0 e) in
        rw (← same) (count_of-own c))
    | inr e ↦ rw e (
        let none = count_of-diversity_order (of_category d) (keep (of_category c) candidates) in
        omega (
          arith,
          none,
          count_of-keep_other c d candidates e,
          fewer read_url (of_category d) (in_category d) (λ n x. refl) (q.final c)
              (diversity_order (keep (of_category c) candidates) ∷ []),
        ))
  ]

  abbrev selected_lists : List (List ResolvedCandidate)
  selected_lists = map (selected_in candidates q) (category_order candidates q)

  -- Sums over the order of the loop are sums over the categories.
  selected_sum :
      (g : List ResolvedCandidate → ℕ) (f : AiCategory → ℕ)
      → ((c : AiCategory) → g (selected_in candidates q c) ≡ f c)
      → sum_of g selected_lists ≡ sum_of f categories
  selected_sum g f h =
      sum_of-map g (selected_in candidates q) (category_order candidates q)
      ∙ sum_of-ext (λ c. g (selected_in candidates q c)) f (category_order candidates q) h
      ∙ sum_of-sort_by f _ categories

  members_of_category :
      (d : AiCategory) → sum_of (count_of (of_category d)) selected_lists ≡ q.final d
  members_of_category d =
      selected_sum (count_of (of_category d)) (share q d) (count_of-selected_in d)
      ∙ sum_of-share q d

  selected_are_enough :
      all_of (λ c. leb (q.final c) (length (ordered_in candidates q c))) categories ≡ true
  selected_are_enough =
      all_of-every (λ c. leb (q.final c) (length (ordered_in candidates q c))) categories
        (λ c. ground (arith, length-ordered_in c, enough c))

  -- If no company stands twice, all candidates are valid, the quotas add up to the total, which is a
  -- thousand at most, and each category has candidates for its quota, then members are returned: their
  -- positions are the numbers from one to the total, and each category has as many members as its quota.
  select_manifest_members_fills :
      has_repeats (map (λ c. c.company_id) candidates) ≡ false
      → all_of (is_valid read_url) candidates ≡ true
      → q.total ≤ 1000
      → sum_of q.final categories ≡ q.total
      → (members : List ManifestMemberData) × (select_manifest_members candidates q read_url
          ≡ returned members)
        × (map (λ m. m.position) members ≡ count_up q.total)
        × ((c : AiCategory) → count_of (in_category c) members ≡ q.final c)
  unfolding select_manifest_members
  select_manifest_members_fills distinct valid small total =
      let lengths : sum_of length selected_lists ≡ q.total =
        selected_sum length q.final length-selected_in ∙ total in
      let done =
        interleave-Interleaved read_url q.total 0 selected_lists [] (omega (arith, small, lengths))
          (all_of-selected candidates q (is_valid read_url) (category_order candidates q) valid)
          (HasTaken-start read_url selected_lists) (omega (arith, lengths)) in
      (
        done.members,
        rw (distinct, selected_are_enough)
            (sym (ap (λ t. interleave read_url q.total 0 t selected_lists []) lengths)
              ∙ done.answered),
        done.numbered ∙ ap count_up lengths,
        λ c. done.counts (of_category c) (in_category c) (λ n x. refl) ∙ members_of_category c,
      )

every_category {κ} : (P : AiCategory → Type κ) → All P categories → (c : AiCategory) → P c
every_category P h foundation_models = h.0
every_category P h ai_cloud_model_platforms = h.1.0
every_category P h ai_chips_compute = h.1.1.0
every_category P h autonomous_driving_transport = h.1.1.1.0
every_category P h robotics_embodied_ai = h.1.1.1.1.0
every_category P h computer_vision_imaging = h.1.1.1.1.1.0
every_category P h speech_language_technology = h.1.1.1.1.1.1.0
every_category P h enterprise_vertical_ai = h.1.1.1.1.1.1.1.0
every_category P h data_infrastructure_mlops = h.1.1.1.1.1.1.1.1.0

abbrev pub pool_of : List ResolvedCandidate → AiCategory → ℕ
pool_of candidates c = count_of (of_category c) candidates

module _ (read_url : String → Outcome String) (candidates : List ResolvedCandidate) (total : ℕ)
    (q : QuotaAllocation) where
  -- If no company stands twice, each candidate has a name of 1 to 200 characters and URLs that can be read,
  -- the total is a thousand at most, and quotas were allocated for the candidates, then members are
  -- returned: their positions are the numbers from one to the total, and each category has as many members
  -- as its quota. No shortage is found, no member fails its validation, and the loop ends.
  pub allocated_members :
      has_repeats (map (λ c. c.company_id) candidates) ≡ false
      → all_of (is_valid read_url) candidates ≡ true
      → total ≤ 1000
      → allocate_quotas (pool_of candidates) total ≡ returned q
      → (members : List ManifestMemberData) × (select_manifest_members candidates q read_url
          ≡ returned members)
        × (map (λ m. m.position) members ≡ count_up total)
        × ((c : AiCategory) → count_of (in_category c) members ≡ q.final c)
  allocated_members distinct valid small allocated =
      let fillable = allocate_quotas-IsFillable (pool_of candidates) total q allocated in
      let made = quotas (pool_of candidates) total fillable in
      let returns = allocate_quotas_returns (pool_of candidates) total fillable in
      let both : returned made ≡ returned q = sym returns ∙ allocated in
      let same : made ≡ q = cc in
      rw (← same) (
        select_manifest_members_fills read_url candidates made
          (every_category (λ c. made.final c ≤ pool_of candidates c)
            (final_quota-le (pool_of candidates) total fillable))
          distinct valid small (sum_of-final_quota (pool_of candidates) total fillable))
