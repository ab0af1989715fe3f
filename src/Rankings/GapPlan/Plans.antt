-- ===== src/Rankings/GapPlan/Plans.antt =====
-- What the plan of backend/app/rankings/gap_plan.py asks for.
use job_search.Base.{
  ◌≤◌, String, ◌≡◌, refl, ◌↔◌, ◌⊎◌, inl, inr, Bool, true, false, not, List, [], ◌∷◌, keep, length,
  length-keep-le, arith, Bool-cases,
}
use job_search.Rankings.GapPlan.{
  EnrichmentCategory, growth, intellectual_property, market_validation, material_risk, cache_key,
  all_categories, Candidate, is_in, plan_ranking_enrichment,
}

abbrev pub Planned : EnrichmentCategory → List EnrichmentCategory → Type 0
Planned c [] = ⊥
Planned c (d ∷ ds) = (d ≡ c) ⊎ Planned c ds

Planned-keep :
    (p : EnrichmentCategory → Bool) (c : EnrichmentCategory) (cs : List EnrichmentCategory)
    → Planned c (keep p cs) ↔ ((p c ≡ true) × Planned c cs)
Planned-keep p c [] = ((λ h. absurd h), (λ h. h.1))
Planned-keep p c (d ∷ ds) =
    let rest = Planned-keep p c ds in
    elim (Bool-cases (p d)) [
      | inl e ↦ rw e (
        (λ h. elim h [ inl x ↦ (rw x at e, inl x) | inr y ↦ ((rest.0 y).0, inr (rest.0 y).1) ]),
        (λ h. elim h.1 [ inl x ↦ inl x | inr y ↦ inr (rest.1 (h.0, y)) ]),
      )
      | inr e ↦ rw e (
        (λ h. ((rest.0 h).0, inr (rest.0 h).1)),
        (λ h. elim h.1 [ inl x ↦ absurd (ground (arith, e, h.0, x)) | inr y ↦ rest.1 (h.0, y) ]),
      )
    ]

every_category : (c : EnrichmentCategory) → Planned c all_categories
every_category growth = inl refl
every_category intellectual_property = inr (inl refl)
every_category market_validation = inr (inr (inl refl))
every_category material_risk = inr (inr (inr (inl refl)))

-- A category is planned exactly if its key is not among the fresh ones, and at most four are.
pub plan_ranking_enrichment_lem :
    (candidate : Candidate) (fresh : List String)
    → let plan = plan_ranking_enrichment candidate fresh in
      ((c : EnrichmentCategory) → Planned c plan.categories ↔ (is_in (cache_key c) fresh ≡ false))
      × (length plan.categories ≤ 4)
unfolding plan_ranking_enrichment
plan_ranking_enrichment_lem candidate fresh =
    let kept = λ (c : EnrichmentCategory). not (is_in (cache_key c) fresh) in
    (
      (λ c. (
        (λ h. ground (arith, ((Planned-keep kept c all_categories).0 h).0)),
        (λ h. (Planned-keep kept c all_categories).1 (ground (arith, h), every_category c)),
      )),
      length-keep-le kept all_categories,
    )
