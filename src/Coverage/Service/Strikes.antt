-- ===== src/Coverage/Service/Strikes.antt =====
-- When a source is deactivated (`_DEACTIVATION_MISSING_THRESHOLD` of
-- backend/app/ingestion/coverage/service.py).
use job_search.Base.{ℕ, ◌≡◌, ap, ◌∙◌, true, false, List, [], ◌∷◌, map, arith, All}
use job_search.Coverage.Models.{JobSource}
use job_search.Coverage.Contracts.{RecordJobSnapshot}
use job_search.Coverage.Service.{of_entry, seen, mark_seen, mark_missing, apply_complete_snapshot}
use job_search.Coverage.Service.Lifecycle.{visit, apply_complete_snapshot_lem}

module _ (c c' : RecordJobSnapshot) (id id' : ℕ) where
  abbrev pub after_both : List JobSource → List JobSource
  after_both xs = (apply_complete_snapshot c' id' (apply_complete_snapshot c id xs).0).0

  after_both_lem : (xs : List JobSource) → after_both xs ≡ map (visit c' id') (map (visit c id) xs)
  after_both_lem xs =
      ap (λ p. p.0) (apply_complete_snapshot_lem c' id' (apply_complete_snapshot c id xs).0)
      ∙ ap (λ t. map (visit c' id') t.0) (apply_complete_snapshot_lem c id xs)

  -- Two complete snapshots of an entry in a row that do not list a source leave it inactive.
  pub two_absences_deactivate :
      (xs : List JobSource)
      → All
          (λ s.
            of_entry c s ≡ true
            → of_entry c' s ≡ true
            → seen c s ≡ false
            → seen c' s ≡ false
            → s.is_active ≡ false)
          (after_both xs)
  two_absences_deactivate xs = rw (after_both_lem xs) (go xs)
    where
      one :
          (s : JobSource)
          → of_entry c (visit c' id' (visit c id s)) ≡ true
          → of_entry c' (visit c' id' (visit c id s)) ≡ true
          → seen c (visit c' id' (visit c id s)) ≡ false
          → seen c' (visit c' id' (visit c id s)) ≡ false
          → (visit c' id' (visit c id s)).is_active ≡ false
      one s = unfold visit of_entry seen mark_seen mark_missing in ground arith

      go :
          (ys : List JobSource)
          → All
              (λ s.
                of_entry c s ≡ true
                → of_entry c' s ≡ true
                → seen c s ≡ false
                → seen c' s ≡ false
                → s.is_active ≡ false)
              (map (visit c' id') (map (visit c id) ys))
      go [] = tt
      go (s ∷ ys) = (one s, go ys)

  -- One absence is forgiven: a source that the first snapshot lists is active after the second.
  pub one_absence_forgiven :
      (xs : List JobSource)
      → All (λ s. of_entry c s ≡ true → seen c s ≡ true → s.is_active ≡ true) (after_both xs)
  one_absence_forgiven xs = rw (after_both_lem xs) (go xs)
    where
      one :
          (s : JobSource)
          → of_entry c (visit c' id' (visit c id s)) ≡ true
          → seen c (visit c' id' (visit c id s)) ≡ true
          → (visit c' id' (visit c id s)).is_active ≡ true
      one s = unfold visit of_entry seen mark_seen mark_missing in ground arith

      go :
          (ys : List JobSource)
          → All
              (λ s. of_entry c s ≡ true → seen c s ≡ true → s.is_active ≡ true)
              (map (visit c' id') (map (visit c id) ys))
      go [] = tt
      go (s ∷ ys) = (one s, go ys)
