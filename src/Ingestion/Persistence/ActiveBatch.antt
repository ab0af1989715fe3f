-- ===== src/Ingestion/Persistence/ActiveBatch.antt =====
-- `_upsert_jobs` of `PersistenceService` (backend/app/ingestion/persistence/service.py) as a whole.
use job_search.Base.{
  contains, inl, inr, Bool-cases, ℕ, ◌==◌, ◌≡◌, refl, false, ◌||◌, List, [], ◌∷◌, any_of, String,
  arith,
}
use job_search.Ingestion.Persistence.{Tables, Externals}
use job_search.Ingestion.Persistence.Contracts.{NormalizedJobRecord}
use job_search.Ingestion.Persistence.Jobs.{get_posting}
use job_search.Ingestion.Persistence.JobLoop.{
  is_active_source, upsert_job, upsert_each, add_id, recompute_activity, recompute_activities,
  upsert_jobs,
}
use job_search.Ingestion.Persistence.Endings.{Ends, Ends_anyhow, Ends-continue_with, Ends-or_fail}
use job_search.Ingestion.Persistence.Activity.{Agrees, shown_activity-change_first}
use job_search.Ingestion.Persistence.ActiveSources.{upsert_job-Ends}

contains-add_id :
    (id : ℕ) (ids : List ℕ) (j : ℕ) → contains (add_id id ids) j ≡ id == j || contains ids j
contains-add_id id ids j = elim (Bool-cases (id == j)) [
  | inl e ↦ let same : id ≡ j = ground arith in rw (same) (ground arith)
  | inr e ↦ ground arith
]

module _ (j : ℕ) where
  -- Only the postings of these ids may disagree.
  abbrev AgreesOutside : List ℕ → Tables → Type 0
  AgreesOutside ids t = contains ids j ≡ false → Agrees j t

  recompute_activity-Ends :
      (id : ℕ) (ids : List ℕ) (t : Tables)
      → AgreesOutside (id ∷ ids) t
      → Ends (recompute_activity id t) (λ done t'. AgreesOutside ids t')
  unfolding recompute_activity Agrees
  recompute_activity-Ends id ids t agrees =
      Ends-or_fail (get_posting id t) "canonical job disappeared during persistence" _ t (λ job e.
        record {
          ended = λ outside.
              shown_activity-change_first j id (any_of (is_active_source id) t.sources) t.postings
                (any_of (is_active_source j) t.sources) (λ same. rw same refl)
                (λ other. agrees (ground (arith, outside)));
        })

  recompute_activities-Ends :
      (ids : List ℕ) (t : Tables)
      → AgreesOutside ids t
      → Ends (recompute_activities ids t) (λ done t'. Agrees j t')
  unfolding recompute_activities
  recompute_activities-Ends [] t agrees = record { ended = agrees refl }
  recompute_activities-Ends (id ∷ ids) t agrees =
      Ends-continue_with (recompute_activity id t) _ (recompute_activity-Ends id ids t agrees)
        (λ done t' h. recompute_activities-Ends ids t' h)

  module _ (ext : Externals) (calm : (t : Tables) → Agrees j t → Agrees j (ext.rival t))
      (company_id : ℕ) (documents : List (String × ℕ)) where
    upsert_each-Ends :
        (items : List NormalizedJobRecord) (ids : List ℕ) (t : Tables)
        → AgreesOutside ids t
        → Ends (upsert_each ext company_id documents items ids t) AgreesOutside
    unfolding upsert_each
    upsert_each-Ends [] ids t agrees = record { ended = agrees }
    upsert_each-Ends (item ∷ items) ids t agrees = elim (Bool-cases (contains ids j)) [
      | inl inside ↦
          Ends-continue_with (upsert_job ext company_id documents item t) _
            (Ends_anyhow (upsert_job ext company_id documents item t))
            (λ id t' h.
              upsert_each-Ends items (add_id id ids) t'
                (λ outside. ground (arith, contains-add_id id ids j)))
      | inr outside ↦
          Ends-continue_with (upsert_job ext company_id documents item t) _
            (upsert_job-Ends j ext calm company_id documents item t (agrees outside))
            (λ id t' h.
              upsert_each-Ends items (add_id id ids) t'
                (λ still. h (ground (arith, contains-add_id id ids j))))
    ]

    -- The whole loop, for one posting.
    pub upsert_jobs-Ends :
        (items : List NormalizedJobRecord) (t : Tables)
        → Agrees j t
        → Ends (upsert_jobs ext company_id documents items t) (λ result t'. Agrees j t')
    unfolding upsert_jobs
    upsert_jobs-Ends items t agrees =
        Ends-continue_with (upsert_each ext company_id documents items [] t) _
          (upsert_each-Ends items [] t (λ outside. agrees))
          (λ ids t1 h1.
            Ends-continue_with (recompute_activities ids t1) _ (recompute_activities-Ends ids t1 h1)
              (λ done t2 h2. record { ended = h2 }))
