-- ===== src/Ingestion/Persistence/ActiveJobs.antt =====
-- `_upsert_jobs` of `PersistenceService` (backend/app/ingestion/persistence/service.py), record by record:
-- what it leaves of the agreement between a posting and its sources.
use job_search.Base.{
  first, inl, inr, Option-cases, ℕ, ◌==◌, ◌≡◌, ◌≢◌, refl, ap, ◌∙◌, Bool, true, false, not, Option,
  none, some, List, [], ◌∷◌, ◌++◌, any_of, String, arith,
}
use job_search.Ingestion.DirectAts.{JobPosting, JobSource}
use job_search.Ingestion.Persistence.{Tables, Externals, or_fail, demand, pure, modify, ◌>>◌}
use job_search.Ingestion.Persistence.Contracts.{NormalizedJobRecord}
use job_search.Ingestion.Persistence.Conflicts.{change}
use job_search.Ingestion.Persistence.Jobs.{
  compatible_types, posting_model, agrees_with, merged_job, belongs, get_posting, merge_job,
  owned_posting, resolve_job, stored_job, new_job,
}
use job_search.Ingestion.Persistence.JobLoop.{
  is_active_source, delete_posting, drop_created, winner_job,
}
use job_search.Ingestion.Persistence.Endings.{Ends, Ends-continue_with, Ends-demand}
use job_search.Ingestion.Persistence.Activity.{
  Agrees, shown_activity-append, shown_activity-merged_job, shown_activity-keep,
}

-- A row that is found passes the test.
pub first-passes :
    {A : Type 0} (p : A → Bool) (xs : List A) (x : A) → first p xs ≡ some x → p x ≡ true
unfolding first
first-passes p [] x e = cc
first-passes p (y ∷ xs) x e = ground (arith, first-passes p xs x)

module _ (j : ℕ) where
  merge_job-Ends :
      (job : JobPosting) (item : NormalizedJobRecord) (t : Tables)
      → Ends
          (merge_job job item t)
          (λ done t'. (t'.sources ≡ t.sources) × (Agrees j t → Agrees j t'))
  unfolding merge_job Agrees
  merge_job-Ends job item t =
      Ends-demand (compatible_types job.job_type item.candidate.job_type)
        "incompatible canonical job type"
        (λ done. change posting_model (λ p. p.id == job.id) (merged_job item)) t
        (λ compatible. record {
          ended = (refl, λ agrees. shown_activity-merged_job j job.id item t.postings _ ∙ agrees);
        })

  owned_posting-Ends :
      (company_id id : ℕ) (message : String) (t : Tables)
      → Ends (owned_posting company_id id message t) (λ p t'. (t' ≡ t) × (p.id ≡ id))
  unfolding owned_posting
  owned_posting-Ends company_id id message t =
      Ends-demand (belongs company_id (get_posting id t)) message
        (λ done. or_fail (get_posting id t) message) t (λ owned. found-Ends (get_posting id t) refl)
    where
      found-Ends :
          (found : Option JobPosting)
          → get_posting id t ≡ found
          → Ends (or_fail found message t) (λ p t'. (t' ≡ t) × (p.id ≡ id))
      found-Ends none e = record { ended = tt }
      found-Ends (some p) e = record {
        ended = (refl, ground (arith, first-passes (λ p. p.id == id) t.postings p e));
      }

  -- The job of a source is the source's.
  pub resolve_job-Ends :
      (company_id : ℕ) (item : NormalizedJobRecord) (source : Option JobSource) (t : Tables)
      → Ends (resolve_job company_id item source t) (λ found t'.
        (t' ≡ t)
        × ((s : JobSource)
            → source ≡ some s
            → (p : JobPosting) × (found ≡ some p) × (p.id ≡ s.job_posting_id)))
  unfolding resolve_job
  resolve_job-Ends company_id item (some source) t =
      Ends-continue_with
        (owned_posting company_id source.job_posting_id "job source belongs to another company" t)
        (λ job.
          demand (agrees_with item.job_posting_id job.id)
            "job source conflicts with the resolved canonical job"
          >> pure (some job))
        (owned_posting-Ends company_id source.job_posting_id _ t)
        (λ job t' h.
          Ends-demand (agrees_with item.job_posting_id job.id)
            "job source conflicts with the resolved canonical job" (λ done. pure (some job)) t'
            (λ agrees. record {
              ended = (h.0, λ s e. (job, refl, let same : source ≡ s = cc in rw (← same) (h.1)));
            }))
  resolve_job-Ends company_id item none t = elim (Option-cases item.job_posting_id) [
    | inl unknown ↦ rw unknown (record { ended = (refl, λ s e. cc) })
    | inr (id, known) ↦ rw known (
        Ends-continue_with
          (owned_posting company_id id "canonical job does not belong to the persisted company" t)
          (λ job. pure (some job)) (owned_posting-Ends company_id id _ t)
          (λ job t' h. record { ended = (h.0, λ s e. cc) }))
  ]

  -- What is left of the agreement while a posting is new.
  unfoldable pub AgreesBut : ℕ × Bool → Tables → Type 0
  AgreesBut job t = (job.1 ≡ true → job.0 ≢ j) → Agrees j t

  added-Agrees :
      (p : JobPosting) (t : Tables)
      → p.id ≢ j
      → Agrees j t
      → Agrees j (record t { postings = t.postings ++ p ∷ [] })
  unfolding Agrees
  added-Agrees p t other agrees = shown_activity-append j p t.postings _ other ∙ agrees

  pub stored_job-Ends :
      (ext : Externals) (company_id : ℕ) (item : NormalizedJobRecord) (found : Option JobPosting)
      (t : Tables)
      → Agrees j t
      → Ends (stored_job ext company_id item found t) (λ job t'.
        (t'.sources ≡ t.sources)
        × AgreesBut job t'
        × ((p : JobPosting) → found ≡ some p → job.0 ≡ p.id))
  unfolding stored_job AgreesBut
  stored_job-Ends ext company_id item (some job) t agrees =
      Ends-continue_with (merge_job job item t) (λ done. pure (job.id, false))
        (merge_job-Ends job item t)
        (λ done t' h. record { ended = (h.0, λ new. h.1 agrees, λ p e. cc) })
  stored_job-Ends ext company_id item none t agrees =
      Ends-demand (not (any_of (λ p. p.id == ext.uuid t) t.postings)) "database uniqueness conflict"
        (λ done.
          modify (λ t'. record t' {
            postings = t'.postings ++ new_job company_id item (ext.uuid t) ∷ [];
          })
          >> pure (ext.uuid t, true))
        t
        (λ unused. record {
          ended = (
            refl,
            λ other. added-Agrees (new_job company_id item (ext.uuid t)) t (other refl) agrees,
            λ p e. cc,
          );
        })

  deleted-Agrees : (k : ℕ) (t : Tables) → (k ≢ j → Agrees j t) → Agrees j (delete_posting k t)
  unfolding Agrees
  deleted-Agrees k t agrees =
      ground
        (arith, shown_activity-keep j k t.postings (any_of (is_active_source j) t.sources), agrees)

  drop_created-Ends :
      (k : ℕ) (created : Bool) (t : Tables)
      → AgreesBut (k, created) t
      → Ends (drop_created created k t) (λ done t'. (t'.sources ≡ t.sources) × Agrees j t')
  unfolding AgreesBut
  drop_created-Ends k true t agrees = record {
    ended = (refl, deleted-Agrees k t (λ other. agrees (λ e. other)));
  }
  drop_created-Ends k false t agrees = record { ended = (refl, agrees (λ e. cc)) }

  pub winner_job-Ends :
      (company_id : ℕ) (item : NormalizedJobRecord) (job_id : ℕ) (job_was_created : Bool)
      (s : JobSource) (t : Tables)
      → AgreesBut (job_id, job_was_created) t
      → Ends
          (winner_job company_id item job_id job_was_created s t)
          (λ id t'. (t'.sources ≡ t.sources) × (id ≡ s.job_posting_id) × Agrees j t')
  unfolding winner_job
  winner_job-Ends company_id item job_id job_was_created s t agrees =
      Ends-continue_with
        (owned_posting company_id s.job_posting_id "job source belongs to another company" t)
        (λ winner. drop_created job_was_created job_id >> (merge_job winner item >> pure winner.id))
        (owned_posting-Ends company_id s.job_posting_id _ t)
        (λ winner t' h.
          Ends-continue_with (drop_created job_was_created job_id t')
            (λ done. merge_job winner item >> pure winner.id)
            (drop_created-Ends job_id job_was_created t' (rw (h.0) agrees))
            (λ done t2 h2.
              Ends-continue_with (merge_job winner item t2) (λ merged. pure winner.id)
                (merge_job-Ends winner item t2)
                (λ merged t3 h3. record {
                  ended = (h3.0 ∙ h2.0 ∙ ap (λ u. u.sources) h.0, h.1, h3.1 h2.1);
                })))
