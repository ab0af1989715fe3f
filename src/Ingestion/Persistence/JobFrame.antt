-- ===== src/Ingestion/Persistence/JobFrame.antt =====
-- The jobs of a batch write only postings and sources.
use job_search.Base.{
  inl, inr, Option-cases, keep, not, any_of, ℕ, ◌==◌, String, Bool, true, false, Option, none, some,
  List, [], ◌∷◌, ◌++◌, ◌&&◌,
}
use job_search.Ingestion.DirectAts.{JobPosting, JobSource}
use job_search.Ingestion.Persistence.{Tables, Externals}
use job_search.Ingestion.Persistence.Contracts.{NormalizedJobRecord}
use job_search.Ingestion.Persistence.Jobs.{
  source_model, posting_model, merge_job, owned_posting, resolve_job, stored_job, new_job,
  find_source,
}
use job_search.Ingestion.Persistence.JobLoop.{
  evidence_document, new_source, delete_posting, drop_created, winner_job, settled_job,
  stored_source, upsert_job, upsert_each, recompute_activity, recompute_activities, upsert_jobs,
}
use job_search.Ingestion.Persistence.Keeping.{
  insert_or_reselect-Keeps, Keeps, IsFreeOf, steps, bind-Keeps, gets-Keeps, modify-Keeps,
  demand-Keeps, pure-Keeps,
}

module _ (P : Tables → Type 0) (ext : Externals) (calm : (t : Tables) → P t → P (ext.rival t))
    (free : IsFreeOf P source_model) (free_posting : IsFreeOf P posting_model) where
  merge_job-Keeps : (job : JobPosting) (item : NormalizedJobRecord) → Keeps P (merge_job job item)
  unfolding merge_job
  merge_job-Keeps job item = search (steps, free_posting)

  module _ (company_id : ℕ) where
    owned_posting-Keeps :
        (id : ℕ) (message : String) → Keeps P (owned_posting company_id id message)
    unfolding owned_posting
    owned_posting-Keeps id message = search (steps)

    resolve_job-Keeps :
        (item : NormalizedJobRecord) (source : Option JobSource)
        → Keeps P (resolve_job company_id item source)
    unfolding resolve_job
    resolve_job-Keeps item (some s) = search (steps, owned_posting-Keeps)
    resolve_job-Keeps item none = elim (Option-cases item.job_posting_id) [
      | inl unknown ↦ rw unknown (search (steps))
      | inr (id, known) ↦ rw known (search (steps, owned_posting-Keeps))
    ]

    stored_job-Keeps :
        (item : NormalizedJobRecord) (found : Option JobPosting)
        → Keeps P (stored_job ext company_id item found)
    unfolding stored_job
    stored_job-Keeps item (some job) = search (steps, merge_job-Keeps job item)
    stored_job-Keeps item none = bind-Keeps P (gets-Keeps P (λ t. t)) (λ t.
        bind-Keeps P
          (demand-Keeps P (not (any_of (λ p. p.id == ext.uuid t) t.postings))
            "database uniqueness conflict")
          (λ unused.
            bind-Keeps P
              (modify-Keeps P
                (λ u. record u {
                  postings = u.postings ++ new_job company_id item (ext.uuid t) ∷ [];
                })
                (λ u p. free_posting u (u.postings ++ new_job company_id item (ext.uuid t) ∷ []) p))
              (λ done. pure-Keeps P (ext.uuid t, true))))

    drop_created-Keeps : (created : Bool) (id : ℕ) → Keeps P (drop_created created id)
    drop_created-Keeps true id =
        modify-Keeps P (delete_posting id)
          (λ t p. free_posting t (keep (λ q. not (q.id == id)) t.postings) p)
    drop_created-Keeps false id = search (steps)

    winner_job-Keeps :
        (item : NormalizedJobRecord) (job_id : ℕ) (created : Bool) (s : JobSource)
        → Keeps P (winner_job company_id item job_id created s)
    unfolding winner_job
    winner_job-Keeps item job_id created s =
        bind-Keeps P (owned_posting-Keeps s.job_posting_id "job source belongs to another company")
          (λ winner.
            bind-Keeps P (drop_created-Keeps created job_id) (λ done.
              bind-Keeps P (merge_job-Keeps winner item) (λ merged. pure-Keeps P winner.id)))

    settled_job-Keeps :
        (item : NormalizedJobRecord) (job : ℕ × Bool) (s : JobSource) (other : Bool)
        → Keeps P (settled_job company_id item job s other)
    settled_job-Keeps item job s true = winner_job-Keeps item job.0 job.1 s
    settled_job-Keeps item job s false = pure-Keeps P job.0

    stored_source-Keeps :
        (item : NormalizedJobRecord) (key : String × String) (document : Option ℕ) (job : ℕ × Bool)
        (source : Option JobSource)
        → Keeps P (stored_source ext company_id item key document job source)
    unfolding stored_source
    stored_source-Keeps item key document job (some s) = pure-Keeps P job.0
    stored_source-Keeps item key document job none = bind-Keeps P (gets-Keeps P ext.uuid) (λ id.
        bind-Keeps P
          (insert_or_reselect-Keeps P ext source_model (find_source key)
            "uq_job_source_provider_raw_id" (new_source item key job.0 document id) calm free)
          (λ r. settled_job-Keeps item job r.0 (not r.1 && not (r.0.job_posting_id == job.0))))

    module _ (documents : List (String × ℕ)) where
      evidence_document-Keeps :
          (evidence_id : Option String) → Keeps P (evidence_document documents evidence_id)
      unfolding evidence_document
      evidence_document-Keeps none = search (steps)
      evidence_document-Keeps (some evidence_id) = search (steps)

      upsert_job-Keeps :
          (item : NormalizedJobRecord) → Keeps P (upsert_job ext company_id documents item)
      unfolding upsert_job
      upsert_job-Keeps item =
          search
            (
              steps,
              free,
              resolve_job-Keeps item,
              stored_job-Keeps item,
              evidence_document-Keeps,
              stored_source-Keeps item,
            )
            depth 20 fits 4000

      upsert_each-Keeps :
          (items : List NormalizedJobRecord) (ids : List ℕ)
          → Keeps P (upsert_each ext company_id documents items ids)
      unfolding upsert_each
      upsert_each-Keeps [] ids = search (steps)
      upsert_each-Keeps (item ∷ items) ids =
          search (steps, upsert_job-Keeps item, upsert_each-Keeps items)

      recompute_activity-Keeps : (id : ℕ) → Keeps P (recompute_activity id)
      unfolding recompute_activity
      recompute_activity-Keeps id = search (steps, free_posting)

      recompute_activities-Keeps : (ids : List ℕ) → Keeps P (recompute_activities ids)
      unfolding recompute_activities
      recompute_activities-Keeps [] = search (steps)
      recompute_activities-Keeps (id ∷ ids) =
          search (steps, recompute_activity-Keeps id, recompute_activities-Keeps ids)

      pub upsert_jobs-Keeps :
          (items : List NormalizedJobRecord) → Keeps P (upsert_jobs ext company_id documents items)
      unfolding upsert_jobs
      upsert_jobs-Keeps items = search (steps, upsert_each-Keeps items, recompute_activities-Keeps)
