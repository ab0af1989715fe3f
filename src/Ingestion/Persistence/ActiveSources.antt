-- ===== src/Ingestion/Persistence/ActiveSources.antt =====
-- The source of a record in `_upsert_jobs` of `PersistenceService`
-- (backend/app/ingestion/persistence/service.py), and the record as a whole.
use job_search.Base.{
  first, inl, inr, Bool-cases, ℕ, ◌==◌, ◌≡◌, ◌≢◌, refl, sym, ap, ◌∙◌, Bool, true, false, not, ◌&&◌,
  Option, none, some, List, [], ◌∷◌, ◌++◌, any_of, String, arith, any_of-append,
}
use job_search.Ingestion.DirectAts.{JobSource}
use job_search.Ingestion.DirectAts.Writing.{has_source_key, same_source}
use job_search.Ingestion.DirectAts.Keys.{same_key_refl}
use job_search.Ingestion.Persistence.{Tables, Externals, pure}
use job_search.Ingestion.Persistence.Contracts.{NormalizedJobRecord, months_in_domain}
use job_search.Ingestion.Persistence.Conflicts.{change_first, insert, insert_or_reselect}
use job_search.Ingestion.Persistence.Documents.{document_id}
use job_search.Ingestion.Persistence.Jobs.{find_source, resolve_job, stored_job, source_model}
use job_search.Ingestion.Persistence.JobLoop.{
  is_active_source, settled_job, winner_job, stored_source, evidence_document, upsert_job,
  new_source, seen_source,
}
use job_search.Ingestion.Persistence.Endings.{
  Ends, Ends_mono, Ends-continue_with, Ends-demand, Ends-or_fail, insert_or_reselect-Ends,
}
use job_search.Ingestion.Persistence.Activity.{Agrees, any_of-change_first}
use job_search.Ingestion.Persistence.ActiveJobs.{
  AgreesBut, resolve_job-Ends, stored_job-Ends, winner_job-Ends,
}

-- A row behind rows that fail the test is found.
first-append :
    {A : Type 0} (p : A → Bool) (xs : List A) (x : A)
    → any_of p xs ≡ false
    → p x ≡ true
    → first p (xs ++ x ∷ []) ≡ some x
unfolding first
first-append p [] x h k = ground arith
first-append p (y ∷ xs) x h k = ground (arith, first-append p xs x)

module _ (j : ℕ) where
  -- Only the sources of other postings have changed.
  sources-Agrees :
      (sources : List JobSource) (t : Tables)
      → any_of (is_active_source j) sources ≡ any_of (is_active_source j) t.sources
      → Agrees j t
      → Agrees j (record t { sources = sources })
  unfolding Agrees
  sources-Agrees sources t same agrees = rw same agrees

  -- The source is there, its posting is the one that is returned, and only that one may disagree.
  pub IsSettled : String × String → ℕ → Tables → Type 0
  IsSettled key id t =
      (id ≢ j → Agrees j t)
      × ((s : JobSource) × (find_source key t ≡ some s) × (s.job_posting_id ≡ id))

  inserted-IsSettled :
      (s : JobSource) (created : Bool) (t : Tables)
      → source_model.violated s t.sources ≡ none
      → AgreesBut j (s.job_posting_id, created) t
      → IsSettled (s.provider, s.source_raw_id) s.job_posting_id (insert source_model s t)
  unfolding IsSettled AgreesBut
  inserted-IsSettled s created t free agrees = (
    λ other.
        sources-Agrees (t.sources ++ s ∷ []) t
          (ground (arith, any_of-append (is_active_source j) t.sources (s ∷ [])))
          (agrees (λ e. other)),
    (
      s,
      first-append (same_source s) t.sources s (ground arith)
          (same_key_refl (s.provider, s.source_raw_id)),
      refl,
    ),
  )

  module _ (ext : Externals) (calm : (t : Tables) → Agrees j t → Agrees j (ext.rival t)) where
    rival-AgreesBut :
        (job : ℕ × Bool) (t : Tables) → AgreesBut j job t → AgreesBut j job (ext.rival t)
    unfolding AgreesBut
    rival-AgreesBut job t agrees other = calm t (agrees other)

    -- After the INSERT, which another session may have been ahead of.
    settled_job-Ends :
        (company_id : ℕ) (item : NormalizedJobRecord) (key : String × String) (job : ℕ × Bool)
        (s : JobSource) (created : Bool) (t : Tables)
        → (created ≡ true → IsSettled key job.0 t)
        → (created ≡ false → (find_source key t ≡ some s) × AgreesBut j job t)
        → Ends
            (settled_job company_id item job s (not created && not (s.job_posting_id == job.0)) t)
            (IsSettled key)
    unfolding IsSettled AgreesBut
    settled_job-Ends company_id item key job s true t inserted lost = record {
      ended = inserted refl;
    }
    settled_job-Ends company_id item key job s false t inserted lost =
        elim (Bool-cases (s.job_posting_id == job.0)) [
          | inl same ↦ rw same (record {
            ended = (λ other. (lost refl).1 (λ c. other), (s, (lost refl).0, ground arith));
          })
          | inr other ↦ rw other (
              Ends_mono (winner_job company_id item job.0 job.1 s t)
                (winner_job-Ends j company_id item job.0 job.1 s t (lost refl).1)
                (λ id t' h. (
                  λ apart. h.2,
                  (s, ap (first (has_source_key key)) h.0 ∙ (lost refl).0, sym h.1),
                )))
        ]

    pub stored_source-Ends :
        (company_id : ℕ) (item : NormalizedJobRecord) (key : String × String) (document : Option ℕ)
        (job : ℕ × Bool) (source : Option JobSource) (t : Tables)
        → find_source key t ≡ source
        → ((s : JobSource) → source ≡ some s → job.0 ≡ s.job_posting_id)
        → AgreesBut j job t
        → Ends (stored_source ext company_id item key document job source t) (IsSettled key)
    unfolding stored_source IsSettled AgreesBut
    stored_source-Ends company_id item key document job (some s) t e same agrees = record {
      ended = (λ other. agrees (λ c. other), (s, e, sym (same s refl)));
    }
    stored_source-Ends company_id item key document job none t e same agrees =
        let new = new_source item key job.0 document (ext.uuid t) in
        Ends-continue_with
          (insert_or_reselect ext source_model (find_source key) "uq_job_source_provider_raw_id" new
            t)
          (λ r. settled_job company_id item job r.0 (not r.1 && not (r.0.job_posting_id == job.0)))
          (insert_or_reselect-Ends ext source_model (find_source key)
            "uq_job_source_provider_raw_id" new
            {R = λ r t'.
              (r.1 ≡ true → IsSettled key job.0 t')
              × (r.1 ≡ false → (find_source key t' ≡ some r.0) × AgreesBut j job t')}
            t
            (λ free. (
              λ done.
                  inserted-IsSettled new job.1 (ext.rival t) free (rival-AgreesBut job t agrees),
              λ lost. cc,
            ))
            (λ winner found. (λ done. cc, λ lost. (found, rival-AgreesBut job t agrees))))
          (λ r t' h. settled_job-Ends company_id item key job r.0 r.1 t' h.0 h.1)

    evidence_document-Ends :
        (documents : List (String × ℕ)) (evidence_id : Option String) (t : Tables)
        → Ends (evidence_document documents evidence_id t) (λ document t'. t' ≡ t)
    unfolding evidence_document
    evidence_document-Ends documents none t = record { ended = refl }
    evidence_document-Ends documents (some evidence_id) t =
        Ends-or_fail (document_id documents evidence_id) "KeyError" (λ id. pure (some id)) t
          (λ id e. record { ended = refl })

    seen_source-Agrees :
        (item : NormalizedJobRecord) (key : String × String) (document : Option ℕ) (id : ℕ)
        (t : Tables)
        → IsSettled key id t
        → id ≢ j
        → Agrees j (record t {
          sources = change_first (has_source_key key) (seen_source item id document) t.sources;
        })
    unfolding IsSettled
    seen_source-Agrees item key document id t (agrees, (s, e, same)) other =
        sources-Agrees (change_first (has_source_key key) (seen_source item id document) t.sources)
          t
          (any_of-change_first (has_source_key key) (is_active_source j)
            (seen_source item id document) t.sources s e (ground arith) (ground arith))
          (agrees other)

    -- One record: only the posting that it is of may disagree afterwards.
    pub upsert_job-Ends :
        (company_id : ℕ) (documents : List (String × ℕ)) (item : NormalizedJobRecord) (t : Tables)
        → Agrees j t
        → Ends (upsert_job ext company_id documents item t) (λ id t'. id ≢ j → Agrees j t')
    unfolding upsert_job
    upsert_job-Ends company_id documents item t agrees =
        Ends-demand (months_in_domain item.candidate.salary_months)
          "normalized salary months exceed database domain" _ t
          (λ valid. Ends-or_fail item.candidate.candidate.provider _ _ t (λ provider given.
            Ends-or_fail item.candidate.candidate.source_raw_id _ _ t (λ raw_id given.
              Ends-continue_with (resolve_job company_id item (find_source (provider, raw_id) t) t)
                _ (resolve_job-Ends j company_id item (find_source (provider, raw_id) t) t)
                (λ found t1 h1.
                  Ends-continue_with (stored_job ext company_id item found t1) _
                    (stored_job-Ends j ext company_id item found t1 (rw (h1.0) agrees))
                    (λ stored t2 h2.
                      Ends-continue_with (evidence_document documents item.source_evidence_id t2) _
                        (evidence_document-Ends documents item.source_evidence_id t2)
                        (λ document t3 e3.
                          Ends-continue_with
                            (stored_source ext company_id item (provider, raw_id) document stored
                              (find_source (provider, raw_id) t) t3)
                            _
                            (stored_source-Ends company_id item (provider, raw_id) document stored
                              (find_source (provider, raw_id) t) t3
                              (ap (first (has_source_key (provider, raw_id)))
                                (ap (λ u. u.sources) e3 ∙ h2.0 ∙ ap (λ u. u.sources) h1.0))
                              (λ s e. let (p, is_found, same) = h1.1 s e in h2.2 p is_found ∙ same)
                              (rw e3 (h2.1)))
                            (λ id t4 h4. record {
                              ended = seen_source-Agrees item (provider, raw_id) document id t4 h4;
                            })))))))
