-- ===== src/Ingestion/DirectAts/Sources.antt =====
-- Which sources `write_direct_ats_jobs` of backend/app/ingestion/direct_ats.py leaves.
use job_search.Base.{
  any_of-append, ℕ, String, ◌≡◌, refl, ◌∙◌, inl, inr, Bool, true, false, ◌&&◌, ◌||◌, Option, none,
  some, List, [], ◌∷◌, ◌++◌, map, any_of, all_of, arith, holds, ◌==◌, Outcome, returned, Bool-cases,
  if◌then◌else◌,
}
use job_search.Ingestion.DirectAts.{
  JobPosting, JobSource, ParsedJob, Work, posting_fits, source_fits,
}
use job_search.Ingestion.DirectAts.Writing.{
  Externals, source_key, has_source_key, rows_fit, flush, new_posting, write_posting, new_source,
  refreshed_source, write_source,
}
use job_search.Ingestion.DirectAts.Keys.{
  key_of, same_key, same_key_comm, same_key_refl, admits, insert_sources_success, admits-snoc,
  admits-map,
}
use job_search.Ingestion.DirectAts.Columns.{
  all_of-append, FitsColumns, new_posting_fits, all_merged_fit,
}

-- What is pending can be inserted, and all rows fit.
pub record CanFlush (w : Work) : Type 0 where
  pub insertable : admits w.pending w.sources ≡ true
  pub postings_fit : all_of posting_fits w.postings ≡ true
  pub sources_fit : all_of source_fits w.sources ≡ true
  pub pending_fit : all_of source_fits w.pending ≡ true

module _ (now entry_id : ℕ) where
  -- A source with the key that is active, belongs to the entry, and has been seen now.
  abbrev pub is_listed : String × String → JobSource → Bool
  is_listed key s =
      has_source_key key s
      && (s.is_active && (holds s.job_entry_id entry_id && s.last_seen_at == now))

  abbrev pub listed : String × String → Work → Bool
  listed key w = any_of (is_listed key) w.sources || any_of (is_listed key) w.pending

  abbrev pub is_pending : String × String → Work → Bool
  is_pending key w = any_of (has_source_key key) w.pending

  -- From one state of the loop to a later one: it can be flushed, and what was listed is.
  pub record Step (before after : Work) : Type 0 where
    pub can_flush : CanFlush after
    pub keeps : (key : String × String) → listed key before ≡ true → listed key after ≡ true

  pub flush_success :
      (w : Work)
      → CanFlush w
      → flush w ≡ returned (record w { sources = w.sources ++ w.pending; pending = [] })
  unfolding flush rows_fit
  flush_success w h =
      rw
        (
          h.postings_fit,
          h.sources_fit,
          h.pending_fit,
          insert_sources_success w.pending w.sources h.insertable,
        )
        refl

  pub listed_flushed :
      (key : String × String) (w : Work)
      → listed key w ≡ true
      → listed key (record w { sources = w.sources ++ w.pending; pending = [] }) ≡ true
  listed_flushed key w h = ground (arith, any_of-append (is_listed key) w.sources w.pending)

  module _ (ext : Externals) (company_id : ℕ) (platform : String) where
    -- How the writing of a posting goes on.
    pub record PostingWritten (w : Work) (answer : Outcome (ℕ × Work)) : Type 0 where
      pub job_id : ℕ
      pub after : Work
      pub answered : answer ≡ returned (job_id, after)
      pub step : Step w after
      pub waits : (key : String × String) → is_pending key w ≡ false → is_pending key after ≡ false

    pub write_posting-Step :
        (position : ℕ) (parsed : ParsedJob) (w : Work) (found : Option JobPosting)
        → FitsColumns ext platform parsed
        → CanFlush w
        → PostingWritten w (write_posting ext company_id platform now position parsed w found)
    unfolding write_posting
    write_posting-Step position parsed w none f h =
        let all_fit : all_of posting_fits
              (w.postings ++ new_posting ext company_id platform now position parsed ∷ [])
            ≡ true =
          all_of-append posting_fits w.postings
            (new_posting ext company_id platform now position parsed ∷ []) h.postings_fit
            (rw (new_posting_fits ext company_id platform now position parsed f) refl) in
        let added : CanFlush (record w {
          postings = w.postings ++ new_posting ext company_id platform now position parsed ∷ [];
        }) =
          record {
            insertable = h.insertable;
            postings_fit = all_fit;
            sources_fit = h.sources_fit;
            pending_fit = h.pending_fit;
          } in
        rw (flush_success _ added) (record {
          job_id = ext.posting_uuid position;
          after = _;
          answered = refl;
          step = record {
            can_flush = record {
              insertable = refl;
              postings_fit = all_fit;
              sources_fit =
                  all_of-append source_fits w.sources w.pending h.sources_fit h.pending_fit;
              pending_fit = refl;
            };
            keeps = λ key l. listed_flushed key w l;
          };
          waits = λ key f. refl;
        })
    write_posting-Step position parsed w (some job) f h = record {
      job_id = job.id;
      after = _;
      answered = refl;
      step = record {
        can_flush = record {
          insertable = h.insertable;
          postings_fit = all_merged_fit ext platform job.id parsed w.postings f h.postings_fit;
          sources_fit = h.sources_fit;
          pending_fit = h.pending_fit;
        };
        keeps = λ key l. l;
      };
      waits = λ key f. f;
    }

    module _ (position : ℕ) (parsed : ParsedJob) (job_id : ℕ) where
      abbrev key : String × String
      key = source_key platform parsed

      abbrev refreshed : JobSource → JobSource
      refreshed s =
          if has_source_key key s
          then refreshed_source ext company_id platform now entry_id parsed job_id s
          else s

      key_of-refreshed : (s : JobSource) → key_of (refreshed s) ≡ key_of s
      key_of-refreshed s = elim (Bool-cases (has_source_key key s)) [
        | inl e ↦ rw e refl
        | inr e ↦ rw e refl
      ]

      refreshed_still_listed :
          (k : String × String) (s : JobSource)
          → is_listed k s ≡ true
          → is_listed k (refreshed s) ≡ true
      refreshed_still_listed k s h = ground arith

      refreshed_all :
          (k : String × String) (sources : List JobSource)
          → any_of (is_listed k) sources ≡ true
          → any_of (is_listed k) (map refreshed sources) ≡ true
      refreshed_all k [] h = h
      refreshed_all k (s ∷ sources) h = elim (Bool-cases (is_listed k s)) [
        | inl e ↦ rw (refreshed_still_listed k s e) refl
        | inr e ↦ ground (arith, refreshed_all k sources (ground arith))
      ]

      refreshed_listed :
          (s : JobSource) → has_source_key key s ≡ true → is_listed key (refreshed s) ≡ true
      refreshed_listed s h = rw h (ground arith)

      found_listed :
          (sources : List JobSource)
          → any_of (has_source_key key) sources ≡ true
          → any_of (is_listed key) (map refreshed sources) ≡ true
      found_listed [] h = ground arith
      found_listed (s ∷ sources) h = elim (Bool-cases (has_source_key key s)) [
        | inl e ↦ rw (refreshed_listed s e) refl
        | inr e ↦ ground (arith, found_listed sources (ground arith))
      ]

      abbrev added : JobSource
      added = new_source ext company_id platform now entry_id position parsed job_id

      refreshed_fit :
          (s : JobSource)
          → FitsColumns ext platform parsed
          → source_fits s ≡ true
          → source_fits (refreshed s) ≡ true
      unfolding source_fits
      refreshed_fit s f h = ground (arith, f.url, h)

      all_refreshed_fit :
          (sources : List JobSource)
          → FitsColumns ext platform parsed
          → all_of source_fits sources ≡ true
          → all_of source_fits (map refreshed sources) ≡ true
      all_refreshed_fit [] f h = refl
      all_refreshed_fit (s ∷ sources) f h =
          let head = refreshed_fit s f (ground arith) in
          let rest = all_refreshed_fit sources f (ground arith) in rw (head, rest) refl

      added_fits : FitsColumns ext platform parsed → source_fits added ≡ true
      unfolding source_fits
      added_fits f = ground (arith, f.provider, f.source_raw_id, f.url)

      added_listed : is_listed key added ≡ true
      added_listed = ground (arith, same_key_refl key)

      -- How the writing of a source goes on.
      pub record SourceWritten (w after : Work) : Type 0 where
        pub step : Step w after
        pub written : listed key after ≡ true
        pub waits :
            (k : String × String)
            → same_key k key ≡ false
            → is_pending k w ≡ false
            → is_pending k after ≡ false

      pub write_source-Step :
          (w : Work)
          → FitsColumns ext platform parsed
          → CanFlush w
          → is_pending key w ≡ false
          → SourceWritten w
              (write_source ext company_id platform now entry_id position parsed job_id w)
      unfolding write_source
      write_source-Step w fits h fresh = elim (Bool-cases (any_of (has_source_key key) w.sources)) [
        | inl e ↦ rw e (record {
          step = record {
            can_flush = record {
              insertable = admits-map refreshed key_of-refreshed w.pending w.sources ∙ h.insertable;
              postings_fit = h.postings_fit;
              sources_fit = all_refreshed_fit w.sources fits h.sources_fit;
              pending_fit = h.pending_fit;
            };
            keeps = λ k l. elim (Bool-cases (any_of (is_listed k) w.sources)) [
              | inl d ↦ rw (refreshed_all k w.sources d) refl
              | inr d ↦ ground (arith, l)
            ];
          };
          written = rw (found_listed w.sources e) refl;
          waits = λ k d f. f;
        })
        | inr e ↦ rw e (record {
          step = record {
            can_flush = record {
              insertable = admits-snoc added w.pending w.sources e fresh h.insertable;
              postings_fit = h.postings_fit;
              sources_fit = h.sources_fit;
              pending_fit =
                  all_of-append source_fits w.pending (added ∷ []) h.pending_fit
                    (rw (added_fits fits) refl);
            };
            keeps = λ k l. ground (arith, any_of-append (is_listed k) w.pending (added ∷ []));
          };
          written =
              ground (arith, any_of-append (is_listed key) w.pending (added ∷ []), added_listed);
          waits = λ k d f.
              ground (
                arith,
                any_of-append (has_source_key k) w.pending (added ∷ []),
                same_key_comm k key,
              );
        })
      ]
