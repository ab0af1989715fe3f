-- ===== src/Ingestion/DirectAts/Listing.antt =====
-- What a call of `write_direct_ats_jobs` of backend/app/ingestion/direct_ats.py leaves for the jobs that
-- it was given.
use text.Mathlib.TextEquality.{eq_iff}
use text.Mathlib.Text.{◌==◌ as str_eq}
use Prim.Native.String.{count}
use job_search.Base.{
  first, any_of-append, ℕ, ◌≤◌, String, ◌≡◌, refl, inl, inr, Bool, true, false, not, ◌&&◌, Option,
  none, some, List, [], ◌∷◌, ◌++◌, map, any_of, all_of, leb, All, arith, ◌==◌, Outcome, returned,
  Bool-cases, length,
}
use job_search.Ingestion.DirectAts.{
  JobEntry, ParsedJob, Work, Store, DirectAtsSnapshotMetadata, DirectAtsWriteResult,
  JobCollectionSnapshot, Company, number_fits, optional_text_fits, largest_integer,
  largest_small_integer, posting_fits, source_fits, entry_fits, snapshot_fits,
}
use job_search.Ingestion.DirectAts.Writing.{Externals, source_key}
use job_search.Ingestion.DirectAts.Persistence.{
  snapshot_row, or_given, default_metadata, mark_entry, new_entry, find_or_add_entry, run_exists,
  insert_snapshot, same_run, write_under_entry, write_direct_ats_jobs,
}
use job_search.Ingestion.DirectAts.Sources.{is_listed, flush_success}
use job_search.Ingestion.DirectAts.Columns.{FitsColumns}
use job_search.Ingestion.DirectAts.Loop.{HasOwnKeys, All-every, All-zip, write_jobs-Step}

first-append {ℓ} :
    {A : Type ℓ} (p : A → Bool) (xs : List A) (y : A)
    → first p xs ≡ none
    → p y ≡ true
    → first p (xs ++ y ∷ []) ≡ some y
unfolding first
first-append p [] y h k = rw k refl
first-append p (x ∷ xs) y h k = elim (Bool-cases (p x)) [
  | inl e ↦ let absurd : some x ≡ none = rw e at h in cc
  | inr e ↦ rw e (first-append p xs y (rw e at h) k)
]

module _ (ext : Externals) (company_id : ℕ) (platform : String) (now : ℕ)
    (normalized_url : String) where
  abbrev pub is_entry_of_url : JobEntry → Bool
  is_entry_of_url e = e.company_id == company_id && str_eq e.normalized_url normalized_url

  -- An entry of the company, other than this one, that is primary.
  abbrev pub is_other_primary : ℕ → JobEntry → Bool
  is_other_primary entry_id e =
      e.company_id == company_id && (e.is_primary && not (e.id == entry_id))

  abbrev marked : ℕ → JobEntry → JobEntry
  marked entry_id = mark_entry ext company_id platform now entry_id

  no_other_primary :
      (entry_id : ℕ) (entries : List JobEntry)
      → any_of (is_other_primary entry_id) (map (marked entry_id) entries) ≡ false
  unfolding mark_entry
  no_other_primary entry_id [] = refl
  no_other_primary entry_id (e ∷ entries) = ground (arith, no_other_primary entry_id entries)

  is_entry_of_url-marked :
      (entry_id : ℕ) (e : JobEntry) → is_entry_of_url (marked entry_id e) ≡ is_entry_of_url e
  unfolding mark_entry
  is_entry_of_url-marked entry_id e = ground arith

  is_primary-marked : (e : JobEntry) → (marked e.id e).is_primary ≡ true
  unfolding mark_entry
  is_primary-marked e = ground arith

  id-marked : (entry_id : ℕ) (e : JobEntry) → (marked entry_id e).id ≡ e.id
  unfolding mark_entry
  id-marked entry_id e = ground arith

  first-marked :
      (entry_id : ℕ) (entries : List JobEntry) (entry : JobEntry)
      → first is_entry_of_url entries ≡ some entry
      → first is_entry_of_url (map (marked entry_id) entries) ≡ some (marked entry_id entry)
  unfolding first
  first-marked entry_id [] entry h = ground arith
  first-marked entry_id (e ∷ entries) entry h = elim (Bool-cases (is_entry_of_url e)) [
    | inl d ↦
        let same : some e ≡ some entry = rw d at h in rw (is_entry_of_url-marked entry_id e, d) cc
    | inr d ↦
        rw (is_entry_of_url-marked entry_id e, d) (first-marked entry_id entries entry (rw d at h))
  ]

  -- The entry that the call goes on with.
  record EntryFound (entries : List JobEntry) (answer : Outcome (JobEntry × List JobEntry))
      : Type 0 where
    entry : JobEntry
    after : List JobEntry
    answered : answer ≡ returned (entry, after)
    of_url : first is_entry_of_url after ≡ some entry

  new_entry_fits :
      (entry_url : String)
      → count entry_url ≤ 2000
      → count normalized_url ≤ 2000
      → count platform ≤ 50
      → entry_fits (new_entry ext company_id platform now entry_url normalized_url) ≡ true
  unfolding entry_fits
  new_entry_fits entry_url u n p = ground (arith, u, n, p)

  find_or_add_entry-EntryFound :
      (entry_url : String) (companies : List Company) (entries : List JobEntry)
      (found : Option JobEntry)
      → any_of (λ c. c.id == company_id) companies ≡ true
      → count entry_url ≤ 2000
      → count normalized_url ≤ 2000
      → count platform ≤ 50
      → first is_entry_of_url entries ≡ found
      → EntryFound entries (
          find_or_add_entry ext company_id platform now entry_url normalized_url companies found
            entries)
  unfolding first find_or_add_entry
  find_or_add_entry-EntryFound entry_url companies entries (some entry) exists u n p h = record {
    entry = entry;
    after = entries;
    answered = refl;
    of_url = h;
  }
  find_or_add_entry-EntryFound entry_url companies entries none exists u n p h =
      rw (new_entry_fits entry_url u n p, exists)
        (record {
          entry = _;
          after = _;
          answered = refl;
          of_url =
              first-append is_entry_of_url entries _ h
                (ground (arith, (eq_iff normalized_url normalized_url).1 refl));
        })

  inserted :
      (row : JobCollectionSnapshot) (run_ids : List ℕ) (snapshots : List JobCollectionSnapshot)
      → snapshot_fits row ≡ true
      → run_exists row.crawl_run_id run_ids ≡ true
      → All (λ s. same_run s.crawl_run_id row.crawl_run_id ≡ false) snapshots
      → insert_snapshot row run_ids snapshots ≡ returned (snapshots ++ row ∷ [])
  unfolding insert_snapshot
  inserted row run_ids snapshots f r h = rw (f, r, unrelated snapshots h) refl
    where
      unrelated :
          (xs : List JobCollectionSnapshot)
          → All (λ s. same_run s.crawl_run_id row.crawl_run_id ≡ false) xs
          → any_of
              (λ s. s.job_entry_id == row.job_entry_id && same_run s.crawl_run_id row.crawl_run_id)
              xs
            ≡ false
      unrelated [] k = refl
      unrelated (x ∷ xs) k = ground (arith, k.0, unrelated xs k.1)

  -- The call returns, and the entry of the URL and the sources of the jobs are as they should be.
  pub record Lists (jobs : List ParsedJob) (answer : Outcome (DirectAtsWriteResult × Store))
      : Type 0 where
    pub result : DirectAtsWriteResult
    pub after : Store
    pub entry : JobEntry
    pub answered : answer ≡ returned (result, after)
    pub of_url : first is_entry_of_url after.entries ≡ some entry
    pub primary : entry.is_primary ≡ true
    pub alone : any_of (is_other_primary entry.id) after.entries ≡ false
    pub sources :
        All (λ j. any_of (is_listed now entry.id (source_key platform j)) after.sources ≡ true) jobs

  -- The rows of these tables fit their columns.
  pub record RowsFit (st : Store) : Type 0 where
    pub postings : all_of posting_fits st.postings ≡ true
    pub sources : all_of source_fits st.sources ≡ true

  abbrev pub metadata_fits : ℕ → DirectAtsSnapshotMetadata → Bool
  metadata_fits jobs m =
      number_fits largest_integer m.reported_total
      && leb (or_given m.observed_count jobs) largest_integer
      && leb m.pages_fetched largest_small_integer
      && optional_text_fits 64 m.content_fingerprint
      && optional_text_fits 50 m.error_code

  write_under_entry-Lists :
      (jobs : List ParsedJob) (crawl_run_id : Option ℕ)
      (snapshot : Option DirectAtsSnapshotMetadata) (st : Store) (entry : JobEntry)
      (entries : List JobEntry)
      → HasOwnKeys platform jobs
      → All (FitsColumns ext platform) jobs
      → RowsFit st
      → run_exists crawl_run_id st.run_ids ≡ true
      → metadata_fits (length jobs) (or_given snapshot (default_metadata (length jobs))) ≡ true
      → All (λ s. same_run s.crawl_run_id crawl_run_id ≡ false) st.snapshots
      → first is_entry_of_url entries ≡ some entry
      → Lists jobs (
          write_under_entry ext company_id platform now normalized_url jobs crawl_run_id snapshot st
            (entry, entries))
  unfolding write_under_entry snapshot_fits
  write_under_entry-Lists jobs crawl_run_id snapshot st entry entries d fits rows run meta k e =
      let start : Work = record {
        postings = st.postings;
        sources = st.sources;
        pending = [];
        written = 0;
      } in
      let w =
        write_jobs-Step ext company_id platform now entry.id jobs 0 start
          (record {
            insertable = refl;
            postings_fit = rows.postings;
            sources_fit = rows.sources;
            pending_fit = refl;
          })
          (All-every jobs (λ j. refl)) d fits in
      rw
        (
          w.answered,
          flush_success now entry.id w.after w.step.can_flush,
          inserted
              (snapshot_row ext company_id platform now normalized_url entry.id (length jobs)
                crawl_run_id (or_given snapshot (default_metadata (length jobs))))
              st.run_ids st.snapshots meta run k,
        )
        (record {
          result = _;
          after = _;
          entry = marked entry.id entry;
          answered = refl;
          of_url = first-marked entry.id entries entry e;
          primary = is_primary-marked entry;
          alone = rw (id-marked entry.id entry) (no_other_primary entry.id entries);
          sources = rw (id-marked entry.id entry) (
              All-zip jobs
                (λ j l u. ground (
                  arith,
                  l,
                  any_of-append (is_listed now entry.id (source_key platform j)) w.after.sources
                      w.after.pending,
                ))
                w.written w.written);
        })

  -- If the URL is one of the web, the company and the run exist, the URL, its normal form, the platform,
  -- the jobs, the metadata and the rows that are there fit the columns, no two jobs have the same provider
  -- and id, and the run has no snapshot yet, then the call returns. The entry of the URL is then there as
  -- the company's only primary one, and each job has a source with its key that is active, belongs to this
  -- entry, and has been seen now.
  pub write_direct_ats_jobs-Lists :
      (entry_url : String) (jobs : List ParsedJob) (crawl_run_id : Option ℕ)
      (snapshot : Option DirectAtsSnapshotMetadata) (st : Store)
      → ext.normalize_url entry_url ≡ returned normalized_url
      → any_of (λ c. c.id == company_id) st.companies ≡ true
      → run_exists crawl_run_id st.run_ids ≡ true
      → count entry_url ≤ 2000
      → count normalized_url ≤ 2000
      → count platform ≤ 50
      → All (FitsColumns ext platform) jobs
      → metadata_fits (length jobs) (or_given snapshot (default_metadata (length jobs))) ≡ true
      → RowsFit st
      → HasOwnKeys platform jobs
      → All (λ s. same_run s.crawl_run_id crawl_run_id ≡ false) st.snapshots
      → Lists jobs (
          write_direct_ats_jobs ext company_id platform now entry_url jobs crawl_run_id snapshot st)
  unfolding write_direct_ats_jobs
  write_direct_ats_jobs-Lists entry_url jobs crawl_run_id snapshot st u c r lu ln lp fits meta rows
        d k =
      let found =
        find_or_add_entry-EntryFound entry_url st.companies st.entries
          (first is_entry_of_url st.entries) c lu ln lp refl in
      rw (u, found.answered)
        (write_under_entry-Lists jobs crawl_run_id snapshot st found.entry found.after d fits rows r
          meta k found.of_url)
