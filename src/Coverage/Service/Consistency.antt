-- ===== src/Coverage/Service/Consistency.antt =====
-- Sources, postings and the entry's clock across `JobCoverageService.record` of
-- backend/app/ingestion/coverage/service.py.
use mathlib.Core.Path.{subst}
use job_search.Base.{
  ℕ, ◌≡◌, refl, ap, ◌∙◌, sym, inl, inr, Bool, true, false, some, List, [], ◌∷◌, ◌++◌, map, arith,
  returned, contains, keep, All, if◌then◌else◌, Bool-cases,
}
use job_search.Base.Table
use job_search.Base.Table.{get-put}
use job_search.Coverage.Models.{JobEntry, JobSource, JobPosting, Store}
use job_search.Coverage.Contracts.{RecordJobSnapshot}
use job_search.Coverage.Activity.{has_active_source, refresh_posting}
use job_search.Coverage.Activity.Batches.{recompute_job_activity_lem}
use job_search.Coverage.Service.{
  SnapshotRecordResult, of_entry, mark_seen, mark_missing, checked_before,
  is_newer_complete_lifecycle_snapshot, update_entry_health, snapshot_of, observe, record_snapshot,
}
use job_search.Coverage.Service.Lifecycle.{visit, apply_complete_snapshot_lem}
use job_search.Coverage.Service.Records.{Recorded, again, fresh, recorded}
use job_search.Coverage.Service.Replay.{entry-observe}

-- Every posting is active exactly if one of its sources is.
abbrev pub IsConsistent : Store → Type 0
IsConsistent st = All (λ p. p.is_active ≡ has_active_source st.sources p.id) st.postings

module _ (c : RecordJobSnapshot) (snapshot_id : ℕ) where
  -- A posting that no source of the entry points at does not notice what becomes of those sources.
  has_active_source-visit :
      (xs : List JobSource) (posting_id : ℕ)
      → contains (map (λ s. s.job_posting_id) (keep (of_entry c) xs)) posting_id ≡ false
      → has_active_source (map (visit c snapshot_id) xs) posting_id
        ≡ has_active_source xs posting_id
  unfolding has_active_source visit mark_seen mark_missing
  has_active_source-visit [] posting_id h = refl
  has_active_source-visit (s ∷ xs) posting_id h = elim (Bool-cases (of_entry c s)) [
    | inl o ↦
        let rest = has_active_source-visit xs posting_id (ground arith) in ground (arith, rest)
    | inr o ↦
        let rest = has_active_source-visit xs posting_id (ground arith) in ground (arith, rest)
  ]

  refreshed :
      (xs : List JobSource) (ps : List JobPosting)
      → All (λ p. p.is_active ≡ has_active_source xs p.id) ps
      → All
          (λ p. p.is_active ≡ has_active_source (map (visit c snapshot_id) xs) p.id)
          (map
            (refresh_posting
              (map (λ s. s.job_posting_id) (keep (of_entry c) xs))
              (map (visit c snapshot_id) xs))
            ps)
  unfolding refresh_posting
  refreshed xs [] h = tt
  refreshed xs (p ∷ ps) h =
      let ids = map (λ s. s.job_posting_id) (keep (of_entry c) xs) in
      elim (Bool-cases (contains ids p.id)) [
        | inl e ↦ (rw e refl, refreshed xs ps h.1)
        | inr e ↦ (rw e (h.0 ∙ sym (has_active_source-visit xs p.id e)), refreshed xs ps h.1)
      ]

refresh_nothing : (xs : List JobSource) (ps : List JobPosting) → map (refresh_posting [] xs) ps ≡ ps
unfolding refresh_posting
refresh_nothing xs [] = refl
refresh_nothing xs (p ∷ ps) = ap (λ t. p ∷ t) (refresh_nothing xs ps)

module _ (hash : RecordJobSnapshot → ℕ) (new_id : ℕ) (c : RecordJobSnapshot) (entry : JobEntry)
    (st : Store) where
  abbrev applies : Bool
  applies = is_newer_complete_lifecycle_snapshot entry c

  sources-observe :
      (observe hash new_id c entry st).1.sources
      ≡ (if applies then map (visit c new_id) st.sources else st.sources)
  unfolding observe is_newer_complete_lifecycle_snapshot
  sources-observe = ground (arith, apply_complete_snapshot_lem c new_id st.sources)

  abbrev affected : List ℕ
  affected = map (λ s. s.job_posting_id) (keep (of_entry c) st.sources)

  postings-observe : (observe hash new_id c entry st).1.postings ≡ (
      if applies
      then map (refresh_posting affected (map (visit c new_id) st.sources)) st.postings
      else st.postings)
  unfolding observe is_newer_complete_lifecycle_snapshot
  postings-observe = ground (
    arith,
    apply_complete_snapshot_lem c new_id st.sources,
    recompute_job_activity_lem affected (map (visit c new_id) st.sources) st.postings,
    recompute_job_activity_lem [] st.sources st.postings,
    refresh_nothing st.sources st.postings,
  )

  observe-IsConsistent : IsConsistent st → IsConsistent (observe hash new_id c entry st).1
  observe-IsConsistent h =
      rw (postings-observe, sources-observe)
        (elim (Bool-cases applies) [
          | inl e ↦ rw e (refreshed c new_id st.sources st.postings h)
          | inr e ↦ rw e h
        ])

module _ (hash : RecordJobSnapshot → ℕ) (new_id : ℕ) (c : RecordJobSnapshot) (b : Bool)
    (st : Store) where
  -- However a snapshot is recorded, postings stay active exactly where they have an active source.
  pub record-IsConsistent :
      (r : SnapshotRecordResult) (st' : Store)
      → record_snapshot hash new_id c b st ≡ returned (r, st')
      → IsConsistent st
      → IsConsistent st'
  record-IsConsistent r st' h k = go (recorded hash new_id c st b h)
    where
      go : Recorded hash new_id c st r st' → IsConsistent st'
      go (again entry existing en a d e e') = rw e' k
      go (fresh entry a d e) =
          subst (λ p. IsConsistent p.1) (sym e)
            (observe-IsConsistent hash new_id c entry
              (record st {
                snapshots =
                    st.snapshots
                    ++ snapshot_of hash new_id c (is_newer_complete_lifecycle_snapshot entry c)
                      ∷ [];
              })
              k)

  -- The sources and the entry, by the tests of the code.
  pub sources_and_entry :
      (r : SnapshotRecordResult) (st' : Store) (entry : JobEntry)
      → record_snapshot hash new_id c b st ≡ returned (r, st')
      → r.created ≡ true
      → Table.get c.entry_id st.entries ≡ some entry
      → (st'.sources ≡ (
          if is_newer_complete_lifecycle_snapshot entry c
          then map (visit c new_id) st.sources
          else st.sources))
        × (Table.get c.entry_id st'.entries
            ≡ some (
                if checked_before entry.last_checked_at c.completed_at
                then entry
                else update_entry_health entry c))
  sources_and_entry r st' entry h made en = go (recorded hash new_id c st b h)
    where
      go :
          Recorded hash new_id c st r st'
          → (st'.sources ≡ (
              if is_newer_complete_lifecycle_snapshot entry c
              then map (visit c new_id) st.sources
              else st.sources))
            × (Table.get c.entry_id st'.entries
                ≡ some (
                    if checked_before entry.last_checked_at c.completed_at
                    then entry
                    else update_entry_health entry c))
      go (again found existing en' a d e e') = absurd (ground (arith, e))
      go (fresh found a d e) =
          let st1 : Store = record st {
            snapshots =
                st.snapshots
                ++ snapshot_of hash new_id c (is_newer_complete_lifecycle_snapshot found c) ∷ [];
          } in
          let same : found ≡ entry = cc in
          (
            ap (λ p. p.1.sources) e
                ∙ sources-observe hash new_id c found st1
                ∙ ap
                    (λ x.
                      if is_newer_complete_lifecycle_snapshot x c
                      then map (visit c new_id) st.sources
                      else st.sources)
                    same,
            ap (λ p. Table.get c.entry_id p.1.entries) e
                ∙ entry-observe hash new_id c found st1 a
                ∙ ap
                    (λ x. some (
                      if checked_before x.last_checked_at c.completed_at
                      then x
                      else update_entry_health x c))
                    same,
          )
