-- ===== src/Coverage/Service/Replay.antt =====
-- A command that is recorded again, and the clock of an entry, in `JobCoverageService.record` of
-- backend/app/ingestion/coverage/service.py.
use job_search.Base.{
  ℕ, ◌≡◌, refl, ap, ◌∙◌, Bool, true, false, ◌&&◌, some, [], ◌∷◌, ◌++◌, arith, returned, ◌==◌,
  if◌then◌else◌,
}
use job_search.Base.Table
use job_search.Base.Table.{get-put}
use job_search.Coverage.Models.{JobEntry, JobCollectionSnapshot, Store}
use job_search.Coverage.Contracts.{RecordJobSnapshot}
use job_search.Coverage.Service.{
  SnapshotRecordResult, checked_before, found, is_newer_complete_lifecycle_snapshot,
  update_entry_health, get_snapshot, snapshot_of, replayed, replay_or_insert, observe,
  record_snapshot,
}
use job_search.Coverage.Service.Records.{Recorded, again, fresh, recorded, get_snapshot-append}

module _ (hash : RecordJobSnapshot → ℕ) (new_id : ℕ) (c : RecordJobSnapshot) where
  abbrev pub as_replay : ℕ → SnapshotRecordResult
  as_replay snapshot_id = record {
    snapshot_id = snapshot_id;
    created = false;
    sources_reactivated = 0;
    sources_missing_incremented = 0;
    sources_deactivated = 0;
    jobs_recomputed = 0;
  }

  replays :
      (st : Store) (entry : JobEntry) (existing : JobCollectionSnapshot)
      → Table.get c.entry_id st.entries ≡ some entry
      → get_snapshot c.entry_id c.crawl_run_id st.snapshots ≡ some existing
      → existing.command_hash ≡ hash c
      → record_snapshot hash new_id c false st ≡ returned (as_replay existing.id, st)
  unfolding record_snapshot found replay_or_insert replayed
  replays st entry existing e s h = rw e (rw s (ground arith))

  module _ (entry : JobEntry) (st : Store) where
    snapshots-observe : (observe hash new_id c entry st).1.snapshots ≡ st.snapshots
    unfolding observe
    snapshots-observe = ground arith

    result-observe : (observe hash new_id c entry st).0.snapshot_id ≡ new_id
    unfolding observe
    result-observe = ground arith

    -- The entry after an observation: as it was, or with its health brought up to date.
    pub entry-observe :
        Table.get c.entry_id st.entries ≡ some entry
        → Table.get c.entry_id (observe hash new_id c entry st).1.entries
          ≡ some (
              if checked_before entry.last_checked_at c.completed_at
              then entry
              else update_entry_health entry c)
    unfolding observe
    entry-observe e =
        ground (arith, get-put c.entry_id c.entry_id (update_entry_health entry c) st.entries)

own_key :
    (hash : RecordJobSnapshot → ℕ) (new_id : ℕ) (c : RecordJobSnapshot) (b : Bool)
    → ((snapshot_of hash new_id c b).job_entry_id == c.entry_id
        && (snapshot_of hash new_id c b).crawl_run_id == c.crawl_run_id)
      ≡ true
unfolding snapshot_of
own_key hash new_id c b = ground arith

module _ (hash : RecordJobSnapshot → ℕ) (new_id : ℕ) (c : RecordJobSnapshot) (st : Store) where
  -- Recording a command again, whatever UUID the second call would use, returns the snapshot of the
  -- first call and changes nothing.
  pub record_twice :
      (later_id : ℕ) (r : SnapshotRecordResult) (st' : Store)
      → record_snapshot hash new_id c false st ≡ returned (r, st')
      → record_snapshot hash later_id c false st'
        ≡ returned (as_replay hash new_id c r.snapshot_id, st')
  unfolding snapshot_of
  record_twice later_id r st' h = go (recorded hash new_id c st false h)
    where
      go :
          Recorded hash new_id c st r st'
          → record_snapshot hash later_id c false st'
            ≡ returned (as_replay hash new_id c r.snapshot_id, st')
      go (again entry existing en a b e e') =
          rw e' (rw e (replays hash later_id c st entry existing en a b))
      go (fresh entry a b e) =
          let snapshot = snapshot_of hash new_id c (is_newer_complete_lifecycle_snapshot entry c) in
          let st1 : Store = record st { snapshots = st.snapshots ++ snapshot ∷ [] } in
          let same_snapshots : st'.snapshots ≡ st1.snapshots =
            ap (λ p. p.1.snapshots) e ∙ snapshots-observe hash new_id c entry st1 in
          let kept : get_snapshot c.entry_id c.crawl_run_id st'.snapshots ≡ some snapshot =
            rw same_snapshots (
              get_snapshot-append c.entry_id c.crawl_run_id st.snapshots snapshot b
                (own_key hash new_id c (is_newer_complete_lifecycle_snapshot entry c))) in
          let same_id : r.snapshot_id ≡ new_id =
            ap (λ p. p.0.snapshot_id) e ∙ result-observe hash new_id c entry st1 in
          rw same_id (
            replays hash later_id c st' _ snapshot
              (ap (λ p. Table.get c.entry_id p.1.entries) e
                ∙ entry-observe hash new_id c entry st1 a)
              kept refl)
