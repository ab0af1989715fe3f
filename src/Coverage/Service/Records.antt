-- ===== src/Coverage/Service/Records.antt =====
-- What one call of `JobCoverageService.record` does to the store
-- (backend/app/ingestion/coverage/service.py).
use job_search.Base.{
  ℕ, String, ◌≡◌, refl, inl, inr, Bool, true, false, not, ◌&&◌, Option, none, some, List, [], ◌∷◌,
  ◌++◌, arith, Outcome, returned, raised, ◌>>=◌, require, ◌==◌, holds, Bool-cases,
}
use job_search.Base.Table
use job_search.Base.Table.{get-put}
use job_search.Coverage.Models.{JobEntry, JobCollectionSnapshot, Store}
use job_search.Coverage.Contracts.{RecordJobSnapshot}
use job_search.Coverage.Service.{
  SnapshotRecordResult, is_newer_complete_lifecycle_snapshot, get_snapshot, found, insert_snapshot,
  snapshot_of, replayed, observe, record_snapshot, replay_or_insert, validate_seen_source_ownership,
}

>>=-eq-returned :
    {A B : Type 0} (m : Outcome A) (f : A → Outcome B) {b : B}
    → (m >>= f) ≡ returned b
    → (a : A) × (m ≡ returned a) × (f a ≡ returned b)
>>=-eq-returned (returned a) f h = (a, refl, h)
>>=-eq-returned (raised e) f h = cc

found-eq-returned :
    {A : Type 0} (e : String) (o : Option A) {a : A} → found e o ≡ returned a → o ≡ some a
unfolding found
found-eq-returned e none h = cc
found-eq-returned e (some a) h = cc

pub get_snapshot-append :
    (entry_id run_id : ℕ) (xs : List JobCollectionSnapshot) (s : JobCollectionSnapshot)
    → get_snapshot entry_id run_id xs ≡ none
    → (s.job_entry_id == entry_id && s.crawl_run_id == run_id) ≡ true
    → get_snapshot entry_id run_id (xs ++ s ∷ []) ≡ some s
unfolding get_snapshot
get_snapshot-append entry_id run_id [] s h e = rw e refl
get_snapshot-append entry_id run_id (x ∷ xs) s h e =
    elim (Bool-cases (x.job_entry_id == entry_id && x.crawl_run_id == run_id)) [
      | inl m ↦ absurd (ground arith)
      | inr m ↦ rw m (get_snapshot-append entry_id run_id xs s (rw m at h) e)
    ]

module _ (hash : RecordJobSnapshot → ℕ) (new_id : ℕ) (c : RecordJobSnapshot) (st : Store) where
  -- What a call that returns has done: it found the command recorded, or it inserted a snapshot and
  -- observed it.
  pub data Recorded (r : SnapshotRecordResult) (st' : Store) : Type 0 where
    again :
        (entry : JobEntry) (existing : JobCollectionSnapshot)
        → Table.get c.entry_id st.entries ≡ some entry
        → get_snapshot c.entry_id c.crawl_run_id st.snapshots ≡ some existing
        → existing.command_hash ≡ hash c
        → r ≡ record {
          snapshot_id = existing.id;
          created = false;
          sources_reactivated = 0;
          sources_missing_incremented = 0;
          sources_deactivated = 0;
          jobs_recomputed = 0;
        }
        → st' ≡ st
        → Recorded r st'
    fresh :
        (entry : JobEntry)
        → Table.get c.entry_id st.entries ≡ some entry
        → get_snapshot c.entry_id c.crawl_run_id st.snapshots ≡ none
        → (r, st')
          ≡ observe hash new_id c entry (record st {
            snapshots =
                st.snapshots
                ++ snapshot_of hash new_id c (is_newer_complete_lifecycle_snapshot entry c) ∷ [];
          })
        → Recorded r st'

  inserted :
      (b : Bool) {st' : Store}
      → insert_snapshot hash new_id c b st ≡ returned st'
      → st' ≡ record st { snapshots = st.snapshots ++ snapshot_of hash new_id c b ∷ [] }
  unfolding insert_snapshot
  inserted b h =
      let (entry, e, h1) =
        >>=-eq-returned (found "unknown job_entry_id" (Table.get c.entry_id st.entries)) _ h in
      let (company, e2, h2) =
        >>=-eq-returned (found "unknown crawl_run_id" (Table.get c.crawl_run_id st.run_companies)) _
          h1 in
      let (u, e3, h3) =
        >>=-eq-returned
          (require (holds company entry.company_id) "crawl run does not belong to entry company") _
          h2 in
      ground (arith, h3)

  settled :
      (entry : JobEntry) (o : Option JobCollectionSnapshot) {r : SnapshotRecordResult} {st' : Store}
      → Table.get c.entry_id st.entries ≡ some entry
      → get_snapshot c.entry_id c.crawl_run_id st.snapshots ≡ o
      → replay_or_insert hash new_id c entry st o ≡ returned (r, st')
      → Recorded r st'
  unfolding replay_or_insert replayed
  settled entry (some existing) e o h =
      again entry existing e o (ground arith) (ground arith) (ground arith)
  settled entry none e o h =
      let (u, e1, h1) = >>=-eq-returned (validate_seen_source_ownership c st.sources) _ h in
      let (st1, e2, h2) =
        >>=-eq-returned
          (insert_snapshot hash new_id c (is_newer_complete_lifecycle_snapshot entry c) st) _ h1 in
      fresh entry e o (cc (h2, inserted (is_newer_complete_lifecycle_snapshot entry c) e2))

  pub recorded :
      (b : Bool) {r : SnapshotRecordResult} {st' : Store}
      → record_snapshot hash new_id c b st ≡ returned (r, st')
      → Recorded r st'
  unfolding record_snapshot
  recorded b h =
      let (u, e0, h0) = >>=-eq-returned (require (not b) "active_session_transaction") _ h in
      let (entry, e, h1) =
        >>=-eq-returned (found "unknown job_entry_id" (Table.get c.entry_id st.entries)) _ h0 in
      settled entry (get_snapshot c.entry_id c.crawl_run_id st.snapshots)
        (found-eq-returned "unknown job_entry_id" _ e) refl h1
