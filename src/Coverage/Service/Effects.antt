-- ===== src/Coverage/Service/Effects.antt =====
-- What a recorded snapshot does to the sources and to the entry (`JobCoverageService.record` of
-- backend/app/ingestion/coverage/service.py).
use job_search.Base.{
  ℕ, ◌+◌, ◌≤◌, ◌<◌, ◌≡◌, refl, ◌⊎◌, ◌&&◌, Option, none, ◌∙◌, inl, inr, Bool, true, false, some, map,
  arith, returned, leb, Bool-cases,
}
use job_search.Base.Table
use job_search.Base.Table.{get-put}
use job_search.Coverage.Models.{JobEntry, JobEntryStatus, JobSnapshotStatus, Store, is_succeeded}
use job_search.Coverage.Contracts.{RecordJobSnapshot}
use job_search.Coverage.Service.{
  SnapshotRecordResult, checked_before, is_newer_complete_lifecycle_snapshot, update_entry_health,
  record_snapshot,
}
use job_search.Coverage.Service.Lifecycle.{visit}
use job_search.Coverage.Service.Consistency.{sources_and_entry}

-- Completed after the entry's last check, if there was one.
abbrev pub IsNewer : Option ℕ → ℕ → Type 0
IsNewer none t = Unit
IsNewer (some u) t = u < t

-- The observation failed, or it did not see every page.
abbrev pub IsIncomplete : RecordJobSnapshot → Type 0
IsIncomplete c =
    (c.status ≡ JobSnapshotStatus.partial)
    ⊎ ((c.status ≡ JobSnapshotStatus.failed) ⊎ (c.pagination_complete ≡ false))

-- What becomes of the sources and of the entry, in the three cases of a recorded snapshot.
pub data Effect (c : RecordJobSnapshot) (snapshot_id : ℕ) (entry : JobEntry) (st st' : Store)
    : Type 0 where
  late :
      (u : ℕ)
      → entry.last_checked_at ≡ some u
      → c.completed_at ≤ u
      → st'.sources ≡ st.sources
      → Table.get c.entry_id st'.entries ≡ some entry
      → Effect c snapshot_id entry st st'
  complete :
      IsNewer entry.last_checked_at c.completed_at
      → c.status ≡ JobSnapshotStatus.succeeded
      → c.pagination_complete ≡ true
      → st'.sources ≡ map (visit c snapshot_id) st.sources
      → Table.get c.entry_id st'.entries
        ≡ some (record entry {
          status = JobEntryStatus.active;
          failure_count = 0;
          last_checked_at = some c.completed_at;
          last_success_at = some c.completed_at;
        })
      → Effect c snapshot_id entry st st'
  incomplete :
      IsNewer entry.last_checked_at c.completed_at
      → IsIncomplete c
      → st'.sources ≡ st.sources
      → Table.get c.entry_id st'.entries
        ≡ some (record entry {
          failure_count = entry.failure_count + 1;
          last_checked_at = some c.completed_at;
        })
      → Effect c snapshot_id entry st st'

checked-cases :
    (o : Option ℕ) (t : ℕ)
    → ((u : ℕ) × (o ≡ some u) × (t ≤ u) × (checked_before o t ≡ true))
      ⊎ (IsNewer o t × (checked_before o t ≡ false))
checked-cases none t = inr (tt, refl)
checked-cases (some u) t = elim (Bool-cases (leb t u)) [
  | inl e ↦ inl (u, refl, ground (arith, e), e)
  | inr e ↦ inr (ground (arith, e), e)
]

complete-cases :
    (c : RecordJobSnapshot)
    → ((c.status ≡ JobSnapshotStatus.succeeded)
        × (c.pagination_complete ≡ true)
        × (is_succeeded c.status && c.pagination_complete ≡ true))
      ⊎ (IsIncomplete c × (is_succeeded c.status && c.pagination_complete ≡ false))
complete-cases c = status c.status refl
  where
    status :
        (s : JobSnapshotStatus)
        → c.status ≡ s
        → ((c.status ≡ JobSnapshotStatus.succeeded)
            × (c.pagination_complete ≡ true)
            × (is_succeeded c.status && c.pagination_complete ≡ true))
          ⊎ (IsIncomplete c × (is_succeeded c.status && c.pagination_complete ≡ false))
    status JobSnapshotStatus.partial h = inr (inl h, rw h refl)
    status JobSnapshotStatus.failed h = inr (inr (inl h), rw h refl)
    status JobSnapshotStatus.succeeded h = elim (Bool-cases c.pagination_complete) [
      | inl e ↦ inl (h, e, rw (h, e) refl)
      | inr e ↦ inr (inr (inr e), rw (h, e) refl)
    ]

-- A snapshot that has been recorded as a new one, for an entry that is there, has one of three effects.
-- One that was completed no later than the entry's last check changes neither sources nor entry. A later
-- one that succeeded with all pages visits each source once, makes the entry active, sets its failures to
-- 0, and dates its last check and last success. Any other later one keeps the sources, adds one to the
-- failures, and dates the last check only.
pub record_effect :
    (hash : RecordJobSnapshot → ℕ) (new_id : ℕ) (c : RecordJobSnapshot) (b : Bool) (st : Store)
    (r : SnapshotRecordResult) (st' : Store) (entry : JobEntry)
    → record_snapshot hash new_id c b st ≡ returned (r, st')
    → r.created ≡ true
    → Table.get c.entry_id st.entries ≡ some entry
    → Effect c new_id entry st st'
unfolding is_newer_complete_lifecycle_snapshot update_entry_health
record_effect hash new_id c b st r st' entry h made en =
    let (s, t) = sources_and_entry hash new_id c b st r st' entry h made en in
    elim (checked-cases entry.last_checked_at c.completed_at) [
      | inl (u, o, l, e) ↦ late u o l (ground (arith, s, e)) (t ∙ rw e refl)
      | inr (n, e) ↦ elim (complete-cases c) [
        | inl (a, p, f) ↦ complete n a p (ground (arith, s, e, f)) (t ∙ rw (e, f) refl)
        | inr (i, f) ↦ incomplete n i (ground (arith, s, e, f)) (t ∙ rw (e, f) refl)
      ]
    ]
