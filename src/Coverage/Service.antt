-- ===== src/Coverage/Service.antt =====
-- `JobCoverageService` of backend/app/ingestion/coverage/service.py and the reads and the insert of
-- `CoverageRepository` (repository.py) that it calls. A call that raises leaves the store as it was,
-- since `record` works in one transaction.
pub mod Lifecycle
pub mod Strikes
pub mod Records
pub mod Replay
pub mod Consistency
pub mod Effects
use job_search.Base.{
  ℕ, zero, suc, ◌+◌, String, ◌≡◌, Bool, true, false, not, ◌&&◌, ◌||◌, Option, none, some, List, [],
  ◌∷◌, ◌++◌, map, Outcome, returned, raised, ◌>>=◌, ◌>>◌, require, leb, ltb, ◌==◌, holds, contains,
  all_of, keep, length, if◌then◌else◌,
}
use job_search.Base.Table
use job_search.Coverage.Models.{
  JobEntry, JobEntryStatus, JobCollectionSnapshot, JobSource, JobPosting, Store, is_succeeded,
}
use job_search.Coverage.Contracts.{RecordJobSnapshot}
use job_search.Coverage.Activity.{recompute_job_activity}

pub record SnapshotRecordResult : Type 0 where
  pub snapshot_id : ℕ
  pub created : Bool
  pub sources_reactivated : ℕ
  pub sources_missing_incremented : ℕ
  pub sources_deactivated : ℕ
  pub jobs_recomputed : ℕ

pub record LifecycleCounters : Type 0 where
  pub sources_reactivated : ℕ
  pub sources_missing_incremented : ℕ
  pub sources_deactivated : ℕ
  pub affected_job_ids : List ℕ

abbrev pub no_counters : LifecycleCounters
no_counters = record {
  sources_reactivated = 0;
  sources_missing_incremented = 0;
  sources_deactivated = 0;
  affected_job_ids = [];
}

abbrev pub deactivation_missing_threshold : ℕ
deactivation_missing_threshold = 2

-- `SELECT ... WHERE job_entry_id = entry`
unfoldable pub of_entry : RecordJobSnapshot → JobSource → Bool
of_entry c s = holds s.job_entry_id c.entry_id

-- `source.id in command.seen_source_ids`
unfoldable pub seen : RecordJobSnapshot → JobSource → Bool
seen c s = contains c.seen_source_ids s.id

pub mark_seen : RecordJobSnapshot → ℕ → JobSource → JobSource
mark_seen c snapshot_id s = record s {
  lifecycle_managed = true;
  last_seen_snapshot_id = some snapshot_id;
  last_seen_at = c.completed_at;
  missing_complete_snapshots = 0;
  is_active = true;
}

-- The test of the threshold reads the count that has just been raised.
unfoldable pub drops_out : JobSource → Bool
drops_out s = s.is_active && leb deactivation_missing_threshold (s.missing_complete_snapshots + 1)

pub mark_missing : JobSource → JobSource
unfolding drops_out
mark_missing s = record s {
  lifecycle_managed = true;
  missing_complete_snapshots = s.missing_complete_snapshots + 1;
  is_active = if drops_out s then false else s.is_active;
}

-- The first loop: the sources of the entry that the snapshot has seen.
pub seen_loop : RecordJobSnapshot → ℕ → List JobSource → ℕ → List JobSource × ℕ
unfolding of_entry seen mark_seen
seen_loop c snapshot_id [] reactivated = ([], reactivated)
seen_loop c snapshot_id (s ∷ rest) reactivated =
    let applies = of_entry c s && seen c s in
    let (rest', n) =
      seen_loop c snapshot_id rest
        (if applies && not s.is_active then reactivated + 1 else reactivated) in
    ((if applies then mark_seen c snapshot_id s else s) ∷ rest', n)

-- The second loop: the sources of the entry that it has not seen. It returns the sources, how many of
-- them were missing, and how many it has deactivated.
pub missing_loop : RecordJobSnapshot → List JobSource → ℕ → ℕ → List JobSource × ℕ × ℕ
unfolding of_entry seen mark_missing
missing_loop c [] missing deactivated = ([], missing, deactivated)
missing_loop c (s ∷ rest) missing deactivated =
    let applies = of_entry c s && not (seen c s) in
    let (rest', m, d) =
      missing_loop c rest (if applies then missing + 1 else missing)
        (if applies && drops_out s then deactivated + 1 else deactivated) in
    ((if applies then mark_missing s else s) ∷ rest', m, d)

unfoldable pub apply_complete_snapshot :
    RecordJobSnapshot → ℕ → List JobSource → List JobSource × LifecycleCounters
unfolding seen_loop missing_loop
apply_complete_snapshot c snapshot_id sources =
    let (sources', reactivated) = seen_loop c snapshot_id sources 0 in
    let (sources'', missing, deactivated) = missing_loop c sources' 0 0 in
    (
      sources'',
      record {
        sources_reactivated = reactivated;
        sources_missing_incremented = missing;
        sources_deactivated = deactivated;
        affected_job_ids = map (λ s. s.job_posting_id) (keep (of_entry c) sources);
      },
    )

abbrev pub checked_before : Option ℕ → ℕ → Bool
checked_before none t = false
checked_before (some u) t = leb t u

unfoldable pub is_newer_complete_lifecycle_snapshot : JobEntry → RecordJobSnapshot → Bool
is_newer_complete_lifecycle_snapshot entry c =
    is_succeeded c.status
    && c.pagination_complete
    && not (checked_before entry.last_checked_at c.completed_at)

unfoldable pub update_entry_health : JobEntry → RecordJobSnapshot → JobEntry
update_entry_health entry c =
    if is_succeeded c.status && c.pagination_complete
    then record entry {
      status = JobEntryStatus.active;
      failure_count = 0;
      last_checked_at = some c.completed_at;
      last_success_at = some c.completed_at;
    }
    else record entry {
      failure_count = entry.failure_count + 1;
      last_checked_at = some c.completed_at;
    }

unfoldable pub get_snapshot : ℕ → ℕ → List JobCollectionSnapshot → Option JobCollectionSnapshot
get_snapshot entry_id run_id [] = none
get_snapshot entry_id run_id (s ∷ rest) =
    if s.job_entry_id == entry_id && s.crawl_run_id == run_id
    then some s
    else get_snapshot entry_id run_id rest

unfoldable pub found {ℓ} : {A : Type ℓ} → String → Option A → Outcome A
found e none = raised e
found e (some a) = returned a

unfoldable pub validate_seen_source_ownership :
    RecordJobSnapshot → List JobSource → Outcome (Unit {0})
validate_seen_source_ownership c sources =
    require (all_of (contains (map (λ s. s.id) (keep (of_entry c) sources))) c.seen_source_ids)
      "source_entry_conflict"

-- `hash` is the digest of the command's canonical JSON, and `new_id` the UUID of the new row.
module _ (hash : RecordJobSnapshot → ℕ) (new_id : ℕ) (c : RecordJobSnapshot) where
  unfoldable pub snapshot_of : Bool → JobCollectionSnapshot
  snapshot_of lifecycle_applied = record {
    id = new_id;
    job_entry_id = c.entry_id;
    crawl_run_id = c.crawl_run_id;
    status = c.status;
    lifecycle_applied = lifecycle_applied;
    pagination_complete = c.pagination_complete;
    empty_confirmed = c.empty_confirmed;
    reported_total = c.reported_total;
    observed_count = length c.seen_source_ids;
    pages_fetched = c.pages_fetched;
    content_fingerprint = c.content_fingerprint;
    command_hash = hash c;
    error_code = c.error_code;
    started_at = c.started_at;
    completed_at = c.completed_at;
  }

  unfoldable pub insert_snapshot : Bool → Store → Outcome Store
  insert_snapshot lifecycle_applied st = do
    entry ← found "unknown job_entry_id" (Table.get c.entry_id st.entries)
    company ← found "unknown crawl_run_id" (Table.get c.crawl_run_id st.run_companies)
    require (holds company entry.company_id) "crawl run does not belong to entry company"
    elim (get_snapshot c.entry_id c.crawl_run_id st.snapshots) [
      | none ↦
          returned (record st { snapshots = st.snapshots ++ snapshot_of lifecycle_applied ∷ [] })
      | some s ↦ raised "snapshot already exists"
    ]

  pub replayed : JobCollectionSnapshot → Store → Outcome (SnapshotRecordResult × Store)
  replayed existing st =
      if existing.command_hash == hash c
      then returned (
        record {
          snapshot_id = existing.id;
          created = false;
          sources_reactivated = 0;
          sources_missing_incremented = 0;
          sources_deactivated = 0;
          jobs_recomputed = 0;
        },
        st,
      )
      else raised "snapshot_conflict"

  result_of : LifecycleCounters → ℕ → SnapshotRecordResult
  result_of counters jobs = record {
    snapshot_id = new_id;
    created = true;
    sources_reactivated = counters.sources_reactivated;
    sources_missing_incremented = counters.sources_missing_incremented;
    sources_deactivated = counters.sources_deactivated;
    jobs_recomputed = jobs;
  }

  -- What follows the insert: a snapshot that is not newer than the entry's last check changes nothing.
  unfoldable pub observe : JobEntry → Store → SnapshotRecordResult × Store
  unfolding result_of
  observe entry st =
      let entries = Table.put c.entry_id (update_entry_health entry c) st.entries in
      if checked_before entry.last_checked_at c.completed_at
      then (result_of no_counters 0, st)
      else if is_newer_complete_lifecycle_snapshot entry c
      then (let (sources, counters) = apply_complete_snapshot c new_id st.sources in
          let (postings, jobs) =
            recompute_job_activity counters.affected_job_ids sources st.postings in
          (
            result_of counters jobs,
            record st { entries = entries; sources = sources; postings = postings },
          ))
      else (let (postings, jobs) = recompute_job_activity [] st.sources st.postings in
          (result_of no_counters jobs, record st { entries = entries; postings = postings }))

  -- The two branches of `record` on a snapshot that may be there already.
  unfoldable pub replay_or_insert :
      JobEntry → Store → Option JobCollectionSnapshot → Outcome (SnapshotRecordResult × Store)
  replay_or_insert entry st (some existing) = replayed existing st
  replay_or_insert entry st none = do
    validate_seen_source_ownership c st.sources
    inserted ← insert_snapshot (is_newer_complete_lifecycle_snapshot entry c) st
    returned (observe entry inserted)

  unfoldable pub record_snapshot : Bool → Store → Outcome (SnapshotRecordResult × Store)
  record_snapshot in_transaction st = do
    require (not in_transaction) "active_session_transaction"
    entry ← found "unknown job_entry_id" (Table.get c.entry_id st.entries)
    replay_or_insert entry st (get_snapshot c.entry_id c.crawl_run_id st.snapshots)
