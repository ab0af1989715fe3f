-- ===== src/Coverage/Samples.antt =====
-- Coverage snapshots at concrete rows.
use job_search.Base.{
  ℕ, ◌≡◌, refl, true, false, none, some, List, [], ◌∷◌, map, All, returned, count_of, contains,
}
use job_search.Base.Table
use job_search.Coverage.Models.{JobEntry, JobEntryStatus, JobSource, JobPosting, Store, succeeded}
use job_search.Coverage.Contracts.{
  RecordJobSnapshot, IsValidSnapshot, validate_snapshot_invariants, validate_iff,
}
use job_search.Coverage.Activity.{
  recompute_job_activity, refresh_posting, has_active_source, refresh_batches, sorted_ids,
}
use job_search.Coverage.Activity.Batches.{recompute_job_activity_lem}
use job_search.Coverage.Service.{
  SnapshotRecordResult, record_snapshot, apply_complete_snapshot, observe, snapshot_of,
  insert_snapshot, replay_or_insert, get_snapshot, found, validate_seen_source_ownership,
  update_entry_health, is_newer_complete_lifecycle_snapshot, of_entry, seen, drops_out,
}
use job_search.Coverage.Service.Lifecycle.{visit, apply_complete_snapshot_lem}
use job_search.Coverage.Service.Strikes.{after_both, two_absences_deactivate, one_absence_forgiven}
use job_search.Coverage.Service.Replay.{as_replay, record_twice}
use job_search.Coverage.Service.Consistency.{IsConsistent, record-IsConsistent}
use job_search.Coverage.Service.Effects.{Effect, record_effect}

abbrev entry : JobEntry
entry = record {
  id = 1;
  company_id = 9;
  url = "https://acme.example/jobs";
  normalized_url = "https://acme.example/jobs";
  provider = "ats";
  platform = "moka";
  requires_rendering = false;
  status = JobEntryStatus.unknown;
  failure_count = 2;
  last_checked_at = some 40;
  last_success_at = none;
}

abbrev kept : JobSource
kept = record {
  id = 10;
  job_posting_id = 100;
  job_entry_id = some 1;
  last_seen_snapshot_id = none;
  last_seen_at = 30;
  is_active = false;
  missing_complete_snapshots = 3;
  lifecycle_managed = true;
}

abbrev gone : JobSource
gone = record {
  id = 11;
  job_posting_id = 101;
  job_entry_id = some 1;
  last_seen_snapshot_id = none;
  last_seen_at = 30;
  is_active = true;
  missing_complete_snapshots = 1;
  lifecycle_managed = true;
}

abbrev postings : List JobPosting
postings =
    record { id = 100; company_id = 9; is_active = false }
    ∷ record { id = 101; company_id = 9; is_active = true }
    ∷ []

abbrev store : Store
store = record {
  companies = 9 ∷ [];
  entries = (1, entry) ∷ [];
  run_companies = (5, some 9) ∷ (6, some 9) ∷ [];
  snapshots = [];
  sources = kept ∷ gone ∷ [];
  postings = postings;
}

abbrev command : RecordJobSnapshot
command = record {
  entry_id = 1;
  crawl_run_id = 5;
  status = succeeded;
  pagination_complete = true;
  empty_confirmed = false;
  reported_total = some 1;
  pages_fetched = 1;
  content_fingerprint = none;
  error_code = none;
  started_at = 49;
  completed_at = 50;
  seen_source_ids = 10 ∷ [];
}

abbrev later : RecordJobSnapshot
later = record command { crawl_run_id = 6; completed_at = 60; seen_source_ids = [] }

abbrev hash : RecordJobSnapshot → ℕ
hash c = c.completed_at

abbrev result : SnapshotRecordResult
result = record {
  snapshot_id = 77;
  created = true;
  sources_reactivated = 1;
  sources_missing_incremented = 1;
  sources_deactivated = 1;
  jobs_recomputed = 2;
}

abbrev store_after : Store
store_after = record store {
  entries =
      (
        1,
        record entry {
          status = JobEntryStatus.active;
          failure_count = 0;
          last_checked_at = some 50;
          last_success_at = some 50;
        },
      )
      ∷ [];
  snapshots =
      record {
        id = 77;
        job_entry_id = 1;
        crawl_run_id = 5;
        status = succeeded;
        lifecycle_applied = true;
        pagination_complete = true;
        empty_confirmed = false;
        reported_total = some 1;
        observed_count = 1;
        pages_fetched = 1;
        content_fingerprint = none;
        command_hash = 50;
        error_code = none;
        started_at = 49;
        completed_at = 50;
      }
      ∷ [];
  sources =
      record kept {
        last_seen_snapshot_id = some 77;
        last_seen_at = 50;
        is_active = true;
        missing_complete_snapshots = 0;
      }
      ∷ record gone { is_active = false; missing_complete_snapshots = 2 }
      ∷ [];
  postings =
      record { id = 100; company_id = 9; is_active = true }
      ∷ record { id = 101; company_id = 9; is_active = false }
      ∷ [];
}

recorded_once : record_snapshot hash 77 command false store ≡ returned (result, store_after)
unfolding record_snapshot found Table.get Table.put replay_or_insert get_snapshot insert_snapshot
    observe snapshot_of validate_seen_source_ownership update_entry_health apply_complete_snapshot
    is_newer_complete_lifecycle_snapshot recompute_job_activity refresh_batches sorted_ids
    refresh_posting has_active_source
recorded_once = refl

record_twice_example :
    record_snapshot hash 78 command false store_after
    ≡ returned (as_replay hash 77 command 77, store_after)
record_twice_example = record_twice hash 77 command store 78 result store_after recorded_once

store-IsConsistent : IsConsistent store
unfolding has_active_source
store-IsConsistent = (refl, (refl, tt))

record-IsConsistent_example : IsConsistent store_after
record-IsConsistent_example =
    record-IsConsistent hash 77 command false store result store_after recorded_once
      store-IsConsistent

record_effect_example : Effect command 77 entry store store_after
unfolding Table.get
record_effect_example =
    record_effect hash 77 command false store result store_after entry recorded_once refl refl

two_absences_deactivate_example :
    All
      (λ s.
        of_entry later s ≡ true
        → of_entry later s ≡ true
        → seen later s ≡ false
        → seen later s ≡ false
        → s.is_active ≡ false)
      (after_both later later 1 2 (kept ∷ gone ∷ []))
two_absences_deactivate_example = two_absences_deactivate later later 1 2 (kept ∷ gone ∷ [])

one_absence_forgiven_example :
    All
      (λ s. of_entry command s ≡ true → seen command s ≡ true → s.is_active ≡ true)
      (after_both command later 1 2 (kept ∷ gone ∷ []))
one_absence_forgiven_example = one_absence_forgiven command later 1 2 (kept ∷ gone ∷ [])

recompute_job_activity_example :
    recompute_job_activity (101 ∷ 100 ∷ 101 ∷ []) (kept ∷ gone ∷ []) postings ≡ (
      map (refresh_posting (101 ∷ 100 ∷ 101 ∷ []) (kept ∷ gone ∷ [])) postings,
      count_of (λ p. contains (101 ∷ 100 ∷ 101 ∷ []) p.id) postings,
    )
recompute_job_activity_example =
    recompute_job_activity_lem (101 ∷ 100 ∷ 101 ∷ []) (kept ∷ gone ∷ []) postings

apply_complete_snapshot_example : apply_complete_snapshot command 77 (kept ∷ gone ∷ []) ≡ (
  map (visit command 77) (kept ∷ gone ∷ []),
  record {
    sources_reactivated = 1;
    sources_missing_incremented = 1;
    sources_deactivated = 1;
    affected_job_ids = 100 ∷ 101 ∷ [];
  },
)
unfolding of_entry seen drops_out
apply_complete_snapshot_example = apply_complete_snapshot_lem command 77 (kept ∷ gone ∷ [])

validate_iff_example :
    ((d : RecordJobSnapshot)
      → validate_snapshot_invariants command ≡ returned d
      → IsValidSnapshot command × (d ≡ command))
    × (IsValidSnapshot command → validate_snapshot_invariants command ≡ returned command)
validate_iff_example = validate_iff command
