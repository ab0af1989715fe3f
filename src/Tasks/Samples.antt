-- ===== src/Tasks/Samples.antt =====
-- The expiration of a source that has not been seen for a month, and the recovery of stale runs beside
-- a run that has failed.
use job_search.Base.{ℕ, ◌+◌, ◌≡◌, refl, true, false, Option, none, some, [], ◌∷◌}
use job_search.Base.Table
use job_search.Collection.Models.{CrawlRun, queued, running, failed, on_demand}
use job_search.Collection.Session.{Session, clean}
use job_search.Coverage.Models.{JobSource, JobPosting}
use job_search.Coverage.Activity.{has_active_source}
use job_search.Tasks.Expiration.{expire_stale_job_sources}
use job_search.Tasks.Expiration.Consistency.{
  AgreesWith, expire_stale_job_sources-AgreesWith, expire_twice,
}
use job_search.Tasks.Schedule.{Settings, redispatch_stale_queued_runs}
use job_search.Tasks.Schedule.Terminal.{redispatch_stale_queued_runs-keeps}

abbrev source : JobSource
source = record {
  id = 1;
  job_posting_id = 5;
  job_entry_id = none;
  last_seen_snapshot_id = none;
  last_seen_at = 1000;
  is_active = true;
  missing_complete_snapshots = 0;
  lifecycle_managed = false;
}

abbrev posting : JobPosting
posting = record { id = 5; company_id = 2; is_active = true }

expire_stale_job_sources-AgreesWith_example :
    AgreesWith
      (expire_stale_job_sources 3000000 (source ∷ []) (posting ∷ [])).sources
      (expire_stale_job_sources 3000000 (source ∷ []) (posting ∷ [])).postings
unfolding has_active_source
expire_stale_job_sources-AgreesWith_example =
    expire_stale_job_sources-AgreesWith 3000000 (source ∷ []) (posting ∷ []) (refl, tt)

expire_twice_example :
    let first = expire_stale_job_sources 3000000 (source ∷ []) (posting ∷ []) in
    expire_stale_job_sources 3000000 first.sources first.postings
    ≡ record first { sources_expired = 0; jobs_updated = 0 }
expire_twice_example = expire_twice 3000000 (source ∷ []) (posting ∷ [])

abbrev failed_run : CrawlRun
failed_run = record {
  id = 3;
  collection_request_id = some 7;
  company_id = none;
  run_type = on_demand;
  status = failed;
  celery_task_id = none;
  providers_attempted = [];
  documents_found = 0;
  jobs_found = 0;
  jobs_written = 0;
  error_code = some "collection_unavailable";
  error_detail = none;
  claim_token = none;
  started_at = none;
  completed_at = some 9;
  created_at = 1;
}

abbrev queued_run : CrawlRun
queued_run = record failed_run { id = 4; status = queued; error_code = none; completed_at = none }

abbrev session : Session
session = clean (record { runs = (3, failed_run) ∷ (4, queued_run) ∷ []; requests = [] })

abbrev delay : ℕ → Option ℕ
delay run_id = some (run_id + 100)

abbrev settings : Settings
settings = record { collection_stale_queued_seconds = 60; collection_stale_running_seconds = 600 }

redispatch_stale_queued_runs-keeps_example :
    Table.get 3 (redispatch_stale_queued_runs delay settings 5000 session).1.committed.runs
    ≡ some failed_run
unfolding Table.get
redispatch_stale_queued_runs-keeps_example =
    redispatch_stale_queued_runs-keeps 3 failed_run refl delay settings 5000 session refl

abbrev running_run : CrawlRun
running_run = record queued_run {
  id = 5;
  status = running;
  claim_token = some 12;
  started_at = some 20;
}

abbrev busy : Session
busy = clean (record { runs = (5, running_run) ∷ []; requests = [] })
