-- ===== src/Collection/Models.antt =====
-- The rows of a collection request and its crawl run (backend/app/models/collection.py and enums.py).
-- UUIDs, tokens and times are numbers.
use job_search.Base.{ℕ, String, Bool, true, false, Option, List}

pub data CollectionStatus : Type 0 where
  queued running succeeded partial failed : CollectionStatus

pub data RunType : Type 0 where
  discovery company_refresh on_demand expiration : RunType

pub record CollectionRequest : Type 0 where
  pub id : ℕ
  pub query : String
  pub normalized_query : String
  pub status : CollectionStatus
  pub company_id : Option ℕ
  pub error_code : Option String
  pub completed_at : Option ℕ
  pub created_at : ℕ

pub record CrawlRun : Type 0 where
  pub id : ℕ
  pub collection_request_id : Option ℕ
  pub company_id : Option ℕ
  pub run_type : RunType
  pub status : CollectionStatus
  pub celery_task_id : Option ℕ
  pub providers_attempted : List String
  pub documents_found : ℕ
  pub jobs_found : ℕ
  pub jobs_written : ℕ
  pub error_code : Option String
  pub error_detail : Option String
  pub claim_token : Option ℕ
  pub started_at : Option ℕ
  pub completed_at : Option ℕ
  pub created_at : ℕ

abbrev pub is_queued : CollectionStatus → Bool
is_queued queued = true
is_queued _ = false

abbrev pub is_running : CollectionStatus → Bool
is_running running = true
is_running _ = false

-- `status in _TERMINAL_STATUSES`
abbrev pub is_terminal : CollectionStatus → Bool
is_terminal queued = false
is_terminal running = false
is_terminal _ = true

-- `status in (QUEUED, RUNNING)`
abbrev pub is_active_status : CollectionStatus → Bool
is_active_status queued = true
is_active_status running = true
is_active_status _ = false
