-- ===== src/Tasks/Expiration.antt =====
-- `expire_stale_job_sources` of backend/app/tasks/expiration.py. Times are numbers of seconds, and the
-- two UPDATEs and the commit are one step, since a failure before the commit leaves the tables.
pub mod Consistency
use job_search.Base.{
  ℕ, ◌-◌, ◌*◌, Bool, true, false, not, ◌&&◌, ◌||◌, List, [], ◌∷◌, map, keep, count_of, ltb, length,
  is_none, if◌then◌else◌,
}
use job_search.Coverage.Models.{JobSource, JobPosting}
use job_search.Coverage.Activity.{sorted_ids, refresh_posting}

pub record Expired : Type 0 where
  pub sources_expired : ℕ
  pub jobs_updated : ℕ
  pub sources : List JobSource
  pub postings : List JobPosting

abbrev pub thirty_days : ℕ
thirty_days = 30 * 86400

pub is_stale : ℕ → JobSource → Bool
is_stale cutoff s =
    s.is_active && (is_none s.job_entry_id || not s.lifecycle_managed) && ltb s.last_seen_at cutoff

pub expire_source : ℕ → JobSource → JobSource
expire_source cutoff s = if is_stale cutoff s then record s { is_active = false } else s

pub affected_job_ids : ℕ → List JobSource → List ℕ
affected_job_ids cutoff sources = map (λ s. s.job_posting_id) (keep (is_stale cutoff) sources)

-- What is done for these postings, after the early return where there are none.
pub expire_affected : ℕ → List ℕ → List JobSource → List JobPosting → Expired
expire_affected cutoff [] sources postings = record {
  sources_expired = 0;
  jobs_updated = 0;
  sources = sources;
  postings = postings;
}
expire_affected cutoff (a ∷ ids) sources postings = record {
  sources_expired = count_of (is_stale cutoff) sources;
  jobs_updated = length (sorted_ids (a ∷ ids));
  sources = map (expire_source cutoff) sources;
  postings = map (refresh_posting (a ∷ ids) (map (expire_source cutoff) sources)) postings;
}

pub expire_stale_job_sources : ℕ → List JobSource → List JobPosting → Expired
expire_stale_job_sources now sources postings =
    let cutoff = now - thirty_days in
    expire_affected cutoff (affected_job_ids cutoff sources) sources postings
