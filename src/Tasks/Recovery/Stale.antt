-- ===== src/Tasks/Recovery/Stale.antt =====
-- A worker that comes late does not disturb the run of another (backend/app/tasks/collection.py).
use job_search.Base.{
  ℕ, ◌≡◌, ◌≢◌, refl, inl, inr, Bool, true, false, ◌||◌, some, [], ◌∷◌, returned, Bool-cases,
}
use job_search.Base.Table
use job_search.Collection.Models.{CrawlRun, is_running, is_terminal}
use job_search.Collection.Session.{Tables, Session, rollback, get_run}
use job_search.Collection.Repository.{claim_queued, claim_row}
use job_search.Collection.Repository.Events.{
  requeue, exhaust, perform, perform_all, fenced_by_token,
}
use job_search.Tasks.Recovery.{mark_claimed, mark_collection_unavailable, recover_retry_state}

-- A worker that recovers from a failure with a token that no longer is the run's leaves the row of the
-- running run as it is, whether its retries are exhausted or not.
pub recover_retry_state-keeps :
    (j : ℕ) (r : CrawlRun) (exhausted : Bool) (run_id token now : ℕ) (s : Session)
    → Table.get j s.committed.runs ≡ some r
    → is_running r.status ≡ true
    → some token ≢ r.claim_token
    → Table.get j (recover_retry_state exhausted run_id token now s).1.committed.runs ≡ some r
unfolding recover_retry_state perform perform_all
recover_retry_state-keeps j r true run_id token now s g h ne =
    fenced_by_token j r (exhaust run_id token now ∷ []) (rollback s) g h (ne, tt)
recover_retry_state-keeps j r false run_id token now s g h ne =
    fenced_by_token j r (requeue run_id token now ∷ []) (rollback s) g h (ne, tt)

-- A worker without a runtime that is given a run which has ended or is running returns this run, and
-- leaves the session as it is.
pub mark_collection_unavailable-keeps :
    (other : Tables → Tables) (run_id token now : ℕ) (s : Session) (r : CrawlRun)
    → get_run run_id s ≡ some r
    → (is_terminal r.status || is_running r.status) ≡ true
    → mark_collection_unavailable other run_id token now s ≡ (returned (some r), s)
unfolding mark_collection_unavailable mark_claimed claim_row claim_queued
mark_collection_unavailable-keeps other run_id token now s r g h =
    rw (g, claim_queued)
      (rw h (elim (Bool-cases (is_terminal r.status)) [ inl e ↦ rw e refl | inr e ↦ rw e refl ]))
