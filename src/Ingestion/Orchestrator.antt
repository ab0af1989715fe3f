-- ===== src/Ingestion/Orchestrator.antt =====
-- `IngestionOrchestrator.run` of backend/app/ingestion/orchestrator.py, on the session of Collection. What
-- the other workers commit while the body works is a function on the committed tables, and a parameter
-- says whether the database can be reached when the run is finished.
pub mod Endings
use job_search.Base.{
  ℕ, String, Bool, true, false, not, Option, none, some, List, [], ◌∷◌, ◌++◌, length, Outcome,
  returned, raised, if◌then◌else◌,
}
use job_search.Collection.Models.{CollectionStatus, failed, CrawlRun, CollectionRequest}
use job_search.Collection.Session.{Tables, Session, interfere}
use job_search.Collection.Repository.{
  RunClaim, FinishReport, get_request_for_run, claim_queued, finish,
}
use job_search.Ingestion.Providers.{Provider, Diagnostic, no_detail, public_code}
use job_search.Ingestion.Services.{
  Services, Progress, Conclusion, conclude, interrupted, failing, detail_of,
}
use job_search.Ingestion.Pipeline.{run_body}

-- backend/app/ingestion/result.py
pub record IngestionResult : Type 0 where
  pub run_id : ℕ
  pub status : CollectionStatus
  pub company_id : Option ℕ
  pub providers_attempted : List String
  pub documents_found : ℕ
  pub jobs_found : ℕ
  pub jobs_written : ℕ
  pub error_code : Option String

pub from_run : CrawlRun → IngestionResult
from_run run = record {
  run_id = run.id;
  status = run.status;
  company_id = run.company_id;
  providers_attempted = run.providers_attempted;
  documents_found = run.documents_found;
  jobs_found = run.jobs_found;
  jobs_written = run.jobs_written;
  error_code = run.error_code;
}

abbrev pub failed_result : ℕ → String → IngestionResult
failed_result run_id code = record {
  run_id = run_id;
  status = failed;
  company_id = none;
  providers_attempted = [];
  documents_found = 0;
  jobs_found = 0;
  jobs_written = 0;
  error_code = some code;
}

abbrev pub unknown_run : ℕ → IngestionResult
unknown_run run_id = failed_result run_id "run_not_found"

-- How a call of `run` ends: with a result, with `RetryableInfrastructureError` and the token that it
-- carries, or with another exception.
pub data Ending : Type 0 where
  result : IngestionResult → Ending
  retry : Option ℕ → Ending
  raises : String → Ending

-- The answer of `claim_queued`, exceptions included. A `RunClaimError` comes with the token that could be
-- recovered after it.
pub data ClaimAnswer : Type 0 where
  answered : Option RunClaim → ClaimAnswer
  invalid_state connection_lost : ClaimAnswer
  claim_error : (recovered : Option ℕ) → ClaimAnswer
  crashed : Option String → ClaimAnswer

module _ {Doc Job Entry : Type 0} (services : Services Doc Job Entry) where
  abbrev pub failing_report : Option String → Progress Doc → FinishReport
  failing_report code progress =
      let public = public_code services.is_public code "ingestion_failed" in
      record {
        status = failed;
        providers_attempted = progress.providers_attempted;
        documents_found = length progress.documents;
        jobs_found = 0;
        persistence = none;
        error_code = some public;
        error_detail = detail_of services (
            progress.diagnostics
            ++ record { stage = progress.stage; code = public; provider = none; detail = no_detail }
              ∷ []);
      }

  module _ (reachable : Bool) (run : CrawlRun) (token : ℕ) (now : ℕ) where
    -- `_finish` in the exception handler: what it raises leaves the function.
    handler_finish : Outcome CrawlRun × Session → Ending × Session
    handler_finish (returned row, s) = (result (from_run row), s)
    handler_finish (raised e, s) = (raises e, s)

    pub handle : Option String → Progress Doc → Session → Ending × Session
    unfolding handler_finish
    handle code progress s =
        if reachable
        then handler_finish (finish run token (failing_report code progress) now s)
        else (retry (some token), s)

    -- `_finish` in the body: what it raises is handled as any other exception.
    finish_in_body : Progress Doc → Outcome CrawlRun × Session → Ending × Session
    finish_in_body progress (returned row, s) = (result (from_run row), s)
    finish_in_body progress (raised e, s) = handle none progress s

    pub end_run : Conclusion Doc → Session → Ending × Session
    unfolding finish_in_body
    end_run (conclude report progress) s =
        if reachable
        then finish_in_body progress (finish run token report now s)
        else (retry (some token), s)
    end_run interrupted s = (retry (some token), s)
    end_run (failing code progress) s = handle code progress s

  -- The body of a claimed run. Without its request it fails with `invalid_run`.
  pub conclusion_of : List (Provider Doc Job) → Option CollectionRequest → Conclusion Doc
  conclusion_of providers none =
      failing (some "invalid_run")
        (record { providers_attempted = []; documents = []; diagnostics = []; stage = "provider" })
  conclusion_of providers (some request) = run_body services request.query providers

  module _ (providers : List (Provider Doc Job)) (other : Tables → Tables) (reachable : Bool)
      (run_id now : ℕ) where
    run_with_token : CrawlRun → Option ℕ → Session → Ending × Session
    run_with_token run none s = (retry none, s)
    run_with_token run (some token) s =
        end_run reachable run token now (conclusion_of providers (get_request_for_run run s))
          (interfere other s)

    pub run_claimed : ClaimAnswer → Session → Ending × Session
    unfolding run_with_token
    run_claimed (answered none) s = (result (unknown_run run_id), s)
    run_claimed (answered (some claim)) s =
        if not claim.claimed
        then (result (from_run claim.run), s)
        else run_with_token claim.run claim.claim_token s
    run_claimed invalid_state s = (result (failed_result run_id "invalid_run_state"), s)
    run_claimed connection_lost s = (retry none, s)
    run_claimed (claim_error recovered) s = (retry recovered, s)
    run_claimed (crashed code) s =
        (result (failed_result run_id (public_code services.is_public code "ingestion_failed")), s)

    -- `run`, where the claim raises nothing.
    pub run_orchestrator :
        (before : Tables → Tables) (token started : ℕ) → Session → Ending × Session
    run_orchestrator before token started s =
        let (claim, s') = claim_queued before run_id token started s in
        run_claimed (answered claim) s'
