-- ===== src/Collection/Repository/Machine.antt =====
-- The state machine that the methods of backend/app/collection/repository.py are to implement, on a
-- crawl run and its request together.
use job_search.Base.{ℕ, ◌≡◌, refl, true, false, Option, none, some, arith, holds→eq}
use job_search.Base.Table
use job_search.Base.Table.{get-put}
use job_search.Collection.Models.{
  CrawlRun, CollectionRequest, queued, running, is_queued, is_running, is_terminal,
}
use job_search.Collection.Session.{Tables, paired_write}
use job_search.Collection.Repository.{
  FinishReport, claim_values, fail_values, fail_request_values, requeue_values, finish_values,
  finish_request_values, is_owned,
}

-- How one call may change a run and its request.
pub data Transition (run run' : CrawlRun) (request request' : CollectionRequest) : Type 0 where
  claim :
      (token now : ℕ)
      → is_queued run.status ≡ true
      → is_queued request.status ≡ true
      → run' ≡ claim_values token now run
      → request' ≡ record request { status = running }
      → Transition run run' request request'
  undispatch :
      (now : ℕ)
      → is_queued run.status ≡ true
      → is_queued request.status ≡ true
      → run' ≡ fail_values "collection_unavailable" now run
      → request' ≡ fail_request_values "collection_unavailable" now request
      → Transition run run' request request'
  invalidate :
      (token now : ℕ)
      → is_owned token run ≡ true
      → is_queued request.status ≡ true
      → run' ≡ fail_values "invalid_run_state" now run
      → request' ≡ fail_request_values "invalid_run_state" now request
      → Transition run run' request request'
  requeue :
      (token : ℕ)
      → is_owned token run ≡ true
      → is_running request.status ≡ true
      → run' ≡ requeue_values run
      → request' ≡ record request { status = queued }
      → Transition run run' request request'
  exhaust :
      (token now : ℕ)
      → is_owned token run ≡ true
      → is_running request.status ≡ true
      → run' ≡ fail_values "collection_unavailable" now run
      → request' ≡ fail_request_values "collection_unavailable" now request
      → Transition run run' request request'
  finish :
      (token now : ℕ) (report : FinishReport)
      → is_terminal report.status ≡ true
      → is_owned token run ≡ true
      → is_running request.status ≡ true
      → run' ≡ finish_values report now run
      → request' ≡ finish_request_values report now request
      → Transition run run' request request'

-- The token that a transition has to present, if it starts from a running run.
abbrev pub token_of :
    {run run' : CrawlRun} {request request' : CollectionRequest}
    → Transition run run' request request'
    → Option ℕ
token_of (claim token now a b c d) = none
token_of (undispatch now a b c d) = none
token_of (invalidate token now a b c d) = some token
token_of (requeue token a b c d) = some token
token_of (exhaust token now a b c d) = some token
token_of (finish token now report a b c d e) = some token

-- The tables of a database in which every row stands under its id.
pub record IsKeyed (t : Tables) : Type 0 where
  pub run_ids : (k : ℕ) (run : CrawlRun) → Table.get k t.runs ≡ some run → run.id ≡ k
  pub request_ids :
      (k : ℕ) (request : CollectionRequest) → Table.get k t.requests ≡ some request → request.id ≡ k

-- A call that presents a token, or none, leaves the committed tables or makes one transition. Where
-- `Linked` holds of its arguments, the transition is of a run and its own request.
pub data Moved (presented : Option ℕ) (Linked : Type 0) (t t' : Tables) : Type 0 where
  same : t' ≡ t → Moved presented Linked t t'
  moved :
      (run_id request_id : ℕ) (run run' : CrawlRun) (request request' : CollectionRequest)
      → Table.get run_id t.runs ≡ some run
      → Table.get request_id t.requests ≡ some request
      → (step : Transition run run' request request') → token_of step ≡ presented
      → (Linked → run.collection_request_id ≡ some request_id)
      → t' ≡ paired_write run_id run' request_id request' t
      → Moved presented Linked t t'

-- A run that is owned under a token stores it.
pub owned_token :
    (token : ℕ) (run : CrawlRun) → is_owned token run ≡ true → run.claim_token ≡ some token
unfolding is_owned
owned_token token run h = holds→eq run.claim_token token (ground arith)

module _ {run run' : CrawlRun} {request request' : CollectionRequest} where
  -- No transition starts from a terminal run.
  pub not_terminal : Transition run run' request request' → is_terminal run.status ≡ false
  unfolding is_owned
  not_terminal (claim token now a b c d) = ground arith
  not_terminal (undispatch now a b c d) = ground arith
  not_terminal (invalidate token now a b c d) = ground arith
  not_terminal (requeue token a b c d) = ground arith
  not_terminal (exhaust token now a b c d) = ground arith
  not_terminal (finish token now report a b c d e) = ground arith

  -- A transition from a running run presents the token of its claim.
  pub token_of-eq_of_running :
      (step : Transition run run' request request')
      → is_running run.status ≡ true
      → (token : ℕ) × (token_of step ≡ some token) × (run.claim_token ≡ some token)
  unfolding is_owned
  token_of-eq_of_running (claim token now a b c d) r = absurd (ground arith)
  token_of-eq_of_running (undispatch now a b c d) r = absurd (ground arith)
  token_of-eq_of_running (invalidate token now a b c d) r =
      (token, refl, owned_token token run (ground arith))
  token_of-eq_of_running (requeue token a b c d) r =
      (token, refl, owned_token token run (ground arith))
  token_of-eq_of_running (exhaust token now a b c d) r =
      (token, refl, owned_token token run (ground arith))
  token_of-eq_of_running (finish token now report a b c d e) r =
      (token, refl, owned_token token run (ground arith))

  -- Unless it marks an invalid pair, a transition starts and ends with one status for both.
  pub same_status : Transition run run' request request' → run'.status ≡ request'.status
  unfolding claim_values fail_values fail_request_values requeue_values finish_values
      finish_request_values
  same_status (claim token now a b c d) = cc
  same_status (undispatch now a b c d) = cc
  same_status (invalidate token now a b c d) = cc
  same_status (requeue token a b c d) = cc
  same_status (exhaust token now a b c d) = cc
  same_status (finish token now report a b c d e) = cc

  -- A transition keeps the request that a run belongs to.
  pub same_link :
      Transition run run' request request' → run'.collection_request_id ≡ run.collection_request_id
  unfolding claim_values fail_values requeue_values finish_values
  same_link (claim token now a b c d) = cc
  same_link (undispatch now a b c d) = cc
  same_link (invalidate token now a b c d) = cc
  same_link (requeue token a b c d) = cc
  same_link (exhaust token now a b c d) = cc
  same_link (finish token now report a b c d e) = cc

  -- A transition keeps both ids.
  pub same_ids :
      Transition run run' request request' → (run'.id ≡ run.id) × (request'.id ≡ request.id)
  unfolding claim_values fail_values fail_request_values requeue_values finish_values
      finish_request_values
  same_ids (claim token now a b c d) = (cc, cc)
  same_ids (undispatch now a b c d) = (cc, cc)
  same_ids (invalidate token now a b c d) = (cc, cc)
  same_ids (requeue token a b c d) = (cc, cc)
  same_ids (exhaust token now a b c d) = (cc, cc)
  same_ids (finish token now report a b c d e) = (cc, cc)
