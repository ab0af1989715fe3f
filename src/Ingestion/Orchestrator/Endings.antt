-- ===== src/Ingestion/Orchestrator/Endings.antt =====
-- How a call of `run` of backend/app/ingestion/orchestrator.py ends for the worker that has claimed.
use job_search.Collection.Repository.Claims.{claim_queued_success}
use job_search.Base.{
  ℕ, String, ◌≡◌, refl, ap, ◌⊎◌, inl, inr, Bool, true, false, ◌&&◌, Option, none, some, List, [],
  ◌∷◌, arith, returned, all_of, is_none, if◌then◌else◌, Bool-cases,
}
use job_search.Base.Table
use job_search.Base.Table.{get-put}
use job_search.Collection.Models.{
  succeeded, partial, CrawlRun, CollectionRequest, is_running, is_terminal,
}
use job_search.Collection.Session.{
  Tables, Session, rollback, clean, interfere, paired_update_done, paired_write,
}
use job_search.Collection.Repository.{
  RunClaim, FinishReport, is_owned, finish, finished, finish_values, finish_request_values,
  claim_queued, get_request_for_run,
}
use job_search.Ingestion.Providers.{Provider, MergedOutcomes}
use job_search.Ingestion.DirectAts.{DirectAtsSnapshotMetadata}
use job_search.Ingestion.Services.{
  Attempt, done, unavailable, broken, Services, Progress, Conclusion, conclude, interrupted,
  failing, then_do, AtsCareerUrl,
}
use job_search.Ingestion.Pipeline.{
  existing_company_result, is_empty, AtsResult, Discovered, same_company, after_ats, collect_ats,
  after_discovery, discover_entries, run_body, ats_loop,
}
use job_search.Collection.Repository.{PersistenceResult}
use job_search.Ingestion.Orchestrator.{
  from_run, Ending, result, retry, failing_report, handle, end_run, conclusion_of, answered,
  run_with_token, run_claimed, run_orchestrator,
}

-- The rows that a `finish` under the token finds: its own running run and request.
pub record Owned (t : Tables) (run : CrawlRun) (token request_id : ℕ) : Type 0 where
  pub request : CollectionRequest
  pub linked : run.collection_request_id ≡ some request_id
  pub stored : Table.get run.id t.runs ≡ some run
  pub owned : is_owned token run ≡ true
  pub wanted : Table.get request_id t.requests ≡ some request
  pub open_request : is_running request.status ≡ true

module _ (run : CrawlRun) (token request_id now : ℕ) (s : Session)
    (o : Owned s.committed run token request_id) where
  finish_success :
      (report : FinishReport)
      → is_terminal report.status ≡ true
      → finish run token report now s ≡ (
        returned (finish_values report now run),
        clean (
            paired_write run.id
              (finish_values report now run)
              request_id
              (finish_request_values report now o.request)
              s.committed),
      )
  unfolding finish finished
  finish_success report t =
      let written =
        paired_update_done run.id (is_owned token) (finish_values report now) request_id
          (λ q. is_running q.status) (finish_request_values report now) (rollback s) run o.request
          o.stored o.wanted o.owned o.open_request in
      ground (
        arith,
        t,
        written,
        o.linked,
        get-put run.id run.id (finish_values report now run) s.committed.runs,
      )

-- The report of a conclusion, if it has one, is that of a run that has ended.
abbrev EndsRun : {Doc : Type 0} → Conclusion Doc → Type 0
EndsRun (conclude report progress) = is_terminal report.status ≡ true
EndsRun interrupted = Unit
EndsRun (failing code progress) = Unit

EndsRun-then_do {ℓ} :
    {Doc Job Entry : Type 0} (services : Services Doc Job Entry) {A : Type ℓ}
    (progress : Progress Doc) (attempt : Attempt A) (next : A → Conclusion Doc)
    → ((a : A) → EndsRun (next a))
    → EndsRun (then_do services progress attempt next)
EndsRun-then_do services progress (done a) next h = h a
EndsRun-then_do services progress unavailable next h = tt
EndsRun-then_do services progress (broken code) next h = tt

module _ {Doc Job Entry : Type 0} (services : Services Doc Job Entry) (query : String) where
  after_ats-EndsRun :
      {A : Type 0} (persist : Option A) (merged : MergedOutcomes Doc) (r : AtsResult Doc Job)
      (results : List PersistenceResult)
      → EndsRun (after_ats services query persist merged r results)
  unfolding after_ats
  after_ats-EndsRun persist merged r [] =
      EndsRun-then_do services _ (existing_company_result services query persist) _
        (λ existing. refl)
  after_ats-EndsRun persist merged r (first ∷ results) =
      elim (Bool-cases (all_of (λ p. same_company p.company_id first.company_id) results)) [
        | inl e ↦ rw e (ended (is_none merged.provider_error_code))
        | inr e ↦ rw e tt
      ]
    where
      ended : (b : Bool) → is_terminal (if b then succeeded else partial) ≡ true
      ended true = refl
      ended false = refl

  collect_ats-EndsRun :
      (ats_providers : List (ℕ × Provider Doc Job)) (d : Discovered Doc Job Entry)
      (merged : MergedOutcomes Doc) (urls : List AtsCareerUrl)
      (persist : Option (
        String
        → String
        → String
        → List Job
        → DirectAtsSnapshotMetadata
        → Attempt (Option PersistenceResult)))
      → EndsRun (collect_ats services query ats_providers d merged urls persist)
  unfolding collect_ats
  collect_ats-EndsRun ats_providers d merged (c ∷ cs) (some persist) =
      EndsRun-then_do services _ (ats_loop services query ats_providers persist (c ∷ cs) _) _
        (λ r. after_ats-EndsRun services.persist_direct _ r r.results)
  collect_ats-EndsRun ats_providers d merged [] persist =
      EndsRun-then_do services _ (existing_company_result services query persist) _
        (λ existing. refl)
  collect_ats-EndsRun ats_providers d merged (c ∷ cs) none = refl

  after_discovery-EndsRun :
      (ats_providers : List (ℕ × Provider Doc Job)) (d : Discovered Doc Job Entry)
      (merged : MergedOutcomes Doc)
      → EndsRun (after_discovery services query ats_providers d merged)
  unfolding after_discovery
  after_discovery-EndsRun ats_providers d merged =
      elim (Bool-cases
        (is_empty services query merged.documents && is_empty services query d.candidates)) [
          | inl e ↦ rw e refl
          | inr e ↦ rw e (collect_ats-EndsRun ats_providers d merged _ services.persist_direct)
        ]

  run_body-EndsRun :
      (providers : List (Provider Doc Job)) → EndsRun (run_body services query providers)
  unfolding run_body
  run_body-EndsRun providers =
      EndsRun-then_do services _ (discover_entries services query services.discover _ _) _
        (λ d. after_discovery-EndsRun _ d _)

conclusion_of-EndsRun :
    {Doc Job Entry : Type 0} (services : Services Doc Job Entry)
    (providers : List (Provider Doc Job)) (request : Option CollectionRequest)
    → EndsRun (conclusion_of services providers request)
unfolding conclusion_of
conclusion_of-EndsRun services providers none = tt
conclusion_of-EndsRun services providers (some request) =
    run_body-EndsRun services request.query providers

-- The call returns the status with which the run has ended, and which is stored, or asks for a retry
-- with the token of the claim.
abbrev pub EndsWell : (run_id token : ℕ) → Ending × Session → Type 0
EndsWell run_id token (ending, s) =
    ((row : CrawlRun) × (ending ≡ result (from_run row))
      × (Table.get run_id s.committed.runs ≡ some row)
      × (is_terminal row.status ≡ true))
    ⊎ (ending ≡ retry (some token))

module _ {Doc Job Entry : Type 0} (services : Services Doc Job Entry) (reachable : Bool)
    (run : CrawlRun) (token request_id now : ℕ) (s : Session)
    (o : Owned s.committed run token request_id) where
  stored_end :
      (report : FinishReport)
      → is_terminal report.status ≡ true
      → Table.get run.id
          (paired_write run.id
            (finish_values report now run)
            request_id
            (finish_request_values report now o.request)
            s.committed).runs
        ≡ some (finish_values report now run)
  stored_end report t = rw get-put (ground arith)

  handle-EndsWell :
      (code : Option String) (progress : Progress Doc)
      → EndsWell run.id token (handle services reachable run token now code progress s)
  unfolding handle finish_values
  handle-EndsWell code progress = elim (Bool-cases reachable) [
    | inl e ↦ rw e (
        rw
          (finish_success run token request_id now s o (failing_report services code progress) refl)
          (inl (
            finish_values (failing_report services code progress) now run,
            refl,
            stored_end (failing_report services code progress) refl,
            refl,
          )))
    | inr e ↦ rw e (inr refl)
  ]

  end_run-EndsWell :
      (conclusion : Conclusion Doc)
      → EndsRun conclusion
      → EndsWell run.id token (end_run services reachable run token now conclusion s)
  unfolding end_run finish_values
  end_run-EndsWell (conclude report progress) t = elim (Bool-cases reachable) [
    | inl e ↦ rw e (
        rw (finish_success run token request_id now s o report t)
          (inl (finish_values report now run, refl, stored_end report t, t)))
    | inr e ↦ rw e (inr refl)
  ]
  end_run-EndsWell interrupted t = inr refl
  end_run-EndsWell (failing code progress) t = handle-EndsWell code progress

module _ {Doc Job Entry : Type 0} (services : Services Doc Job Entry)
    (providers : List (Provider Doc Job)) (other : Tables → Tables) (reachable : Bool)
    (run_id now : ℕ) where
  run_claimed-EndsWell :
      (claim : RunClaim) (token request_id : ℕ) (s : Session)
      → claim.claimed ≡ true
      → claim.claim_token ≡ some token
      → claim.run.id ≡ run_id
      → Owned (other s.committed) claim.run token request_id
      → EndsWell run_id token
          (run_claimed services providers other reachable run_id now (answered (some claim)) s)
  unfolding run_claimed run_with_token
  run_claimed-EndsWell claim token request_id s claimed tok same o = rw claimed (
      rw (tok, run_with_token)
        (rw (← same) (
          end_run-EndsWell services reachable claim.run token request_id now (interfere other s) o
            (conclusion_of services providers (get_request_for_run claim.run s))
            (conclusion_of-EndsRun services providers (get_request_for_run claim.run s)))))

  -- A worker whose claim is reported, and whose run and request are left to it by the others, ends in
  -- one of two ways, whatever the providers and services do: the call returns the result of the stored
  -- row, whose status is terminal, or it asks for a retry and names the token of its claim.
  pub run_orchestrator-EndsWell :
      (before : Tables → Tables) (token started request_id : ℕ) (s : Session) (c : RunClaim)
      → (claim_queued before run_id token started s).0 ≡ some c
      → c.claimed ≡ true
      → c.run.id ≡ run_id
      → Owned
          (other (claim_queued before run_id token started s).1.committed)
          c.run
          token
          request_id
      → EndsWell run_id token
          (run_orchestrator services providers other reachable run_id now before token started s)
  unfolding run_orchestrator
  run_orchestrator-EndsWell before token started request_id s c h claimed same o =
      let (run, a, b, w, v) = claim_queued_success before run_id token started s c h claimed in
      rw h (
        run_claimed-EndsWell c token request_id (claim_queued before run_id token started s).1
          claimed (ap (λ (x : RunClaim). x.claim_token) w) same o)
