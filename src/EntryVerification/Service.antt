-- ===== src/EntryVerification/Service.antt =====
-- `EntryVerificationService` of backend/app/ingestion/entry_verification/service.py. The local
-- variables of `find_verified_entry` are a record, which is returned beside the result. The outer
-- loop runs a second time only after the search, so it is a recursion on the search that is left.
pub mod Limits
pub mod Outcomes
pub mod Exhaustion
use job_search.Base.{
  ℕ, zero, suc, String, Bool, true, false, Option, none, some, List, [], ◌∷◌, ◌++◌, leb, ◌==◌,
  if◌then◌else◌,
}
use job_search.EntryVerification.Contracts.{
  EntryVerificationStatus, unavailable, is_verified, member, EntryVerificationBudget,
  EntryVerificationResult,
}

pub record EntryCandidateInput : Type 0 where
  pub url : String
  pub trusted_existing_binding : Bool
  pub linked_from_verified_website : Bool

-- What a call of the validator does: it starts requests one by one, and answers after the last.
pub record Visit : Type 0 where
  pub starts : ℕ
  pub answer : EntryVerificationResult

-- `searched` is whether the search has been called.
pub record Progress : Type 0 where
  pub searched : Bool
  pub checked : ℕ
  pub requests : ℕ
  pub seen : List String
  pub last_result : Option EntryVerificationResult

abbrev pub initial : Progress
initial = record { searched = false; checked = 0; requests = 0; seen = []; last_result = none }

-- Either the function returns a result, or its queue of candidates has run empty.
pub data Drained : Type 0 where
  stopped : EntryVerificationResult → Progress → Drained
  drained : Progress → Drained

abbrev pub progress_of : Drained → Progress
progress_of (stopped r p) = p
progress_of (drained p) = p

abbrev pub budget_result : String → ℕ → EntryVerificationResult
budget_result url requests = record {
  candidate_url = url;
  final_url = none;
  status = unavailable;
  reason_code = some "budget_exhausted";
  http_requests = requests;
  ownership_evidence = none;
}

-- The calls of `count_request`: the counter after them, and whether one of them raised.
unfoldable pub start_requests : ℕ → ℕ → ℕ → ℕ × Bool
start_requests limit zero requests = (requests, false)
start_requests limit (suc n) requests =
    if leb limit requests then (requests, true) else start_requests limit n (suc requests)

-- `normalize url` is `normalize_url(url).rstrip("/")`.
module _ (normalize : String → String) (verify : EntryCandidateInput → Visit)
    (budget : EntryVerificationBudget) where
  abbrev pub entered : EntryCandidateInput → Progress → Progress
  entered c p = record p { seen = normalize c.url ∷ p.seen; checked = suc p.checked }

  unfoldable pub concluded :
      EntryCandidateInput → Progress → EntryVerificationResult → ℕ × Bool → Drained
  concluded c p answer (requests, true) =
      stopped (budget_result c.url requests) (record p { requests = requests })
  concluded c p answer (requests, false) =
      let result = record answer { http_requests = requests } in
      let next = record p { requests = requests; last_result = some result } in
      if is_verified answer.status then stopped result next else drained next

  -- The body of the inner loop.
  unfoldable pub check_candidate : EntryCandidateInput → Progress → Drained
  check_candidate c p =
      if member (normalize c.url) p.seen
      then drained p
      else if leb budget.max_candidates p.checked
      then stopped (budget_result c.url p.requests) p
      else concluded c (entered c p) (verify c).answer
          (start_requests budget.max_http_requests (verify c).starts p.requests)

  unfoldable pub drain : List EntryCandidateInput → Progress → Drained
  drain [] p = drained p
  drain (c ∷ cs) p = elim (check_candidate c p) [
    | stopped r q ↦ stopped r q
    | drained q ↦ drain cs q
  ]

  pub last_round : Drained → Option EntryVerificationResult × Progress
  last_round (stopped r p) = (some r, p)
  last_round (drained p) = (p.last_result, p)

  -- What follows the first round, where the search may be missing.
  unfoldable pub after_round :
      Option (List EntryCandidateInput) → Drained → Option EntryVerificationResult × Progress
  after_round find (stopped r p) = (some r, p)
  after_round none (drained p) = (p.last_result, p)
  after_round (some found) (drained p) =
      if budget.max_search_calls == 0
      then (p.last_result, p)
      else last_round (drain found (record p { searched = true }))

  unfoldable pub find_verified_entry :
      List EntryCandidateInput
      → List EntryCandidateInput
      → Option (List EntryCandidateInput)
      → Option EntryVerificationResult × Progress
  find_verified_entry existing website_links find =
      after_round find (drain (existing ++ website_links) initial)
