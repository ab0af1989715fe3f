-- ===== src/EntryVerification/Service/Limits.antt =====
-- What a search for a verified entry spends.
use job_search.Base.{
  ℕ, zero, suc, ◌≤◌, String, ◌≡◌, refl, ◌⊎◌, inl, inr, Bool, true, false, Option, none, some, List,
  [], ◌∷◌, ◌++◌, arith, leb, ◌==◌, length, Bool-cases,
}
use job_search.EntryVerification.Contracts.{
  is_verified, member, EntryVerificationBudget, EntryVerificationResult,
}
use job_search.EntryVerification.Service.{
  EntryCandidateInput, Visit, Progress, initial, Drained, stopped, drained, progress_of,
  start_requests, concluded, entered, check_candidate, drain, last_round, after_round,
  find_verified_entry,
}

pub Drained-cases :
    (d : Drained)
    → ((r : EntryVerificationResult) × (p : Progress) × (d ≡ stopped r p))
      ⊎ ((p : Progress) × (d ≡ drained p))
Drained-cases (stopped r p) = inl (r, p, refl)
Drained-cases (drained p) = inr (p, refl)

start_requests_le :
    (limit n requests : ℕ) → requests ≤ limit → (start_requests limit n requests).0 ≤ limit
unfolding start_requests
start_requests_le limit zero requests h = h
start_requests_le limit (suc n) requests h =
    ground (arith, start_requests_le limit n (suc requests))

-- No text stands in the list twice.
abbrev pub AllDistinct : List String → Type 0
AllDistinct [] = Unit
AllDistinct (s ∷ ss) = (member s ss ≡ false) × AllDistinct ss

module _ (normalize : String → String) (verify : EntryCandidateInput → Visit)
    (budget : EntryVerificationBudget) where
  -- A predicate that the body of the loop keeps holds after the loop.
  pub drain-induction {ℓ} :
      (P : Progress → Type ℓ)
      → ((c : EntryCandidateInput) (p : Progress)
          → P p
          → P (progress_of (check_candidate normalize verify budget c p)))
      → (cs : List EntryCandidateInput) (p : Progress) → P p
      → P (progress_of (drain normalize verify budget cs p))
  unfolding drain
  drain-induction P keeps [] p h = h
  drain-induction P keeps (c ∷ cs) p h =
      let after = keeps c p h in
      elim (Drained-cases (check_candidate normalize verify budget c p)) [
        | inl (r, q, e) ↦ rw (e, drain) (rw e at after)
        | inr (q, e) ↦ rw (e, drain) (drain-induction P keeps cs q (rw e at after))
      ]

  -- The counters are within the budget, and count the keys seen, which are distinct.
  abbrev pub IsWithin : Progress → Type 0
  IsWithin p =
      (p.requests ≤ budget.max_http_requests)
      × (p.checked ≤ budget.max_candidates)
      × (length p.seen ≡ p.checked)
      × AllDistinct p.seen

  concluded-progress :
      (c : EntryCandidateInput) (p : Progress) (a : EntryVerificationResult) (o : ℕ × Bool)
      → IsWithin p
      → o.0 ≤ budget.max_http_requests
      → IsWithin (progress_of (concluded normalize verify budget c p a o))
  unfolding concluded
  concluded-progress c p a (n, true) h m = (m, h.1, h.2, h.3)
  concluded-progress c p a (n, false) h m = elim (Bool-cases (is_verified a.status)) [
    | inl e ↦ rw e (m, h.1, h.2, h.3)
    | inr e ↦ rw e (m, h.1, h.2, h.3)
  ]

  check-IsWithin :
      (c : EntryCandidateInput) (p : Progress)
      → IsWithin p
      → IsWithin (progress_of (check_candidate normalize verify budget c p))
  unfolding check_candidate
  check-IsWithin c p h = elim (Bool-cases (member (normalize c.url) p.seen)) [
    | inl e ↦ rw e h
    | inr e ↦ rw e (elim (Bool-cases (leb budget.max_candidates p.checked)) [
      | inl f ↦ rw f h
      | inr f ↦ rw f (
          concluded-progress c (entered normalize verify budget c p) (verify c).answer
            (start_requests budget.max_http_requests (verify c).starts p.requests)
            (h.0, ground (arith, f), ground (arith, h.2), (e, h.3))
            (start_requests_le budget.max_http_requests (verify c).starts p.requests h.0))
    ])
  ]

  drain-IsWithin :
      (cs : List EntryCandidateInput) (p : Progress)
      → IsWithin p
      → IsWithin (progress_of (drain normalize verify budget cs p))
  drain-IsWithin = drain-induction IsWithin check-IsWithin

  last-IsWithin :
      (d : Drained) → IsWithin (progress_of d) → IsWithin (last_round normalize verify budget d).1
  unfolding last_round
  last-IsWithin (stopped r p) h = h
  last-IsWithin (drained p) h = h

  after-IsWithin :
      (found : Option (List EntryCandidateInput)) (d : Drained)
      → IsWithin (progress_of d)
      → IsWithin (after_round normalize verify budget found d).1
  unfolding after_round
  after-IsWithin none (stopped r p) h = h
  after-IsWithin (some found) (stopped r p) h = h
  after-IsWithin none (drained p) h = h
  after-IsWithin (some found) (drained p) h = elim (Bool-cases (budget.max_search_calls == 0)) [
    | inl e ↦ rw e h
    | inr e ↦ rw e (
        last-IsWithin (drain normalize verify budget found (record p { searched = true }))
          (drain-IsWithin found (record p { searched = true }) h))
  ]

  -- When the function returns, it has started no more requests and checked no more candidates than the
  -- budget allows, and it has checked as many candidates as it has seen keys, which are distinct.
  pub find_verified_entry-IsWithin :
      (existing website_links : List EntryCandidateInput)
      (found : Option (List EntryCandidateInput))
      → IsWithin (find_verified_entry normalize verify budget existing website_links found).1
  unfolding find_verified_entry
  find_verified_entry-IsWithin existing website_links found =
      after-IsWithin found (drain normalize verify budget (existing ++ website_links) initial)
        (drain-IsWithin (existing ++ website_links) initial (omega arith, omega arith, refl, tt))
