-- ===== src/EntryVerification/Service/Outcomes.antt =====
-- Which result a search for a verified entry returns.
use job_search.Base.{
  ℕ, String, ◌≡◌, refl, ◌⊎◌, inl, inr, Bool, true, false, Option, none, some, List, [], ◌∷◌, ◌++◌,
  arith, leb, ◌==◌, Bool-cases,
}
use job_search.EntryVerification.Contracts.{
  is_verified, member, EntryVerificationBudget, EntryVerificationResult,
}
use job_search.EntryVerification.Service.{
  EntryCandidateInput, Visit, Progress, initial, Drained, stopped, drained, budget_result, entered,
  start_requests, concluded, check_candidate, drain, last_round, after_round, find_verified_entry,
}
use job_search.EntryVerification.Service.Limits.{Drained-cases}

abbrev pub IsIn : EntryCandidateInput → List EntryCandidateInput → Type 0
IsIn a [] = ⊥
IsIn a (x ∷ xs) = (x ≡ a) ⊎ IsIn a xs

IsIn-append :
    (a : EntryCandidateInput) (xs ys : List EntryCandidateInput)
    → (IsIn a xs ⊎ IsIn a ys)
    → IsIn a (xs ++ ys)
IsIn-append a [] ys (inl h) = absurd h
IsIn-append a [] ys (inr h) = h
IsIn-append a (x ∷ xs) ys (inl (inl e)) = inl e
IsIn-append a (x ∷ xs) ys (inl (inr h)) = inr (IsIn-append a xs ys (inl h))
IsIn-append a (x ∷ xs) ys (inr h) = inr (IsIn-append a xs ys (inr h))

-- The candidates that the search finds, if there is one.
abbrev pub found_by : Option (List EntryCandidateInput) → List EntryCandidateInput
found_by none = []
found_by (some found) = found

abbrev pub IsUnverified : Option EntryVerificationResult → Type 0
IsUnverified none = Unit
IsUnverified (some r) = is_verified r.status ≡ false

module _ (normalize : String → String) (verify : EntryCandidateInput → Visit)
    (budget : EntryVerificationBudget) where
  -- The result is what the validator answered on this candidate, with the counter of the requests.
  abbrev pub Answers : EntryCandidateInput → EntryVerificationResult → ℕ → Type 0
  Answers c r requests = r ≡ record (verify c).answer { http_requests = requests }

  -- A function that stops on one of these candidates either stops on a verified answer of the
  -- validator, or out of budget.
  abbrev pub StopsWell : List EntryCandidateInput → EntryVerificationResult → Progress → Type 0
  StopsWell cs r p =
      (c : EntryCandidateInput) × IsIn c cs
      × ((Answers c r p.requests × (is_verified r.status ≡ true))
          ⊎ (r ≡ budget_result c.url p.requests))

  unfoldable StopsIn : List EntryCandidateInput → Drained → Type 0
  StopsIn cs (stopped r p) = StopsWell cs r p
  StopsIn cs (drained p) = IsUnverified p.last_result

  concluded-stops :
      (c : EntryCandidateInput) (p : Progress) (o : ℕ × Bool)
      → StopsIn (c ∷ []) (concluded normalize verify budget c p (verify c).answer o)
  unfolding concluded StopsIn
  concluded-stops c p (n, true) = (c, inl refl, inr refl)
  concluded-stops c p (n, false) = elim (Bool-cases (is_verified (verify c).answer.status)) [
    | inl e ↦ rw e (c, inl refl, inl (refl, e))
    | inr e ↦ rw e e
  ]

  check-stops :
      (c : EntryCandidateInput) (p : Progress)
      → IsUnverified p.last_result
      → StopsIn (c ∷ []) (check_candidate normalize verify budget c p)
  unfolding check_candidate StopsIn
  check-stops c p h = elim (Bool-cases (member (normalize c.url) p.seen)) [
    | inl e ↦ rw e h
    | inr e ↦ elim (Bool-cases (leb budget.max_candidates p.checked)) [
      | inl f ↦ rw e (rw f (c, inl refl, inr refl))
      | inr f ↦ rw e (
          rw f (
            concluded-stops c (entered normalize verify budget c p)
              (start_requests budget.max_http_requests (verify c).starts p.requests)))
    ]
  ]

  StopsIn-mono :
      (xs ys : List EntryCandidateInput) (d : Drained)
      → ((a : EntryCandidateInput) → IsIn a xs → IsIn a ys)
      → StopsIn xs d
      → StopsIn ys d
  unfolding StopsIn
  StopsIn-mono xs ys (stopped r p) m (c, i, h) = (c, m c i, h)
  StopsIn-mono xs ys (drained p) m h = h

  drain-stops :
      (cs : List EntryCandidateInput) (p : Progress)
      → IsUnverified p.last_result
      → StopsIn cs (drain normalize verify budget cs p)
  unfolding drain StopsIn
  drain-stops [] p h = h
  drain-stops (c ∷ cs) p h =
      let here = check-stops c p h in
      elim (Drained-cases (check_candidate normalize verify budget c p)) [
        | inl (r, q, e) ↦
            rw (e, drain) (StopsIn-mono (c ∷ []) (c ∷ cs) (stopped r q) first (rw e at here))
        | inr (q, e) ↦
            rw (e, drain)
              (StopsIn-mono cs (c ∷ cs) (drain normalize verify budget cs q) (λ a i. inr i)
                (drain-stops cs q (rw e at here)))
      ]
    where
      first : (a : EntryCandidateInput) → IsIn a (c ∷ []) → IsIn a (c ∷ cs)
      first a (inl e) = inl e
      first a (inr i) = absurd i

  -- A verified result is an answer of the validator on one of these candidates.
  abbrev pub IsSound : List EntryCandidateInput → Option EntryVerificationResult × Progress → Type 0
  IsSound cs o =
      (r : EntryVerificationResult)
      → o.0 ≡ some r
      → is_verified r.status ≡ true
      → (c : EntryCandidateInput) × IsIn c cs × Answers c r o.1.requests

  stopped-IsSound :
      (cs : List EntryCandidateInput) (r : EntryVerificationResult) (p : Progress)
      → StopsWell cs r p
      → IsSound cs (some r, p)
  stopped-IsSound cs r p (c, i, inl (a, v)) s e t = (c, i, cc (e, a))
  stopped-IsSound cs r p (c, i, inr b) s e t = absurd (ground (arith, b, e, t))

  unverified-IsSound :
      (cs : List EntryCandidateInput) (o : Option EntryVerificationResult) (p : Progress)
      → IsUnverified o
      → IsSound cs (o, p)
  unverified-IsSound cs none p h s e t = absurd (ground (arith, e))
  unverified-IsSound cs (some r) p h s e t = absurd (ground (arith, h, e, t))

  last-IsSound :
      (cs : List EntryCandidateInput) (d : Drained)
      → StopsIn cs d
      → IsSound cs (last_round normalize verify budget d)
  unfolding last_round StopsIn
  last-IsSound cs (stopped r p) h = stopped-IsSound cs r p h
  last-IsSound cs (drained p) h = unverified-IsSound cs p.last_result p h

  after-IsSound :
      (cs : List EntryCandidateInput) (found : Option (List EntryCandidateInput)) (d : Drained)
      → StopsIn cs d
      → IsSound (cs ++ found_by found) (after_round normalize verify budget found d)
  unfolding after_round StopsIn
  after-IsSound cs none (stopped r p) h =
      stopped-IsSound (cs ++ []) r p
        (StopsIn-mono cs (cs ++ []) (stopped r p) (λ a i. IsIn-append a cs [] (inl i)) h)
  after-IsSound cs (some found) (stopped r p) h =
      stopped-IsSound (cs ++ found) r p
        (StopsIn-mono cs (cs ++ found) (stopped r p) (λ a i. IsIn-append a cs found (inl i)) h)
  after-IsSound cs none (drained p) h = unverified-IsSound (cs ++ []) p.last_result p h
  after-IsSound cs (some found) (drained p) h = elim (Bool-cases (budget.max_search_calls == 0)) [
    | inl e ↦ rw e (unverified-IsSound (cs ++ found) p.last_result p h)
    | inr e ↦ rw e (
        last-IsSound (cs ++ found)
          (drain normalize verify budget found (record p { searched = true }))
          (StopsIn-mono found (cs ++ found)
            (drain normalize verify budget found (record p { searched = true }))
            (λ a i. IsIn-append a cs found (inr i))
            (drain-stops found (record p { searched = true }) h)))
  ]

  -- A verified result is what the validator answered on one of the candidates that were given or
  -- found, with the number of requests that were started until then.
  pub find_verified_entry-IsSound :
      (existing website_links : List EntryCandidateInput)
      (found : Option (List EntryCandidateInput))
      → IsSound
          ((existing ++ website_links) ++ found_by found)
          (find_verified_entry normalize verify budget existing website_links found)
  unfolding find_verified_entry
  find_verified_entry-IsSound existing website_links found =
      after-IsSound (existing ++ website_links) found
        (drain normalize verify budget (existing ++ website_links) initial)
        (drain-stops (existing ++ website_links) initial tt)
