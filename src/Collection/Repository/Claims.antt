-- ===== src/Collection/Repository/Claims.antt =====
-- What a claim, and the ownership test of a worker, promise (`claim_queued` and `owns_claim` of
-- backend/app/collection/repository.py).
use job_search.Base.{
  ℕ, ◌≡◌, refl, ap, ◌⊎◌, sym, ◌∙◌, true, false, not, ◌||◌, Option, some, arith, Bool-cases,
  Option-cases, inl, inr,
}
use job_search.Base.Table
use job_search.Base.Table.{get-put}
use job_search.Collection.Models.{
  CrawlRun, CollectionRequest, running, is_queued, is_running, is_terminal,
}
use job_search.Collection.Session.{
  Tables, Session, rollback, clean, interfere, get_run, paired_update_cases, paired_write,
}
use job_search.Collection.Repository.{
  RunClaim, claim_row, claim_result, claim_values, claim_update, claim_queued, get_request_for_run,
  lock_run_request, owns_claim, recover_claim_token,
}
use job_search.Collection.Repository.Steps.{BelongsTo}

module _ (other : Tables → Tables) (run_id request_id token now : ℕ) (s : Session) where
  -- A claim that is reported found both rows queued and wrote both.
  claim_update_success :
      (c : RunClaim)
      → (claim_update other run_id request_id token now s).0 ≡ some c
      → c.claimed ≡ true
      → (run : CrawlRun) × (request : CollectionRequest) × (Table.get run_id
            (other s.committed).runs
          ≡ some run)
        × (Table.get request_id (other s.committed).requests ≡ some request)
        × (is_queued run.status ≡ true)
        × (is_queued request.status ≡ true)
        × ((claim_update other run_id request_id token now s).1
            ≡ clean (
                paired_write run_id
                  (claim_values token now run)
                  request_id
                  (record request { status = running })
                  (other s.committed)))
        × (c
            ≡ record { run = claim_values token now run; claimed = true; claim_token = some token })
  unfolding claim_update claim_result claim_row
  claim_update_success c h claimed =
      elim (paired_update_cases run_id (λ run. is_queued run.status) (claim_values token now)
        request_id (λ request. is_queued request.status)
        (λ request. record request { status = running }) (interfere other (rollback s))) [
          | inl e ↦ absurd (ground (arith, e))
          | inr (run, request, e, e', p, q, u) ↦ (
            run,
            request,
            e,
            e',
            p,
            q,
            rw u refl,
            ground (
              arith,
              u,
              get-put run_id run_id (claim_values token now run) (other s.committed).runs,
            ),
          )
        ]

module _ (other : Tables → Tables) (run_id token now : ℕ) (s : Session) where
  abbrev Lost : Option RunClaim × Session → Type 0
  Lost x = ((c : RunClaim) → x.0 ≡ some c → c.claimed ≡ false) × (x.1 ≡ s)

  not_claimed : (t : Option ℕ) (run : CrawlRun) → Lost (claim_row false t (some run), s)
  unfolding claim_row
  not_claimed t run = ((λ c h. ground arith), refl)

  -- A call of `claim_queued` gives up with nothing written, or it gets as far as its updates, for a run
  -- and the request that it names.
  claim_queued_cases :
      Lost (claim_queued other run_id token now s)
      ⊎ ((run : CrawlRun) × (request : CollectionRequest) × (get_run run_id s ≡ some run)
          × (get_request_for_run run s ≡ some request)
          × (claim_queued other run_id token now s
              ≡ claim_update other run_id request.id token now s))
  unfolding claim_queued
  claim_queued_cases = elim (Option-cases (get_run run_id s)) [
    | inl e ↦ inl (rw (e, claim_queued) ((λ c h. ground arith), refl))
    | inr (run, e) ↦ elim (Bool-cases (is_terminal run.status || is_running run.status)) [
      | inl h ↦ inl (rw (e, claim_queued) (rw h (not_claimed run.claim_token run)))
      | inr h ↦ elim (Option-cases (get_request_for_run run s)) [
        | inl e' ↦
            inl (
              rw (e, claim_queued) (rw h (rw (e', claim_queued) (not_claimed run.claim_token run))))
        | inr (request, e') ↦
            elim (Bool-cases (not (is_queued run.status) || not (is_queued request.status))) [
              | inl h' ↦ inl (
                  rw (e, claim_queued)
                    (rw h (rw (e', claim_queued) (rw h' (not_claimed run.claim_token run)))))
              | inr h' ↦ inr (
                run,
                request,
                e,
                e',
                rw (e, claim_queued) (rw h (rw (e', claim_queued) (rw h' refl))),
              )
            ]
      ]
    ]
  ]

  -- A reported claim found the run queued after whatever others had committed; it is the row that is
  -- stored, running under the token.
  pub claim_queued_success :
      (c : RunClaim)
      → (claim_queued other run_id token now s).0 ≡ some c
      → c.claimed ≡ true
      → (run : CrawlRun) × (Table.get run_id (other s.committed).runs ≡ some run)
        × (is_queued run.status ≡ true)
        × (c
            ≡ record { run = claim_values token now run; claimed = true; claim_token = some token })
        × (Table.get run_id (claim_queued other run_id token now s).1.committed.runs ≡ some c.run)
  claim_queued_success c h claimed = elim claim_queued_cases [
    | inl (lost, u) ↦ cc (lost c h)
    | inr (run, request, e, e', u) ↦
        let (found, wanted, a, b, p, q, v, w) =
          claim_update_success other run_id request.id token now s c (ap (λ x. x.0) (sym u) ∙ h)
            claimed in
        (found, a, p, w, rw (u, v, w) (rw get-put (ground arith)))
  ]

-- Two workers that claim one run: when the first has it, the second, whatever it had read before, and
-- whatever token it brings, is told that it has not.
pub claim_race :
    (run_id : ℕ) (token token' now now' : ℕ) (other other' : Tables → Tables) (s s' : Session)
    (c c' : RunClaim)
    → (claim_queued other run_id token now s).0 ≡ some c
    → c.claimed ≡ true
    → other' s'.committed ≡ (claim_queued other run_id token now s).1.committed
    → (claim_queued other' run_id token' now' s').0 ≡ some c'
    → c'.claimed ≡ false
unfolding claim_values
claim_race run_id token token' now now' other other' s s' c c' h claimed seen h' =
    elim (Bool-cases c'.claimed) [
      | inr e ↦ e
      | inl e ↦
          let (run, a, b, u, v) = claim_queued_success other run_id token now s c h claimed in
          let (run', a', b', u', v') = claim_queued_success other' run_id token' now' s' c' h' e in
          absurd (ground (arith, ap (λ t. Table.get run_id t.runs) seen))
    ]

-- Right after its claim a worker owns the run, and can recover its token.
pub owns_claim_after :
    (other : Tables → Tables) (run_id request_id token now : ℕ) (s : Session) (c : RunClaim)
    → BelongsTo (other s.committed) run_id request_id
    → (claim_update other run_id request_id token now s).0 ≡ some c
    → c.claimed ≡ true
    → ((owns_claim run_id token (claim_update other run_id request_id token now s).1).0 ≡ true)
      × ((recover_claim_token run_id token (claim_update other run_id request_id token now s).1).0
          ≡ some token)
unfolding owns_claim recover_claim_token claim_values lock_run_request get_request_for_run
owns_claim_after other run_id request_id token now s c belongs h claimed =
    let (run, request, a, b, p, q, u, w) =
      claim_update_success other run_id request_id token now s c h claimed in
    let t = other s.committed in
    rw u (
      ground (
        arith,
        belongs run a,
        get-put run_id run_id (claim_values token now run) t.runs,
        get-put request_id request_id (record request { status = running }) t.requests,
      ))
