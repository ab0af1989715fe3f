-- ===== src/Collection/Service/Active.antt =====
-- Active requests per query (backend/app/models/collection.py, repository.py of backend/app/collection).
use job_search.Base.{
  ℕ, String, ◌≡◌, refl, sym, ap, ◌∙◌, ◌≤◌, ◌+◌, inl, inr, Bool, true, false, Option, none, some,
  List, [], ◌∷◌, arith, any_of, count_of, keep, ltb, ◌==◌, Bool-cases, if◌then◌else◌,
}
use job_search.Base.Table
use job_search.Base.Table.{Table}
use job_search.Collection.Models.{CrawlRun, CollectionRequest}
use job_search.Collection.Session.{Tables}
use job_search.Collection.Repository.{fail_request_values, finish_request_values}
use job_search.Collection.Repository.Machine.{
  Transition, claim, undispatch, invalidate, requeue, exhaust, finish, Moved, same, moved,
}
use job_search.Collection.Service.{is_active_for, earliest, before_or}

-- At most one active request for each query.
abbrev pub IsUnique : Tables → Type 0
IsUnique t =
    (normalized_query : String)
    → count_of (is_active_for normalized_query) (Table.rows t.requests) ≤ 1

module _ (p : CollectionRequest → Bool) where
  -- A row that is written over one which passes wherever it does raises no count.
  count_of-put :
      (k : ℕ) (old new : CollectionRequest) (t : Table CollectionRequest)
      → Table.get k t ≡ some old
      → (p new ≡ true → p old ≡ true)
      → count_of p (Table.rows (Table.put k new t)) ≤ count_of p (Table.rows t)
  unfolding Table.get Table.put
  count_of-put k old new [] h m = ground arith
  count_of-put k old new ((j, v) ∷ t) h m = elim (Bool-cases (j == k)) [
    | inl e ↦
        let same : v ≡ old = cc (rw e at h) in
        elim (Bool-cases (p new)) [
          | inl n ↦ let o = m n in ground (arith, ap p same)
          | inr n ↦ ground arith
        ]
    | inr e ↦ let rest = count_of-put k old new t (rw e at h) m in ground (arith, rest)
  ]

  pub count_of-put_new :
      (k : ℕ) (new : CollectionRequest) (t : Table CollectionRequest)
      → Table.get k t ≡ none
      → count_of p (Table.rows (Table.put k new t))
        ≡ count_of p (Table.rows t) + (if p new then 1 else 0)
  unfolding Table.get Table.put
  count_of-put_new k new [] h = ground arith
  count_of-put_new k new ((j, v) ∷ t) h = ground (arith, count_of-put_new k new t (ground arith))

  pub any_of-count_of : (xs : List CollectionRequest) → any_of p xs ≡ false → count_of p xs ≡ 0
  any_of-count_of [] h = refl
  any_of-count_of (x ∷ xs) h = ground (arith, any_of-count_of xs (ground arith))

  before_or-passes :
      (x : CollectionRequest) (o : Option CollectionRequest) (r : CollectionRequest)
      → p x ≡ true
      → ((q : CollectionRequest) → o ≡ some q → p q ≡ true)
      → before_or x o ≡ some r
      → p r ≡ true
  before_or-passes x none r h m e = let same : x ≡ r = cc in ap p (sym same) ∙ h
  before_or-passes x (some q) r h m e = elim (Bool-cases (ltb q.created_at x.created_at)) [
    | inl d ↦ let same : some q ≡ some r = rw d at e in m r same
    | inr d ↦ let same : some x ≡ some r = rw d at e in let is : x ≡ r = cc in ap p (sym is) ∙ h
  ]

  -- The earliest of the rows that pass does.
  pub earliest-keep :
      (xs : List CollectionRequest) (r : CollectionRequest)
      → earliest (keep p xs) ≡ some r
      → p r ≡ true
  unfolding earliest
  earliest-keep [] r h = ground arith
  earliest-keep (x ∷ xs) r h = elim (Bool-cases (p x)) [
    | inl e ↦
        before_or-passes x (earliest (keep p xs)) r e (λ q d. earliest-keep xs q d) (rw e at h)
    | inr e ↦ earliest-keep xs r (rw e at h)
  ]

-- No step of the repository makes a request active that was not.
still_active :
    {run run' : CrawlRun} {request request' : CollectionRequest}
    → Transition run run' request request'
    → (normalized_query : String) → is_active_for normalized_query request' ≡ true
    → is_active_for normalized_query request ≡ true
unfolding fail_request_values finish_request_values
still_active (claim token now a b c d) nq h = ground (arith, a, b, c, d)
still_active (undispatch now a b c d) nq h = ground (arith, a, b, c, d)
still_active (invalidate token now a b c d) nq h = ground (arith, a, b, c, d)
still_active (requeue token a b c d) nq h = ground (arith, a, b, c, d)
still_active (exhaust token now a b c d) nq h = ground (arith, a, b, c, d)
still_active (finish token now report a b c d e) nq h = ground (arith, a, b, c, d)

-- No call of the repository makes a second request active for a query.
pub IsUnique-Moved :
    {presented : Option ℕ} {Linked : Type 0} (t t' : Tables)
    → Moved presented Linked t t'
    → IsUnique t
    → IsUnique t'
IsUnique-Moved t t' (same e) u nq = rw e (u nq)
IsUnique-Moved t t' (moved run_id request_id run run' request request' a b step c l e) u nq =
    let fewer =
      count_of-put (is_active_for nq) request_id request request' t.requests b
        (still_active step nq) in
    let before = u nq in rw e (omega (arith, fewer, before))
