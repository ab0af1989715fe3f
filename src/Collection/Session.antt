-- ===== src/Collection/Session.antt =====
-- The SQLAlchemy session that backend/app/collection/repository.py works in: the tables that are
-- committed, and those that the open transaction sees.
use job_search.Base.{
  ℕ, ◌≡◌, ◌⊎◌, inl, inr, Bool, true, false, ◌&&◌, Option, some, arith, ◌==◌, if◌then◌else◌,
  Bool-cases, Option-cases,
}
use job_search.Base.Table
use job_search.Base.Table.{Table}
use job_search.Collection.Models.{CrawlRun, CollectionRequest}

pub record Tables : Type 0 where
  pub runs : Table CrawlRun
  pub requests : Table CollectionRequest

pub record Session : Type 0 where
  pub committed : Tables
  pub working : Tables

abbrev pub rollback : Session → Session
rollback s = record s { working = s.committed }

abbrev pub commit : Session → Session
commit s = record s { committed = s.working }

-- What other sessions commit while this one has no open transaction.
abbrev pub interfere : (Tables → Tables) → Session → Session
interfere other s = record { committed = other s.committed; working = other s.committed }

abbrev pub get_run : ℕ → Session → Option CrawlRun
get_run run_id s = Table.get run_id s.working.runs

abbrev pub get_request : ℕ → Session → Option CollectionRequest
get_request request_id s = Table.get request_id s.working.requests

-- The two conditional UPDATEs of one transition in one transaction. It is committed where each has
-- touched one row, and rolled back otherwise.
unfoldable pub paired_update :
    (run_id : ℕ) (run_where : CrawlRun → Bool) (run_values : CrawlRun → CrawlRun) (request_id : ℕ)
    (request_where : CollectionRequest → Bool)
    (request_values : CollectionRequest → CollectionRequest)
    → Session
    → Bool × Session
unfolding Table.update_where
paired_update run_id run_where run_values request_id request_where request_values s =
    let (runs, run_count) = Table.update_where run_id run_where run_values s.working.runs in
    let (requests, request_count) =
      Table.update_where request_id request_where request_values s.working.requests in
    if run_count == 1 && request_count == 1
    then (true, commit (record s { working = record { runs = runs; requests = requests } }))
    else (false, rollback s)

-- What the paired updates wrote, given the rows that they found.
abbrev pub paired_write : ℕ → CrawlRun → ℕ → CollectionRequest → Tables → Tables
paired_write run_id run request_id request t = record {
  runs = Table.put run_id run t.runs;
  requests = Table.put request_id request t.requests;
}

abbrev pub clean : Tables → Session
clean t = record { committed = t; working = t }

module _ (run_id : ℕ) (p : CrawlRun → Bool) (f : CrawlRun → CrawlRun) (request_id : ℕ)
    (q : CollectionRequest → Bool) (g : CollectionRequest → CollectionRequest) (s : Session) where
  -- Where both rows are there and pass their tests, both are written.
  pub paired_update_done :
      (run : CrawlRun) (request : CollectionRequest)
      → get_run run_id s ≡ some run
      → get_request request_id s ≡ some request
      → p run ≡ true
      → q request ≡ true
      → paired_update run_id p f request_id q g s
        ≡ (true, clean (paired_write run_id (f run) request_id (g request) s.working))
  unfolding paired_update
  paired_update_done run request e e' h h' = ground arith

  -- Either nothing is written, or both rows pass their tests and both are written.
  pub paired_update_cases :
      (paired_update run_id p f request_id q g s ≡ (false, rollback s))
      ⊎ ((run : CrawlRun) × (request : CollectionRequest) × (get_run run_id s ≡ some run)
          × (get_request request_id s ≡ some request)
          × (p run ≡ true)
          × (q request ≡ true)
          × (paired_update run_id p f request_id q g s
              ≡ (true, clean (paired_write run_id (f run) request_id (g request) s.working))))
  unfolding paired_update
  paired_update_cases = elim (Option-cases (get_run run_id s)) [
    | inl e ↦ inl (ground arith)
    | inr (run, e) ↦ elim (Option-cases (get_request request_id s)) [
      | inl e' ↦ inl (ground arith)
      | inr (request, e') ↦ elim (Bool-cases (p run)) [
        | inl h ↦ elim (Bool-cases (q request)) [
          | inl h' ↦ inr (run, request, e, e', h, h', ground arith)
          | inr h' ↦ inl (ground arith)
        ]
        | inr h ↦ inl (ground arith)
      ]
    ]
  ]
