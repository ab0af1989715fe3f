-- ===== src/Coverage/Service/Lifecycle.antt =====
-- What a complete snapshot does to the sources (`_apply_complete_snapshot` of
-- backend/app/ingestion/coverage/service.py).
use job_search.Base.{
  ℕ, ◌+◌, ◌≤◌, ◌≡◌, refl, Bool, not, ◌&&◌, List, [], ◌∷◌, map, arith, count_of, keep, if◌then◌else◌,
}
use job_search.Coverage.Models.{JobSource}
use job_search.Coverage.Contracts.{RecordJobSnapshot}
use job_search.Coverage.Service.{
  of_entry, seen, mark_seen, mark_missing, drops_out, seen_loop, missing_loop,
  apply_complete_snapshot,
}

module _ (c : RecordJobSnapshot) (snapshot_id : ℕ) where
  abbrev is_listed : JobSource → Bool
  is_listed s = of_entry c s && seen c s

  abbrev is_absent : JobSource → Bool
  is_absent s = of_entry c s && not (seen c s)

  -- What becomes of one source, without any loop.
  unfoldable pub visit : JobSource → JobSource
  visit s =
      if of_entry c s then (if seen c s then mark_seen c snapshot_id s else mark_missing s) else s

  abbrev visit_seen : JobSource → JobSource
  visit_seen s = if is_listed s then mark_seen c snapshot_id s else s

  abbrev visit_missing : JobSource → JobSource
  visit_missing s = if is_absent s then mark_missing s else s

  seen_loop_lem :
      (xs : List JobSource) (n : ℕ)
      → seen_loop c snapshot_id xs n
        ≡ (map visit_seen xs, n + count_of (λ s. is_listed s && not s.is_active) xs)
  unfolding seen_loop
  seen_loop_lem [] n = ground arith
  seen_loop_lem (s ∷ xs) n =
      ground (arith, seen_loop_lem xs (if is_listed s && not s.is_active then n + 1 else n))

  missing_loop_lem :
      (xs : List JobSource) (m d : ℕ)
      → missing_loop c xs m d ≡ (
        map visit_missing xs,
        m + count_of is_absent xs,
        d + count_of (λ s. is_absent s && drops_out s) xs,
      )
  unfolding missing_loop
  missing_loop_lem [] m d = ground arith
  missing_loop_lem (s ∷ xs) m d = ground (
    arith,
    missing_loop_lem xs (if is_absent s then m + 1 else m)
        (if is_absent s && drops_out s then d + 1 else d),
  )

  both_visits : (xs : List JobSource) → map visit_missing (map visit_seen xs) ≡ map visit xs
  unfolding visit of_entry seen mark_seen mark_missing
  both_visits [] = refl
  both_visits (s ∷ xs) = ground (arith, both_visits xs)

  counts_after :
      (xs : List JobSource)
      → (count_of is_absent (map visit_seen xs) ≡ count_of is_absent xs)
        × (count_of (λ s. is_absent s && drops_out s) (map visit_seen xs)
            ≡ count_of (λ s. is_absent s && drops_out s) xs)
  unfolding of_entry seen mark_seen drops_out
  counts_after [] = (refl, refl)
  counts_after (s ∷ xs) = ground (arith, counts_after xs)

  -- The two loops treat every source by itself: a source that the snapshot lists comes back with no
  -- absences, another one of the entry is absent once more, and the rest stay. The counters are the numbers
  -- of sources that became active, that were absent, and that dropped out.
  pub apply_complete_snapshot_lem :
      (xs : List JobSource)
      → apply_complete_snapshot c snapshot_id xs ≡ (
        map visit xs,
        record {
          sources_reactivated = count_of (λ s. is_listed s && not s.is_active) xs;
          sources_missing_incremented = count_of is_absent xs;
          sources_deactivated = count_of (λ s. is_absent s && drops_out s) xs;
          affected_job_ids = map (λ s. s.job_posting_id) (keep (of_entry c) xs);
        },
      )
  unfolding apply_complete_snapshot
  apply_complete_snapshot_lem xs = rw (seen_loop_lem xs 0) (
      rw (missing_loop_lem (map visit_seen xs) 0 0)
        (rw (both_visits xs) (ground (arith, counts_after xs))))

  -- No counter of one snapshot is out of step with the others.
  pub deactivated-le-missing :
      (xs : List JobSource)
      → (apply_complete_snapshot c snapshot_id xs).1.sources_deactivated
        ≤ (apply_complete_snapshot c snapshot_id xs).1.sources_missing_incremented
  deactivated-le-missing xs = rw (apply_complete_snapshot_lem xs) (go xs)
    where
      go :
          (ys : List JobSource)
          → count_of (λ s. is_absent s && drops_out s) ys ≤ count_of is_absent ys
      go [] = omega arith
      go (s ∷ ys) = ground (arith, go ys)
