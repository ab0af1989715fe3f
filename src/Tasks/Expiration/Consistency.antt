-- ===== src/Tasks/Expiration/Consistency.antt =====
-- What the expiration of sources in backend/app/tasks/expiration.py leaves behind.
use job_search.Base.{
  ℕ, ◌-◌, ◌≡◌, refl, ◌∙◌, sym, inl, inr, false, List, [], ◌∷◌, map, contains, All, arith,
  Bool-cases,
}
use job_search.Coverage.Models.{JobSource, JobPosting}
use job_search.Coverage.Activity.{has_active_source, refresh_posting}
use job_search.Tasks.Expiration.{
  thirty_days, is_stale, expire_source, affected_job_ids, expire_affected, expire_stale_job_sources,
}

-- Every posting is active exactly if one of its sources is.
abbrev pub AgreesWith : List JobSource → List JobPosting → Type 0
AgreesWith sources postings = All (λ p. p.is_active ≡ has_active_source sources p.id) postings

module _ (cutoff : ℕ) where
  -- A posting without a stale source does not notice the expiration.
  has_active_source-expire :
      (xs : List JobSource) (posting_id : ℕ)
      → contains (affected_job_ids cutoff xs) posting_id ≡ false
      → has_active_source (map (expire_source cutoff) xs) posting_id
        ≡ has_active_source xs posting_id
  unfolding has_active_source affected_job_ids expire_source
  has_active_source-expire [] posting_id h = refl
  has_active_source-expire (s ∷ xs) posting_id h = elim (Bool-cases (is_stale cutoff s)) [
    | inl e ↦
        let rest = has_active_source-expire xs posting_id (ground arith) in ground (arith, rest)
    | inr e ↦
        let rest = has_active_source-expire xs posting_id (ground arith) in ground (arith, rest)
  ]

  refreshed :
      (xs : List JobSource) (ps : List JobPosting)
      → AgreesWith xs ps
      → AgreesWith
          (map (expire_source cutoff) xs)
          (map (refresh_posting (affected_job_ids cutoff xs) (map (expire_source cutoff) xs)) ps)
  unfolding refresh_posting
  refreshed xs [] h = tt
  refreshed xs (p ∷ ps) h = elim (Bool-cases (contains (affected_job_ids cutoff xs) p.id)) [
    | inl e ↦ (rw e refl, refreshed xs ps h.1)
    | inr e ↦ (rw e (h.0 ∙ sym (has_active_source-expire xs p.id e)), refreshed xs ps h.1)
  ]

  expire_affected_agrees :
      (xs : List JobSource) (ps : List JobPosting) (ids : List ℕ)
      → affected_job_ids cutoff xs ≡ ids
      → AgreesWith xs ps
      → let after = expire_affected cutoff ids xs ps in AgreesWith after.sources after.postings
  unfolding expire_affected
  expire_affected_agrees xs ps [] e h = h
  expire_affected_agrees xs ps (a ∷ ids) e h = rw e at (refreshed xs ps h)

  none_stale_left :
      (xs : List JobSource) → affected_job_ids cutoff (map (expire_source cutoff) xs) ≡ []
  unfolding affected_job_ids expire_source is_stale
  none_stale_left [] = refl
  none_stale_left (s ∷ xs) = ground (arith, none_stale_left xs)

  sources_expired_lem :
      (xs : List JobSource) (ps : List JobPosting) (ids : List ℕ)
      → affected_job_ids cutoff xs ≡ ids
      → affected_job_ids cutoff (expire_affected cutoff ids xs ps).sources ≡ []
  unfolding expire_affected
  sources_expired_lem xs ps [] e = e
  sources_expired_lem xs ps (a ∷ ids) e = none_stale_left xs

-- If every posting is active exactly where one of its sources is, then this is so after the task.
pub expire_stale_job_sources-AgreesWith :
    (now : ℕ) (sources : List JobSource) (postings : List JobPosting)
    → AgreesWith sources postings
    → AgreesWith
        (expire_stale_job_sources now sources postings).sources
        (expire_stale_job_sources now sources postings).postings
unfolding expire_stale_job_sources
expire_stale_job_sources-AgreesWith now sources postings h =
    expire_affected_agrees (now - thirty_days) sources postings
      (affected_job_ids (now - thirty_days) sources) refl h

-- A second run of the task at the same time expires no source, updates no posting, and leaves the
-- tables of the first.
pub expire_twice :
    (now : ℕ) (sources : List JobSource) (postings : List JobPosting)
    → let first = expire_stale_job_sources now sources postings in
      expire_stale_job_sources now first.sources first.postings
      ≡ record first { sources_expired = 0; jobs_updated = 0 }
unfolding expire_stale_job_sources expire_affected
expire_twice now sources postings =
    rw
      (
        sources_expired_lem (now - thirty_days) sources postings
            (affected_job_ids (now - thirty_days) sources) refl,
        expire_affected,
      )
      refl
