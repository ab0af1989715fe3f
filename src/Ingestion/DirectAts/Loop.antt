-- ===== src/Ingestion/DirectAts/Loop.antt =====
-- The loop over the jobs of `write_direct_ats_jobs` (backend/app/ingestion/direct_ats.py) returns, and
-- leaves a source for each.
use job_search.Base.{
  first, ℕ, suc, String, ◌≡◌, refl, true, false, List, [], ◌∷◌, All, Outcome, returned,
}
use job_search.Ingestion.DirectAts.{ParsedJob, Work}
use job_search.Ingestion.DirectAts.Writing.{
  Externals, source_key, is_posting_of, write_job, write_jobs,
}
use job_search.Ingestion.DirectAts.Keys.{same_key}
use job_search.Ingestion.DirectAts.Sources.{
  listed, is_pending, CanFlush, Step, write_posting-Step, write_source-Step,
}
use job_search.Ingestion.DirectAts.Columns.{FitsColumns}

-- No two jobs come from the same posting of the same provider.
abbrev pub HasOwnKeys : String → List ParsedJob → Type 0
HasOwnKeys platform [] = Unit
HasOwnKeys platform (parsed ∷ jobs) =
    All (λ j. same_key (source_key platform j) (source_key platform parsed) ≡ false) jobs
    × HasOwnKeys platform jobs

pub All-every {ℓ κ} : {A : Type ℓ} {P : A → Type κ} (xs : List A) → ((x : A) → P x) → All P xs
All-every [] f = tt
All-every (x ∷ xs) f = (f x, All-every xs f)

pub All-zip {ℓ κ μ ν} :
    {A : Type ℓ} {P : A → Type κ} {Q : A → Type μ} {R : A → Type ν} (xs : List A)
    → ((x : A) → P x → Q x → R x)
    → All P xs
    → All Q xs
    → All R xs
All-zip [] f p q = tt
All-zip (x ∷ xs) f p q = (f x p.0 q.0, All-zip xs f p.1 q.1)

module _ (ext : Externals) (company_id : ℕ) (platform : String) (now entry_id : ℕ) where
  pub record JobsWritten (w : Work) (jobs : List ParsedJob) (answer : Outcome Work) : Type 0 where
    pub after : Work
    pub answered : answer ≡ returned after
    pub step : Step now entry_id w after
    pub written : All (λ j. listed now entry_id (source_key platform j) after ≡ true) jobs

  pub write_jobs-Step :
      (jobs : List ParsedJob) (position : ℕ) (w : Work)
      → CanFlush w
      → All (λ j. is_pending now entry_id (source_key platform j) w ≡ false) jobs
      → HasOwnKeys platform jobs
      → All (FitsColumns ext platform) jobs
      → JobsWritten w jobs (write_jobs ext company_id platform now entry_id position jobs w)
  unfolding write_jobs write_job
  write_jobs-Step [] position w h f d fits = record {
    after = w;
    answered = refl;
    step = record { can_flush = h; keeps = λ key l. l };
    written = tt;
  }
  write_jobs-Step (parsed ∷ jobs) position w h f d fits =
      let key = source_key platform parsed in
      let p =
        write_posting-Step now entry_id ext company_id platform position parsed w
          (first (is_posting_of ext company_id platform now parsed) w.postings) fits.0 h in
      let q =
        write_source-Step now entry_id ext company_id platform position parsed p.job_id p.after
          fits.0 p.step.can_flush (p.waits key f.0) in
      let rest =
        write_jobs-Step jobs (suc position) _ q.step.can_flush
          (All-zip jobs
            (λ j pending differs.
              q.waits (source_key platform j) differs (p.waits (source_key platform j) pending))
            f.1 d.0)
          d.1 fits.1 in
      rw p.answered (record {
        after = rest.after;
        answered = rest.answered;
        step = record {
          can_flush = rest.step.can_flush;
          keeps = λ k l. rest.step.keeps k (q.step.keeps k (p.step.keeps k l));
        };
        written = (rest.step.keeps key q.written, rest.written);
      })
