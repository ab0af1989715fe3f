-- ===== src/Ingestion/DirectAts/Postings.antt =====
-- What `write_direct_ats_jobs` of backend/app/ingestion/direct_ats.py does to the postings.
use job_search.Base.{
  first, append_assoc, append-nil, map-append, ℕ, suc, ◌+◌, String, ◌≡◌, refl, sym, ap, ◌∙◌, inl,
  inr, Bool, true, Option, none, some, List, [], ◌∷◌, ◌++◌, map, All, arith, ◌==◌, Outcome,
  returned, raised, ◌>>=◌, require-passed, Bool-cases, length, length-append, if◌then◌else◌,
}
use job_search.Ingestion.DirectAts.{
  JobEntry, JobPosting, ParsedJob, Work, Store, DirectAtsSnapshotMetadata, DirectAtsWriteResult,
  merge_job_from_parsed,
}
use job_search.Ingestion.DirectAts.Writing.{
  Externals, insert_sources, rows_fit, flush, new_posting, write_posting, is_posting_of,
  write_source, write_job, write_jobs,
}
use job_search.Ingestion.DirectAts.Persistence.{
  find_or_add_entry, insert_snapshot, write_under_entry, write_direct_ats_jobs,
}

-- What tells postings apart, and whether they are active.
pub record Face : Type 0 where
  pub id : ℕ
  pub company_id : ℕ
  pub title : String
  pub normalized_title : String
  pub city : String
  pub is_active : Bool

abbrev pub face : JobPosting → Face
face p = record {
  id = p.id;
  company_id = p.company_id;
  title = p.title;
  normalized_title = p.normalized_title;
  city = p.city;
  is_active = p.is_active;
}

-- The second table has the postings of the first, with the same faces, and then this number of active
-- ones.
pub record Grows (before after : List JobPosting) (number : ℕ) : Type 0 where
  pub extra : List JobPosting
  pub faces : map face after ≡ map face before ++ map face extra
  pub active : All (λ p. p.is_active ≡ true) extra
  pub counted : length extra ≡ number

All-append {ℓ κ} :
    {A : Type ℓ} (P : A → Type κ) (xs ys : List A) → All P xs → All P ys → All P (xs ++ ys)
All-append P [] ys p q = q
All-append P (x ∷ xs) ys p q = (p.0, All-append P xs ys p.1 q)

Grows-trans : (a b c : List JobPosting) (n m : ℕ) → Grows a b n → Grows b c m → Grows a c (n + m)
Grows-trans a b c n m g h = record {
  extra = g.extra ++ h.extra;
  faces =
      h.faces
      ∙ ap (λ xs. xs ++ map face h.extra) g.faces
      ∙ append_assoc (map face a) (map face g.extra) (map face h.extra)
      ∙ ap (λ xs. map face a ++ xs) (sym (map-append face g.extra h.extra));
  active = All-append (λ (p : JobPosting). p.is_active ≡ true) g.extra h.extra g.active h.active;
  counted = ground (arith, length-append g.extra h.extra, g.counted, h.counted);
}

Grows-same : (a b : List JobPosting) → map face b ≡ map face a → Grows a b 0
Grows-same a b e = record {
  extra = [];
  faces = e ∙ sym (append-nil (map face a));
  active = tt;
  counted = refl;
}

Grows-added : (a : List JobPosting) (p : JobPosting) → p.is_active ≡ true → Grows a (a ++ p ∷ []) 1
Grows-added a p e = record {
  extra = p ∷ [];
  faces = map-append face a (p ∷ []);
  active = (e, tt);
  counted = refl;
}

-- What a bind that has returned has passed.
bound {ℓ κ} :
    {A : Type ℓ} {B : Type κ} (m : Outcome A) (k : A → Outcome B) (b : B)
    → (m >>= k) ≡ returned b
    → (a : A) × (m ≡ returned a) × (k a ≡ returned b)
bound (returned a) k b h = (a, refl, h)
bound (raised e) k b h = cc

returned_injective {ℓ} : {A : Type ℓ} {a b : A} → returned a ≡ returned b → a ≡ b
returned_injective h = cc

flush_postings :
    (w w' : Work) → flush w ≡ returned w' → (w'.postings ≡ w.postings) × (w'.written ≡ w.written)
unfolding flush
flush_postings w w' h =
    let (fit, passed) = require-passed (rows_fit w) "DataError" _ h in
    let (sources, e, d) = bound (insert_sources w.pending w.sources) _ w' passed in
    let same : record w { sources = sources; pending = [] } ≡ w' = cc in
    (ap (λ (x : Work). x.postings) (sym same), ap (λ (x : Work). x.written) (sym same))

merged_faces :
    (job_id : ℕ) (parsed : ParsedJob) (postings : List JobPosting)
    → map face (map (λ p. if p.id == job_id then merge_job_from_parsed p parsed else p) postings)
      ≡ map face postings
unfolding merge_job_from_parsed
merged_faces job_id parsed [] = refl
merged_faces job_id parsed (p ∷ postings) = elim (Bool-cases (p.id == job_id)) [
  | inl e ↦ rw e (ap (λ t. face p ∷ t) (merged_faces job_id parsed postings))
  | inr e ↦ rw e (ap (λ t. face p ∷ t) (merged_faces job_id parsed postings))
]

-- The loop from one state to another: the postings that it has added, and has counted.
abbrev Written : Work → Work → Type 0
Written w w' = (n : ℕ) × Grows w.postings w'.postings n × (w'.written ≡ w.written + n)

module _ (ext : Externals) (company_id : ℕ) (platform : String) (now : ℕ) where
  write_posting-Written :
      (position : ℕ) (parsed : ParsedJob) (w : Work) (found : Option JobPosting) (job_id : ℕ)
      (w' : Work)
      → write_posting ext company_id platform now position parsed w found ≡ returned (job_id, w')
      → Written w w'
  unfolding write_posting
  write_posting-Written position parsed w none job_id w' h =
      let added : Work = record w {
        postings = w.postings ++ new_posting ext company_id platform now position parsed ∷ [];
      } in
      let (flushed, e, d) = bound (flush added) _ (job_id, w') h in
      let same : record flushed { written = flushed.written + 1 } ≡ w' = cc in
      let (p, q) = flush_postings added flushed e in
      (
        1,
        rw (← same, p)
            (Grows-added w.postings (new_posting ext company_id platform now position parsed) refl),
        rw (← same, q) refl,
      )
  write_posting-Written position parsed w (some job) job_id w' h =
      let same : record w {
        postings =
            map (λ p. if p.id == job.id then merge_job_from_parsed p parsed else p) w.postings;
      }
          ≡ w' =
        cc in
      (
        0,
        rw (← same) (Grows-same w.postings _ (merged_faces job.id parsed w.postings)),
        rw (← same) (ground arith),
      )

  module _ (entry_id : ℕ) where
    write_source-Written :
        (position : ℕ) (parsed : ParsedJob) (job_id : ℕ) (w : Work)
        → let w' = write_source ext company_id platform now entry_id position parsed job_id w in
          (w'.postings ≡ w.postings) × (w'.written ≡ w.written)
    unfolding write_source
    write_source-Written position parsed job_id w = ground arith

    write_jobs-Written :
        (jobs : List ParsedJob) (position : ℕ) (w w' : Work)
        → write_jobs ext company_id platform now entry_id position jobs w ≡ returned w'
        → Written w w'
    unfolding write_jobs write_job
    write_jobs-Written [] position w w' h =
        let same : w ≡ w' = cc in
        (0, rw (← same) (Grows-same w.postings w.postings refl), rw (← same) (ground arith))
    write_jobs-Written (parsed ∷ jobs) position w w' h =
        let (next, e, d) =
          bound (write_job ext company_id platform now entry_id position parsed w) _ w' h in
        let ((job_id, posted), e', d') =
          bound
            (write_posting ext company_id platform now position parsed w
              (first (is_posting_of ext company_id platform now parsed) w.postings))
            _ next e in
        let same : write_source ext company_id platform now entry_id position parsed job_id posted
            ≡ next =
          cc in
        let (n, g, c) =
          write_posting-Written position parsed w
            (first (is_posting_of ext company_id platform now parsed) w.postings) job_id posted
            e' in
        let (p, q) = write_source-Written position parsed job_id posted in
        let (m, g', c') = write_jobs-Written jobs (suc position) next w' d in
        (
          n + m,
          Grows-trans w.postings next.postings w'.postings n m (rw (← same, p) g) g',
          ground (arith, ap (λ (x : Work). x.written) same, q, c, c'),
        )

from_zero : {m : ℕ} (n : ℕ) → m ≡ 0 + n → m ≡ n
from_zero n h = omega arith

write_under_entry-Grows :
    (ext : Externals) (company_id : ℕ) (platform : String) (now : ℕ) (normalized_url : String)
    (jobs : List ParsedJob) (crawl_run_id : Option ℕ) (snapshot : Option DirectAtsSnapshotMetadata)
    (st : Store) (found : JobEntry × List JobEntry) (result : DirectAtsWriteResult) (st' : Store)
    → write_under_entry ext company_id platform now normalized_url jobs crawl_run_id snapshot st
        found
      ≡ returned (result, st')
    → Grows st.postings st'.postings result.jobs_written
unfolding write_under_entry
write_under_entry-Grows ext company_id platform now normalized_url jobs crawl_run_id snapshot st
      (entry, entries) result st' h =
    let (w, e, d) =
      bound (write_jobs ext company_id platform now entry.id 0 jobs _) _ (result, st') h in
    let (committed, e', d') = bound (flush w) _ (result, st') d in
    let (snapshots, e'', d'') =
      bound (insert_snapshot _ st.run_ids st.snapshots) _ (result, st') d' in
    let same = returned_injective d'' in
    let (p, q) = flush_postings w committed e' in
    let (n, g, c) = write_jobs-Written ext company_id platform now entry.id jobs 0 _ w e in
    let number : result.jobs_written ≡ n =
      from_zero n
        (sym (ap (λ (x : DirectAtsWriteResult × Store). x.0.jobs_written) same) ∙ (q ∙ c)) in
    let rows : st'.postings ≡ w.postings =
      sym (ap (λ (x : DirectAtsWriteResult × Store). x.1.postings) same) ∙ p in
    rw (rows, number) g

-- A call that returns says as many jobs as it has added postings. These are active, and stand behind the
-- old ones, each of which keeps its id, its company, its title as given and as normalized, its city, and whether it is active.
pub jobs_written_lem :
    (ext : Externals) (company_id : ℕ) (platform : String) (now : ℕ) (entry_url : String)
    (jobs : List ParsedJob) (crawl_run_id : Option ℕ) (snapshot : Option DirectAtsSnapshotMetadata)
    (st : Store) (result : DirectAtsWriteResult) (st' : Store)
    → write_direct_ats_jobs ext company_id platform now entry_url jobs crawl_run_id snapshot st
      ≡ returned (result, st')
    → Grows st.postings st'.postings result.jobs_written
unfolding write_direct_ats_jobs
jobs_written_lem ext company_id platform now entry_url jobs crawl_run_id snapshot st result st' h =
    let (normalized_url, u, d) = bound (ext.normalize_url entry_url) _ (result, st') h in
    let (found, f, written) =
      bound (find_or_add_entry ext company_id platform now entry_url normalized_url _ _ _) _
        (result, st') d in
    write_under_entry-Grows ext company_id platform now normalized_url jobs crawl_run_id snapshot st
      found result st' written
