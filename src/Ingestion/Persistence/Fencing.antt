-- ===== src/Ingestion/Persistence/Fencing.antt =====
-- `PersistenceService.persist` of backend/app/ingestion/persistence/service.py as a whole: the claim that
-- it is fenced by, and the agreement of the postings with their sources.
use job_search.Base.{
  ℕ, ◌==◌, ◌≡◌, ap, ◌∙◌, Bool, true, false, not, ◌&&◌, Option, none, some, List, String, arith,
}
use job_search.Base.Table
use job_search.Ingestion.Persistence.{Tables, Externals}
use job_search.Ingestion.Persistence.Contracts.{NormalizedBatch}
use job_search.Ingestion.Persistence.Companies.{
  company_model, company_identity_names, company_identity_website,
}
use job_search.Ingestion.Persistence.Service.{
  is_run_claimed, is_request_running, lock_claim, lock_expected_claim, validate_batch,
  persistence_result, write_batch, persist_batch, persist,
}
use job_search.Ingestion.Persistence.Endings.{Ends, Ends_mono, Ends-demand, Ends-lift}
use job_search.Ingestion.Persistence.Keeping.{
  Keeps, IsApart, steps, bind-Keeps, lift-Keeps, demand-Keeps, change-Keeps, pure-Keeps,
}
use job_search.Ingestion.Persistence.Frame.{
  upsert_documents-Keeps, upsert_company_locked-Keeps, upsert_company_evidence-Keeps,
  upsert_filings-Keeps, upsert_profile_fields-Keeps, insert_fields-Keeps,
}
use job_search.Ingestion.Persistence.JobLoop.{upsert_jobs}
use job_search.Ingestion.Persistence.JobFrame.{upsert_jobs-Keeps}
use job_search.Ingestion.Persistence.Activity.{Agrees}
use job_search.Ingestion.Persistence.ActiveBatch.{upsert_jobs-Ends}

module _ (P : Tables → Type 0) (ext : Externals) (h : IsApart ext P) where
  lock_expected_claim-Keeps :
      (run_id : ℕ) (token : Option ℕ) → Keeps P (lock_expected_claim run_id token)
  unfolding lock_expected_claim lock_claim
  lock_expected_claim-Keeps run_id none = search (steps)
  lock_expected_claim-Keeps run_id (some token) = search (steps)

  -- A batch keeps what its jobs keep.
  write_batch-Keeps :
      (batch : NormalizedBatch) (names : List String)
      → ((company_id : ℕ) (documents : List (String × ℕ))
          → Keeps P (upsert_jobs ext company_id documents batch.jobs))
      → Keeps P (write_batch ext batch names)
  unfolding write_batch
  write_batch-Keeps batch names jobs =
      bind-Keeps P (upsert_documents-Keeps P ext h batch.documents) (λ documents.
        bind-Keeps P (upsert_company_locked-Keeps P ext h batch.company names) (λ company.
          bind-Keeps P
            (upsert_company_evidence-Keeps P ext h company.0 documents batch.company.field_evidence)
            (λ covered. bind-Keeps P (jobs company.0 documents) (λ written.
              bind-Keeps P (upsert_filings-Keeps P ext h company.0 documents batch.filings)
                (λ filed.
                  bind-Keeps P
                    (upsert_profile_fields-Keeps P ext h company.0 documents batch.collected_at
                      batch.profile_fields)
                    (λ added.
                      bind-Keeps P
                        (change-Keeps P company_model (λ c. c.id == company.0)
                          (λ c. record c { last_collected_at = some batch.collected_at })
                          h.companies)
                        (λ collected.
                          bind-Keeps P (insert_fields-Keeps P ext h company.0 added) (λ inserted.
                            pure-Keeps P
                              (persistence_result company.0 documents written.0 written.1)))))))))

  persist_batch-Keeps :
      (batch : NormalizedBatch) (run_id : ℕ) (token : Option ℕ) (names : List String)
      → ((company_id : ℕ) (documents : List (String × ℕ))
          → Keeps P (upsert_jobs ext company_id documents batch.jobs))
      → Keeps P (persist_batch ext batch run_id token names)
  unfolding persist_batch
  persist_batch-Keeps batch run_id token names jobs =
      bind-Keeps P (lock_expected_claim-Keeps run_id token)
        (λ locked. write_batch-Keeps batch names jobs)

  persist-Keeps :
      (in_transaction : Bool) (batch : NormalizedBatch) (run_id : ℕ) (token : Option ℕ)
      → ((company_id : ℕ) (documents : List (String × ℕ))
          → Keeps P (upsert_jobs ext company_id documents batch.jobs))
      → Keeps P (persist ext in_transaction batch run_id token)
  unfolding persist
  persist-Keeps in_transaction batch run_id token jobs =
      bind-Keeps P (lift-Keeps P (validate_batch batch)) (λ valid.
        bind-Keeps P (demand-Keeps P (not in_transaction) "active_session_transaction") (λ clean.
          bind-Keeps P (lift-Keeps P (company_identity_website ext batch.company.candidate.website))
            (λ website.
              persist_batch-Keeps batch run_id token (company_identity_names ext batch.company)
                jobs)))

-- Other sessions keep the agreement of the postings with their sources.
abbrev pub RivalAgrees : Externals → Type 0
RivalAgrees ext = (j : ℕ) (t : Tables) → Agrees j t → Agrees j (ext.rival t)

Agrees-IsApart : (ext : Externals) (j : ℕ) → RivalAgrees ext → IsApart ext (Agrees j)
unfolding Agrees
Agrees-IsApart ext j calm = record {
  calm = calm j;
  documents = λ t rows agrees. agrees;
  companies = λ t rows agrees. agrees;
  aliases = λ t rows agrees. agrees;
  company_sources = λ t rows agrees. agrees;
  filings = λ t rows agrees. agrees;
  profile_fields = λ t rows agrees. agrees;
}

-- Where other sessions keep it, a batch that is persisted keeps this: each posting that is there is active
-- just where one of its sources is.
pub persist-Agrees :
    (ext : Externals) (in_transaction : Bool) (batch : NormalizedBatch) (run_id : ℕ)
    (token : Option ℕ) (t : Tables)
    → RivalAgrees ext
    → ((j : ℕ) → Agrees j t)
    → (j : ℕ) → Ends (persist ext in_transaction batch run_id token t) (λ result t'. Agrees j t')
persist-Agrees ext in_transaction batch run_id token t calm agrees j =
    let frame = Agrees-IsApart ext j calm in
    (persist-Keeps (Agrees j) ext frame in_transaction batch run_id token (λ company_id documents.
        record {
          keeps = λ u h. upsert_jobs-Ends j ext (calm j) company_id documents batch.jobs u h;
        })).keeps
      t (agrees j)

-- The rows of the run and its request, as other sessions leave them while they are locked.
abbrev pub IsLocked : Externals → ℕ → Type 0
IsLocked ext run_id =
    (t : Tables)
    → Table.get run_id (ext.rival t).collection.runs ≡ Table.get run_id t.collection.runs

module _ (ext : Externals) (batch : NormalizedBatch) (run_id token : ℕ)
    (locked : IsLocked ext run_id) where
  -- The run is claimed.
  abbrev Claimed : Tables → Type 0
  Claimed t = is_run_claimed token (Table.get run_id t.collection.runs) ≡ true

  Claimed-IsApart : IsApart ext Claimed
  Claimed-IsApart = record {
    calm = λ t claimed. ap (is_run_claimed token) (locked t) ∙ claimed;
    documents = λ t rows claimed. claimed;
    companies = λ t rows claimed. claimed;
    aliases = λ t rows claimed. claimed;
    company_sources = λ t rows claimed. claimed;
    filings = λ t rows claimed. claimed;
    profile_fields = λ t rows claimed. claimed;
  }

  -- A batch is persisted under a token only where the run was and is running under that token, and its
  -- request was running, in the tables that the call began with, while other sessions leave the locked
  -- row of the run alone.
  pub persist_fenced :
      (in_transaction : Bool) (t : Tables)
      → Ends (persist ext in_transaction batch run_id (some token) t) (λ result t'.
        (is_run_claimed token (Table.get run_id t.collection.runs) ≡ true)
        × (is_request_running t (Table.get run_id t.collection.runs) ≡ true)
        × (is_run_claimed token (Table.get run_id t'.collection.runs) ≡ true)
        × (in_transaction ≡ false))
  unfolding persist persist_batch lock_expected_claim lock_claim
  persist_fenced in_transaction t =
      let names = company_identity_names ext batch.company in
      Ends-lift (validate_batch batch) _ t (λ valid e.
        Ends-demand (not in_transaction) "active_session_transaction" _ t (λ clean.
          Ends-lift (company_identity_website ext batch.company.candidate.website) _ t
            (λ website e'.
              Ends-demand
                (is_run_claimed token (Table.get run_id t.collection.runs)
                  && is_request_running t (Table.get run_id t.collection.runs))
                "claim ownership lost before persistence" _ t
                (λ claimed.
                  Ends_mono (write_batch ext batch names t)
                    ((write_batch-Keeps Claimed ext Claimed-IsApart batch names
                        (λ company_id documents.
                          upsert_jobs-Keeps Claimed ext Claimed-IsApart.calm (λ u rows c. c)
                            (λ u rows c. c) company_id documents batch.jobs)).keeps
                      t (ground (arith, claimed)))
                    (λ result t' still. (
                      ground (arith, claimed),
                      ground (arith, claimed),
                      still,
                      ground (arith, clean),
                    ))))))
