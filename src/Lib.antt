-- ===== src/Lib.antt =====
-- Verification library of the backend of job_search, a service that collects companies, their
-- recruiting entries and their jobs.
--
-- UUIDs, claim tokens and times are numbers throughout, and texts that are only compared are
-- native strings. A database table is an association list by primary key (Base/Table), a call
-- that raises returns `raised` with the message or code of the exception (Base/Raising).
--
-- - Collection: the life of a crawl run and its collection request
--   (backend/app/collection/repository.py). Collection/Session is the SQLAlchemy session
--   (committed and working tables, commit, rollback, and the two conditional UPDATEs that every
--   transition makes); Collection/Repository has one function for each method of
--   `CollectionRepository`; Collection/Repository/Machine is the abstract state machine with one
--   constructor for each transition. Other workers come in as a function on the committed tables
--   between the reads and the updates of a claim, and as arbitrary sequences of calls
--   (Collection/Repository/Events). Collection/Service is the submission of a query
--   (backend/app/collection/service.py), with the primary keys and the unique index on active
--   queries at its commit; the broker is a parameter.
-- - Coverage: job-list snapshots (backend/app/ingestion/coverage). Coverage/Contracts is the
--   validator of `RecordJobSnapshot`, Coverage/Service is `JobCoverageService.record` with the
--   reads and the insert of `CoverageRepository`, Coverage/Activity the batched recomputation of
--   which postings are active. The loop over batches takes as fuel the number of ids, which
--   suffices since no batch is empty. The digest of a command and the UUID of a new row are
--   parameters. A lost race on the unique snapshot key is not modelled: the entry's row is locked
--   for the whole transaction.
-- - Manifest: the acceptance of recruiting entries for the company manifest.
--   Manifest/EvidencePolicy is `EvidenceAcceptancePolicy`
--   (backend/app/manifest/evidence_policy.py); confidences, which are decimals in the source, are
--   numbers of a fixed small unit, and the scheme of a URL is a parameter. Manifest/Allocation is
--   `allocate_quotas` (backend/app/manifest/allocation.py), by the sums, the stable sort and the
--   largest remainders of Apportion, and Manifest/Members is `select_manifest_members` of the
--   same file, with the validation of each member; what `DocumentUrl` makes of a text is a
--   parameter. Its loops take numbers of items as fuel, which suffice since every round takes an
--   item.
-- - CompanyIdentity: which company an input is (backend/app/company_identity/resolver.py). The
--   answers of the repository are an interface, the digest, the order and the length of Python
--   strings are parameters.
-- - EntryVerification: the search for a verified recruiting entry within a budget
--   (backend/app/ingestion/entry_verification/service.py). What the validator of URLs does on a
--   candidate, the number of requests it starts and its answer, is a parameter, as is the
--   normalization of URLs. The inner loop is a recursion on the queue, and the outer one runs at
--   most twice, since the search is called once.
-- - Rankings: the raw evidence scores and the stages of companies, and the plan of what to query
--   (backend/app/rankings). Dates are numbers of days.
-- - Ingestion: one run of the orchestrator (backend/app/ingestion/orchestrator.py).
--   Ingestion/Providers is what providers answer and how outcomes are merged, Ingestion/Pipeline
--   the body of `run` between the claim and the finish, Ingestion/Orchestrator the claim, the
--   exception handlers and the finish on the session of Collection. Services and the functions on
--   URLs and names are the interface of Ingestion/Services. Ingestion/DirectAts is the writing of
--   jobs from recruiting systems (backend/app/ingestion/direct_ats.py), with the sources that a
--   session without autoflush has not flushed beside the tables, and the unique constraints, the
--   foreign keys and the widths of columns at each flush. What other workers commit while the
--   body works is a function on the committed tables. Ingestion/Persistence is
--   `PersistenceService` (backend/app/ingestion/persistence): a monad of computations on its
--   tables that return or raise, one module per `_upsert_*` method, `_insert_or_reselect` in
--   Ingestion/Persistence/Conflicts with the rows that other sessions commit before an INSERT as
--   a function on the tables, and `persist` in Ingestion/Persistence/Service. Its advisory locks
--   leave the tables alone, and are stated as hypotheses where they matter. Ingestion/Salary is
--   the parsing of salaries (backend/app/ingestion/normalization/salary.py), with what its
--   regular expressions capture as a parameter. Ingestion/Deduplication is the normalization of
--   jobs and the search for the posting that a job is stored as
--   (backend/app/ingestion/deduplication), with the similarity of titles as a parameter.
-- - Tasks: the expiration of sources that have not been seen for a month
--   (backend/app/tasks/expiration.py), and the recovery of stale runs
--   (backend/app/tasks/schedule.py) on the session of Collection, with the broker as a parameter;
--   Tasks/Recovery is what a worker does where it has no runtime and after a failure
--   (backend/app/tasks/collection.py).
--
-- What is not modelled: HTTP, SQL and ORM details, logging, command-line entry points,
-- migrations, and the parts of the backend that PROJECT.json lists as not modelled.
pub mod Apportion
pub mod Base
pub mod Collection
pub mod CompanyIdentity
pub mod Coverage
pub mod EntryVerification
pub mod Ingestion
pub mod Manifest
pub mod Rankings
pub mod Tasks
