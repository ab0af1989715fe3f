-- ===== src/Ingestion/Persistence.antt =====
-- The tables that `PersistenceService` of backend/app/ingestion/persistence/service.py works on, and its
-- transaction: a computation on them that returns or raises. What it raises rolls everything back, so
-- that no tables come with it. Columns that this code neither reads nor writes are left out.
pub mod Contracts
pub mod Conflicts
pub mod Documents
pub mod Companies
pub mod Jobs
pub mod JobLoop
pub mod Records
pub mod Filings
pub mod Profiles
pub mod Service
pub mod Endings
pub mod Keeping
pub mod Frame
pub mod Ownership
pub mod Owners
pub mod OneOwner
pub mod Names
pub mod Activity
pub mod ActiveJobs
pub mod ActiveSources
pub mod ActiveBatch
pub mod JobFrame
pub mod Fencing
mod Samples
use job_search.Base.{
  ℕ, String, Bool, true, false, Option, none, some, List, Outcome, returned, raised, if◌then◌else◌,
}
use job_search.Collection.Session.{Tables as CollectionTables}
use job_search.Ingestion.DirectAts.{JobPosting, JobSource, VerificationStatus}

pub data FilingType : Type 0 where
  icp algorithm business_license : FilingType

pub record Company : Type 0 where
  pub id : ℕ
  pub canonical_name : String
  pub normalized_name : String
  pub industry : Option String
  pub sub_industry : Option String
  pub funding_stage : String
  pub scale : String
  pub city : Option String
  pub headquarters : Option String
  pub founded_year : Option ℕ
  pub website : Option String
  pub normalized_website : String
  pub description : Option String
  pub last_collected_at : Option ℕ

pub record CompanyAlias : Type 0 where
  pub id : ℕ
  pub company_id : ℕ
  pub alias : String
  pub normalized_alias : String

pub record SourceDocument : Type 0 where
  pub id : ℕ
  pub provider : String
  pub external_id : Option String
  pub url : String
  pub title : Option String
  pub text_excerpt : String
  pub content_hash : ℕ
  pub authority_level : Option ℕ
  pub published_at : Option ℕ
  pub fetched_at : ℕ

-- The confidence is a number of a fixed small unit.
pub record CompanySource : Type 0 where
  pub company_id : ℕ
  pub source_document_id : ℕ
  pub covered_fields : List String
  pub confidence : ℕ

pub record CompanyProfileField : Type 0 where
  pub company_id : ℕ
  pub field_key : String
  pub value : String
  pub source_document_id : ℕ
  pub verification_status : VerificationStatus
  pub collected_at : ℕ

pub record RegulatoryFiling : Type 0 where
  pub id : ℕ
  pub company_id : ℕ
  pub source_document_id : Option ℕ
  pub filing_type : FilingType
  pub filing_number : String
  pub normalized_filing_number : String
  pub filing_name : String
  pub filing_authority : Option String
  pub filing_date : Option ℕ
  pub filing_status : Option String
  pub detail_url : Option String

pub record Tables : Type 0 where
  pub collection : CollectionTables
  pub companies : List Company
  pub aliases : List CompanyAlias
  pub documents : List SourceDocument
  pub company_sources : List CompanySource
  pub postings : List JobPosting
  pub sources : List JobSource
  pub filings : List RegulatoryFiling
  pub profile_fields : List CompanyProfileField

abbrev pub Write {ℓ} : Type ℓ → Type ℓ
Write A = Tables → Outcome (A × Tables)

-- What follows a computation that has ended.
abbrev pub continue_with {ℓ κ} :
    {A : Type ℓ} {B : Type κ} → Outcome (A × Tables) → (A → Write B) → Outcome (B × Tables)
continue_with (returned (a, t)) f = f a t
continue_with (raised e) f = raised e

infixl 5 ◌>>=◌ ◌>>◌
abbrev pub ◌>>=◌ {ℓ κ} : {A : Type ℓ} {B : Type κ} → Write A → (A → Write B) → Write B
◌>>=◌ m f t = continue_with (m t) f

abbrev pub ◌>>◌ {ℓ} : {B : Type ℓ} → Write (Unit {0}) → Write B → Write B
m >> k = m >>= λ _. k

abbrev pub pure {ℓ} : {A : Type ℓ} → A → Write A
pure a t = returned (a, t)

abbrev pub fail {ℓ} : {A : Type ℓ} → String → Write A
fail e t = raised e

abbrev pub gets {ℓ} : {A : Type ℓ} → (Tables → A) → Write A
gets f t = returned (f t, t)

abbrev pub modify : (Tables → Tables) → Write (Unit {0})
modify f t = returned (tt, f t)

-- `if not test: raise ...`
abbrev pub demand : Bool → String → Write (Unit {0})
demand true e = pure tt
demand false e = fail e

abbrev pub or_fail {ℓ} : {A : Type ℓ} → Option A → String → Write A
or_fail none e = fail e
or_fail (some a) e = pure a

-- A call outside the database that may raise.
abbrev pub lift {ℓ} : {A : Type ℓ} → Outcome A → Write A
lift (returned a) = pure a
lift (raised e) = fail e

-- What the code takes from other modules, from libraries, and from uuid4, which may look at the tables. A
-- rival is what other sessions commit before an INSERT.
pub record Externals : Type 0 where
  pub normalize_name : String → String
  pub normalize_url : String → Outcome String
  pub normalize_public_identity_url : String → Outcome String
  pub content_hash : String → ℕ
  pub plain_text_excerpt : String → String
  pub uuid : Tables → ℕ
  pub rival : Tables → Tables
