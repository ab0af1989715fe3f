-- ===== src/Coverage/Contracts.antt =====
-- `RecordJobSnapshot` and its validator (backend/app/ingestion/coverage/contracts.py).
use job_search.Base.{
  ℕ, String, ◌≡◌, refl, ◌≤◌, Bool, true, false, not, ◌&&◌, Option, none, some, List, [], ◌∷◌, arith,
  Outcome, returned, raised, ◌>>◌, require, ltb, ◌==◌, is_none, holds, holds→eq, ◌≢◌,
}
use job_search.Coverage.Models.{JobSnapshotStatus, succeeded, partial, failed, is_succeeded}

pub record RecordJobSnapshot : Type 0 where
  pub entry_id : ℕ
  pub crawl_run_id : ℕ
  pub status : JobSnapshotStatus
  pub pagination_complete : Bool
  pub empty_confirmed : Bool
  pub reported_total : Option ℕ
  pub pages_fetched : ℕ
  pub content_fingerprint : Option String
  pub error_code : Option String
  pub started_at : ℕ
  pub completed_at : ℕ
  pub seen_source_ids : List ℕ

abbrev pub is_empty {ℓ} : {A : Type ℓ} → List A → Bool
is_empty [] = true
is_empty (x ∷ xs) = false

validate_status : JobSnapshotStatus → RecordJobSnapshot → Outcome (Unit {0})
validate_status succeeded c = do
  require c.pagination_complete "successful snapshot must be complete"
  require (is_none c.error_code) "successful snapshot cannot have an error_code"
validate_status partial c =
    require (not (is_none c.error_code)) "partial snapshot requires error_code"
validate_status failed c = do
  require (not (is_none c.error_code)) "failed snapshot requires error_code"
  require (not c.pagination_complete) "failed snapshot cannot be complete"
  require (is_empty c.seen_source_ids) "failed snapshot cannot contain sources"
  require (c.pages_fetched == 0) "failed snapshot pages_fetched must be zero"

validate_empty : Bool → RecordJobSnapshot → Outcome (Unit {0})
validate_empty false c = returned tt
validate_empty true c = do
  require (is_succeeded c.status && c.pagination_complete)
      "empty confirmation requires successful complete snapshot"
  require (is_empty c.seen_source_ids) "confirmed empty snapshot cannot contain sources"
  require (holds c.reported_total 0) "confirmed empty reported_total must be zero"

pub validate_snapshot_invariants : RecordJobSnapshot → Outcome RecordJobSnapshot
unfolding validate_status validate_empty
validate_snapshot_invariants c = do
  require (not (ltb c.completed_at c.started_at)) "completed_at must not precede started_at"
  validate_status c.status c
  validate_empty c.empty_confirmed c
  returned c

-- What a valid command is, as one description.
abbrev StatusFits : JobSnapshotStatus → RecordJobSnapshot → Type 0
StatusFits succeeded c = (c.pagination_complete ≡ true) × (c.error_code ≡ none)
StatusFits partial c = c.error_code ≢ none
StatusFits failed c =
    (c.error_code ≢ none)
    × (c.pagination_complete ≡ false)
    × (c.seen_source_ids ≡ [])
    × (c.pages_fetched ≡ 0)

pub record IsValidSnapshot (c : RecordJobSnapshot) : Type 0 where
  pub ordered : c.started_at ≤ c.completed_at
  pub status_fits : StatusFits c.status c
  pub empty_fits :
      c.empty_confirmed ≡ true
      → (c.status ≡ succeeded) × (c.seen_source_ids ≡ []) × (c.reported_total ≡ some 0)

status_sound :
    (st : JobSnapshotStatus) (c : RecordJobSnapshot)
    → validate_status st c ≡ returned tt
    → StatusFits st c
unfolding validate_status
status_sound succeeded c h = ground arith
status_sound partial c h = ground arith
status_sound failed c h = ground arith

status_complete :
    (st : JobSnapshotStatus) (c : RecordJobSnapshot)
    → StatusFits st c
    → validate_status st c ≡ returned tt
unfolding validate_status
status_complete succeeded c h = ground arith
status_complete partial c h = ground arith
status_complete failed c h = ground arith

complete_of_success :
    (st : JobSnapshotStatus) (c : RecordJobSnapshot)
    → StatusFits st c
    → st ≡ succeeded
    → c.pagination_complete ≡ true
complete_of_success succeeded c h e = h.0
complete_of_success partial c h e = cc
complete_of_success failed c h e = cc

-- An outcome that a later step reads has returned.
returned_of_bind :
    {A : Type 0} (m : Outcome (Unit {0})) (k : Outcome A) (a : A)
    → (m >> k) ≡ returned a
    → (m ≡ returned tt) × (k ≡ returned a)
returned_of_bind (returned tt) k a h = (refl, h)
returned_of_bind (raised e) k a h = cc

module _ (c : RecordJobSnapshot) where
  empty_sound :
      (b : Bool)
      → validate_empty b c ≡ returned tt
      → b ≡ true
      → (c.status ≡ succeeded) × (c.seen_source_ids ≡ []) × (c.reported_total ≡ some 0)
  unfolding validate_empty
  empty_sound b h e = ground (arith, holds→eq c.reported_total 0)

  empty_complete :
      (b : Bool)
      → (b ≡ true → (c.status ≡ succeeded) × (c.seen_source_ids ≡ []) × (c.reported_total ≡ some 0))
      → (b ≡ true → c.pagination_complete ≡ true)
      → validate_empty b c ≡ returned tt
  unfolding validate_empty
  empty_complete b h p = ground (arith, h, p)

  -- The validator returns a command exactly where it is valid, and then as it was.
  pub validate_iff :
      ((d : RecordJobSnapshot)
        → validate_snapshot_invariants c ≡ returned d
        → IsValidSnapshot c × (d ≡ c))
      × (IsValidSnapshot c → validate_snapshot_invariants c ≡ returned c)
  unfolding validate_snapshot_invariants
  validate_iff =
      let in_order =
        require (not (ltb c.completed_at c.started_at))
          "completed_at must not precede started_at" in
      let of_status = validate_status c.status c in
      let of_empty = validate_empty c.empty_confirmed c in
      (
        (λ d h.
            let (a, h1) = returned_of_bind in_order (of_status >> (of_empty >> returned c)) d h in
            let (b, h2) = returned_of_bind of_status (of_empty >> returned c) d h1 in
            let (e, h3) = returned_of_bind of_empty (returned c) d h2 in
            (
              record {
                ordered = ground (arith, a);
                status_fits = status_sound c.status c b;
                empty_fits = empty_sound c.empty_confirmed e;
              },
              cc,
            )),
        (λ v.
            let ordered : in_order ≡ returned tt = ground (arith, v.ordered) in
            rw ordered (
              rw (status_complete c.status c v.status_fits) (
                rw
                  (empty_complete c.empty_confirmed v.empty_fits
                    (λ e. complete_of_success c.status c v.status_fits (v.empty_fits e).0))
                  refl))),
      )
