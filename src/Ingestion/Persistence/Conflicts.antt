-- ===== src/Ingestion/Persistence/Conflicts.antt =====
-- `_insert_or_reselect` of `PersistenceService` (backend/app/ingestion/persistence/service.py), the
-- change of the row that a session has loaded, and `sorted(set(...))` of texts.
use Prim.Native.Nat.{Ordering}
use Prim.Native.String.{compare}
use text.Mathlib.Text.{◌==◌ as str_eq}
use job_search.Base.{
  String, Bool, true, false, Option, none, some, List, [], ◌∷◌, ◌++◌, returned, raised,
  if◌then◌else◌,
}
use job_search.Ingestion.Persistence.{Tables, Write, Externals}

-- A mapped class: its rows, and the constraint that a new row violates, if any.
pub record Model (A : Type 0) : Type 0 where
  pub rows : Tables → List A
  pub with_rows : List A → Tables → Tables
  pub violated : A → List A → Option String

-- The row that is found first, changed. The columns that the tests of the queries read keep their values,
-- or are read by no later query, so that a change at once is the same as one at the next flush.
unfoldable pub change_first : {A : Type 0} → (A → Bool) → (A → A) → List A → List A
change_first p f [] = []
change_first p f (x ∷ xs) = if p x then f x ∷ xs else x ∷ change_first p f xs

abbrev pub change : {A : Type 0} → Model A → (A → Bool) → (A → A) → Write (Unit {0})
change model p f t = returned (tt, model.with_rows (change_first p f (model.rows t)) t)

abbrev pub reselected : {A : Type 0} → Option A → Write (A × Bool)
reselected none t = raised "identity conflict had no recoverable winner"
reselected (some winner) t = returned ((winner, false), t)

abbrev pub insert : {A : Type 0} → Model A → A → Tables → Tables
insert model candidate t = model.with_rows (model.rows t ++ candidate ∷ []) t

-- After the INSERT, with the constraint that it has violated.
unfoldable pub settle :
    {A : Type 0} → Model A → (Tables → Option A) → String → A → Option String → Write (A × Bool)
settle model identity constraint candidate none t =
    returned ((candidate, true), insert model candidate t)
settle model identity constraint candidate (some actual) t =
    if str_eq actual constraint
    then reselected (identity t) t
    else raised "unexpected database uniqueness conflict"

-- The rows of other sessions that were committed before are in the way of the INSERT.
unfoldable pub insert_or_reselect :
    {A : Type 0} → Externals → Model A → (Tables → Option A) → String → A → Write (A × Bool)
insert_or_reselect ext model identity constraint candidate t =
    let t' = ext.rival t in
    settle model identity constraint candidate (model.violated candidate (model.rows t')) t'

abbrev pub is_less : Ordering → Bool
is_less Ordering.lt = true
is_less _ = false

-- Python compares texts by their code points.
abbrev pub text_before : String → String → Bool
text_before a b = is_less (compare a b)

unfoldable pub insert_text : String → List String → List String
insert_text a [] = a ∷ []
insert_text a (b ∷ texts) =
    if str_eq a b
    then b ∷ texts
    else if text_before a b
    then a ∷ b ∷ texts
    else b ∷ insert_text a texts

-- `sorted(set(texts))`
unfoldable pub sorted_texts : List String → List String
sorted_texts [] = []
sorted_texts (a ∷ texts) = insert_text a (sorted_texts texts)
