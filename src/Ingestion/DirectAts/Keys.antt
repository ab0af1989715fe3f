-- ===== src/Ingestion/DirectAts/Keys.antt =====
-- The keys of sources in backend/app/ingestion/direct_ats.py, and which sources a flush can insert.
use text.Mathlib.TextEquality.{eq_iff}
use text.Mathlib.Text.{◌==◌ as str_eq}
use job_search.Base.{
  any_of-append, append-nil, String, ◌≡◌, refl, sym, ap, ◌∙◌, inl, inr, Bool, true, false, not,
  ◌&&◌, ◌||◌, List, [], ◌∷◌, ◌++◌, map, any_of, arith, returned, Bool-cases,
}
use job_search.Ingestion.DirectAts.{JobSource}
use job_search.Ingestion.DirectAts.Writing.{has_source_key, same_source, insert_sources}

abbrev pub key_of : JobSource → String × String
key_of s = (s.provider, s.source_raw_id)

abbrev pub same_key : String × String → String × String → Bool
same_key a b = str_eq a.0 b.0 && str_eq a.1 b.1

pub str_eq_comm : (a b : String) → str_eq a b ≡ str_eq b a
str_eq_comm a b = elim (Bool-cases (str_eq a b)) [
  | inl e ↦ let same = (eq_iff a b).0 e in e ∙ sym ((eq_iff b a).1 (sym same))
  | inr e ↦ elim (Bool-cases (str_eq b a)) [
    | inl d ↦ (eq_iff a b).1 (sym ((eq_iff b a).0 d)) ∙ sym d
    | inr d ↦ e ∙ sym d
  ]
]

pub same_key_comm : (a b : String × String) → same_key a b ≡ same_key b a
same_key_comm a b = rw (str_eq_comm a.0 b.0, str_eq_comm a.1 b.1) refl

pub same_key_refl : (a : String × String) → same_key a a ≡ true
same_key_refl a = rw ((eq_iff a.0 a.0).1 refl, (eq_iff a.1 a.1).1 refl) refl

append-cons {ℓ} :
    {A : Type ℓ} (xs : List A) (y : A) (ys : List A) → (xs ++ y ∷ []) ++ ys ≡ xs ++ y ∷ ys
append-cons [] y ys = refl
append-cons (x ∷ xs) y ys = ap (λ t. x ∷ t) (append-cons xs y ys)

-- No source has a key that is in the table, and no two have the same.
abbrev pub admits : List JobSource → List JobSource → Bool
admits [] sources = true
admits (s ∷ pending) sources =
    not (any_of (same_source s) sources)
    && not (any_of (same_source s) pending)
    && admits pending sources

-- A source that clashes with none of these is no obstacle to them.
pub admits-snoc-table :
    (s : JobSource) (pending sources : List JobSource)
    → any_of (same_source s) pending ≡ false
    → admits pending sources ≡ true
    → admits pending (sources ++ s ∷ []) ≡ true
admits-snoc-table s [] sources h k = refl
admits-snoc-table s (q ∷ pending) sources h k = ground (
  arith,
  any_of-append (same_source q) sources (s ∷ []),
  same_key_comm (key_of q) (key_of s),
  admits-snoc-table s pending sources (ground arith) (ground arith),
)

pub insert_sources_success :
    (pending sources : List JobSource)
    → admits pending sources ≡ true
    → insert_sources pending sources ≡ returned (sources ++ pending)
unfolding insert_sources
insert_sources_success [] sources h = ap returned (sym (append-nil sources))
insert_sources_success (s ∷ pending) sources h =
    let later =
      insert_sources_success pending (sources ++ s ∷ [])
        (admits-snoc-table s pending sources (ground arith) (ground arith)) in
    ground (arith, later, append-cons sources s pending)

-- A new source whose key is neither in the table nor among the others can be inserted after them.
pub admits-snoc :
    (s : JobSource) (pending sources : List JobSource)
    → any_of (same_source s) sources ≡ false
    → any_of (has_source_key (key_of s)) pending ≡ false
    → admits pending sources ≡ true
    → admits (pending ++ s ∷ []) sources ≡ true
admits-snoc s [] sources h k a = ground arith
admits-snoc s (q ∷ pending) sources h k a = ground (
  arith,
  any_of-append (same_source q) pending (s ∷ []),
  same_key_comm (key_of q) (key_of s),
  admits-snoc s pending sources h (ground arith) (ground arith),
)

module _ (f : JobSource → JobSource) (f-key : (s : JobSource) → key_of (f s) ≡ key_of s) where
  any_of-map_key :
      (key : String × String) (sources : List JobSource)
      → any_of (has_source_key key) (map f sources) ≡ any_of (has_source_key key) sources
  any_of-map_key key [] = refl
  any_of-map_key key (s ∷ sources) =
      ap (λ (k : String × String). same_key k key || any_of (has_source_key key) (map f sources))
        (f-key s)
      ∙ ap (λ b. has_source_key key s || b) (any_of-map_key key sources)

  -- Whether sources can be inserted depends on the keys of the table alone.
  pub admits-map :
      (pending sources : List JobSource) → admits pending (map f sources) ≡ admits pending sources
  admits-map [] sources = refl
  admits-map (s ∷ pending) sources =
      rw (any_of-map_key (key_of s) sources, admits-map pending sources) refl
