-- ===== src/Coverage/Activity/Ids.antt =====
-- Ascending lists of ids, and the parts that `recompute_job_activity` of
-- backend/app/ingestion/coverage/repository.py cuts them into.
use job_search.Base.{
  ℕ, zero, suc, ◌≤◌, ◌≡◌, refl, ap, ◌∙◌, false, ◌&&◌, ◌||◌, List, [], ◌∷◌, arith, ltb, ◌==◌, ◌<◌,
  All, contains, length, take, drop, Bool-cases, inl, inr,
}
use job_search.Coverage.Activity.{insert_id, sorted_ids}

contains-insert_id :
    (a b : ℕ) (xs : List ℕ) → contains (insert_id a xs) b ≡ (a == b || contains xs b)
unfolding insert_id
contains-insert_id a b [] = ground arith
contains-insert_id a b (x ∷ xs) = ground (arith, contains-insert_id a b xs)

pub contains-sorted_ids : (xs : List ℕ) (b : ℕ) → contains (sorted_ids xs) b ≡ contains xs b
unfolding sorted_ids
contains-sorted_ids [] b = refl
contains-sorted_ids (a ∷ xs) b =
    contains-insert_id a b (sorted_ids xs) ∙ ap (λ c. a == b || c) (contains-sorted_ids xs b)

pub contains-take-drop :
    (n : ℕ) (xs : List ℕ) (b : ℕ)
    → (contains (take n xs) b || contains (drop n xs) b) ≡ contains xs b
contains-take-drop zero xs b = refl
contains-take-drop (suc n) [] b = refl
contains-take-drop (suc n) (x ∷ xs) b = ground (arith, contains-take-drop n xs b)

pub length-drop-le : (n : ℕ) (a : ℕ) (xs : List ℕ) → length (drop (suc n) (a ∷ xs)) ≤ length xs
length-drop-le zero a xs = omega arith
length-drop-le (suc n) a [] = omega arith
length-drop-le (suc n) a (x ∷ xs) = omega (arith, length-drop-le n x xs)

-- An ascending list of ids, which has none twice.
abbrev pub Ascending : List ℕ → Type 0
Ascending [] = Unit
Ascending (x ∷ xs) = All (λ y. x < y) xs × Ascending xs

insert_id-above :
    (a x : ℕ) (xs : List ℕ) → x < a → All (λ y. x < y) xs → All (λ y. x < y) (insert_id a xs)
unfolding insert_id
insert_id-above a x [] h all = (h, tt)
insert_id-above a x (y ∷ ys) h all = elim (Bool-cases (a == y)) [
  | inl e ↦ rw e all
  | inr e ↦ elim (Bool-cases (ltb a y)) [
    | inl l ↦ rw e (rw l (h, all))
    | inr l ↦ rw e (rw l (all.0, insert_id-above a x ys h all.1))
  ]
]

All-above : (a x : ℕ) (xs : List ℕ) → a < x → All (λ y. x < y) xs → All (λ y. a < y) xs
All-above a x [] h all = tt
All-above a x (y ∷ ys) h all = (omega arith, All-above a x ys h all.1)

insert_id-Ascending : (a : ℕ) (xs : List ℕ) → Ascending xs → Ascending (insert_id a xs)
unfolding insert_id
insert_id-Ascending a [] h = (tt, tt)
insert_id-Ascending a (x ∷ xs) h = elim (Bool-cases (a == x)) [
  | inl e ↦ rw e h
  | inr e ↦ elim (Bool-cases (ltb a x)) [
    | inl l ↦ rw e (rw l ((ground arith, All-above a x xs (ground arith) h.0), h))
    | inr l ↦ rw e (rw l (insert_id-above a x xs (ground arith) h.0, insert_id-Ascending a xs h.1))
  ]
]

pub sorted_ids-Ascending : (xs : List ℕ) → Ascending (sorted_ids xs)
unfolding sorted_ids
sorted_ids-Ascending [] = tt
sorted_ids-Ascending (a ∷ xs) = insert_id-Ascending a (sorted_ids xs) (sorted_ids-Ascending xs)

not_contained_above : (a : ℕ) (xs : List ℕ) → All (λ y. a < y) xs → contains xs a ≡ false
not_contained_above a [] all = refl
not_contained_above a (x ∷ xs) all = ground (arith, not_contained_above a xs all.1)

All-drop : (a n : ℕ) (xs : List ℕ) → All (λ y. a < y) xs → All (λ y. a < y) (drop n xs)
All-drop a zero xs all = all
All-drop a (suc n) [] all = tt
All-drop a (suc n) (x ∷ xs) all = All-drop a n xs all.1

pub drop-Ascending : (n : ℕ) (xs : List ℕ) → Ascending xs → Ascending (drop n xs)
drop-Ascending zero xs h = h
drop-Ascending (suc n) [] h = tt
drop-Ascending (suc n) (x ∷ xs) h = drop-Ascending n xs h.1

pub disjoint_parts :
    (n : ℕ) (xs : List ℕ) (b : ℕ)
    → Ascending xs
    → (contains (take n xs) b && contains (drop n xs) b) ≡ false
disjoint_parts zero xs b h = refl
disjoint_parts (suc n) [] b h = refl
disjoint_parts (suc n) (x ∷ xs) b h =
    ground
      (arith, disjoint_parts n xs b h.1, not_contained_above x (drop n xs) (All-drop x n xs h.0))
