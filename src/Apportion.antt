-- ===== src/Apportion.antt =====
-- Sums over a list of items, sorting by a test, and the first places of an order: what the allocations
-- of backend/app/manifest/allocation.py use. An item is told from another by its code.
pub mod Sorting
pub mod Remainders
use job_search.Base.{
  ℕ, zero, suc, ◌+◌, ◌≡◌, Bool, true, false, ◌||◌, List, [], ◌∷◌, take, ◌==◌, if◌then◌else◌,
}

module _ {ℓ} {A : Type ℓ} where
  -- `sum(f(a) for a in items)`
  abbrev pub sum_of : (A → ℕ) → List A → ℕ
  sum_of f [] = 0
  sum_of f (a ∷ items) = f a + sum_of f items

  -- `before x a` is that `x` comes strictly first. The sort is stable.
  unfoldable pub insert_by : (A → A → Bool) → A → List A → List A
  insert_by before a [] = a ∷ []
  insert_by before a (x ∷ xs) =
      let rest = insert_by before a xs in if before x a then x ∷ rest else a ∷ x ∷ xs

  unfoldable pub sort_by : (A → A → Bool) → List A → List A
  sort_by before [] = []
  sort_by before (a ∷ items) = insert_by before a (sort_by before items)

  -- `a in items`
  abbrev pub is_among : (A → ℕ) → A → List A → Bool
  is_among code a [] = false
  is_among code a (x ∷ xs) = code x == code a || is_among code a xs

  -- No code stands twice.
  abbrev pub HasDistinctCodes : (A → ℕ) → List A → Type 0
  HasDistinctCodes code [] = Unit
  HasDistinctCodes code (a ∷ items) = (is_among code a items ≡ false) × HasDistinctCodes code items

  -- One seat for each of the first `n` items of an order.
  abbrev pub seat : (A → ℕ) → ℕ → List A → A → ℕ
  seat code n order a = if is_among code a (take n order) then 1 else 0
