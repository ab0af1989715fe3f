-- ===== src/Base/Table.antt =====
-- A database table with a primary key. The rows stand in the order of insertion.
use Prim.Native.Nat.{ℕ}
use mathlib.Core.Path.{◌≡◌, refl}
use mathlib.Core.Bool.{Bool, false}
use mathlib.Core.Option.{Option, none, some}
use mathlib.Core.List.{List, [], ◌∷◌}
use native.Mathlib.Omega.{arith}
use job_search.Base.Tests.{if◌then◌else◌, ◌==◌}

abbrev pub Table {ℓ} : Type ℓ → Type ℓ
Table V = List (ℕ × V)

module _ {ℓ} {V : Type ℓ} where
  -- SELECT by primary key.
  unfoldable pub get : ℕ → Table V → Option V
  get k [] = none
  get k ((j, v) ∷ t) = if j == k then some v else get k t

  -- Writes a row, in place where the key is there.
  unfoldable pub put : ℕ → V → Table V → Table V
  put k v [] = (k, v) ∷ []
  put k v ((j, w) ∷ t) = if j == k then (k, v) ∷ t else (j, w) ∷ put k v t

  abbrev pub rows : Table V → List V
  rows [] = []
  rows ((k, v) ∷ t) = v ∷ rows t

  pub get-put :
      (k j : ℕ) (v : V) (t : Table V) → get j (put k v t) ≡ (if k == j then some v else get j t)
  unfolding get put
  get-put k j v [] = refl
  get-put k j v ((i, w) ∷ t) = ground (arith, get-put k j v t)

  -- UPDATE ... WHERE id = k AND p, with the row count.
  abbrev pub update_row : ℕ → (V → Bool) → (V → V) → Table V → Option V → Table V × ℕ
  update_row k p f t none = (t, 0)
  update_row k p f t (some v) = if p v then (put k (f v) t, 1) else (t, 0)

  unfoldable pub update_where : ℕ → (V → Bool) → (V → V) → Table V → Table V × ℕ
  update_where k p f t = update_row k p f t (get k t)

  -- The key is there and its row passes.
  abbrev pub row_passes : (V → Bool) → Option V → Bool
  row_passes p none = false
  row_passes p (some v) = p v
