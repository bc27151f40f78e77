-- ===== src/Prelude/Rows.antt =====
-- A table is the list of its rows, the newest first. A query is a function of that list.
use Prim.Native.Nat.{ℕ, suc}
use mathlib.Core.Bool.{Bool, true, false, ◌&&◌, ◌||◌}
use mathlib.Core.Option.{Option, none, some}
use mathlib.Core.List.{List, [], ◌∷◌}
use voice_pod_dispatcher.Prelude.Tests.{if◌then◌else◌, ltb}

module _ {ℓ} {A : Type ℓ} where
  abbrev pub length : List A → ℕ
  length [] = 0
  length (x ∷ xs) = suc (length xs)

  -- The row of a primary key, or the newest row that meets the test.
  unfoldable pub find_row : (A → Bool) → List A → Option A
  find_row p [] = none
  find_row p (x ∷ xs) = if p x then some x else find_row p xs

  -- SELECT * FROM t WHERE p
  unfoldable pub select : (A → Bool) → List A → List A
  select p [] = []
  select p (x ∷ xs) = let rest = select p xs in if p x then x ∷ rest else rest

  -- UPDATE t SET … WHERE the primary key is given: one row at most.
  unfoldable pub update_row : (A → Bool) → (A → A) → List A → List A
  update_row p f [] = []
  update_row p f (x ∷ xs) = let rest = update_row p f xs in if p x then f x ∷ xs else x ∷ rest

  -- UPDATE t SET … WHERE p
  unfoldable pub update_where : (A → Bool) → (A → A) → List A → List A
  update_where p f [] = []
  update_where p f (x ∷ xs) = (if p x then f x else x) ∷ update_where p f xs

  -- ORDER BY key DESC LIMIT 1; of rows with the same key the oldest.
  unfoldable pub latest : (A → ℕ) → List A → Option A
  latest key [] = none
  latest key (x ∷ xs) = elim (latest key xs) [
    | none ↦ some x
    | some y ↦ some (if ltb (key y) (key x) then x else y)
  ]

  unfoldable pub any : (A → Bool) → List A → Bool
  any p [] = false
  any p (x ∷ xs) = p x || any p xs

  unfoldable pub all : (A → Bool) → List A → Bool
  all p [] = true
  all p (x ∷ xs) = p x && all p xs
