-- ===== src/Prelude/Table.antt =====
-- A GHashTable with keys made by GUINT_TO_POINTER: an association list under the table's operations.
use Prim.Native.Nat.{ℕ}
use mathlib.Core.Path.{◌≡◌}
use mathlib.Core.Option.{Option, none, some}
use mathlib.Core.List.{List, [], ◌∷◌}
use native.Mathlib.Omega.{arith}
use openwebrtc.Prelude.Tests.{◌==◌, if◌then◌else◌}

abbrev pub Map {ℓ} : Type ℓ → Type ℓ
Map V = List (ℕ × V)

module _ {ℓ} {V : Type ℓ} where
  unfoldable pub lookup : ℕ → Map V → Option V
  lookup key [] = none
  lookup key ((other, value) ∷ rest) =
      let further = lookup key rest in if other == key then some value else further

  unfoldable pub insert : ℕ → V → Map V → Map V
  insert key new [] = (key, new) ∷ []
  insert key new ((other, value) ∷ rest) =
      let kept = (other, value) ∷ insert key new rest in
      if other == key then (key, new) ∷ rest else kept

  unfoldable pub remove : ℕ → Map V → Map V
  remove key [] = []
  remove key ((other, value) ∷ rest) =
      let fewer = remove key rest in if other == key then fewer else (other, value) ∷ fewer

  module _ (key j : ℕ) where
    pub lookup-insert :
        (new : V) (m : Map V)
        → lookup j (insert key new m) ≡ (if key == j then some new else lookup j m)
    unfolding lookup insert
    lookup-insert new [] = ground arith
    lookup-insert new ((other, value) ∷ rest) = ground (arith, lookup-insert new rest)

    pub lookup-remove :
        (m : Map V) → lookup j (remove key m) ≡ (if key == j then none else lookup j m)
    unfolding lookup remove
    lookup-remove [] = ground arith
    lookup-remove ((other, value) ∷ rest) = ground (arith, lookup-remove rest)

  pub lookup-insert_same :
      (key : ℕ) (new : V) (m : Map V) → lookup key (insert key new m) ≡ some new
  lookup-insert_same key new m = ground (arith, lookup-insert key key new m)

  -- The second of two stores under one key is the one that counts.
  pub insert-insert :
      (key : ℕ) (old new : V) (m : Map V) → insert key new (insert key old m) ≡ insert key new m
  unfolding insert
  insert-insert key old new [] = ground arith
  insert-insert key old new ((other, value) ∷ rest) = ground (arith, insert-insert key old new rest)

  pub remove-insert : (key : ℕ) (new : V) (m : Map V) → remove key (insert key new m) ≡ remove key m
  unfolding remove insert
  remove-insert key new [] = ground arith
  remove-insert key new ((other, value) ∷ rest) = ground (arith, remove-insert key new rest)

  pub lookup-remove_same : (key : ℕ) (m : Map V) → lookup key (remove key m) ≡ none
  lookup-remove_same key m = ground (arith, lookup-remove key key m)
