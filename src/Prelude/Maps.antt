-- ===== src/Prelude/Maps.antt =====
-- `HashMap<u64, V>` as an association list. The program reads single entries, `len()`, and folds
-- over `values()` that do not depend on the order.
use Prim.Native.Nat.{ℕ, ◌+◌, ◌≤◌}
use mathlib.Core.Path.{◌≡◌, refl}
use mathlib.Core.Bool.{Bool, true}
use mathlib.Core.List.{List, [], ◌∷◌, map}
use mathlib.Core.Option.{Option, none, some}
use native.Mathlib.Omega.{arith}
use raydio.Prelude.Tests.{◌==◌, if◌then◌else◌, is_some}
use raydio.Prelude.Lists.{length}

abbrev pub Map {ℓ} : Type ℓ → Type ℓ
Map V = List (ℕ × V)

module _ {ℓ} {V : Type ℓ} where
  -- `get`
  unfoldable pub get : ℕ → Map V → Option V
  get k [] = none
  get k ((j, v) ∷ m) = if j == k then some v else get k m

  -- `insert`
  unfoldable pub insert : ℕ → V → Map V → Map V
  insert k v [] = (k, v) ∷ []
  insert k v ((j, w) ∷ m) = if j == k then (k, v) ∷ m else (j, w) ∷ insert k v m

  -- `remove`
  unfoldable pub delete : ℕ → Map V → Map V
  delete k [] = []
  delete k ((j, w) ∷ m) = if j == k then delete k m else (j, w) ∷ delete k m

  -- `contains_key`
  abbrev pub contains_key : ℕ → Map V → Bool
  contains_key k m = is_some (get k m)

  -- `values`
  abbrev pub values : Map V → List V
  values = map λ e. e.1

  -- `collect` from an iterator: a later entry replaces an earlier one.
  unfoldable pub collect_into : Map V → List (ℕ × V) → Map V
  collect_into m [] = m
  collect_into m ((k, v) ∷ es) = collect_into (insert k v m) es

  -- A change through `get_mut`: nothing happens on a missing key.
  unfoldable pub modify : ℕ → (V → V) → Map V → Map V
  modify k f [] = []
  modify k f ((j, w) ∷ m) = if j == k then (j, f w) ∷ m else (j, w) ∷ modify k f m

  pub get-insert :
      (k j : ℕ) (v : V) (m : Map V) → get j (insert k v m) ≡ (if k == j then some v else get j m)
  unfolding get insert
  get-insert k j v [] = refl
  get-insert k j v ((i, w) ∷ m) = ground (arith, get-insert k j v m)

  pub get-delete : (k j : ℕ) (m : Map V) → get j (delete k m) ≡ (if k == j then none else get j m)
  unfolding get delete
  get-delete k j [] = ground arith
  get-delete k j ((i, w) ∷ m) = ground (arith, get-delete k j m)

  pub get-modify :
      (k j : ℕ) (f : V → V) (m : Map V)
      → get j (modify k f m)
        ≡ (elim (get j m) [ none ↦ none | some v ↦ if k == j then some (f v) else some v ])
  unfolding get modify
  get-modify k j f [] = refl
  get-modify k j f ((i, w) ∷ m) = ground (arith, get-modify k j f m)

  pub length-insert_new : (k : ℕ) (v : V) (m : Map V) → length (insert k v m) ≤ length m + 1
  unfolding insert
  length-insert_new k v [] = omega arith
  length-insert_new k v ((j, w) ∷ m) = ground (arith, length-insert_new k v m)

  pub length-insert_old :
      (k : ℕ) (v : V) (m : Map V) → contains_key k m ≡ true → length (insert k v m) ≡ length m
  unfolding get insert
  length-insert_old k v [] h = cc
  length-insert_old k v ((j, w) ∷ m) h = ground (arith, length-insert_old k v m)

  pub length-delete : (k : ℕ) (m : Map V) → length (delete k m) ≤ length m
  unfolding delete
  length-delete k [] = omega arith
  length-delete k ((j, w) ∷ m) = ground (arith, length-delete k m)

  pub length-modify : (k : ℕ) (f : V → V) (m : Map V) → length (modify k f m) ≡ length m
  unfolding modify
  length-modify k f [] = refl
  length-modify k f ((j, w) ∷ m) = ground (arith, length-modify k f m)
