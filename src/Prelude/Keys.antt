-- ===== src/Prelude/Keys.antt =====
-- The keys of an association list, and tests that hold of all its values.
use Prim.Native.Nat.{ℕ}
use mathlib.Core.Path.{◌≡◌, refl}
use mathlib.Core.Bool.{Bool, true, false, not, ◌||◌}
use mathlib.Core.List.{List, [], ◌∷◌, ◌++◌, map}
use mathlib.Core.Option.{some}
use native.Mathlib.Omega.{arith}
use raydio.Prelude.Tests.{◌==◌}
use raydio.Prelude.Lists.{any, all, keep, length}
use raydio.Prelude.Maps.{Map, get, insert, delete, modify, contains_key}

-- `keys`
abbrev pub keys {ℓ} : {V : Type ℓ} → Map V → List ℕ
keys m = map (λ e. e.0) m

-- No element of the list stands in it twice.
abbrev pub IsUnique : List ℕ → Type 0
IsUnique [] = Unit {0}
IsUnique (k ∷ ks) = (any (λ j. j == k) ks ≡ false) × IsUnique ks

pub any-snoc :
    (k j : ℕ) (ks : List ℕ) → any (λ i. i == j) (ks ++ k ∷ []) ≡ (any (λ i. i == j) ks || k == j)
any-snoc k j [] = ground arith
any-snoc k j (i ∷ ks) = ground (arith, any-snoc k j ks)

pub IsUnique-snoc :
    (k : ℕ) (ks : List ℕ) → any (λ j. j == k) ks ≡ false → IsUnique ks → IsUnique (ks ++ k ∷ [])
IsUnique-snoc k [] h u = (refl, tt)
IsUnique-snoc k (i ∷ ks) h u = ground (arith, any-snoc k i ks, IsUnique-snoc k ks)

any-keep :
    (k j : ℕ) (ks : List ℕ)
    → any (λ i. i == j) ks ≡ false
    → any (λ i. i == j) (keep (λ i. not (i == k)) ks) ≡ false
any-keep k j [] h = refl
any-keep k j (i ∷ ks) h = ground (arith, any-keep k j ks)

pub IsUnique-keep : (k : ℕ) (ks : List ℕ) → IsUnique ks → IsUnique (keep (λ j. not (j == k)) ks)
IsUnique-keep k [] u = tt
IsUnique-keep k (i ∷ ks) u = ground (arith, any-keep k i ks u.0, IsUnique-keep k ks u.1)

module _ {ℓ} {V : Type ℓ} where
  pub length-keys : (m : Map V) → length (keys m) ≡ length m
  length-keys [] = refl
  length-keys (e ∷ m) = omega (arith, length-keys m)

  pub any-keys : (k : ℕ) (m : Map V) → any (λ j. j == k) (keys m) ≡ contains_key k m
  unfolding get
  any-keys k [] = refl
  any-keys k ((j, v) ∷ m) = ground (arith, any-keys k m)

  pub keys-insert_old :
      (k : ℕ) (v : V) (m : Map V) → contains_key k m ≡ true → keys (insert k v m) ≡ keys m
  unfolding get insert
  keys-insert_old k v [] h = cc
  keys-insert_old k v ((j, w) ∷ m) h = ground (arith, keys-insert_old k v m)

  pub keys-insert_new :
      (k : ℕ) (v : V) (m : Map V)
      → contains_key k m ≡ false
      → keys (insert k v m) ≡ keys m ++ k ∷ []
  unfolding get insert
  keys-insert_new k v [] h = refl
  keys-insert_new k v ((j, w) ∷ m) h = ground (arith, keys-insert_new k v m)

  pub keys-delete : (k : ℕ) (m : Map V) → keys (delete k m) ≡ keep (λ j. not (j == k)) (keys m)
  unfolding delete
  keys-delete k [] = refl
  keys-delete k ((j, v) ∷ m) = ground (arith, keys-delete k m)

  pub keys-modify : (k : ℕ) (f : V → V) (m : Map V) → keys (modify k f m) ≡ keys m
  unfolding modify
  keys-modify k f [] = refl
  keys-modify k f ((j, v) ∷ m) = ground (arith, keys-modify k f m)

  module _ (q : V → Bool) where
    abbrev pub all_values : Map V → Bool
    all_values m = all (λ e. q e.1) m

    pub all_values-insert :
        (k : ℕ) (v : V) (m : Map V)
        → q v ≡ true
        → all_values m ≡ true
        → all_values (insert k v m) ≡ true
    unfolding insert
    all_values-insert k v [] h a = ground arith
    all_values-insert k v ((j, w) ∷ m) h a = ground (arith, all_values-insert k v m h)

    pub all_values-delete :
        (k : ℕ) (m : Map V) → all_values m ≡ true → all_values (delete k m) ≡ true
    unfolding delete
    all_values-delete k [] a = refl
    all_values-delete k ((j, w) ∷ m) a = ground (arith, all_values-delete k m)

    pub all_values-modify :
        (k : ℕ) (f : V → V) (m : Map V)
        → ((v : V) → q v ≡ true → q (f v) ≡ true)
        → all_values m ≡ true
        → all_values (modify k f m) ≡ true
    unfolding modify
    all_values-modify k f [] h a = refl
    all_values-modify k f ((j, w) ∷ m) h a = ground (arith, h w, all_values-modify k f m h)

    pub all_values-get :
        (k : ℕ) (v : V) (m : Map V) → all_values m ≡ true → get k m ≡ some v → q v ≡ true
    unfolding get
    all_values-get k v [] a h = cc
    all_values-get k v ((j, w) ∷ m) a h = ground (arith, all_values-get k v m)
