-- ===== src/Prelude/Lists.antt =====
-- Lists measured and indexed by native numbers, under the library's names, and the operations of
-- Rust's `Vec` that the program uses.
use Prim.Native.Nat.{ℕ, zero, suc, ◌+◌, ◌-◌, ◌≤◌, ◌<◌, min}
use mathlib.Core.Path.{◌≡◌, refl, ap}
use mathlib.Core.Bool.{Bool, true, false, ◌&&◌, ◌||◌}
use mathlib.Core.List.{List, [], ◌∷◌, ◌++◌, Perm}
use mathlib.Core.List.Perm
use mathlib.Core.Option.{Option, none, some}
use native.Mathlib.Omega.{arith}
use raydio.Prelude.Tests.{if◌then◌else◌}

module _ {ℓ} {A : Type ℓ} where
  abbrev pub length : List A → ℕ
  length [] = 0
  length (x ∷ xs) = suc (length xs)

  abbrev pub get_elem? : List A → ℕ → Option A
  get_elem? [] i = none
  get_elem? (x ∷ xs) zero = some x
  get_elem? (x ∷ xs) (suc i) = get_elem? xs i

  abbrev pub take : ℕ → List A → List A
  take zero xs = []
  take (suc n) [] = []
  take (suc n) (x ∷ xs) = x ∷ take n xs

  abbrev pub drop : ℕ → List A → List A
  drop zero xs = xs
  drop (suc n) [] = []
  drop (suc n) (x ∷ xs) = drop n xs

  -- `Vec::first`
  abbrev pub first : List A → Option A
  first [] = none
  first (x ∷ xs) = some x

  -- `Vec::last`
  abbrev pub last : List A → Option A
  last [] = none
  last (x ∷ []) = some x
  last (x ∷ y ∷ ys) = last (y ∷ ys)

  -- What `Vec::pop` leaves.
  abbrev pub but_last : List A → List A
  but_last [] = []
  but_last (x ∷ []) = []
  but_last (x ∷ y ∷ ys) = x ∷ but_last (y ∷ ys)

  -- What `Vec::remove(i)` leaves; it panics out of range, which no caller reaches.
  abbrev pub remove_at : ℕ → List A → List A
  remove_at i [] = []
  remove_at zero (x ∷ xs) = xs
  remove_at (suc i) (x ∷ xs) = x ∷ remove_at i xs

  -- `Vec::insert(i, v)`; it panics past the end, which no caller reaches.
  abbrev pub insert_at : ℕ → A → List A → List A
  insert_at zero v xs = v ∷ xs
  insert_at (suc i) v [] = v ∷ []
  insert_at (suc i) v (x ∷ xs) = x ∷ insert_at i v xs

  -- `Iterator::rposition`
  abbrev pub rposition : (A → Bool) → List A → Option ℕ
  rposition p [] = none
  rposition p (x ∷ xs) = elim (rposition p xs) [
    | some i ↦ some (suc i)
    | none ↦ if p x then some 0 else none
  ]

  -- `Iterator::any`
  abbrev pub any : (A → Bool) → List A → Bool
  any p [] = false
  any p (x ∷ xs) = p x || any p xs

  -- `Iterator::all`
  abbrev pub all : (A → Bool) → List A → Bool
  all p [] = true
  all p (x ∷ xs) = p x && all p xs

  -- `Iterator::filter`
  abbrev pub keep : (A → Bool) → List A → List A
  keep p [] = []
  keep p (x ∷ xs) = let rest = keep p xs in if p x then x ∷ rest else rest

  -- `Iterator::find`
  abbrev pub find : (A → Bool) → List A → Option A
  find p [] = none
  find p (x ∷ xs) = if p x then some x else find p xs

  pub length-append : (xs ys : List A) → length (xs ++ ys) ≡ length xs + length ys
  length-append [] ys = omega arith
  length-append (x ∷ xs) ys = omega (arith, length-append xs ys)

  pub length-take : (n : ℕ) (xs : List A) → length (take n xs) ≡ min n (length xs)
  length-take zero xs = omega arith
  length-take (suc n) [] = omega arith
  length-take (suc n) (x ∷ xs) = omega (arith, length-take n xs)

  pub length-drop : (n : ℕ) (xs : List A) → length (drop n xs) ≡ length xs - n
  length-drop zero xs = omega arith
  length-drop (suc n) [] = omega arith
  length-drop (suc n) (x ∷ xs) = omega (arith, length-drop n xs)

  pub length-but_last : (xs : List A) → length (but_last xs) ≡ length xs - 1
  length-but_last [] = omega arith
  length-but_last (x ∷ []) = omega arith
  length-but_last (x ∷ y ∷ ys) = omega (arith, length-but_last (y ∷ ys))

  pub length-keep : (p : A → Bool) (xs : List A) → length (keep p xs) ≤ length xs
  length-keep p [] = omega arith
  length-keep p (x ∷ xs) = ground (arith, length-keep p xs)

  pub length-remove_at :
      (i : ℕ) (xs : List A) → i < length xs → length (remove_at i xs) + 1 ≡ length xs
  length-remove_at i [] h = absurd (omega arith)
  length-remove_at zero (x ∷ xs) h = omega arith
  length-remove_at (suc i) (x ∷ xs) h = omega (arith, length-remove_at i xs)

  pub length-remove_at_le : (i : ℕ) (xs : List A) → length (remove_at i xs) ≤ length xs
  length-remove_at_le i [] = omega arith
  length-remove_at_le zero (x ∷ xs) = omega arith
  length-remove_at_le (suc i) (x ∷ xs) = omega (arith, length-remove_at_le i xs)

  pub length-insert_at : (i : ℕ) (v : A) (xs : List A) → length (insert_at i v xs) ≡ length xs + 1
  length-insert_at zero v xs = omega arith
  length-insert_at (suc i) v [] = omega arith
  length-insert_at (suc i) v (x ∷ xs) = omega (arith, length-insert_at i v xs)

  pub last-snoc : (xs : List A) (x : A) → last (xs ++ x ∷ []) ≡ some x
  last-snoc [] x = refl
  last-snoc (y ∷ []) x = refl
  last-snoc (y ∷ z ∷ zs) x = last-snoc (z ∷ zs) x

  pub but_last-snoc : (xs : List A) (x : A) → but_last (xs ++ x ∷ []) ≡ xs
  but_last-snoc [] x = refl
  but_last-snoc (y ∷ []) x = refl
  but_last-snoc (y ∷ z ∷ zs) x = ap (◌∷◌ y) (but_last-snoc (z ∷ zs) x)

  pub rposition-lt : (p : A → Bool) (xs : List A) (i : ℕ) → rposition p xs ≡ some i → i < length xs
  rposition-lt p [] i h = cc
  rposition-lt p (x ∷ xs) zero h = omega arith
  rposition-lt p (x ∷ xs) (suc i) h = ground (arith, rposition-lt p xs i)

  pub remove_at-perm :
      (i : ℕ) (v : A) (xs : List A) → get_elem? xs i ≡ some v → Perm xs (v ∷ remove_at i xs)
  remove_at-perm i v [] h = cc
  remove_at-perm zero v (x ∷ xs) h = Perm.cons' (ground arith) Perm.rfl
  remove_at-perm (suc i) v (x ∷ xs) h =
      Perm.trans (Perm.cons x (remove_at-perm i v xs h)) (Perm.swap v x _)

  pub insert_at-perm : (i : ℕ) (v : A) (xs : List A) → Perm (insert_at i v xs) (v ∷ xs)
  insert_at-perm zero v xs = Perm.rfl
  insert_at-perm (suc i) v [] = Perm.rfl
  insert_at-perm (suc i) v (x ∷ xs) =
      Perm.trans (Perm.cons x (insert_at-perm i v xs)) (Perm.swap v x _)

  pub get_elem?-none : (xs : List A) (i : ℕ) → get_elem? xs i ≡ none → length xs ≤ i
  get_elem?-none [] i h = omega arith
  get_elem?-none (x ∷ xs) zero h = cc
  get_elem?-none (x ∷ xs) (suc i) h = omega (arith, get_elem?-none xs i h)

  pub remove_at-insert_at :
      (i : ℕ) (v : A) (xs : List A) → i ≤ length xs → remove_at i (insert_at i v xs) ≡ xs
  remove_at-insert_at zero v xs h = refl
  remove_at-insert_at (suc i) v [] h = absurd (omega arith)
  remove_at-insert_at (suc i) v (x ∷ xs) h = ap (◌∷◌ x) (remove_at-insert_at i v xs (omega arith))

  pub get_elem?-insert_at :
      (i : ℕ) (v : A) (xs : List A) → i ≤ length xs → get_elem? (insert_at i v xs) i ≡ some v
  get_elem?-insert_at zero v xs h = refl
  get_elem?-insert_at (suc i) v [] h = absurd (omega arith)
  get_elem?-insert_at (suc i) v (x ∷ xs) h = get_elem?-insert_at i v xs (omega arith)

  pub insert_at-remove_at :
      (i : ℕ) (v : A) (xs : List A) → get_elem? xs i ≡ some v → insert_at i v (remove_at i xs) ≡ xs
  insert_at-remove_at i v [] h = cc
  insert_at-remove_at zero v (x ∷ xs) h = ground arith
  insert_at-remove_at (suc i) v (x ∷ xs) h = ap (◌∷◌ x) (insert_at-remove_at i v xs h)

  pub rposition-snoc :
      (p : A → Bool) (xs : List A) (x : A)
      → p x ≡ true
      → rposition p (xs ++ x ∷ []) ≡ some (length xs)
  rposition-snoc p [] x h = ground arith
  rposition-snoc p (y ∷ ys) x h = ground (arith, rposition-snoc p ys x h)

  pub remove_at-snoc : (xs : List A) (x : A) → remove_at (length xs) (xs ++ x ∷ []) ≡ xs
  remove_at-snoc [] x = refl
  remove_at-snoc (y ∷ ys) x = ap (◌∷◌ y) (remove_at-snoc ys x)
