-- ===== src/Views/Safety.antt =====
-- What `safe` of src/views.rs keeps out of a text.
use raydio.Prelude.{
  ℕ, ◌+◌, ◌≡◌, refl, Bool, true, false, not, ◌&&◌, ◌||◌, [], ◌∷◌, ◌++◌, Text, arith, ltb, leb, ◌==◌,
  if◌then◌else◌, Bool-cases, inl, inr, all, is_whitespace, is_control,
}
use raydio.Views.{
  len_utf16, utf16_count, fitting, ellipsis, truncate, flatten, flatten_from, escape, safe,
  is_markdown,
}

-- No control character, and no white space but the space.
abbrev pub is_printable : ℕ → Bool
is_printable c = not (is_control c) && (not (is_whitespace c) || c == 0x20)

abbrev is_flat : ℕ → Bool
is_flat c = not (is_whitespace c) || c == 0x20

all-append : (f : ℕ → Bool) (s t : Text) → all f s ≡ true → all f t ≡ true → all f (s ++ t) ≡ true
all-append f [] t h k = k
all-append f (c ∷ s) t h k = ground (arith, all-append f s t)

flatten_from-flat :
    (started pending : Bool) (s : Text) → all is_flat (flatten_from started pending s) ≡ true
unfolding flatten_from
flatten_from-flat started pending [] = refl
flatten_from-flat started true (c ∷ s) = elim (Bool-cases (is_whitespace c)) [
  | inl e ↦ ground (arith, flatten_from-flat started started s)
  | inr e ↦ ground (arith, flatten_from-flat true false s)
]
flatten_from-flat started false (c ∷ s) = elim (Bool-cases (is_whitespace c)) [
  | inl e ↦ ground (arith, flatten_from-flat started started s)
  | inr e ↦ ground (arith, flatten_from-flat true false s)
]

if-all :
    (f : ℕ → Bool) (b : Bool) (s t : Text)
    → all f s ≡ true
    → all f t ≡ true
    → all f (if b then s else t) ≡ true
if-all f true s t h k = h
if-all f false s t h k = k

kept : (c : ℕ) → is_flat c ≡ true → all is_printable (if is_control c then [] else c ∷ []) ≡ true
kept c h = elim (Bool-cases (is_control c)) [ inl e ↦ rw e refl | inr e ↦ ground arith ]

separator-printable :
    (all is_printable (b'\\' ∷ []) ≡ true) × (all is_printable (ellipsis ∷ []) ≡ true)
unfolding is_control is_whitespace
separator-printable = (refl, refl)

escape-printable : (s : Text) → all is_flat s ≡ true → all is_printable (escape s) ≡ true
unfolding escape
escape-printable [] h = refl
escape-printable (c ∷ s) h =
    all-append is_printable (if is_markdown c then b'\\' ∷ [] else []) _
      (if-all is_printable (is_markdown c) (b'\\' ∷ []) [] separator-printable.0 refl)
      (all-append is_printable _ (escape s) (kept c (ground arith))
        (escape-printable s (ground arith)))

fitting-all :
    (f : ℕ → Bool) (max count : ℕ) (s : Text) → all f s ≡ true → all f (fitting max count s) ≡ true
unfolding fitting
fitting-all f max count [] h = refl
fitting-all f max count (c ∷ s) h = ground (arith, fitting-all f max (count + len_utf16 c) s)

-- A name that is made safe for a message has no control character and no white space but the
-- space, so it stays on its line.
pub safe-printable : (text : Text) (max : ℕ) → all is_printable (safe text max) ≡ true
unfolding safe truncate flatten
safe-printable text max =
    let escaped : Text = escape (flatten text) in
    let clean : all is_printable escaped ≡ true =
      escape-printable (flatten text) (flatten_from-flat false false text) in
    if-all is_printable (leb (utf16_count escaped) max) escaped _ clean (
      all-append is_printable (fitting max 0 escaped) _
        (fitting-all is_printable max 0 escaped clean)
        (if-all is_printable (ltb 0 max) (ellipsis ∷ []) [] separator-printable.1 refl))
