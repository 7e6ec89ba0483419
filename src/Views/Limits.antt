-- ===== src/Views/Limits.antt =====
-- The lengths of texts that are shown (src/views.rs).

use raydio.Prelude.{
  ℕ, ◌+◌, ◌≤◌, ◌<◌, ◌≡◌, [], ◌∷◌, ◌++◌, Text, arith, ltb, leb, Bool-cases, inl, inr,
}
use raydio.Views.{len_utf16, utf16_count, fitting, ellipsis, truncate}

utf16_count-append : (s t : Text) → utf16_count (s ++ t) ≡ utf16_count s + utf16_count t
unfolding utf16_count
utf16_count-append [] t = omega arith
utf16_count-append (c ∷ s) t = omega (arith, utf16_count-append s t)

fitting-bound :
    (max count : ℕ) (s : Text) → count < max → count + utf16_count (fitting max count s) < max
unfolding utf16_count fitting
fitting-bound max count [] h = omega arith
fitting-bound max count (c ∷ s) h = elim (Bool-cases (leb max (count + len_utf16 c))) [
  | inl e ↦ rw (e, utf16_count, fitting) (omega arith)
  | inr e ↦
      let low : count + len_utf16 c < max = ground arith in
      let rest = fitting-bound max (count + len_utf16 c) s low in
      rw (e, utf16_count, fitting) (omega (arith, rest))
]

truncate_kept : (text : Text) (max : ℕ) → utf16_count text ≤ max → truncate text max ≡ text
unfolding truncate
truncate_kept text max h = ground arith

fitting_none : (s : Text) → utf16_count (fitting 0 0 s ++ []) ≤ 0
unfolding fitting utf16_count
fitting_none [] = omega arith
fitting_none (c ∷ s) = grind arith

truncate-le : (text : Text) (max : ℕ) → utf16_count (truncate text max) ≤ max
unfolding truncate utf16_count
truncate-le text max = elim (Bool-cases (leb (utf16_count text) max)) [
  | inl e ↦ rw e (ground arith)
  | inr e ↦ elim (Bool-cases (ltb 0 max)) [
    | inl p ↦
        let low : 0 < max = ground arith in
        rw (e, p)
          (omega (
            arith,
            utf16_count-append (fitting max 0 text) (ellipsis ∷ []),
            fitting-bound max 0 text low,
          ))
    | inr p ↦ let zero_max : max ≡ 0 = ground arith in rw (e, p) (rw zero_max (fitting_none text))
  ]
]

-- A truncated text has at most the wanted number of UTF-16 units, and truncating it again keeps it.
pub truncate-bound :
    (text : Text) (max : ℕ)
    → (utf16_count (truncate text max) ≤ max)
      × (truncate (truncate text max) max ≡ truncate text max)
truncate-bound text max =
    (truncate-le text max, truncate_kept (truncate text max) max (truncate-le text max))
