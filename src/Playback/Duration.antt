-- ===== src/Playback/Duration.antt =====
-- What `format_duration` prints, read back (src/playback.rs).
use mathlib.Core.List.{append-nil}
use raydio.Prelude.{
  ℕ, ◌+◌, ◌-◌, ◌*◌, ◌/◌, ◌%◌, ◌≡◌, refl, sym, ap, ◌∙◌, true, false, [], ◌∷◌, ◌++◌, arith, Text,
  ◌==◌, decimal, padded, value, IsDigits, decimal-IsDigits, padded-IsDigits, value-decimal,
  value-padded, Bool-cases, inl, inr, ltb,
}
use raydio.Playback.{format_duration}

-- A clock display as a number of seconds: fields in base 60, split at colons.
pub clock : ℕ → ℕ → Text → ℕ
clock hi lo [] = hi * 60 + lo
clock hi lo (c ∷ s) = elim (c == 58) [
  | true ↦ clock (hi * 60 + lo) 0 s
  | false ↦ clock hi (lo * 10 + (c - 48)) s
]

clock-digits :
    (hi lo : ℕ) (s t : Text) → IsDigits s → clock hi lo (s ++ t) ≡ clock hi (value lo s) t
unfolding clock value
clock-digits hi lo [] t d = refl
clock-digits hi lo (c ∷ s) t d = ground (arith, clock-digits hi (lo * 10 + (c - 48)) s t d.2)

clock-decimal : (hi n : ℕ) (t : Text) → clock hi 0 (decimal n ++ t) ≡ clock hi n t
clock-decimal hi n t =
    clock-digits hi 0 (decimal n) t (decimal-IsDigits n) ∙ ap (λ m. clock hi m t) (value-decimal n)

clock-padded : (hi n : ℕ) (t : Text) → clock hi 0 (padded n ++ t) ≡ clock hi n t
clock-padded hi n t =
    clock-digits hi 0 (padded n) t (padded-IsDigits n) ∙ ap (λ m. clock hi m t) (value-padded n)

clock-last : (hi n : ℕ) → clock hi 0 (padded n) ≡ hi * 60 + n
unfolding clock
clock-last hi n = ap (clock hi 0) (sym (append-nil (padded n))) ∙ clock-padded hi n []

-- The display of a track that is no stream, read as a clock, is its whole number of seconds.
pub clock-format_duration : (ms : ℕ) → clock 0 0 (format_duration ms false) ≡ ms / 1000
unfolding format_duration clock
clock-format_duration ms = elim (Bool-cases (ltb 0 (ms / 1000 / 3600))) [
  | inl long ↦ rw long (
      clock-decimal 0 (ms / 1000 / 3600) _
      ∙ clock-padded (0 * 60 + ms / 1000 / 3600) (ms / 1000 % 3600 / 60) _
      ∙ clock-last ((0 * 60 + ms / 1000 / 3600) * 60 + ms / 1000 % 3600 / 60) (ms / 1000 % 60)
      ∙ omega arith)
  | inr short ↦ rw short (
      clock-decimal 0 (ms / 1000 % 3600 / 60) _
      ∙ clock-last (0 * 60 + ms / 1000 % 3600 / 60) (ms / 1000 % 60)
      ∙ ground arith)
]
