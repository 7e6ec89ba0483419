-- ===== src/Views/Suggestions.antt =====
-- What the choices of an autocompletion have (src/views.rs).
use raydio.Prelude.{
  ℕ, zero, suc, ◌≤◌, ◌≡◌, refl, ap, Bool, true, false, not, ◌||◌, ◌&&◌, List, [], ◌∷◌, ◌++◌, Text,
  arith, length, any, all, take, text_eq, text_eq_refl, text_eq→≡, length-take, leb, ltb,
  Bool-cases, inl, inr, codes,
}
use raydio.Playback.{Track}
use raydio.Urls.{valid_identifier}
use raydio.Views.{utf16_count}
use raydio.Views.Limits.{truncate-bound}
use raydio.Views.Choices.{
  Choice, watch_url, choice_label, choice_name, choices_from, search_choices,
}

-- Discord's bounds on a choice, in UTF-16 units.
unfoldable pub is_short : Choice → Bool
is_short c = leb (utf16_count c.name) 100 && leb (utf16_count c.value) 100

-- No two choices have the same value.
abbrev pub AreDistinct : List Choice → Type 0
AreDistinct [] = Unit {0}
AreDistinct (c ∷ cs) = (any (λ d. text_eq c.value d.value) cs ≡ false) × AreDistinct cs

text_eq-append : (p s t : Text) → text_eq (p ++ s) (p ++ t) ≡ text_eq s t
unfolding text_eq
text_eq-append [] s t = refl
text_eq-append (c ∷ p) s t = ground (arith, text_eq-append p s t)

text_eq-watch_url : (s t : Text) → text_eq (watch_url s) (watch_url t) ≡ text_eq s t
unfolding watch_url
text_eq-watch_url s t = text_eq-append (codes "https://www.youtube.com/watch?v=") s t

choice_name-short : (t : Track) → utf16_count (choice_name t) ≤ 100
unfolding choice_name
choice_name-short t = (truncate-bound (choice_label t) 100).0

clash :
    (seen : List Text) {i j : Text}
    → i ≡ j
    → any (text_eq i) seen ≡ true
    → any (text_eq j) seen ≡ false
    → ⊥
clash seen e a b = ground (arith, ap (λ k. any (text_eq k) seen) e, a, b)

-- An identifier that was seen names no later choice.
unseen :
    (id : Text) (seen : List Text) (ts : List Track)
    → any (text_eq id) seen ≡ true
    → any (λ d. text_eq (watch_url id) d.value) (choices_from seen ts) ≡ false
unfolding choices_from
unseen id seen [] h = refl
unseen id seen (t ∷ ts) h = elim (Bool-cases (any (text_eq t.identifier) seen)) [
  | inl e ↦ ground (arith, e, unseen id seen ts h)
  | inr e ↦ elim (Bool-cases (text_eq id t.identifier)) [
    | inl k ↦ absurd (clash seen (text_eq→≡ id t.identifier k) h e)
    | inr k ↦ ground (
      arith,
      e,
      k,
      text_eq-watch_url id t.identifier,
      unseen id seen ts h,
      unseen id (t.identifier ∷ seen) ts (ground (arith, h)),
    )
  ]
]

choices_from-AreDistinct : (seen : List Text) (ts : List Track) → AreDistinct (choices_from seen ts)
unfolding choices_from
choices_from-AreDistinct seen [] = tt
choices_from-AreDistinct seen (t ∷ ts) = ground (
  arith,
  choices_from-AreDistinct seen ts,
  choices_from-AreDistinct (t.identifier ∷ seen) ts,
  unseen t.identifier (t.identifier ∷ seen) ts,
  text_eq_refl t.identifier,
)

choice-short :
    (t : Track)
    → ltb 100 (utf16_count (watch_url t.identifier)) ≡ false
    → is_short (record { name = choice_name t; value = watch_url t.identifier }) ≡ true
unfolding is_short
choice-short t h = ground (arith, choice_name-short t, h)

-- One track, with the choices of the tracks after it.
step-short :
    (seen : List Text) (t : Track) (ts : List Track)
    → all is_short (choices_from seen ts) ≡ true
    → all is_short (choices_from (t.identifier ∷ seen) ts) ≡ true
    → all is_short (choices_from seen (t ∷ ts)) ≡ true
unfolding choices_from
step-short seen t ts h k =
    elim (Bool-cases (not (valid_identifier t.identifier) || any (text_eq t.identifier) seen)) [
      | inl e ↦ rw e h
      | inr e ↦ elim (Bool-cases (ltb 100 (utf16_count (watch_url t.identifier)))) [
        | inl l ↦ rw (e, l) k
        | inr l ↦ rw (e, l) (rw (choice-short t l) k)
      ]
    ]

choices_from-short :
    (seen : List Text) (ts : List Track) → all is_short (choices_from seen ts) ≡ true
unfolding choices_from
choices_from-short seen [] = refl
choices_from-short seen (t ∷ ts) =
    step-short seen t ts (choices_from-short seen ts) (choices_from-short (t.identifier ∷ seen) ts)

all-take :
    {A : Type 0} (p : A → Bool) (n : ℕ) (xs : List A) → all p xs ≡ true → all p (take n xs) ≡ true
all-take p zero xs h = refl
all-take p (suc n) [] h = refl
all-take p (suc n) (x ∷ xs) h = ground (arith, all-take p n xs)

any-take :
    {A : Type 0} (p : A → Bool) (n : ℕ) (xs : List A) → any p xs ≡ false → any p (take n xs) ≡ false
any-take p zero xs h = refl
any-take p (suc n) [] h = refl
any-take p (suc n) (x ∷ xs) h = ground (arith, any-take p n xs)

take-AreDistinct : (n : ℕ) (cs : List Choice) → AreDistinct cs → AreDistinct (take n cs)
take-AreDistinct zero cs d = tt
take-AreDistinct (suc n) [] d = tt
take-AreDistinct (suc n) (c ∷ cs) d =
    (any-take (λ e. text_eq c.value e.value) n cs d.0, take-AreDistinct n cs d.1)

-- For any tracks there are at most ten choices, no two of them with the same value, and each name
-- and value has at most 100 UTF-16 units.
pub search_choices-fit :
    (ts : List Track)
    → (length (search_choices ts) ≤ 10)
      × AreDistinct (search_choices ts)
      × (all is_short (search_choices ts) ≡ true)
unfolding search_choices
search_choices-fit ts = (
  omega (arith, length-take 10 (choices_from [] ts)),
  take-AreDistinct 10 (choices_from [] ts) (choices_from-AreDistinct [] ts),
  all-take is_short 10 (choices_from [] ts) (choices_from-short [] ts),
)
