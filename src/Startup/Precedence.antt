-- ===== src/Startup/Precedence.antt =====
-- Which value of a setting counts (src/main.rs).
use raydio.Prelude.{
  ◌≡◌, refl, sym, ◌∙◌, false, ◌&&◌, Option, none, some, List, [], ◌∷◌, Text, arith, text_eq,
  text_eq_refl, text_eq→≡, if◌then◌else◌, Bool-cases, inl, inr,
}
use raydio.Discord.{get_option, set_option}
use raydio.Startup.{extend}

-- The last value of a key in a list.
unfoldable pub last_value : Text → List (Text × Text) → Option Text
last_value key [] = none
last_value key ((k, v) ∷ rest) = elim (last_value key rest) [
  | none ↦ if text_eq k key then some v else none
  | some w ↦ some w
]

-- Two texts that differ are not both the same third one.
apart : (i k j : Text) → text_eq i k ≡ false → (text_eq i j && text_eq k j) ≡ false
apart i k j e = elim (Bool-cases (text_eq i j)) [
  | inr n ↦ rw n refl
  | inl n ↦ elim (Bool-cases (text_eq k j)) [
    | inr l ↦ ground (arith, n, l)
    | inl l ↦ absurd (cc (text_eq_refl k, e, text_eq→≡ i j n ∙ sym (text_eq→≡ k j l)))
  ]
]

same : (key : Text) (o : Option Text) → (elim o [ none ↦ get_option key [] | some v ↦ some v ]) ≡ o
unfolding get_option
same key none = refl
same key (some v) = refl

get-set_option :
    (k j v : Text) (m : List (Text × Text))
    → get_option j (set_option k v m) ≡ (if text_eq k j then some v else get_option j m)
unfolding get_option set_option
get-set_option k j v [] = refl
get-set_option k j v ((i, w) ∷ m) = elim (Bool-cases (text_eq i k)) [
  | inl e ↦ ground (arith, e, text_eq→≡ i k e, get-set_option k j v m)
  | inr e ↦ ground (arith, e, apart i k j e, get-set_option k j v m)
]

get-extend :
    (j : Text) (values es : List (Text × Text))
    → get_option j (extend values es)
      ≡ (elim (last_value j es) [ none ↦ get_option j values | some v ↦ some v ])
unfolding extend last_value
get-extend j values [] = refl
get-extend j values ((k, v) ∷ es) =
    ground (arith, get-extend j (set_option k v values) es, get-set_option k j v values)

-- For every setting, the last value that the process has counts, and where it has none, the last one
-- of the environment file.
pub get-extend-extend :
    (key : Text) (file process : List (Text × Text))
    → get_option key (extend (extend [] file) process)
      ≡ (elim (last_value key process) [ none ↦ last_value key file | some v ↦ some v ])
get-extend-extend key file process =
    get-extend key (extend [] file) process ∙ filed (last_value key process)
  where
    filed :
        (o : Option Text)
        → (elim o [ none ↦ get_option key (extend [] file) | some v ↦ some v ])
          ≡ (elim o [ none ↦ last_value key file | some v ↦ some v ])
    filed none = get-extend key [] file ∙ same key (last_value key file)
    filed (some v) = refl
