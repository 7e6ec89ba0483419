-- ===== src/Session/Buttons.antt =====
-- The buttons of the messages in src/views.rs, as the handler in src/session.rs reads them.
use mathlib.Core.List.{reverse_aux}
use raydio.Prelude.{
  ℕ, ◌+◌, ◌-◌, ◌≤◌, ◌<◌, ◌≡◌, ◌⊎◌, inl, inr, refl, ap, ◌∙◌, Bool, true, not, some, [], ◌∷◌, ◌++◌,
  Text, codes, arith, ◌==◌, any, split_on, decimal, decimal-IsDigits, IsDigits, parse-decimal, ltb,
  text_eq, min, parse_unsigned, u64_max, Bool-cases, is_some,
}
use raydio.Voice.Bounds.{All}
use raydio.Playback.{Queue}
use raydio.Views.Message.{Button, button}
use raydio.Views.Player.{player_buttons}
use raydio.Views.Pages.{page_button, page_buttons}
use raydio.Session.Interaction.{parts_of}
use raydio.Session.Control.{control_of}

-- The text has no colon.
abbrev pub is_whole : Text → Bool
is_whole s = not (any (λ c. c == b':') s)

digits-whole : (s : Text) → IsDigits s → is_whole s ≡ true
digits-whole [] d = refl
digits-whole (c ∷ s) d = ground (arith, d, digits-whole s d.2)

split-whole : (word s : Text) → is_whole s ≡ true → split_on b':' word s ≡ reverse_aux word s ∷ []
unfolding split_on
split-whole word [] h = refl
split-whole word (c ∷ s) h = ground (arith, h, split-whole (c ∷ word) s)

split-colon :
    (word s t : Text)
    → is_whole s ≡ true
    → split_on b':' word (s ++ b':' ∷ t) ≡ reverse_aux word s ∷ split_on b':' [] t
unfolding split_on
split-colon word [] t h = refl
split-colon word (c ∷ s) t h = ground (arith, h, split-colon (c ∷ word) s t)

-- The parts of a button of the player message.
player-parts :
    (session action label emoji : Text) (style : ℕ) (disabled : Bool)
    → is_whole session ≡ true
    → is_whole action ≡ true
    → parts_of (button session action label emoji style disabled).custom_id
      ≡ codes "raydio" ∷ codes "player" ∷ session ∷ action ∷ []
unfolding parts_of button
player-parts session action label emoji style disabled h k =
    split-colon [] (codes "raydio") _ refl
    ∙ ap (◌∷◌ (codes "raydio")) (
        split-colon [] (codes "player") _ refl
        ∙ ap (◌∷◌ (codes "player"))
            (split-colon [] session action h ∙ ap (◌∷◌ session) (split-whole [] action k)))

page-parts :
    (session label : Text) (page : ℕ) (disabled : Bool)
    → is_whole session ≡ true
    → parts_of (page_button session label page disabled).custom_id
      ≡ codes "raydio" ∷ codes "queue" ∷ session ∷ decimal page ∷ []
unfolding parts_of
page-parts session label page disabled h =
    split-colon [] (codes "raydio") _ refl
    ∙ ap (◌∷◌ (codes "raydio")) (
        split-colon [] (codes "queue") _ refl
        ∙ ap (◌∷◌ (codes "queue")) (
            split-colon [] session (decimal page) h
            ∙ ap (◌∷◌ session) (
                split-whole [] (decimal page)
                  (digits-whole (decimal page) (decimal-IsDigits page)))))

-- A button of the player message: it names the session, and an action that the session knows.
pub record Understood (session : Text) (b : Button) : Type 0 where
  pub action : Text
  pub parts : parts_of b.custom_id ≡ codes "raydio" ∷ codes "player" ∷ session ∷ action ∷ []
  pub known : (is_some (control_of action) ≡ true) ⊎ (action ≡ codes "queue")

-- A button of the queue message: it names the session, and a page that there is.
pub record ReadBack (session : Text) (pages : ℕ) (b : Button) : Type 0 where
  pub page : ℕ
  pub action : Text
  pub parts : parts_of b.custom_id ≡ codes "raydio" ∷ codes "queue" ∷ session ∷ action ∷ []
  pub parsed : parse_unsigned u64_max action ≡ some page
  pub in_range : page < pages

button-Understood :
    (session action label emoji : Text) (style : ℕ) (disabled : Bool)
    → is_whole session ≡ true
    → is_whole action ≡ true
    → (is_some (control_of action) ≡ true) ⊎ (action ≡ codes "queue")
    → Understood session (button session action label emoji style disabled)
button-Understood session action label emoji style disabled h k known = record {
  action = action;
  parts = player-parts session action label emoji style disabled h k;
  known = known;
}

page_button-ReadBack :
    (session label : Text) (pages page : ℕ) (disabled : Bool)
    → is_whole session ≡ true
    → page < pages
    → pages ≤ u64_max
    → ReadBack session pages (page_button session label page disabled)
page_button-ReadBack session label pages page disabled h l m = record {
  page = page;
  action = decimal page;
  parts = page-parts session label page disabled h;
  parsed = parse-decimal u64_max page (omega (arith, l, m));
  in_range = l;
}

pub player_buttons-Understood :
    (q : Queue) (session : Text) (paused : Bool)
    → is_whole session ≡ true
    → All (All (Understood session)) (player_buttons q session paused)
unfolding player_buttons control_of text_eq
player_buttons-Understood q session paused h =
    let of : (action label emoji : Text) (style : ℕ) (disabled : Bool)
        → is_whole action ≡ true
        → (is_some (control_of action) ≡ true) ⊎ (action ≡ codes "queue")
        → Understood session (button session action label emoji style disabled) =
      λ action label emoji style disabled k known.
        button-Understood session action label emoji style disabled h k known in
    (
      (
        of (codes "previous") _ _ _ _ refl (inl refl),
        (
          of (codes "pause") _ _ _ _ refl (inl refl),
          (
            of (codes "skip") _ _ _ _ refl (inl refl),
            (of (codes "stop") _ _ _ _ refl (inl refl), tt),
          ),
        ),
      ),
      (
        (
          of (codes "queue") _ _ _ _ refl (inr refl),
          (
            of (codes "loop") _ _ _ _ refl (inl refl),
            (of (codes "leave") _ _ _ _ refl (inl refl), tt),
          ),
        ),
        tt,
      ),
    )

page_buttons-ReadBack :
    (session : Text) (pages page : ℕ)
    → is_whole session ≡ true
    → page < pages
    → pages ≤ u64_max
    → All (All (ReadBack session pages)) (page_buttons session pages page)
unfolding page_buttons
page_buttons-ReadBack session pages page h l m = elim (Bool-cases (ltb 1 pages)) [
  | inl e ↦ rw e (
    (
      page_button-ReadBack session (codes "Previous") pages (page - 1) (page == 0) h
          (omega (arith, l)) m,
      (
        page_button-ReadBack session (codes "Next") pages (min (page + 1) (pages - 1))
            (page + 1 == pages) h (omega (arith, l)) m,
        tt,
      ),
    ),
    tt,
  )
  | inr e ↦ rw e tt
]

-- For a session's token with no colon, the handler reads every button of the messages back: each one
-- of the player message as an action that it knows, with the token; and each one of the queue message,
-- while it shows an existing page, as an existing page, with the token.
pub buttons-ReadBack :
    (q : Queue) (session : Text) (paused : Bool) (pages page : ℕ)
    → is_whole session ≡ true
    → page < pages
    → pages ≤ u64_max
    → All (All (Understood session)) (player_buttons q session paused)
      × All (All (ReadBack session pages)) (page_buttons session pages page)
buttons-ReadBack q session paused pages page h l m =
    (player_buttons-Understood q session paused h, page_buttons-ReadBack session pages page h l m)
