-- ===== src/Session/Shown.antt =====
-- A session of src/session.rs that shows the messages of src/views.rs.
use raydio.Prelude.{
  ℕ, ◌≡◌, refl, sym, subst, ap, ◌∙◌, Bool, true, Option, none, some, List, [], ◌∷◌, Text, codes,
  arith, length, ◌==◌, text_eq, text_eq_refl,
}
use raydio.Voice.Bounds.{All}
use raydio.Playback.{Queue, Track}
use raydio.Discord.{Request}
use raydio.Urls.{Urls}
use raydio.Views.Message.{Button, View, text_view}
use raydio.Views.Player.{player, player_embed, player_buttons}
use raydio.Views.Pages
use raydio.Session.{Session, Panel, Env}
use raydio.Session.Panels.{player_view}
use raydio.Session.Interaction.{parts_of, is_valid_button, is_on_panel}
use raydio.Session.Buttons.{is_whole, Understood, player_buttons-Understood}

-- `content.or(view.content)` in `present_player`
unfoldable pub with_content : Option Text → View → View
with_content none view = view
with_content (some text) view = record view { content = some text }

-- The world of a session, with the views of the program.
unfoldable pub with_views : {P : Type 0} → Urls → Env P View → Env P View
unfolding player raydio.Views.Pages.queue text_view with_content
with_views urls env = record env {
  player_view = player urls;
  queue_view = λ q token page paused volume position.
      let view = raydio.Views.Pages.queue q token page paused volume position in
      (view, length view.components == 0);
  text_view = text_view;
  with_content = with_content;
}

-- The parts of a button with the panel's token, pressed on the panel.
parts-valid :
    (s : Session View) (p : Panel View) (r : Request) (action : Text) (channel : ℕ) (t : Track)
    → s.panel ≡ some p
    → s.queue.current ≡ some t
    → r.interaction.message ≡ some (channel, p.message)
    → is_valid_button (codes "raydio" ∷ codes "player" ∷ p.token ∷ action ∷ []) r s ≡ true
unfolding is_valid_button is_on_panel text_eq
parts-valid s p r action channel t e c m = ground (arith, e, c, m, text_eq_refl p.token)

-- The handler takes the button for one of the session's panel.
abbrev pub IsTaken : Session View → Request → Button → Type 0
IsTaken s r b = is_valid_button (parts_of b.custom_id) r s ≡ true

player-components :
    (urls : Urls) (q : Queue) (token : Text) (paused : Bool) (volume position : ℕ) (t : Track)
    → q.current ≡ some t
    → (player urls q token paused volume position).components ≡ player_buttons q token paused
unfolding player
player-components urls q token paused volume position t c =
    ap
      (λ (o : Option Track).
        (elim o as (λ _. View) [
          | none ↦ text_view (codes "Nothing is playing.")
          | some u ↦ record {
            content = none;
            embeds = player_embed urls q u paused volume position ∷ [];
            components = player_buttons q token paused;
          }
        ]).components)
      c

same_components : (note : Option Text) (v : View) → (with_content note v).components ≡ v.components
unfolding with_content
same_components none v = refl
same_components (some text) v = refl

All-map :
    {A : Type 0} {Q R : A → Type 0} → ((a : A) → Q a → R a) → (xs : List A) → All Q xs → All R xs
All-map f [] h = tt
All-map f (x ∷ xs) h = (f x h.0, All-map f xs h.1)

module _ (s : Session View) (p : Panel View) (r : Request) (channel : ℕ) (t : Track) where
  Understood-IsTaken :
      (b : Button)
      → s.panel ≡ some p
      → s.queue.current ≡ some t
      → r.interaction.message ≡ some (channel, p.message)
      → Understood p.token b
      → IsTaken s r b
  Understood-IsTaken b e c m u =
      ap (λ parts. is_valid_button parts r s) u.parts ∙ parts-valid s p r u.action channel t e c m

  -- While a track is current, the player message that a session shows has buttons that the handler
  -- takes, all of them, when they are pressed on the session's panel, whose token has no colon,
  -- with or without a note above the message.
  pub player_view-IsTaken :
      {P : Type 0} (urls : Urls) (env : Env P View) (note : Option Text)
      → s.panel ≡ some p
      → s.queue.current ≡ some t
      → r.interaction.message ≡ some (channel, p.message)
      → is_whole p.token ≡ true
      → All
          (All (IsTaken s r))
          ((with_views urls env).with_content note (player_view (with_views urls env) s)).components
  unfolding player_view with_views player with_content
  player_view-IsTaken urls env note e c m h =
      let token : (elim s.panel [ none ↦ s.token | some q ↦ q.token ]) ≡ p.token =
        ap (λ o. elim o [ none ↦ s.token | some q ↦ q.token ]) e in
      subst (All (All (IsTaken s r)))
        (sym (
          same_components note _
          ∙ player-components urls s.queue _ s.paused s.volume _ t c
          ∙ ap (λ k. player_buttons s.queue k s.paused) token))
        (All-map (All-map (λ b u. Understood-IsTaken b e c m u))
          (player_buttons s.queue p.token s.paused)
          (player_buttons-Understood s.queue p.token s.paused h))
