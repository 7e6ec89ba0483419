-- ===== src/Session/Interaction.antt =====
-- `interaction` of src/session.rs: slash commands and buttons.
use raydio.Prelude.{
  ℕ, ◌+◌, Bool, true, false, not, ◌&&◌, ◌||◌, Option, none, some, List, [], Text, codes, text_eq,
  if◌then◌else◌, ◌==◌, is_some, is_none, length, get_elem?, split_on, parse_unsigned, u64_max,
}
use raydio.Prelude.Results.{ok, err}
use raydio.Playback.{LoopMode, Track, mode_eq}
use raydio.Discord.{Request, set_option, updates_message}
use raydio.Session.{Session, Panel, Env, responds, responds_no_model, emit, now}
use raydio.Session.Panels.{
  flush_refresh, remove_panel, refresh, player_view, queue_view, present_player, with_last_view,
}
use raydio.Session.Loading.{report, prepare_play}
use raydio.Session.Control.{control}
use raydio.Session.Control.Actions.{Answer}

abbrev pub part : List Text → ℕ → Text
part parts i = elim (get_elem? parts i) [ none ↦ [] | some t ↦ t ]

-- A button's `custom_id`, split at colons.
unfoldable pub parts_of : Text → List Text
parts_of = split_on b':' []

abbrev pub is_queue_kind : Text → Bool
is_queue_kind kind = text_eq kind (codes "queue")

abbrev pub stale_notice : Bool → Text
stale_notice true = codes "This queue view is no longer active. Run `/queue` again."
stale_notice false = codes "These player controls are no longer active. Run `/nowplaying` again."

module _ {V : Type 0} where
  -- Whether the button sits on the session's panel.
  unfoldable pub is_on_panel : Text → Request → Option (Panel V) → Bool
  is_on_panel token r none = false
  is_on_panel token r (some p) =
      text_eq p.token token
      && (elim r.interaction.message [ none ↦ false | some (channel, id) ↦ id == p.message ])

  -- The test `valid`.
  unfoldable pub is_valid_button : List Text → Request → Session V → Bool
  unfolding is_on_panel
  is_valid_button parts r s =
      let kind = part parts 1 in
      let token = part parts 2 in
      length parts == 4
      && text_eq (part parts 0) (codes "raydio")
      && is_some s.queue.current
      && (if is_queue_kind kind
          then text_eq token s.token
          else text_eq kind (codes "player") && is_on_panel token r s.panel)

  -- The command that a player button stands for.
  unfoldable pub button_request : Text → Request → Session V → Request
  unfolding set_option
  button_request action r s =
      let named = record r {
        name = if text_eq action (codes "pause") && s.paused then codes "resume" else action;
      } in
      if text_eq action (codes "loop")
      then record named {
        options =
            set_option (codes "mode")
              (if mode_eq s.queue.loop_mode LoopMode.off then codes "track" else codes "off")
              r.options;
      }
      else named

module _ {P V : Type 0} (env : Env P V) where
  abbrev pub respond : Request → V → Session V → Session V
  respond r v s = emit (responds r.interaction.id v) s

  unfoldable pub show_queue : ℕ → Request → Session V → Session V
  unfolding queue_view
  show_queue page r s = let (viewed, view) = queue_view env page s in respond r view viewed

  -- A paused panel is checked three times after a control.
  unfoldable pub note_shown : V → Session V → Session V
  note_shown v s =
      let shown = record s { panel = with_last_view (some v) s.panel } in
      if is_none s.panel
      then s
      else if s.paused
      then record shown { panel_checks = 3; panel_check_at = now env s + 500 }
      else record shown { panel_checks = 0 }

  -- The answer to a button on a panel that still has a track.
  unfoldable pub update_panel : Request → Session V → Session V
  unfolding player_view note_shown
  update_panel r s =
      let view = player_view env s in
      let sent = emit (responds_no_model r.interaction.id view) s in
      if is_none r.interaction.message
      then s
      else if env.accepts sent.log
      then note_shown view sent
      else sent

  unfoldable pub answer : Request → Answer → Session V → Session V
  unfolding flush_refresh update_panel remove_panel
  answer r (err e) s = report env r e s
  answer r (ok text) s =
      let flushed = flush_refresh env s in
      if not (updates_message r)
      then respond r (env.text_view text) s
      else if is_some flushed.queue.current
      then update_panel r flushed
      else remove_panel env flushed

  unfoldable pub run_control : (List Track → List Track) → Request → Session V → Session V
  unfolding control answer refresh
  run_control shuffler r s =
      let (controlled, a) = control env shuffler r s in refresh env (answer r a controlled)

  -- The `match` on the name.
  unfoldable pub run_command : (List Track → List Track) → Request → Session V → Session V
  unfolding prepare_play present_player show_queue run_control
  run_command shuffler r s =
      if text_eq r.name (codes "play")
      then prepare_play env r s
      else if text_eq r.name (codes "nowplaying")
      then present_player env r none s
      else if text_eq r.name (codes "queue")
      then show_queue 0 r s
      else if text_eq r.name (codes "help")
          || text_eq r.name (codes "ping")
          || text_eq r.name (codes "diagnostics")
      then respond r (env.info_view r.name s.log) s
      else run_control shuffler r s

  unfoldable pub run_button :
      (List Track → List Track) → List Text → Request → Session V → Session V
  unfolding is_valid_button button_request show_queue run_command
  run_button shuffler parts r s =
      let kind = part parts 1 in
      let action = part parts 3 in
      if not (is_valid_button parts r s)
      then respond r (env.text_view (stale_notice (is_queue_kind kind))) s
      else if is_queue_kind kind
      then show_queue (elim (parse_unsigned u64_max action) [ none ↦ 0 | some n ↦ n ]) r s
      else run_command shuffler (button_request action r s) s

  -- `Shared::loaded`
  abbrev pub loaded : Session V → Bool
  loaded s = elim (env.guild s.log) [ none ↦ false | some g ↦ g.available ]

  unfoldable pub interaction : (List Track → List Track) → Request → Session V → Session V
  unfolding run_button run_command
  interaction shuffler r s =
      if not (loaded s)
      then report env r (codes "Raydio commands are available only in a loaded server.") s
      else elim r.custom_id [
        | none ↦ run_command shuffler r s
        | some id ↦ run_button shuffler (parts_of id) r s
      ]
