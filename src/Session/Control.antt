-- ===== src/Session/Control.antt =====
-- The player's controls: `control` of src/session.rs.
pub mod Actions
use raydio.Prelude.{
  ℕ, Bool, true, false, not, ◌&&◌, Option, none, some, List, [], ◌∷◌, ◌++◌, Text, codes, text_eq,
  if◌then◌else◌, leb, ◌==◌, is_some, is_none, bool_eq, decimal, parse_unsigned, u16_max,
  contains_key,
}
use raydio.Prelude.Results.{Result, ok, err, ◌>>=◌, map_err}
use raydio.Playback.{
  LoopMode, Track, PreviousOutcome, remove, move_to, clear, shuffle, previous, jump, skip, stop,
  is_empty,
}
use raydio.Voice.Access.{AccessError, caller_channel, message}
use raydio.Discord.{Request, user, option, index}
use raydio.Views.{safe, mode_name}
use raydio.Session.{
  Session, Env, pauses, sets_volume, now, update, position, schedule_end, draw_token,
}
use raydio.Session.Play.{start_current, succeeded}
use raydio.Session.Cleanup.{invalidate, cleanup}
use raydio.Session.Control.Actions.{
  Answer, no_session_notice, set_paused, set_volume, set_loop, remove_at_position, move_track,
  clear_upcoming, shuffle_upcoming, go_back, jump_to_position, skip_current, stop_playback,
  leave_channel,
}

-- The registered controls.
pub data Control : Type 0 where
  pause resume previous_track skip_track stop_all move jump_to shuffle_all remove_track : Control
  clear_all volume loop leave : Control

-- The names that `control` matches.
unfoldable pub control_of : Text → Option Control
control_of name =
    if text_eq name (codes "pause")
    then some pause
    else if text_eq name (codes "resume")
    then some resume
    else if text_eq name (codes "previous")
    then some previous_track
    else if text_eq name (codes "skip")
    then some skip_track
    else if text_eq name (codes "stop")
    then some stop_all
    else if text_eq name (codes "move")
    then some move
    else if text_eq name (codes "jump")
    then some jump_to
    else if text_eq name (codes "shuffle")
    then some shuffle_all
    else if text_eq name (codes "remove")
    then some remove_track
    else if text_eq name (codes "clear")
    then some clear_all
    else if text_eq name (codes "volume")
    then some volume
    else if text_eq name (codes "loop")
    then some loop
    else if text_eq name (codes "leave")
    then some leave
    else none

-- The controls that need the music service.
abbrev pub needs_service : Control → Bool
needs_service pause = true
needs_service resume = true
needs_service previous_track = true
needs_service skip_track = true
needs_service jump_to = true
needs_service volume = true
needs_service _ = false

abbrev works_without_session : Control → Bool
works_without_session stop_all = true
works_without_session leave = true
works_without_session _ = false

abbrev no_caller : Bool → AccessError → Text
no_caller is_listed e =
    if is_listed then message e else codes "Join the bot's voice channel before using that control."

abbrev other_channel : Option ℕ → ℕ → Bool
other_channel none channel = false
other_channel (some active) channel = not (active == channel)

module _ {P V : Type 0} (env : Env P V) where
  -- The block that checks the caller's voice channel.
  unfoldable pub caller_allowed : Control → ℕ → Session V → Result Text Text
  caller_allowed c caller s = elim (env.guild s.log) [
    | none ↦ err no_session_notice
    | some g ↦ do
      channel ← map_err (no_caller (contains_key caller g.voices)) (caller_channel g caller)
      (if is_none s.channel && not (works_without_session c)
          then err no_session_notice
          else if other_channel s.channel channel
          then err (codes "Join the bot's current voice channel before using that control.")
          else ok [])
  ]

  -- The `match` on the name, once the caller is allowed.
  unfoldable pub apply_control :
      (List Track → List Track) → Control → Request → Session V → Session V × Answer
  unfolding set_paused set_volume set_loop remove_at_position move_track clear_upcoming
      shuffle_upcoming go_back jump_to_position skip_current stop_playback leave_channel
  apply_control shuffler pause r s = set_paused env true s
  apply_control shuffler resume r s = set_paused env false s
  apply_control shuffler volume r s = set_volume env r s
  apply_control shuffler loop r s = set_loop env r s
  apply_control shuffler remove_track r s = remove_at_position env r s
  apply_control shuffler move r s = move_track env r s
  apply_control shuffler clear_all r s = clear_upcoming env s
  apply_control shuffler shuffle_all r s = shuffle_upcoming env shuffler s
  apply_control shuffler previous_track r s = go_back env s
  apply_control shuffler jump_to r s = jump_to_position env r s
  apply_control shuffler skip_track r s = skip_current env s
  apply_control shuffler stop_all r s = stop_playback env s
  apply_control shuffler leave r s = leave_channel env s

  abbrev is_empty_text : Text → Bool
  is_empty_text [] = true
  is_empty_text (c ∷ t) = false

  -- A volume request with no level only reads the volume.
  abbrev pub reads_volume : Request → Bool
  reads_volume r = text_eq r.name (codes "volume") && is_empty_text (option r (codes "level"))

  -- The checks of `control`, in its order, before the control is applied.
  unfoldable pub authorize : Control → ℕ → Session V → Result Text Text
  unfolding caller_allowed
  authorize c caller s =
      if not (env.ready s.log) && needs_service c
      then err (codes "Music service is temporarily unavailable.")
      else caller_allowed c caller s

  unfoldable pub control : (List Track → List Track) → Request → Session V → Session V × Answer
  unfolding authorize apply_control control_of
  control shuffler r s =
      if reads_volume r
      then (
        s,
        ok (
            if is_none s.channel
            then no_session_notice
            else codes "Current volume: " ++ decimal s.volume ++ codes "%."),
      )
      else elim (control_of r.name) [
        | none ↦ (
          s,
          err (codes "That command is no longer registered. Type `/` to see Raydio's commands."),
        )
        | some c ↦ elim (authorize c (user r) s) [
          | err e ↦ (s, err e)
          | ok allowed ↦ apply_control shuffler c r s
        ]
      ]
