-- ===== src/Session/Control/Actions.antt =====
-- What each control does: the `match` of `control` in src/session.rs.
use raydio.Prelude.{
  ℕ, Bool, false, not, Option, none, some, List, [], ◌++◌, Text, codes, text_eq, if◌then◌else◌, leb,
  ◌==◌, is_some, is_none, bool_eq, decimal, parse_unsigned, u16_max,
}
use raydio.Prelude.Results.{Result, ok, err}
use raydio.Playback.{
  LoopMode, Track, PreviousOutcome, remove, move_to, clear, shuffle, previous, jump, skip, stop,
  is_empty,
}
use raydio.Discord.{Request, option, index}
use raydio.Views.{safe, mode_name}
use raydio.Session.{
  Session, Env, pauses, sets_volume, now, update, position, schedule_end, draw_token,
}
use raydio.Session.Play.{start_current, succeeded}
use raydio.Session.Cleanup.{invalidate, cleanup}

abbrev pub transport_error : Text
transport_error = codes "The music service could not apply that control. Try again shortly."

abbrev pub no_session_notice : Text
no_session_notice = codes "There is no active music session."

-- A handler's answer: its text, or an error's.
abbrev pub Answer : Type 0
Answer = Result Text Text

abbrev title_text : Text → Track → Text → Text
title_text before t after = before ++ safe t.title 160 ++ after

module _ {P V : Type 0} (env : Env P V) where
  -- "pause" and "resume"
  unfoldable pub set_paused : Bool → Session V → Session V × Answer
  unfolding position schedule_end
  set_paused paused s =
      let (sent, accepted) = update env (pauses paused) s in
      let changed = record sent {
        position_ms = position env sent;
        position_at = now env sent;
        progress_at = now env sent;
        paused = paused;
      } in
      if is_none s.queue.current
      then (s, ok (codes "Nothing is playing."))
      else if bool_eq paused s.paused
      then (
        s,
        ok (
            if paused
            then codes "Playback is already paused."
            else codes "Playback is already running."),
      )
      else if accepted
      then (
        schedule_end env changed,
        ok (if paused then codes "Playback paused." else codes "Playback resumed."),
      )
      else (sent, err transport_error)

  unfoldable pub set_volume : Request → Session V → Session V × Answer
  set_volume r s = elim (parse_unsigned u16_max (option r (codes "level"))) [
    | none ↦ (s, err (codes "Volume must be an integer between 0 and 100."))
    | some v ↦
        let (sent, accepted) = update env (sets_volume v) s in
        if not (leb v 100)
        then (s, err (codes "Volume must be an integer between 0 and 100."))
        else if v == s.volume
        then (s, ok (codes "Volume is already " ++ decimal v ++ codes "%."))
        else if accepted
        then (record sent { volume = v }, ok (codes "Volume set to " ++ decimal v ++ codes "%."))
        else (sent, err transport_error)
  ]

  abbrev mode_of : Text → Option LoopMode
  mode_of name =
      if text_eq name (codes "off")
      then some LoopMode.off
      else if text_eq name (codes "track")
      then some LoopMode.track
      else if text_eq name (codes "queue")
      then some LoopMode.queue
      else none

  unfoldable pub choose_loop : Option LoopMode → Session V → Session V × Answer
  choose_loop none s = (s, err (codes "Choose off, track, or queue for loop mode."))
  choose_loop (some mode) s = (
    record s { queue = record s.queue { loop_mode = mode } },
    ok (codes "Loop mode set to " ++ mode_name mode ++ codes "."),
  )

  unfoldable pub set_loop : Request → Session V → Session V × Answer
  unfolding choose_loop
  set_loop r s = choose_loop (mode_of (option r (codes "mode"))) s

  unfoldable pub remove_at_position : Request → Session V → Session V × Answer
  remove_at_position r s =
      let (q, removed) = remove s.queue (index r (codes "position")) in
      (
        record s { queue = q },
        ok (elim removed [
          | none ↦ codes "There is no upcoming track at that index."
          | some t ↦ title_text (codes "Removed **") t (codes "**.")
        ]),
      )

  abbrev moved_text : ℕ → ℕ → Track → Text
  moved_text from to t =
      if from == to
      then title_text (codes "**") t
          (codes "** is already at position " ++ decimal from ++ codes ".")
      else title_text (codes "Moved **") t
          (codes "** from " ++ decimal from ++ codes " to " ++ decimal to ++ codes ".")

  unfoldable pub move_track : Request → Session V → Session V × Answer
  move_track r s =
      let from = index r (codes "from") in
      let to = index r (codes "to") in
      let (q, moved) = move_to s.queue from to in
      (
        record s { queue = q },
        ok (elim moved [
          | none ↦ codes "One of those upcoming queue positions does not exist."
          | some t ↦ moved_text from to t
        ]),
      )

  unfoldable pub clear_upcoming : Session V → Session V × Answer
  clear_upcoming s =
      let (q, count) = clear s.queue in
      (
        record s { queue = q },
        ok (
            if count == 0
            then codes "The upcoming queue is already empty."
            else codes "Cleared "
              ++ decimal count
              ++ codes " upcoming track"
              ++ (if count == 1 then [] else codes "s")
              ++ codes "."),
      )

  unfoldable pub shuffle_upcoming : (List Track → List Track) → Session V → Session V × Answer
  shuffle_upcoming shuffler s =
      let (q, shuffled) = shuffle shuffler s.queue in
      (
        record s { queue = q },
        ok (
            if shuffled
            then codes "Shuffled the upcoming queue."
            else codes "At least two upcoming tracks are needed."),
      )

  -- The common end of "previous", "jump" and "skip": the new current track is started.
  unfoldable pub start_moved : Text → Session V → Session V × Answer
  unfolding start_current
  start_moved verb s =
      let (begun, outcome) = start_current env s in
      (
        begun,
        if succeeded outcome
            then ok (elim begun.queue.current [
              | none ↦ codes "Skipped. The queue is now empty."
              | some t ↦ title_text (verb ++ codes " **") t (codes "**.")
            ])
            else err transport_error,
      )

  unfoldable pub go_back : Session V → Session V × Answer
  unfolding start_moved
  go_back s =
      let (q, outcome) = previous s.queue env.config.limits.queue in
      let moved = start_moved (codes "Now playing") (record s { queue = q }) in
      elim outcome [
        | PreviousOutcome.started ↦ moved
        | PreviousOutcome.no_history ↦ (s, ok (codes "There is no previous track in this session."))
        | PreviousOutcome.full ↦
            (s, ok (codes "The queue is full. Remove a queued track before using Previous."))
      ]

  unfoldable pub jump_to_position : Request → Session V → Session V × Answer
  unfolding start_moved
  jump_to_position r s =
      let (q, jumped) = jump s.queue (index r (codes "position")) in
      let moved = start_moved (codes "Jumped to") (record s { queue = q }) in
      if jumped then moved else (s, ok (codes "There is no upcoming song at that position."))

  unfoldable pub skip_current : Session V → Session V × Answer
  unfolding start_moved
  skip_current s =
      let moved = start_moved (codes "Skipped. Now playing") (record s { queue = skip s.queue }) in
      if is_none s.queue.current then (s, ok (codes "Nothing is playing.")) else moved

  -- The answer to "stop".
  abbrev pub stopped_answer : Bool → Answer
  stopped_answer had = ok (
      if had
      then codes "Playback stopped and the upcoming queue was cleared."
      else codes "Playback is already stopped.")

  -- "stop" in a voice channel: the music service is told, if it is ready.
  unfoldable pub stop_player : Bool → Session V → Session V × Answer
  unfolding start_current
  stop_player had s =
      let (halted, outcome) = start_current env s in
      if not (env.ready s.log)
      then (record s { idle_at = some (now env s) }, stopped_answer had)
      else if succeeded outcome
      then (record halted { idle_at = some (now env halted) }, stopped_answer had)
      else (halted, err transport_error)

  unfoldable pub stop_playback : Session V → Session V × Answer
  unfolding invalidate stop_player
  stop_playback s =
      let cancelled = invalidate s in
      let had = not (is_empty cancelled.queue) in
      let stopped = record (draw_token env (record cancelled { queue = stop cancelled.queue })) {
        paused = false;
      } in
      if is_some stopped.channel then stop_player had stopped else (stopped, stopped_answer had)

  unfoldable pub leave_channel : Session V → Session V × Answer
  unfolding cleanup
  leave_channel s = (
    cleanup env none s,
    ok (
        if is_some s.channel
        then codes "Left the voice channel and cleared the session."
        else no_session_notice),
  )
