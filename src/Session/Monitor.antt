-- ===== src/Session/Monitor.antt =====
-- What the music service reports: `backend`, `observe_progress` and the watchdog of src/session.rs.
use raydio.Prelude.{
  ℕ, ◌+◌, Bool, true, false, not, ◌&&◌, ◌||◌, Option, none, some, List, Text, codes, if◌then◌else◌,
  ltb, leb, ◌==◌, is_none,
}
use raydio.Playback.{finish}
use raydio.Session.{
  Session, Env, Effect, reads_player, emit, bump, now, elapsed, schedule_end, seconds,
}
use raydio.Session.Play.{start_current, track_failure}
use raydio.Session.Panels.{refresh}
use raydio.Session.Cleanup.{cleanup}

pub data EventKind : Type 0 where
  track_start track_end track_exception track_stuck socket_closed other_event : EventKind

pub data Reason : Type 0 where
  finished load_failed other_reason : Reason

-- The fields of a JSON payload that the code reads; a generation that is missing or is no `u64` is
-- `none`.
pub record Payload : Type 0 where
  pub is_player_update : Bool
  pub kind : EventKind
  pub reason : Reason
  pub track_generation : Option ℕ  -- track.userData.raydioGeneration
  pub crust_generation : Option ℕ  -- crust.userData.raydioGeneration
  pub terminal_generation : Option ℕ  -- crust.terminal.userData.raydioGeneration
  pub terminal_reason : Reason
  pub track_is_null : Bool
  pub paused : Bool
  pub position : Option ℕ
  pub connected : Bool

abbrev pub is_generation : Option ℕ → ℕ → Bool
is_generation none n = false
is_generation (some m) n = m == n

abbrev pub is_finished : Reason → Bool
is_finished finished = true
is_finished _ = false

abbrev pub closed_notice : Text
closed_notice = codes "The voice connection closed. Use `/play` to reconnect."

module _ {P V : Type 0} (env : Env P V) where
  -- A position that moves forward counts as progress.
  abbrev advance : ℕ → Session V → Session V
  advance at s =
      if ltb s.position_ms at
      then schedule_end env (record s { progress_at = now env s; position_ms = at })
      else s

  unfoldable pub observe_progress : Payload → Session V → Session V
  unfolding schedule_end
  observe_progress p s =
      if not (is_generation p.crust_generation s.generation) then s else elim p.position [
        | none ↦ s
        | some at ↦
            let moved = advance at (record s { connected = p.connected }) in
            record moved { position_at = now env s }
      ]

  abbrev pub count_finished : Session V → Session V
  count_finished s = record s {
    queue = finish s.queue;
    events = record s.events { finished = bump s.events.finished };
  }

  -- The natural end of the current track.
  unfoldable pub finish_track : Session V → Session V
  unfolding start_current
  finish_track s = (start_current env (count_finished s)).0

  unfoldable pub begin_track : Session V → Session V
  unfolding schedule_end
  begin_track s =
      let scheduled =
        schedule_end env
          (record s { started = true; position_at = now env s; progress_at = now env s }) in
      record scheduled {
        events = record scheduled.events { starts = bump scheduled.events.starts };
      }

  -- The `match kind` of `backend`, for an event of the current generation.
  unfoldable pub dispatch : EventKind → Reason → Session V → Session V
  unfolding begin_track finish_track track_failure refresh
  dispatch track_start reason s = if s.started then s else refresh env (begin_track s)
  dispatch track_end finished s = refresh env (finish_track s)
  dispatch track_end load_failed s = refresh env (track_failure env s)
  dispatch track_end other_reason s = s
  dispatch track_exception reason s = refresh env (track_failure env s)
  dispatch track_stuck reason s = refresh env (track_failure env s)
  dispatch socket_closed reason s = s
  dispatch other_event reason s = s

  abbrev pub is_socket_closed : EventKind → Bool
  is_socket_closed socket_closed = true
  is_socket_closed _ = false

  unfoldable pub backend : Payload → Session V → Session V
  unfolding observe_progress cleanup dispatch
  backend p s =
      if is_none s.channel
      then s
      else if p.is_player_update
      then observe_progress p s
      else if is_socket_closed p.kind
      then cleanup env (some closed_notice) s
      else if is_none s.queue.current
      then s
      else if not (is_generation p.track_generation s.generation)
      then s
      else dispatch p.kind p.reason s

  abbrev pub count_watchdog : Session V → Session V
  count_watchdog s = record s { events = record s.events { watchdog = bump s.events.watchdog } }

  unfoldable pub recover_unverifiable_stall : Session V → Session V
  unfolding track_failure
  recover_unverifiable_stall s =
      if leb (seconds 90) (elapsed env s s.progress_at)
      then track_failure env (count_watchdog s)
      else s

  abbrev pub check_again : Session V → Session V
  check_again s = record s { end_deadline = some (now env s + seconds 5) }

  -- The recovery itself: a verified end finishes the track, all else fails it.
  unfoldable pub recover : Bool → Session V → Session V
  unfolding finish_track track_failure
  recover is_end s =
      if is_end then finish_track (count_watchdog s) else track_failure env (count_watchdog s)

  -- The snapshot belongs to the current generation.
  unfoldable pub recover_current : Payload → Session V → Session V
  unfolding observe_progress recover schedule_end
  recover_current p s =
      let observed = observe_progress p s in
      if p.paused || ltb (elapsed env observed observed.progress_at) (seconds 60)
      then schedule_end env observed
      else recover false observed

  unfoldable pub recover_playback : Payload → Session V → Session V
  unfolding recover_current recover recover_unverifiable_stall
  recover_playback p s =
      if is_generation p.crust_generation s.generation
      then recover_current p s
      else if not (p.track_is_null && is_generation p.terminal_generation s.generation)
      then recover_unverifiable_stall (check_again s)
      else recover (is_finished p.terminal_reason) s

  abbrev before_deadline : Option ℕ → ℕ → Bool
  before_deadline none at = true
  before_deadline (some deadline) at = ltb at deadline

  -- Whether the watchdog has nothing to verify.
  unfoldable pub is_quiet : Session V → Bool
  is_quiet s =
      is_none s.queue.current
      || s.paused
      || not (env.ready s.log)
      || ltb (now env s) s.watchdog_retry
      || (not (leb (seconds 60) (elapsed env s s.progress_at))
          && before_deadline s.end_deadline (now env s))

  -- `snapshot` is the answer to the GET, if there is one within two seconds.
  unfoldable pub check_playback : (List (Effect V) → Option Payload) → Session V → Session V
  unfolding is_quiet recover_playback recover_unverifiable_stall
  check_playback snapshot s =
      let asked = emit reads_player (record s { watchdog_retry = now env s + seconds 5 }) in
      if is_quiet s then s else elim (snapshot asked.log) [
        | none ↦ recover_unverifiable_stall (check_again asked)
        | some p ↦ recover_playback p asked
      ]
