-- ===== src/Session/Play.antt =====
-- Starting and failing tracks: `start_current` and `track_failure` of src/session.rs.
use raydio.Prelude.{
  ℕ, zero, suc, Bool, true, false, ◌&&◌, none, some, Text, codes, if◌then◌else◌, leb, wrapping_inc,
  is_none,
}
use raydio.Playback.{fail, failure_limit}
use raydio.Session.{Session, Env, Effect, plays, halts, bump, now, update, schedule_end, notify}

abbrev pub failure_notice : Text
failure_notice =
    codes "Playback stopped after three consecutive track failures. The source may be unhealthy."

-- How `start_current` ends: without an error, with one, or (in the model only) without fuel.
pub data Started : Type 0 where
  playing failed_all cannot_stop no_fuel : Started

abbrev pub succeeded : Started → Bool
succeeded playing = true
succeeded _ = false

module _ {P V : Type 0} (env : Env P V) where
  -- The assignments at the head of the loop.
  unfoldable pub prepare_start : Session V → Session V
  unfolding schedule_end
  prepare_start s = schedule_end env (record s {
    generation = wrapping_inc s.generation;
    position_ms = 0;
    position_at = now env s;
    progress_at = now env s;
    watchdog_retry = now env s;
    started = false;
    paused = false;
  })

  abbrev pub start_effect : Session V → Effect V
  start_effect s = elim s.queue.current [
    | none ↦ halts
    | some t ↦ plays t.encoded s.generation s.volume
  ]

  abbrev pub count_transition : Session V → Session V
  count_transition s = record s {
    events = record s.events { transitions = bump s.events.transitions };
  }

  abbrev pub count_failure : Session V → Session V
  count_failure s = record s { events = record s.events { failed = bump s.events.failed } }

  -- After an update that succeeded.
  unfoldable pub settle : Session V → Session V
  settle s = record s { idle_at = if is_none s.queue.current then some (now env s) else none }

  -- The failure of the current track: the queue moves on, and the third in a row is announced.
  unfoldable pub fail_current : Session V → Session V
  unfolding notify
  fail_current s =
      let counted = count_failure (record s { queue = fail s.queue }) in
      if leb failure_limit counted.queue.consecutive_failures
      then notify env failure_notice counted
      else counted

  -- The loop. `failed` is the local flag.
  unfoldable pub start_loop : ℕ → Bool → Session V → Session V × Started
  unfolding prepare_start settle fail_current
  start_loop zero failed s = (s, no_fuel)
  start_loop (suc fuel) failed s =
      let (sent, ok) = update env (start_effect (prepare_start s)) (prepare_start s) in
      let counted = count_transition sent in
      let again = start_loop fuel true (fail_current counted) in
      if ok
      then (settle counted, if failed && is_none counted.queue.current then failed_all else playing)
      else if is_none counted.queue.current
      then (record counted { idle_at = some (now env counted) }, cannot_stop)
      else again

  -- Three failures empty the queue, so the loop makes at most four rounds.
  abbrev pub start_fuel : ℕ
  start_fuel = 4

  unfoldable pub start_current : Session V → Session V × Started
  unfolding start_loop
  start_current s = start_loop start_fuel false s

  unfoldable pub track_failure : Session V → Session V
  unfolding fail_current start_current
  track_failure s = (start_current (fail_current s)).0
