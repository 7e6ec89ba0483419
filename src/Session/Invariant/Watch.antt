-- ===== src/Session/Invariant/Watch.antt =====
-- The invariant of a session under the watchdog, voice changes and the clock (src/session.rs).
use raydio.Prelude.{
  ℕ, if◌then◌else◌, not, ◌==◌, ◌+◌, ◌&&◌, ◌≤◌, refl, Bool, Option, none, some, List, get,
}
use raydio.Voice.{Guild, Voice, Server}
use raydio.Session.{
  Session, Env, Effect, Credentials, reads_player, sets_voice, schedule_end, emit, now, seconds,
}
use raydio.Session.Cleanup.{cleanup}
use raydio.Session.Monitor.{
  Payload, observe_progress, recover_unverifiable_stall, recover, recover_current, recover_playback,
  check_playback, count_watchdog, check_again, is_finished,
}
use raydio.Session.Presence.{
  restore, follow_server, follow_voice, voice_changed, tick, unrestored_notice, alone_notice,
  idle_notice,
}
use raydio.Session.Frames.{
  SameCore, core_trans, observe_progress-SameCore, update_alone-SameCore, refresh-SameCore,
}
use raydio.Session.Invariant.{
  IsValid, SameCore-IsValid, if-IsValid, cleanup-IsValid, track_failure-IsValid,
  finish_track-IsValid,
}

module _ {P V : Type 0} (env : Env P V) (n : ℕ) (percentage : env.config.volume ≤ 100) where
  count_watchdog-IsValid : (s : Session V) → IsValid n s → IsValid n (count_watchdog env s)
  count_watchdog-IsValid s v =
      SameCore-IsValid (record { queue = refl; channel = refl; volume = refl }) v

  stall-IsValid : (s : Session V) → IsValid n s → IsValid n (recover_unverifiable_stall env s)
  unfolding recover_unverifiable_stall
  stall-IsValid s v =
      if-IsValid _
        (track_failure-IsValid env n percentage (count_watchdog env s) (count_watchdog-IsValid s v))
        v

  recover-IsValid : (b : Bool) (s : Session V) → IsValid n s → IsValid n (recover env b s)
  unfolding recover
  recover-IsValid b s v =
      if-IsValid b
        (finish_track-IsValid env n percentage (count_watchdog env s) (count_watchdog-IsValid s v))
        (track_failure-IsValid env n percentage (count_watchdog env s) (count_watchdog-IsValid s v))

  schedule_end-SameCore : (s : Session V) → SameCore s (schedule_end env s)
  unfolding schedule_end
  schedule_end-SameCore s = record { queue = refl; channel = refl; volume = refl }

  recover_current-IsValid :
      (p : Payload) (s : Session V) → IsValid n s → IsValid n (recover_current env p s)
  unfolding recover_current
  recover_current-IsValid p s v =
      let observed = SameCore-IsValid (observe_progress-SameCore env p s) v in
      if-IsValid _ (SameCore-IsValid (schedule_end-SameCore (observe_progress env p s)) observed)
        (recover-IsValid Bool.false (observe_progress env p s) observed)

  recover_playback-IsValid :
      (p : Payload) (s : Session V) → IsValid n s → IsValid n (recover_playback env p s)
  unfolding recover_playback
  recover_playback-IsValid p s v = if-IsValid _ (recover_current-IsValid p s v) (
      if-IsValid _
        (stall-IsValid (check_again env s)
          (SameCore-IsValid (record { queue = refl; channel = refl; volume = refl }) v))
        (recover-IsValid (is_finished p.terminal_reason) s v))

  check_playback-IsValid :
      (snapshot : List (Effect V) → Option Payload) (s : Session V)
      → IsValid n s
      → IsValid n (check_playback env snapshot s)
  unfolding check_playback
  check_playback-IsValid snapshot s v =
      let asked : Session V =
        emit reads_player (record s { watchdog_retry = now env s + seconds 5 }) in
      let going : IsValid n asked =
        SameCore-IsValid (record { queue = refl; channel = refl; volume = refl }) v in
      if-IsValid _ v (answered asked going (snapshot asked.log))
    where
      answered :
          (asked : Session V)
          → IsValid n asked
          → (o : Option Payload)
          → IsValid n (elim o [
            | none ↦ recover_unverifiable_stall env (check_again env asked)
            | some p ↦ recover_playback env p asked
          ])
      answered asked w none =
          stall-IsValid (check_again env asked)
            (SameCore-IsValid (record { queue = refl; channel = refl; volume = refl }) w)
      answered asked w (some p) = recover_playback-IsValid p asked w

  restore-IsValid :
      (channel : ℕ) (c : Credentials) (s : Session V)
      → IsValid n s
      → IsValid n (restore env channel c s)
  unfolding restore
  restore-IsValid channel c s v =
      let sent : Session V = emit (sets_voice c channel none) s in
      let kept : Session V = record sent { credentials = some c } in
      if-IsValid (env.ready s.log && env.accepts sent.log)
        (SameCore-IsValid
          (core_trans {t = kept} (record { queue = refl; channel = refl; volume = refl })
            (update_alone-SameCore env kept))
          v)
        (cleanup-IsValid env n percentage (some unrestored_notice) sent)

  follow_server-IsValid :
      (channel : ℕ) (w : Voice) (o : Option Server) (s : Session V)
      → IsValid n s
      → IsValid n (follow_server env channel w o s)
  unfolding follow_server
  follow_server-IsValid channel w none s v = SameCore-IsValid (update_alone-SameCore env s) v
  follow_server-IsValid channel w (some server) s v =
      if-IsValid _ (restore-IsValid channel _ s v)
        (SameCore-IsValid (update_alone-SameCore env s) v)

  follow_voice-IsValid :
      (channel : ℕ) (g : Guild P) (s : Session V)
      → IsValid n s
      → IsValid n (follow_voice env channel g s)
  unfolding follow_voice
  follow_voice-IsValid channel g s v = with_voice (get env.bot g.voices)
    where
      with_voice :
          (o : Option Voice)
          → IsValid n (elim o [
            | none ↦ cleanup env none s
            | some w ↦
                if w.channel == channel
                then follow_server env channel w g.server s
                else cleanup env none s
          ])
      with_voice none = cleanup-IsValid env n percentage none s
      with_voice (some w) =
          if-IsValid _ (follow_server-IsValid channel w g.server s v)
            (cleanup-IsValid env n percentage none s)

  pub voice_changed-IsValid : (s : Session V) → IsValid n s → IsValid n (voice_changed env s)
  unfolding voice_changed
  voice_changed-IsValid s v = with_channel s.channel (env.guild s.log)
    where
      with_channel :
          (c : Option ℕ) (o : Option (Guild P))
          → IsValid n (elim c [
            | none ↦ s
            | some channel ↦ elim o [
              | none ↦ cleanup env none s
              | some g ↦ if not g.available then s else follow_voice env channel g s
            ]
          ])
      with_channel none o = v
      with_channel (some channel) none = cleanup-IsValid env n percentage none s
      with_channel (some channel) (some g) = if-IsValid _ v (follow_voice-IsValid channel g s v)

  pub tick-IsValid :
      (snapshot : List (Effect V) → Option Payload) (s : Session V)
      → IsValid n s
      → IsValid n (tick env snapshot s)
  unfolding tick
  tick-IsValid snapshot s v =
      let followed = voice_changed-IsValid s v in
      let checked = check_playback-IsValid snapshot (voice_changed env s) followed in
      if-IsValid _ (cleanup-IsValid env n percentage (some alone_notice) (voice_changed env s)) (
        if-IsValid _ (cleanup-IsValid env n percentage (some idle_notice) (voice_changed env s)) (
          SameCore-IsValid
            (refresh-SameCore env (check_playback env snapshot (voice_changed env s))) checked))
