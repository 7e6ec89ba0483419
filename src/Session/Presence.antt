-- ===== src/Session/Presence.antt =====
-- Voice changes and the clock: `update_alone`, `voice_changed` and `tick` of src/session.rs.
use raydio.Prelude.{
  ℕ, ◌/◌, Bool, true, false, not, ◌&&◌, Option, none, some, List, Text, codes, text_eq,
  if◌then◌else◌, leb, ◌==◌, get,
}
use raydio.Voice.{Guild, Voice, Server, alone}
use raydio.Session.{Session, Credentials, Env, Effect, sets_voice, now, elapsed, update}
use raydio.Session.Panels.{refresh}
use raydio.Session.Cleanup.{cleanup}
use raydio.Session.Monitor.{Payload, check_playback}

abbrev pub unrestored_notice : Text
unrestored_notice = codes "The voice connection could not be restored. Use `/play` again."

abbrev pub alone_notice : Text
alone_notice = codes "Left the voice channel because no listeners remained."

abbrev pub idle_notice : Text
idle_notice = codes "Left the voice channel after the queue stayed idle."

-- `!=` on the stored credentials
unfoldable pub is_new : Credentials → Option Credentials → Bool
is_new c none = true
is_new c (some d) = not (
    text_eq d.session c.session
    && text_eq d.server.token c.server.token
    && text_eq d.server.endpoint c.server.endpoint)

module _ {P V : Type 0} (env : Env P V) where
  abbrev alone_in : Option ℕ → Option (Guild P) → Bool
  alone_in none g = false
  alone_in (some channel) none = false
  alone_in (some channel) (some g) = alone g channel

  abbrev get_or_insert : Option ℕ → ℕ → Option ℕ
  get_or_insert none at = some at
  get_or_insert (some t) at = some t

  unfoldable pub update_alone : Session V → Session V
  update_alone s = record s {
    alone_at =
        if alone_in s.channel (env.guild s.log) then get_or_insert s.alone_at (now env s) else none;
  }

  -- New credentials go to the music service; without them playback ends.
  unfoldable pub restore : ℕ → Credentials → Session V → Session V
  unfolding update_alone cleanup
  restore channel c s =
      let (sent, ok) = update env (sets_voice c channel none) s in
      if ok
      then update_alone (record sent { credentials = some c })
      else cleanup env (some unrestored_notice) sent

  unfoldable pub follow_server : ℕ → Voice → Option Server → Session V → Session V
  unfolding restore update_alone is_new
  follow_server channel v none s = update_alone s
  follow_server channel v (some server) s =
      let c : Credentials = record { session = v.session; server = server } in
      if is_new c s.credentials && env.ready s.log then restore channel c s else update_alone s

  -- The bot's own voice entry, if it is in the session's channel.
  unfoldable pub follow_voice : ℕ → Guild P → Session V → Session V
  unfolding follow_server cleanup
  follow_voice channel g s = elim (get env.bot g.voices) [
    | none ↦ cleanup env none s
    | some v ↦
        if v.channel == channel then follow_server channel v g.server s else cleanup env none s
  ]

  unfoldable pub voice_changed : Session V → Session V
  unfolding follow_voice cleanup
  voice_changed s = elim s.channel [
    | none ↦ s
    | some channel ↦ elim (env.guild s.log) [
      | none ↦ cleanup env none s
      | some g ↦ if not g.available then s else follow_voice channel g s
    ]
  ]

  -- `at.elapsed().as_secs() >= limit`
  abbrev is_over : Option ℕ → ℕ → Session V → Bool
  is_over none limit s = false
  is_over (some at) limit s = leb limit (elapsed env s at / 1000)

  unfoldable pub tick : (List (Effect V) → Option Payload) → Session V → Session V
  unfolding voice_changed check_playback refresh cleanup
  tick snapshot before =
      let s = voice_changed before in
      if is_over s.alone_at env.config.alone_seconds s
      then cleanup env (some alone_notice) s
      else if is_over s.idle_at env.config.idle_seconds s
      then cleanup env (some idle_notice) s
      else refresh env (check_playback env snapshot s)
