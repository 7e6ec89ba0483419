-- ===== src/Session/Loading.antt =====
-- From a play request to the queue: `prepare_play`, `start_load`, `join` and `commit` of
-- src/session.rs.
use raydio.Prelude.{
  ℕ, ◌+◌, ◌-◌, Bool, true, false, not, Option, none, some, List, [], ◌∷◌, ◌++◌, map, Text, codes,
  if◌then◌else◌, ltb, leb, ◌==◌, is_some, is_none, length, first, trim, wrapping_inc, decimal,
}
use raydio.Prelude.Results.{Result, ok, err}
use raydio.Playback.{Track, Queue, enqueue, len, format_duration}
use raydio.Voice.Access.{AccessError, not_loaded, access, message}
use raydio.Discord.{Request, user, option, label}
use raydio.Discord
use raydio.Views.{safe}
use raydio.Resolver.{
  Failure, no_match, invalid_response, load_failed, unavailable, unsupported, full, Resolution,
}
use raydio.Session.{
  Credentials, Session, Pending, Env, reports_error, clears_server, joins, awaits_credentials,
  sets_voice, ensures_membership, emit, bump, now, update, draw_token,
}
use raydio.Session.Play.{start_current, succeeded}
use raydio.Session.Panels.{present_player}
use raydio.Session.Cleanup.{cleanup, cancelled_notice}
use raydio.Session.Presence.{update_alone}

unfoldable pub failure_message : Failure → Text
failure_message no_match = codes "No suitable YouTube result was found."
failure_message full = codes "The queue is full."
failure_message unavailable = codes "Music service is temporarily unavailable."
failure_message unsupported = codes "Only YouTube and YouTube Music URLs are supported."
failure_message invalid_response = codes "YouTube could not load that request. Try another song."
failure_message load_failed = codes "YouTube could not load that request. Try another song."

abbrev pub full_notice : Text
full_notice = codes "The queue is full."

abbrev pub elsewhere_notice : Text
elsewhere_notice = codes "Join the bot's current voice channel before adding music."

abbrev pub no_join_notice : Text
no_join_notice = codes "I could not join that voice channel. Check its permissions and try again."

abbrev pub no_start_notice : Text
no_start_notice = codes "I joined, but Raydio could not start that track."

abbrev pub in_other_channel : Option ℕ → ℕ → Bool
in_other_channel none channel = false
in_other_channel (some active) channel = not (active == channel)

-- `join(sep)`
unfoldable pub joined : Text → List Text → Text
joined sep [] = []
joined sep (t ∷ []) = t
joined sep (t ∷ u ∷ us) = t ++ sep ++ joined sep (u ∷ us)

abbrev from_playlist : Option Text → Text
from_playlist none = []
from_playlist (some p) = codes " from **" ++ safe p 120 ++ codes "**"

module _ {P V : Type 0} (env : Env P V) where
  abbrev pub report : Request → Text → Session V → Session V
  report r text s = emit (reports_error r.interaction.id text) s

  -- `Shared::access`
  unfoldable pub shared_access : Session V → ℕ → Option ℕ → Result ℕ AccessError
  shared_access s caller intended = elim (env.guild s.log) [
    | none ↦ err not_loaded
    | some g ↦ access env.flags g s.id caller env.bot intended
  ]

  abbrev limit : ℕ
  limit = env.config.limits.queue

  abbrev pub pending_count : Session V → ℕ
  pending_count s = length s.pending + (if is_some s.loading then 1 else 0)

  abbrev pub is_blank : Text → Bool
  is_blank [] = true
  is_blank (c ∷ t) = false

  -- A request that is admitted waits behind the others.
  unfoldable pub push_pending : Request → ℕ → Session V → Session V
  push_pending r channel s =
      let sequence = wrapping_inc s.sequence in
      record s {
        sequence = sequence;
        pending =
            s.pending
            ++ record { request = r; channel = channel; epoch = s.epoch; sequence = sequence } ∷ [];
      }

  unfoldable pub admit_play : Request → Result ℕ AccessError → Session V → Session V
  unfolding push_pending
  admit_play r (err e) s = report r (message e) s
  admit_play r (ok channel) s =
      if in_other_channel s.channel channel
      then report r elsewhere_notice s
      else if leb limit (len s.queue)
      then report r full_notice s
      else push_pending r channel s

  unfoldable pub prepare_play : Request → Session V → Session V
  unfolding admit_play shared_access
  prepare_play r s =
      let asked = emit ensures_membership s in
      if not (env.ready s.log)
      then report r (codes "Music service is temporarily unavailable.") s
      else if is_blank (trim (option r (codes "request")))
      then report r (codes "Use `/play request:` and enter search terms or a YouTube URL.") s
      else if leb env.config.pending (pending_count s)
      then report r (codes "Too many play requests are already pending for this server.") s
      else admit_play r (shared_access asked (user r) none) asked

  -- Starts the resolution of the oldest request, if none is under way.
  unfoldable pub start_load : Session V → Session V
  start_load s = if is_some s.loading then s else elim s.pending [
    | [] ↦ s
    | p ∷ ps ↦ record s { pending = ps; loading = some p; loaders = s.loaders ++ p.sequence ∷ [] }
  ]

  -- `join` after the wait for the voice credentials.
  unfoldable pub use_credentials : ℕ → Option Credentials → Session V → Session V × Bool
  use_credentials channel none s = (s, false)
  use_credentials channel (some c) s =
      let (sent, accepted) = update env (sets_voice c channel (some s.volume)) s in
      if accepted
      then (
        record (draw_token env (record sent { channel = some channel; credentials = some c })) {
          idle_at = some (now env sent);
        },
        true,
      )
      else (sent, false)

  -- `join`, and whether it succeeded.
  unfoldable pub join : ℕ → Session V → Session V × Bool
  unfolding use_credentials
  join channel s =
      let asked = emit (joins channel) (emit clears_server s) in
      let waited = emit (awaits_credentials channel) asked in
      if not (env.accepts asked.log)
      then (asked, false)
      else use_credentials channel (env.obtained waited.log) waited

  abbrev pub requested_by : Request → Track → Track
  requested_by r t = record t { requester_id = decimal (user r); requested_by = label r }

  -- The notes behind a started track.
  abbrev plural_note : ℕ → Text → List Text
  plural_note n text = if ltb 0 n then (decimal n ++ text) ∷ [] else []

  unfoldable pub start_notes : ℕ → ℕ → Resolution → Option Text
  unfolding joined
  start_notes added omitted r =
      let notes =
        (if ltb 1 added
          then (codes "Queued "
              ++ decimal (added - 1)
              ++ codes " more"
              ++ from_playlist r.playlist
              ++ codes ".")
            ∷ []
          else [])
        ++ (plural_note omitted (codes " tracks were omitted by queue limits.")
            ++ plural_note r.rejected (codes " unsuitable tracks were omitted.")) in
      elim notes [ [] ↦ none | t ∷ ts ↦ some (joined (codes " ") (t ∷ ts)) ]

  unfoldable pub queued_text : ℕ → ℕ → Track → Resolution → Text
  unfolding joined
  queued_text added omitted t r =
      let text =
        if added == 1
        then codes "Queued **"
          ++ safe t.title 160
          ++ codes "** by **"
          ++ safe t.author 100
          ++ codes "** (`"
          ++ format_duration t.duration_ms t.stream
          ++ codes "`)."
        else codes "Queued "
          ++ decimal added
          ++ codes " tracks"
          ++ from_playlist r.playlist
          ++ codes "." in
      let notes =
        plural_note omitted (codes " omitted by queue limits")
        ++ plural_note r.rejected (codes " unsuitable") in
      elim notes [
        | [] ↦ text
        | n ∷ ns ↦ text ++ (codes " " ++ joined (codes "; ") (n ∷ ns) ++ codes ".")
      ]

  -- The assignments after a successful enqueue.
  unfoldable pub note_enqueued : Request → Queue → Session V → Session V
  note_enqueued r q s = record s {
    queue = q;
    notification = Discord.channel r;
    idle_at = none;
    events = record s.events { queued = bump s.events.queued };
  }

  -- The end of `commit` when nothing was current.
  unfoldable pub begin_queue : Request → ℕ → ℕ → Resolution → Session V → Session V
  unfolding start_current present_player update_alone start_notes
  begin_queue r added omitted res s =
      let (begun, outcome) = start_current env s in
      if succeeded outcome
      then update_alone env (present_player env r (start_notes added omitted res) begun)
      else report r no_start_notice begun

  -- `commit` from the enqueue on.
  unfoldable pub enqueue_resolved : Request → Track → Resolution → Session V → Session V
  unfolding note_enqueued begin_queue present_player update_alone queued_text
  enqueue_resolved r t res s =
      let (q, added) = enqueue s.queue res.tracks limit in
      let omitted = res.omitted + length res.tracks - added in
      let noted = note_enqueued r q s in
      if added == 0
      then report r full_notice (record s { queue = q })
      else if is_none s.queue.current
      then begin_queue r added omitted res noted
      else update_alone env (present_player env r (some (queued_text added omitted t res)) noted)

  -- `commit` after the bot is in the channel.
  unfoldable pub commit_joined : Pending → Resolution → Session V → Session V
  unfolding enqueue_resolved shared_access
  commit_joined p res s = elim (shared_access s (user p.request) (some p.channel)) [
    | err e ↦ report p.request (message e) s
    | ok channel ↦
        let owned : Resolution = record res { tracks = map (requested_by p.request) res.tracks } in
        elim (first owned.tracks) [ none ↦ s | some t ↦ enqueue_resolved p.request t owned s ]
  ]

  unfoldable pub commit_resolved : Pending → Resolution → Session V → Session V
  unfolding commit_joined join cleanup
  commit_resolved p res s =
      let (moved, joined_now) = join p.channel s in
      if in_other_channel s.channel p.channel
      then report p.request elsewhere_notice s
      else if leb limit (len s.queue)
      then report p.request full_notice s
      else if is_some s.channel
      then commit_joined p res s
      else if joined_now
      then commit_joined p res moved
      else report p.request no_join_notice (cleanup env none moved)

  unfoldable pub commit : Pending → Result Resolution Failure → Session V → Session V
  unfolding commit_resolved shared_access failure_message
  commit p resolution s =
      if not (p.epoch == s.epoch) then report p.request cancelled_notice s else elim resolution [
        | err e ↦ report p.request (failure_message e) s
        | ok res ↦ elim (shared_access s (user p.request) (some p.channel)) [
          | err e ↦ report p.request (message e) s
          | ok channel ↦ commit_resolved p res s
        ]
      ]
