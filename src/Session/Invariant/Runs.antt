-- ===== src/Session/Invariant/Runs.antt =====
-- The invariant of a session over its loop (src/session.rs).
use raydio.Prelude.{
  ℕ, ◌≤◌, ◌≡◌, refl, not, ◌||◌, Option, none, some, List, [], ◌∷◌, Text, is_none, Perm, text_eq,
  parse_unsigned, u64_max, drop, codes,
}
use raydio.Playback.{Track}
use raydio.Playback.Bounds.{default-IsValid}
use raydio.Discord.{Request}
use raydio.Session.{Session, Env, Effect, new}
use raydio.Session.Monitor.{Payload}
use raydio.Session.Control.{control}
use raydio.Session.Loading.{start_load}
use raydio.Session.Interaction.{
  run_control, run_command, run_button, interaction, button_request, respond, loaded, parts_of,
  part, is_valid_button, is_queue_kind, stale_notice,
}
use raydio.Session.Run.{
  Turn, interacts, reports, voice_changes, invalidates, connects, loads, responds_one, deletes_one,
  prepares, edits_one, ticks, connected, handle, publish_activity, turn, run, invalidated_notice,
}
use raydio.Session.Frames.{
  respond-SameCore, prepare_play-SameCore, present_player-SameCore, show_queue-SameCore,
  start_load-SameCore, prepare_next-SameCore, finish_edit-SameCore,
  finish_first_preparation-SameCore,
}
use raydio.Session.Invariant.{
  IsValid, SameCore-IsValid, if-IsValid, cleanup-IsValid, start_current-IsValid, backend-IsValid,
}
use raydio.Session.Invariant.Watch.{voice_changed-IsValid, tick-IsValid}
use raydio.Session.Invariant.Controls.{control-IsValid}
use raydio.Session.Invariant.Loads.{finish_load-IsValid}

module _ {P V : Type 0} (env : Env P V) (percentage : env.config.volume ≤ 100) where
  abbrev limit : ℕ
  limit = env.config.limits.queue

  same-IsValid :
      {s t : Session V}
      → t.queue ≡ s.queue
      → t.channel ≡ s.channel
      → t.volume ≡ s.volume
      → IsValid limit s
      → IsValid limit t
  same-IsValid q c w v = SameCore-IsValid (record { queue = q; channel = c; volume = w }) v

  responded :
      (r : Request) (view : V) (s : Session V)
      → IsValid limit s
      → IsValid limit (respond env r view s)
  responded r view s v = same-IsValid refl refl refl v

  module _ (shuffler : List Track → List Track)
      (permutes : (xs : List Track) → Perm (shuffler xs) xs) where
    run_control-IsValid :
        (r : Request) (s : Session V)
        → IsValid limit s
        → IsValid limit (run_control env shuffler r s)
    unfolding run_control
    run_control-IsValid r s v =
        SameCore-IsValid
          (respond-SameCore env r (control env shuffler r s).1 (control env shuffler r s).0)
          (control-IsValid env percentage shuffler r s permutes v)

    run_command-IsValid :
        (r : Request) (s : Session V)
        → IsValid limit s
        → IsValid limit (run_command env shuffler r s)
    unfolding run_command
    run_command-IsValid r s v =
        if-IsValid (text_eq r.name (codes "play"))
          (SameCore-IsValid (prepare_play-SameCore env r s) v)
          (if-IsValid (text_eq r.name (codes "nowplaying"))
            (SameCore-IsValid (present_player-SameCore env r none s) v)
            (if-IsValid (text_eq r.name (codes "queue"))
              (SameCore-IsValid (show_queue-SameCore env 0 r s) v)
              (if-IsValid
                (text_eq r.name (codes "help")
                  || text_eq r.name (codes "ping")
                  || text_eq r.name (codes "diagnostics"))
                (responded r (env.info_view r.name s.log) s v) (run_control-IsValid r s v))))

    run_button-IsValid :
        (parts : List Text) (r : Request) (s : Session V)
        → IsValid limit s
        → IsValid limit (run_button env shuffler parts r s)
    unfolding run_button
    run_button-IsValid parts r s v =
        let page : ℕ = elim (parse_unsigned u64_max (part parts 3)) [ none ↦ 0 | some n ↦ n ] in
        if-IsValid (not (is_valid_button parts r s))
          (responded r (env.text_view (stale_notice (is_queue_kind (part parts 1)))) s v)
          (if-IsValid (is_queue_kind (part parts 1))
            (SameCore-IsValid (show_queue-SameCore env page r s) v)
            (run_command-IsValid (button_request (part parts 3) r s) s v))

    interaction-IsValid :
        (r : Request) (s : Session V)
        → IsValid limit s
        → IsValid limit (interaction env shuffler r s)
    unfolding interaction
    interaction-IsValid r s v =
        if-IsValid (not (loaded env s)) (same-IsValid refl refl refl v) (with_button r.custom_id)
      where
        with_button :
            (o : Option Text)
            → IsValid limit (elim o [
              | none ↦ run_command env shuffler r s
              | some id ↦ run_button env shuffler (parts_of id) r s
            ])
        with_button none = run_command-IsValid r s v
        with_button (some id) = run_button-IsValid (parts_of id) r s v

    connected-IsValid : (s : Session V) → IsValid limit s → IsValid limit (connected env s)
    unfolding connected
    connected-IsValid s v = if-IsValid (is_none s.channel) (same-IsValid refl refl refl v) (
        if-IsValid (is_none s.queue.current) (start_current-IsValid env limit percentage s v)
          (voice_changed-IsValid env limit percentage s v))

    handle-IsValid :
        (snapshot : List (Effect V) → Option Payload) (t : Turn V) (s : Session V)
        → IsValid limit s
        → IsValid limit (handle env shuffler snapshot t s)
    unfolding handle
    handle-IsValid snapshot (interacts r acknowledged) s v =
        if-IsValid acknowledged (interaction-IsValid r s v) v
    handle-IsValid snapshot (reports p) s v = backend-IsValid env limit percentage p s v
    handle-IsValid snapshot voice_changes s v = voice_changed-IsValid env limit percentage s v
    handle-IsValid snapshot invalidates s v =
        cleanup-IsValid env limit percentage (some invalidated_notice) s
    handle-IsValid snapshot connects s v = connected-IsValid s v
    handle-IsValid snapshot (loads l) s v =
        finish_load-IsValid env percentage l (record s { loaders = drop 1 s.loaders })
          (same-IsValid refl refl refl v)
    handle-IsValid snapshot responds_one s v = same-IsValid refl refl refl v
    handle-IsValid snapshot deletes_one s v = same-IsValid refl refl refl v
    handle-IsValid snapshot (prepares j) s v =
        SameCore-IsValid (finish_first_preparation-SameCore env j s) v
    handle-IsValid snapshot edits_one s v = SameCore-IsValid (finish_edit-SameCore env s) v
    handle-IsValid snapshot ticks s v = tick-IsValid env limit percentage snapshot s v

    turn-IsValid :
        (snapshot : List (Effect V) → Option Payload) (t : Turn V) (s : Session V)
        → IsValid limit s
        → IsValid limit (turn env shuffler snapshot t s)
    unfolding turn publish_activity
    turn-IsValid snapshot t s v =
        let handled = handle-IsValid snapshot t s v in
        let loading =
          SameCore-IsValid (start_load-SameCore env (handle env shuffler snapshot t s)) handled in
        same-IsValid refl refl refl (
          SameCore-IsValid
            (prepare_next-SameCore env (start_load env (handle env shuffler snapshot t s))) loading)

  run-IsValid :
      (shuffler : ℕ → List Track → List Track) (snapshot : List (Effect V) → Option Payload)
      (ts : List (ℕ × Turn V)) (s : Session V)
      → ((seed : ℕ) (xs : List Track) → Perm (shuffler seed xs) xs)
      → IsValid limit s
      → IsValid limit (run env shuffler snapshot ts s)
  unfolding run
  run-IsValid shuffler snapshot [] s permutes v = v
  run-IsValid shuffler snapshot ((seed, t) ∷ ts) s permutes v =
      run-IsValid shuffler snapshot ts (turn env (shuffler seed) snapshot t s) permutes
        (turn-IsValid (shuffler seed) (permutes seed) snapshot t s v)

  new-IsValid : (id : ℕ) → IsValid limit (new env id)
  unfolding new
  new-IsValid id = record { queue = default-IsValid limit; placed = refl; audible = percentage }

-- Whatever happens to a new session, in whatever order, and whatever the world answers: its queue is
-- valid for the configured limit, a track is current only while the bot is in a voice channel, and
-- the volume is at most 100, as the configured volume is.
pub run-new-IsValid :
    {P V : Type 0} (env : Env P V) (shuffler : ℕ → List Track → List Track)
    (snapshot : List (Effect V) → Option Payload) (ts : List (ℕ × Turn V)) (id : ℕ)
    → env.config.volume ≤ 100
    → ((seed : ℕ) (xs : List Track) → Perm (shuffler seed xs) xs)
    → IsValid env.config.limits.queue (run env shuffler snapshot ts (new env id))
run-new-IsValid env shuffler snapshot ts id percentage permutes =
    run-IsValid env percentage shuffler snapshot ts (new env id) permutes
      (new-IsValid env percentage id)
