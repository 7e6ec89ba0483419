-- ===== src/Session/Run.antt =====
-- The loop of a session: `run`, `publish_activity` of src/session.rs. Each turn of the
-- `tokio::select!` handles one event; which one is the schedule.
use raydio.Prelude.{
  ℕ, ◌-◌, Bool, false, Option, none, some, List, [], ◌∷◌, Text, codes, if◌then◌else◌, ◌==◌, is_none,
  drop,
}
use raydio.Prelude.Results.{Result}
use raydio.Playback.{Track, len}
use raydio.Discord.{Request}
use raydio.Views.{truncate}
use raydio.Resolver.{Failure, Resolution}
use raydio.Session.{Session, Pending, Env, Effect, destroys, publishes, emit}
use raydio.Session.Play.{start_current}
use raydio.Session.Panels.{finish_refresh, refresh}
use raydio.Session.Cleanup.{cleanup}
use raydio.Session.Monitor.{Payload, backend}
use raydio.Session.Presence.{voice_changed, tick}
use raydio.Session.Prepare.{Joined, prepare_next, finish_preparation}
use raydio.Session.Loading.{report, pending_count, commit, start_load}
use raydio.Session.Interaction.{interaction}

-- How a loader was joined: with its sequence number and result, or after a panic or an abort.
pub data Loaded : Type 0 where
  resolved : ℕ → Result Resolution Failure → Loaded
  panicked aborted : Loaded

pub data Turn (V : Type 0) : Type 0 where
  -- the messages of the channel; an interaction comes with its acknowledgement
  interacts : Request → Bool → Turn V
  reports : Payload → Turn V
  voice_changes invalidates connects : Turn V
  -- the tasks that end
  loads : Loaded → Turn V
  responds_one deletes_one : Turn V
  prepares : Joined → Turn V
  edits_one : Turn V
  ticks : Turn V

abbrev pub invalidated_notice : Text
invalidated_notice =
    codes "Music service session changed. The queue was cleared; use `/play` again."

abbrev pub panic_notice : Text
panic_notice = codes "YouTube could not load that request. Try another song."

abbrev is_sequence : ℕ → Option Pending → Bool
is_sequence sequence none = false
is_sequence sequence (some p) = p.sequence == sequence

module _ {P V : Type 0} (env : Env P V) where
  -- The branch for a joined loader.
  unfoldable pub finish_load : Loaded → Session V → Session V
  unfolding commit
  finish_load (resolved sequence result) s = elim s.loading [
    | none ↦ s
    | some p ↦
        if p.sequence == sequence then commit env p result (record s { loading = none }) else s
  ]
  finish_load panicked s = elim s.loading [
    | none ↦ s
    | some p ↦ report env p.request panic_notice (record s { loading = none })
  ]
  finish_load aborted s = s

  -- The reconnection of the music service.
  unfoldable pub connected : Session V → Session V
  unfolding start_current voice_changed
  connected s =
      if is_none s.channel
      then emit destroys s
      else if is_none s.queue.current
      then (start_current env s).0
      else voice_changed env s

  -- The branch for a joined edit.
  unfoldable pub finish_edit : Session V → Session V
  unfolding finish_refresh refresh
  finish_edit s = elim s.panel_edits [
    | [] ↦ s
    | t ∷ ts ↦
        let joined = record s { panel_edits = ts } in
        refresh env (finish_refresh env (env.outcome joined.log) t joined)
  ]

  unfoldable pub finish_first_preparation : Joined → Session V → Session V
  unfolding finish_preparation
  finish_first_preparation j s = elim s.preparations [
    | [] ↦ s
    | p ∷ ps ↦ finish_preparation env p j (record s { preparations = ps })
  ]

  -- The handler of a turn. `shuffler` and `snapshot` are the answers of the random generator and of
  -- the watchdog's GET.
  unfoldable pub handle :
      (List Track → List Track)
      → (List (Effect V) → Option Payload)
      → Turn V
      → Session V
      → Session V
  unfolding finish_load connected finish_edit finish_first_preparation
  handle shuffler snapshot (interacts r acknowledged) s =
      if acknowledged then interaction env shuffler r s else s
  handle shuffler snapshot (reports p) s = backend env p s
  handle shuffler snapshot voice_changes s = voice_changed env s
  handle shuffler snapshot invalidates s = cleanup env (some invalidated_notice) s
  handle shuffler snapshot connects s = connected s
  handle shuffler snapshot (loads l) s = finish_load l (record s { loaders = drop 1 s.loaders })
  handle shuffler snapshot responds_one s = record s { responses = drop 1 s.responses }
  handle shuffler snapshot deletes_one s = record s { panel_deletions = s.panel_deletions - 1 }
  handle shuffler snapshot (prepares j) s = finish_first_preparation j s
  handle shuffler snapshot edits_one s = finish_edit s
  handle shuffler snapshot ticks s = tick env snapshot s

  unfoldable pub publish_activity : Session V → Session V
  publish_activity s =
      emit
        (publishes s.channel (len s.queue) (pending_count env s)
          (elim s.queue.current [ none ↦ none | some t ↦ some (truncate t.title 100) ]))
        s

  -- A turn of the loop.
  unfoldable pub turn :
      (List Track → List Track)
      → (List (Effect V) → Option Payload)
      → Turn V
      → Session V
      → Session V
  unfolding handle publish_activity
  turn shuffler snapshot t s =
      publish_activity (prepare_next env (start_load env (handle shuffler snapshot t s)))

  unfoldable pub run :
      (ℕ → List Track → List Track)
      → (List (Effect V) → Option Payload)
      → List (ℕ × Turn V)
      → Session V
      → Session V
  run shuffler snapshot [] s = s
  run shuffler snapshot ((seed, t) ∷ ts) s =
      run shuffler snapshot ts (turn (shuffler seed) snapshot t s)

  -- What follows the loop.
  unfoldable pub shut_down : Session V → Session V
  unfolding publish_activity
  shut_down s = publish_activity (record (cleanup env none (record s { preparations = [] })) {
    panel_edits = [];
    panel_deletions = 0;
    responses = [];
  })
