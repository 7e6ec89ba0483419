-- ===== src/Session.antt =====
-- src/session.rs: the state of a guild's session and what surrounds it. A session is one task,
-- so its state changes only in its own handlers; what happens elsewhere enters as answers of the
-- environment, which may depend on all that the session has done (the field `log`, newest first).
use raydio.Prelude.{
  ℕ, ◌+◌, ◌-◌, ◌*◌, ◌≤◌, ◌<◌, Bool, true, false, not, ◌&&◌, ◌||◌, Option, none, some, List, [], ◌∷◌,
  Text, if◌then◌else◌, ltb, leb, ◌==◌, saturating_add, wrapping_inc, is_some, length,
}
pub mod Play
pub mod Panels
pub mod Cleanup
pub mod Monitor
pub mod Presence
pub mod Prepare
pub mod Loading
pub mod Control
pub mod Interaction
pub mod Run
pub mod Starting
pub mod Frames
pub mod Invariant
mod Examples
mod ShownExamples
pub mod Watchdog
pub mod Ending
pub mod Stale
pub mod Authority
pub mod Generations
pub mod Buttons
pub mod Shown
use raydio.Prelude.Results.{Result}
use raydio.Playback.{Track, Queue, default}
use raydio.Voice.{Guild, Server}
use raydio.Voice.Permissions.{Bitflags}
use raydio.Discord.{Request}
use raydio.Config.{Config}

pub record Pending : Type 0 where
  pub request : Request
  pub channel : ℕ
  pub epoch : ℕ
  pub sequence : ℕ

-- The voice credentials: the bot's voice session, and the voice server.
pub record Credentials : Type 0 where
  pub session : Text
  pub server : Server

pub record Panel (V : Type 0) : Type 0 where
  pub channel : ℕ
  pub message : ℕ
  pub token : Text
  pub last_view : Option V

-- A task of `panel_edits`: an edit of the message, or a check of what Discord has stored.
pub data EditKind : Type 0 where
  edits checks : EditKind

pub record EditTask (V : Type 0) : Type 0 where
  pub kind : EditKind
  pub channel : ℕ
  pub message : ℕ
  pub view : V

-- A task of `preparations`, with the epoch at which it started.
pub record Preparation : Type 0 where
  pub epoch : ℕ
  pub target : Option Text

-- What the session does to the world, in order.
pub data Effect (V : Type 0) : Type 0 where
  -- `node.update` with a track, with no track, and with single fields
  plays : Text → ℕ → ℕ → Effect V
  halts : Effect V
  pauses : Bool → Effect V
  sets_volume : ℕ → Effect V
  sets_voice : Credentials → ℕ → Option ℕ → Effect V
  -- `node.destroy`, the watchdog's GET
  destroys : Effect V
  reads_player : Effect V
  -- gateway commands and the reset of the cached voice server
  joins : ℕ → Effect V
  leaves : Effect V
  clears_server : Effect V
  awaits_credentials : ℕ → Effect V
  ensures_membership : Effect V
  -- messages
  notifies : ℕ → Text → Effect V
  responds : ℕ → V → Effect V
  responds_no_model : ℕ → V → Effect V
  reports_error : ℕ → Text → Effect V
  joins_edit : EditTask V → Effect V
  deletes : ℕ → ℕ → Effect V
  -- the activity that other tasks read: channel, tracks, pending requests, title
  publishes : Option ℕ → ℕ → ℕ → Option Text → Effect V

-- Counters of `events`, in the order of the array.
pub record Events : Type 0 where
  pub queued : ℕ
  pub transitions : ℕ
  pub starts : ℕ
  pub finished : ℕ
  pub failed : ℕ
  pub watchdog : ℕ
  pub cleanups : ℕ

pub record Session (V : Type 0) : Type 0 where
  pub id : ℕ
  pub queue : Queue
  pub channel : Option ℕ
  pub credentials : Option Credentials
  pub token : Text
  pub generation : ℕ
  pub epoch : ℕ
  pub sequence : ℕ
  pub volume : ℕ
  pub paused : Bool
  pub position_ms : ℕ
  pub position_at : ℕ
  pub progress_at : ℕ
  pub end_deadline : Option ℕ
  pub watchdog_retry : ℕ
  pub started : Bool
  pub connected : Bool
  pub idle_at : Option ℕ
  pub alone_at : Option ℕ
  pub pending : List Pending
  pub loading : Option Pending
  pub loaders : List ℕ
  pub preparations : List Preparation
  pub preparation_target : Option Text
  pub preparation_retry : ℕ
  pub responses : List (ℕ × Text)
  pub panel_edits : List (EditTask V)
  pub panel_deletions : ℕ
  pub panel : Option (Panel V)
  pub notification : Option ℕ
  pub events : Events
  pub edits : ℕ
  pub edit_errors : ℕ
  pub edit_terminal : ℕ
  pub panel_retry : ℕ
  pub panel_checks : ℕ
  pub panel_check_at : ℕ
  -- not in the program: the random tokens drawn, and the effects so far
  pub draws : ℕ
  pub log : List (Effect V)

-- How an edit task ended. `lost` is a task that panicked or was cancelled.
pub data EditOutcome : Type 0 where
  delivered stale transient_failure terminal_failure lost : EditOutcome

-- What the code outside the session answers after the effects so far: `P` is Twilight's
-- `Permissions`, `V` the type of views. Times are milliseconds.
pub record Env (P V : Type 0) : Type 0 where
  pub config : Config
  pub bot : ℕ
  pub flags : Bitflags P
  pub now : List (Effect V) → ℕ
  pub ready : List (Effect V) → Bool  -- `node.health().ready`
  pub accepts : List (Effect V) → Bool  -- whether the newest call succeeded
  pub guild : List (Effect V) → Option (Guild P)  -- `cache.guilds.get(&id)`
  pub obtained : List (Effect V) → Option Credentials  -- the end of the wait in `join`
  pub message : List (Effect V) → Option (ℕ × ℕ)  -- the channel and id of a response
  pub outcome : List (Effect V) → EditOutcome
  pub random_token : ℕ → Text
  pub player_view : Queue → Text → Bool → ℕ → ℕ → V
  pub queue_view : Queue → Text → ℕ → Bool → ℕ → ℕ → V × Bool  -- with `components.is_empty()`
  pub text_view : Text → V
  pub with_content : Option Text → V → V
  pub same_view : V → V → Bool
  pub info_view : Text → List (Effect V) → V  -- the answers to help, ping and diagnostics

-- Twilight's clock and the tasks' bounds, in milliseconds.
abbrev pub seconds : ℕ → ℕ
seconds n = n * 1000

-- A saturating increment of an event counter.
abbrev pub bump : ℕ → ℕ
bump n = saturating_add n 1

module _ {V : Type 0} where
  -- An effect is an entry of the log.
  abbrev pub emit : Effect V → Session V → Session V
  emit e s = record s { log = e ∷ s.log }

module _ {P V : Type 0} (env : Env P V) where
  -- `Instant::now()`
  abbrev pub now : Session V → ℕ
  now s = env.now s.log

  -- `at.elapsed()` in milliseconds
  abbrev pub elapsed : Session V → ℕ → ℕ
  elapsed s at = now s - at

  unfoldable pub position : Session V → ℕ
  position s =
      saturating_add s.position_ms
        (if s.paused || not s.started then 0 else elapsed s s.position_at)

  -- The deadline for the end of a track; `-` on ℕ is `saturating_sub`, and `checked_add` of an
  -- `Instant` does not fail within the range of durations.
  abbrev deadline_of : ℕ → Bool → ℕ → Track → Option ℕ
  deadline_of at paused position_ms t =
      if not t.stream && ltb 0 t.duration_ms && not paused
      then some (at + saturating_add (t.duration_ms - position_ms) 15000)
      else none

  unfoldable pub schedule_end : Session V → Session V
  schedule_end s = record s {
    end_deadline = elim s.queue.current [
      | none ↦ none
      | some t ↦ deadline_of (now s) s.paused s.position_ms t
    ];
  }

  -- A call of the music service, and whether it succeeded: `Node` refuses when it is not ready.
  abbrev pub update : Effect V → Session V → Session V × Bool
  update e s = (emit e s, env.ready s.log && env.accepts (e ∷ s.log))

  unfoldable pub notify : Text → Session V → Session V
  notify text s = elim s.notification [ none ↦ s | some channel ↦ emit (notifies channel text) s ]

  abbrev pub draw_token : Session V → Session V
  draw_token s = record s { token = env.random_token s.draws; draws = s.draws + 1 }

  -- `GuildSession::new`
  unfoldable pub new : ℕ → Session V
  new id =
      let at = env.now [] in
      record {
        id = id;
        queue = default;
        channel = none;
        credentials = none;
        token = env.random_token 0;
        generation = 0;
        epoch = 0;
        sequence = 0;
        volume = env.config.volume;
        paused = false;
        position_ms = 0;
        position_at = at;
        progress_at = at;
        end_deadline = none;
        watchdog_retry = at;
        started = false;
        connected = false;
        idle_at = none;
        alone_at = none;
        pending = [];
        loading = none;
        loaders = [];
        preparations = [];
        preparation_target = none;
        preparation_retry = at;
        responses = [];
        panel_edits = [];
        panel_deletions = 0;
        panel = none;
        notification = none;
        events = record {
          queued = 0;
          transitions = 0;
          starts = 0;
          finished = 0;
          failed = 0;
          watchdog = 0;
          cleanups = 0;
        };
        edits = 0;
        edit_errors = 0;
        edit_terminal = 0;
        panel_retry = at;
        panel_checks = 0;
        panel_check_at = at;
        draws = 1;
        log = [];
      }
