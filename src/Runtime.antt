-- ===== src/Runtime.antt =====
-- src/runtime.rs: the table of sessions, and what happens to an interaction. The tasks of the loop
-- are lists: the answers under way (`jobs`), the rejections under way, and the sessions (`actors`).
pub mod Resolve
pub mod Pump
pub mod Choices
pub mod Suggestions
pub mod Tables
pub mod Bounds
pub mod Outcomes
pub mod Routes
pub mod Delivery
mod Examples
use raydio.Prelude.{
  ℕ, ◌+◌, ◌-◌, ◌≤◌, ◌<◌, Bool, true, false, not, ◌&&◌, ◌||◌, Option, none, some, List, [], ◌∷◌,
  ◌++◌, Text, codes, text_eq, ltb, leb, ◌==◌, if◌then◌else◌, length, Map, get, insert, contains_key,
  wrapping_inc,
}
use raydio.Discord.{Interaction, Request}
use raydio.Discord
use raydio.Voice.{Cache, Guild, max_guilds}
use raydio.Session.Monitor.{Payload}

-- `InteractionType`
pub data InteractionKind : Type 0 where
  autocomplete command component other_kind : InteractionKind

-- An `InteractionCreate` event: the interaction, and what only the gateway loop reads of it.
pub record Arrival (P : Type 0) : Type 0 where
  pub interaction : Interaction
  pub guild : Option ℕ
  pub kind : InteractionKind
  pub permissions : Option P

-- `Message` of src/session.rs; the acknowledgement is the task for the same interaction.
pub data Message : Type 0 where
  interacts : Request → Message
  reports : Payload → Message
  voice_changed invalidated connected : Message

-- The channel to a session, and whether the session still receives.
pub record Mailbox : Type 0 where
  pub messages : List Message
  pub receiving : Bool

-- A task of `jobs`, by the id of its interaction.
pub data Job : Type 0 where
  acknowledges autocompletes : ℕ → Job

pub record Runtime (P : Type 0) : Type 0 where
  pub cache : Cache P
  pub changed : ℕ
  pub guilds : Map Mailbox
  pub actors : List ℕ
  pub jobs : List Job
  pub rejections : List (ℕ × Text)
  pub interaction_errors : ℕ
  pub latency_ms : ℕ
  pub last_presence : Text
  pub last_presence_at : ℕ

-- The variables of `run` before its loop, at a time of at least 20 seconds.
abbrev pub start : {P : Type 0} → ℕ → Runtime P
start now = record {
  cache = record { guilds = []; ready = false };
  changed = 0;
  guilds = [];
  actors = [];
  jobs = [];
  rejections = [];
  interaction_errors = 0;
  latency_ms = 0;
  last_presence = [];
  last_presence_at = now - 20000;
}

abbrev pub mailbox_limit : ℕ
mailbox_limit = 128

abbrev pub no_messages : Mailbox
no_messages = record { messages = []; receiving = true }

-- `Sender::try_send`; none when the channel is full or closed.
unfoldable pub try_send : Message → Mailbox → Option Mailbox
try_send m b =
    if b.receiving && ltb (length b.messages) mailbox_limit
    then some (record b { messages = b.messages ++ m ∷ [] })
    else none

abbrev pub not_loaded : Text
not_loaded = codes "Raydio commands are available only in a loaded server."

module _ {P : Type 0} where
  -- The count is an atomic that wraps.
  unfoldable pub reject : ℕ → Text → Runtime P → Runtime P
  reject id reason rt = record rt {
    interaction_errors = wrapping_inc rt.interaction_errors;
    rejections =
        if ltb (length rt.rejections) 16 then rt.rejections ++ (id, reason) ∷ [] else rt.rejections;
  }

  -- `Shared::loaded`
  unfoldable pub loaded : ℕ → Cache P → Bool
  loaded guild c = elim (get guild c.guilds) [ none ↦ false | some g ↦ g.available ]

  abbrev pub spawn : Job → Runtime P → Runtime P
  spawn j rt = record rt { jobs = rt.jobs ++ j ∷ [] }

  -- A session for the guild, when the table has none.
  unfoldable pub ensure_session : ℕ → Runtime P → Runtime P
  ensure_session guild rt = if contains_key guild rt.guilds then rt else record rt {
    guilds = insert guild no_messages rt.guilds;
    actors = rt.actors ++ guild ∷ [];
  }

  -- The interaction goes to the guild's session, and its acknowledgement starts beside it.
  unfoldable pub deliver : ℕ → Request → Runtime P → Runtime P
  unfolding try_send reject
  deliver guild r rt = elim (get guild rt.guilds) [
    | none ↦ rt
    | some b ↦ elim (try_send (interacts r) b) [
      | none ↦
          reject r.interaction.id
            (codes "Raydio is busy in this server. Please try again in a moment.") rt
      | some b' ↦
          spawn (acknowledges r.interaction.id) (record rt { guilds = insert guild b' rt.guilds })
    ]
  ]

  -- `p.intersects(MANAGE_GUILD | ADMINISTRATOR)` is the parameter `manages`.
  module _ (manages : P → Bool) where
    unfoldable pub is_denied : Arrival P → Request → Bool
    is_denied a r =
        text_eq r.name (codes "diagnostics")
        && not (elim a.permissions [ none ↦ false | some p ↦ manages p ])

    -- A command or a component, of a guild.
    unfoldable pub route : ℕ → Arrival P → Request → Runtime P → Runtime P
    unfolding is_denied loaded ensure_session deliver
    route guild a r rt =
        if is_denied a r
        then reject a.interaction.id (codes "`/diagnostics` requires the Manage Server permission.")
            rt
        else if not (loaded guild rt.cache)
        then reject a.interaction.id not_loaded rt
        else if not (contains_key guild rt.guilds) && leb max_guilds (length rt.guilds)
        then reject a.interaction.id (codes "Raydio is at capacity. Please try again later.") rt
        else deliver guild r (ensure_session guild rt)

    -- The branch of `run` for an `InteractionCreate` event.
    unfoldable pub interact : Arrival P → Runtime P → Runtime P
    unfolding route
    interact a rt = elim a.guild [
      | none ↦ reject a.interaction.id not_loaded rt
      | some guild ↦
          if leb 128 (length rt.jobs)
          then reject a.interaction.id (codes "Raydio is busy. Please try again in a moment.") rt
          else elim a.kind [
            | autocomplete ↦ spawn (autocompletes a.interaction.id) rt
            | other_kind ↦ rt
            | _ ↦ route guild a (raydio.Discord.new a.interaction) rt
          ]
    ]
