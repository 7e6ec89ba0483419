-- ===== src/Runtime/Outcomes.antt =====
-- The ways in which an interaction ends in src/runtime.rs, each with its conditions.
use raydio.Prelude.{
  ℕ, ◌≤◌, ◌<◌, ◌≡◌, ◌⊎◌, ◌≢◌, Bool, true, false, ◌&&◌, none, some, [], ◌∷◌, ◌++◌, Text, codes, ltb,
  if◌then◌else◌, length, get, wrapping_inc, contains_key,
}
use raydio.Discord.{new}
use raydio.Voice.{Guild, max_guilds}
use raydio.Runtime.{
  Runtime, Arrival, InteractionKind, autocomplete, command, component, other_kind, interacts,
  Mailbox, mailbox_limit, not_loaded, no_messages, acknowledges, autocompletes, spawn,
}

abbrev pub busy : Text
busy = codes "Raydio is busy. Please try again in a moment."

abbrev pub busy_here : Text
busy_here = codes "Raydio is busy in this server. Please try again in a moment."

abbrev pub denied : Text
denied = codes "`/diagnostics` requires the Manage Server permission."

abbrev pub at_capacity : Text
at_capacity = codes "Raydio is at capacity. Please try again later."

abbrev pub diagnostics : Text
diagnostics = codes "diagnostics"

-- The kinds that a session serves.
abbrev pub is_for_session : InteractionKind → Bool
is_for_session command = true
is_for_session component = true
is_for_session autocomplete = false
is_for_session other_kind = false

abbrev pub has_room : Mailbox → Bool
has_room b = b.receiving && ltb (length b.messages) mailbox_limit

module _ {P : Type 0} where
  -- The mailbox of a guild's session, which starts empty.
  abbrev pub mailbox_of : ℕ → Runtime P → Mailbox
  mailbox_of guild rt = elim (get guild rt.guilds) [ none ↦ no_messages | some b ↦ b ]

  abbrev pub IsLoaded : ℕ → Runtime P → Type 0
  IsLoaded guild rt = (g : Guild P) × (get guild rt.cache.guilds ≡ some g) × (g.available ≡ true)

  abbrev pub IsUnloaded : ℕ → Runtime P → Type 0
  IsUnloaded guild rt = (g : Guild P) → get guild rt.cache.guilds ≡ some g → g.available ≡ false

  -- An interaction is put into its guild's mailbox, behind the messages there, and a task
  -- acknowledges it. The guild has a session task, and all else is as before.
  pub record Delivered (a : Arrival P) (guild : ℕ) (rt qt : Runtime P) : Type 0 where
    pub own :
        get guild qt.guilds
        ≡ some (record (mailbox_of guild rt) {
          messages = (mailbox_of guild rt).messages ++ interacts (new a.interaction) ∷ [];
        })
    pub others : (j : ℕ) → j ≢ guild → get j qt.guilds ≡ get j rt.guilds
    pub actors :
        qt.actors ≡ (if contains_key guild rt.guilds then rt.actors else rt.actors ++ guild ∷ [])
    pub jobs : qt.jobs ≡ rt.jobs ++ acknowledges a.interaction.id ∷ []
    pub kept : record qt { guilds = rt.guilds; actors = rt.actors; jobs = rt.jobs } ≡ rt

  -- A refusal is counted and, with fewer than 16 under way, sent; all else is as before.
  pub record Rejected (id : ℕ) (reason : Text) (rt qt : Runtime P) : Type 0 where
    pub counted : qt.interaction_errors ≡ wrapping_inc rt.interaction_errors
    pub sent : qt.rejections ≡ (
        if ltb (length rt.rejections) 16 then rt.rejections ++ (id, reason) ∷ [] else rt.rejections)
    pub kept :
        record qt { interaction_errors = rt.interaction_errors; rejections = rt.rejections } ≡ rt

module _ {P : Type 0} (manages : P → Bool) where
  -- Diagnostics are for those who manage the server.
  abbrev pub IsPermitted : Arrival P → Type 0
  IsPermitted a =
      ((new a.interaction).name ≢ diagnostics)
      ⊎ ((p : P) × (a.permissions ≡ some p) × (manages p ≡ true))

  abbrev pub IsDenied : Arrival P → Type 0
  IsDenied a =
      ((new a.interaction).name ≡ diagnostics)
      × ((p : P) → a.permissions ≡ some p → manages p ≡ false)

  -- An interaction that a session may serve: in a guild, with room among the answers under way, of a
  -- kind for a session, permitted, in a loaded guild, and with a session or room for one.
  pub record Admitted (a : Arrival P) (rt : Runtime P) (guild : ℕ) : Type 0 where
    pub place : a.guild ≡ some guild
    pub answers : length rt.jobs < 128
    pub kind : is_for_session a.kind ≡ true
    pub permitted : IsPermitted a
    pub known : IsLoaded guild rt
    pub capacity : (get guild rt.guilds ≢ none) ⊎ (length rt.guilds < max_guilds)

  -- The reasons for which an interaction is refused, each with its condition.
  pub data Refused (a : Arrival P) (rt : Runtime P) : Text → Type 0 where
    nowhere : a.guild ≡ none → Refused a rt not_loaded
    overloaded : (guild : ℕ) → a.guild ≡ some guild → 128 ≤ length rt.jobs → Refused a rt busy
    unpermitted :
        (guild : ℕ)
        → a.guild ≡ some guild
        → length rt.jobs < 128
        → is_for_session a.kind ≡ true
        → IsDenied a
        → Refused a rt denied
    unknown :
        (guild : ℕ)
        → a.guild ≡ some guild
        → length rt.jobs < 128
        → is_for_session a.kind ≡ true
        → IsPermitted a
        → IsUnloaded guild rt
        → Refused a rt not_loaded
    full_table :
        (guild : ℕ)
        → a.guild ≡ some guild
        → length rt.jobs < 128
        → is_for_session a.kind ≡ true
        → IsPermitted a
        → IsLoaded guild rt
        → get guild rt.guilds ≡ none
        → max_guilds ≤ length rt.guilds
        → Refused a rt at_capacity
    full_mailbox :
        (guild : ℕ)
        → Admitted a rt guild
        → has_room (mailbox_of guild rt) ≡ false
        → Refused a rt busy_here

  -- How an interaction ends, from the state before and the state after.
  pub data Handled (a : Arrival P) (rt : Runtime P) : Runtime P → Type 0 where
    passed_over :
        (guild : ℕ)
        → a.guild ≡ some guild
        → length rt.jobs < 128
        → a.kind ≡ other_kind
        → Handled a rt rt
    completes :
        (guild : ℕ)
        → a.guild ≡ some guild
        → length rt.jobs < 128
        → a.kind ≡ autocomplete
        → Handled a rt (spawn (autocompletes a.interaction.id) rt)
    refused :
        (reason : Text) {qt : Runtime P}
        → Refused a rt reason
        → Rejected a.interaction.id reason rt qt
        → Handled a rt qt
    delivered :
        (guild : ℕ) {qt : Runtime P}
        → Admitted a rt guild
        → has_room (mailbox_of guild rt) ≡ true
        → Delivered a guild rt qt
        → Handled a rt qt
