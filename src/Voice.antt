-- ===== src/Voice.antt =====
-- src/voice.rs: the facts about guilds that voice access needs, kept from gateway events, and the
-- admission of a caller. Twilight's `Permissions` is the parameter `P` with its operations.
pub mod Permissions
pub mod Access
pub mod Grants
pub mod Bounds
pub mod Reports
pub mod Admission
mod Examples
use raydio.Prelude.{
  ℕ, ◌+◌, ◌≤◌, ◌<◌, Bool, true, false, not, ◌&&◌, ◌||◌, Option, none, some, List, [], ◌∷◌, ◌++◌,
  map, Text, codes, ltb, leb, ◌==◌, if◌then◌else◌, is_some, is_none, length, keep, any, find, Map,
  get, insert, delete, contains_key, values, collect_into, modify,
}
use Permissions.{Bitflags, Overwrite, ChannelAccess, ChannelKind, permissions}

abbrev pub max_guilds : ℕ
max_guilds = 1000

abbrev pub max_voice_members : ℕ
max_voice_members = 10000

pub record Activity : Type 0 where
  pub channel : Option ℕ
  pub queue_count : ℕ
  pub pending : ℕ
  pub title : Option Text

pub record Voice : Type 0 where
  pub channel : ℕ
  pub bot : Bool
  pub session : Text

pub record Server : Type 0 where
  pub token : Text
  pub endpoint : Text

pub record Guild (P : Type 0) : Type 0 where
  pub available : Bool
  pub owner : ℕ
  pub channels : Map (ChannelAccess P)
  pub roles : Map P
  pub bot_roles : Option (List ℕ)
  pub voices : Map Voice
  pub server : Option Server
  pub activity : Activity

pub record Cache (P : Type 0) : Type 0 where
  pub guilds : Map (Guild P)
  pub ready : Bool

-- The parts of Twilight's payloads that the code reads.
pub record Channel (P : Type 0) : Type 0 where
  pub id : ℕ
  pub kind : ChannelKind
  pub user_limit : Option ℕ
  pub permission_overwrites : Option (List (Overwrite P))

pub record Member : Type 0 where
  pub user_id : ℕ
  pub user_bot : Bool
  pub roles : List ℕ

pub record VoiceState : Type 0 where
  pub guild_id : Option ℕ
  pub user_id : ℕ
  pub channel_id : Option ℕ
  pub member : Option Member
  pub session_id : Text

pub record GuildPayload (P : Type 0) : Type 0 where
  pub id : ℕ
  pub owner_id : ℕ
  pub channels : List (Channel P)
  pub roles : List (ℕ × P)
  pub members : List Member
  pub voice_states : List VoiceState

pub data Event (P : Type 0) : Type 0 where
  ready resumed gateway_close : Event P
  guild_available : GuildPayload P → Event P
  guild_unavailable : ℕ → Event P
  guild_delete : ℕ → Option Bool → Event P
  guild_update : ℕ → ℕ → Event P
  channel_create channel_update channel_delete : Option ℕ → Channel P → Event P
  role_create role_update : ℕ → ℕ → P → Event P
  role_delete : ℕ → ℕ → Event P
  member_update : ℕ → Member → Event P
  voice_state_update : VoiceState → Event P
  voice_server_update : ℕ → Option Text → Text → Event P
  other : Event P

abbrev or_default : Option Bool → Bool
or_default none = false
or_default (some b) = b

module _ {P : Type 0} where
  -- `ChannelAccess::from`
  unfoldable pub channel_access : Channel P → ChannelAccess P
  channel_access c = record {
    kind = c.kind;
    user_limit = c.user_limit;
    permission_overwrites = elim c.permission_overwrites [ none ↦ [] | some os ↦ os ];
  }

  -- `Guild::default()`
  unfoldable pub default_guild : Guild P
  default_guild = record {
    available = false;
    owner = 0;
    channels = [];
    roles = [];
    bot_roles = none;
    voices = [];
    server = none;
    activity = record { channel = none; queue_count = 0; pending = 0; title = none };
  }

  -- `Guild::member`
  unfoldable pub member : Guild P → Member → Guild P
  member g m = record g { bot_roles = some m.roles }

  -- Whether the voice entry that `voice` writes is a bot's.
  unfoldable pub is_bot_voice : Guild P → VoiceState → ℕ → Bool
  is_bot_voice g v bot =
      (elim v.member [
        | some m ↦ m.user_bot
        | none ↦ elim (get v.user_id g.voices) [ none ↦ false | some w ↦ w.bot ]
      ])
      || v.user_id == bot

  unfoldable pub voice_entry : Guild P → VoiceState → ℕ → ℕ → Voice
  unfolding is_bot_voice
  voice_entry g v bot channel = record {
    channel = channel;
    bot = is_bot_voice g v bot;
    session = if v.user_id == bot then v.session_id else [];
  }

  -- The part of `voice` after the bot's own membership is noted.
  unfoldable pub place : Guild P → VoiceState → ℕ → Guild P
  unfolding voice_entry
  place g v bot = elim v.channel_id [
    | some channel ↦
        if ltb (length g.voices) max_voice_members || contains_key v.user_id g.voices
        then record g { voices = insert v.user_id (voice_entry g v bot channel) g.voices }
        else g
    | none ↦
        let left = record g { voices = delete v.user_id g.voices } in
        if v.user_id == bot then record left { server = none } else left
  ]

  -- `Guild::voice`
  unfoldable pub voice : ℕ → Guild P → VoiceState → Guild P
  unfolding place member
  voice bot g v =
      let noted : Guild P = elim v.member [
        | none ↦ g
        | some m ↦ if v.user_id == bot then member g m else g
      ] in
      place noted v bot

  -- The loop over the voice states of a new guild.
  unfoldable pub voices_of : ℕ → Guild P → List VoiceState → Guild P
  voices_of bot g [] = g
  voices_of bot g (v ∷ vs) = voices_of bot (voice bot g v) vs

  unfoldable pub new_guild : GuildPayload P → ℕ → Guild P
  unfolding default_guild channel_access voices_of
  new_guild g bot =
      let listed = record default_guild {
        available = true;
        owner = g.owner_id;
        channels = collect_into [] (map (λ c. (c.id, channel_access c)) g.channels);
        roles = collect_into [] g.roles;
        bot_roles = elim (find (λ m. m.user_id == bot) g.members) [
          | none ↦ none
          | some m ↦ some m.roles
        ];
      } in
      voices_of bot listed g.voice_states

  unfoldable pub change : Cache P → ℕ → (Guild P → Guild P) → Cache P
  change c id f = record c { guilds = modify id f c.guilds }

  unfoldable pub change_listed : Cache P → Option ℕ → (Guild P → Guild P) → Cache P
  unfolding change
  change_listed c none f = c
  change_listed c (some id) f = change c id f

  -- `Cache::update`: the new cache, and the guild whose voice or session facts changed.
  unfoldable pub update : ℕ → Cache P → Event P → Cache P × Option ℕ
  unfolding change change_listed channel_access member
  update bot c ready = (record c { ready = true }, none)
  update bot c resumed = (record c { ready = true }, none)
  update bot c gateway_close = (record c { ready = false }, none)
  update bot c (guild_available g) =
      if leb max_guilds (length c.guilds) && not (contains_key g.id c.guilds)
      then (c, none)
      else (record c { guilds = insert g.id (new_guild g bot) c.guilds }, some g.id)
  update bot c (guild_unavailable id) = (change c id (λ g. record g { available = false }), none)
  update bot c (guild_delete id unavailable) = (
    if or_default unavailable
        then change c id (λ g. record g { available = false })
        else record c { guilds = delete id c.guilds },
    some id,
  )
  update bot c (guild_update id owner) = (change c id (λ g. record g { owner = owner }), none)
  update bot c (channel_create guild ch) = (
    change_listed c guild
        (λ g. record g { channels = insert ch.id (channel_access ch) g.channels }),
    none,
  )
  update bot c (channel_update guild ch) = (
    change_listed c guild
        (λ g. record g { channels = insert ch.id (channel_access ch) g.channels }),
    none,
  )
  update bot c (channel_delete guild ch) =
      (change_listed c guild (λ g. record g { channels = delete ch.id g.channels }), none)
  update bot c (role_create id role p) =
      (change c id (λ g. record g { roles = insert role p g.roles }), none)
  update bot c (role_update id role p) =
      (change c id (λ g. record g { roles = insert role p g.roles }), none)
  update bot c (role_delete id role) =
      (change c id (λ g. record g { roles = delete role g.roles }), none)
  update bot c (member_update id m) =
      (if m.user_id == bot then change c id (λ g. member g m) else c, none)
  update bot c (voice_state_update v) = elim v.guild_id [
    | none ↦ (c, none)
    | some id ↦ (change c id (λ g. voice bot g v), some id)
  ]
  update bot c (voice_server_update id endpoint token) = (
    change c id (λ g. record g {
      server = elim endpoint [
        | none ↦ none
        | some e ↦ some (record { token = token; endpoint = e })
      ];
    }),
    some id,
  )
  update bot c other = (c, none)

  -- `Guild::alone`
  unfoldable pub alone : Guild P → ℕ → Bool
  alone g channel = not (any (λ v. v.channel == channel && not v.bot) (values g.voices))
