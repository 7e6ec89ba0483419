-- ===== src/Voice/Access.antt =====
-- `Guild::caller_channel` and `Guild::access` of src/voice.rs. An error is a constructor, and
-- `message` is the text that the code returns.
use raydio.Prelude.{
  ℕ, Bool, true, false, not, ◌&&◌, Option, none, some, List, [], ◌∷◌, ◌++◌, Text, codes, ltb, leb,
  ◌==◌, if◌then◌else◌, is_some, length, keep, contains_key, get, values,
}
use raydio.Prelude.Results.{Result, ok, err, ◌>>=◌, ok_or, map_err}
use raydio.Voice.Permissions.{Bitflags, ChannelAccess, ChannelKind, guild_voice, permissions}
use raydio.Voice.{Guild, Voice}

pub data Missing : Type 0 where
  missing_view missing_connect missing_speak : Missing

pub data AccessError : Type 0 where
  not_in_voice not_normal_voice voice_changed not_in_voice_for_play : AccessError
  membership_unknown channel_full : AccessError
  missing_permissions : List Missing → AccessError
  -- The panic of `self.channels[&channel]`.
  no_such_channel : AccessError
  -- Messages of `Shared::access` and of the session.
  not_loaded : AccessError

abbrev missing_name : Missing → Text
missing_name missing_view = codes "View Channel"
missing_name missing_connect = codes "Connect"
missing_name missing_speak = codes "Speak"

-- `join(", ")`
abbrev joined : List Missing → Text
joined [] = []
joined (m ∷ []) = missing_name m
joined (m ∷ n ∷ ms) = missing_name m ++ codes ", " ++ joined (n ∷ ms)

unfoldable pub message : AccessError → Text
message not_in_voice = codes "Join a voice channel first."
message not_normal_voice = codes "Stage channels are not supported. Join a normal voice channel."
message voice_changed = codes "Your voice channel changed before the song could be queued."
message not_in_voice_for_play = codes "Join a voice channel before using `/play`."
message membership_unknown =
    codes "Discord has not finished loading the bot's server membership. Try again shortly."
message channel_full = codes "That voice channel is full, so I cannot join it."
message (missing_permissions ms) =
    codes "I need these permissions in your voice channel: " ++ joined ms ++ codes "."
message no_such_channel = []
message not_loaded = codes "Raydio commands are available only in a loaded server."

abbrev is_guild_voice : ChannelKind → Bool
is_guild_voice guild_voice = true
is_guild_voice _ = false

abbrev pub is_normal_voice : {P : Type 0} → Option (ChannelAccess P) → Bool
is_normal_voice none = false
is_normal_voice (some c) = is_guild_voice c.kind

abbrev mismatches : Option ℕ → ℕ → Bool
mismatches none channel = false
mismatches (some id) channel = not (id == channel)

-- Whether the bot's own voice entry is not in the channel.
abbrev is_elsewhere : Option Voice → ℕ → Bool
is_elsewhere none channel = true
is_elsewhere (some v) channel = not (v.channel == channel)

module _ {P : Type 0} where
  unfoldable pub caller_channel : Guild P → ℕ → Result ℕ AccessError
  caller_channel g caller = elim (get caller g.voices) [
    | none ↦ err not_in_voice
    | some v ↦
        if is_normal_voice (get v.channel g.channels) then ok v.channel else err not_normal_voice
  ]

  -- The error of `caller_channel` as `access` reports it.
  unfoldable pub caller_error : Guild P → ℕ → Option ℕ → AccessError → AccessError
  caller_error g caller intended e =
      if is_some intended
      then voice_changed
      else if not (contains_key caller g.voices)
      then not_in_voice_for_play
      else e

  unfoldable pub occupants : Guild P → ℕ → ℕ
  occupants g channel = length (keep (λ v. v.channel == channel) (values g.voices))

  abbrev pub limit_of : ChannelAccess P → ℕ
  limit_of c = elim c.user_limit [ none ↦ 0 | some n ↦ n ]

  -- The test for a full channel.
  unfoldable pub is_full : Guild P → ℕ → ℕ → ChannelAccess P → Bool
  unfolding occupants
  is_full g bot channel c =
      ltb 0 (limit_of c)
      && leb (limit_of c) (occupants g channel)
      && is_elsewhere (get bot g.voices) channel

  module _ (b : Bitflags P) where
    -- The permissions that are missing, in the order of the code's array.
    unfoldable pub missing_of : P → List Missing
    missing_of p =
        (if b.contains p b.view_channel then [] else missing_view ∷ [])
        ++ ((if b.contains p b.connect then [] else missing_connect ∷ [])
            ++ (if b.contains p b.speak then [] else missing_speak ∷ []))

    -- `access` from the look-up of the channel on.
    unfoldable pub admit : Guild P → ℕ → ℕ → ℕ → List ℕ → Result ℕ AccessError
    unfolding missing_of is_full
    admit g guild bot channel roles = elim (get channel g.channels) [
      | none ↦ err no_such_channel
      | some c ↦ elim (missing_of (permissions b guild bot g.owner roles g.roles c)) [
        | [] ↦ if is_full g bot channel c then err channel_full else ok channel
        | m ∷ ms ↦ err (missing_permissions (m ∷ ms))
      ]
    ]

    unfoldable pub access : Guild P → ℕ → ℕ → ℕ → Option ℕ → Result ℕ AccessError
    unfolding caller_channel caller_error admit
    access g guild caller bot intended = do
      channel ← map_err (caller_error g caller intended) (caller_channel g caller)
      roles ←
          (if mismatches intended channel
            then err voice_changed
            else ok_or g.bot_roles membership_unknown)
      admit g guild bot channel roles
