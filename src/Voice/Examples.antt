-- ===== src/Voice/Examples.antt =====
-- Runs of src/voice.rs on small inputs, with permissions as four Booleans.
use raydio.Prelude.{
  ◌≡◌, ◌≢◌, refl, Bool, true, false, not, ◌&&◌, ◌||◌, none, some, [], ◌∷◌, codes, arith, ◌==◌, get,
}
use raydio.Prelude.Results.{ok, err}
use raydio.Voice.Permissions.{Bitflags, ChannelAccess, guild_voice, permissions, OverwriteKind}
use raydio.Voice.{Guild, Cache, Event, default_guild, update}
use raydio.Voice.Access.{no_such_channel, access}
use raydio.Voice.Grants.{IsFlag, base_has, layers_grant, permissions-has}
use raydio.Voice.Bounds.{IsValid, replay, replay-IsValid}
use raydio.Voice.Reports.{facts, facts-update}
use raydio.Voice.Admission.{Admitted, access-Admitted, access-listed}

-- View Channel, Connect, Speak and Administrator.
record Flags : Type 0 where
  view_channel : Bool
  connect : Bool
  speak : Bool
  administrator : Bool

abbrev none_set : Flags
none_set = record { view_channel = false; connect = false; speak = false; administrator = false }

abbrev all_set : Flags
all_set = record { view_channel = true; connect = true; speak = true; administrator = true }

abbrev implies : Bool → Bool → Bool
implies x y = not y || x

abbrev bits : Bitflags Flags
bits = record {
  empty = none_set;
  all = all_set;
  union = λ x y. record {
    view_channel = x.view_channel || y.view_channel;
    connect = x.connect || y.connect;
    speak = x.speak || y.speak;
    administrator = x.administrator || y.administrator;
  };
  intersection = λ x y. record {
    view_channel = x.view_channel && y.view_channel;
    connect = x.connect && y.connect;
    speak = x.speak && y.speak;
    administrator = x.administrator && y.administrator;
  };
  complement = λ x. record {
    view_channel = not x.view_channel;
    connect = not x.connect;
    speak = not x.speak;
    administrator = not x.administrator;
  };
  contains = λ x y.
      implies x.view_channel y.view_channel
      && implies x.connect y.connect
      && implies x.speak y.speak
      && implies x.administrator y.administrator;
  view_channel = record none_set { view_channel = true };
  connect = record none_set { connect = true };
  speak = record none_set { speak = true };
  administrator = record none_set { administrator = true };
}

speak-IsFlag : IsFlag bits bits.speak
speak-IsFlag = record {
  in_empty = refl;
  in_all = refl;
  in_union = λ x y. ground arith;
  in_intersection = λ x y. ground arith;
  in_complement = λ x. ground arith;
}

administrator-IsFlag : IsFlag bits bits.administrator
administrator-IsFlag = record {
  in_empty = refl;
  in_all = refl;
  in_union = λ x y. ground arith;
  in_intersection = λ x y. ground arith;
  in_complement = λ x. ground arith;
}

-- A voice channel that denies Speak to everyone and allows it to role 5.
abbrev hall : ChannelAccess Flags
hall = record {
  kind = guild_voice;
  user_limit = some 2;
  permission_overwrites =
      (record { id = 1; kind = OverwriteKind.for_role; allow = none_set; deny = bits.speak })
      ∷ (record { id = 5; kind = OverwriteKind.for_role; allow = bits.speak; deny = none_set })
      ∷ [];
}

-- Guild 1 with the caller 8 in the hall, channel 3; the bot is 9.
abbrev club : Guild Flags
club = record default_guild {
  available = true;
  owner = 7;
  channels = (3, hall) ∷ [];
  roles = (1, record all_set { administrator = false }) ∷ [];
  bot_roles = some (5 ∷ []);
  voices = (8, record { channel = 3; bot = false; session = [] }) ∷ [];
}

abbrev clubs : Cache Flags
clubs = record { guilds = (1, club) ∷ []; ready = true }

clubs-IsValid : IsValid clubs
clubs-IsValid = record {
  guilds_bounded = ground arith;
  each = (record { voices_bounded = ground arith }, tt);
}

-- The bot joins the hall.
abbrev bot_joins : Event Flags
bot_joins = Event.voice_state_update (record {
  guild_id = some 1;
  user_id = 9;
  channel_id = some 3;
  member = none;
  session_id = codes "s";
})

access_run : access bits club 1 8 9 none ≡ ok 3
unfolding access get permissions
access_run = refl

permissions-has_example :
    bits.contains (permissions bits 1 9 7 (5 ∷ []) club.roles hall) bits.speak ≡ (
      9 == 7
      || base_has bits bits.administrator 1 (5 ∷ []) club.roles
      || layers_grant bits bits.speak 1 9
          (5 ∷ [])
          hall.permission_overwrites
          (base_has bits bits.speak 1 (5 ∷ []) club.roles))
permissions-has_example =
    permissions-has bits bits.speak speak-IsFlag administrator-IsFlag 1 9 7 (5 ∷ []) club.roles hall

replay-IsValid_example : IsValid (replay 9 clubs (bot_joins ∷ Event.guild_delete 1 none ∷ []))
replay-IsValid_example =
    replay-IsValid 9 clubs (bot_joins ∷ Event.guild_delete 1 none ∷ []) clubs-IsValid

facts-update_example :
    facts (get 2 (update 9 clubs bot_joins).0.guilds) ≡ facts (get 2 clubs.guilds)
unfolding update
facts-update_example = facts-update 9 clubs bot_joins 2 (ground arith)

access-Admitted_example : Admitted bits club 1 8 9 none 3
access-Admitted_example = access-Admitted bits club 1 8 9 none 3 access_run

access-listed_example : access bits club 1 8 9 none ≢ err no_such_channel
access-listed_example = access-listed bits club 1 8 9 none
