-- ===== src/Runtime/Examples.antt =====
-- Runs of src/runtime.rs: guild 1 is loaded, and a listener plays there.
use raydio.Prelude.{
  ◌≡◌, refl, Bool, true, false, none, some, List, [], ◌∷◌, Text, codes, arith, modify, text_eq,
  decimal, ap, Option, if◌then◌else◌, is_ascii_alphanumeric, trim, get, insert,
}
use raydio.Prelude.Results.{ok}
use raydio.Discord.{Request, user, Interaction, InteractionData, CommandOption, OptionValue}
use raydio.Voice.{Guild, default_guild}
use raydio.Voice.Permissions
use raydio.Voice.Permissions.{Bitflags, guild_voice}
use raydio.Views.Choices.{Choice}
use raydio.Runtime.Choices.{Shared, Search, autocomplete_choices}
use raydio.Runtime.Suggestions.{Answered, autocomplete_choices-Answered}
use raydio.Voice
use raydio.Node
use raydio.Config.{Limits}
use raydio.Urls
use raydio.Discord
use raydio.Urls.{Urls, valid_identifier}
use raydio.Resolver.{Response, Resolution, RawTrack, track_of}
use raydio.Runtime.{Runtime, Arrival, command, acknowledges, start, interact}
use raydio.Runtime.Pump.{
  Step, gateway_event, cached, interaction_create, node_event, presence_ticks, run,
}
use raydio.Runtime.Tables.{IsValid}
use raydio.Runtime.Bounds.{run-start-IsValid}
use raydio.Runtime.Outcomes.{Handled}
use raydio.Runtime.Routes.{interact-Handled}
use raydio.Runtime.Resolve.{resolve, Accepted, resolve-Accepted}

abbrev play : Arrival Bool
play = record {
  interaction = record {
    id = 50;
    interaction_data = some (InteractionData.application_command (codes "play") []);
    author = none;
    nick = none;
    channel = none;
    message = none;
  };
  guild = some 1;
  kind = command;
  permissions = none;
}

-- The gateway says ready, the guild comes, a listener plays, and the music service connects.
abbrev schedule : List (Step Bool)
schedule =
    gateway_event none (cached raydio.Voice.Event.ready)
    ∷ gateway_event (some 40) (
        cached (
          raydio.Voice.Event.guild_available (record {
            id = 1;
            owner_id = 7;
            channels = [];
            roles = [];
            members = [];
            voice_states = [];
          })))
    ∷ gateway_event none (interaction_create play)
    ∷ node_event raydio.Node.Event.connected
    ∷ presence_ticks 30000 true
    ∷ []

manages : Bool → Bool
manages p = p

abbrev played : Runtime Bool
played = (run 9 manages schedule (start 25000)).0

run-start-IsValid_example : IsValid played
run-start-IsValid_example = run-start-IsValid 9 manages 25000 schedule

played_jobs : played.jobs ≡ acknowledges 50 ∷ []
unfolding run get insert raydio.Voice.update interact text_eq raydio.Discord.new
    raydio.Voice.new_guild decimal
played_jobs = refl

interact-Handled_example : Handled manages play played (interact manages play played)
interact-Handled_example = interact-Handled manages play played

-- No text is a link, and the music service finds one song.
abbrev no_links : Urls
no_links = record { parse = λ t. none; append_pair = λ base key value. base }

abbrev limits : Limits
limits = record { playlists = 10; queue = 20; max_duration_ms = 600000; allow_streams = false }

abbrev song : RawTrack
song = record {
  encoded = codes "e";
  info = record {
    identifier = codes "id";
    title = codes "t";
    author = codes "a";
    length_ms = 1000;
    is_stream = false;
    uri = none;
    source_name = codes "youtube";
  };
}

abbrev resolution : Resolution
resolution = record { tracks = track_of song ∷ []; playlist = none; rejected = 0; omitted = 0 }

-- Only the second search answers.
abbrev answers : Text → Option Response
answers t =
    if text_eq t (codes "ytsearch:x") then some (Response.found (some (some song ∷ []))) else none

resolve_run :
    resolve no_links answers limits (codes " x ") 5 10
    ≡ (codes "ytmsearch:x" ∷ codes "ytsearch:x" ∷ [], ok resolution)
unfolding resolve trim text_eq raydio.Urls.classify valid_identifier is_ascii_alphanumeric
resolve_run = refl

resolve-Accepted_example : Accepted limits 5 resolution
resolve-Accepted_example =
    resolve-Accepted no_links answers limits (codes " x ") 5 10 resolution
      (ap (λ p. p.1) resolve_run)

abbrev no_flags : Bitflags Bool
no_flags = record {
  empty = false;
  all = true;
  union = λ x y. true;
  intersection = λ x y. x;
  complement = λ x. x;
  contains = λ x y. x;
  view_channel = true;
  connect = true;
  speak = true;
  administrator = true;
}

-- Caller 2 is in channel 3 of guild 1, and the bot's roles are not known yet.
abbrev hall : Guild Bool
hall = record default_guild {
  available = true;
  channels = (3, record { kind = guild_voice; user_limit = none; permission_overwrites = [] }) ∷ [];
  roles = (1, true) ∷ [];
  voices = (2, record { channel = 3; bot = false; session = [] }) ∷ [];
}

abbrev cached_song : Choice
cached_song = record { name = codes "Stay"; value = codes "https://www.youtube.com/watch?v=s" }

abbrev shared : Shared Bool
shared = record {
  cache = record { guilds = (1, hall) ∷ []; ready = true };
  autocomplete = record { key = codes "1:3:stay"; at = 1000; choices = cached_song ∷ [] } ∷ [];
}

abbrev looks : Search Bool
looks = record {
  flags = no_flags;
  config = record {
    token = [];
    log_level = [];
    volume = 50;
    idle_seconds = 60;
    alone_seconds = 60;
    pending = 5;
    limits = limits;
  };
  bot = 9;
  urls = no_links;
  answers = answers;
  lowercase = λ t. t;
  node_ready = true;
  membership = some (record { user_id = 9; user_bot = true; roles = [] });
  first_permit = true;
  second_permit = false;
  now = 2000;
}

abbrev typing : Request
typing = record {
  interaction = record play.interaction {
    author = some (record { id = 2; name = []; global_name = none });
  };
  name = codes "play";
  options = (codes "request", codes "stay ") ∷ [];
  custom_id = none;
}

typing_choices : (autocomplete_choices looks (some 1) typing shared).1 ≡ cached_song ∷ []
unfolding autocomplete_choices trim raydio.Discord.option text_eq get default_guild user modify
    raydio.Voice.Permissions.permissions decimal
typing_choices = refl

autocomplete_choices-Answered_example :
    Answered looks 1 (user typing) (autocomplete_choices looks (some 1) typing shared)
autocomplete_choices-Answered_example =
    autocomplete_choices-Answered looks 1 typing shared (omega arith)
