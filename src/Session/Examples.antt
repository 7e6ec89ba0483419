-- ===== src/Session/Examples.antt =====
-- Runs of a session of src/session.rs in a small environment: a clock that counts effects, a music
-- service that refuses nothing, and views that are texts.
use mathlib.Core.List.Perm
use raydio.Prelude.{
  ℕ, ◌-◌, ◌≡◌, refl, Bool, true, false, none, some, [], ◌∷◌, ◌++◌, map, Text, codes, arith, length,
  take, text_eq, get, List,
}
use raydio.Prelude.Results.{is_ok, err}
use raydio.Config.{Config}
use raydio.Playback.{Track, default}
use raydio.Voice.{Guild, default_guild}
use raydio.Voice.Access.{caller_channel}
use raydio.Voice.Permissions.{Bitflags, guild_voice}
use raydio.Discord.{Request, user, option}
use raydio.Session.{Session, Env, EditOutcome, Pending, new}
use raydio.Session.Play.{start_current}
use raydio.Session.Cleanup.{cleanup, waiting}
use raydio.Session.Monitor.{Payload, EventKind, Reason, backend, check_playback}
use raydio.Session.Control.{control}
use raydio.Session.Run.{Loaded, Turn, interacts, loads, ticks, finish_load, run}
use raydio.Session.Invariant
use raydio.Session.Invariant.Runs.{run-new-IsValid}
use raydio.Session.Starting.{Settled, start_current-Settled}
use raydio.Session.Ending.{Ended, cancellation, cleanup-Ended, cleanup-responses}
use raydio.Session.Stale.{asked, finish_load-asked-cleanup}
use raydio.Resolver.{unavailable}
use raydio.Session.Authority.{control-refuses}
use raydio.Session.Generations.{backend-backend}
use raydio.Session.Watchdog.{check_playback-proven}

abbrev pub no_flags : Bitflags Bool
no_flags = record {
  empty = false;
  all = true;
  union = λ x y. true;
  intersection = λ x y. x;
  complement = λ x. x;
  contains = λ x y. x;
  view_channel = true;
  connect = true;
  speak = true;
  administrator = true;
}

-- Guild 1: the bot, 9, plays in channel 3, and caller 8 is in channel 4.
abbrev pub club : Guild Bool
club = record default_guild {
  available = true;
  owner = 7;
  channels =
      (3, record { kind = guild_voice; user_limit = none; permission_overwrites = [] })
      ∷ (4, record { kind = guild_voice; user_limit = none; permission_overwrites = [] })
      ∷ [];
  bot_roles = some [];
  voices =
      (8, record { channel = 4; bot = false; session = [] })
      ∷ (9, record { channel = 3; bot = true; session = [] })
      ∷ [];
}

abbrev pub settings : Config
settings = record {
  token = codes "t";
  log_level = codes "info";
  volume = 70;
  idle_seconds = 120;
  alone_seconds = 120;
  pending = 10;
  limits = record {
    playlists = 250;
    queue = 1000;
    max_duration_ms = 10800000;
    allow_streams = false;
  };
}

abbrev place : Env Bool Text
place = record {
  config = settings;
  bot = 9;
  flags = no_flags;
  now = λ log. length log;
  ready = λ log. true;
  accepts = λ log. true;
  guild = λ log. some club;
  obtained = λ log. none;
  message = λ log. none;
  outcome = λ log. EditOutcome.delivered;
  random_token = λ n. n ∷ [];
  player_view = λ q token paused volume position. token;
  queue_view = λ q token page paused volume position. (token, true);
  text_view = λ text. text;
  with_content = λ content view. view;
  same_view = text_eq;
  info_view = λ text log. text;
}

abbrev pub song : Track
song = record {
  encoded = codes "a";
  identifier = codes "a";
  title = codes "A";
  author = codes "B";
  duration_ms = 60000;
  stream = false;
  uri = none;
  requester_id = codes "8";
  requested_by = codes "Listener";
}

abbrev request : Text → Request
request name = record {
  interaction = record {
    id = 5;
    interaction_data = none;
    author = some (record { id = 8; name = codes "u"; global_name = none });
    nick = none;
    channel = none;
    message = none;
  };
  name = name;
  options = [];
  custom_id = none;
}

abbrev waits : Pending
waits = record { request = request (codes "play"); channel = 3; epoch = 0; sequence = 1 }

-- The bot plays a song in channel 3, and one request waits.
abbrev playing : Session Text
playing = record (new place 1) {
  channel = some 3;
  queue = record default { current = some song };
  pending = waits ∷ [];
}

-- The request is being resolved.
abbrev loading_song : Session Text
loading_song = record playing { pending = []; loading = some waits; loaders = 1 ∷ []; sequence = 1 }

abbrev end_of_song : Payload
end_of_song = record {
  is_player_update = false;
  kind = EventKind.track_end;
  reason = Reason.finished;
  track_generation = some 0;
  crust_generation = none;
  terminal_generation = none;
  terminal_reason = Reason.other_reason;
  track_is_null = false;
  paused = false;
  position = none;
  connected = true;
}

-- A play request, a failed load, a button and a tick.
abbrev schedule : List (ℕ × Turn Text)
schedule =
    (0, interacts (request (codes "play")) true)
    ∷ (1, loads Loaded.panicked)
    ∷ (2, interacts (request (codes "shuffle")) true)
    ∷ (3, ticks)
    ∷ []

run-new-IsValid_example :
    Invariant.IsValid 1000
      (run place (λ seed xs. xs) (λ log. some end_of_song) schedule (new place 1))
run-new-IsValid_example =
    run-new-IsValid place (λ seed xs. xs) (λ log. some end_of_song) schedule 1 (ground arith)
      (λ seed xs. Perm.refl xs)

start_current-Settled_example :
    Settled place (start_current place playing).0 (start_current place playing).1
start_current-Settled_example = start_current-Settled place playing

cleanup-Ended_example : Ended place playing (cleanup place (some (codes "Bye.")) playing)
cleanup-Ended_example = cleanup-Ended place (some (codes "Bye.")) playing

cleanup-responses_example :
    (cleanup place none playing).responses
    ≡ playing.responses
      ++ take (128 - length playing.responses) (map cancellation (waiting playing))
unfolding new
cleanup-responses_example = cleanup-responses place none playing (ground arith)

finish_load-asked-cleanup_example :
    finish_load place
      (Loaded.resolved 1 (err unavailable))
      (asked place (request (codes "play") ∷ []) (cleanup place none loading_song))
    ≡ asked place (request (codes "play") ∷ []) (cleanup place none loading_song)
finish_load-asked-cleanup_example =
    finish_load-asked-cleanup place 1 (err unavailable) none (request (codes "play") ∷ [])
      loading_song (omega arith) (omega arith)

control-refuses_example :
    ((control place (λ xs. xs) (request (codes "stop")) playing).0 ≡ playing)
    × (is_ok (control place (λ xs. xs) (request (codes "stop")) playing).1 ≡ false)
unfolding user get caller_channel option text_eq
control-refuses_example =
    control-refuses place (λ xs. xs) (request (codes "stop")) 3 club playing refl refl refl
      (ground arith)

backend-backend_example :
    backend place end_of_song (backend place end_of_song playing)
    ≡ backend place end_of_song playing
unfolding new
backend-backend_example = backend-backend place end_of_song playing refl (ground arith)

-- The end of the song is due.
abbrev overdue : Session Text
overdue = record playing { end_deadline = some 0 }

check_playback-proven_example :
    (check_playback place (λ log. some end_of_song) overdue).events.finished
    ≡ overdue.events.finished
check_playback-proven_example = check_playback-proven place (λ log. some end_of_song) overdue refl
