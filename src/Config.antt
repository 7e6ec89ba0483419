-- ===== src/Config.antt =====
-- `Config` and `from_env` of src/config.rs, and `Limits` of src/resolver.rs. The environment is an
-- association list.
pub mod Bounds
mod Examples
use raydio.Prelude.{
  ℕ, ◌+◌, ◌*◌, ◌/◌, ◌%◌, ◌≤◌, Bool, true, false, not, ◌&&◌, ◌||◌, Option, none, some, List, [], ◌∷◌,
  Text, codes, text_eq, if◌then◌else◌, ltb, ◌==◌, length, any, trim, is_control, all_digits,
  parse_unsigned, u64_max,
}
use raydio.Prelude.Results.{Result, ok, err, ◌>>=◌}
use raydio.Discord.{get_option}

pub record Limits : Type 0 where
  pub playlists : ℕ
  pub queue : ℕ
  pub max_duration_ms : ℕ
  pub allow_streams : Bool

pub record Config : Type 0 where
  pub token : Text
  pub log_level : Text
  pub volume : ℕ
  pub idle_seconds : ℕ
  pub alone_seconds : ℕ
  pub pending : ℕ
  pub limits : Limits

-- The errors, with the name of the variable where it varies.
pub data ConfigError : Type 0 where
  no_token : Text → ConfigError
  invalid_log_level not_boolean : ConfigError
  not_decimal out_of_range : Text → ConfigError
  not_between : Text → ℕ → ℕ → ConfigError

-- The largest integer that a double holds exactly, `max` in the code.
abbrev pub max_integer : ℕ
max_integer = 9007199254740991

abbrev log_levels : List Text
log_levels =
    codes "fatal"
    ∷ codes "error"
    ∷ codes "warn"
    ∷ codes "info"
    ∷ codes "debug"
    ∷ codes "trace"
    ∷ codes "silent"
    ∷ []

abbrev is_token : Text → Bool
is_token value = ltb 0 (length value) && text_eq (trim value) value && not (any is_control value)

abbrev pub check_token : Text → Option Text → Result Text ConfigError
check_token name none = err (no_token name)
check_token name (some value) = if is_token value then ok value else err (no_token name)

abbrev pub or_info : Option Text → Text
or_info none = codes "info"
or_info (some level) = level

abbrev pub check_level : Text → Result Text ConfigError
check_level level =
    if any (λ l. text_eq l level) log_levels then ok level else err invalid_log_level

abbrev in_range : Text → ℕ → ℕ → Option ℕ → Result ℕ ConfigError
in_range name low high none = err (out_of_range name)
in_range name low high (some n) =
    if ltb n low || ltb high n then err (not_between name low high) else ok n

abbrev read_integer : Text → ℕ → ℕ → Text → Result ℕ ConfigError
read_integer name low high raw =
    if length raw == 0 || not (all_digits raw)
    then err (not_decimal name)
    else in_range name low high (parse_unsigned u64_max raw)

abbrev integer_of : Text → ℕ → ℕ → ℕ → Option Text → Result ℕ ConfigError
integer_of name otherwise low high none = ok otherwise
integer_of name otherwise low high (some raw) = read_integer name low high (trim raw)

abbrev pub boolean_of : Option Text → Result Bool ConfigError
boolean_of none = ok false
boolean_of (some t) =
    if text_eq t (codes "false")
    then ok false
    else if text_eq t (codes "true")
    then ok true
    else err not_boolean

-- The closure `integer`.
unfoldable pub integer : List (Text × Text) → Text → ℕ → ℕ → ℕ → Result ℕ ConfigError
integer env name otherwise low high = integer_of name otherwise low high (get_option name env)

-- `from_env`; `as u16` is the remainder.
unfoldable pub from_env : List (Text × Text) → Bool → Result Config ConfigError
unfolding integer
from_env env testbot = do
  let name = if testbot then codes "DISCORD_TOKEN_TESTBOT" else codes "DISCORD_TOKEN"
  token ← check_token name (get_option name env)
  log_level ← check_level (or_info (get_option (codes "LOG_LEVEL") env))
  allow_streams ← boolean_of (get_option (codes "ALLOW_LIVESTREAMS") env)
  hours ← integer env (codes "MAX_TRACK_DURATION_HOURS") 3 1 (max_integer / 3600000)
  volume ← integer env (codes "DEFAULT_VOLUME") 70 0 100
  idle_seconds ← integer env (codes "IDLE_DISCONNECT_SECONDS") 120 1 (max_integer / 1000)
  alone_seconds ← integer env (codes "ALONE_DISCONNECT_SECONDS") 120 1 (max_integer / 1000)
  pending ← integer env (codes "MAX_PENDING_PLAY_REQUESTS") 10 1 max_integer
  playlists ← integer env (codes "MAX_PLAYLIST_TRACKS") 250 1 max_integer
  queue ← integer env (codes "MAX_QUEUE_TRACKS") 1000 1 max_integer
  ok (record {
    token = token;
    log_level = log_level;
    volume = volume % 65536;
    idle_seconds = idle_seconds;
    alone_seconds = alone_seconds;
    pending = pending;
    limits = record {
      playlists = playlists;
      queue = queue;
      max_duration_ms = hours * 3600000;
      allow_streams = allow_streams;
    };
  })
