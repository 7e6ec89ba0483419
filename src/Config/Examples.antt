-- ===== src/Config/Examples.antt =====
-- Runs of src/config.rs on small environments.
use raydio.Prelude.{
  ◌≡◌, refl, false, List, [], ◌∷◌, Text, codes, text_eq, trim, is_control, parse_unsigned,
  all_digits,
}
use raydio.Prelude.Results.{ok, err}
use raydio.Discord.{get_option}
use raydio.Config.{Config, ConfigError, from_env}
use raydio.Config.Bounds.{IsValid, from_env-IsValid}

abbrev variables : List (Text × Text)
variables = (codes "DISCORD_TOKEN", codes "t") ∷ (codes "DEFAULT_VOLUME", codes " 40 ") ∷ []

abbrev config : Config
config = record {
  token = codes "t";
  log_level = codes "info";
  volume = 40;
  idle_seconds = 120;
  alone_seconds = 120;
  pending = 10;
  limits = record {
    playlists = 250;
    queue = 1000;
    max_duration_ms = 10800000;
    allow_streams = false;
  };
}

from_env_run : from_env variables false ≡ ok config
unfolding from_env get_option text_eq trim is_control parse_unsigned all_digits
from_env_run = refl

-- A volume above 100 is refused.
from_env_refused :
    from_env
      (((codes "DISCORD_TOKEN", codes "t") ∷ (codes "DEFAULT_VOLUME", codes "101") ∷ []))
      false
    ≡ err (ConfigError.not_between (codes "DEFAULT_VOLUME") 0 100)
unfolding from_env get_option text_eq trim is_control parse_unsigned all_digits
from_env_refused = refl

from_env-IsValid_example : IsValid config
from_env-IsValid_example = from_env-IsValid variables false config from_env_run
