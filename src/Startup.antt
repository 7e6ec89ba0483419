-- ===== src/Startup.antt =====
-- The start of the program: the arguments and the environment of src/main.rs, and the settings of the
-- embedded backend in src/backend.rs.
pub mod Precedence
mod Examples
use raydio.Prelude.{
  ℕ, ◌*◌, ◌≤◌, Bool, true, false, not, ◌&&◌, ◌||◌, Option, none, some, List, [], ◌∷◌, Text, codes,
  text_eq, leb, ltb, ◌==◌, if◌then◌else◌, length, parse_unsigned, u64_max,
}
use raydio.Prelude.Results.{Result, ok, err}
use raydio.Discord.{get_option, set_option}
use raydio.Config.{Config, ConfigError, from_env}

-- `runtime_workers`; its error is a constant text.
unfoldable pub runtime_workers : Option Text → Option ℕ
runtime_workers none = some 2
runtime_workers (some value) =
    if text_eq value (codes "2") then some 2 else if text_eq value (codes "1") then some 1 else none

-- What the arguments ask for.
pub data Task : Type 0 where
  checks probes prints_version prints_help needs_path unknown_argument : Task
  serves : Bool → Text → Task

pub record Options : Type 0 where
  pub testbot : Bool
  pub probe : Bool
  pub check : Bool
  pub env_file : Text

abbrev pub defaults : Options
defaults = record { testbot = false; probe = false; check = false; env_file = codes ".env" }

abbrev pub task_of : Options → Task
task_of o = if o.check then checks else if o.probe then probes else serves o.testbot o.env_file

-- The loop over the arguments.
unfoldable pub read_arguments : Options → List Text → Task
read_arguments o [] = task_of o
read_arguments o (a ∷ []) =
    if text_eq a (codes "--testbot")
    then task_of (record o { testbot = true })
    else if text_eq a (codes "--probe-backend")
    then task_of (record o { probe = true })
    else if text_eq a (codes "--check")
    then task_of (record o { check = true })
    else if text_eq a (codes "--version") || text_eq a (codes "-V")
    then prints_version
    else if text_eq a (codes "--env-file")
    then needs_path
    else if text_eq a (codes "--help") || text_eq a (codes "-h")
    then prints_help
    else unknown_argument
read_arguments o (a ∷ b ∷ rest) =
    let with_testbot = read_arguments (record o { testbot = true }) (b ∷ rest) in
    let with_probe = read_arguments (record o { probe = true }) (b ∷ rest) in
    let with_check = read_arguments (record o { check = true }) (b ∷ rest) in
    let with_file = read_arguments (record o { env_file = b }) rest in
    if text_eq a (codes "--testbot")
    then with_testbot
    else if text_eq a (codes "--probe-backend")
    then with_probe
    else if text_eq a (codes "--check")
    then with_check
    else if text_eq a (codes "--version") || text_eq a (codes "-V")
    then prints_version
    else if text_eq a (codes "--env-file")
    then with_file
    else if text_eq a (codes "--help") || text_eq a (codes "-h")
    then prints_help
    else unknown_argument

-- `values.extend(…)`: a later value replaces an earlier one.
unfoldable pub extend : List (Text × Text) → List (Text × Text) → List (Text × Text)
unfolding set_option
extend values [] = values
extend values ((key, value) ∷ rest) = extend (set_option key value values) rest

-- The configuration from the environment file and the variables of the process.
unfoldable pub configure :
    List (Text × Text) → List (Text × Text) → Bool → Result Config ConfigError
unfolding extend from_env
configure file process testbot = from_env (extend (extend [] file) process) testbot

-- The filter level of the log.
unfoldable pub filter_level : Text → Text
filter_level level =
    if text_eq level (codes "silent")
    then codes "off"
    else if text_eq level (codes "fatal")
    then codes "error"
    else level

-- `progressive_buffer_bytes` of src/backend.rs; its error is a constant text.
unfoldable pub progressive_buffer_bytes : Option Text → Option ℕ
progressive_buffer_bytes value =
    elim (parse_unsigned u64_max (elim value [ none ↦ codes "256" | some s ↦ s ])) [
      | none ↦ none
      | some kib ↦ if kib == 0 || (leb 16 kib && leb kib 1024) then some (kib * 1024) else none
    ]
