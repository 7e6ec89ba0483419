-- ===== src/Config/Bounds.antt =====
-- What a configuration that is accepted guarantees (src/config.rs).
use raydio.Prelude.{
  ℕ, ◌*◌, ◌/◌, ◌%◌, ◌≤◌, ◌<◌, ◌≡◌, refl, Bool, true, ◌&&◌, List, Text, codes, if◌then◌else◌, arith,
  leb, subst, parse_unsigned, u64_max, trim, Option-cases, inl, inr,
}
use raydio.Prelude.Results.{Result, ok, err, ◌>>=◌}
use raydio.Discord.{get_option}
use raydio.Config.{
  Config, ConfigError, max_integer, integer, from_env, check_token, or_info, check_level,
  boolean_of,
}

-- What the rest of the program relies on.
pub record IsValid (c : Config) : Type 0 where
  pub percentage : c.volume ≤ 100
  pub idle : (0 < c.idle_seconds) × (c.idle_seconds * 1000 ≤ max_integer)
  pub alone : (0 < c.alone_seconds) × (c.alone_seconds * 1000 ≤ max_integer)
  pub pending : (0 < c.pending) × (c.pending ≤ max_integer)
  pub queue : (0 < c.limits.queue) × (c.limits.queue ≤ max_integer)
  pub playlists : (0 < c.limits.playlists) × (c.limits.playlists ≤ max_integer)
  pub duration : (0 < c.limits.max_duration_ms) × (c.limits.max_duration_ms ≤ max_integer)

bind-ok :
    {A B E : Type 0} {b : B} (r : Result A E) (f : A → Result B E)
    → (r >>= f) ≡ ok b
    → (x : A) × (r ≡ ok x) × (f x ≡ ok b)
bind-ok (ok x) f h = (x, refl, h)
bind-ok (err e) f h = absurd (ground arith)

ok-injective : {a b : Config} → ◌≡◌ {A = Result Config ConfigError} (ok a) (ok b) → a ≡ b
ok-injective h = ground arith

integer-range :
    (env : List (Text × Text)) (name : Text) (otherwise low high v : ℕ)
    → (leb low otherwise && leb otherwise high) ≡ true
    → integer env name otherwise low high ≡ ok v
    → (low ≤ v) × (v ≤ high)
unfolding integer
integer-range env name otherwise low high v h e = elim (Option-cases (get_option name env)) [
  | inl n ↦ ground arith
  | inr (raw, n) ↦ elim (Option-cases (parse_unsigned u64_max (trim raw))) [
    | inl m ↦ ground arith
    | inr (k, m) ↦ ground arith
  ]
]

-- The range of an integer variable.
abbrev Within : ℕ → ℕ → ℕ → Type 0
Within low high v = (low ≤ v) × (v ≤ high)

abbrev built : Text → Text → Bool → ℕ → ℕ → ℕ → ℕ → ℕ → ℕ → ℕ → Config
built token level streams hours volume idle alone pending playlists queue = record {
  token = token;
  log_level = level;
  volume = volume % 65536;
  idle_seconds = idle;
  alone_seconds = alone;
  pending = pending;
  limits = record {
    playlists = playlists;
    queue = queue;
    max_duration_ms = hours * 3600000;
    allow_streams = streams;
  };
}

built-IsValid :
    (token level : Text) (streams : Bool) (hours volume idle alone pending playlists queue : ℕ)
    → Within 1 (max_integer / 3600000) hours
    → Within 0 100 volume
    → Within 1 (max_integer / 1000) idle
    → Within 1 (max_integer / 1000) alone
    → Within 1 max_integer pending
    → Within 1 max_integer playlists
    → Within 1 max_integer queue
    → IsValid (built token level streams hours volume idle alone pending playlists queue)
built-IsValid token level streams hours volume idle alone pending playlists queue rh rv ri ra rp rl
      rq =
    record {
      percentage = omega arith;
      idle = (ri.0, omega arith);
      alone = (ra.0, omega arith);
      pending = rp;
      queue = rq;
      playlists = rl;
      duration = (omega arith, omega arith);
    }

-- A configuration that is accepted has a volume of at most 100, positive delays and limits, and
-- none of its times in milliseconds passes 2^53 - 1.
pub from_env-IsValid :
    (env : List (Text × Text)) (testbot : Bool) (c : Config)
    → from_env env testbot ≡ ok c
    → IsValid c
unfolding from_env
from_env-IsValid env testbot c h =
    let (token, t, h1) =
      bind-ok
        (check_token (if testbot then codes "DISCORD_TOKEN_TESTBOT" else codes "DISCORD_TOKEN") (
          get_option (if testbot then codes "DISCORD_TOKEN_TESTBOT" else codes "DISCORD_TOKEN")
            env))
        _ h in
    let (level, l, h2) =
      bind-ok (check_level (or_info (get_option (codes "LOG_LEVEL") env))) _ h1 in
    let (streams, s, h3) = bind-ok (boolean_of (get_option (codes "ALLOW_LIVESTREAMS") env)) _ h2 in
    let (hours, eh, h4) =
      bind-ok (integer env (codes "MAX_TRACK_DURATION_HOURS") 3 1 (max_integer / 3600000)) _ h3 in
    let (volume, ev, h5) = bind-ok (integer env (codes "DEFAULT_VOLUME") 70 0 100) _ h4 in
    let (idle, ei, h6) =
      bind-ok (integer env (codes "IDLE_DISCONNECT_SECONDS") 120 1 (max_integer / 1000)) _ h5 in
    let (alone, ea, h7) =
      bind-ok (integer env (codes "ALONE_DISCONNECT_SECONDS") 120 1 (max_integer / 1000)) _ h6 in
    let (pending, ep, h8) =
      bind-ok (integer env (codes "MAX_PENDING_PLAY_REQUESTS") 10 1 max_integer) _ h7 in
    let (playlists, el, h9) =
      bind-ok (integer env (codes "MAX_PLAYLIST_TRACKS") 250 1 max_integer) _ h8 in
    let (queue, eq, h10) =
      bind-ok (integer env (codes "MAX_QUEUE_TRACKS") 1000 1 max_integer) _ h9 in
    let rh = integer-range env _ 3 1 (max_integer / 3600000) hours refl eh in
    let rv = integer-range env _ 70 0 100 volume refl ev in
    let ri = integer-range env _ 120 1 (max_integer / 1000) idle refl ei in
    let ra = integer-range env _ 120 1 (max_integer / 1000) alone refl ea in
    let rp = integer-range env _ 10 1 max_integer pending refl ep in
    let rl = integer-range env _ 250 1 max_integer playlists refl el in
    let rq = integer-range env _ 1000 1 max_integer queue refl eq in
    subst IsValid (ok-injective h10) (
      built-IsValid token level streams hours volume idle alone pending playlists queue rh rv ri ra
        rp rl rq)
