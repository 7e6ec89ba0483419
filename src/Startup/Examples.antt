-- ===== src/Startup/Examples.antt =====
-- Runs of src/main.rs and src/backend.rs on small inputs.
use raydio.Prelude.{◌≡◌, refl, true, none, some, [], ◌∷◌, codes, text_eq, parse_unsigned}
use raydio.Startup.{
  defaults, read_arguments, serves, needs_path, progressive_buffer_bytes, runtime_workers,
}

arguments :
    read_arguments defaults (codes "--testbot" ∷ codes "--env-file" ∷ codes "prod.env" ∷ [])
    ≡ serves true (codes "prod.env")
unfolding read_arguments text_eq
arguments = refl

missing_path : read_arguments defaults (codes "--check" ∷ codes "--env-file" ∷ []) ≡ needs_path
unfolding read_arguments text_eq
missing_path = refl

buffer_default : progressive_buffer_bytes none ≡ some 262144
unfolding progressive_buffer_bytes parse_unsigned
buffer_default = refl

buffer_too_small : progressive_buffer_bytes (some (codes "15")) ≡ none
unfolding progressive_buffer_bytes parse_unsigned
buffer_too_small = refl

workers : runtime_workers (some (codes "3")) ≡ none
unfolding runtime_workers text_eq
workers = refl
