-- ===== src/Session/Authority.antt =====
-- Who may use the controls of src/session.rs.
use raydio.Prelude.{ℕ, ◌≡◌, ◌≢◌, refl, false, some, List, arith, Option-cases, inl, inr}
use raydio.Prelude.Results.{ok, is_ok, Result-cases}
use raydio.Playback.{Track}
use raydio.Voice.{Guild}
use raydio.Voice.Access.{caller_channel}
use raydio.Discord.{Request, user}
use raydio.Session.{Session, Env}
use raydio.Session.Control.{Control, control, control_of, authorize, caller_allowed, reads_volume}

module _ {P V : Type 0} (env : Env P V) where
  caller_allowed-refuses :
      (c : Control) (caller active : ℕ) (g : Guild P) (s : Session V)
      → s.channel ≡ some active
      → env.guild s.log ≡ some g
      → caller_channel g caller ≢ ok active
      → is_ok (caller_allowed env c caller s) ≡ false
  unfolding caller_allowed
  caller_allowed-refuses c caller active g s e k h = elim (Result-cases (caller_channel g caller)) [
    | inl (ch, p) ↦ ground arith
    | inr (m, p) ↦ ground arith
  ]

  authorize-refuses :
      (c : Control) (caller active : ℕ) (g : Guild P) (s : Session V)
      → s.channel ≡ some active
      → env.guild s.log ≡ some g
      → caller_channel g caller ≢ ok active
      → is_ok (authorize env c caller s) ≡ false
  unfolding authorize
  authorize-refuses c caller active g s e k h =
      ground (arith, caller_allowed-refuses c caller active g s e k h)

  -- While the bot is in a voice channel, a control by a caller who is not in that channel is refused
  -- and changes nothing, unless it only reads the volume.
  pub control-refuses :
      (shuffler : List Track → List Track) (r : Request) (active : ℕ) (g : Guild P) (s : Session V)
      → reads_volume env r ≡ false
      → s.channel ≡ some active
      → env.guild s.log ≡ some g
      → caller_channel g (user r) ≢ ok active
      → ((control env shuffler r s).0 ≡ s) × (is_ok (control env shuffler r s).1 ≡ false)
  unfolding control
  control-refuses shuffler r active g s v e k h = elim (Option-cases (control_of r.name)) [
    | inl n ↦ rw (v, n) (refl, refl)
    | inr (c, n) ↦ elim (Result-cases (authorize env c (user r) s)) [
      | inl (x, p) ↦ absurd (ground (arith, authorize-refuses c (user r) active g s e k h))
      | inr (m, p) ↦ rw (v, n, p) (refl, refl)
    ]
  ]
