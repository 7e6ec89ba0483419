-- ===== src/Session/Prepare.antt =====
-- Preparing the next track: `prepare_next` and `finish_preparation` of src/session.rs.
use raydio.Prelude.{
  ◌+◌, Bool, true, false, not, ◌&&◌, ◌||◌, Option, none, some, List, [], ◌∷◌, ◌++◌, Text, text_eq,
  if◌then◌else◌, ltb, ◌==◌, is_some,
}
use raydio.Playback.{preparation_target}
use raydio.Session.{Session, Preparation, Env, now, position, seconds}

-- `==` on optional texts
unfoldable pub same_target : Option Text → Option Text → Bool
same_target none none = true
same_target none (some t) = false
same_target (some s) none = false
same_target (some s) (some t) = text_eq s t

-- How a preparation was joined: its answer, or a panic or cancellation.
pub data Joined : Type 0 where
  answered : Bool → Joined
  lost : Joined

module _ {P V : Type 0} (env : Env P V) where
  abbrev has_preparation : List Preparation → Bool
  has_preparation [] = false
  has_preparation (p ∷ ps) = true

  unfoldable pub wanted : Session V → Option Text
  unfolding position
  wanted s =
      if s.started && not s.paused && is_some s.channel
      then elim (preparation_target s.queue (position env s)) [
        | none ↦ none
        | some t ↦ some t.encoded
      ]
      else none

  unfoldable pub prepare_next : Session V → Session V
  unfolding wanted
  prepare_next s =
      if has_preparation s.preparations || ltb (now env s) s.preparation_retry
      then s
      else if same_target (wanted s) s.preparation_target
      then s
      else record s {
        preparations = s.preparations ++ record { epoch = s.epoch; target = wanted s } ∷ [];
      }

  unfoldable pub finish_preparation : Preparation → Joined → Session V → Session V
  finish_preparation p (answered true) s = record s { preparation_target = p.target }
  finish_preparation p (answered false) s =
      if p.epoch == s.epoch then record s { preparation_retry = now env s + seconds 5 } else s
  finish_preparation p lost s = s
