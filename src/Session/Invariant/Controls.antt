-- ===== src/Session/Invariant/Controls.antt =====
-- The invariant of a session under its controls (src/session.rs). The queue's limit is the
-- configured one, as in the calls of `previous`.
use raydio.Prelude.{
  ℕ, ◌≤◌, ◌≡◌, refl, Bool, true, false, not, Option, none, some, List, Text, Perm, arith, is_none,
  if◌then◌else◌, Option-cases, inl, inr, parse_unsigned, u16_max, codes,
}
use raydio.Prelude.Results.{err, Result-cases}
use raydio.Playback.{
  Track, Queue, PreviousOutcome, LoopMode, remove, move_to, clear, shuffle, previous, jump, skip,
  stop, is_empty,
}
use raydio.Playback.Bounds
use raydio.Playback.Bounds.{
  loops-IsValid, remove-IsValid, move_to-IsValid, clear-IsValid, shuffle-IsValid, previous-IsValid,
  jump-IsValid, skip-IsValid, stop-IsValid,
}
use raydio.Discord.{Request, user, option, index}
use raydio.Session.{Session, Env, schedule_end, draw_token, now}
use raydio.Session.Play.{start_current, succeeded}
use raydio.Session.Cleanup.{invalidate}
use raydio.Session.Control.{Control, apply_control, control, control_of, authorize}
use raydio.Session.Control.Actions.{
  Answer, transport_error, stopped_answer, set_paused, set_volume, set_loop, choose_loop,
  remove_at_position, move_track, clear_upcoming, shuffle_upcoming, start_moved, go_back,
  jump_to_position, skip_current, stop_player, stop_playback, leave_channel,
}
use raydio.Session.Frames.{SameCore}
use raydio.Session.Invariant.{IsValid, SameCore-IsValid, cleanup-IsValid, start_current-IsValid}

module _ {V : Type 0} {n : ℕ} where
  -- A queue that replaces one, and has no current track if the other has none.
  pub queue-IsValid :
      {s : Session V} (q : Queue)
      → Bounds.IsValid n q
      → (is_none s.queue.current ≡ true → is_none q.current ≡ true)
      → IsValid n s
      → IsValid n (record s { queue = q })
  queue-IsValid q w k v = record {
    queue = w;
    placed = ground (arith, k, v.placed);
    audible = v.audible;
  }

module _ {P V : Type 0} (env : Env P V) (percentage : env.config.volume ≤ 100) where
  abbrev limit : ℕ
  limit = env.config.limits.queue

  set_paused-SameCore : (b : Bool) (s : Session V) → SameCore s (set_paused env b s).0
  unfolding set_paused schedule_end
  set_paused-SameCore b s = ground arith

  set_volume-IsValid :
      (r : Request) (s : Session V) → IsValid limit s → IsValid limit (set_volume env r s).0
  unfolding set_volume
  set_volume-IsValid r s v =
      elim (Option-cases (parse_unsigned u16_max (option r (codes "level")))) [
        | inl e ↦ record {
          queue = ground (arith, v.queue);
          placed = ground (arith, v.placed);
          audible = ground (arith, v.audible);
        }
        | inr (m, e) ↦ record {
          queue = ground (arith, v.queue);
          placed = ground (arith, v.placed);
          audible = ground (arith, v.audible);
        }
      ]

  choose_loop-IsValid :
      (o : Option LoopMode) (s : Session V)
      → IsValid limit s
      → IsValid limit (choose_loop env o s).0
  unfolding choose_loop
  choose_loop-IsValid none s v = v
  choose_loop-IsValid (some mode) s v = queue-IsValid _ (loops-IsValid mode v.queue) (λ h. h) v

  set_loop-IsValid :
      (r : Request) (s : Session V) → IsValid limit s → IsValid limit (set_loop env r s).0
  unfolding set_loop
  set_loop-IsValid r s v = choose_loop-IsValid _ s v

  remove_at_position-IsValid :
      (r : Request) (s : Session V) → IsValid limit s → IsValid limit (remove_at_position env r s).0
  unfolding remove_at_position remove
  remove_at_position-IsValid r s v =
      queue-IsValid _ (remove-IsValid limit s.queue (index r (codes "position")) v.queue)
        (λ h. ground arith) v

  move_track-IsValid :
      (r : Request) (s : Session V) → IsValid limit s → IsValid limit (move_track env r s).0
  unfolding move_track move_to
  move_track-IsValid r s v =
      queue-IsValid _
        (move_to-IsValid limit s.queue (index r (codes "from")) (index r (codes "to")) v.queue)
        (λ h. ground arith) v

  clear_upcoming-IsValid :
      (s : Session V) → IsValid limit s → IsValid limit (clear_upcoming env s).0
  unfolding clear_upcoming clear
  clear_upcoming-IsValid s v = queue-IsValid _ (clear-IsValid limit s.queue v.queue) (λ h. h) v

  start_moved-IsValid :
      (verb : Text) (s : Session V) → IsValid limit s → IsValid limit (start_moved env verb s).0
  unfolding start_moved
  start_moved-IsValid verb s v = start_current-IsValid env limit percentage s v

  previous-none :
      (q : Queue) → is_none q.current ≡ true → is_none (previous q limit).0.current ≡ true
  unfolding previous
  previous-none q h = ground arith

  jump-none : (q : Queue) (i : ℕ) → is_none q.current ≡ true → is_none (jump q i).0.current ≡ true
  unfolding jump
  jump-none q i h = ground arith

  skip-none : (q : Queue) → is_none q.current ≡ true → is_none (skip q).current ≡ true
  unfolding skip
  skip-none q h = ground arith

  outcome-IsValid :
      (o : PreviousOutcome) (s : Session V) (moved : Session V × Answer) (a b : Answer)
      → IsValid limit s
      → IsValid limit moved.0
      → IsValid limit
          (elim o as (λ x. Session V × Answer) [
            | PreviousOutcome.started ↦ moved
            | PreviousOutcome.no_history ↦ (s, a)
            | PreviousOutcome.full ↦ (s, b)
          ]).0
  outcome-IsValid PreviousOutcome.started s moved a b v w = w
  outcome-IsValid PreviousOutcome.no_history s moved a b v w = v
  outcome-IsValid PreviousOutcome.full s moved a b v w = v

  pair-IsValid :
      (b : Bool) (s t : Session V × Answer)
      → IsValid limit s.0
      → IsValid limit t.0
      → IsValid limit (if b then s else t).0
  pair-IsValid true s t v w = v
  pair-IsValid false s t v w = w

  go_back-IsValid : (s : Session V) → IsValid limit s → IsValid limit (go_back env s).0
  unfolding go_back
  go_back-IsValid s v = outcome-IsValid (previous s.queue limit).1 s _ _ _ v (
      start_moved-IsValid (codes "Now playing") _
        (queue-IsValid _ (previous-IsValid limit s.queue v.queue) (previous-none s.queue) v))

  jump_to_position-IsValid :
      (r : Request) (s : Session V) → IsValid limit s → IsValid limit (jump_to_position env r s).0
  unfolding jump_to_position
  jump_to_position-IsValid r s v =
      let i = index r (codes "position") in
      pair-IsValid (jump s.queue i).1 _ _
        (start_moved-IsValid (codes "Jumped to") _
          (queue-IsValid _ (jump-IsValid limit s.queue i v.queue) (jump-none s.queue i) v))
        v

  skip_current-IsValid : (s : Session V) → IsValid limit s → IsValid limit (skip_current env s).0
  unfolding skip_current
  skip_current-IsValid s v = pair-IsValid (is_none s.queue.current) _ _ v (
      start_moved-IsValid (codes "Skipped. Now playing") _
        (queue-IsValid _ (skip-IsValid limit s.queue v.queue) (skip-none s.queue) v))

  leave_channel-IsValid : (s : Session V) → IsValid limit (leave_channel env s).0
  unfolding leave_channel
  leave_channel-IsValid s = cleanup-IsValid env limit percentage none s

  shuffle_upcoming-IsValid :
      (shuffler : List Track → List Track) (s : Session V)
      → ((xs : List Track) → Perm (shuffler xs) xs)
      → IsValid limit s
      → IsValid limit (shuffle_upcoming env shuffler s).0
  unfolding shuffle_upcoming shuffle
  shuffle_upcoming-IsValid shuffler s permutes v =
      queue-IsValid _ (shuffle-IsValid limit shuffler s.queue permutes v.queue) (λ h. ground arith)
        v

  stop_player-IsValid :
      (had : Bool) (s : Session V) → IsValid limit s → IsValid limit (stop_player env had s).0
  unfolding stop_player
  stop_player-IsValid had s v =
      let halted : Session V = (start_current env s).0 in
      let went = start_current-IsValid env limit percentage s v in
      let idle : Session V = record s { idle_at = some (now env s) } in
      let idle_halted : Session V = record halted { idle_at = some (now env halted) } in
      pair-IsValid (not (env.ready s.log)) (idle, stopped_answer env had)
        (if succeeded (start_current env s).1
          then (idle_halted, stopped_answer env had)
          else (halted, err (transport_error)))
        (SameCore-IsValid (record { queue = refl; channel = refl; volume = refl }) v)
        (pair-IsValid (succeeded (start_current env s).1) (idle_halted, stopped_answer env had)
          (halted, err (transport_error))
          (SameCore-IsValid (record { queue = refl; channel = refl; volume = refl }) went) went)

  stop_playback-IsValid : (s : Session V) → IsValid limit s → IsValid limit (stop_playback env s).0
  unfolding stop_playback invalidate stop
  stop_playback-IsValid s v =
      let stopped : IsValid limit
          (record (draw_token env (record (invalidate s) { queue = stop s.queue })) {
            paused = false;
          }) =
        record {
          queue = stop-IsValid limit s.queue v.queue;
          placed = ground arith;
          audible = v.audible;
        } in
      pair-IsValid _ _ _ (stop_player-IsValid (not (is_empty (invalidate s).queue)) _ stopped)
        stopped

  apply_control-IsValid :
      (shuffler : List Track → List Track) (c : Control) (r : Request) (s : Session V)
      → ((xs : List Track) → Perm (shuffler xs) xs)
      → IsValid limit s
      → IsValid limit (apply_control env shuffler c r s).0
  unfolding apply_control
  apply_control-IsValid shuffler Control.pause r s permutes v =
      SameCore-IsValid (set_paused-SameCore true s) v
  apply_control-IsValid shuffler Control.resume r s permutes v =
      SameCore-IsValid (set_paused-SameCore false s) v
  apply_control-IsValid shuffler Control.volume r s permutes v = set_volume-IsValid r s v
  apply_control-IsValid shuffler Control.loop r s permutes v = set_loop-IsValid r s v
  apply_control-IsValid shuffler Control.remove_track r s permutes v =
      remove_at_position-IsValid r s v
  apply_control-IsValid shuffler Control.move r s permutes v = move_track-IsValid r s v
  apply_control-IsValid shuffler Control.clear_all r s permutes v = clear_upcoming-IsValid s v
  apply_control-IsValid shuffler Control.shuffle_all r s permutes v =
      shuffle_upcoming-IsValid shuffler s permutes v
  apply_control-IsValid shuffler Control.previous_track r s permutes v = go_back-IsValid s v
  apply_control-IsValid shuffler Control.jump_to r s permutes v = jump_to_position-IsValid r s v
  apply_control-IsValid shuffler Control.skip_track r s permutes v = skip_current-IsValid s v
  apply_control-IsValid shuffler Control.stop_all r s permutes v = stop_playback-IsValid s v
  apply_control-IsValid shuffler Control.leave r s permutes v = leave_channel-IsValid s

  pub control-IsValid :
      (shuffler : List Track → List Track) (r : Request) (s : Session V)
      → ((xs : List Track) → Perm (shuffler xs) xs)
      → IsValid limit s
      → IsValid limit (control env shuffler r s).0
  unfolding control
  control-IsValid shuffler r s permutes v = elim (Option-cases (control_of r.name)) [
    | inl e ↦ rw e (pair-IsValid _ _ _ v v)
    | inr (c, e) ↦ elim (Result-cases (authorize env c (user r) s)) [
      | inl (x, a) ↦
          rw (e, a) (pair-IsValid _ _ _ v (apply_control-IsValid shuffler c r s permutes v))
      | inr (m, a) ↦ rw (e, a) (pair-IsValid _ _ _ v v)
    ]
  ]
