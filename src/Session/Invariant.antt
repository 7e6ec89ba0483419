-- ===== src/Session/Invariant.antt =====
-- What every handler of src/session.rs keeps of a session, for what the music service reports.
pub mod Watch
pub mod Controls
pub mod Loads
pub mod Runs
use raydio.Prelude.{
  ℕ, zero, suc, ◌+◌, ◌≤◌, ◌<◌, ◌≡◌, refl, sym, ap, subst, ◌∙◌, Bool, true, false, not, ◌&&◌, ◌||◌,
  Option, none, some, List, [], ◌∷◌, Text, ◌⊎◌, if◌then◌else◌, arith, is_some, is_none, Bool-cases,
  Option-cases, inl, inr,
}
use raydio.Playback.{Queue, default, finish, fail}
use raydio.Playback.Bounds
use raydio.Playback.Bounds.{finish-IsValid, fail-IsValid, default-IsValid}
use raydio.Session.{Session, Env, notify, schedule_end}
use raydio.Session.Play.{
  prepare_start, settle, fail_current, start_loop, start_current, track_failure,
}
use raydio.Session.Panels.{refresh}
use raydio.Session.Cleanup.{cleanup}
use raydio.Session.Monitor.{
  Payload, EventKind, Reason, finished, load_failed, other_reason, count_finished, finish_track,
  begin_track, dispatch, observe_progress, backend, closed_notice,
}
use raydio.Session.Starting.{sent, start_loop-cases, queue-fail_current}
use raydio.Session.Frames.{
  SameCore, core_refl, core_trans, notify-SameCore, refresh-SameCore, begin_track-SameCore,
  observe_progress-SameCore,
}
use raydio.Session.Ending.{cleanup-Ended}

-- The queue stays within the configured limit, a track is current only in a voice channel, and the
-- volume is a percentage.
pub record IsValid {V : Type 0} (n : ℕ) (s : Session V) : Type 0 where
  pub queue : Bounds.IsValid n s.queue
  pub placed : (is_some s.channel || is_none s.queue.current) ≡ true
  pub audible : s.volume ≤ 100

module _ {V : Type 0} {n : ℕ} where
  pub SameCore-IsValid : {s t : Session V} → SameCore s t → IsValid n s → IsValid n t
  SameCore-IsValid {s} {t} c v = record {
    queue = subst (Bounds.IsValid n) (sym c.queue) v.queue;
    placed = rw (c.queue, c.channel) v.placed;
    audible = rw c.volume v.audible;
  }

  pub if-IsValid :
      (b : Bool) {s t : Session V} → IsValid n s → IsValid n t → IsValid n (if b then s else t)
  if-IsValid true v w = v
  if-IsValid false v w = w

module _ {P V : Type 0} (env : Env P V) (n : ℕ) (percentage : env.config.volume ≤ 100) where
  pub cleanup-IsValid : (m : Option Text) (s : Session V) → IsValid n (cleanup env m s)
  cleanup-IsValid m s =
      let ended = cleanup-Ended env m s in
      record {
        queue = subst (Bounds.IsValid n) (sym ended.silent.0) (default-IsValid n);
        placed = rw ended.silent.0 (ground arith);
        audible = rw ended.volume percentage;
      }

  fail_current-channel : (s : Session V) → (fail_current env s).channel ≡ s.channel
  unfolding fail_current notify
  fail_current-channel s = elim (Option-cases s.notification) [
    | inl e ↦ ground arith
    | inr (c, e) ↦ ground arith
  ]

  fail_current-volume : (s : Session V) → (fail_current env s).volume ≡ s.volume
  unfolding fail_current notify
  fail_current-volume s = elim (Option-cases s.notification) [
    | inl e ↦ ground arith
    | inr (c, e) ↦ ground arith
  ]

  fail-none : (q : Queue) → is_none q.current ≡ true → is_none (fail q).current ≡ true
  unfolding fail
  fail-none q h = ground arith

  fail_current-IsValid : (s : Session V) → IsValid n s → IsValid n (fail_current env s)
  fail_current-IsValid s v = record {
    queue =
        subst (Bounds.IsValid n) (sym (queue-fail_current env s)) (fail-IsValid n s.queue v.queue);
    placed =
        rw (queue-fail_current env s, fail_current-channel s)
          (ground (arith, fail-none s.queue, v.placed));
    audible = rw (fail_current-volume s) v.audible;
  }

  sent-SameCore : (s : Session V) → SameCore s (sent env s)
  unfolding sent prepare_start schedule_end
  sent-SameCore s = record { queue = refl; channel = refl; volume = refl }

  settle-SameCore : (s : Session V) → SameCore s (settle env s)
  unfolding settle
  settle-SameCore s = record { queue = refl; channel = refl; volume = refl }

  start_loop-IsValid :
      (fuel : ℕ) (failed : Bool) (s : Session V)
      → IsValid n s
      → IsValid n (start_loop env fuel failed s).0
  unfolding start_loop
  start_loop-IsValid zero failed s v = v
  start_loop-IsValid (suc fuel) failed s v =
      let went : IsValid n (sent env s) = SameCore-IsValid (sent-SameCore s) v in
      elim (start_loop-cases env fuel failed s) [
        | inl (a, e) ↦
            subst (λ r. IsValid n r.0) (sym e)
              (SameCore-IsValid (settle-SameCore (sent env s)) went)
        | inr (inl (c, e)) ↦
            subst (λ r. IsValid n r.0) (sym e)
              (SameCore-IsValid (record { queue = refl; channel = refl; volume = refl }) went)
        | inr (inr (c, e)) ↦
            subst (λ r. IsValid n r.0) (sym e)
              (start_loop-IsValid fuel true (fail_current env (sent env s))
                (fail_current-IsValid (sent env s) went))
      ]

  pub start_current-IsValid : (s : Session V) → IsValid n s → IsValid n (start_current env s).0
  unfolding start_current
  start_current-IsValid s v = start_loop-IsValid 4 false s v

  pub track_failure-IsValid : (s : Session V) → IsValid n s → IsValid n (track_failure env s)
  unfolding track_failure
  track_failure-IsValid s v = start_current-IsValid (fail_current env s) (fail_current-IsValid s v)

  finish-none : (q : Queue) → is_none q.current ≡ true → is_none (finish q).current ≡ true
  unfolding finish
  finish-none q h = ground arith

  pub finish_track-IsValid : (s : Session V) → IsValid n s → IsValid n (finish_track env s)
  unfolding finish_track
  finish_track-IsValid s v = start_current-IsValid (count_finished env s) (record {
    queue = finish-IsValid n s.queue v.queue;
    placed = ground (arith, finish-none s.queue, v.placed);
    audible = v.audible;
  })

  refresh-IsValid : (s : Session V) → IsValid n s → IsValid n (refresh env s)
  refresh-IsValid s v = SameCore-IsValid (refresh-SameCore env s) v

  dispatch-IsValid :
      (k : EventKind) (r : Reason) (s : Session V) → IsValid n s → IsValid n (dispatch env k r s)
  unfolding dispatch
  dispatch-IsValid EventKind.track_start r s v =
      if-IsValid s.started v
        (refresh-IsValid (begin_track env s) (SameCore-IsValid (begin_track-SameCore env s) v))
  dispatch-IsValid EventKind.track_end finished s v =
      refresh-IsValid (finish_track env s) (finish_track-IsValid s v)
  dispatch-IsValid EventKind.track_end load_failed s v =
      refresh-IsValid (track_failure env s) (track_failure-IsValid s v)
  dispatch-IsValid EventKind.track_end other_reason s v = v
  dispatch-IsValid EventKind.track_exception r s v =
      refresh-IsValid (track_failure env s) (track_failure-IsValid s v)
  dispatch-IsValid EventKind.track_stuck r s v =
      refresh-IsValid (track_failure env s) (track_failure-IsValid s v)
  dispatch-IsValid EventKind.socket_closed r s v = v
  dispatch-IsValid EventKind.other_event r s v = v

  pub backend-IsValid : (p : Payload) (s : Session V) → IsValid n s → IsValid n (backend env p s)
  unfolding backend
  backend-IsValid p s v = if-IsValid _ v (
      if-IsValid p.is_player_update (SameCore-IsValid (observe_progress-SameCore env p s) v) (
        if-IsValid _ (cleanup-IsValid (some closed_notice) s)
          (if-IsValid _ v (if-IsValid _ v (dispatch-IsValid p.kind p.reason s v)))))
