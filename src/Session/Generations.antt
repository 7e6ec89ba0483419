-- ===== src/Session/Generations.antt =====
-- Events of the music service that come twice (`backend` in src/session.rs).
use raydio.Prelude.{
  ℕ, zero, suc, ◌+◌, ◌<◌, ◌≡◌, refl, ◌∙◌, Bool, true, false, ◌&&◌, some, ◌⊎◌, arith, is_some,
  Bool-cases, Option-cases, inl, inr,
}
use raydio.Session.{Session, Env, schedule_end}
use raydio.Session.Play.{
  start_current, start_loop, prepare_start, settle, fail_current, track_failure,
}
use raydio.Session.Panels.{refresh, refresh_panel, remove_panel, delete_panel}
use raydio.Session.Cleanup.{cleanup}
use raydio.Session.Monitor.{
  closed_notice, Payload, EventKind, track_start, track_end, track_exception, track_stuck,
  socket_closed, other_event, is_socket_closed, is_generation, Reason, finished, load_failed,
  other_reason, backend, dispatch, begin_track, finish_track, count_finished,
}
use raydio.Session.Ending.{cleanup-Ended}
use raydio.Session.Starting.{start_loop-cases, sent, fail_current-Unmoved, start_loop-SamePlace}

module _ {P V : Type 0} (env : Env P V) where
  -- What the player message does not touch.
  pub record SamePlayer (s t : Session V) : Type 0 where
    pub queue : t.queue ≡ s.queue
    pub channel : t.channel ≡ s.channel
    pub generation : t.generation ≡ s.generation
    pub started : t.started ≡ s.started

  refresh-SamePlayer : (s : Session V) → SamePlayer s (refresh env s)
  unfolding refresh refresh_panel remove_panel delete_panel
  refresh-SamePlayer s = elim (Option-cases s.panel) [
    | inl e ↦ ground arith
    | inr (p, e) ↦ ground arith
  ]

  -- Every round of starting draws a new generation.
  start_loop-generation :
      (fuel : ℕ) (failed : Bool) (s : Session V)
      → s.generation + fuel < 18446744073709551616
      → (fuel ≡ 0) ⊎ (s.generation < (start_loop env fuel failed s).0.generation)
  unfolding start_loop sent prepare_start schedule_end settle
  start_loop-generation zero failed s h = inl refl
  start_loop-generation (suc fuel) failed s h = elim (start_loop-cases env fuel failed s) [
    | inl (a, e) ↦ rw e (inr (ground arith))
    | inr (inl (n, e)) ↦ rw e (inr (ground arith))
    | inr (inr (n, e)) ↦
        let same = fail_current-Unmoved env (sent env s) in
        let later =
          start_loop-generation fuel true (fail_current env (sent env s)) (ground arith) in
        rw e (inr (ground arith))
  ]

  -- A session that has moved on to a later generation in the same channel.
  pub record MovedOn (s t : Session V) : Type 0 where
    pub later : s.generation < t.generation
    pub same_channel : t.channel ≡ s.channel

  start_current-MovedOn :
      (s t : Session V)
      → t.generation ≡ s.generation
      → t.channel ≡ s.channel
      → s.generation + 4 < 18446744073709551616
      → MovedOn s (refresh env (start_current env t).0)
  unfolding start_current
  start_current-MovedOn s t g c h =
      let later = start_loop-generation 4 false t (ground arith) in
      let channel = (start_loop-SamePlace env 4 false t).channel in
      let same = refresh-SamePlayer (start_loop env 4 false t).0 in
      record { later = ground arith; same_channel = same.channel ∙ channel ∙ c }

  track_failure-MovedOn :
      (s : Session V)
      → s.generation + 4 < 18446744073709551616
      → MovedOn s (refresh env (track_failure env s))
  unfolding track_failure
  track_failure-MovedOn s h =
      let same = fail_current-Unmoved env s in
      start_current-MovedOn s (fail_current env s) same.generation same.channel h

  finish_track-MovedOn :
      (s : Session V)
      → s.generation + 4 < 18446744073709551616
      → MovedOn s (refresh env (finish_track env s))
  unfolding finish_track
  finish_track-MovedOn s h = start_current-MovedOn s (count_finished env s) refl refl h

  -- An event of another generation is dropped.
  backend_dropped :
      (p : Payload) (s : Session V)
      → p.is_player_update ≡ false
      → is_socket_closed env p.kind ≡ false
      → is_generation p.track_generation s.generation ≡ false
      → backend env p s ≡ s
  unfolding backend
  backend_dropped p s u k g = ground arith

  backend_handled :
      (p : Payload) (s : Session V)
      → p.is_player_update ≡ false
      → is_socket_closed env p.kind ≡ false
      → is_some s.channel ≡ true
      → is_some s.queue.current ≡ true
      → is_generation p.track_generation s.generation ≡ true
      → backend env p s ≡ dispatch env p.kind p.reason s
  unfolding backend
  backend_handled p s u k c q g = ground arith

  -- No event reaches a session outside a voice channel.
  backend_silent : (p : Payload) (s : Session V) → is_some s.channel ≡ false → backend env p s ≡ s
  unfolding backend
  backend_silent p s c = ground arith

  backend_closed :
      (p : Payload) (s : Session V)
      → p.is_player_update ≡ false
      → is_socket_closed env p.kind ≡ true
      → is_some s.channel ≡ true
      → backend env p s ≡ cleanup env (some closed_notice) s
  unfolding backend
  backend_closed p s u k c = ground arith

  backend_refused :
      (p : Payload) (s : Session V)
      → p.is_player_update ≡ false
      → is_socket_closed env p.kind ≡ false
      → (is_some s.channel
          && is_some s.queue.current
          && is_generation p.track_generation s.generation)
        ≡ false
      → backend env p s ≡ s
  unfolding backend
  backend_refused p s u k d = ground arith

  dispatch-cases :
      (k : EventKind) (r : Reason) (s : Session V)
      → s.generation + 4 < 18446744073709551616
      → (dispatch env k r s ≡ s)
        ⊎ (MovedOn s (dispatch env k r s)
            ⊎ ((k ≡ track_start) × (dispatch env k r s ≡ refresh env (begin_track env s))))
  unfolding dispatch
  dispatch-cases track_start r s h = elim (Bool-cases s.started) [
    | inl e ↦ inl (rw e refl)
    | inr e ↦ inr (inr (refl, rw e refl))
  ]
  dispatch-cases track_end finished s h = inr (inl (finish_track-MovedOn s h))
  dispatch-cases track_end load_failed s h = inr (inl (track_failure-MovedOn s h))
  dispatch-cases track_end other_reason s h = inl refl
  dispatch-cases track_exception r s h = inr (inl (track_failure-MovedOn s h))
  dispatch-cases track_stuck r s h = inr (inl (track_failure-MovedOn s h))
  dispatch-cases socket_closed r s h = inl refl
  dispatch-cases other_event r s h = inl refl

  -- What follows a handled event, when the same event comes again.
  backend_again :
      (p : Payload) (s t : Session V)
      → p.is_player_update ≡ false
      → is_socket_closed env p.kind ≡ false
      → is_generation p.track_generation s.generation ≡ true
      → MovedOn s t
      → backend env p t ≡ t
  backend_again p s t u k g m = backend_dropped p t u k (ground arith)

  begin_track_again :
      (p : Payload) (s : Session V)
      → p.is_player_update ≡ false
      → is_socket_closed env p.kind ≡ false
      → is_some s.channel ≡ true
      → is_some s.queue.current ≡ true
      → is_generation p.track_generation s.generation ≡ true
      → p.kind ≡ track_start
      → backend env p (refresh env (begin_track env s)) ≡ refresh env (begin_track env s)
  unfolding begin_track schedule_end dispatch
  begin_track_again p s u k c q g e =
      let same = refresh-SamePlayer (begin_track env s) in
      let t : Session V = refresh env (begin_track env s) in
      let is_started : t.started ≡ true = same.started in
      backend_handled p t u k (ground arith) (ground arith) (ground arith)
      ∙ rw e (rw is_started refl)

  -- An event of the music service that is delivered twice in a row counts once: the second delivery
  -- changes nothing. Position updates are left out, and the generation is more than 4 below 2^64.
  pub backend-backend :
      (p : Payload) (s : Session V)
      → p.is_player_update ≡ false
      → s.generation + 4 < 18446744073709551616
      → backend env p (backend env p s) ≡ backend env p s
  backend-backend p s u h = elim (Bool-cases (is_socket_closed env p.kind)) [
    | inl k ↦ elim (Bool-cases (is_some s.channel)) [
      | inl c ↦
          let e : backend env p s ≡ cleanup env (some closed_notice) s = backend_closed p s u k c in
          rw e (
            backend_silent p (cleanup env (some closed_notice) s)
              (rw (cleanup-Ended env (some closed_notice) s).left.0 refl))
      | inr c ↦ rw (backend_silent p s c) (backend_silent p s c)
    ]
    | inr k ↦
        elim (Bool-cases (
          is_some s.channel
          && is_some s.queue.current
          && is_generation p.track_generation s.generation)) [
            | inr d ↦ rw (backend_refused p s u k d) (backend_refused p s u k d)
            | inl d ↦
                let e : backend env p s ≡ dispatch env p.kind p.reason s =
                  backend_handled p s u k (ground arith) (ground arith) (ground arith) in
                elim (dispatch-cases p.kind p.reason s h) [
                  | inl same ↦ rw (e, same) (e ∙ same)
                  | inr (inl m) ↦
                      rw e (backend_again p s (dispatch env p.kind p.reason s) u k (ground arith) m)
                  | inr (inr (i, b)) ↦
                      rw (e, b)
                        (begin_track_again p s u k (ground arith) (ground arith) (ground arith) i)
                ]
          ]
  ]
