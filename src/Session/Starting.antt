-- ===== src/Session/Starting.antt =====
-- What `start_current` does (src/session.rs): it ends, within four calls of the music service, and
-- leaves the session playing what was accepted last or idle.
use raydio.Prelude.{
  ℕ, zero, suc, ◌-◌, ◌<◌, ◌≡◌, refl, sym, ◌∙◌, subst, Bool, true, false, ◌&&◌, none, some, List,
  ◌∷◌, arith, Bool-cases, Option-cases, inl, inr, ◌⊎◌, is_some, is_none, leb, if◌then◌else◌,
}
use raydio.Playback.{Queue, fail, failure_limit}
use raydio.Session.{Session, Env, Effect, update, now, notify, schedule_end}
use raydio.Session.Play.{
  Started, playing, failed_all, cannot_stop, prepare_start, start_effect, settle, fail_current,
  count_transition, start_loop, start_current,
}

-- How many rounds the loop can still make after the one under way.
failures_left : Queue → ℕ
failures_left q = elim q.current [ none ↦ 0 | some t ↦ suc (2 - q.consecutive_failures) ]

failures_left-fail :
    (q : Queue) → is_none q.current ≡ false → failures_left (fail q) < failures_left q
unfolding failures_left fail
failures_left-fail q c = ground arith

failures_left-le : (q : Queue) → failures_left q < 4
unfolding failures_left
failures_left-le q = ground arith

module _ {P V : Type 0} (env : Env P V) where
  -- One round before its outcome is known.
  unfoldable pub sent : Session V → Session V
  sent s =
      count_transition env
        (update env (start_effect env (prepare_start env s)) (prepare_start env s)).0

  pub accepted : Session V → Bool
  accepted s = (update env (start_effect env (prepare_start env s)) (prepare_start env s)).1

  -- The three ways on from a round.
  pub start_loop-cases :
      (fuel : ℕ) (failed : Bool) (s : Session V)
      → ((accepted s ≡ true)
          × (start_loop env (suc fuel) failed s ≡ (
            settle env (sent s),
            if failed && is_none s.queue.current then failed_all else playing,
          )))
        ⊎ (((is_none s.queue.current ≡ true)
              × (start_loop env (suc fuel) failed s
                  ≡ (record (sent s) { idle_at = some (now env (sent s)) }, cannot_stop)))
            ⊎ ((is_none s.queue.current ≡ false)
                × (start_loop env (suc fuel) failed s
                    ≡ start_loop env fuel true (fail_current env (sent s)))))
  unfolding start_loop sent accepted
  start_loop-cases fuel failed s =
      elim (Bool-cases (
        env.ready (prepare_start env s).log
        && env.accepts (start_effect env (prepare_start env s) ∷ s.log))) [
          | inl e ↦ inl (e, rw e)
          | inr e ↦ elim (Bool-cases (is_none s.queue.current)) [
            | inl n ↦ inr (inl (n, rw (e, n)))
            | inr n ↦ inr (inr (n, rw (e, n)))
          ]
        ]

  pub queue-fail_current : (s : Session V) → (fail_current env s).queue ≡ fail s.queue
  unfolding fail_current notify
  queue-fail_current s = elim (Bool-cases (leb failure_limit (fail s.queue).consecutive_failures)) [
    | inl e ↦ elim (Option-cases s.notification) [ inl n ↦ rw (e, n) | inr (c, n) ↦ rw (e, n) ]
    | inr e ↦ rw e
  ]

  -- The newest effect is the accepted call for the session's own track, generation and volume.
  abbrev pub IsAccepted : Session V → Type 0
  IsAccepted t =
      (rest : List (Effect V)) × (t.log ≡ start_effect env t ∷ rest) × (env.accepts t.log ≡ true)

  -- A session as `start_current` leaves it.
  pub record Settled (t : Session V) (o : Started) : Type 0 where
    pub idle : is_some t.idle_at ≡ is_none t.queue.current
    pub outcome :
        ((o ≡ playing) × IsAccepted t)
        ⊎ (((o ≡ failed_all) ⊎ (o ≡ cannot_stop)) × (t.queue.current ≡ none))
    pub fresh : (t.started ≡ false) × (t.paused ≡ false) × (t.position_ms ≡ 0)

  settle-Settled :
      (failed : Bool) (s : Session V)
      → accepted s ≡ true
      → Settled
          (settle env (sent s))
          (if failed && is_none s.queue.current then failed_all else playing)
  unfolding settle sent accepted prepare_start schedule_end
  settle-Settled failed s e = record {
    idle = ground arith;
    outcome = elim (Bool-cases (failed && is_none s.queue.current)) [
      | inl f ↦ inr (inl (ground arith), ground arith)
      | inr f ↦ inl (ground arith, (s.log, refl, ground arith))
    ];
    fresh = (refl, refl, refl);
  }

  cannot_stop-Settled :
      (s : Session V)
      → is_none s.queue.current ≡ true
      → Settled (record (sent s) { idle_at = some (now env (sent s)) }) cannot_stop
  unfolding sent prepare_start schedule_end
  cannot_stop-Settled s e = record {
    idle = ground arith;
    outcome = inr (inr refl, ground arith);
    fresh = (refl, refl, refl);
  }

  start_loop-Settled :
      (fuel : ℕ) (failed : Bool) (s : Session V)
      → failures_left s.queue < fuel
      → Settled (start_loop env fuel failed s).0 (start_loop env fuel failed s).1
  unfolding sent prepare_start schedule_end
  start_loop-Settled zero failed s h = ground arith
  start_loop-Settled (suc fuel) failed s h = elim (start_loop-cases fuel failed s) [
    | inl (a, e) ↦ subst (λ r. Settled r.0 r.1) (sym e) (settle-Settled failed s a)
    | inr (inl (n, e)) ↦ subst (λ r. Settled r.0 r.1) (sym e) (cannot_stop-Settled s n)
    | inr (inr (n, e)) ↦
        let fewer : failures_left (fail (sent s).queue) < fuel =
          ground (arith, failures_left-fail s.queue n) in
        let low : failures_left (fail_current env (sent s)).queue < fuel =
          subst (λ q. failures_left q < fuel) (sym (queue-fail_current (sent s))) fewer in
        subst (λ r. Settled r.0 r.1) (sym e)
          (start_loop-Settled fuel true (fail_current env (sent s)) low)
  ]

  -- Four rounds are enough for starting, whatever the music service answers. It succeeds with the
  -- newest call accepted for the session's current track (or, with none, for a stop), generation and
  -- volume; otherwise no track is current. Either way the session is idle just when no track is
  -- current, not paused, not yet started, and at position 0.
  pub start_current-Settled :
      (s : Session V) → Settled (start_current env s).0 (start_current env s).1
  unfolding start_current
  start_current-Settled s = start_loop-Settled 4 false s (failures_left-le s.queue)

  -- What a failed track leaves: the voice channel, the count of natural ends, and the generation.
  pub record Unmoved (s t : Session V) : Type 0 where
    pub channel : t.channel ≡ s.channel
    pub ended : t.events.finished ≡ s.events.finished
    pub generation : t.generation ≡ s.generation

  pub fail_current-Unmoved : (s : Session V) → Unmoved s (fail_current env s)
  unfolding fail_current notify
  fail_current-Unmoved s = elim (Option-cases s.notification) [
    | inl e ↦ ground arith
    | inr (c, e) ↦ ground arith
  ]

  -- What starting leaves: the voice channel, and the count of natural ends.
  pub record SamePlace (s t : Session V) : Type 0 where
    pub channel : t.channel ≡ s.channel
    pub ended : t.events.finished ≡ s.events.finished

  pub start_loop-SamePlace :
      (fuel : ℕ) (failed : Bool) (s : Session V) → SamePlace s (start_loop env fuel failed s).0
  unfolding start_loop sent prepare_start schedule_end settle
  start_loop-SamePlace zero failed s = record { channel = refl; ended = refl }
  start_loop-SamePlace (suc fuel) failed s = elim (start_loop-cases fuel failed s) [
    | inl (a, e) ↦ rw e (record { channel = refl; ended = refl })
    | inr (inl (n, e)) ↦ rw e (record { channel = refl; ended = refl })
    | inr (inr (n, e)) ↦
        let failure = fail_current-Unmoved (sent s) in
        let rest = start_loop-SamePlace fuel true (fail_current env (sent s)) in
        rw e
          (record { channel = rest.channel ∙ failure.channel; ended = rest.ended ∙ failure.ended })
  ]
