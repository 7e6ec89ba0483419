-- ===== src/Session/Watchdog.antt =====
-- The watchdog of src/session.rs: `check_playback` and what it calls.
use raydio.Prelude.{
  ℕ, ◌+◌, ◌≡◌, refl, subst, ◌∙◌, Bool, true, false, not, ◌&&◌, Option, none, some, List, ◌∷◌,
  if◌then◌else◌, arith, Bool-cases, Option-cases, inl, inr,
}
use raydio.Session.{Session, Env, Effect, reads_player, emit, now, seconds, schedule_end}
use raydio.Session.Play.{fail_current, start_current, track_failure}
use raydio.Session.Monitor.{
  Payload, is_finished, is_generation, observe_progress, recover_unverifiable_stall, recover,
  recover_current, recover_playback, check_playback, count_watchdog, check_again, is_quiet,
}
use raydio.Session.Starting.{fail_current-Unmoved, start_loop-SamePlace}

-- What makes a snapshot of the player prove that the current track came to its natural end.
abbrev pub proves_end : Payload → ℕ → Bool
proves_end p generation =
    not (is_generation p.crust_generation generation)
    && p.track_is_null
    && is_generation p.terminal_generation generation
    && is_finished p.terminal_reason

unproven :
    (c n t f : Bool)
    → (not c && n && t && f) ≡ false
    → c ≡ false
    → not (n && t) ≡ false
    → f ≡ true
    → ⊥
unproven c n t f h i j k = ground arith

module _ {P V : Type 0} (env : Env P V) where
  track_failure-ended : (s : Session V) → (track_failure env s).events.finished ≡ s.events.finished
  unfolding track_failure start_current
  track_failure-ended s =
      (start_loop-SamePlace env 4 false (fail_current env s)).ended
      ∙ (fail_current-Unmoved env s).ended

  stall-ended :
      (s : Session V) → (recover_unverifiable_stall env s).events.finished ≡ s.events.finished
  unfolding recover_unverifiable_stall
  stall-ended s = ground (arith, track_failure-ended (count_watchdog env s))

  observe_progress-ended :
      (p : Payload) (s : Session V) → (observe_progress env p s).events.finished ≡ s.events.finished
  unfolding observe_progress schedule_end
  observe_progress-ended p s = elim (Option-cases p.position) [
    | inl e ↦ ground arith
    | inr (at, e) ↦ ground arith
  ]

  recover_current-ended :
      (p : Payload) (s : Session V) → (recover_current env p s).events.finished ≡ s.events.finished
  unfolding recover_current recover schedule_end
  recover_current-ended p s = ground (
    arith,
    observe_progress-ended p s,
    track_failure-ended (count_watchdog env (observe_progress env p s)),
  )

  if-ended :
      (b : Bool) (s t u : Session V)
      → (b ≡ true → t.events.finished ≡ s.events.finished)
      → (b ≡ false → u.events.finished ≡ s.events.finished)
      → (if b then t else u).events.finished ≡ s.events.finished
  if-ended true s t u h k = h refl
  if-ended false s t u h k = k refl

  recover_playback-ended :
      (p : Payload) (s : Session V)
      → proves_end p s.generation ≡ false
      → (recover_playback env p s).events.finished ≡ s.events.finished
  unfolding recover_playback recover
  recover_playback-ended p s h =
      if-ended (is_generation p.crust_generation s.generation) s _ _
        (λ c. recover_current-ended p s)
        (λ c.
          if-ended (not (p.track_is_null && is_generation p.terminal_generation s.generation)) s _ _
            (λ t. stall-ended (check_again env s))
            (λ t.
              if-ended (is_finished p.terminal_reason) s _ _
                (λ f. absurd (
                  unproven (is_generation p.crust_generation s.generation) p.track_is_null
                    (is_generation p.terminal_generation s.generation)
                    (is_finished p.terminal_reason) h c t f))
                (λ f. track_failure-ended (count_watchdog env s))))

  abbrev asked : Session V → Session V
  asked s = emit reads_player (record s { watchdog_retry = now env s + seconds 5 })

  abbrev pub is_proven : Option Payload → ℕ → Bool
  is_proven none generation = false
  is_proven (some p) generation = proves_end p generation

  -- The watchdog counts a natural end of the current track only when the music service's snapshot
  -- proves one: no track of this generation plays, and its terminal state says that it finished.
  pub check_playback-proven :
      (snapshot : List (Effect V) → Option Payload) (s : Session V)
      → is_proven (snapshot (reads_player ∷ s.log)) s.generation ≡ false
      → (check_playback env snapshot s).events.finished ≡ s.events.finished
  unfolding check_playback
  check_playback-proven snapshot s h = elim (Bool-cases (is_quiet env s)) [
    | inl q ↦ rw q refl
    | inr q ↦ elim (Option-cases (snapshot (reads_player ∷ s.log))) [
      | inl e ↦ rw (q, e) (stall-ended (check_again env (asked s)))
      | inr (p, e) ↦
          let unproven : proves_end p s.generation ≡ false =
            subst (λ o. is_proven o s.generation ≡ false) e h in
          rw (q, e) (recover_playback-ended p (asked s) unproven)
    ]
  ]
