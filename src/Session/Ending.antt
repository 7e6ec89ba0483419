-- ===== src/Session/Ending.antt =====
-- The end of a playback lifetime: `cleanup` and `invalidate` of src/session.rs.
use mathlib.Core.List.{append_assoc, append-nil}
use raydio.Prelude.{
  ℕ, zero, suc, ◌+◌, ◌-◌, ◌≤◌, ◌≡◌, refl, ap, ◌∙◌, true, false, Option, none, some, List, [], ◌∷◌,
  ◌++◌, map, Text, arith, ltb, is_some, Bool-cases, Option-cases, inl, inr, length, take,
  length-append, wrapping_inc,
}
use raydio.Playback.{default}
use raydio.Session.{Session, Pending, Env, notify, emit, now, destroys, leaves}
use raydio.Session.Panels.{remove_panel, delete_panel}
use raydio.Session.Cleanup.{
  cancelled_notice, cancel_all, waiting, invalidate, reset, cleanup, count_cleanup,
}

-- The answer that a cancelled request gets.
abbrev pub cancellation : Pending → ℕ × Text
cancellation p = (p.request.interaction.id, cancelled_notice)

take-nil : {A : Type 0} → (k : ℕ) → take {A = A} k [] ≡ []
take-nil zero = refl
take-nil (suc k) = refl

-- With room for `k` more responses, the first `k` requests are answered.
cancel_all-take :
    (k : ℕ) (ps : List Pending) (rs : List (ℕ × Text))
    → length rs + k ≡ 128
    → cancel_all ps rs ≡ rs ++ take k (map cancellation ps)
unfolding cancel_all
cancel_all-take k [] rs h = ground (arith, append-nil rs, take-nil {A = ℕ × Text} k)
cancel_all-take zero (p ∷ ps) rs h =
    let full : ltb (length rs) 128 ≡ false = ground arith in rw full (cancel_all-take zero ps rs h)
cancel_all-take (suc k) (p ∷ ps) rs h =
    let room : ltb (length rs) 128 ≡ true = ground arith in
    let more : length (rs ++ cancellation p ∷ []) + k ≡ 128 =
      ground (arith, length-append rs (cancellation p ∷ [])) in
    rw room (
      cancel_all-take k ps (rs ++ cancellation p ∷ []) more
      ∙ append_assoc rs (cancellation p ∷ []) (take k (map cancellation ps)))

module _ {P V : Type 0} (env : Env P V) where
  -- A session with no playback lifetime, after one with state `s`.
  pub record Ended (s t : Session V) : Type 0 where
    pub silent :
        (t.queue ≡ default) × (t.started ≡ false) × (t.paused ≡ false) × (t.end_deadline ≡ none)
    pub left : (t.channel ≡ none) × (t.credentials ≡ none) × (t.connected ≡ false)
    pub unhurried : (t.idle_at ≡ none) × (t.alone_at ≡ none)
    pub unloaded : (t.loading ≡ none) × (t.pending ≡ []) × (t.epoch ≡ wrapping_inc s.epoch)
    pub unprepared : (t.preparations ≡ []) × (t.preparation_target ≡ none)
    pub no_panel : (t.panel ≡ none) × (t.panel_edits ≡ [])
    pub volume : t.volume ≡ env.config.volume

  -- A notification only adds to the log.
  pub notify-log :
      (text : Text) (s : Session V) → notify env text s ≡ record s { log = (notify env text s).log }
  unfolding notify
  notify-log text s = elim (Option-cases s.notification) [
    | inl e ↦ rw e refl
    | inr (c, e) ↦ rw e refl
  ]

  -- A cleanup up to the removal of the player message, and up to the notification.
  abbrev pub removed : Session V → Session V
  removed s = remove_panel env (
      invalidate
        (record s { preparations = []; preparation_target = none; preparation_retry = now env s }))

  abbrev pub silenced : Session V → Session V
  silenced s = emit destroys (emit leaves (reset env (removed s)))

  pub cleanup-log :
      (n : Option Text) (s : Session V)
      → cleanup env n s ≡ count_cleanup env (record (silenced s) { log = (cleanup env n s).log })
  unfolding cleanup
  cleanup-log none s = refl
  cleanup-log (some text) s = elim (Bool-cases (is_some (removed s).channel)) [
    | inl e ↦ rw e (ap (count_cleanup env) (notify-log text (silenced s)))
    | inr e ↦ rw e refl
  ]

  -- The removal of a player message touches nothing but the message and the log.
  remove_panel-frame :
      (s : Session V)
      → ((remove_panel env s).loading ≡ s.loading)
        × ((remove_panel env s).pending ≡ s.pending)
        × ((remove_panel env s).epoch ≡ s.epoch)
        × ((remove_panel env s).responses ≡ s.responses)
        × ((remove_panel env s).preparations ≡ s.preparations)
        × ((remove_panel env s).preparation_target ≡ s.preparation_target)
        × ((remove_panel env s).panel ≡ none)
        × ((remove_panel env s).panel_edits ≡ [])
  unfolding remove_panel delete_panel
  remove_panel-frame s = elim (Option-cases s.panel) [
    | inl e ↦ rw e (refl, refl, refl, refl, refl, refl, refl, refl)
    | inr (p, e) ↦ rw e (refl, refl, refl, refl, refl, refl, refl, refl)
  ]

  -- A cleanup resets the session: an empty queue in the loop mode `off`, no voice channel or
  -- credentials, no deadlines, no waiting or resolving request, no preparation, no player message, the
  -- configured volume, and a new epoch.
  pub cleanup-Ended : (n : Option Text) (s : Session V) → Ended s (cleanup env n s)
  unfolding reset invalidate
  cleanup-Ended n s =
      let (loading, waits, epoch, responses, prepared, target, shown, edited) = remove_panel-frame (
        invalidate (record s {
          preparations = [];
          preparation_target = none;
          preparation_retry = now env s;
        })) in
      rw (cleanup-log n s) (record {
        silent = (refl, refl, refl, refl);
        left = (refl, refl, refl);
        unhurried = (refl, refl);
        unloaded = (loading, waits, epoch);
        unprepared = (prepared, target);
        no_panel = (shown, edited);
        volume = refl;
      })

  -- A cleanup answers every request that waits or is being resolved, oldest first, as long as there
  -- are fewer than 128 responses under way.
  pub cleanup-responses :
      (n : Option Text) (s : Session V)
      → length s.responses ≤ 128
      → (cleanup env n s).responses
        ≡ s.responses ++ take (128 - length s.responses) (map cancellation (waiting s))
  unfolding reset invalidate
  cleanup-responses n s h =
      let (loading, waits, epoch, responses, prepared, target, shown, edited) = remove_panel-frame (
        invalidate (record s {
          preparations = [];
          preparation_target = none;
          preparation_retry = now env s;
        })) in
      rw (cleanup-log n s) (
        responses
        ∙ cancel_all-take (128 - length s.responses) (waiting s) s.responses (omega arith))
