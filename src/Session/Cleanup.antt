-- ===== src/Session/Cleanup.antt =====
-- `invalidate` and `cleanup` of src/session.rs: the end of a playback lifetime.
use raydio.Prelude.{
  ℕ, false, Option, none, some, List, [], ◌∷◌, ◌++◌, Text, codes, if◌then◌else◌, ltb, wrapping_inc,
  is_some, length,
}
use raydio.Playback.{default}
use raydio.Session.{Session, Pending, Env, destroys, leaves, emit, bump, now, notify, draw_token}
use raydio.Session.Panels.{remove_panel}

abbrev pub cancelled_notice : Text
cancelled_notice = codes "That play request was canceled by a newer stop or disconnect."

-- The loop of `invalidate`: every waiting request gets an error, as long as fewer than 128 responses
-- are under way.
unfoldable pub cancel_all : List Pending → List (ℕ × Text) → List (ℕ × Text)
cancel_all [] responses = responses
cancel_all (p ∷ ps) responses = cancel_all ps (
    if ltb (length responses) 128
    then responses ++ (p.request.interaction.id, cancelled_notice) ∷ []
    else responses)

module _ {V : Type 0} where
  -- The requests that have not been committed, the one being resolved first.
  abbrev pub waiting : Session V → List Pending
  waiting s = elim s.loading [ none ↦ s.pending | some p ↦ p ∷ s.pending ]

  -- An aborted loader may have finished already, so it stays among `loaders` until it is joined.
  unfoldable pub invalidate : Session V → Session V
  unfolding cancel_all
  invalidate s = record s {
    epoch = wrapping_inc s.epoch;
    loading = none;
    pending = [];
    responses = cancel_all (waiting s) s.responses;
  }

module _ {P V : Type 0} (env : Env P V) where
  -- The assignments of `cleanup`.
  unfoldable pub reset : Session V → Session V
  reset s = draw_token env (record s {
    channel = none;
    queue = default;
    credentials = none;
    connected = false;
    idle_at = none;
    alone_at = none;
    started = false;
    paused = false;
    panel_checks = 0;
    end_deadline = none;
    volume = env.config.volume;
  })

  abbrev pub count_cleanup : Session V → Session V
  count_cleanup s = record s { events = record s.events { cleanups = bump s.events.cleanups } }

  unfoldable pub cleanup : Option Text → Session V → Session V
  unfolding invalidate remove_panel reset notify
  cleanup notification s =
      let drained = record s {
        preparations = [];
        preparation_target = none;
        preparation_retry = now env s;
      } in
      let removed = remove_panel env (invalidate drained) in
      let left = emit destroys (emit leaves (reset removed)) in
      let told : Session V = elim notification [
        | none ↦ left
        | some text ↦ if is_some removed.channel then notify env text left else left
      ] in
      count_cleanup told
