-- ===== src/Session/Frames.antt =====
-- Handlers of src/session.rs that leave the queue, the voice channel and the volume alone.
use raydio.Prelude.{
  ℕ, ◌+◌, ◌≡◌, refl, ◌∙◌, Bool, true, false, not, Option, none, some, Text, if◌then◌else◌, arith,
  is_some, is_none, Option-cases, List-cases, inl, inr,
}
use raydio.Prelude.Results.{Result, ok, err}
use raydio.Voice.Access.{AccessError}
use raydio.Discord.{Request, user, updates_message}
use raydio.Session.{
  Session, Panel, Env, EditTask, EditOutcome, notify, schedule_end, emit, joins_edit, responds,
  position, ensures_membership,
}
use raydio.Session.Panels.{
  delete_panel, apply_outcome, finish_refresh, flush_refresh, remove_panel, queue_view,
  refresh_panel, refresh, replace_panel, present_player, adopt_panel, send_player,
}
use raydio.Session.Monitor.{Payload, observe_progress, begin_track}
use raydio.Session.Presence.{update_alone}
use raydio.Session.Prepare.{Joined, prepare_next, finish_preparation}
use raydio.Session.Loading.{push_pending, admit_play, prepare_play, start_load, shared_access}
use raydio.Session.Interaction.{show_queue, note_shown, update_panel, answer}
use raydio.Session.Control.Actions.{Answer}
use raydio.Session.Run.{finish_first_preparation, finish_edit}

-- The parts of a session that its invariant reads.
pub record SameCore {V : Type 0} (s t : Session V) : Type 0 where
  pub queue : t.queue ≡ s.queue
  pub channel : t.channel ≡ s.channel
  pub volume : t.volume ≡ s.volume

module _ {V : Type 0} where
  pub core_refl : {s : Session V} → SameCore s s
  core_refl = record { queue = refl; channel = refl; volume = refl }

  pub core_trans : {s t u : Session V} → SameCore s t → SameCore t u → SameCore s u
  core_trans h k = record {
    queue = k.queue ∙ h.queue;
    channel = k.channel ∙ h.channel;
    volume = k.volume ∙ h.volume;
  }

  pub core_if :
      (b : Bool) {s t u : Session V} → SameCore s t → SameCore s u → SameCore s (if b then t else u)
  core_if true h k = h
  core_if false h k = k

module _ {P V : Type 0} (env : Env P V) where
  pub notify-SameCore : (text : Text) (s : Session V) → SameCore s (notify env text s)
  unfolding notify
  notify-SameCore text s = elim (Option-cases s.notification) [
    | inl e ↦ rw e core_refl
    | inr (c, e) ↦ rw e (record { queue = refl; channel = refl; volume = refl })
  ]

  pub remove_panel-SameCore : (s : Session V) → SameCore s (remove_panel env s)
  unfolding remove_panel delete_panel
  remove_panel-SameCore s = elim (Option-cases s.panel) [
    | inl e ↦ rw e (record { queue = refl; channel = refl; volume = refl })
    | inr (p, e) ↦ rw e (record { queue = refl; channel = refl; volume = refl })
  ]

  refresh_panel-SameCore : (p : Panel V) (s : Session V) → SameCore s (refresh_panel env p s)
  unfolding refresh_panel
  refresh_panel-SameCore p s = ground arith

  pub refresh-SameCore : (s : Session V) → SameCore s (refresh env s)
  unfolding refresh
  refresh-SameCore s = elim (Option-cases s.panel) [
    | inl e ↦ ground (arith, remove_panel-SameCore s)
    | inr (p, e) ↦ ground (arith, remove_panel-SameCore s, refresh_panel-SameCore p s)
  ]

  apply_outcome-SameCore :
      (o : EditOutcome) (t : EditTask V) (s : Session V) → SameCore s (apply_outcome env o t s)
  unfolding apply_outcome
  apply_outcome-SameCore EditOutcome.stale t s = record {
    queue = refl;
    channel = refl;
    volume = refl;
  }
  apply_outcome-SameCore EditOutcome.delivered t s = record {
    queue = refl;
    channel = refl;
    volume = refl;
  }
  apply_outcome-SameCore EditOutcome.terminal_failure t s = record {
    queue = refl;
    channel = refl;
    volume = refl;
  }
  apply_outcome-SameCore EditOutcome.transient_failure t s = record {
    queue = refl;
    channel = refl;
    volume = refl;
  }
  apply_outcome-SameCore EditOutcome.lost t s = record {
    queue = refl;
    channel = refl;
    volume = refl;
  }

  pub finish_refresh-SameCore :
      (o : EditOutcome) (t : EditTask V) (s : Session V) → SameCore s (finish_refresh env o t s)
  unfolding finish_refresh
  finish_refresh-SameCore o t s = ground (arith, apply_outcome-SameCore o t s)

  pub flush_refresh-SameCore : (s : Session V) → SameCore s (flush_refresh env s)
  unfolding flush_refresh
  flush_refresh-SameCore s = elim (List-cases s.panel_edits) [
    | inl e ↦ rw e core_refl
    | inr (t, ts, e) ↦
        let waited : Session V = emit (joins_edit t) (record s { panel_edits = ts }) in
        let joined : SameCore waited (finish_refresh env (env.outcome waited.log) t waited) =
          finish_refresh-SameCore (env.outcome waited.log) t waited in
        rw e (core_trans (record { queue = refl; channel = refl; volume = refl }) joined)
  ]

  replace_panel-SameCore : (p : Panel V) (s : Session V) → SameCore s (replace_panel env p s)
  unfolding replace_panel delete_panel
  replace_panel-SameCore p s = ground arith

  adopt_panel-SameCore :
      (token : Text) (v : V) (m : Option (ℕ × ℕ)) (s : Session V)
      → SameCore s (adopt_panel env token v m s)
  unfolding adopt_panel
  adopt_panel-SameCore token v none s = core_refl
  adopt_panel-SameCore token v (some (c, m)) s =
      core_if (is_some s.queue.current) (replace_panel-SameCore _ s) core_refl

  send_player-SameCore :
      (r : Request) (content : Option Text) (s : Session V)
      → SameCore s (send_player env r content s)
  unfolding send_player
  send_player-SameCore r content s =
      let token = env.random_token s.draws in
      let view =
        env.with_content content
          (env.player_view s.queue token s.paused s.volume (position env s)) in
      let sent : Session V =
        emit (responds r.interaction.id view)
          (record s { panel_checks = 0; draws = s.draws + 1 }) in
      core_trans {t = sent} (record { queue = refl; channel = refl; volume = refl })
        (adopt_panel-SameCore token view (env.message sent.log) sent)

  pub present_player-SameCore :
      (r : Request) (content : Option Text) (s : Session V)
      → SameCore s (present_player env r content s)
  unfolding present_player
  present_player-SameCore r content s =
      let kept : Session V = if is_none s.queue.current then remove_panel env s else s in
      core_trans (core_if (is_none s.queue.current) (remove_panel-SameCore s) core_refl) (
        core_trans (flush_refresh-SameCore kept)
          (send_player-SameCore r content (flush_refresh env kept)))

  pub update_alone-SameCore : (s : Session V) → SameCore s (update_alone env s)
  unfolding update_alone
  update_alone-SameCore s = record { queue = refl; channel = refl; volume = refl }

  pub observe_progress-SameCore :
      (p : Payload) (s : Session V) → SameCore s (observe_progress env p s)
  unfolding observe_progress schedule_end
  observe_progress-SameCore p s = elim (Option-cases p.position) [
    | inl e ↦ ground arith
    | inr (at, e) ↦ ground arith
  ]

  pub begin_track-SameCore : (s : Session V) → SameCore s (begin_track env s)
  unfolding begin_track schedule_end
  begin_track-SameCore s = record { queue = refl; channel = refl; volume = refl }

  pub show_queue-SameCore :
      (page : ℕ) (r : Request) (s : Session V) → SameCore s (show_queue env page r s)
  unfolding show_queue queue_view
  show_queue-SameCore page r s = ground arith

  pub update_panel-SameCore : (r : Request) (s : Session V) → SameCore s (update_panel env r s)
  unfolding update_panel note_shown
  update_panel-SameCore r s = ground arith

  answer-SameCore : (r : Request) (a : Answer) (s : Session V) → SameCore s (answer env r a s)
  unfolding answer
  answer-SameCore r (err e) s = record { queue = refl; channel = refl; volume = refl }
  answer-SameCore r (ok text) s =
      let flushed = flush_refresh-SameCore s in
      core_if (not (updates_message r)) (record { queue = refl; channel = refl; volume = refl })
        (core_if (is_some (flush_refresh env s).queue.current)
          (core_trans flushed (update_panel-SameCore r (flush_refresh env s)))
          (core_trans flushed (remove_panel-SameCore (flush_refresh env s))))

  pub respond-SameCore :
      (r : Request) (a : Answer) (s : Session V) → SameCore s (refresh env (answer env r a s))
  respond-SameCore r a s = core_trans (answer-SameCore r a s) (refresh-SameCore (answer env r a s))

  admit_play-SameCore :
      (r : Request) (a : Result ℕ AccessError) (s : Session V) → SameCore s (admit_play env r a s)
  unfolding admit_play push_pending
  admit_play-SameCore r (err e) s = record { queue = refl; channel = refl; volume = refl }
  admit_play-SameCore r (ok c) s = ground arith

  pub prepare_play-SameCore : (r : Request) (s : Session V) → SameCore s (prepare_play env r s)
  unfolding prepare_play
  prepare_play-SameCore r s =
      let asked : Session V = emit ensures_membership s in
      let admitted = admit_play-SameCore r (shared_access env asked (user r) none) asked in
      ground arith

  pub start_load-SameCore : (s : Session V) → SameCore s (start_load env s)
  unfolding start_load
  start_load-SameCore s = elim (List-cases s.pending) [
    | inl e ↦ ground arith
    | inr (p, ps, e) ↦ ground arith
  ]

  pub prepare_next-SameCore : (s : Session V) → SameCore s (prepare_next env s)
  unfolding prepare_next
  prepare_next-SameCore s = ground arith

  pub finish_edit-SameCore : (s : Session V) → SameCore s (finish_edit env s)
  unfolding finish_edit
  finish_edit-SameCore s = elim (List-cases s.panel_edits) [
    | inl e ↦ ground arith
    | inr (t, ts, e) ↦
        let joined : Session V = record s { panel_edits = ts } in
        let done = finish_refresh-SameCore (env.outcome joined.log) t joined in
        let shown = refresh-SameCore (finish_refresh env (env.outcome joined.log) t joined) in
        rw e (
          core_trans {t = joined} (record { queue = refl; channel = refl; volume = refl })
            (core_trans done shown))
  ]

  pub finish_first_preparation-SameCore :
      (j : Joined) (s : Session V) → SameCore s (finish_first_preparation env j s)
  unfolding finish_first_preparation finish_preparation
  finish_first_preparation-SameCore j s = elim (List-cases s.preparations) [
    | inl e ↦ ground arith
    | inr (t, ts, e) ↦ ground arith
  ]
