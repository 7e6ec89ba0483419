-- ===== src/Session/Panels.antt =====
-- The player message of a session: `refresh`, `finish_refresh`, `present_player` and the removal of
-- panels in src/session.rs.
use raydio.Prelude.{
  ℕ, zero, suc, ◌+◌, ◌-◌, Bool, true, false, not, ◌&&◌, ◌||◌, Option, none, some, List, [], ◌∷◌,
  Text, if◌then◌else◌, ltb, leb, ◌==◌, is_some, is_none,
}
use raydio.Discord.{Request}
use raydio.Session.{
  Session, Panel, EditTask, EditKind, edits, checks, EditOutcome, delivered, stale,
  transient_failure, terminal_failure, lost, Env, responds, joins_edit, deletes, emit, bump, now,
  position, seconds,
}

-- The wait for a free place among the deletions, of which there are at most 16.
unfoldable pub wait_below : ℕ → ℕ
wait_below zero = zero
wait_below (suc n) = let fewer = wait_below n in if leb 16 (suc n) then fewer else suc n

module _ {V : Type 0} where
  unfoldable pub delete_panel : Panel V → Session V → Session V
  unfolding wait_below
  delete_panel p s =
      emit (deletes p.channel p.message)
        (record s { panel_deletions = wait_below s.panel_deletions + 1 })

  abbrev pub is_panel_of : EditTask V → Option (Panel V) → Bool
  is_panel_of t none = false
  is_panel_of t (some p) = p.channel == t.channel && p.message == t.message

  abbrev pub with_last_view : Option V → Option (Panel V) → Option (Panel V)
  with_last_view v none = none
  with_last_view v (some p) = some (record p { last_view = v })

module _ {P V : Type 0} (env : Env P V) where
  abbrev retry_later : Session V → Session V
  retry_later s = record s { edit_errors = bump s.edit_errors; panel_retry = now env s + seconds 3 }

  -- The outcome of an edit of the current panel.
  unfoldable pub apply_outcome : EditOutcome → EditTask V → Session V → Session V
  apply_outcome stale t s = record s { panel = with_last_view none s.panel }
  apply_outcome delivered t s = record s {
    panel = with_last_view (some t.view) s.panel;
    edits = bump s.edits;
  }
  apply_outcome terminal_failure t s = record s {
    edit_terminal = bump s.edit_terminal;
    panel = none;
  }
  apply_outcome transient_failure t s = retry_later s
  apply_outcome lost t s = retry_later s

  abbrev is_lost : EditOutcome → Bool
  is_lost lost = true
  is_lost _ = false

  unfoldable pub finish_refresh : EditOutcome → EditTask V → Session V → Session V
  unfolding apply_outcome
  finish_refresh o t s =
      if is_lost o
      then retry_later s
      else if not (is_panel_of t s.panel)
      then s
      else apply_outcome o t s

  -- Waits for the edit that is under way, if one is.
  unfoldable pub flush_refresh : Session V → Session V
  unfolding finish_refresh
  flush_refresh s = elim s.panel_edits [
    | [] ↦ s
    | t ∷ ts ↦
        let joined = emit (joins_edit t) (record s { panel_edits = ts }) in
        finish_refresh (env.outcome joined.log) t joined
  ]

  unfoldable pub remove_panel : Session V → Session V
  unfolding delete_panel
  remove_panel s =
      let cleared = record s { panel_checks = 0; panel_retry = now env s; panel_edits = [] } in
      elim s.panel [ none ↦ cleared | some p ↦ delete_panel p (record cleared { panel = none }) ]

  abbrev pub panel_token : Session V → Text
  panel_token s = elim s.panel [ none ↦ s.token | some p ↦ p.token ]

  unfoldable pub player_view : Session V → V
  unfolding position
  player_view s = env.player_view s.queue (panel_token s) s.paused s.volume (position env s)

  -- `queue_view` draws a new token when the view has no buttons.
  unfoldable pub queue_view : ℕ → Session V → Session V × V
  unfolding position
  queue_view page s =
      let (view, bare) = env.queue_view s.queue s.token page s.paused s.volume (position env s) in
      (if bare then record s { token = env.random_token s.draws; draws = s.draws + 1 } else s, view)

  abbrev shows : Option V → V → Bool
  shows none v = false
  shows (some w) v = env.same_view w v

  -- Whether a paused panel is due for a check of what Discord stored.
  abbrev check_due : Session V → Bool
  check_due s = s.paused && ltb 0 s.panel_checks && leb s.panel_check_at (now env s)

  -- `refresh` with a panel, no edit under way and the retry time passed.
  unfoldable pub refresh_panel : Panel V → Session V → Session V
  unfolding player_view
  refresh_panel p s =
      let view = player_view s in
      let task : EditKind → EditTask V =
        λ kind. record { kind = kind; channel = p.channel; message = p.message; view = view } in
      if shows p.last_view view
      then if check_due s
        then record s {
          panel_checks = s.panel_checks - 1;
          panel_check_at = now env s + seconds 1;
          panel_edits = task checks ∷ [];
        }
        else s
      else record s { panel_edits = task edits ∷ [] }

  abbrev pub has_edit : List (EditTask V) → Bool
  has_edit [] = false
  has_edit (t ∷ ts) = true

  unfoldable pub refresh : Session V → Session V
  unfolding remove_panel refresh_panel
  refresh s = elim s.queue.current [
    | none ↦ remove_panel s
    | some t ↦
        if has_edit s.panel_edits || ltb (now env s) s.panel_retry
        then s
        else elim s.panel [ none ↦ s | some p ↦ refresh_panel p s ]
  ]

  -- The new panel of `present_player` retires the one before, unless it is the same message.
  unfoldable pub replace_panel : Panel V → Session V → Session V
  unfolding delete_panel
  replace_panel p s =
      let replaced = record s { panel = some p } in
      elim s.panel [
        | none ↦ replaced
        | some old ↦
            if old.channel == p.channel && old.message == p.message
            then replaced
            else delete_panel old replaced
      ]

  -- The new panel, if the response has a message and a track is current.
  unfoldable pub adopt_panel : Text → V → Option (ℕ × ℕ) → Session V → Session V
  unfolding replace_panel
  adopt_panel token view none s = s
  adopt_panel token view (some (channel, message)) s =
      if is_some s.queue.current
      then replace_panel
          (record { channel = channel; message = message; token = token; last_view = some view }) s
      else s

  -- `present_player` after the edit under way.
  unfoldable pub send_player : Request → Option Text → Session V → Session V
  unfolding position adopt_panel
  send_player r content s =
      let token = env.random_token s.draws in
      let view =
        env.with_content content
          (env.player_view s.queue token s.paused s.volume (position env s)) in
      let sent =
        emit (responds r.interaction.id view)
          (record s { panel_checks = 0; draws = s.draws + 1 }) in
      adopt_panel token view (env.message sent.log) sent

  unfoldable pub present_player : Request → Option Text → Session V → Session V
  unfolding remove_panel flush_refresh send_player
  present_player r content s =
      send_player r content (flush_refresh (if is_none s.queue.current then remove_panel s else s))
