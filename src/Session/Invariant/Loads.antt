-- ===== src/Session/Invariant/Loads.antt =====
-- The invariant of a session under the play requests (src/session.rs).
use raydio.Prelude.{
  ℕ, ◌+◌, ◌-◌, ◌≤◌, ◌≡◌, refl, sym, subst, Bool, true, false, not, ◌&&◌, Option, none, some, Text,
  arith, is_some, is_none, if◌then◌else◌, first, map, length, leb, ◌==◌,
}
use raydio.Prelude.Results.{Result, ok, err}
use raydio.Playback.{Track, Queue, enqueue, len}
use raydio.Playback.Bounds
use raydio.Playback.Bounds.{enqueue-IsValid}
use raydio.Resolver.{Failure, Resolution}
use raydio.Discord.{Request, user}
use raydio.Voice.Access.{AccessError, message}
use raydio.Session.{
  Session, Env, Pending, emit, Credentials, sets_voice, awaits_credentials, joins, clears_server,
}
use raydio.Session.Play.{start_current}
use raydio.Session.Panels.{present_player}
use raydio.Session.Cleanup.{cleanup, cancelled_notice}
use raydio.Session.Presence.{update_alone}
use raydio.Session.Loading.{
  shared_access, use_credentials, join, start_notes, queued_text, note_enqueued, begin_queue,
  enqueue_resolved, commit_joined, commit_resolved, commit, report, no_join_notice,
  elsewhere_notice, full_notice, in_other_channel, failure_message, requested_by,
}
use raydio.Session.Run.{Loaded, panic_notice, resolved, panicked, aborted, finish_load}
use raydio.Session.Frames.{core_trans, present_player-SameCore, update_alone-SameCore}
use raydio.Session.Invariant.{
  IsValid, SameCore-IsValid, if-IsValid, cleanup-IsValid, start_current-IsValid,
}

module _ {P V : Type 0} (env : Env P V) (percentage : env.config.volume ≤ 100) where
  abbrev limit : ℕ
  limit = env.config.limits.queue

  report-IsValid :
      (r : Request) (t : Text) (s : Session V) → IsValid limit s → IsValid limit (report env r t s)
  report-IsValid r t s v =
      SameCore-IsValid (record { queue = refl; channel = refl; volume = refl }) v

  shown-IsValid :
      (r : Request) (o : Option Text) (s : Session V)
      → IsValid limit s
      → IsValid limit (update_alone env (present_player env r o s))
  shown-IsValid r o s v =
      SameCore-IsValid
        (core_trans (present_player-SameCore env r o s)
          (update_alone-SameCore env (present_player env r o s)))
        v

  begin_queue-IsValid :
      (r : Request) (added omitted : ℕ) (res : Resolution) (s : Session V)
      → IsValid limit s
      → IsValid limit (begin_queue env r added omitted res s)
  unfolding begin_queue
  begin_queue-IsValid r added omitted res s v =
      let begun = start_current-IsValid env limit percentage s v in
      if-IsValid _
        (shown-IsValid r (start_notes env added omitted res) (start_current env s).0 begun)
        (report-IsValid r _ (start_current env s).0 begun)

  enqueue_resolved-IsValid :
      (r : Request) (t : Track) (res : Resolution) (s : Session V)
      → is_some s.channel ≡ true
      → IsValid limit s
      → IsValid limit (enqueue_resolved env r t res s)
  unfolding enqueue_resolved note_enqueued
  enqueue_resolved-IsValid r t res s c v =
      let q : Queue = (enqueue s.queue res.tracks limit).0 in
      let added = (enqueue s.queue res.tracks limit).1 in
      let omitted = res.omitted + length res.tracks - added in
      let within : Bounds.IsValid limit q = enqueue-IsValid limit s.queue res.tracks v.queue in
      let noted : IsValid limit (note_enqueued env r q s) = record {
        queue = within;
        placed = ground arith;
        audible = v.audible;
      } in
      if-IsValid _
        (report-IsValid r _ (record s { queue = q })
          (record { queue = within; placed = ground arith; audible = v.audible }))
        (if-IsValid (is_none s.queue.current)
          (begin_queue-IsValid r added omitted res (note_enqueued env r q s) noted)
          (shown-IsValid r (some (queued_text env added omitted t res)) (note_enqueued env r q s)
            noted))

  commit_joined-IsValid :
      (p : Pending) (res : Resolution) (s : Session V)
      → is_some s.channel ≡ true
      → IsValid limit s
      → IsValid limit (commit_joined env p res s)
  unfolding commit_joined
  commit_joined-IsValid p res s c v =
      with_access (shared_access env s (user p.request) (some p.channel))
    where
      owned : Resolution
      owned = record res { tracks = map (requested_by env p.request) res.tracks }

      with_first :
          (o : Option Track)
          → IsValid limit (elim o [ none ↦ s | some t ↦ enqueue_resolved env p.request t owned s ])
      with_first none = v
      with_first (some t) = enqueue_resolved-IsValid p.request t owned s c v

      with_access :
          (a : Result ℕ AccessError)
          → IsValid limit (elim a [
            | err e ↦ report env p.request (message e) s
            | ok channel ↦ elim (first owned.tracks) [
              | none ↦ s
              | some t ↦ enqueue_resolved env p.request t owned s
            ]
          ])
      with_access (err e) = report-IsValid p.request (message e) s v
      with_access (ok channel) = with_first (first owned.tracks)

  -- What a join that succeeds leaves.
  abbrev Joined : Session V → Session V × Bool → Type 0
  Joined s r =
      r.1 ≡ true → (r.0.queue ≡ s.queue) × (r.0.volume ≡ s.volume) × (is_some r.0.channel ≡ true)

  if-Joined :
      (s : Session V) (b : Bool) (r t : Session V × Bool)
      → Joined s r
      → Joined s t
      → Joined s (if b then r else t)
  if-Joined s true r t h k = h
  if-Joined s false r t h k = k

  false-Joined : (s t : Session V) → Joined s (t, false)
  false-Joined s t h = absurd (ground arith)

  use_credentials-Joined :
      (channel : ℕ) (o : Option Credentials) (s : Session V)
      → Joined s (use_credentials env channel o s)
  unfolding use_credentials
  use_credentials-Joined channel none s = false-Joined s s
  use_credentials-Joined channel (some c) s =
      let sent : Session V = emit (sets_voice c channel (some s.volume)) s in
      if-Joined s (env.ready s.log && env.accepts sent.log) _ (sent, false)
        (λ h. (refl, refl, refl)) (false-Joined s sent)

  join-Joined : (channel : ℕ) (s : Session V) → Joined s (join env channel s)
  unfolding join
  join-Joined channel s =
      let asked : Session V = emit (joins channel) (emit clears_server s) in
      let waited : Session V = emit (awaits_credentials channel) asked in
      if-Joined s (not (env.accepts asked.log)) (asked, false) _ (false-Joined s asked)
        (use_credentials-Joined channel (env.obtained waited.log) waited)

  joined-IsValid :
      (channel : ℕ) (s : Session V)
      → (join env channel s).1 ≡ true
      → IsValid limit s
      → IsValid limit (join env channel s).0
  joined-IsValid channel s h v =
      let (queue, volume, placed) = join-Joined channel s h in
      record {
        queue = subst (Bounds.IsValid limit) (sym queue) v.queue;
        placed = rw placed refl;
        audible = rw volume v.audible;
      }

  commit_resolved-IsValid :
      (p : Pending) (res : Resolution) (s : Session V)
      → IsValid limit s
      → IsValid limit (commit_resolved env p res s)
  unfolding commit_resolved
  commit_resolved-IsValid p res s v =
      if-IsValid (in_other_channel s.channel p.channel)
        (report-IsValid p.request elsewhere_notice s v)
        (if-IsValid (leb limit (len s.queue)) (report-IsValid p.request full_notice s v)
          (in_channel (is_some s.channel) refl))
    where
      joining :
          (b : Bool)
          → (join env p.channel s).1 ≡ b
          → IsValid limit (
              if b
              then commit_joined env p res (join env p.channel s).0
              else report env p.request no_join_notice (cleanup env none (join env p.channel s).0))
      joining true e =
          commit_joined-IsValid p res (join env p.channel s).0 (join-Joined p.channel s e).2
            (joined-IsValid p.channel s e v)
      joining false e =
          report-IsValid p.request no_join_notice _
            (cleanup-IsValid env limit percentage none (join env p.channel s).0)

      in_channel :
          (b : Bool)
          → is_some s.channel ≡ b
          → IsValid limit (
              if b
              then commit_joined env p res s
              else if (join env p.channel s).1
              then commit_joined env p res (join env p.channel s).0
              else report env p.request no_join_notice (cleanup env none (join env p.channel s).0))
      in_channel true e = commit_joined-IsValid p res s e v
      in_channel false e = joining (join env p.channel s).1 refl

  commit-IsValid :
      (p : Pending) (r : Result Resolution Failure) (s : Session V)
      → IsValid limit s
      → IsValid limit (commit env p r s)
  unfolding commit
  commit-IsValid p r s v =
      if-IsValid (not (p.epoch == s.epoch)) (report-IsValid p.request cancelled_notice s v)
        (with_resolution r)
    where
      with_access :
          (res : Resolution) (a : Result ℕ AccessError)
          → IsValid limit (elim a [
            | err e ↦ report env p.request (message e) s
            | ok channel ↦ commit_resolved env p res s
          ])
      with_access res (err e) = report-IsValid p.request (message e) s v
      with_access res (ok channel) = commit_resolved-IsValid p res s v

      with_resolution :
          (o : Result Resolution Failure)
          → IsValid limit (elim o [
            | err e ↦ report env p.request (failure_message e) s
            | ok res ↦ elim (shared_access env s (user p.request) (some p.channel)) [
              | err e ↦ report env p.request (message e) s
              | ok channel ↦ commit_resolved env p res s
            ]
          ])
      with_resolution (err e) = report-IsValid p.request (failure_message e) s v
      with_resolution (ok res) =
          with_access res (shared_access env s (user p.request) (some p.channel))

  pub finish_load-IsValid :
      (l : Loaded) (s : Session V) → IsValid limit s → IsValid limit (finish_load env l s)
  unfolding finish_load
  finish_load-IsValid (resolved sequence r) s v = with_loading s.loading
    where
      with_loading :
          (o : Option Pending)
          → IsValid limit (elim o [
            | none ↦ s
            | some p ↦
                if p.sequence == sequence then commit env p r (record s { loading = none }) else s
          ])
      with_loading none = v
      with_loading (some p) =
          if-IsValid _
            (commit-IsValid p r (record s { loading = none })
              (SameCore-IsValid (record { queue = refl; channel = refl; volume = refl }) v))
            v
  finish_load-IsValid panicked s v = with_loading s.loading
    where
      with_loading :
          (o : Option Pending)
          → IsValid limit (elim o [
            | none ↦ s
            | some p ↦ report env p.request panic_notice (record s { loading = none })
          ])
      with_loading none = v
      with_loading (some p) =
          report-IsValid p.request panic_notice (record s { loading = none })
            (SameCore-IsValid (record { queue = refl; channel = refl; volume = refl }) v)
  finish_load-IsValid aborted s v = v
