-- ===== src/Session/Stale.antt =====
-- Loaders of src/session.rs that end when their request is no longer wanted.
use raydio.Prelude.{
  ℕ, suc, ◌+◌, ◌≤◌, ◌<◌, ◌≡◌, refl, sym, ◌∙◌, Bool, true, false, Option, none, some, List, [], ◌∷◌,
  ◌++◌, Text, arith, length, if◌then◌else◌, is_some, not, leb, trim, codes, wrapping_inc,
  Option-cases, inl, inr,
}
use raydio.Prelude.Results.{Result, ok, err}
use raydio.Voice.Access.{AccessError}
use raydio.Voice.Bounds.{All}
use raydio.Discord.{Request, user, option}
use raydio.Playback.{len}
use raydio.Resolver.{Failure, Resolution}
use raydio.Session.{Session, Pending, Env, emit, ensures_membership}
use raydio.Session.Cleanup.{invalidate, reset, cleanup}
use raydio.Session.Panels.{remove_panel, delete_panel}
use raydio.Session.Loading.{
  push_pending, admit_play, prepare_play, shared_access, start_load, in_other_channel, is_blank,
  pending_count,
}
use raydio.Session.Run.{resolved, finish_load}
use raydio.Session.Ending.{cleanup-log, cleanup-Ended}

-- The sequence numbers after `k`.
abbrev IsLater : ℕ → Pending → Type 0
IsLater k p = k < p.sequence

All-snoc :
    (k : ℕ) (ps : List Pending) (p : Pending)
    → All (IsLater k) ps
    → IsLater k p
    → All (IsLater k) (ps ++ p ∷ [])
All-snoc k [] p h l = (l, tt)
All-snoc k (q ∷ ps) p h l = (h.0, All-snoc k ps p h.1 l)

-- The requests that wait or are being resolved came after the one with number `k`, and `m` more
-- requests do not make the numbers wrap.
record AllLater {V : Type 0} (k m : ℕ) (s : Session V) : Type 0 where
  given : k ≤ s.sequence
  unwrapped : s.sequence + m < 18446744073709551616
  waits : All (IsLater k) s.pending
  resolves : (p : Pending) → s.loading ≡ some p → IsLater k p

fewer :
    {V : Type 0} {k m : ℕ} (s t : Session V)
    → t.sequence ≡ s.sequence
    → t.pending ≡ s.pending
    → t.loading ≡ s.loading
    → AllLater k (suc m) s
    → AllLater k m t
fewer {k} s t e p l h = record {
  given = let g = h.given in omega arith;
  unwrapped = let u = h.unwrapped in omega arith;
  waits = rw p h.waits;
  resolves = λ q e'. h.resolves q (sym l ∙ e');
}

if-AllLater :
    {V : Type 0} {k m : ℕ} (b : Bool) {s t : Session V}
    → AllLater k m s
    → AllLater k m t
    → AllLater k m (if b then s else t)
if-AllLater true h g = h
if-AllLater false h g = g

module _ {P V : Type 0} (env : Env P V) where
  -- Play requests that the session handles, one after the other.
  abbrev pub asked : List Request → Session V → Session V
  asked [] s = s
  asked (r ∷ rs) s = asked rs (start_load env (prepare_play env r s))

  push_pending-AllLater :
      (k m : ℕ) (r : Request) (c : ℕ) (s : Session V)
      → AllLater k (suc m) s
      → AllLater k m (push_pending env r c s)
  unfolding push_pending
  push_pending-AllLater k m r c s h =
      let u = h.unwrapped in
      let g = h.given in
      let next : wrapping_inc s.sequence ≡ s.sequence + 1 = omega arith in
      record {
        given = omega (arith, next);
        unwrapped = omega (arith, next);
        waits = All-snoc k s.pending _ h.waits (omega (arith, next));
        resolves = h.resolves;
      }

  admit_play-AllLater :
      (k m : ℕ) (r : Request) (a : Result ℕ AccessError) (s : Session V)
      → AllLater k (suc m) s
      → AllLater k m (admit_play env r a s)
  unfolding admit_play
  admit_play-AllLater k m r (err e) s h = fewer s _ refl refl refl h
  admit_play-AllLater k m r (ok c) s h =
      if-AllLater (in_other_channel s.channel c) (fewer s _ refl refl refl h) (
        if-AllLater (leb env.config.limits.queue (len s.queue)) (fewer s _ refl refl refl h)
          (push_pending-AllLater k m r c s h))

  prepare_play-AllLater :
      (k m : ℕ) (r : Request) (s : Session V)
      → AllLater k (suc m) s
      → AllLater k m (prepare_play env r s)
  unfolding prepare_play
  prepare_play-AllLater k m r s h =
      let checked : Session V = emit ensures_membership s in
      if-AllLater (not (env.ready s.log)) (fewer s _ refl refl refl h) (
        if-AllLater (is_blank env (trim (option r (codes "request")))) (fewer s _ refl refl refl h)
          (if-AllLater (leb env.config.pending (pending_count env s)) (fewer s _ refl refl refl h) (
            admit_play-AllLater k m r (shared_access env checked (user r) none) checked (record {
              given = h.given;
              unwrapped = h.unwrapped;
              waits = h.waits;
              resolves = h.resolves;
            }))))

  start_load-AllLater : (k m : ℕ) (s : Session V) → AllLater k m s → AllLater k m (start_load env s)
  unfolding start_load
  start_load-AllLater k m s h = if-AllLater (is_some s.loading) h (oldest s.pending h.waits)
    where
      oldest :
          (ps : List Pending)
          → All (IsLater k) ps
          → AllLater k m (elim ps [
            | [] ↦ s
            | p ∷ rest ↦ record s {
              pending = rest;
              loading = some p;
              loaders = s.loaders ++ p.sequence ∷ [];
            }
          ])
      oldest [] w = h
      oldest (p ∷ ps) w = record {
        given = h.given;
        unwrapped = h.unwrapped;
        waits = w.1;
        resolves = λ q e. let same : p ≡ q = cc in rw (← same) w.0;
      }

  asked-AllLater :
      (k : ℕ) (rs : List Request) (s : Session V)
      → AllLater k (length rs) s
      → AllLater k 0 (asked rs s)
  asked-AllLater k [] s h = h
  asked-AllLater k (r ∷ rs) s h = asked-AllLater k rs (start_load env (prepare_play env r s)) (
      start_load-AllLater k (length rs) (prepare_play env r s)
        (prepare_play-AllLater k (length rs) r s h))

  later-ignored :
      (k : ℕ) (r : Result Resolution Failure) (s : Session V)
      → AllLater k 0 s
      → finish_load env (resolved k r) s ≡ s
  unfolding finish_load
  later-ignored k r s h = elim (Option-cases s.loading) [
    | inl e ↦ rw e refl
    | inr (p, e) ↦ let after = h.resolves p e in ground (arith, e, after)
  ]

  cleanup-sequence : (n : Option Text) (s : Session V) → (cleanup env n s).sequence ≡ s.sequence
  unfolding reset invalidate remove_panel delete_panel
  cleanup-sequence n s =
      rw (cleanup-log env n s)
        (elim (Option-cases s.panel) [ inl e ↦ rw e refl | inr (p, e) ↦ rw e refl ])

  cleanup-AllLater :
      (k m : ℕ) (n : Option Text) (s : Session V)
      → k ≤ s.sequence
      → s.sequence + m < 18446744073709551616
      → AllLater k m (cleanup env n s)
  cleanup-AllLater k m n s h w =
      let (loading, pending, epoch) = (cleanup-Ended env n s).unloaded in
      record {
        given = rw (cleanup-sequence n s) h;
        unwrapped = rw (cleanup-sequence n s) w;
        waits = rw pending tt;
        resolves = λ p e. let none_left : none ≡ some p = sym loading ∙ e in cc;
      }

  -- The result of a loader that was started before a cleanup changes nothing when it comes after the
  -- cleanup and any play requests behind it, of which one may be under resolution by then, as long as
  -- the 64-bit sequence numbers do not wrap.
  pub finish_load-asked-cleanup :
      (k : ℕ) (result : Result Resolution Failure) (n : Option Text) (rs : List Request)
      (s : Session V)
      → k ≤ s.sequence
      → s.sequence + length rs < 18446744073709551616
      → finish_load env (resolved k result) (asked rs (cleanup env n s))
        ≡ asked rs (cleanup env n s)
  finish_load-asked-cleanup k result n rs s h w =
      later-ignored k result (asked rs (cleanup env n s))
        (asked-AllLater k rs (cleanup env n s) (cleanup-AllLater k (length rs) n s h w))
