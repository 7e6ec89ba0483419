-- ===== src/Playback/Failures.antt =====
-- Failing tracks (src/playback.rs).
use raydio.Prelude.{
  ℕ, zero, suc, ◌+◌, ◌≤◌, ◌≡◌, refl, ap, ◌∙◌, true, [], arith, leb, if◌then◌else◌, is_some, drop,
  List-cases, Option-cases, inl, inr,
}
use raydio.Playback.{Queue, failure_limit, fail}
use raydio.Playback.Bounds.{IsValid, fail-IsValid}
use raydio.Playback.Order.{items, iterate, drop-drop}

-- One failure, at any streak.
fail-items :
    (n : ℕ) (q : Queue)
    → IsValid n q
    → (items (fail q)
        ≡ (if leb failure_limit (q.consecutive_failures + 1) then [] else drop 1 (items q)))
      × ((fail q).history ≡ q.history)
unfolding fail
fail-items n q v = elim (List-cases q.upcoming) [
  | inl e ↦ (ground arith, ground arith)
  | inr (t, ts, e) ↦ (ground arith, ground arith)
]

fail_at_rest : (q : Queue) → items q ≡ [] → fail q ≡ q
unfolding fail
fail_at_rest q e = ground arith

iterate-fixed : (k : ℕ) (q : Queue) → fail q ≡ q → iterate k fail q ≡ q
unfolding iterate
iterate-fixed zero q e = refl
iterate-fixed (suc k) q e = ap (iterate k fail) e ∙ iterate-fixed k q e

fail-streak :
    (q : Queue)
    → q.consecutive_failures ≤ failure_limit
    → is_some q.current ≡ true
    → (fail q).consecutive_failures ≡ q.consecutive_failures + 1
unfolding fail
fail-streak q h c = elim (List-cases q.upcoming) [
  | inl e ↦ ground arith
  | inr (t, ts, e) ↦ ground arith
]

-- Failures in a row, with no success between them: while the streak stays below 3 each drops one
-- track, and the failure that makes it 3 drops all that are left. The history never changes.
pub fail_run :
    (k n : ℕ) (q : Queue)
    → IsValid n q
    → (items (iterate (suc k) fail q) ≡ (
        if leb failure_limit (q.consecutive_failures + suc k) then [] else drop (suc k) (items q)))
      × ((iterate (suc k) fail q).history ≡ q.history)
unfolding iterate
fail_run zero n q v = fail-items n q v
fail_run (suc k) n q v = elim (Option-cases q.current) [
  | inl e ↦
      let rest = fail_at_rest q (ground (arith, v.headed)) in
      ground (arith, iterate-fixed (suc (suc k)) q rest, v.headed)
  | inr (c, e) ↦ ground (
    arith,
    fail_run k n (fail q) (fail-IsValid n q v),
    fail-items n q v,
    fail-streak q v.streak,
    drop-drop (suc k) (items q),
  )
]
