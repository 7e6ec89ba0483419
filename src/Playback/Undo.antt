-- ===== src/Playback/Undo.antt =====
-- `previous` against the moves that it takes back (src/playback.rs).
use raydio.Prelude.{
  ℕ, ◌≤◌, ◌<◌, ◌≡◌, ◌≢◌, ◌&&◌, some, List, [], ◌∷◌, arith, length, last, text_eq, text_eq_refl,
  last-snoc, but_last-snoc, rposition-snoc, remove_at-snoc, length-append, Option-cases, inl, inr,
}
use raydio.Playback.{
  LoopMode, PreviousOutcome, Track, Queue, history_limit, len, finish, skip, clear, previous,
  duplicate,
}

-- Outside the queue loop, with a current and a next track, room in the history and a queue within
-- the limit, `previous` undoes `skip`.
pub previous-skip :
    (n : ℕ) (q : Queue) (c t : Track) (ts : List Track)
    → q.current ≡ some c
    → q.upcoming ≡ t ∷ ts
    → q.loop_mode ≢ LoopMode.queue
    → length q.history < history_limit
    → len q ≤ n
    → previous (skip q) n ≡ (q, PreviousOutcome.started)
unfolding previous skip len
previous-skip n q c t ts ec eu m h l =
    ground
      (arith, last-snoc q.history c, but_last-snoc q.history c, length-append q.history (c ∷ []))

-- In the queue loop, with a current and a next track and room in the history, `previous` undoes a
-- natural end up to the failure streak, at any admission limit: the repeated copy frees its own slot.
pub previous-finish :
    (n : ℕ) (q : Queue) (c t : Track) (ts : List Track)
    → q.current ≡ some c
    → q.upcoming ≡ t ∷ ts
    → q.loop_mode ≡ LoopMode.queue
    → length q.history < history_limit
    → previous (finish q) n ≡ (record q { consecutive_failures = 0 }, PreviousOutcome.started)
unfolding previous finish
previous-finish n q c t ts ec eu m h = ground (
  arith,
  last-snoc q.history c,
  but_last-snoc q.history c,
  length-append q.history (c ∷ []),
  rposition-snoc
      (λ (u : Track). text_eq u.encoded c.encoded && text_eq u.requester_id c.requester_id) ts c,
  remove_at-snoc ts c,
  text_eq_refl c.encoded,
  text_eq_refl c.requester_id,
)

-- A `previous` that is refused leaves the queue as it was.
pub previous_refused :
    (n : ℕ) (q : Queue) → (previous q n).1 ≢ PreviousOutcome.started → (previous q n).0 ≡ q
unfolding previous
previous_refused n q h = elim (Option-cases (last q.history)) [
  | inl e ↦ ground arith
  | inr (p, e) ↦ elim (Option-cases (duplicate q p)) [
    | inl d ↦ ground arith
    | inr (i, d) ↦ ground arith
  ]
]

-- At a limit of two tracks or more, a `previous` that is refused for want of room goes through
-- after a `clear`.
pub previous-clear :
    (n : ℕ) (q : Queue)
    → 2 ≤ n
    → (previous q n).1 ≡ PreviousOutcome.full
    → (previous (clear q).0 n).1 ≡ PreviousOutcome.started
unfolding previous clear len
previous-clear n q r h = elim (Option-cases (last q.history)) [
  | inl e ↦ ground arith
  | inr (p, e) ↦ elim (Option-cases (duplicate q p)) [
    | inl d ↦ ground arith
    | inr (i, d) ↦ ground arith
  ]
]
