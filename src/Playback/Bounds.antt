-- ===== src/Playback/Bounds.antt =====
-- What holds of the queue between two calls of its methods (src/playback.rs).
use raydio.Prelude.{
  ℕ, ◌-◌, ◌≤◌, ◌<◌, ◌≡◌, true, false, some, List, [], ◌∷◌, ◌++◌, Perm, arith, is_some, length, take,
  get_elem?, last, remove_at, length-append, length-take, length-drop, length-but_last,
  length-remove_at, length-insert_at, length-perm, rposition-lt, text_eq, ◌&&◌, Option-cases, inl,
  inr,
}
use raydio.Playback.{
  LoopMode, Track, Queue, default, history_limit, failure_limit, len, enqueue, remember, finish,
  fail, skip, duplicate, previous, remove, jump, stop, clear, shuffle, move_to,
}

pub record IsValid (max_tracks : ℕ) (q : Queue) : Type 0 where
  pub bounded : len q ≤ max_tracks
  pub remembered : length q.history ≤ history_limit
  pub streak : q.consecutive_failures ≤ failure_limit
  pub below_limit : is_some q.current ≡ true → q.consecutive_failures < failure_limit
  pub headed : is_some q.current ≡ false → q.upcoming ≡ []

pub enqueue-IsValid :
    (n : ℕ) (q : Queue) (ts : List Track) → IsValid n q → IsValid n (enqueue q ts n).0
unfolding enqueue
enqueue-IsValid n q ts v =
    ground (arith, length-append q.upcoming (take (n - len q) ts), length-take (n - len q) ts)

length-remember :
    (q : Queue) (t : Track)
    → length q.history ≤ history_limit
    → length (remember q t).history ≤ history_limit
unfolding remember
length-remember q t h =
    ground (arith, length-append q.history (t ∷ []), length-drop 1 (q.history ++ t ∷ []))

pub finish-IsValid : (n : ℕ) (q : Queue) → IsValid n q → IsValid n (finish q)
unfolding finish len
finish-IsValid n q v = elim (Option-cases q.current) [
  | inl e ↦ ground arith
  | inr (t, e) ↦ ground (
    arith,
    length-append q.history (t ∷ []),
    length-drop 1 (q.history ++ t ∷ []),
    length-append q.upcoming (t ∷ []),
  )
]

pub fail-IsValid : (n : ℕ) (q : Queue) → IsValid n q → IsValid n (fail q)
unfolding fail len
fail-IsValid n q v = ground arith

pub skip-IsValid : (n : ℕ) (q : Queue) → IsValid n q → IsValid n (skip q)
unfolding skip len
skip-IsValid n q v = elim (Option-cases q.current) [
  | inl e ↦ ground arith
  | inr (t, e) ↦
      ground (arith, length-append q.history (t ∷ []), length-drop 1 (q.history ++ t ∷ []))
]

duplicate-lt : (q : Queue) (p : Track) (i : ℕ) → duplicate q p ≡ some i → i < length q.upcoming
duplicate-lt q p i d = ground (
  arith,
  rposition-lt (λ (t : Track). text_eq t.encoded p.encoded && text_eq t.requester_id p.requester_id)
      q.upcoming i,
)

pub previous-IsValid : (n : ℕ) (q : Queue) → IsValid n q → IsValid n (previous q n).0
unfolding previous len
previous-IsValid n q v = elim (Option-cases (last q.history)) [
  | inl e ↦ ground arith
  | inr (p, e) ↦ elim (Option-cases (duplicate q p)) [
    | inl d ↦ ground (arith, length-but_last q.history)
    | inr (i, d) ↦
        ground
          (arith, length-but_last q.history, duplicate-lt q p i d, length-remove_at i q.upcoming)
  ]
]

pub jump-IsValid : (n : ℕ) (q : Queue) (position : ℕ) → IsValid n q → IsValid n (jump q position).0
unfolding jump len
jump-IsValid n q position v = elim (Option-cases q.current) [
  | inl e ↦ ground arith
  | inr (t, e) ↦ ground (
    arith,
    length-remove_at (position - 1) q.upcoming,
    length-append q.history (t ∷ []),
    length-drop 1 (q.history ++ t ∷ []),
  )
]

pub shuffle-IsValid :
    (n : ℕ) (shuffler : List Track → List Track) (q : Queue)
    → ((xs : List Track) → Perm (shuffler xs) xs)
    → IsValid n q
    → IsValid n (shuffle shuffler q).0
unfolding shuffle len
shuffle-IsValid n shuffler q permutes v = ground (arith, length-perm (permutes q.upcoming))

pub move_to-IsValid :
    (n : ℕ) (q : Queue) (from to : ℕ) → IsValid n q → IsValid n (move_to q from to).0
unfolding move_to len
move_to-IsValid n q from to v = elim (Option-cases (get_elem? q.upcoming (from - 1))) [
  | inl e ↦ ground arith
  | inr (t, e) ↦ ground (
    arith,
    length-remove_at (from - 1) q.upcoming,
    length-insert_at (to - 1) t (remove_at (from - 1) q.upcoming),
  )
]

pub remove-IsValid :
    (n : ℕ) (q : Queue) (position : ℕ) → IsValid n q → IsValid n (remove q position).0
unfolding remove len
remove-IsValid n q position v = ground (arith, length-remove_at (position - 1) q.upcoming)

pub stop-IsValid : (n : ℕ) (q : Queue) → IsValid n q → IsValid n (stop q)
unfolding stop len
stop-IsValid n q v = ground arith

pub clear-IsValid : (n : ℕ) (q : Queue) → IsValid n q → IsValid n (clear q).0
unfolding clear len
clear-IsValid n q v = ground arith

-- A call of a method by the session; `seed` stands for the random numbers of a shuffle.
pub data Call : Type 0 where
  enqueues : List Track → Call
  finishes fails skips goes_back stops clears : Call
  jumps removes shuffles : ℕ → Call
  moves : ℕ → ℕ → Call
  loops : LoopMode → Call

pub apply : (ℕ → List Track → List Track) → ℕ → Queue → Call → Queue
apply shuffler n q (enqueues ts) = (enqueue q ts n).0
apply shuffler n q finishes = finish q
apply shuffler n q fails = fail q
apply shuffler n q skips = skip q
apply shuffler n q goes_back = (previous q n).0
apply shuffler n q stops = stop q
apply shuffler n q clears = (clear q).0
apply shuffler n q (jumps position) = (jump q position).0
apply shuffler n q (removes position) = (remove q position).0
apply shuffler n q (shuffles seed) = (shuffle (shuffler seed) q).0
apply shuffler n q (moves from to) = (move_to q from to).0
apply shuffler n q (loops mode) = record q { loop_mode = mode }

pub run : (ℕ → List Track → List Track) → ℕ → Queue → List Call → Queue
run shuffler n q [] = q
run shuffler n q (c ∷ cs) = run shuffler n (apply shuffler n q c) cs

pub loops-IsValid :
    {n : ℕ} {q : Queue} (mode : LoopMode) → IsValid n q → IsValid n (record q { loop_mode = mode })
unfolding len
loops-IsValid mode v = ground arith

pub default-IsValid : (n : ℕ) → IsValid n default
unfolding len
default-IsValid n = ground arith

module _ (shuffler : ℕ → List Track → List Track) (n : ℕ)
    (permutes : (seed : ℕ) (xs : List Track) → Perm (shuffler seed xs) xs) where
  apply-IsValid : (q : Queue) (c : Call) → IsValid n q → IsValid n (apply shuffler n q c)
  unfolding apply
  apply-IsValid q (enqueues ts) v = enqueue-IsValid n q ts v
  apply-IsValid q finishes v = finish-IsValid n q v
  apply-IsValid q fails v = fail-IsValid n q v
  apply-IsValid q skips v = skip-IsValid n q v
  apply-IsValid q goes_back v = previous-IsValid n q v
  apply-IsValid q stops v = stop-IsValid n q v
  apply-IsValid q clears v = clear-IsValid n q v
  apply-IsValid q (jumps position) v = jump-IsValid n q position v
  apply-IsValid q (removes position) v = remove-IsValid n q position v
  apply-IsValid q (shuffles seed) v = shuffle-IsValid n (shuffler seed) q (permutes seed) v
  apply-IsValid q (moves from to) v = move_to-IsValid n q from to v
  apply-IsValid q (loops mode) v = loops-IsValid mode v

  run-IsValid : (q : Queue) (cs : List Call) → IsValid n q → IsValid n (run shuffler n q cs)
  unfolding run
  run-IsValid q [] v = v
  run-IsValid q (c ∷ cs) v = run-IsValid (apply shuffler n q c) cs (apply-IsValid q c v)

  -- Whatever methods are called on a new queue, with one admission limit: the tracks stay within
  -- the limit and the history within 20 entries, the failure streak never passes 3 and is below 3
  -- while a track is current, and tracks wait only behind a current one.
  pub run-default-IsValid : (cs : List Call) → IsValid n (run shuffler n default cs)
  run-default-IsValid cs = run-IsValid default cs (default-IsValid n)
