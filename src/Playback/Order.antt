-- ===== src/Playback/Order.antt =====
-- The queue as one list of tracks, the current one first (src/playback.rs).
use mathlib.Core.List.{append_assoc, append-nil}
use raydio.Prelude.{
  ℕ, zero, suc, ◌-◌, ◌≤◌, ◌<◌, min, ◌≡◌, refl, sym, ap, ◌∙◌, true, false, none, some, List, [], ◌∷◌,
  ◌++◌, arith, is_some, length, take, drop, get_elem?, remove_at, length-take, get_elem?-none,
  get_elem?-insert_at, remove_at-insert_at, insert_at-remove_at, length-remove_at, length-insert_at,
  List-cases, Option-cases, inl, inr,
}
use raydio.Playback.{LoopMode, Track, Queue, len, enqueue, finish, skip, jump, move_to}
use raydio.Playback.Bounds.{IsValid}

-- What will be heard, in order.
abbrev pub items : Queue → List Track
items q = elim q.current [ none ↦ q.upcoming | some t ↦ t ∷ q.upcoming ]

pub length-items : (q : Queue) → length (items q) ≡ len q
unfolding len
length-items q = ground arith

-- Enqueueing appends the tracks that fit and counts them, and leaves the history and the loop mode.
pub enqueue-items :
    (n : ℕ) (q : Queue) (ts : List Track)
    → IsValid n q
    → let (q', added) = enqueue q ts n in
      (items q' ≡ items q ++ take (n - len q) ts)
      × (added ≡ min (length ts) (n - len q))
      × (q'.history ≡ q.history)
      × (q'.loop_mode ≡ q.loop_mode)
unfolding enqueue
enqueue-items n q ts v =
    (ground arith, ground (arith, length-take (n - len q) ts), ground arith, ground arith)

-- Jumping to an upcoming position is moving that track to the front and skipping to it.
pub jump-eq-skip-move_to :
    (q : Queue) (position : ℕ) (c : Track)
    → q.current ≡ some c
    → 0 < position
    → position ≤ length q.upcoming
    → jump q position ≡ (skip (move_to q position 1).0, true)
unfolding jump skip move_to
jump-eq-skip-move_to q position c e low high =
    elim (Option-cases (get_elem? q.upcoming (position - 1))) [
      | inl missing ↦ absurd (omega (arith, get_elem?-none q.upcoming (position - 1) missing))
      | inr (t, found) ↦ ground arith
    ]

-- Moving an upcoming track to another position and back restores the queue.
pub move_to-move_to :
    (q : Queue) (from to : ℕ)
    → 0 < from
    → 0 < to
    → from ≤ length q.upcoming
    → to ≤ length q.upcoming
    → (move_to (move_to q from to).0 to from).0 ≡ q
unfolding move_to
move_to-move_to q from to f t fh th = elim (Option-cases (get_elem? q.upcoming (from - 1))) [
  | inl missing ↦ absurd (omega (arith, get_elem?-none q.upcoming (from - 1) missing))
  | inr (v, found) ↦
      let short = length-remove_at (from - 1) q.upcoming (omega arith) in
      ground (
        arith,
        short,
        length-insert_at (to - 1) v (remove_at (from - 1) q.upcoming),
        get_elem?-insert_at (to - 1) v (remove_at (from - 1) q.upcoming) (omega arith),
        remove_at-insert_at (to - 1) v (remove_at (from - 1) q.upcoming) (omega arith),
        insert_at-remove_at (from - 1) v q.upcoming,
      )
]

unfoldable pub iterate {ℓ} : {A : Type ℓ} → ℕ → (A → A) → A → A
iterate zero f a = a
iterate (suc k) f a = iterate k f (f a)

rotate : List Track → List Track
rotate [] = []
rotate (t ∷ ts) = ts ++ t ∷ []

iterate-rotate : (xs ys : List Track) → iterate (length xs) rotate (xs ++ ys) ≡ ys ++ xs
unfolding iterate rotate
iterate-rotate [] ys = sym (append-nil ys)
iterate-rotate (x ∷ xs) ys =
    ap (iterate (length xs) rotate) (append_assoc xs ys (x ∷ []))
    ∙ iterate-rotate xs (ys ++ x ∷ [])
    ∙ append_assoc ys (x ∷ []) xs

-- The queue loop: a natural end moves the current track to the end.
finish-rotates :
    (q : Queue)
    → q.loop_mode ≡ LoopMode.queue
    → is_some q.current ≡ true
    → (items (finish q) ≡ rotate (items q))
      × ((finish q).loop_mode ≡ LoopMode.queue)
      × (is_some (finish q).current ≡ true)
unfolding finish rotate
finish-rotates q m c = elim (List-cases q.upcoming) [
  | inl e ↦ (ground arith, ground arith, ground arith)
  | inr (t, ts, e) ↦ (ground arith, ground arith, ground arith)
]

iterate-finish :
    (k : ℕ) (q : Queue)
    → q.loop_mode ≡ LoopMode.queue
    → is_some q.current ≡ true
    → items (iterate k finish q) ≡ iterate k rotate (items q)
unfolding iterate
iterate-finish zero q m c = refl
iterate-finish (suc k) q m c =
    let (e, m', c') = finish-rotates q m c in rw (← e) (iterate-finish k (finish q) m' c')

-- In the queue loop, as many natural ends as there are tracks bring the same order back.
pub finish_cycle :
    (q : Queue)
    → q.loop_mode ≡ LoopMode.queue
    → is_some q.current ≡ true
    → items (iterate (len q) finish q) ≡ items q
finish_cycle q m c = rw (← length-items q) (
    iterate-finish (length (items q)) q m c
    ∙ ap (iterate (length (items q)) rotate) (sym (append-nil (items q)))
    ∙ iterate-rotate (items q) [])

finish-drops :
    (q : Queue)
    → q.loop_mode ≡ LoopMode.off
    → (is_some q.current ≡ false → q.upcoming ≡ [])
    → (items (finish q) ≡ drop 1 (items q))
      × ((finish q).loop_mode ≡ LoopMode.off)
      × (is_some (finish q).current ≡ false → (finish q).upcoming ≡ [])
unfolding finish
finish-drops q m c = elim (List-cases q.upcoming) [
  | inl e ↦ (ground arith, ground arith, λ h. ground arith)
  | inr (t, ts, e) ↦ (ground arith, ground arith, λ h. ground arith)
]

pub drop-drop : (k : ℕ) (xs : List Track) → drop k (drop 1 xs) ≡ drop (suc k) xs
drop-drop zero [] = refl
drop-drop zero (x ∷ xs) = refl
drop-drop (suc k) [] = refl
drop-drop (suc k) (x ∷ xs) = refl

iterate-finish_off :
    (k : ℕ) (q : Queue)
    → q.loop_mode ≡ LoopMode.off
    → (is_some q.current ≡ false → q.upcoming ≡ [])
    → items (iterate k finish q) ≡ drop k (items q)
unfolding iterate
iterate-finish_off zero q m c = refl
iterate-finish_off (suc k) q m c =
    let (e, m', c') = finish-drops q m c in
    iterate-finish_off k (finish q) m' c' ∙ ap (drop k) e ∙ drop-drop k (items q)

-- With no loop, k natural ends leave exactly the tracks after the first k.
pub finish_drains :
    (k n : ℕ) (q : Queue)
    → IsValid n q
    → q.loop_mode ≡ LoopMode.off
    → items (iterate k finish q) ≡ drop k (items q)
finish_drains k n q v m = iterate-finish_off k q m v.headed
