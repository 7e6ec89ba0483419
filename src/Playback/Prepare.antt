-- ===== src/Playback/Prepare.antt =====
-- The track that is prepared ahead of time (src/playback.rs).
use raydio.Prelude.{
  ℕ, ◌+◌, ◌≤◌, ◌<◌, ◌≡◌, ◌≢◌, false, some, List, ◌∷◌, arith, text_eq, text_eq_refl, text_eq→≡,
  List-cases, inl, inr, Bool-cases,
}
use raydio.Playback.{LoopMode, Track, Queue, preparation_target, finish}

-- What is prepared is what a natural end makes current, in every loop mode: a finite track with
-- another source than the current one, within the last 45 seconds of a finite current track.
pub preparation_target-finish :
    (q : Queue) (position : ℕ) (c t : Track)
    → q.current ≡ some c
    → preparation_target q position ≡ some t
    → ((finish q).current ≡ some t)
      × (t.stream ≡ false)
      × (t.encoded ≢ c.encoded)
      × (c.stream ≡ false)
      × (0 < c.duration_ms)
      × (c.duration_ms ≤ position + 45000)
unfolding preparation_target finish
preparation_target-finish q position c t e h = elim (List-cases q.upcoming) [
  | inl u ↦ absurd (ground arith)
  | inr (x, xs, u) ↦ (
    ground arith,
    ground arith,
    λ same. ground (arith, text_eq_refl t.encoded),
    ground arith,
    ground arith,
    ground arith,
  )
]

-- The conditions are also enough: outside the track loop, near the end of a finite track of known
-- length, a finite next track with another source is prepared.
pub preparation_target_complete :
    (q : Queue) (position : ℕ) (c t : Track) (ts : List Track)
    → q.current ≡ some c
    → q.upcoming ≡ t ∷ ts
    → q.loop_mode ≢ LoopMode.track
    → c.stream ≡ false
    → t.stream ≡ false
    → t.encoded ≢ c.encoded
    → 0 < c.duration_ms
    → c.duration_ms ≤ position + 45000
    → preparation_target q position ≡ some t
unfolding preparation_target
preparation_target_complete q position c t ts e u m cs st ne d near =
    elim (Bool-cases (text_eq t.encoded c.encoded)) [
      | inl same ↦ absurd (ne (text_eq→≡ t.encoded c.encoded same))
      | inr other ↦ ground arith
    ]
