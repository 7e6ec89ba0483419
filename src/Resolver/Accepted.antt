-- ===== src/Resolver/Accepted.antt =====
-- What `normalize` of src/resolver.rs accepts.
use raydio.Prelude.{
  ℕ, ◌≤◌, ◌<◌, ◌≡◌, refl, subst, List-cases, Bool, true, false, not, ◌&&◌, ◌||◌, Option, none, some,
  List, [], ◌∷◌, ◌++◌, Text, leb, arith, length, all, length-append, Bool-cases, inl, inr,
}
use raydio.Prelude.Results.{ok, Result-cases}
use raydio.Config.{Limits}
use raydio.Playback.{Track}
use raydio.Resolver.{
  Resolution, RawTrack, Response, is_rejected, track_of, reject, omit, push, take_tracks,
  raw_tracks, limit_of, normalize,
}

-- The configured limits of a track.
abbrev pub is_within : Limits → Track → Bool
is_within limits t =
    leb t.duration_ms limits.max_duration_ms && (limits.allow_streams || not t.stream)

all-snoc :
    (f : Track → Bool) (xs : List Track) (x : Track)
    → all f xs ≡ true
    → f x ≡ true
    → all f (xs ++ x ∷ []) ≡ true
all-snoc f [] x h k = ground arith
all-snoc f (y ∷ ys) x h k = ground (arith, all-snoc f ys x)

-- What the loop keeps: the bound, and the limits of each track.
record Fits (limit : ℕ) (limits : Limits) (r : Resolution) : Type 0 where
  bounded : length r.tracks ≤ limit
  within : all (is_within limits) r.tracks ≡ true

push-Fits :
    (search : Bool) (limit : ℕ) (limits : Limits) (raw : RawTrack) (r : Resolution)
    → is_rejected search limits raw ≡ false
    → leb limit (length r.tracks) ≡ false
    → Fits limit limits r
    → Fits limit limits (push raw r)
unfolding is_rejected
push-Fits search limit limits raw r a l h = record {
  bounded = ground (arith, length-append r.tracks (track_of raw ∷ []), h.bounded);
  within = all-snoc (is_within limits) r.tracks (track_of raw) h.within (ground arith);
}

take_tracks-Fits :
    (playlist search : Bool) (limit : ℕ) (limits : Limits) (raws : List (Option RawTrack))
    (r : Resolution)
    → Fits limit limits r
    → Fits limit limits (take_tracks playlist search limit limits raws r)
unfolding take_tracks
take_tracks-Fits playlist search limit limits [] r h = h
take_tracks-Fits playlist search limit limits (none ∷ raws) r h =
    take_tracks-Fits playlist search limit limits raws (reject r)
      (record { bounded = h.bounded; within = h.within })
take_tracks-Fits playlist search limit limits (some raw ∷ raws) r h =
    elim (Bool-cases (is_rejected search limits raw)) [
      | inl e ↦ rw e (
          take_tracks-Fits playlist search limit limits raws (reject r)
            (record { bounded = h.bounded; within = h.within }))
      | inr e ↦ elim (Bool-cases (leb limit (length r.tracks))) [
        | inl l ↦
            rw (e, l)
              (take_tracks-Fits playlist search limit limits raws (omit playlist r) (ground arith))
        | inr l ↦ elim (Bool-cases (not playlist && not search)) [
          | inl b ↦ rw (e, l, b) (push-Fits search limit limits raw r e l h)
          | inr b ↦
              rw (e, l, b)
                (take_tracks-Fits playlist search limit limits raws (push raw r)
                  (push-Fits search limit limits raw r e l h))
        ]
      ]
    ]

-- The result of the loop for an answer.
abbrev taken : Bool → Bool → ℕ → Limits → List (Option RawTrack) → Option Text → Resolution
taken playlist search limit limits raws name =
    take_tracks playlist search limit limits raws
      (record { tracks = []; playlist = name; rejected = 0; omitted = 0 })

normalize-ok :
    (value : Response) (playlist search : Bool) (capacity : ℕ) (limits : Limits) (r : Resolution)
    → normalize value playlist search capacity limits ≡ ok r
    → (raws : List (Option RawTrack)) × (name : Option Text) × (0 < length r.tracks)
      × (taken playlist search (limit_of playlist search capacity limits) limits raws name ≡ r)
unfolding normalize
normalize-ok value playlist search capacity limits r h = elim (Result-cases (raw_tracks value)) [
  | inr (e, p) ↦ absurd (ground arith)
  | inl ((raws, name), p) ↦
      elim (List-cases
        (taken playlist search (limit_of playlist search capacity limits) limits raws
          name).tracks) [
            | inl n ↦ absurd (ground arith)
            | inr (t, ts, n) ↦ (raws, name, ground arith, ground arith)
          ]
]

-- An accepted answer has at least one track and no more than there is room for and the limits allow,
-- each within the configured duration and, unless streams are allowed, none of them a stream.
pub normalize-bounds :
    (value : Response) (playlist search : Bool) (capacity : ℕ) (limits : Limits) (r : Resolution)
    → normalize value playlist search capacity limits ≡ ok r
    → (0 < length r.tracks)
      × (length r.tracks ≤ limit_of playlist search capacity limits)
      × (all (is_within limits) r.tracks ≡ true)
normalize-bounds value playlist search capacity limits r h =
    let (raws, name, some_track, same) = normalize-ok value playlist search capacity limits r h in
    let limit = limit_of playlist search capacity limits in
    let fits : Fits limit limits r = subst (Fits limit limits) same (
      take_tracks-Fits playlist search limit limits raws _
        (record { bounded = omega arith; within = refl })) in
    (some_track, fits.bounded, fits.within)
