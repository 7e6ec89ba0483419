-- ===== src/Runtime/Resolve.antt =====
-- `Shared::resolve` of src/runtime.rs. A load is given by the music service's answer, none when it
-- fails.
use raydio.Prelude.{
  ℕ, ◌≡◌, ◌≤◌, ◌<◌, Bool, true, false, Option, none, some, List, [], ◌∷◌, Text, min, length, all,
  arith, Option-cases, inl, inr,
}
use raydio.Prelude.Results.{Result, ok, err, Result-cases}
use raydio.Config.{Limits}
use raydio.Urls.{Urls}
use raydio.Resolver.{Failure, unavailable, Resolution, Response, limit_of, normalize, identifiers}
use raydio.Resolver.Accepted.{is_within, normalize-bounds}

-- `node.load(…).map_err(…).and_then(normalize)`
unfoldable pub load_one :
    (Text → Option Response) → Limits → Text → Bool → Bool → ℕ → Result Resolution Failure
unfolding normalize
load_one answers limits identifier playlist search capacity = elim (answers identifier) [
  | none ↦ err unavailable
  | some value ↦ normalize value playlist search capacity limits
]

-- The identifiers that were loaded, in order, and the result.
unfoldable pub load_targets :
    (Text → Option Response)
    → Limits
    → ℕ
    → ℕ
    → Text × Option Text × Bool
    → List Text × Result Resolution Failure
unfolding load_one
load_targets answers limits capacity search_limit (first, none, playlist) =
    (first ∷ [], load_one answers limits first playlist false capacity)
load_targets answers limits capacity search_limit (first, some fallback, playlist) =
    let searched : ℕ = min capacity search_limit in
    elim (load_one answers limits first playlist true searched) [
      | ok r ↦ (first ∷ [], ok r)
      | err e ↦ (first ∷ fallback ∷ [], load_one answers limits fallback false true searched)
    ]

unfoldable pub resolve :
    Urls → (Text → Option Response) → Limits → Text → ℕ → ℕ → List Text × Result Resolution Failure
unfolding identifiers load_targets
resolve urls answers limits input capacity search_limit = elim (identifiers urls input) [
  | err e ↦ ([], err e)
  | ok targets ↦ load_targets answers limits capacity search_limit targets
]

-- What an accepted resolution has: tracks, no more than there is room for, all within the limits.
pub record Accepted (limits : Limits) (capacity : ℕ) (r : Resolution) : Type 0 where
  pub some_track : 0 < length r.tracks
  pub fits : length r.tracks ≤ min capacity limits.queue
  pub within : all (is_within limits) r.tracks ≡ true

module _ (answers : Text → Option Response) (limits : Limits) where
  load_one-Accepted :
      (identifier : Text) (playlist search : Bool) (capacity room : ℕ) (r : Resolution)
      → capacity ≤ room
      → load_one answers limits identifier playlist search capacity ≡ ok r
      → Accepted limits room r
  unfolding load_one limit_of
  load_one-Accepted identifier playlist search capacity room r c h =
      elim (Option-cases (answers identifier)) [
        | inl e ↦ absurd (ground (arith, e, h))
        | inr (value, e) ↦
            let (some_track, fits, within) =
              normalize-bounds value playlist search capacity limits r (ground (arith, e, h)) in
            record { some_track = some_track; fits = ground (arith, fits); within = within }
      ]

  load_targets-Accepted :
      (capacity search_limit : ℕ) (targets : Text × Option Text × Bool) (r : Resolution)
      → (load_targets answers limits capacity search_limit targets).1 ≡ ok r
      → Accepted limits capacity r
  unfolding load_targets
  load_targets-Accepted capacity search_limit (first, none, playlist) r h =
      load_one-Accepted first playlist false capacity capacity r (omega arith) h
  load_targets-Accepted capacity search_limit (first, some fallback, playlist) r h =
      elim (Result-cases
        (load_one answers limits first playlist true (min capacity search_limit))) [
          | inl (q, e) ↦
              load_one-Accepted first playlist true (min capacity search_limit) capacity r
                (omega arith) (ground (arith, e, h))
          | inr (f, e) ↦
              load_one-Accepted fallback false true (min capacity search_limit) capacity r
                (omega arith) (ground (arith, e, h))
        ]

-- Whichever of the loads a resolution comes from, it has at least one track, no more than the
-- capacity and the queue limit, and every track is within the configured limits.
pub resolve-Accepted :
    (urls : Urls) (answers : Text → Option Response) (limits : Limits) (input : Text)
    (capacity search_limit : ℕ) (r : Resolution)
    → (resolve urls answers limits input capacity search_limit).1 ≡ ok r
    → Accepted limits capacity r
unfolding resolve
resolve-Accepted urls answers limits input capacity search_limit r h =
    elim (Result-cases (identifiers urls input)) [
      | inl (targets, e) ↦
          load_targets-Accepted answers limits capacity search_limit targets r
            (ground (arith, e, h))
      | inr (f, e) ↦ absurd (ground (arith, e, h))
    ]
