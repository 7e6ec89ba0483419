-- ===== src/Resolver.antt =====
-- src/resolver.rs: what a request asks the music service for, and which tracks of a Lavalink answer are accepted. The JSON answer is given by the
-- parts that `normalize` reads; a track that `serde` does not read is `none`.
pub mod Accepted
pub mod Targets
mod Examples
use raydio.Prelude.{
  ℕ, ◌+◌, ◌≤◌, ◌<◌, Bool, true, false, not, ◌&&◌, ◌||◌, Option, none, some, List, [], ◌∷◌, ◌++◌,
  min, Text, codes, text_eq, ltb, leb, ◌==◌, if◌then◌else◌, is_some, length, all, trim,
}
use raydio.Prelude.Results.{Result, ok, err}
use raydio.Config.{Limits}
use raydio.Playback.{Track}
use raydio.Urls.{Urls, Input, valid_identifier, classify}

pub data Failure : Type 0 where
  no_match invalid_response load_failed unavailable unsupported full : Failure

pub record Resolution : Type 0 where
  pub tracks : List Track
  pub playlist : Option Text
  pub rejected : ℕ
  pub omitted : ℕ

pub record Info : Type 0 where
  pub identifier : Text
  pub title : Text
  pub author : Text
  pub length_ms : ℕ
  pub is_stream : Bool
  pub uri : Option Text
  pub source_name : Text

pub record RawTrack : Type 0 where
  pub encoded : Text
  pub info : Info

-- The answer by its `loadType`; an array that is missing or is no array is `none`.
pub data Response : Type 0 where
  errors empties : Response
  one : Option RawTrack → Response
  list : Option Text → Option (List (Option RawTrack)) → Response
  found : Option (List (Option RawTrack)) → Response
  other_type : Response

-- The condition under which a track is rejected.
unfoldable pub is_rejected : Bool → Limits → RawTrack → Bool
unfolding valid_identifier
is_rejected search limits raw =
    length (trim raw.encoded) == 0
    || ltb limits.max_duration_ms raw.info.length_ms
    || (not limits.allow_streams && raw.info.is_stream)
    || (search
        && (not (text_eq raw.info.source_name (codes "youtube"))
            || not (valid_identifier raw.info.identifier)))

abbrev pub track_of : RawTrack → Track
track_of raw = record {
  encoded = raw.encoded;
  identifier = raw.info.identifier;
  title = raw.info.title;
  author = raw.info.author;
  duration_ms = raw.info.length_ms;
  stream = raw.info.is_stream;
  uri = raw.info.uri;
  requester_id = [];
  requested_by = [];
}

abbrev pub reject : Resolution → Resolution
reject r = record r { rejected = r.rejected + 1 }

abbrev pub omit : Bool → Resolution → Resolution
omit playlist r = if playlist then record r { omitted = r.omitted + 1 } else r

abbrev pub push : RawTrack → Resolution → Resolution
push raw r = record r { tracks = r.tracks ++ track_of raw ∷ [] }

-- The loop of `normalize`; only a single request stops at the first track that it takes.
unfoldable pub take_tracks :
    Bool → Bool → ℕ → Limits → List (Option RawTrack) → Resolution → Resolution
unfolding is_rejected
take_tracks playlist search limit limits [] r = r
take_tracks playlist search limit limits (none ∷ raws) r =
    take_tracks playlist search limit limits raws (reject r)
take_tracks playlist search limit limits (some raw ∷ raws) r =
    if is_rejected search limits raw
    then take_tracks playlist search limit limits raws (reject r)
    else if leb limit (length r.tracks)
    then take_tracks playlist search limit limits raws (omit playlist r)
    else if not playlist && not search
    then push raw r
    else take_tracks playlist search limit limits raws (push raw r)

-- The tracks of an answer, and the name of its playlist.
abbrev array_of :
    Option Text
    → Option (List (Option RawTrack))
    → Result (List (Option RawTrack) × Option Text) Failure
array_of name none = err invalid_response
array_of name (some raws) = ok (raws, name)

unfoldable pub raw_tracks : Response → Result (List (Option RawTrack) × Option Text) Failure
raw_tracks errors = err load_failed
raw_tracks empties = err no_match
raw_tracks (one raw) = ok (raw ∷ [], none)
raw_tracks (list name raws) = array_of name raws
raw_tracks (found raws) = array_of none raws
raw_tracks other_type = err invalid_response

unfoldable pub limit_of : Bool → Bool → ℕ → Limits → ℕ
limit_of playlist search capacity limits =
    min (min capacity limits.queue)
      (if playlist then limits.playlists else if search then capacity else 1)

unfoldable pub normalize : Response → Bool → Bool → ℕ → Limits → Result Resolution Failure
unfolding take_tracks raw_tracks limit_of
normalize value playlist search capacity limits = elim (raw_tracks value) [
  | err e ↦ err (if capacity == 0 then full else e)
  | ok (raws, name) ↦
      let r : Resolution =
        take_tracks playlist search (limit_of playlist search capacity limits) limits raws
          (record { tracks = []; playlist = name; rejected = 0; omitted = 0 }) in
      if capacity == 0 then err full else elim r.tracks [ [] ↦ err no_match | t ∷ ts ↦ ok r ]
]

-- The identifier to load, the one to load when that fails, and whether it is a playlist.
unfoldable pub identifiers_of : Input → Result (Text × Option Text × Bool) Failure
identifiers_of (Input.search query) =
    if ltb 0 (length query)
    then ok (codes "ytmsearch:" ++ query, some (codes "ytsearch:" ++ query), false)
    else err no_match
identifiers_of (Input.video url) = ok (url, none, false)
identifiers_of (Input.playlist url) = ok (url, none, true)
identifiers_of Input.unsupported = err unsupported

unfoldable pub identifiers : Urls → Text → Result (Text × Option Text × Bool) Failure
unfolding identifiers_of
identifiers urls input = identifiers_of (classify urls input)
