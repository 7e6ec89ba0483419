-- ===== src/Resolver/Examples.antt =====
-- Runs of src/resolver.rs on small inputs.
use raydio.Prelude.{
  ℕ, ◌≤◌, ◌<◌, ◌≡◌, refl, true, false, none, some, [], ◌∷◌, codes, if◌then◌else◌, text_eq,
  is_ascii_alphanumeric, ◌++◌, all, length, trim,
}
use raydio.Prelude.Results.{ok}
use raydio.Config.{Limits}
use raydio.Resolver.{Resolution, RawTrack, Response, track_of, normalize, limit_of, identifiers}
use raydio.Urls.{Url, Urls, classify, valid_identifier}
use raydio.Resolver.Targets.{Allowed, identifiers-Allowed}
use raydio.Resolver.Accepted.{is_within, normalize-bounds}

abbrev small : Limits
small = record { playlists = 2; queue = 5; max_duration_ms = 1000; allow_streams = false }

abbrev raw : ℕ → RawTrack
raw ms = record {
  encoded = codes "e";
  info = record {
    identifier = codes "i";
    title = codes "t";
    author = codes "a";
    length_ms = ms;
    is_stream = false;
    uri = none;
    source_name = codes "youtube";
  };
}

-- Four tracks: one unread, one too long, two that are taken and one that is omitted.
abbrev answer : Response
answer =
    Response.list (some (codes "p"))
      (some (none ∷ some (raw 2000) ∷ some (raw 10) ∷ some (raw 20) ∷ some (raw 30) ∷ []))

abbrev accepted : Resolution
accepted = record {
  tracks = track_of (raw 10) ∷ track_of (raw 20) ∷ [];
  playlist = some (codes "p");
  rejected = 2;
  omitted = 1;
}

normalize_run : normalize answer true false 5 small ≡ ok accepted
unfolding normalize trim
normalize_run = refl

normalize-bounds_example :
    (0 < length accepted.tracks)
    × (length accepted.tracks ≤ limit_of true false 5 small)
    × (all (is_within small) accepted.tracks ≡ true)
normalize-bounds_example = normalize-bounds answer true false 5 small accepted normalize_run

-- Only one text is a link.
abbrev link : Url
link = record {
  text = codes "https://youtu.be/video";
  scheme = codes "https";
  host = some (codes "youtu.be");
  username = [];
  password = none;
  port = none;
  path = codes "/video";
  segments = codes "video" ∷ [];
  query_pairs = [];
}

abbrev urls : Urls
urls = record {
  parse = λ t. if text_eq t link.text then some link else none;
  append_pair = λ base key value. base ++ b'?' ∷ key ++ b'=' ∷ value;
}

identifiers_run : identifiers urls (codes "https://youtu.be/video ") ≡ ok (link.text, none, false)
unfolding identifiers classify trim text_eq is_ascii_alphanumeric valid_identifier
identifiers_run = refl

identifiers-Allowed_example :
    Allowed urls (codes "https://youtu.be/video ") (link.text, none, false)
identifiers-Allowed_example =
    identifiers-Allowed urls (codes "https://youtu.be/video ") (link.text, none, false)
      identifiers_run
