-- ===== src/Urls.antt =====
-- src/urls.rs: what a play request names. The `url` crate is the parameter `Urls`; a parsed link has
-- the parts that the code reads.
pub mod Targets
use raydio.Prelude.{
  ℕ, ◌≤◌, ◌≡◌, Bool, true, false, not, ◌&&◌, ◌||◌, Option, none, some, List, [], ◌∷◌, ◌++◌, Text,
  codes, text_eq, ltb, leb, ◌==◌, if◌then◌else◌, is_some, length, all, any, first, get_elem?, find,
  trim, is_ascii_alphanumeric,
}

pub record Url : Type 0 where
  pub text : Text
  pub scheme : Text
  pub host : Option Text
  pub username : Text
  pub password : Option Text
  pub port : Option ℕ
  pub path : Text
  pub segments : List Text  -- `path_segments().into_iter().flatten()`
  pub query_pairs : List (Text × Text)

-- `Url::parse`, and the text of a link after `query_pairs_mut().append_pair(key, value)`.
pub record Urls : Type 0 where
  pub parse : Text → Option Url
  pub append_pair : Text → Text → Text → Text

pub data Input : Type 0 where
  search video playlist : Text → Input
  unsupported : Input

-- On bytes that are ASCII letters, digits, `-` and `_`, so the length in bytes is the number of
-- characters.
unfoldable pub valid_identifier : Text → Bool
valid_identifier value =
    ltb 0 (length value)
    && leb (length value) 128
    && all (λ c. is_ascii_alphanumeric c || c == b'-' || c == b'_') value

abbrev pub hosts : List Text
hosts =
    codes "youtube.com"
    ∷ codes "www.youtube.com"
    ∷ codes "m.youtube.com"
    ∷ codes "music.youtube.com"
    ∷ codes "youtu.be"
    ∷ []

abbrev pub is_listed : List Text → Option Text → Bool
is_listed names none = false
is_listed names (some t) = any (text_eq t) names

-- The links that are read further.
unfoldable pub is_media_host : Url → Bool
is_media_host url =
    is_listed (codes "https" ∷ codes "http" ∷ []) (some url.scheme)
    && is_listed hosts url.host
    && length url.username == 0
    && not (is_some url.password)
    && not (is_some url.port)

unfoldable pub parameter : Text → Url → Option Text
parameter key url = elim (find (λ e. text_eq e.0 key) url.query_pairs) [
  | none ↦ none
  | some e ↦ some e.1
]

abbrev pub is_valid : Option Text → Bool
is_valid none = false
is_valid (some id) = valid_identifier id

unfoldable pub names_video : Url → Bool
unfolding parameter
names_video url =
    if is_listed (codes "youtu.be" ∷ []) url.host
    then is_valid (first url.segments)
    else if text_eq url.path (codes "/watch")
    then is_valid (parameter (codes "v") url)
    else is_listed (codes "shorts" ∷ codes "live" ∷ codes "embed" ∷ []) (first url.segments)
      && is_valid (get_elem? url.segments 1)

abbrev pub playlist_base : Text
playlist_base = codes "https://www.youtube.com/playlist"

module _ (urls : Urls) where
  abbrev pub video_of : Url → Input
  video_of url = if names_video url then video url.text else unsupported

  abbrev pub list_of : Url → Option Text → Input
  list_of url none = video_of url
  list_of url (some list) =
      if valid_identifier list
      then playlist (urls.append_pair playlist_base (codes "list") list)
      else video_of url

  unfoldable pub classify_url : Url → Input
  unfolding is_media_host parameter names_video
  classify_url url =
      if not (is_media_host url) then unsupported else list_of url (parameter (codes "list") url)

  unfoldable pub classify : Text → Input
  unfolding classify_url
  classify input = elim (urls.parse (trim input)) [
    | none ↦ search (trim input)
    | some url ↦ classify_url url
  ]
