-- ===== src/Urls/Targets.antt =====
-- Which links `classify` of src/urls.rs takes.
use raydio.Prelude.{
  ◌≡◌, ◌⊎◌, inl, inr, refl, Bool, true, false, Option, none, some, [], ◌∷◌, Text, codes, text_eq,
  text_eq→≡, any, ◌==◌, if◌then◌else◌, not, is_some, length, arith, trim, Option-cases, Bool-cases,
}
use raydio.Urls.{
  Url, Urls, Input, search, video, playlist, unsupported, hosts, is_media_host, parameter,
  names_video, video_of, list_of, valid_identifier, playlist_base, classify_url, classify,
}

-- A link of a YouTube host over HTTP, with no credentials and no port of its own.
pub record OnYouTube (url : Url) : Type 0 where
  pub scheme : (url.scheme ≡ codes "https") ⊎ (url.scheme ≡ codes "http")
  pub host : Text
  pub of_host : url.host ≡ some host
  pub listed : any (text_eq host) hosts ≡ true
  pub username : url.username ≡ []
  pub password : url.password ≡ none
  pub port : url.port ≡ none

-- What an input names: a search for its text, a video link, or a playlist by its id.
pub data Names (urls : Urls) (input : Text) : Input → Type 0 where
  a_search : urls.parse (trim input) ≡ none → Names urls input (search (trim input))
  a_video :
      (url : Url)
      → urls.parse (trim input) ≡ some url
      → OnYouTube url
      → Names urls input (video url.text)
  a_playlist :
      (url : Url) (id : Text)
      → urls.parse (trim input) ≡ some url
      → OnYouTube url
      → parameter (codes "list") url ≡ some id
      → valid_identifier id ≡ true
      → Names urls input (playlist (urls.append_pair playlist_base (codes "list") id))
  nothing : Names urls input unsupported

any-pair : (t a b : Text) → any (text_eq t) (a ∷ b ∷ []) ≡ true → (t ≡ a) ⊎ (t ≡ b)
any-pair t a b h = elim (Bool-cases (text_eq t a)) [
  | inl e ↦ inl (text_eq→≡ t a e)
  | inr e ↦ inr (text_eq→≡ t b (ground arith))
]

no_text : (t : Text) → (length t == 0) ≡ true → t ≡ []
no_text [] h = refl
no_text (c ∷ s) h = ground arith

no_option : {A : Type 0} (o : Option A) → not (is_some o) ≡ true → o ≡ none
no_option none h = refl
no_option (some a) h = cc

is_media_host-OnYouTube : (url : Url) → is_media_host url ≡ true → OnYouTube url
unfolding is_media_host
is_media_host-OnYouTube url h = elim (Option-cases url.host) [
  | inl e ↦ absurd (ground arith)
  | inr (host, e) ↦ record {
    scheme = any-pair url.scheme (codes "https") (codes "http") (ground arith);
    host = host;
    of_host = e;
    listed = ground arith;
    username = no_text url.username (ground arith);
    password = no_option url.password (ground arith);
    port = no_option url.port (ground arith);
  }
]

module _ (urls : Urls) (input : Text) where
  if-Names :
      (b : Bool) (x y : Input)
      → (b ≡ true → Names urls input x)
      → (b ≡ false → Names urls input y)
      → Names urls input (if b then x else y)
  if-Names true x y h k = h refl
  if-Names false x y h k = k refl

  video_of-Names :
      (url : Url)
      → urls.parse (trim input) ≡ some url
      → OnYouTube url
      → Names urls input (video_of urls url)
  video_of-Names url e y =
      if-Names (names_video url) (video url.text) unsupported (λ _. a_video url e y) (λ _. nothing)

  list-Names :
      (url : Url) (list : Option Text)
      → urls.parse (trim input) ≡ some url
      → OnYouTube url
      → parameter (codes "list") url ≡ list
      → Names urls input (list_of urls url list)
  list-Names url none e y l = video_of-Names url e y
  list-Names url (some id) e y l =
      if-Names (valid_identifier id) (playlist (urls.append_pair playlist_base (codes "list") id))
        (video_of urls url) (λ v. a_playlist url id e y l v) (λ _. video_of-Names url e y)

  url-Names :
      (url : Url) → urls.parse (trim input) ≡ some url → Names urls input (classify_url urls url)
  unfolding classify_url
  url-Names url e =
      if-Names (not (is_media_host url)) unsupported
        (list_of urls url (parameter (codes "list") url)) (λ _. nothing)
        (λ m. list-Names url _ e (is_media_host-OnYouTube url (ground arith)) refl)

  parsed-Names :
      (o : Option Url)
      → urls.parse (trim input) ≡ o
      → Names urls input (elim o [ none ↦ search (trim input) | some url ↦ classify_url urls url ])
  parsed-Names none e = a_search e
  parsed-Names (some url) e = url-Names url e

-- What `classify` gives is what the input names: a text that is no link is a search for itself; a
-- link is played only when it is one of a YouTube host over HTTP with no credentials and no port,
-- and a playlist link is rebuilt from its valid id alone.
pub classify-Names : (urls : Urls) (input : Text) → Names urls input (classify urls input)
unfolding classify
classify-Names urls input = parsed-Names urls input (urls.parse (trim input)) refl
