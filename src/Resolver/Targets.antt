-- ===== src/Resolver/Targets.antt =====
-- What `identifiers` of src/resolver.rs asks the music service for.
use raydio.Prelude.{
  ◌≡◌, inl, inr, Bool, true, false, Option, none, some, ◌++◌, Text, codes, arith, trim, length, ltb,
  ◌<◌, Bool-cases, ltb→lt, subst,
}
use raydio.Prelude.Results.{Result, ok}
use raydio.Urls.{Url, Urls, Input, valid_identifier, playlist_base, classify}
use raydio.Urls.Targets.{OnYouTube, Names, a_search, a_video, a_playlist, nothing, classify-Names}
use raydio.Resolver.{identifiers, identifiers_of}

-- The identifiers that an input may load: the two searches for its text, which is not empty; a
-- YouTube link; or a playlist by its id.
pub data Allowed (urls : Urls) (input : Text) : Text × Option Text × Bool → Type 0 where
  searches :
      urls.parse (trim input) ≡ none
      → 0 < length (trim input)
      → Allowed urls input
          (codes "ytmsearch:" ++ trim input, some (codes "ytsearch:" ++ trim input), false)
  plays :
      (url : Url)
      → urls.parse (trim input) ≡ some url
      → OnYouTube url
      → Allowed urls input (url.text, none, false)
  lists :
      (url : Url) (id : Text)
      → urls.parse (trim input) ≡ some url
      → OnYouTube url
      → valid_identifier id ≡ true
      → Allowed urls input (urls.append_pair playlist_base (codes "list") id, none, true)

ok-injective : {A E : Type 0} (a b : A) → ◌≡◌ {A = Result A E} (ok a) (ok b) → a ≡ b
ok-injective a b h = cc

identifiers_of-Allowed :
    (urls : Urls) (input : Text) (i : Input) (r : Text × Option Text × Bool)
    → Names urls input i
    → identifiers_of i ≡ ok r
    → Allowed urls input r
unfolding identifiers_of
identifiers_of-Allowed urls input _ r (a_search e) h =
    elim (Bool-cases (ltb 0 (length (trim input)))) [
      | inl l ↦
          subst (Allowed urls input) (ground (arith, h, l))
            (searches e (ltb→lt 0 (length (trim input)) l))
      | inr l ↦ absurd (ground (arith, h, l))
    ]
identifiers_of-Allowed urls input _ r (a_video url e y) h =
    subst (Allowed urls input) (ok-injective _ r h) (plays url e y)
identifiers_of-Allowed urls input _ r (a_playlist url id e y l v) h =
    subst (Allowed urls input) (ok-injective _ r h) (lists url id e y v)
identifiers_of-Allowed urls input _ r nothing h = cc

-- Whatever an input is, `identifiers` gives only what is allowed for it: the two searches for its
-- trimmed text, which is not empty and no link; a link of a YouTube host over HTTP with no
-- credentials and no port; or the canonical link of a playlist with a valid id.
pub identifiers-Allowed :
    (urls : Urls) (input : Text) (r : Text × Option Text × Bool)
    → identifiers urls input ≡ ok r
    → Allowed urls input r
unfolding identifiers
identifiers-Allowed urls input r h =
    identifiers_of-Allowed urls input (classify urls input) r (classify-Names urls input) h
