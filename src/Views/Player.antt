-- ===== src/Views/Player.antt =====
-- The player message: `player` of src/views.rs. `url::Url::parse` is the parameter `Urls`.
use raydio.Prelude.{
  ℕ, zero, suc, ◌*◌, ◌/◌, min, Bool, false, not, ◌&&◌, Option, none, some, List, [], ◌∷◌, ◌++◌,
  Text, codes, text_eq, ◌==◌, if◌then◌else◌, length, is_some, first, decimal,
}
use raydio.Playback.{Track, Queue, format_duration}
use raydio.Urls.{Urls, valid_identifier, is_listed}
use raydio.Views.{safe, mode_label}
use raydio.Views.Message.{Embed, Button, View, text_view, button}

-- The place of the marker in a bar of 30 places, for a duration that is not 0.
unfoldable pub marker : ℕ → ℕ → ℕ
marker position duration = min (min position duration * 30 / duration) 29

-- `(from..from + places)` as a bar with the marker.
unfoldable pub bar_from : ℕ → ℕ → ℕ → Text
bar_from from zero at = []
bar_from from (suc places) at =
    let rest = bar_from (suc from) places at in (if from == at then 0x25cf else 0x2501) ∷ rest

unfoldable pub progress : Track → ℕ → Text
unfolding marker bar_from
progress t position =
    if t.stream
    then codes "🔴 **LIVE**"
    else if t.duration_ms == 0
    then codes "`" ++ (format_duration position false ++ codes " elapsed • duration unknown`")
    else bar_from 0 30 (marker position t.duration_ms)
      ++ (codes "\n`"
          ++ (format_duration (min position t.duration_ms) false
              ++ (codes " / " ++ (format_duration t.duration_ms false ++ codes "`"))))

abbrev link_hosts : List Text
link_hosts =
    codes "youtube.com"
    ∷ codes "www.youtube.com"
    ∷ codes "music.youtube.com"
    ∷ codes "youtu.be"
    ∷ []

-- The link of the title: only a YouTube link over HTTPS.
unfoldable pub title_url : Urls → Option Text → Option Text
title_url urls none = none
title_url urls (some uri) = elim (urls.parse uri) [
  | none ↦ none
  | some url ↦
      if text_eq url.scheme (codes "https")
        && is_listed link_hosts url.host
        && length url.username == 0
        && not (is_some url.password)
      then some url.text
      else none
]

unfoldable pub thumbnail : Text → Option Text
unfolding valid_identifier
thumbnail identifier =
    if valid_identifier identifier
    then some (codes "https://i.ytimg.com/vi/" ++ (identifier ++ codes "/hqdefault.jpg"))
    else none

unfoldable pub player_embed : Urls → Queue → Track → Bool → ℕ → ℕ → Embed
unfolding progress title_url thumbnail safe mode_label
player_embed urls q t paused volume position = record {
  color = 0x8b5cf6;
  author = codes "Raydio • Now Playing";
  title = safe t.title 200;
  description = progress t position;
  fields =
      record { name = codes "Channel"; value = safe t.author 100 }
      ∷ record { name = codes "Requested by"; value = safe t.requested_by 64 }
      ∷ record {
        name = codes "Up next";
        value = elim (first q.upcoming) [
          | none ↦ codes "Nothing queued"
          | some u ↦ safe u.title 200
        ];
      }
      ∷ record { name = codes "Volume"; value = decimal volume ++ codes "%" }
      ∷ [];
  footer =
      (if paused then codes "Paused" else codes "Playing")
      ++ (codes " • " ++ (mode_label q.loop_mode ++ codes " • refreshes every second"));
  thumbnail = thumbnail t.identifier;
  url = title_url urls t.uri;
}

-- A symbol with the selector that makes it an emoji.
abbrev emoji : ℕ → Text
emoji c = c ∷ 0xfe0f ∷ []

abbrev is_empty : List Track → Bool
is_empty ts = length ts == 0

unfoldable pub player_buttons : Queue → Text → Bool → List (List Button)
unfolding button mode_label
player_buttons q session paused =
    (button session (codes "previous") (codes "Previous") ((emoji 0x23ee)) 2 (is_empty q.history)
      ∷ button session (codes "pause") (if paused then codes "Resume" else codes "Pause")
          (if paused then (emoji 0x25b6) else (emoji 0x23f8)) 1 false
      ∷ button session (codes "skip") (codes "Next") ((emoji 0x23ed)) 2 (is_empty q.upcoming)
      ∷ button session (codes "stop") (codes "Stop") ((emoji 0x23f9)) 4 false
      ∷ [])
    ∷ (button session (codes "queue") (codes "Queue") (codes "📋") 2 false
        ∷ button session (codes "loop") (mode_label q.loop_mode) (codes "🔁") 2 false
        ∷ button session (codes "leave") (codes "Leave") (codes "👋") 4 false
        ∷ [])
    ∷ []

unfoldable pub player : Urls → Queue → Text → Bool → ℕ → ℕ → View
unfolding player_embed player_buttons text_view
player urls q session paused volume position = elim q.current [
  | none ↦ text_view (codes "Nothing is playing.")
  | some t ↦ record {
    content = none;
    embeds = player_embed urls q t paused volume position ∷ [];
    components = player_buttons q session paused;
  }
]
