-- ===== src/Views/Examples.antt =====
-- Runs of src/views.rs on small inputs.
use raydio.Prelude.{
  ◌≤◌, ◌≡◌, refl, true, false, none, all, codes, List, [], ◌∷◌, Text, length, map,
  is_ascii_alphanumeric, text_eq,
}
use raydio.Views.{utf16_count, truncate, safe, fitting}
use raydio.Urls
use raydio.Playback.{Track}
use raydio.Views.Pages.{entries_from, page_count}
use raydio.Views.Upcoming.{pages_from, pages_cover}
use raydio.Views.Choices.{search_choices}
use raydio.Views.Suggestions.{AreDistinct, is_short, search_choices-fit}
use raydio.Views.Limits.{truncate-bound}
use raydio.Views.Safety.{is_printable, safe-printable}

truncate_run : truncate (codes "abcdef") 4 ≡ 97 ∷ 98 ∷ 99 ∷ 0x2026 ∷ []
unfolding truncate utf16_count fitting
truncate_run = refl

truncate-bound_example :
    (utf16_count (truncate (codes "abcdef") 4) ≤ 4)
    × (truncate (truncate (codes "abcdef") 4) 4 ≡ truncate (codes "abcdef") 4)
truncate-bound_example = truncate-bound (codes "abcdef") 4

safe-printable_example : all is_printable (safe (codes "a *b*\n c") 160) ≡ true
safe-printable_example = safe-printable (codes "a *b*\n c") 160

abbrev song : Text → Track
song id = record {
  encoded = codes "e";
  identifier = id;
  title = codes "Song";
  author = codes "Band";
  duration_ms = 61000;
  stream = false;
  uri = none;
  requester_id = codes "8";
  requested_by = codes "Ann";
}

abbrev songs : List Track
songs = map song (codes "a1" ∷ codes "b2" ∷ codes "a1" ∷ codes "no id" ∷ [])

-- Eleven tracks have two pages.
abbrev eleven : List Track
eleven =
    song (codes "c")
    ∷ song (codes "d")
    ∷ song (codes "e")
    ∷ song (codes "f")
    ∷ song (codes "g")
    ∷ song (codes "h")
    ∷ song (codes "i")
    ∷ songs

eleven_pages : page_count (length eleven) ≡ 2
unfolding page_count
eleven_pages = refl

pages_cover_example : pages_from 0 (page_count (length eleven)) eleven ≡ entries_from 0 eleven
pages_cover_example = pages_cover eleven

-- The same song twice is one choice, and a song without a valid identifier is none.
songs_choices : length (search_choices songs) ≡ 2
unfolding search_choices raydio.Urls.valid_identifier is_ascii_alphanumeric text_eq
songs_choices = refl

search_choices-fit_example :
    (length (search_choices songs) ≤ 10)
    × AreDistinct (search_choices songs)
    × (all is_short (search_choices songs) ≡ true)
search_choices-fit_example = search_choices-fit songs
