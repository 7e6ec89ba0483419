-- ===== src/Views/Pages.antt =====
-- The queue message: `queue` of src/views.rs, ten tracks to a page.
use raydio.Prelude.{
  ℕ, ◌+◌, ◌-◌, ◌*◌, ◌/◌, min, max, Bool, false, not, ◌&&◌, none, some, List, [], ◌∷◌, ◌++◌, Text,
  codes, ltb, ◌==◌, if◌then◌else◌, length, take, drop, decimal, saturating_add,
}
use raydio.Playback.{Track, Queue, format_duration}
use raydio.Views.{safe, truncate, mode_name}
use raydio.Views.Message.{Button, View, text_view, join_with}

unfoldable pub compact : Track → Text
unfolding safe
compact t =
    codes "**"
    ++ (safe t.title 60
        ++ (codes "** — "
            ++ (safe t.author 30
                ++ (codes " ["
                    ++ ((if not t.stream && t.duration_ms == 0
                          then codes "Unknown"
                          else format_duration t.duration_ms t.stream)
                        ++ (codes "] • " ++ safe t.requested_by 24))))))

-- The lines of tracks, numbered from `index + 1`.
unfoldable pub entries_from : ℕ → List Track → List Text
unfolding compact
entries_from index [] = []
entries_from index (t ∷ ts) =
    (decimal (index + 1) ++ (codes ". " ++ compact t)) ∷ entries_from (index + 1) ts

-- `len().div_ceil(10).max(1)`
unfoldable pub page_count : ℕ → ℕ
page_count n = max ((n + 9) / 10) 1

-- `enumerate().skip(page * 10).take(10)`
unfoldable pub page_entries : ℕ → List Track → List Text
unfolding entries_from
page_entries page ts = take 10 (drop (page * 10) (entries_from 0 ts))

unfoldable pub time_line : Track → ℕ → Text
time_line t position =
    if t.stream
    then codes "LIVE"
    else if t.duration_ms == 0
    then format_duration position false ++ codes " elapsed • duration unknown"
    else format_duration (min position t.duration_ms) false
      ++ (codes " elapsed • "
          ++ (format_duration (t.duration_ms - position) false ++ codes " remaining"))

-- The remaining time, and the numbers of streams and of tracks without a duration.
pub record Totals : Type 0 where
  pub time : ℕ
  pub streams : ℕ
  pub unknown : ℕ

unfoldable pub count_track : Totals → Track → Totals
count_track s t =
    if t.stream
    then record s { streams = s.streams + 1 }
    else if t.duration_ms == 0
    then record s { unknown = s.unknown + 1 }
    else record s { time = saturating_add s.time t.duration_ms }

unfoldable pub count_tracks : Totals → List Track → Totals
unfolding count_track
count_tracks s [] = s
count_tracks s (t ∷ ts) = count_tracks (count_track s t) ts

unfoldable pub totals : Track → List Track → ℕ → Totals
unfolding count_tracks
totals t upcoming position =
    count_tracks
      (record {
        time = if t.stream then 0 else t.duration_ms - position;
        streams = if t.stream then 1 else 0;
        unknown = if not t.stream && t.duration_ms == 0 then 1 else 0;
      })
      upcoming

unfoldable pub total_line : Totals → Text
total_line s =
    codes "Finite queue time remaining: "
    ++ (format_duration s.time false
        ++ ((if s.unknown == 0
              then []
              else codes " • " ++ (decimal s.unknown ++ codes " unknown duration not included"))
            ++ (if ltb 0 s.streams
                then codes " • " ++ (decimal s.streams ++ codes " live not included")
                else [])))

unfoldable pub queue_lines : Queue → Track → ℕ → ℕ → Bool → ℕ → ℕ → List Text
unfolding compact time_line page_entries totals total_line mode_name
queue_lines q t pages page paused volume position =
    (codes "Now playing: " ++ compact t)
    ∷ (codes "Progress: " ++ time_line t position)
    ∷ ((if length q.upcoming == 0
          then codes "Upcoming: empty" ∷ []
          else (codes "Upcoming • Page "
              ++ (decimal (page + 1) ++ b'/' ∷ (decimal pages ++ codes ":")))
            ∷ page_entries page q.upcoming)
        ++ (total_line (totals t q.upcoming position)
            ∷ (codes "Status: "
                ++ ((if paused then codes "paused" else codes "playing")
                    ++ (codes " • Loop: "
                        ++ (mode_name q.loop_mode
                            ++ (codes " • Volume: " ++ (decimal volume ++ codes "%"))))))
            ∷ []))

abbrev pub page_button : Text → Text → ℕ → Bool → Button
page_button session label page disabled = record {
  custom_id = codes "raydio:queue:" ++ (session ++ b':' ∷ decimal page);
  label = label;
  emoji = none;
  style = 2;
  disabled = disabled;
}

unfoldable pub page_buttons : Text → ℕ → ℕ → List (List Button)
page_buttons session pages page =
    if ltb 1 pages
    then (page_button session (codes "Previous") (page - 1) (page == 0)
        ∷ page_button session (codes "Next") (min (page + 1) (pages - 1)) (page + 1 == pages)
        ∷ [])
      ∷ []
    else []

unfoldable pub queue : Queue → Text → ℕ → Bool → ℕ → ℕ → View
unfolding text_view page_count queue_lines page_buttons join_with truncate
queue q session requested_page paused volume position = elim q.current [
  | none ↦ text_view (codes "The queue is empty.")
  | some t ↦
      let pages = page_count (length q.upcoming) in
      let page = min requested_page (pages - 1) in
      record {
        content = some (
            truncate (join_with (codes "\n") (queue_lines q t pages page paused volume position))
              2000);
        embeds = [];
        components = page_buttons session pages page;
      }
]
