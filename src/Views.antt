-- ===== src/Views.antt =====
-- src/views.rs: texts that are shown to users. A text is a list of Unicode scalar values, and
-- lengths count UTF-16 units.
pub mod Message
pub mod Player
pub mod Pages
pub mod Choices
pub mod Upcoming
pub mod Suggestions
pub mod Limits
pub mod Safety
mod Examples
use raydio.Prelude.{
  ℕ, suc, ◌+◌, ◌-◌, ◌*◌, ◌≤◌, ◌<◌, Bool, true, false, not, ◌&&◌, ◌||◌, Option, none, some, List, [],
  ◌∷◌, ◌++◌, Text, codes, ltb, leb, ◌==◌, if◌then◌else◌, any, keep, is_whitespace, is_control,
}
use raydio.Playback.{LoopMode}

-- `char::len_utf16`
abbrev pub len_utf16 : ℕ → ℕ
len_utf16 c = if ltb c 0x10000 then 1 else 2

-- `encode_utf16().count()`
unfoldable pub utf16_count : Text → ℕ
utf16_count [] = 0
utf16_count (c ∷ s) = len_utf16 c + utf16_count s

-- The loop of `truncate`: characters are kept while the count stays below the maximum.
unfoldable pub fitting : ℕ → ℕ → Text → Text
fitting max count [] = []
fitting max count (c ∷ s) = elim (leb max (count + len_utf16 c)) [
  | true ↦ []
  | false ↦ c ∷ fitting max (count + len_utf16 c) s
]

abbrev pub ellipsis : ℕ
ellipsis = 0x2026

unfoldable pub truncate : Text → ℕ → Text
unfolding utf16_count fitting
truncate text max =
    if leb (utf16_count text) max
    then text
    else fitting max 0 text ++ (if ltb 0 max then ellipsis ∷ [] else [])

-- `split_whitespace().collect().join(" ")`: runs of white space become one space, and none is
-- left at the ends. `pending` says that a space is due before the next word.
unfoldable pub flatten_from : Bool → Bool → Text → Text
flatten_from started pending [] = []
flatten_from started pending (c ∷ s) = elim (is_whitespace c) [
  | true ↦ flatten_from started started s
  | false ↦ elim pending [
    | true ↦ 0x20 ∷ c ∷ flatten_from true false s
    | false ↦ c ∷ flatten_from true false s
  ]
]

unfoldable pub flatten : Text → Text
unfolding flatten_from
flatten = flatten_from false false

unfoldable pub plain : Text → Text
unfolding flatten
plain text = keep (λ c. not (is_control c)) (flatten text)

abbrev pub markdown : Text
markdown = codes "\\*_~`|>[]()#"

unfoldable pub is_markdown : ℕ → Bool
is_markdown c = any (λ m. m == c) markdown

-- The loop of `safe`.
unfoldable pub escape : Text → Text
unfolding is_markdown
escape [] = []
escape (c ∷ s) =
    (if is_markdown c then b'\\' ∷ [] else [])
    ++ ((if is_control c then [] else c ∷ []) ++ escape s)

unfoldable pub safe : Text → ℕ → Text
unfolding truncate flatten escape
safe text max = truncate (escape (flatten text)) max

unfoldable pub mode_name : LoopMode → Text
mode_name LoopMode.off = codes "off"
mode_name LoopMode.track = codes "track"
mode_name LoopMode.queue = codes "queue"

-- `label`
unfoldable pub mode_label : LoopMode → Text
mode_label LoopMode.off = codes "Loop: OFF"
mode_label _ = codes "Loop: ON"
