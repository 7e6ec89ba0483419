-- ===== src/Views/Choices.antt =====
-- The choices of an autocompletion: `search_choices` of src/views.rs.
use raydio.Prelude.{
  not, ◌||◌, List, [], ◌∷◌, ◌++◌, Text, codes, text_eq, ltb, if◌then◌else◌, ◌==◌, length, any, take,
}
use raydio.Playback.{Track}
use raydio.Urls.{valid_identifier}
use raydio.Views.{utf16_count, truncate, plain}

pub record Choice : Type 0 where
  pub name : Text
  pub value : Text

unfoldable pub watch_url : Text → Text
watch_url identifier = codes "https://www.youtube.com/watch?v=" ++ identifier

unfoldable pub choice_title : Track → Text
unfolding plain
choice_title t =
    if length (plain t.title) == 0 then codes "Untitled YouTube track" else plain t.title

unfoldable pub choice_label : Track → Text
unfolding plain choice_title
choice_label t =
    if length (plain t.author) == 0
    then choice_title t
    else choice_title t ++ (codes " — " ++ plain t.author)

unfoldable pub choice_name : Track → Text
unfolding choice_label truncate
choice_name t = truncate (choice_label t) 100

-- The tracks that become choices, given the identifiers seen before.
unfoldable pub choices_from : List Text → List Track → List Choice
unfolding watch_url choice_name valid_identifier utf16_count
choices_from seen [] = []
choices_from seen (t ∷ ts) =
    let same = choices_from seen ts in
    let rest = choices_from (t.identifier ∷ seen) ts in
    if not (valid_identifier t.identifier) || any (text_eq t.identifier) seen
    then same
    else if ltb 100 (utf16_count (watch_url t.identifier))
    then rest
    else record { name = choice_name t; value = watch_url t.identifier } ∷ rest

unfoldable pub search_choices : List Track → List Choice
unfolding choices_from
search_choices tracks = take 10 (choices_from [] tracks)
