-- ===== src/Views/Message.antt =====
-- The messages of src/views.rs: `View`, with the parts of Twilight's embeds and components that the
-- code sets.
use raydio.Prelude.{ℕ, Bool, Option, some, List, [], ◌∷◌, ◌++◌, Text, codes}
use raydio.Views.{truncate}

pub record EmbedField : Type 0 where
  pub name : Text
  pub value : Text

pub record Embed : Type 0 where
  pub color : ℕ
  pub author : Text
  pub title : Text
  pub description : Text
  pub fields : List EmbedField
  pub footer : Text
  pub thumbnail : Option Text
  pub url : Option Text

pub record Button : Type 0 where
  pub custom_id : Text
  pub label : Text
  pub emoji : Option Text
  pub style : ℕ
  pub disabled : Bool

-- A list of action rows, each a list of buttons, stands for the components.
pub record View : Type 0 where
  pub content : Option Text
  pub embeds : List Embed
  pub components : List (List Button)

-- `View::text`
unfoldable pub text_view : Text → View
unfolding truncate
text_view text = record { content = some (truncate text 2000); embeds = []; components = [] }

unfoldable pub button : Text → Text → Text → Text → ℕ → Bool → Button
button session action label emoji style disabled = record {
  custom_id = codes "raydio:player:" ++ (session ++ b':' ∷ action);
  label = label;
  emoji = some emoji;
  style = style;
  disabled = disabled;
}

-- `join`
unfoldable pub join_with : Text → List Text → Text
join_with sep [] = []
join_with sep (s ∷ []) = s
join_with sep (s ∷ t ∷ ts) = s ++ (sep ++ join_with sep (t ∷ ts))
