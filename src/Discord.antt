-- ===== src/Discord.antt =====
-- `Request` of src/discord.rs. The parts of Twilight's `Interaction` that the code reads are fields.
pub mod Calls
pub mod Acknowledged
mod Examples
use raydio.Prelude.{
  ℕ, Bool, false, not, ◌&&◌, Option, none, some, List, [], ◌∷◌, Text, codes, text_eq, if◌then◌else◌,
  starts_with, ends_with, parse_unsigned, u64_max, decimal,
}

-- `CommandOptionValue`
pub data OptionValue : Type 0 where
  string : Text → OptionValue
  focused : Text → OptionValue
  integer : Bool → ℕ → OptionValue  -- whether it is negative, and its size
  other_value : OptionValue

pub record CommandOption : Type 0 where
  pub name : Text
  pub value : OptionValue

-- `InteractionData`
pub data InteractionData : Type 0 where
  application_command : Text → List CommandOption → InteractionData
  message_component : Text → InteractionData
  other_data : InteractionData

pub record User : Type 0 where
  pub id : ℕ
  pub name : Text
  pub global_name : Option Text

pub record Interaction : Type 0 where
  pub id : ℕ
  pub interaction_data : Option InteractionData
  pub author : Option User
  pub nick : Option Text
  pub channel : Option ℕ
  pub message : Option (ℕ × ℕ)  -- the channel and the id of the component's message

pub record Request : Type 0 where
  pub interaction : Interaction
  pub name : Text
  pub options : List (Text × Text)
  pub custom_id : Option Text

-- `HashMap<String, String>`
unfoldable pub get_option : Text → List (Text × Text) → Option Text
get_option k [] = none
get_option k ((j, v) ∷ m) = if text_eq j k then some v else get_option k m

unfoldable pub set_option : Text → Text → List (Text × Text) → List (Text × Text)
set_option k v [] = (k, v) ∷ []
set_option k v ((j, w) ∷ m) = if text_eq j k then (k, v) ∷ m else (j, w) ∷ set_option k v m

-- The text of an option that `new` keeps.
abbrev option_text : OptionValue → Option Text
option_text (string s) = some s
option_text (focused s) = some s
option_text (integer negative n) = some (if negative then b'-' ∷ decimal n else decimal n)
option_text other_value = none

unfoldable pub read_options : List (Text × Text) → List CommandOption → List (Text × Text)
unfolding set_option
read_options m [] = m
read_options m (o ∷ os) = elim (option_text o.value) [
  | none ↦ read_options m os
  | some s ↦ read_options (set_option o.name s m) os
]

unfoldable pub new : Interaction → Request
unfolding read_options
new i = elim i.interaction_data [
  | none ↦ record { interaction = i; name = []; options = []; custom_id = none }
  | some d ↦ elim d [
    | application_command name os ↦ record {
      interaction = i;
      name = name;
      options = read_options [] os;
      custom_id = none;
    }
    | message_component custom_id ↦ record {
      interaction = i;
      name = [];
      options = [];
      custom_id = some custom_id;
    }
    | other_data ↦ record { interaction = i; name = []; options = []; custom_id = none }
  ]
]

unfoldable pub user : Request → ℕ
user r = elim r.interaction.author [ none ↦ 0 | some u ↦ u.id ]

abbrev pub channel : Request → Option ℕ
channel r = r.interaction.channel

unfoldable pub option : Request → Text → Text
unfolding get_option
option r name = elim (get_option name r.options) [ none ↦ [] | some s ↦ s ]

unfoldable pub index : Request → Text → ℕ
unfolding option
index r name = elim (parse_unsigned u64_max (option r name)) [ none ↦ 0 | some n ↦ n ]

unfoldable pub label : Request → Text
label r = elim r.interaction.nick [
  | some nick ↦ nick
  | none ↦ elim r.interaction.author [
    | none ↦ codes "Listener"
    | some u ↦ elim u.global_name [ none ↦ u.name | some g ↦ g ]
  ]
]

-- The queue button answers with a message of its own; every other button edits its message.
unfoldable pub updates_message : Request → Bool
updates_message r = elim r.custom_id [
  | none ↦ false
  | some id ↦ not (starts_with id (codes "raydio:player:") && ends_with id (codes ":queue"))
]
