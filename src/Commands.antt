-- ===== src/Commands.antt =====
-- src/commands.rs: whether the registered commands are those that the program defines. Of Twilight's
-- `Command` and `CommandOption` the fields that the code treats on their own are written out; the
-- others that it compares are of a parameter type with its `==`.
pub mod Registered
mod Examples
use raydio.Prelude.{
  ℕ, Bool, true, false, ◌&&◌, Option, none, some, List, [], ◌∷◌, Text, text_eq, ◌==◌, length, all,
  any, bool_eq,
}

mutual
  -- An option: its other fields, `required`, `autocomplete`, and its nested options, if any.
  pub data CommandOption (F : Type 0) : Type 0 where
    leaf : F → Option Bool → Option Bool → CommandOption F
    branch : F → Option Bool → Option Bool → Options F → CommandOption F

  pub data Options (F : Type 0) : Type 0 where
    nil : Options F
    cons : CommandOption F → Options F → Options F

-- A command: its name, `nsfw`, its options, and the other fields that are compared (kind, guild,
-- contexts, integration types, permissions, description and localizations).
pub record Command (C F : Type 0) : Type 0 where
  pub name : Text
  pub nsfw : Option Bool
  pub options : Options F
  pub rest : C

-- `unwrap_or(false)`
abbrev pub or_false : Option Bool → Bool
or_false none = false
or_false (some b) = b

unfoldable mutual
  pub normalized_option : {F : Type 0} → CommandOption F → CommandOption F
  normalized_option (leaf f required autocomplete) =
      leaf f (some (or_false required)) (some (or_false autocomplete))
  normalized_option (branch f required autocomplete os) =
      branch f (some (or_false required)) (some (or_false autocomplete)) (normalized_options os)

  pub normalized_options : {F : Type 0} → Options F → Options F
  normalized_options nil = nil
  normalized_options (cons o os) = cons (normalized_option o) (normalized_options os)

-- `==` on `Option<bool>`
abbrev pub option_bool_eq : Option Bool → Option Bool → Bool
option_bool_eq none none = true
option_bool_eq (some a) (some b) = bool_eq a b
option_bool_eq _ _ = false

unfoldable mutual
  pub option_eq : {F : Type 0} → (F → F → Bool) → CommandOption F → CommandOption F → Bool
  option_eq eq (leaf f r a) (leaf g s b) = eq f g && option_bool_eq r s && option_bool_eq a b
  option_eq eq (branch f r a os) (branch g s b ps) =
      eq f g && option_bool_eq r s && option_bool_eq a b && options_eq eq os ps
  option_eq eq (leaf f r a) (branch g s b ps) = false
  option_eq eq (branch f r a os) (leaf g s b) = false

  pub options_eq : {F : Type 0} → (F → F → Bool) → Options F → Options F → Bool
  options_eq eq nil nil = true
  options_eq eq (cons o os) (cons p ps) = option_eq eq o p && options_eq eq os ps
  options_eq eq nil (cons p ps) = false
  options_eq eq (cons o os) nil = false

module _ {C F : Type 0} (rest_eq : C → C → Bool) (eq : F → F → Bool) where
  unfoldable pub same_command : Command C F → Command C F → Bool
  unfolding options_eq normalized_options
  same_command wanted current =
      text_eq current.name wanted.name
      && rest_eq current.rest wanted.rest
      && bool_eq (or_false current.nsfw) (or_false wanted.nsfw)
      && options_eq eq (normalized_options current.options) (normalized_options wanted.options)

  unfoldable pub matches_registered : List (Command C F) → List (Command C F) → Bool
  unfolding same_command
  matches_registered current wanted =
      length current == length wanted && all (λ w. any (same_command w) current) wanted
