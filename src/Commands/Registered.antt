-- ===== src/Commands/Registered.antt =====
-- Registered commands that differ only in order and defaults match (src/commands.rs).
use raydio.Prelude.{
  ◌≡◌, refl, ◌∙◌, Bool, true, false, ◌||◌, Option, none, some, List, [], ◌∷◌, Perm, arith,
  text_eq_refl, length, length-perm, any-perm, all, any, bool_eq,
}
use raydio.Commands.{
  CommandOption, leaf, branch, Options, nil, cons, Command, or_false, normalized_option,
  normalized_options, option_eq, options_eq, option_bool_eq, same_command, matches_registered,
}

-- A flag as Discord returns it: as it was registered, or with its default `false` written out or
-- left out.
pub data Flag : Option Bool → Option Bool → Type 0 where
  kept : (f : Option Bool) → Flag f f
  written : Flag none (some false)
  omitted : Flag (some false) none

-- An option as Discord returns it, with its flags and nested options.
mutual
  pub data ReturnedOption {F : Type 0} : CommandOption F → CommandOption F → Type 0 where
    leaves :
        (f : F) {r s a b : Option Bool}
        → Flag r s
        → Flag a b
        → ReturnedOption (leaf f r a) (leaf f s b)
    branches :
        (f : F) {r s a b : Option Bool} {os ps : Options F}
        → Flag r s
        → Flag a b
        → ReturnedOptions os ps
        → ReturnedOption (branch f r a os) (branch f s b ps)

  pub data ReturnedOptions {F : Type 0} : Options F → Options F → Type 0 where
    ends : ReturnedOptions nil nil
    more :
        {o p : CommandOption F} {os ps : Options F}
        → ReturnedOption o p
        → ReturnedOptions os ps
        → ReturnedOptions (cons o os) (cons p ps)

-- A command that was registered, and the command that Discord returns for it.
pub record Returned {C F : Type 0} (w c : Command C F) : Type 0 where
  pub name : c.name ≡ w.name
  pub rest : c.rest ≡ w.rest
  pub nsfw : Flag w.nsfw c.nsfw
  pub options : ReturnedOptions w.options c.options

-- The returned commands, one for each that was registered.
pub data AllReturned {C F : Type 0} : List (Command C F) → List (Command C F) → Type 0 where
  none_returned : AllReturned [] []
  one_returned :
      {w c : Command C F} {ws cs : List (Command C F)}
      → Returned w c
      → AllReturned ws cs
      → AllReturned (w ∷ ws) (c ∷ cs)

Flag-or_false : {f g : Option Bool} → Flag f g → or_false f ≡ or_false g
Flag-or_false (kept f) = refl
Flag-or_false written = refl
Flag-or_false omitted = refl

mutual
  unfolding normalized_option normalized_options

  normalized_option-Returned :
      {F : Type 0} {o p : CommandOption F}
      → ReturnedOption o p
      → normalized_option p ≡ normalized_option o
  normalized_option-Returned (leaves f r a) = rw (Flag-or_false r, Flag-or_false a) refl
  normalized_option-Returned (branches f r a os) =
      rw (Flag-or_false r, Flag-or_false a, normalized_options-Returned os) refl

  normalized_options-Returned :
      {F : Type 0} {os ps : Options F}
      → ReturnedOptions os ps
      → normalized_options ps ≡ normalized_options os
  normalized_options-Returned ends = refl
  normalized_options-Returned (more o os) =
      rw (normalized_option-Returned o, normalized_options-Returned os) refl

option_bool_eq_refl : (b : Option Bool) → option_bool_eq b b ≡ true
option_bool_eq_refl none = refl
option_bool_eq_refl (some true) = refl
option_bool_eq_refl (some false) = refl

mutual
  unfolding option_eq options_eq

  option_eq_refl :
      {F : Type 0} (eq : F → F → Bool) (o : CommandOption F)
      → ((f : F) → eq f f ≡ true)
      → option_eq eq o o ≡ true
  option_eq_refl eq (leaf f r a) h = rw (h f, option_bool_eq_refl r, option_bool_eq_refl a) refl
  option_eq_refl eq (branch f r a os) h =
      rw (h f, option_bool_eq_refl r, option_bool_eq_refl a, options_eq_refl eq os h) refl

  options_eq_refl :
      {F : Type 0} (eq : F → F → Bool) (os : Options F)
      → ((f : F) → eq f f ≡ true)
      → options_eq eq os os ≡ true
  options_eq_refl eq nil h = refl
  options_eq_refl eq (cons o os) h = rw (option_eq_refl eq o h, options_eq_refl eq os h) refl

or_true : (a b : Bool) → b ≡ true → (a || b) ≡ true
or_true true b h = refl
or_true false b h = h

length-AllReturned :
    {C F : Type 0} {ws cs : List (Command C F)} → AllReturned ws cs → length cs ≡ length ws
length-AllReturned none_returned = refl
length-AllReturned (one_returned r rs) = omega (arith, length-AllReturned rs)

bool_eq_refl : (b : Bool) → bool_eq b b ≡ true
bool_eq_refl true = refl
bool_eq_refl false = refl

module _ {C F : Type 0} (rest_eq : C → C → Bool) (eq : F → F → Bool) where
  same_command-Returned :
      (w c : Command C F)
      → ((d : C) → rest_eq d d ≡ true)
      → ((f : F) → eq f f ≡ true)
      → Returned w c
      → same_command rest_eq eq w c ≡ true
  unfolding same_command
  same_command-Returned w c h k r =
      rw
        (
          r.name,
          r.rest,
          Flag-or_false r.nsfw,
          normalized_options-Returned r.options,
          text_eq_refl w.name,
          h w.rest,
          bool_eq_refl (or_false c.nsfw),
          options_eq_refl eq (normalized_options w.options) k,
        )
        refl

  -- Every command is found in a pool that finds what the returned commands do.
  all_found :
      (pool : List (Command C F)) {ws cs : List (Command C F)}
      → ((c : C) → rest_eq c c ≡ true)
      → ((f : F) → eq f f ≡ true)
      → AllReturned ws cs
      → ((w : Command C F)
          → any (same_command rest_eq eq w) cs ≡ true
          → any (same_command rest_eq eq w) pool ≡ true)
      → all (λ w. any (same_command rest_eq eq w) pool) ws ≡ true
  all_found pool h k none_returned finds = refl
  all_found pool h k (one_returned {w} {c} r rs) finds =
      rw (finds w (rw (same_command-Returned w c h k r) refl))
        (all_found pool h k rs (λ v found. finds v (or_true (same_command rest_eq eq v c) _ found)))

  -- When both parameters' `==` are reflexive, commands that Discord returns in any order, each with
  -- any of the `false` defaults of `nsfw`, `required` and `autocomplete` written out or left out, at
  -- every depth of the options, match the commands that were registered: an unchanged manifest is not
  -- written again.
  pub matches_registered-returned :
      (current wanted returned : List (Command C F))
      → ((c : C) → rest_eq c c ≡ true)
      → ((f : F) → eq f f ≡ true)
      → AllReturned wanted returned
      → Perm current returned
      → matches_registered rest_eq eq current wanted ≡ true
  unfolding matches_registered
  matches_registered-returned current wanted returned h k rs p =
      let same_length : length current ≡ length wanted = length-perm p ∙ length-AllReturned rs in
      let found = all_found current h k rs (λ w e. any-perm (same_command rest_eq eq w) p ∙ e) in
      rw found (ground (arith, same_length))
