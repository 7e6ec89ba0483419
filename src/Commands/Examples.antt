-- ===== src/Commands/Examples.antt =====
-- Runs of src/commands.rs: two commands, and what Discord returns for them.
use mathlib.Core.List.Perm
use raydio.Prelude.{◌≡◌, refl, true, false, none, some, [], ◌∷◌, codes, text_eq, text_eq_refl, Text}
use raydio.Commands.{Command, leaf, branch, nil, cons, matches_registered}
use raydio.Commands.Registered.{
  Returned, kept, written, leaves, branches, ends, more, none_returned, one_returned,
  matches_registered-returned,
}

-- The other fields are a description here.
abbrev play : Command Text Text
play = record {
  name = codes "play";
  nsfw = none;
  options = cons (leaf (codes "request") (some true) (some true)) nil;
  rest = codes "Play a song";
}

abbrev volume : Command Text Text
volume = record {
  name = codes "volume";
  nsfw = none;
  options = cons (branch (codes "set") none none (cons (leaf (codes "percent") none none) nil)) nil;
  rest = codes "Set the volume";
}

-- Discord writes the defaults out.
abbrev play_returned : Command Text Text
play_returned = record play { nsfw = some false }

abbrev volume_returned : Command Text Text
volume_returned = record volume {
  options =
      cons
        (branch (codes "set") none (some false)
          (cons (leaf (codes "percent") (some false) none) nil))
        nil;
}

play-Returned : Returned play play_returned
play-Returned = record {
  name = refl;
  rest = refl;
  nsfw = written;
  options = more (leaves (codes "request") (kept (some true)) (kept (some true))) ends;
}

volume-Returned : Returned volume volume_returned
volume-Returned = record {
  name = refl;
  rest = refl;
  nsfw = kept none;
  options =
      more
        (branches (codes "set") (kept none) written
          (more (leaves (codes "percent") written (kept none)) ends))
        ends;
}

matches_registered-returned_example :
    matches_registered text_eq text_eq (volume_returned ∷ play_returned ∷ []) (play ∷ volume ∷ [])
    ≡ true
matches_registered-returned_example =
    matches_registered-returned text_eq text_eq (volume_returned ∷ play_returned ∷ [])
      (play ∷ volume ∷ []) (play_returned ∷ volume_returned ∷ []) text_eq_refl text_eq_refl
      (one_returned play-Returned (one_returned volume-Returned none_returned))
      (Perm.swap play_returned volume_returned [])

-- A command that lost its autocompletion does not match.
changed :
    matches_registered text_eq text_eq
      (record play { options = cons (leaf (codes "request") (some true) none) nil } ∷ [])
      (play ∷ [])
    ≡ false
unfolding matches_registered text_eq
changed = refl
