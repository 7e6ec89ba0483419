-- ===== src/Playback/Examples.antt =====
-- Runs of the queue of src/playback.rs on small inputs.
use raydio.Prelude.{
  ℕ, ◌+◌, ◌/◌, ◌≤◌, ◌<◌, ◌≡◌, ◌≢◌, refl, true, false, none, some, List, decimal, padded, text_eq,
  [], ◌∷◌, Text, codes, arith, drop, if◌then◌else◌, leb,
}
use mathlib.Core.List.Perm
use raydio.Playback.{
  PreviousOutcome, LoopMode, Track, Queue, default, failure_limit, len, finish, fail, skip,
  previous, jump, move_to, preparation_target, format_duration,
}
use raydio.Playback.Bounds.{IsValid, Call, run, run-default-IsValid}
use raydio.Playback.Order.{items, iterate, jump-eq-skip-move_to, move_to-move_to, finish_cycle}
use raydio.Playback.Undo.{previous-skip, previous-finish}
use raydio.Playback.Failures.{fail_run}
use raydio.Playback.Prepare.{preparation_target-finish}
use raydio.Playback.Duration.{clock, clock-format_duration}

abbrev song : Text → ℕ → Track
song name ms = record {
  encoded = name;
  identifier = name;
  title = name;
  author = codes "Author";
  duration_ms = ms;
  stream = false;
  uri = none;
  requester_id = codes "7";
  requested_by = codes "Listener";
}

abbrev a : Track
a = song (codes "a") 60000

abbrev b : Track
b = song (codes "b") 90000

abbrev c : Track
c = song (codes "c") 30000

abbrev playing_three : LoopMode → Queue
playing_three mode = record {
  current = some a;
  upcoming = b ∷ c ∷ [];
  history = [];
  loop_mode = mode;
  consecutive_failures = 0;
}

abbrev three : Queue
three = playing_three LoopMode.off

three-IsValid : (n : ℕ) → 3 ≤ n → IsValid n three
unfolding len
three-IsValid n h = record {
  bounded = ground arith;
  remembered = ground arith;
  streak = ground arith;
  below_limit = λ h. ground arith;
  headed = λ h. ground arith;
}

-- A shuffler that leaves the order as it is.
abbrev keeps : ℕ → List Track → List Track
keeps seed xs = xs

-- A finish in the queue loop with three tracks repeats the first at the end.
finish_run : items (finish (playing_three LoopMode.queue)) ≡ b ∷ c ∷ a ∷ []
unfolding finish
finish_run = refl

-- A jump to the second upcoming track drops only that one from the upcoming tracks.
jump_run : items (jump three 2).0 ≡ c ∷ b ∷ []
unfolding jump
jump_run = refl

-- An hour, a minute and a second.
format_duration_run : format_duration 3661000 false ≡ codes "1:01:01"
unfolding format_duration decimal padded
format_duration_run = refl

run-default-IsValid_example :
    IsValid 2
      (run keeps 2 default (Call.enqueues (a ∷ b ∷ c ∷ []) ∷ Call.finishes ∷ Call.shuffles 5 ∷ []))
run-default-IsValid_example =
    run-default-IsValid keeps 2 (λ seed xs. Perm.refl xs)
      (Call.enqueues (a ∷ b ∷ c ∷ []) ∷ Call.finishes ∷ Call.shuffles 5 ∷ [])

jump-eq-skip-move_to_example : jump three 2 ≡ (skip (move_to three 2 1).0, true)
jump-eq-skip-move_to_example = jump-eq-skip-move_to three 2 a refl (ground arith) (ground arith)

move_to-move_to_example : (move_to (move_to three 1 2).0 2 1).0 ≡ three
move_to-move_to_example =
    move_to-move_to three 1 2 (ground arith) (ground arith) (ground arith) (ground arith)

finish_cycle_example :
    items (iterate (len (playing_three LoopMode.queue)) finish (playing_three LoopMode.queue))
    ≡ items (playing_three LoopMode.queue)
finish_cycle_example = finish_cycle (playing_three LoopMode.queue) refl refl

previous-skip_example : previous (skip three) 10 ≡ (three, PreviousOutcome.started)
unfolding len
previous-skip_example =
    previous-skip 10 three a b (c ∷ []) refl refl (ground arith) (ground arith) (ground arith)

previous-finish_example :
    previous (finish (playing_three LoopMode.queue)) 3
    ≡ (record (playing_three LoopMode.queue) { consecutive_failures = 0 }, PreviousOutcome.started)
previous-finish_example =
    previous-finish 3 (playing_three LoopMode.queue) a b (c ∷ []) refl refl refl (ground arith)

fail_run_example :
    (items (iterate 2 fail three)
      ≡ (if leb failure_limit (three.consecutive_failures + 2) then [] else drop 2 (items three)))
    × ((iterate 2 fail three).history ≡ three.history)
fail_run_example = fail_run 1 10 three (three-IsValid 10 (ground arith))

preparation_target-finish_example :
    ((finish three).current ≡ some b)
    × (b.stream ≡ false)
    × (b.encoded ≢ a.encoded)
    × (a.stream ≡ false)
    × (0 < a.duration_ms)
    × (a.duration_ms ≤ 30000 + 45000)
unfolding preparation_target text_eq
preparation_target-finish_example = preparation_target-finish three 30000 a b refl refl

clock-format_duration_example : clock 0 0 (format_duration 3661000 false) ≡ 3661000 / 1000
clock-format_duration_example = clock-format_duration 3661000
