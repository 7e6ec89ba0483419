-- ===== src/Playback.antt =====
-- src/playback.rs: the queue of a guild's session and the format of durations.
-- A method that mutates `&mut self` returns the new queue, with its result where it has one.
pub mod Bounds
pub mod Order
pub mod Undo
pub mod Failures
pub mod Prepare
pub mod Duration
mod Examples
use raydio.Prelude.{
  ℕ, ◌+◌, ◌-◌, ◌/◌, ◌%◌, ◌≤◌, Bool, true, false, not, ◌&&◌, ◌||◌, Option, none, some, List, [], ◌∷◌,
  ◌++◌, Text, codes, text_eq, ltb, leb, ◌==◌, if◌then◌else◌, is_some, is_none, length, take, drop,
  first, last, but_last, get_elem?, remove_at, insert_at, rposition, saturating_add_u8, decimal,
  padded,
}

abbrev pub history_limit : ℕ
history_limit = 20

abbrev pub failure_limit : ℕ
failure_limit = 3

pub data PreviousOutcome : Type 0 where
  started no_history full : PreviousOutcome

pub data LoopMode : Type 0 where
  off track queue : LoopMode

-- `==` on loop modes
abbrev pub mode_eq : LoopMode → LoopMode → Bool
mode_eq off off = true
mode_eq track track = true
mode_eq queue queue = true
mode_eq _ _ = false

pub record Track : Type 0 where
  pub encoded : Text
  pub identifier : Text
  pub title : Text
  pub author : Text
  pub duration_ms : ℕ
  pub stream : Bool
  pub uri : Option Text
  pub requester_id : Text
  pub requested_by : Text

pub record Queue : Type 0 where
  pub current : Option Track
  pub upcoming : List Track
  pub history : List Track
  pub loop_mode : LoopMode
  pub consecutive_failures : ℕ

-- `Queue::default()`
abbrev pub default : Queue
default = record {
  current = none;
  upcoming = [];
  history = [];
  loop_mode = off;
  consecutive_failures = 0;
}

-- the test of `preparation_target` on the current track; `-` on ℕ is `saturating_sub`
abbrev rules_out_preparation : LoopMode → Track → ℕ → Bool
rules_out_preparation mode t position_ms =
    t.stream || t.duration_ms == 0 || mode_eq mode track || ltb 45000 (t.duration_ms - position_ms)

-- the filter of `preparation_target` on the next track
abbrev is_preparable : Track → Option Track → Option Track
is_preparable t none = none
is_preparable t (some n) =
    if not n.stream && not (text_eq n.encoded t.encoded) then some n else none

unfoldable pub preparation_target : Queue → ℕ → Option Track
preparation_target q position_ms = elim q.current [
  | none ↦ none
  | some t ↦
      if rules_out_preparation q.loop_mode t position_ms
      then none
      else is_preparable t (first q.upcoming)
]

unfoldable pub len : Queue → ℕ
len q = (if is_some q.current then 1 else 0) + length q.upcoming

unfoldable pub is_empty : Queue → Bool
unfolding len
is_empty q = len q == 0

-- The tracks that are left after `take(capacity)`: the first becomes current if none is.
abbrev admit : Queue → List Track → Queue × ℕ
admit q ts = elim q.current [
  | some c ↦ (record q { upcoming = q.upcoming ++ ts }, length ts)
  | none ↦ elim ts [
    | [] ↦ (q, 0)
    | t ∷ rest ↦ (
      record q { current = some t; upcoming = q.upcoming ++ rest; consecutive_failures = 0 },
      1 + length rest,
    )
  ]
]

unfoldable pub enqueue : Queue → List Track → ℕ → Queue × ℕ
unfolding len
enqueue q tracks max_tracks = admit q (take (max_tracks - len q) tracks)

unfoldable pub next : Queue → Queue
next q = elim q.upcoming [
  | [] ↦ record q { current = none }
  | t ∷ rest ↦ record q { current = some t; upcoming = rest }
]

unfoldable pub remember : Queue → Track → Queue
remember q t =
    let history = q.history ++ t ∷ [] in
    record q { history = if ltb history_limit (length history) then drop 1 history else history }

unfoldable pub finish : Queue → Queue
unfolding next remember
finish q = elim q.current [
  | none ↦ q
  | some old ↦
      let taken = record q { current = none; consecutive_failures = 0 } in
      if mode_eq q.loop_mode track
      then record taken { current = some old }
      else (let repeated =
            if mode_eq q.loop_mode queue
            then record taken { upcoming = q.upcoming ++ old ∷ [] }
            else taken in
          next (remember repeated old))
]

unfoldable pub fail : Queue → Queue
unfolding next
fail q = elim q.current [
  | none ↦ q
  | some old ↦
      let counted = record q {
        consecutive_failures = saturating_add_u8 q.consecutive_failures 1;
      } in
      if leb failure_limit counted.consecutive_failures
      then record counted { upcoming = []; current = none }
      else next counted
]

unfoldable pub skip : Queue → Queue
unfolding next remember
skip q = elim q.current [ none ↦ q | some old ↦ next (remember (record q { current = none }) old) ]

-- The last upcoming copy of the track that `previous` brings back, in the queue loop.
abbrev pub duplicate : Queue → Track → Option ℕ
duplicate q p =
    if mode_eq q.loop_mode queue
    then rposition (λ t. text_eq t.encoded p.encoded && text_eq t.requester_id p.requester_id)
        q.upcoming
    else none

-- `previous` from its `history.pop()` on
abbrev step_back : Queue → Track → Track → Option ℕ → Queue
step_back q c p index = record q {
  current = some p;
  upcoming = insert_at 0 c (elim index [ none ↦ q.upcoming | some i ↦ remove_at i q.upcoming ]);
  history = but_last q.history;
}

unfoldable pub previous : Queue → ℕ → Queue × PreviousOutcome
unfolding len
previous q max_tracks = elim q.current [
  | none ↦ (q, no_history)
  | some c ↦ elim (last q.history) [
    | none ↦ (q, no_history)
    | some p ↦
        let index : Option ℕ = duplicate q p in
        if is_none index && leb max_tracks (len q)
        then (q, full)
        else (step_back q c p index, started)
  ]
]

unfoldable pub remove : Queue → ℕ → Queue × Option Track
remove q position =
    if ltb 0 position && leb position (length q.upcoming)
    then (
      record q { upcoming = remove_at (position - 1) q.upcoming },
      get_elem? q.upcoming (position - 1),
    )
    else (q, none)

unfoldable pub jump : Queue → ℕ → Queue × Bool
unfolding remove remember
jump q position = elim q.current [
  | none ↦ (q, false)
  | some old ↦
      let (removed, target) = remove q position in
      elim target [
        | none ↦ (removed, false)
        | some t ↦ (record (remember removed old) { current = some t }, true)
      ]
]

unfoldable pub stop : Queue → Queue
stop q = record q { current = none; upcoming = []; history = []; consecutive_failures = 0 }

unfoldable pub clear : Queue → Queue × ℕ
clear q = (record q { upcoming = [] }, length q.upcoming)

-- `shuffler` is `SliceRandom::shuffle` with the generator of the call.
unfoldable pub shuffle : (List Track → List Track) → Queue → Queue × Bool
shuffle shuffler q =
    if ltb (length q.upcoming) 2
    then (q, false)
    else (record q { upcoming = shuffler q.upcoming }, true)

unfoldable pub move_to : Queue → ℕ → ℕ → Queue × Option Track
move_to q from to =
    if from == 0 || to == 0 || ltb (length q.upcoming) from || ltb (length q.upcoming) to
    then (q, none)
    else elim (get_elem? q.upcoming (from - 1)) [
      | none ↦ (q, none)
      | some t ↦
          let upcoming = insert_at (to - 1) t (remove_at (from - 1) q.upcoming) in
          (record q { upcoming = upcoming }, get_elem? upcoming (to - 1))
    ]

unfoldable pub format_duration : ℕ → Bool → Text
format_duration ms stream =
    let seconds = ms / 1000 in
    let h = seconds / 3600 in
    let m = seconds % 3600 / 60 in
    let s = seconds % 60 in
    if stream
    then codes "LIVE"
    else if ltb 0 h
    then decimal h ++ b':' ∷ (padded m ++ b':' ∷ padded s)
    else decimal m ++ b':' ∷ padded s
