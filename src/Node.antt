-- ===== src/Node.antt =====
-- src/node.rs: the connection to the music service. `run` keeps a WebSocket, resumes its session
-- after an outage, publishes its health and sends events. What the service and the runtime answer
-- is part of the messages: whether a send or a request succeeded.
pub mod Bodies
pub mod Client
mod Invariant
pub mod Lifecycle
pub mod Outages
pub mod Published
mod Examples
use raydio.Prelude.{
  ℕ, ◌+◌, ◌-◌, ◌≤◌, Bool, true, false, not, ◌&&◌, ◌||◌, Option, none, some, List, [], ◌∷◌, Text,
  codes, text_eq, ltb, leb, ◌==◌, if◌then◌else◌, length, all, is_ascii_alphanumeric, saturating_add,
}
use raydio.Session.Monitor.{Payload}

pub record AudioHealth : Type 0 where
  pub windows : ℕ
  pub sent : ℕ
  pub unavailable : ℕ
  pub missed_deadlines : ℕ
  pub observed_at : Option ℕ

pub record Health : Type 0 where
  pub ready : Bool
  pub session : Text
  pub connections : ℕ
  pub errors : ℕ
  pub audio : AudioHealth

-- `frameStats`; a number that is missing or is no `u64` is `none`.
pub record FrameStats : Type 0 where
  pub sent : Option ℕ
  pub nulled : Option ℕ
  pub deficit : Option ℕ

-- The fields of a JSON message that the program reads.
pub record Value : Type 0 where
  pub op : Text
  pub session_id : Option Text
  pub resumed : Bool
  pub frame_stats : FrameStats
  pub guild_id : Option Text
  pub payload : Payload

pub data Event : Type 0 where
  connected invalidated : Event
  payload_event : Value → Event

-- What arrives on the socket, or ends it. Each text comes with what its handling meets: whether the
-- runtime takes the events (it does not when it has stopped), and whether the request that turns
-- resumption on succeeds.
pub data Incoming : Type 0 where
  ping : Bool → Incoming
  unreadable : Incoming
  text : ℕ → Value → Bool → Bool → Bool → Incoming
  close : Incoming
  other_message : Incoming

-- Where the loop goes after a message.
pub data Next : Type 0 where
  goes_on reconnects returns : Next

-- The variables of `run`: the state, the start of an outage, the published health. Not in the
-- program: `log`, the events sent, newest first, each with the service's word on resumption.
pub record Node : Type 0 where
  pub state : Health
  pub outage : Option ℕ
  pub published : Health
  pub log : List (Event × Bool)

abbrev pub no_audio : AudioHealth
no_audio = record {
  windows = 0;
  sent = 0;
  unavailable = 0;
  missed_deadlines = 0;
  observed_at = none;
}

abbrev pub default_health : Health
default_health = record {
  ready = false;
  session = [];
  connections = 0;
  errors = 0;
  audio = no_audio;
}

abbrev pub start : Node
start = record { state = default_health; outage = none; published = default_health; log = [] }

unfoldable pub observe : ℕ → FrameStats → AudioHealth → AudioHealth
observe now value a = elim value.sent [
  | none ↦ a
  | some sent ↦ elim value.nulled [
    | none ↦ a
    | some unavailable ↦ elim value.deficit [
      | none ↦ a
      | some missed ↦ record {
        windows = saturating_add a.windows 1;
        sent = sent;
        unavailable = unavailable;
        missed_deadlines = missed;
        observed_at = some now;
      }
    ]
  ]
]

-- The filter on session ids: bytes that are ASCII letters, digits, `-` and `_`, so the length in
-- bytes is the number of characters.
unfoldable pub is_session : Text → Bool
is_session s =
    ltb 0 (length s)
    && ltb (length s) 100
    && all (λ c. is_ascii_alphanumeric c || c == b'-' || c == b'_') s

abbrev pub is_empty : Text → Bool
is_empty s = length s == 0

-- `health_tx.send_replace(state.clone())`
abbrev pub publish : Health → Node → Node
publish h n = record n { state = h; published = h }

abbrev pub push : Event → Bool → Node → Node
push e resumed n = record n { log = (e, resumed) ∷ n.log }

-- The rest of the branch of a `ready` message, for a session that passed the filter.
unfoldable pub adopt : Text → Bool → Bool → Node → Node × Next
adopt session resumed takes n =
    let ready : Node =
      record (publish
        (record n.state { ready = true; session = session; connections = n.state.connections + 1 })
        n) { outage = none } in
    if takes then (push connected resumed ready, goes_on) else (ready, returns)

unfoldable pub begin_session : Text → Bool → Bool → Bool → Bool → Node → Node × Next
unfolding adopt
begin_session session resumed takes_invalidated patches takes_connected n =
    if not (is_empty n.state.session) && not resumed
    then if not takes_invalidated
      then (n, returns)
      else if not patches
      then (push invalidated false n, reconnects)
      else adopt session resumed takes_connected (push invalidated false n)
    else if not patches
    then (n, reconnects)
    else adopt session resumed takes_connected n

unfoldable pub receive_text : ℕ → Value → Bool → Bool → Bool → Node → Node × Next
unfolding begin_session observe is_session
receive_text now value takes_first patches takes_second n =
    if text_eq value.op (codes "ready")
    then elim value.session_id [
      | none ↦ (n, reconnects)
      | some session ↦
          if is_session session
          then begin_session session value.resumed takes_first patches takes_second n
          else (n, reconnects)
    ]
    else if text_eq value.op (codes "stats")
    then (
      publish (record n.state { audio = observe now value.frame_stats n.state.audio }) n,
      goes_on,
    )
    else if text_eq value.op (codes "event") || text_eq value.op (codes "playerUpdate")
    then if takes_first then (push (payload_event value) false n, goes_on) else (n, returns)
    else (n, goes_on)

unfoldable pub receive : Incoming → Node → Node × Next
unfolding receive_text
receive (ping answered) n = (n, if answered then goes_on else reconnects)
receive unreadable n = (n, reconnects)
receive (text now value takes_first patches takes_second) n =
    receive_text now value takes_first patches takes_second n
receive close n = (n, reconnects)
receive other_message n = (n, goes_on)

-- The inner loop. When the messages end, so does the stream: by an error, a timeout or its end.
unfoldable pub converse : List Incoming → Node → Node × Next
unfolding receive
converse [] n = (n, reconnects)
converse (m ∷ ms) n = elim (receive m n).1 [
  | goes_on ↦ converse ms (receive m n).0
  | reconnects ↦ ((receive m n).0, reconnects)
  | returns ↦ ((receive m n).0, returns)
]

-- After a connection has failed or ended, at the time `now`.
abbrev pub lost : Health → Health
lost h = record h { ready = false; errors = saturating_add h.errors 1 }

abbrev pub cleared : Health → Health
cleared h = record (lost h) { session = [] }

-- `outage.get_or_insert_with(Instant::now)`
abbrev pub since : ℕ → Node → ℕ
since now n = elim n.outage [ none ↦ now | some t ↦ t ]

-- Whether the session is given up: the outage has lasted for 60 seconds.
unfoldable pub lose : ℕ → Bool → Node → Node × Next
lose now takes n =
    let down : Node = record n { outage = some (since now n) } in
    if is_empty n.state.session
    then (publish (lost n.state) n, reconnects)
    else if not (leb 60000 (now - since now n))
    then (publish (lost n.state) down, reconnects)
    else if takes
    then (push invalidated false (publish (cleared n.state) down), reconnects)
    else (publish (cleared n.state) down, returns)

-- One round of the outer loop: the messages of a connection that was made, or `none`.
pub record Round : Type 0 where
  pub connection : Option (List Incoming)
  pub ended : ℕ
  pub takes : Bool

unfoldable pub attempt : Round → Node → Node × Next
unfolding converse lose
attempt r n = elim r.connection [
  | none ↦ lose r.ended r.takes n
  | some ms ↦ elim (converse ms n).1 [
    | returns ↦ ((converse ms n).0, returns)
    | _ ↦ lose r.ended r.takes (converse ms n).0
  ]
]

-- The rounds that are made before `run` is cancelled.
unfoldable pub run : List Round → Node → Node
unfolding attempt
run [] n = n
run (r ∷ rs) n = elim (attempt r n).1 [ returns ↦ (attempt r n).0 | _ ↦ run rs (attempt r n).0 ]
