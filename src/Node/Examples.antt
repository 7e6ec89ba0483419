-- ===== src/Node/Examples.antt =====
-- Runs of src/node.rs: a session, a restart of the music service, and an outage.
use raydio.Prelude.{
  text_eq, is_ascii_alphanumeric, ℕ, ◌≡◌, refl, Bool, true, false, none, some, List, [], ◌∷◌, Text,
  codes, arith, map, ◌++◌,
}
use raydio.Prelude.Results.{ok}
use raydio.Session.Monitor.{Payload, EventKind, Reason}
use raydio.Node.{
  Value, Incoming, text, ping, Round, Node, connected, invalidated, payload_event, run, start,
}
use raydio.Node.Client.{read_body}
use raydio.Node.Bodies.{concat, read_body-concat}
use raydio.Node.Lifecycle.{InOrder, run-InOrder}
use raydio.Node.Outages.{down, GivenUp, run-GivenUp}

abbrev no_payload : Payload
no_payload = record {
  is_player_update = false;
  kind = EventKind.other_event;
  reason = Reason.other_reason;
  track_generation = none;
  crust_generation = none;
  terminal_generation = none;
  terminal_reason = Reason.other_reason;
  track_is_null = false;
  paused = false;
  position = none;
  connected = false;
}

abbrev ready : Text → Bool → Value
ready session resumed = record {
  op = codes "ready";
  session_id = some session;
  resumed = resumed;
  frame_stats = record { sent = none; nulled = none; deficit = none };
  guild_id = none;
  payload = no_payload;
}

abbrev update : Value
update = record (ready [] false) { op = codes "playerUpdate"; session_id = none }

abbrev meets : ℕ → Value → Incoming
meets now value = text now value true true true

-- The service restarts: the second connection is of another session.
abbrev restart : List Round
restart =
    record {
      connection =
          some (ping true ∷ meets 1000 (ready (codes "a1") false) ∷ meets 2000 update ∷ []);
      ended = 3000;
      takes = true;
    }
    ∷ down 4000
    ∷ record {
      connection = some (meets 5000 (ready (codes "b2") false) ∷ []);
      ended = 9000;
      takes = true;
    }
    ∷ []

restart_events :
    map (λ e. e.0) (run restart start).log
    ≡ connected ∷ invalidated ∷ payload_event update ∷ connected ∷ []
unfolding run text_eq is_ascii_alphanumeric
restart_events = refl

restart_counts :
    ((run restart start).published.connections ≡ 2) × ((run restart start).published.errors ≡ 3)
unfolding run text_eq is_ascii_alphanumeric
restart_counts = (refl, refl)

run-InOrder_example : InOrder (run restart start).log
run-InOrder_example = run-InOrder restart

-- A connection of session `a1` that has just ended.
abbrev held : Node
held = record start { state = record start.state { session = codes "a1"; connections = 1 } }

run-GivenUp_example : GivenUp [] (run (map down (1000 ∷ (20000 ∷ 40000 ∷ []) ++ 61000 ∷ [])) held)
run-GivenUp_example = run-GivenUp held 1000 (20000 ∷ 40000 ∷ []) 61000 refl refl (omega arith)

read_body-concat_example :
    read_body [] (map some ((1 ∷ 2 ∷ []) ∷ (3 ∷ []) ∷ [])) ≡ ok (1 ∷ 2 ∷ 3 ∷ [])
unfolding concat
read_body-concat_example = read_body-concat ((1 ∷ 2 ∷ []) ∷ (3 ∷ []) ∷ [])
