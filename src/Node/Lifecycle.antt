-- ===== src/Node/Lifecycle.antt =====
-- The order of the events that `run` of src/node.rs sends.
use raydio.Prelude.{Bool, List}
use raydio.Node.{Event, Round, start, run}
use raydio.Node.Invariant.{Held, run-Sound, start-Sound}

-- The abstract lifecycle: a log of events is in order when it is a path of `Held`.
unfoldable pub InOrder : List (Event × Bool) → Type 0
InOrder log = (b : Bool) × Held b log

-- Over any rounds from the start, the events that are sent follow the abstract lifecycle: after a
-- `Connected`, the next one either is of a session that the music service has resumed, or comes
-- after an `Invalidated`.
pub run-InOrder : (rs : List Round) → InOrder (run rs start).log
unfolding InOrder
run-InOrder rs = let (b, v) = run-Sound rs start start-Sound in (v.holds, v.held)
