-- ===== src/Node/Invariant.antt =====
-- The invariant of `run` of src/node.rs.
use raydio.Prelude.{
  ℕ, ◌≡◌, refl, Bool, true, false, Option, List, [], ◌∷◌, some, Text, arith, inl, inr, Option-cases,
}
use raydio.Node.{
  Health, Event, connected, invalidated, payload_event, Value, Incoming, ping, unreadable, text,
  close, other_message, Next, goes_on, reconnects, returns, Node, start, observe, is_session,
  is_empty, publish, push, lost, cleared, since, adopt, begin_session, receive_text, receive,
  converse, lose, Round, attempt, run,
}

-- What the runtime holds after the events of a log, newest first: players of a session or none. A
-- connection is new only where no players are held; with players it is a resumed one.
pub data Held : Bool → List (Event × Bool) → Type 0 where
  nothing : Held false []
  connects :
      {r : Bool} {log : List (Event × Bool)} → Held false log → Held true ((connected, r) ∷ log)
  resumes : {log : List (Event × Bool)} → Held true log → Held true ((connected, true) ∷ log)
  loses :
      {b r : Bool} {log : List (Event × Bool)} → Held b log → Held false ((invalidated, r) ∷ log)
  reports :
      {b r : Bool} {v : Value} {log : List (Event × Bool)}
      → Held b log
      → Held b ((payload_event v, r) ∷ log)

-- `live` is false once `run` has returned.
pub record Sound (live : Bool) (n : Node) : Type 0 where
  pub published : n.published ≡ n.state
  pub ready : n.state.ready ≡ true → is_session n.state.session ≡ true
  pub holds : Bool
  pub held : Held holds n.log
  pub session : live ≡ true → holds ≡ true → is_empty n.state.session ≡ false

is_session-is_empty : (s : Text) → is_session s ≡ true → is_empty s ≡ false
unfolding is_session
is_session-is_empty s h = ground arith

connect :
    (b r : Bool) (log : List (Event × Bool))
    → Held b log
    → (b ≡ true → r ≡ true)
    → Held true ((connected, r) ∷ log)
connect false r log h w = connects h
connect true true log h w = resumes h
connect true false log h w = absurd (cc (w refl))

adopt-Sound :
    (session : Text) (resumed takes b : Bool) (n : Node)
    → is_session session ≡ true
    → Held b n.log
    → (b ≡ true → resumed ≡ true)
    → Sound true (adopt session resumed takes n).0
unfolding adopt
adopt-Sound session resumed true b n h v w = record {
  published = refl;
  ready = λ _. h;
  holds = true;
  held = connect b resumed n.log v w;
  session = λ _ _. is_session-is_empty session h;
}
adopt-Sound session resumed false b n h v w = record {
  published = refl;
  ready = λ _. h;
  holds = b;
  held = v;
  session = λ _ _. is_session-is_empty session h;
}

-- After `Invalidated` nothing is held, whatever the state is.
invalidated-Sound :
    (n : Node) → Sound true n → Sound true (record n { log = (invalidated, false) ∷ n.log })
invalidated-Sound n v = record {
  published = v.published;
  ready = v.ready;
  holds = false;
  held = loses v.held;
  session = λ _ e. absurd (cc e);
}

begin_session-Sound :
    (session : Text) (resumed a p b : Bool) (n : Node)
    → is_session session ≡ true
    → Sound true n
    → Sound true (begin_session session resumed a p b n).0
unfolding begin_session
begin_session-Sound session resumed a p b n h v = ground (
  arith,
  v.session refl,
  invalidated-Sound n v,
  adopt-Sound session resumed b v.holds n h v.held,
  adopt-Sound session resumed b false (record n { log = (invalidated, false) ∷ n.log }) h
      (loses v.held) (λ e. absurd (cc e)),
)

stats-Sound :
    (now : ℕ) (value : Value) (n : Node)
    → Sound true n
    → Sound true
        (publish (record n.state { audio = observe now value.frame_stats n.state.audio }) n)
stats-Sound now value n v = record {
  published = refl;
  ready = v.ready;
  holds = v.holds;
  held = v.held;
  session = v.session;
}

payload-Sound : (v : Value) (n : Node) → Sound true n → Sound true (push (payload_event v) false n)
payload-Sound value n v = record {
  published = v.published;
  ready = v.ready;
  holds = v.holds;
  held = reports v.held;
  session = v.session;
}

receive_text-Sound :
    (now : ℕ) (value : Value) (a p b : Bool) (n : Node)
    → Sound true n
    → Sound true (receive_text now value a p b n).0
unfolding receive_text
receive_text-Sound now value a p b n v = elim (Option-cases value.session_id) [
  | inl e ↦ ground (arith, stats-Sound now value n v, payload-Sound value n v)
  | inr (s, e) ↦ ground (
    arith,
    stats-Sound now value n v,
    payload-Sound value n v,
    begin_session-Sound s value.resumed a p b n _ v,
  )
]

receive-Sound : (m : Incoming) (n : Node) → Sound true n → Sound true (receive m n).0
unfolding receive
receive-Sound (ping answered) n v = v
receive-Sound unreadable n v = v
receive-Sound (text now value a p b) n v = receive_text-Sound now value a p b n v
receive-Sound close n v = v
receive-Sound other_message n v = v

pub converse-Sound : (ms : List Incoming) (n : Node) → Sound true n → Sound true (converse ms n).0
unfolding converse
converse-Sound [] n v = v
converse-Sound (m ∷ ms) n v = ground (arith, receive-Sound m n v, converse-Sound ms (receive m n).0)

lost-Sound :
    (h : Health) (o : Option ℕ) (n : Node)
    → h.ready ≡ false
    → h.session ≡ n.state.session
    → Sound true n
    → Sound true (publish h (record n { outage = o }))
lost-Sound h o n e f v = record {
  published = refl;
  ready = λ r. absurd (ground (arith, e, r));
  holds = v.holds;
  held = v.held;
  session = λ l k. ground (arith, v.session l k);
}

cleared-Sound :
    (h : Health) (o : Option ℕ) (n : Node)
    → h.ready ≡ false
    → Sound true n
    → Sound true (push invalidated false (publish h (record n { outage = o })))
cleared-Sound h o n e v = record {
  published = refl;
  ready = λ r. absurd (ground (arith, e, r));
  holds = false;
  held = loses v.held;
  session = λ _ k. absurd (cc k);
}

ended-Sound :
    (h : Health) (o : Option ℕ) (n : Node)
    → h.ready ≡ false
    → Sound true n
    → Sound false (publish h (record n { outage = o }))
ended-Sound h o n e v = record {
  published = refl;
  ready = λ r. absurd (ground (arith, e, r));
  holds = v.holds;
  held = v.held;
  session = λ l _. absurd (cc l);
}

abbrev is_live : Next → Bool
is_live returns = false
is_live _ = true

weaken : (b : Bool) (n : Node) → Sound true n → Sound b n
weaken true n v = v
weaken false n v = record {
  published = v.published;
  ready = v.ready;
  holds = v.holds;
  held = v.held;
  session = λ l _. absurd (cc l);
}

lose-Sound :
    (now : ℕ) (takes : Bool) (n : Node)
    → Sound true n
    → Sound (is_live (lose now takes n).1) (lose now takes n).0
unfolding lose
lose-Sound now takes n v = ground (
  arith,
  lost-Sound (lost n.state) n.outage n refl refl v,
  lost-Sound (lost n.state) (some (since now n)) n refl refl v,
  cleared-Sound (cleared n.state) (some (since now n)) n refl v,
  ended-Sound (cleared n.state) (some (since now n)) n refl v,
)

attempt-Sound :
    (r : Round) (n : Node) → Sound true n → Sound (is_live (attempt r n).1) (attempt r n).0
unfolding attempt
attempt-Sound r n v = elim (Option-cases r.connection) [
  | inl e ↦ ground (arith, lose-Sound r.ended r.takes n v)
  | inr (ms, e) ↦ ground (
    arith,
    lose-Sound r.ended r.takes (converse ms n).0,
    weaken false _ (converse-Sound ms n v),
    converse-Sound ms n v,
  )
]

pub run-Sound : (rs : List Round) (n : Node) → Sound true n → (b : Bool) × Sound b (run rs n)
unfolding run
run-Sound [] n v = (true, v)
run-Sound (r ∷ rs) n v = with_next (attempt r n).1 refl (run-Sound rs (attempt r n).0)
  where
    with_next :
        (x : Next)
        → (attempt r n).1 ≡ x
        → (Sound true (attempt r n).0 → (b : Bool) × Sound b (run rs (attempt r n).0))
        → (b : Bool) × Sound b (elim x [ returns ↦ (attempt r n).0 | _ ↦ run rs (attempt r n).0 ])
    with_next returns e k = (is_live (attempt r n).1, attempt-Sound r n v)
    with_next goes_on e k = k (ground (arith, e, attempt-Sound r n v))
    with_next reconnects e k = k (ground (arith, e, attempt-Sound r n v))

pub start-Sound : Sound true start
start-Sound = record {
  published = refl;
  ready = λ e. absurd (cc e);
  holds = false;
  held = nothing;
  session = λ _ e. absurd (cc e);
}
