-- ===== src/Node/Outages.antt =====
-- Long outages of the music service in `run` of src/node.rs.
use raydio.Prelude.{
  ℕ, ◌+◌, ◌≤◌, ◌<◌, ◌≡◌, refl, Bool, Bool-cases, ltb, ltb→lt, inl, inr, true, false, none, some,
  List, [], ◌∷◌, ◌++◌, map, arith,
}
use raydio.Node.{
  Node, Round, Event, reconnects, publish, push, lost, cleared, since, invalidated, is_empty, run,
  attempt, lose,
}

-- A connection that fails at a time.
abbrev pub down : ℕ → Round
down t = record { connection = none; ended = t; takes = true }

step :
    (r : Round) (rs : List Round) (n m : Node)
    → attempt r n ≡ (m, reconnects)
    → run (r ∷ rs) n ≡ run rs m
unfolding run
step r rs n m e = ground (arith, e)

attempt_idle :
    (t : ℕ) (n : Node)
    → is_empty n.state.session ≡ true
    → attempt (down t) n ≡ (publish (lost n.state) n, reconnects)
unfolding attempt lose
attempt_idle t n e = ground (arith, e)

-- While the outage is shorter than 60 seconds.
attempt_early :
    (start t : ℕ) (n : Node)
    → since t n ≡ start
    → is_empty n.state.session ≡ false
    → t < start + 60000
    → attempt (down t) n ≡ (publish (lost n.state) (record n { outage = some start }), reconnects)
unfolding attempt lose
attempt_early start t n o e h = ground (arith, o, e)

attempt_late :
    (start t : ℕ) (n : Node)
    → since t n ≡ start
    → is_empty n.state.session ≡ false
    → start + 60000 ≤ t
    → attempt (down t) n ≡ (
      push invalidated false (publish (cleared n.state) (record n { outage = some start })),
      reconnects,
    )
unfolding attempt lose
attempt_late start t n o e h = ground (arith, o, e)

-- The session has been given up, and `Invalidated` was sent on top of `log`.
pub record GivenUp (log : List (Event × Bool)) (n : Node) : Type 0 where
  pub session : n.state.session ≡ []
  pub unready : n.published.ready ≡ false
  pub sent : n.log ≡ (invalidated, false) ∷ log

idle :
    (log : List (Event × Bool)) (ts : List ℕ) (n : Node)
    → GivenUp log n
    → GivenUp log (run (map down ts) n)
unfolding run
idle log [] n g = g
idle log (t ∷ ts) n g =
    rw (step (down t) (map down ts) n _ (attempt_idle t n (ground (arith, g.session)))) (
      idle log ts (publish (lost n.state) n)
        (record { session = g.session; unready = refl; sent = g.sent }))

unreachable :
    (start : ℕ) (ts : List ℕ) (late : ℕ) (n : Node)
    → n.outage ≡ some start
    → is_empty n.state.session ≡ false
    → start + 60000 ≤ late
    → GivenUp n.log (run (map down (ts ++ late ∷ [])) n)
unreachable start [] late n o e h =
    rw (step (down late) [] n _ (attempt_late start late n (ground (arith, o)) e h))
      (idle n.log [] _ (record { session = refl; unready = refl; sent = refl }))
unreachable start (t ∷ ts) late n o e h =
    let early : t < start + 60000 → GivenUp n.log (run (map down (t ∷ ts ++ late ∷ [])) n) = λ k.
      rw
        (step (down t) (map down (ts ++ late ∷ [])) n _
          (attempt_early start t n (ground (arith, o)) e k))
        (unreachable start ts late (publish (lost n.state) (record n { outage = some start })) refl
          e h) in
    elim (Bool-cases (ltb t (start + 60000))) [
      | inl k ↦ early (ltb→lt t (start + 60000) k)
      | inr k ↦
          rw
            (step (down t) (map down (ts ++ late ∷ [])) n _
              (attempt_late start t n (ground (arith, o)) e (ground (arith, k))))
            (idle n.log (ts ++ late ∷ []) _
              (record { session = refl; unready = refl; sent = refl }))
    ]

-- When the service had a session and then cannot be reached from a time on, at every attempt, and an
-- attempt fails 60 seconds later or after, then the session has been given up: exactly one
-- `Invalidated` was sent, the published health is not ready, and the session is cleared.
pub run-GivenUp :
    (n : Node) (start : ℕ) (ts : List ℕ) (late : ℕ)
    → n.outage ≡ none
    → is_empty n.state.session ≡ false
    → start + 60000 ≤ late
    → GivenUp n.log (run (map down (start ∷ ts ++ late ∷ [])) n)
run-GivenUp n start ts late o e h =
    rw
      (step (down start) (map down (ts ++ late ∷ [])) n _
        (attempt_early start start n (ground (arith, o)) e (omega arith)))
      (unreachable start ts late (publish (lost n.state) (record n { outage = some start })) refl e
        h)
