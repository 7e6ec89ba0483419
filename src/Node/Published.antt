-- ===== src/Node/Published.antt =====
-- The health that `run` of src/node.rs publishes.
use raydio.Prelude.{◌≡◌, sym, ap, ◌∙◌, ◌⊎◌, inl, inr, true, false, List, Bool-cases}
use raydio.Node.{Round, start, run, is_session}
use raydio.Node.Invariant.{run-Sound, start-Sound}

-- Over any rounds from the start, the published health is the state of the connection; it does not
-- say ready, or its session is an id of 1 to 99 letters, digits, `-` and `_`.
pub run-published :
    (rs : List Round)
    → ((run rs start).published ≡ (run rs start).state)
      × (((run rs start).published.ready ≡ false)
          ⊎ (is_session (run rs start).published.session ≡ true))
run-published rs =
    let (b, v) = run-Sound rs start start-Sound in
    (
      v.published,
      elim (Bool-cases (run rs start).published.ready) [
        | inl e ↦ inr (rw v.published (v.ready (ap (λ h. h.ready) (sym v.published) ∙ e)))
        | inr e ↦ inl e
      ],
    )
