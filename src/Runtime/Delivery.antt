-- ===== src/Runtime/Delivery.antt =====
-- The announcements of the music service in src/runtime.rs reach every session.
use raydio.Prelude.{◌≡◌, refl, false, [], ◌∷◌, ◌++◌, arith, map, Map}
use raydio.Runtime.{Runtime, Message, Mailbox, try_send}
use raydio.Runtime.Pump.{send_all, broadcast, goes_on}

-- A mailbox with one message more.
abbrev pub posted : Message → Mailbox → Mailbox
posted m b = record b { messages = b.messages ++ m ∷ [] }

send_all-posted :
    (m : Message) (t : Map Mailbox)
    → (send_all m t).1 ≡ false
    → (send_all m t).0 ≡ map (λ e. (e.0, posted m e.1)) t
unfolding send_all try_send
send_all-posted m [] h = refl
send_all-posted m ((id, b) ∷ t) h = ground (arith, send_all-posted m t)

-- When the loop goes on after the announcement of a lost or a new connection, every session of the
-- table has got it, as its last message; otherwise the loop ends.
pub broadcast-posted :
    {P : Type 0} (m : Message) (rt : Runtime P)
    → (broadcast m rt).1 ≡ goes_on
    → (broadcast m rt).0.guilds ≡ map (λ e. (e.0, posted m e.1)) rt.guilds
unfolding broadcast
broadcast-posted m rt h = send_all-posted m rt.guilds (ground (arith, h))
