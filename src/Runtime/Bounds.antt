-- ===== src/Runtime/Bounds.antt =====
-- What every step of the loop of src/runtime.rs keeps of the tables and tasks.
use raydio.Prelude.{
  ℕ, ◌≤◌, ◌≡◌, refl, ap, ◌∙◌, Bool, true, not, Option, none, some, List, [], ◌∷◌, Text, arith,
  length, length-drop, length-keep, length-remove_at_le, Map, get, delete, modify, keep, any, ◌==◌,
  parse_unsigned, u64_max, Option-cases, inl, inr,
}
use raydio.Prelude.Keys.{
  keys, IsUnique-keep, keys-delete, keys-modify, all_values, all_values-delete, all_values-modify,
}
use raydio.Voice.{update}
use raydio.Node
use raydio.Runtime.{
  Runtime, Message, reports, voice_changed, invalidated, connected, Mailbox, try_send, start,
}
use raydio.Runtime.Pump.{
  next_message, close, send_all, broadcast, forward, take_node_event, tick_presence, show_presence,
  key_of, presence, notify_changed, GatewayEvent, cached, interaction_create, event_of, after_cache,
  take_gateway_event, Step, cancelled, job_ends, rejection_ends, presence_ticks, actor_ends,
  actor_panics, node_event, node_closes, gateway_event, gateway_fails, gateway_stops, session_takes,
  session_returns, step, run,
}
use raydio.Runtime.Tables.{
  IsValid, is_fitting, try_send-fitting, table-IsValid, sent-IsValid, if-IsValid, interact-IsValid,
}

send_all-keys : (m : Message) (t : Map Mailbox) → keys (send_all m t).0 ≡ keys t
unfolding send_all
send_all-keys m [] = refl
send_all-keys m ((id, b) ∷ t) = ground (arith, send_all-keys m t)

send_all-fitting :
    (m : Message) (t : Map Mailbox)
    → all_values is_fitting t ≡ true
    → all_values is_fitting (send_all m t).0 ≡ true
unfolding send_all
send_all-fitting m [] h = refl
send_all-fitting m ((id, b) ∷ t) h = elim (Option-cases (try_send m b)) [
  | inl e ↦ ground (arith, e, h)
  | inr (c, e) ↦ ground (arith, e, h, send_all-fitting m t, try_send-fitting m b c e)
]

module _ {P : Type 0} where
  broadcast-IsValid : (m : Message) (rt : Runtime P) → IsValid rt → IsValid (broadcast m rt).0
  unfolding broadcast
  broadcast-IsValid m rt v =
      table-IsValid (send_all m rt.guilds).0 rt (send_all-keys m rt.guilds)
        (send_all-fitting m rt.guilds v.mailboxes_bounded) v

  forward-IsValid :
      (value : raydio.Node.Value) (rt : Runtime P) → IsValid rt → IsValid (forward value rt).0
  unfolding forward
  forward-IsValid value rt v = elim (Option-cases value.guild_id) [
    | inl e ↦ ground (arith, e, v)
    | inr (text, e) ↦ elim (Option-cases (parse_unsigned u64_max text)) [
      | inl p ↦ ground (arith, e, p, v)
      | inr (id, p) ↦ elim (Option-cases (get id rt.guilds)) [
        | inl g ↦ ground (arith, e, p, g, v)
        | inr (b, g) ↦ elim (Option-cases (try_send (reports value.payload) b)) [
          | inl t ↦ ground (arith, e, p, g, t, v)
          | inr (c, t) ↦
              ground (arith, e, p, g, t, sent-IsValid (reports value.payload) id b c rt g t v)
        ]
      ]
    ]
  ]

  take_node_event-IsValid :
      (e : raydio.Node.Event) (rt : Runtime P) → IsValid rt → IsValid (take_node_event e rt).0
  unfolding take_node_event
  take_node_event-IsValid raydio.Node.Event.invalidated rt v = broadcast-IsValid invalidated rt v
  take_node_event-IsValid raydio.Node.Event.connected rt v = broadcast-IsValid connected rt v
  take_node_event-IsValid (raydio.Node.Event.payload_event value) rt v = forward-IsValid value rt v

  notify_changed-IsValid :
      (o : Option ℕ) (rt : Runtime P) → IsValid rt → IsValid (notify_changed o rt)
  unfolding notify_changed
  notify_changed-IsValid none rt v = v
  notify_changed-IsValid (some guild) rt v = elim (Option-cases (get guild rt.guilds)) [
    | inl g ↦ ground (arith, g, v)
    | inr (b, g) ↦ elim (Option-cases (try_send voice_changed b)) [
      | inl t ↦ ground (arith, g, t, v)
      | inr (c, t) ↦ ground (arith, g, t, sent-IsValid voice_changed guild b c rt g t v)
    ]
  ]

  -- The fields that the invariant does not read may change.
  same-IsValid :
      (rt qt : Runtime P)
      → qt.guilds ≡ rt.guilds
      → qt.actors ≡ rt.actors
      → length qt.jobs ≤ length rt.jobs
      → length qt.rejections ≤ length rt.rejections
      → IsValid rt
      → IsValid qt
  same-IsValid rt qt g a j r v = record {
    own_actors = ground (arith, g, a, v.own_actors);
    one_each = rw a v.one_each;
    sessions_bounded = rw a v.sessions_bounded;
    mailboxes_bounded = rw g v.mailboxes_bounded;
    jobs_bounded = omega (arith, j, v.jobs_bounded);
    rejections_bounded = omega (arith, r, v.rejections_bounded);
  }

  show_presence-IsValid :
      (now : ℕ) (built : Bool) (key : Text) (rt : Runtime P)
      → IsValid rt
      → IsValid (show_presence now built key rt)
  unfolding show_presence
  show_presence-IsValid now built key rt v =
      let shown = record rt { last_presence = key; last_presence_at = now } in
      if-IsValid _ shown rt (λ _. same-IsValid rt shown refl refl (omega arith) (omega arith) v)
        (λ _. v)

  actor_ends-IsValid :
      (id : ℕ) (rt : Runtime P)
      → IsValid rt
      → IsValid
          (record rt { actors = keep (λ a. not (a == id)) rt.actors; guilds = delete id rt.guilds })
  actor_ends-IsValid id rt v = record {
    own_actors = keys-delete id rt.guilds ∙ ap (keep (λ a. not (a == id))) v.own_actors;
    one_each = IsUnique-keep id rt.actors v.one_each;
    sessions_bounded =
        omega (arith, length-keep (λ a. not (a == id)) rt.actors, v.sessions_bounded);
    mailboxes_bounded = all_values-delete is_fitting id rt.guilds v.mailboxes_bounded;
    jobs_bounded = v.jobs_bounded;
    rejections_bounded = v.rejections_bounded;
  }

  modify-IsValid :
      (id : ℕ) (f : Mailbox → Mailbox) (rt : Runtime P)
      → ((b : Mailbox) → is_fitting b ≡ true → is_fitting (f b) ≡ true)
      → IsValid rt
      → IsValid (record rt { guilds = modify id f rt.guilds })
  modify-IsValid id f rt h v =
      table-IsValid (modify id f rt.guilds) rt (keys-modify id f rt.guilds)
        (all_values-modify is_fitting id f rt.guilds h v.mailboxes_bounded) v

  module _ (bot : ℕ) (manages : P → Bool) where
    after_cache-IsValid :
        (e : GatewayEvent P) (rt : Runtime P) → IsValid rt → IsValid (after_cache bot manages e rt)
    after_cache-IsValid (cached e) rt v = v
    after_cache-IsValid (interaction_create a) rt v = interact-IsValid manages a rt v

    take_gateway_event-IsValid :
        (latency : Option ℕ) (e : GatewayEvent P) (rt : Runtime P)
        → IsValid rt
        → IsValid (take_gateway_event bot manages latency e rt)
    unfolding take_gateway_event
    take_gateway_event-IsValid latency e rt v = after_cache-IsValid e _ (
        notify_changed-IsValid (update bot rt.cache (event_of e)).1 _
          (same-IsValid rt _ refl refl (omega arith) (omega arith) v))

    step-IsValid : (s : Step P) (rt : Runtime P) → IsValid rt → IsValid (step bot manages s rt).0
    unfolding step tick_presence
    step-IsValid cancelled rt v = v
    step-IsValid (job_ends i) rt v =
        same-IsValid rt _ refl refl (length-remove_at_le i rt.jobs) (omega arith) v
    step-IsValid (rejection_ends i) rt v =
        same-IsValid rt _ refl refl (omega arith) (length-remove_at_le i rt.rejections) v
    step-IsValid (presence_ticks now built) rt v =
        show_presence-IsValid now built (key_of (presence rt.cache)) rt v
    step-IsValid (actor_ends id) rt v =
        if-IsValid (any (λ a. a == id) rt.actors) _ rt (λ _. actor_ends-IsValid id rt v) (λ _. v)
    step-IsValid actor_panics rt v = v
    step-IsValid (node_event e) rt v = take_node_event-IsValid e rt v
    step-IsValid node_closes rt v = v
    step-IsValid (gateway_event latency e) rt v = take_gateway_event-IsValid latency e rt v
    step-IsValid gateway_fails rt v = same-IsValid rt _ refl refl (omega arith) (omega arith) v
    step-IsValid gateway_stops rt v = v
    step-IsValid (session_takes id) rt v =
        modify-IsValid id next_message rt (λ b h. ground (arith, h, length-drop 1 b.messages)) v
    step-IsValid (session_returns id) rt v = modify-IsValid id close rt (λ b h. h) v

    run-IsValid :
        (ss : List (Step P)) (rt : Runtime P) → IsValid rt → IsValid (run bot manages ss rt).0
    unfolding run
    run-IsValid [] rt v = v
    run-IsValid (s ∷ ss) rt v =
        ground (
          arith,
          step-IsValid s rt v,
          run-IsValid ss (step bot manages s rt).0 (step-IsValid s rt v),
        )

    -- Over any schedule from the start, the table names exactly the session tasks, one for each
    -- guild and at most 1000; no mailbox holds more than 128 messages, and at most 128 answers and
    -- 16 rejections are under way.
    pub run-start-IsValid :
        (now : ℕ) (ss : List (Step P)) → IsValid (run bot manages ss (start now)).0
    run-start-IsValid now ss = run-IsValid ss (start now) (record {
      own_actors = refl;
      one_each = tt;
      sessions_bounded = omega arith;
      mailboxes_bounded = refl;
      jobs_bounded = omega arith;
      rejections_bounded = omega arith;
    })
