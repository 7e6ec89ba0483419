-- ===== src/Runtime/Pump.antt =====
-- The loop of `run` in src/runtime.rs. Which branch of the `tokio::select!` runs is the schedule; the
-- schedule also has the steps that sessions take on their own.
use raydio.Prelude.{
  ℕ, ◌-◌, Bool, true, false, not, ◌&&◌, Option, none, some, List, [], ◌∷◌, ◌++◌, Text, codes,
  text_eq, leb, ◌==◌, if◌then◌else◌, length, Map, get, insert, modify, delete, values, keep, first,
  is_some, wrapping_inc, decimal, drop, remove_at, parse_unsigned, u64_max, any,
}
use raydio.Voice.{Cache, Guild}
use raydio.Voice
use raydio.Node
use raydio.Runtime.{
  Runtime, Arrival, Message, reports, voice_changed, invalidated, connected, Mailbox, try_send,
  interact,
}

-- How the loop goes on: it stops well after a cancellation, and with an error otherwise.
pub data Flow : Type 0 where
  goes_on cancels : Flow
  fails : Text → Flow

pub data GatewayEvent (P : Type 0) : Type 0 where
  cached : raydio.Voice.Event P → GatewayEvent P
  interaction_create : Arrival P → GatewayEvent P

pub data Step (P : Type 0) : Type 0 where
  cancelled : Step P
  job_ends rejection_ends : ℕ → Step P
  -- the time, and whether the presence update could be built
  presence_ticks : ℕ → Bool → Step P
  actor_ends : ℕ → Step P
  actor_panics : Step P
  node_event : raydio.Node.Event → Step P
  node_closes : Step P
  -- the average latency of the shard, and the event
  gateway_event : Option ℕ → GatewayEvent P → Step P
  gateway_fails gateway_stops : Step P
  -- a session takes its next message, or returns
  session_takes session_returns : ℕ → Step P

abbrev pub next_message : Mailbox → Mailbox
next_message b = record b { messages = drop 1 b.messages }

abbrev pub close : Mailbox → Mailbox
close b = record b { receiving = false }

-- A message to every session until one cannot take it, and whether one could not.
unfoldable pub send_all : Message → Map Mailbox → Map Mailbox × Bool
unfolding try_send
send_all m [] = ([], false)
send_all m ((id, b) ∷ rest) = elim (try_send m b) [
  | none ↦ ((id, b) ∷ rest, true)
  | some b' ↦ ((id, b') ∷ (send_all m rest).0, (send_all m rest).1)
]

abbrev pub key_of : ℕ × Text → Text
key_of (kind, name) = decimal kind ++ b':' ∷ name

abbrev is_active : {P : Type 0} → Guild P → Bool
is_active g = is_some g.activity.channel

module _ {P : Type 0} where
  -- The type and the name of the activity that is shown.
  unfoldable pub presence : Cache P → ℕ × Text
  presence c =
      let count : ℕ = length (keep is_active (values c.guilds)) in
      let title : Option Text =
        if length c.guilds == 1
        then elim (first (values c.guilds)) [ none ↦ none | some g ↦ g.activity.title ]
        else none in
      elim title [
        | some title ↦ (2, title)
        | none ↦ if count == 0 then (3, codes "/play") else (
          2,
          decimal count ++ (codes " active session" ++ (if count == 1 then [] else codes "s")),
        )
      ]

  unfoldable pub show_presence : ℕ → Bool → Text → Runtime P → Runtime P
  show_presence now built key rt =
      if not (text_eq key rt.last_presence)
        && leb 4000 (now - rt.last_presence_at)
        && rt.cache.ready
        && built
      then record rt { last_presence = key; last_presence_at = now }
      else rt

  unfoldable pub tick_presence : ℕ → Bool → Runtime P → Runtime P
  unfolding presence show_presence
  tick_presence now built rt = show_presence now built (key_of (presence rt.cache)) rt

  -- `Invalidated` and `Connected` go to every session, and an overload ends the loop.
  unfoldable pub broadcast : Message → Runtime P → Runtime P × Flow
  unfolding send_all
  broadcast m rt = (
    record rt { guilds = (send_all m rt.guilds).0 },
    if (send_all m rt.guilds).1 then fails (codes "guild lifecycle queue overloaded") else goes_on,
  )

  -- A payload goes to the session of its guild, when there is one.
  unfoldable pub forward : raydio.Node.Value → Runtime P → Runtime P × Flow
  unfolding try_send
  forward value rt = elim value.guild_id [
    | none ↦ (rt, goes_on)
    | some text ↦ elim (parse_unsigned u64_max text) [
      | none ↦ (rt, goes_on)
      | some id ↦ elim (get id rt.guilds) [
        | none ↦ (rt, goes_on)
        | some b ↦ elim (try_send (reports value.payload) b) [
          | none ↦ (rt, fails (codes "guild music event queue overloaded"))
          | some b' ↦ (record rt { guilds = insert id b' rt.guilds }, goes_on)
        ]
      ]
    ]
  ]

  unfoldable pub take_node_event : raydio.Node.Event → Runtime P → Runtime P × Flow
  unfolding broadcast forward
  take_node_event raydio.Node.invalidated rt = broadcast invalidated rt
  take_node_event raydio.Node.connected rt = broadcast connected rt
  take_node_event (raydio.Node.payload_event value) rt = forward value rt

  -- The guild whose voice facts changed; a full mailbox is passed over.
  unfoldable pub notify_changed : Option ℕ → Runtime P → Runtime P
  unfolding try_send
  notify_changed none rt = rt
  notify_changed (some guild) rt = elim (get guild rt.guilds) [
    | none ↦ rt
    | some b ↦ elim (try_send voice_changed b) [
      | none ↦ rt
      | some b' ↦ record rt { guilds = insert guild b' rt.guilds }
    ]
  ]

  abbrev pub event_of : GatewayEvent P → raydio.Voice.Event P
  event_of (cached e) = e
  event_of (interaction_create a) = raydio.Voice.Event.other

  module _ (bot : ℕ) (manages : P → Bool) where
    abbrev pub after_cache : GatewayEvent P → Runtime P → Runtime P
    after_cache (cached e) rt = rt
    after_cache (interaction_create a) rt = interact manages a rt

    unfoldable pub take_gateway_event : Option ℕ → GatewayEvent P → Runtime P → Runtime P
    unfolding notify_changed
    take_gateway_event latency e rt =
        let (cache, changed_guild) = raydio.Voice.update bot rt.cache (event_of e) in
        after_cache e (
          notify_changed changed_guild (record rt {
            latency_ms = elim latency [ none ↦ rt.latency_ms | some ms ↦ ms ];
            cache = cache;
            changed = wrapping_inc rt.changed;
          }))

    unfoldable pub step : Step P → Runtime P → Runtime P × Flow
    unfolding tick_presence take_node_event take_gateway_event
    step cancelled rt = (rt, cancels)
    step (job_ends i) rt = (record rt { jobs = remove_at i rt.jobs }, goes_on)
    step (rejection_ends i) rt = (record rt { rejections = remove_at i rt.rejections }, goes_on)
    step (presence_ticks now built) rt = (tick_presence now built rt, goes_on)
    step (actor_ends id) rt = (
      if any (λ a. a == id) rt.actors
          then record rt {
            actors = keep (λ a. not (a == id)) rt.actors;
            guilds = delete id rt.guilds;
          }
          else rt,
      goes_on,
    )
    step actor_panics rt = (rt, fails (codes "guild worker failed"))
    step (node_event e) rt = take_node_event e rt
    step node_closes rt = (rt, fails (codes "music event stream closed"))
    step (gateway_event latency e) rt = (take_gateway_event latency e rt, goes_on)
    step gateway_fails rt = (record rt { cache = record rt.cache { ready = false } }, goes_on)
    step gateway_stops rt = (rt, fails (codes "Discord gateway stopped"))
    step (session_takes id) rt = (record rt { guilds = modify id next_message rt.guilds }, goes_on)
    step (session_returns id) rt = (record rt { guilds = modify id close rt.guilds }, goes_on)

    -- The loop over a schedule, until it stops.
    unfoldable pub run : List (Step P) → Runtime P → Runtime P × Flow
    unfolding step
    run [] rt = (rt, goes_on)
    run (s ∷ ss) rt = elim (step s rt).1 [
      | goes_on ↦ run ss (step s rt).0
      | cancels ↦ ((step s rt).0, cancels)
      | fails e ↦ ((step s rt).0, fails e)
    ]

-- After the loop: the answers and rejections are aborted, and the sessions end or are aborted.
unfoldable pub shut_down : {P : Type 0} → Runtime P → Runtime P
shut_down rt = record rt { jobs = []; rejections = []; actors = [] }
