-- ===== src/Lib.antt =====
-- Raydio, a Discord music bot: one process that keeps facts about its guilds from gateway events,
-- runs one task per guild with a music session, and plays through a Lavalink-like music service.
--
-- The parts and the files that model them (paths from the repository's root):
--   * Playback models src/playback.rs: the queue of a session, with the loop modes, the history and
--     the failure streak, and the format of durations. A method that changes the queue returns the
--     new queue, with the method's result.
--   * Voice, Voice/Permissions and Voice/Access model src/voice.rs: the cache of guilds as a function
--     of gateway events, the permissions of a member in a channel, and the admission of a caller.
--     Maps are association lists. Twilight's `Permissions` is a parameter, the record `Bitflags`;
--     `IsFlag` states what it documents of a named flag.
--   * Discord models `Request` of src/discord.rs, and Discord/Calls how its calls answer an
--     interaction: each HTTP call enters as the way in which it ends, and a call gives what it sends.
--   * Views models the texts of src/views.rs, Views/Message its messages, Views/Player the player
--     message, Views/Pages the queue message and Views/Choices the choices of an autocompletion. A
--     text is a list of Unicode scalar values.
--   * Urls models src/urls.rs and Resolver src/resolver.rs. The `url` crate is a parameter, the record
--     `Urls`. The JSON answer enters by the parts that the code reads, each track as `serde` reads it
--     or none.
--   * Node models `run` of src/node.rs, a state with the events sent so far, over the connections that
--     are made and what arrives on them; Node/Client models the calls, over an HTTP client and a JSON
--     reader that are parameters.
--   * Runtime, Runtime/Pump, Runtime/Resolve and Runtime/Choices model src/runtime.rs: the table of
--     sessions with their mailboxes, the tasks as lists, and the loop over a schedule of its branches;
--     `resolve`; and the choices of autocompletion with their cache.
--   * Commands models `matches_registered` of src/commands.rs. The fields that are only compared are
--     of parameter types.
--   * Config models `from_env` of src/config.rs: the environment is an association list, and an
--     error is a constructor that stands for its message.
--   * Session and its children model src/session.rs: the state of a session and every handler of its
--     loop. A handler takes the session and returns it. What the session does to the world is the
--     field `log`, and what the world answers (the clock, the music service, the cache, Discord, the
--     random tokens) is the record `Env`, whose fields read the log; so an answer may change with
--     every effect. Session/Play starts and fails tracks, Session/Monitor follows the music service
--     and its watchdog, Session/Presence voice changes and the clock, Session/Prepare the preparation
--     of the next track, Session/Loading goes from a play request to the queue, Session/Cleanup ends
--     a playback lifetime, Session/Control, Session/Control/Actions and Session/Interaction answer
--     commands and buttons, Session/Panels keeps the player message, and Session/Run is the loop: a
--     turn is one branch of its `select!`, and the schedule is the list of turns.
--   * Startup models the start of the program: the arguments and the environment of src/main.rs and
--     the buffer setting of src/backend.rs. An error with a constant text is none.
--   * Prelude and its children have the types, tests, list, map, text and decimal lemmas.
--
-- How they interact: Runtime keeps the cache of Voice, passes interactions, voice changes and the
-- events of Node on to the mailboxes of the sessions, and starts a session for a guild; Session owns a
-- Queue and calls its methods; it asks `access` and `caller_channel` of the guild in the cache before it
-- plays or obeys; it takes the resolver's `Resolution` and shows texts of Views. Runtime resolves a
-- request through Urls, Resolver and the answers of the music service.
--
-- Bounds and fuel: `u64` counters that the code wraps or saturates do so in the model. The loop of
-- `start_current` runs on fuel 4: every failed round raises the failure streak or empties the queue,
-- the third failure empties it, and a round on an empty queue ends the loop. No other loop needs fuel.
--
-- Not modelled: the transport below the calls (HTTP, WebSocket, the gateway connection), the log
-- lines, the login and the registration of commands before the gateway loop and the shutdown of the
-- node's task, which are input and output; `definitions` of src/commands.rs, which reads a file; the
-- rest of src/backend.rs and src/main.rs and all of src/service.rs, which start and stop the embedded
-- server, the runtime and the process. In Session the messages are parameters of `Env`; Session/Shown puts
-- those of Views in, and the texts of help, ping and diagnostics stay parameters. Within a turn the answers are read in order; tasks that run beside
-- a loop enter as the way in which they end. The counters `connections` of Node do not reach 2^64.
pub mod Prelude
pub mod Playback
pub mod Voice
pub mod Discord
pub mod Views
pub mod Config
pub mod Resolver
pub mod Session
pub mod Node
pub mod Urls
pub mod Runtime
pub mod Commands
pub mod Startup
