-- ===== src/Discord/Calls.antt =====
-- How the calls of `Request` in src/discord.rs answer an interaction. Discord's answers are
-- parameters, each the way in which one call ends; a call gives what it sends, in order.
use raydio.Prelude.{
  ℕ, Bool, true, false, not, ◌&&◌, ◌||◌, Option, none, some, List, [], ◌∷◌, Text, codes, text_eq,
  leb, ◌==◌, if◌then◌else◌, is_some,
}
use raydio.Discord.{Request, updates_message}
use raydio.Views.Message.{View, text_view}

-- `twilight_http::Error` by its kind; a response has a status and perhaps an error code.
pub data HttpError : Type 0 where
  transport parsing validation unauthorized : HttpError
  response : ℕ → Option ℕ → HttpError

-- How a call ends; `undecoded` is an error of the body and none of Twilight's.
pub data Outcome : Type 0 where
  done timed_out undecoded : Outcome
  failed : HttpError → Outcome

-- `InteractionResponse`
pub data Answer : Type 0 where
  deferred_update : Answer
  deferred_message : Bool → Answer  -- whether it is ephemeral
  no_choices : Answer
  private_message : Text → Answer  -- ephemeral and with no mentions

pub data Call : Type 0 where
  creates : Answer → Call
  reads_original : Call
  updates_original : View → Call
  updates_panel : ℕ → ℕ → View → Call
  follows_up : Text → Call

-- The words of `http_error_summary`.
pub data ErrorKind : Type 0 where
  http decode validation_kind unauthorized_kind transport_kind : ErrorKind

unfoldable pub http_error_summary : HttpError → ErrorKind × Option ℕ × Option ℕ
http_error_summary (response status code) = (http, some status, code)
http_error_summary parsing = (decode, none, none)
http_error_summary validation = (validation_kind, none, none)
http_error_summary unauthorized = (unauthorized_kind, none, none)
http_error_summary transport = (transport_kind, none, none)

abbrev is_transport : ErrorKind → Bool
is_transport transport_kind = true
is_transport _ = false

abbrev is_server_error : Option ℕ → Bool
is_server_error none = false
is_server_error (some status) = leb 500 status

abbrev is_code : ℕ → Option ℕ → Bool
is_code n none = false
is_code n (some code) = code == n

unfoldable pub recoverable_ack_error : HttpError → Bool
unfolding http_error_summary
recoverable_ack_error e =
    let (kind, status, code) = http_error_summary e in
    is_transport kind || is_server_error status || is_code 40060 code

unfoldable pub transient_response_error : Outcome → Bool
unfolding http_error_summary
transient_response_error timed_out = true
transient_response_error (failed e) =
    let (kind, status, code) = http_error_summary e in is_transport kind || is_server_error status
transient_response_error _ = false

unfoldable pub deferral : Request → Answer
unfolding updates_message
deferral r =
    if updates_message r
    then deferred_update
    else deferred_message
        (text_eq r.name (codes "diagnostics") || (is_some r.custom_id && not (updates_message r)))

unfoldable pub is_ambiguous : Outcome → Bool
unfolding recoverable_ack_error
is_ambiguous done = false
is_ambiguous timed_out = true
is_ambiguous (failed e) = recoverable_ack_error e
is_ambiguous undecoded = false

-- Given how the creation ends, and whether the original response can then be read.
unfoldable pub acknowledge : Request → Outcome → Bool → List Call × Bool
unfolding deferral is_ambiguous
acknowledge r done readable = (creates (deferral r) ∷ [], true)
acknowledge r o readable =
    if is_ambiguous o
    then (creates (deferral r) ∷ reads_original ∷ [], readable)
    else (creates (deferral r) ∷ [], false)

-- Whether the interaction is an autocompletion, and the text.
unfoldable pub reject : Bool → Text → List Call
reject autocomplete text = creates (if autocomplete then no_choices else private_message text) ∷ []

-- `respond`: one update of the original response.
unfoldable pub respond : View → List Call
respond view = updates_original view ∷ []

-- The panel that a component belongs to; without a message nothing is sent.
unfoldable pub respond_no_model : Request → View → List Call × Bool
respond_no_model r view = elim r.interaction.message [
  | none ↦ ([], false)
  | some (channel, message) ↦ (updates_panel channel message view ∷ [], true)
]

-- Given how the first update ends.
unfoldable pub error : Request → Text → Outcome → List Call
unfolding updates_message respond text_view transient_response_error
error r text o =
    if updates_message r
    then follows_up text ∷ []
    else if transient_response_error o
    then updates_original (text_view text) ∷ respond (text_view text)
    else respond (text_view text)
