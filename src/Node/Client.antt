-- ===== src/Node/Client.antt =====
-- The calls of src/node.rs to the music service. The HTTP client and the JSON reader are parameters.
use raydio.Prelude.{
  ℕ, ◌+◌, ◌*◌, Bool, true, false, not, ◌&&◌, Option, none, some, List, [], ◌∷◌, ◌++◌, Text, codes,
  ltb, leb, ◌==◌, if◌then◌else◌, length, decimal,
}
use raydio.Prelude.Results.{Result, ok, err}
use raydio.Node.{Health}

pub data Method : Type 0 where
  get_method patch delete_method post : Method

pub data ClientError : Type 0 where
  request_failed interrupted exceeds_limit invalid_response unavailable : ClientError
  http_status : ℕ → ClientError

-- A response: its status, and the chunks of its body; `none` is a chunk that fails.
pub record HttpResponse : Type 0 where
  pub status : ℕ
  pub chunks : List (Option (List ℕ))

-- A request of the program, with a JSON body `J`.
pub record HttpRequest (J : Type 0) : Type 0 where
  pub verb : Method
  pub path : Text
  pub query : List (Text × Text)
  pub body : Option J

-- The HTTP client and `serde_json`; `send` gives none when the request fails.
pub record Http (J : Type 0) : Type 0 where
  pub send : HttpRequest J → Option HttpResponse
  pub from_slice : List ℕ → Option J
  pub null : J
  -- `json!({"encoded": encoded})`
  pub encoded : Option Text → J

abbrev pub body_limit : ℕ
body_limit = 2 * 1024 * 1024

-- The loop over the chunks, after `bytes`.
unfoldable pub read_body : List ℕ → List (Option (List ℕ)) → Result (List ℕ) ClientError
read_body bytes [] = ok bytes
read_body bytes (none ∷ chunks) = err interrupted
read_body bytes (some chunk ∷ chunks) = elim (ltb body_limit (length bytes + length chunk)) [
  | true ↦ err exceeds_limit
  | false ↦ read_body (bytes ++ chunk) chunks
]

abbrev is_success : ℕ → Bool
is_success status = leb 200 status && leb status 299

-- The headers of the WebSocket request: a session that is known is asked for again.
unfoldable pub connect_headers : Text → ℕ → Health → List (Text × Text)
connect_headers password user_id state =
    (codes "Authorization", password)
    ∷ (codes "User-Id", decimal user_id)
    ∷ (codes "Client-Name", codes "Raydio/0.2.0")
    ∷ (if length state.session == 0 then [] else (codes "Session-Id", state.session) ∷ [])

module _ {J : Type 0} (http : Http J) where
  unfoldable pub request : HttpRequest J → Result J ClientError
  unfolding read_body
  request r = elim (http.send r) [
    | none ↦ err request_failed
    | some response ↦
        if not (is_success response.status)
        then err (http_status response.status)
        else elim (read_body [] response.chunks) [
          | err e ↦ err e
          | ok [] ↦ ok http.null
          | ok (b ∷ bytes) ↦ elim (http.from_slice (b ∷ bytes)) [
            | none ↦ err invalid_response
            | some v ↦ ok v
          ]
        ]
  ]

  -- Each call gives the requests that it sends, and its result.
  abbrev send_one : HttpRequest J → List (HttpRequest J) × Result J ClientError
  send_one r = (r ∷ [], request r)

  unfoldable pub load : Health → Text → List (HttpRequest J) × Result J ClientError
  unfolding request
  load h identifier =
      if not h.ready
      then ([], err unavailable)
      else send_one (record {
        verb = get_method;
        path = codes "/v4/loadtracks";
        query = (codes "identifier", identifier) ∷ [];
        body = none;
      })

  abbrev player_path : Health → ℕ → Text
  player_path h guild = codes "/v4/sessions/" ++ (h.session ++ (codes "/players/" ++ decimal guild))

  unfoldable pub update : Health → ℕ → J → List (HttpRequest J) × Result J ClientError
  unfolding request
  update h guild value =
      if not h.ready
      then ([], err unavailable)
      else send_one
          (record { verb = patch; path = player_path h guild; query = []; body = some value })

  -- Nothing is destroyed, and nothing fails, while the service is not ready.
  unfoldable pub destroy : Health → ℕ → List (HttpRequest J) × Result (Unit {0}) ClientError
  unfolding request
  destroy h guild =
      let r : HttpRequest J = record {
        verb = delete_method;
        path = player_path h guild;
        query = [];
        body = none;
      } in
      if not h.ready
      then ([], ok tt)
      else (r ∷ [], elim (request r) [ ok v ↦ ok tt | err e ↦ err e ])

  unfoldable pub prepare :
      Health → ℕ → Option Text → List (HttpRequest J) × Result (Unit {0}) ClientError
  unfolding request
  prepare h guild encoded =
      let r : HttpRequest J = record {
        verb = post;
        path =
            codes "/crust/v1/sessions/"
            ++ (h.session ++ (codes "/players/" ++ (decimal guild ++ codes "/prepare")));
        query = [];
        body = some (http.encoded encoded);
      } in
      if not h.ready
      then ([], err unavailable)
      else (r ∷ [], elim (request r) [ ok v ↦ ok tt | err e ↦ err e ])
