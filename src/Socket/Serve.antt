-- ===== src/Socket/Serve.antt =====
-- `serve_request` of palaver/observer/socket/serve.py.
use palaver.Prelude.{
  ℕ, Bool, true, false, ◌&&◌, ◌||◌, ltb, leb, ◌==◌, ◌*◌, Option, none, some, List, [], ◌∷◌, ◌++◌,
  length, if◌then◌else◌, Text, strip_by,
}
use palaver.Json.{Value}
use palaver.Socket.Connection.{Connection, Reply}
use palaver.Socket.Protocol.{apply_request}

abbrev pub max_request_bytes : ℕ
max_request_bytes = 1024 * 1024

-- What a `recv` gives: some bytes, where none is the end of the stream, or the `TimeoutError` of the
-- deadline and of the socket, or a `ConnectionError`.
pub data Received : Type 0 where
  chunk : Text → Received
  stalled : Received

-- How `sendall` ends.
pub data Sent : Type 0 where
  delivered connection_lost send_timed_out : Sent

-- What the loop ends with.
pub data Request : Type 0 where
  body_is : Text → Request
  outgrown abandoned : Request

-- The replies of the handler itself, and that of `apply_request`.
pub data Answer : Type 0 where
  answered : Reply → Answer
  request_too_large undecodable : Answer

-- The return value, the reply that is sent, if any, and the connection.
pub record Served : Type 0 where
  pub served : Bool
  pub answer : Option Answer
  pub connection : Connection

-- `chunk.endswith(b"\n")`.
unfoldable pub ends_with_newline : Text → Bool
ends_with_newline [] = false
ends_with_newline (c ∷ []) = c == 10
ends_with_newline (c ∷ d ∷ s) = ends_with_newline (d ∷ s)

-- The loop, from the bytes received so far; a list that is used up is a stream that ended.
unfoldable pub receive : Text → List Received → Request
unfolding ends_with_newline
receive received [] = body_is received
receive received (stalled ∷ rest) = abandoned
receive received (chunk [] ∷ rest) = body_is received
receive received (chunk (c ∷ s) ∷ rest) = elim (ends_with_newline (c ∷ s)) [
  | true ↦ body_is (received ++ c ∷ s)
  | false ↦ elim (ltb max_request_bytes (length (received ++ c ∷ s))) [
    | true ↦ outgrown
    | false ↦ receive (received ++ c ∷ s) rest
  ]
]

-- `bytes.strip()`.
unfoldable pub strip_bytes : Text → Text
unfolding strip_by
strip_bytes s = strip_by (λ c. (leb 9 c && leb c 13) || c == 32) s

-- The return value after `sendall`, once there is a reply.
unfoldable pub counts_as_served : Sent → Bool
counts_as_served delivered = true
counts_as_served connection_lost = true
counts_as_served send_timed_out = false

-- The reply to a body, where `loads` is `json.loads`, with `none` for what it raises.
unfoldable pub answer_body :
    (Text → Option Value) → Bool → ℕ → Text → Connection → Answer × Connection
answer_body loads commits now body c =
    if ltb max_request_bytes (length body) then (request_too_large, c) else elim (loads body) [
      | none ↦ (undecodable, c)
      | some payload ↦
          let result = apply_request commits now payload c in (answered result.0, result.1)
    ]

unfoldable pub reply_with : Sent → Answer × Connection → Served
unfolding counts_as_served
reply_with sent (answer, c) = record {
  served = counts_as_served sent;
  answer = some answer;
  connection = c;
}

-- What follows the loop.
unfoldable pub serve_body : (Text → Option Value) → Bool → ℕ → Sent → Text → Connection → Served
unfolding answer_body reply_with
serve_body loads commits now sent [] c = record { served = false; answer = none; connection = c }
serve_body loads commits now sent (b ∷ body) c =
    reply_with sent (answer_body loads commits now (b ∷ body) c)

unfoldable pub serve_received :
    (Text → Option Value) → Bool → ℕ → Sent → Request → Connection → Served
unfolding serve_body strip_bytes
serve_received loads commits now sent (body_is raw) c =
    serve_body loads commits now sent (strip_bytes raw) c
serve_received loads commits now sent outgrown c = record {
  served = false;
  answer = some request_too_large;
  connection = c;
}
serve_received loads commits now sent abandoned c = record {
  served = false;
  answer = none;
  connection = c;
}

-- `serve_request`, where `accepts` says whether there is a client to accept.
unfoldable pub serve_request :
    (Text → Option Value) → Bool → ℕ → Bool → List Received → Sent → Connection → Served
unfolding serve_received receive
serve_request loads commits now false stream sent c = record {
  served = false;
  answer = none;
  connection = c;
}
serve_request loads commits now true stream sent c =
    serve_received loads commits now sent (receive [] stream) c
