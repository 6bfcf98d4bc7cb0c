-- ===== src/Socket/Protocol.antt =====
-- `apply_request` of palaver/observer/socket/protocol.py.
use palaver.Prelude.{ℕ, Bool, true, false, none, some, [], ◌∷◌, if◌then◌else◌}
use palaver.Json.{Value, obj, Fields, get, equals, member}
use palaver.Socket.Connection.{
  Connection, Attempt, done, failed, Reply, refused, invalid_request, unsupported_operation,
  type_error, rollback,
}
use palaver.Socket.Correct.{correct}
use palaver.Socket.Query.{record_query}

-- The operation, if it is one of `WRITE_OPERATIONS`.
pub data Operation : Type 0 where
  unhashable unsupported correct_op query_op : Operation

unfoldable pub operation : Value → Operation
unfolding member equals
operation op = elim (member op ("correct" ∷ "query" ∷ [])) [
  | none ↦ unhashable
  | some false ↦ unsupported
  | some true ↦ if equals op "query" then query_op else correct_op
]

-- The body of the `try`.
unfoldable pub perform : Bool → ℕ → Fields → Connection → Operation → Attempt
unfolding correct record_query
perform commits now payload c unhashable = failed type_error c
perform commits now payload c unsupported = failed unsupported_operation c
perform commits now payload c correct_op = correct commits now payload c
perform commits now payload c query_op = record_query commits payload c

-- The handler of the `try`: a refusal is rolled back.
unfoldable pub reply_to : Attempt → Reply × Connection
unfolding rollback
reply_to (done r c) = (r, c)
reply_to (failed e c) = (refused e, rollback c)

-- `apply_request`.
unfoldable pub apply_request : Bool → ℕ → Value → Connection → Reply × Connection
unfolding perform operation reply_to get
apply_request commits now (obj payload) c =
    reply_to (perform commits now payload c (operation (get payload "op")))
apply_request commits now _ c = (refused invalid_request, c)
