-- ===== src/Signals/Payload.antt =====
-- palaver/observer/signals/payload.py: the crossing of a raw model response into an `Extraction`,
-- which refuses a response that names a status (INV-7). `str.lower` is the argument `lower`.
use palaver.Prelude.{
  ℕ, Bool, false, ◌||◌, Option, none, some, List, [], ◌∷◌, ◌++◌, map, any, if◌then◌else◌, ◌==◌,
  Text, codes, text_eq, strip,
}
use palaver.Json.{Value, null, str, arr, obj, Items, nil, cons, Fields, end, field, get}
use palaver.Signals.{Extraction}

-- `ModelSuppliedStatusError` and the `ExtractionPayloadError` that it extends.
pub data PayloadError : Type 0 where
  model_supplied_status malformed : PayloadError

pub data Result {ℓ} (A : Type ℓ) : Type ℓ where
  ok : A → Result A
  err : PayloadError → Result A

infixl 5 ◌>>=◌
abbrev pub ◌>>=◌ {ℓ κ} : {A : Type ℓ} {B : Type κ} → Result A → (A → Result B) → Result B
ok a >>= f = f a
err e >>= f = err e

-- `FORBIDDEN_PAYLOAD_KEYS`.
abbrev pub forbidden_payload_keys : List Text
forbidden_payload_keys =
    codes "status"
    ∷ codes "state"
    ∷ codes "session_status"
    ∷ codes "session_state"
    ∷ codes "agent_status"
    ∷ codes "agent_state"
    ∷ []

-- `.replace("-", "_").replace(" ", "_")`.
unfoldable pub underscored : ℕ → ℕ
underscored c = if c == b'-' then b'_' else if c == b' ' then b'_' else c

-- `_normalized_key`.
unfoldable pub normalized_key : (Text → Text) → Text → Text
unfolding underscored strip
normalized_key lower key = map underscored (lower (strip key))

unfoldable pub is_forbidden : (Text → Text) → Text → Bool
unfolding normalized_key text_eq
is_forbidden lower key = any (text_eq (normalized_key lower key)) forbidden_payload_keys

-- The loop over the payload's keys.
unfoldable pub names_status : (Text → Text) → Fields → Bool
unfolding is_forbidden
names_status lower end = false
names_status lower (field k v fs) = is_forbidden lower k || names_status lower fs

-- `"\n".join(value)`, after the test that every item is a string.
unfoldable pub join_lines : Items → Result Text
join_lines nil = ok []
join_lines (cons (str s) nil) = ok s
join_lines (cons (str s) (cons v vs)) = do rest ← join_lines (cons v vs); ok (s ++ b'\n' ∷ rest)
join_lines (cons _ vs) = err malformed

-- `_payload_text`.
unfoldable pub payload_text : Value → Result (Option Text)
unfolding join_lines
payload_text null = ok none
payload_text (str s) = ok (some s)
payload_text (arr vs) = do s ← join_lines vs; ok (some s)
payload_text _ = err malformed

-- The four reads, in the order of `REFINEMENT_PAYLOAD_KEYS`.
read_fields : Fields → Result Extraction
read_fields fs = do
  task ← payload_text (get fs "current_task")
  work ← payload_text (get fs "remaining_work")
  blockers ← payload_text (get fs "blockers_now")
  questions ← payload_text (get fs "open_questions")
  ok (record {
    current_task = task;
    remaining_work = work;
    blockers_now = blockers;
    open_questions = questions;
  })

-- `extraction_from_model_payload`.
unfoldable pub extraction_from_model_payload : (Text → Text) → Value → Result Extraction
unfolding read_fields
extraction_from_model_payload lower (obj fs) =
    if names_status lower fs then err model_supplied_status else read_fields fs
extraction_from_model_payload lower _ = err malformed
