-- ===== src/Examples/SocketRuns.antt =====
-- palaver/observer/socket, run on a store of two memories.
use palaver.Prelude.{
  is_blank, length, ap, ℕ, suc, true, false, List, [], ◌∷◌, none, some, ◌≡◌, refl, codes, all, Text,
  Option, ◌++◌, ◌≢◌, map, arith,
}
use palaver.Json.{null, Value, int, str, arr, nil, cons, obj, Fields, field, end, get}
use palaver.Memory.Tables.{max_id}
use palaver.Memory.Write.{value_error, integrity_error}
use palaver.Socket.Connection.{Database, Connection, corrected, recorded, refused, write_refused}
use palaver.Socket.Correct.{arguments, check_correction, evidence_of, anchor_of, user_correction}
use palaver.Memory.Write.{successor_fields}
use palaver.Memory.Storable.{Storable}
use palaver.Socket.Protocol.{apply_request}
use palaver.Socket.Refines.{Promised, apply_request_refines}
use palaver.Socket.Accepted.{correction_accepted}
use palaver.Socket.Serve.{chunk, connection_lost, answered, strip_bytes, serve_request}
use palaver.Socket.Chunks.{serve_request-chunks}
use palaver.Socket.Query.{fromkeys}
use palaver.Socket.Stored.{IsStored}
use palaver.Memory.Tables.{is_some}
use palaver.Mcp.Recall.{Item, Scope, project_scope}
use palaver.Mcp.Describe.{described, describe}
use palaver.Mcp.Recorded.{page_fields, page_ids, name_of, page_recorded}
use palaver.Examples.StoreRuns.{instruction, store, store-IsSound}

abbrev database : Database
database = record { store = store; query_events = []; query_event_memories = [] }

abbrev connection : Connection
connection = record { committed = database; current = database }

abbrev correction : Fields
correction =
    field (codes "op") (str (codes "correct"))
      (field (codes "memory_id") (int 2) (field (codes "statement") (str (codes " uses uv ")) end))

abbrev query : Fields
query = field (codes "op") (str (codes "query")) (
    field (codes "tool") (str (codes "recall")) (
      field (codes "scope_kind") (str (codes "project")) (
        field (codes "scope_value") (str (codes "palaver"))
          (field (codes "memory_ids") (arr (cons (int 1) (cons (int 1) (cons (int 2) nil)))) end))))

query_recorded : (apply_request true 30 (obj query) connection).0 ≡ recorded 1 2
unfolding apply_request palaver.Prelude.text_eq palaver.Prelude.is_blank
    palaver.Memory.Tables.find_memory
query_recorded = refl

-- An id that no memory has.
unknown_id :
    (apply_request true 30
      (obj (
        field (codes "op") (str (codes "query")) (
          field (codes "tool") (str (codes "recall")) (
            field (codes "scope_kind") (str (codes "project")) (
              field
                (codes "scope_value")
                (str (codes "palaver"))
                (field (codes "memory_ids") (arr (cons (int 9) nil)) end))))))
      connection)
    ≡ (refused (write_refused integrity_error), connection)
unfolding apply_request palaver.Prelude.text_eq palaver.Prelude.is_blank
    palaver.Memory.Tables.find_memory
unknown_id = refl

apply_request_refines_example :
    ((apply_request true 30 (obj query) connection).1.current
      ≡ (apply_request true 30 (obj query) connection).1.committed)
    × Promised 30
        (obj query)
        (apply_request true 30 (obj query) connection).0
        database
        (apply_request true 30 (obj query) connection).1.committed
apply_request_refines_example = apply_request_refines true 30 (obj query) connection refl

op_is_correct : get correction "op" ≡ str (codes "correct")
unfolding get palaver.Prelude.text_eq
op_is_correct = refl

checked_correction : check_correction correction ≡ arguments 2 (codes " uses uv ")
unfolding check_correction palaver.Prelude.text_eq palaver.Prelude.is_blank
checked_correction = refl

evidence_checked : all palaver.Memory.Statements.evidence_check store.memory_evidence ≡ true
unfolding palaver.Memory.Statements.evidence_check
evidence_checked = refl

instruction_stored : palaver.Memory.Tables.find_memory 2 store.memories ≡ some instruction
unfolding palaver.Memory.Tables.find_memory
instruction_stored = refl

instruction_live : palaver.Memory.Write.is_superseded store 2 ≡ false
unfolding palaver.Memory.Write.is_superseded palaver.Memory.Tables.has_successor
instruction_live = refl

correction-Storable :
    Storable
      (successor_fields 2 instruction (user_correction (codes " uses uv ") 30))
      (map anchor_of (evidence_of 2 store.memory_evidence))
      store
unfolding palaver.Memory.Tables.find_source max_id evidence_of anchor_of successor_fields
    user_correction palaver.Prelude.strip
correction-Storable = record {
  project = refl;
  session = λ s h. ground arith;
  anchors = (
    record {
      chunk = λ c h missing. ground arith;
      event = λ e h. cc;
      start_small = omega arith;
      end_small = omega arith;
    },
    tt,
  );
  statement = refl;
  origin = refl;
  next_id = omega arith;
}

correction_accepted_example :
    (apply_request true 30 (obj correction) connection).0
    ≡ corrected (suc (max_id store.memories)) 2
correction_accepted_example =
    correction_accepted 30 correction connection 2 (codes " uses uv ") instruction op_is_correct
      checked_correction store-IsSound evidence_checked instruction_stored instruction_live
      correction-Storable

abbrev brace : Text
brace = 123 ∷ []

abbrev closing : Text
closing = 125 ∷ 10 ∷ []

two_chunks : brace ≢ []
two_chunks h = cc

last_chunk : closing ≢ []
last_chunk h = cc

-- A codec that knows one body.
abbrev loads : Text → Option Value
loads [] = none
loads (b ∷ body) = some (obj query)

body_decoded : loads (strip_bytes ((123 ∷ 125 ∷ []) ++ 10 ∷ [])) ≡ some (obj query)
unfolding strip_bytes
body_decoded = refl

-- `{}` and a newline, in two chunks, with more behind it.
serve_request-chunks_example :
    serve_request loads true 30 true
      (map chunk (brace ∷ closing ∷ []) ++ chunk (9 ∷ []) ∷ [])
      connection_lost
      connection
    ≡ record {
      served = true;
      answer = some (answered (apply_request true 30 (obj query) connection).0);
      connection = (apply_request true 30 (obj query) connection).1;
    }
unfolding palaver.Socket.Serve.counts_as_served
serve_request-chunks_example =
    serve_request-chunks loads true 30 connection_lost (brace ∷ closing ∷ []) (chunk (9 ∷ []) ∷ [])
      (123 ∷ 125 ∷ []) (obj query) connection (two_chunks, (last_chunk, tt)) refl refl (omega arith)
      refl body_decoded

abbrev page_item : Item
page_item = record { row = instruction; tier_name = codes "user_instruction" }

abbrev project : Scope
project = project_scope (codes "palaver")

item-IsStored : IsStored (page_ids (page_item ∷ page_item ∷ [])) store.memories
unfolding palaver.Socket.Query.integer_eq
item-IsStored = record {
  natural = λ k. refl;
  stored = λ k e. let two : k ≡ 2 = ground (arith, e) in rw two (ap is_some instruction_stored);
  small = λ k e. let two : k ≡ 2 = ground (arith, e) in omega (arith, two);
}

tool_named : is_blank (codes "palaver_recall") ≡ false
unfolding is_blank
tool_named = refl

scope_named : is_blank (name_of project) ≡ false
unfolding is_blank
scope_named = refl

page_recorded_example :
    (payload : Fields) × (describe
        (codes "palaver_recall")
        (page_fields (λ i. end) project (page_item ∷ page_item ∷ []) null end)
      ≡ described payload)
    × ((apply_request true 30 (obj payload) connection).0
        ≡ recorded 1 (length (fromkeys (page_ids (page_item ∷ page_item ∷ [])))))
unfolding fromkeys apply_request describe
page_recorded_example =
    page_recorded (λ i. end) (codes "palaver_recall") project (page_item ∷ page_item ∷ []) null end
      30 connection tool_named scope_named item-IsStored (omega arith) tt
