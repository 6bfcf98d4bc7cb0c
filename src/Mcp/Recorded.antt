-- ===== src/Mcp/Recorded.antt =====
-- The query event of a page of `recall` passes from palaver/mcp/query_events.py through
-- palaver/observer/socket/protocol.py into the tables.
use palaver.Prelude.{
  ℕ, suc, ◌<◌, true, false, some, List, [], ◌∷◌, ◌≡◌, refl, ap, ap₂, ◌∙◌, length, Text, codes,
  text_eq, is_blank, strip, lt→ltb,
}
use palaver.Json.{
  Value, null, int, str, arr, obj, Items, nil, cons, Fields, field, end, get, lookup, member,
  equals,
}
use palaver.Integers.{ℤ, pos, fits_int64}
use palaver.Socket.Connection.{Connection, recorded}
use palaver.Socket.Query.{
  Query, valid, check_query, integers, fromkeys, max_event_id, count_fits, record_checked,
  record_query, memory_ids_of, result_count_of, check_scope, stripped, text_of,
}
use palaver.Socket.Stored.{IsStored, References, record-IsStorable}
use palaver.Socket.Protocol.{Operation, operation, query_op, perform, reply_to, apply_request}
use palaver.Mcp.Recall.{Scope, project_scope, session_scope, echo, Item}
use palaver.Mcp.Describe.{described, describe, count_items, ids_of, event_payload}

-- The dictionaries of a page, where `others` are the columns of an item behind its id.
abbrev pub page_items : (Item → Fields) → List Item → Items
page_items others [] = nil
page_items others (i ∷ items) =
    cons (obj (field (codes "id") (int i.row.id) (others i))) (page_items others items)

-- The response of `paginate` for `recall`, with its extra keys.
abbrev pub page_fields : (Item → Fields) → Scope → List Item → Value → Fields → Fields
page_fields others scope items next_cursor extra = field (codes "scope") (echo scope) (
    field (codes "memories") (arr (page_items others items))
      (field (codes "next_cursor") next_cursor extra))

abbrev pub page_ids : List Item → List ℤ
page_ids [] = []
page_ids (i ∷ items) = pos i.row.id ∷ page_ids items

abbrev id_items : List Item → Items
id_items [] = nil
id_items (i ∷ items) = cons (int i.row.id) (id_items items)

abbrev kind_of : Scope → Text
kind_of (project_scope s) = codes "project"
kind_of (session_scope s) = codes "session"

abbrev pub name_of : Scope → Text
name_of (project_scope s) = s
name_of (session_scope s) = s

ids_of-page_items :
    (others : Item → Fields) (items : List Item) → ids_of (page_items others items) ≡ id_items items
unfolding ids_of text_eq
ids_of-page_items others [] = refl
ids_of-page_items others (i ∷ items) = ap (cons (int i.row.id)) (ids_of-page_items others items)

count-page_items :
    (others : Item → Fields) (items : List Item)
    → count_items (page_items others items) ≡ length items
unfolding count_items
count-page_items others [] = refl
count-page_items others (i ∷ items) = ap suc (count-page_items others items)

integers-id_items : (items : List Item) → integers (id_items items) ≡ some (page_ids items)
unfolding integers
integers-id_items [] = refl
integers-id_items (i ∷ items) = rw (integers-id_items items) refl

-- What the daemon is sent.
abbrev sent : Text → Scope → List Item → Fields
sent tool scope items =
    event_payload tool (kind_of scope) (str (name_of scope)) (int (length items)) (id_items items)

describe_page :
    (others : Item → Fields) (tool : Text) (scope : Scope) (items : List Item) (next_cursor : Value)
    (extra : Fields)
    → describe tool (page_fields others scope items next_cursor extra)
      ≡ described (sent tool scope items)
unfolding describe text_eq echo
describe_page others tool (project_scope s) items next_cursor extra =
    ap₂ (λ n ids. described (event_payload tool (codes "project") (str s) (int n) ids))
      (count-page_items others items) (ids_of-page_items others items)
describe_page others tool (session_scope s) items next_cursor extra =
    ap₂ (λ n ids. described (event_payload tool (codes "session") (str s) (int n) ids))
      (count-page_items others items) (ids_of-page_items others items)

-- The query that passes the checks.
abbrev asked : Text → Scope → List Item → Query
asked tool scope items = record {
  tool = strip tool;
  scope_kind = kind_of scope;
  scope_value = strip (name_of scope);
  result_count = some (length items);
  memory_ids = page_ids items;
}

check_sent :
    (tool : Text) (scope : Scope) (items : List Item)
    → is_blank tool ≡ false
    → is_blank (name_of scope) ≡ false
    → check_query (sent tool scope items) ≡ valid (asked tool scope items)
unfolding check_query text_eq event_payload get stripped check_scope memory_ids_of
    palaver.Json.hashable palaver.Json.equals_any palaver.Json.equals palaver.Json.lookup
    palaver.Json.member result_count_of text_of
check_sent tool (project_scope s) items t n =
    rw (t, check_query, n, check_scope, integers-id_items items, memory_ids_of) refl
check_sent tool (session_scope s) items t n =
    rw (t, check_query, n, check_scope, integers-id_items items, memory_ids_of) refl

sent_op :
    (tool : Text) (scope : Scope) (items : List Item)
    → operation (get (sent tool scope items) "op") ≡ query_op
unfolding operation text_eq event_payload get
sent_op tool scope items = refl

performs_query :
    (now : ℕ) (payload : Fields) (c : Connection) (o : Operation) (q : Query)
    → o ≡ query_op
    → check_query payload ≡ valid q
    → perform true now payload c o ≡ record_checked true c (valid q)
unfolding perform record_query
performs_query now payload c o q op asked = rw (op, perform, asked) refl

-- When the daemon's commit works, the query event that describes a page of `recall` is accepted, as
-- the next event, and counts each memory of the page once: the tool's name and the scope's are not
-- blank, the memories of the page are stored, and what the query events reference exists.
pub page_recorded :
    (others : Item → Fields) (tool : Text) (scope : Scope) (items : List Item) (next_cursor : Value)
    (extra : Fields) (now : ℕ) (c : Connection)
    → is_blank tool ≡ false
    → is_blank (name_of scope) ≡ false
    → IsStored (page_ids items) c.current.store.memories
    → length items < 0x8000000000000000
    → References c.current.query_events c.current.query_event_memories
    → (payload : Fields) × (describe tool (page_fields others scope items next_cursor extra)
        ≡ described payload)
      × ((apply_request true now (obj payload) c).0
          ≡ recorded
              (suc (max_event_id c.current.query_events))
              (length (fromkeys (page_ids items))))
unfolding apply_request count_fits fits_int64
page_recorded others tool scope items next_cursor extra now c t n stored few references = (
  sent tool scope items,
  describe_page others tool scope items next_cursor extra,
  ap (λ a. (reply_to a).0)
        (performs_query now (sent tool scope items) c (operation (get (sent tool scope items) "op"))
          (asked tool scope items) (sent_op tool scope items) (check_sent tool scope items t n))
      ∙ record-IsStorable (asked tool scope items) c (record {
        counted = lt→ltb (length items) 0x8000000000000000 few;
        ids = stored;
        references = references;
      }),
)
