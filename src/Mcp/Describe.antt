-- ===== src/Mcp/Describe.antt =====
-- `describe` of palaver/mcp/query_events.py.
use palaver.Prelude.{ℕ, suc, Option, none, some, if◌then◌else◌, Text, codes}
use palaver.Json.{
  Value, null, bool, int, neg, str, arr, obj, Items, nil, cons, Fields, field, end, get, truthy,
}

-- The payload, a result whose scope has not one key, or the `TypeError` of a `memories` that cannot
-- be iterated.
pub data Described : Type 0 where
  described : Fields → Described
  dropped described_raises : Described

unfoldable pub count_items : Items → ℕ
count_items nil = 0
count_items (cons v vs) = suc (count_items vs)

-- The first of `memories` and `sessions` that is a list, by its length.
unfoldable pub result_count : Value → Value → Value
unfolding count_items
result_count (arr memories) sessions = int (count_items memories)
result_count _ (arr sessions) = int (count_items sessions)
result_count _ _ = null

-- `item["id"]`, where the item is a mapping and that an integer, which a `bool` is too.
unfoldable pub id_in_front : Value → Items → Items
id_in_front (int n) ids = cons (int n) ids
id_in_front (neg n) ids = cons (neg n) ids
id_in_front (bool b) ids = cons (bool b) ids
id_in_front _ ids = ids

unfoldable pub ids_of : Items → Items
unfolding id_in_front get
ids_of nil = nil
ids_of (cons (obj item) vs) = id_in_front (get item "id") (ids_of vs)
ids_of (cons _ vs) = ids_of vs

-- The items of `result.get("memories") or []`: the characters of a string and the keys of a
-- dictionary are no mappings; a number that is not zero, or `True`, cannot be iterated.
unfoldable pub described_ids : Value → Option Items
unfolding ids_of truthy
described_ids (arr vs) = some (ids_of vs)
described_ids (str s) = some nil
described_ids (obj fs) = some nil
described_ids v = if truthy v then none else some nil

unfoldable pub event_payload : Text → Text → Value → Value → Items → Fields
event_payload tool scope_kind scope_value count ids = field (codes "op") (str (codes "query")) (
    field (codes "tool") (str tool) (
      field (codes "scope_kind") (str scope_kind) (
        field (codes "scope_value") scope_value
          (field (codes "result_count") count (field (codes "memory_ids") (arr ids) end)))))

unfoldable pub describe : Text → Fields → Described
unfolding result_count described_ids event_payload get
describe tool result = elim (get result "scope") [
  | obj (field scope_kind scope_value end) ↦ elim (described_ids (get result "memories")) [
    | none ↦ described_raises
    | some ids ↦ described (
        event_payload tool scope_kind scope_value
          (result_count (get result "memories") (get result "sessions")) ids)
  ]
  | _ ↦ dropped
]
