-- ===== src/Summary/Recent.antt =====
-- palaver/summary/model.py: the list of recent activity, and the results that are folded into it.
use palaver.Prelude.{
  String, Bool, false, ◌&&◌, ◌||◌, Option, none, some, List, [], ◌∷◌, ◌++◌, if◌then◌else◌, Text,
  codes, text_eq,
}
use palaver.Json.{Value, null, str}
use palaver.Summary.Model.{
  Provenance, exact, RecentActivity, last_items, recent_activity_limit, sanitized,
}

-- `append_recent`, by the text as it is displayed.
unfoldable pub append_displayed :
    List RecentActivity → Text → Provenance → Text → Value → List RecentActivity
unfolding last_items
append_displayed current [] p kind id = current
append_displayed current (c ∷ s) p kind id =
    let item : RecentActivity = record {
      text = c ∷ s;
      provenance = p;
      evidence_kind = kind;
      evidence_id = id;
    } in
    last_items recent_activity_limit (current ++ item ∷ [])

-- `append_recent`.
unfoldable pub append_recent :
    List RecentActivity → Value → Provenance → Text → Value → List RecentActivity
unfolding append_displayed sanitized
append_recent current v p kind id = append_displayed current (sanitized v) p kind id

-- An identifier that is a string and this one.
unfoldable pub same_id : Text → Value → Bool
unfolding text_eq
same_id id (str t) = text_eq t id
same_id id _ = false

-- `"{item.text}: {rendered}"`, or the item's text if there is none.
result_text : Text → Text → Text
result_text t [] = t
result_text t (c ∷ s) = t ++ codes ": " ++ c ∷ s

-- An item whose result this is: a call with the identifier.
unfoldable pub is_call_of : Text → RecentActivity → Bool
unfolding same_id
is_call_of id item =
    same_id id item.evidence_id
    && (text_eq item.evidence_kind (codes "tool_use")
        || text_eq item.evidence_kind (codes "function_call"))

-- The item with its result.
unfoldable pub with_result : RecentActivity → Text → String → Text → RecentActivity
unfolding result_text
with_result item rendered kind id = record {
  text = result_text item.text rendered;
  provenance = item.provenance;
  evidence_kind = codes kind;
  evidence_id = str id;
}

-- The last call of the identifier with its result folded in, or `none`.
unfoldable pub fold_last : List RecentActivity → Text → String → Text → Option (List RecentActivity)
unfolding is_call_of with_result
fold_last [] rendered kind id = none
fold_last (item ∷ rest) rendered kind id = elim (fold_last rest rendered kind id) [
  | some later ↦ some (item ∷ later)
  | none ↦ if is_call_of id item then some (with_result item rendered kind id ∷ rest) else none
]

-- `fold_recent_result`; an identifier is passed only if it is a string.
unfoldable pub fold_recent_result :
    List RecentActivity → Value → String → Option Text → List RecentActivity
unfolding fold_last append_recent sanitized
fold_recent_result current v kind none =
    append_recent current (str (sanitized v)) exact (codes kind) null
fold_recent_result current v kind (some id) = elim (fold_last current (sanitized v) kind id) [
  | some folded ↦ folded
  | none ↦ append_recent current (str (sanitized v)) exact (codes kind) (str id)
]
