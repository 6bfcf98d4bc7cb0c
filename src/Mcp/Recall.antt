-- ===== src/Mcp/Recall.antt =====
-- `parse_scope`, `resolve_session_id` and `recall` of palaver/mcp/tools_read.py.
use palaver.Prelude.{
  ℕ, Bool, true, false, ◌&&◌, ◌||◌, Option, none, some, List, [], ◌∷◌, ◌==◌, if◌then◌else◌, Text,
  codes, text_eq, strip, is_blank,
}
use palaver.Json.{Value, null, str, obj, Fields, field, end, lookup}
use palaver.Integers.{ℤ, pos, negsuc, fits_int64}
use palaver.Memory.Tables.{Memory, Project, Session, Store}
use palaver.Memory.Scope.{Page, rows, read_memories}
use palaver.Mcp.Cursor.{Codec, decode_cursor}
use palaver.Mcp.Pages.{Response, Sizes, Paged, page, response_budget, paginate}

-- A scope that `parse_scope` accepts.
pub data Scope : Type 0 where
  project_scope session_scope : Text → Scope

unfoldable pub known_keys : Fields → Bool
known_keys end = true
known_keys (field k v fs) =
    (text_eq k (codes "project") || text_eq k (codes "session")) && known_keys fs

unfoldable pub scope_text : Value → Option Text
scope_text (str s) = if is_blank s then none else some (strip s)
scope_text _ = none

unfoldable pub one_scope : Option Value → Option Value → Option Scope
unfolding scope_text
one_scope (some v) none = elim (scope_text v) [ none ↦ none | some s ↦ some (project_scope s) ]
one_scope none (some v) = elim (scope_text v) [ none ↦ none | some s ↦ some (session_scope s) ]
one_scope _ _ = none

-- `none` is `ScopeError`.
unfoldable pub parse_scope : Value → Option Scope
unfolding known_keys one_scope lookup
parse_scope (obj fs) =
    if known_keys fs then one_scope (lookup fs "project") (lookup fs "session") else none
parse_scope _ = none

-- What the response echoes, and the cursor is bound to.
unfoldable pub echo : Scope → Value
echo (project_scope s) = obj (field (codes "project") (str s) end)
echo (session_scope s) = obj (field (codes "session") (str s) end)

-- The parts around the last slash, if there is one.
unfoldable pub split_last_slash : Text → Option (Text × Text)
split_last_slash [] = none
split_last_slash (c ∷ s) = elim (split_last_slash s) [
  | none ↦ if c == 47 then some ([], s) else none
  | some (head, tail) ↦ some (c ∷ head, tail)
]

-- `session.rpartition("/")`, without the middle.
unfoldable pub rpartition : Text → Text × Text
unfolding split_last_slash
rpartition s = elim (split_last_slash s) [ none ↦ ([], s) | some parts ↦ parts ]

unfoldable pub names_project : Text → ℕ → List Project → Bool
names_project name k [] = false
names_project name k (p ∷ ps) =
    (p.id == k && (text_eq name [] || text_eq p.name name)) || names_project name k ps

unfoldable pub has_external_id : Text → Option Text → Bool
has_external_id s none = false
has_external_id s (some t) = text_eq t s

-- The rows of the join, by their ids.
unfoldable pub matching_sessions : Text → Text → List Project → List Session → List ℕ
unfolding names_project has_external_id
matching_sessions name external_id ps [] = []
matching_sessions name external_id ps (s ∷ ss) =
    let rest = matching_sessions name external_id ps ss in
    if has_external_id external_id s.external_id && names_project name s.project_id ps
    then s.id ∷ rest
    else rest

unfoldable pub the_only : List ℕ → Option ℕ
the_only (k ∷ []) = some k
the_only _ = none

-- `none` is `SessionLookupError`.
unfoldable pub resolve_session_id : Store → Text → Option ℕ
unfolding rpartition matching_sessions the_only
resolve_session_id db session =
    let parts = rpartition session in
    if text_eq parts.1 []
    then none
    else the_only (matching_sessions parts.0 parts.1 db.projects db.sessions)

-- `tier_name`; `none` is its `ValueError`.
unfoldable pub tier_name : ℕ → Option Text
tier_name tier =
    if tier == 1
    then some (codes "user_instruction")
    else if tier == 2
    then some (codes "agent_conclusion")
    else if tier == 3
    then some (codes "observed_result")
    else if tier == 4
    then some (codes "observer_inference")
    else if tier == 5
    then some (codes "observer_speculation")
    else none

-- A row as the response has it.
pub record Item : Type 0 where
  pub row : Memory
  pub tier_name : Text

unfoldable pub items_of : List Memory → Option (List (ℕ × Item))
unfolding tier_name
items_of [] = some []
items_of (m ∷ ms) =
    let rest = items_of ms in
    elim (tier_name m.tier) [
      | none ↦ none
      | some name ↦ elim rest [
        | none ↦ none
        | some items ↦ some ((m.id, record { row = m; tier_name = name }) ∷ items)
      ]
    ]

pub data RecallError : Type 0 where
  scope_error cursor_error session_lookup_error lookup_error overflow_error tier_error : RecallError
  page_error : Paged Item → RecallError

pub data Recalled : Type 0 where
  response : Response Item → Recalled
  recall_raised : RecallError → Recalled

-- `cursor is None`; else the position in the cursor.
unfoldable pub position : Codec → Value → Value → Option ℤ
unfolding decode_cursor
position codec null scope = some (pos 0)
position codec cursor scope = decode_cursor codec cursor scope

-- Every id is above a negative position.
unfoldable pub after_position : ℤ → ℕ
after_position (pos n) = n
after_position (negsuc n) = 0

unfoldable pub respond : Paged Item → Recalled
respond (page r) = response r
respond p = recall_raised (page_error p)

-- The rows of a scope, once the scope is found; a position that SQLite cannot bind raises then.
unfoldable pub paged_rows : Codec → Sizes Item → Value → Bool → Page → Recalled
unfolding items_of paginate respond
paged_rows codec sizes scope true (rows ms) = elim (items_of ms) [
  | none ↦ recall_raised tier_error
  | some items ↦ respond (paginate codec sizes response_budget scope items)
]
paged_rows codec sizes scope false (rows ms) = recall_raised overflow_error
paged_rows codec sizes scope fits _ = recall_raised lookup_error

unfoldable pub read_scope : Codec → Sizes Item → Store → Scope → ℤ → Recalled
unfolding paged_rows echo resolve_session_id after_position fits_int64
read_scope codec sizes db (project_scope name) k =
    paged_rows codec sizes (echo (project_scope name)) (fits_int64 k)
      (read_memories (some name) none (after_position k) db)
read_scope codec sizes db (session_scope session) k = elim (resolve_session_id db session) [
  | none ↦ recall_raised session_lookup_error
  | some session_id ↦
      paged_rows codec sizes (echo (session_scope session)) (fits_int64 k)
        (read_memories none (some session_id) (after_position k) db)
]

unfoldable pub recall_from : Codec → Sizes Item → Store → Scope → Value → Recalled
unfolding read_scope position echo
recall_from codec sizes db scope cursor = elim (position codec cursor (echo scope)) [
  | none ↦ recall_raised cursor_error
  | some k ↦ read_scope codec sizes db scope k
]

unfoldable pub recall : Codec → Sizes Item → Store → Value → Value → Recalled
unfolding recall_from parse_scope
recall codec sizes db scope cursor = elim (parse_scope scope) [
  | none ↦ recall_raised scope_error
  | some s ↦ recall_from codec sizes db s cursor
]
