-- ===== src/Memory/Scope.antt =====
-- `read_memories` of palaver/memory/scope.py.
use palaver.Prelude.{
  ℕ, ltb, Bool, true, false, ◌&&◌, ◌==◌, Option, none, some, List, [], ◌∷◌, if◌then◌else◌, Text,
  text_eq,
}
use palaver.Memory.Tables.{Memory, Project, Session, Store}

-- `ValueError`, `LookupError`, or the rows.
pub data Page : Type 0 where
  ambiguous_scope : Page
  no_such_scope : Page
  rows : List Memory → Page

-- `SELECT id FROM projects WHERE name = ?`.
unfoldable pub find_project : Text → List Project → Option ℕ
find_project name [] = none
find_project name (p ∷ ps) = if text_eq p.name name then some p.id else find_project name ps

-- `SELECT id FROM sessions WHERE id = ?`.
unfoldable pub session_exists : ℕ → List Session → Bool
session_exists k [] = false
session_exists k (s ∷ ss) = if s.id == k then true else session_exists k ss

-- `ORDER BY id`: a row put among rows in that order.
unfoldable pub insert_by_id : Memory → List Memory → List Memory
insert_by_id m [] = m ∷ []
insert_by_id m (x ∷ xs) =
    let rest = insert_by_id m xs in if ltb m.id x.id then m ∷ x ∷ xs else x ∷ rest

-- `SELECT ... WHERE <scope> AND id > ? ORDER BY id`.
unfoldable pub scoped_rows : (Memory → Bool) → ℕ → List Memory → List Memory
scoped_rows in_scope after_id [] = []
scoped_rows in_scope after_id (m ∷ ms) =
    let rest = scoped_rows in_scope after_id ms in
    if in_scope m && ltb after_id m.id then insert_by_id m rest else rest

unfoldable pub in_project : ℕ → Memory → Bool
in_project k m = m.project_id == k

unfoldable pub in_session : ℕ → Memory → Bool
in_session k m = elim m.session_id [ none ↦ false | some s ↦ s == k ]

unfoldable pub read_memories : Option Text → Option ℕ → ℕ → Store → Page
read_memories none none after_id db = ambiguous_scope
read_memories (some name) (some session) after_id db = ambiguous_scope
read_memories (some name) none after_id db = elim (find_project name db.projects) [
  | none ↦ no_such_scope
  | some k ↦ rows (scoped_rows (in_project k) after_id db.memories)
]
read_memories none (some session) after_id db =
    if session_exists session db.sessions
    then rows (scoped_rows (in_session session) after_id db.memories)
    else no_such_scope
