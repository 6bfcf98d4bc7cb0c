-- ===== src/Extract/State.antt =====
-- `upsert_current_state` of palaver/extract/persist.py.
use palaver.Prelude.{
  ℕ, suc, max, Bool, true, false, ◌&&◌, ◌==◌, Option, none, some, List, [], ◌∷◌, if◌then◌else◌,
  Text, text_eq,
}
use palaver.Memory.Tables.{StateRow, Store}

-- Whose state it is: a project, a session or none, and a key.
pub record StateScope : Type 0 where
  pub project_id : ℕ
  pub session_id : Option ℕ
  pub key : Text

-- SQL's `IS`: NULL is NULL.
unfoldable pub same_session : Option ℕ → Option ℕ → Bool
same_session none none = true
same_session (some a) (some b) = a == b
same_session _ _ = false

-- `project_id = ? AND session_id IS ? AND key = ?`.
unfoldable pub in_scope : StateScope → StateRow → Bool
in_scope c r =
    r.project_id == c.project_id && (same_session r.session_id c.session_id && text_eq r.key c.key)

unfoldable pub find_state : StateScope → List StateRow → Option ℕ
find_state c [] = none
find_state c (r ∷ rs) = if in_scope c r then some r.id else find_state c rs

-- `UPDATE current_state SET value = ?, updated_at = <now> WHERE id = ?`.
unfoldable pub update_row : ℕ → Text → ℕ → StateRow → StateRow
update_row k value now r = if r.id == k then record r { value = value; updated_at = now } else r

unfoldable pub update_state : ℕ → Text → ℕ → List StateRow → List StateRow
update_state k value now [] = []
update_state k value now (r ∷ rs) = update_row k value now r ∷ update_state k value now rs

unfoldable pub max_state_id : List StateRow → ℕ
max_state_id [] = 0
max_state_id (r ∷ rs) = max r.id (max_state_id rs)

-- The row that the INSERT writes.
unfoldable pub new_state_row : StateScope → Text → ℕ → List StateRow → StateRow
new_state_row c value now rs = record {
  id = suc (max_state_id rs);
  project_id = c.project_id;
  session_id = c.session_id;
  key = c.key;
  value = value;
  updated_at = now;
}

unfoldable pub upsert_rows : StateScope → Text → ℕ → List StateRow → List StateRow
upsert_rows c value now rs = elim (find_state c rs) [
  | none ↦ new_state_row c value now rs ∷ rs
  | some k ↦ update_state k value now rs
]

-- `upsert_current_state`.
unfoldable pub upsert_current_state : StateScope → Text → ℕ → Store → Store
upsert_current_state c value now db = record db {
  current_state = upsert_rows c value now db.current_state;
}
