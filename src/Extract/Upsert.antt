-- ===== src/Extract/Upsert.antt =====
-- `current_state` as a map from scopes to values, under `upsert_current_state`.
use palaver.Prelude.{
  ℕ, ◌<◌, true, false, none, some, List, [], ◌∷◌, ◌≡◌, ◌≢◌, refl, ap, arith, Text, Bool-cases,
  Option-cases, inl, inr, All,
}
use palaver.Memory.Tables.{StateRow, Store}
use palaver.Extract.State.{
  StateScope, in_scope, find_state, update_state, max_state_id, new_state_row, upsert_rows,
  upsert_current_state,
}
use palaver.Extract.Scopes.{
  state_value, scope_of, IsDistinct, in_scope-eq, in_scope_self, apart, update_state_value,
  update_state-IsDistinct,
}

new_scope : (n x : StateRow) → in_scope (scope_of n) x ≡ false → in_scope (scope_of x) n ≡ false
new_scope n x e = elim (Bool-cases (in_scope (scope_of x) n)) [
  | inl e' ↦
      let same : scope_of x ≡ scope_of n = in_scope-eq (scope_of x) n e' in
      absurd (ground (arith, ap (λ c. in_scope c x) same, in_scope_self x))
  | inr e' ↦ e'
]

-- A new row apart from those of other scopes.
new_apart :
    (n : StateRow) (rs : List StateRow)
    → find_state (scope_of n) rs ≡ none
    → max_state_id rs < n.id
    → All (λ (x : StateRow). (x.id ≢ n.id) × (in_scope (scope_of x) n ≡ false)) rs
unfolding find_state max_state_id
new_apart n [] h above = tt
new_apart n (x ∷ xs) h above = elim (Bool-cases (in_scope (scope_of n) x)) [
  | inl e ↦ absurd (ground (arith, e))
  | inr e ↦ ((omega arith, new_scope n x e), new_apart n xs (rw (e, find_state) at h) (omega arith))
]

upsert_new :
    (c : StateScope) (value : Text) (now : ℕ) (rs : List StateRow)
    → find_state c rs ≡ none
    → upsert_rows c value now rs ≡ new_state_row c value now rs ∷ rs
unfolding upsert_rows
upsert_new c value now rs h = rw (h, upsert_rows) refl

upsert_old :
    (c : StateScope) (value : Text) (now : ℕ) (rs : List StateRow) (k : ℕ)
    → find_state c rs ≡ some k
    → upsert_rows c value now rs ≡ update_state k value now rs
unfolding upsert_rows
upsert_old c value now rs k h = rw (h, upsert_rows) refl

new_row_value :
    (c c' : StateScope) (value : Text) (now : ℕ) (rs ms : List StateRow)
    → let after = new_state_row c value now rs ∷ ms in
      ((c' ≡ c) → state_value c' after ≡ some value)
      × ((c' ≢ c) → state_value c' after ≡ state_value c' ms)
unfolding state_value new_state_row scope_of
new_row_value c c' value now rs ms =
    let n = new_state_row c value now rs in
    let self : in_scope c n ≡ true = in_scope_self n in
    (
      λ same. let here : in_scope c' n ≡ true = rw same self in rw here refl,
      λ other. let away : in_scope c' n ≡ false = apart c c' n other self in rw away refl,
    )

new_row-IsDistinct :
    (c : StateScope) (value : Text) (now : ℕ) (rs : List StateRow)
    → find_state c rs ≡ none
    → IsDistinct rs
    → IsDistinct (new_state_row c value now rs ∷ rs)
unfolding new_state_row scope_of
new_row-IsDistinct c value now rs h d =
    (new_apart (new_state_row c value now rs) rs h (omega arith), d)

-- `current_state` is a map from scopes to values, and `upsert_current_state` sets one: on rows that
-- have ids and scopes of their own it leaves such rows, on which the scope reads the new value and
-- every other scope what it read before.
pub upsert_current_state_lem :
    (c c' : StateScope) (value : Text) (now : ℕ) (db : Store)
    → IsDistinct db.current_state
    → let after = (upsert_current_state c value now db).current_state in
      IsDistinct after
      × ((c' ≡ c) → state_value c' after ≡ some value)
      × ((c' ≢ c) → state_value c' after ≡ state_value c' db.current_state)
unfolding upsert_current_state
upsert_current_state_lem c c' value now db d =
    let rs = db.current_state in
    elim (Option-cases (find_state c rs)) [
      | inl missing ↦ rw (upsert_new c value now rs missing) (
        new_row-IsDistinct c value now rs missing d,
        (new_row_value c c' value now rs rs).0,
        (new_row_value c c' value now rs rs).1,
      )
      | inr (k, found) ↦ rw (upsert_old c value now rs k found) (
        update_state-IsDistinct k value now rs d,
        (update_state_value c c' k value now rs d found).0,
        (update_state_value c c' k value now rs d found).1,
      )
    ]
