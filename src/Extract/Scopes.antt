-- ===== src/Extract/Scopes.antt =====
-- `current_state` as a map from scopes to values: the rows that an UPDATE changes.
use palaver.Prelude.{
  ℕ, true, false, ◌==◌, Option, none, some, List, [], ◌∷◌, ◌≡◌, ◌≢◌, refl, sym, ◌∙◌, arith,
  if◌then◌else◌, Text, eq_of_text_eq, text_eq_refl, Bool-cases, Option-cases, inl, inr, All,
}
use palaver.Memory.Tables.{StateRow}
use palaver.Extract.State.{StateScope, same_session, in_scope, find_state, update_row, update_state}

-- The value that the first row of a scope holds.
unfoldable pub state_value : StateScope → List StateRow → Option Text
state_value c [] = none
state_value c (r ∷ rs) = if in_scope c r then some r.value else state_value c rs

unfoldable pub scope_of : StateRow → StateScope
scope_of r = record { project_id = r.project_id; session_id = r.session_id; key = r.key }

-- Rows with an id of their own and a scope of their own.
abbrev pub IsDistinct : List StateRow → Type 0
IsDistinct [] = Unit
IsDistinct (r ∷ rs) =
    All (λ (x : StateRow). (x.id ≢ r.id) × (in_scope (scope_of x) r ≡ false)) rs × IsDistinct rs

same_session-eq : (a b : Option ℕ) → same_session a b ≡ true → a ≡ b
unfolding same_session
same_session-eq none none h = refl
same_session-eq (some a) (some b) h = ground arith
same_session-eq none (some b) h = cc
same_session-eq (some a) none h = cc

pub in_scope-eq : (c : StateScope) (r : StateRow) → in_scope c r ≡ true → c ≡ scope_of r
unfolding in_scope scope_of
in_scope-eq c r h =
    ground (arith, same_session-eq r.session_id c.session_id, eq_of_text_eq r.key c.key)

pub in_scope_self : (r : StateRow) → in_scope (scope_of r) r ≡ true
unfolding in_scope scope_of same_session
in_scope_self r = elim (Option-cases r.session_id) [
  | inl e ↦ rw (e, text_eq_refl r.key) (ground arith)
  | inr (k, e) ↦ rw (e, text_eq_refl r.key) (ground arith)
]

-- The row that a lookup finds, among rows that all have a property.
find_state-All {ℓ} :
    (P : StateRow → Type ℓ) (c : StateScope) (rs : List StateRow) (k : ℕ)
    → find_state c rs ≡ some k
    → All P rs
    → (x : StateRow) × P x × (x.id ≡ k)
unfolding find_state
find_state-All P c [] k h all = cc
find_state-All P c (r ∷ rs) k h (p, all) = elim (Bool-cases (in_scope c r)) [
  | inl e ↦ (r, p, ground (arith, e))
  | inr e ↦ find_state-All P c rs k (rw (e, find_state) at h) all
]

-- An UPDATE of one row leaves its id and its scope.
in_scope-update_row :
    (k : ℕ) (value : Text) (now : ℕ) (c : StateScope) (r : StateRow)
    → in_scope c (update_row k value now r) ≡ in_scope c r
unfolding update_row in_scope
in_scope-update_row k value now c r = elim (Bool-cases (r.id == k)) [
  | inl e ↦ rw e refl
  | inr e ↦ rw e refl
]

update_row-core :
    (k : ℕ) (value : Text) (now : ℕ) (r : StateRow)
    → ((update_row k value now r).id ≡ r.id) × (scope_of (update_row k value now r) ≡ scope_of r)
unfolding update_row scope_of
update_row-core k value now r = elim (Bool-cases (r.id == k)) [
  | inl e ↦ rw e (refl, refl)
  | inr e ↦ rw e (refl, refl)
]

update_row-value :
    (k : ℕ) (value : Text) (now : ℕ) (r : StateRow)
    → (update_row k value now r).value ≡ (if r.id == k then value else r.value)
unfolding update_row
update_row-value k value now r = elim (Bool-cases (r.id == k)) [
  | inl e ↦ rw e refl
  | inr e ↦ rw e refl
]

-- No row but the updated one changes its value.
update_state_away :
    (c : StateScope) (k : ℕ) (value : Text) (now : ℕ) (rs : List StateRow)
    → All (λ (x : StateRow). x.id ≢ k) rs
    → state_value c (update_state k value now rs) ≡ state_value c rs
unfolding state_value update_state
update_state_away c k value now [] all = refl
update_state_away c k value now (r ∷ rs) (ne, all) = ground (
  arith,
  in_scope-update_row k value now c r,
  update_row-value k value now r,
  update_state_away c k value now rs all,
)

others :
    (r : StateRow) (rs : List StateRow)
    → All (λ (x : StateRow). (x.id ≢ r.id) × (in_scope (scope_of x) r ≡ false)) rs
    → All (λ (x : StateRow). x.id ≢ r.id) rs
others r [] all = tt
others r (x ∷ xs) (p, all) = (p.0, others r xs all)

no_row : (c : StateScope) (k : ℕ) → find_state c [] ≡ some k → ⊥
unfolding find_state
no_row c k h = cc

head_row :
    (c : StateScope) (r : StateRow) (rs : List StateRow) (k : ℕ)
    → in_scope c r ≡ true
    → find_state c (r ∷ rs) ≡ some k
    → r.id ≡ k
unfolding find_state
head_row c r rs k e h = ground (arith, e)

pub apart :
    (c c' : StateScope) (r : StateRow) → c' ≢ c → in_scope c r ≡ true → in_scope c' r ≡ false
apart c c' r ne e = elim (Bool-cases (in_scope c' r)) [
  | inl e' ↦ absurd (ne (in_scope-eq c' r e' ∙ sym (in_scope-eq c r e)))
  | inr e' ↦ e'
]

-- The updated row's scope reads the new value, and any other scope what it read.
pub update_state_value :
    (c c' : StateScope) (k : ℕ) (value : Text) (now : ℕ) (rs : List StateRow)
    → IsDistinct rs
    → find_state c rs ≡ some k
    → ((c' ≡ c) → state_value c' (update_state k value now rs) ≡ some value)
      × ((c' ≢ c) → state_value c' (update_state k value now rs) ≡ state_value c' rs)
unfolding state_value update_state find_state
update_state_value c c' k value now [] d h = absurd (no_row c k h)
update_state_value c c' k value now (r ∷ rs) (alone, d) h = elim (Bool-cases (in_scope c r)) [
  | inl e ↦
      let id : r.id ≡ k = head_row c r rs k e h in
      let away : state_value c' (update_state k value now rs) ≡ state_value c' rs =
        rw (sym id) (update_state_away c' r.id value now rs (others r rs alone)) in
      (
        λ same.
            let here : in_scope c' r ≡ true = rw same e in
            rw (in_scope-update_row k value now c' r, here, update_row-value k value now r, id)
              (ground arith),
        λ other.
            let not_here : in_scope c' r ≡ false = apart c c' r other e in
            rw (in_scope-update_row k value now c' r, not_here) away,
      )
  | inr e ↦
      let rest : find_state c rs ≡ some k = rw (e, find_state) at h in
      let (x, p, found) = find_state-All _ c rs k rest alone in
      let ne : (r.id == k) ≡ false = ground arith in
      let (self, other) = update_state_value c c' k value now rs d rest in
      (
        λ same.
            let not_here : in_scope c' r ≡ false = rw same e in
            rw (in_scope-update_row k value now c' r, not_here) (self same),
        λ apart.
            rw
              (
                in_scope-update_row k value now c' r,
                update_row-value k value now r,
                ne,
                other apart,
              )
              refl,
      )
]

update_state-apart :
    (k : ℕ) (value : Text) (now : ℕ) (r : StateRow) (rs : List StateRow)
    → All (λ (x : StateRow). (x.id ≢ r.id) × (in_scope (scope_of x) r ≡ false)) rs
    → All
        (λ (x : StateRow).
          (x.id ≢ (update_row k value now r).id)
          × (in_scope (scope_of x) (update_row k value now r) ≡ false))
        (update_state k value now rs)
unfolding update_state
update_state-apart k value now r [] all = tt
update_state-apart k value now r (x ∷ xs) ((ne, out), all) =
    let (id, scope) = update_row-core k value now x in
    let (id', scope') = update_row-core k value now r in
    (
      (
        rw (id, id') ne,
        rw (in_scope-update_row k value now (scope_of (update_row k value now x)) r, scope) out,
      ),
      update_state-apart k value now r xs all,
    )

pub update_state-IsDistinct :
    (k : ℕ) (value : Text) (now : ℕ) (rs : List StateRow)
    → IsDistinct rs
    → IsDistinct (update_state k value now rs)
unfolding update_state
update_state-IsDistinct k value now [] d = tt
update_state-IsDistinct k value now (r ∷ rs) (alone, d) =
    (update_state-apart k value now r rs alone, update_state-IsDistinct k value now rs d)
