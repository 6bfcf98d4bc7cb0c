-- ===== src/Mcp/Order.antt =====
-- The rows of a scope, as the query of palaver/memory/scope.py gives them, past a later row.
use palaver.Prelude.{
  ℕ, ltb, ◌<◌, ◌≤◌, Bool, false, ◌&&◌, none, List, [], ◌∷◌, ◌++◌, ◌≡◌, refl, arith, if◌then◌else◌,
  All, Bool-cases, inl, inr, lt→ltb, le→ltb, ◌==◌,
}
use palaver.Memory.Tables.{Memory, Evidence, find_memory, max_id}
use palaver.Memory.Integrity.{IsSound}
use palaver.Memory.Scope.{insert_by_id, scoped_rows}

-- The rows with a greater id.
abbrev pub above : ℕ → List Memory → List Memory
above k [] = []
above k (m ∷ ms) = if ltb k m.id then m ∷ above k ms else above k ms

-- In strictly increasing order of ids, all greater than `k`.
abbrev pub Rising : ℕ → List Memory → Type 0
Rising k [] = Unit
Rising k (m ∷ ms) = (k < m.id) × Rising m.id ms

above-insert_by_id :
    (k : ℕ) (m : Memory) (ms : List Memory)
    → above k (insert_by_id m ms) ≡ (if ltb k m.id then insert_by_id m (above k ms) else above k ms)
unfolding insert_by_id
above-insert_by_id k m [] = refl
above-insert_by_id k m (x ∷ ms) = ground (arith, above-insert_by_id k m ms)

pub above-scoped_rows :
    (f : Memory → Bool) (a b : ℕ) (ms : List Memory)
    → a ≤ b
    → above b (scoped_rows f a ms) ≡ scoped_rows f b ms
unfolding scoped_rows
above-scoped_rows f a b [] h = refl
above-scoped_rows f a b (m ∷ ms) h =
    ground (arith, above-insert_by_id b m (scoped_rows f a ms), above-scoped_rows f a b ms)

above-Rising : (j k : ℕ) (ms : List Memory) → j ≤ k → Rising k ms → above j ms ≡ ms
above-Rising j k [] h r = refl
above-Rising j k (m ∷ ms) h (low, r) =
    rw (lt→ltb j m.id (omega arith), above-Rising j m.id ms (omega arith) r) refl

-- The id of a page's last row.
abbrev pub last_id : ℕ → List Memory → ℕ
last_id k [] = k
last_id k (m ∷ ms) = last_id m.id ms

-- Past the last of a prefix the rest remains.
pub above_last :
    (k : ℕ) (front rest : List Memory)
    → Rising k (front ++ rest)
    → (k ≤ last_id k front) × (above (last_id k front) (front ++ rest) ≡ rest)
above_last k [] rest r = (omega arith, above-Rising k k rest (omega arith) r)
above_last k (m ∷ front) rest (low, r) =
    let (higher, e) = above_last m.id front rest r in
    (omega arith, rw (le→ltb (last_id m.id front) m.id higher) e)

pub insert-All :
    (P : Memory → Type 0) (m : Memory) (ms : List Memory)
    → P m
    → All P ms
    → All P (insert_by_id m ms)
unfolding insert_by_id
insert-All P m [] p ps = (p, tt)
insert-All P m (x ∷ ms) p (q, ps) = elim (Bool-cases (ltb m.id x.id)) [
  | inl b ↦ rw b (p, (q, ps))
  | inr b ↦ rw b (q, insert-All P m ms p ps)
]

-- What holds of every row holds of a scope's.
pub scoped_rows-All :
    (P : Memory → Type 0) (f : Memory → Bool) (a : ℕ) (ms : List Memory)
    → All P ms
    → All P (scoped_rows f a ms)
unfolding scoped_rows
scoped_rows-All P f a [] ps = tt
scoped_rows-All P f a (m ∷ ms) (p, ps) = elim (Bool-cases (f m && ltb a m.id)) [
  | inl b ↦ rw b (insert-All P m (scoped_rows f a ms) p (scoped_rows-All P f a ms ps))
  | inr b ↦ rw b (scoped_rows-All P f a ms ps)
]

-- No row has the id.
abbrev Lacks : ℕ → List Memory → Type 0
Lacks k ms = All (λ m. (m.id == k) ≡ false) ms

find-Lacks : (k : ℕ) (ms : List Memory) → find_memory k ms ≡ none → Lacks k ms
unfolding find_memory
find-Lacks k [] h = tt
find-Lacks k (m ∷ ms) h = elim (Bool-cases (m.id == k)) [
  | inl e ↦ absurd (ground (arith, e))
  | inr e ↦ (e, find-Lacks k ms (ground (arith, e)))
]

insert-Rising :
    (k : ℕ) (m : Memory) (ms : List Memory)
    → k < m.id
    → Lacks m.id ms
    → Rising k ms
    → Rising k (insert_by_id m ms)
unfolding insert_by_id
insert-Rising k m [] h l r = (h, tt)
insert-Rising k m (x ∷ ms) h (e, l) (low, r) = elim (Bool-cases (ltb m.id x.id)) [
  | inl b ↦ rw b (h, (ground (arith, b), r))
  | inr b ↦ rw b (low, insert-Rising x.id m ms (ground (arith, b, e)) l r)
]

-- The rows come in strictly increasing order of their ids.
pub scoped_rows-Rising :
    (f : Memory → Bool) (a : ℕ) (es : List Evidence) (ms : List Memory)
    → IsSound es ms
    → Rising a (scoped_rows f a ms)
unfolding scoped_rows
scoped_rows-Rising f a es [] sound = tt
scoped_rows-Rising f a es (m ∷ ms) (row, sound) = elim (Bool-cases (f m && ltb a m.id)) [
  | inl b ↦ rw b (
      insert-Rising a m (scoped_rows f a ms) (ground (arith, b))
        (scoped_rows-All (λ x. (x.id == m.id) ≡ false) f a ms (find-Lacks m.id ms row.fresh))
        (scoped_rows-Rising f a es ms sound))
  | inr b ↦ rw b (scoped_rows-Rising f a es ms sound)
]

-- Rows with a tier from 1 to 5.
abbrev pub Tiered : List Memory → Type 0
Tiered ms = All (λ m. (1 ≤ m.tier) × (m.tier ≤ 5)) ms

pub IsSound-Tiered : (es : List Evidence) (ms : List Memory) → IsSound es ms → Tiered ms
IsSound-Tiered es [] sound = tt
IsSound-Tiered es (m ∷ ms) (row, sound) =
    ((row.tier_low, row.tier_high), IsSound-Tiered es ms sound)

pub max_id-All : (k : ℕ) (ms : List Memory) → max_id ms ≤ k → All (λ m. m.id ≤ k) ms
unfolding max_id
max_id-All k [] h = tt
max_id-All k (m ∷ ms) h = (omega arith, max_id-All k ms (omega arith))
