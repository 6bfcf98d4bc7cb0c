-- ===== src/Memory/Rows.antt =====
-- How the queries on `memories` answer after rows were touched by an UPDATE or joined by another.
use palaver.Prelude.{
  ℕ, Bool, true, false, ◌&&◌, none, some, List, [], ◌∷◌, ◌≡◌, ◌⊎◌, inl, inr, refl, ap, arith, any,
  ◌==◌, Bool-cases, Option-cases,
}
use palaver.Memory.Tables.{Memory, find_memory, names_predecessor, has_successor}
use palaver.Memory.Statements.{
  Change, update_aborts, assign, assign_where, collides, without_collisions,
}

-- Two rows that agree on everything but the time of writing.
pub record SameCore (m n : Memory) : Type 0 where
  pub id : m.id ≡ n.id
  pub project_id : m.project_id ≡ n.project_id
  pub session_id : m.session_id ≡ n.session_id
  pub statement : m.statement ≡ n.statement
  pub origin : m.origin ≡ n.origin
  pub tier : m.tier ≡ n.tier
  pub supersedes : m.supersedes ≡ n.supersedes

pub SameCore-refl : (m : Memory) → SameCore m m
SameCore-refl m = ground arith

pub SameCore-trans : {a b c : Memory} → SameCore a b → SameCore b c → SameCore a c
SameCore-trans h k = ground arith

-- Two tables that agree so, row by row.
abbrev pub SameRows : List Memory → List Memory → Type 0
SameRows [] [] = Unit
SameRows [] (n ∷ ns) = ⊥
SameRows (m ∷ ms) [] = ⊥
SameRows (m ∷ ms) (n ∷ ns) = SameCore m n × SameRows ms ns

pub SameRows-refl : (ms : List Memory) → SameRows ms ms
SameRows-refl [] = tt
SameRows-refl (m ∷ ms) = (SameCore-refl m, SameRows-refl ms)

-- A row found in one table is found in the other, with the same core.
pub find-SameRows :
    (k : ℕ) (ms ns : List Memory)
    → SameRows ms ns
    → ((find_memory k ms ≡ none) × (find_memory k ns ≡ none))
      ⊎ ((m : Memory) × (n : Memory) × (find_memory k ms ≡ some m)
          × (find_memory k ns ≡ some n)
          × SameCore m n)
unfolding find_memory
find-SameRows k [] [] h = inl (refl, refl)
find-SameRows k (m ∷ ms) (n ∷ ns) h = elim (Bool-cases (m.id == k)) [
  | inl here ↦ inr (m, n, ground arith, ground arith, h.0)
  | inr there ↦
      let elsewhere : (n.id == k) ≡ false = ground (arith, h.0.id) in
      rw (there, elsewhere) (find-SameRows k ms ns h.1)
]
find-SameRows k [] (n ∷ ns) h = absurd h
find-SameRows k (m ∷ ms) [] h = absurd h

pub has_successor-SameRows :
    (k : ℕ) (ms ns : List Memory) → SameRows ms ns → has_successor k ms ≡ has_successor k ns
unfolding has_successor
has_successor-SameRows k [] [] h = refl
has_successor-SameRows k (m ∷ ms) (n ∷ ns) h =
    rw (h.0.supersedes, has_successor-SameRows k ms ns h.1)
has_successor-SameRows k [] (n ∷ ns) h = absurd h
has_successor-SameRows k (m ∷ ms) [] h = absurd h

assign-SameCore :
    (all : List Memory) (c : Change) (m : Memory)
    → update_aborts all c m ≡ false
    → SameCore m (assign c m)
unfolding update_aborts assign
assign-SameCore all c m h = ground arith

-- An UPDATE that no trigger aborts leaves every row its core.
pub assign_where-SameRows :
    (all : List Memory) (test : Memory → Bool) (c : Change) (ms : List Memory)
    → any (λ m. test m && update_aborts all c m) ms ≡ false
    → SameRows ms (assign_where test c ms)
unfolding assign_where
assign_where-SameRows all test c [] h = tt
assign_where-SameRows all test c (m ∷ ms) h = (
  elim (Bool-cases (test m)) [
    | inl touched ↦ rw touched (assign-SameCore all c m (ground arith))
    | inr kept ↦ rw kept (SameCore-refl m)
  ],
  assign_where-SameRows all test c ms (ground arith),
)

-- A row that already has a successor is not touched at all.
pub find-assign_where_superseded :
    (all : List Memory) (test : Memory → Bool) (c : Change) (k : ℕ) (ms : List Memory)
    → has_successor k all ≡ true
    → any (λ m. test m && update_aborts all c m) ms ≡ false
    → find_memory k (assign_where test c ms) ≡ find_memory k ms
unfolding find_memory assign_where update_aborts assign
find-assign_where_superseded all test c k [] s h = refl
find-assign_where_superseded all test c k (m ∷ ms) s h =
    ground (arith, find-assign_where_superseded all test c k ms s)

not_collides :
    (new m : Memory)
    → (m.id == new.id) ≡ false
    → ((p : ℕ) → new.supersedes ≡ some p → names_predecessor p m.supersedes ≡ false)
    → collides new m ≡ false
unfolding collides
not_collides new m f g = elim (Option-cases new.supersedes) [
  | inl free ↦ rw (f, free)
  | inr (p, linked) ↦ rw (f, linked) (g p linked)
]

-- REPLACE has nothing to delete where the id is unused and the predecessor has no successor.
pub without_collisions-id :
    (new : Memory) (ms : List Memory)
    → find_memory new.id ms ≡ none
    → ((p : ℕ) → new.supersedes ≡ some p → has_successor p ms ≡ false)
    → without_collisions new ms ≡ ms
unfolding without_collisions find_memory has_successor
without_collisions-id new [] f g = refl
without_collisions-id new (m ∷ ms) f g =
    rw (not_collides new m (ground arith) (λ p e. ground (arith, g p e)))
      (ap (λ l. m ∷ l) (without_collisions-id new ms (ground arith) (λ p e. ground (arith, g p e))))

-- Nor does a plain INSERT collide there.
pub no_collision :
    (new : Memory) (ms : List Memory)
    → find_memory new.id ms ≡ none
    → ((p : ℕ) → new.supersedes ≡ some p → has_successor p ms ≡ false)
    → any (collides new) ms ≡ false
unfolding find_memory has_successor
no_collision new [] f g = refl
no_collision new (m ∷ ms) f g =
    rw (not_collides new m (ground arith) (λ p e. ground (arith, g p e)))
      (no_collision new ms (ground arith) (λ p e. ground (arith, g p e)))
