-- ===== src/Socket/Ids.antt =====
-- `dict.fromkeys` over the ids of `_record_query`, palaver/observer/socket/protocol.py.
use palaver.Prelude.{
  Bool, true, false, not, ◌&&◌, ◌||◌, List, [], ◌∷◌, ◌≡◌, refl, arith, Bool-cases, inl, inr,
}
use palaver.Integers.{ℤ, pos, negsuc}
use palaver.Socket.Query.{integer_eq, without, fromkeys}

abbrev pub has_id : ℤ → List ℤ → Bool
has_id a [] = false
has_id a (b ∷ bs) = integer_eq a b || has_id a bs

abbrev pub NoneTwice : List ℤ → Type 0
NoneTwice [] = Unit
NoneTwice (a ∷ l) = (has_id a l ≡ false) × NoneTwice l

integer_eq-twice : (a b c : ℤ) → integer_eq a b ≡ true → integer_eq c a ≡ integer_eq c b
unfolding integer_eq
integer_eq-twice (pos a) (pos b) (pos c) h = ground arith
integer_eq-twice (pos a) (pos b) (negsuc c) h = refl
integer_eq-twice (negsuc a) (negsuc b) (negsuc c) h = ground arith
integer_eq-twice (negsuc a) (negsuc b) (pos c) h = refl
integer_eq-twice (pos a) (negsuc b) c h = ground arith
integer_eq-twice (negsuc a) (pos b) c h = ground arith

integer_eq_comm : (a b : ℤ) → integer_eq a b ≡ integer_eq b a
unfolding integer_eq
integer_eq_comm (pos a) (pos b) = ground arith
integer_eq_comm (negsuc a) (negsuc b) = ground arith
integer_eq_comm (pos a) (negsuc b) = refl
integer_eq_comm (negsuc a) (pos b) = refl

integer_eq_refl : (a : ℤ) → integer_eq a a ≡ true
unfolding integer_eq
integer_eq_refl (pos a) = ground arith
integer_eq_refl (negsuc a) = ground arith

has_id-without :
    (a b : ℤ) (l : List ℤ) → has_id a (without b l) ≡ (not (integer_eq b a) && has_id a l)
unfolding without
has_id-without a b [] = ground arith
has_id-without a b (c ∷ l) =
    ground (arith, has_id-without a b l, integer_eq-twice b c a, integer_eq_comm a b)

pub has_id-fromkeys : (a : ℤ) (l : List ℤ) → has_id a (fromkeys l) ≡ has_id a l
unfolding fromkeys
has_id-fromkeys a [] = refl
has_id-fromkeys a (b ∷ l) =
    ground (arith, has_id-without a b (fromkeys l), has_id-fromkeys a l, integer_eq_comm a b)

without-NoneTwice : (a : ℤ) (l : List ℤ) → NoneTwice l → NoneTwice (without a l)
unfolding without
without-NoneTwice a [] h = tt
without-NoneTwice a (b ∷ l) (once, rest) = elim (Bool-cases (integer_eq a b)) [
  | inl e ↦ rw (e, without) (without-NoneTwice a l rest)
  | inr e ↦ rw (e, without) (ground (arith, has_id-without b a l), without-NoneTwice a l rest)
]

pub fromkeys-NoneTwice : (l : List ℤ) → NoneTwice (fromkeys l)
unfolding fromkeys
fromkeys-NoneTwice [] = tt
fromkeys-NoneTwice (a ∷ l) = (
  ground (arith, has_id-without a a (fromkeys l), integer_eq_refl a),
  without-NoneTwice a (fromkeys l) (fromkeys-NoneTwice l),
)
