-- ===== src/Json.antt =====
-- A decoded JSON value, as `json.loads` hands it to palaver/ingest and palaver/observer, with the
-- dictionary reads and the `isinstance` tests that the package makes on it.
use palaver.Prelude.{
  ℕ, String, Bool, true, false, not, Option, none, some, List, [], ◌∷◌, ◌==◌, if◌then◌else◌, Text,
  codes, text_eq,
}

-- `int` holds a natural number and `neg n` is -(n + 1); of a float the code asks only whether it
-- is zero. An `obj` has each key once, since `json.loads` keeps the last of several.
mutual
  pub data Value : Type 0 where
    null : Value
    bool : Bool → Value
    int neg : ℕ → Value
    float : Bool → Value
    str : Text → Value
    arr : Items → Value
    obj : Fields → Value

  pub data Items : Type 0 where
    nil : Items
    cons : Value → Items → Items

  pub data Fields : Type 0 where
    end : Fields
    field : Text → Value → Fields → Fields

unfoldable pub lookup : Fields → String → Option Value
lookup end key = none
lookup (field k v fs) key = if text_eq k (codes key) then some v else lookup fs key

-- `d.get(key)`: an absent key and a JSON null both read as `None`.
unfoldable pub get : Fields → String → Value
unfolding lookup
get d key = elim (lookup d key) [ none ↦ null | some v ↦ v ]

-- `v == "literal"`.
unfoldable pub equals : Value → String → Bool
equals (str s) t = text_eq s (codes t)
equals _ t = false

-- `bool(v)`.
unfoldable pub truthy : Value → Bool
truthy null = false
truthy (bool b) = b
truthy (int n) = not (n == 0)
truthy (neg n) = true
truthy (float is_zero) = not is_zero
truthy (str []) = false
truthy (str (c ∷ s)) = true
truthy (arr nil) = false
truthy (arr (cons v vs)) = true
truthy (obj end) = false
truthy (obj (field k v fs)) = true

-- The elements of a list that are dictionaries, in order.
unfoldable pub dicts : Items → List Fields
dicts nil = []
dicts (cons (obj fs) vs) = fs ∷ dicts vs
dicts (cons _ vs) = dicts vs

-- Whether a value can stand left of `in` over a frozenset, or be a dictionary's key: Python raises
-- `TypeError` for a list and for a dictionary.
unfoldable pub hashable : Value → Bool
hashable (arr vs) = false
hashable (obj fs) = false
hashable _ = true

-- `any(v == n for n in names)`.
unfoldable pub equals_any : Value → List String → Bool
unfolding equals
equals_any v [] = false
equals_any v (n ∷ ns) = if equals v n then true else equals_any v ns

-- `v in {"a", "b"}`; `none` is the `TypeError`.
unfoldable pub member : Value → List String → Option Bool
unfolding hashable equals_any
member v names = if hashable v then some (equals_any v names) else none
