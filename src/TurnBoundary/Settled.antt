-- ===== src/TurnBoundary/Settled.antt =====
-- The backwards walk of palaver/observer/turn_boundary.py in terms of one round of it.
use palaver.Prelude.{
  ℕ, Bool, Option, none, some, List, [], ◌∷◌, ◌++◌, reverse, ◌≡◌, ◌↔◌, inl, inr, Option-cases, ap,
  refl, arith, All, length, Text,
}
use palaver.Json.{Value}
use palaver.Signals.{Tri}
use palaver.Transcript.{Record}
use palaver.TurnBoundary.Walk.{Basis, judge, walk, is_busy, settle}

module _ (str_of : Value → Text) where
  -- The records, newest first, are some that the walk looks through, then the deciding one.
  abbrev pub Decides : Bool → List (Option Record) → Tri → Basis → ℕ → Type 0
  Decides busy records ended basis index =
      (newer : List (Option Record)) × (r : Option Record) × (older : List (Option Record))
      × (records ≡ newer ++ r ∷ older)
      × (index ≡ length older)
      × (judge str_of busy r ≡ some (some (ended, basis)))
      × All (λ x. judge str_of busy x ≡ some none) newer

  walk-decided :
      (busy : Bool) (l : List (Option Record)) (e : Tri) (b : Basis) (i : ℕ)
      → walk str_of busy l ≡ some (e, b, some i)
      → Decides busy l e b i
  unfolding walk
  walk-decided busy [] e b i h = ground arith
  walk-decided busy (r ∷ older) e b i h = elim (Option-cases (judge str_of busy r)) [
    | inl raised ↦ cc (raised, h)
    | inr (some (e', b'), settled) ↦ ([], r, older, refl, ground arith, ground arith, tt)
    | inr (none, clear) ↦
        let (newer, x, rest, split, index, judged, through) =
          walk-decided busy older e b i (rw clear at h) in
        (r ∷ newer, x, rest, ap (λ l. r ∷ l) split, index, judged, (clear, through))
  ]

  walk_of_decided :
      (busy : Bool) (newer : List (Option Record)) (r : Option Record)
      (older : List (Option Record)) (e : Tri) (b : Basis)
      → judge str_of busy r ≡ some (some (e, b))
      → All (λ x. judge str_of busy x ≡ some none) newer
      → walk str_of busy (newer ++ r ∷ older) ≡ some (e, b, some (length older))
  unfolding walk
  walk_of_decided busy [] r older e b h t = rw h
  walk_of_decided busy (x ∷ newer) r older e b h t =
      rw t.0 (walk_of_decided busy newer r older e b h t.1)

  pub settle_judged :
      (records : List (Option Record)) (e : Tri) (b : Basis) (i : ℕ)
      → (settle str_of records ≡ some (e, b, some i))
        ↔ Decides (is_busy str_of records) (reverse records) e b i
  unfolding settle
  settle_judged records e b i = (
    walk-decided (is_busy str_of records) (reverse records) e b i,
    λ (newer, r, older, split, index, judged, through).
        rw (split, index)
          (walk_of_decided (is_busy str_of records) newer r older e b judged through),
  )
