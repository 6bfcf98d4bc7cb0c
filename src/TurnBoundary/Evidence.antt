-- ===== src/TurnBoundary/Evidence.antt =====
-- What the evidence beside a boundary may say of it, and how adapter events are read.
use palaver.Prelude.{
  ℕ, suc, ◌+◌, ◌<◌, Bool, true, false, Option, none, some, List, [], ◌∷◌, ◌++◌, reverse, ◌≡◌, ◌∙◌,
  ◌⊎◌, inl, inr, refl, ap, arith, length, Option-cases, if◌then◌else◌,
}
use mathlib.Core.List.{reverse-append, append_assoc}
use palaver.Signals.{Tri, yea, nay, unsure}
use palaver.Transcript.{Record}
use palaver.TurnBoundary.Walk.{is_nonempty}
use palaver.TurnBoundary.Corroboration.{is_stop_hook, last_hook, corroborate}
use palaver.TurnBoundary.Reading.{
  Kind, turn_boundary, event_boundary, event_error, derive_signals_from_events,
}

-- A stop-hook record stands at index `h` of the records, which start at index `i`.
abbrev pub HookAt : List (Option Record) → ℕ → ℕ → Type 0
HookAt records i h =
    (pre : List (Option Record)) × (r : Option Record) × (post : List (Option Record)) × (records
      ≡ pre ++ r ∷ post)
    × (h ≡ i + length pre)
    × (is_stop_hook r ≡ some true)

last_hook_sound :
    (i : ℕ) (found : Option ℕ) (records : List (Option Record)) (h : ℕ)
    → last_hook i found records ≡ some (some h)
    → (found ≡ some h) ⊎ HookAt records i h
unfolding last_hook
last_hook_sound i found [] h e = inl (ground arith)
last_hook_sound i found (r ∷ rs) h e = elim (Option-cases (is_stop_hook r)) [
  | inl raised ↦ cc (raised, e)
  | inr (hook, hooked) ↦
      grow hook hooked
        (last_hook_sound (suc i) (if hook then some i else found) rs h (rw hooked at e))
]
  where
    later : HookAt rs (suc i) h → HookAt (r ∷ rs) i h
    later (pre, x, post, split, index, yes_hook) =
        (r ∷ pre, x, post, ap (λ l. r ∷ l) split, omega arith, yes_hook)

    grow :
        (hook : Bool)
        → is_stop_hook r ≡ some hook
        → ((if hook then some i else found) ≡ some h) ⊎ HookAt rs (suc i) h
        → (found ≡ some h) ⊎ HookAt (r ∷ rs) i h
    grow true hooked (inl e') = inr ([], r, rs, refl, ground arith, hooked)
    grow false hooked (inl e') = inl e'
    grow hook hooked (inr at) = inr (later at)

-- Corroboration contradicts a boundary only where the boundary says that the agent still holds the
-- turn and a stop-hook record stands after the boundary record. It never contradicts an ended turn,
-- and the store's modification time alone never contradicts anything.
pub disagreement_sound :
    (ended : Tri) (records : List (Option Record)) (index mtime : Option ℕ) (now within : ℕ)
    → corroborate ended records index mtime now within ≡ some nay
    → (ended ≡ nay) × ((i : ℕ) × (h : ℕ) × (index ≡ some i) × (i < h) × HookAt records 0 h)
unfolding corroborate
disagreement_sound unsure records index mtime now within e = ground arith
disagreement_sound yea records none mtime now within e = ground arith
disagreement_sound yea records (some i) mtime now within e = ground arith
disagreement_sound nay records none mtime now within e = ground arith
disagreement_sound nay records (some i) mtime now within e =
    elim (Option-cases (last_hook 0 none records)) [
      | inl raised ↦ cc (raised, e)
      | inr (none, found) ↦ absurd (ground (arith, found))
      | inr (some h, found) ↦ elim (last_hook_sound 0 none records h found) [
        | inl bad ↦ cc
        | inr at ↦ (refl, (i, h, refl, ground (arith, found), at))
      ]
    ]

event_boundary_local :
    (n o : List Kind)
    → event_boundary (n ++ turn_boundary ∷ o) ≡ event_boundary (n ++ turn_boundary ∷ [])
unfolding event_boundary
event_boundary_local [] o = refl
event_boundary_local (Kind.message ∷ n) o = refl
event_boundary_local (Kind.turn_boundary ∷ n) o = refl
event_boundary_local (Kind.error_kind ∷ n) o = event_boundary_local n o
event_boundary_local (Kind.other ∷ n) o = event_boundary_local n o

event_error_local :
    (n o : List Kind) → event_error (n ++ turn_boundary ∷ o) ≡ event_error (n ++ turn_boundary ∷ [])
unfolding event_error
event_error_local [] o = refl
event_error_local (Kind.message ∷ n) o = event_error_local n o
event_error_local (Kind.turn_boundary ∷ n) o = refl
event_error_local (Kind.error_kind ∷ n) o = refl
event_error_local (Kind.other ∷ n) o = event_error_local n o

newest_first :
    (o n : List Kind) → reverse (o ++ turn_boundary ∷ n) ≡ reverse n ++ turn_boundary ∷ reverse o
newest_first o n =
    reverse-append o (turn_boundary ∷ n)
    ∙ (ap (λ l. l ++ reverse o) (reverse-append (turn_boundary ∷ []) n)
        ∙ append_assoc (reverse n) (turn_boundary ∷ []) (reverse o))

nonempty_middle : (o n : List Kind) → is_nonempty (o ++ turn_boundary ∷ n) ≡ true
nonempty_middle [] n = refl
nonempty_middle (k ∷ o) n = refl

-- An adapter's turn boundary closes off what came before it: no earlier message or error, however
-- many there are, changes the reading of the events from that boundary on.
pub events_local :
    (before after : List Kind) (parsed : Tri)
    → derive_signals_from_events (before ++ turn_boundary ∷ after) parsed
      ≡ derive_signals_from_events (turn_boundary ∷ after) parsed
unfolding derive_signals_from_events
events_local before after parsed = rw (
  nonempty_middle before after,
  newest_first before after,
  reverse-append (turn_boundary ∷ []) after,
  event_boundary_local (reverse after) (reverse before),
  event_error_local (reverse after) (reverse before),
)
