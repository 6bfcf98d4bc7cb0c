-- ===== src/TurnBoundary/Corroboration.antt =====
-- `_corroborate` of palaver/observer/turn_boundary.py: what independent evidence says of a boundary
-- that is already settled. Instants and durations are natural numbers of one unit.
use palaver.Prelude.{
  ℕ, suc, ◌+◌, String, leb, ltb, Bool, true, false, Option, none, some, List, [], ◌∷◌,
  if◌then◌else◌,
}
use palaver.Json.{get, equals, member}
use palaver.Signals.{Tri, yea, nay, unsure}
use palaver.Transcript.{Record}
use palaver.TurnBoundary.Walk.{◌>>=◌}

-- `_corroborate`'s search for the last stop-hook record, over the records in file order from the
-- index `i`; `none` is the `TypeError` of an unhashable subtype.
abbrev pub corroborating_subtypes : List String
corroborating_subtypes = "stop_hook_summary" ∷ "turn_duration" ∷ []

unfoldable pub is_stop_hook : Option Record → Option Bool
is_stop_hook none = some false
is_stop_hook (some r) =
    if equals (get r "type") "system"
    then member (get r "subtype") corroborating_subtypes
    else some false

unfoldable pub last_hook : ℕ → Option ℕ → List (Option Record) → Option (Option ℕ)
unfolding is_stop_hook
last_hook i found [] = some found
last_hook i found (r ∷ rs) =
    is_stop_hook r >>= λ hook. last_hook (suc i) (if hook then some i else found) rs

-- Whether a hook record stands after the boundary record.
unfoldable pub hook_after : Option ℕ → ℕ → Bool
hook_after none index = false
hook_after (some h) index = ltb index h

-- Whether the store's age agrees with a settled boundary: `now - mtime` against `active_within`.
unfoldable pub mtime_agrees : Tri → Option ℕ → ℕ → ℕ → Bool
mtime_agrees ended none now within = false
mtime_agrees yea (some mtime) now within = ltb (mtime + within) now
mtime_agrees nay (some mtime) now within = leb now (mtime + within)
mtime_agrees unsure (some mtime) now within = false

-- `_corroborate`, once the hook is found.
weigh : Tri → Bool → Bool → Tri
weigh yea true fresh = yea
weigh yea false fresh = if fresh then yea else unsure
weigh nay true fresh = nay
weigh nay false fresh = if fresh then yea else unsure
weigh unsure after fresh = unsure

-- `_corroborate`.
unfoldable pub corroborate : Tri → List (Option Record) → Option ℕ → Option ℕ → ℕ → ℕ → Option Tri
unfolding last_hook hook_after mtime_agrees weigh
corroborate unsure records index mtime now within = some unsure
corroborate ended records none mtime now within = some unsure
corroborate ended records (some index) mtime now within = last_hook 0 none records >>= λ hook.
    some (weigh ended (hook_after hook index) (mtime_agrees ended mtime now within))
