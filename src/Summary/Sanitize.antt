-- ===== src/Summary/Sanitize.antt =====
-- palaver/summary/model.py: `sanitize_text` and its three patterns.
use palaver.Prelude.{
  ℕ, zero, suc, ◌+◌, ◌-◌, Bool, true, false, not, ◌&&◌, ◌||◌, Option, none, some, [], ◌∷◌, ◌++◌,
  reverse, length, take, leb, ◌==◌, if◌then◌else◌, Text, is_space, lstrip_by, strip,
}
use palaver.Json.{Value, str}

-- `DISPLAY_TEXT_LIMIT`.
abbrev pub display_text_limit : ℕ
display_text_limit = 240

-- How many characters of the class a text starts with, and what follows them.
class_run : (ℕ → Bool) → Text → ℕ × Text
class_run p [] = (0, [])
class_run p (c ∷ s) = elim (p c) [
  | true ↦ (suc (class_run p s).0, (class_run p s).1)
  | false ↦ (0, c ∷ s)
]

-- `\[[0-?]*[ -/]*[@-~]` after the bracket. The three classes are disjoint, so that the greedy runs
-- need no second try.
control_sequence : Text → Option ℕ
unfolding class_run
control_sequence s =
    let (params, after) = class_run (λ c. leb b'0' c && leb c b'?') s in
    let (middle, rest) = class_run (λ c. leb b' ' c && leb c b'/') after in
    elim rest [
      | [] ↦ none
      | c ∷ _ ↦ if leb b'@' c && leb c b'~' then some (suc (suc (params + middle))) else none
    ]

-- `\][^\x07\x1b]*(?:\x07|\x1b\\)?` after the bracket.
system_command : Text → ℕ
unfolding class_run
system_command s =
    let (body, rest) = class_run (λ c. not (c == 0x07 || c == 0x1b)) s in
    let ending : ℕ = elim rest [
      | [] ↦ 0
      | c ∷ [] ↦ if c == 0x07 then 1 else 0
      | c ∷ d ∷ _ ↦ if c == 0x07 then 1 else if d == b'\\' then 2 else 0
    ] in
    suc (body + ending)

-- How many characters `_ANSI_RE` takes after its escape character.
unfoldable pub ansi_length : Text → Option ℕ
unfolding control_sequence system_command
ansi_length [] = none
ansi_length (c ∷ s) =
    if c == b'[' then control_sequence s else if c == b']' then some (system_command s) else none

-- `_ANSI_RE.sub("", value)`, while so many characters of a match are still to be dropped.
unfoldable pub remove_ansi : ℕ → Text → Text
unfolding ansi_length
remove_ansi skip [] = []
remove_ansi (suc skip) (c ∷ s) = remove_ansi skip s
remove_ansi zero (c ∷ s) = elim (c == 0x1b) [
  | false ↦ c ∷ remove_ansi 0 s
  | true ↦ elim (ansi_length s) [ none ↦ c ∷ remove_ansi 0 s | some n ↦ remove_ansi n s ]
]

-- `_CONTROL_RE`.
unfoldable pub is_control : ℕ → Bool
is_control c = leb c 0x08 || ((leb 0x0b c && leb c 0x1f) || (leb 0x7f c && leb c 0x9f))

-- `_CONTROL_RE.sub("", text)`.
unfoldable pub remove_controls : Text → Text
unfolding is_control
remove_controls [] = []
remove_controls (c ∷ s) = let rest = remove_controls s in if is_control c then rest else c ∷ rest

unfoldable pub starts_with_space : Text → Bool
unfolding is_space
starts_with_space [] = false
starts_with_space (c ∷ s) = is_space c

-- `_WHITESPACE_RE.sub(" ", text)`: a run leaves one space, where its last character stands.
unfoldable pub squeeze : Text → Text
unfolding starts_with_space is_space
squeeze [] = []
squeeze (c ∷ s) =
    let rest = squeeze s in
    if is_space c then if starts_with_space s then rest else b' ' ∷ rest else c ∷ rest

unfoldable pub rstrip : Text → Text
unfolding lstrip_by is_space
rstrip s = reverse (lstrip_by is_space (reverse s))

-- The cut to the limit, with U+2026 in the last place.
unfoldable pub truncate : ℕ → Text → Text
unfolding rstrip
truncate limit text =
    if leb (length text) limit
    then text
    else if leb limit 1
    then take limit (0x2026 ∷ [])
    else rstrip (take (limit - 1) text) ++ 0x2026 ∷ []

unfoldable pub sanitize_text : Value → ℕ → Text
unfolding remove_ansi remove_controls squeeze strip truncate
sanitize_text (str s) limit = truncate limit (strip (squeeze (remove_controls (remove_ansi 0 s))))
sanitize_text _ limit = []
