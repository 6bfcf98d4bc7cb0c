-- ===== src/Summary/CodexRecords.antt =====
-- palaver/ingest/adapters/codex: the text and the role of a Codex message. `str_of` is Python's
-- `str()` of a decoded value that is no string, and `is_decimal` the characters of `\d`.
use palaver.Prelude.{
  ℕ, zero, suc, ◌+◌, String, Bool, true, false, not, ◌&&◌, ◌||◌, Option, none, some, List, [], ◌∷◌,
  ◌++◌, any, drop, ◌==◌, if◌then◌else◌, Text, codes, text_eq, starts_with, is_space, lstrip_by,
}
use palaver.Json.{Value, str, arr, obj, Fields, end, get, equals, dicts, member}
use palaver.Transcript.{Channel, human, injected, block_text}

-- `_payload`.
unfoldable pub codex_payload : Fields → Fields
codex_payload record_ = elim (get record_ "payload") [ obj fs ↦ fs | _ ↦ end ]

-- `_message_payload`.
unfoldable pub message_payload : Fields → Option Fields
unfolding codex_payload
message_payload r =
    if equals (get r "type") "response_item" && equals (get (codex_payload r) "type") "message"
    then some (codex_payload r)
    else none

-- `message_role`.
unfoldable pub message_role : Fields → Option Text
unfolding message_payload
message_role r = elim (message_payload r) [
  | none ↦ none
  | some payload ↦ elim (get payload "role") [ str s ↦ some s | _ ↦ none ]
]

-- `INJECTED_TEXT_PREFIXES`.
abbrev codex_injected_prefixes : List String
codex_injected_prefixes =
    "<environment_context>" ∷ "<recommended_plugins>" ∷ "<codex_internal_context"
    ∷ "<subagent_notification>" ∷ "# AGENTS.md instructions" ∷ "Automated daily window start." ∷ []

module _ (str_of : Value → Text) where
  -- The texts of the blocks of `TEXT_BLOCK_TYPES`, joined; `none` is the `TypeError` of a `type`
  -- that is a list or a dictionary.
  join_codex : List Fields → Option Text
  unfolding block_text member
  join_codex [] = some []
  join_codex (b ∷ bs) =
      let rest = join_codex bs in
      elim (member (get b "type") ("input_text" ∷ "output_text" ∷ "text" ∷ [])) [
        | none ↦ none
        | some false ↦ rest
        | some true ↦ elim rest [ none ↦ none | some t ↦ some (block_text str_of b ++ t) ]
      ]

  -- `message_text`.
  unfoldable pub codex_message_text : Fields → Option Text
  unfolding join_codex message_payload
  codex_message_text r = elim (message_payload r) [
    | none ↦ some []
    | some payload ↦ elim (get payload "content") [
      | str s ↦ some s
      | arr content ↦ join_codex (dicts content)
      | _ ↦ some []
    ]
  ]

  -- The channel of a message that has this role.
  role_class : Fields → Text → Option Channel
  unfolding codex_message_text lstrip_by is_space starts_with
  role_class r role =
      if not (text_eq role (codes "user")) then some injected else elim (codex_message_text r) [
        | none ↦ none
        | some t ↦
            if any (λ p. starts_with (codes p) (lstrip_by is_space t)) codex_injected_prefixes
            then some injected
            else some human
      ]

  -- `codex_role_class`; its only harness role, `developer`, is none of a human either.
  unfoldable pub codex_role_class : Fields → Option Channel
  unfolding role_class message_role
  codex_role_class r = elim (message_role r) [
    | none ↦ some injected
    | some role ↦ if text_eq role (codes "developer") then some injected else role_class r role
  ]

module _ (is_decimal : ℕ → Bool) where
  -- How many characters of the class stand first, and the rest.
  decimals : Text → ℕ × Text
  decimals [] = (0, [])
  decimals (c ∷ s) = elim (is_decimal c) [
    | true ↦ (suc (decimals s).0, (decimals s).1)
    | false ↦ (0, c ∷ s)
  ]

  -- `[^"\r\n]*">` from the start of the path.
  path_length : Text → Option ℕ
  path_length [] = none
  path_length (c ∷ s) =
      let rest = path_length s in
      if c == b'"'
      then if starts_with (codes ">") s then some 2 else none
      else if c == 0x0d || c == 0x0a
      then none
      else elim rest [ none ↦ none | some n ↦ some (suc n) ]

  -- How long the marker is that the text starts with, if it does.
  marker_length : Text → Option ℕ
  unfolding decimals path_length starts_with
  marker_length s =
      if not (starts_with (codes "<image name=[Image #") s)
      then none
      else let (count, after) = decimals (drop 20 s) in
        if count == 0 || not (starts_with (codes "] path=\"") after)
        then none
        else elim (path_length (drop 8 after)) [ none ↦ none | some n ↦ some (28 + count + n) ]

  -- `CODEX_IMAGE_ATTACHMENT_MARKER.sub("", text)`, while so many characters of a marker are left.
  remove_markers : ℕ → Text → Text
  unfolding marker_length
  remove_markers skip [] = []
  remove_markers (suc skip) (c ∷ s) = remove_markers skip s
  remove_markers zero (c ∷ s) = elim (marker_length (c ∷ s)) [
    | none ↦ c ∷ remove_markers 0 s
    | some zero ↦ c ∷ remove_markers 0 s
    | some (suc n) ↦ remove_markers n s
  ]

  -- `strip_codex_image_attachment_markers`.
  unfoldable pub strip_codex_image_attachment_markers : Text → Text
  unfolding remove_markers
  strip_codex_image_attachment_markers text = remove_markers 0 text
