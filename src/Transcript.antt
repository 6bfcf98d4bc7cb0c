-- ===== src/Transcript.antt =====
-- palaver/ingest/adapters/claude_code.py: how a decoded Claude Code record is classified, and the
-- background tasks that a transcript leaves active. `str_of` is Python's `str()` of a decoded value
-- that is no string.
use palaver.Prelude.{
  ℕ, ◌+◌, String, Bool, true, false, not, ◌&&◌, ◌||◌, Option, none, some, List, [], ◌∷◌, ◌++◌, map,
  any, all, length, take, drop, leb, ◌==◌, if◌then◌else◌, Text, codes, text_eq, is_blank, strip,
  starts_with, contains,
}
use palaver.Json.{Value, null, str, arr, obj, Fields, lookup, get, equals, truthy, dicts}

abbrev pub Record : Type 0
Record = Fields

-- `MESSAGE_RECORD_TYPES`.
abbrev pub message_record_types : List String
message_record_types = "user" ∷ "assistant" ∷ []

pub data Channel : Type 0 where
  human injected : Channel

-- `INJECTED_TEXT_PREFIXES`.
abbrev pub injected_text_prefixes : List String
injected_text_prefixes =
    "<command-name>" ∷ "<command-message>" ∷ "<command-args>" ∷ "<local-command-stdout>"
    ∷ "<local-command-stderr>" ∷ "<bash-input>" ∷ "<bash-stdout>" ∷ "<bash-stderr>"
    ∷ "<system-reminder>" ∷ "<task-notification>"
    ∷ "Caveat: The messages below were generated by the user while running local commands."
    ∷ "This session is being continued from a previous conversation that ran out of context."
    ∷ "[Request interrupted by user]" ∷ []

-- `BACKGROUND_TASK_SUCCESS_STATUSES`.
abbrev pub background_task_success_statuses : List Text
background_task_success_statuses = codes "completed" ∷ codes "succeeded" ∷ codes "success" ∷ []

-- `BACKGROUND_TASK_TERMINAL_STATUSES`.
abbrev pub background_task_terminal_statuses : List Text
background_task_terminal_statuses =
    codes "completed"
    ∷ codes "succeeded"
    ∷ codes "success"
    ∷ codes "failed"
    ∷ codes "stopped"
    ∷ codes "cancelled"
    ∷ codes "killed"
    ∷ codes "interrupted"
    ∷ codes "timed_out"
    ∷ codes "timeout"
    ∷ []

-- `_message_content`.
unfoldable pub message_content : Record → Value
message_content r = elim (get r "message") [ obj m ↦ get m "content" | _ ↦ null ]

-- The content blocks of one type, in order: `block.get("type") == t` over the dictionaries.
unfoldable pub blocks_of : List Fields → String → List Fields
blocks_of [] t = []
blocks_of (b ∷ bs) t =
    let rest = blocks_of bs t in if equals (get b "type") t then b ∷ rest else rest

module _ (str_of : Value → Text) where
  -- `str(block.get("text", ""))`.
  unfoldable pub block_text : Fields → Text
  block_text b = elim (lookup b "text") [ none ↦ [] | some (str s) ↦ s | some v ↦ str_of v ]

  joined : List Fields → Text
  unfolding block_text
  joined [] = []
  joined (b ∷ bs) = block_text b ++ joined bs

  -- `_message_text`.
  unfoldable pub message_text : Record → Text
  unfolding joined message_content blocks_of
  message_text r = elim (message_content r) [
    | str s ↦ s
    | arr vs ↦ joined (blocks_of (dicts vs) "text")
    | _ ↦ []
  ]

  -- `classify_channel`.
  unfoldable pub classify_channel : Record → Channel
  unfolding message_text
  classify_channel r =
      if truthy (get r "isMeta")
      then injected
      else if any (λ p. starts_with (codes p) (message_text r)) injected_text_prefixes
      then injected
      else human

-- `background_task_id`.
nonempty_id : Text → Option Text
nonempty_id [] = none
nonempty_id (c ∷ s) = some (take 128 (c ∷ s))

unfoldable pub background_task_id : Record → Option Text
unfolding nonempty_id strip
background_task_id r = elim (get r "toolUseResult") [
  | obj result ↦ elim (get result "backgroundTaskId") [ str s ↦ nonempty_id (strip s) | _ ↦ none ]
  | _ ↦ none
]

-- The longest prefix whose characters pass the test, and what follows it.
span : (ℕ → Bool) → Text → Text × Text
span p [] = ([], [])
span p (c ∷ s) = elim (p c) [ true ↦ (c ∷ (span p s).0, (span p s).1) | false ↦ ([], c ∷ s) ]

-- `<task-id>\s*([^<>\s][^<>]*?)\s*</task-id>` after its opening tag: the group reaches to the next
-- angle bracket, which must open the closing tag, and is not blank.
task_id_body : Text → Option Text
unfolding span is_blank strip starts_with
task_id_body s =
    let (body, rest) = span (λ c. not (c == b'<' || c == b'>')) s in
    if starts_with (codes "</task-id>") rest && not (is_blank body) then some (strip body) else none

is_status_char : ℕ → Bool
is_status_char c =
    (leb b'A' c && leb c b'Z')
    || ((leb b'a' c && leb c b'z') || (c == b'_' || (c == b' ' || c == b'-')))

-- `<status>\s*([A-Za-z_ -]+?)\s*</status>` after its opening tag, with the group stripped. A blank
-- body matches if it holds a space, which the group then takes.
status_body : Text → Option Text
unfolding span is_blank strip starts_with is_status_char
status_body s =
    let (body, rest) = span (λ c. not (c == b'<')) s in
    if not (starts_with (codes "</status>") rest)
    then none
    else if is_blank body
    then if any (λ c. c == b' ') body then some [] else none
    else if all is_status_char (strip body)
    then some (strip body)
    else none

-- `pattern.search(content)`: the first position where the opening tag and the body match.
search_tag : Text → (Text → Option Text) → Text → Option Text
unfolding starts_with
search_tag tag body [] = none
search_tag tag body (c ∷ s) =
    let later = search_tag tag body s in
    if starts_with tag (c ∷ s)
    then elim (body (drop (length tag) (c ∷ s))) [ none ↦ later | some g ↦ some g ]
    else later

-- `.lower().replace(" ", "_").replace("-", "_")` on the status pattern's characters.
normal_status : ℕ → ℕ
normal_status c =
    if leb b'A' c && leb c b'Z' then c + 32 else if c == b' ' || c == b'-' then b'_' else c

-- The identifier and status of a notification's two matches.
notified : Option Text → Option Text → Option (Text × Text)
unfolding normal_status
notified (some (c ∷ t)) (some s) =
    let status = map normal_status s in
    if any (text_eq status) background_task_terminal_statuses
    then some (take 128 (c ∷ t), status)
    else none
notified _ _ = none

-- `background_task_notification`.
unfoldable pub background_task_notification : Record → Option (Text × Text)
unfolding notified search_tag task_id_body status_body
background_task_notification r =
    if not (equals (get r "type") "queue-operation") then none else elim (get r "content") [
      | str content ↦
          if not (contains (codes "<task-notification>") content)
          then none
          else notified (search_tag (codes "<task-id>") task_id_body content)
              (search_tag (codes "<status>") status_body content)
      | _ ↦ none
    ]

-- `set.add` and `set.discard` on a set kept as a list without repetitions.
unfoldable pub add : Text → List Text → List Text
add t ids = if any (text_eq t) ids then ids else t ∷ ids

unfoldable pub discard : Text → List Text → List Text
discard t [] = []
discard t (i ∷ ids) = let rest = discard t ids in if text_eq t i then rest else i ∷ rest

-- One record's effect on the active set: a start, then a terminal notification.
unfoldable pub track : List Text → Option Record → List Text
unfolding add discard
track active none = active
track active (some r) =
    let started : List Text = elim (background_task_id r) [
      | none ↦ active
      | some t ↦ add t active
    ] in
    elim (background_task_notification r) [ none ↦ started | some (t, s) ↦ discard t started ]

unfoldable pub track_all : List Text → List (Option Record) → List Text
unfolding track
track_all active [] = active
track_all active (r ∷ rs) = track_all (track active r) rs

-- `active_background_task_ids`.
unfoldable pub active_background_task_ids : List (Option Record) → List Text
unfolding track_all
active_background_task_ids rs = track_all [] rs
