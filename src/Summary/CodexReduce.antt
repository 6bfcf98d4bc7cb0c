-- ===== src/Summary/CodexReduce.antt =====
-- palaver/summary/codex.py: the loop of `reduce_codex_events`.
use palaver.Prelude.{
  ℕ, Bool, ◌&&◌, Option, none, some, List, [], ◌∷◌, ◌++◌, if◌then◌else◌, Text, codes, text_eq,
}
use palaver.Json.{Value, null, str, obj, Fields, end, get, equals, truthy}
use palaver.Transcript.{human, injected}
use palaver.Summary.Model.{
  exact, is_unknown, sanitized, structural_claim, textless_claim, SummarySnapshot, new_snapshot,
  with_unknown, unknown_collection, collection,
}
use palaver.Summary.Recent.{append_recent}
use palaver.Summary.Collections.{flatten}
use palaver.Summary.ClaudeCode.{Event, Progress, compacted, string_id, id_or_none}
use palaver.Summary.Reduce.{start, last_reason}
use palaver.Summary.CodexRecords.{
  codex_payload, codex_message_text, codex_role_class, strip_codex_image_attachment_markers,
}
use palaver.Summary.Codex.{
  event_failure, apply_failure, unsupported_event, apply_boundary, apply_output, apply_function,
  apply_agent, apply_human,
}

module _ (loads : Text → Option Value) (dumps_value : Value → Text) where
  -- A decoded value that is a dictionary.
  dictionary : Option Value → Option Fields
  dictionary (some (obj fs)) = some fs
  dictionary _ = none

  -- `_arguments`.
  unfoldable pub call_arguments : Fields → Option Fields
  unfolding dictionary
  call_arguments payload = elim (get payload "arguments") [
    | obj fs ↦ some fs
    | str s ↦ dictionary (loads s)
    | _ ↦ none
  ]

  -- `raw if isinstance(raw, str) else json.dumps(raw or {}, sort_keys=True)`.
  rendered_arguments : Value → Text
  rendered_arguments (str s) = s
  rendered_arguments v = dumps_value (if truthy v then v else obj end)

  -- `_tool_activity`.
  unfoldable pub function_activity : Text → Fields → Text
  unfolding sanitized rendered_arguments
  function_activity name payload =
      elim (sanitized (str (rendered_arguments (get payload "arguments")))) [
        | [] ↦ codes "Tool " ++ name
        | c ∷ s ↦ codes "Tool " ++ name ++ codes ": " ++ c ∷ s
      ]

  -- A `function_call`.
  unfoldable pub apply_function_call : Progress → Fields → Progress
  unfolding with_unknown append_recent function_activity call_arguments structural_claim string_id
      id_or_none apply_function
  apply_function_call p payload = elim (get payload "name") [
    | str (c ∷ name) ↦
        let id = id_or_none (string_id (get payload "call_id")) in
        let called : Progress = record p {
          snapshot = record p.snapshot {
            recent =
                append_recent p.snapshot.recent (str (function_activity (c ∷ name) payload)) exact
                  (codes "function_call") id;
            turn = structural_claim (codes "Agent turn open") "function_call" null;
          };
        } in
        apply_function called (c ∷ name) id (call_arguments payload)
    | _ ↦ record p {
      snapshot = with_unknown p.snapshot (codes "Codex tool call has no supported name");
    }
  ]

module _ (str_of : Value → Text) (is_decimal : ℕ → Bool) where
  -- A message whose text is known.
  apply_text : SummarySnapshot → Fields → Text → Option SummarySnapshot
  unfolding apply_agent apply_human codex_role_class strip_codex_image_attachment_markers
  apply_text s r text =
      if equals (get (codex_payload r) "role") "assistant"
      then some (apply_agent s text)
      else elim (codex_role_class str_of r) [
        | none ↦ none
        | some injected ↦ some s
        | some human ↦
            some (apply_human s text (strip_codex_image_attachment_markers is_decimal text))
      ]

  -- A `message`.
  unfoldable pub apply_codex_message : SummarySnapshot → Fields → Option SummarySnapshot
  unfolding codex_message_text apply_text
  apply_codex_message s r = elim (codex_message_text str_of r) [
    | none ↦ none
    | some text ↦ apply_text s r text
  ]

-- The code that palaver/summary calls and that is not the package's own.
pub record Runtime : Type 0 where
  pub str_of : Value → Text
  pub dumps : Fields → Text
  pub loads : Text → Option Value
  pub dumps_value : Value → Text
  pub is_decimal : ℕ → Bool

module _ (run_time : Runtime) where
  -- An event that is no `response_item` of a known kind, by its kind.
  apply_kind : Progress → Text → Fields → Progress
  unfolding apply_boundary apply_failure event_failure unsupported_event
  apply_kind p kind payload =
      if text_eq kind (codes "turn_boundary")
      then apply_boundary p payload
      else if text_eq kind (codes "error")
      then record p { snapshot = apply_failure p.snapshot (event_failure payload) }
      else if text_eq kind (codes "unknown")
      then record p { snapshot = unsupported_event p.snapshot }
      else p

  -- An event whose payload is a dictionary and whose kind is not `compaction`.
  apply_item : Progress → Text → Fields → Option Progress
  unfolding apply_codex_message apply_function_call apply_output apply_kind codex_payload
  apply_item p kind r =
      let payload = codex_payload r in
      let is_item = equals (get r "type") "response_item" in
      if is_item && equals (get payload "type") "message"
      then elim (apply_codex_message run_time.str_of run_time.is_decimal p.snapshot r) [
        | none ↦ none
        | some s ↦ some (record p { snapshot = s })
      ]
      else if is_item && equals (get payload "type") "function_call"
      then some (apply_function_call run_time.loads run_time.dumps_value p payload)
      else if is_item && equals (get payload "type") "function_call_output"
      then some (apply_output p payload)
      else some (apply_kind p kind payload)

  -- One round of the loop; `none` is a `TypeError`.
  unfoldable pub apply_codex_event : Progress → Event → Option Progress
  unfolding apply_item compacted with_unknown
  apply_codex_event p e = elim e.payload [
    | obj r ↦
        if text_eq e.kind (codes "compaction")
        then some (record p { snapshot = compacted p.snapshot })
        else apply_item p e.kind r
    | _ ↦ some (record p {
      snapshot = with_unknown p.snapshot (codes "Codex event payload is unsupported");
    })
  ]

  unfoldable pub apply_codex_events : Progress → List Event → Option Progress
  unfolding apply_codex_event
  apply_codex_events p [] = some p
  apply_codex_events p (e ∷ es) = elim (apply_codex_event p e) [
    | none ↦ none
    | some q ↦ apply_codex_events q es
  ]

unfoldable pub initial_codex : Text → Option SummarySnapshot → SummarySnapshot
unfolding new_snapshot textless_claim
initial_codex key none = record (new_snapshot (codes "codex") key) {
  command_result = textless_claim "event_stream" null;
}
initial_codex key (some s) = s

-- What follows the loop.
unfoldable pub finish_codex : Progress → SummarySnapshot
unfolding with_unknown last_reason unknown_collection collection flatten is_unknown
finish_codex p =
    let closed : SummarySnapshot = record p.snapshot {
      questions =
          if p.questions_unknown
          then unknown_collection (codes "request_user_input structure is unsupported")
          else collection (flatten p.pending) exact "request_user_input";
    } in
    if is_unknown closed.source_integrity
    then with_unknown closed (last_reason closed.unknown_reasons)
    else closed

-- `reduce_codex_events`.
unfoldable pub reduce_codex_events :
    Runtime → Text → List Event → Option SummarySnapshot → Option SummarySnapshot
unfolding apply_codex_events start initial_codex finish_codex
reduce_codex_events run_time key events initial =
    elim (apply_codex_events run_time (start (initial_codex key initial)) events) [
      | none ↦ none
      | some p ↦ some (finish_codex p)
    ]
