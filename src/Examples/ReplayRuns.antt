-- ===== src/Examples/ReplayRuns.antt =====
-- palaver/summary/codex.py: a run on which a feed and a replay show different turns.
use palaver.Prelude.{
  ℕ, zero, suc, false, Option, none, some, List, [], ◌∷◌, ◌++◌, String, Text, codes, ◌≡◌, refl,
}
use palaver.Json.{Value, str, arr, obj, Items, nil, cons, Fields, end, field}
use palaver.Summary.Model.{SummarySnapshot}
use palaver.Summary.ClaudeCode.{Event}
use palaver.Summary.CodexReduce.{Runtime, reduce_codex_events}

abbrev plain_runtime : Runtime
plain_runtime = record {
  str_of = λ v. [];
  dumps = λ fs. [];
  loads = λ s. none;
  dumps_value = λ v. [];
  is_decimal = λ c. false;
}

abbrev questions : ℕ → Items
questions zero = nil
questions (suc n) = cons (obj (field (codes "question") (str (codes "Go?")) end)) (questions n)

-- A request for input with so many questions.
abbrev asking : String → ℕ → Event
asking id n = record {
  session_key = codes "s";
  kind = codes "function_call";
  payload = obj (
      field (codes "type") (str (codes "response_item")) (
        field (codes "payload")
          (obj (
            field (codes "type") (str (codes "function_call")) (
              field (codes "name") (str (codes "request_user_input")) (
                field (codes "call_id") (str (codes id)) (
                  field (codes "arguments")
                    (obj (field (codes "questions") (arr (questions n)) end)) end)))))
          end));
}

abbrev turn_of : Option SummarySnapshot → Option Text
turn_of none = none
turn_of (some s) = s.turn.text

abbrev reduce_codex : List Event → Option SummarySnapshot → Option SummarySnapshot
reduce_codex = reduce_codex_events plain_runtime (codes "s")

-- 32 questions, and one more than the limit, which makes the questions unknown.
abbrev first_events : List Event
first_events = asking "a" 32 ∷ asking "b" 1 ∷ []

-- The replay still counts the 32 questions when the next one is asked.
replayed_turn :
    turn_of (reduce_codex (first_events ++ asking "c" 1 ∷ []) none) ≡ some (codes "Agent turn open")
unfolding reduce_codex_events palaver.Json.get
replayed_turn = refl

-- The feed that starts from the snapshot of the first events does not.
fed_turn :
    turn_of (reduce_codex (asking "c" 1 ∷ []) (reduce_codex first_events none))
    ≡ some (codes "Awaiting explicit answer")
unfolding reduce_codex_events palaver.Json.get
fed_turn = refl
