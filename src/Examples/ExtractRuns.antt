-- ===== src/Examples/ExtractRuns.antt =====
-- palaver/extract, run on a chunk with one human turn.
use palaver.Prelude.{
  ℕ, suc, Option, none, some, List, [], ◌∷◌, ◌≡◌, ◌≢◌, ◌↔◌, refl, Text, codes, length,
}
use palaver.Memory.Tables.{
  Evidence, Memory, Source, StateRow, Store, find_evidence, find_memory, find_source,
  max_evidence_id,
}
use palaver.Memory.Written.{written}
use palaver.Memory.Resolve.{resolved, resolve_evidence}
use palaver.Extract.QuoteGate.{
  Decision, GroundedQuote, admitted, anchored_human_turn, admit_decision, decision_fields,
}
use palaver.Extract.Channels.{human}
use palaver.Extract.Admitted.{admit_decision-resolves}
use palaver.Extract.TierOne.{IsHumanWord, admitted_tier_iff}
use palaver.Extract.State.{StateScope, upsert_current_state}
use palaver.Extract.Scopes.{IsDistinct, state_value}
use palaver.Extract.Upsert.{upsert_current_state_lem}
use palaver.Extract.Persist.{Findings, Persisting, persist_extraction}
use palaver.Extract.Writes.{Keeps}
use palaver.Extract.Keeps.{after_persist, persist_extraction-Keeps}

abbrev empty_store : Store
empty_store = record {
  projects = [];
  sessions = [];
  transcript_chunks = record { id = 5; text = codes "HUMAN: use uv"; created_at = 1 } ∷ [];
  events = [];
  memories = [];
  memory_evidence = [];
  current_state = [];
}

abbrev decision : Decision
decision = record {
  project_id = 7;
  session_id = none;
  statement = codes "use uv.";
  origin = codes "observer";
  supersedes = none;
  source = codes "claude-code";
  now = 3;
}

abbrev decision_quote : GroundedQuote
decision_quote = record {
  anchor = record {
    start_offset = 7;
    end_offset = 13;
    transcript_chunk_id = some 5;
    event_id = none;
  };
  tier = 1;
  channel = human;
  span_text = codes "use uv";
  reason = anchored_human_turn;
}

decision_admitted :
    admit_decision empty_store decision (codes "use uv") 5 none
    ≡ admitted 1 decision_quote
        (written (decision_fields decision decision_quote) (decision_quote.anchor ∷ []) empty_store)
unfolding admit_decision palaver.Extract.QuoteGate.ground_quote palaver.Prelude.is_blank find_source
    palaver.Extract.QuoteGate.ground_in palaver.Extract.QuoteGate.span_of palaver.Prelude.find
    palaver.Memory.Resolve.slice palaver.Extract.QuoteGate.admission
    palaver.Memory.Write.write_memory palaver.Memory.Write.insert_parent
    palaver.Memory.Write.insert_anchors palaver.Memory.Statements.execute
    palaver.Memory.Statements.evidence_check palaver.Extract.QuoteGate.cap_grounded
    palaver.Extract.QuoteGate.cap_tier_for_source palaver.Prelude.text_eq
    palaver.Extract.Channels.body_channel palaver.Extract.Channels.char_at
    palaver.Extract.Channels.chunk_channel palaver.Extract.Channels.emit_word
    palaver.Extract.Channels.first_line palaver.Extract.Channels.is_human
    palaver.Extract.Channels.is_tool_result palaver.Extract.Channels.join_words
    palaver.Extract.Channels.line_channel palaver.Extract.Channels.lines_of
    palaver.Extract.Channels.normalize_for_comparison palaver.Extract.Channels.statement_is_the_span
    palaver.Extract.Channels.strip_timestamp palaver.Extract.Channels.tool_output_from
    palaver.Extract.Channels.tool_output_starts_at palaver.Extract.Channels.words_from
    palaver.Extract.QuoteGate.cap_codex_tier palaver.Extract.QuoteGate.codex_tier_cap_lifted
    decision_fields palaver.Extract.QuoteGate.grounded_at palaver.Extract.QuoteGate.reaches
    palaver.Extract.QuoteGate.tier_of palaver.Ingest.Tail.extend_first
    palaver.Ingest.Tail.split_lines palaver.Memory.Statements.assign
    palaver.Memory.Statements.assign_where palaver.Memory.Statements.collides
    palaver.Memory.Statements.insert_aborts palaver.Memory.Statements.tier_check
    palaver.Memory.Statements.update_aborts palaver.Memory.Statements.without_collisions
    palaver.Memory.Tables.find_memory palaver.Memory.Tables.has_evidence
    palaver.Memory.Tables.has_successor max_evidence_id palaver.Memory.Tables.max_id
    palaver.Memory.Tables.names_predecessor palaver.Memory.Write.evidence_row
    palaver.Memory.Write.memory_row palaver.Prelude.is_space palaver.Prelude.lstrip_by
    palaver.Prelude.starts_with palaver.Prelude.strip_by written
decision_admitted = refl

abbrev after_decision : Store
after_decision =
    written (decision_fields decision decision_quote) (decision_quote.anchor ∷ []) empty_store

abbrev next_evidence : ℕ
next_evidence = suc (max_evidence_id empty_store.memory_evidence)

admit_decision-resolves_example :
    (resolve_evidence after_decision next_evidence ≡ resolved (codes "use uv"))
    × ((row : Evidence) × (find_evidence next_evidence after_decision.memory_evidence ≡ some row)
        × (row.memory_id ≡ 1))
admit_decision-resolves_example =
    admit_decision-resolves empty_store decision (codes "use uv") 5 none 1 decision_quote
      after_decision decision_admitted

admitted_tier_iff_example :
    (m : Memory) × (find_memory 1 after_decision.memories ≡ some m)
    × (m.statement ≡ decision.statement)
    × (m.tier ≡ decision_quote.tier)
    × ((m.tier ≡ 1) ↔ (
        (chunk : Source) × (find_source 5 empty_store.transcript_chunks ≡ some chunk)
        × IsHumanWord chunk.text
            (codes "use uv")
            decision.statement
            decision_quote.anchor.end_offset
        × (decision.source ≢ codes "codex")))
    × ((m.tier ≢ 1) → (m.tier ≡ 4))
admitted_tier_iff_example =
    admitted_tier_iff empty_store decision (codes "use uv") 5 none 1 decision_quote after_decision
      decision_admitted

abbrev task : StateScope
task = record { project_id = 7; session_id = none; key = codes "current_task" }

abbrev blockers : StateScope
blockers = record { project_id = 7; session_id = none; key = codes "blockers_now" }

abbrev states : List StateRow
states =
    record {
      id = 1;
      project_id = 7;
      session_id = none;
      key = codes "blockers_now";
      value = codes "none";
      updated_at = 1;
    }
    ∷ []

abbrev with_states : Store
with_states = record empty_store { current_state = states }

upsert_current_state_lem_example :
    let after = (upsert_current_state task (codes "tests") 3 with_states).current_state in
    IsDistinct after
    × ((blockers ≡ task) → state_value blockers after ≡ some (codes "tests"))
    × ((blockers ≢ task) → state_value blockers after ≡ state_value blockers states)
upsert_current_state_lem_example =
    upsert_current_state_lem task blockers (codes "tests") 3 with_states (tt, tt)

abbrev persisting : Persisting
persisting = record {
  project_id = 7;
  session_id = none;
  origin = codes "observer";
  source = codes "claude-code";
  now = 3;
}

-- One field, one decision that stands in the chunk and one question that does not.
abbrev findings : Findings
findings = record {
  fields = record {
    current_task = some (codes "tests");
    remaining_work = none;
    blockers_now = none;
    open_questions = none;
  };
  decisions =
      record {
        statement = codes "use uv.";
        quote = codes "use uv";
        transcript_chunk_id = 5;
        cited_span = none;
      }
      ∷ [];
  resolved_questions =
      record {
        statement = codes "pip?";
        quote = codes "pip";
        transcript_chunk_id = 5;
        cited_span = none;
      }
      ∷ [];
}

persist_extraction-Keeps_example :
    Keeps with_states (after_persist (persist_extraction persisting findings with_states))
persist_extraction-Keeps_example = persist_extraction-Keeps persisting findings with_states
