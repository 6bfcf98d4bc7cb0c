-- ===== src/Extract/QuoteGate.antt =====
-- palaver/extract/quote_gate.py, with the source cap of palaver/ingest/adapters/codex/tier_cap.py.
-- `none` is a QuoteNotGroundedError. A negative bound of a cited span, which the same test refuses,
-- is left out.
use palaver.Prelude.{
  ℕ, ◌+◌, ltb, leb, max, Bool, false, not, ◌&&◌, ◌==◌, Option, none, some, [], ◌∷◌, length,
  if◌then◌else◌, Text, codes, text_eq, is_blank, find,
}
use palaver.Memory.Tables.{Store, find_source}
use palaver.Memory.Write.{
  EvidenceAnchor, NewMemory, WriteError, Outcome, returned, raised, write_memory,
  tier_user_instruction, tier_observer_inference,
}
use palaver.Memory.Resolve.{slice}
use palaver.Extract.Channels.{
  LineChannel, is_human, chunk_channel, tool_output_starts_at, statement_is_the_span,
}

-- The `reason` of a GroundedQuote.
pub data Reason : Type 0 where
  not_a_human_turn : LineChannel → Reason
  reaches_tool_output : Reason
  statement_is_not_the_span : Reason
  anchored_human_turn : Reason
  demoted : Reason → ℕ → Text → Reason

pub record GroundedQuote : Type 0 where
  pub anchor : EvidenceAnchor
  pub tier : ℕ
  pub channel : LineChannel
  pub span_text : Text
  pub reason : Reason

-- Whether the quote ends behind the start of the chunk's tool output.
unfoldable pub reaches : Option ℕ → ℕ → Bool
reaches none end = false
reaches (some tool_output_at) end = ltb tool_output_at end

-- The tier and the reason, by the channel and the tests that follow it.
unfoldable pub tier_of : Text → ℕ → Text → Text → ℕ × Reason
unfolding reaches is_human
tier_of content end statement span_text =
    if not (is_human (chunk_channel content))
    then (tier_observer_inference, not_a_human_turn (chunk_channel content))
    else if reaches (tool_output_starts_at content) end
    then (tier_observer_inference, reaches_tool_output)
    else if not (statement_is_the_span statement span_text)
    then (tier_observer_inference, statement_is_not_the_span)
    else (tier_user_instruction, anchored_human_turn)

-- The quote as found at `start` in the chunk.
unfoldable pub grounded_at : ℕ → Text → Text → Text → ℕ → GroundedQuote
grounded_at chunk_id content quote statement start =
    let end = start + length quote in
    let span_text = slice content start end in
    let verdict = tier_of content end statement span_text in
    record {
      anchor = record {
        start_offset = start;
        end_offset = end;
        transcript_chunk_id = some chunk_id;
        event_id = none;
      };
      tier = verdict.0;
      channel = chunk_channel content;
      span_text = span_text;
      reason = verdict.1;
    }

-- `(0, len(content)) if cited_span is None else cited_span`.
unfoldable pub span_of : Text → Option (ℕ × ℕ) → ℕ × ℕ
span_of content none = (0, length content)
span_of content (some span) = span

-- The search of the cited span: `content.find(quote, start, end)`.
unfoldable pub ground_in : ℕ → Text → Text → Text → ℕ × ℕ → Option GroundedQuote
ground_in chunk_id content quote statement span =
    if not (ltb span.0 span.1 && leb span.1 (length content))
    then none
    else elim (find quote (slice content span.0 span.1)) [
      | none ↦ none
      | some i ↦ some (grounded_at chunk_id content quote statement (span.0 + i))
    ]

-- `ground_quote`.
unfoldable pub ground_quote : Store → ℕ → Text → Text → Option (ℕ × ℕ) → Option GroundedQuote
ground_quote db chunk_id quote statement cited_span =
    if is_blank quote then none else elim (find_source chunk_id db.transcript_chunks) [
      | none ↦ none
      | some chunk ↦ ground_in chunk_id chunk.text quote statement (span_of chunk.text cited_span)
    ]

-- `codex_tier_cap_lifted` and `cap_codex_tier`.
unfoldable pub codex_tier_cap_lifted : Bool
codex_tier_cap_lifted = false

unfoldable pub cap_codex_tier : ℕ → ℕ
unfolding codex_tier_cap_lifted
cap_codex_tier tier = if codex_tier_cap_lifted then tier else max tier tier_observer_inference

-- `cap_tier_for_source`: `SOURCE_TIER_CAPS` has the one entry.
unfoldable pub cap_tier_for_source : ℕ → Text → ℕ
cap_tier_for_source tier source =
    if text_eq source (codes "codex") then cap_codex_tier tier else tier

-- The grounded quote with the tier that the source's cap leaves.
unfoldable pub cap_grounded : GroundedQuote → Text → GroundedQuote
cap_grounded g source =
    let capped = cap_tier_for_source g.tier source in
    if capped == g.tier
    then g
    else record g { tier = capped; reason = demoted g.reason capped source }

-- The arguments of `admit_decision` but for the quote, its chunk and its span.
pub record Decision : Type 0 where
  pub project_id : ℕ
  pub session_id : Option ℕ
  pub statement : Text
  pub origin : Text
  pub supersedes : Option ℕ
  pub source : Text
  pub now : ℕ

-- `admit_decision` returns, or raises with the tables of its transaction.
pub data Admission : Type 0 where
  admitted : ℕ → GroundedQuote → Store → Admission
  not_grounded : Store → Admission
  refused : WriteError → Store → Admission

unfoldable pub decision_fields : Decision → GroundedQuote → NewMemory
decision_fields d g = record {
  project_id = d.project_id;
  session_id = d.session_id;
  statement = d.statement;
  origin = d.origin;
  tier = g.tier;
  supersedes = d.supersedes;
  now = d.now;
}

unfoldable pub admission : GroundedQuote → Outcome → Admission
admission g (returned k db) = admitted k g db
admission g (raised e db) = refused e db

-- `admit_decision`.
unfoldable pub admit_decision : Store → Decision → Text → ℕ → Option (ℕ × ℕ) → Admission
admit_decision db d quote chunk_id cited_span =
    elim (ground_quote db chunk_id quote d.statement cited_span) [
      | none ↦ not_grounded db
      | some grounded ↦
          let capped = cap_grounded grounded d.source in
          admission capped (write_memory (decision_fields d capped) (capped.anchor ∷ []) db)
    ]
