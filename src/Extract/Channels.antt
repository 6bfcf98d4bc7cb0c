-- ===== src/Extract/Channels.antt =====
-- Which channel a line of a transcript chunk is on, in palaver/extract/quote_gate.py, from the tags
-- that palaver/extract/normalize.py writes; and the comparison of a statement with a quote.
use palaver.Prelude.{
  ℕ, ◌+◌, leb, Bool, true, false, ◌&&◌, Option, none, some, List, [], ◌∷◌, ◌++◌, ◌==◌, any, length,
  drop, if◌then◌else◌, Text, codes, text_eq, is_space, strip_by, starts_with,
}
use palaver.Ingest.Tail.{split_lines}

-- The channels of `_TAG_TO_CHANNEL` and of the constants beside it.
pub data LineChannel : Type 0 where
  human injected agent tool_result system untagged : LineChannel

unfoldable pub is_tool_result : LineChannel → Bool
is_tool_result tool_result = true
is_tool_result _ = false

unfoldable pub is_human : LineChannel → Bool
is_human human = true
is_human _ = false

-- `line[i]`, for an index in range.
unfoldable pub char_at : Text → ℕ → ℕ
char_at s i = elim (drop i s) [ [] ↦ 0 | c ∷ _ ↦ c ]

abbrev pub timestamp_prefix_length : ℕ
timestamp_prefix_length = 11

-- `_strip_timestamp`.
unfoldable pub strip_timestamp : Text → Text
unfolding char_at
strip_timestamp line =
    if leb timestamp_prefix_length (length line)
      && (char_at line 0 == b'['
          && (char_at line 3 == b':'
              && (char_at line 6 == b':' && (char_at line 9 == b']' && char_at line 10 == b' '))))
    then drop timestamp_prefix_length line
    else line

-- `_TOOL_LINE_PREFIXES`.
abbrev pub tool_line_prefixes : List Text
tool_line_prefixes = codes "  tool>" ∷ codes "  result>" ∷ codes "  result[error]>" ∷ []

-- `_line_channel`, of a line whose timestamp is stripped.
unfoldable pub body_channel : Text → LineChannel
unfolding starts_with
body_channel body =
    if starts_with (codes "HUMAN: ") body
    then human
    else if starts_with (codes "INJECTED: ") body
    then injected
    else if starts_with (codes "AGENT: ") body
    then agent
    else if starts_with (codes "SYSTEM(") body
    then system
    else if any (λ p. starts_with p body) tool_line_prefixes
    then tool_result
    else untagged

-- `_line_channel`.
unfoldable pub line_channel : Text → LineChannel
line_channel line = body_channel (strip_timestamp line)

-- `content.split("\n")`.
unfoldable pub lines_of : Text → List Text
lines_of content = let (lines, rest) = split_lines content in lines ++ rest ∷ []

-- `content.split("\n", 1)[0]`.
unfoldable pub first_line : Text → Text
first_line [] = []
first_line (c ∷ s) = let rest = first_line s in if c == 10 then [] else c ∷ rest

-- `_chunk_channel`.
unfoldable pub chunk_channel : Text → LineChannel
unfolding first_line
chunk_channel [] = untagged
chunk_channel (c ∷ s) = line_channel (first_line (c ∷ s))

-- The loop of `_tool_output_starts_at`.
unfoldable pub tool_output_from : ℕ → List Text → Option ℕ
tool_output_from offset [] = none
tool_output_from offset (line ∷ lines) = elim (is_tool_result (line_channel line)) [
  | true ↦ some offset
  | false ↦ tool_output_from (offset + length line + 1) lines
]

-- `_tool_output_starts_at`.
unfoldable pub tool_output_starts_at : Text → Option ℕ
tool_output_starts_at content = tool_output_from 0 (lines_of content)

-- `_EDGE_PUNCTUATION`.
abbrev pub edge_punctuation : Text
edge_punctuation = 9 ∷ 10 ∷ codes " \"'`“”‘’«»„.,;:!?…()[]{}<>*_~-–—"

-- A finished word in front of the words that follow.
unfoldable pub emit_word : Text → List Text → List Text
emit_word [] ws = ws
emit_word (c ∷ w) ws = (c ∷ w) ∷ ws

-- `text.split()`, from the word read so far.
unfoldable pub words_from : Text → Text → List Text
unfolding emit_word
words_from word [] = emit_word word []
words_from word (c ∷ s) = elim (is_space c) [
  | true ↦ emit_word word (words_from [] s)
  | false ↦ words_from (word ++ c ∷ []) s
]

-- `" ".join(words)`.
unfoldable pub join_words : List Text → Text
join_words [] = []
join_words (w ∷ []) = w
join_words (w ∷ v ∷ ws) = w ++ b' ' ∷ join_words (v ∷ ws)

-- `normalize_for_comparison`.
unfoldable pub normalize_for_comparison : Text → Text
normalize_for_comparison text =
    strip_by (λ c. any (λ e. c == e) edge_punctuation) (join_words (words_from [] text))

abbrev pub has_text : Text → Bool
has_text [] = false
has_text (c ∷ s) = true

-- `_statement_is_the_span`.
unfoldable pub statement_is_the_span : Text → Text → Bool
statement_is_the_span statement span_text =
    has_text (normalize_for_comparison statement)
    && text_eq (normalize_for_comparison statement) (normalize_for_comparison span_text)
