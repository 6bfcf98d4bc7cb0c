-- ===== src/Extract/TierOne.antt =====
-- INV-8 at the gate of palaver/extract/quote_gate.py: which decisions get the first tier.
use palaver.Prelude.{
  ℕ, ◌+◌, ◌≤◌, Bool, true, false, ◌==◌, ==_iff, ◌⊎◌, Option, none, some, [], ◌∷◌, ◌≡◌, ◌≢◌, ◌↔◌,
  refl, sym, ap, ◌∙◌, arith, length, if◌then◌else◌, Text, codes, text_eq, eq_of_text_eq,
  text_eq_iff, starts_with, Bool-cases, inl, inr, ltb→lt, le→ltb,
}
use palaver.Memory.Tables.{Memory, Source, Store, find_memory, find_source}
use palaver.Extract.Channels.{
  human, injected, agent, tool_result, system, untagged, is_human, has_text, chunk_channel,
  body_channel, line_channel, strip_timestamp, first_line, tool_output_starts_at,
  statement_is_the_span, normalize_for_comparison,
}
use palaver.Extract.QuoteGate.{
  span_of, GroundedQuote, Decision, admitted, tier_of, reaches, grounded_at, cap_grounded,
  cap_tier_for_source, cap_codex_tier, decision_fields, admit_decision,
}
use mathlib.Core.Path.{subst}
use palaver.Memory.Write.{EvidenceAnchor, memory_row}
use palaver.Memory.Written.{written, returns_iff}
use palaver.Extract.Admitted.{Admits, admit_decision-Admits, Stands-slice, cap_grounded-anchor}

-- The words of a human turn: the chunk's first line, its timestamp aside, carries the human tag, no
-- tool output begins before the quote's end, and the statement is the quote, compared without
-- space runs and edge punctuation, and not empty then.
pub record IsHumanWord (content quote statement : Text) (end : ℕ) : Type 0 where
  pub tagged : starts_with (codes "HUMAN: ") (strip_timestamp (first_line content)) ≡ true
  pub before_tools : (t : ℕ) → tool_output_starts_at content ≡ some t → end ≤ t
  pub says : normalize_for_comparison statement ≡ normalize_for_comparison quote
  pub something : normalize_for_comparison statement ≢ []

first_tag :
    (a b c d e : Bool)
    → is_human (
        if a
        then human
        else if b
        then injected
        else if c
        then agent
        else if d
        then system
        else if e
        then tool_result
        else untagged)
      ≡ a
unfolding is_human
first_tag a b c d e = ground arith

body_human : (body : Text) → is_human (body_channel body) ≡ starts_with (codes "HUMAN: ") body
unfolding body_channel
body_human body = first_tag (starts_with (codes "HUMAN: ") body) _ _ _ _

no_lines : false ≡ starts_with (codes "HUMAN: ") (strip_timestamp (first_line []))
unfolding first_line strip_timestamp starts_with
no_lines = refl

chunk_human :
    (content : Text)
    → is_human (chunk_channel content)
      ≡ starts_with (codes "HUMAN: ") (strip_timestamp (first_line content))
unfolding chunk_channel line_channel is_human
chunk_human [] = no_lines
chunk_human (c ∷ s) = body_human (strip_timestamp (first_line (c ∷ s)))

not_reached : (o : Option ℕ) (end : ℕ) → (reaches o end ≡ false) ↔ ((t : ℕ) → o ≡ some t → end ≤ t)
unfolding reaches
not_reached none end = ((λ h t e. cc), λ h. refl)
not_reached (some u) end = ((λ h t e. ground (arith, ltb→lt u end)), λ h. le→ltb u end (h u refl))

nonempty_iff : (s : Text) → (has_text s ≡ true) ↔ (s ≢ [])
nonempty_iff [] = ((λ h. cc), λ h. absurd (h refl))
nonempty_iff (c ∷ s) = ((λ h. cc), λ h. refl)

tier_of_one :
    (content : Text) (end : ℕ) (statement span_text : Text)
    → ((tier_of content end statement span_text).0 ≡ 1)
      ↔ IsHumanWord content span_text statement end
unfolding tier_of statement_is_the_span
tier_of_one content end statement span_text = (
  λ h.
      let person : is_human (chunk_channel content) ≡ true = ground arith in
      let short : reaches (tool_output_starts_at content) end ≡ false = ground arith in
      let said : statement_is_the_span statement span_text ≡ true = ground arith in
      record {
        tagged = sym (chunk_human content) ∙ person;
        before_tools = (not_reached (tool_output_starts_at content) end).0 short;
        says =
            eq_of_text_eq (normalize_for_comparison statement) (normalize_for_comparison span_text)
              (ground arith);
        something = (nonempty_iff (normalize_for_comparison statement)).0 (ground arith);
      },
  λ w.
      let person : is_human (chunk_channel content) ≡ true = chunk_human content ∙ w.tagged in
      let short = (not_reached (tool_output_starts_at content) end).1 w.before_tools in
      let same =
        (text_eq_iff (normalize_for_comparison statement) (normalize_for_comparison span_text)).1
          w.says in
      let full = (nonempty_iff (normalize_for_comparison statement)).1 w.something in
      rw (person, short, full, same) refl,
)

two_tiers :
    (content : Text) (end : ℕ) (statement span_text : Text)
    → let t = (tier_of content end statement span_text).0 in (t ≡ 1) ⊎ (t ≡ 4)
unfolding tier_of
two_tiers content end statement span_text = ground arith

cap_grounded-tier :
    (g : GroundedQuote) (source : Text)
    → (cap_grounded g source).tier ≡ cap_tier_for_source g.tier source
unfolding cap_grounded
cap_grounded-tier g source = elim (Bool-cases (cap_tier_for_source g.tier source == g.tier)) [
  | inl e ↦ rw e (sym ((==_iff _ _).0 e))
  | inr e ↦ rw e refl
]

cap_one :
    (t : ℕ) (source : Text)
    → (t ≡ 1) ⊎ (t ≡ 4)
    → let capped = cap_tier_for_source t source in
      ((capped ≡ 1) ↔ ((t ≡ 1) × (source ≢ codes "codex"))) × ((capped ≢ 1) → (capped ≡ 4))
unfolding cap_tier_for_source cap_codex_tier
cap_one t source h = elim (Bool-cases (text_eq source (codes "codex"))) [
  | inl e ↦
      let codex : source ≡ codes "codex" = (text_eq_iff source (codes "codex")).0 e in
      rw e ((λ k. absurd (ground arith), λ (one, other). absurd (other codex)), λ k. ground arith)
  | inr e ↦ rw e (
    (
      λ one. (one, λ codex. ground (arith, (text_eq_iff source (codes "codex")).1 codex)),
      λ (one, other). one,
    ),
    λ k. ground arith,
  )
]

-- The tier that an admission gives, from the tests on the chunk.
Admits-tier :
    (db : Store) (d : Decision) (quote : Text) (c : ℕ) (cited : Option (ℕ × ℕ)) (k : ℕ)
    (g : GroundedQuote) (db' : Store) (a : Admits db d quote c cited k g db')
    → g.tier
      ≡ cap_tier_for_source
          (tier_of a.grounds.chunk.text (a.grounds.start + length quote) d.statement quote).0
          d.source
unfolding grounded_at
Admits-tier db d quote c cited k g db' a =
    let content = a.grounds.chunk.text in
    let end = a.grounds.start + length quote in
    ap (λ (x : GroundedQuote). x.tier) a.capped
    ∙ cap_grounded-tier a.ground d.source
    ∙ ap (λ (x : GroundedQuote). cap_tier_for_source x.tier d.source) a.grounds.value
    ∙ ap (λ t. cap_tier_for_source (tier_of content end d.statement t).0 d.source)
        (Stands-slice content quote (span_of content cited) a.grounds.start a.grounds.stands)

Admits-end :
    (db : Store) (d : Decision) (quote : Text) (c : ℕ) (cited : Option (ℕ × ℕ)) (k : ℕ)
    (g : GroundedQuote) (db' : Store) (a : Admits db d quote c cited k g db')
    → g.anchor.end_offset ≡ a.grounds.start + length quote
unfolding grounded_at
Admits-end db d quote c cited k g db' a =
    ap (λ (x : GroundedQuote). x.anchor.end_offset) a.capped
    ∙ ap (λ (x : EvidenceAnchor). x.end_offset) (cap_grounded-anchor a.ground d.source)
    ∙ ap (λ (x : GroundedQuote). x.anchor.end_offset) a.grounds.value

quote_tier_iff :
    (db : Store) (d : Decision) (quote : Text) (c : ℕ) (cited : Option (ℕ × ℕ)) (k : ℕ)
    (g : GroundedQuote) (db' : Store)
    → Admits db d quote c cited k g db'
    → ((g.tier ≡ 1) ↔ (
        (chunk : Source) × (find_source c db.transcript_chunks ≡ some chunk)
        × IsHumanWord chunk.text quote d.statement g.anchor.end_offset
        × (d.source ≢ codes "codex")))
      × ((g.tier ≢ 1) → (g.tier ≡ 4))
quote_tier_iff db d quote c cited k g db' a =
    let content = a.grounds.chunk.text in
    let end = a.grounds.start + length quote in
    let tier = Admits-tier db d quote c cited k g db' a in
    let ends = Admits-end db d quote c cited k g db' a in
    let (one, other) =
      cap_one (tier_of content end d.statement quote).0 d.source
        (two_tiers content end d.statement quote) in
    let word = tier_of_one content end d.statement quote in
    rw (tier, ends)
      (
        (
          λ first.
              let (t, source) = one.0 first in
              (a.grounds.chunk, a.grounds.stored, word.0 t, source),
          λ (chunk, stored, w, source).
              let same : chunk ≡ a.grounds.chunk = cc (stored, a.grounds.stored) in
              one.1 (
                word.1 (subst (λ (x : Source). IsHumanWord x.text quote d.statement end) same w),
                source,
              ),
        ),
        other,
      )

-- The memory that an admission stores under the id that it returns.
admitted_memory :
    (db : Store) (d : Decision) (quote : Text) (c : ℕ) (cited : Option (ℕ × ℕ)) (k : ℕ)
    (g : GroundedQuote) (db' : Store)
    → Admits db d quote c cited k g db'
    → (m : Memory) × (find_memory k db'.memories ≡ some m)
      × (m.statement ≡ d.statement)
      × (m.tier ≡ g.tier)
unfolding written memory_row decision_fields find_memory
admitted_memory db d quote c cited k g db' a =
    let (ok, id, tables) = (returns_iff (decision_fields d g) (g.anchor ∷ []) db k db').0 a.wrote in
    let m = memory_row k (decision_fields d g) in
    let first : find_memory k (m ∷ db.memories) ≡ some m = ground arith in
    let rows : db'.memories ≡ m ∷ db.memories =
      ap (λ (x : Store). x.memories) tables
      ∙ ap (λ j. memory_row j (decision_fields d g) ∷ db.memories) (sym id) in
    (m, ap (find_memory k) rows ∙ first, refl, refl)

-- Where `admit_decision` admits a decision, the memory that is stored under the returned id has the
-- decision's statement, and it has the first tier exactly when the quote is the words of a human
-- turn, which stands in the chunk and ends before any tool output, the statement says the same, and
-- the source is not Codex. Otherwise it has the tier of an inference. The returned quote has the
-- tier that is stored.
pub admitted_tier_iff :
    (db : Store) (d : Decision) (quote : Text) (c : ℕ) (cited : Option (ℕ × ℕ)) (k : ℕ)
    (g : GroundedQuote) (db' : Store)
    → admit_decision db d quote c cited ≡ admitted k g db'
    → (m : Memory) × (find_memory k db'.memories ≡ some m)
      × (m.statement ≡ d.statement)
      × (m.tier ≡ g.tier)
      × ((m.tier ≡ 1) ↔ (
          (chunk : Source) × (find_source c db.transcript_chunks ≡ some chunk)
          × IsHumanWord chunk.text quote d.statement g.anchor.end_offset
          × (d.source ≢ codes "codex")))
      × ((m.tier ≢ 1) → (m.tier ≡ 4))
admitted_tier_iff db d quote c cited k g db' h =
    let a = admit_decision-Admits db d quote c cited k g db' h in
    let (m, found, says, same) = admitted_memory db d quote c cited k g db' a in
    let (one, other) = quote_tier_iff db d quote c cited k g db' a in
    (m, found, says, same, rw same one, rw same other)
