-- ===== src/Extract/Admitted.antt =====
-- What `admit_decision` of palaver/extract/quote_gate.py writes, and with which tier.
use palaver.Prelude.{
  ℕ, suc, ◌+◌, ◌≤◌, true, ◌==◌, Option, none, some, List, [], ◌∷◌, ◌++◌, ◌≡◌, refl, sym, ap, ◌∙◌,
  arith, length, Text, Bool-cases, Option-cases, inl, inr, length-append, le→ltb,
}
use palaver.Memory.Tables.{
  Evidence, Source, Store, find_source, find_evidence, max_evidence_id, max_id,
}
use palaver.Memory.Write.{
  EvidenceAnchor, NewMemory, Outcome, returned, raised, write_memory, insert_anchors, evidence_row,
}
use palaver.Memory.Anchors.{is_valid_anchor, with_anchor, insert_anchor}
use palaver.Memory.Resolve.{slice, resolved, slice_source, resolve_row, resolve_evidence}
use palaver.Memory.Written.{written, returns_iff}
use palaver.Extract.QuoteGate.{
  span_of, GroundedQuote, Decision, admitted, grounded_at, ground_quote, cap_grounded,
  cap_tier_for_source, decision_fields, admission, admit_decision,
}
use palaver.Extract.Grounded.{Stands, Grounds, ground_quote-Grounds, slice-split}

admission-admitted :
    (g g' : GroundedQuote) (o : Outcome) (k : ℕ) (db : Store)
    → admission g o ≡ admitted k g' db
    → (g' ≡ g) × (o ≡ returned k db)
unfolding admission
admission-admitted g g' (returned j db') k db h = (cc, cc)
admission-admitted g g' (raised e db') k db h = cc

-- The parts of an admission.
pub record Admits (db : Store) (d : Decision) (quote : Text) (chunk_id : ℕ) (cited : Option (ℕ × ℕ))
    (k : ℕ) (g : GroundedQuote) (db' : Store) : Type 0 where
  pub ground : GroundedQuote
  pub grounds : Grounds db chunk_id quote d.statement cited ground
  pub capped : g ≡ cap_grounded ground d.source
  pub wrote : write_memory (decision_fields d g) (g.anchor ∷ []) db ≡ returned k db'

pub admit_decision-Admits :
    (db : Store) (d : Decision) (quote : Text) (chunk_id : ℕ) (cited : Option (ℕ × ℕ)) (k : ℕ)
    (g : GroundedQuote) (db' : Store)
    → admit_decision db d quote chunk_id cited ≡ admitted k g db'
    → Admits db d quote chunk_id cited k g db'
unfolding admit_decision
admit_decision-Admits db d quote chunk_id cited k g db' h =
    elim (Option-cases (ground_quote db chunk_id quote d.statement cited)) [
      | inl none_found ↦ absurd (ground (arith, none_found))
      | inr (g0, found) ↦
          let capped = cap_grounded g0 d.source in
          let (same, wrote) =
            admission-admitted capped g
              (write_memory (decision_fields d capped) (capped.anchor ∷ []) db) k db'
              (rw (found, admit_decision) at h) in
          record {
            ground = g0;
            grounds = ground_quote-Grounds db chunk_id quote d.statement cited g0 found;
            capped = same;
            wrote = rw same wrote;
          }
    ]

one_anchor :
    (k : ℕ) (a : EvidenceAnchor) (db : Store)
    → is_valid_anchor a ≡ true
    → (insert_anchors k (a ∷ []) db).1 ≡ with_anchor k a db
unfolding insert_anchors
one_anchor k a db h = ground (arith, insert_anchor k a db, h)

pub cap_grounded-anchor :
    (g : GroundedQuote) (source : Text) → (cap_grounded g source).anchor ≡ g.anchor
unfolding cap_grounded
cap_grounded-anchor g source = elim (Bool-cases (cap_tier_for_source g.tier source == g.tier)) [
  | inl e ↦ rw e refl
  | inr e ↦ rw e refl
]

-- A quote that stands in a text is what a slice of the text gives.
pub Stands-slice :
    (content quote : Text) (span : ℕ × ℕ) (start : ℕ)
    → Stands content quote span start
    → slice content start (start + length quote) ≡ quote
Stands-slice content quote span start s =
    ap (λ t. slice t start (start + length quote)) s.split
    ∙ slice-split s.pre quote s.post start (start + length quote) s.begins refl

Stands-fits :
    (content quote : Text) (span : ℕ × ℕ) (start : ℕ)
    → Stands content quote span start
    → start + length quote ≤ length content
Stands-fits content quote span start s = omega (
  arith,
  ap length s.split,
  s.begins,
  length-append s.pre (quote ++ s.post),
  length-append quote s.post,
)

-- The evidence row of a memory that is written with one anchor.
unfoldable anchored : ℕ → ℕ → ℕ → ℕ → ℕ → Evidence
anchored e k c start end = record {
  id = e;
  memory_id = k;
  transcript_chunk_id = some c;
  event_id = none;
  start_offset = start;
  end_offset = end;
}

find-anchored :
    (e k c start end : ℕ) (es : List Evidence)
    → find_evidence e (anchored e k c start end ∷ es) ≡ some (anchored e k c start end)
unfolding find_evidence anchored
find-anchored e k c start end es = ground arith

resolve-anchored :
    (e k c start end : ℕ) (db : Store) (chunk : Source)
    → find_evidence e db.memory_evidence ≡ some (anchored e k c start end)
    → find_source c db.transcript_chunks ≡ some chunk
    → end ≤ length chunk.text
    → resolve_evidence db e ≡ resolved (slice chunk.text start end)
unfolding resolve_evidence resolve_row slice_source anchored
resolve-anchored e k c start end db chunk found stored fits =
    ground (arith, found, stored, le→ltb (length chunk.text) end fits)

written_one :
    (n : NewMemory) (a : EvidenceAnchor) (db : Store)
    → is_valid_anchor a ≡ true
    → ((written n (a ∷ []) db).memory_evidence
        ≡ (with_anchor (suc (max_id db.memories)) a db).memory_evidence)
      × ((written n (a ∷ []) db).transcript_chunks ≡ db.transcript_chunks)
unfolding written
written_one n a db h =
    let e = one_anchor (suc (max_id db.memories)) a db h in
    (ap (λ (x : Store). x.memory_evidence) e, ap (λ (x : Store). x.transcript_chunks) e)

-- What `admit_decision` adds to the evidence.
admitted_row :
    (db : Store) (d : Decision) (quote : Text) (c : ℕ) (cited : Option (ℕ × ℕ)) (k : ℕ)
    (g : GroundedQuote) (db' : Store) (a : Admits db d quote c cited k g db')
    → (db'.memory_evidence
        ≡ anchored
            (suc (max_evidence_id db.memory_evidence))
            k
            c
            a.grounds.start
            (a.grounds.start + length quote)
          ∷ db.memory_evidence)
      × (db'.transcript_chunks ≡ db.transcript_chunks)
unfolding evidence_row anchored grounded_at
admitted_row db d quote c cited k g db' a =
    let (ok, id, tables) = (returns_iff (decision_fields d g) (g.anchor ∷ []) db k db').0 a.wrote in
    let same : g.anchor
        ≡ (grounded_at c a.grounds.chunk.text quote d.statement a.grounds.start).anchor =
      ap (λ (x : GroundedQuote). x.anchor) a.capped
      ∙ cap_grounded-anchor a.ground d.source
      ∙ ap (λ (x : GroundedQuote). x.anchor) a.grounds.value in
    let n = decision_fields d g in
    let one = written_one n g.anchor db (ground (arith, ok.anchors)) in
    let es = db.memory_evidence in
    (
      ap (λ (x : Store). x.memory_evidence) tables
          ∙ one.0
          ∙ ap (λ x. (with_anchor (suc (max_id db.memories)) x db).memory_evidence) same
          ∙ ap
              (λ j.
                anchored (suc (max_evidence_id es)) j c a.grounds.start
                  (a.grounds.start + length quote)
                ∷ es)
              (sym id),
      ap (λ (x : Store). x.transcript_chunks) tables ∙ one.1,
    )

-- A decision that `admit_decision` admits is backed, under the id of the memory that it wrote, by
-- an evidence row, the next after those stored, that resolves to the very quote.
pub admit_decision-resolves :
    (db : Store) (d : Decision) (quote : Text) (c : ℕ) (cited : Option (ℕ × ℕ)) (k : ℕ)
    (g : GroundedQuote) (db' : Store)
    → admit_decision db d quote c cited ≡ admitted k g db'
    → let e = suc (max_evidence_id db.memory_evidence) in
      (resolve_evidence db' e ≡ resolved quote)
      × ((row : Evidence) × (find_evidence e db'.memory_evidence ≡ some row) × (row.memory_id ≡ k))
unfolding anchored
admit_decision-resolves db d quote c cited k g db' h =
    let a = admit_decision-Admits db d quote c cited k g db' h in
    let (rows, chunks) = admitted_row db d quote c cited k g db' a in
    let e : ℕ = suc (max_evidence_id db.memory_evidence) in
    let start = a.grounds.start in
    let content = a.grounds.chunk.text in
    let span = span_of content cited in
    let row = anchored e k c start (start + length quote) in
    let found : find_evidence e db'.memory_evidence ≡ some row =
      ap (find_evidence e) rows
      ∙ find-anchored e k c start (start + length quote) db.memory_evidence in
    (
      resolve-anchored e k c start (start + length quote) db' a.grounds.chunk found
            (ap (find_source c) chunks ∙ a.grounds.stored)
            (Stands-fits content quote span start a.grounds.stands)
          ∙ ap resolved (Stands-slice content quote span start a.grounds.stands),
      (row, found, refl),
    )
