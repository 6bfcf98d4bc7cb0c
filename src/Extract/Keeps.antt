-- ===== src/Extract/Keeps.antt =====
-- What the writers of palaver/extract leave of the tables, however they end.
use palaver.Prelude.{
  ℕ, Option, none, some, List, [], ◌∷◌, ◌≡◌, refl, Text, codes, Option-cases, inl, inr,
}
use palaver.Memory.Tables.{Store}
use palaver.Memory.Write.{Outcome, returned, raised, write_memory}
use palaver.Memory.Written.{tables_after}
use palaver.Extract.QuoteGate.{
  GroundedQuote, Decision, Admission, admitted, not_grounded, refused, ground_quote, cap_grounded,
  decision_fields, admission, admit_decision,
}
use palaver.Extract.State.{StateScope, upsert_current_state}
use palaver.Extract.Upsert.{upsert_current_state_lem}
use palaver.Extract.Persist.{
  GroundedClaim, Findings, Persisting, Claims, all_admitted, claim_raised, Persisted, persisted,
  persist_raised, ephemeral_fields, write_fields, admit_claim, claim_decision, cons_id, next_claim,
  admit_claims, with_questions, with_decisions, persist_extraction,
}
use palaver.Extract.Writes.{Keeps, Keeps-refl, Keeps-trans, write_memory-Keeps}

-- The tables after an admission, a run over claims, and a whole extraction.
abbrev pub after_admission : Admission → Store
after_admission (admitted k g db) = db
after_admission (not_grounded db) = db
after_admission (refused e db) = db

abbrev pub after_claims : Claims → Store
after_claims (all_admitted ks db) = db
after_claims (claim_raised e db) = db

abbrev pub after_persist : Persisted → Store
after_persist (persisted keys ds qs db) = db
after_persist (persist_raised e db) = db

admission-tables :
    (g : GroundedQuote) (o : Outcome) → after_admission (admission g o) ≡ tables_after o
unfolding admission
admission-tables g (returned k db) = refl
admission-tables g (raised e db) = refl

admit_decision-Keeps :
    (db : Store) (d : Decision) (quote : Text) (c : ℕ) (cited : Option (ℕ × ℕ))
    → Keeps db (after_admission (admit_decision db d quote c cited))
unfolding admit_decision
admit_decision-Keeps db d quote c cited =
    elim (Option-cases (ground_quote db c quote d.statement cited)) [
      | inl e ↦ rw (e, admit_decision) (Keeps-refl db)
      | inr (g, e) ↦
          let capped = cap_grounded g d.source in
          let o = write_memory (decision_fields d capped) (capped.anchor ∷ []) db in
          rw (e, admit_decision, admission-tables capped o)
            (write_memory-Keeps (decision_fields d capped) (capped.anchor ∷ []) db)
    ]

after-cons_id : (k : ℕ) (c : Claims) → after_claims (cons_id k c) ≡ after_claims c
unfolding cons_id
after-cons_id k (all_admitted ks db) = refl
after-cons_id k (claim_raised e db) = refl

next_claim-Keeps :
    (db : Store) (rest : Store → Claims) (a : Admission)
    → Keeps db (after_admission a)
    → ((d : Store) → Keeps d (after_claims (rest d)))
    → Keeps db (after_claims (next_claim rest a))
unfolding next_claim
next_claim-Keeps db rest (admitted k g d) h keep =
    rw (after-cons_id k (rest d)) (Keeps-trans db d (after_claims (rest d)) h (keep d))
next_claim-Keeps db rest (not_grounded d) h keep = h
next_claim-Keeps db rest (refused e d) h keep = h

admit_claims-Keeps :
    (p : Persisting) (suffix : Text) (claims : List GroundedClaim) (db : Store)
    → Keeps db (after_claims (admit_claims p suffix claims db))
unfolding admit_claims admit_claim
admit_claims-Keeps p suffix [] db = Keeps-refl db
admit_claims-Keeps p suffix (claim ∷ claims) db =
    next_claim-Keeps db (admit_claims p suffix claims)
      (admit_decision db (claim_decision p suffix claim) claim.quote claim.transcript_chunk_id
        claim.cited_span)
      (admit_decision-Keeps db (claim_decision p suffix claim) claim.quote claim.transcript_chunk_id
        claim.cited_span)
      (admit_claims-Keeps p suffix claims)

upsert-Keeps :
    (c : StateScope) (value : Text) (now : ℕ) (db : Store)
    → Keeps db (upsert_current_state c value now db)
unfolding upsert_current_state
upsert-Keeps c value now db = record {
  added = ([], refl);
  sound = λ s. s;
  distinct = λ d. (upsert_current_state_lem c c value now db d).0;
  chunks = refl;
  events = refl;
}

write_fields-Keeps :
    (p : Persisting) (fs : List (Text × Option Text)) (db : Store)
    → Keeps db (write_fields p fs db).1
unfolding write_fields
write_fields-Keeps p [] db = Keeps-refl db
write_fields-Keeps p ((key, none) ∷ fs) db = write_fields-Keeps p fs db
write_fields-Keeps p ((key, some value) ∷ fs) db =
    let c : StateScope = record {
      project_id = p.project_id;
      session_id = p.session_id;
      key = key;
    } in
    let db' = upsert_current_state c value p.now db in
    Keeps-trans db db' (write_fields p fs db').1 (upsert-Keeps c value p.now db)
      (write_fields-Keeps p fs db')

with_questions-Keeps :
    (db : Store) (keys : List Text) (ds : List ℕ) (c : Claims)
    → Keeps db (after_claims c)
    → Keeps db (after_persist (with_questions keys ds c))
unfolding with_questions
with_questions-Keeps db keys ds (all_admitted qs d) h = h
with_questions-Keeps db keys ds (claim_raised e d) h = h

with_decisions-Keeps :
    (db : Store) (p : Persisting) (keys : List Text) (qs : List GroundedClaim) (c : Claims)
    → Keeps db (after_claims c)
    → Keeps db (after_persist (with_decisions p keys qs c))
unfolding with_decisions
with_decisions-Keeps db p keys qs (all_admitted ds d) h =
    let c = admit_claims p (codes ":resolved_question") qs d in
    with_questions-Keeps db keys ds c
      (Keeps-trans db d (after_claims c) h (admit_claims-Keeps p (codes ":resolved_question") qs d))
with_decisions-Keeps db p keys qs (claim_raised e d) h = h

-- However `persist_extraction` ends, and wherever it raises, the tables of its transaction have the
-- memories from before, all and in their order, under those that were added; if they were sound
-- before they are sound, and so for state rows with ids and scopes of their own; and the transcript
-- and the events are as they were.
pub persist_extraction-Keeps :
    (p : Persisting) (f : Findings) (db : Store)
    → Keeps db (after_persist (persist_extraction p f db))
unfolding persist_extraction
persist_extraction-Keeps p f db =
    let r = write_fields p (ephemeral_fields f.fields) db in
    let c = admit_claims p (codes ":decision") f.decisions r.1 in
    with_decisions-Keeps db p r.0 f.resolved_questions c (
      Keeps-trans db r.1 (after_claims c) (write_fields-Keeps p (ephemeral_fields f.fields) db)
        (admit_claims-Keeps p (codes ":decision") f.decisions r.1))
