-- ===== src/Extract/Persist.antt =====
-- `persist_extraction` of palaver/extract/persist.py. Timestamps are one argument.
use palaver.Prelude.{ℕ, Option, none, some, List, [], ◌∷◌, ◌++◌, Text, codes}
use palaver.Signals.{Extraction}
use palaver.Memory.Tables.{Store}
use palaver.Memory.Write.{WriteError}
use palaver.Extract.QuoteGate.{Decision, Admission, admitted, not_grounded, refused, admit_decision}
use palaver.Extract.State.{StateScope, upsert_current_state}

pub record GroundedClaim : Type 0 where
  pub statement : Text
  pub quote : Text
  pub transcript_chunk_id : ℕ
  pub cited_span : Option (ℕ × ℕ)

-- `Extraction`: the four ephemeral fields, and the claims that become memories.
pub record Findings : Type 0 where
  pub fields : Extraction
  pub decisions : List GroundedClaim
  pub resolved_questions : List GroundedClaim

-- The arguments of `persist_extraction` but for the extraction.
pub record Persisting : Type 0 where
  pub project_id : ℕ
  pub session_id : Option ℕ
  pub origin : Text
  pub source : Text
  pub now : ℕ

pub data PersistError : Type 0 where
  quote_not_grounded : PersistError
  write_refused : WriteError → PersistError

-- The ids that the claims got, or the exception; with the tables of the transaction.
pub data Claims : Type 0 where
  all_admitted : List ℕ → Store → Claims
  claim_raised : PersistError → Store → Claims

-- `PersistResult`, or the exception.
pub data Persisted : Type 0 where
  persisted : List Text → List ℕ → List ℕ → Store → Persisted
  persist_raised : PersistError → Store → Persisted

-- The pairs that the first loop runs over.
unfoldable pub ephemeral_fields : Extraction → List (Text × Option Text)
ephemeral_fields e =
    (codes "current_task", e.current_task)
    ∷ (codes "remaining_work", e.remaining_work)
    ∷ (codes "blockers_now", e.blockers_now)
    ∷ (codes "open_questions", e.open_questions)
    ∷ []

-- The first loop.
unfoldable pub write_fields : Persisting → List (Text × Option Text) → Store → List Text × Store
write_fields p [] db = ([], db)
write_fields p ((key, none) ∷ rest) db = write_fields p rest db
write_fields p ((key, some value) ∷ rest) db =
    let scope : StateScope = record {
      project_id = p.project_id;
      session_id = p.session_id;
      key = key;
    } in
    let (keys, db') = write_fields p rest (upsert_current_state scope value p.now db) in
    (key ∷ keys, db')

-- The arguments of `_admit_claim`.
unfoldable pub claim_decision : Persisting → Text → GroundedClaim → Decision
claim_decision p suffix claim = record {
  project_id = p.project_id;
  session_id = p.session_id;
  statement = claim.statement;
  origin = p.origin ++ suffix;
  supersedes = none;
  source = p.source;
  now = p.now;
}

unfoldable pub admit_claim : Persisting → Text → GroundedClaim → Store → Admission
admit_claim p suffix claim db =
    admit_decision db (claim_decision p suffix claim) claim.quote claim.transcript_chunk_id
      claim.cited_span

unfoldable pub cons_id : ℕ → Claims → Claims
cons_id k (all_admitted ks db) = all_admitted (k ∷ ks) db
cons_id k (claim_raised e db) = claim_raised e db

-- A claim's admission, and the claims after it.
unfoldable pub next_claim : (Store → Claims) → Admission → Claims
next_claim rest (admitted k g db) = cons_id k (rest db)
next_claim rest (not_grounded db) = claim_raised quote_not_grounded db
next_claim rest (refused e db) = claim_raised (write_refused e) db

-- The comprehension over the claims.
unfoldable pub admit_claims : Persisting → Text → List GroundedClaim → Store → Claims
admit_claims p suffix [] db = all_admitted [] db
admit_claims p suffix (claim ∷ claims) db =
    next_claim (admit_claims p suffix claims) (admit_claim p suffix claim db)

unfoldable pub with_questions : List Text → List ℕ → Claims → Persisted
with_questions keys decisions (all_admitted questions db) = persisted keys decisions questions db
with_questions keys decisions (claim_raised e db) = persist_raised e db

unfoldable pub with_decisions : Persisting → List Text → List GroundedClaim → Claims → Persisted
with_decisions p keys questions (all_admitted decisions db) =
    with_questions keys decisions (admit_claims p (codes ":resolved_question") questions db)
with_decisions p keys questions (claim_raised e db) = persist_raised e db

-- `persist_extraction`.
unfoldable pub persist_extraction : Persisting → Findings → Store → Persisted
persist_extraction p f db =
    let (keys, db') = write_fields p (ephemeral_fields f.fields) db in
    with_decisions p keys f.resolved_questions (admit_claims p (codes ":decision") f.decisions db')
