-- ===== src/Socket/Correct.antt =====
-- `_correct` of palaver/observer/socket/protocol.py.
use palaver.Prelude.{
  ℕ, Bool, none, some, List, [], ◌∷◌, ◌==◌, leb, if◌then◌else◌, map, Text, codes, strip, is_blank,
}
use palaver.Json.{Value, str, Fields, get}
use palaver.Memory.Tables.{Evidence}
use palaver.Memory.Write.{
  EvidenceAnchor, Correction, Outcome, returned, raised, value_error, lookup_error,
  tier_user_instruction, supersede_memory,
}
use palaver.Integers.{ℤ, pos, negsuc, integer, fits_int64}
use palaver.Socket.Connection.{
  Connection, ErrorName, Attempt, failed, write_refused, overflow_error, corrected, commit,
}

abbrev pub correction_origin : Text
correction_origin = codes "user-correction"

-- `SELECT ... FROM memory_evidence WHERE memory_id = ? ORDER BY id`.
unfoldable pub insert_by_evidence_id : Evidence → List Evidence → List Evidence
insert_by_evidence_id e [] = e ∷ []
insert_by_evidence_id e (f ∷ fs) =
    let rest = insert_by_evidence_id e fs in if leb e.id f.id then e ∷ f ∷ fs else f ∷ rest

unfoldable pub evidence_of : ℕ → List Evidence → List Evidence
unfolding insert_by_evidence_id
evidence_of memory_id [] = []
evidence_of memory_id (e ∷ es) =
    let rest = evidence_of memory_id es in
    if e.memory_id == memory_id then insert_by_evidence_id e rest else rest

-- The anchor that a row was stored from.
unfoldable pub anchor_of : Evidence → EvidenceAnchor
anchor_of e = record {
  start_offset = e.start_offset;
  end_offset = e.end_offset;
  transcript_chunk_id = e.transcript_chunk_id;
  event_id = e.event_id;
}

-- The correction that a user states.
unfoldable pub user_correction : Text → ℕ → Correction
user_correction statement now = record {
  statement = strip statement;
  origin = correction_origin;
  tier = tier_user_instruction;
  session_id = none;
  now = now;
}

-- What follows `supersede_memory`.
unfoldable pub after_supersede : Bool → ℕ → Connection → Outcome → Attempt
unfolding commit
after_supersede commits memory_id c (returned k db) =
    commit commits (corrected k memory_id) (record c { current = record c.current { store = db } })
after_supersede commits memory_id c (raised e db) =
    failed (write_refused e) (record c { current = record c.current { store = db } })

-- What follows the checks of the arguments.
unfoldable pub supersede_with : Bool → ℕ → ℕ → Text → List EvidenceAnchor → Connection → Attempt
unfolding after_supersede user_correction
supersede_with commits now memory_id statement [] c = failed (write_refused lookup_error) c
supersede_with commits now memory_id statement (a ∷ anchors) c =
    after_supersede commits memory_id c
      (supersede_memory memory_id (user_correction statement now) (a ∷ anchors) c.current.store)

-- The two arguments, checked: what is raised, or the id and the statement. No memory has a negative
-- id, so the SELECT of its evidence gives no rows.
pub data Arguments : Type 0 where
  bad_arguments : ErrorName → Arguments
  arguments : ℕ → Text → Arguments

unfoldable pub bound_arguments : ℤ → Text → Arguments
bound_arguments (pos k) statement = arguments k statement
bound_arguments (negsuc k) statement = bad_arguments (write_refused lookup_error)

unfoldable pub check_statement : ℤ → Value → Arguments
unfolding bound_arguments fits_int64
check_statement memory_id (str statement) =
    if is_blank statement
    then bad_arguments (write_refused value_error)
    else if fits_int64 memory_id
    then bound_arguments memory_id statement
    else bad_arguments overflow_error
check_statement memory_id _ = bad_arguments (write_refused value_error)

unfoldable pub check_correction : Fields → Arguments
unfolding check_statement integer get
check_correction payload = elim (integer (get payload "memory_id")) [
  | none ↦ bad_arguments (write_refused value_error)
  | some memory_id ↦ check_statement memory_id (get payload "statement")
]

-- `_correct`, where `commits` says whether its commit works and `now` is the time. The statement is
-- taken to be encodable: with a lone surrogate in it the INSERT raises and the request is refused.
unfoldable pub correct_checked : Bool → ℕ → Connection → Arguments → Attempt
unfolding supersede_with evidence_of anchor_of
correct_checked commits now c (bad_arguments e) = failed e c
correct_checked commits now c (arguments k statement) =
    supersede_with commits now k statement
      (map anchor_of (evidence_of k c.current.store.memory_evidence)) c

unfoldable pub correct : Bool → ℕ → Fields → Connection → Attempt
unfolding correct_checked check_correction
correct commits now payload c = correct_checked commits now c (check_correction payload)
