-- ===== src/Socket/Accepted.antt =====
-- When a correction through palaver/observer/socket/protocol.py is not refused.
use palaver.Prelude.{
  ℕ, suc, ◌≤◌, true, false, ◌&&◌, some, List, [], ◌∷◌, ◌==◌, leb, ◌≡◌, ◌≢◌, refl, arith, map, all,
  Text, codes, Bool-cases, inl, inr, ap, ◌∙◌, text_eq,
}
use palaver.Json.{obj, str, Fields, get}
use palaver.Memory.Tables.{
  Memory, Evidence, Store, find_memory, has_successor, has_evidence, max_id,
}
use palaver.Memory.Statements.{evidence_check}
use palaver.Memory.Integrity.{IsSound}
use palaver.Memory.Anchors.{is_valid_anchor}
use palaver.Memory.Write.{
  EvidenceAnchor, returned, successor_fields, supersede_memory, is_superseded,
}
use palaver.Memory.Storable.{Storable}
use palaver.Memory.Written.{written, returns_iff}
use palaver.Socket.Connection.{Connection, corrected, commit}
use palaver.Socket.Correct.{
  arguments, user_correction, insert_by_evidence_id, evidence_of, anchor_of, after_supersede,
  supersede_with, check_correction, correct_checked, correct,
}
use palaver.Socket.Protocol.{Operation, operation, correct_op, perform, reply_to, apply_request}

find-IsSound :
    (k : ℕ) (es : List Evidence) (ms : List Memory) (m : Memory)
    → IsSound es ms
    → find_memory k ms ≡ some m
    → (1 ≤ m.tier) × (has_evidence k es ≡ true)
unfolding find_memory
find-IsSound k es [] m sound h = cc
find-IsSound k es (n ∷ ms) m (row, rest) h = elim (Bool-cases (n.id == k)) [
  | inl same ↦
      let e : n ≡ m = ground (arith, same) in
      let key : n.id ≡ k = ground (arith, same) in (rw (← e) row.tier_low, rw (← key) row.evidenced)
  | inr other ↦ find-IsSound k es ms m rest (ground (arith, other))
]

insert_nonempty :
    (e : Evidence) (l : List Evidence) → map anchor_of (insert_by_evidence_id e l) ≢ []
unfolding insert_by_evidence_id
insert_nonempty e [] h = cc
insert_nonempty e (f ∷ l) h = elim (Bool-cases (leb e.id f.id)) [
  | inl b ↦ absurd (ground (arith, b))
  | inr b ↦ absurd (ground (arith, b))
]

evidence_of_nonempty :
    (k : ℕ) (es : List Evidence) → has_evidence k es ≡ true → map anchor_of (evidence_of k es) ≢ []
unfolding evidence_of has_evidence
evidence_of_nonempty k [] named h = cc
evidence_of_nonempty k (e ∷ es) named h = elim (Bool-cases (e.memory_id == k)) [
  | inl own ↦ insert_nonempty e (evidence_of k es) (ground (arith, own))
  | inr other ↦ evidence_of_nonempty k es (ground (arith, other)) (ground (arith, other))
]

insert_valid :
    (e : Evidence) (l : List Evidence)
    → all is_valid_anchor (map anchor_of (insert_by_evidence_id e l))
      ≡ (evidence_check e && all is_valid_anchor (map anchor_of l))
unfolding insert_by_evidence_id anchor_of evidence_check
insert_valid e [] = refl
insert_valid e (f ∷ l) = ground (arith, insert_valid e l)

evidence_of_valid :
    (k : ℕ) (es : List Evidence)
    → all evidence_check es ≡ true
    → all is_valid_anchor (map anchor_of (evidence_of k es)) ≡ true
unfolding evidence_of
evidence_of_valid k [] h = refl
evidence_of_valid k (e ∷ es) h =
    ground (arith, insert_valid e (evidence_of k es), evidence_of_valid k es)

supersede_returns :
    (k now : ℕ) (s : Text) (l : List EvidenceAnchor) (db : Store) (m : Memory)
    → find_memory k db.memories ≡ some m
    → has_successor k db.memories ≡ false
    → 1 ≤ m.tier
    → l ≢ []
    → all is_valid_anchor l ≡ true
    → supersede_memory k (user_correction s now) l db
      ≡ returned
          (suc (max_id db.memories))
          (written (successor_fields k m (user_correction s now)) l db)
unfolding supersede_memory user_correction successor_fields
supersede_returns k now s l db m found first low some_evidence anchors =
    rw (found, supersede_memory)
      ((returns_iff (successor_fields k m (user_correction s now)) l db _ _).1 (
        record {
          some_evidence = some_evidence;
          anchors = anchors;
          tier_low = omega arith;
          tier_high = omega arith;
          link = (m, found, low, first);
        },
        refl,
        refl,
      ))

supersede_with_done :
    (k j now : ℕ) (s : Text) (l : List EvidenceAnchor) (c : Connection) (db : Store)
    → l ≢ []
    → supersede_memory k (user_correction s now) l c.current.store ≡ returned j db
    → (reply_to (supersede_with true now k s l c)).0 ≡ corrected j k
unfolding supersede_with after_supersede commit reply_to
supersede_with_done k j now s [] c db some_evidence e = absurd (some_evidence refl)
supersede_with_done k j now s (a ∷ l) c db some_evidence e = rw (e, after_supersede)

correct_op_lem : operation (str (codes "correct")) ≡ correct_op
unfolding operation text_eq
correct_op_lem = refl

performs :
    (now k : ℕ) (s : Text) (payload : Fields) (c : Connection) (o : Operation)
    → o ≡ correct_op
    → check_correction payload ≡ arguments k s
    → perform true now payload c o
      ≡ supersede_with true now k s
          (map anchor_of (evidence_of k c.current.store.memory_evidence))
          c
unfolding perform correct correct_checked
performs now k s payload c o op asked = rw (op, perform, asked, correct_checked)

-- A request to correct a memory that is stored and not superseded is accepted, with the next id,
-- when the tables are sound, the evidence rows pass their CHECKs, the two arguments pass theirs, the
-- commit works, the statement and the predecessor's columns can be bound and encoded (no lone
-- surrogate, no number of 2^63 or more), and what these columns and its evidence name is stored.
pub correction_accepted :
    (now : ℕ) (payload : Fields) (c : Connection) (k : ℕ) (s : Text) (m : Memory)
    → get payload "op" ≡ str (codes "correct")
    → check_correction payload ≡ arguments k s
    → IsSound c.current.store.memory_evidence c.current.store.memories
    → all evidence_check c.current.store.memory_evidence ≡ true
    → find_memory k c.current.store.memories ≡ some m
    → is_superseded c.current.store k ≡ false
    → Storable
        (successor_fields k m (user_correction s now))
        (map anchor_of (evidence_of k c.current.store.memory_evidence))
        c.current.store
    → (apply_request true now (obj payload) c).0
      ≡ corrected (suc (max_id c.current.store.memories)) k
unfolding apply_request is_superseded
correction_accepted now payload c k s m op asked sound checked found first storable =
    let db = c.current.store in
    let l = map anchor_of (evidence_of k db.memory_evidence) in
    let (low, named) = find-IsSound k db.memory_evidence db.memories m sound found in
    let some_evidence = evidence_of_nonempty k db.memory_evidence named in
    let valid = evidence_of_valid k db.memory_evidence checked in
    let o = operation (get payload "op") in
    ap (λ a. (reply_to a).0) (performs now k s payload c o (ap operation op ∙ correct_op_lem) asked)
    ∙ supersede_with_done k _ now s l c _ some_evidence
        (supersede_returns k now s l db m found first low some_evidence valid)
