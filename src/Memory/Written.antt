-- ===== src/Memory/Written.antt =====
-- When `write_memory` succeeds, and what it leaves behind on each way out.
use palaver.Prelude.{
  ℕ, suc, ◌≤◌, Bool, true, false, Option, none, some, List, [], ◌∷◌, ◌≡◌, ◌≢◌, ◌↔◌, inl, inr, refl,
  ap, sym, ◌∙◌, arith, all, Option-cases,
}
use palaver.Memory.Tables.{
  Memory, Evidence, Store, find_memory, has_successor, has_evidence, max_id,
}
use palaver.Memory.Statements.{insert_memory, insert_aborts, tier_check, execute}
use palaver.Memory.Rows.{no_collision}
use palaver.Memory.Integrity.{
  IsSound, IsSoundRow, leaves_evidence, IsSound-evidence, Linked, execute-IsSound,
  insert-IsSoundRow,
}
use palaver.Memory.Write.{
  EvidenceAnchor, NewMemory, WriteError, Outcome, returned, raised, memory_row, insert_anchors,
  insert_parent, write_memory,
}
use palaver.Memory.Storable.{Storable}
use palaver.Memory.Anchors.{
  is_valid_anchor, find-max_id, insert_anchors-memories, insert_anchors-valid, insert_anchors-keeps,
  insert_anchors-names,
}

-- The arguments that `write_memory` accepts: some evidence, each anchor valid, a tier in range, and
-- a predecessor, if one is named, that is stored, unsuperseded and of no smaller tier number.
pub record Admissible (n : NewMemory) (l : List EvidenceAnchor) (ms : List Memory) : Type 0 where
  pub some_evidence : l ≢ []
  pub anchors : all is_valid_anchor l ≡ true
  pub tier_low : 1 ≤ n.tier
  pub tier_high : n.tier ≤ 5
  pub link : Linked n.supersedes n.tier ms

-- The tables after a successful call.
unfoldable pub written : NewMemory → List EvidenceAnchor → Store → Store
written n l db =
    let k = suc (max_id db.memories) in
    record (insert_anchors k l db).1 { memories = memory_row k n ∷ db.memories }

not_aborted :
    (es : List Evidence) (ms : List Memory) (new : Memory) (o : Option ℕ)
    → new.supersedes ≡ o
    → find_memory new.id ms ≡ none
    → 1 ≤ new.id
    → Linked o new.tier ms
    → has_evidence new.id es ≡ true
    → insert_aborts ms es new ≡ false
unfolding insert_aborts
not_aborted es ms new none e fresh low link named = ground arith
not_aborted es ms new (some p) e fresh low (old, found, order, first) named = ground (arith, found)

link_first :
    (o : Option ℕ) (tier p : ℕ) (ms : List Memory)
    → Linked o tier ms
    → o ≡ some p
    → has_successor p ms ≡ false
link_first none tier p ms h e = cc
link_first (some q) tier p ms (old, found, order, first) e = ground (arith, first)

insert_accepted :
    (db : Store) (new : Memory)
    → insert_aborts db.memories db.memory_evidence new ≡ false
    → tier_check new.tier ≡ true
    → find_memory new.id db.memories ≡ none
    → Linked new.supersedes new.tier db.memories
    → execute (insert_memory new) db ≡ some (record db { memories = new ∷ db.memories })
unfolding execute
insert_accepted db new h t fresh link = ground (
  arith,
  no_collision new db.memories fresh
      (λ p e. link_first new.supersedes new.tier p db.memories link e),
)

insert_parent_done :
    (row : Memory) (r : Bool × Store) (db : Store)
    → r.0 ≡ true
    → execute (insert_memory row) r.1 ≡ some db
    → insert_parent row r ≡ returned row.id db
unfolding insert_parent
insert_parent_done row (true, d) db h e = rw (e, insert_parent)
insert_parent_done row (false, d) db h e = cc

insert_parent_returned :
    (row : Memory) (r : Bool × Store) (k : ℕ) (db : Store)
    → insert_parent row r ≡ returned k db
    → (r.0 ≡ true) × (execute (insert_memory row) r.1 ≡ some db)
unfolding insert_parent
insert_parent_returned row (true, d) k db h = elim (Option-cases (execute (insert_memory row) d)) [
  | inl aborted ↦ absurd (ground (arith, aborted))
  | inr (db', done) ↦ (refl, ground (arith, done))
]
insert_parent_returned row (false, d) k db h = cc

-- What an accepted INSERT passed.
insert_passed :
    (db : Store) (new : Memory) {db' : Store}
    → execute (insert_memory new) db ≡ some db'
    → (insert_aborts db.memories db.memory_evidence new ≡ false) × (tier_check new.tier ≡ true)
unfolding execute
insert_passed db new h = (ground arith, ground arith)

in_range : (t : ℕ) → 1 ≤ t → t ≤ 5 → tier_check t ≡ true
unfolding tier_check
in_range t low high = ground arith

write_memory-Admissible :
    (n : NewMemory) (l : List EvidenceAnchor) (db : Store)
    → Admissible n l db.memories
    → write_memory n l db ≡ returned (suc (max_id db.memories)) (written n l db)
unfolding write_memory written memory_row
write_memory-Admissible n [] db ok = absurd (ok.some_evidence refl)
write_memory-Admissible n (a ∷ l) db ok =
    let k = suc (max_id db.memories) in
    let r = insert_anchors k (a ∷ l) db in
    let row = memory_row k n in
    let same : r.1.memories ≡ db.memories = insert_anchors-memories k (a ∷ l) db in
    let fresh : find_memory k r.1.memories ≡ none =
      rw same (find-max_id k db.memories (omega arith)) in
    let link : Linked n.supersedes n.tier r.1.memories = rw same ok.link in
    let named : has_evidence k r.1.memory_evidence ≡ true =
      insert_anchors-names k a l db (ground (arith, ok.anchors)) in
    let passed =
      not_aborted r.1.memory_evidence r.1.memories row n.supersedes refl fresh (omega arith) link
        named in
    insert_parent_done row r (written n (a ∷ l) db) (insert_anchors-valid k (a ∷ l) db ∙ ok.anchors)
      (insert_accepted r.1 row passed (in_range n.tier ok.tier_low ok.tier_high) fresh link
        ∙ ap (λ ms. some (record r.1 { memories = row ∷ ms })) same)

returned-Admissible :
    (n : NewMemory) (l : List EvidenceAnchor) (db : Store) (k : ℕ) (db' : Store)
    → write_memory n l db ≡ returned k db'
    → Admissible n l db.memories
unfolding write_memory memory_row
returned-Admissible n [] db k db' h = cc
returned-Admissible n (a ∷ l) db k db' h =
    let j = suc (max_id db.memories) in
    let r = insert_anchors j (a ∷ l) db in
    let row = memory_row j n in
    let same : r.1.memories ≡ db.memories = insert_anchors-memories j (a ∷ l) db in
    let (valid, done) = insert_parent_returned row r k db' h in
    let (passed, checked) = insert_passed r.1 row done in
    let sound : IsSoundRow r.1.memory_evidence row r.1.memories =
      insert-IsSoundRow r.1.memory_evidence r.1.memories row passed checked in
    record {
      some_evidence = λ e. cc e;
      anchors = sym (insert_anchors-valid j (a ∷ l) db) ∙ valid;
      tier_low = sound.tier_low;
      tier_high = sound.tier_high;
      link = rw same at (sound.linked);
    }

pub returns_iff :
    (n : NewMemory) (l : List EvidenceAnchor) (db : Store) (k : ℕ) (db' : Store)
    → (write_memory n l db ≡ returned k db')
      ↔ (Admissible n l db.memories × (k ≡ suc (max_id db.memories)) × (db' ≡ written n l db))
returns_iff n l db k db' = (
  λ h.
      let ok = returned-Admissible n l db k db' h in
      let e = write_memory-Admissible n l db ok in (ok, cc (e, h), cc (e, h)),
  λ (ok, id, tables). rw (id, tables) (write_memory-Admissible n l db ok),
)

-- Let the project, the session, the chunks and the events that the arguments name be stored, their
-- texts be encodable, and the offsets and the next id be below 2^63. Then `write_memory` returns
-- exactly if there is some evidence, each anchor is valid, the tier is from 1 to 5, and a
-- predecessor, if one is named, is stored, unsuperseded and of no smaller tier number; and then the
-- id is one above the greatest, the new row stands over the memories as they were, and the anchors'
-- rows are in.
pub write_memory_iff :
    (n : NewMemory) (l : List EvidenceAnchor) (db : Store) (k : ℕ) (db' : Store)
    → Storable n l db
    → (write_memory n l db ≡ returned k db')
      ↔ (Admissible n l db.memories × (k ≡ suc (max_id db.memories)) × (db' ≡ written n l db))
write_memory_iff n l db k db' storable = returns_iff n l db k db'

-- The tables of a call's open transaction, whether it returned or raised.
abbrev pub tables_after : Outcome → Store
tables_after (returned k db) = db
tables_after (raised e db) = db

insert_parent-IsSound :
    (row : Memory) (r : Bool × Store)
    → IsSound r.1.memory_evidence r.1.memories
    → IsSound
        (tables_after (insert_parent row r)).memory_evidence
        (tables_after (insert_parent row r)).memories
unfolding insert_parent leaves_evidence
insert_parent-IsSound row (false, d) sound = sound
insert_parent-IsSound row (true, d) sound = elim (Option-cases (execute (insert_memory row) d)) [
  | inl aborted ↦ rw (aborted, insert_parent) sound
  | inr (db', done) ↦
      rw (done, insert_parent) (execute-IsSound (insert_memory row) d refl done sound)
]

-- Sound tables stay sound through any call of `write_memory`, also one that raises half way.
pub write_memory-IsSound :
    (n : NewMemory) (l : List EvidenceAnchor) (db : Store)
    → IsSound db.memory_evidence db.memories
    → IsSound
        (tables_after (write_memory n l db)).memory_evidence
        (tables_after (write_memory n l db)).memories
unfolding write_memory
write_memory-IsSound n [] db sound = sound
write_memory-IsSound n (a ∷ l) db sound =
    let k = suc (max_id db.memories) in
    insert_parent-IsSound (memory_row k n) (insert_anchors k (a ∷ l) db) (
      rw (insert_anchors-memories k (a ∷ l) db) (
        IsSound-evidence db.memory_evidence (insert_anchors k (a ∷ l) db).1.memory_evidence
          db.memories (λ j. insert_anchors-keeps k j (a ∷ l) db) sound))

insert_parent_raised :
    (row : Memory) (r : Bool × Store) (e : WriteError) (db : Store)
    → insert_parent row r ≡ raised e db
    → db ≡ r.1
unfolding insert_parent
insert_parent_raised row (false, d) e db h = cc
insert_parent_raised row (true, d) e db h = elim (Option-cases (execute (insert_memory row) d)) [
  | inl aborted ↦ ground (arith, aborted)
  | inr (db', done) ↦ absurd (ground (arith, done))
]

-- A call that raises after its first anchor was inserted leaves that evidence in the transaction,
-- under the very id that the next successful call of the same transaction gives its own memory:
-- without a rollback between them, the second memory inherits the first call's evidence.
pub raised_write_leaves_evidence :
    (n n' : NewMemory) (a : EvidenceAnchor) (l l' : List EvidenceAnchor) (db db' db'' : Store)
    (e : WriteError) (k : ℕ)
    → is_valid_anchor a ≡ true
    → write_memory n (a ∷ l) db ≡ raised e db'
    → write_memory n' l' db' ≡ returned k db''
    → (has_evidence k db'.memory_evidence ≡ true) × (db'.memories ≡ db.memories)
unfolding write_memory
raised_write_leaves_evidence n n' a l l' db db' db'' e k valid failed done =
    let j = suc (max_id db.memories) in
    let tables : db' ≡ (insert_anchors j (a ∷ l) db).1 =
      insert_parent_raised (memory_row j n) (insert_anchors j (a ∷ l) db) e db' failed in
    let same : db'.memories ≡ db.memories =
      ap (λ (d : Store). d.memories) tables ∙ insert_anchors-memories j (a ∷ l) db in
    let reused : k ≡ j =
      ((returns_iff n' l' db' k db'').0 done).1 ∙ ap (λ ms. suc (max_id ms)) same in
    (rw (reused, tables) (insert_anchors-names j a l db valid), same)
