-- ===== src/Extract/Writes.antt =====
-- What `write_memory` leaves of the tables that palaver/extract writes to, however it ends.
use palaver.Prelude.{
  ℕ, suc, Bool, true, false, none, some, List, [], ◌∷◌, ◌++◌, ◌≡◌, ◌⊎◌, refl, sym, ap, ◌∙◌, arith,
  Bool-cases, inl, inr,
}
use mathlib.Core.List.{append_assoc}
use palaver.Memory.Tables.{Memory, Store, max_id}
use palaver.Memory.Statements.{insert_memory, execute}
use palaver.Memory.Write.{
  EvidenceAnchor, NewMemory, write_memory, insert_anchors, insert_parent, memory_row,
}
use palaver.Memory.Anchors.{is_valid_anchor, with_anchor, insert_anchor, insert_anchors-memories}
use palaver.Memory.Integrity.{IsSound}
use palaver.Memory.Written.{tables_after, write_memory-IsSound}
use palaver.Extract.Scopes.{IsDistinct}

-- What the tables keep: memories are only added, in front, and sound tables and distinct state
-- rows stay so; the transcript and the events are not touched.
pub record Keeps (db db' : Store) : Type 0 where
  pub added : (new : List Memory) × (db'.memories ≡ new ++ db.memories)
  pub sound : IsSound db.memory_evidence db.memories → IsSound db'.memory_evidence db'.memories
  pub distinct : IsDistinct db.current_state → IsDistinct db'.current_state
  pub chunks : db'.transcript_chunks ≡ db.transcript_chunks
  pub events : db'.events ≡ db.events

pub Keeps-refl : (db : Store) → Keeps db db
Keeps-refl db = record {
  added = ([], refl);
  sound = λ s. s;
  distinct = λ d. d;
  chunks = refl;
  events = refl;
}

pub Keeps-trans : (a b c : Store) → Keeps a b → Keeps b c → Keeps a c
Keeps-trans a b c k l =
    let (new, e) = k.added in
    let (newer, e') = l.added in
    record {
      added =
          (newer ++ new, e' ∙ ap (λ ms. newer ++ ms) e ∙ sym (append_assoc newer new a.memories));
      sound = λ s. l.sound (k.sound s);
      distinct = λ d. l.distinct (k.distinct d);
      chunks = l.chunks ∙ k.chunks;
      events = l.events ∙ k.events;
    }

-- The evidence loop touches the evidence alone.
record SameBut (db db' : Store) : Type 0 where
  state : db'.current_state ≡ db.current_state
  chunks : db'.transcript_chunks ≡ db.transcript_chunks
  events : db'.events ≡ db.events

insert_anchors-SameBut :
    (k : ℕ) (l : List EvidenceAnchor) (db : Store) → SameBut db (insert_anchors k l db).1
unfolding insert_anchors
insert_anchors-SameBut k [] db = record { state = refl; chunks = refl; events = refl }
insert_anchors-SameBut k (a ∷ l) db =
    let rest = insert_anchors-SameBut k l (with_anchor k a db) in
    elim (Bool-cases (is_valid_anchor a)) [
      | inl e ↦ record {
        state = ground (arith, insert_anchor k a db, e, rest.state);
        chunks = ground (arith, insert_anchor k a db, e, rest.chunks);
        events = ground (arith, insert_anchor k a db, e, rest.events);
      }
      | inr e ↦ record {
        state = ground (arith, insert_anchor k a db, e);
        chunks = ground (arith, insert_anchor k a db, e);
        events = ground (arith, insert_anchor k a db, e);
      }
    ]

insert_cases :
    (row : Memory) (d : Store)
    → (execute (insert_memory row) d ≡ none)
      ⊎ (execute (insert_memory row) d ≡ some (record d { memories = row ∷ d.memories }))
unfolding execute
insert_cases row d = ground arith

-- The tables after the INSERT into `memories`, be it aborted or not.
abbrev Grown : Store → Store → Type 0
Grown db db' = SameBut db db' × ((new : List Memory) × (db'.memories ≡ new ++ db.memories))

insert_parent-Grown :
    (row : Memory) (r : Bool × Store) → Grown r.1 (tables_after (insert_parent row r))
unfolding insert_parent
insert_parent-Grown row (false, d) =
    (record { state = refl; chunks = refl; events = refl }, ([], refl))
insert_parent-Grown row (true, d) = elim (insert_cases row d) [
  | inl e ↦
      rw (e, insert_parent) (record { state = refl; chunks = refl; events = refl }, ([], refl))
  | inr e ↦
      rw (e, insert_parent)
        (record { state = refl; chunks = refl; events = refl }, (row ∷ [], refl))
]

empty_write : (n : NewMemory) (db : Store) → Keeps db (tables_after (write_memory n [] db))
unfolding write_memory
empty_write n db = Keeps-refl db

write_Grown :
    (n : NewMemory) (a : EvidenceAnchor) (l : List EvidenceAnchor) (db : Store)
    → Grown db (tables_after (write_memory n (a ∷ l) db))
unfolding write_memory
write_Grown n a l db =
    let k = suc (max_id db.memories) in
    let r = insert_anchors k (a ∷ l) db in
    let loop = insert_anchors-SameBut k (a ∷ l) db in
    let (same, (new, grown)) = insert_parent-Grown (memory_row k n) r in
    (
      record {
        state = same.state ∙ loop.state;
        chunks = same.chunks ∙ loop.chunks;
        events = same.events ∙ loop.events;
      },
      (new, grown ∙ ap (λ ms. new ++ ms) (insert_anchors-memories k (a ∷ l) db)),
    )

pub write_memory-Keeps :
    (n : NewMemory) (l : List EvidenceAnchor) (db : Store)
    → Keeps db (tables_after (write_memory n l db))
write_memory-Keeps n [] db = empty_write n db
write_memory-Keeps n (a ∷ l) db =
    let k = suc (max_id db.memories) in
    let r = insert_anchors k (a ∷ l) db in
    let (same, grown) = write_Grown n a l db in
    record {
      added = grown;
      sound = write_memory-IsSound n (a ∷ l) db;
      distinct = λ d. rw same.state d;
      chunks = same.chunks;
      events = same.events;
    }
