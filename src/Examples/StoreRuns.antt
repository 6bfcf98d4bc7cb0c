-- ===== src/Examples/StoreRuns.antt =====
-- palaver/memory and palaver/store, run on a store of two memories, of which one corrects the other.
use palaver.Prelude.{
  ℕ, suc, true, List, [], ◌∷◌, ◌++◌, if◌then◌else◌, none, some, ◌≡◌, ◌↔◌, ◌≤◌, refl, codes, arith,
  all,
}
use palaver.Memory.Tables.{
  Memory, Evidence, Store, find_source, find_memory, has_successor, has_evidence, max_id,
}
use palaver.Memory.Statements.{
  Statement, insert_memory, delete_memories, delete_evidence, insert_or_replace_memory, execute_all,
}
use palaver.Memory.Write.{
  memory_row, EvidenceAnchor, NewMemory, Correction, integrity_error, returned, raised,
  write_memory, supersede_memory, is_superseded,
}
use palaver.Memory.AppendOnly.{Persists, memories_append_only, superseded_frozen}
use palaver.Memory.Integrity.{IsSound, leaves_evidence, statements_keep-IsSound}
use palaver.Memory.Storable.{Storable}
use palaver.Memory.Written.{
  Admissible, written, tables_after, write_memory_iff, raised_write_leaves_evidence,
}
use palaver.Memory.Scope.{in_project, read_memories, rows, scoped_rows}
use palaver.Memory.Paging.{write_memory_lands_last}
use palaver.Memory.Resolve.{resolve_evidence}
use palaver.Memory.Prune.{prune_ephemeral}
use palaver.Memory.Retention.{prune_keeps_evidence}
use palaver.Memory.Anchors.{is_valid_anchor}

abbrev inference : Memory
inference = record {
  id = 1;
  project_id = 7;
  session_id = some 3;
  statement = codes "uses pip";
  origin = codes "observer";
  tier = 4;
  supersedes = none;
  created_at = 10;
}

abbrev pub instruction : Memory
instruction = record {
  id = 2;
  project_id = 7;
  session_id = some 3;
  statement = codes "uses uv";
  origin = codes "user";
  tier = 1;
  supersedes = some 1;
  created_at = 20;
}

abbrev quoted : ℕ → ℕ → Evidence
quoted evidence_id memory_id = record {
  id = evidence_id;
  memory_id = memory_id;
  transcript_chunk_id = some 5;
  event_id = none;
  start_offset = 0;
  end_offset = 3;
}

abbrev pub store : Store
store = record {
  projects = record { id = 7; name = codes "palaver" } ∷ [];
  sessions = record { id = 3; project_id = 7; external_id = none } ∷ [];
  transcript_chunks =
      record { id = 6; text = codes "old"; created_at = 1 }
      ∷ record { id = 5; text = codes "use uv"; created_at = 1 }
      ∷ [];
  events = [];
  memories = instruction ∷ inference ∷ [];
  memory_evidence = quoted 2 2 ∷ quoted 1 1 ∷ [];
  current_state = [];
}

pub store-IsSound : IsSound store.memory_evidence store.memories
unfolding find_memory has_successor has_evidence
store-IsSound = (
  record {
    fresh = refl;
    positive = omega arith;
    tier_low = omega arith;
    tier_high = omega arith;
    linked = (inference, refl, omega arith, refl);
    evidenced = refl;
  },
  (
    record {
      fresh = refl;
      positive = omega arith;
      tier_low = omega arith;
      tier_high = omega arith;
      linked = tt;
      evidenced = refl;
    },
    tt,
  ),
)

-- An attempt to delete everything and one to replace the instruction by the inference.
abbrev attacks : List Statement
attacks = delete_memories (λ m. true) ∷ insert_or_replace_memory inference ∷ []

-- The same, once the evidence is gone.
abbrev thefts : List Statement
thefts = delete_evidence (λ e. true) ∷ attacks

attacks_leave : all leaves_evidence attacks ≡ true
unfolding leaves_evidence
attacks_leave = refl

inference_stored : find_memory 1 store.memories ≡ some inference
unfolding find_memory
inference_stored = refl

inference_superseded : has_successor 1 store.memories ≡ true
unfolding has_successor
inference_superseded = refl

memories_append_only_example : Persists 1 inference (execute_all thefts store).memories
memories_append_only_example = memories_append_only thefts store 1 inference inference_stored

superseded_frozen_example :
    (find_memory 1 (execute_all thefts store).memories ≡ some inference)
    × (has_successor 1 (execute_all thefts store).memories ≡ true)
superseded_frozen_example =
    superseded_frozen thefts store 1 inference inference_superseded inference_stored

statements_keep-IsSound_example :
    IsSound (execute_all attacks store).memory_evidence (execute_all attacks store).memories
statements_keep-IsSound_example = statements_keep-IsSound attacks store attacks_leave store-IsSound

abbrev anchor : EvidenceAnchor
anchor = record { start_offset = 0; end_offset = 3; transcript_chunk_id = some 5; event_id = none }

abbrev wish_of_tier : ℕ → NewMemory
wish_of_tier tier = record {
  project_id = 7;
  session_id = none;
  statement = codes "likes tests";
  origin = codes "user";
  tier = tier;
  supersedes = none;
  now = 30;
}

wish-Storable : Storable (wish_of_tier 3) (anchor ∷ []) store
unfolding find_source max_id
wish-Storable = record {
  project = refl;
  session = λ s h. cc;
  anchors = (
    record {
      chunk = λ c h missing. ground arith;
      event = λ e h. cc;
      start_small = omega arith;
      end_small = omega arith;
    },
    tt,
  );
  statement = refl;
  origin = refl;
  next_id = omega arith;
}

write_memory_iff_example :
    (write_memory (wish_of_tier 3) (anchor ∷ []) store
      ≡ returned 3 (written (wish_of_tier 3) (anchor ∷ []) store))
    ↔ (Admissible (wish_of_tier 3) (anchor ∷ []) store.memories
        × (3 ≡ suc (max_id store.memories))
        × (written (wish_of_tier 3) (anchor ∷ []) store
            ≡ written (wish_of_tier 3) (anchor ∷ []) store))
write_memory_iff_example =
    write_memory_iff (wish_of_tier 3) (anchor ∷ []) store 3
      (written (wish_of_tier 3) (anchor ∷ []) store) wish-Storable

abbrev after_raise : Store
after_raise = tables_after (write_memory (wish_of_tier 9) (anchor ∷ []) store)

abbrev after_return : Store
after_return = tables_after (write_memory (wish_of_tier 3) (anchor ∷ []) after_raise)

tier_nine_raises :
    write_memory (wish_of_tier 9) (anchor ∷ []) store ≡ raised integrity_error after_raise
unfolding write_memory palaver.Memory.Write.insert_parent palaver.Memory.Write.insert_anchors
    palaver.Memory.Statements.execute palaver.Memory.Statements.evidence_check
    palaver.Memory.Statements.insert_aborts find_memory palaver.Memory.Write.memory_row max_id
    has_evidence palaver.Memory.Statements.tier_check
tier_nine_raises = refl

next_returns : write_memory (wish_of_tier 3) (anchor ∷ []) after_raise ≡ returned 3 after_return
unfolding write_memory palaver.Memory.Write.insert_parent palaver.Memory.Write.insert_anchors
    palaver.Memory.Statements.execute palaver.Memory.Statements.evidence_check
    palaver.Memory.Statements.insert_aborts find_memory palaver.Memory.Write.memory_row max_id
    has_evidence palaver.Memory.Statements.tier_check palaver.Memory.Statements.collides
next_returns = refl

anchor_valid : is_valid_anchor anchor ≡ true
anchor_valid = refl

raised_write_leaves_evidence_example :
    (has_evidence 3 after_raise.memory_evidence ≡ true) × (after_raise.memories ≡ store.memories)
raised_write_leaves_evidence_example =
    raised_write_leaves_evidence (wish_of_tier 9) (wish_of_tier 3) anchor [] (anchor ∷ []) store
      after_raise after_return integrity_error 3 anchor_valid tier_nine_raises next_returns

abbrev correction : Correction
correction = record {
  statement = codes "uses uv sync";
  origin = codes "user";
  tier = 1;
  session_id = none;
  now = 40;
}

abbrev corrected : Store
corrected = tables_after (supersede_memory 2 correction (anchor ∷ []) store)

inference_is_superseded : is_superseded store 1 ≡ true
unfolding is_superseded has_successor
inference_is_superseded = refl

prune_keeps_evidence_example :
    ((k : ℕ) → resolve_evidence (prune_ephemeral 9 store).0 k ≡ resolve_evidence store k)
    × ((prune_ephemeral 9 store).0.memories ≡ store.memories)
    × ((prune_ephemeral 9 store).0.memory_evidence ≡ store.memory_evidence)
    × ((prune_ephemeral 9 store).0.events ≡ store.events)
prune_keeps_evidence_example = prune_keeps_evidence 9 store

abbrev with_session : Store
with_session = record store {
  sessions = record { id = 3; project_id = 7; external_id = none } ∷ [];
}

session_page : read_memories none (some 3) 1 with_session ≡ rows (instruction ∷ [])
unfolding read_memories palaver.Memory.Scope.session_exists scoped_rows
    palaver.Memory.Scope.in_session palaver.Memory.Scope.insert_by_id
session_page = refl

abbrev after_write : Store
after_write = tables_after (write_memory (wish_of_tier 3) (anchor ∷ []) store)

write_returns : write_memory (wish_of_tier 3) (anchor ∷ []) store ≡ returned 3 after_write
unfolding write_memory palaver.Memory.Write.insert_parent palaver.Memory.Write.insert_anchors
    palaver.Memory.Statements.execute palaver.Memory.Statements.evidence_check
    palaver.Memory.Statements.insert_aborts find_memory palaver.Memory.Write.memory_row max_id
    has_evidence palaver.Memory.Statements.tier_check palaver.Memory.Statements.collides
write_returns = refl

first_page_seen : 1 ≤ max_id store.memories
unfolding max_id
first_page_seen = omega arith

write_memory_lands_last_example :
    scoped_rows (in_project 7) 1 after_write.memories
    ≡ scoped_rows (in_project 7) 1 store.memories
      ++ (if in_project 7 (memory_row 3 (wish_of_tier 3))
          then memory_row 3 (wish_of_tier 3) ∷ []
          else [])
write_memory_lands_last_example =
    write_memory_lands_last (in_project 7) 1 (wish_of_tier 3) (anchor ∷ []) store 3 after_write
      write_returns first_page_seen
