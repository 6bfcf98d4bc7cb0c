-- ===== src/Ingest/Plan.antt =====
-- The sessions that `plan_tick` of palaver/observer/scheduler.py skips.
use palaver.Prelude.{
  ℕ, ◌+◌, ◌≤◌, ltb, ◌==◌, ==_iff, List, [], ◌∷◌, ◌++◌, ◌≡◌, refl, sym, ap, ◌∙◌, arith, length, drop,
  Text, Bool-cases, inl, inr, All, ltb→lt, length-append,
}
use palaver.Ingest.Tail.{read_complete_records, split_lines, nonempty_lines}
use palaver.Ingest.Resume.{unsplit, read_from, read_advances, read_after_shrink}
use palaver.Ingest.Tick.{
  Adapter, SessionRef, CursorStore, load_cursor, key_of, plan_refs, plan_tick,
}

-- A read that ends where it starts has read nothing.
nothing_read : (ls : List Text) → length (unsplit ls) ≡ 0 → nonempty_lines ls ≡ []
unfolding unsplit nonempty_lines
nothing_read [] h = refl
nothing_read (l ∷ ls) h =
    let no : ⊥ = omega (arith, length-append l (10 ∷ unsplit ls)) in elim no [ ]

pub unmoved_read :
    (file : Text) (start : ℕ)
    → (read_complete_records file start).1 ≡ start
    → (read_complete_records file start).0 ≡ []
unmoved_read file start h = elim (Bool-cases (ltb (length file) start)) [
  | inl e ↦
      let re : read_complete_records file start ≡ read_complete_records file 0 =
        read_after_shrink file start (ltb→lt (length file) start e) in
      let (low, high) = read_advances file 0 (omega arith) in
      let moved : (read_complete_records file 0).1 ≡ start = ap (λ r. r.1) (sym re) ∙ h in
      ground (arith, ltb→lt (length file) start e)
  | inr e ↦
      let inside : start ≤ length file = ground arith in
      let re = read_from file start inside in
      let ls : List Text = (split_lines (drop start file)).0 in
      let still : start + length (unsplit ls) ≡ start = ap (λ r. r.1) (sym re) ∙ h in
      ap (λ r. r.0) re ∙ nothing_read ls (omega arith)
]

-- What `tail` reads, from the file of a path, where it reads with `read_complete_records`.
abbrev pub TailsFiles : (Text → Text) → Adapter → Type 0
TailsFiles files adapter =
    (path : Text) (offset : ℕ)
    → (adapter.tail path offset).1 ≡ (read_complete_records (files path) offset).1

-- No complete record of the session's file stands past its cursor.
abbrev pub NothingNew : (Text → Text) → CursorStore → SessionRef → Type 0
NothingNew files cursors ref =
    (read_complete_records (files ref.path) (load_cursor cursors (key_of ref))).0 ≡ []

plan_refs_skips :
    (files : Text → Text) (adapter : Adapter) (cursors : CursorStore) (refs : List SessionRef)
    → TailsFiles files adapter
    → All (NothingNew files cursors) (plan_refs adapter cursors refs).skipped
unfolding plan_refs
plan_refs_skips files adapter cursors [] reads = tt
plan_refs_skips files adapter cursors (ref ∷ refs) reads =
    elim (Bool-cases (
      (adapter.tail ref.path (load_cursor cursors (key_of ref))).1
      == load_cursor cursors (key_of ref))) [
        | inl e ↦
            let before = load_cursor cursors (key_of ref) in
            let still : (adapter.tail ref.path before).1 ≡ before = (==_iff _ _).0 e in
            rw e (
              unmoved_read (files ref.path) before (sym (reads ref.path before) ∙ still),
              plan_refs_skips files adapter cursors refs reads,
            )
        | inr e ↦ rw e (plan_refs_skips files adapter cursors refs reads)
      ]

plan_refs-length :
    (adapter : Adapter) (cursors : CursorStore) (refs : List SessionRef)
    → let plan = plan_refs adapter cursors refs in
      length plan.scheduled + length plan.skipped ≡ length refs
unfolding plan_refs
plan_refs-length adapter cursors [] = omega arith
plan_refs-length adapter cursors (ref ∷ refs) =
    ground (arith, plan_refs-length adapter cursors refs)

All-append {ℓ κ} :
    {A : Type ℓ} (P : A → Type κ) (xs ys : List A) → All P xs → All P ys → All P (xs ++ ys)
All-append P [] ys p q = q
All-append P (x ∷ xs) ys (p, ps) q = (p, All-append P xs ys ps q)

-- If every adapter's `tail` moves the offset as `read_complete_records` does, then a session that
-- `plan_tick` skips has no complete record past its cursor, in its file as it is, truncated or
-- not: only sessions with nothing to read are skipped.
pub plan_tick_skips :
    (files : Text → Text) (adapters : List Adapter) (cursors : CursorStore)
    → All (TailsFiles files) adapters
    → All (NothingNew files cursors) (plan_tick adapters cursors).skipped
unfolding plan_tick
plan_tick_skips files [] cursors reads = tt
plan_tick_skips files (adapter ∷ adapters) cursors (reads, rest) =
    All-append (NothingNew files cursors) (plan_refs adapter cursors adapter.discovered).skipped
      (plan_tick adapters cursors).skipped
      (plan_refs_skips files adapter cursors adapter.discovered reads)
      (plan_tick_skips files adapters cursors rest)
