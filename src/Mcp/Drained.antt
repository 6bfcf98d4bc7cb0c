-- ===== src/Mcp/Drained.antt =====
-- A reader that follows the cursors of `recall`, palaver/mcp/tools_read.py, to the end.
use palaver.Prelude.{
  ℕ, zero, suc, ◌^◌, ◌<◌, ◌≤◌, ◌==◌, some, List, ◌≡◌, ◌⊎◌, inl, inr, refl, sym, ap, ◌∙◌, arith, map,
  length, take, drop, take-append-drop, Text, Bool-cases, ==_iff,
}
use palaver.Json.{Value, null, str}
use palaver.Integers.{pos}
use palaver.Memory.Tables.{Memory, Store}
use palaver.Memory.Integrity.{IsSound}
use palaver.Memory.Scope.{in_project, scoped_rows, find_project}
use palaver.Mcp.Cursor.{Codec, encode_cursor}
use palaver.Mcp.RoundTrip.{IsCodec}
use palaver.Mcp.Order.{
  above, last_id, above_last, above-scoped_rows, scoped_rows-Rising, scoped_rows-All,
  IsSound-Tiered,
}
use palaver.Mcp.Pages.{Sizes, response_budget}
use palaver.Mcp.Fitting.{IsIncremental, Fits, page_at, paginate-Fits}
use palaver.Mcp.Recall.{project_scope, parse_scope, echo, Item, response, position, recall}
use palaver.Mcp.Collect.{
  collect, item_of, row_of, last_rows, length-map_row, Room, rows_Fits, last_id_nonempty,
  length-take_le, position_of_cursor, recall_page, collect_step, next_page_last, next_page_more,
  drop_shorter,
}

module _ (codec : Codec) (laws : IsCodec codec) (sizes : Sizes Item) (db : Store) (name : Text)
    (k : ℕ) (incremental : IsIncremental codec sizes (echo (project_scope name)))
    (sound : IsSound db.memory_evidence db.memories)
    (found : find_project name db.projects ≡ some k)
    (room : Room codec sizes (echo (project_scope name)) db.memories) where
  -- The rows of the project that a reader has yet to read.
  abbrev left : ℕ → List Memory
  left after_id = scoped_rows (in_project k) after_id db.memories

  rest_left :
      (after_id n : ℕ)
      → 1 ≤ n
      → n ≤ length (left after_id)
      → left (last_id 0 (take n (left after_id))) ≡ drop n (left after_id)
  rest_left after_id n some_row low =
      let l = left after_id in
      let split = take-append-drop n l in
      let rising =
        scoped_rows-Rising (in_project k) after_id db.memory_evidence db.memories sound in
      let (later, past) = above_last after_id (take n l) (drop n l) (rw split rising) in
      let same : last_id 0 (take n l) ≡ last_id after_id (take n l) =
        last_id_nonempty 0 after_id (take n l) (omega (arith, length-take_le n l low)) in
      rw same (
        sym (
          above-scoped_rows (in_project k) after_id (last_id after_id (take n l)) db.memories later)
        ∙ ap (above (last_id after_id (take n l))) (sym split)
        ∙ past)

  -- The page that one call answers, and where it leaves off.
  one_page :
      (scope cursor : Value) (after_id : ℕ)
      → parse_scope scope ≡ some (project_scope name)
      → position codec cursor (echo (project_scope name)) ≡ some (pos after_id)
      → after_id ≤ 2 ^ 62
      → (n : ℕ) × (n ≤ length (left after_id))
        × ((length (left after_id) ≡ 0) ⊎ (1 ≤ n))
        × (last_id 0 (take n (left after_id)) ≤ 2 ^ 62)
        × (recall codec sizes db scope cursor
            ≡ response (page_at codec (echo (project_scope name)) n (map row_of (left after_id))))
  one_page scope cursor after_id parsed at small =
      let e = echo (project_scope name) in
      let l = left after_id in
      let fits =
        scoped_rows-All (λ m. Fits codec sizes response_budget e (m.id, item_of m)) (in_project k)
          after_id db.memories room.1 in
      let tiers =
        scoped_rows-All (λ m. (1 ≤ m.tier) × (m.tier ≤ 5)) (in_project k) after_id db.memories
          (IsSound-Tiered db.memory_evidence db.memories sound) in
      let (n, low, some_row, last, paged, within) =
        paginate-Fits codec sizes response_budget e (map row_of l) incremental room.0
          (rows_Fits codec sizes e l fits) in
      (
        n,
        omega (arith, low, length-map_row l),
        elim some_row [
          | inl none_left ↦ inl (omega (arith, none_left, length-map_row l))
          | inr h ↦ inr h
        ],
        rw (last_rows n 0 l) at last,
        recall_page codec sizes db scope cursor name k after_id (page_at codec e n (map row_of l))
            parsed found at small tiers paged,
      )

  drain :
      (calls : ℕ) (scope cursor : Value) (after_id : ℕ)
      → parse_scope scope ≡ some (project_scope name)
      → position codec cursor (echo (project_scope name)) ≡ some (pos after_id)
      → after_id ≤ 2 ^ 62
      → length (left after_id) < calls
      → collect codec sizes db scope calls cursor ≡ some (map item_of (left after_id))
  drain zero scope cursor after_id parsed at small enough = absurd (omega arith)
  drain (suc calls) scope cursor after_id parsed at small enough =
      let e = echo (project_scope name) in
      let l = left after_id in
      let (n, low, some_row, last, answered) = one_page scope cursor after_id parsed at small in
      collect_step codec sizes db scope cursor calls (page_at codec e n (map row_of l)) answered
      ∙ elim (Bool-cases (n == length (map row_of l))) [
        | inl whole ↦
            next_page_last (collect codec sizes db scope calls) codec e n l
              ((==_iff n (length (map row_of l))).0 whole ∙ length-map_row l)
        | inr part ↦
            let next = last_id 0 (take n l) in
            let one : 1 ≤ n = ground (arith, some_row, low, part, length-map_row l) in
            let past : left next ≡ drop n l = rest_left after_id n one low in
            next_page_more (collect codec sizes db scope calls) codec e n l part (
              drain calls scope (str (encode_cursor codec e next)) next parsed
                (position_of_cursor codec laws e next) last
                (rw past (drop_shorter n calls l one low enough))
              ∙ ap (λ ms. some (map item_of ms)) past)
      ]

  -- A reader that asks `recall` for a project and follows `next_cursor` until it is `None` gets
  -- every memory of the project once, in the order of their ids, with the name of its tier, in at
  -- most one call more than there are memories and with no error, when the tables are sound and
  -- every memory fits a response by itself and has an id of at most 2^62. `json.dumps` is taken to
  -- join items by commas and to escape a string character by character, with no cursor of such an
  -- id longer than that of 2^62, and to give with `json.loads` and base64 back what was encoded.
  pub recall_drained :
      (calls : ℕ) (scope : Value)
      → parse_scope scope ≡ some (project_scope name)
      → length (left 0) < calls
      → collect codec sizes db scope calls null ≡ some (map item_of (left 0))
  unfolding position
  recall_drained calls scope parsed enough =
      drain calls scope null 0 parsed refl (omega arith) enough
