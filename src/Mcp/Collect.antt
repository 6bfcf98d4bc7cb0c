-- ===== src/Mcp/Collect.antt =====
-- One page of `recall`, palaver/mcp/tools_read.py, and the client's loop over pages.
use palaver.Prelude.{
  ℕ, zero, suc, ◌^◌, ◌<◌, ◌≤◌, true, false, ◌==◌, Option, none, some, List, [], ◌∷◌, ◌++◌, ◌≡◌,
  refl, sym, ap, ◌∙◌, arith, map, length, take, drop, take-append-drop, All, Text, codes,
  text_eq_refl, lt→ltb, ==_iff, length-append,
}
use palaver.Json.{Value, str}
use palaver.Integers.{pos, fits_int64}
use palaver.Memory.Tables.{Memory, Store}
use palaver.Memory.Scope.{in_project, scoped_rows, find_project, read_memories}
use palaver.Mcp.Cursor.{Codec, encode_cursor}
use palaver.Mcp.RoundTrip.{IsCodec, decode_cursor-encode_cursor}
use palaver.Mcp.Order.{last_id, Tiered}
use palaver.Mcp.Pages.{Response, Sizes, page, response_budget, paginate, wire_size, empty_response}
use palaver.Mcp.Fitting.{Fits, first_items, last_of, page_at}
use palaver.Mcp.Recall.{
  project_scope, parse_scope, echo, Item, tier_name, items_of, Recalled, response, recall_raised,
  position, after_position, respond, paged_rows, read_scope, recall_from, recall,
}

-- The client's loop: pages until the cursor is `None`, in at most as many calls as are allowed;
-- `none` if a call raises, or if there is still a cursor at the end.
abbrev pub next_page : (Value → Option (List Item)) → Recalled → Option (List Item)
next_page rest (recall_raised e) = none
next_page rest (response r) = elim r.next_cursor [
  | none ↦ some r.items
  | some t ↦ elim (rest (str t)) [ none ↦ none | some items ↦ some (r.items ++ items) ]
]

unfoldable pub collect : Codec → Sizes Item → Store → Value → ℕ → Value → Option (List Item)
collect codec sizes db scope zero cursor = none
collect codec sizes db scope (suc calls) cursor =
    next_page (collect codec sizes db scope calls) (recall codec sizes db scope cursor)

-- A row with the name of its tier, if it has one.
abbrev pub item_of : Memory → Item
item_of m = record { row = m; tier_name = elim (tier_name m.tier) [ none ↦ [] | some name ↦ name ] }

abbrev pub row_of : Memory → ℕ × Item
row_of m = (m.id, item_of m)

tier_name_some : (t : ℕ) → 1 ≤ t → t ≤ 5 → (name : Text) × (tier_name t ≡ some name)
unfolding tier_name
tier_name_some zero low high = absurd (omega arith)
tier_name_some (suc zero) low high = (codes "user_instruction", refl)
tier_name_some (suc (suc zero)) low high = (codes "agent_conclusion", refl)
tier_name_some (suc (suc (suc zero))) low high = (codes "observed_result", refl)
tier_name_some (suc (suc (suc (suc zero)))) low high = (codes "observer_inference", refl)
tier_name_some (suc (suc (suc (suc (suc zero))))) low high = (codes "observer_speculation", refl)
tier_name_some (suc (suc (suc (suc (suc (suc t)))))) low high = absurd (omega arith)

items_of-some : (ms : List Memory) → Tiered ms → items_of ms ≡ some (map row_of ms)
unfolding items_of
items_of-some [] h = refl
items_of-some (m ∷ ms) ((low, high), h) =
    let (name, e) = tier_name_some m.tier low high in rw (e, items_of, items_of-some ms h) refl

first_rows : (n : ℕ) (ms : List Memory) → first_items n (map row_of ms) ≡ map item_of (take n ms)
first_rows zero ms = refl
first_rows (suc n) [] = refl
first_rows (suc n) (m ∷ ms) = ap (λ l. item_of m ∷ l) (first_rows n ms)

pub last_rows :
    (n k : ℕ) (ms : List Memory) → last_of k (take n (map row_of ms)) ≡ last_id k (take n ms)
last_rows zero k ms = refl
last_rows (suc n) k [] = refl
last_rows (suc n) k (m ∷ ms) = last_rows n m.id ms

pub length-map_row : (ms : List Memory) → length (map row_of ms) ≡ length ms
length-map_row [] = refl
length-map_row (m ∷ ms) = ap suc (length-map_row ms)

map-append : (xs ys : List Memory) → map item_of (xs ++ ys) ≡ map item_of xs ++ map item_of ys
map-append [] ys = refl
map-append (x ∷ xs) ys = ap (λ l. item_of x ∷ l) (map-append xs ys)

-- That every memory fits a page by itself, in a response to the scope, and can stand in a cursor.
abbrev pub Room : Codec → Sizes Item → Value → List Memory → Type 0
Room codec sizes scope ms =
    (wire_size sizes (empty_response codec scope) ≤ response_budget)
    × All (λ m. Fits codec sizes response_budget scope (m.id, item_of m)) ms

pub rows_Fits :
    (codec : Codec) (sizes : Sizes Item) (scope : Value) (ms : List Memory)
    → All (λ m. Fits codec sizes response_budget scope (m.id, item_of m)) ms
    → All (Fits codec sizes response_budget scope) (map row_of ms)
rows_Fits codec sizes scope [] h = tt
rows_Fits codec sizes scope (m ∷ ms) (p, h) = (p, rows_Fits codec sizes scope ms h)

pub last_id_nonempty : (j k : ℕ) (ms : List Memory) → 1 ≤ length ms → last_id j ms ≡ last_id k ms
last_id_nonempty j k [] h = absurd (omega arith)
last_id_nonempty j k (m ∷ ms) h = refl

pub length-take_le : (n : ℕ) (ms : List Memory) → n ≤ length ms → length (take n ms) ≡ n
length-take_le zero ms h = refl
length-take_le (suc n) [] h = absurd (omega arith)
length-take_le (suc n) (m ∷ ms) h = ap suc (length-take_le n ms (omega arith))

take_whole : (n : ℕ) (ms : List Memory) → n ≡ length ms → take n ms ≡ ms
take_whole n [] h = rw h refl
take_whole n (m ∷ ms) h = rw h (ap (λ l. m ∷ l) (take_whole (length ms) ms refl))

fits_position : (k : ℕ) → k ≤ 2 ^ 62 → fits_int64 (pos k) ≡ true
unfolding fits_int64
fits_position k h = lt→ltb k 0x8000000000000000 (omega arith)

pub position_of_cursor :
    (codec : Codec) (laws : IsCodec codec) (scope : Value) (n : ℕ)
    → position codec (str (encode_cursor codec scope n)) scope ≡ some (pos n)
unfolding position
position_of_cursor codec laws scope n =
    decode_cursor-encode_cursor codec laws scope scope n ∙ rw (text_eq_refl _) refl

-- What one call answers, when the rows are paged without an error.
pub recall_page :
    (codec : Codec) (sizes : Sizes Item) (db : Store) (scope cursor : Value) (name : Text)
    (k after_id : ℕ) (r : Response Item)
    → parse_scope scope ≡ some (project_scope name)
    → find_project name db.projects ≡ some k
    → position codec cursor (echo (project_scope name)) ≡ some (pos after_id)
    → after_id ≤ 2 ^ 62
    → Tiered (scoped_rows (in_project k) after_id db.memories)
    → paginate codec sizes response_budget
        (echo (project_scope name))
        (map row_of (scoped_rows (in_project k) after_id db.memories))
      ≡ page r
    → recall codec sizes db scope cursor ≡ response r
unfolding recall recall_from read_scope read_memories paged_rows respond after_position
recall_page codec sizes db scope cursor name k after_id r parsed found at small tiers paged =
    rw
      (
        parsed,
        recall,
        at,
        recall_from,
        fits_position after_id small,
        found,
        read_memories,
        paged_rows,
        items_of-some (scoped_rows (in_project k) after_id db.memories) tiers,
        paged,
        respond,
      )
      refl

pub collect_step :
    (codec : Codec) (sizes : Sizes Item) (db : Store) (scope cursor : Value) (calls : ℕ)
    (r : Response Item)
    → recall codec sizes db scope cursor ≡ response r
    → collect codec sizes db scope (suc calls) cursor
      ≡ next_page (collect codec sizes db scope calls) (response r)
unfolding collect
collect_step codec sizes db scope cursor calls r e = rw (e, collect) refl

pub next_page_last :
    (rest : Value → Option (List Item)) (codec : Codec) (scope : Value) (n : ℕ) (ms : List Memory)
    → n ≡ length ms
    → next_page rest (response (page_at codec scope n (map row_of ms))) ≡ some (map item_of ms)
next_page_last rest codec scope n ms whole =
    rw
      (
        (==_iff n (length (map row_of ms))).1 (whole ∙ sym (length-map_row ms)),
        first_rows n ms,
        take_whole n ms whole,
      )
      refl

pub next_page_more :
    (rest : Value → Option (List Item)) (codec : Codec) (scope : Value) (n : ℕ) (ms : List Memory)
    → (n == length (map row_of ms)) ≡ false
    → rest (str (encode_cursor codec scope (last_id 0 (take n ms))))
      ≡ some (map item_of (drop n ms))
    → next_page rest (response (page_at codec scope n (map row_of ms))) ≡ some (map item_of ms)
next_page_more rest codec scope n ms part more =
    rw (part, last_rows n 0 ms, more, first_rows n ms)
      (ap some
        (sym (map-append (take n ms) (drop n ms)) ∙ ap (map item_of) (take-append-drop n ms)))

pub drop_shorter :
    (n c : ℕ) (ms : List Memory)
    → 1 ≤ n
    → n ≤ length ms
    → length ms < suc c
    → length (drop n ms) < c
drop_shorter n c ms some_row low enough = omega (
  arith,
  length-take_le n ms low,
  length-append (take n ms) (drop n ms),
  ap length (take-append-drop n ms),
)
