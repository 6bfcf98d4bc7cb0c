-- ===== src/Examples/PagingRuns.antt =====
-- palaver/mcp, run with a codec that writes numbers in unary, and items of which one fills a page.
use Prim.Native.Nat.{◌%◌}
use palaver.Prelude.{
  ℕ, zero, suc, ◌+◌, ◌*◌, ◌≤◌, ◌<◌, ◌^◌, Bool, true, false, ◌==◌, Option, none, some, List, [], ◌∷◌,
  ◌++◌, ◌≡◌, ◌≢◌, ◌⊎◌, refl, sym, ap, ◌∙◌, arith, if◌then◌else◌, map, take, length, all, All, Text,
  codes, text_eq, length-append,
}
use mathlib.Core.List.{append-nil}
use palaver.Json.{Value, null, int, str, obj, field, end}
use palaver.Integers.{pos}
use palaver.Memory.Tables.{Store}
use palaver.Memory.Scope.{find_project, in_project, scoped_rows}
use palaver.Mcp.Cursor.{
  Codec, scope_fingerprint, cursor_payload, encode_cursor, decode_cursor, padding,
}
use palaver.Mcp.RoundTrip.{is_base64, IsCodec, decode_cursor-encode_cursor}
use palaver.Mcp.Pages.{
  Sizes, page, response_budget, wire_size, escaped_size, empty_response, paginate,
}
use palaver.Mcp.Fitting.{IsIncremental, last_of, joined, page_at, paginate-Fits}
use palaver.Mcp.Recall.{Item, project_scope, parse_scope, echo}
use palaver.Mcp.Collect.{item_of, Room, collect}
use palaver.Mcp.Drained.{recall_drained}
use palaver.Examples.StoreRuns.{store, store-IsSound}

-- A number in groups of four letters, before the rest.
abbrev unary : ℕ → Text → Text
unary zero rest = rest
unary (suc x) rest = 65 ∷ 45 ∷ 45 ∷ 45 ∷ unary x rest

abbrev letters_of : Text → Text
letters_of [] = 67 ∷ 67 ∷ []
letters_of (x ∷ s) = unary x (66 ∷ 45 ∷ 45 ∷ 45 ∷ letters_of s)

abbrev read_letters : ℕ → Text → Option Text
read_letters n [] = none
read_letters n (c ∷ s) = elim (c == 65) [
  | true ↦ read_letters (suc n) s
  | false ↦ elim (c == 66) [
    | true ↦ elim (read_letters 0 s) [ none ↦ none | some t ↦ some (n ∷ t) ]
    | false ↦ elim (c == 67) [ true ↦ some [] | false ↦ read_letters n s ]
  ]
]

-- The position and the fingerprint of a cursor, or the text of a scope.
abbrev dumped : Value → Text
dumped (obj (field v one (field s (str f) (field a (int n) end)))) = n ∷ f
dumped (obj (field k (str s) end)) = 0 ∷ s
dumped _ = []

abbrev loaded : Text → Option Value
loaded [] = none
loaded (n ∷ f) =
    some
      (obj (field (codes "a") (int n) (field (codes "s") (str f) (field (codes "v") (int 1) end))))

abbrev codec : Codec
codec = record {
  dumps = dumped;
  loads = loaded;
  urlsafe_b64encode = λ s. letters_of s ++ padding 2;
  urlsafe_b64decode = read_letters 0;
  hexdigest = λ s. s;
}

unary-append : (x : ℕ) (s t : Text) → unary x s ++ t ≡ unary x (s ++ t)
unary-append zero s t = refl
unary-append (suc x) s t = ap (λ r. 65 ∷ 45 ∷ 45 ∷ 45 ∷ r) (unary-append x s t)

unary_letters : (x : ℕ) (s : Text) → all is_base64 s ≡ true → all is_base64 (unary x s) ≡ true
unary_letters zero s h = h
unary_letters (suc x) s h = unary_letters x s h

all_letters : (s : Text) → all is_base64 (letters_of s) ≡ true
all_letters [] = refl
all_letters (x ∷ s) = unary_letters x (66 ∷ 45 ∷ 45 ∷ 45 ∷ letters_of s) (all_letters s)

unary_groups : (x : ℕ) (s : Text) → length s % 4 ≡ 0 → length (unary x s) % 4 ≡ 0
unary_groups zero s h = h
unary_groups (suc x) s h = omega (arith, unary_groups x s h)

all_groups : (s : Text) → length (letters_of s ++ padding 2) % 4 ≡ 0
all_groups [] = refl
all_groups (x ∷ s) =
    rw (unary-append x (66 ∷ 45 ∷ 45 ∷ 45 ∷ letters_of s) (padding 2)) (
      unary_groups x (66 ∷ 45 ∷ 45 ∷ 45 ∷ (letters_of s ++ padding 2))
        (omega (arith, all_groups s)))

read_unary : (n x : ℕ) (s : Text) → read_letters n (unary x s) ≡ read_letters (x + n) s
read_unary n zero s = ap (λ k. read_letters k s) (omega arith)
read_unary n (suc x) s = read_unary (suc n) x s ∙ ap (λ k. read_letters k s) (omega arith)

read_next :
    (x : ℕ) (t : Text) (o : Option Text)
    → read_letters 0 t ≡ o
    → read_letters x (66 ∷ 45 ∷ 45 ∷ 45 ∷ t) ≡ elim o [ none ↦ none | some r ↦ some (x ∷ r) ]
read_next x t o h = ap (λ q. elim q [ none ↦ none | some r ↦ some (x ∷ r) ]) h

read_back : (s : Text) → read_letters 0 (letters_of s ++ padding 2) ≡ some s
read_back [] = refl
read_back (x ∷ s) =
    let group : Text = 66 ∷ 45 ∷ 45 ∷ 45 ∷ (letters_of s ++ padding 2) in
    ap (read_letters 0) (unary-append x (66 ∷ 45 ∷ 45 ∷ 45 ∷ letters_of s) (padding 2))
    ∙ read_unary 0 x group
    ∙ ap (λ k. read_letters k group) (omega arith)
    ∙ read_next x (letters_of s ++ padding 2) (some s) (read_back s)

unary_nonempty : (x c : ℕ) (s : Text) → unary x (c ∷ s) ≢ []
unary_nonempty zero c s h = cc
unary_nonempty (suc x) c s h = cc

letters_nonempty : (s : Text) → letters_of s ≢ []
letters_nonempty [] h = cc
letters_nonempty (x ∷ s) h = unary_nonempty x 66 (45 ∷ 45 ∷ 45 ∷ letters_of s) h

codec-IsCodec : IsCodec codec
unfolding cursor_payload
codec-IsCodec = record {
  encoded = λ s h. record {
    body = letters_of s;
    pads = 2;
    shape = refl;
    letters = all_letters s;
    nonempty = letters_nonempty s;
    few = omega arith;
    groups = all_groups s;
  };
  decoded = read_back;
  dumped = λ f n h. cc;
  loaded = λ f n. refl;
}

abbrev asked : Value
asked = obj (field (codes "project") (str (codes "palaver")) end)

abbrev other : Value
other = obj (field (codes "project") (str (codes "other")) end)

decode_cursor-encode_cursor_example :
    decode_cursor codec (str (encode_cursor codec asked 2)) other ≡ (
      if text_eq (scope_fingerprint codec asked) (scope_fingerprint codec other)
      then some (pos 2)
      else none)
decode_cursor-encode_cursor_example = decode_cursor-encode_cursor codec codec-IsCodec asked other 2

another_scope : decode_cursor codec (str (encode_cursor codec asked 2)) other ≡ none
unfolding decode_cursor encode_cursor text_eq
another_scope = refl

-- A long text, and its length.
repeated : ℕ → Text
repeated zero = []
repeated (suc n) = b'x' ∷ repeated n

length-repeated : (n : ℕ) → length (repeated n) ≡ n
unfolding repeated
length-repeated zero = refl
length-repeated (suc n) = ap suc (length-repeated n)

unfoldable joined_texts : List Item → Text
joined_texts [] = []
joined_texts (a ∷ []) = repeated 399998
joined_texts (a ∷ b ∷ items) = repeated 399998 ++ b',' ∷ joined_texts (b ∷ items)

abbrev sizes : Sizes Item
sizes = record {
  item_text = λ item. repeated 399998;
  response_text = λ r. joined_texts r.items;
  string_size = λ s. length s + 2;
}

joined_same : (items : List Item) → joined_texts items ≡ joined sizes items
unfolding joined joined_texts
joined_same [] = refl
joined_same (a ∷ []) = refl
joined_same (a ∷ b ∷ items) = rw (joined_same (b ∷ items)) refl

sizes-IsIncremental : (scope : Value) → IsIncremental codec sizes scope
unfolding wire_size empty_response
sizes-IsIncremental scope = record {
  before = [];
  after = λ cursor. [];
  response_lem = λ items cursor. joined_same items ∙ sym (append-nil (joined sizes items));
  quotes = λ s. omega arith;
  by_character = λ s t. omega (arith, length-append s t);
  comma = refl;
  no_cursor = omega arith;
  low_cursor = λ n h. omega arith;
}

abbrev with_project : Store
with_project = record store { projects = record { id = 7; name = codes "palaver" } ∷ [] }

enough-Room : (scope : Value) → Room codec sizes scope with_project.memories
unfolding wire_size empty_response escaped_size joined_texts
enough-Room scope =
    let long = length-repeated 399998 in
    (omega arith, ((omega arith, omega arith), ((omega arith, omega arith), tt)))

asked_project : parse_scope asked ≡ some (project_scope (codes "palaver"))
unfolding parse_scope text_eq palaver.Prelude.is_blank palaver.Prelude.strip
asked_project = refl

project_found : find_project (codes "palaver") with_project.projects ≡ some 7
unfolding find_project text_eq
project_found = refl

two_left : length (scoped_rows (in_project 7) 0 with_project.memories) < 3
unfolding scoped_rows in_project palaver.Memory.Scope.insert_by_id
two_left = omega arith

recall_drained_example :
    collect codec sizes with_project asked 3 null
    ≡ some (map item_of (scoped_rows (in_project 7) 0 with_project.memories))
recall_drained_example =
    recall_drained codec codec-IsCodec sizes with_project (codes "palaver") 7
      (sizes-IsIncremental (echo (project_scope (codes "palaver")))) store-IsSound project_found
      (enough-Room (echo (project_scope (codes "palaver")))) 3 asked asked_project two_left

abbrev paged : List (ℕ × Item)
paged = map (λ m. (m.id, item_of m)) with_project.memories

paginate-Fits_example :
    (n : ℕ) × (n ≤ length paged)
    × ((length paged ≡ 0) ⊎ (1 ≤ n))
    × (last_of 0 (take n paged) ≤ 2 ^ 62)
    × (paginate codec sizes response_budget asked paged ≡ page (page_at codec asked n paged))
    × (wire_size sizes (page_at codec asked n paged) ≤ response_budget)
paginate-Fits_example =
    paginate-Fits codec sizes response_budget asked paged (sizes-IsIncremental asked)
      (enough-Room asked).0 (enough-Room asked).1
