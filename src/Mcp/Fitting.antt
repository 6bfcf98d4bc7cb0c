-- ===== src/Mcp/Fitting.antt =====
-- Where `paginate` of palaver/mcp/pagination.py cuts the rows.
use palaver.Prelude.{
  ℕ, zero, suc, ◌+◌, ◌^◌, ◌≤◌, Bool, true, false, ltb, ◌==◌, none, some, List, Option, [], ◌∷◌,
  ◌++◌, ◌≡◌, ◌⊎◌, inl, inr, refl, ap, arith, map, length, take, All, if◌then◌else◌, Text,
  Bool-cases, le→leb, le→ltb,
}
use palaver.Json.{Value}
use palaver.Mcp.Cursor.{Codec, encode_cursor}
use palaver.Mcp.Pages.{
  Response, Sizes, page, escaped_size, wire_size, cost, cut_rows, empty_response, response_of,
  within_budget, paginate,
}

module _ {ℓ} {A : Type ℓ} where
  abbrev pub item_of_row : ℕ × A → A
  item_of_row (k, a) = a

  -- The items of the first `n` rows, and the id of the last of them.
  abbrev pub first_items : ℕ → List (ℕ × A) → List A
  first_items n rows = map item_of_row (take n rows)

  abbrev pub last_of : ℕ → List (ℕ × A) → ℕ
  last_of k [] = k
  last_of k ((j, a) ∷ rows) = last_of j rows

  abbrev pub total : Sizes A → Bool → List A → ℕ
  total sizes started [] = 0
  total sizes started (a ∷ items) = cost sizes started a + total sizes true items

  -- The texts of the items, with commas between them.
  unfoldable pub joined : Sizes A → List A → Text
  joined sizes [] = []
  joined sizes (a ∷ []) = sizes.item_text a
  joined sizes (a ∷ b ∷ items) = sizes.item_text a ++ b',' ∷ joined sizes (b ∷ items)

  -- What the sizing relies on of `json.dumps`: a response's text is that of its items, with commas
  -- between them and some text around them, of which only what follows depends on the cursor; a
  -- string's text is in quotes and escaped character by character, a comma to itself; and no cursor
  -- up to 2^62 is longer than the one reserved, nor is `null`.
  pub record IsIncremental (codec : Codec) (sizes : Sizes A) (scope : Value) : Type ℓ where
    pub before : Text
    pub after : Option Text → Text
    pub response_lem :
        (items : List A) (cursor : Option Text)
        → sizes.response_text (record { scope = scope; items = items; next_cursor = cursor })
          ≡ before ++ (joined sizes items ++ after cursor)
    pub quotes : (s : Text) → 2 ≤ sizes.string_size s
    pub by_character :
        (s t : Text) → sizes.string_size (s ++ t) + 2 ≡ sizes.string_size s + sizes.string_size t
    pub comma : sizes.string_size (b',' ∷ []) ≡ 3
    pub no_cursor :
        sizes.string_size (after none)
        ≤ sizes.string_size (after (some (encode_cursor codec scope (2 ^ 62))))
    pub low_cursor :
        (n : ℕ)
        → n ≤ 2 ^ 62
        → sizes.string_size (after (some (encode_cursor codec scope n)))
          ≤ sizes.string_size (after (some (encode_cursor codec scope (2 ^ 62))))

  joined_size :
      (codec : Codec) (sizes : Sizes A) (scope : Value) (a : A) (items : List A)
      → IsIncremental codec sizes scope
      → sizes.string_size (joined sizes (a ∷ items))
        ≡ sizes.string_size (sizes.item_text a) + total sizes true items
  unfolding joined cost escaped_size
  joined_size codec sizes scope a [] laws = omega arith
  joined_size codec sizes scope a (b ∷ items) laws = omega (
    arith,
    laws.by_character (sizes.item_text a) (b',' ∷ joined sizes (b ∷ items)),
    laws.by_character (b',' ∷ []) (joined sizes (b ∷ items)),
    laws.comma,
    laws.quotes (sizes.item_text b),
    joined_size codec sizes scope b items laws,
  )

  items_size :
      (codec : Codec) (sizes : Sizes A) (scope : Value) (items : List A)
      → IsIncremental codec sizes scope
      → sizes.string_size (joined sizes items) ≡ 2 + total sizes false items
  unfolding joined cost escaped_size
  items_size codec sizes scope [] laws = omega (arith, laws.by_character [] [])
  items_size codec sizes scope (a ∷ items) laws =
      omega (arith, joined_size codec sizes scope a items laws, laws.quotes (sizes.item_text a))

  -- What the items add to a response whose cursor is no longer than the one reserved.
  adds :
      (codec : Codec) (sizes : Sizes A) (scope : Value) (items : List A) (cursor : Option Text)
      → (laws : IsIncremental codec sizes scope)
      → sizes.string_size (laws.after cursor)
        ≤ sizes.string_size (laws.after (some (encode_cursor codec scope (2 ^ 62))))
      → wire_size sizes (record { scope = scope; items = items; next_cursor = cursor })
        ≤ wire_size sizes (empty_response codec scope) + total sizes false items
  unfolding wire_size empty_response
  adds codec sizes scope items cursor laws h =
      let reserved = some (encode_cursor codec scope (2 ^ 62)) in
      omega (
        arith,
        h,
        ap sizes.string_size (laws.response_lem items cursor),
        ap sizes.string_size (laws.response_lem [] reserved),
        laws.by_character laws.before (joined sizes items ++ laws.after cursor),
        laws.by_character (joined sizes items) (laws.after cursor),
        laws.by_character laws.before (joined sizes [] ++ laws.after reserved),
        laws.by_character (joined sizes []) (laws.after reserved),
        items_size codec sizes scope items laws,
        items_size codec sizes scope [] laws,
      )

  -- A cut after the first `n` rows, within the budget.
  record Cuts (sizes : Sizes A) (budget used : ℕ) (started : Bool) (last_id : ℕ)
      (rows : List (ℕ × A)) : Type ℓ where
    n : ℕ
    low : n ≤ length rows
    cut :
        cut_rows sizes budget used started last_id rows
        ≡ some (first_items n rows, last_of last_id (take n rows))
    room : used + total sizes started (first_items n rows) ≤ budget

  cut_started :
      (sizes : Sizes A) (budget used last_id : ℕ) (rows : List (ℕ × A))
      → used ≤ budget
      → Cuts sizes budget used true last_id rows
  unfolding cut_rows
  cut_started sizes budget used last_id [] h = record {
    n = 0;
    low = omega arith;
    cut = refl;
    room = omega arith;
  }
  cut_started sizes budget used last_id ((k, a) ∷ rows) h =
      elim (Bool-cases (ltb budget (used + cost sizes true a))) [
        | inl over ↦ record {
          n = 0;
          low = omega arith;
          cut = rw (over, cut_rows) refl;
          room = omega arith;
        }
        | inr under ↦
            let rest =
              cut_started sizes budget (used + cost sizes true a) k rows (ground (arith, under)) in
            record {
              n = suc rest.n;
              low = omega (arith, rest.low);
              cut = rw (under, cut_rows, rest.cut) refl;
              room = omega (arith, rest.room);
            }
      ]

  -- The first row fits, so at least that one is in the page.
  cut_first :
      (sizes : Sizes A) (budget used k last_id : ℕ) (a : A) (rows : List (ℕ × A))
      → used + escaped_size sizes a ≤ budget
      → (c : Cuts sizes budget used false last_id ((k, a) ∷ rows)) × (1 ≤ c.n)
  unfolding cut_rows cost
  cut_first sizes budget used k last_id a rows h =
      let rest = cut_started sizes budget (used + cost sizes false a) k rows (omega arith) in
      let under : ltb budget (used + cost sizes false a) ≡ false =
        le→ltb budget (used + cost sizes false a) (omega arith) in
      (
        record {
          n = suc rest.n;
          low = omega (arith, rest.low);
          cut = rw (under, cut_rows, rest.cut) refl;
          room = omega (arith, rest.room);
        },
        omega arith,
      )

  length-first_items :
      (n : ℕ) (rows : List (ℕ × A)) → n ≤ length rows → length (first_items n rows) ≡ n
  length-first_items zero rows h = refl
  length-first_items (suc n) [] h = absurd (omega arith)
  length-first_items (suc n) (r ∷ rows) h = ap suc (length-first_items n rows (omega arith))

  -- The response for a cut after the first `n` rows.
  abbrev pub page_at : Codec → Value → ℕ → List (ℕ × A) → Response A
  page_at codec scope n rows = record {
    scope = scope;
    items = first_items n rows;
    next_cursor =
        if n == length rows
        then none
        else some (encode_cursor codec scope (last_of 0 (take n rows)));
  }

  page_within :
      (codec : Codec) (sizes : Sizes A) (budget : ℕ) (scope : Value) (n : ℕ) (rows : List (ℕ × A))
      → IsIncremental codec sizes scope
      → last_of 0 (take n rows) ≤ 2 ^ 62
      → wire_size sizes (empty_response codec scope) + total sizes false (first_items n rows)
        ≤ budget
      → wire_size sizes (page_at codec scope n rows) ≤ budget
  page_within codec sizes budget scope n rows laws small room =
      elim (Bool-cases (n == length rows)) [
        | inl e ↦
            let bound = adds codec sizes scope (first_items n rows) none laws laws.no_cursor in
            rw e (omega (arith, bound, room))
        | inr e ↦
            let k = last_of 0 (take n rows) in
            let bound =
              adds codec sizes scope (first_items n rows) (some (encode_cursor codec scope k)) laws
                (laws.low_cursor k small) in
            rw e (omega (arith, bound, room))
      ]

  paginate_cut :
      (codec : Codec) (sizes : Sizes A) (budget : ℕ) (scope : Value) (rows : List (ℕ × A))
      → IsIncremental codec sizes scope
      → (c : Cuts sizes budget (wire_size sizes (empty_response codec scope)) false 0 rows)
      → last_of 0 (take c.n rows) ≤ 2 ^ 62
      → paginate codec sizes budget scope rows ≡ page (page_at codec scope c.n rows)
  unfolding paginate within_budget response_of
  paginate_cut codec sizes budget scope rows laws c small =
      let fits = page_within codec sizes budget scope c.n rows laws small c.room in
      rw
        (
          c.cut,
          paginate,
          length-first_items c.n rows c.low,
          le→leb (wire_size sizes (page_at codec scope c.n rows)) budget fits,
        )
        refl

  -- A row whose id a cursor can carry, and that fits the budget by itself.
  abbrev pub Fits : Codec → Sizes A → ℕ → Value → ℕ × A → Type 0
  Fits codec sizes budget scope (k, a) =
      (k ≤ 2 ^ 62) × (wire_size sizes (empty_response codec scope) + escaped_size sizes a ≤ budget)

  last_Fits :
      (codec : Codec) (sizes : Sizes A) (budget : ℕ) (scope : Value) (n k : ℕ) (rows : List (ℕ × A))
      → k ≤ 2 ^ 62
      → All (Fits codec sizes budget scope) rows
      → last_of k (take n rows) ≤ 2 ^ 62
  last_Fits codec sizes budget scope zero k rows h ps = h
  last_Fits codec sizes budget scope (suc n) k [] h ps = h
  last_Fits codec sizes budget scope (suc n) k ((j, a) ∷ rows) h ((small, fit), ps) =
      last_Fits codec sizes budget scope n j rows small ps

  cut_any :
      (codec : Codec) (sizes : Sizes A) (budget : ℕ) (scope : Value) (rows : List (ℕ × A))
      → wire_size sizes (empty_response codec scope) ≤ budget
      → All (Fits codec sizes budget scope) rows
      → (c : Cuts sizes budget (wire_size sizes (empty_response codec scope)) false 0 rows)
        × ((length rows ≡ 0) ⊎ (1 ≤ c.n))
  unfolding cut_rows
  cut_any codec sizes budget scope [] room fits =
      (record { n = 0; low = omega arith; cut = refl; room = omega arith }, inl refl)
  cut_any codec sizes budget scope ((k, a) ∷ rows) room ((small, fit), fits) =
      let (c, some_row) =
        cut_first sizes budget (wire_size sizes (empty_response codec scope)) k 0 a rows fit in
      (c, inr some_row)

  -- Let the response without items fit the budget, and each row by itself, with an id of at most
  -- 2^62; let `json.dumps` join items by commas and escape a string character by character, and no
  -- cursor of such an id be longer than that of 2^62, nor `null`. Then the page has the first rows,
  -- at least one if there is any, its size on the wire is within the budget, and its cursor is that
  -- of its last row, or none after the last.
  pub paginate-Fits :
      (codec : Codec) (sizes : Sizes A) (budget : ℕ) (scope : Value) (rows : List (ℕ × A))
      → IsIncremental codec sizes scope
      → wire_size sizes (empty_response codec scope) ≤ budget
      → All (Fits codec sizes budget scope) rows
      → (n : ℕ) × (n ≤ length rows)
        × ((length rows ≡ 0) ⊎ (1 ≤ n))
        × (last_of 0 (take n rows) ≤ 2 ^ 62)
        × (paginate codec sizes budget scope rows ≡ page (page_at codec scope n rows))
        × (wire_size sizes (page_at codec scope n rows) ≤ budget)
  paginate-Fits codec sizes budget scope rows laws room fits =
      let (c, some_row) = cut_any codec sizes budget scope rows room fits in
      let small = last_Fits codec sizes budget scope c.n 0 rows (omega arith) fits in
      (
        c.n,
        c.low,
        some_row,
        small,
        paginate_cut codec sizes budget scope rows laws c small,
        page_within codec sizes budget scope c.n rows laws small c.room,
      )
