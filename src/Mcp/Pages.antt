-- ===== src/Mcp/Pages.antt =====
-- `paginate` of palaver/mcp/pagination.py.
use palaver.Prelude.{
  ℕ, ◌+◌, ◌-◌, ◌*◌, ◌^◌, Bool, true, false, ltb, leb, ◌==◌, Option, none, some, List, [], ◌∷◌,
  length, if◌then◌else◌, Text,
}
use palaver.Json.{Value}
use palaver.Mcp.Cursor.{Codec, encode_cursor}

-- The response, but for its extra keys.
pub record Response {ℓ} (A : Type ℓ) : Type ℓ where
  pub scope : Value
  pub items : List A
  pub next_cursor : Option Text

-- `json.dumps` as the paging uses it: the text of an item, the text of a response with its extra
-- keys, and how many bytes the text of a string has.
pub record Sizes {ℓ} (A : Type ℓ) : Type ℓ where
  pub item_text : A → Text
  pub response_text : Response A → Text
  pub string_size : Text → ℕ

pub data Paged {ℓ} (A : Type ℓ) : Type ℓ where
  page : Response A → Paged A
  row_too_large assertion_error : Paged A

abbrev pub response_budget : ℕ
response_budget = 768 * 1024

module _ {ℓ} {A : Type ℓ} where
  -- `_escaped_size`: the quotes are not counted.
  unfoldable pub escaped_size : Sizes A → A → ℕ
  escaped_size sizes item = sizes.string_size (sizes.item_text item) - 2

  -- The JSON-RPC envelope around the response's text, a string in it. Before that string it has 85
  -- characters, with the widest request id, and after it 20.
  framed : Sizes A → Response A → ℕ
  framed sizes response = 85 + sizes.string_size (sizes.response_text response) + 20

  -- `wire_size`: with `event: message`, `data: ` and the ends of lines.
  unfoldable pub wire_size : Sizes A → Response A → ℕ
  unfolding framed
  wire_size sizes response = 22 + framed sizes response + 4

  -- An item's cost, with a comma before all but the first.
  unfoldable pub cost : Sizes A → Bool → A → ℕ
  unfolding escaped_size
  cost sizes started item = escaped_size sizes item + (if started then 1 else 0)

  -- The loop: the page, and the id of its last row; `none` where the first row does not fit.
  unfoldable pub cut_rows : Sizes A → ℕ → ℕ → Bool → ℕ → List (ℕ × A) → Option (List A × ℕ)
  unfolding cost
  cut_rows sizes budget used started last_id [] = some ([], last_id)
  cut_rows sizes budget used started last_id ((cursor_id, item) ∷ rows) =
      let used' = used + cost sizes started item in
      let rest = cut_rows sizes budget used' true cursor_id rows in
      if ltb budget used'
      then if started then some ([], last_id) else none
      else elim rest [ none ↦ none | some r ↦ some (item ∷ r.0, r.1) ]

  unfoldable pub empty_response : Codec → Value → Response A
  empty_response codec scope = record {
    scope = scope;
    items = [];
    next_cursor = some (encode_cursor codec scope (2 ^ 62));
  }

  unfoldable pub response_of : Codec → Value → ℕ → List A → ℕ → Response A
  response_of codec scope row_count items last_id = record {
    scope = scope;
    items = items;
    next_cursor =
        if length items == row_count then none else some (encode_cursor codec scope last_id);
  }

  -- The assertion on the response as a whole.
  unfoldable pub within_budget : Sizes A → ℕ → Response A → Paged A
  unfolding wire_size
  within_budget sizes budget response =
      if leb (wire_size sizes response) budget then page response else assertion_error

  unfoldable pub paginate : Codec → Sizes A → ℕ → Value → List (ℕ × A) → Paged A
  unfolding cut_rows empty_response response_of within_budget wire_size
  paginate codec sizes budget scope rows =
      elim (cut_rows sizes budget (wire_size sizes (empty_response codec scope)) false 0 rows) [
        | none ↦ row_too_large
        | some (items, last_id) ↦
            within_budget sizes budget (response_of codec scope (length rows) items last_id)
      ]
