-- ===== src/Mcp/Cursor.antt =====
-- `encode_cursor` and `decode_cursor` of palaver/mcp/pagination.py.
use Prim.Native.Nat.{◌%◌}
use palaver.Prelude.{
  ℕ, suc, zero, ◌-◌, Bool, false, ◌&&◌, Option, none, some, [], ◌∷◌, ◌++◌, ◌==◌, if◌then◌else◌,
  take, length, Text, text_eq, lstrip_by, is_blank, reverse,
}
use palaver.Json.{Value, bool, int, str, obj, field, end, get}
use palaver.Prelude.{codes}
use palaver.Integers.{ℤ, integer}

-- What the cursors use of the standard library: `json.dumps` with sorted keys and no spaces, as
-- bytes, `json.loads`, `base64.urlsafe_b64encode` and its inverse, and `hexdigest` of a SHA-256.
-- `none` is what they raise.
pub record Codec : Type 0 where
  pub dumps : Value → Text
  pub loads : Text → Option Value
  pub urlsafe_b64encode : Text → Text
  pub urlsafe_b64decode : Text → Option Text
  pub hexdigest : Text → Text

unfoldable pub scope_fingerprint : Codec → Value → Text
scope_fingerprint codec scope = take 16 (codec.hexdigest (codec.dumps scope))

unfoldable pub cursor_payload : Text → ℕ → Value
cursor_payload fingerprint after_id = obj (
    field (codes "v") (int 1)
      (field (codes "s") (str fingerprint) (field (codes "a") (int after_id) end)))

abbrev pub equals_sign : ℕ
equals_sign = 61

-- `s.rstrip("=")`.
unfoldable pub rstrip_padding : Text → Text
unfolding lstrip_by
rstrip_padding s = reverse (lstrip_by (λ c. c == equals_sign) (reverse s))

unfoldable pub encode_cursor : Codec → Value → ℕ → Text
unfolding rstrip_padding cursor_payload scope_fingerprint
encode_cursor codec scope after_id = rstrip_padding (
    codec.urlsafe_b64encode (codec.dumps (cursor_payload (scope_fingerprint codec scope) after_id)))

-- `"=" * n`.
abbrev pub padding : ℕ → Text
padding zero = []
padding (suc n) = equals_sign ∷ padding n

-- `token + "=" * (-len(token) % 4)`.
unfoldable pub padded : Text → Text
padded token = token ++ padding ((4 - length token % 4) % 4)

-- `payload.get("v") != 1`: Python's `True` is 1. No cursor has a float there, and none passes.
unfoldable pub is_version : Value → Bool
is_version (int n) = n == 1
is_version (bool b) = b
is_version _ = false

unfoldable pub equals_text : Value → Text → Bool
equals_text (str s) t = text_eq s t
equals_text _ t = false

-- The checks on what the token holds; `none` is `CursorError`.
unfoldable pub cursor_position : Text → Value → Option ℤ
unfolding is_version equals_text integer get
cursor_position fingerprint (obj payload) =
    if is_version (get payload "v") && equals_text (get payload "s") fingerprint
    then integer (get payload "a")
    else none
cursor_position fingerprint _ = none

unfoldable pub decode_token : Codec → Text → Value → Option ℤ
unfolding cursor_position padded scope_fingerprint
decode_token codec token scope = elim (codec.urlsafe_b64decode (padded token)) [
  | none ↦ none
  | some raw ↦ elim (codec.loads raw) [
    | none ↦ none
    | some payload ↦ cursor_position (scope_fingerprint codec scope) payload
  ]
]

unfoldable pub decode_cursor : Codec → Value → Value → Option ℤ
unfolding decode_token is_blank
decode_cursor codec (str token) scope =
    if is_blank token then none else decode_token codec token scope
decode_cursor codec _ scope = none
