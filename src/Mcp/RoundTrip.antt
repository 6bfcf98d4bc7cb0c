-- ===== src/Mcp/RoundTrip.antt =====
-- What palaver/mcp/pagination.py relies on of its codecs, and that its cursors come back.
use Prim.Native.Nat.{◌%◌}
use palaver.Prelude.{
  ℕ, suc, zero, ◌+◌, ◌-◌, ◌<◌, Bool, true, false, ◌&&◌, ◌||◌, leb, none, some, List, [], ◌∷◌, ◌++◌,
  ◌==◌, ◌≡◌, ◌≢◌, refl, ap, sym, ◌∙◌, arith, if◌then◌else◌, length, all, Text, codes, text_eq,
  lstrip_by, is_blank, is_space, reverse, length-append,
}
use mathlib.Core.List.{reverse-append, reverse-reverse}
use palaver.Json.{Value, int, str, obj, field, end}
use palaver.Integers.{pos}
use palaver.Mcp.Cursor.{
  Codec, scope_fingerprint, cursor_payload, equals_sign, rstrip_padding, encode_cursor, padding,
  padded, cursor_position, decode_token, decode_cursor,
}

-- The URL-safe alphabet of RFC 4648.
abbrev pub is_base64 : ℕ → Bool
is_base64 c =
    (leb 65 c && leb c 90)
    || ((leb 97 c && leb c 122) || ((leb 48 c && leb c 57) || (c == 45 || c == 95)))

-- Encoded bytes: letters of the alphabet, with fewer than four `=` behind them that fill up the last
-- group of four.
pub record IsEncoded (s : Text) : Type 0 where
  pub body : Text
  pub pads : ℕ
  pub shape : s ≡ body ++ padding pads
  pub letters : all is_base64 body ≡ true
  pub nonempty : body ≢ []
  pub few : pads < 4
  pub groups : length s % 4 ≡ 0

-- What the standard library documents: base64 is undone, and is in groups of four; what `json.dumps`
-- writes of a cursor's dictionary is not empty, and reads back with its keys sorted.
pub record IsCodec (codec : Codec) : Type 0 where
  pub encoded : (s : Text) → s ≢ [] → IsEncoded (codec.urlsafe_b64encode s)
  pub decoded : (s : Text) → codec.urlsafe_b64decode (codec.urlsafe_b64encode s) ≡ some s
  pub dumped : (f : Text) (n : ℕ) → codec.dumps (cursor_payload f n) ≢ []
  pub loaded :
      (f : Text) (n : ℕ)
      → codec.loads (codec.dumps (cursor_payload f n))
        ≡ some (
            obj (
              field
                (codes "a")
                (int n)
                (field (codes "s") (str f) (field (codes "v") (int 1) end))))

all-append :
    {A : Type 0} (p : A → Bool) (xs ys : List A) → all p (xs ++ ys) ≡ (all p xs && all p ys)
all-append p [] ys = refl
all-append p (x ∷ xs) ys = ground (arith, all-append p xs ys)

all-reverse : {A : Type 0} (p : A → Bool) (xs : List A) → all p (reverse xs) ≡ all p xs
all-reverse p [] = refl
all-reverse p (x ∷ xs) =
    rw (reverse-append (x ∷ []) xs)
      (ground (arith, all-append p (reverse xs) (x ∷ []), all-reverse p xs))

lstrip_all :
    (p : ℕ → Bool) (xs ys : Text) → all p xs ≡ true → lstrip_by p (xs ++ ys) ≡ lstrip_by p ys
unfolding lstrip_by
lstrip_all p [] ys h = refl
lstrip_all p (x ∷ xs) ys h = ground (arith, lstrip_all p xs ys)

lstrip_letters : (xs : Text) → all is_base64 xs ≡ true → lstrip_by (λ c. c == equals_sign) xs ≡ xs
unfolding lstrip_by
lstrip_letters [] h = refl
lstrip_letters (x ∷ xs) h = ground arith

padding-all : (k : ℕ) → all (λ c. c == equals_sign) (padding k) ≡ true
padding-all zero = refl
padding-all (suc k) = padding-all k

rstrip_encoded :
    (body : Text) (k : ℕ) → all is_base64 body ≡ true → rstrip_padding (body ++ padding k) ≡ body
unfolding rstrip_padding
rstrip_encoded body k letters =
    let p : ℕ → Bool = λ c. c == equals_sign in
    rw
      (
        reverse-append body (padding k),
        lstrip_all p (reverse (padding k)) (reverse body)
            (all-reverse p (padding k) ∙ padding-all k),
        lstrip_letters (reverse body) (all-reverse is_base64 body ∙ letters),
      )
      (reverse-reverse body)

letters_visible : (body : Text) → body ≢ [] → all is_base64 body ≡ true → is_blank body ≡ false
unfolding is_blank is_space
letters_visible [] h letters = absurd (h refl)
letters_visible (c ∷ s) h letters = ground arith

length-padding : (k : ℕ) → length (padding k) ≡ k
length-padding zero = refl
length-padding (suc k) = ap suc (length-padding k)

pads_back : (n k : ℕ) → k < 4 → (n + k) % 4 ≡ 0 → (4 - n % 4) % 4 ≡ k
pads_back n k few groups = omega arith

padded_back :
    (body : Text) (k : ℕ)
    → k < 4
    → length (body ++ padding k) % 4 ≡ 0
    → padded body ≡ body ++ padding k
unfolding padded
padded_back body k few groups =
    let size : length (body ++ padding k) ≡ length body + k =
      length-append body (padding k) ∙ ap (λ n. length body + n) (length-padding k) in
    ap (λ n. body ++ padding n) (pads_back (length body) k few (rw size at groups))

position_back :
    (f f' : Text) (n : ℕ)
    → cursor_position f' (
        obj (field (codes "a") (int n) (field (codes "s") (str f) (field (codes "v") (int 1) end))))
      ≡ (if text_eq f f' then some (pos n) else none)
unfolding cursor_position text_eq
position_back f f' n = refl

-- What `encode_cursor` hands out, with the padding taken off.
encoded_body :
    (codec : Codec) (scope : Value) (n : ℕ)
    (e : IsEncoded
      (codec.urlsafe_b64encode (codec.dumps (cursor_payload (scope_fingerprint codec scope) n))))
    → encode_cursor codec scope n ≡ e.body
unfolding encode_cursor
encoded_body codec scope n e = rw e.shape (rstrip_encoded e.body e.pads e.letters)

token_back :
    (codec : Codec) (laws : IsCodec codec) (scope other : Value) (n : ℕ)
    (e : IsEncoded
      (codec.urlsafe_b64encode (codec.dumps (cursor_payload (scope_fingerprint codec scope) n))))
    → decode_token codec e.body other ≡ (
        if text_eq (scope_fingerprint codec scope) (scope_fingerprint codec other)
        then some (pos n)
        else none)
unfolding decode_token
token_back codec laws scope other n e =
    let f = scope_fingerprint codec scope in
    let bytes = codec.dumps (cursor_payload f n) in
    let whole : padded e.body ≡ codec.urlsafe_b64encode bytes =
      padded_back e.body e.pads e.few (rw e.shape at e.groups) ∙ sym e.shape in
    rw (whole, decode_token, laws.decoded bytes, laws.loaded f n)
      (position_back f (scope_fingerprint codec other) n)

-- A cursor that `encode_cursor` makes for a scope is read back as its position where the scope asked
-- for has the same fingerprint, so for the scope itself, and is refused where it has another.
pub decode_cursor-encode_cursor :
    (codec : Codec) (laws : IsCodec codec) (scope other : Value) (n : ℕ)
    → decode_cursor codec (str (encode_cursor codec scope n)) other ≡ (
        if text_eq (scope_fingerprint codec scope) (scope_fingerprint codec other)
        then some (pos n)
        else none)
unfolding decode_cursor
decode_cursor-encode_cursor codec laws scope other n =
    let f = scope_fingerprint codec scope in
    let e = laws.encoded (codec.dumps (cursor_payload f n)) (laws.dumped f n) in
    rw (encoded_body codec scope n e, letters_visible e.body e.nonempty e.letters)
      (token_back codec laws scope other n e)
