-- ===== src/Socket/Chunks.antt =====
-- However the bytes of a request arrive, palaver/observer/socket/serve.py serves the same request.
use palaver.Prelude.{
  ℕ, ◌≤◌, ◌<◌, Bool, true, false, not, leb, ◌&&◌, ◌||◌, ◌==◌, Option, none, some, List, [], ◌∷◌,
  ◌++◌, map, ◌≡◌, ◌≢◌, refl, sym, ap, ◌∙◌, arith, length, length-append, length-reverse, all,
  reverse, Text, strip_by, lstrip_by, le→ltb,
}
use mathlib.Core.List.{append_assoc, append-nil}
use palaver.Json.{Value}
use palaver.Socket.Connection.{Connection}
use palaver.Socket.Protocol.{apply_request}
use palaver.Socket.Serve.{
  max_request_bytes, Received, chunk, Sent, body_is, answered, ends_with_newline, receive,
  strip_bytes, counts_as_served, answer_body, reply_with, serve_body, serve_received, serve_request,
}

-- The bytes of some chunks, none of them empty.
abbrev pub bytes_of : List Text → Text
bytes_of [] = []
bytes_of (s ∷ ss) = s ++ bytes_of ss

abbrev pub NoneEmpty : List Text → Type 0
NoneEmpty [] = Unit
NoneEmpty (s ∷ ss) = (s ≢ []) × NoneEmpty ss

length-lstrip : (p : ℕ → Bool) (s : Text) → length (lstrip_by p s) ≤ length s
unfolding lstrip_by
length-lstrip p [] = omega arith
length-lstrip p (c ∷ s) = ground (arith, length-lstrip p s)

length-strip_bytes : (s : Text) → length (strip_bytes s) ≤ length s
unfolding strip_bytes strip_by
length-strip_bytes s =
    let p : ℕ → Bool = λ c. (leb 9 c && leb c 13) || c == 32 in
    omega (
      arith,
      length-reverse (lstrip_by p (reverse (lstrip_by p s))),
      length-lstrip p (reverse (lstrip_by p s)),
      length-reverse (lstrip_by p s),
      length-lstrip p s,
    )

abbrev Plain : Text → Type 0
Plain s = all (λ c. not (c == 10)) s ≡ true

Plain-end : (s : Text) → Plain s → ends_with_newline s ≡ false
unfolding ends_with_newline
Plain-end [] h = refl
Plain-end (c ∷ []) h = ground arith
Plain-end (c ∷ d ∷ s) h = Plain-end (d ∷ s) (ground arith)

Plain-prefix : (s t : Text) → Plain (s ++ t) → Plain s × Plain t
Plain-prefix [] t h = (refl, h)
Plain-prefix (c ∷ s) t h = let (p, q) = Plain-prefix s t (ground arith) in (ground (arith, p), q)

append_empty : (s t : Text) → s ++ t ≡ [] → t ≡ []
append_empty [] t e = e
append_empty (c ∷ s) t e = cc

-- Bytes in front of more bytes of a line are of the line, before its end.
split_line :
    (s t u : Text) → t ≢ [] → s ++ t ≡ u ++ 10 ∷ [] → (v : Text) × (u ≡ s ++ v) × (t ≡ v ++ 10 ∷ [])
split_line [] t u h e = (u, refl, e)
split_line (c ∷ s) t [] h e = absurd (h (append_empty s t (cc e)))
split_line (c ∷ s) t (x ∷ u) h e =
    let same : c ≡ x = cc e in
    let rest : s ++ t ≡ u ++ 10 ∷ [] = cc e in
    let (v, p, q) = split_line s t u h rest in (v, cc (same, p), q)

ends_last : (u : Text) → ends_with_newline (u ++ 10 ∷ []) ≡ true
unfolding ends_with_newline
ends_last [] = refl
ends_last (c ∷ []) = refl
ends_last (c ∷ d ∷ u) = ends_last (d ∷ u)

bytes_nonempty : (s : Text) (ss : List Text) → NoneEmpty (s ∷ ss) → bytes_of (s ∷ ss) ≢ []
bytes_nonempty [] ss (h, hs) e = h refl
bytes_nonempty (c ∷ s) ss h e = cc

snoc_nonempty : (u : Text) → u ++ 10 ∷ [] ≢ []
snoc_nonempty [] e = cc
snoc_nonempty (c ∷ u) e = cc

-- The loop over the chunks of a line that is not too long ends with the line.
receive_line :
    (received : Text) (ss : List Text) (rest : List Received) (u : Text)
    → NoneEmpty ss
    → bytes_of ss ≡ u ++ 10 ∷ []
    → Plain u
    → length (received ++ u) ≤ max_request_bytes
    → receive received (map chunk ss ++ rest) ≡ body_is (received ++ (u ++ 10 ∷ []))
unfolding receive
receive_line received [] rest u h e plain small = absurd (snoc_nonempty u (sym e))
receive_line received ([] ∷ ss) rest u (h, hs) e plain small = absurd (h refl)
receive_line received ((c ∷ s) ∷ []) rest u h e plain small =
    let w : c ∷ s ≡ u ++ 10 ∷ [] = sym (append-nil (c ∷ s)) ∙ e in
    let ends : ends_with_newline (c ∷ s) ≡ true = ap ends_with_newline w ∙ ends_last u in
    rw (ends, receive) (ap (λ x. body_is (received ++ x)) w)
receive_line received ((c ∷ s) ∷ t ∷ ss) rest u (h, hs) e plain small =
    let (v, whole, left) = split_line (c ∷ s) (bytes_of (t ∷ ss)) u (bytes_nonempty t ss hs) e in
    let (plain_chunk, plain_rest) = Plain-prefix (c ∷ s) v (rw whole at plain) in
    let size : length (received ++ u) ≡ length ((received ++ c ∷ s) ++ v) =
      ap (λ x. length (received ++ x)) whole ∙ ap length (sym (append_assoc received (c ∷ s) v)) in
    let fits : length ((received ++ c ∷ s) ++ v) ≤ max_request_bytes = omega (arith, size, small) in
    rw
      (
        Plain-end (c ∷ s) plain_chunk,
        le→ltb max_request_bytes (length (received ++ c ∷ s))
            (omega (arith, fits, length-append (received ++ c ∷ s) v)),
        receive,
      )
      (receive_line (received ++ c ∷ s) (t ∷ ss) rest v hs left plain_rest fits
        ∙ ap body_is (
            append_assoc received (c ∷ s) (v ++ 10 ∷ [])
            ∙ ap (λ x. received ++ x) (sym (append_assoc (c ∷ s) v (10 ∷ [])))
            ∙ ap (λ x. received ++ (x ++ 10 ∷ [])) (sym whole)))

serve_body_whole :
    (loads : Text → Option Value) (commits : Bool) (now : ℕ) (sent : Sent) (body : Text)
    (payload : Value) (c : Connection)
    → loads [] ≡ none
    → loads body ≡ some payload
    → length body ≤ max_request_bytes
    → serve_body loads commits now sent body c ≡ record {
      served = counts_as_served sent;
      answer = some (answered (apply_request commits now payload c).0);
      connection = (apply_request commits now payload c).1;
    }
unfolding serve_body reply_with answer_body
serve_body_whole loads commits now sent [] payload c nothing read small = cc
serve_body_whole loads commits now sent (b ∷ body) payload c nothing read small =
    rw (le→ltb max_request_bytes (length (b ∷ body)) small, read) refl

-- Let a request be one line, shorter than the limit, that decodes, and let the last of the chunks
-- that its bytes are cut into end with its newline. Then it is answered as `apply_request` answers
-- what it decodes to, wherever else the bytes are cut and whatever arrives in later chunks: the
-- daemon's tables and the reply are the same. A chunk that runs on behind the newline is no such cut.
pub serve_request-chunks :
    (loads : Text → Option Value) (commits : Bool) (now : ℕ) (sent : Sent) (ss : List Text)
    (rest : List Received) (line : Text) (payload : Value) (c : Connection)
    → NoneEmpty ss
    → bytes_of ss ≡ line ++ 10 ∷ []
    → all (λ b. not (b == 10)) line ≡ true
    → length line < max_request_bytes
    → loads [] ≡ none
    → loads (strip_bytes (line ++ 10 ∷ [])) ≡ some payload
    → serve_request loads commits now true (map chunk ss ++ rest) sent c ≡ record {
      served = counts_as_served sent;
      answer = some (answered (apply_request commits now payload c).0);
      connection = (apply_request commits now payload c).1;
    }
unfolding serve_request serve_received
serve_request-chunks loads commits now sent ss rest line payload c h e plain small nothing read =
    let raw = line ++ 10 ∷ [] in
    let short : length (strip_bytes raw) ≤ max_request_bytes =
      omega (arith, length-strip_bytes raw, length-append line (10 ∷ []), small) in
    rw (receive_line [] ss rest line h e plain (omega arith), serve_received)
      (serve_body_whole loads commits now sent (strip_bytes raw) payload c nothing read short)
