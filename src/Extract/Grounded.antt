-- ===== src/Extract/Grounded.antt =====
-- What a quote that passed the gate of palaver/extract/quote_gate.py is, and what it resolves to.
use palaver.Prelude.{
  ℕ, zero, suc, ◌+◌, ◌-◌, ◌≤◌, ◌<◌, ltb, leb, true, false, ◌&&◌, Option, some, List, [], ◌∷◌, ◌++◌,
  ◌≡◌, refl, sym, ap, ◌∙◌, arith, length, take, drop, Text, is_blank, starts_with, find, Bool-cases,
  Option-cases, inl, inr, length-append, drop-append_length, take-append_length, take-append-drop,
}
use mathlib.Core.List.{append_assoc}
use palaver.Memory.Tables.{Source, Store, find_source}
use palaver.Extract.QuoteGate.{GroundedQuote, grounded_at, span_of, ground_in, ground_quote}
use palaver.Memory.Resolve.{slice}

starts_with-split : (p s : Text) → starts_with p s ≡ true → (post : Text) × (s ≡ p ++ post)
unfolding starts_with
starts_with-split [] s h = (s, refl)
starts_with-split (a ∷ p) [] h = cc
starts_with-split (a ∷ p) (c ∷ s) h =
    let (post, e) = starts_with-split p s (ground arith) in (post, ground arith)

-- What `find` finds: the text with what stands before it and behind it.
pub find-split :
    (sub s : Text) (i : ℕ)
    → find sub s ≡ some i
    → (pre : Text) × (post : Text) × (s ≡ pre ++ (sub ++ post)) × (length pre ≡ i)
unfolding find
find-split sub [] i h = elim (Bool-cases (starts_with sub [])) [
  | inl e ↦ let (post, split) = starts_with-split sub [] e in ([], post, split, ground arith)
  | inr e ↦ absurd (ground arith)
]
find-split sub (c ∷ s) i h = elim (Bool-cases (starts_with sub (c ∷ s))) [
  | inl e ↦ let (post, split) = starts_with-split sub (c ∷ s) e in ([], post, split, ground arith)
  | inr e ↦ elim (Option-cases (find sub s)) [
    | inl missing ↦ absurd (ground (arith, missing))
    | inr (j, found) ↦
        let (pre, post, split, len) = find-split sub s j found in
        (c ∷ pre, post, ap (λ l. c ∷ l) split, ground (arith, found))
  ]
]

-- A slice of a text that is given in pieces.
pub slice-split :
    (pre mid post : Text) (a b : ℕ)
    → length pre ≡ a
    → a + length mid ≡ b
    → slice (pre ++ (mid ++ post)) a b ≡ mid
unfolding slice
slice-split pre mid post a b ha hb =
    let e : b - a ≡ length mid = omega arith in
    rw (e, ← ha, drop-append_length pre (mid ++ post)) (take-append_length mid post)

-- A quote found in a chunk: where it stands, inside the span that was cited.
pub record Stands (content quote : Text) (span : ℕ × ℕ) (start : ℕ) : Type 0 where
  pub pre : Text
  pub post : Text
  pub split : content ≡ pre ++ (quote ++ post)
  pub begins : length pre ≡ start
  pub inside : (span.0 ≤ start) × (start + length quote ≤ span.1)

take-length {ℓ} : {A : Type ℓ} (n : ℕ) (xs : List A) → n ≤ length xs → length (take n xs) ≡ n
take-length zero xs h = refl
take-length (suc n) [] h = elim h [ ]
take-length (suc n) (x ∷ xs) h = omega (arith, take-length n xs (omega arith))

length-drop_sub {ℓ} : {A : Type ℓ} (n : ℕ) (xs : List A) → length (drop n xs) ≡ length xs - n
length-drop_sub zero xs = omega arith
length-drop_sub (suc n) [] = omega arith
length-drop_sub (suc n) (x ∷ xs) = omega (arith, length-drop_sub n xs)

find-Stands :
    (content quote : Text) (a b i : ℕ)
    → a < b
    → b ≤ length content
    → find quote (slice content a b) ≡ some i
    → Stands content quote (a, b) (a + i)
unfolding slice
find-Stands content quote a b i low high h =
    let (pre, post, split, len) = find-split quote (take (b - a) (drop a content)) i h in
    let behind : Text = drop (b - a) (drop a content) in
    let before : length (take a content) ≡ a = take-length a content (omega arith) in
    let within : a + i + length quote ≤ b = omega (
      arith,
      len,
      ap length split,
      length-append pre (quote ++ post),
      length-append quote post,
      take-length (b - a) (drop a content) (omega (arith, length-drop_sub a content)),
    ) in
    let whole : content ≡ (take a content ++ pre) ++ (quote ++ (post ++ behind)) =
      sym (take-append-drop a content)
      ∙ ap (λ t. take a content ++ t)
          (sym (take-append-drop (b - a) (drop a content)) ∙ ap (λ t. t ++ behind) split)
      ∙ simp append_assoc in
    record {
      pre = take a content ++ pre;
      post = post ++ behind;
      split = whole;
      begins = omega (arith, before, len, length-append (take a content) pre);
      inside = (omega arith, within);
    }

-- A quote that `ground_quote` admits.
pub record Grounds (db : Store) (chunk_id : ℕ) (quote statement : Text) (cited : Option (ℕ × ℕ))
    (g : GroundedQuote) : Type 0 where
  pub chunk : Source
  pub stored : find_source chunk_id db.transcript_chunks ≡ some chunk
  pub start : ℕ
  pub stands : Stands chunk.text quote (span_of chunk.text cited) start
  pub not_blank : is_blank quote ≡ false
  pub value : g ≡ grounded_at chunk_id chunk.text quote statement start

ground_in-Stands :
    (chunk_id : ℕ) (content quote statement : Text) (span : ℕ × ℕ) (g : GroundedQuote)
    → ground_in chunk_id content quote statement span ≡ some g
    → (start : ℕ) × Stands content quote span start
      × (g ≡ grounded_at chunk_id content quote statement start)
unfolding ground_in
ground_in-Stands chunk_id content quote statement (a, b) g h =
    elim (Bool-cases (ltb a b && leb b (length content))) [
      | inr bad ↦ absurd (ground (arith, bad))
      | inl good ↦ elim (Option-cases (find quote (slice content a b))) [
        | inl missing ↦ absurd (ground (arith, good, missing))
        | inr (i, found) ↦ (
          a + i,
          find-Stands content quote a b i (ground arith) (ground arith) found,
          ground (arith, good, found),
        )
      ]
    ]

pub ground_quote-Grounds :
    (db : Store) (chunk_id : ℕ) (quote statement : Text) (cited : Option (ℕ × ℕ))
    (g : GroundedQuote)
    → ground_quote db chunk_id quote statement cited ≡ some g
    → Grounds db chunk_id quote statement cited g
unfolding ground_quote
ground_quote-Grounds db chunk_id quote statement cited g h = elim (Bool-cases (is_blank quote)) [
  | inl blank ↦ absurd (ground (arith, blank))
  | inr full ↦ elim (Option-cases (find_source chunk_id db.transcript_chunks)) [
    | inl missing ↦ absurd (ground (arith, full, missing))
    | inr (chunk, stored) ↦
        let (start, stands, value) =
          ground_in-Stands chunk_id chunk.text quote statement (span_of chunk.text cited) g
            (ground (arith, full, stored)) in
        record {
          chunk = chunk;
          stored = stored;
          start = start;
          stands = stands;
          not_blank = full;
          value = value;
        }
  ]
]
