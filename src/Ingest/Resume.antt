-- ===== src/Ingest/Resume.antt =====
-- `read_complete_records` of palaver/ingest/adapters/base.py, called again as its file changes.
use palaver.Prelude.{
  ℕ, suc, zero, ◌+◌, ◌≤◌, ◌<◌, true, false, List, [], ◌∷◌, ◌++◌, ◌≡◌, ◌∙◌, sym, refl, ap, ap₂,
  arith, ◌==◌, length, drop, Text, Bool-cases, lt→ltb, le→ltb, ==_iff, inl, inr, length-append,
  drop-append, drop-append_length,
}
use mathlib.Core.List.{append_assoc}
use palaver.Ingest.Tail.{
  extend_first, split_lines, nonempty_lines, effective_offset, read_complete_records,
}

-- The bytes of terminated lines.
unfoldable pub unsplit : List Text → Text
unsplit [] = []
unsplit (l ∷ ls) = l ++ 10 ∷ unsplit ls

extend_first-unsplit :
    (c : ℕ) (r : List Text × Text)
    → unsplit (extend_first c r).0 ++ (extend_first c r).1 ≡ c ∷ (unsplit r.0 ++ r.1)
unfolding extend_first unsplit
extend_first-unsplit c ([], t) = refl
extend_first-unsplit c (l ∷ ls, t) = refl

-- One byte of `split_lines`: it ends a line, or it goes before the first piece.
split_lines_newline :
    (c : ℕ) (s : Text)
    → (c == 10) ≡ true
    → split_lines (c ∷ s) ≡ ([] ∷ (split_lines s).0, (split_lines s).1)
unfolding split_lines
split_lines_newline c s h = rw h refl

split_lines_step :
    (c : ℕ) (s : Text) → (c == 10) ≡ false → split_lines (c ∷ s) ≡ extend_first c (split_lines s)
unfolding split_lines
split_lines_step c s h = rw h refl

unsplit-empty : unsplit (split_lines []).0 ++ (split_lines []).1 ≡ []
unfolding split_lines unsplit
unsplit-empty = refl

unsplit-newline : (r : List Text × Text) → unsplit ([] ∷ r.0) ++ r.1 ≡ 10 ∷ (unsplit r.0 ++ r.1)
unfolding unsplit
unsplit-newline r = refl

split_lines-unsplit : (s : Text) → unsplit (split_lines s).0 ++ (split_lines s).1 ≡ s
split_lines-unsplit [] = unsplit-empty
split_lines-unsplit (c ∷ s) = elim (Bool-cases (c == 10)) [
  | inl h ↦
      rw (split_lines_newline c s h, unsplit-newline (split_lines s), split_lines-unsplit s)
        (ap (λ d. d ∷ s) (sym ((==_iff c 10).0 h)))
  | inr h ↦ rw (split_lines_step c s h, extend_first-unsplit, split_lines-unsplit s) refl
]

-- The rest of a read, continued with more bytes.
unfoldable graft : List Text × Text → Text → List Text × Text
graft (ls, t) e = (ls ++ (split_lines (t ++ e)).0, (split_lines (t ++ e)).1)

extend_first-graft :
    (c : ℕ) (r : List Text × Text) (e : Text)
    → (c == 10) ≡ false
    → extend_first c (graft r e) ≡ graft (extend_first c r) e
unfolding extend_first graft
extend_first-graft c ([], t) e h = sym (split_lines_step c (t ++ e) h)
extend_first-graft c (l ∷ ls, t) e h = refl

graft-empty : (e : Text) → split_lines ([] ++ e) ≡ graft (split_lines []) e
unfolding split_lines graft
graft-empty e = refl

graft-newline :
    (r : List Text × Text) (e : Text)
    → ([] ∷ (graft r e).0, (graft r e).1) ≡ graft ([] ∷ r.0, r.1) e
unfolding graft
graft-newline r e = refl

split_lines-append : (s e : Text) → split_lines (s ++ e) ≡ graft (split_lines s) e
split_lines-append [] e = graft-empty e
split_lines-append (c ∷ s) e = elim (Bool-cases (c == 10)) [
  | inl h ↦
      rw (split_lines_newline c (s ++ e) h, split_lines_newline c s h, split_lines-append s e)
        (graft-newline (split_lines s) e)
  | inr h ↦
      rw (split_lines_step c (s ++ e) h, split_lines_step c s h, split_lines-append s e)
        (extend_first-graft c (split_lines s) e h)
]

nonempty_lines-append :
    (ks ls : List Text) → nonempty_lines (ks ++ ls) ≡ nonempty_lines ks ++ nonempty_lines ls
unfolding nonempty_lines
nonempty_lines-append [] ls = refl
nonempty_lines-append ([] ∷ ks) ls = nonempty_lines-append ks ls
nonempty_lines-append ((c ∷ k) ∷ ks) ls = ap (λ l. (c ∷ k) ∷ l) (nonempty_lines-append ks ls)

drop-empty {ℓ} : {A : Type ℓ} (n : ℕ) → drop {A = A} n [] ≡ []
drop-empty zero = refl
drop-empty (suc n) = refl

drop-drop {ℓ} : {A : Type ℓ} (m n : ℕ) (xs : List A) → drop n (drop m xs) ≡ drop (m + n) xs
drop-drop zero n xs = let e : n ≡ 0 + n = omega arith in ap (λ k. drop k xs) e
drop-drop (suc m) n [] =
    let e : suc (m + n) ≡ suc m + n = omega arith in drop-empty n ∙ ap (λ k. drop k []) e
drop-drop (suc m) n (x ∷ xs) =
    let e : suc (m + n) ≡ suc m + n = omega arith in drop-drop m n xs ∙ ap (λ k. drop k (x ∷ xs)) e

length-drop {ℓ} :
    {A : Type ℓ} (m : ℕ) (xs : List A) → m ≤ length xs → m + length (drop m xs) ≡ length xs
length-drop zero xs h = omega arith
length-drop (suc m) [] h = elim h [ ]
length-drop (suc m) (x ∷ xs) h = omega (arith, length-drop m xs (omega arith))

-- The bytes of the terminated lines and the trailing bytes are all the bytes.
length-split_lines :
    (s : Text) → length (unsplit (split_lines s).0) + length (split_lines s).1 ≡ length s
length-split_lines s =
    sym (length-append (unsplit (split_lines s).0) (split_lines s).1)
    ∙ ap length (split_lines-unsplit s)

unsplit-append : (ks ls : List Text) → unsplit (ks ++ ls) ≡ unsplit ks ++ unsplit ls
unfolding unsplit
unsplit-append [] ls = refl
unsplit-append (k ∷ ks) ls =
    rw (unsplit-append ks ls, append_assoc k (10 ∷ unsplit ks) (unsplit ls)) refl

-- The records and the new offset of a read that starts at an offset.
abbrev pub records_from : List Text × Text → ℕ → List Text × ℕ
records_from (ls, t) start = (nonempty_lines ls, start + length (unsplit ls))

graft_records :
    (r : List Text × Text) (e : Text) (start : ℕ)
    → let second = records_from (split_lines (r.1 ++ e)) (start + length (unsplit r.0)) in
      records_from (graft r e) start ≡ (nonempty_lines r.0 ++ second.0, second.1)
unfolding graft
graft_records (ls, t) e start =
    let ms : List Text = (split_lines (t ++ e)).0 in
    let offset : start + length (unsplit (ls ++ ms))
        ≡ start + length (unsplit ls) + length (unsplit ms) =
      rw (unsplit-append ls ms) (omega (arith, length-append (unsplit ls) (unsplit ms))) in
    ap₂ (λ r o. (r, o)) (nonempty_lines-append ls ms) offset

-- A read from inside the file.
pub read_from :
    (file : Text) (start : ℕ)
    → start ≤ length file
    → read_complete_records file start ≡ records_from (split_lines (drop start file)) start
unfolding read_complete_records effective_offset
read_from file start h = rw (le→ltb (length file) start h) (
    ap (λ n. (nonempty_lines (split_lines (drop start file)).0, start + n))
      (omega (arith, length-split_lines (drop start file))))

rest_of : (s e : Text) → drop (length (unsplit (split_lines s).0)) (s ++ e) ≡ (split_lines s).1 ++ e
rest_of s e =
    ap (λ d. drop (length (unsplit (split_lines s).0)) (d ++ e)) (sym (split_lines-unsplit s))
    ∙ ap (drop (length (unsplit (split_lines s).0)))
        (append_assoc (unsplit (split_lines s).0) (split_lines s).1 e)
    ∙ drop-append_length (unsplit (split_lines s).0) ((split_lines s).1 ++ e)

-- Reading a file from a saved offset, and again after the file has grown by any bytes, from the
-- offset that the first read returned, gives the records and the offset of one read of the grown
-- file from the first offset: no record is lost, split or read twice.
pub read_resume :
    (file more : Text) (start : ℕ)
    → start ≤ length file
    → let first = read_complete_records file start in
      let second = read_complete_records (file ++ more) first.1 in
      read_complete_records (file ++ more) start ≡ (first.0 ++ second.0, second.1)
read_resume file more start h =
    let ls = (split_lines (drop start file)).0 in
    let t = (split_lines (drop start file)).1 in
    let o = start + length (unsplit ls) in
    let inside : o ≤ length (file ++ more) = omega (
      arith,
      length-split_lines (drop start file),
      length-drop start file h,
      length-append file more,
    ) in
    let rest : drop o (file ++ more) ≡ t ++ more =
      sym (drop-drop start (length (unsplit ls)) (file ++ more))
      ∙ ap (drop (length (unsplit ls))) (drop-append start file more h)
      ∙ rest_of (drop start file) more in
    rw
      (
        read_from (file ++ more) start (omega (arith, length-append file more)),
        drop-append start file more h,
        split_lines-append (drop start file) more,
        read_from file start h,
        read_from (file ++ more) o inside,
        rest,
      )
      (graft_records (split_lines (drop start file)) more start)

-- The offset that a read from inside the file returns is inside the file, not before the start.
pub read_advances :
    (file : Text) (start : ℕ)
    → start ≤ length file
    → start ≤ (read_complete_records file start).1
      × (read_complete_records file start).1 ≤ length file
read_advances file start h =
    rw (read_from file start h) omega
      (arith, length-split_lines (drop start file), length-drop start file h)

-- A file that is shorter than the saved offset is read from its first byte.
pub read_after_shrink :
    (file : Text) (start : ℕ)
    → length file < start
    → read_complete_records file start ≡ read_complete_records file 0
unfolding read_complete_records effective_offset
read_after_shrink file start h =
    rw (lt→ltb (length file) start h, le→ltb (length file) 0 (omega arith)) refl
