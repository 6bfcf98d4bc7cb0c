-- ===== src/Ingest/Tail.antt =====
-- `read_complete_records` of palaver/ingest/adapters/base.py. A file is its bytes, read in one
-- piece with its size.
use palaver.Prelude.{ℕ, ◌+◌, ◌-◌, ltb, List, [], ◌∷◌, ◌==◌, length, drop, if◌then◌else◌, Text}

-- A byte in front of the first piece.
unfoldable pub extend_first : ℕ → List Text × Text → List Text × Text
extend_first c ([], t) = ([], c ∷ t)
extend_first c (l ∷ ls, t) = ((c ∷ l) ∷ ls, t)

-- `raw.split(b"\n")`, with the last piece apart: the terminated lines and the trailing bytes.
unfoldable pub split_lines : Text → List Text × Text
split_lines [] = ([], [])
split_lines (c ∷ s) =
    let rest = split_lines s in if c == 10 then ([] ∷ rest.0, rest.1) else extend_first c rest

-- `[line for line in lines if line]`.
unfoldable pub nonempty_lines : List Text → List Text
nonempty_lines [] = []
nonempty_lines ([] ∷ ls) = nonempty_lines ls
nonempty_lines ((c ∷ l) ∷ ls) = (c ∷ l) ∷ nonempty_lines ls

-- Where the read starts: from 0 again if the file is shorter than the cursor.
unfoldable pub effective_offset : Text → ℕ → ℕ
effective_offset file start = if ltb (length file) start then 0 else start

-- `read_complete_records`: the records and the new offset.
unfoldable pub read_complete_records : Text → ℕ → List Text × ℕ
read_complete_records file start =
    let offset = effective_offset file start in
    let raw = drop offset file in
    let (lines, trailing_partial) = split_lines raw in
    (nonempty_lines lines, offset + (length raw - length trailing_partial))
