-- ===== src/Summary/Panel.antt =====
-- palaver/ui/companion_update.py: each reading of the panel keeps up with the file.
use palaver.Prelude.{
  ℕ, ◌+◌, ◌<◌, Bool, true, false, Option, none, some, List, [], ◌∷◌, ◌++◌, All, length,
  length-append, ltb, lt→ltb, le→ltb, Text, ◌≡◌, refl, sym, ap, ◌∙◌, arith,
}
use mathlib.Core.Path.{subst}
use mathlib.Core.Option.{some-injective}
use palaver.Json.{Value}
use palaver.Ingest.Tail.{read_complete_records}
use palaver.Ingest.Resume.{read_resume, read_advances, read_after_shrink}
use palaver.Summary.Model.{SummarySnapshot}
use palaver.Summary.ClaudeCode.{Event}
use palaver.Summary.CodexReduce.{Runtime}
use palaver.Summary.Reduce.{start}
use palaver.Summary.Reducer.{SummaryReducer, Batch, feed}
use palaver.Summary.Readable.{IsReadable}
use palaver.Summary.Fed.{whole, reducer_at, feed-whole}
use palaver.Summary.Tailing.{tail_records, TailResult, tail, Followed, with_offset, refresh}
use palaver.Summary.Following.{joined, tail_records-append, read_whole, IsReadableFile, Follows}

-- Two readable parts whose events together are readable.
All-rest : (es fs : List Event) → All IsReadable (es ++ fs) → All IsReadable fs
All-rest [] fs h = h
All-rest (e ∷ es) fs (_, h) = All-rest es fs h

-- What is read after the events of the first part.
joined-some :
    (es gs : List Event) (n k : ℕ) (b : Option (List Event × ℕ))
    → joined (some (es, n)) b ≡ some (gs, k)
    → (fs : List Event) × (m : ℕ) × (b ≡ some (fs, m)) × (es ++ fs ≡ gs) × (n + m ≡ k)
joined-some es gs n k none h = cc
joined-some es gs n k (some (fs, m)) h =
    let e = some-injective (es ++ fs, n + m) (gs, k) h in
    (fs, m, refl, ap (λ t. t.0) e, ap (λ t. t.1) e)

module _ (key : Text) (loads : Text → Option Value) (run_time : Runtime) where
  tail-some :
      (file : Text) (start n : ℕ) (es : List Event)
      → tail_records key loads (read_complete_records file start).0 ≡ some (es, n)
      → tail key loads file start
        ≡ some (record {
          events = es;
          offset = (read_complete_records file start).1;
          malformed_records = n;
        })
  unfolding tail
  tail-some file start n es h = rw (h, tail) refl

  refresh-some :
      (f : Followed) (file : Text) (t : TailResult) (back : Bool) (r : SummaryReducer)
      → tail key loads file f.offset ≡ some t
      → ltb t.offset f.offset ≡ back
      → feed run_time f.reducer
          (record { events = t.events; malformed = t.malformed_records; replaces = back })
        ≡ some r
      → refresh run_time (tail key loads) f file ≡ some (record { reducer = r; offset = t.offset })
  unfolding refresh with_offset
  refresh-some f file t back r found order fed =
      rw (found, refresh)
        (ap
            (λ b. with_offset t.offset (
              feed run_time f.reducer
                (record { events = t.events; malformed = t.malformed_records; replaces = b })))
            order
          ∙ ap (with_offset t.offset) fed)

  -- The next state follows the next file.
  abbrev pub Refreshed : Text → Followed → Type 0
  Refreshed next f =
      (g : Followed) × (refresh run_time (tail key loads) f next ≡ some g)
      × Follows key loads run_time next g

  -- A tail of the next file that the reducer can be fed with.
  fed-Follows :
      (next : Text) (f : Followed) (o : ℕ) (back : Bool) (fs : List Event) (m : ℕ) (gs : List Event)
      (k : ℕ) (t : SummarySnapshot)
      → f.offset ≡ o
      → tail_records key loads (read_complete_records next o).0 ≡ some (fs, m)
      → (read_complete_records next o).1 ≡ (read_complete_records next 0).1
      → ltb (read_complete_records next o).1 o ≡ back
      → feed run_time f.reducer (record { events = fs; malformed = m; replaces = back })
        ≡ some (reducer_at run_time key t k)
      → read_whole key loads next ≡ some (gs, k)
      → All IsReadable gs
      → whole run_time key gs ≡ some t
      → Refreshed next f
  fed-Follows next f o back fs m gs k t at_o found end_ order fed all_found readable reduced = (
    record { reducer = reducer_at run_time key t k; offset = (read_complete_records next o).1 },
    refresh-some f next _ back _ (rw at_o (tail-some next o m fs found)) (rw at_o order) fed,
    (
      gs,
      k,
      t,
      all_found,
      readable,
      reduced,
      ap (λ n. record { reducer = reducer_at run_time key t k; offset = n }) end_,
    ),
  )

  pub shrunk-Follows :
      (file next : Text) (f : Followed)
      → Follows key loads run_time file f
      → IsReadableFile key loads next
      → length next < (read_complete_records file 0).1
      → Refreshed next f
  shrunk-Follows file next f (es, n, s, found, old, reduced, e) (gs, k, all_found, all_read) short =
      let o = (read_complete_records file 0).1 in
      let again = read_after_shrink next o short in
      let bound = read_advances next 0 (omega arith) in
      let batch : Batch = record { events = gs; malformed = k; replaces = true } in
      let (readable, (t, reduced_all, fed)) =
        feed-whole run_time key es n s batch old all_read reduced in
      fed-Follows next f o true gs k gs k t (ap (λ g. g.offset) e) (rw again all_found)
        (ap (λ r. r.1) again) (rw again (lt→ltb (read_complete_records next 0).1 o (omega arith)))
        (rw e fed) all_found all_read reduced_all

  pub grown-Follows :
      (file more : Text) (f : Followed)
      → Follows key loads run_time file f
      → IsReadableFile key loads (file ++ more)
      → Refreshed (file ++ more) f
  grown-Follows file more f (es, n, s, found, old, reduced, e) (gs, k, all_found, all_read) =
      let o = (read_complete_records file 0).1 in
      let next = file ++ more in
      let resume = read_resume file more 0 (omega arith) in
      let second = read_complete_records next o in
      let bounds = read_advances file 0 (omega arith) in
      let inside = read_advances next o (omega (arith, length-append file more)) in
      let parts : joined (some (es, n)) (tail_records key loads second.0) ≡ some (gs, k) =
        sym (
          ap (λ r. tail_records key loads r.0) resume
          ∙ (tail_records-append key loads (read_complete_records file 0).0 second.0
              ∙ ap (λ r. joined r (tail_records key loads second.0)) found))
        ∙ all_found in
      let (fs, m, there, same, count) =
        joined-some es gs n k (tail_records key loads second.0) parts in
      let fresh = All-rest es fs (subst (λ l. All IsReadable l) (sym same) all_read) in
      let batch : Batch = record { events = fs; malformed = m; replaces = false } in
      let (readable, (t, reduced_all, fed)) =
        feed-whole run_time key es n s batch old fresh reduced in
      fed-Follows next f o false fs m gs k t (ap (λ g. g.offset) e) there
        (sym (ap (λ r. r.1) resume)) (le→ltb second.1 o inside.0)
        (ap (λ g. feed run_time g.reducer batch) e
          ∙ (fed ∙ ap (λ c. some (reducer_at run_time key t c)) count))
        all_found all_read (ap (whole run_time key) (sym same) ∙ reduced_all)
