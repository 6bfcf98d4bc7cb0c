-- ===== src/Ingest/Backoff.antt =====
-- `FailureBackoffStore.record_failure` of palaver/ingest/cursors.py: the waits and the counts.
use palaver.Prelude.{
  ℕ, suc, ◌+◌, ◌*◌, ◌^◌, min, ◌≤◌, ◌<◌, ltb, false, List, ◌≡◌, refl, sym, ap, ◌∙◌, arith, none,
  some, Bool-cases, inl, inr, ◌⊎◌, ltb→lt,
}
use native.Mathlib.Nat.{one-le-pow}
use palaver.Ingest.Keyed.{
  Key, key_eq, find_entry, put_entry, remove_entry, find_entry-put_entry, find_entry-put_entry_ne,
  find_entry-remove_entry, find_entry-remove_entry_ne, eq_of_key_eq,
}
use palaver.Ingest.Tick.{
  Backoff, time_of, count_of, record_failure, failure_entry, attempts_of, retry_at,
}

-- What a `record_failure` that returns leaves behind.
pub record Counted (es : List (Key × Backoff)) (k : Key) (now : ℕ) (es' : List (Key × Backoff))
    : Type 0 where
  pub below : attempts_of es k < 1024
  pub counted : attempts_of es' k ≡ suc (attempts_of es k)
  pub waits : (t : ℕ) × (retry_at es' k ≡ some t) × (now + 30 ≤ t) × (t ≤ now + 900)

delay_low : (n : ℕ) → 30 ≤ min (30 * 2 ^ n) 900
delay_low n = omega (arith, one-le-pow n 2 (omega arith))

put_failure-Counted :
    (es : List (Key × Backoff)) (k : Key) (now : ℕ)
    → attempts_of es k < 1024
    → Counted es k now (put_entry k (failure_entry (attempts_of es k) now) es)
unfolding attempts_of retry_at failure_entry time_of count_of
put_failure-Counted es k now h =
    let found = find_entry-put_entry k (failure_entry (attempts_of es k) now) es in
    record {
      below = h;
      counted = ap count_of found;
      waits = (
        (failure_entry (attempts_of es k) now).retry_at,
        ap time_of found,
        omega (arith, delay_low (attempts_of es k)),
        omega arith,
      );
    }

-- `record_failure` raises when 1024 failures in a row are recorded. Before, it counts the failure
-- and sets the time of the next attempt: after 30 seconds at least and 900 at most.
record_failure_bounds :
    (es : List (Key × Backoff)) (k : Key) (now : ℕ)
    → (1024 ≤ attempts_of es k × record_failure es k now ≡ none)
      ⊎ ((es' : List (Key × Backoff)) × (record_failure es k now ≡ some es') × Counted es k now es')
unfolding record_failure
record_failure_bounds es k now = elim (Bool-cases (ltb (attempts_of es k) 1024)) [
  | inr e ↦ inl (ground arith, rw e refl)
  | inl e ↦ inr (
    put_entry k (failure_entry (attempts_of es k) now) es,
    rw e refl,
    put_failure-Counted es k now (ltb→lt (attempts_of es k) 1024 e),
  )
]

pub attempts_of-remove_entry :
    (es : List (Key × Backoff)) (k j : Key) → attempts_of (remove_entry j es) k ≤ attempts_of es k
unfolding attempts_of count_of
attempts_of-remove_entry es k j = elim (Bool-cases (key_eq k j)) [
  | inl e ↦
      let none_left : find_entry k (remove_entry j es) ≡ none =
        ap (λ i. find_entry k (remove_entry i es)) (sym (eq_of_key_eq k j e))
        ∙ find_entry-remove_entry k es in
      rw none_left (omega arith)
  | inr e ↦ rw (find_entry-remove_entry_ne k j es e) (omega arith)
]

attempts_of-put_entry_ne :
    (es : List (Key × Backoff)) (k j : Key) (b : Backoff)
    → key_eq k j ≡ false
    → attempts_of (put_entry j b es) k ≡ attempts_of es k
unfolding attempts_of
attempts_of-put_entry_ne es k j b e = ap count_of (find_entry-put_entry_ne k j b es e)

attempts_of-own_failure :
    (es : List (Key × Backoff)) (j : Key) (now : ℕ)
    → attempts_of (put_entry j (failure_entry (attempts_of es j) now) es) j ≡ suc (attempts_of es j)
unfolding attempts_of failure_entry count_of
attempts_of-own_failure es j now =
    ap count_of (find_entry-put_entry j (failure_entry (attempts_of es j) now) es)

pub attempts_of-put_failure :
    (es : List (Key × Backoff)) (k j : Key) (now : ℕ)
    → attempts_of (put_entry j (failure_entry (attempts_of es j) now) es) k ≤ suc (attempts_of es k)
attempts_of-put_failure es k j now = elim (Bool-cases (key_eq k j)) [
  | inl e ↦
      let same : k ≡ j = eq_of_key_eq k j e in
      let written : attempts_of (put_entry j (failure_entry (attempts_of es j) now) es) k
          ≡ suc (attempts_of es j) =
        ap (λ i. attempts_of (put_entry j (failure_entry (attempts_of es j) now) es) i) same
        ∙ attempts_of-own_failure es j now in
      omega (arith, written, ap (attempts_of es) same)
  | inr e ↦ omega (arith, attempts_of-put_entry_ne es k j (failure_entry (attempts_of es j) now) e)
]
