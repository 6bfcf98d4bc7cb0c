-- ===== src/Migrations/Due.antt =====
-- Which migrations `migrate` of palaver/store/migrate.py has to do, told without its order and guard.
use palaver.Prelude.{
  ℕ, ◌≤◌, ◌<◌, true, false, Option, none, some, List, [], ◌∷◌, ◌≡◌, ◌⊎◌, inl, inr, refl, sym, ap,
  arith, leb, Bool-cases,
}
use mathlib.Core.Path.{subst}
use palaver.Migrations.Migrate.{Migration, insert_migration, sorted, last_version, skips, target_of}
use palaver.Migrations.Applied.{pending}

-- A version that is not past the target, where one is given.
abbrev pub Within : Option ℕ → ℕ → Type 0
Within none v = Unit
Within (some target) v = v ≤ target

module _ {S : Type 0} where
  -- A migration of a list.
  pub data Among (m : Migration S) : List (Migration S) → Type 0 where
    first : {ms : List (Migration S)} → Among m (m ∷ ms)
    next : {n : Migration S} {ms : List (Migration S)} → Among m ms → Among m (n ∷ ms)

  -- Versions that rise, from above the one found.
  abbrev pub Rises : ℕ → List (Migration S) → Type 0
  Rises found [] = Unit
  Rises found (m ∷ ms) = (found < m.version) × Rises m.version ms

  -- What is to be done: migrations of those given, their versions rising from above the one found and
  -- none of them past the target, with one for each version in between that is given.
  pub record IsDue (target : Option ℕ) (found : ℕ) (given todo : List (Migration S)) : Type 0 where
    pub rises : Rises found todo
    pub chosen : (m : Migration S) → Among m todo → Among m given × Within target m.version
    pub complete :
        (m : Migration S)
        → Among m given
        → found < m.version
        → Within target m.version
        → (n : Migration S) × Among n todo × (n.version ≡ m.version)

  -- Versions that do not fall.
  abbrev Ascending : List (Migration S) → Type 0
  Ascending [] = Unit
  Ascending (m ∷ ms) = ((n : Migration S) → Among n ms → m.version ≤ n.version) × Ascending ms

  head_or_tail :
      (m x : Migration S) (ms : List (Migration S)) → Among m (x ∷ ms) → (m ≡ x) ⊎ Among m ms
  head_or_tail m x ms first = inl refl
  head_or_tail m x ms (next p) = inr p

  at_head : (m x : Migration S) (ms : List (Migration S)) → m ≡ x → Among m (x ∷ ms)
  at_head m x ms e = subst (λ y. Among m (y ∷ ms)) e first

  insert-Among :
      (x : Migration S) (ms : List (Migration S)) (m : Migration S)
      → Among m (insert_migration x ms)
      → (m ≡ x) ⊎ Among m ms
  unfolding insert_migration
  insert-Among x [] m first = inl refl
  insert-Among x [] m (next p) = elim p [ ]
  insert-Among x (y ∷ ms) m p = elim (Bool-cases (leb x.version y.version)) [
    | inl low ↦ head_or_tail m x (y ∷ ms) (rw (low, insert_migration) at p)
    | inr high ↦
        elim (head_or_tail m y (insert_migration x ms) (rw (high, insert_migration) at p)) [
          | inl e ↦ inr (at_head m y ms e)
          | inr q ↦ elim (insert-Among x ms m q) [ inl e ↦ inl e | inr later ↦ inr (next later) ]
        ]
  ]

  Among-insert :
      (x : Migration S) (ms : List (Migration S)) (m : Migration S)
      → (m ≡ x) ⊎ Among m ms
      → Among m (insert_migration x ms)
  unfolding insert_migration
  Among-insert x [] m (inl e) = at_head m x [] e
  Among-insert x [] m (inr p) = elim p [ ]
  Among-insert x (y ∷ ms) m p = elim (Bool-cases (leb x.version y.version)) [
    | inl low ↦
        rw (low, insert_migration)
          (elim p [ inl e ↦ at_head m x (y ∷ ms) e | inr later ↦ next later ])
    | inr high ↦
        rw (high, insert_migration)
          (elim p [
            | inl e ↦ next (Among-insert x ms m (inl e))
            | inr later ↦ elim (head_or_tail m y ms later) [
              | inl e ↦ at_head m y (insert_migration x ms) e
              | inr q ↦ next (Among-insert x ms m (inr q))
            ]
          ])
  ]

  insert-Ascending :
      (x : Migration S) (ms : List (Migration S)) → Ascending ms → Ascending (insert_migration x ms)
  unfolding insert_migration
  insert-Ascending x [] up = ((λ n p. elim p [ ]), tt)
  insert-Ascending x (y ∷ ms) (low, up) = elim (Bool-cases (leb x.version y.version)) [
    | inl h ↦
        rw (h, insert_migration, Ascending)
          ((
            λ n p. elim (head_or_tail n y ms p) [
              | inl e ↦ rw e (ground (arith, h))
              | inr q ↦ ground (arith, h, low n q)
            ],
            (low, up),
          ))
    | inr h ↦
        rw (h, insert_migration, Ascending)
          ((
            λ n p. elim (insert-Among x ms n p) [
              | inl e ↦ rw e (ground (arith, h))
              | inr q ↦ low n q
            ],
            insert-Ascending x ms up,
          ))
  ]

  sorted-Ascending : (ms : List (Migration S)) → Ascending (sorted ms)
  unfolding sorted
  sorted-Ascending [] = tt
  sorted-Ascending (m ∷ ms) = insert-Ascending m (sorted ms) (sorted-Ascending ms)

  sorted-Among : (ms : List (Migration S)) (m : Migration S) → Among m (sorted ms) → Among m ms
  unfolding sorted
  sorted-Among [] m p = p
  sorted-Among (x ∷ ms) m p = elim (insert-Among x (sorted ms) m p) [
    | inl same ↦ subst (λ y. Among m (y ∷ ms)) same first
    | inr later ↦ next (sorted-Among ms m later)
  ]

  Among-sorted : (ms : List (Migration S)) (m : Migration S) → Among m ms → Among m (sorted ms)
  unfolding sorted
  Among-sorted (x ∷ ms) m first = Among-insert m (sorted ms) m (inl refl)
  Among-sorted (x ∷ ms) m (next p) = Among-insert x (sorted ms) m (inr (Among-sorted ms m p))
  Among-sorted [] m p = elim p [ ]

  pending-Rises :
      (target version : ℕ) (ms : List (Migration S)) → Rises version (pending target version ms)
  unfolding skips
  pending-Rises target version [] = tt
  pending-Rises target version (m ∷ ms) = elim (Bool-cases (skips m version target)) [
    | inl skipped ↦ rw (skipped, pending) (pending-Rises target version ms)
    | inr due ↦ rw (due, pending, Rises) (ground arith, pending-Rises target m.version ms)
  ]

  due_low :
      (target version : ℕ) (x : Migration S) → skips x version target ≡ false → x.version ≤ target
  unfolding skips
  due_low target version x due = ground arith

  skipped_out :
      (target version : ℕ) (x : Migration S)
      → skips x version target ≡ true
      → version < x.version
      → x.version ≤ target
      → ⊥
  unfolding skips
  skipped_out target version x skipped above within = ground arith

  pending-Among :
      (target version : ℕ) (ms : List (Migration S)) (m : Migration S)
      → Among m (pending target version ms)
      → Among m ms × (m.version ≤ target)
  pending-Among target version [] m p = elim p [ ]
  pending-Among target version (x ∷ ms) m p = elim (Bool-cases (skips x version target)) [
    | inl skipped ↦
        let (q, h) = pending-Among target version ms m (rw (skipped, pending) at p) in (next q, h)
    | inr due ↦ elim (head_or_tail m x (pending target x.version ms) (rw (due, pending) at p)) [
      | inl e ↦ (at_head m x ms e, rw e (due_low target version x due))
      | inr q ↦ let (r, h) = pending-Among target x.version ms m q in (next r, h)
    ]
  ]

  Among-pending :
      (target version : ℕ) (ms : List (Migration S)) (m : Migration S)
      → Ascending ms
      → Among m ms
      → version < m.version
      → m.version ≤ target
      → (n : Migration S) × Among n (pending target version ms) × (n.version ≡ m.version)
  Among-pending target version [] m up p above within = elim p [ ]
  Among-pending target version (x ∷ ms) m (low, up) p above within =
      elim (Bool-cases (skips x version target)) [
        | inl skipped ↦
            rw (skipped, pending)
              (elim (head_or_tail m x ms p) [
                | inl e ↦ absurd (
                    skipped_out target version x skipped
                      (subst (λ (y : Migration S). version < y.version) e above)
                      (subst (λ (y : Migration S). y.version ≤ target) e within))
                | inr q ↦ Among-pending target version ms m up q above within
              ])
        | inr due ↦
            rw (due, pending)
              (elim (head_or_tail m x ms p) [
                | inl e ↦ (x, first, ap (λ (y : Migration S). y.version) (sym e))
                | inr q ↦ elim (Bool-cases (leb m.version x.version)) [
                  | inl low' ↦ (x, first, ground (arith, low', low m q))
                  | inr high ↦
                      let (n, r, same) =
                        Among-pending target x.version ms m up q (ground (arith, high)) within in
                      (n, next r, same)
                ]
              ])
      ]

  Among-last_version :
      (ms : List (Migration S)) (m : Migration S)
      → Ascending ms
      → Among m ms
      → m.version ≤ last_version ms
  unfolding last_version
  Among-last_version [] m up p = elim p [ ]
  Among-last_version (x ∷ []) m up p = elim (head_or_tail m x [] p) [
    | inl e ↦ rw e (omega arith)
    | inr q ↦ elim q [ ]
  ]
  Among-last_version (x ∷ y ∷ ms) m (low, up) p = elim (head_or_tail m x (y ∷ ms) p) [
    | inl e ↦ rw e (omega (arith, low y first, Among-last_version (y ∷ ms) y up first))
    | inr q ↦ Among-last_version (y ∷ ms) m up q
  ]

  Within-target :
      (target : Option ℕ) (given : List (Migration S)) (m : Migration S)
      → Among m given
      → Within target m.version
      → m.version ≤ target_of target (sorted given)
  unfolding target_of
  Within-target none given m p h =
      Among-last_version (sorted given) m (sorted-Ascending given) (Among-sorted given m p)
  Within-target (some t) given m p h = h

  target-Within :
      (target : Option ℕ) (v : ℕ) (ms : List (Migration S))
      → v ≤ target_of target ms
      → Within target v
  unfolding target_of
  target-Within none v ms h = tt
  target-Within (some t) v ms h = h

  pub pending-IsDue :
      (target : Option ℕ) (found : ℕ) (given : List (Migration S))
      → IsDue target found given (pending (target_of target (sorted given)) found (sorted given))
  pending-IsDue target found given =
      let ms = sorted given in
      let last = target_of target ms in
      record {
        rises = pending-Rises last found ms;
        chosen = λ m p.
            let (q, h) = pending-Among last found ms m p in
            (sorted-Among given m q, target-Within target m.version ms h);
        complete = λ m p above within.
            Among-pending last found ms m (sorted-Ascending given) (Among-sorted given m p) above
              (Within-target target given m p within);
      }
