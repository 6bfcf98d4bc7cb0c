-- ===== src/Ingest/Keyed.antt =====
-- The stores of palaver/ingest/cursors.py: entries under a source and a session key.
-- The code files an entry under a digest of `source` + NUL + `session_key`; here the key is the
-- pair itself, so digests are taken not to collide.
use palaver.Prelude.{
  Bool, true, false, ◌&&◌, List, [], ◌∷◌, ◌≡◌, refl, sym, ap, Option, none, some, if◌then◌else◌,
  Text, text_eq, eq_of_text_eq, ◌∙◌, ap₂, text_eq_refl, arith, Bool-cases, inl, inr,
}

abbrev pub Key : Type 0
Key = Text × Text

unfoldable pub key_eq : Key → Key → Bool
key_eq (source, key) (source', key') = text_eq source source' && text_eq key key'

unfoldable pub find_entry {ℓ} : {V : Type ℓ} → Key → List (Key × V) → Option V
find_entry k [] = none
find_entry k ((k', v) ∷ es) = if key_eq k k' then some v else find_entry k es

unfoldable pub remove_entry {ℓ} : {V : Type ℓ} → Key → List (Key × V) → List (Key × V)
remove_entry k [] = []
remove_entry k ((k', v) ∷ es) =
    let rest = remove_entry k es in if key_eq k k' then rest else (k', v) ∷ rest

unfoldable pub put_entry {ℓ} : {V : Type ℓ} → Key → V → List (Key × V) → List (Key × V)
put_entry k v es = (k, v) ∷ remove_entry k es

pub key_eq_refl : (k : Key) → key_eq k k ≡ true
unfolding key_eq
key_eq_refl (s, k) = rw (text_eq_refl s, text_eq_refl k) refl

pub eq_of_key_eq : (j k : Key) → key_eq j k ≡ true → j ≡ k
unfolding key_eq
eq_of_key_eq (s, k) (s', k') h =
    let hs : text_eq s s' ≡ true = ground (arith) in
    let hk : text_eq k k' ≡ true = ground (arith) in
    ap₂ (λ a b. (a, b)) (eq_of_text_eq s s' hs) (eq_of_text_eq k k' hk)

module _ {ℓ} {V : Type ℓ} where
  pub find_entry-put_entry :
      (k : Key) (v : V) (es : List (Key × V)) → find_entry k (put_entry k v es) ≡ some v
  unfolding find_entry put_entry
  find_entry-put_entry k v es = rw (key_eq_refl k) refl

  pub find_entry-remove_entry :
      (k : Key) (es : List (Key × V)) → find_entry k (remove_entry k es) ≡ none
  unfolding find_entry remove_entry
  find_entry-remove_entry k [] = refl
  find_entry-remove_entry k ((k', v) ∷ es) = elim (Bool-cases (key_eq k k')) [
    | inl e ↦ rw e (find_entry-remove_entry k es)
    | inr e ↦ rw (e, e) (find_entry-remove_entry k es)
  ]

  pub find_entry-remove_entry_ne :
      (j k : Key) (es : List (Key × V))
      → key_eq j k ≡ false
      → find_entry j (remove_entry k es) ≡ find_entry j es
  unfolding find_entry remove_entry
  find_entry-remove_entry_ne j k [] h = refl
  find_entry-remove_entry_ne j k ((k', v) ∷ es) h = elim (Bool-cases (key_eq k k')) [
    | inl e ↦
        rw (e, ap (key_eq j) (sym (eq_of_key_eq k k' e)) ∙ h) (find_entry-remove_entry_ne j k es h)
    | inr e ↦ rw (e, find_entry-remove_entry_ne j k es h) refl
  ]

  pub find_entry-put_entry_ne :
      (j k : Key) (v : V) (es : List (Key × V))
      → key_eq j k ≡ false
      → find_entry j (put_entry k v es) ≡ find_entry j es
  unfolding find_entry put_entry
  find_entry-put_entry_ne j k v es h = rw h (find_entry-remove_entry_ne j k es h)
