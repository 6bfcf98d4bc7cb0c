-- ===== src/Summary/Reasons.antt =====
-- palaver/summary/model.py: what a bounded tuple keeps, and the reasons of an unknown snapshot.
use palaver.Prelude.{
  ℕ, zero, suc, ◌-◌, min, true, List, [], ◌∷◌, ◌++◌, any, length, drop, Text, text_eq, text_eq_refl,
  ◌≡◌, ◌≢◌, refl, sym, ap, ◌∙◌, inl, inr, Bool-cases, arith, length-append,
}
use palaver.Summary.Model.{last_items, append_unknown_reason, max_unknown_reasons}
use palaver.Summary.Reduce.{last_reason}

length-drop {ℓ} : {A : Type ℓ} (n : ℕ) (xs : List A) → length (drop n xs) ≡ length xs - n
length-drop zero xs = omega arith
length-drop (suc n) [] = omega arith
length-drop (suc n) (x ∷ xs) = omega (arith, length-drop n xs)

pub length-last_items {ℓ} :
    {A : Type ℓ} (n : ℕ) (xs : List A) → length (last_items n xs) ≡ min n (length xs)
unfolding last_items
length-last_items n xs = rw (length-drop (length xs - n) xs) (omega arith)

pub append_unknown_reason-nonempty :
    (reasons : List Text) (why : Text) → append_unknown_reason reasons why ≢ []
unfolding append_unknown_reason
append_unknown_reason-nonempty reasons why = elim (Bool-cases (any (text_eq why) reasons)) [
  | inl known ↦ rw known (listed reasons known)
  | inr fresh ↦ rw fresh kept
]
  where
    listed : (rs : List Text) → any (text_eq why) rs ≡ true → rs ≢ []
    listed [] h = cc
    listed (r ∷ rs) h = λ e. cc

    kept : last_items max_unknown_reasons (reasons ++ why ∷ []) ≢ []
    kept e = omega (
      arith,
      sym (length-last_items max_unknown_reasons (reasons ++ why ∷ [])) ∙ ap length e,
      length-append reasons (why ∷ []),
    )

any-last_reason : (r : Text) (rs : List Text) → any (text_eq (last_reason (r ∷ rs))) (r ∷ rs) ≡ true
unfolding last_reason
any-last_reason r [] = rw (text_eq_refl r) refl
any-last_reason r (s ∷ rs) = ground (arith, any-last_reason s rs)

-- The last reason, recorded once more, changes nothing.
pub append_unknown_reason-last :
    (reasons : List Text)
    → reasons ≢ []
    → append_unknown_reason reasons (last_reason reasons) ≡ reasons
unfolding append_unknown_reason
append_unknown_reason-last [] h = absurd (h refl)
append_unknown_reason-last (r ∷ rs) h = rw (any-last_reason r rs) refl
