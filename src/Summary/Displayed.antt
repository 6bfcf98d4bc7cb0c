-- ===== src/Summary/Displayed.antt =====
-- palaver/summary/model.py: what `sanitize_text` lets through to a display.
use palaver.Prelude.{
  ℕ, zero, suc, ◌-◌, ◌≤◌, Bool, true, false, [], ◌∷◌, ◌++◌, All, reverse, length, length-append,
  length-reverse, take, leb, leb→le, Text, is_space, lstrip_by, strip, strip_by, ◌≡◌, ◌⊎◌, refl,
  inl, inr, Bool-cases, arith,
}
use mathlib.Core.List.{reverse-append}
use palaver.Json.{Value, str}
use palaver.Summary.Sanitize.{
  remove_ansi, is_control, remove_controls, starts_with_space, squeeze, rstrip, truncate,
  sanitize_text,
}

-- No control character, neither below the space nor from DEL on to 0x9f, and no whitespace but the
-- space.
unfoldable pub IsPlain : ℕ → Type 0
unfolding is_space
IsPlain c = (0x20 ≤ c) × ((c ≤ 0x7e) ⊎ (0xa0 ≤ c)) × (is_space c ≡ true → c ≡ b' ')

plain : (c : ℕ) → is_control c ≡ false → is_space c ≡ false → IsPlain c
unfolding IsPlain is_control is_space
plain c visible solid = (ground arith, ground arith, λ space. cc)

module _ (P : ℕ → Type 0) where
  append-All : (s t : Text) → All P s → All P t → All P (s ++ t)
  append-All [] t h k = k
  append-All (c ∷ s) t (x, h) k = (x, append-All s t h k)

  reverse-All : (s : Text) → All P s → All P (reverse s)
  reverse-All [] h = tt
  reverse-All (c ∷ s) (x, h) =
      rw (reverse-append (c ∷ []) s) (append-All (reverse s) (c ∷ []) (reverse-All s h) (x, tt))

  take-All : (n : ℕ) (s : Text) → All P s → All P (take n s)
  take-All zero s h = tt
  take-All (suc n) [] h = tt
  take-All (suc n) (c ∷ s) (x, h) = (x, take-All n s h)

  lstrip_by-All : (p : ℕ → Bool) (s : Text) → All P s → All P (lstrip_by p s)
  unfolding lstrip_by
  lstrip_by-All p [] h = tt
  lstrip_by-All p (c ∷ s) (x, h) = elim (Bool-cases (p c)) [
    | inl e ↦ rw (e, lstrip_by) (lstrip_by-All p s h)
    | inr e ↦ rw (e, lstrip_by) (x, h)
  ]

  rstrip-All : (s : Text) → All P s → All P (rstrip s)
  unfolding rstrip
  rstrip-All s h = reverse-All _ (lstrip_by-All is_space (reverse s) (reverse-All s h))

  strip-All : (s : Text) → All P s → All P (strip s)
  unfolding strip strip_by
  strip-All s h =
      reverse-All _ (lstrip_by-All is_space _ (reverse-All _ (lstrip_by-All is_space s h)))

  truncate-All : (limit : ℕ) (s : Text) → All P s → P 0x2026 → All P (truncate limit s)
  unfolding truncate
  truncate-All limit s h dots = elim (Bool-cases (leb (length s) limit)) [
    | inl e ↦ rw e h
    | inr e ↦ elim (Bool-cases (leb limit 1)) [
      | inl f ↦ rw (e, f) (take-All limit (0x2026 ∷ []) (dots, tt))
      | inr f ↦
          rw (e, f)
            (append-All (rstrip (take (limit - 1) s)) (0x2026 ∷ [])
              (rstrip-All _ (take-All (limit - 1) s h)) (dots, tt))
    ]
  ]

remove_controls-All : (s : Text) → All (λ c. is_control c ≡ false) (remove_controls s)
unfolding remove_controls
remove_controls-All [] = tt
remove_controls-All (c ∷ s) = elim (Bool-cases (is_control c)) [
  | inl e ↦ rw (e, remove_controls) (remove_controls-All s)
  | inr e ↦ rw (e, remove_controls) (e, remove_controls-All s)
]

squeeze-All : (s : Text) → All (λ c. is_control c ≡ false) s → All IsPlain (squeeze s)
unfolding squeeze IsPlain
squeeze-All [] h = tt
squeeze-All (c ∷ s) (x, h) = elim (Bool-cases (is_space c)) [
  | inl e ↦ elim (Bool-cases (starts_with_space s)) [
    | inl more ↦ rw (e, more, squeeze) (squeeze-All s h)
    | inr last ↦
        rw (e, last, squeeze) ((omega arith, inl (omega arith), λ space. refl), squeeze-All s h)
  ]
  | inr e ↦ rw (e, squeeze) (plain c x e, squeeze-All s h)
]

take-length : (n : ℕ) (s : Text) → length (take n s) ≤ n
take-length zero s = omega arith
take-length (suc n) [] = omega arith
take-length (suc n) (c ∷ s) = omega (arith, take-length n s)

lstrip_by-length : (p : ℕ → Bool) (s : Text) → length (lstrip_by p s) ≤ length s
unfolding lstrip_by
lstrip_by-length p [] = omega arith
lstrip_by-length p (c ∷ s) = elim (Bool-cases (p c)) [
  | inl e ↦ rw (e, lstrip_by) (omega (arith, lstrip_by-length p s))
  | inr e ↦ rw (e, lstrip_by) (omega arith)
]

rstrip-length : (s : Text) → length (rstrip s) ≤ length s
unfolding rstrip
rstrip-length s = omega (
  arith,
  length-reverse (lstrip_by is_space (reverse s)),
  lstrip_by-length is_space (reverse s),
  length-reverse s,
)

truncate-length : (limit : ℕ) (s : Text) → length (truncate limit s) ≤ limit
unfolding truncate
truncate-length limit s = elim (Bool-cases (leb (length s) limit)) [
  | inl e ↦ rw e (leb→le (length s) limit e)
  | inr e ↦ elim (Bool-cases (leb limit 1)) [
    | inl f ↦ rw (e, f) (take-length limit (0x2026 ∷ []))
    | inr f ↦
        rw (e, f)
          (ground (
            arith,
            length-append (rstrip (take (limit - 1) s)) (0x2026 ∷ []),
            rstrip-length (take (limit - 1) s),
            take-length (limit - 1) s,
          ))
  ]
]

-- A text that `sanitize_text` returns, whatever it was given, is at most as long as the limit, and
-- has no control character and no whitespace but the space.
pub sanitize_text-IsPlain :
    (v : Value) (limit : ℕ)
    → (length (sanitize_text v limit) ≤ limit) × All IsPlain (sanitize_text v limit)
unfolding sanitize_text IsPlain
sanitize_text-IsPlain (str s) limit = (
  truncate-length limit _,
  truncate-All IsPlain limit (strip (squeeze (remove_controls (remove_ansi 0 s))))
      (strip-All IsPlain _ (squeeze-All _ (remove_controls-All (remove_ansi 0 s))))
      (omega arith, inr (omega arith), λ space. cc),
)
sanitize_text-IsPlain _ limit = (omega arith, tt)
