-- ===== src/Summary/Likeness.antt =====
-- palaver/summary/claude_code.py: what the loop can still show of its state. A snapshot of unknown
-- integrity hides the claims that it replaces in the end, unknown questions hide the open ones.
use palaver.Prelude.{Bool, true, false, ◌||◌, [], ◌≡◌, refl, sym, ap, ◌∙◌}
use palaver.Summary.Model.{
  Provenance, exact, structural, unknown, is_unknown, unknown_claim, with_unknown,
  unknown_collection,
}
use palaver.Summary.ClaudeCode.{Progress}
use palaver.Summary.Reduce.{finish}

unfoldable pub hide {ℓ} : {A : Type ℓ} → Bool → A → A → A
hide true default x = default
hide false default x = x

unfoldable pub mask : Bool → Bool → Progress → Progress
unfolding hide unknown_claim unknown_collection
mask i q p = record {
  snapshot = record p.snapshot {
    request = hide i (unknown_claim []) p.snapshot.request;
    tasks = hide i (unknown_collection []) p.snapshot.tasks;
    questions = unknown_collection [];
    command_result = hide i (unknown_claim []) p.snapshot.command_result;
    turn = hide i (unknown_claim []) p.snapshot.turn;
  };
  pending = hide (i || q) [] p.pending;
  questions_unknown = i || q;
}

-- The state with what cannot show any more taken out.
unfoldable pub shown : Progress → Progress
unfolding mask is_unknown
shown p = mask (is_unknown p.snapshot.source_integrity) p.questions_unknown p

-- A step that does not look at what is taken out.
abbrev pub IsBlind : (Progress → Progress) → Type 0
IsBlind f = (p : Progress) → shown (f p) ≡ shown (f (shown p))

pub respects :
    (f : Progress → Progress)
    → IsBlind f
    → (p q : Progress) → shown p ≡ shown q
    → shown (f p) ≡ shown (f q)
respects f blind p q same = blind p ∙ (ap (λ r. shown (f r)) same ∙ sym (blind q))

shown-at :
    {i q : Bool} (p : Progress)
    → is_unknown p.snapshot.source_integrity ≡ i
    → p.questions_unknown ≡ q
    → shown p ≡ mask i q p
unfolding shown
shown-at p integrity questions = rw (integrity, questions) refl

-- A step that changes claims, activity and open questions, but not what is known.
pub keeps-IsBlind :
    (f : Progress → Progress)
    → ((p : Progress) → (f p).snapshot.source_integrity ≡ p.snapshot.source_integrity)
    → ((p : Progress) → (f p).questions_unknown ≡ p.questions_unknown)
    → ((q : Bool) (p : Progress) → mask true q (f p) ≡ mask true true (f (mask true q p)))
    → ((p : Progress) → mask false true (f p) ≡ mask false true (f (mask false true p)))
    → ((p : Progress) → mask false false (f p) ≡ mask false false (f (mask false false p)))
    → IsBlind f
unfolding shown mask hide
keeps-IsBlind f integrity questions broken unasked free p =
    shown-at (f p) (ap is_unknown (integrity p)) (questions p)
    ∙ (blind (is_unknown p.snapshot.source_integrity) p.questions_unknown
        ∙ sym (shown-at (f (shown p)) (ap is_unknown (integrity (shown p))) (questions (shown p))))
  where
    blind : (i q : Bool) → mask i q (f p) ≡ mask i (i || q) (f (mask i q p))
    blind true q = broken q p
    blind false true = unasked p
    blind false false = free p

pub finish-shown : (p : Progress) → finish p ≡ finish (shown p)
unfolding shown mask hide finish is_unknown with_unknown
finish-shown p = at p.snapshot.source_integrity p.questions_unknown
  where
    at :
        (i : Provenance) (q : Bool)
        → let r = record p {
          snapshot = record p.snapshot { source_integrity = i };
          questions_unknown = q;
        } in
          finish r ≡ finish (shown r)
    at exact true = refl
    at exact false = refl
    at structural true = refl
    at structural false = refl
    at unknown q = refl
