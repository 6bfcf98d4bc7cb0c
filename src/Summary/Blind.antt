-- ===== src/Summary/Blind.antt =====
-- palaver/summary/claude_code.py: no step of the loop looks at what its state can no longer show.
use palaver.Prelude.{
  Bool, true, false, Option, none, some, List, [], ◌∷◌, any, length, leb, Text, codes, text_eq, ◌≡◌,
  refl, inl, inr, Bool-cases, arith,
}
use palaver.Json.{Value, null, str, Fields}
use palaver.Transcript.{Record, discard}
use palaver.Summary.Model.{
  Provenance, exact, structural, unknown, is_unknown, Claim, SummarySnapshot, TaskItem,
  CollectionClaim, structural_claim, with_unknown, max_background_tasks,
}
use palaver.Summary.ClaudeCode.{
  Progress, register_background_task, apply_ended, ended_result, turn_after, compacted,
}
use palaver.Summary.Records.{
  apply_result, apply_human_message, apply_started, record_call, apply_asked, apply_final,
  record_text,
}
use palaver.Summary.Likeness.{IsBlind, shown, mask, hide, keeps-IsBlind}

-- A step on the snapshot alone.
abbrev pub on_snapshot : (SummarySnapshot → SummarySnapshot) → Progress → Progress
on_snapshot g p = record p { snapshot = g p.snapshot }

shown-IsBlind : IsBlind (λ p. p)
unfolding mask hide
shown-IsBlind = keeps-IsBlind (λ p. p) (λ p. refl) (λ p. refl) (λ q p. refl) (λ p. refl) (λ p. refl)

pub compacted-IsBlind : IsBlind (on_snapshot compacted)
unfolding compacted mask hide
compacted-IsBlind =
    keeps-IsBlind (on_snapshot compacted) (λ p. refl) (λ p. refl) (λ q p. refl) (λ p. refl)
      (λ p. refl)

pub with_unknown-IsBlind : (why : Text) → IsBlind (on_snapshot (λ s. with_unknown s why))
unfolding with_unknown shown mask hide is_unknown
with_unknown-IsBlind why p = refl

pub turn-IsBlind : (c : Claim) → IsBlind (on_snapshot (λ s. record s { turn = c }))
unfolding mask hide
turn-IsBlind c =
    keeps-IsBlind (on_snapshot (λ s. record s { turn = c })) (λ p. refl) (λ p. refl) (λ q p. refl)
      (λ p. refl) (λ p. refl)

pub tasks-IsBlind :
    (c : CollectionClaim TaskItem) → IsBlind (on_snapshot (λ s. record s { tasks = c }))
unfolding mask hide
tasks-IsBlind c =
    keeps-IsBlind (on_snapshot (λ s. record s { tasks = c })) (λ p. refl) (λ p. refl) (λ q p. refl)
      (λ p. refl) (λ p. refl)

module _ (str_of : Value → Text) where
  pub apply_human_message-IsBlind :
      (r : Record) → IsBlind (on_snapshot (λ s. apply_human_message str_of s r))
  unfolding apply_human_message mask hide
  apply_human_message-IsBlind r =
      keeps-IsBlind (on_snapshot (λ s. apply_human_message str_of s r)) (λ p. refl) (λ p. refl)
        (λ q p. refl) (λ p. refl) (λ p. refl)

  pub apply_result-IsBlind : (block : Fields) → IsBlind (λ p. apply_result str_of p block)
  unfolding apply_result mask hide
  apply_result-IsBlind block =
      keeps-IsBlind (λ p. apply_result str_of p block) (λ p. refl) (λ p. refl) (λ q p. refl)
        (λ p. refl) (λ p. refl)

pub record_call-IsBlind :
    (dumps : Fields → Text) (name : Text) (block : Fields)
    → IsBlind (on_snapshot (λ s. record_call dumps s name block))
unfolding record_call mask hide
record_call-IsBlind dumps name block =
    keeps-IsBlind (on_snapshot (λ s. record_call dumps s name block)) (λ p. refl) (λ p. refl)
      (λ q p. refl) (λ p. refl) (λ p. refl)

pub apply_asked-IsBlind : (asked : Option (Text × List Claim)) → IsBlind (λ p. apply_asked p asked)
unfolding apply_asked shown mask hide is_unknown
apply_asked-IsBlind none p = at p.snapshot.source_integrity
  where
    at :
        (i : Provenance)
        → let r = record p { snapshot = record p.snapshot { source_integrity = i } } in
          shown (apply_asked r none) ≡ shown (apply_asked (shown r) none)
    at exact = refl
    at structural = refl
    at unknown = refl
apply_asked-IsBlind (some (id, claims)) p = at p.snapshot.source_integrity p.questions_unknown
  where
    at :
        (i : Provenance) (q : Bool)
        → let r = record p {
          snapshot = record p.snapshot { source_integrity = i };
          questions_unknown = q;
        } in
          shown (apply_asked r (some (id, claims)))
          ≡ shown (apply_asked (shown r) (some (id, claims)))
    at exact true = ground arith
    at exact false = ground arith
    at structural true = ground arith
    at structural false = ground arith
    at unknown q = ground arith

-- A step on the background tasks.
tracked-IsBlind :
    (g : List Text → List Text) (c : Claim)
    → IsBlind (on_snapshot (λ s. record s { background_tasks = g s.background_tasks; turn = c }))
unfolding mask hide
tracked-IsBlind g c =
    keeps-IsBlind
      (on_snapshot (λ s. record s { background_tasks = g s.background_tasks; turn = c }))
      (λ p. refl) (λ p. refl) (λ q p. refl) (λ p. refl) (λ p. refl)

pub apply_started-IsBlind : (id : Option Text) → IsBlind (λ p. apply_started p id)
unfolding apply_started register_background_task shown mask hide is_unknown
apply_started-IsBlind none p = shown-IsBlind p
apply_started-IsBlind (some id) p =
    elim (Bool-cases (any (text_eq id) p.snapshot.background_tasks)) [
      | inl e ↦
          rw e
            (turn-IsBlind (structural_claim (codes "Agent turn open") "background_task" (str id)) p)
      | inr e ↦ elim (Bool-cases (leb max_background_tasks (length p.snapshot.background_tasks))) [
        | inl full ↦
            rw (e, full) (with_unknown-IsBlind (codes "too many active Claude background tasks") p)
        | inr room ↦
            rw (e, room)
              (tracked-IsBlind (λ ids. id ∷ ids)
                (structural_claim (codes "Agent turn open") "background_task" (str id)) p)
      ]
    ]

ending-IsBlind :
    (id status : Text)
    → IsBlind (
        on_snapshot (λ s. record s {
          background_tasks = discard id s.background_tasks;
          command_result = ended_result id status;
          turn = turn_after (discard id s.background_tasks) id;
        }))
unfolding mask hide
ending-IsBlind id status =
    keeps-IsBlind
      (on_snapshot (λ s. record s {
        background_tasks = discard id s.background_tasks;
        command_result = ended_result id status;
        turn = turn_after (discard id s.background_tasks) id;
      }))
      (λ p. refl) (λ p. refl) (λ q p. refl) (λ p. refl) (λ p. refl)

pub apply_ended-IsBlind :
    (ended : Option (Text × Text)) → IsBlind (on_snapshot (λ s. apply_ended s ended))
unfolding apply_ended shown mask hide is_unknown
apply_ended-IsBlind none p = shown-IsBlind p
apply_ended-IsBlind (some (id, status)) p =
    elim (Bool-cases (any (text_eq id) p.snapshot.background_tasks)) [
      | inl e ↦ rw e (ending-IsBlind id status p)
      | inr e ↦ rw e (shown-IsBlind p)
    ]

pub record_text-IsBlind : (text : Text) → IsBlind (on_snapshot (λ s. record_text s text))
unfolding record_text mask hide
record_text-IsBlind [] = shown-IsBlind
record_text-IsBlind (c ∷ text) =
    keeps-IsBlind (on_snapshot (λ s. record_text s (c ∷ text))) (λ p. refl) (λ p. refl)
      (λ q p. refl) (λ p. refl) (λ p. refl)

pub apply_final-IsBlind : (text : Text) → IsBlind (on_snapshot (λ s. apply_final s text))
unfolding apply_final shown mask
apply_final-IsBlind [] p = shown-IsBlind p
apply_final-IsBlind (c ∷ text) p = at p.snapshot.background_tasks
  where
    at :
        (ids : List Text)
        → let r = record p { snapshot = record p.snapshot { background_tasks = ids } } in
          shown (on_snapshot (λ s. apply_final s (c ∷ text)) r)
          ≡ shown (on_snapshot (λ s. apply_final s (c ∷ text)) (shown r))
    at [] =
        turn-IsBlind (structural_claim (codes "Turn returned to human") "assistant_final" null)
          (record p { snapshot = record p.snapshot { background_tasks = [] } })
    at (t ∷ ts) =
        shown-IsBlind (record p { snapshot = record p.snapshot { background_tasks = t ∷ ts } })
