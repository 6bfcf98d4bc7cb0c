-- ===== src/Summary/Sound.antt =====
-- palaver/summary/claude_code.py: the state of the loop can be read back from the snapshot that it
-- leaves.
use palaver.Prelude.{
  ℕ, ◌+◌, String, true, false, Option, none, some, List, [], ◌∷◌, All, Text, length, ltb, ◌≡◌, ◌≢◌,
  refl, ap, inl, inr, Bool-cases,
}
use palaver.Json.{Value, str, arr, obj, Items, nil, cons, Fields, get}
use palaver.Summary.Model.{
  is_unknown, sanitized, Claim, displayed_claim, exact_claim, max_collection_items,
}
use palaver.Summary.Collections.{item_count, claims_of, then_claims, question_claims, open_count}
use palaver.Summary.ClaudeCode.{Progress, asked_claims, asked_by, asked_with}
use palaver.Summary.Records.{apply_asked}
use palaver.Summary.Filed.{Filed, insert-Filed}

-- A call of `AskUserQuestion` that, if it can be read, asks something.
unfoldable pub AsksSomething : Fields → Type 0
AsksSomething block = (id : Text) → asked_claims block ≢ some (id, [])

-- The open questions are filed under their identifiers, and an unknown snapshot has a reason.
unfoldable pub IsSound : Progress → Type 0
unfolding is_unknown
IsSound p =
    Filed p.pending
    × (is_unknown p.snapshot.source_integrity ≡ true → p.snapshot.unknown_reasons ≢ [])

exact_claim-id :
    (v : Value) (label : String) (id : Text)
    → is_unknown (exact_claim v label (str id)).provenance ≡ false
    → (exact_claim v label (str id)).evidence_id ≡ str id
unfolding exact_claim displayed_claim is_unknown
exact_claim-id v label id = at (sanitized v)
  where
    at :
        (s : Text)
        → is_unknown (displayed_claim s label (str id)).provenance ≡ false
        → (displayed_claim s label (str id)).evidence_id ≡ str id
    at [] h = cc
    at (c ∷ s) h = refl

-- Claims that could be read have the call's identifier.
unfoldable pub Own : Text → Option (List Claim) → Type 0
Own id none = Unit
Own id (some claims) = All (λ c. c.evidence_id ≡ str id) claims

claims_of-Own : (items : Items) (label : String) (id : Text) → Own id (claims_of items label id)
unfolding claims_of then_claims Own
claims_of-Own nil label id = tt
claims_of-Own (cons (obj question) vs) label id =
    at (claims_of vs label id) (claims_of-Own vs label id)
  where
    claim : Claim
    claim = exact_claim (get question "question") label (str id)

    at : (later : Option (List Claim)) → Own id later → Own id (then_claims claim later)
    at none h = tt
    at (some claims) h = elim (Bool-cases (is_unknown claim.provenance)) [
      | inl e ↦ rw e tt
      | inr e ↦ rw e (exact_claim-id (get question "question") label id e, h)
    ]
claims_of-Own (cons _ vs) label id = tt

pub question_claims-Own :
    (v : Value) (label : String) (id : Text) → Own id (question_claims v label id)
unfolding question_claims Own
question_claims-Own (arr items) label id =
    elim (Bool-cases (ltb max_collection_items (item_count items))) [
      | inl e ↦ rw e tt
      | inr e ↦ rw e (claims_of-Own items label id)
    ]
question_claims-Own _ label id = tt

-- The claims of a call that could be read have its identifier.
unfoldable pub OwnAsked : Option (Text × List Claim) → Type 0
OwnAsked none = Unit
OwnAsked (some (id, claims)) = All (λ c. c.evidence_id ≡ str id) claims

pub asked_claims-Own : (block : Fields) → OwnAsked (asked_claims block)
unfolding asked_claims OwnAsked Own
asked_claims-Own block = at (get block "id") (get block "input")
  where
    with_id :
        (c : ℕ) (id : Text) (claims : Option (List Claim))
        → Own (c ∷ id) claims
        → OwnAsked (asked_with (c ∷ id) claims)
    with_id c id none h = tt
    with_id c id (some claims) h = h

    at : (v w : Value) → OwnAsked (asked_by v w)
    at (str (c ∷ id)) (obj input) =
        with_id c id (question_claims (get input "questions") "AskUserQuestion" (c ∷ id))
          (question_claims-Own (get input "questions") "AskUserQuestion" (c ∷ id))
    at _ _ = tt

-- A call whose claims are its own is filed.
pub apply_asked-IsSound :
    (asked : Option (Text × List Claim)) (p : Progress)
    → OwnAsked asked
    → ((id : Text) → asked ≢ some (id, []))
    → IsSound p
    → IsSound (apply_asked p asked)
unfolding apply_asked OwnAsked IsSound
apply_asked-IsSound none p own asks h = h
apply_asked-IsSound (some (id, claims)) p own asks (filed, reason) =
    elim (Bool-cases (ltb max_collection_items (open_count p.pending + length claims))) [
      | inl e ↦ rw e (filed, reason)
      | inr e ↦ rw e (
        insert-Filed id claims p.pending (λ none_. asks id (ap (λ cs. some (id, cs)) none_)) own
            filed,
        reason,
      )
    ]
