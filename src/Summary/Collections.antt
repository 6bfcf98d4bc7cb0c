-- ===== src/Summary/Collections.antt =====
-- palaver/summary/model.py: the collections of a snapshot, its tasks and its open questions.
use palaver.Prelude.{
  ℕ, suc, ◌+◌, String, Option, none, some, List, [], ◌∷◌, ◌++◌, ltb, length, if◌then◌else◌, Text,
  codes, text_eq,
}
use palaver.Json.{Value, str, arr, obj, Items, nil, cons, get}
use palaver.Summary.Model.{
  exact, is_unknown, sanitized, Claim, exact_claim, TaskItem, CollectionClaim, unknown_collection,
  collection, SummarySnapshot, max_collection_items,
}

unfoldable pub item_count : Items → ℕ
item_count nil = 0
item_count (cons v vs) = suc (item_count vs)

-- What the loop of `task_collection` has when it ends, or the reason why it stops.
pub data Collected (T : Type 0) : Type 0 where
  collected : List T → Collected T
  stopped : Text → Collected T

-- One item, from its sanitized text and status.
unfoldable pub task_item : Text → Text → String → String → Collected TaskItem
task_item (c ∷ t) (d ∷ s) label text_key = collected (record { text = c ∷ t; status = d ∷ s } ∷ [])
task_item _ _ label text_key =
    stopped (codes label ++ codes " item lacks " ++ codes text_key ++ codes " or status")

-- The first reason to stop counts.
unfoldable pub then_items : {T : Type 0} → Collected T → Collected T → Collected T
then_items (stopped why) later = stopped why
then_items (collected xs) (stopped why) = stopped why
then_items (collected xs) (collected ys) = collected (xs ++ ys)

unfoldable pub task_items : Items → String → String → Collected TaskItem
unfolding then_items task_item sanitized
task_items nil label text_key = collected []
task_items (cons (obj item) vs) label text_key =
    then_items
      (task_item (sanitized (get item text_key)) (sanitized (get item "status")) label text_key)
      (task_items vs label text_key)
task_items (cons _ vs) label text_key = stopped (codes label ++ codes " item is unsupported")

unfoldable pub collected_claim : Collected TaskItem → String → CollectionClaim TaskItem
unfolding unknown_collection collection
collected_claim (collected tasks) label = collection tasks exact label
collected_claim (stopped why) label = unknown_collection why

unfoldable pub task_collection : Value → String → String → Text → CollectionClaim TaskItem
unfolding item_count task_items collected_claim
task_collection (arr items) label text_key unsupported =
    if ltb max_collection_items (item_count items)
    then unknown_collection (codes label ++ codes " exceeds bounded task limit")
    else collected_claim (task_items items label text_key) label
task_collection _ label text_key unsupported = unknown_collection unsupported

-- A claim before the further ones, if it and they could be read.
unfoldable pub then_claims : Claim → Option (List Claim) → Option (List Claim)
unfolding is_unknown
then_claims claim none = none
then_claims claim (some claims) =
    if is_unknown claim.provenance then none else some (claim ∷ claims)

unfoldable pub claims_of : Items → String → Text → Option (List Claim)
unfolding exact_claim then_claims
claims_of nil label id = some []
claims_of (cons (obj question) vs) label id =
    then_claims (exact_claim (get question "question") label (str id)) (claims_of vs label id)
claims_of (cons _ vs) label id = none

-- `question_claims`.
unfoldable pub question_claims : Value → String → Text → Option (List Claim)
unfolding claims_of item_count
question_claims (arr questions) label id =
    if ltb max_collection_items (item_count questions) then none else claims_of questions label id
question_claims _ label id = none

-- The dictionary of the open questions, in insertion order.
abbrev pub Pending : Type 0
Pending = List (Text × List Claim)

-- `pending[id] = claims`.
unfoldable pub insert : Text → List Claim → Pending → Pending
unfolding text_eq
insert id claims [] = (id, claims) ∷ []
insert id claims ((k, old) ∷ rest) =
    let later = insert id claims rest in
    if text_eq id k then (k, claims) ∷ rest else (k, old) ∷ later

-- `pending.pop(id, None)`.
unfoldable pub pop : Text → Pending → Pending
unfolding text_eq
pop id [] = []
pop id ((k, old) ∷ rest) =
    let later = pop id rest in if text_eq id k then rest else (k, old) ∷ later

-- `pending.get(id, ())`.
unfoldable pub claims_at : Text → Pending → List Claim
unfolding text_eq
claims_at id [] = []
claims_at id ((k, old) ∷ rest) = if text_eq id k then old else claims_at id rest

-- `tuple(claim for claims in pending.values() for claim in claims)`.
unfoldable pub flatten : Pending → List Claim
flatten [] = []
flatten ((k, claims) ∷ rest) = claims ++ flatten rest

-- `sum(len(value) for value in pending.values())`.
unfoldable pub open_count : Pending → ℕ
open_count [] = 0
open_count ((k, claims) ∷ rest) = length claims + open_count rest

-- One round of the loop of `pending_questions`. A question's identifier is a string or `None`.
unfoldable pub file_claim : Pending → Value → Claim → Pending
unfolding insert claims_at
file_claim pending (str id) claim = insert id (claims_at id pending ++ claim ∷ []) pending
file_claim pending _ claim = pending

unfoldable pub file_claims : Pending → List Claim → Pending
unfolding file_claim
file_claims pending [] = pending
file_claims pending (claim ∷ claims) =
    file_claims (file_claim pending claim.evidence_id claim) claims

-- `pending_questions`.
unfoldable pub pending_questions : SummarySnapshot → Pending
unfolding file_claims
pending_questions s = file_claims [] s.questions.items
