-- ===== src/Summary/Bounds.antt =====
-- palaver/summary: the snapshot stays within its limits, however many events a session has.
use palaver.Prelude.{
  ℕ, suc, ◌+◌, ◌≤◌, String, false, Option, none, some, List, [], ◌∷◌, ◌++◌, any, length,
  length-append, ltb, Text, codes, text_eq, ◌≡◌, refl, ap, inl, inr, Bool-cases, Option-cases,
  arith,
}
use palaver.Json.{Value, null, str, arr, obj, Items, nil, cons, get}
use palaver.Transcript.{discard}
use palaver.Summary.Model.{
  Provenance, exact, sanitized, Claim, RecentActivity, TaskItem, unknown_collection, collection,
  append_unknown_reason, recent_activity_limit, max_collection_items, max_unknown_reasons,
}
use palaver.Summary.Recent.{
  append_recent, fold_last, is_call_of, append_displayed, fold_recent_result,
}
use palaver.Summary.Collections.{
  Pending, insert, pop, claims_at, flatten, open_count, file_claim, file_claims, item_count,
  Collected, collected, stopped, task_item, then_items, task_items, collected_claim,
  task_collection,
}
use palaver.Summary.Reasons.{length-last_items}

pub append_recent-length :
    (rs : List RecentActivity) (v : Value) (p : Provenance) (kind : Text) (id : Value)
    → length rs ≤ recent_activity_limit
    → length (append_recent rs v p kind id) ≤ recent_activity_limit
unfolding append_recent append_displayed
append_recent-length rs v p kind id h = at (sanitized v)
  where
    at : (s : Text) → length (append_displayed rs s p kind id) ≤ recent_activity_limit
    at [] = h
    at (c ∷ s) = omega (arith, length-last_items recent_activity_limit (rs ++ _ ∷ []))

-- A list of the same length, if there is one.
unfoldable AsLong : List RecentActivity → Option (List RecentActivity) → Type 0
AsLong rs none = Unit
AsLong rs (some qs) = length qs ≡ length rs

fold_last-AsLong :
    (rs : List RecentActivity) (t : Text) (kind : String) (id : Text)
    → AsLong rs (fold_last rs t kind id)
unfolding fold_last AsLong
fold_last-AsLong [] t kind id = tt
fold_last-AsLong (r ∷ rs) t kind id = elim (Option-cases (fold_last rs t kind id)) [
  | inl none_ ↦ elim (Bool-cases (is_call_of id r)) [
    | inl call ↦ rw (none_, fold_last, call) refl
    | inr other ↦ rw (none_, fold_last, other) tt
  ]
  | inr (qs, found) ↦
      let same : length qs ≡ length rs = rw found at (fold_last-AsLong rs t kind id) in
      rw (found, fold_last) (ap suc same)
]

pub fold_recent_result-length :
    (rs : List RecentActivity) (v : Value) (kind : String) (id : Option Text)
    → length rs ≤ recent_activity_limit
    → length (fold_recent_result rs v kind id) ≤ recent_activity_limit
unfolding fold_recent_result AsLong
fold_recent_result-length rs v kind none h =
    append_recent-length rs (str (sanitized v)) exact (codes kind) null h
fold_recent_result-length rs v kind (some id) h =
    elim (Option-cases (fold_last rs (sanitized v) kind id)) [
      | inl none_ ↦
          rw (none_, fold_recent_result)
            (append_recent-length rs (str (sanitized v)) exact (codes kind) (str id) h)
      | inr (qs, found) ↦
          let same : length qs ≡ length rs =
            rw found at (fold_last-AsLong rs (sanitized v) kind id) in
          rw (found, fold_recent_result) (omega arith)
    ]

pub append_unknown_reason-length :
    (reasons : List Text) (why : Text)
    → length reasons ≤ max_unknown_reasons
    → length (append_unknown_reason reasons why) ≤ max_unknown_reasons
unfolding append_unknown_reason
append_unknown_reason-length reasons why h = elim (Bool-cases (any (text_eq why) reasons)) [
  | inl known ↦ rw known h
  | inr fresh ↦
      rw fresh (omega (arith, length-last_items max_unknown_reasons (reasons ++ why ∷ [])))
]

pub discard-length : (id : Text) (ids : List Text) → length (discard id ids) ≤ length ids
unfolding discard
discard-length id [] = omega arith
discard-length id (i ∷ ids) = ground (arith, discard-length id ids)

-- The open questions after an entry is set.
open_count-insert :
    (id : Text) (claims : List Claim) (d : Pending)
    → open_count (insert id claims d) + length (claims_at id d) ≡ open_count d + length claims
unfolding open_count insert claims_at
open_count-insert id claims [] = omega arith
open_count-insert id claims ((k, old) ∷ d) = elim (Bool-cases (text_eq id k)) [
  | inl e ↦ rw (e, insert, claims_at) (omega arith)
  | inr e ↦ rw (e, insert, claims_at) (omega (arith, open_count-insert id claims d))
]

pub insert-open_count :
    (id : Text) (claims : List Claim) (d : Pending)
    → open_count (insert id claims d) ≤ open_count d + length claims
insert-open_count id claims d = omega (arith, open_count-insert id claims d)

pub pop-open_count : (id : Text) (d : Pending) → open_count (pop id d) ≤ open_count d
unfolding pop open_count
pop-open_count id [] = omega arith
pop-open_count id ((k, old) ∷ d) = ground (arith, pop-open_count id d)

file_claim-open_count :
    (d : Pending) (v : Value) (c : Claim) → open_count (file_claim d v c) ≤ suc (open_count d)
unfolding file_claim
file_claim-open_count d (str id) c = omega (
  arith,
  open_count-insert id (claims_at id d ++ c ∷ []) d,
  length-append (claims_at id d) (c ∷ []),
)
file_claim-open_count d _ c = omega arith

pub file_claims-open_count :
    (d : Pending) (cs : List Claim) → open_count (file_claims d cs) ≤ open_count d + length cs
unfolding file_claims
file_claims-open_count d [] = omega arith
file_claims-open_count d (c ∷ cs) = omega (
  arith,
  file_claims-open_count (file_claim d c.evidence_id c) cs,
  file_claim-open_count d c.evidence_id c,
)

pub flatten-length : (d : Pending) → length (flatten d) ≡ open_count d
unfolding flatten open_count
flatten-length [] = refl
flatten-length ((k, claims) ∷ d) = omega (arith, length-append claims (flatten d), flatten-length d)

-- So many tasks, if they could be collected.
unfoldable Sized : ℕ → Collected TaskItem → Type 0
Sized n (collected tasks) = length tasks ≡ n
Sized n (stopped why) = Unit

task_items-Sized :
    (items : Items) (label text_key : String)
    → Sized (item_count items) (task_items items label text_key)
unfolding task_items then_items task_item item_count Sized
task_items-Sized nil label text_key = refl
task_items-Sized (cons (obj item) vs) label text_key =
    at (sanitized (get item text_key)) (sanitized (get item "status"))
      (task_items vs label text_key) (task_items-Sized vs label text_key)
  where
    at :
        (t s : Text) (later : Collected TaskItem)
        → Sized (item_count vs) later
        → Sized (suc (item_count vs)) (then_items (task_item t s label text_key) later)
    at (c ∷ t) (d ∷ s) (collected tasks) h = ap suc h
    at (c ∷ t) (d ∷ s) (stopped why) h = tt
    at [] s later h = tt
    at (c ∷ t) [] later h = tt
task_items-Sized (cons _ vs) label text_key = tt

pub task_collection-length :
    (v : Value) (label text_key : String) (unsupported : Text)
    → length (task_collection v label text_key unsupported).items ≤ max_collection_items
unfolding task_collection collected_claim unknown_collection collection Sized
task_collection-length (arr items) label text_key unsupported =
    elim (Bool-cases (ltb max_collection_items (item_count items))) [
      | inl e ↦ rw e (omega arith)
      | inr e ↦
          rw e (at (task_items items label text_key) (task_items-Sized items label text_key) e)
    ]
  where
    at :
        (tasks : Collected TaskItem)
        → Sized (item_count items) tasks
        → ltb max_collection_items (item_count items) ≡ false
        → length (collected_claim tasks label).items ≤ max_collection_items
    at (collected tasks) h e = ground arith
    at (stopped why) h e = omega arith
task_collection-length _ label text_key unsupported = omega arith
