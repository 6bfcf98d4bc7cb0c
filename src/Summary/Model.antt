-- ===== src/Summary/Model.antt =====
-- palaver/summary/model.py: claims with their provenance, the snapshot of a session, and the list of
-- recent activity.
use Prim.Native.Nat.{◌/◌, ◌%◌}
use palaver.Prelude.{
  ℕ, zero, suc, ◌+◌, ◌-◌, String, Bool, true, false, Option, none, some, List, [], ◌∷◌, ◌++◌, any,
  length, drop, ltb, if◌then◌else◌, Text, codes, text_eq,
}
use palaver.Json.{Value, null, str}
use palaver.Summary.Sanitize.{sanitize_text, display_text_limit}

-- `RECENT_ACTIVITY_LIMIT`.
abbrev pub recent_activity_limit : ℕ
recent_activity_limit = 8

-- `MAX_COLLECTION_ITEMS`.
abbrev pub max_collection_items : ℕ
max_collection_items = 32

-- `MAX_BACKGROUND_TASKS`.
abbrev pub max_background_tasks : ℕ
max_background_tasks = 32

-- `MAX_UNKNOWN_REASONS`.
abbrev pub max_unknown_reasons : ℕ
max_unknown_reasons = 8

pub data Provenance : Type 0 where
  exact structural unknown : Provenance

unfoldable pub is_unknown : Provenance → Bool
is_unknown unknown = true
is_unknown _ = false

-- `sanitize_text` at its default limit.
unfoldable pub sanitized : Value → Text
unfolding sanitize_text
sanitized v = sanitize_text v display_text_limit

-- An identifier is `null` for `None`; a transcript may also give one that is no string.
pub record Claim : Type 0 where
  pub text : Option Text
  pub provenance : Provenance
  pub evidence_kind : Option Text
  pub evidence_id : Value
  pub reason : Option Text

-- `Claim.unknown`.
unfoldable pub unknown_claim : Text → Claim
unknown_claim why = record {
  text = none;
  provenance = unknown;
  evidence_kind = none;
  evidence_id = null;
  reason = some why;
}

-- `Claim.exact`, by the text as it is displayed.
unfoldable pub displayed_claim : Text → String → Value → Claim
unfolding unknown_claim
displayed_claim [] kind id = unknown_claim (codes kind ++ codes " carried no displayable text")
displayed_claim (c ∷ s) kind id = record {
  text = some (c ∷ s);
  provenance = exact;
  evidence_kind = some (codes kind);
  evidence_id = id;
  reason = none;
}

-- `Claim.exact`.
unfoldable pub exact_claim : Value → String → Value → Claim
unfolding displayed_claim sanitized
exact_claim v kind id = displayed_claim (sanitized v) kind id

-- `Claim.structural`.
unfoldable pub structural_claim : Text → String → Value → Claim
unfolding sanitized
structural_claim t kind id = record {
  text = some (sanitized (str t));
  provenance = structural;
  evidence_kind = some (codes kind);
  evidence_id = id;
  reason = none;
}

-- `Claim(None, Provenance.STRUCTURAL, kind, id)`.
unfoldable pub textless_claim : String → Value → Claim
textless_claim kind id = record {
  text = none;
  provenance = structural;
  evidence_kind = some (codes kind);
  evidence_id = id;
  reason = none;
}

pub record TaskItem : Type 0 where
  pub text : Text
  pub status : Text

pub record CollectionClaim (T : Type 0) : Type 0 where
  pub items : List T
  pub provenance : Provenance
  pub evidence_kind : Option Text
  pub evidence_id : Value
  pub reason : Option Text

-- `CollectionClaim.unknown`.
unfoldable pub unknown_collection : {T : Type 0} → Text → CollectionClaim T
unknown_collection why = record {
  items = [];
  provenance = unknown;
  evidence_kind = none;
  evidence_id = null;
  reason = some why;
}

-- `CollectionClaim(items, provenance, kind)`.
unfoldable pub collection : {T : Type 0} → List T → Provenance → String → CollectionClaim T
collection xs p kind = record {
  items = xs;
  provenance = p;
  evidence_kind = some (codes kind);
  evidence_id = null;
  reason = none;
}

pub record RecentActivity : Type 0 where
  pub text : Text
  pub provenance : Provenance
  pub evidence_kind : Text
  pub evidence_id : Value

pub record SummarySnapshot : Type 0 where
  pub source : Text
  pub session_key : Text
  pub request : Claim
  pub recent : List RecentActivity
  pub tasks : CollectionClaim TaskItem
  pub questions : CollectionClaim Claim
  pub command_result : Claim
  pub background_tasks : List Text
  pub compaction : Claim
  pub turn : Claim
  pub source_integrity : Provenance
  pub unknown_reasons : List Text

-- The defaults of `SummarySnapshot(source=source, session_key=session_key)`.
unfoldable pub new_snapshot : Text → Text → SummarySnapshot
unfolding unknown_claim unknown_collection collection
new_snapshot s key = record {
  source = s;
  session_key = key;
  request = unknown_claim (codes "no genuine human request");
  recent = [];
  tasks = unknown_collection (codes "no structured plan snapshot");
  questions = collection [] structural "event_stream";
  command_result = unknown_claim (codes "no command failure this turn");
  background_tasks = [];
  compaction = unknown_claim (codes "no compaction observed");
  turn = unknown_claim (codes "turn boundary not observed");
  source_integrity = exact;
  unknown_reasons = [];
}

-- `xs[-n:]`.
unfoldable pub last_items {ℓ} : {A : Type ℓ} → ℕ → List A → List A
last_items n xs = drop (length xs - n) xs

-- `append_unknown_reason`.
unfoldable pub append_unknown_reason : List Text → Text → List Text
unfolding text_eq last_items
append_unknown_reason current why =
    if any (text_eq why) current
    then current
    else last_items max_unknown_reasons (current ++ why ∷ [])

-- `SummarySnapshot.with_unknown`.
unfoldable pub with_unknown : SummarySnapshot → Text → SummarySnapshot
unfolding unknown_claim unknown_collection append_unknown_reason
with_unknown s why = record {
  source = s.source;
  session_key = s.session_key;
  request = unknown_claim why;
  recent = s.recent;
  tasks = unknown_collection why;
  questions = unknown_collection why;
  command_result = unknown_claim why;
  background_tasks = s.background_tasks;
  compaction = s.compaction;
  turn = unknown_claim why;
  source_integrity = unknown;
  unknown_reasons = append_unknown_reason s.unknown_reasons why;
}

digits : ℕ → ℕ → Text → Text
digits zero n acc = acc
digits (suc fuel) n acc =
    let more = digits fuel (n / 10) ((b'0' + n % 10) ∷ acc) in
    if ltb n 10 then (b'0' + n) ∷ acc else more

-- `str(n)`.
unfoldable pub decimal : ℕ → Text
unfolding digits
decimal n = digits (suc n) n []

-- `f"{n} malformed complete record(s)"`.
unfoldable pub malformed_reason : ℕ → Text
unfolding decimal
malformed_reason n = decimal n ++ codes " malformed complete record(s)"
