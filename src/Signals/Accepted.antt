-- ===== src/Signals/Accepted.antt =====
-- Which responses palaver/observer/signals/payload.py takes for an `Extraction`.
use palaver.Prelude.{
  ℕ, Bool, false, Option, none, some, List, [], ◌∷◌, ◌++◌, ◌≡◌, ◌≢◌, ◌↔◌, ◌⊎◌, inl, inr, refl, sym,
  ap, arith, map, any, All, Text, codes, text_eq, text_eq_iff, strip, Bool-cases,
}
use palaver.Json.{Value, null, str, arr, obj, Items, nil, cons, Fields, end, field, get}
use mathlib.Core.Path.{subst}
use palaver.Signals.{Extraction}
use palaver.Signals.Payload.{
  PayloadError, Result, ok, err, underscored, forbidden_payload_keys, normalized_key, is_forbidden,
  names_status, join_lines, payload_text, extraction_from_model_payload,
}

-- The letter `c` as spelt for the letter `d` of a name: itself, or a hyphen or a space for `_`.
abbrev pub StandsFor : ℕ → ℕ → Type 0
StandsFor c d = ((c ≡ d) × (c ≢ b'-') × (c ≢ b' ')) ⊎ ((d ≡ b'_') × ((c ≡ b'-') ⊎ (c ≡ b' ')))

-- A text that spells a name, letter by letter.
pub data Spells : Text → Text → Type 0 where
  spelt : Spells [] []
  letter : {c d : ℕ} {s t : Text} → StandsFor c d → Spells s t → Spells (c ∷ s) (d ∷ t)

-- A key that spells none of the six names of a status, once it is stripped and lower-cased.
pub record IsFree (lower : Text → Text) (key : Text) : Type 0 where
  pub status : ¬ Spells (lower (strip key)) (codes "status")
  pub state : ¬ Spells (lower (strip key)) (codes "state")
  pub session_status : ¬ Spells (lower (strip key)) (codes "session_status")
  pub session_state : ¬ Spells (lower (strip key)) (codes "session_state")
  pub agent_status : ¬ Spells (lower (strip key)) (codes "agent_status")
  pub agent_state : ¬ Spells (lower (strip key)) (codes "agent_state")

unfoldable pub keys : Fields → List Text
keys end = []
keys (field k v fs) = k ∷ keys fs

-- The strings of a list of strings, and their lines in one text.
unfoldable pub strings : List Text → Items
strings [] = nil
strings (s ∷ ts) = cons (str s) (strings ts)

unfoldable pub lines : List Text → Text
lines [] = []
lines (s ∷ []) = s
lines (s ∷ t ∷ ts) = s ++ b'\n' ∷ lines (t ∷ ts)

-- A field's value and what it says: null says nothing, a string itself, a list of strings their
-- lines.
pub data Says : Value → Option Text → Type 0 where
  nothing : Says null none
  one : (s : Text) → Says (str s) (some s)
  several : (ts : List Text) → Says (arr (strings ts)) (some (lines ts))

underscored_iff : (c d : ℕ) → (underscored c ≡ d) ↔ StandsFor c d
unfolding underscored
underscored_iff c d = (λ h. ground arith, λ h. ground arith)

underscored-Spells : (s t : Text) → map underscored s ≡ t → Spells s t
underscored-Spells [] [] h = spelt
underscored-Spells [] (d ∷ t) h = cc
underscored-Spells (c ∷ s) [] h = cc
underscored-Spells (c ∷ s) (d ∷ t) h =
    letter ((underscored_iff c d).0 (cc h)) (underscored-Spells s t (cc h))

Spells-underscored : (s t : Text) → Spells s t → map underscored s ≡ t
Spells-underscored [] [] spelt = refl
Spells-underscored [] (d ∷ t) h = elim h [ ]
Spells-underscored (c ∷ s) [] h = elim h [ ]
Spells-underscored (c ∷ s) (d ∷ t) (letter p ps) =
    rw ((underscored_iff c d).1 p, Spells-underscored s t ps) refl

ok-injective : {A : Type 0} {a b : A} → ok a ≡ ok b → a ≡ b
ok-injective h = cc

result_cases :
    {A : Type 0} (r : Result A) → ((a : A) × (r ≡ ok a)) ⊎ ((e : PayloadError) × (r ≡ err e))
result_cases (ok a) = inl (a, refl)
result_cases (err e) = inr (e, refl)

join_more :
    (t : Text) (ts : List Text) (rest s : Text) (vs : Items)
    → vs ≡ strings ts
    → rest ≡ lines ts
    → vs ≢ nil
    → ok (t ++ b'\n' ∷ rest) ≡ ok s
    → (us : List Text) × (cons (str t) vs ≡ strings us) × (s ≡ lines us)
unfolding strings lines
join_more t [] rest s vs split same full h = absurd (full split)
join_more t (u ∷ ts) rest s vs split same full h =
    (t ∷ u ∷ ts, ap (cons (str t)) split, rw same at (sym (ok-injective h)))

join_says :
    (vs : Items) (s : Text)
    → join_lines vs ≡ ok s
    → (ts : List Text) × (vs ≡ strings ts) × (s ≡ lines ts)
unfolding join_lines strings lines
join_says nil s h = ([], refl, cc h)
join_says (cons (str t) nil) s h = (t ∷ [], refl, cc h)
join_says (cons (str t) (cons v vs)) s h = elim (result_cases (join_lines (cons v vs))) [
  | inl (rest, e) ↦
      let (ts, split, same) = join_says (cons v vs) rest e in
      join_more t ts rest s (cons v vs) split same (λ e. cc) (rw e at h)
  | inr bad ↦ absurd (ground (arith, bad))
]
join_says (cons v vs) s h = absurd (ground arith)

strings_join : (ts : List Text) → join_lines (strings ts) ≡ ok (lines ts)
unfolding join_lines strings lines
strings_join [] = refl
strings_join (s ∷ []) = refl
strings_join (s ∷ t ∷ ts) = rw (strings_join (t ∷ ts)) refl

payload_text-Says : (v : Value) (o : Option Text) → payload_text v ≡ ok o → Says v o
unfolding payload_text
payload_text-Says null o h = subst (Says null) (ok-injective h) nothing
payload_text-Says (str s) o h = subst (Says (str s)) (ok-injective h) (one s)
payload_text-Says (arr vs) o h = elim (result_cases (join_lines vs)) [
  | inl (s, e) ↦
      let (ts, split, same) = join_says vs s e in
      subst (Says (arr vs)) (ok-injective (rw e at h)) (
        subst (λ x. Says (arr vs) (some x)) (sym same)
          (subst (λ x. Says (arr x) (some (lines ts))) (sym split) (several ts)))
  | inr bad ↦ absurd (ground (arith, bad))
]
payload_text-Says v o h = absurd (ground arith)

Says-payload_text : (v : Value) (o : Option Text) → Says v o → payload_text v ≡ ok o
unfolding payload_text
Says-payload_text _ _ nothing = refl
Says-payload_text _ _ (one s) = refl
Says-payload_text _ _ (several ts) = rw (strings_join ts) refl

same_iff : (s name : Text) → (text_eq (map underscored s) name ≡ false) ↔ (¬ Spells s name)
same_iff s name = (
  λ h p. ground (arith, (text_eq_iff (map underscored s) name).1 (Spells-underscored s name p)),
  λ h. elim (Bool-cases (text_eq (map underscored s) name)) [
    | inl e ↦ absurd (h (underscored-Spells s name ((text_eq_iff (map underscored s) name).0 e)))
    | inr e ↦ e
  ],
)

-- A test that fails on each of the names.
none_of :
    (p : Text → Bool)
    → (any p forbidden_payload_keys ≡ false) ↔ (
        (p (codes "status") ≡ false)
        × (p (codes "state") ≡ false)
        × (p (codes "session_status") ≡ false)
        × (p (codes "session_state") ≡ false)
        × (p (codes "agent_status") ≡ false)
        × (p (codes "agent_state") ≡ false))
none_of p = (λ h. ground arith, λ h. ground arith)

forbidden-IsFree :
    (lower : Text → Text) (key : Text) → (is_forbidden lower key ≡ false) ↔ IsFree lower key
unfolding is_forbidden normalized_key
forbidden-IsFree lower key =
    let s = lower (strip key) in
    (
      λ h.
          let (a, b, c, d, e, f) = (none_of (text_eq (map underscored s))).0 h in
          record {
            status = (same_iff s (codes "status")).0 a;
            state = (same_iff s (codes "state")).0 b;
            session_status = (same_iff s (codes "session_status")).0 c;
            session_state = (same_iff s (codes "session_state")).0 d;
            agent_status = (same_iff s (codes "agent_status")).0 e;
            agent_state = (same_iff s (codes "agent_state")).0 f;
          },
      λ w. (none_of (text_eq (map underscored s))).1 (
        (same_iff s (codes "status")).1 w.status,
        (same_iff s (codes "state")).1 w.state,
        (same_iff s (codes "session_status")).1 w.session_status,
        (same_iff s (codes "session_state")).1 w.session_state,
        (same_iff s (codes "agent_status")).1 w.agent_status,
        (same_iff s (codes "agent_state")).1 w.agent_state,
      ),
    )

names_status_iff :
    (lower : Text → Text) (fs : Fields)
    → (names_status lower fs ≡ false) ↔ All (IsFree lower) (keys fs)
unfolding names_status keys
names_status_iff lower end = (λ h. tt, λ h. refl)
names_status_iff lower (field k v fs) = (
  λ h. ((forbidden-IsFree lower k).0 (ground arith), (names_status_iff lower fs).0 (ground arith)),
  λ (first, rest). rw ((forbidden-IsFree lower k).1 first, (names_status_iff lower fs).1 rest) refl,
)

fields_iff :
    (lower : Text → Text) (fs : Fields) (e : Extraction)
    → (extraction_from_model_payload lower (obj fs) ≡ ok e) ↔ (
        (names_status lower fs ≡ false)
        × (payload_text (get fs "current_task") ≡ ok e.current_task)
        × (payload_text (get fs "remaining_work") ≡ ok e.remaining_work)
        × (payload_text (get fs "blockers_now") ≡ ok e.blockers_now)
        × (payload_text (get fs "open_questions") ≡ ok e.open_questions))
unfolding extraction_from_model_payload
fields_iff lower fs e = (λ h. ground arith, λ h. ground arith)

-- A response that is an object becomes an extraction exactly when none of its keys, stripped and
-- lower-cased, spells one of the six names of a status with hyphens or spaces for the underscores
-- it likes, and each of the four fields is absent or null, a string, or a list of strings. The
-- extraction then has nothing, the string, or the strings joined by newlines.
pub extraction_iff :
    (lower : Text → Text) (fs : Fields) (e : Extraction)
    → (extraction_from_model_payload lower (obj fs) ≡ ok e) ↔ (
        All (IsFree lower) (keys fs)
        × Says (get fs "current_task") e.current_task
        × Says (get fs "remaining_work") e.remaining_work
        × Says (get fs "blockers_now") e.blockers_now
        × Says (get fs "open_questions") e.open_questions)
extraction_iff lower fs e = (
  λ h.
      let (free, a, b, c, d) = (fields_iff lower fs e).0 h in
      (
        (names_status_iff lower fs).0 free,
        payload_text-Says (get fs "current_task") e.current_task a,
        payload_text-Says (get fs "remaining_work") e.remaining_work b,
        payload_text-Says (get fs "blockers_now") e.blockers_now c,
        payload_text-Says (get fs "open_questions") e.open_questions d,
      ),
  λ (free, a, b, c, d). (fields_iff lower fs e).1 (
    (names_status_iff lower fs).1 free,
    Says-payload_text (get fs "current_task") e.current_task a,
    Says-payload_text (get fs "remaining_work") e.remaining_work b,
    Says-payload_text (get fs "blockers_now") e.blockers_now c,
    Says-payload_text (get fs "open_questions") e.open_questions d,
  ),
)
