-- ===== src/Summary/Filed.antt =====
-- palaver/summary/model.py: the dictionary of the open questions, and what `pending_questions` reads
-- back from the questions of a snapshot.
use palaver.Prelude.{
  false, List, [], ◌∷◌, ◌++◌, All, Text, text_eq, text_eq_refl, eq_of_text_eq, ◌≡◌, ◌≢◌, refl, sym,
  ap, ◌∙◌, inl, inr, Bool-cases,
}
use mathlib.Core.List.{append-nil, append_assoc}
use palaver.Json.{str}
use palaver.Summary.Model.{Claim}
use palaver.Summary.Collections.{Pending, insert, pop, claims_at, flatten, file_claim, file_claims}

-- No entry has this key.
unfoldable pub Fresh : Text → Pending → Type 0
Fresh k d = All (λ e. text_eq k e.0 ≡ false) d

-- Every entry has claims, each with the key for its identifier, and no key stands twice.
unfoldable pub Filed : Pending → Type 0
Filed [] = Unit
Filed ((k, claims) ∷ rest) =
    (claims ≢ [])
    × All (λ c. c.evidence_id ≡ str k) claims
    × All (λ e. text_eq e.0 k ≡ false) rest
    × Filed rest

pop-All : (P : Text × List Claim → Type 0) (id : Text) (d : Pending) → All P d → All P (pop id d)
unfolding pop
pop-All P id [] h = tt
pop-All P id ((k, old) ∷ rest) (x, h) = elim (Bool-cases (text_eq id k)) [
  | inl e ↦ rw e h
  | inr e ↦ rw e (x, pop-All P id rest h)
]

pub pop-Filed : (id : Text) (d : Pending) → Filed d → Filed (pop id d)
unfolding pop Filed
pop-Filed id [] h = tt
pop-Filed id ((k, old) ∷ rest) (some_, own, apart, h) = elim (Bool-cases (text_eq id k)) [
  | inl e ↦ rw e h
  | inr e ↦
      rw e (some_, own, pop-All (λ e. text_eq e.0 k ≡ false) id rest apart, pop-Filed id rest h)
]

insert-All :
    (P : Text → Type 0) (id : Text) (claims : List Claim) (d : Pending)
    → P id
    → All (λ e. P e.0) d
    → All (λ e. P e.0) (insert id claims d)
unfolding insert
insert-All P id claims [] x h = (x, tt)
insert-All P id claims ((k, old) ∷ rest) x (y, h) = elim (Bool-cases (text_eq id k)) [
  | inl e ↦ rw e (y, h)
  | inr e ↦ rw e (y, insert-All P id claims rest x h)
]

pub insert-Filed :
    (id : Text) (claims : List Claim) (d : Pending)
    → claims ≢ []
    → All (λ c. c.evidence_id ≡ str id) claims
    → Filed d
    → Filed (insert id claims d)
unfolding insert Filed
insert-Filed id claims [] asked own h = (asked, own, tt, tt)
insert-Filed id claims ((k, old) ∷ rest) asked own (some_, owned, apart, h) =
    elim (Bool-cases (text_eq id k)) [
      | inl e ↦ rw e (asked, rw (sym (eq_of_text_eq id k e)) own, apart, h)
      | inr e ↦ rw e (
        some_,
        owned,
        insert-All (λ j. text_eq j k ≡ false) id claims rest e apart,
        insert-Filed id claims rest asked own h,
      )
    ]

claims_at-Fresh : (k : Text) (d : Pending) → Fresh k d → claims_at k d ≡ []
unfolding claims_at Fresh
claims_at-Fresh k [] h = refl
claims_at-Fresh k ((j, old) ∷ d) (e, h) = rw e (claims_at-Fresh k d h)

insert-Fresh :
    (k : Text) (claims : List Claim) (d : Pending)
    → Fresh k d
    → insert k claims d ≡ d ++ (k, claims) ∷ []
unfolding insert Fresh
insert-Fresh k claims [] h = refl
insert-Fresh k claims ((j, old) ∷ d) (e, h) =
    rw e (ap (λ r. (j, old) ∷ r) (insert-Fresh k claims d h))

claims_at-last :
    (k : Text) (claims : List Claim) (d : Pending)
    → Fresh k d
    → claims_at k (d ++ (k, claims) ∷ []) ≡ claims
unfolding claims_at Fresh
claims_at-last k claims [] h = rw (text_eq_refl k) refl
claims_at-last k claims ((j, old) ∷ d) (e, h) = rw e (claims_at-last k claims d h)

insert-last :
    (k : Text) (old claims : List Claim) (d : Pending)
    → Fresh k d
    → insert k claims (d ++ (k, old) ∷ []) ≡ d ++ (k, claims) ∷ []
unfolding insert Fresh
insert-last k old claims [] h = rw (text_eq_refl k) refl
insert-last k old claims ((j, other) ∷ d) (e, h) =
    rw e (ap (λ r. (j, other) ∷ r) (insert-last k old claims d h))

-- A further claim of the last key joins its entry.
file_claim-last :
    (k : Text) (claims : List Claim) (d : Pending) (c : Claim)
    → Fresh k d
    → file_claim (d ++ (k, claims) ∷ []) (str k) c ≡ d ++ (k, claims ++ c ∷ []) ∷ []
unfolding file_claim
file_claim-last k claims d c h =
    rw (claims_at-last k claims d h) (insert-last k claims (claims ++ c ∷ []) d h)

file_claims-last :
    (k : Text) (claims more : List Claim) (d : Pending)
    → Fresh k d
    → All (λ c. c.evidence_id ≡ str k) more
    → file_claims (d ++ (k, claims) ∷ []) more ≡ d ++ (k, claims ++ more) ∷ []
unfolding file_claims
file_claims-last k claims [] d h own = ap (λ cs. d ++ (k, cs) ∷ []) (sym (append-nil claims))
file_claims-last k claims (c ∷ more) d h (e, own) =
    ap (λ v. file_claims (file_claim (d ++ (k, claims) ∷ []) v c) more) e
    ∙ (ap (λ q. file_claims q more) (file_claim-last k claims d c h)
        ∙ (file_claims-last k (claims ++ c ∷ []) more d h own
            ∙ ap (λ cs. d ++ (k, cs) ∷ []) (append_assoc claims (c ∷ []) more)))

file_claims-append :
    (d : Pending) (cs ds : List Claim)
    → file_claims d (cs ++ ds) ≡ file_claims (file_claims d cs) ds
unfolding file_claims
file_claims-append d [] ds = refl
file_claims-append d (c ∷ cs) ds = file_claims-append (file_claim d c.evidence_id c) cs ds

-- The claims of one entry, filed after entries with other keys.
file_claims-entry :
    (k : Text) (claims : List Claim) (d : Pending)
    → Fresh k d
    → claims ≢ []
    → All (λ c. c.evidence_id ≡ str k) claims
    → file_claims d claims ≡ d ++ (k, claims) ∷ []
unfolding file_claims file_claim
file_claims-entry k [] d h asked own = absurd (asked refl)
file_claims-entry k (c ∷ claims) d h asked (e, own) =
    ap (λ v. file_claims (file_claim d v c) claims) e
    ∙ (ap (λ q. file_claims q claims) first ∙ file_claims-last k (c ∷ []) claims d h own)
  where
    first : insert k (claims_at k d ++ c ∷ []) d ≡ d ++ (k, c ∷ []) ∷ []
    first =
        ap (λ cs. insert k (cs ++ c ∷ []) d) (claims_at-Fresh k d h) ∙ insert-Fresh k (c ∷ []) d h

-- Keys that are fresh before an entry and differ from its key are fresh after it.
Fresh-after :
    (k : Text) (claims : List Claim) (d rest : Pending)
    → All (λ e. Fresh e.0 d) rest
    → All (λ e. text_eq e.0 k ≡ false) rest
    → All (λ e. Fresh e.0 (d ++ (k, claims) ∷ [])) rest
unfolding Fresh
Fresh-after k claims d [] h apart = tt
Fresh-after k claims d ((j, old) ∷ rest) (x, h) (y, apart) =
    (snoc d x, Fresh-after k claims d rest h apart)
  where
    snoc : (d : Pending) → Fresh j d → Fresh j (d ++ (k, claims) ∷ [])
    snoc [] f = (y, tt)
    snoc (_ ∷ d) (e, f) = (e, snoc d f)

file_claims-flatten :
    (d p : Pending) → Filed p → All (λ e. Fresh e.0 d) p → file_claims d (flatten p) ≡ d ++ p
unfolding Filed flatten file_claims
file_claims-flatten d [] h fresh = sym (append-nil d)
file_claims-flatten d ((k, claims) ∷ rest) (asked, own, apart, h) (f, fresh) =
    file_claims-append d claims (flatten rest)
    ∙ (ap (λ q. file_claims q (flatten rest)) (file_claims-entry k claims d f asked own)
        ∙ (file_claims-flatten (d ++ (k, claims) ∷ []) rest h
              (Fresh-after k claims d rest fresh apart)
            ∙ append_assoc d ((k, claims) ∷ []) rest))

-- What `pending_questions` reads back from the questions is the dictionary that they were listed from.
pub file_claims-flatten_all : (p : Pending) → Filed p → file_claims [] (flatten p) ≡ p
unfolding Fresh
file_claims-flatten_all p h = file_claims-flatten [] p h (fresh p)
  where
    fresh : (p : Pending) → All (λ e. Fresh e.0 []) p
    fresh [] = tt
    fresh (_ ∷ p) = (tt, fresh p)
