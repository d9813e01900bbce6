-- ===== src/Validation/Keys/Laws.antt =====
-- When `checkKeys` finds no error.
use opendias.Base.{
  ℕ, ◌+◌, ◌≡◌, refl, ◌≢◌, ◌↔◌, inl, inr, Bool, true, false, not, ◌&&◌, Option, none, some, [], ◌∷◌,
  arith, All, All-iff, Bool-cases, Option-cases,
}
use opendias.Base.CString.{CString, bytes}
use opendias.LinkedList.{Element, Sll, key_is, sll_search_keys}
use opendias.LinkedList.Search.{HasKey, key_is_iff, sll_search_keys-none_iff, HasKey-of_found}
use opendias.Validation.Keys.{PostData, mark, mark?, post_loop, is_mandatory, rule_loop, check_keys}

-- No key occurs twice.
abbrev pub Distinct : {V : Type 0} → Sll V → Type 0
Distinct [] = Unit
Distinct (e ∷ es) = All (λ f. f.key ≢ e.key) es × Distinct es

-- Every key of the post data has a rule, and every mandatory rule has its key in the post data.
abbrev pub KeysFit : PostData → Sll CString → Type 0
KeysFit post rules =
    All (λ row. HasKey rules row.key) post
    × All (λ rule. is_mandatory rule.value ≡ true → HasKey post rule.key) rules

-- Marking changes no key.
All-mark :
    (P : Option CString → Type 0) (es : Sll CString) (k : CString)
    → All (λ f. P f.key) es
    → All (λ f. P f.key) (mark es k)
unfolding mark
All-mark P [] k h = tt
All-mark P (e ∷ es) k h = elim (Bool-cases (key_is e.key k)) [
  | inl hit ↦ rw hit h
  | inr miss ↦ rw miss (h.0, All-mark P es k h.1)
]

mark-HasKey :
    (es : Sll CString) (k : CString) (j : Option CString) → HasKey (mark es k) j ↔ HasKey es j
unfolding mark
mark-HasKey es k none = ground arith
mark-HasKey [] k (some j) = ground arith
mark-HasKey (e ∷ es) k (some j) = ground (arith, mark-HasKey es k (some j))

Distinct-mark : (es : Sll CString) (k : CString) → Distinct es → Distinct (mark es k)
unfolding mark
Distinct-mark [] k h = tt
Distinct-mark (e ∷ es) k h = elim (Bool-cases (key_is e.key k)) [
  | inl hit ↦ rw hit h
  | inr miss ↦ rw miss (All-mark (λ j. j ≢ e.key) es k h.0, Distinct-mark es k h.1)
]

-- Every mandatory rule has its key in the post data.
abbrev Supplied : PostData → Sll CString → Type 0
Supplied post rules = All (λ rule. is_mandatory rule.value ≡ true → HasKey post rule.key) rules

marked_optional : is_mandatory (some (bytes "-")) ≡ false
unfolding is_mandatory
marked_optional = refl

HasKey-drop :
    (row : Element CString) (rows : PostData) (k : CString) (j : Option CString)
    → row.key ≡ some k
    → j ≢ some k
    → HasKey (row ∷ rows) j ↔ HasKey rows j
HasKey-drop row rows k none e ne = ground arith
HasKey-drop row rows k (some c) e ne = ground arith

-- Rules whose key is not the row's ask nothing of the row.
Supplied-drop :
    (row : Element CString) (rows : PostData) (k : CString) (es : Sll CString)
    → row.key ≡ some k
    → All (λ f. f.key ≢ some k) es
    → Supplied (row ∷ rows) es ↔ Supplied rows es
Supplied-drop row rows k [] e h = ground arith
Supplied-drop row rows k (f ∷ es) e h =
    let (drop, add) = HasKey-drop row rows k f.key e h.0 in
    let (drop_rest, add_rest) = Supplied-drop row rows k es e h.1 in
    (λ s. (λ m. drop (s.0 m), drop_rest s.1), λ s. (λ m. add (s.0 m), add_rest s.1))

-- Marking the row's key settles what the row supplies.
Supplied-mark :
    (row : Element CString) (rows : PostData) (k : CString) (es : Sll CString)
    → row.key ≡ some k
    → Distinct es
    → Supplied (row ∷ rows) es ↔ Supplied rows (mark es k)
unfolding mark
Supplied-mark row rows k [] e d = ground arith
Supplied-mark row rows k (f ∷ es) e d = elim (Bool-cases (key_is f.key k)) [
  | inl hit ↦
      let same : f.key ≡ some k = (key_is_iff f.key k).0 hit in
      let (drop, add) = Supplied-drop row rows k es e (rw same at d.0) in
      rw hit (λ s. (λ m. cc (marked_optional), drop s.1), λ s. (λ m. rw same (inl e), add s.1))
  | inr miss ↦
      let other : f.key ≢ some k = ground (arith, key_is_iff f.key k) in
      let (drop, add) = HasKey-drop row rows k f.key e other in
      let (to, from) = Supplied-mark row rows k es e d.1 in
      rw miss (λ s. (λ m. drop (s.0 m), to s.1), λ s. (λ m. add (s.0 m), from s.1))
]

HasKey-nil : (j : Option CString) → ¬ HasKey {V = CString} [] j
HasKey-nil none h = h
HasKey-nil (some c) h = h

rule_loop-zero_iff :
    (ret : ℕ) (rules : Sll CString) → (rule_loop ret rules ≡ 0) ↔ ((ret ≡ 0) × Supplied [] rules)
unfolding rule_loop
rule_loop-zero_iff ret [] = ground arith
rule_loop-zero_iff ret (r ∷ rs) = elim (Bool-cases (is_mandatory r.value)) [
  | inl must ↦
      let (to, from) = rule_loop-zero_iff (ret + 1) rs in
      rw must (λ e. absurd (omega (arith, (to e).0)), λ s. absurd (HasKey-nil r.key (s.1.0 refl)))
  | inr may ↦
      let (to, from) = rule_loop-zero_iff ret rs in
      rw may (λ e. ((to e).0, ((λ m. cc), (to e).1)), λ s. from (s.0, s.1.1))
]

-- The same facts where the row's key may be NULL.
module _ (es : Sll CString) where
  mark?-HasKey : (k j : Option CString) → HasKey (mark? es k) j ↔ HasKey es j
  unfolding mark?
  mark?-HasKey none j = (λ h. h, λ h. h)
  mark?-HasKey (some k) j = mark-HasKey es k j

  Distinct-mark? : (k : Option CString) → Distinct es → Distinct (mark? es k)
  unfolding mark?
  Distinct-mark? none d = d
  Distinct-mark? (some k) d = Distinct-mark es k d

  Supplied-mark? :
      (row : Element CString) (rows : PostData) (k : Option CString)
      → row.key ≡ k
      → HasKey es k
      → Distinct es
      → Supplied (row ∷ rows) es ↔ Supplied rows (mark? es k)
  unfolding mark?
  Supplied-mark? row rows none e h d = absurd h
  Supplied-mark? row rows (some k) e h d = Supplied-mark row rows k es e d

post_loop-zero_iff :
    (ret : ℕ) (rules : Sll CString) (post : PostData)
    → Distinct rules
    → (rule_loop (post_loop ret rules post).0 (post_loop ret rules post).1 ≡ 0)
      ↔ ((ret ≡ 0) × All (λ row. HasKey rules row.key) post × Supplied post rules)
unfolding post_loop
post_loop-zero_iff ret rules [] d =
    let (to, from) = rule_loop-zero_iff ret rules in
    (λ e. ((to e).0, tt, (to e).1), λ s. from (s.0, s.2))
post_loop-zero_iff ret rules (row ∷ rows) d = elim (Option-cases (sll_search_keys rules row.key)) [
  | inl missing ↦
      let (to, from) = post_loop-zero_iff (ret + 1) rules rows d in
      rw (missing, post_loop)
        (
          λ e. absurd (omega (arith, (to e).0)),
          λ s. absurd ((sll_search_keys-none_iff rules row.key).0 missing s.1.0),
        )
  | inr (r, found) ↦
      let has : HasKey rules row.key = HasKey-of_found rules row.key r found in
      let (to, from) =
        post_loop-zero_iff ret (mark? rules row.key) rows (Distinct-mark? rules row.key d) in
      let (keep, back) = All-iff rows (λ (f : Element CString). mark?-HasKey rules row.key f.key) in
      let (marks, unmarks) = Supplied-mark? rules row rows row.key refl has d in
      rw (found, post_loop)
        (
          λ e. ((to e).0, (has, keep (to e).1), unmarks (to e).2),
          λ s. from (s.0, back s.1.1, marks s.2),
        )
]

-- `checkKeys` returns 0 exactly when every key of the post data has a rule and every mandatory rule
-- has its key in the post data, for rules with distinct keys.
pub check_keys-zero_iff :
    (post : PostData) (rules : Sll CString)
    → Distinct rules
    → (check_keys post rules ≡ 0) ↔ KeysFit post rules
unfolding check_keys
check_keys-zero_iff post rules d =
    let (to, from) = post_loop-zero_iff 0 rules post d in
    (λ e. ((to e).1, (to e).2), λ f. from (refl, f.0, f.1))

-- A test for rules that are written out.
absent : CString → Sll CString → Bool
absent k [] = true
absent k (e ∷ es) = not (key_is e.key k) && absent k es

unfoldable pub are_distinct : Sll CString → Bool
unfolding absent
are_distinct [] = true
are_distinct (e ∷ es) = elim e.key [ none ↦ false | some k ↦ absent k es && are_distinct es ]

absent_sound : (k : CString) (es : Sll CString) → absent k es ≡ true → All (λ f. f.key ≢ some k) es
unfolding absent
absent_sound k [] h = tt
absent_sound k (e ∷ es) h =
    let other : e.key ≢ some k = ground (arith, key_is_iff e.key k) in
    (other, absent_sound k es (ground arith))

pub are_distinct_sound : (es : Sll CString) → are_distinct es ≡ true → Distinct es
unfolding are_distinct
are_distinct_sound [] h = tt
are_distinct_sound (e ∷ es) h = elim (Option-cases e.key) [
  | inl missing ↦ absurd (ground arith)
  | inr (k, named) ↦
      (rw named (absent_sound k es (ground arith)), are_distinct_sound es (ground arith))
]
