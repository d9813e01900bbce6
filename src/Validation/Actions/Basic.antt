-- ===== src/Validation/Actions/Basic.antt =====
-- What `basicValidation` accepts.
use opendias.Base.{
  ℕ, ◌≡◌, ◌≢◌, ◌↔◌, inl, inr, Bool, true, Option, none, some, [], ◌∷◌, arith, ◌==◌, if◌then◌else◌,
  All, ==_iff,
}
use opendias.Base.CString.{CString, bytes}
use opendias.LinkedList.Search.{HasKey}
use opendias.Validation.Fields.{check_vitals, is_one_of}
use opendias.Validation.Fields.Laws.{Given, check_vitals-zero_iff, is_one_of_iff}
use opendias.Validation.Fields.Kinds.{IsOneOf}
use opendias.Validation.Keys.{PostData, get_post_data}
use opendias.Validation.Actions.{known_actions, vitals_loop, basic_action, basic_validation}

abbrev pub IsFilled : Option CString → Type 0
IsFilled o = Given (λ v. v ≢ []) o

-- A known action, and for every element a key and data that are not empty.
abbrev pub IsBasic : PostData → Type 0
IsBasic post =
    Given (λ a. (a ≢ []) × IsOneOf known_actions a) (get_post_data post (some (bytes "action")))
    × All (λ row. IsFilled row.key × IsFilled (get_post_data post row.key)) post

vitals_loop-zero_iff :
    (post rows : PostData)
    → (vitals_loop post rows ≡ 0)
      ↔ All (λ row. IsFilled row.key × IsFilled (get_post_data post row.key)) rows
unfolding vitals_loop
vitals_loop-zero_iff post [] = ground arith
vitals_loop-zero_iff post (row ∷ rows) = ground (
  arith,
  check_vitals-zero_iff row.key,
  check_vitals-zero_iff (get_post_data post row.key),
  vitals_loop-zero_iff post rows,
)

guard-zero_iff : (t : Bool) (n : ℕ) → ((if t then n else 1) ≡ 0) ↔ ((t ≡ true) × (n ≡ 0))
guard-zero_iff t n = ground arith

basic_action-zero_iff :
    (post : PostData) (o : Option CString)
    → (basic_action post o ≡ 0) ↔ (
        Given (λ a. (a ≢ []) × IsOneOf known_actions a) o
        × All (λ row. IsFilled row.key × IsFilled (get_post_data post row.key)) post)
unfolding basic_action
basic_action-zero_iff post none = ground arith
basic_action-zero_iff post (some a) =
    let (vital, vital') = check_vitals-zero_iff (some a) in
    let (known, known') = is_one_of_iff known_actions a in
    let (loop, loop') = vitals_loop-zero_iff post post in
    let (outer, outer') = guard-zero_iff (check_vitals (some a) == 0) _ in
    let (inner, inner') = guard-zero_iff (is_one_of known_actions a) (vitals_loop post post) in
    (
      λ e.
          let (v, e') = outer e in
          let (k, l) = inner e' in ((vital ((==_iff _ _).0 v), known k), loop l),
      λ h. outer' ((==_iff _ _).1 (vital' h.0.0), inner' (known' h.0.1, loop' h.1)),
    )

-- `basicValidation` returns 0 exactly if the action is one of the known ones and every element has
-- a key and data that are not empty.
pub basic_validation-zero_iff : (post : PostData) → (basic_validation post ≡ 0) ↔ IsBasic post
unfolding basic_validation
basic_validation-zero_iff post =
    basic_action-zero_iff post (get_post_data post (some (bytes "action")))

-- In accepted post data a key that occurs has data that is not empty.
pub IsBasic-field :
    (post : PostData) (key : CString)
    → IsBasic post
    → HasKey post (some key)
    → IsFilled (get_post_data post (some key))
IsBasic-field post key h has = filled post h.1 has
  where
    filled :
        (rows : PostData)
        → All (λ row. IsFilled row.key × IsFilled (get_post_data post row.key)) rows
        → HasKey rows (some key)
        → IsFilled (get_post_data post (some key))
    filled [] a k = absurd k
    filled (row ∷ rows) a (inl e) = rw e at a.0.1
    filled (row ∷ rows) a (inr k) = filled rows a.1 k
