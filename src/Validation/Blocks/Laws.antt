-- ===== src/Validation/Blocks/Laws.antt =====
-- The blocks with conditions of their own: what they accept, and where they fault.
use opendias.Base.{
  ℕ, ◌≡◌, refl, ap, ◌≢◌, ◌↔◌, inl, inr, true, false, Option, none, some, [], ◌∷◌, arith,
  if◌then◌else◌, Bool-cases,
}
use opendias.Base.Exec.{ok, fault}
use opendias.Base.CString.{CString, bytes, str_eq, str_eq_iff, str_eq_sound}
use opendias.LinkedList.{sll_search_keys}
use opendias.LinkedList.Search.{key_is_iff}
use opendias.Base.Int.{pos, ◌≤ℤ◌, atoi}
use opendias.Validation.Fields.{
  check_sane_range, check_date, check_val, check_tag_list, update_keys,
}
use opendias.Validation.Fields.Laws.{Given, InRange, IsDate, check_date-zero_iff}
use opendias.Validation.Fields.Kinds.{IfGiven, IsOneOf, role_iff, update_key_iff}
use opendias.Validation.Keys.{PostData, get_post_data}
use opendias.Validation.Blocks.{
  field, set_post_data, if_given, update_role, create_role, update_value,
}

-- A write to one key does not change the data of another.
pub field-set_post_data_ne :
    (post : PostData) (key j : CString) (v : Option CString)
    → str_eq key j ≡ false
    → field (set_post_data post key v) j ≡ field post j
unfolding set_post_data get_post_data sll_search_keys
field-set_post_data_ne [] key j v ne = refl
field-set_post_data_ne (e ∷ es) key j v ne = ground (
  arith,
  key_is_iff e.key key,
  key_is_iff e.key j,
  str_eq_iff key j,
  field-set_post_data_ne es key j v ne,
)

unfoldable pub given_or_zero : Option CString → (CString → ℕ) → ℕ
given_or_zero none f = 0
given_or_zero (some d) f = if str_eq d (bytes "") then 0 else f d

-- A check that cannot fault, on a field that need not be given.
pub if_given-ok :
    (o : Option CString) (f : CString → ℕ) → if_given o (λ d. ok (f d)) ≡ ok (given_or_zero o f)
unfolding if_given given_or_zero
if_given-ok none f = refl
if_given-ok (some d) f = ground arith

pub given_or_zero-zero_iff :
    (o : Option CString) (f : CString → ℕ) (P : CString → Type 0)
    → ((d : CString) → (f d ≡ 0) ↔ P d)
    → (given_or_zero o f ≡ 0) ↔ IfGiven P o
unfolding given_or_zero bytes
given_or_zero-zero_iff none f P h = ground arith
given_or_zero-zero_iff (some d) f P h = ground (arith, h d, str_eq_iff d [])

-- A role may be given with a user name, from 1 to 10.
abbrev pub RoleFits : Option CString → Option CString → Type 0
RoleFits (some u) (some r) = InRange 1 10 r
RoleFits _ _ = Unit

-- And nobody names a new role for the current user.
abbrev pub NewRoleFits : Option CString → Option CString → Type 0
NewRoleFits (some u) (some r) = InRange 1 10 r × (u ≢ bytes "[current]")
NewRoleFits _ _ = Unit

pub create_role-zero_iff : (u r : Option CString) → (create_role u r ≡ 0) ↔ RoleFits u r
unfolding create_role
create_role-zero_iff none r = ground arith
create_role-zero_iff (some u) none = ground arith
create_role-zero_iff (some u) (some r) = role_iff (some r)

pub update_role-zero_iff : (u r : Option CString) → (update_role u r ≡ 0) ↔ NewRoleFits u r
unfolding update_role
update_role-zero_iff none r = ground arith
update_role-zero_iff (some u) none = ground arith
update_role-zero_iff (some u) (some r) =
    ground (arith, role_iff (some r), str_eq_iff u (bytes "[current]"))

abbrev pub IsSane : ℕ → ℕ → CString → Type 0
IsSane low high s = (pos low ≤ℤ atoi s) × (atoi s ≤ℤ pos high)

pub check_sane_range-zero_iff :
    (s : CString) (low high : ℕ) → (check_sane_range s low high ≡ 0) ↔ IsSane low high s
unfolding check_sane_range
check_sane_range-zero_iff s low high = ground arith

-- The key of a document's field, and a date where the key is "docDate".
abbrev pub UpdateFits : Option CString → Option CString → Type 0
UpdateFits none v = ⊥
UpdateFits (some k) v = IsOneOf update_keys k × (k ≡ bytes "docDate" → Given IsDate v)

module _ (k : CString) where
  update_value-plain :
      (vvalue : Option CString)
      → str_eq k (bytes "docDate") ≡ false
      → (update_value 0 (some k) vvalue ≡ ok 0) ↔ UpdateFits (some k) vvalue
  unfolding update_value check_val
  update_value-plain vvalue other =
      let (to, from) = update_key_iff (some k) in
      let ne : k ≢ bytes "docDate" = ground (arith, str_eq_iff k (bytes "docDate")) in
      rw other
        (λ e. (to (ground arith), λ same. absurd (ne same)), λ h. ap ok (omega (arith, from h.0)))

  update_value-date :
      (v : CString)
      → k ≡ bytes "docDate"
      → (update_value 0 (some k) (some v) ≡ ok 0) ↔ UpdateFits (some k) (some v)
  unfolding update_value
  update_value-date v same =
      let (to, from) = update_key_iff (some k) in
      let (date, date') = check_date-zero_iff v in
      let hit : str_eq k (bytes "docDate") ≡ true = (str_eq_iff _ _).1 same in
      rw hit (
        λ e. (to (ground arith), λ _. date (ground arith)),
        λ h. ground (arith, date' (h.1 same), from h.0),
      )

check_date-none : check_date none ≡ fault
unfolding check_date
check_date-none = refl

pub update_value-ok_iff : (k v : Option CString) → (update_value 0 k v ≡ ok 0) ↔ UpdateFits k v
unfolding update_value
update_value-ok_iff none v = ground arith
update_value-ok_iff (some k) none = elim (Bool-cases (str_eq k (bytes "docDate"))) [
  | inl hit ↦
      let same : k ≡ bytes "docDate" = str_eq_sound _ _ hit in
      rw hit ((λ e. cc (check_date-none)), λ h. absurd (h.1 same))
  | inr miss ↦ update_value-plain k none miss
]
update_value-ok_iff (some k) (some v) = elim (Bool-cases (str_eq k (bytes "docDate"))) [
  | inl hit ↦ update_value-date k v (str_eq_sound _ _ hit)
  | inr miss ↦ update_value-plain k (some v) miss
]

-- `checkVal` and `checkTagList` find no errors.
pub unchecked : (o : Option CString) → given_or_zero o (λ d. check_val (some d)) ≡ 0
unfolding given_or_zero check_val
unchecked none = refl
unchecked (some d) = ground arith

pub unchecked_tags : (o : Option CString) → given_or_zero o (λ d. check_tag_list (some d)) ≡ 0
unfolding given_or_zero check_tag_list
unchecked_tags none = refl
unchecked_tags (some d) = ground arith

pub if_given-IsDate_iff :
    (o : Option CString) → (if_given o (λ d. check_date (some d)) ≡ ok 0) ↔ IfGiven IsDate o
unfolding if_given bytes
if_given-IsDate_iff none = ground arith
if_given-IsDate_iff (some d) = elim (Bool-cases (str_eq d [])) [
  | inl empty ↦
      let nil : d ≡ [] = str_eq_sound d [] empty in rw empty ((λ e ne. absurd (ne nil)), λ h. refl)
  | inr given ↦
      let (to, from) = check_date-zero_iff d in
      let ne : d ≢ [] = ground (arith, str_eq_iff d []) in
      rw given ((λ e _. to e), λ h. from (h ne))
]
