-- ===== src/Validation/Actions/DocFilter.antt =====
-- The block of `docFilter`: what it accepts, and where it faults.
use opendias.Base.{
  ℕ, ◌+◌, ◌≡◌, refl, ◌≢◌, ◌≤◌, ◌↔◌, ◌⊎◌, inl, inr, Option, none, some, [], arith, Bool-cases,
  length,
}
use opendias.Base.Exec.{Exec, ok, fault, ◌>>=◌}
use opendias.Base.CString.{CString, bytes, str_eq, str_eq_iff, str_eq_sound}
use opendias.Validation.Fields.{
  check_date, check_val, check_tag_list, check_sane_range, check_full_count,
}
use opendias.Validation.Fields.Laws.{Given, IsDate, check_date-fault_iff}
use opendias.Validation.Fields.Kinds.{IfGiven, IsOneOf, counts, full_count_iff}
use opendias.Validation.Keys.{PostData, check_keys}
use opendias.Validation.Keys.Laws.{Distinct, KeysFit, check_keys-zero_iff}
use opendias.Validation.Blocks.{Checked, field, doc_filter_block, if_given, doc_filter_rules}
use opendias.Validation.Blocks.Laws.{
  given_or_zero, if_given-ok, given_or_zero-zero_iff, IsSane, check_sane_range-zero_iff, unchecked,
  unchecked_tags, if_given-IsDate_iff,
}
use opendias.Validation.Actions.Checks.{Accepted, two_runs-Accepted}

-- The fields that are tested, in the order of the block.
abbrev pub DocFilterFits : PostData → Type 0
DocFilterFits post =
    Given (IsOneOf counts) (field post (bytes "subaction"))
    × IfGiven IsDate (field post (bytes "startDate"))
    × IfGiven IsDate (field post (bytes "endDate"))
    × IfGiven (IsSane 1 9999) (field post (bytes "page"))
    × IfGiven (IsSane 1 200) (field post (bytes "range"))

module _ (post : PostData) where
  abbrev val : CString → ℕ
  val key = given_or_zero (field post key) (λ d. check_val (some d))

  abbrev date : CString → Exec ℕ
  date key = if_given (field post key) (λ d. check_date (some d))

  abbrev sane : CString → ℕ → ℕ
  sane key high = given_or_zero (field post key) (λ d. check_sane_range d 1 high)

  abbrev tags : ℕ
  tags = given_or_zero (field post (bytes "tags")) (λ d. check_tag_list (some d))

  abbrev keys : ℕ
  keys = check_keys post doc_filter_rules

  abbrev subaction : ℕ
  subaction = check_full_count (field post (bytes "subaction"))

  -- The errors, given those of the two dates.
  abbrev errors : ℕ → ℕ → ℕ
  errors s e =
      0
      + keys
      + subaction
      + val (bytes "textSearch")
      + s
      + e
      + tags
      + val (bytes "isActionRequired")
      + sane (bytes "page") 9999
      + sane (bytes "range") 200
      + val (bytes "sortfield")
      + val (bytes "sortorder")

  -- Only the two dates may fault.
  runs :
      doc_filter_block (post, 0)
      ≡ (date (bytes "startDate") >>= λ s. date (bytes "endDate") >>= λ e. ok (post, errors s e))
  unfolding doc_filter_block
  runs =
      rw
        (
          if_given-ok (field post (bytes "textSearch")) (λ d. check_val (some d)),
          if_given-ok (field post (bytes "tags")) (λ d. check_tag_list (some d)),
          if_given-ok (field post (bytes "isActionRequired")) (λ d. check_val (some d)),
          if_given-ok (field post (bytes "page")) (λ d. check_sane_range d 1 9999),
          if_given-ok (field post (bytes "range")) (λ d. check_sane_range d 1 200),
          if_given-ok (field post (bytes "sortfield")) (λ d. check_val (some d)),
          if_given-ok (field post (bytes "sortorder")) (λ d. check_val (some d)),
        )
        refl

  sane_iff :
      (key : CString) (high : ℕ) → (sane key high ≡ 0) ↔ IfGiven (IsSane 1 high) (field post key)
  sane_iff key high =
      given_or_zero-zero_iff (field post key) (λ d. check_sane_range d 1 high) (IsSane 1 high)
        (λ d. check_sane_range-zero_iff d 1 high)

  abbrev Rest : Type 0
  Rest =
      (keys ≡ 0) × (subaction ≡ 0) × (sane (bytes "page") 9999 ≡ 0) × (sane (bytes "range") 200 ≡ 0)

  errors-zero_iff : (s e : ℕ) → (errors s e ≡ 0) ↔ ((s ≡ 0) × (e ≡ 0) × Rest)
  errors-zero_iff s e = omega (
    arith,
    unchecked (field post (bytes "textSearch")),
    unchecked_tags (field post (bytes "tags")),
    unchecked (field post (bytes "isActionRequired")),
    unchecked (field post (bytes "sortfield")),
    unchecked (field post (bytes "sortorder")),
  )

  pub doc_filter-Accepted :
      Distinct doc_filter_rules
      → Accepted (doc_filter_block (post, 0)) ↔ (KeysFit post doc_filter_rules × DocFilterFits post)
  doc_filter-Accepted d =
      let (to, from) =
        two_runs-Accepted {R = Rest} post (date (bytes "startDate")) (date (bytes "endDate")) errors
          errors-zero_iff in
      let (start, start') = if_given-IsDate_iff (field post (bytes "startDate")) in
      let (end, end') = if_given-IsDate_iff (field post (bytes "endDate")) in
      let (fit, fit') = check_keys-zero_iff post doc_filter_rules d in
      let (action, action') = full_count_iff (field post (bytes "subaction")) in
      let (page, page') = sane_iff (bytes "page") 9999 in
      let (range, range') = sane_iff (bytes "range") 200 in
      rw runs (
        λ a. let (s, e, z) = to a in (fit z.0, (action z.1, start s, end e, page z.2, range z.3)),
        λ h. from (start' h.1.1, end' h.1.2, (fit' h.0, action' h.1.0, page' h.1.3, range' h.1.4)),
      )

-- A date that is given, is not empty and ends before the offset of the day.
abbrev pub IsShortDate : Option CString → Type 0
IsShortDate o = Given (λ v. (v ≢ []) × ¬ (8 ≤ length v)) o

if_given_date-fault_iff :
    (o : Option CString) → (if_given o (λ d. check_date (some d)) ≡ fault) ↔ IsShortDate o
unfolding if_given bytes
if_given_date-fault_iff none = ground arith
if_given_date-fault_iff (some d) = elim (Bool-cases (str_eq d [])) [
  | inl empty ↦
      let nil : d ≡ [] = str_eq_sound d [] empty in rw empty ((λ e. cc), λ h. absurd (h.0 nil))
  | inr given ↦
      let (to, from) = check_date-fault_iff d in
      let ne : d ≢ [] = ground (arith, str_eq_iff d []) in
      rw given ((λ e. (ne, to e)), λ h. from h.1)
]

two_runs-fault_iff :
    (post : PostData) (s e : Exec ℕ) (f : ℕ → ℕ → ℕ)
    → ◌≡◌ {A = Exec Checked} (s >>= λ m. e >>= λ n. ok (post, f m n)) fault
      ↔ ((s ≡ fault) ⊎ (e ≡ fault))
two_runs-fault_iff post (ok m) (ok n) f = ground arith
two_runs-fault_iff post (ok m) fault f = ground arith
two_runs-fault_iff post fault e f = ground arith

pub doc_filter-fault_iff :
    (post : PostData)
    → (doc_filter_block (post, 0) ≡ fault)
      ↔ (IsShortDate (field post (bytes "startDate")) ⊎ IsShortDate (field post (bytes "endDate")))
doc_filter-fault_iff post =
    let (to, from) =
      two_runs-fault_iff post (date post (bytes "startDate")) (date post (bytes "endDate"))
        (errors post) in
    let (start, start') = if_given_date-fault_iff (field post (bytes "startDate")) in
    let (end, end') = if_given_date-fault_iff (field post (bytes "endDate")) in
    rw (runs post) (
      λ e. elim (to e) [ inl s ↦ inl (start s) | inr t ↦ inr (end t) ],
      λ h. elim h [ inl s ↦ from (inl (start' s)) | inr t ↦ from (inr (end' t)) ],
    )
