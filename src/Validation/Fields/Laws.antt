-- ===== src/Validation/Fields/Laws.antt =====
-- What the checks on single values accept.
use opendias.Base.{
  ℕ, ◌≡◌, ap, ◌≢◌, ◌≤◌, ◌↔◌, inl, inr, true, Option, none, some, List, [], ◌∷◌, arith, leb, All,
  Any, Bool-cases, leb_iff, take, drop, length,
}
use opendias.Base.Exec.{ok, fault}
use opendias.Base.CString.{CString, bytes, str_eq_iff, strstr}
use opendias.Base.Int.{pos, ◌≤ℤ◌, atoi}
use opendias.Validation.Fields.{
  check_vitals, int_loop, int_in_range, is_one_of, date_string_to_date_parts, date_part, check_date,
}

-- A value is there and satisfies `P`.
abbrev pub Given : (CString → Type 0) → Option CString → Type 0
Given P none = ⊥
Given P (some v) = P v

abbrev pub IsDigit : ℕ → Type 0
IsDigit c = (b'0' ≤ c) × (c ≤ b'9')

-- Digits only, and a value that `atoi` reads as a number of the range.
abbrev pub InRange : ℕ → ℕ → CString → Type 0
InRange low high s = All IsDigit s × (pos low ≤ℤ atoi s) × (atoi s ≤ℤ pos high)

pub check_vitals-zero_iff : (o : Option CString) → (check_vitals o ≡ 0) ↔ Given (λ v. v ≢ []) o
unfolding check_vitals
check_vitals-zero_iff none = ground arith
check_vitals-zero_iff (some v) = ground (arith, str_eq_iff v [])

IsDigit-iff : (c : ℕ) → (strstr (bytes "0123456789") (c ∷ []) ≡ true) ↔ IsDigit c
unfolding strstr bytes
IsDigit-iff c = ground arith

int_loop-zero_iff : (s : CString) → (int_loop s ≡ 0) ↔ All IsDigit s
unfolding int_loop
int_loop-zero_iff [] = ground arith
int_loop-zero_iff (c ∷ s) = ground (arith, IsDigit-iff c, int_loop-zero_iff s)

pub int_in_range-zero_iff :
    (low high : ℕ) (o : Option CString) → (int_in_range low high o ≡ 0) ↔ Given (InRange low high) o
unfolding int_in_range
int_in_range-zero_iff low high none = ground arith
int_in_range-zero_iff low high (some s) = ground (arith, int_loop-zero_iff s)

pub date_part-zero_iff :
    (s : CString) (low high : ℕ) → (date_part s low high ≡ 0) ↔ InRange low high s
unfolding date_part
date_part-zero_iff s low high = ground (arith, int_loop-zero_iff s)

pub is_one_of_iff :
    (ws : List CString) (v : CString) → (is_one_of ws v ≡ true) ↔ Any (λ w. v ≡ w) ws
unfolding is_one_of
is_one_of_iff [] v = ground arith
is_one_of_iff (w ∷ ws) v = ground (arith, str_eq_iff v w, is_one_of_iff ws v)

-- Year, month and day at their offsets, in range; what stands between and behind them is free.
abbrev pub IsDate : CString → Type 0
IsDate v =
    (8 ≤ length v)
    × InRange 1850 2038 (take 4 v)
    × InRange 1 12 (take 2 (drop 5 v))
    × InRange 1 31 (take 2 (drop 8 v))

-- The check of a date reads out of bounds exactly where the value has fewer than 8 bytes.
pub check_date-fault_iff : (v : CString) → (check_date (some v) ≡ fault) ↔ ¬ (8 ≤ length v)
unfolding check_date date_string_to_date_parts
check_date-fault_iff v = ground arith

-- `checkDate` returns 0 exactly for a value of at least 8 bytes whose year, month and day are digits in
-- their ranges.
pub check_date-zero_iff : (v : CString) → (check_date (some v) ≡ ok 0) ↔ IsDate v
unfolding check_date date_string_to_date_parts
check_date-zero_iff v =
    let (y, y') = date_part-zero_iff (take 4 v) 1850 2038 in
    let (m, m') = date_part-zero_iff (take 2 (drop 5 v)) 1 12 in
    let (d, d') = date_part-zero_iff (take 2 (drop 8 v)) 1 31 in
    elim (Bool-cases (leb 8 (length v))) [
      | inl long ↦ rw long (
        λ e. ((leb_iff _ _).0 long, y (ground arith), m (ground arith), d (ground arith)),
        λ h. ap ok (omega (arith, y' h.1, m' h.2, d' h.3)),
      )
      | inr short ↦ rw short ((λ e. cc), λ h. absurd (ground arith))
    ]
