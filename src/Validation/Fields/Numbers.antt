-- ===== src/Validation/Fields/Numbers.antt =====
-- The numbers that a string of digits may spell, and those that `atoi` makes of them.
use opendias.Base.{
  ℕ, ◌+◌, ◌-◌, ◌*◌, ◌%◌, ◌^◌, min, ◌≡◌, refl, ◌≤◌, ◌<◌, ◌↔◌, true, some, [], ◌∷◌, arith, All,
  length,
}
use native.Mathlib.Nat.{pow-suc, pow-le-pow_right, min-eq_left}
use opendias.Base.CString.{CString, isdigit}
use opendias.Base.Int.{pos, ◌≤ℤ◌, atoi, digits_value, skip_space, to_int32}
use opendias.Validation.Fields.{int_in_range, check_doc_id}
use opendias.Validation.Fields.Laws.{IsDigit, int_in_range-zero_iff}

-- The number that a string of digits spells.
pub decimal : CString → ℕ
decimal [] = 0
decimal (c ∷ s) = (c - b'0') * 10 ^ length s + decimal s

isdigit_of_IsDigit : (c : ℕ) → IsDigit c → isdigit c ≡ true
isdigit_of_IsDigit c h = ground arith

digits_value-decimal :
    (acc : ℕ) (s : CString) → All IsDigit s → digits_value acc s ≡ acc * 10 ^ length s + decimal s
unfolding digits_value decimal
digits_value-decimal acc [] h = omega arith
digits_value-decimal acc (c ∷ s) h =
    rw (isdigit_of_IsDigit c h.0, pow-suc)
      (omega (arith, digits_value-decimal (acc * 10 + (c - b'0')) s h.1))

skip_space-digits : (s : CString) → All IsDigit s → skip_space s ≡ s
unfolding skip_space
skip_space-digits [] h = refl
skip_space-digits (c ∷ s) h = ground arith

atoi-nil : atoi [] ≡ to_int32 (min (decimal []) (2 ^ 63 - 1))
unfolding atoi decimal to_int32
atoi-nil = refl

-- On digits `atoi` stops at LONG_MAX and keeps the low 32 bits.
pub atoi-digits : (s : CString) → All IsDigit s → atoi s ≡ to_int32 (min (decimal s) (2 ^ 63 - 1))
unfolding atoi
atoi-digits [] h = atoi-nil
atoi-digits (c ∷ s) h = ground (arith, digits_value-decimal 0 (c ∷ s) h)

to_int32-small : (n : ℕ) → n < 2 ^ 31 → to_int32 n ≡ pos n
unfolding to_int32
to_int32-small n h = ground arith

to_int32_range :
    (n high : ℕ)
    → high < 2 ^ 31
    → (pos 0 ≤ℤ to_int32 n) × (to_int32 n ≤ℤ pos high) ↔ (n % 2 ^ 32 ≤ high)
unfolding to_int32
to_int32_range n high h = ground arith

-- A document id is accepted exactly if it is all digits and the low 32 bits of its number, which
-- stops at LONG_MAX, are at most 9999999.
pub check_doc_id-zero_iff :
    (v : CString)
    → (check_doc_id (some v) ≡ 0)
      ↔ (All IsDigit v × (min (decimal v) (2 ^ 63 - 1) % 2 ^ 32 ≤ 9999999))
unfolding check_doc_id
check_doc_id-zero_iff v =
    let (to, from) = int_in_range-zero_iff 0 9999999 (some v) in
    let (small, fits) = to_int32_range (min (decimal v) (2 ^ 63 - 1)) 9999999 (omega arith) in
    (
      λ e.
          let (digits, low, high) = to e in
          (digits, small (rw (atoi-digits v digits) at low, rw (atoi-digits v digits) at high)),
      λ h.
          let (low, high) = fits h.1 in
          from (h.0, rw (atoi-digits v h.0) low, rw (atoi-digits v h.0) high),
    )

decimal-lt : (s : CString) → All IsDigit s → decimal s < 10 ^ length s
unfolding decimal
decimal-lt [] h = omega arith
decimal-lt (c ∷ s) h = rw pow-suc (grind (arith, decimal-lt s h.1, h.0))

-- Nine digits do not overflow.
atoi-short : (s : CString) → All IsDigit s → length s ≤ 9 → atoi s ≡ pos (decimal s)
atoi-short s h short =
    let small : decimal s < 2 ^ 31 =
      omega (arith, decimal-lt s h, pow-le-pow_right {n = 10} (omega arith) short) in
    let bounded : decimal s ≤ 2 ^ 63 - 1 = omega arith in
    rw (atoi-digits s h, min-eq_left {m = 2 ^ 63 - 1} bounded) (to_int32-small (decimal s) small)

-- Of at most nine digits exactly the numbers of the range are accepted.
pub int_in_range-short_iff :
    (low high : ℕ) (v : CString)
    → length v ≤ 9
    → (int_in_range low high (some v) ≡ 0)
      ↔ (All IsDigit v × (low ≤ decimal v) × (decimal v ≤ high))
int_in_range-short_iff low high v short =
    let (to, from) = int_in_range-zero_iff low high (some v) in
    (
      λ e.
          let (digits, below, above) = to e in
          let same = atoi-short v digits short in
          let low' : pos low ≤ℤ pos (decimal v) = rw same at below in
          let high' : pos (decimal v) ≤ℤ pos high = rw same at above in
          (digits, omega arith, omega arith),
      λ h.
          let same = atoi-short v h.0 short in
          from (h.0, rw same (omega (arith, h.1)), rw same (omega (arith, h.2))),
    )
