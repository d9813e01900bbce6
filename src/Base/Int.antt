-- ===== src/Base/Int.antt =====
-- Signed integers, and the conversion of text to an `int`.
use Prim.Native.Nat.{ℕ, suc, ◌+◌, ◌-◌, ◌*◌, ◌%◌, ◌^◌, ◌≤◌, min}
use mathlib.Core.Bool.{Bool, false}
use mathlib.Core.List.{[], ◌∷◌}
use opendias.Base.Tests.{ltb, leb, ◌==◌, if◌then◌else◌}
use opendias.Base.CString.{CString, isspace, isdigit}

-- `negsuc n` is -(n + 1).
pub data ℤ : Type 0 where
  pos : ℕ → ℤ
  negsuc : ℕ → ℤ

abbrev pub pos_part : ℤ → ℕ
pos_part (pos n) = n
pos_part (negsuc n) = 0

abbrev pub neg_part : ℤ → ℕ
neg_part (pos n) = 0
neg_part (negsuc n) = suc n

infix 50 ◌≤ℤ◌
abbrev pub ◌≤ℤ◌ : ℤ → ℤ → Type 0
a ≤ℤ b = pos_part a + neg_part b ≤ pos_part b + neg_part a

abbrev pub is_zero : ℤ → Bool
is_zero (pos n) = n == 0
is_zero (negsuc n) = false

abbrev pub leb_ℤ : ℤ → ℤ → Bool
leb_ℤ a b = leb (pos_part a + neg_part b) (pos_part b + neg_part a)

-- The value of the `int` with the bits of `n`: a conversion from `long` keeps the low 32 bits.
unfoldable pub to_int32 : ℕ → ℤ
to_int32 n =
    if ltb (n % 2 ^ 32) (2 ^ 31) then pos (n % 2 ^ 32) else negsuc (2 ^ 32 - n % 2 ^ 32 - 1)

-- The number that the leading digits spell.
unfoldable pub digits_value : ℕ → CString → ℕ
digits_value acc [] = acc
digits_value acc (c ∷ s) = if isdigit c then digits_value (acc * 10 + (c - b'0')) s else acc

unfoldable pub skip_space : CString → CString
skip_space [] = []
skip_space (c ∷ s) = if isspace c then skip_space s else c ∷ s

-- `(int) strtol(s, NULL, 10)` after the white space: `strtol` stops at LONG_MAX and LONG_MIN.
unfoldable pub signed_value : CString → ℤ
signed_value [] = pos 0
signed_value (c ∷ s) =
    if c == b'-'
    then to_int32 (2 ^ 64 - min (digits_value 0 s) (2 ^ 63))
    else if c == b'+'
    then to_int32 (min (digits_value 0 s) (2 ^ 63 - 1))
    else to_int32 (min (digits_value 0 (c ∷ s)) (2 ^ 63 - 1))

-- `atoi` as glibc has it where `long` has 64 bits.
unfoldable pub atoi : CString → ℤ
unfolding signed_value skip_space
atoi s = signed_value (skip_space s)

-- The bits of an `int`.
unfoldable pub bits32 : ℤ → ℕ
bits32 (pos n) = n % 2 ^ 32
bits32 (negsuc n) = 2 ^ 32 - 1 - n % 2 ^ 32
