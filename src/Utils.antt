-- ===== src/Utils.antt =====
-- src/utils.c: `dateHuman` and `replace`.
pub mod Replace
pub mod Itoa
mod Tests
use opendias.Base.{
  ℕ, zero, suc, Bool, true, false, ◌&&◌, not, Option, none, some, [], ◌∷◌, ◌++◌, if◌then◌else◌,
  length, ◌==◌,
}
use opendias.Base.CString.{CString, bytes, str_eq, strstr}

-- A part of a date of one digit gets a zero in front.
unfoldable pub two_digits : CString → CString
unfolding bytes
two_digits s = if length s == 1 then bytes "0" ++ s else s

unfoldable pub date_human : (a b c no_date_set : CString) → CString
unfolding bytes
date_human a b c no_date_set =
    if not (str_eq a (bytes "NULL"))
      && (not (str_eq b (bytes "NULL")) && not (str_eq c (bytes "NULL")))
    then a ++ (bytes "/" ++ (two_digits b ++ (bytes "/" ++ two_digits c)))
    else no_date_set

-- Whether `strcspn` stops at the byte.
unfoldable pub stops : CString → ℕ → Bool
stops [] c = false
stops (f ∷ find) c = if f == c then true else stops find c

-- `inStr[strcspn(inStr, findStr)] = *replaceStr`, for a string in which `strcspn` stops; the byte of an
-- empty `replaceStr` is NUL, which ends the string there.
unfoldable pub put : (in_str find_str : CString) (byte : ℕ) → CString
put [] find_str byte = []
put (c ∷ s) find_str byte =
    if stops find_str c then if byte == 0 then [] else byte ∷ s else c ∷ put s find_str byte

-- The loop of `replace`; `none` where it does not end within so many rounds.
unfoldable pub replace : (rounds : ℕ) (in_str find_str : CString) (byte : ℕ) → Option CString
replace zero in_str find_str byte = if strstr in_str find_str then none else some in_str
replace (suc rounds) in_str find_str byte =
    let rest = replace rounds (put in_str find_str byte) find_str byte in
    if strstr in_str find_str then rest else some in_str
