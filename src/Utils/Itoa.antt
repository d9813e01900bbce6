-- ===== src/Utils/Itoa.antt =====
-- `itoa` and `ritoa` of src/utils.c, for the base 10.
use opendias.Base.{
  ℕ, zero, suc, ◌+◌, ◌/◌, ◌%◌, ◌<◌, ◌≡◌, refl, [], ◌∷◌, if◌then◌else◌, ltb, arith, Bool-cases, inl,
  inr,
}
use opendias.Base.Exec.{Exec, ok, fault, ◌>>=◌}
use opendias.Base.CString.{CString}
use opendias.Base.Int.{ℤ, pos, negsuc}

-- The digits that a call writes, and the number that it returns; a recursion that is deeper than the
-- rounds counts as a fault.
unfoldable pub ritoa : (rounds val topval : ℕ) → Exec (CString × ℕ)
ritoa zero val topval = fault
ritoa (suc rounds) val topval =
    let deeper = ritoa rounds (val / 10) topval in
    if ltb 0 (val / 10)
    then (do (digits, t) ← deeper; ok ((b'0' + t % 10) ∷ digits, t / 10))
    else ok ((b'0' + topval % 10) ∷ [], topval / 10)

unfoldable pub itoa : ℤ → Exec CString
itoa (pos n) = do (digits, t) ← ritoa (suc n) n n; ok digits
itoa (negsuc n) = do (digits, t) ← ritoa (suc (suc n)) (suc n) (suc n); ok (b'-' ∷ digits)

pub ritoa-Returns :
    (rounds val topval : ℕ)
    → val < rounds
    → (digits : CString) × (t : ℕ) × (ritoa rounds val topval ≡ ok (digits, t))
unfolding ritoa
ritoa-Returns zero val topval h = absurd (omega arith)
ritoa-Returns (suc rounds) val topval h = elim (Bool-cases (ltb 0 (val / 10))) [
  | inl y ↦
      let (digits, t, e) = ritoa-Returns rounds (val / 10) topval (ground (arith, y, h)) in
      ((b'0' + t % 10) ∷ digits, t / 10, rw (y, e) refl)
  | inr n ↦ ((b'0' + topval % 10) ∷ [], topval / 10, rw n refl)
]

-- `itoa` comes to an end for every number.
pub itoa-Returns : (z : ℤ) → (digits : CString) × (itoa z ≡ ok digits)
unfolding itoa
itoa-Returns (pos n) =
    let (digits, t, e) = ritoa-Returns (suc n) n n (omega arith) in (digits, rw e refl)
itoa-Returns (negsuc n) =
    let (digits, t, e) = ritoa-Returns (suc (suc n)) (suc n) (suc n) (omega arith) in
    (b'-' ∷ digits, rw e refl)
