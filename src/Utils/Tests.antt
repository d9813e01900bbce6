-- ===== src/Utils/Tests.antt =====
-- Runs of the routines on small inputs.
use opendias.Base.{◌≡◌, refl, some, length, arith, [], ◌∷◌}
use opendias.Base.Exec.{ok}
use opendias.Base.CString.{bytes, str_eq, starts_with, strstr}
use opendias.Base.Int.{pos, negsuc}
use opendias.Utils.{replace, put, stops, date_human, two_digits}
use opendias.Utils.Itoa.{ritoa, itoa}
use opendias.Utils.Replace.{replaced, replace-replaced}

replace-dates : replace 10 (bytes "2010/01/31") (bytes "/") b'-' ≡ some (bytes "2010-01-31")
unfolding replace put stops strstr starts_with bytes
replace-dates = refl

itoa-small : itoa (pos 405) ≡ ok (bytes "405")
unfolding itoa ritoa bytes
itoa-small = refl

itoa-negative : itoa (negsuc 6) ≡ ok (bytes "-7")
unfolding itoa ritoa bytes
itoa-negative = refl

date_human-short :
    date_human (bytes "2010") (bytes "1") (bytes "31") (bytes "-") ≡ bytes "2010/01/31"
unfolding date_human two_digits bytes str_eq
date_human-short = refl

-- The document's number without its '#', and what stands behind it.
replace-cut : replace 3 (bytes "7#1") (bytes "#") 0 ≡ some (bytes "7")
unfolding replace put stops strstr starts_with bytes
replace-cut = refl

replace-replaced_example :
    replace (length (bytes "1/2/3")) (bytes "1/2/3") (b'/' ∷ []) b'-'
    ≡ some (replaced b'/' b'-' (bytes "1/2/3"))
replace-replaced_example = replace-replaced b'/' b'-' (bytes "1/2/3") (omega arith) (omega arith)
