-- ===== src/Base/CString.antt =====
-- C strings as lists of bytes without the closing NUL, and the parts of <string.h> and <ctype.h>
-- that the program uses, in the C locale.
use Prim.Native.Char.{code}
use Prim.Native.String.{String}
use Prim.Native.Nat.{ℕ, ◌+◌, ◌-◌}
use mathlib.Core.Path.{◌≡◌, refl}
use mathlib.Core.Logic.{◌↔◌, ◌≢◌}
use mathlib.Core.Bool.{Bool, true, false, ◌&&◌, ◌||◌}
use mathlib.Core.List.{List, [], ◌∷◌, ◌++◌}
use native.Mathlib.Omega.{arith}
use opendias.Base.Tests.{leb, ◌==◌, if◌then◌else◌}

abbrev pub CString : Type 0
CString = List ℕ

-- A string literal of the source, in ASCII.
unfoldable pub bytes : String → CString
bytes String.[] = []
bytes (String.◌∷◌ c s) = code c ∷ bytes s

-- `0 == strcmp(a, b)`
unfoldable pub str_eq : CString → CString → Bool
str_eq [] [] = true
str_eq (a ∷ s) (b ∷ t) = (a == b) && str_eq s t
str_eq _ _ = false

pub str_eq_sound : (s t : CString) → str_eq s t ≡ true → s ≡ t
unfolding str_eq
str_eq_sound [] [] h = refl
str_eq_sound [] (b ∷ t) h = cc
str_eq_sound (a ∷ s) [] h = cc
str_eq_sound (a ∷ s) (b ∷ t) h = ground (arith, str_eq_sound s t)

pub str_eq_refl : (s : CString) → str_eq s s ≡ true
unfolding str_eq
str_eq_refl [] = refl
str_eq_refl (a ∷ s) = ground (arith, str_eq_refl s)

pub str_eq_iff : (s t : CString) → (str_eq s t ≡ true) ↔ (s ≡ t)
str_eq_iff s t = (str_eq_sound s t, λ e. rw e (str_eq_refl t))

pub differ : (s t : CString) → str_eq s t ≡ false → s ≢ t
differ s t n e = absurd (ground (arith, n, str_eq_iff s t, e))

-- How often the byte is in the string.
unfoldable pub count : ℕ → CString → ℕ
count f [] = 0
count f (c ∷ s) = (if f == c then 1 else 0) + count f s

pub count-append : (f : ℕ) (s t : CString) → count f (s ++ t) ≡ count f s + count f t
unfolding count
count-append f [] t = omega arith
count-append f (c ∷ s) t = omega (arith, count-append f s t)

-- `0 == strncmp(s, prefix, strlen(prefix))`
unfoldable pub starts_with : CString → CString → Bool
starts_with s [] = true
starts_with [] (b ∷ t) = false
starts_with (a ∷ s) (b ∷ t) = (a == b) && starts_with s t

-- `0 != strstr(haystack, needle)`
unfoldable pub strstr : CString → CString → Bool
unfolding starts_with
strstr [] needle = starts_with [] needle
strstr (c ∷ s) needle = starts_with (c ∷ s) needle || strstr s needle

abbrev pub isspace : ℕ → Bool
isspace c = c == 32 || (leb 9 c && leb c 13)

abbrev pub isdigit : ℕ → Bool
isdigit c = leb b'0' c && leb c b'9'

unfoldable pub tolower : ℕ → ℕ
tolower c = if leb b'A' c && leb c b'Z' then c + 32 else c

unfoldable pub toupper : ℕ → ℕ
toupper c = if leb b'a' c && leb c b'z' then c - 32 else c
