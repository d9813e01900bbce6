-- ===== src/Utils/Replace.antt =====
-- `replace` of one byte by another.
use opendias.Base.{
  ℕ, zero, suc, ◌≤◌, ◌≡◌, refl, ap, ◌∙◌, ◌≢◌, true, false, some, [], ◌∷◌, map, if◌then◌else◌,
  length, ◌==◌, ==_iff, arith, Bool-cases, inl, inr,
}
use opendias.Base.CString.{CString, count, strstr, starts_with}
use opendias.Utils.{stops, put, replace}

unfoldable pub swap : (f r c : ℕ) → ℕ
swap f r c = if f == c then r else c

strstr-byte : (f : ℕ) (s : CString) → strstr s (f ∷ []) ≡ false → count f s ≡ 0
unfolding strstr starts_with count
strstr-byte f [] h = refl
strstr-byte f (c ∷ s) h = ground (arith, strstr-byte f s, ==_iff f c, ==_iff c f)

count-strstr : (f : ℕ) (s : CString) → count f s ≡ 0 → strstr s (f ∷ []) ≡ false
unfolding strstr starts_with count
count-strstr f [] h = refl
count-strstr f (c ∷ s) h = ground (arith, count-strstr f s, ==_iff f c, ==_iff c f)

strstr-count : (f : ℕ) (s : CString) → strstr s (f ∷ []) ≡ true → count f s ≢ 0
strstr-count f s h z = absurd (ground (arith, count-strstr f s z, h))

==-other : (f r : ℕ) → f ≢ r → (f == r) ≡ false
==-other f r d = ground (arith, ==_iff f r)

map-unmoved : (f r : ℕ) (s : CString) → count f s ≡ 0 → map (swap f r) s ≡ s
unfolding count swap
map-unmoved f r [] h = refl
map-unmoved f r (c ∷ s) h = elim (Bool-cases (f == c)) [
  | inl y ↦ absurd (ground (arith, h, y))
  | inr n ↦ rw (n, map-unmoved f r s (ground (arith, h, n))) refl
]

-- The bytes in front of the first `f`.
unfoldable pub before : (f : ℕ) → CString → CString
before f [] = []
before f (c ∷ s) = if f == c then [] else c ∷ before f s

-- What is meant: an empty replacement cuts the string, any other takes the place of each `f`.
unfoldable pub replaced : (f r : ℕ) → CString → CString
replaced f r s = if r == 0 then before f s else map (swap f r) s

count-before : (f : ℕ) (s : CString) → count f (before f s) ≡ 0
unfolding count before
count-before f [] = refl
count-before f (c ∷ s) = elim (Bool-cases (f == c)) [
  | inl y ↦ rw y refl
  | inr n ↦ rw (n, n) (omega (arith, count-before f s))
]

before-unmoved : (f : ℕ) (s : CString) → count f s ≡ 0 → before f s ≡ s
unfolding count before
before-unmoved f [] h = refl
before-unmoved f (c ∷ s) h = elim (Bool-cases (f == c)) [
  | inl y ↦ absurd (ground (arith, h, y))
  | inr n ↦ rw n (ap (λ t. c ∷ t) (before-unmoved f s (ground (arith, h, n))))
]

put-cut : (f : ℕ) (s : CString) → put s (f ∷ []) 0 ≡ before f s
unfolding put stops before
put-cut f [] = refl
put-cut f (c ∷ s) = elim (Bool-cases (f == c)) [
  | inl y ↦ rw y refl
  | inr n ↦ rw n (ap (λ t. c ∷ t) (put-cut f s))
]

replaced-unmoved : (f r : ℕ) (s : CString) → count f s ≡ 0 → replaced f r s ≡ s
unfolding replaced
replaced-unmoved f r s h = elim (Bool-cases (r == 0)) [
  | inl y ↦ rw y (before-unmoved f s h)
  | inr n ↦ rw n (map-unmoved f r s h)
]

count-put :
    (f r : ℕ) (s : CString)
    → f ≢ r
    → (r == 0) ≡ false
    → count f s ≢ 0
    → suc (count f (put s (f ∷ []) r)) ≡ count f s
unfolding count put stops
count-put f r [] d z h = absurd (h refl)
count-put f r (c ∷ s) d z h = elim (Bool-cases (f == c)) [
  | inl y ↦ rw (y, z, ==-other f r d) (omega arith)
  | inr n ↦ rw n (ground (arith, h, n, count-put f r s d z))
]

map-put :
    (f r : ℕ) (s : CString)
    → f ≢ r
    → (r == 0) ≡ false
    → map (swap f r) (put s (f ∷ []) r) ≡ map (swap f r) s
unfolding put stops swap
map-put f r [] d z = refl
map-put f r (c ∷ s) d z = elim (Bool-cases (f == c)) [
  | inl y ↦ rw (y, z, ==-other f r d) refl
  | inr n ↦ rw n (rw n (ap (λ t. c ∷ t) (map-put f r s d z)))
]

-- A round leaves fewer of the byte, and the same to do.
round :
    (f r : ℕ) (s : CString)
    → f ≢ r
    → count f s ≢ 0
    → (suc (count f (put s (f ∷ []) r)) ≤ count f s)
      × (replaced f r (put s (f ∷ []) r) ≡ replaced f r s)
unfolding replaced
round f r s d h = elim (Bool-cases (r == 0)) [
  | inl y ↦
      let cut : put s (f ∷ []) r ≡ before f s =
        ap (put s (f ∷ [])) ((==_iff r 0).0 y) ∙ put-cut f s in
      let few : count f (put s (f ∷ []) r) ≡ 0 = rw cut (count-before f s) in
      (omega arith, rw (y, cut) (before-unmoved f (before f s) (count-before f s)))
  | inr n ↦ (omega (arith, count-put f r s d n h), rw n (map-put f r s d n))
]

replace-count :
    (f r : ℕ) (rounds : ℕ) (s : CString)
    → f ≢ r
    → count f s ≤ rounds
    → replace rounds s (f ∷ []) r ≡ some (replaced f r s)
unfolding replace
replace-count f r zero s d le =
    let none_left : count f s ≡ 0 = omega arith in
    rw (count-strstr f s none_left, replaced-unmoved f r s none_left) refl
replace-count f r (suc rounds) s d le = elim (Bool-cases (strstr s (f ∷ []))) [
  | inl y ↦
      let (few, same) = round f r s d (strstr-count f s y) in
      rw y (replace-count f r rounds (put s (f ∷ []) r) d (omega arith) ∙ ap (λ t. some t) same)
  | inr n ↦ rw (n, replaced-unmoved f r s (strstr-byte f s n)) refl
]

count-length : (f : ℕ) (s : CString) → count f s ≤ length s
unfolding count
count-length f [] = omega arith
count-length f (c ∷ s) = ground (arith, count-length f s)

-- The loop for one byte, which is not NUL, ends in as many rounds as the string has bytes. With an empty
-- replacement, whose byte is NUL, the string is then cut in front of the first such byte. With any other
-- replacement, of another byte, each such byte is replaced and the rest is as before.
pub replace-replaced :
    (f r : ℕ) (s : CString)
    → f ≢ 0
    → f ≢ r
    → replace (length s) s (f ∷ []) r ≡ some (replaced f r s)
replace-replaced f r s _ d = replace-count f r (length s) s d (count-length f s)
