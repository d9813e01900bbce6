-- ===== src/Validation/Fields/Uuid.antt =====
-- The form of the identifiers that `checkUUID` accepts.
use mathlib.Core.Path.{subst₂}
use mathlib.Core.Option.{some-injective}
use native.Mathlib.Decide.{ℕ_discrete}
use opendias.Base.{
  ℕ, zero, suc, ◌≡◌, refl, ap, sym, ◌∙◌, ◌<◌, ◌↔◌, inl, inr, Bool, true, false, not, ◌&&◌, ◌||◌,
  Option, none, some, [], ◌∷◌, arith, ◌==◌, leb, if◌then◌else◌, length, Bool-cases,
}
use opendias.Base.CString.{CString, bytes, strstr}
use opendias.Validation.Fields.{uuid_loop, check_uuid, hex, template}

abbrev pub get_elem? : CString → ℕ → Option ℕ
get_elem? [] i = none
get_elem? (c ∷ s) zero = some c
get_elem? (c ∷ s) (suc i) = get_elem? s i

abbrev is_hex : ℕ → Bool
is_hex c = (leb b'0' c && leb c b'9') || (leb b'a' c && leb c b'f') || (leb b'A' c && leb c b'F')

abbrev is_hyphen_position : ℕ → Bool
is_hyphen_position i = i == 8 || i == 13 || i == 18 || i == 23

-- 36 characters: hyphens at 8, 13, 18 and 23, and hexadecimal digits at the other places.
pub record IsUuid (s : CString) : Type 0 where
  pub long : length s ≡ 36
  pub form :
      (i c : ℕ)
      → get_elem? s i ≡ some c
      → (if is_hyphen_position i then c == b'-' else is_hex c) ≡ true

-- The test of one character against one of the template.
abbrev fits : ℕ → ℕ → Bool
fits c t = not (
    (strstr (bytes "-") (t ∷ []) && not (strstr (t ∷ []) (c ∷ [])))
    || (strstr (bytes "h") (t ∷ []) && not (strstr hex (c ∷ []))))

abbrev FitsAt : CString → CString → Type 0
FitsAt s t = (i c k : ℕ) → get_elem? s i ≡ some c → get_elem? t i ≡ some k → fits c k ≡ true

FitsAt-cons : (c t : ℕ) (s ts : CString) → fits c t ≡ true → FitsAt s ts → FitsAt (c ∷ s) (t ∷ ts)
FitsAt-cons c t s ts h rest zero c' k p q =
    subst₂ (λ a b. fits a b ≡ true) (some-injective c c' p) (some-injective t k q) h
FitsAt-cons c t s ts h rest (suc i) c' k p q = rest i c' k p q

uuid_loop-zero_iff : (s t : CString) → (uuid_loop s t ≡ 0) ↔ ((length s ≡ length t) × FitsAt s t)
unfolding uuid_loop
uuid_loop-zero_iff [] [] = ground arith
uuid_loop-zero_iff [] (t ∷ ts) = ground arith
uuid_loop-zero_iff (c ∷ s) [] = ground arith
uuid_loop-zero_iff (c ∷ s) (t ∷ ts) =
    let (to, from) = uuid_loop-zero_iff s ts in
    elim (Bool-cases (fits c t)) [
      | inl h ↦ (
        λ e. let (long, rest) = to (ground arith) in (ap suc long, FitsAt-cons c t s ts h rest),
        λ (long, rest).
            let tail : uuid_loop s ts ≡ 0 = from (omega (arith, long), λ i. rest (suc i)) in
            ground arith,
      )
      | inr bad ↦ ((λ e. absurd (ground arith)), λ (long, rest). cc (bad, rest 0 c t refl refl))
    ]

hex_iff : (c : ℕ) → strstr hex (c ∷ []) ≡ is_hex c
unfolding strstr bytes
hex_iff c = ground arith

fits_hyphen : (c : ℕ) → fits c b'-' ≡ (c == b'-')
unfolding strstr bytes
fits_hyphen c = ground arith

fits_hex : (c : ℕ) → fits c b'h' ≡ is_hex c
unfolding strstr bytes
fits_hex c = ground arith

abbrev expected : ℕ → ℕ
expected i = if is_hyphen_position i then b'-' else b'h'

fits-expected :
    (i c : ℕ) → fits c (expected i) ≡ (if is_hyphen_position i then c == b'-' else is_hex c)
fits-expected i c = elim (Bool-cases (is_hyphen_position i)) [
  | inl h ↦ rw h (fits_hyphen c)
  | inr h ↦ rw h (fits_hex c)
]

holds : Option ℕ → ℕ → Bool
holds none k = false
holds (some c) k = c == k

holds_sound : (o : Option ℕ) (k : ℕ) → holds o k ≡ true → o ≡ some k
unfolding holds
holds_sound o k h = ground arith

template_below : ℕ → Bool
template_below zero = true
template_below (suc n) = holds (get_elem? template n) (expected n) && template_below n

template_table : template_below 36 ≡ true
unfolding template_below holds bytes
template_table = refl

template_below_sound :
    (n i : ℕ) → template_below n ≡ true → i < n → get_elem? template i ≡ some (expected i)
unfolding template_below
template_below_sound zero i h lt = absurd (omega arith)
template_below_sound (suc n) i h lt = elim (ℕ_discrete i n) [
  | yes e ↦ rw e (holds_sound _ _ (ground arith))
  | no ne ↦ template_below_sound n i (ground arith) (omega arith)
]

get_elem?-lt : (s : CString) (i c : ℕ) → get_elem? s i ≡ some c → i < length s
get_elem?-lt [] i c h = cc
get_elem?-lt (d ∷ s) zero c h = omega arith
get_elem?-lt (d ∷ s) (suc i) c h = omega (arith, get_elem?-lt s i c h)

length-template : length template ≡ 36
unfolding bytes
length-template = refl

-- `checkUUID` returns 0 exactly for the textual form of a UUID.
pub check_uuid-zero_iff : (v : CString) → (check_uuid (some v) ≡ 0) ↔ IsUuid v
unfolding check_uuid
check_uuid-zero_iff v =
    let (to, from) = uuid_loop-zero_iff v template in
    (
      λ e.
          let (long, form) = to e in
          record {
            long = long ∙ length-template;
            form = λ i c p. rw (← fits-expected i c) (
                form i c (expected i) p (
                  template_below_sound 36 i template_table
                    (omega (arith, get_elem?-lt v i c p, long, length-template))));
          },
      λ u. from (
        u.long ∙ sym length-template,
        λ i c k p q.
            let at =
              template_below_sound 36 i template_table
                (omega (arith, get_elem?-lt v i c p, u.long)) in
            rw (some-injective k (expected i) (sym q ∙ at), fits-expected i c) (u.form i c p),
      ),
    )
