-- ===== src/WebHandler/Language.antt =====
-- `userLanguage` of src/web_handler.c: the language of a cookie or of the header Accept-Language.
use opendias.Base.{
  ℕ, ◌≡◌, refl, ◌⊎◌, inl, inr, Bool, ◌||◌, Option, none, some, List, [], ◌∷◌, ◌++◌, if◌then◌else◌,
  ◌==◌, arith, Bool-cases, All, ==_iff,
}
use opendias.Base.CString.{CString, bytes, str_eq}
use opendias.Validation.Fields.{validate_language, is_one_of}

abbrev pub is_delimiter : ℕ → Bool
is_delimiter c = c == b',' || c == b' '

emit : CString → List CString → List CString
emit [] tokens = tokens
emit (c ∷ s) tokens = (c ∷ s) ∷ tokens

-- The tokens that `strtok(s, ", ")` gives, with the bytes of the token before `s`.
tokens_from : CString → CString → List CString
unfolding emit
tokens_from token [] = emit token []
tokens_from token (c ∷ s) =
    if is_delimiter c then emit token (tokens_from [] s) else tokens_from (token ++ c ∷ []) s

unfoldable pub tokens : CString → List CString
unfolding tokens_from
tokens s = tokens_from [] s

-- A token less its quality, which a semicolon starts.
unfoldable pub without_quality : CString → CString
without_quality [] = []
without_quality (c ∷ s) = if c == b';' then [] else c ∷ without_quality s

-- The first language that is available.
unfoldable pub header_language : List CString → CString
unfolding bytes
header_language [] = bytes "en"
header_language (t ∷ ts) =
    if validate_language (without_quality t) == 1 then without_quality t else header_language ts

unfoldable pub language_from_header : Option CString → CString
unfolding bytes
language_from_header none = bytes "en"
language_from_header (some header) = header_language (tokens header)

unfoldable pub user_language : (cookie header : Option CString) → CString
user_language none header = language_from_header header
user_language (some cookie) header =
    if validate_language cookie == 0 then language_from_header header else cookie

english : validate_language (bytes "en") ≡ 1
unfolding validate_language is_one_of str_eq bytes
english = refl

header_language-available : (ts : List CString) → validate_language (header_language ts) ≡ 1
unfolding header_language
header_language-available [] = english
header_language-available (t ∷ ts) =
    elim (Bool-cases (validate_language (without_quality t) == 1)) [
      | inl good ↦ rw good ((==_iff _ _).0 good)
      | inr bad ↦ rw bad (header_language-available ts)
    ]

language_from_header-available :
    (h : Option CString) → validate_language (language_from_header h) ≡ 1
unfolding language_from_header
language_from_header-available none = english
language_from_header-available (some h) = header_language-available (tokens h)

validate_language-le : (v : CString) → (validate_language v ≡ 0) ⊎ (validate_language v ≡ 1)
unfolding validate_language
validate_language-le v = ground arith

-- Whatever cookie and header a request has, its language is one of those that `validateLanguage`
-- accepts.
pub user_language-available :
    (cookie header : Option CString) → validate_language (user_language cookie header) ≡ 1
unfolding user_language
user_language-available none header = language_from_header-available header
user_language-available (some cookie) header = elim (validate_language-le cookie) [
  | inl bad ↦ rw bad (language_from_header-available header)
  | inr good ↦ rw good good
]

-- Of the languages of the header the first one that is available is taken, without its quality.
pub header_language-head :
    (before after : List CString) (t : CString)
    → All (λ s. validate_language (without_quality s) ≡ 0) before
    → validate_language (without_quality t) ≡ 1
    → header_language (before ++ t ∷ after) ≡ without_quality t
unfolding header_language
header_language-head [] after t b good = rw good refl
header_language-head (s ∷ before) after t b good =
    rw (b.0) (header_language-head before after t b.1 good)
