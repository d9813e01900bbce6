-- ===== src/Localisation/Tests.antt =====
-- Runs of the localisation, and the theorem at a site with two languages.
use opendias.Base.{
  ◌≡◌, refl, inl, inr, Bool-cases, Option, none, some, List, [], ◌∷◌, if◌then◌else◌,
}
use opendias.Base.Exec.{ok, fault}
use opendias.Base.CString.{CString, bytes, str_eq}
use opendias.LinkedList.{element, Sll, sll_init, sll_insert}
use opendias.Localisation.{
  chop, split_bar, skip_bars, is_ended, add_entry, add_line, add_lines, load_lang_list, get_string,
}
use opendias.Localisation.Cache.{
  IsLoaded, IsCache, new-IsEntry, translation, get_string-translation,
}

-- English has two texts, German one of them; the other languages have no file.
abbrev resource : CString → Option (List CString)
resource lang =
    if str_eq lang (bytes "en")
    then some (bytes "# texts\n" ∷ bytes "hello|Hello\n" ∷ bytes "bye|Bye\n" ∷ [])
    else if str_eq lang (bytes "de")
    then some (bytes "hello|Hallo" ∷ [])
    else none

abbrev texts : CString → Option (Sll CString)
texts lang =
    if str_eq lang (bytes "en")
    then some (
        element (some (bytes "hello")) (some (bytes "Hello"))
        ∷ element (some (bytes "bye")) (some (bytes "Bye"))
        ∷ [])
    else if str_eq lang (bytes "de")
    then some (element (some (bytes "hello")) (some (bytes "Hallo")) ∷ [])
    else none

loaded : IsLoaded resource texts
unfolding load_lang_list add_lines add_line is_ended chop split_bar skip_bars add_entry sll_insert
    bytes
loaded lang = elim (Bool-cases (str_eq lang (bytes "en"))) [
  | inl english ↦ rw english refl
  | inr other ↦ elim (Bool-cases (str_eq lang (bytes "de"))) [
    | inl german ↦ rw (other, german) refl
    | inr none_there ↦ rw (other, none_there) refl
  ]
]

-- A line without a bar has an empty text, but at the end of a file without a newline it is read past
-- its end.
no_bar_run :
    add_lines (bytes "hello\n" ∷ []) sll_init ≡ ok (element (some (bytes "hello")) (some []) ∷ [])
unfolding add_lines add_line is_ended chop split_bar skip_bars add_entry sll_insert bytes
no_bar_run = refl

no_bar_at_end : add_lines (bytes "hello" ∷ []) sll_init ≡ fault
unfolding add_lines add_line is_ended chop split_bar skip_bars add_entry bytes
no_bar_at_end = refl

-- English was loaded at the start.
abbrev started : Sll (Sll CString)
started = element (some (bytes "en")) (texts (bytes "en")) ∷ []

get_string-translation_example :
    (langs : Sll (Sll CString)) × (get_string resource started (bytes "bye") (bytes "de")
      ≡ ok (langs, translation resource texts (bytes "bye") (bytes "de")))
    × IsCache resource texts langs
get_string-translation_example =
    get_string-translation resource texts loaded started (bytes "bye") (bytes "de")
      (new-IsEntry resource texts (bytes "en"), tt)
