-- ===== src/Localisation.antt =====
-- src/localisation.c: the texts of the program in the languages of its resource files. The state is
-- the list of the languages that are loaded, `langList`; the lines of a resource file are an
-- argument.
pub mod Cache
mod Tests
use opendias.Base.{
  ℕ, ◌≡◌, Bool, true, false, Option, none, some, List, [], ◌∷◌, if◌then◌else◌, ◌==◌,
}
use opendias.Base.Exec.{Exec, ok, fault, ◌>>=◌}
use opendias.Base.CString.{CString, bytes, str_eq}
use opendias.LinkedList.{Element, Sll, sll_init, sll_insert, sll_search_keys}

-- `chop`: the line up to its first newline.
unfoldable pub chop : CString → CString
chop [] = []
chop (c ∷ s) = if c == b'\n' then [] else c ∷ chop s

-- The bytes up to a bar, and those behind it where there is one.
unfoldable pub split_bar : CString → CString × Option CString
split_bar [] = ([], none)
split_bar (c ∷ s) =
    let (key, rest) = split_bar s in if c == b'|' then ([], some s) else (c ∷ key, rest)

-- `strtok` passes the bars at the start.
unfoldable pub skip_bars : CString → CString
skip_bars [] = []
skip_bars (c ∷ s) = let rest = skip_bars s in if c == b'|' then rest else c ∷ s

-- Whether the line ends in a newline, which the last one of a file need not.
unfoldable pub is_ended : CString → Bool
is_ended [] = false
is_ended (c ∷ s) = if c == b'\n' then true else is_ended s

-- Behind a key without a bar stands the NUL that was the newline, and behind that the NUL of
-- `getline`: the text is empty. Behind a key that ends the file, what `getline` has not written is read.
unfoldable pub add_entry :
    (ended : Bool) → CString × Option CString → Sll CString → Exec (Sll CString)
add_entry true (key, none) entries = ok (sll_insert entries (some key) (some []))
add_entry false (key, none) entries = fault
add_entry ended (key, some value) entries = ok (sll_insert entries (some key) (some value))

-- A line, chopped: a comment, a blank, or a key and its text.
unfoldable pub add_line : (ended : Bool) → CString → Sll CString → Exec (Sll CString)
add_line ended [] entries = ok entries
add_line ended (c ∷ s) entries = if c == b'#' then ok entries else (elim (skip_bars (c ∷ s)) [
  | [] ↦ ok entries
  | d ∷ t ↦ add_entry ended (split_bar (d ∷ t)) entries
])

unfoldable pub add_lines : List CString → Sll CString → Exec (Sll CString)
add_lines [] entries = ok entries
add_lines (line ∷ lines) entries = do
  entries' ← add_line (is_ended line) (chop line) entries
  add_lines lines entries'

module _ (resource : CString → Option (List CString)) where
  load_lines : Option (List CString) → Exec (Option (Sll CString))
  load_lines none = ok none
  load_lines (some lines) = do entries ← add_lines lines sll_init; ok (some entries)

  -- NULL where the language has no file.
  unfoldable pub load_lang_list : CString → Exec (Option (Sll CString))
  unfolding load_lines
  load_lang_list lang = load_lines (resource lang)

  abbrev pub LangList : Type 0
  LangList = Sll (Sll CString)

  unfoldable pub locale_init : CString → Exec LangList
  locale_init lang = do entries ← load_lang_list lang; ok (sll_insert sll_init (some lang) entries)

  unfoldable pub data_of : {V : Type 0} → Option (Element V) → Option V
  data_of none = none
  data_of (some e) = e.value

  fetched : LangList → CString → Option (Sll CString) → Exec (LangList × Option (Sll CString))
  fetched langs lang none = do
    entries ← load_lang_list lang
    ok (sll_insert langs (some lang) entries, entries)
  fetched langs lang (some entries) = ok (langs, some entries)

  -- The texts of a language, which are loaded where they are not there.
  unfoldable pub keys_list : LangList → CString → Exec (LangList × Option (Sll CString))
  unfolding fetched
  keys_list langs lang = fetched langs lang (data_of (sll_search_keys langs (some lang)))

  -- The text for a phrase in a list of texts, which may be NULL.
  unfoldable pub phrase_in : Option (Sll CString) → CString → Option CString
  phrase_in none phrase = none
  phrase_in (some entries) phrase = data_of (sll_search_keys entries (some phrase))

  -- One round of `getString`, which calls itself at most once, for English.
  unfoldable pub look_up : LangList → CString → CString → Exec (LangList × Option CString)
  look_up langs phrase lang = do
    (langs', entries) ← keys_list langs lang
    ok (langs', phrase_in entries phrase)

  abbrev or_phrase : CString → LangList × Option CString → LangList × CString
  or_phrase phrase (langs, none) = (langs, phrase)
  or_phrase phrase (langs, some found) = (langs, found)

  abbrev or_english : CString → CString → LangList × Option CString → Exec (LangList × CString)
  or_english phrase lang (langs, some found) = ok (langs, found)
  or_english phrase lang (langs, none) =
      if str_eq lang (bytes "en")
      then ok (langs, phrase)
      else (do r ← look_up langs phrase (bytes "en"); ok (or_phrase phrase r))

  unfoldable pub get_string : LangList → CString → CString → Exec (LangList × CString)
  get_string langs phrase lang = do r ← look_up langs phrase lang; or_english phrase lang r
