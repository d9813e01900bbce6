-- ===== src/Localisation/Cache.antt =====
-- The texts that `getString` gives, next to the resource files.
use mathlib.Core.Option.{some-injective}
use mathlib.Core.Path.{subst}
use opendias.Base.{
  ◌≡◌, refl, Option, none, some, List, [], ◌∷◌, All, Any, All-append, is_some, Bool-cases,
  Option-cases, inl, inr,
}
use opendias.Base.Exec.{ok}
use opendias.Base.CString.{CString, bytes, str_eq, str_eq_sound}
use opendias.LinkedList.{Element, element, Sll, sll_insert, sll_search_keys}
use opendias.LinkedList.Search.{sll_search_keys-some}
use opendias.Localisation.{
  load_lang_list, data_of, fetched, keys_list, phrase_in, look_up, get_string,
}

module _ (resource : CString → Option (List CString)) (texts : CString → Option (Sll CString)) where
  -- `texts` is what the resource files hold.
  abbrev pub IsLoaded : Type 0
  IsLoaded = (lang : CString) → load_lang_list resource lang ≡ ok (texts lang)

  -- The texts of an element are those of its language.
  abbrev pub IsEntry : Element (Sll CString) → Type 0
  IsEntry e =
      (lang : CString) (entries : Sll CString)
      → e.key ≡ some lang
      → e.value ≡ some entries
      → texts lang ≡ some entries

  abbrev pub IsCache : Sll (Sll CString) → Type 0
  IsCache langs = All IsEntry langs

  All-Any :
      (es : Sll (Sll CString)) (e : Element (Sll CString))
      → All IsEntry es
      → Any (λ f. f ≡ e) es
      → IsEntry e
  All-Any [] e a k = absurd k
  All-Any (f ∷ es) e a (inl same) = subst IsEntry same a.0
  All-Any (f ∷ es) e a (inr k) = All-Any es e a.1 k

  pub new-IsEntry : (lang : CString) → IsEntry (element (some lang) (texts lang))
  new-IsEntry lang l entries named valued = rw (some-injective lang l named) at valued

  insert-IsCache :
      (langs : Sll (Sll CString)) (lang : CString)
      → IsCache langs
      → IsCache (sll_insert langs (some lang) (texts lang))
  unfolding sll_insert
  insert-IsCache [] lang h = tt
  insert-IsCache (e ∷ []) lang h = elim (Bool-cases (is_some e.value)) [
    | inl filled ↦ rw filled (h.0, (new-IsEntry lang, tt))
    | inr empty ↦ rw empty (new-IsEntry lang, tt)
  ]
  insert-IsCache (e ∷ f ∷ es) lang h = All-append IsEntry (e ∷ f ∷ es) _ h (new-IsEntry lang, tt)

  -- The text that the files hold for a phrase.
  abbrev pub text_in : CString → CString → Option CString
  text_in phrase lang = phrase_in resource (texts lang) phrase

  found-entry :
      (langs : Sll (Sll CString)) (lang : CString) (entries : Sll CString)
      → IsCache langs
      → data_of resource (sll_search_keys langs (some lang)) ≡ some entries
      → texts lang ≡ some entries
  unfolding data_of
  found-entry langs lang entries cache h = elim (Option-cases (sll_search_keys langs (some lang))) [
    | inl missing ↦ absurd (cc)
    | inr (e, there) ↦
        let (named, member) = sll_search_keys-some langs (some lang) e there in
        All-Any langs e cache member lang entries named (rw there at h)
  ]

  keys_list-texts :
      IsLoaded
      → (langs : Sll (Sll CString)) (lang : CString) → IsCache langs
      → (langs' : Sll (Sll CString)) × (keys_list resource langs lang ≡ ok (langs', texts lang))
        × IsCache langs'
  unfolding keys_list
  keys_list-texts loaded langs lang cache =
      elim (Option-cases (data_of resource (sll_search_keys langs (some lang)))) [
        | inl missing ↦ (
          sll_insert langs (some lang) (texts lang),
          rw (missing, fetched, loaded lang) refl,
          insert-IsCache langs lang cache,
        )
        | inr (entries, there) ↦
            (langs, rw (there, fetched, found-entry langs lang entries cache there) refl, cache)
      ]

  look_up-text :
      IsLoaded
      → (langs : Sll (Sll CString)) (phrase lang : CString) → IsCache langs
      → (langs' : Sll (Sll CString)) × (look_up resource langs phrase lang
          ≡ ok (langs', text_in phrase lang))
        × IsCache langs'
  unfolding look_up
  look_up-text loaded langs phrase lang cache =
      let (langs', got, cache') = keys_list-texts loaded langs lang cache in
      (langs', rw got refl, cache')

  -- The first that is there: the text in the language, the English one, the phrase.
  abbrev pub first_of : (own english : Option CString) → CString → CString
  first_of (some found) english phrase = found
  first_of none (some found) phrase = found
  first_of none none phrase = phrase

  abbrev pub translation : CString → CString → CString
  translation phrase lang = first_of (text_in phrase lang) (text_in phrase (bytes "en")) phrase

  -- Whatever languages are loaded already, `getString` gives the text that the resource files hold
  -- for the phrase in the language, else the English one, else the phrase; and what it loads on the
  -- way is what the files hold.
  pub get_string-translation :
      IsLoaded
      → (langs : Sll (Sll CString)) (phrase lang : CString) → IsCache langs
      → (langs' : Sll (Sll CString)) × (get_string resource langs phrase lang
          ≡ ok (langs', translation phrase lang))
        × IsCache langs'
  unfolding get_string
  get_string-translation loaded langs phrase lang cache =
      let (langs', got, cache') = look_up-text loaded langs phrase lang cache in
      let (langs'', got', cache'') = look_up-text loaded langs' phrase (bytes "en") cache' in
      elim (Option-cases (text_in phrase lang)) [
        | inr (found, there) ↦ (langs', rw (got, there) refl, cache')
        | inl missing ↦ elim (Bool-cases (str_eq lang (bytes "en"))) [
          | inl english ↦
              let same : lang ≡ bytes "en" = str_eq_sound _ _ english in
              let none_there : text_in phrase (bytes "en") ≡ none = rw same at missing in
              (langs', rw (got, missing, english, none_there) refl, cache')
          | inr other ↦ elim (Option-cases (text_in phrase (bytes "en"))) [
            | inr (found, there) ↦ (langs'', rw (got, missing, other, got', there) refl, cache'')
            | inl absent ↦ (langs'', rw (got, missing, other, got', absent) refl, cache'')
          ]
        ]
      ]
