-- ===== src/LinkedList/Search.antt =====
-- What `sll_searchKeys` finds.
use opendias.Base.{◌≡◌, ◌↔◌, true, Option, none, some, [], ◌∷◌, arith, Any}
use opendias.Base.CString.{CString, str_eq_iff}
use opendias.LinkedList.{Element, Sll, key_is, search_from, sll_search_keys}

-- Some element has this key, which is not NULL.
abbrev pub HasKey : {V : Type 0} → Sll V → Option CString → Type 0
HasKey es none = ⊥
HasKey es (some key) = Any (λ e. e.key ≡ some key) es

pub key_is_iff : (j : Option CString) (key : CString) → (key_is j key ≡ true) ↔ (j ≡ some key)
key_is_iff none key = ground arith
key_is_iff (some j) key = ground (arith, str_eq_iff j key)

module _ {V : Type 0} where
  search_from-none_iff :
      (es : Sll V) (key : CString) → (search_from es key ≡ none) ↔ ¬ Any (λ e. e.key ≡ some key) es
  unfolding search_from
  search_from-none_iff [] key = ground arith
  search_from-none_iff (e ∷ es) key =
      ground (arith, key_is_iff e.key key, search_from-none_iff es key)

  -- The search fails exactly where no element has the key.
  pub sll_search_keys-none_iff :
      (es : Sll V) (key : Option CString) → (sll_search_keys es key ≡ none) ↔ ¬ HasKey es key
  unfolding sll_search_keys
  sll_search_keys-none_iff es none = ground arith
  sll_search_keys-none_iff es (some key) = search_from-none_iff es key

  search_from-HasKey :
      (es : Sll V) (key : CString) (e : Element V)
      → search_from es key ≡ some e
      → HasKey es (some key)
  unfolding search_from
  search_from-HasKey [] key e h = cc
  search_from-HasKey (f ∷ es) key e h =
      ground (arith, key_is_iff f.key key, search_from-HasKey es key e)

  pub HasKey-of_found :
      (es : Sll V) (key : Option CString) (e : Element V)
      → sll_search_keys es key ≡ some e
      → HasKey es key
  unfolding sll_search_keys
  HasKey-of_found es none e h = cc
  HasKey-of_found es (some key) e h = search_from-HasKey es key e h

  search_from-some :
      (es : Sll V) (key : CString) (e : Element V)
      → search_from es key ≡ some e
      → (e.key ≡ some key) × Any (λ f. f ≡ e) es
  unfolding search_from
  search_from-some [] key e h = cc
  search_from-some (f ∷ es) key e h =
      ground (arith, key_is_iff f.key key, search_from-some es key e)

  -- What is found has the key and is an element of the list.
  pub sll_search_keys-some :
      (es : Sll V) (key : Option CString) (e : Element V)
      → sll_search_keys es key ≡ some e
      → (e.key ≡ key) × Any (λ f. f ≡ e) es
  unfolding sll_search_keys
  sll_search_keys-some es none e h = cc
  sll_search_keys-some es (some key) e h = search_from-some es key e h
