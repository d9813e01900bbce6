-- ===== src/LinkedList.antt =====
-- src/simpleLinkedList.c seen through its contents: the elements that a list holds, first to last.
-- A caller passes the first element; an empty list is one element with no key and no data.
pub mod Search
pub mod Sort
mod Tests
pub mod Occurrences
use opendias.Base.{
  ℕ, ◌+◌, ◌-◌, ◌≡◌, Bool, true, false, ◌&&◌, Option, none, some, List, [], ◌∷◌, ◌++◌, if◌then◌else◌,
  is_some, length,
}
use opendias.Base.CString.{CString, str_eq}

-- `struct simpleLinkedList` less its two pointers; NULL is `none`.
pub record Element (V : Type 0) : Type 0 where
  pub key : Option CString
  pub value : Option V

abbrev pub Sll : Type 0 → Type 0
Sll V = List (Element V)

abbrev pub element : {V : Type 0} → Option CString → Option V → Element V
element k v = record { key = k; value = v }

abbrev pub key_is : Option CString → CString → Bool
key_is none k = false
key_is (some j) k = str_eq j k

module _ {V : Type 0} where
  abbrev pub sll_init : Sll V
  sll_init = element none none ∷ []

  -- An element without data that is alone is filled; otherwise a new one goes behind the last.
  unfoldable pub sll_insert : Sll V → Option CString → Option V → Sll V
  sll_insert [] key value = []
  sll_insert (e ∷ []) key value =
      if is_some e.value then e ∷ element key value ∷ [] else element key value ∷ []
  sll_insert (e ∷ f ∷ es) key value = e ∷ f ∷ es ++ element key value ∷ []

  -- The same without a key, but the key of an element that is filled stays.
  unfoldable pub sll_append : Sll V → Option V → Sll V
  sll_append [] value = []
  sll_append (e ∷ []) value =
      if is_some e.value then e ∷ element none value ∷ [] else element e.key value ∷ []
  sll_append (e ∷ f ∷ es) value = e ∷ f ∷ es ++ element none value ∷ []

  unfoldable pub search_from : Sll V → CString → Option (Element V)
  search_from [] key = none
  search_from (e ∷ es) key = if key_is e.key key then some e else search_from es key

  -- The first element with the key; NULL for the key NULL.
  unfoldable pub sll_search_keys : Sll V → Option CString → Option (Element V)
  unfolding search_from
  sll_search_keys es none = none
  sll_search_keys es (some key) = search_from es key

  -- The elements behind the first.
  unfoldable pub sll_count : Sll V → ℕ
  sll_count es = length es - 1

  unfoldable pub delete_from : (first : Bool) → CString → Sll V → Sll V
  delete_from first key [] = []
  delete_from first key (e ∷ es) =
      if key_is e.key key
      then if first then element none none ∷ es else es
      else e ∷ delete_from false key es

  -- `sll_delete` of the element that `sll_searchKeys` finds: the first of a list is only emptied.
  unfoldable pub sll_delete_key : Sll V → CString → Sll V
  unfolding delete_from
  sll_delete_key es key = delete_from true key es

  -- A write to the data of the element that `sll_searchKeys` finds.
  unfoldable pub set_data : Sll V → CString → V → Sll V
  set_data [] key value = []
  set_data (e ∷ es) key value =
      if key_is e.key key then element e.key (some value) ∷ es else e ∷ set_data es key value
