-- ===== src/LinkedList/Occurrences.antt =====
-- How often a key is in a list, as elements are put in, taken out and written to.
use opendias.Base.{
  ℕ, ◌+◌, ◌-◌, ◌≤◌, ◌≡◌, refl, ap, ◌≢◌, Bool, true, false, Option, none, some, [], ◌∷◌, ◌++◌, arith,
  if◌then◌else◌, is_some, Bool-cases, inl, inr,
}
use mathlib.Core.Option.{some-injective}
use opendias.Base.CString.{CString, str_eq_iff}
use opendias.LinkedList.Search.{key_is_iff}
use opendias.LinkedList.{
  Element, element, Sll, key_is, sll_insert, search_from, sll_delete_key, delete_from, set_data,
}

-- 1 for an element with the key.
unfoldable pub hit : Option CString → CString → ℕ
hit k key = if key_is k key then 1 else 0

unfoldable pub occurrences : {V : Type 0} → Sll V → CString → ℕ
occurrences [] key = 0
occurrences (e ∷ es) key = hit e.key key + occurrences es key

pub hit_self : (key : CString) → hit (some key) key ≡ 1
unfolding hit
hit_self key = ground (arith, str_eq_iff key key)

pub hit-other : (key k : CString) → k ≢ key → hit (some k) key ≡ 0
unfolding hit
hit-other key k n = ground (arith, str_eq_iff k key)

hit-is_other :
    (key : CString) (j : Option CString) (k : CString) → k ≢ key → key_is j k ≡ true → hit j key ≡ 0
unfolding hit
hit-is_other key j k n y = ground (arith, key_is_iff j k, key_is_iff j key)

hit-none : (key : CString) → hit none key ≡ 0
unfolding hit
hit-none key = refl

hit-found : (j : Option CString) (key : CString) → key_is j key ≡ true → hit j key ≡ 1
unfolding hit
hit-found j key y = rw y refl

hit-missed : (j : Option CString) (key : CString) → key_is j key ≡ false → hit j key ≡ 0
unfolding hit
hit-missed j key n = rw n refl

module _ {V : Type 0} (key : CString) where
  occurrences-append :
      (es : Sll V) (e : Element V)
      → occurrences (es ++ e ∷ []) key ≡ occurrences es key + hit e.key key
  unfolding occurrences
  occurrences-append [] e = omega arith
  occurrences-append (f ∷ es) e = rw (occurrences-append es e) (omega arith)

  -- An insertion adds at most the key that it is given.
  pub occurrences-sll_insert :
      (es : Sll V) (k : Option CString) (v : Option V)
      → occurrences (sll_insert es k v) key ≤ occurrences es key + hit k key
  unfolding occurrences sll_insert
  occurrences-sll_insert [] k v = omega arith
  occurrences-sll_insert (e ∷ []) k v = elim (Bool-cases (is_some e.value)) [
    | inl y ↦ rw y (omega arith)
    | inr n ↦ rw n (omega arith)
  ]
  occurrences-sll_insert (e ∷ f ∷ es) k v = rw (occurrences-append es (element k v)) (omega arith)

  pub search-unoccurring : (es : Sll V) → occurrences es key ≡ 0 → search_from es key ≡ none
  unfolding occurrences search_from hit
  search-unoccurring [] z = refl
  search-unoccurring (e ∷ es) z = ground (arith, search-unoccurring es)

  pub occurrences-unfound : (es : Sll V) → search_from es key ≡ none → occurrences es key ≡ 0
  unfolding occurrences search_from hit
  occurrences-unfound [] z = refl
  occurrences-unfound (e ∷ es) z = ground (arith, occurrences-unfound es)

  search-append :
      (es : Sll V) (v : V)
      → search_from es key ≡ none
      → search_from (es ++ element (some key) (some v) ∷ []) key
        ≡ some (element (some key) (some v))
  unfolding search_from
  search-append [] v h = ground (arith, str_eq_iff key key)
  search-append (f ∷ es) v h = elim (Bool-cases (key_is f.key key)) [
    | inl y ↦ absurd (ground (arith, h, y))
    | inr n ↦ rw n (search-append es v (ground (arith, h, n)))
  ]

  -- What is put under a key that was not there is found.
  pub search-sll_insert :
      (e : Element V) (es : Sll V) (v : V)
      → search_from (e ∷ es) key ≡ none
      → search_from (sll_insert (e ∷ es) (some key) (some v)) key
        ≡ some (element (some key) (some v))
  unfolding sll_insert search_from
  search-sll_insert e [] v h = elim (Bool-cases (is_some e.value)) [
    | inl y ↦ rw y (search-append (e ∷ []) v h)
    | inr n ↦ rw n (search-append [] v refl)
  ]
  search-sll_insert e (f ∷ es) v h = search-append (e ∷ f ∷ es) v h

  occurrences-delete_from :
      (first : Bool) (es : Sll V)
      → occurrences (delete_from first key es) key ≡ occurrences es key - 1
  unfolding occurrences delete_from
  occurrences-delete_from first [] = refl
  occurrences-delete_from true (e ∷ es) = elim (Bool-cases (key_is e.key key)) [
    | inl y ↦ rw (y, hit-found e.key key y) (omega (arith, hit-none key))
    | inr n ↦ rw (n, hit-missed e.key key n, occurrences-delete_from false es) (omega arith)
  ]
  occurrences-delete_from false (e ∷ es) = elim (Bool-cases (key_is e.key key)) [
    | inl y ↦ rw (y, hit-found e.key key y) (omega (arith, hit-none key))
    | inr n ↦ rw (n, hit-missed e.key key n, occurrences-delete_from false es) (omega arith)
  ]

  -- A deletion takes out one element with the key.
  pub occurrences-sll_delete_key :
      (es : Sll V) → occurrences (sll_delete_key es key) key ≡ occurrences es key - 1
  unfolding sll_delete_key
  occurrences-sll_delete_key es = occurrences-delete_from true es

  occurrences-delete_from_other :
      (first : Bool) (k : CString) (es : Sll V)
      → k ≢ key
      → occurrences (delete_from first k es) key ≡ occurrences es key
  unfolding occurrences delete_from
  occurrences-delete_from_other first k [] n = refl
  occurrences-delete_from_other true k (e ∷ es) n = elim (Bool-cases (key_is e.key k)) [
    | inl y ↦ rw (y, hit-is_other key e.key k n y) (omega (arith, hit-none key))
    | inr z ↦ rw (z, occurrences-delete_from_other false k es n) (omega arith)
  ]
  occurrences-delete_from_other false k (e ∷ es) n = elim (Bool-cases (key_is e.key k)) [
    | inl y ↦ rw (y, hit-is_other key e.key k n y) (omega (arith, hit-none key))
    | inr z ↦ rw (z, occurrences-delete_from_other false k es n) (omega arith)
  ]

  -- The other keys stay.
  pub occurrences-sll_delete_key_other :
      (es : Sll V) (k : CString)
      → k ≢ key
      → occurrences (sll_delete_key es k) key ≡ occurrences es key
  unfolding sll_delete_key
  occurrences-sll_delete_key_other es k n = occurrences-delete_from_other true k es n

  pub occurrences-set_data :
      (es : Sll V) (k : CString) (v : V) → occurrences (set_data es k v) key ≡ occurrences es key
  unfolding occurrences set_data
  occurrences-set_data [] k v = refl
  occurrences-set_data (e ∷ es) k v = elim (Bool-cases (key_is e.key k)) [
    | inl y ↦ rw y refl
    | inr n ↦ rw (n, occurrences-set_data es k v) refl
  ]

  -- The data that are written are found.
  pub search-set_data :
      (es : Sll V) (v : V) (e : Element V)
      → search_from es key ≡ some e
      → search_from (set_data es key v) key ≡ some (element e.key (some v))
  unfolding search_from set_data
  search-set_data [] v e h = cc
  search-set_data (f ∷ es) v e h = elim (Bool-cases (key_is f.key key)) [
    | inl y ↦
        rw (y, y)
          (ap (λ g. some (element g.key (some v))) (some-injective f e (ground (arith, h, y))))
    | inr n ↦ rw (n, n) (search-set_data es v e (ground (arith, h, n)))
  ]

  -- A list stays one.
  pub sll_delete_key-full : (es : Sll V) → es ≢ [] → sll_delete_key es key ≢ []
  unfolding sll_delete_key delete_from
  sll_delete_key-full [] n e = n refl
  sll_delete_key-full (f ∷ es) n e = elim (Bool-cases (key_is f.key key)) [
    | inl y ↦ absurd (ground (arith, e, y))
    | inr z ↦ absurd (ground (arith, e, z))
  ]

  delete_from-unfound :
      (first : Bool) (es : Sll V) → search_from es key ≡ none → delete_from first key es ≡ es
  unfolding delete_from search_from
  delete_from-unfound first [] n = refl
  delete_from-unfound first (e ∷ es) n = elim (Bool-cases (key_is e.key key)) [
    | inl y ↦ absurd (ground (arith, n, y))
    | inr z ↦ rw z (ap (λ r. e ∷ r) (delete_from-unfound false es (ground (arith, n, z))))
  ]

  pub sll_delete_key-unfound : (es : Sll V) → search_from es key ≡ none → sll_delete_key es key ≡ es
  unfolding sll_delete_key
  sll_delete_key-unfound es n = delete_from-unfound true es n
