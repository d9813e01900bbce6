-- ===== src/WebHandler/Upload/Pieces.antt =====
-- Values that come in pieces.
use mathlib.Core.Option
use mathlib.Core.Option.{some-injective}
use opendias.Base.{
  append_assoc, ℕ, ◌∙◌, ◌≡◌, refl, ap, ◌≢◌, true, false, Option, none, some, List, [], ◌∷◌, ◌++◌,
  length, if◌then◌else◌, ◌==◌, arith, All, Bool-cases, Option-cases, inl, inr, is_some,
}
use opendias.Base.Exec.{Exec, ok, fault, ◌>>=◌}
use opendias.Base.CString.{CString, str_eq_refl}
use opendias.LinkedList.{Element, element, key_is, sll_insert, sll_search_keys, search_from}
use opendias.Validation.Keys.{PostData}
use opendias.WebHandler.Site.{c_str}
use opendias.WebHandler.Files.{con_cat}
use opendias.WebHandler.Upload.{add_to, add_data, is_upload, store, iterate_post}

-- A text: bytes that are not NUL.
abbrev pub IsText : List ℕ → Type 0
IsText s = All (λ c. c ≢ 0) s

c_str-text : (s : List ℕ) → IsText s → c_str s ≡ s
unfolding c_str
c_str-text [] h = refl
c_str-text (c ∷ s) h = ground (arith, c_str-text s h.1)

IsText-append : (a b : List ℕ) → IsText a → IsText b → IsText (a ++ b)
IsText-append [] b h g = g
IsText-append (c ∷ a) b h g = (h.0, IsText-append a b h.1 g)

-- What is put behind the other elements is found and added to.
add_data-last :
    (key a b : CString) (post : PostData)
    → b ≢ []
    → search_from post key ≡ none
    → add_data key b (post ++ element (some key) (some a) ∷ [])
      ≡ ok (post ++ element (some key) (some (a ++ b)) ∷ [])
unfolding add_data add_to con_cat search_from
add_data-last key a [] post n h = absurd (n refl)
add_data-last key a (c ∷ b) [] n h = rw (str_eq_refl key) refl
add_data-last key a (c ∷ b) (e ∷ post) n h = elim (Bool-cases (key_is e.key key)) [
  | inl hit ↦ absurd (ground arith)
  | inr miss ↦ rw (miss, add_data-last key a (c ∷ b) post n (rw miss at h)) refl
]

add_data-insert :
    (key a b : CString) (post : PostData)
    → b ≢ []
    → post ≢ []
    → sll_search_keys post (some key) ≡ none
    → add_data key b (sll_insert post (some key) (some a))
      ≡ ok (sll_insert post (some key) (some (a ++ b)))
unfolding sll_insert sll_search_keys
add_data-insert key a b [] n ne h = absurd (ne refl)
add_data-insert key a b (e ∷ []) n ne h = elim (Option-cases e.value) [
  | inl empty ↦ simp empty (add_data-last key a b [] n refl)
  | inr (v, filled) ↦ simp filled (add_data-last key a b (e ∷ []) n h)
]
add_data-insert key a b (e ∷ f ∷ es) n ne h = add_data-last key a b (e ∷ f ∷ es) n h

-- The same where the element has data, without a fault to look out for.
abbrev plus_value : CString → Element CString → Element CString
plus_value a e = element e.key (Option.map (λ v. v ++ a) e.value)

plus : CString → CString → PostData → PostData
plus key a [] = []
plus key a (e ∷ es) = if key_is e.key key then plus_value a e ∷ es else e ∷ plus key a es

add_to-plus :
    (e : Element CString) (a : CString)
    → is_some e.value ≡ true
    → a ≢ []
    → add_to e a ≡ ok (plus_value a e)
unfolding add_to con_cat
add_to-plus e [] s n = absurd (n refl)
add_to-plus e (c ∷ a) s n = elim (Option-cases e.value) [
  | inl missing ↦ absurd (cc)
  | inr (v, there) ↦ simp there refl
]

module _ (key : CString) where
  add_data-plus :
      (post : PostData) (a : CString) (e : Element CString)
      → search_from post key ≡ some e
      → is_some e.value ≡ true
      → a ≢ []
      → add_data key a post ≡ ok (plus key a post)
  unfolding add_data search_from plus
  add_data-plus [] a e h s n = absurd (cc)
  add_data-plus (f ∷ post) a e h s n = elim (Bool-cases (key_is f.key key)) [
    | inl hit ↦
        let same : some f ≡ some e = rw hit at h in
        rw (hit, add_to-plus f a (ap (λ g. is_some g.value) (some-injective f e same) ∙ s) n) refl
    | inr miss ↦ rw (miss, add_data-plus post a e (rw miss at h) s n) refl
  ]

  search-plus :
      (post : PostData) (a : CString) (e : Element CString)
      → search_from post key ≡ some e
      → search_from (plus key a post) key ≡ some (plus_value a e)
  unfolding search_from plus
  search-plus [] a e h = absurd (cc)
  search-plus (f ∷ post) a e h = elim (Bool-cases (key_is f.key key)) [
    | inl hit ↦
        let same : some f ≡ some e = rw hit at h in
        rw (hit, key_is, hit) (ap (λ g. some (plus_value a g)) (some-injective f e same))
    | inr miss ↦ rw (miss, key_is, miss) (search-plus post a e (rw miss at h))
  ]

  plus_value-plus_value :
      (e : Element CString) (a b : CString) → plus_value b (plus_value a e) ≡ plus_value (a ++ b) e
  plus_value-plus_value e a b = elim (Option-cases e.value) [
    | inl missing ↦ simp missing refl
    | inr (v, there) ↦ simp there (ap (λ t. element e.key (some t)) (append_assoc v a b))
  ]

  plus-plus :
      (post : PostData) (a b : CString) → plus key b (plus key a post) ≡ plus key (a ++ b) post
  unfolding plus
  plus-plus [] a b = refl
  plus-plus (f ∷ post) a b = elim (Bool-cases (key_is f.key key)) [
    | inl hit ↦ simp hit (ap (λ g. g ∷ post) (plus_value-plus_value f a b))
    | inr miss ↦ simp miss (ap (λ g. f ∷ g) (plus-plus post a b))
  ]

length-ne : (a : List ℕ) → a ≢ [] → (length a == 0) ≡ false
length-ne [] n = absurd (n refl)
length-ne (c ∷ a) n = ground arith

append-ne : (a b : List ℕ) → a ≢ [] → a ++ b ≢ []
append-ne [] b n = absurd (n refl)
append-ne (c ∷ a) b n = λ e. cc

search-last :
    (post : PostData) (key a : CString)
    → search_from post key ≡ none
    → search_from (post ++ element (some key) (some a) ∷ []) key
      ≡ some (element (some key) (some a))
unfolding search_from
search-last [] key a h = rw (str_eq_refl key) refl
search-last (e ∷ post) key a h = elim (Bool-cases (key_is e.key key)) [
  | inl hit ↦ absurd (ground arith)
  | inr miss ↦ rw miss (search-last post key a (rw miss at h))
]

search-insert :
    (post : PostData) (key a : CString)
    → post ≢ []
    → search_from post key ≡ none
    → search_from (sll_insert post (some key) (some a)) key ≡ some (element (some key) (some a))
unfolding sll_insert search_from
search-insert [] key a n h = absurd (n refl)
search-insert (e ∷ []) key a n h = elim (Option-cases e.value) [
  | inl empty ↦ simp empty (search-last [] key a refl)
  | inr (v, filled) ↦ simp filled (search-last (e ∷ []) key a h)
]
search-insert (e ∷ f ∷ es) key a n h = search-last (e ∷ f ∷ es) key a h

plus_value-full :
    (a : CString) (e : Element CString)
    → is_some e.value ≡ true
    → is_some (plus_value a e).value ≡ true
plus_value-full a e s = elim (Option-cases e.value) [
  | inl missing ↦ absurd (cc)
  | inr (v, there) ↦ simp there refl
]

-- Every element that can be found has data.
abbrev pub IsFull : PostData → CString → Type 0
IsFull post key = (e : Element CString) → search_from post key ≡ some e → is_some e.value ≡ true

store-store :
    (post : PostData) (uuid uuid' key a b : CString)
    → is_upload key ≡ false
    → post ≢ []
    → IsFull post key
    → a ≢ []
    → b ≢ []
    → (store uuid key a post >>= store uuid' key b) ≡ store uuid key (a ++ b) post
unfolding store sll_search_keys
store-store post uuid uuid' key a b plain ne full n m = elim (Option-cases (search_from post key)) [
  | inl missing ↦
      rw
        (
          missing,
          plain,
          store,
          search-insert post key a ne missing,
          plain,
          add_data-insert key a b post m ne missing,
        )
        refl
  | inr (e, there) ↦
      let full_e = full e there in
      rw
        (
          there,
          plain,
          add_data-plus key post a e there full_e n,
          store,
          search-plus key post a e there,
          plain,
          add_data-plus key (plus key a post) b (plus_value a e) (search-plus key post a e there)
              (plus_value-full a e full_e) m,
          plus-plus key post a b,
          add_data-plus key post (a ++ b) e there full_e (append-ne a b n),
        )
        refl
]

-- Post data, and no file.
abbrev stored : PostData → Exec (PostData × Option (CString × List ℕ))
stored p = ok (p, none)

iterate_post-field :
    (uuid key : CString) (a : List ℕ) (post : PostData)
    → is_upload key ≡ false
    → a ≢ []
    → IsText a
    → iterate_post uuid key a post ≡ (store uuid key a post >>= stored)
unfolding iterate_post
iterate_post-field uuid key a post plain n t = rw (length-ne a n, c_str-text a t, plain) refl

rejoin :
    (uuid key : CString) (b : List ℕ)
    → is_upload key ≡ false
    → IsText b
    → b ≢ []
    → (x : Exec PostData)
    → ((x >>= stored) >>= λ r. iterate_post uuid key b r.0) ≡ ((x >>= store uuid key b) >>= stored)
rejoin uuid key b plain t m fault = refl
rejoin uuid key b plain t m (ok p) = iterate_post-field uuid key b p plain m t

-- The value of a field that is no upload, in two pieces of text that are not empty, is stored like
-- one that comes at once, whether the post data have the key or not. The post data are not NULL, and
-- the element with the key, if there is one, has data.
pub iterate_post-append :
    (uuid uuid' key : CString) (a b : List ℕ) (post : PostData)
    → is_upload key ≡ false
    → post ≢ []
    → IsFull post key
    → IsText a
    → a ≢ []
    → IsText b
    → b ≢ []
    → (iterate_post uuid key a post >>= λ r. iterate_post uuid' key b r.0)
      ≡ iterate_post uuid key (a ++ b) post
iterate_post-append uuid uuid' key a b post plain ne full ta n tb m =
    rw
      (
        iterate_post-field uuid key a post plain n ta,
        iterate_post-field uuid key (a ++ b) post plain (append-ne a b n) (IsText-append a b ta tb),
      )
      (rejoin uuid' key b plain tb m (store uuid key a post)
        ∙ ap (λ x. x >>= stored) (store-store post uuid uuid' key a b plain ne full n m))
