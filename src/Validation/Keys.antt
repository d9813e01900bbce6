-- ===== src/Validation/Keys.antt =====
-- src/validation.c: `getPostData`, and `checkKeys`, which compares the keys of the post data with
-- those that an action takes. A rule holds "m" (or "", see Keys/Laws) for a key that must be
-- supplied, "o" for one that may be, and "-" once it was seen.
pub mod Laws
use opendias.Base.{ℕ, ◌+◌, Bool, true, false, Option, none, some, List, [], ◌∷◌, if◌then◌else◌}
use opendias.Base.CString.{CString, bytes, strstr}
use opendias.LinkedList.{Element, Sll, element, key_is, sll_init, sll_insert, sll_search_keys}

abbrev pub PostData : Type 0
PostData = Sll CString

-- The data of the first element with the key.
unfoldable pub get_post_data : PostData → Option CString → Option CString
unfolding sll_search_keys
get_post_data post_hash key = elim (sll_search_keys post_hash key) [
  | none ↦ none
  | some d ↦ d.value
]

-- `data->data = "-"` in the first element with the key
unfoldable pub mark : Sll CString → CString → Sll CString
mark [] key = []
mark (e ∷ es) key =
    if key_is e.key key then element e.key (some (bytes "-")) ∷ es else e ∷ mark es key

-- The same at a key that may be NULL, where `sll_searchKeys` finds nothing.
unfoldable pub mark? : Sll CString → Option CString → Sll CString
unfolding mark
mark? es none = es
mark? es (some key) = mark es key

-- The loop over the post data: the errors counted, and the rules as it leaves them.
unfoldable pub post_loop : ℕ → Sll CString → PostData → ℕ × Sll CString
unfolding sll_search_keys mark?
post_loop ret keys [] = (ret, keys)
post_loop ret keys (row ∷ rows) = elim (sll_search_keys keys row.key) [
  | none ↦ post_loop (ret + 1) keys rows
  | some d ↦ post_loop ret (mark? keys row.key) rows
]

-- `0 != strstr("m", row->data)`; no rule is without data.
unfoldable pub is_mandatory : Option CString → Bool
unfolding strstr bytes
is_mandatory none = false
is_mandatory (some d) = strstr (bytes "m") d

-- The loop over the rules.
unfoldable pub rule_loop : ℕ → Sll CString → ℕ
unfolding is_mandatory
rule_loop ret [] = ret
rule_loop ret (row ∷ rows) = rule_loop (if is_mandatory row.value then ret + 1 else ret) rows

unfoldable pub check_keys : PostData → Sll CString → ℕ
unfolding post_loop rule_loop
check_keys postdata key_list = let (ret, keys) = post_loop 0 key_list postdata in rule_loop ret keys

-- `sll_insert(vars, key, presence )`
abbrev pub with_key : CString → CString → Sll CString → Sll CString
with_key key presence vars = sll_insert vars (some key) (some presence)
