-- ===== src/PageRender/Login/Logout.antt =====
-- What a logout leaves in the session.
use opendias.Base.{◌-◌, ◌≡◌, refl, sym, ap, ◌∙◌, ◌≢◌, List, [], ◌∷◌, All, Any, inl, inr}
use opendias.Base.CString.{CString, bytes, str_eq, differ}
use opendias.LinkedList.{sll_delete_key}
use opendias.LinkedList.Occurrences.{
  occurrences, occurrences-sll_delete_key, occurrences-sll_delete_key_other,
}
use opendias.PageRender.Login.{Session, login_keys, delete_keys, do_logout}

delete_keys-occurrences_other :
    (keys : List CString) (session : Session) (key : CString)
    → All (λ k. k ≢ key) keys
    → occurrences (delete_keys keys session) key ≡ occurrences session key
unfolding delete_keys
delete_keys-occurrences_other [] session key n = refl
delete_keys-occurrences_other (k ∷ keys) session key (n, ns) =
    delete_keys-occurrences_other keys (sll_delete_key session k) key ns
    ∙ occurrences-sll_delete_key_other key session k n

-- No key stands twice.
Differ : List CString → Type 0
Differ [] = Unit
Differ (key ∷ keys) = All (λ k. k ≢ key) keys × Differ keys

other_key :
    (keys : List CString) (a b : CString) → All (λ k. k ≢ a) keys → Any (λ k. k ≡ b) keys → a ≢ b
other_key [] a b n m = absurd m
other_key (k ∷ keys) a b (n, ns) (inl e) = λ p. n (e ∙ sym p)
other_key (k ∷ keys) a b (n, ns) (inr m) = other_key keys a b ns m

still_other :
    (keys : List CString) (a b : CString) → a ≡ b → All (λ k. k ≢ a) keys → All (λ k. k ≢ b) keys
still_other [] a b e n = n
still_other (k ∷ keys) a b e (n, ns) = (λ p. n (p ∙ sym e), still_other keys a b e ns)

delete_keys-occurrences :
    (keys : List CString) (session : Session) (key : CString)
    → Differ keys
    → Any (λ k. k ≡ key) keys
    → occurrences (delete_keys keys session) key ≡ occurrences session key - 1
unfolding delete_keys Differ
delete_keys-occurrences [] session key d m = absurd m
delete_keys-occurrences (k ∷ keys) session key (n, d) (inl e) =
    delete_keys-occurrences_other keys (sll_delete_key session k) key (still_other keys k key e n)
    ∙ rw e (occurrences-sll_delete_key key session)
delete_keys-occurrences (k ∷ keys) session key (n, d) (inr m) =
    delete_keys-occurrences keys (sll_delete_key session k) key d m
    ∙ ap (λ x. x - 1) (occurrences-sll_delete_key_other key session k (other_key keys k key n m))

login_keys-Differ : Differ login_keys
unfolding Differ bytes str_eq
login_keys-Differ = (
  (
    differ (bytes "username") (bytes "next_login_attempt") refl,
    (
      differ (bytes "realname") (bytes "next_login_attempt") refl,
      (differ (bytes "role") (bytes "next_login_attempt") refl, tt),
    ),
  ),
  (
    (
      differ (bytes "realname") (bytes "username") refl,
      (differ (bytes "role") (bytes "username") refl, tt),
    ),
    ((differ (bytes "role") (bytes "realname") refl, tt), (tt, tt)),
  ),
)

-- Of each of the four keys of a login a logout takes out one element, where there is one.
pub do_logout-occurrences :
    (session : Session) (key : CString)
    → Any (λ k. k ≡ key) login_keys
    → occurrences (do_logout session).0 key ≡ occurrences session key - 1
unfolding do_logout
do_logout-occurrences session key m =
    delete_keys-occurrences login_keys session key login_keys-Differ m

-- The other keys of the session stay as often as they were.
do_logout-occurrences_other :
    (session : Session) (key : CString)
    → All (λ k. k ≢ key) login_keys
    → occurrences (do_logout session).0 key ≡ occurrences session key
unfolding do_logout
do_logout-occurrences_other session key n = delete_keys-occurrences_other login_keys session key n
