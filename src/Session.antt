-- ===== src/Session.antt =====
-- src/sessionmanagement.c: the sessions of the visitors. The time and the identifiers that
-- `uuid_generate` makes are arguments. Times count seconds, so a cut-off below 0 is 0 here: no
-- session was accessed before it either way.
pub mod Table
pub mod Refinement
pub mod Reach
mod Tests
use opendias.Base.{
  ℕ, ◌+◌, ◌-◌, Bool, true, false, Option, none, some, List, [], ◌∷◌, ltb, if◌then◌else◌,
}
use opendias.Base.Exec.{Exec, ok, fault, ◌>>=◌}
use opendias.Base.CString.{CString, bytes, str_eq}
use opendias.LinkedList.{
  Element, element, key_is, Sll, sll_init, sll_insert, sll_search_keys, sll_count,
}

pub record SessionData : Type 0 where
  pub last_accessed : ℕ
  pub session_container : Sll CString

-- What `void *data` of an element of `sessions` points to.
pub data SessionValue : Type 0 where
  text : CString → SessionValue
  session : SessionData → SessionValue

-- The globals `sessions`, `MAX_SESSIONS` and `MAX_AGE`.
pub record Manager : Type 0 where
  pub sessions : Sll SessionValue
  pub max_sessions : ℕ
  pub max_age : ℕ

unfoldable pub placeholder : CString
unfolding bytes
placeholder = bytes "placeholder"

unfoldable pub init_session_management : ℕ → ℕ → Manager
unfolding sll_insert
init_session_management max_sessions max_session_age = record {
  sessions = sll_insert sll_init (some placeholder) (some (text placeholder));
  max_sessions = max_sessions;
  max_age = max_session_age;
}

unfoldable pub create_session : (uuid : CString) (now : ℕ) → Manager → Manager × Option CString
unfolding sll_count
create_session uuid now m = if ltb m.max_sessions (sll_count m.sessions) then (m, none) else (
  record m {
    sessions =
        sll_insert m.sessions (some uuid)
          (some (session (record { last_accessed = now; session_container = sll_init })));
  },
  some uuid,
)

-- The write `session_element->last_accessed = now`, in the first element with the key.
unfoldable pub touch : ℕ → CString → Sll SessionValue → Sll SessionValue
touch now key [] = []
touch now key (e ∷ es) =
    if key_is e.key key
    then (elim e.value [
      | some (session d) ↦ element e.key (some (session (record d { last_accessed = now }))) ∷ es
      | other ↦ e ∷ es
    ])
    else e ∷ touch now key es

-- What was found is taken for a session: a write to a string literal or through NULL is a fault.
unfoldable pub open_session :
    ℕ → CString → Manager → Option SessionValue → Exec (Manager × Option (Sll CString))
open_session now key m (some (session d)) =
    ok (record m { sessions = touch now key m.sessions }, some d.session_container)
open_session now key m (some (text t)) = fault
open_session now key m none = fault

unfoldable pub get_session : ℕ → Option CString → Manager → Exec (Manager × Option (Sll CString))
get_session now none m = ok (m, none)
get_session now (some session_id) m = elim (sll_search_keys m.sessions (some session_id)) [
  | none ↦ ok (m, none)
  | some e ↦ open_session now session_id m e.value
]

-- `sll_delete`: the first element of a list is only emptied.
abbrev pub deleted : Bool → Sll SessionValue → Sll SessionValue
deleted first rest = if first then element none none ∷ rest else rest

-- One round of the loop of `clear_sessions_older_than`, given the rounds behind it.
unfoldable pub clear_step :
    ℕ → Bool → Element SessionValue → CString → Exec (Sll SessionValue) → Exec (Sll SessionValue)
clear_step oldest first e key rest =
    if str_eq key placeholder then (do es ← rest; ok (e ∷ es)) else (elim e.value [
      | some (session d) ↦
          if ltb d.last_accessed oldest
          then (do es ← rest; ok (deleted first es))
          else (do es ← rest; ok (e ∷ es))
      | other ↦ fault
    ])

-- The loop from an element on; `first` where it has no element before it.
unfoldable pub clear_from : ℕ → Bool → Sll SessionValue → Exec (Sll SessionValue)
clear_from oldest first [] = ok []
clear_from oldest first (e ∷ es) =
    let rest = clear_from oldest false es in
    elim e.key [ none ↦ fault | some key ↦ clear_step oldest first e key rest ]

unfoldable pub clear_sessions_older_than : ℕ → Manager → Exec Manager
clear_sessions_older_than oldest_allowed m = do
  es ← clear_from oldest_allowed true m.sessions
  ok (record m { sessions = es })

unfoldable pub clear_old_sessions : ℕ → Manager → Exec Manager
clear_old_sessions now m = clear_sessions_older_than (now - m.max_age) m

-- All sessions go, and then the list, `none` at the end.
unfoldable pub cleanup_session_management : ℕ → Manager → Exec (Option Manager)
cleanup_session_management now m = do m' ← clear_sessions_older_than (now + 999) m; ok none
