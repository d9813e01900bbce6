-- ===== src/Session/Tests.antt =====
-- Runs of the sessions, and the theorems at such states.
use opendias.Base.{
  ◌-◌, ◌≤◌, ◌≡◌, refl, ◌≢◌, ◌↔◌, none, some, [], ◌∷◌, ltb, All, arith, if◌then◌else◌, ◌++◌,
}
use mathlib.Core.Option
use opendias.Base.Exec.{ok, fault}
use opendias.Base.CString.{bytes, str_eq}
use opendias.LinkedList.{sll_insert, sll_count}
use opendias.LinkedList.Search.{HasKey}
use opendias.Session.{
  placeholder, init_session_management, create_session, get_session, clear_sessions_older_than,
  clear_old_sessions, clear_from, clear_step,
}
use opendias.Session.Table.{Table, fresh, lookup, access, keep, rows, represent, managed}
use opendias.Session.Refinement.{get_session-lookup, create_session-append, clear-keep}
use opendias.Session.Reach.{
  created, Reach, start, next, IsManaged, Reach-IsManaged, Reach-get_session-fault_iff,
  Reach-clear_old_sessions,
}

-- Two visitors, one of them idle for long.
abbrev two : Table
two = (bytes "a", fresh 10) ∷ (bytes "b", fresh 500) ∷ []

-- A second visitor is let in where `MAX_SESSIONS` is 1.
over_limit_run :
    (create_session (bytes "b") 500 (managed 1 100 ((bytes "a", fresh 10) ∷ []))).1
    ≡ some (bytes "b")
unfolding create_session represent rows bytes sll_count
over_limit_run = refl

expired_run :
    clear_old_sessions 510 (managed 1 100 two) ≡ ok (managed 1 100 ((bytes "b", fresh 500) ∷ []))
unfolding clear_old_sessions clear_sessions_older_than represent rows bytes clear_from clear_step
    str_eq placeholder
expired_run = refl

a_named : bytes "a" ≢ placeholder
unfolding bytes placeholder
a_named = ground arith

b_named : bytes "b" ≢ placeholder
unfolding bytes placeholder
b_named = ground arith

get_session-lookup_example :
    get_session 600 (some (bytes "b")) (managed 1 100 two)
    ≡ ok (
      managed 1 100 (access 600 (bytes "b") two),
      Option.map (λ d. d.session_container) (lookup (bytes "b") two),
    )
get_session-lookup_example = get_session-lookup 1 100 two 600 (bytes "b") b_named

create_session-append_example : create_session (bytes "c") 600 (managed 1 100 two) ≡ (
    if ltb 1 2
    then (managed 1 100 two, none)
    else (managed 1 100 (two ++ (bytes "c", fresh 600) ∷ []), some (bytes "c")))
create_session-append_example = create_session-append 1 100 two (bytes "c") 600

clear-keep_example :
    clear_sessions_older_than 400 (managed 1 100 two) ≡ ok (managed 1 100 (keep 400 two))
clear-keep_example = clear-keep 1 100 400 two (a_named, (b_named, tt))

new_a : ¬ HasKey (init_session_management 1 100).sessions (some (bytes "a"))
unfolding init_session_management sll_insert bytes placeholder
new_a = ground arith

one_visitor : Reach 1 100 (create_session (bytes "a") 10 (init_session_management 1 100)).0
one_visitor = next start (created (bytes "a") 10 new_a refl)

Reach-IsManaged_example :
    IsManaged 1 100 (create_session (bytes "a") 10 (init_session_management 1 100)).0
Reach-IsManaged_example = Reach-IsManaged 1 100 _ one_visitor

Reach-get_session-fault_iff_example :
    (get_session 20
        (some (bytes "a"))
        (create_session (bytes "a") 10 (init_session_management 1 100)).0
      ≡ fault)
    ↔ (bytes "a" ≡ placeholder)
Reach-get_session-fault_iff_example = Reach-get_session-fault_iff 1 100 _ one_visitor 20 (bytes "a")

Reach-clear_old_sessions_example :
    (t : Table) × ((create_session (bytes "a") 10 (init_session_management 1 100)).0
      ≡ managed 1 100 t)
    × (clear_old_sessions 200 (create_session (bytes "a") 10 (init_session_management 1 100)).0
        ≡ ok (managed 1 100 (keep (200 - 100) t)))
    × All (λ s. 200 - 100 ≤ s.1.last_accessed) (keep (200 - 100) t)
Reach-clear_old_sessions_example = Reach-clear_old_sessions 1 100 _ one_visitor 200
