-- ===== src/Session/Refinement.antt =====
-- The operations on `sessions`, next to those on the table.
use opendias.Base.{
  ℕ, suc, ◌+◌, ◌<◌, ◌≡◌, refl, ap, ◌≢◌, true, false, none, some, [], ◌∷◌, ◌++◌, arith, ltb,
  if◌then◌else◌, length, All, Bool-cases, Option-cases, inl, inr,
}
use opendias.Base.Exec.{ok, fault}
use mathlib.Core.Option
use opendias.Base.CString.{CString, str_eq, str_eq_iff, str_eq_refl, str_eq_sound}
use opendias.LinkedList.{element, sll_insert, sll_search_keys, sll_count}
use opendias.Session.{
  SessionData, text, session, placeholder, init_session_management, create_session, touch,
  open_session, get_session, clear_step, clear_from, clear_sessions_older_than,
  cleanup_session_management,
}
use opendias.Session.Table.{
  Table, fresh, lookup, access, keep, row, rows, represent, IsNamed, managed,
}

pub init-represent : (n age : ℕ) → (init_session_management n age).sessions ≡ represent []
unfolding init_session_management represent rows
init-represent n age = refl

length-rows : (t : Table) → length (rows t) ≡ length t
unfolding rows
length-rows [] = refl
length-rows (r ∷ t) = ap suc (length-rows t)

pub sll_count-represent : (t : Table) → sll_count (represent t) ≡ length t
unfolding sll_count represent
sll_count-represent t = omega (arith, length-rows t)

rows-append : (t u : Table) → rows (t ++ u) ≡ rows t ++ rows u
unfolding rows
rows-append [] u = refl
rows-append (r ∷ t) u = ap (λ es. row r ∷ es) (rows-append t u)

insert-represent :
    (t : Table) (k : CString) (d : SessionData)
    → sll_insert (represent t) (some k) (some (session d)) ≡ represent (t ++ (k, d) ∷ [])
unfolding sll_insert represent rows
insert-represent [] k d = refl
insert-represent (r ∷ t) k d = rw rows-append refl

search-rows :
    (t : Table) (id : CString)
    → sll_search_keys (rows t) (some id) ≡ Option.map (λ d. row (id, d)) (lookup id t)
unfolding sll_search_keys rows lookup
search-rows [] id = refl
search-rows ((k, d) ∷ t) id = elim (Bool-cases (str_eq k id)) [
  | inl hit ↦ rw (hit, str_eq_sound k id hit) refl
  | inr miss ↦ rw miss (search-rows t id)
]

placeholder-ne : (id : CString) → id ≢ placeholder → str_eq placeholder id ≡ false
placeholder-ne id ne = ground (arith, str_eq_iff placeholder id)

search-represent :
    (t : Table) (id : CString)
    → id ≢ placeholder
    → sll_search_keys (represent t) (some id) ≡ Option.map (λ d. row (id, d)) (lookup id t)
unfolding represent sll_search_keys
search-represent t id ne = rw (placeholder-ne id ne) (search-rows t id)

search-placeholder :
    (t : Table)
    → sll_search_keys (represent t) (some placeholder)
      ≡ some (element (some placeholder) (some (text placeholder)))
unfolding represent sll_search_keys
search-placeholder t = rw (str_eq_refl placeholder) refl

touch-rows : (now : ℕ) (id : CString) (t : Table) → touch now id (rows t) ≡ rows (access now id t)
unfolding touch rows access
touch-rows now id [] = refl
touch-rows now id ((k, d) ∷ t) = elim (Bool-cases (str_eq k id)) [
  | inl hit ↦ rw hit refl
  | inr miss ↦ rw miss (ap (λ es. row (k, d) ∷ es) (touch-rows now id t))
]

touch-represent :
    (now : ℕ) (id : CString) (t : Table)
    → id ≢ placeholder
    → touch now id (represent t) ≡ represent (access now id t)
unfolding touch represent
touch-represent now id t ne =
    rw (placeholder-ne id ne)
      (ap (λ es. element (some placeholder) (some (text placeholder)) ∷ es) (touch-rows now id t))

pub access-missing : (now : ℕ) (id : CString) (t : Table) → lookup id t ≡ none → access now id t ≡ t
unfolding access lookup
access-missing now id [] e = refl
access-missing now id ((k, d) ∷ t) e = ground (arith, access-missing now id t)

module _ (n age : ℕ) (t : Table) where
  -- Whatever name but the placeholder's is asked for, `get_session` finds what the table holds, and
  -- notes the time of the access there and nowhere else.
  pub get_session-lookup :
      (now : ℕ) (id : CString)
      → id ≢ placeholder
      → get_session now (some id) (managed n age t)
        ≡ ok (managed n age (access now id t), Option.map (λ d. d.session_container) (lookup id t))
  unfolding get_session open_session
  get_session-lookup now id ne = elim (Option-cases (lookup id t)) [
    | inl missing ↦
        rw (search-represent t id ne, get_session, missing, access-missing now id t missing) refl
    | inr (d, found) ↦
        rw (search-represent t id ne, get_session, found) (rw (touch-represent now id t ne) refl)
  ]

  -- A visitor who asks for the session "placeholder" makes `get_session` fault.
  pub get_session-placeholder :
      (now : ℕ) → get_session now (some placeholder) (managed n age t) ≡ fault
  unfolding get_session open_session
  get_session-placeholder now = rw (search-placeholder t, get_session) refl

  -- `create_session` refuses where there are more than `MAX_SESSIONS` sessions, and otherwise puts
  -- an empty one behind the others.
  pub create_session-append :
      (uuid : CString) (now : ℕ)
      → create_session uuid now (managed n age t) ≡ (
          if ltb n (length t)
          then (managed n age t, none)
          else (managed n age (t ++ (uuid, fresh now) ∷ []), some uuid))
  unfolding create_session
  create_session-append uuid now =
      rw (sll_count-represent t, insert-represent t uuid (fresh now)) refl

clear_from-rows :
    (oldest : ℕ) (t : Table)
    → IsNamed t
    → clear_from oldest false (rows t) ≡ ok (rows (keep oldest t))
unfolding clear_from clear_step rows keep
clear_from-rows oldest [] h = refl
clear_from-rows oldest ((k, d) ∷ t) h =
    let named : str_eq k placeholder ≡ false = ground (arith, str_eq_iff k placeholder) in
    elim (Bool-cases (ltb d.last_accessed oldest)) [
      | inl old ↦ rw (clear_from-rows oldest t h.1, clear_step, named, old) refl
      | inr recent ↦ rw (clear_from-rows oldest t h.1, clear_step, named, recent) refl
    ]

clear_from-represent :
    (oldest : ℕ) (t : Table)
    → IsNamed t
    → clear_from oldest true (represent t) ≡ ok (represent (keep oldest t))
unfolding clear_from clear_step represent
clear_from-represent oldest t h =
    rw (clear_from-rows oldest t h, clear_step, str_eq_refl placeholder) refl

-- Where no session is named like the placeholder, clearing does not fault: it drops the sessions that
-- were last accessed before the cut-off, and those alone.
pub clear-keep :
    (n age oldest : ℕ) (t : Table)
    → IsNamed t
    → clear_sessions_older_than oldest (managed n age t) ≡ ok (managed n age (keep oldest t))
unfolding clear_sessions_older_than
clear-keep n age oldest t h = rw (clear_from-represent oldest t h) refl

keep-nil : (oldest : ℕ) (t : Table) → All (λ r. r.1.last_accessed < oldest) t → keep oldest t ≡ []
unfolding keep
keep-nil oldest [] h = refl
keep-nil oldest ((k, d) ∷ t) h = ground (arith, keep-nil oldest t)

-- Where no session is named like the placeholder and every session was accessed before the time of
-- the cleanup and 999 seconds, the cleanup
-- leaves none of them for `sll_destroy`.
pub cleanup-nil :
    (n age now : ℕ) (t : Table)
    → IsNamed t
    → All (λ r. r.1.last_accessed < now + 999) t
    → (clear_sessions_older_than (now + 999) (managed n age t) ≡ ok (managed n age []))
      × (cleanup_session_management now (managed n age t) ≡ ok none)
unfolding cleanup_session_management
cleanup-nil n age now t h old =
    let cleared = clear-keep n age (now + 999) t h in
    let nothing = keep-nil (now + 999) t old in (rw nothing at cleared, rw cleared refl)
