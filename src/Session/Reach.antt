-- ===== src/Session/Reach.antt =====
-- What holds of the sessions after any sequence of calls from the start of the program.
use opendias.Base.{
  ℕ, ◌+◌, ◌-◌, ◌≤◌, ◌≡◌, refl, sym, ap, ◌≢◌, ◌↔◌, Option, none, some, [], ◌∷◌, ◌++◌, arith, ltb,
  length, length-append, All, All-append, Bool-cases, inl, inr,
}
use opendias.Base.Exec.{ok, fault}
use opendias.Base.CString.{CString, str_eq, str_eq_iff, str_eq_sound}
use opendias.LinkedList.{Sll, sll_count}
use opendias.LinkedList.Search.{HasKey}
use opendias.Session.{
  SessionData, Manager, placeholder, init_session_management, create_session, get_session,
  clear_old_sessions,
}
use opendias.Session.Table.{Table, fresh, access, keep, rows, represent, IsNamed, managed}
use opendias.Session.Refinement.{
  get_session-lookup, get_session-placeholder, create_session-append, clear-keep,
  sll_count-represent,
}

-- One call. An identifier that `uuid_generate` makes is in use nowhere.
pub data Step (m m' : Manager) : Type 0 where
  created :
      (uuid : CString) (now : ℕ)
      → ¬ HasKey m.sessions (some uuid)
      → m' ≡ (create_session uuid now m).0
      → Step m m'
  opened :
      (now : ℕ) (id : Option CString) (r : Option (Sll CString))
      → get_session now id m ≡ ok (m', r)
      → Step m m'
  expired : (now : ℕ) → clear_old_sessions now m ≡ ok m' → Step m m'

pub data Reach (n age : ℕ) : Manager → Type 0 where
  start : Reach n age (init_session_management n age)
  next : {m m' : Manager} → Reach n age m → Step m m' → Reach n age m'

-- No identifier occurs twice.
abbrev pub IsDistinct : Table → Type 0
IsDistinct [] = Unit
IsDistinct ((k, d) ∷ t) = All (λ r. r.0 ≢ k) t × IsDistinct t

-- At most one session more than `MAX_SESSIONS`, and no name twice or like the placeholder's.
pub record IsTable (n : ℕ) (t : Table) : Type 0 where
  pub named : IsNamed t
  pub distinct : IsDistinct t
  pub bounded : length t ≤ n + 1

-- The state stands for such a table.
abbrev pub IsManaged : ℕ → ℕ → Manager → Type 0
IsManaged n age m = (t : Table) × (m ≡ managed n age t) × IsTable n t

module _ (P : CString → Type 0) where
  All-access :
      (now : ℕ) (id : CString) (t : Table) → All (λ r. P r.0) t → All (λ r. P r.0) (access now id t)
  unfolding access
  All-access now id [] h = tt
  All-access now id ((k, d) ∷ t) h = elim (Bool-cases (str_eq k id)) [
    | inl hit ↦ rw hit h
    | inr miss ↦ rw miss (h.0, All-access now id t h.1)
  ]

  All-keep : (oldest : ℕ) (t : Table) → All (λ r. P r.0) t → All (λ r. P r.0) (keep oldest t)
  unfolding keep
  All-keep oldest [] h = tt
  All-keep oldest ((k, d) ∷ t) h = elim (Bool-cases (ltb d.last_accessed oldest)) [
    | inl old ↦ rw old (All-keep oldest t h.1)
    | inr recent ↦ rw recent (h.0, All-keep oldest t h.1)
  ]

access-IsDistinct :
    (now : ℕ) (id : CString) (t : Table) → IsDistinct t → IsDistinct (access now id t)
unfolding access
access-IsDistinct now id [] h = tt
access-IsDistinct now id ((k, d) ∷ t) h = elim (Bool-cases (str_eq k id)) [
  | inl hit ↦ rw hit h
  | inr miss ↦ rw miss (All-access (λ j. j ≢ k) now id t h.0, access-IsDistinct now id t h.1)
]

keep-IsDistinct : (oldest : ℕ) (t : Table) → IsDistinct t → IsDistinct (keep oldest t)
unfolding keep
keep-IsDistinct oldest [] h = tt
keep-IsDistinct oldest ((k, d) ∷ t) h = elim (Bool-cases (ltb d.last_accessed oldest)) [
  | inl old ↦ rw old (keep-IsDistinct oldest t h.1)
  | inr recent ↦ rw recent (All-keep (λ j. j ≢ k) oldest t h.0, keep-IsDistinct oldest t h.1)
]

length-access : (now : ℕ) (id : CString) (t : Table) → length (access now id t) ≡ length t
unfolding access
length-access now id [] = refl
length-access now id ((k, d) ∷ t) = ground (arith, length-access now id t)

length-keep : (oldest : ℕ) (t : Table) → length (keep oldest t) ≤ length t
unfolding keep
length-keep oldest [] = omega arith
length-keep oldest ((k, d) ∷ t) = ground (arith, length-keep oldest t)

append-IsDistinct :
    (t : Table) (r : CString × SessionData)
    → IsDistinct t
    → All (λ s. s.0 ≢ r.0) t
    → IsDistinct (t ++ r ∷ [])
append-IsDistinct [] r h a = (tt, tt)
append-IsDistinct ((k, d) ∷ t) r h a = (
  All-append (λ s. s.0 ≢ k) t (r ∷ []) h.0 ((λ e. a.0 (sym e)), tt),
  append-IsDistinct t r h.1 a.1,
)

unused : (t : Table) (uuid : CString) → ¬ HasKey (rows t) (some uuid) → All (λ r. r.0 ≢ uuid) t
unfolding rows
unused [] uuid h = tt
unused ((k, d) ∷ t) uuid h = ((λ e. h (inl (ap some e))), unused t uuid (λ m. h (inr m)))

unused_name : (t : Table) (uuid : CString) → ¬ HasKey (represent t) (some uuid) → uuid ≢ placeholder
unfolding represent
unused_name t uuid h e = h (inl (ap some (sym e)))

unused_rows :
    (t : Table) (uuid : CString)
    → ¬ HasKey (represent t) (some uuid)
    → ¬ HasKey (rows t) (some uuid)
unfolding represent
unused_rows t uuid h m = h (inr m)

module _ (n age : ℕ) (t : Table) (is : IsTable n t) where
  created-IsManaged :
      (uuid : CString) (now : ℕ)
      → ¬ HasKey (represent t) (some uuid)
      → IsManaged n age (create_session uuid now (managed n age t)).0
  created-IsManaged uuid now new = elim (Bool-cases (ltb n (length t))) [
    | inl full ↦ (t, rw (create_session-append n age t uuid now, full) refl, is)
    | inr room ↦ (
      t ++ (uuid, fresh now) ∷ [],
      rw (create_session-append n age t uuid now, room) refl,
      record {
        named = All-append (λ r. r.0 ≢ placeholder) t _ is.named (unused_name t uuid new, tt);
        distinct =
            append-IsDistinct t (uuid, fresh now) is.distinct
              (unused t uuid (unused_rows t uuid new));
        bounded = ground (arith, length-append t ((uuid, fresh now) ∷ []));
      },
    )
  ]

  access-IsTable : (now : ℕ) (id : CString) → IsTable n (access now id t)
  access-IsTable now id = record {
    named = All-access (λ j. j ≢ placeholder) now id t is.named;
    distinct = access-IsDistinct now id t is.distinct;
    bounded = omega (arith, length-access now id t, is.bounded);
  }

  keep-IsTable : (oldest : ℕ) → IsTable n (keep oldest t)
  keep-IsTable oldest = record {
    named = All-keep (λ j. j ≢ placeholder) oldest t is.named;
    distinct = keep-IsDistinct oldest t is.distinct;
    bounded = omega (arith, length-keep oldest t, is.bounded);
  }

init-IsManaged : (n age : ℕ) → IsManaged n age (init_session_management n age)
unfolding init_session_management represent rows
init-IsManaged n age = ([], refl, record { named = tt; distinct = tt; bounded = omega arith })

opened-IsManaged :
    (n age now : ℕ) (t : Table) (id : Option CString) (m' : Manager) (r : Option (Sll CString))
    → IsTable n t
    → get_session now id (managed n age t) ≡ ok (m', r)
    → IsManaged n age m'
unfolding get_session
opened-IsManaged n age now t none m' r is e = (t, cc, is)
opened-IsManaged n age now t (some id) m' r is e = elim (Bool-cases (str_eq id placeholder)) [
  | inl hit ↦
      let same : id ≡ placeholder = str_eq_sound _ _ hit in
      let faults = get_session-placeholder n age t now in absurd (cc)
  | inr miss ↦
      let ne : id ≢ placeholder = ground (arith, str_eq_iff id placeholder) in
      let found = get_session-lookup n age t now id ne in
      (access now id t, cc, access-IsTable n age t is now id)
]

Step-IsManaged :
    (n age : ℕ) (t : Table) (m' : Manager)
    → IsTable n t
    → Step (managed n age t) m'
    → IsManaged n age m'
unfolding clear_old_sessions
Step-IsManaged n age t m' is (created uuid now new e) =
    rw e (created-IsManaged n age t is uuid now new)
Step-IsManaged n age t m' is (opened now id r e) = opened-IsManaged n age now t id m' r is e
Step-IsManaged n age t m' is (expired now e) =
    let cleared = clear-keep n age (now - age) t is.named in
    (keep (now - age) t, cc, keep-IsTable n age t is (now - age))

-- Every state that calls reach from `init_session_management` is a table of sessions behind the
-- placeholder: no identifier twice, none like the placeholder's, at most `MAX_SESSIONS` + 1.
pub Reach-IsManaged : (n age : ℕ) (m : Manager) → Reach n age m → IsManaged n age m
Reach-IsManaged n age _ start = init-IsManaged n age
Reach-IsManaged n age m' (next {m} r s) =
    let (t, e, is) = Reach-IsManaged n age m r in Step-IsManaged n age t m' is (rw e at s)

keep-recent : (oldest : ℕ) (t : Table) → All (λ s. oldest ≤ s.1.last_accessed) (keep oldest t)
unfolding keep
keep-recent oldest [] = tt
keep-recent oldest ((k, d) ∷ t) = ground (arith, keep-recent oldest t)

module _ (n age : ℕ) (m : Manager) (r : Reach n age m) where
  -- There are never more than `MAX_SESSIONS` + 1 sessions, however the calls are ordered.
  pub Reach-sll_count : sll_count m.sessions ≤ n + 1
  Reach-sll_count =
      let (t, e, is) = Reach-IsManaged n age m r in
      rw e (omega (arith, sll_count-represent t, is.bounded))

  -- `get_session` faults in no reachable state but where the session "placeholder" is asked for.
  pub Reach-get_session-fault_iff :
      (now : ℕ) (id : CString) → (get_session now (some id) m ≡ fault) ↔ (id ≡ placeholder)
  Reach-get_session-fault_iff now id =
      let (t, e, is) = Reach-IsManaged n age m r in
      (
        λ f. elim (Bool-cases (str_eq id placeholder)) [
          | inl hit ↦ str_eq_sound _ _ hit
          | inr miss ↦
              let ne : id ≢ placeholder = ground (arith, str_eq_iff id placeholder) in
              let found = get_session-lookup n age t now id ne in absurd (cc)
        ],
        λ same. rw (e, same) (get_session-placeholder n age t now),
      )

  -- Expiring the sessions faults in no reachable state: it keeps exactly the sessions of the table
  -- that were last accessed at most `MAX_AGE` ago.
  pub Reach-clear_old_sessions :
      (now : ℕ)
      → (t : Table) × (m ≡ managed n age t)
        × (clear_old_sessions now m ≡ ok (managed n age (keep (now - age) t)))
        × All (λ s. now - age ≤ s.1.last_accessed) (keep (now - age) t)
  unfolding clear_old_sessions
  Reach-clear_old_sessions now =
      let (t, e, is) = Reach-IsManaged n age m r in
      (t, e, rw e (clear-keep n age (now - age) t is.named), keep-recent (now - age) t)
