-- ===== src/WebHandler/Connection/Visit.antt =====
-- The session that a visitor gets.
use opendias.Base.{
  ℕ, ◌≡◌, refl, ap, ◌≢◌, Option, none, some, [], ◌∷◌, ◌++◌, ltb, if◌then◌else◌, length, arith,
  Bool-cases, Option-cases, inl, inr,
}
use opendias.Base.Exec.{ok}
use opendias.Base.CString.{CString, str_eq, str_eq_refl}
use opendias.LinkedList.{Sll, sll_init}
use opendias.Session.{SessionData, Manager, placeholder, get_session}
use opendias.Session.Table.{Table, fresh, lookup, access, managed}
use opendias.Session.Refinement.{access-missing, get_session-lookup, create_session-append}
use opendias.WebHandler.Site.{Site}
use opendias.WebHandler.Connection.{new_session, find_session}

-- No session has this identifier.
abbrev pub IsUnused : CString → Table → Type 0
IsUnused uuid t = (lookup uuid t ≡ none) × (uuid ≢ placeholder)

lookup-append :
    (t : Table) (uuid : CString) (d : SessionData)
    → lookup uuid t ≡ none
    → lookup uuid (t ++ (uuid, d) ∷ []) ≡ some d
unfolding lookup
lookup-append [] uuid d h = rw (str_eq_refl uuid) refl
lookup-append ((k, e) ∷ t) uuid d h = ground (arith, lookup-append t uuid d)

access-append :
    (t : Table) (now : ℕ) (uuid : CString)
    → lookup uuid t ≡ none
    → access now uuid (t ++ (uuid, fresh now) ∷ []) ≡ t ++ (uuid, fresh now) ∷ []
unfolding lookup access
access-append [] now uuid h = rw (str_eq_refl uuid) refl
access-append ((k, e) ∷ t) now uuid h = elim (Bool-cases (str_eq k uuid)) [
  | inl hit ↦ absurd (ground arith)
  | inr miss ↦ rw miss (ap (λ r. (k, e) ∷ r) (access-append t now uuid (rw miss at h)))
]

module _ (site : Site) (n age now : ℕ) (t : Table) (uuid : CString) (new : IsUnused uuid t) where
  -- The session that is made for a visitor, where there is room.
  abbrev pub Made : Type 0
  Made = new_session site now uuid (managed n age t) ≡ (
      if ltb n (length t)
      then ok (managed n age t, none, none)
      else ok (managed n age (t ++ (uuid, fresh now) ∷ []), some uuid, some sll_init))

  new_session-made : Made
  unfolding new_session get_session
  new_session-made = elim (Bool-cases (ltb n (length t))) [
    | inl full ↦ rw (create_session-append n age t uuid now, full) refl
    | inr room ↦
        rw
          (
            create_session-append n age t uuid now,
            room,
            get_session-lookup n age (t ++ (uuid, fresh now) ∷ []) now uuid new.1,
            lookup-append t uuid (fresh now) new.0,
            access-append t now uuid new.0,
          )
          refl
  ]

  -- A visitor with the cookie of a session gets the data of that session, and the time is noted
  -- there. With any other cookie but the placeholder's the visitor gets an empty session under a new
  -- identifier, or none where there are more than `MAX_SESSIONS` sessions.
  pub find_session-visit :
      (sid : CString)
      → sid ≢ placeholder
      → find_session site now uuid (some sid) (managed n age t) ≡ (elim (lookup sid t) [
        | some d ↦ ok (managed n age (access now sid t), some sid, some d.session_container)
        | none ↦
            if ltb n (length t)
            then ok (managed n age t, none, none)
            else ok (managed n age (t ++ (uuid, fresh now) ∷ []), some uuid, some sll_init)
      ])
  unfolding find_session
  find_session-visit sid ne = elim (Option-cases (lookup sid t)) [
    | inl missing ↦
        rw (get_session-lookup n age t now sid ne, missing, access-missing now sid t missing)
          new_session-made
    | inr (d, found) ↦ rw (get_session-lookup n age t now sid ne, found) refl
  ]

  -- With any cookie but the placeholder's, and without one, the search ends.
  pub find_session-returns :
      (cookie : Option CString)
      → cookie ≢ some placeholder
      → (found : Manager × Option CString × Option (Sll CString)) × (find_session site now uuid
            cookie
            (managed n age t)
          ≡ ok found)
  unfolding find_session get_session
  find_session-returns none ne = elim (Bool-cases (ltb n (length t))) [
    | inl full ↦ rw (new_session-made, full) (_, refl)
    | inr room ↦ rw (new_session-made, room) (_, refl)
  ]
  find_session-returns (some sid) ne =
      let visit = find_session-visit sid (λ e. ne (ap (λ x. some x) e)) in
      elim (Option-cases (lookup sid t)) [
        | inr (d, found) ↦ (_, rw found at visit)
        | inl missing ↦ elim (Bool-cases (ltb n (length t))) [
          | inl full ↦ (_, rw (missing, full) at visit)
          | inr room ↦ (_, rw (missing, room) at visit)
        ]
      ]
