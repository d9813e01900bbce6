-- ===== src/PageRender/Users/Changes.antt =====
-- The statements of the changes of users.
use opendias.Base.{
  ◌≡◌, refl, sym, ap, ◌∙◌, ◌≢◌, ◌⊎◌, Bool, true, false, Option, none, some, [], ◌∷◌, ◌++◌,
  Bool-cases, inl, inr, arith,
}
use mathlib.Core.Option.{some-injective}
use mathlib.Core.Path.{subst}
use opendias.Database.Run.{Run, ◌>>=◌, lift, run_query}
use opendias.Database.Binding.{vars_of}
use opendias.Base.Exec.{Exec, ok, fault, ok-injective}
use opendias.Base.CString.{CString, bytes, str_eq, str_eq_iff, differ}
use opendias.Base.Int.{ℤ}
use opendias.LinkedList.{Element, sll_search_keys}
use opendias.Database.{text, Statement, History, Sqlite, RecordSet}
use opendias.Database.Queries.{statement, answer, run_query-vars_of, run_query->>=, run_update->>=}
use opendias.Database.Effects.{
  Gives, Only->>=-Gives, Only, Only-map, Only-return, Only-lift, Only-lift->>=, Only->>=,
  Only-run_query, Only-run_update,
}
use opendias.PageRender.Services.{Services}
use opendias.PageRender.Login.{Session, select_created}
use opendias.PageRender.Users.{
  current_user, select_created_again, insert_user, set_role, set_realname, set_password, is_one,
  user_data, session_user, effective_user, read_created, user_row, change_role, update_realname,
  update_password, update_others, update_fields, update_known, update_if_allowed, update_user,
}

-- The answer to one of the two queries for a user's row.
abbrev pub IsFound : Sqlite → (user : CString) → Option RecordSet → Type 0
IsFound s user row =
    (h : History) × ((row ≡ answer s (statement select_created (text user ∷ []) ∷ h))
      ⊎ (row ≡ answer s (statement select_created_again (text user ∷ []) ∷ h)))

-- The database has answered that the user was made at the time.
abbrev pub IsCreated : Sqlite → (user created : CString) → Type 0
IsCreated s user created =
    (row : Option RecordSet) × IsFound s user row × (read_created row ≡ ok created)

-- What may be done to a user: a new row and a role need the privilege, and the new values are those
-- that are given.
pub data IsChange (s : Sqlite) (v : Services) (can_edit_access : ℤ) (user : CString)
    (realname password role : Option CString) : Statement → Type 0 where
  look :
      IsChange s v can_edit_access user realname password role
        (statement select_created (text user ∷ []))
  look_again :
      IsChange s v can_edit_access user realname password role
        (statement select_created_again (text user ∷ []))
  make :
      is_one can_edit_access ≡ true
      → IsChange s v can_edit_access user realname password role
          (statement insert_user (text user ∷ []))
  give_role :
      is_one can_edit_access ≡ true
      → (r : CString) → role ≡ some r
      → IsChange s v can_edit_access user realname password role
          (statement set_role (text r ∷ text user ∷ []))
  rename :
      (n : CString)
      → realname ≡ some n
      → IsChange s v can_edit_access user realname password role
          (statement set_realname (text n ∷ text user ∷ []))
  lock :
      (created p : CString)
      → IsCreated s user created
      → password ≡ some p
      → IsChange s v can_edit_access user realname password role
          (statement set_password (text (v.str2md5 (created ++ (p ++ user))) ∷ text user ∷ []))

module _ (s : Sqlite) (v : Services) (can_edit_access : ℤ) (lang user : CString)
    (realname password role : Option CString) where
  abbrev P : Statement → Type 0
  P t = IsChange s v can_edit_access user realname password role t

  user_row-Only : (found : Option RecordSet) → Only P (user_row s v can_edit_access lang user found)
  unfolding user_row
  user_row-Only (some r) = Only-return P _
  user_row-Only none = elim (Bool-cases (is_one can_edit_access)) [
    | inl y ↦ rw y (
        Only->>= P _ _ (Only-run_update P s insert_user (text user ∷ []) (make y)) λ _.
          Only->>= P _ _ (Only-run_query P s select_created_again (text user ∷ []) look_again)
            λ _. Only-return P _)
    | inr n ↦ rw n (Only-return P _)
  ]

  -- The row that the change goes on with was found, or was made and then found.
  user_row-IsFound :
      (found row : Option RecordSet)
      → IsFound s user found
      → Gives (user_row s v can_edit_access lang user found) (some row)
      → IsFound s user row
  unfolding user_row
  user_row-IsFound (some r) row is (h, h', e) =
      subst (λ x. IsFound s user x) (some-injective (some r) row (ap (λ p. p.0) (ok-injective e)))
        is
  user_row-IsFound none row is (h, h', e) = elim (Bool-cases (is_one can_edit_access)) [
    | inl y ↦
        let h1 : History = statement insert_user (text user ∷ []) ∷ h in
        let made =
          sym (run_query->>= s select_created_again (text user ∷ []) h1 _)
          ∙ sym (run_update->>= s insert_user (text user ∷ []) h _)
          ∙ (rw y at e) in
        (h1, inr (sym (some-injective _ row (ap (λ p. p.0) (ok-injective made)))))
    | inr n ↦ absurd (none_some row (ap (λ p. p.0) (ok-injective (rw n at e))))
  ]
    where
      none_some : (r : Option RecordSet) → none ≢ some r
      none_some r e = cc

  change_role-Only : Only P (change_role s v can_edit_access lang user role)
  unfolding change_role
  change_role-Only = given role refl
    where
      given : (o : Option CString) → role ≡ o → Only P (change_role s v can_edit_access lang user o)
      given none e = Only-return P _
      given (some r) e = elim (Bool-cases (is_one can_edit_access)) [
        | inl y ↦ rw y (
            Only->>= P _ _
              (Only-run_update P s set_role (text r ∷ text user ∷ []) (give_role y r e))
              λ _. Only-return P _)
        | inr n ↦ rw n (Only-return P _)
      ]

  update_realname-Only : Only P (update_realname s v can_edit_access lang user realname)
  unfolding update_realname
  update_realname-Only = given realname refl
    where
      given :
          (o : Option CString)
          → realname ≡ o
          → Only P (update_realname s v can_edit_access lang user o)
      given none e = Only-return P _
      given (some n) e = Only-run_update P s set_realname (text n ∷ text user ∷ []) (rename n e)

  update_password-Only :
      (created : CString)
      → IsCreated s user created
      → Only P (update_password s v can_edit_access lang user created password)
  unfolding update_password
  update_password-Only created is = given password refl
    where
      given :
          (o : Option CString)
          → password ≡ o
          → Only P (update_password s v can_edit_access lang user created o)
      given none e = Only-return P _
      given (some p) e = Only-run_update P s set_password _ (lock created p is e)

  update_others-Only :
      (created : CString) (allowed : Bool)
      → IsCreated s user created
      → Only P (update_others s v can_edit_access lang user created realname password allowed)
  unfolding update_others
  update_others-Only created false is = Only-return P _
  update_others-Only created true is =
      Only->>= P _ _ update_realname-Only
        λ _. Only->>= P _ _ (update_password-Only created is) λ _. Only-return P _

  update_fields-Only :
      (row : Option (Option RecordSet))
      → ((r : Option RecordSet) → row ≡ some r → IsFound s user r)
      → Only P (update_fields s v can_edit_access lang user realname password role row)
  unfolding update_fields
  update_fields-Only none is = Only-return P _
  update_fields-Only (some row) is = Only-lift->>= P (read_created row) _ λ created e.
      Only->>= P _ _ change_role-Only
        λ allowed. update_others-Only created allowed (row, is row refl, e)

  answered-IsFound :
      (found : Option RecordSet)
      → Gives (run_query s select_created (some (vars_of (text user ∷ [])))) found
      → IsFound s user found
  answered-IsFound found (h, h', e) = (
    h,
    inl (
        sym (
          ap (λ p. p.0)
            (ok-injective (sym (run_query-vars_of s select_created (text user ∷ []) h) ∙ e)))),
  )

  update_known-Only : Only P (update_known s v can_edit_access lang user realname password role)
  unfolding update_known
  update_known-Only =
      Only->>=-Gives P _ _ (Only-run_query P s select_created (text user ∷ []) look) λ found asked.
        Only->>=-Gives P _ _ (user_row-Only found) λ row kept. update_fields-Only row λ r e.
          user_row-IsFound found r (answered-IsFound found asked)
            (subst (λ x. Gives (user_row s v can_edit_access lang user found) x) e kept)

-- The user of the session for "[current]", or another one that is named, for a client with the privilege.
abbrev pub IsMeant : Session → (username : CString) → ℤ → (user : CString) → Type 0
IsMeant session username can_edit_access user =
    ((username ≡ current_user)
      × ((e : Element CString) × (sll_search_keys session (some (bytes "username")) ≡ some e)
          × (e.value ≡ some user)))
    ⊎ ((username ≢ current_user) × (is_one can_edit_access ≡ true) × (user ≡ username))

user_data-some :
    (value : Option CString) (user : CString) → user_data value ≡ ok (some user) → value ≡ some user
unfolding user_data
user_data-some none user p = cc
user_data-some (some u) user p = ok-injective p

session_user-some :
    (found : Option (Element CString)) (user : CString)
    → session_user found ≡ ok (some user)
    → (e : Element CString) × (found ≡ some e) × (e.value ≡ some user)
unfolding session_user
session_user-some none user p = cc
session_user-some (some e) user p = (e, refl, user_data-some e.value user p)

effective_user-IsMeant :
    (session : Session) (username : CString) (can_edit_access : ℤ) (user : CString)
    → effective_user session username can_edit_access ≡ ok (some user)
    → IsMeant session username can_edit_access user
unfolding effective_user
effective_user-IsMeant session username can_edit_access user p =
    elim (Bool-cases (str_eq username current_user)) [
      | inl y ↦ inl ((str_eq_iff username current_user).0 y, session_user-some _ user (rw y at p))
      | inr n ↦ elim (Bool-cases (is_one can_edit_access)) [
        | inl y ↦ inr (
          differ username current_user n,
          y,
          sym (some-injective username user (ok-injective (rw (n, y) at p))),
        )
        | inr z ↦ absurd (ground (arith, ok-injective (rw (n, z) at p)))
      ]
    ]

-- All that `updateUser` gives the database is a change of one user, or nothing.
abbrev pub IsUserUpdate :
    Sqlite
    → Services
    → Session
    → (username : CString) (realname password role : Option CString) (can_edit_access : ℤ)
    → Run CString
    → Type 0
IsUserUpdate s v session username realname password role can_edit_access m =
    ((user : CString) × IsMeant session username can_edit_access user
      × Only (IsChange s v can_edit_access user realname password role) m)
    ⊎ Only (λ t. ⊥) m

-- `updateUser` gives the database only statements on one and the same user, or none: that of the session
-- for "[current]", or another one that is named, for a client with the privilege. It makes the user and
-- gives the role only for a client with the privilege. The role and the real name are those that are
-- given, and the password that it sets is the MD5 hash of three texts: the time of the user's making, as
-- the database answers it, the password that is given, and the user's name.
pub update_user-IsUserUpdate :
    (s : Sqlite) (v : Services) (username : CString) (realname password role : Option CString)
    (can_edit_access : ℤ) (session : Session) (lang : CString)
    → IsUserUpdate s v session username realname password role can_edit_access
        (update_user s v username realname password role can_edit_access session lang)
unfolding update_user update_if_allowed
update_user-IsUserUpdate s v username realname password role can_edit_access session lang =
    meant (effective_user session username can_edit_access) refl
  where
    meant :
        (x : Exec (Option CString))
        → effective_user session username can_edit_access ≡ x
        → IsUserUpdate s v session username realname password role can_edit_access
            (lift x >>= update_if_allowed s v realname password role can_edit_access lang)
    meant fault e = inr (Only-lift (λ _. ⊥) fault)
    meant (ok none) e = inr (Only-return _ _)
    meant (ok (some user)) e = inl (
      user,
      effective_user-IsMeant session username can_edit_access user e,
      update_known-Only s v can_edit_access lang user realname password role,
    )

-- The same of each statement by itself.
pub update_user-Only :
    (s : Sqlite) (v : Services) (username : CString) (realname password role : Option CString)
    (can_edit_access : ℤ) (session : Session) (lang : CString)
    → Only
        (λ t.
          (user : CString) × IsMeant session username can_edit_access user
          × IsChange s v can_edit_access user realname password role t)
        (update_user s v username realname password role can_edit_access session lang)
update_user-Only s v username realname password role can_edit_access session lang =
    elim (update_user-IsUserUpdate s v username realname password role can_edit_access session
      lang) [
        | inl (user, is, only) ↦ Only-map (λ t c. (user, is, c)) only
        | inr only ↦ Only-map (λ t c. absurd c) only
      ]
