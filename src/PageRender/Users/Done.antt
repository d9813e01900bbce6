-- ===== src/PageRender/Users/Done.antt =====
-- What a change of a user does that the client may make, and what the other handlers of users do.
use opendias.Base.{
  append_assoc, ◌≡◌, refl, sym, ap, ◌∙◌, ◌≢◌, ◌⊎◌, true, Option, none, some, List, [], ◌∷◌, ◌++◌,
  Bool-cases, inl, inr, arith,
}
use opendias.Base.Exec.{ok}
use opendias.Base.CString.{CString, bytes, str_eq, differ}
use opendias.Base.Int.{ℤ}
use opendias.Database.{text, Statement, History, Sqlite, RecordSet, read_data}
use opendias.Database.Run.{Run, ◌>>=◌}
use opendias.Database.Queries.{
  statement, answer, run_query->>=, run_update->>=, lift->>=-ok, >>=-returned,
}
use opendias.Database.Effects.{Only, Only-return, Only->>=, Only-run_update}
use opendias.PageRender.Services.{Services}
use opendias.PageRender.Login.{Session, select_created}
use opendias.PageRender.Users.{
  set_role, set_realname, set_password, is_one, user_updated, delete_from_users, effective_user,
  user_row, change_role, update_realname, update_password, update_others, update_fields,
  update_known, update_if_allowed, update_user, delete_user,
}

-- The statement for a value that is given.
abbrev pub when_given : (CString → Statement) → Option CString → List Statement
when_given f none = []
when_given f (some x) = f x ∷ []

assoc_twice : (a b c d : List Statement) → a ++ (b ++ (c ++ d)) ≡ (a ++ (b ++ c)) ++ d
assoc_twice a b c d = ap (λ l. a ++ l) (sym (append_assoc b c d)) ∙ sym (append_assoc a (b ++ c) d)

module _ (s : Sqlite) (v : Services) (can_edit_access : ℤ) (lang user : CString) where
  abbrev to_role : Option CString → List Statement
  to_role role = when_given (λ r. statement set_role (text r ∷ text user ∷ [])) role

  abbrev to_realname : Option CString → List Statement
  to_realname realname = when_given (λ n. statement set_realname (text n ∷ text user ∷ [])) realname

  abbrev to_password : (created : CString) → Option CString → List Statement
  to_password created password =
      when_given
        (λ p. statement set_password (text (v.str2md5 (created ++ (p ++ user))) ∷ text user ∷ []))
        password

  -- The changes, the last one first: the password, the real name, the role.
  abbrev pub changes :
      (created : CString) (realname password role : Option CString) → List Statement
  changes created realname password role =
      to_password created password ++ (to_realname realname ++ to_role role)

  change_role-done :
      (role : Option CString) (h : History)
      → (role ≡ none) ⊎ (is_one can_edit_access ≡ true)
      → change_role s v can_edit_access lang user role h ≡ ok (true, to_role role ++ h)
  unfolding change_role
  change_role-done none h m = refl
  change_role-done (some role) h m =
      rw (may m) (run_update->>= s set_role (text role ∷ text user ∷ []) h _)
    where
      may : (some role ≡ none) ⊎ (is_one can_edit_access ≡ true) → is_one can_edit_access ≡ true
      may (inl z) = absurd (ground (arith, z))
      may (inr y) = y

  update_realname->>= :
      {A : Type 0} (realname : Option CString) (h : History) (m : Run A)
      → (update_realname s v can_edit_access lang user realname >>= λ _. m) h
        ≡ m (to_realname realname ++ h)
  unfolding update_realname
  update_realname->>= none h m = refl
  update_realname->>= (some realname) h m =
      run_update->>= s set_realname (text realname ∷ text user ∷ []) h _

  update_password->>= :
      {A : Type 0} (created : CString) (password : Option CString) (h : History) (m : Run A)
      → (update_password s v can_edit_access lang user created password >>= λ _. m) h
        ≡ m (to_password created password ++ h)
  unfolding update_password
  update_password->>= created none h m = refl
  update_password->>= created (some password) h m = run_update->>= s set_password _ h _

  update_fields-done :
      (realname password role : Option CString) (r : RecordSet) (created : CString) (h : History)
      → read_data r (bytes "created") ≡ ok created
      → (role ≡ none) ⊎ (is_one can_edit_access ≡ true)
      → update_fields s v can_edit_access lang user realname password role (some (some r)) h
        ≡ ok (user_updated, changes created realname password role ++ h)
  unfolding update_fields update_others
  update_fields-done realname password role r created h c m =
      lift->>=-ok _ h c
      ∙ >>=-returned (change_role s v can_edit_access lang user role) _ h
          (change_role-done role h m)
      ∙ update_realname->>= realname _ _
      ∙ update_password->>= created password _ _
      ∙ ap (λ l. ok (user_updated, l))
          (assoc_twice (to_password created password) (to_realname realname) (to_role role) h)

  update_known-done :
      (realname password role : Option CString) (r : RecordSet) (created : CString) (h : History)
      → answer s (statement select_created (text user ∷ []) ∷ h) ≡ some r
      → read_data r (bytes "created") ≡ ok created
      → (role ≡ none) ⊎ (is_one can_edit_access ≡ true)
      → update_known s v can_edit_access lang user realname password role h
        ≡ ok (
          user_updated,
          changes created realname password role ++ statement select_created (text user ∷ []) ∷ h,
        )
  unfolding update_known user_row
  update_known-done realname password role r created h a c m =
      let h1 : History = statement select_created (text user ∷ []) ∷ h in
      run_query->>= s select_created (text user ∷ []) h _
      ∙ >>=-returned (user_row s v can_edit_access lang user (answer s h1))
          (update_fields s v can_edit_access lang user realname password role) h1
          (ap (λ o. user_row s v can_edit_access lang user o h1) a)
      ∙ update_fields-done realname password role r created h1 c m

module _ (s : Sqlite) (v : Services) where
  -- For a client that may change the user, and may give a role where one is given, `updateUser` on a
  -- user that has a row gives the database one query and then the statements for the role, the real
  -- name and the password that are given, and no others, and answers OK.
  pub update_user-done :
      (username : CString) (realname password role : Option CString) (can_edit_access : ℤ)
      (session : Session) (lang : CString) (h : History) (user : CString) (r : RecordSet)
      (created : CString)
      → effective_user session username can_edit_access ≡ ok (some user)
      → answer s (statement select_created (text user ∷ []) ∷ h) ≡ some r
      → read_data r (bytes "created") ≡ ok created
      → (role ≡ none) ⊎ (is_one can_edit_access ≡ true)
      → update_user s v username realname password role can_edit_access session lang h
        ≡ ok (
          user_updated,
          changes s v can_edit_access lang user created realname password role
              ++ statement select_created (text user ∷ []) ∷ h,
        )
  unfolding update_user update_if_allowed
  update_user-done username realname password role can_edit_access session lang h user r created e a
        c m =
      lift->>=-ok _ h e
      ∙ update_known-done s v can_edit_access lang user realname password role r created h a c m

  -- `deleteUser` deletes the rows of the named user, and gives no other statement; for "admin" it gives
  -- none.
  pub delete_user-Only :
      (username lang : CString)
      → Only
          (λ t. (t ≡ statement delete_from_users (text username ∷ [])) × (username ≢ bytes "admin"))
          (delete_user s v username lang)
  unfolding delete_user
  delete_user-Only username lang = elim (Bool-cases (str_eq username (bytes "admin"))) [
    | inl y ↦ rw y (Only-return _ _)
    | inr n ↦ rw n (
        Only->>= _ _ _
          (Only-run_update _ s delete_from_users (text username ∷ [])
            (refl, differ username (bytes "admin") n))
          λ _. Only-return _ _)
  ]
