-- ===== src/PageRender/Login/Outcome.antt =====
-- What a login attempt that is not throttled asks the database, and how it ends.
use opendias.Base.{
  ℕ, ◌≡◌, refl, sym, ap, ◌∙◌, ◌⊎◌, Option, none, some, List, [], ◌∷◌, ◌++◌, inl, inr,
}
use opendias.Base.Exec.{Exec, ok, ok-injective}
use opendias.Base.CString.{CString, bytes}
use opendias.LinkedList.{sll_insert}
use opendias.Database.{Value, text, History, Sqlite, RecordSet, read_data, next_row}
use opendias.Database.Queries.{lift->>=, statement, answer, run_query->>=, run_update->>=}
use opendias.PageRender.Services.{Services}
use opendias.PageRender.Login.{
  Session, next_login_attempt, select_created, update_last_access, select_login, login_failed,
  login_done, refused_login, keep_login, match_password, match_user, try_login,
}

-- The parts of a result.
pub ended :
    {session session' : Session} {end end' : Option CString} {h h' : History}
    → ◌≡◌ {A = Exec ((Session × Option CString) × History)}
        (ok ((session, end), h))
        (ok ((session', end'), h'))
    → (session' ≡ session) × (end' ≡ end) × (h' ≡ h)
ended e = let p = sym (ok-injective e) in (ap (λ o. o.0.0) p, ap (λ o. o.0.1) p, ap (λ o. o.1) p)

module _ (s : Sqlite) (v : Services) (username password lang : CString) (now : ℕ) where
  -- The statements of an attempt.
  abbrev asked_user : History → History
  asked_user h = statement select_created (text username ∷ []) ∷ h

  abbrev asked_password : CString → History → History
  asked_password hash h =
      statement select_login (text username ∷ text hash ∷ [])
      ∷ statement update_last_access (text username ∷ text hash ∷ [])
      ∷ asked_user h

  -- The user has a row, and one row has the name and the hash of the password; the session takes the
  -- name, the real name and the role.
  pub record IsIdentified (session : Session) (h : History) (session' : Session) (h' : History)
      : Type 0 where
    pub user : RecordSet
    pub account : RecordSet
    pub created : CString
    pub realname : CString
    pub role : CString
    pub known : answer s (asked_user h) ≡ some user
    pub salted : read_data user (bytes "created") ≡ ok created
    pub last : h' ≡ asked_password (v.str2md5 (created ++ (password ++ username))) h
    pub matched : answer s h' ≡ some account
    pub single : next_row account ≡ none
    pub named : read_data account (bytes "realname") ≡ ok realname
    pub privileged : read_data account (bytes "role") ≡ ok role
    pub identity :
        session'
        ≡ sll_insert
            (sll_insert
              (sll_insert session (some (bytes "username")) (some username))
              (some (bytes "realname"))
              (some realname))
            (some (bytes "role"))
            (some role)

  -- Refused, an error of the program, or done.
  abbrev pub Ending : Session → History → Session → Option CString → History → Type 0
  Ending session h session' end h' =
      ((session' ≡ sll_insert session (some next_login_attempt) (some (v.print_time now)))
        × (end ≡ some (login_failed v (bytes "LOCAL_bad_login") lang)))
      ⊎ ((end ≡ none) ⊎ ((end ≡ some login_done) × IsIdentified session h session' h'))

  module _ (session : Session) (h : History) (session' : Session) (end : Option CString)
      (h' : History) where
    -- The answer to the second query decides.
    match_password-Ending :
        (user : RecordSet) (created : CString) (found : Option RecordSet)
        → answer s (asked_user h) ≡ some user
        → read_data user (bytes "created") ≡ ok created
        → answer s (asked_password (v.str2md5 (created ++ (password ++ username))) h) ≡ found
        → match_password s v username password lang now session found
            (asked_password (v.str2md5 (created ++ (password ++ username))) h)
          ≡ ok ((session', end), h')
        → Ending session h session' end h'
    unfolding match_password refused_login keep_login
    match_password-Ending user created none u c m e = let (a, b, _) = ended e in inl (a, b)
    match_password-Ending user created (some account) u c m e =
        let (realname, r, e1) = lift->>= (read_data account (bytes "realname")) _ _ e in
        let (role, o, e2) = lift->>= (read_data account (bytes "role")) _ _ e1 in
        kept realname role r o (next_row account) refl e2
      where
        kept :
            (realname role : CString)
            → read_data account (bytes "realname") ≡ ok realname
            → read_data account (bytes "role") ≡ ok role
            → (more : Option RecordSet) → next_row account ≡ more
            → keep_login session username realname role more
                (asked_password (v.str2md5 (created ++ (password ++ username))) h)
              ≡ ok ((session', end), h')
            → Ending session h session' end h'
        kept realname role r o (some second) z e = let (_, b, _) = ended e in inr (inl b)
        kept realname role r o none z e =
            let (a, b, l) = ended e in
            inr (
              inr (
                b,
                record {
                  user = user;
                  account = account;
                  created = created;
                  realname = realname;
                  role = role;
                  known = u;
                  salted = c;
                  last = l;
                  matched = rw l m;
                  single = z;
                  named = r;
                  privileged = o;
                  identity = a;
                },
              ))

    match_user-Ending :
        (found : Option RecordSet)
        → answer s (asked_user h) ≡ found
        → match_user s v username password lang now session found (asked_user h)
          ≡ ok ((session', end), h')
        → Ending session h session' end h'
    unfolding match_user refused_login
    match_user-Ending none u e = let (a, b, _) = ended e in inl (a, b)
    match_user-Ending (some user) u e =
        let (created, c, e1) = lift->>= (read_data user (bytes "created")) _ _ e in
        let values : List Value =
          text username ∷ text (v.str2md5 (created ++ (password ++ username))) ∷ [] in
        let e2 =
          sym (
            run_query->>= s select_login values (statement update_last_access values ∷ asked_user h)
              _)
          ∙ sym (run_update->>= s update_last_access values (asked_user h) _)
          ∙ e1 in
        match_password-Ending user created _ u c refl e2

    -- An attempt that is not throttled ends in one of three ways.
    pub try_login-Ending :
        try_login s v username password lang now session h ≡ ok ((session', end), h')
        → Ending session h session' end h'
    unfolding try_login
    try_login-Ending e =
        match_user-Ending (answer s (asked_user h)) refl
          (sym (run_query->>= s select_created (text username ∷ []) h _) ∙ e)
