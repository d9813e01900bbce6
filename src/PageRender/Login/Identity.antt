-- ===== src/PageRender/Login/Identity.antt =====
-- When a visitor is logged in.
use opendias.Base.{
  ℕ, ◌+◌, ◌<◌, ◌≡◌, refl, sym, ap, ◌∙◌, ◌≢◌, ◌↔◌, Option, none, some, List, [], ◌∷◌, ◌++◌, drop,
  arith, leb, leb_iff, Bool-cases, inl, inr,
}
use mathlib.Core.Option.{some-injective}
use opendias.Base.Exec.{ok}
use opendias.Base.CString.{CString, bytes}
use opendias.LinkedList.{Element, search_from, sll_search_keys, sll_delete_key}
use opendias.LinkedList.Occurrences.{sll_delete_key-unfound}
use opendias.Database.Queries.{statement, answer, run_query->>=, run_update->>=, lift->>=-ok}
use opendias.Database.{Value, text, Sqlite, History}
use opendias.PageRender.Services.{Services, tagged, response}
use opendias.PageRender.Login.{
  Session, next_login_attempt, retry_throttle, login_failed, login_done, select_created,
  update_last_access, select_login, keep_login, match_password, match_user, try_login, throttled,
  check_attempt, check_login,
}
use opendias.PageRender.Login.Outcome.{ended, try_login-Ending, IsIdentified}

-- No attempt is noted, or it was more than five seconds ago.
pub HasWaited : Services → (now : ℕ) → Option (Element CString) → Type 0
HasWaited v now none = Unit
HasWaited v now (some e) =
    (last : CString) × (e.value ≡ some last) × (v.read_time last + retry_throttle < now)

head_byte : CString → ℕ
head_byte [] = 0
head_byte (c ∷ cs) = c

pub done-failed : (v : Services) (key lang : CString) → login_done ≢ login_failed v key lang
unfolding login_done login_failed response tagged bytes head_byte
done-failed v key lang e =
    let p : ◌≡◌ {A = ℕ} 79 70 = ap (λ x. head_byte (drop 64 x)) e in absurd (omega arith)

module _ (s : Sqlite) (v : Services) (username password lang : CString) (now : ℕ) where
  try_login-IsIdentified :
      (session session' : Session) (h h' : History)
      → try_login s v username password lang now session h ≡ ok ((session', some login_done), h')
      → IsIdentified s v username password lang now session h session' h'
  try_login-IsIdentified session session' h h' e =
      elim (try_login-Ending s v username password lang now session h session' (some login_done) h'
        e) [
          | inl (_, p) ↦
              absurd (done-failed v (bytes "LOCAL_bad_login") lang (some-injective _ _ p))
          | inr (inl z) ↦ absurd (ground (arith, z))
          | inr (inr (_, i)) ↦ i
        ]

  try_login-done :
      (session session' : Session) (h h' : History)
      → IsIdentified s v username password lang now session h session' h'
      → try_login s v username password lang now session h ≡ ok ((session', some login_done), h')
  unfolding try_login match_user match_password keep_login
  try_login-done session session' h h' i =
      let values : List Value =
        text username ∷ text (v.str2md5 (i.created ++ (password ++ username))) ∷ [] in
      let h1 : History = statement select_created (text username ∷ []) ∷ h in
      let h2 : History = statement update_last_access values ∷ h1 in
      let h3 : History = statement select_login values ∷ h2 in
      run_query->>= s select_created (text username ∷ []) h _
      ∙ ap (λ r. match_user s v username password lang now session r h1) i.known
      ∙ lift->>=-ok _ h1 i.salted
      ∙ run_update->>= s update_last_access values h1 _
      ∙ run_query->>= s select_login values h2 _
      ∙ ap (λ r. match_password s v username password lang now session r h3)
          (ap (answer s) (sym i.last) ∙ i.matched)
      ∙ lift->>=-ok _ h3 i.named
      ∙ lift->>=-ok _ h3 i.privileged
      ∙ ap (λ r. keep_login session username i.realname i.role r h3) i.single
      ∙ rw (← i.identity, i.last) refl

  abbrev cleared : Session → Session
  cleared session = sll_delete_key session next_login_attempt

  throttled-late :
      (session session' : Session) (h h' : History) (last : Option CString)
      → throttled s v username password lang now session last h
        ≡ ok ((session', some login_done), h')
      → ((t : CString) × (last ≡ some t) × (v.read_time t + retry_throttle < now))
        × IsIdentified s v username password lang now (cleared session) h session' h'
  unfolding throttled
  throttled-late session session' h h' none e = cc
  throttled-late session session' h h' (some t) e =
      elim (Bool-cases (leb now (v.read_time t + retry_throttle))) [
        | inl soon ↦
            let (_, p, _) = ended (rw soon at e) in
            absurd (done-failed v (bytes "LOCAL_login_retry_too_soon") lang (some-injective _ _ p))
        | inr late ↦ (
          (t, refl, ground (arith, leb_iff now (v.read_time t + retry_throttle), late)),
          try_login-IsIdentified (cleared session) session' h h' (rw late at e),
        )
      ]

  throttled-done :
      (session session' : Session) (h h' : History) (t : CString)
      → v.read_time t + retry_throttle < now
      → IsIdentified s v username password lang now (cleared session) h session' h'
      → throttled s v username password lang now session (some t) h
        ≡ ok ((session', some login_done), h')
  unfolding throttled
  throttled-done session session' h h' t w i =
      elim (Bool-cases (leb now (v.read_time t + retry_throttle))) [
        | inl soon ↦ absurd (ground (arith, leb_iff now (v.read_time t + retry_throttle), soon))
        | inr late ↦ rw late (try_login-done (cleared session) session' h h' i)
      ]

  check_attempt-done_iff :
      (session session' : Session) (h h' : History) (noted : Option (Element CString))
      → search_from session next_login_attempt ≡ noted
      → (check_attempt s v username password lang now session noted h
          ≡ ok ((session', some login_done), h'))
        ↔ (HasWaited v now noted
            × IsIdentified s v username password lang now (cleared session) h session' h')
  unfolding check_attempt HasWaited
  check_attempt-done_iff session session' h h' none f =
      let same = sll_delete_key-unfound next_login_attempt session f in
      (
        λ e. (tt, rw same (try_login-IsIdentified session session' h h' e)),
        λ (_, i). try_login-done session session' h h' (rw same at i),
      )
  check_attempt-done_iff session session' h h' (some e) f = (
    throttled-late session session' h h' e.value,
    λ ((t, p, w), i). rw p (throttled-done session session' h h' t w i),
  )

  -- A login is answered with OK exactly if no attempt is noted in the session or the noted one was more
  -- than five seconds ago, the user name has a row, and exactly one row has the name and the MD5 hash
  -- of the creation time, the password and the name; then the session, less the noted attempt, takes
  -- the name, the real name and the role of that row, and three statements were given to the database.
  pub check_login-done_iff :
      (session session' : Session) (h h' : History)
      → (check_login s v username password lang now session h
          ≡ ok ((session', some login_done), h'))
        ↔ (HasWaited v now (sll_search_keys session (some next_login_attempt))
            × IsIdentified s v username password lang now (cleared session) h session' h')
  unfolding check_login sll_search_keys
  check_login-done_iff session session' h h' =
      check_attempt-done_iff session session' h h' (search_from session next_login_attempt) refl
