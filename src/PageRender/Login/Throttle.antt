-- ===== src/PageRender/Login/Throttle.antt =====
-- The time between the login attempts of a session.
use opendias.Base.{
  ℕ, ◌+◌, ◌≤◌, ◌≡◌, refl, ◌≢◌, Option, none, some, List, [], ◌∷◌, map, arith, leb, leb_iff,
  Bool-cases, inl, inr,
}
use mathlib.Core.Option.{some-injective}
use opendias.Base.Exec.{ok}
use opendias.Base.CString.{CString, bytes}
use opendias.LinkedList.{
  Element, element, search_from, sll_search_keys, sll_insert, sll_delete_key, set_data,
}
use opendias.LinkedList.Occurrences.{
  occurrences, occurrences-sll_insert, occurrences-sll_delete_key, occurrences-set_data,
  search-unoccurring, occurrences-unfound, search-sll_insert, search-set_data, sll_delete_key-full,
  hit_self,
}
use opendias.Database.{Sqlite, History}
use opendias.Database.Run.{Run, return, ◌>>=◌}
use opendias.PageRender.Services.{Services}
use opendias.PageRender.Login.Outcome.{ended, try_login-Ending}
use opendias.PageRender.Login.{
  Session, next_login_attempt, retry_throttle, login_failed, login_done, try_login, throttled,
  check_attempt, check_login,
}

-- The session has noted an attempt at this time, and no other one.
pub record IsNoted (v : Services) (time : ℕ) (session : Session) : Type 0 where
  pub once : occurrences session next_login_attempt ≤ 1
  pub noted : Element CString
  pub found : search_from session next_login_attempt ≡ some noted
  pub at : noted.value ≡ some (v.print_time time)

-- One attempt of a visitor.
pub record Attempt : Type 0 where
  pub username : CString
  pub password : CString
  pub lang : CString
  pub time : ℕ

-- No attempt comes more than five seconds after the one before.
unfoldable pub Soon : ℕ → List Attempt → Type 0
Soon time [] = Unit
Soon time (a ∷ later) = (a.time ≤ time + retry_throttle) × Soon a.time later

-- The attempts of a session, one after the other, with their answers.
unfoldable pub attempts :
    Sqlite → Services → List Attempt → Session → Run (Session × List (Option CString))
attempts s v [] session = return (session, [])
attempts s v (a ∷ later) session = do
  (session', answer) ← check_login s v a.username a.password a.lang a.time session
  (session'', answers) ← attempts s v later session'
  return (session'', answer ∷ answers)

-- The answer to an attempt that comes too soon.
unfoldable pub too_soon : Services → Attempt → Option CString
unfolding bytes
too_soon v a = some (login_failed v (bytes "LOCAL_login_retry_too_soon") a.lang)

module _ (v : Services) where
  set_data-IsNoted :
      (now : ℕ) (session : Session) (e : Element CString)
      → occurrences session next_login_attempt ≤ 1
      → search_from session next_login_attempt ≡ some e
      → IsNoted v now (set_data session next_login_attempt (v.print_time now))
  set_data-IsNoted now session e once found = record {
    once =
        rw (occurrences-set_data next_login_attempt session next_login_attempt (v.print_time now))
          once;
    noted = element e.key (some (v.print_time now));
    found = search-set_data next_login_attempt session (v.print_time now) e found;
    at = refl;
  }

  sll_insert-IsNoted :
      (now : ℕ) (session : Session)
      → session ≢ []
      → search_from session next_login_attempt ≡ none
      → IsNoted v now (sll_insert session (some next_login_attempt) (some (v.print_time now)))
  sll_insert-IsNoted now [] n f = absurd (n refl)
  sll_insert-IsNoted now (e ∷ es) n f = record {
    once = omega (
      arith,
      occurrences-sll_insert next_login_attempt (e ∷ es) (some next_login_attempt)
          (some (v.print_time now)),
      occurrences-unfound next_login_attempt (e ∷ es) f,
      hit_self next_login_attempt,
    );
    noted = element (some next_login_attempt) (some (v.print_time now));
    found = search-sll_insert next_login_attempt e es (v.print_time now) f;
    at = refl;
  }

module _ (s : Sqlite) (v : Services) (username password lang : CString) (now : ℕ) where
  try_login-IsNoted :
      (session session' : Session) (h h' : History) (answer : CString)
      → session ≢ []
      → search_from session next_login_attempt ≡ none
      → answer ≢ login_done
      → try_login s v username password lang now session h ≡ ok ((session', some answer), h')
      → IsNoted v now session'
  try_login-IsNoted session session' h h' answer n f a e =
      elim (try_login-Ending s v username password lang now session h session' (some answer) h' e) [
        | inl (p, _) ↦ rw p (sll_insert-IsNoted v now session n f)
        | inr (inl z) ↦ absurd (ground (arith, z))
        | inr (inr (z, _)) ↦ absurd (a (some-injective answer login_done z))
      ]

  throttled-IsNoted :
      (session session' : Session) (h h' : History) (answer : CString)
      → session ≢ []
      → occurrences session next_login_attempt ≤ 1
      → answer ≢ login_done
      → (e : Element CString) → search_from session next_login_attempt ≡ some e
      → (last : Option CString)
      → throttled s v username password lang now session last h ≡ ok ((session', some answer), h')
      → IsNoted v now session'
  unfolding throttled
  throttled-IsNoted session session' h h' answer n once a e found none p = cc
  throttled-IsNoted session session' h h' answer n once a e found (some last) p =
      elim (Bool-cases (leb now (v.read_time last + retry_throttle))) [
        | inl soon ↦
            let (q, _, _) = ended (rw soon at p) in
            rw q (set_data-IsNoted v now session e once found)
        | inr late ↦
            try_login-IsNoted (sll_delete_key session next_login_attempt) session' h h' answer
              (sll_delete_key-full next_login_attempt session n)
              (search-unoccurring next_login_attempt (sll_delete_key session next_login_attempt)
                (omega (arith, once, occurrences-sll_delete_key next_login_attempt session)))
              a (rw late at p)
      ]

  check_attempt-IsNoted :
      (session session' : Session) (h h' : History) (answer : CString)
      → session ≢ []
      → occurrences session next_login_attempt ≤ 1
      → answer ≢ login_done
      → (noted : Option (Element CString)) → search_from session next_login_attempt ≡ noted
      → check_attempt s v username password lang now session noted h
        ≡ ok ((session', some answer), h')
      → IsNoted v now session'
  unfolding check_attempt
  check_attempt-IsNoted session session' h h' answer n once a none f e =
      try_login-IsNoted session session' h h' answer n f a e
  check_attempt-IsNoted session session' h h' answer n once a (some e) f p =
      throttled-IsNoted session session' h h' answer n once a e f e.value p

  module _ (back : (t : ℕ) → v.read_time (v.print_time t) ≡ t) where
    -- An attempt in the throttle, whatever the name and the password.
    check_login-throttled :
        (time : ℕ) (session : Session) (h : History)
        → IsNoted v time session
        → now ≤ time + retry_throttle
        → check_login s v username password lang now session h
          ≡ ok (
            (
              set_data session next_login_attempt (v.print_time now),
              some (login_failed v (bytes "LOCAL_login_retry_too_soon") lang),
            ),
            h,
          )
    unfolding check_login check_attempt throttled sll_search_keys
    check_login-throttled time session h n le =
        rw (n.found, n.at, back time, (leb_iff now (time + retry_throttle)).1 le) refl

last_time : ℕ → List Attempt → ℕ
last_time time [] = time
last_time time (a ∷ later) = last_time a.time later

module _ (s : Sqlite) (v : Services) (back : (t : ℕ) → v.read_time (v.print_time t) ≡ t) where
  attempts-IsNoted :
      (time : ℕ) (later : List Attempt) (session : Session) (h : History)
      → IsNoted v time session
      → Soon time later
      → (session' : Session) × (attempts s v later session h
          ≡ ok ((session', map (too_soon v) later), h))
        × IsNoted v (last_time time later) session'
  unfolding attempts last_time Soon too_soon
  attempts-IsNoted time [] session h n soon = (session, refl, n)
  attempts-IsNoted time (a ∷ later) session h n (le, soon) =
      let noted = set_data-IsNoted v a.time session n.noted n.once n.found in
      let (session', e, n') = attempts-IsNoted a.time later _ h noted soon in
      (
        session',
        rw
            (
              check_login-throttled s v a.username a.password a.lang a.time back time session h n
                  le,
              ◌>>=◌,
              e,
            )
            refl,
        n',
      )

  -- After an attempt whose answer is not the one of a login, in a session that holds at most one time
  -- of an attempt, every attempt at most five seconds after the one before it is told to wait, and
  -- none of them gives the database a statement; where the time as a text is read back as it was.
  pub refused-attempts :
      (a : Attempt) (later : List Attempt) (session session' : Session) (h h' : History)
      (answer : CString)
      → session ≢ []
      → occurrences session next_login_attempt ≤ 1
      → check_login s v a.username a.password a.lang a.time session h
        ≡ ok ((session', some answer), h')
      → answer ≢ login_done
      → Soon a.time later
      → (session'' : Session) × (attempts s v later session' h'
          ≡ ok ((session'', map (too_soon v) later), h'))
  unfolding check_login sll_search_keys
  refused-attempts a later session session' h h' answer n once e d soon =
      let noted =
        check_attempt-IsNoted s v a.username a.password a.lang a.time session session' h h' answer n
          once d _ refl e in
      let (session'', p, _) = attempts-IsNoted a.time later session' h' noted soon in (session'', p)
