-- ===== src/PageRender/Tests.antt =====
-- Runs of the handlers on small inputs.
use opendias.Base.{
  ◌-◌, ◌≡◌, refl, sym, ◌↔◌, Bool, true, false, some, List, [], ◌∷◌, ◌++◌, map, if◌then◌else◌, inl,
  inr, arith, ◌&&◌,
}
use opendias.Base.Exec.{ok}
use opendias.Base.CString.{bytes, str_eq}
use opendias.LinkedList.{
  element, sll_init, sll_append, search_from, sll_insert, sll_search_keys, sll_delete_key,
}
use opendias.LinkedList.Occurrences.{occurrences, hit}
use opendias.Database.{
  Value, text, Sqlite, History, bind_vars, bind_loop, bind_value, record_set, kept_rows, kept_row,
  column_text, read_data, next_row,
}
use opendias.Database.Queries.{statement}
use opendias.Database.Run.{run_query, queried, run_update, updated}
use opendias.Database.Binding.{vars_of, add_values, add_value}
use opendias.PageRender.Services.{Services}
use opendias.PageRender.Login.{
  Session, next_login_attempt, select_created, select_login, login_failed, login_done, check_login,
  do_logout, check_attempt, try_login, match_user, match_password, refused_login, keep_login,
  update_last_access,
}
use opendias.PageRender.Login.Identity.{done-failed, HasWaited, check_login-done_iff}
use opendias.PageRender.Login.Outcome.{IsIdentified}
use opendias.PageRender.Login.Throttle.{Attempt, Soon, attempts, too_soon, refused-attempts}
use opendias.PageRender.Login.Logout.{do_logout-occurrences}

abbrev pub plain : Services
plain = record {
  get_string = λ key lang. key;
  str2md5 = λ s. s;
  print_time = λ t. t ∷ [];
  read_time = λ s. elim s [ [] ↦ 0 | t ∷ ts ↦ t ];
}

-- One user; the password fits or does not.
abbrev pub one_user : Bool → Sqlite
one_user fits = record {
  rows = λ h. elim h [
    | [] ↦ []
    | t ∷ ts ↦
        if str_eq t.sql select_created
        then ((bytes "created", some (bytes "2020")) ∷ []) ∷ []
        else if str_eq t.sql select_login && fits
        then ((bytes "realname", some (bytes "Bob")) ∷ (bytes "role", some (bytes "2")) ∷ []) ∷ []
        else []
  ];
  is_error = λ h. false;
}

abbrev wrong : Attempt
wrong = record { username = bytes "bob"; password = bytes "x"; lang = bytes "en"; time = 100 }

abbrev again : Attempt
again = record { username = bytes "bob"; password = bytes "y"; lang = bytes "en"; time = 103 }

abbrev pub asked_bob : History
asked_bob = statement select_created (text (bytes "bob") ∷ []) ∷ []

abbrev bob : List Value
bob = text (bytes "bob") ∷ text (bytes "2020xbob") ∷ []

abbrev all_asked : History
all_asked = statement select_login bob ∷ statement update_last_access bob ∷ asked_bob

abbrev pub bob_session : Session
bob_session =
    element (some (bytes "username")) (some (bytes "bob"))
    ∷ element (some (bytes "realname")) (some (bytes "Bob"))
    ∷ element (some (bytes "role")) (some (bytes "2"))
    ∷ []

check_login-bob :
    check_login (one_user true) plain (bytes "bob") (bytes "x") (bytes "en") 100 sll_init []
    ≡ ok ((bob_session, some login_done), all_asked)
unfolding check_login check_attempt try_login match_user match_password keep_login run_query queried
    run_update updated bind_vars bind_loop bind_value vars_of add_values add_value sll_append
    sll_insert sll_search_keys search_from record_set kept_rows kept_row column_text read_data
    next_row bytes str_eq
check_login-bob = refl

check_login-done_iff_example :
    (check_login (one_user true) plain (bytes "bob") (bytes "x") (bytes "en") 100 sll_init []
      ≡ ok ((bob_session, some login_done), all_asked))
    ↔ (HasWaited plain 100 (sll_search_keys sll_init (some next_login_attempt))
        × IsIdentified
            (one_user true)
            plain
            (bytes "bob")
            (bytes "x")
            (bytes "en")
            100
            (sll_delete_key sll_init next_login_attempt)
            []
            bob_session
            all_asked)
check_login-done_iff_example =
    check_login-done_iff (one_user true) plain (bytes "bob") (bytes "x") (bytes "en") 100 sll_init
      bob_session [] all_asked

abbrev noted_session : Session
noted_session = element (some next_login_attempt) (some (100 ∷ [])) ∷ []

check_login-wrong :
    check_login
      (one_user false)
      plain
      wrong.username
      wrong.password
      wrong.lang
      wrong.time
      sll_init
      []
    ≡ ok (
      (noted_session, some (login_failed plain (bytes "LOCAL_bad_login") (bytes "en"))),
      all_asked,
    )
unfolding check_login check_attempt try_login match_user match_password refused_login keep_login
    run_query queried run_update updated bind_vars bind_loop bind_value vars_of add_values add_value
    sll_append sll_insert sll_search_keys search_from record_set kept_rows kept_row column_text
    read_data next_row bytes str_eq
check_login-wrong = refl

refused-attempts_example :
    (session'' : Session) × (attempts (one_user false) plain (again ∷ []) noted_session all_asked
      ≡ ok ((session'', map (too_soon plain) (again ∷ [])), all_asked))
unfolding occurrences hit Soon
refused-attempts_example =
    refused-attempts (one_user false) plain (λ t. refl) wrong (again ∷ []) sll_init noted_session []
      all_asked (login_failed plain (bytes "LOCAL_bad_login") (bytes "en"))
      (λ e. absurd (ground (arith, e))) (omega arith) check_login-wrong
      (λ e. done-failed plain (bytes "LOCAL_bad_login") (bytes "en") (sym e)) (omega arith, tt)

do_logout-occurrences_example :
    occurrences (do_logout (bob_session ++ bob_session)).0 (bytes "role")
    ≡ occurrences (bob_session ++ bob_session) (bytes "role") - 1
do_logout-occurrences_example =
    do_logout-occurrences (bob_session ++ bob_session) (bytes "role") (inr (inr (inr (inl refl))))
