-- ===== src/WebHandler/Tests.antt =====
-- Runs of the web handler, and the theorems at such requests.
use opendias.Base.{
  ◌≡◌, refl, ◌≢◌, ◌↔◌, true, false, Option, none, some, [], ◌∷◌, ◌++◌, arith, ltb, length,
  if◌then◌else◌,
}
use opendias.Base.Exec.{ok, ◌>>=◌}
use opendias.Base.CString.{CString, bytes, str_eq, strstr, starts_with}
use opendias.Base.Int.{pos}
use opendias.LinkedList.{Element, element, Sll, sll_init, sll_insert, sll_search_keys, search_from}
use opendias.Validation.Fields.{Build, validate_language, is_one_of, check_vitals}
use opendias.Validation.Keys.{PostData, get_post_data, check_keys, is_mandatory}
use opendias.Validation.Blocks.{keys_only, check_login_rules}
use opendias.Validation.Actions.{
  validate, basic_validation, basic_action, vitals_loop, known_actions,
}
use opendias.Validation.Actions.Table.{Action}
use opendias.Session.{
  Manager, placeholder, init_session_management, create_session, get_session, clear_old_sessions,
  clear_sessions_older_than, clear_from, clear_step, open_session,
}
use opendias.Session.Table.{Table, fresh, lookup, access, managed, represent, rows}
use opendias.WebHandler.Site.{Site}
use opendias.WebHandler.Files.{get_from_file, get_from_file_full_path}
use opendias.WebHandler.Language.{
  user_language, header_language, without_quality, user_language-available, header_language-head,
}
use opendias.WebHandler.Role.{AccessRole, all_of, access_checks}
use opendias.WebHandler.Get.{get_page}
use opendias.WebHandler.Get.Laws.{get_page-unprivileged}
use opendias.WebHandler.Post.{post_page, action_page}
use opendias.WebHandler.Post.Branches
use opendias.WebHandler.Post.Calls.{Call, call_check_login}
use opendias.WebHandler.Post.Authorized.{Calls, IsAuthorized, post_page-Calls_iff}
use opendias.WebHandler.Post.Visitor.{IsPublic, visitor-IsPublic}
use opendias.WebHandler.Connection.{
  Request, Outcome, Server, first_call, find_session, checked_url, open_connection, new_session,
}
use opendias.WebHandler.Connection.Clients.{came, start, next, joined, IsCounted, Reach-IsCounted}
use mathlib.Core.Option.{some-injective}
use opendias.WebHandler.Connection.Served.{IsReady, IsServed, first_call-IsServed}
use opendias.WebHandler.Connection.Visit.{find_session-visit}
use opendias.WebHandler.Upload.{is_upload, iterate_post}
use opendias.WebHandler.Upload.Pieces.{IsFull, iterate_post-append}

-- The program with all its parts, and an OCR library without a language.
abbrev pub every_part : Build
every_part = record {
  can_scan = true;
  can_ocr = true;
  can_pdf = true;
  can_phash = true;
  open_to_all = false;
  is_ocr_language_available = λ s. false;
}

-- A site whose texts are their keys, and whose files all hold the same text.
abbrev pub site : Site
site = record {
  build = every_part;
  get_string = λ key lang. key;
  exists = λ path. true;
  file = λ path. some (104 ∷ 105 ∷ []);
  share_dir = bytes "/usr/share";
  base_dir = bytes "/var/lib/opendias";
}

abbrev pub field_row : CString → CString → Element CString
field_row k v = element (some k) (some v)

abbrev pub login_post : PostData
login_post =
    field_row (bytes "action") (bytes "checkLogin")
    ∷ field_row (bytes "username") (bytes "ann")
    ∷ field_row (bytes "password") (bytes "x")
    ∷ []

abbrev pub login_call : Call
login_call = call_check_login (some (bytes "ann")) (some (bytes "x")) (bytes "en") none

abbrev pub no_role : CString → Option AccessRole
no_role role = none

pub login-Calls :
    Calls
      (post_page site (access_checks false no_role none) (bytes "en") none login_post)
      login_call
unfolding post_page basic_validation basic_action vitals_loop known_actions is_one_of get_post_data
    str_eq bytes check_vitals action_page Branches.check_login_page Branches.validated validate
    keys_only check_keys check_login_rules sll_insert is_mandatory strstr
login-Calls = (_, _, refl, refl)

post_page-Calls_iff_example :
    Calls
      (post_page site (access_checks false no_role none) (bytes "en") none login_post)
      login_call
    ↔ ((a : Action) × IsAuthorized site
          (access_checks false no_role none)
          (bytes "en")
          none
          login_post
          a
          login_call)
post_page-Calls_iff_example =
    post_page-Calls_iff site (access_checks false no_role none) (bytes "en") none login_post
      login_call

visitor-IsPublic_example :
    (a : Action) × IsPublic a
    × IsAuthorized site (access_checks false no_role none) (bytes "en") none login_post a login_call
visitor-IsPublic_example =
    visitor-IsPublic site no_role (bytes "en") none login_post login_call refl login-Calls

user_language-available_example :
    validate_language (user_language (some (bytes "../x")) (some (bytes "fr, de;q=0.5"))) ≡ 1
user_language-available_example =
    user_language-available (some (bytes "../x")) (some (bytes "fr, de;q=0.5"))

french_missing : validate_language (without_quality (bytes "fr")) ≡ 0
unfolding validate_language without_quality is_one_of str_eq bytes
french_missing = refl

german_there : validate_language (without_quality (bytes "de;q=0.5")) ≡ 1
unfolding validate_language without_quality is_one_of str_eq bytes
german_there = refl

header_language-head_example :
    header_language ((bytes "fr" ∷ []) ++ bytes "de;q=0.5" ∷ (bytes "en" ∷ []))
    ≡ without_quality (bytes "de;q=0.5")
header_language-head_example =
    header_language-head (bytes "fr" ∷ []) (bytes "en" ∷ []) (bytes "de;q=0.5") (french_missing, tt)
      german_there

abbrev table : Table
table = (bytes "a", fresh 10) ∷ []

b_unused : lookup (bytes "b") table ≡ none
unfolding lookup str_eq bytes
b_unused = refl

b_named : bytes "b" ≢ placeholder
unfolding bytes placeholder
b_named = ground arith

a_named : bytes "a" ≢ placeholder
unfolding bytes placeholder
a_named = ground arith

ready : IsReady site
unfolding get_from_file get_from_file_full_path
ready lang is = record {
  header = 104 ∷ 105 ∷ [];
  header_file = refl;
  header_long = omega arith;
  body = 104 ∷ 105 ∷ [];
  body_file = refl;
}

abbrev docs_request : Request
docs_request = record {
  url_orig = bytes "/opendias/docs.html";
  method = bytes "GET";
  requested_lang = some (bytes "de");
  accept_language = none;
  o_session_id = some (bytes "a");
}

first_call-IsServed_example :
    (s : Server) × (out : Outcome) × (first_call site 500
        (bytes "b")
        true
        docs_request
        (record { manager = managed 1 100 table; nr_of_clients = 2 })
      ≡ ok (s, out))
    × IsServed site no_role docs_request out
first_call-IsServed_example =
    first_call-IsServed site ready 1 100 500 table (bytes "b") true 2 no_role docs_request
      (a_named, tt) (b_unused, b_named) refl
      (λ e. a_named (some-injective (bytes "a") placeholder e))

get_page-unprivileged_example :
    get_page
      (record site { base_dir = bytes "/etc" })
      (bytes "en")
      (all_of (pos 0))
      (bytes "/scans/1_1.jpg")
    ≡ get_page site (bytes "en") (all_of (pos 0)) (bytes "/scans/1_1.jpg")
get_page-unprivileged_example =
    get_page-unprivileged site (bytes "en") (bytes "/etc") (bytes "/scans/1_1.jpg") (all_of (pos 0))
      refl

abbrev post_request : Request
post_request = record {
  url_orig = bytes "/opendias/dynamic";
  method = bytes "POST";
  requested_lang = none;
  accept_language = none;
  o_session_id = none;
}

abbrev nobody : Server
nobody = record { manager = managed 1 100 []; nr_of_clients = 0 }

first_post :
    (r : Server × Outcome) × (first_call site 500 (bytes "a") true post_request nobody ≡ ok r)
unfolding first_call checked_url bytes starts_with strstr clear_old_sessions
    clear_sessions_older_than clear_from clear_step represent rows str_eq placeholder find_session
    get_session new_session create_session sll_insert sll_search_keys open_session open_connection
    opendias.LinkedList.sll_count opendias.Session.touch
first_post = (_, refl)

Reach-IsCounted_example :
    IsCounted (record { server = first_post.0.0; connections = joined first_post.0.1 ++ [] })
Reach-IsCounted_example =
    Reach-IsCounted site (managed 1 100 []) _
      (next start (came 500 (bytes "a") true post_request first_post.0 first_post.1 refl))

find_session-visit_example :
    find_session site 20 (bytes "b") (some (bytes "a")) (managed 1 100 table)
    ≡ (elim (lookup (bytes "a") table) [
      | some d ↦
          ok (
            managed 1 100 (access 20 (bytes "a") table),
            some (bytes "a"),
            some d.session_container,
          )
      | none ↦
          if ltb 1 (length table)
          then ok (managed 1 100 table, none, none)
          else ok
              (managed 1 100 (table ++ (bytes "b", fresh 20) ∷ []), some (bytes "b"), some sll_init)
    ])
find_session-visit_example =
    find_session-visit site 1 100 20 table (bytes "b") (b_unused, b_named) (bytes "a") a_named

full : IsFull sll_init (bytes "tag")
unfolding search_from
full e h = absurd (cc)

tag_plain : is_upload (bytes "tag") ≡ false
unfolding str_eq bytes
tag_plain = refl

iterate_post-append_example :
    (iterate_post (bytes "u") (bytes "tag") (104 ∷ []) sll_init >>= λ r.
    iterate_post (bytes "v") (bytes "tag") (105 ∷ []) r.0)
    ≡ iterate_post (bytes "u") (bytes "tag") ((104 ∷ []) ++ (105 ∷ [])) sll_init
iterate_post-append_example =
    iterate_post-append (bytes "u") (bytes "v") (bytes "tag") (104 ∷ []) (105 ∷ []) sll_init
      tag_plain (λ e. cc) full ((λ e. cc), tt) (λ e. cc) ((λ e. cc), tt) (λ e. cc)
