-- ===== src/Handlers/Tests.antt =====
-- Runs of the handlers, and the theorems on their statements at such calls.
use opendias.Base.{◌≡◌, refl, inl, true, false, none, some, [], ◌∷◌, ◌++◌, if◌then◌else◌}
use opendias.Base.Exec.{ok}
use opendias.Base.CString.{bytes, str_eq}
use opendias.Base.Int.{ℤ, pos, atoi}
use opendias.LinkedList.{sll_search_keys, search_from}
use opendias.Validation.Fields.{check_update_key, is_one_of}
use opendias.Database.{
  text, History, Sqlite, RecordSet, record_set, kept_rows, kept_row, column_text, read_data,
}
use opendias.Database.Run.{return}
use opendias.Database.Queries.{statement, answer, code}
use opendias.Database.Effects.{Only}
use opendias.DbAccess.Tags.{select_tag, count_tag}
use opendias.DocEditor.{answer_of, update_tag_linkage, update_doc_details}
use opendias.DocEditor.Columns.{IsUpdate, update_doc_details-Only}
use opendias.DocEditor.Links.{dropped, removed, counted_after, update_tag_linkage-remove_tag}
use opendias.PageRender.Login.{check_login}
use opendias.PageRender.Tests.{plain, one_user, bob_session, asked_bob}
use opendias.PageRender.Users.{
  update_user, delete_user, effective_user, session_user, user_data, user_updated, current_user,
}
use opendias.PageRender.Users.Changes.{IsUserUpdate, update_user-IsUserUpdate}
use opendias.PageRender.Users.Done.{changes, update_user-done}
use opendias.WebHandler.Tests.{site, no_role, login_post, login_call, login-Calls}
use opendias.Handlers.{Machine, handle}
use opendias.Handlers.Stranger.{IsHarmless, stranger-Only}
use opendias.Handlers.Bound.{IsBoundStatement, statements-IsBoundStatement}

abbrev machine : Machine
machine = record {
  sqlite = one_user true;
  services = plain;
  now = 100;
  uuid = bytes "5a6f";
  thread = true;
  last_insert = λ h. pos 3;
  base_dir = bytes "/var/lib/opendias";
  print_int = λ z. [];
  send_command = λ command param. bytes "BUSY";
  distance = λ a b. pos 0;
  others = λ c. return none;
}

stranger-Only_example : Only (IsHarmless (one_user true) plain []) (handle machine login_call)
stranger-Only_example =
    stranger-Only machine none site no_role (bytes "en") login_post login_call refl login-Calls

title_key : check_update_key (some (bytes "title")) ≡ 0
unfolding check_update_key is_one_of str_eq bytes
title_key = refl

statements-IsBoundStatement_example :
    Only IsBoundStatement
      (check_login (one_user true) plain (bytes "bob") (bytes "x") (bytes "en") 100 bob_session)
    × Only IsBoundStatement (
        update_user
          (one_user true)
          plain
          (bytes "bob")
          none
          (some (bytes "y"))
          none
          (pos 1)
          bob_session
          (bytes "en"))
    × Only IsBoundStatement (delete_user (one_user true) plain (bytes "bob") (bytes "en"))
    × Only IsBoundStatement
        (update_doc_details (one_user true) (bytes "7") (bytes "title") (some (bytes "bill")))
statements-IsBoundStatement_example =
    statements-IsBoundStatement (one_user true) plain (bytes "bob") (bytes "x") (bytes "en") 100
      bob_session none (some (bytes "y")) none (pos 1) (bytes "7") (bytes "title")
      (some (bytes "bill")) title_key

update_user-IsUserUpdate_example :
    IsUserUpdate
      (one_user true)
      plain
      bob_session
      current_user
      none
      (some (bytes "y"))
      none
      (pos 0)
      (update_user
        (one_user true)
        plain
        current_user
        none
        (some (bytes "y"))
        none
        (pos 0)
        bob_session
        (bytes "en"))
update_user-IsUserUpdate_example =
    update_user-IsUserUpdate (one_user true) plain current_user none (some (bytes "y")) none (pos 0)
      bob_session (bytes "en")

own_user : effective_user bob_session current_user (pos 0) ≡ ok (some (bytes "bob"))
unfolding effective_user session_user user_data sll_search_keys search_from str_eq bytes
own_user = refl

abbrev bob_row : RecordSet
bob_row = record { row = (bytes "created", bytes "2020") ∷ []; rest = [] }

bob_known : answer (one_user true) asked_bob ≡ some bob_row
unfolding record_set kept_rows kept_row column_text str_eq bytes
bob_known = refl

bob_created : read_data bob_row (bytes "created") ≡ ok (bytes "2020")
unfolding read_data str_eq bytes
bob_created = refl

-- A change of the own password.
update_user-done_example :
    update_user
      (one_user true)
      plain
      current_user
      none
      (some (bytes "y"))
      none
      (pos 0)
      bob_session
      (bytes "en")
      []
    ≡ ok (
      user_updated,
      changes
            (one_user true)
            plain
            (pos 0)
            (bytes "en")
            (bytes "bob")
            (bytes "2020")
            none
            (some (bytes "y"))
            none
          ++ asked_bob,
    )
update_user-done_example =
    update_user-done (one_user true) plain current_user none (some (bytes "y")) none (pos 0)
      bob_session (bytes "en") [] (bytes "bob") bob_row (bytes "2020") own_user bob_known
      bob_created (inl refl)

update_doc_details-Only_example :
    Only
      (IsUpdate (bytes "7"))
      (update_doc_details (one_user true) (bytes "7") (bytes "title") (some (bytes "bill")))
update_doc_details-Only_example =
    update_doc_details-Only (one_user true) (bytes "7") (bytes "title") (some (bytes "bill"))
      title_key

-- One tag, which no document has.
abbrev one_tag : Sqlite
one_tag = record {
  rows = λ h. elim h [
    | [] ↦ []
    | t ∷ ts ↦
        if str_eq t.sql select_tag
        then ((bytes "tagid", some (bytes "4")) ∷ []) ∷ []
        else if str_eq t.sql count_tag
        then ((bytes "ct", some (bytes "0")) ∷ []) ∷ []
        else []
  ];
  is_error = λ h. false;
}

abbrev last_of_three : History → ℤ
last_of_three h = pos 3

abbrev tag_row : RecordSet
tag_row = record { row = (bytes "tagid", bytes "4") ∷ []; rest = [] }

abbrev count_row : RecordSet
count_row = record { row = (bytes "ct", bytes "0") ∷ []; rest = [] }

tag_known : answer one_tag (statement select_tag (text (bytes "car") ∷ []) ∷ []) ≡ some tag_row
unfolding record_set kept_rows kept_row column_text str_eq bytes
tag_known = refl

tag_id : read_data tag_row (bytes "tagid") ≡ ok (bytes "4")
unfolding read_data str_eq bytes
tag_id = refl

tag_counted :
    answer one_tag (counted_after one_tag last_of_three (bytes "7") (bytes "car") [] (bytes "4"))
    ≡ some count_row
unfolding record_set kept_rows kept_row column_text str_eq bytes
tag_counted = refl

tag_count : read_data count_row (bytes "ct") ≡ ok (bytes "0")
unfolding read_data str_eq bytes
tag_count = refl

update_tag_linkage-remove_tag_example :
    update_tag_linkage one_tag last_of_three (bytes "7") (bytes "car") (bytes "removeTag") []
    ≡ ok (
      answer_of
          (bytes "MoveTag")
          (code one_tag (removed one_tag last_of_three (bytes "7") (bytes "car") [] (bytes "4"))),
      dropped (bytes "4") (atoi (bytes "0"))
          ++ counted_after one_tag last_of_three (bytes "7") (bytes "car") [] (bytes "4"),
    )
update_tag_linkage-remove_tag_example =
    update_tag_linkage-remove_tag one_tag last_of_three (bytes "7") (bytes "car") [] tag_row
      count_row (bytes "4") (bytes "0") tag_known tag_id tag_counted tag_count
