-- ===== src/PageRender/Entries.antt =====
-- src/pageRender.c: the texts that the pages make of the rows of the database.
use opendias.Base.{if◌then◌else◌, ◌++◌}
use opendias.Base.Exec.{Exec, ok, ◌>>=◌}
use opendias.Base.CString.{CString, bytes, str_eq}
use opendias.Base.Int.{ℤ, atoi}
use opendias.Utils.{date_human}
use opendias.Database.{RecordSet, read_data}
use opendias.PageRender.Services.{Services, tagged}

-- `userTemplate`
unfoldable pub user_entry : RecordSet → Exec CString
unfolding bytes
user_entry r = do
  username ← read_data r (bytes "username")
  realname ← read_data r (bytes "realname")
  last_access ← read_data r (bytes "last_access")
  role ← read_data r (bytes "role")
  ok (
      tagged (bytes "User") (
        tagged (bytes "username") username
        ++ (tagged (bytes "realname") realname
            ++ (tagged (bytes "last_access") last_access ++ tagged (bytes "role") role))))

unfoldable pub title_entry : RecordSet → Exec CString
unfolding bytes
title_entry r = do
  docid ← read_data r (bytes "docid")
  title ← read_data r (bytes "title")
  ok (bytes "{\"docid\":\"" ++ (docid ++ (bytes "\",\"title\":\"" ++ (title ++ bytes "\"}"))))

unfoldable pub tag_entry : RecordSet → Exec CString
unfolding bytes
tag_entry r = do
  title ← read_data r (bytes "tagname")
  ok (bytes "{\"tag\":\"" ++ (title ++ bytes "\"}"))

-- The key of the text for the type of a file.
unfoldable pub file_type_key : CString → CString
unfolding bytes
file_type_key filetype =
    if str_eq filetype (bytes "1")
    then bytes "LOCAL_file_type_odf"
    else if str_eq filetype (bytes "3")
    then bytes "LOCAL_file_type_pdf"
    else if str_eq filetype (bytes "4")
    then bytes "LOCAL_file_type_image"
    else bytes "LOCAL_file_type_scanned"

unfoldable pub or_default : Services → (lang title : CString) → CString
unfolding bytes
or_default v lang title =
    if str_eq title (bytes "NULL") then v.get_string (bytes "LOCAL_default_title") lang else title

unfoldable pub doc_date : Services → (lang : CString) → RecordSet → Exec CString
unfolding bytes
doc_date v lang r = do
  docdatey ← read_data r (bytes "docdatey")
  docdatem ← read_data r (bytes "docdatem")
  docdated ← read_data r (bytes "docdated")
  ok (date_human docdatey docdatem docdated (v.get_string (bytes "LOCAL_no_date_set") lang))

unfoldable pub cdata : CString → CString
unfolding bytes
cdata s = bytes "<![CDATA[" ++ (s ++ bytes "]]>")

-- A row of the list of documents.
unfoldable pub doc_entry : Services → (lang : CString) → RecordSet → Exec CString
unfolding bytes
doc_entry v lang r = do
  filetype ← read_data r (bytes "filetype")
  actionrequired ← read_data r (bytes "actionrequired")
  title ← read_data r (bytes "title")
  docid ← read_data r (bytes "docid")
  date ← doc_date v lang r
  ok (
      tagged (bytes "Row") (
        tagged (bytes "docid") docid
        ++ (tagged (bytes "actionrequired") actionrequired
            ++ (tagged (bytes "title") (cdata (or_default v lang title))
                ++ (tagged (bytes "type") (v.get_string (file_type_key filetype) lang)
                    ++ tagged (bytes "date") date)))))

-- The count of a list of which only the number is asked for.
unfoldable pub count_entry : RecordSet → Exec ℤ
unfolding bytes
count_entry r = do c ← read_data r (bytes "c"); ok (atoi c)

unfoldable pub status_entry : RecordSet → Exec ℤ
unfolding bytes
status_entry r = do status ← read_data r (bytes "status"); ok (atoi status)

unfoldable pub progress_entry : RecordSet → Exec (CString × CString)
unfolding bytes
progress_entry r = do
  status ← read_data r (bytes "status")
  value ← read_data r (bytes "value")
  ok (status, value)
