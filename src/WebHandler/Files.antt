-- ===== src/WebHandler/Files.antt =====
-- src/web_handler.c: the files that are served, in the language of the visitor, and the page that
-- stands around a text. `none` is a NULL pointer; the size is that of the bytes, 0 for NULL.
use opendias.Base.{ℕ, ◌||◌, Option, none, some, List, [], if◌then◌else◌, leb, length, ◌++◌}
use opendias.Base.Exec.{Exec, ok, fault, ◌>>=◌}
use opendias.Base.CString.{CString, bytes, strstr}
use opendias.WebHandler.Site.{Site, c_str}

-- The file that is looked up: of a text the one of the language, else the English one, if there is
-- one.
unfoldable pub localised : Site → CString → CString → CString
unfolding strstr bytes
localised site url lang =
    let own = url ++ bytes "." ++ lang in
    let english = url ++ bytes ".en" in
    if strstr url (bytes ".html") || strstr url (bytes ".txt") || strstr url (bytes ".resource")
    then if site.exists own then own else if site.exists english then english else url
    else url

unfoldable pub get_from_file_full_path : Site → CString → CString → Option (List ℕ)
get_from_file_full_path site url lang = site.file (localised site url lang)

unfoldable pub get_from_file : Site → CString → CString → Option (List ℕ)
unfolding bytes
get_from_file site url lang =
    get_from_file_full_path site (site.share_dir ++ bytes "/opendias/webcontent" ++ url) lang

unfoldable pub size_of : Option (List ℕ) → ℕ
size_of none = 0
size_of (some content) = length content

-- `conCat` (src/utils.c), whose `printf` may not be given NULL for what is there.
unfoldable pub con_cat : Option CString → Option CString → Exec (Option CString)
con_cat main none = ok main
con_cat main (some []) = ok main
con_cat none (some add) = fault
con_cat (some main) (some add) = ok (some (main ++ add))

unfoldable pub as_text : Option (List ℕ) → Option CString
as_text none = none
as_text (some content) = some (c_str content)

-- `page` goes behind the header and before the footer, each of them where it is longer than a byte.
unfoldable pub build_page : Site → CString → CString → Exec (Option CString)
unfolding bytes as_text size_of
build_page site page lang =
    let header = get_from_file site (bytes "/includes/header.txt") lang in
    let footer = get_from_file site (bytes "/includes/footer.txt") lang in
    do
      output ←
          if leb 2 (size_of header)
          then con_cat (as_text header) (some page)
          else ok (as_text header)
      if leb 2 (size_of footer) then con_cat output (as_text footer) else ok output
