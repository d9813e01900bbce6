-- ===== src/WebHandler/Get.antt =====
-- The files that src/web_handler.c serves to a GET.
pub mod Laws
use opendias.Base.{
  ℕ, ◌≡◌, refl, ◌<◌, ◌≤◌, Bool, true, false, not, ◌&&◌, ◌||◌, Option, none, some, List, [], ◌∷◌,
  ◌++◌, if◌then◌else◌, ◌==◌, arith, length, leb, leb_iff, Bool-cases, Option-cases, inl, inr,
}
use opendias.Base.Exec.{Exec, ok, fault, ◌>>=◌}
use opendias.Base.CString.{CString, bytes, str_eq, strstr}
use opendias.Base.Int.{ℤ, is_zero}
use opendias.WebHandler.Site.{
  Site, Privileges, Mimetype, html, png, jpg, css, js, pdf, odt, c_str, error_response,
}
use opendias.WebHandler.Files.{
  get_from_file, get_from_file_full_path, size_of, build_page, con_cat, as_text,
}

-- `content` has as many bytes as the size says.
pub record File : Type 0 where
  pub status : ℕ
  pub mimetype : Mimetype
  pub content : List ℕ

abbrev pub found : Mimetype → List ℕ → File
found m content = record { status = 200; mimetype = m; content = content }

abbrev pub not_found : File
not_found = record { status = 404; mimetype = html; content = [] }

-- The page up to its NUL; `strlen(NULL)` is a fault.
unfoldable pub html_page : Option CString → Exec File
html_page none = fault
html_page (some content) = ok (found html content)

-- A file, or 404 where it is empty or cannot be read.
unfoldable pub file_page : Mimetype → Option (List ℕ) → File
file_page m none = not_found
file_page m (some []) = not_found
file_page m (some (c ∷ s)) = found m (c ∷ s)

-- The tests on the address, in their order.
unfoldable pub is_root : CString → Bool
unfolding bytes str_eq
is_root url = str_eq url (bytes "/") || str_eq url (bytes "")

unfoldable pub is_html : CString → Bool
unfolding bytes strstr
is_html url = strstr url (bytes ".html")

unfoldable pub is_png : CString → Bool
unfolding bytes strstr
is_png url = strstr url (bytes "/images/") && strstr url (bytes ".png")

unfoldable pub is_jpg : CString → Bool
unfolding bytes strstr
is_jpg url = strstr url (bytes "/images/") && strstr url (bytes ".jpg")

unfoldable pub is_scan : CString → Bool
unfolding bytes strstr
is_scan url =
    strstr url (bytes "/scans/")
    && (strstr url (bytes ".jpg")
        || strstr url (bytes ".pdf")
        || strstr url (bytes ".odt")
        || strstr url (bytes "_thumb.png"))

unfoldable pub is_js : CString → Bool
unfolding bytes strstr
is_js url =
    strstr url (bytes "/includes/") && (strstr url (bytes ".js") || strstr url (bytes ".resource"))

unfoldable pub is_css : CString → Bool
unfolding bytes strstr
is_css url = strstr url (bytes "/style/") && strstr url (bytes ".css")

module _ (site : Site) (lang : CString) where
  unfoldable pub root_page : Option (List ℕ) → Exec File
  root_page none = fault
  root_page (some content) =
      if length content == 0
      then html_page (some [])
      else (do page ← build_page site (c_str content) lang; html_page page)

  -- The page for client tests stands without the header and the footer.
  unfoldable pub text_page : CString → Option (List ℕ) → Exec File
  unfolding strstr bytes
  text_page url none = ok not_found
  text_page url (some []) = ok not_found
  text_page url (some (c ∷ s)) =
      if strstr url (bytes "clientTesting.html")
      then html_page (some (c_str (c ∷ s)))
      else (do page ← build_page site (c_str (c ∷ s)) lang; html_page page)

  unfoldable pub scan_mimetype : CString → Option Mimetype
  unfolding strstr bytes
  scan_mimetype url =
      if strstr url (bytes ".jpg")
      then some jpg
      else if strstr url (bytes ".odt")
      then some odt
      else if strstr url (bytes ".pdf")
      then some pdf
      else if strstr url (bytes ".png")
      then some png
      else none

  -- A page of the archive, for visitors with the privilege to view.
  unfoldable pub scan_file : Privileges → CString → File
  unfolding bytes
  scan_file privs url =
      if is_zero privs.view_doc
      then found html (error_response (site.get_string (bytes "LOCAL_no_access") lang))
      else (elim (scan_mimetype url) [
        | none ↦ not_found
        | some m ↦ file_page m (get_from_file_full_path site (site.base_dir ++ url) lang)
      ])

  unfoldable pub get_page : Privileges → CString → Exec File
  unfolding bytes
  get_page privs url =
      if is_root url
      then root_page (get_from_file site (bytes "/body.html") lang)
      else if is_html url
      then text_page url (get_from_file site url lang)
      else if is_png url
      then ok (file_page png (get_from_file site url lang))
      else if is_jpg url
      then ok (file_page jpg (get_from_file site url lang))
      else if is_scan url
      then ok (scan_file privs url)
      else if is_js url
      then ok (file_page js (get_from_file site url lang))
      else if is_css url
      then ok (file_page css (get_from_file site url lang))
      else ok (found html [])
