-- ===== src/PageRender/Services.antt =====
-- What src/pageRender.c uses of the rest of the program and of the machine.
use opendias.Base.{ℕ, ◌++◌}
use opendias.Base.CString.{CString, bytes}

-- The texts of `getString` (src/localisation.c), `str2md5` (src/utils.c), which calls OpenSSL, and the
-- time in seconds as a text ("%F %z %T" of `strftime`) and back (`strptime`, `mktime`).
pub record Services : Type 0 where
  pub get_string : CString → CString → CString
  pub str2md5 : CString → CString
  pub print_time : ℕ → CString
  pub read_time : CString → ℕ

abbrev pub xml_head : CString
xml_head = bytes "<?xml version='1.0' encoding='utf-8'?>\n"

-- `<name>content</name>`
unfoldable pub tagged : CString → CString → CString
unfolding bytes
tagged name content =
    bytes "<" ++ (name ++ (bytes ">" ++ (content ++ (bytes "</" ++ (name ++ bytes ">")))))

unfoldable pub response : CString → CString
unfolding bytes tagged
response content = xml_head ++ tagged (bytes "Response") content
