-- ===== src/DocEditor/Parts.antt =====
-- src/doc_editor.c: the texts of `getDocDetail`.
use opendias.Base.{◌++◌}
use opendias.Base.Exec.{Exec, ok, ◌>>=◌}
use opendias.Base.CString.{CString, bytes}
use opendias.Database.{RecordSet, read_data}
use opendias.PageRender.Services.{Services, tagged}
use opendias.PageRender.Entries.{or_default, doc_date, cdata}

unfoldable pub tag_part : RecordSet → Exec CString
unfolding bytes
tag_part r = do tagname ← read_data r (bytes "tagname"); ok (tagged (bytes "tag") tagname)

unfoldable pub link_part : Services → (lang : CString) → RecordSet → Exec CString
unfolding bytes
link_part v lang r = do
  title ← read_data r (bytes "title")
  linkeddocid ← read_data r (bytes "linkeddocid")
  ok (
      tagged (bytes "doc") (
        tagged (bytes "targetDocid") linkeddocid
        ++ tagged (bytes "targetTitle") (or_default v lang title)))

-- An element of the document's details, behind two spaces.
unfoldable pub part : (name content : CString) → CString
unfolding bytes
part name content = bytes "  " ++ tagged name content

unfoldable pub detail_page :
    Services → (lang document_id tags docs : CString) → RecordSet → Exec CString
unfolding bytes
detail_page v lang document_id tags docs r = do
  title ← read_data r (bytes "title")
  human_readable_date ← doc_date v lang r
  entrydate ← read_data r (bytes "entrydate")
  filetype ← read_data r (bytes "filetype")
  pages ← read_data r (bytes "pages")
  ocrtext ← read_data r (bytes "ocrtext")
  ppl ← read_data r (bytes "ppl")
  lines ← read_data r (bytes "lines")
  hardcopy_kept ← read_data r (bytes "hardcopyKept")
  actionrequired ← read_data r (bytes "actionrequired")
  ok (
      bytes "<?xml version='1.0' encoding='utf-8'?><Response> <DocDetail>"
      ++ (part (bytes "docid") document_id
          ++ (part (bytes "title") (cdata (or_default v lang title))
              ++ (part (bytes "scanDate") entrydate
                  ++ (part (bytes "type") filetype
                      ++ (part (bytes "docDate") human_readable_date
                          ++ (part (bytes "pages") pages
                              ++ (part (bytes "extractedText") (cdata ocrtext)
                                  ++ (part (bytes "x") ppl
                                      ++ (part (bytes "y") lines
                                          ++ (part (bytes "Tags") tags
                                              ++ (part (bytes "DocLinks") docs
                                                  ++ (part (bytes "hardcopyKept") hardcopy_kept
                                                      ++ (part (bytes "actionrequired")
                                                            actionrequired
                                                          ++ bytes
                                                            " </DocDetail></Response>"))))))))))))))
