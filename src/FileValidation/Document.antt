-- ===== src/FileValidation/Document.antt =====
-- `validateDocumentMagicBytes`: the verdict on a document from its bytes, type and name.
use crm_media.Base.{
  Bool, false, ◌&&◌, ◌||◌, not, List, [], ◌∷◌, Option, none, some, length, ltb, get_or,
  if◌then◌else◌, Text, codes, text_eq, starts_with, has, map,
}
use crm_media.FileValidation.Bytes.{Bytes, ◌>>=◌, has_magic_at}
use crm_media.FileValidation.Names.{Unicode, get_file_extension}
use crm_media.FileValidation.Headers.{
  pdf_magic, zip_magic, ole2_magic, has_executable_header, is_declared, validate_image_magic_bytes,
}
use crm_media.FileValidation.Zip.{ZipReason, not_zip, safe, unsafe, check_zip_bomb}

-- The messages of the source; those with a label carry the extension.
pub data DocumentError : Type 0 where
  executable pdf_header image_header : DocumentError
  zip : ZipReason → DocumentError
  open_xml_header legacy_office_header : Text → DocumentError

-- `DocumentValidationResult`; `valid` has the detected type, if one is reported.
pub data DocumentValidation : Type 0 where
  valid : Option Text → DocumentValidation
  invalid : DocumentError → DocumentValidation

abbrev pub application_pdf : Text
application_pdf = codes "application/pdf"

abbrev pub application_zip : Text
application_zip = codes "application/zip"

abbrev pub ole_storage : Text
ole_storage = codes "application/x-ole-storage"

unfoldable pub image_mimes : List Text
image_mimes = map codes ("image/jpeg" ∷ "image/png" ∷ "image/webp" ∷ [])

unfoldable pub open_xml_exts : List Text
open_xml_exts = map codes ("docx" ∷ "xlsx" ∷ "pptx" ∷ "zip" ∷ [])

unfoldable pub legacy_office_exts : List Text
legacy_office_exts = map codes ("doc" ∷ "xls" ∷ "ppt" ∷ [])

unfoldable pub image_exts : List Text
image_exts = map codes ("png" ∷ "jpg" ∷ "jpeg" ∷ "webp" ∷ [])

unfoldable pub is_pdf : Text → Option Text → Bool
is_pdf ext declared = text_eq ext (codes "pdf") || is_declared declared application_pdf

abbrev pub declares_prefix : Option Text → Text → Bool
declares_prefix none p = false
declares_prefix (some d) p = starts_with p d

-- `openXmlExts.has(ext) || isOpenXmlMime`
unfoldable pub is_open_xml : Text → Option Text → Bool
is_open_xml ext declared =
    has open_xml_exts ext
    || is_declared declared application_zip
    || is_declared declared (codes "application/x-zip-compressed")
    || declares_prefix declared (codes "application/vnd.openxmlformats-officedocument.")

-- `legacyOfficeExts.has(ext) || isLegacyOfficeMime`
unfoldable pub is_legacy_office : Text → Option Text → Bool
is_legacy_office ext declared =
    has legacy_office_exts ext
    || is_declared declared (codes "application/msword")
    || is_declared declared (codes "application/vnd.ms-excel")
    || is_declared declared (codes "application/vnd.ms-powerpoint")

unfoldable pub is_image : Text → Option Text → Bool
is_image ext declared = has image_mimes (get_or declared []) || has image_exts ext

-- The part after the check of archives.
unfoldable pub validate_by_type : Bytes → Text → Option Text → DocumentValidation
validate_by_type b ext declared =
    if is_pdf ext declared
    then if ltb (length b) 5 || not (has_magic_at b 0 pdf_magic)
      then invalid pdf_header
      else valid (some application_pdf)
    else if is_open_xml ext declared
    then if ltb (length b) 4 || not (has_magic_at b 0 zip_magic)
      then invalid (open_xml_header ext)
      else valid (some application_zip)
    else if is_legacy_office ext declared
    then if ltb (length b) 8 || not (has_magic_at b 0 ole2_magic)
      then invalid (legacy_office_header ext)
      else valid (some ole_storage)
    else if is_image ext declared && not (validate_image_magic_bytes b ext declared)
    then invalid image_header
    else valid none

module _ (u : Unicode) where
  -- `fileName ? getFileExtension(fileName) : ""`
  abbrev pub extension_of : Option Text → Text
  extension_of none = []
  extension_of (some []) = []
  extension_of (some (c ∷ name)) = get_file_extension u (c ∷ name)

  -- `none` is a RangeError thrown by the check of archives.
  unfoldable pub validate_document_magic_bytes :
      Bytes → Option Text → Option Text → Option DocumentValidation
  validate_document_magic_bytes b declared file_name =
      if has_executable_header b then some (invalid executable) else do
        zip_check ← check_zip_bomb u b
        some (elim zip_check [
          | unsafe reason ↦ invalid (zip reason)
          | not_zip ↦ validate_by_type b (extension_of file_name) declared
          | safe total count ↦ validate_by_type b (extension_of file_name) declared
        ])
