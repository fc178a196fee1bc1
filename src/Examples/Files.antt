-- ===== src/Examples/Files.antt =====
-- The theorems on files and names at concrete inputs.
use crm_media.Base.{◌≡◌, ◌≢◌, refl, [], ◌∷◌, none, some, codes, All, has, text_eq}
use crm_media.FileValidation.Bytes.{Bytes, read_u16, read_u32, has_magic_at}
use crm_media.FileValidation.Names.{
  is_space, blocked_extensions, is_blocked_file_name, get_file_extension, extension_of_trimmed,
  trim, trim_start, trim_end, last_index_of,
}
use crm_media.FileValidation.Headers.{has_executable_header, is_declared}
use crm_media.FileValidation.Zip.{
  ZipReason, safe, unsafe, eocd_at, eocd_from, find_eocd_offset, entry_name_blocked, read_entry,
  walk, judge, check_eocd, check_zip_bomb,
}
use crm_media.FileValidation.Document.{
  valid, application_pdf, extension_of, is_pdf, validate_by_type, validate_document_magic_bytes,
}
use crm_media.FileValidation.ZipTotal.{check_zip_bomb-ne-none}
use crm_media.FileValidation.ZipBounds.{IsSafeArchive, check_zip_bomb-IsSafeArchive}
use crm_media.FileValidation.DocumentLaws.{NoneStands, executable_magics, HasKind, validate-valid}
use crm_media.FileValidation.NameLaws.{IsPlain, IsBlank}
use crm_media.Sanitize.{sanitize_file_name_for_object_key}
use crm_media.Sanitize.Laws.{IsKeyChar, object_key_segment}
use crm_media.Examples.{ascii, pdf}

-- `PK` and one entry `a` of five bytes in a central directory of 47 bytes.
abbrev archive : Bytes
archive =
    0x50 ∷ 0x4B ∷ 3 ∷ 4 ∷ 0x50 ∷ 0x4B ∷ 1 ∷ 2 ∷ 0 ∷ 0 ∷ 0 ∷ 0 ∷ 0 ∷ 0 ∷ 0 ∷ 0 ∷ 0 ∷ 0 ∷ 0 ∷ 0 ∷ 0
    ∷ 0 ∷ 0 ∷ 0 ∷ 0 ∷ 0 ∷ 0 ∷ 0 ∷ 5 ∷ 0 ∷ 0 ∷ 0 ∷ 1 ∷ 0 ∷ 0 ∷ 0 ∷ 0 ∷ 0 ∷ 0 ∷ 0 ∷ 0 ∷ 0 ∷ 0 ∷ 0 ∷ 0
    ∷ 0 ∷ 0 ∷ 0 ∷ 0 ∷ 0 ∷ b'a' ∷ 0x50 ∷ 0x4B ∷ 5 ∷ 6 ∷ 0 ∷ 0 ∷ 0 ∷ 0 ∷ 1 ∷ 0 ∷ 1 ∷ 0 ∷ 47 ∷ 0 ∷ 0
    ∷ 0 ∷ 4 ∷ 0 ∷ 0 ∷ 0 ∷ 0 ∷ 0 ∷ []

archive-safe : check_zip_bomb ascii archive ≡ some (safe 5 1)
unfolding check_zip_bomb find_eocd_offset eocd_from eocd_at check_eocd walk judge read_entry
    entry_name_blocked is_blocked_file_name get_file_extension extension_of_trimmed trim trim_start
    trim_end last_index_of blocked_extensions has has_magic_at read_u16 read_u32 is_space text_eq
archive-safe = refl

check_zip_bomb-IsSafeArchive_example : IsSafeArchive ascii archive 5 1
check_zip_bomb-IsSafeArchive_example = check_zip_bomb-IsSafeArchive ascii archive 5 1 archive-safe

check_zip_bomb-ne-none_example : check_zip_bomb ascii archive ≢ none
check_zip_bomb-ne-none_example = check_zip_bomb-ne-none ascii archive

pdf-valid :
    validate_document_magic_bytes ascii pdf none (some (codes "a.pdf"))
    ≡ some (valid (some application_pdf))
unfolding validate_document_magic_bytes has_executable_header check_zip_bomb validate_by_type is_pdf
    has_magic_at get_file_extension extension_of_trimmed trim trim_start trim_end last_index_of
    is_space text_eq is_declared
pdf-valid = refl

validate-valid_example :
    NoneStands pdf executable_magics
    × ((r : ZipReason) → check_zip_bomb ascii pdf ≢ some (unsafe r))
    × HasKind pdf (extension_of ascii (some (codes "a.pdf"))) none
validate-valid_example =
    validate-valid ascii pdf none (some (codes "a.pdf")) (some application_pdf) pdf-valid

exe-IsPlain : All IsPlain (codes "exe")
unfolding is_space
exe-IsPlain = ((refl, refl), ((refl, refl), ((refl, refl), tt)))

IsBlank-space : All IsBlank (codes " ")
unfolding is_space
IsBlank-space = (refl, tt)

object_key_segment_example :
    All IsKeyChar (sanitize_file_name_for_object_key ascii 7 (codes "../a b.pdf"))
    × (sanitize_file_name_for_object_key ascii 7 (codes "../a b.pdf") ≢ [])
object_key_segment_example = object_key_segment ascii 7 (codes "../a b.pdf")
