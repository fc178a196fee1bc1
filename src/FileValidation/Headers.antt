-- ===== src/FileValidation/Headers.antt =====
-- Magic numbers, executable headers and image headers.
use crm_media.Base.{
  Bool, true, false, ◌&&◌, ◌||◌, [], ◌∷◌, Option, none, some, length, ltb, leb, if◌then◌else◌, Text,
  codes, text_eq,
}
use crm_media.FileValidation.Bytes.{Bytes, has_magic_at}

abbrev pub mz_header : Bytes
mz_header = 0x4d ∷ 0x5a ∷ []

abbrev pub elf_header : Bytes
elf_header = 0x7f ∷ 0x45 ∷ 0x4c ∷ 0x46 ∷ []

abbrev pub shebang : Bytes
shebang = 0x23 ∷ 0x21 ∷ []

abbrev pub java_class : Bytes
java_class = 0xca ∷ 0xfe ∷ 0xba ∷ 0xbe ∷ []

abbrev pub macho_32_be : Bytes
macho_32_be = 0xfe ∷ 0xed ∷ 0xfa ∷ 0xce ∷ []

abbrev pub macho_32_le : Bytes
macho_32_le = 0xce ∷ 0xfa ∷ 0xed ∷ 0xfe ∷ []

abbrev pub macho_64_be : Bytes
macho_64_be = 0xfe ∷ 0xed ∷ 0xfa ∷ 0xcf ∷ []

abbrev pub macho_64_le : Bytes
macho_64_le = 0xcf ∷ 0xfa ∷ 0xed ∷ 0xfe ∷ []

abbrev pub macho_fat_le : Bytes
macho_fat_le = 0xbe ∷ 0xba ∷ 0xfe ∷ 0xca ∷ []

abbrev pub pdf_magic : Bytes
pdf_magic = 0x25 ∷ 0x50 ∷ 0x44 ∷ 0x46 ∷ 0x2d ∷ []

abbrev pub zip_magic : Bytes
zip_magic = 0x50 ∷ 0x4b ∷ 0x03 ∷ 0x04 ∷ []

abbrev pub ole2_magic : Bytes
ole2_magic = 0xd0 ∷ 0xcf ∷ 0x11 ∷ 0xe0 ∷ 0xa1 ∷ 0xb1 ∷ 0x1a ∷ 0xe1 ∷ []

abbrev pub png_magic : Bytes
png_magic = 0x89 ∷ 0x50 ∷ 0x4e ∷ 0x47 ∷ 0x0d ∷ 0x0a ∷ 0x1a ∷ 0x0a ∷ []

abbrev pub jpeg_magic : Bytes
jpeg_magic = 0xff ∷ 0xd8 ∷ 0xff ∷ []

abbrev pub riff_header : Bytes
riff_header = 0x52 ∷ 0x49 ∷ 0x46 ∷ 0x46 ∷ []

abbrev pub webp_header : Bytes
webp_header = 0x57 ∷ 0x45 ∷ 0x42 ∷ 0x50 ∷ []

unfoldable pub has_executable_header : Bytes → Bool
has_executable_header b =
    if ltb (length b) 2
    then false
    else if has_magic_at b 0 mz_header || has_magic_at b 0 shebang
    then true
    else if ltb (length b) 4
    then false
    else has_magic_at b 0 elf_header
      || has_magic_at b 0 java_class
      || has_magic_at b 0 macho_32_be
      || has_magic_at b 0 macho_32_le
      || has_magic_at b 0 macho_64_be
      || has_magic_at b 0 macho_64_le
      || has_magic_at b 0 macho_fat_le

-- `declaredMime === mime`, where the declared type may be undefined.
unfoldable pub is_declared : Option Text → Text → Bool
is_declared none mime = false
is_declared (some d) mime = text_eq d mime

unfoldable pub validate_image_magic_bytes : Bytes → Text → Option Text → Bool
validate_image_magic_bytes b ext declared =
    if text_eq ext (codes "png") || is_declared declared (codes "image/png")
    then leb 8 (length b) && has_magic_at b 0 png_magic
    else if text_eq ext (codes "jpg")
        || text_eq ext (codes "jpeg")
        || is_declared declared (codes "image/jpeg")
    then leb 3 (length b) && has_magic_at b 0 jpeg_magic
    else if text_eq ext (codes "webp") || is_declared declared (codes "image/webp")
    then leb 12 (length b) && has_magic_at b 0 riff_header && has_magic_at b 8 webp_header
    else true
