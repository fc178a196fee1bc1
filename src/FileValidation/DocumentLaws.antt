-- ===== src/FileValidation/DocumentLaws.antt =====
-- What the verdict on a document promises: it is always given, executables and unsafe archives are
-- refused, and an accepted document starts with the magic number of its kind.
use crm_media.Base.{
  ℕ, ◌<◌, ◌+◌, get_elem?-none, sym, ◌∙◌, codes, text_eq, if◌then◌else◌, ltb, ◌≡◌, refl, ◌≢◌, inl,
  inr, true, false, ◌||◌, Bool, List, [], ◌∷◌, Option, none, some, arith, length, Text, any,
  Option-cases, Bool-cases,
}
use crm_media.FileValidation.Bytes.{
  Bytes, has_magic_at, StandsAt, has_magic_at-StandsAt, StandsAt-has_magic_at,
}
use crm_media.FileValidation.Names.{Unicode}
use crm_media.FileValidation.Headers.{
  mz_header, shebang, elf_header, java_class, macho_32_be, macho_32_le, macho_64_be, macho_64_le,
  macho_fat_le, pdf_magic, zip_magic, ole2_magic, png_magic, jpeg_magic, riff_header, webp_header,
  is_declared, has_executable_header, validate_image_magic_bytes,
}
use crm_media.FileValidation.Zip.{ZipReason, unsafe, check_zip_bomb}
use crm_media.FileValidation.ZipTotal.{check_zip_bomb-ne-none}
use crm_media.FileValidation.Document.{
  valid, is_pdf, is_open_xml, is_legacy_office, is_image, validate_by_type, extension_of,
  validate_document_magic_bytes,
}

abbrev pub executable_magics : List Bytes
executable_magics =
    mz_header ∷ shebang ∷ elf_header ∷ java_class ∷ macho_32_be ∷ macho_32_le ∷ macho_64_be
    ∷ macho_64_le ∷ macho_fat_le ∷ []

or_chain :
    (p q r s t v w x y : Bool)
    → (if p || q then true else r || s || t || v || w || x || y)
      ≡ (p || (q || (r || (s || (t || (v || (w || (x || (y || false)))))))))
or_chain true q r s t v w x y = refl
or_chain false true r s t v w x y = refl
or_chain false false r s t v w x y = ground arith

-- A magic number longer than the buffer does not stand in it.
short-not_magic :
    (b : Bytes) (i : ℕ) (m : Bytes)
    → length b < i + length m
    → 0 < length m
    → has_magic_at b i m ≡ false
unfolding has_magic_at
short-not_magic b i [] h k = absurd (omega arith)
short-not_magic b i (m ∷ []) h k = ground (arith, get_elem?-none b i)
short-not_magic b i (m ∷ n ∷ ms) h k =
    ground (arith, short-not_magic b (i + 1) (n ∷ ms) (omega arith) (omega arith))

-- The tests on the length of the buffer change nothing: a buffer has an executable header exactly
-- when one of the nine magic numbers stands at its start.
pub has_executable_header-any :
    (b : Bytes) → has_executable_header b ≡ any (has_magic_at b 0) executable_magics
unfolding has_executable_header
has_executable_header-any b = elim (Bool-cases (ltb (length b) 4)) [
  | inr long ↦
      let long' : ltb (length b) 2 ≡ false = ground arith in
      let h = has_magic_at b 0 in
      rw (long', has_executable_header)
        (rw long (
          or_chain (h mz_header) (h shebang) (h elf_header) (h java_class) (h macho_32_be)
            (h macho_32_le) (h macho_64_be) (h macho_64_le) (h macho_fat_le)))
  | inl short ↦
      let no4 : (m : Bytes) → length m ≡ 4 → has_magic_at b 0 m ≡ false =
        λ m k. short-not_magic b 0 m (ground arith) (omega arith) in
      ground (
        arith,
        no4 elf_header refl,
        no4 java_class refl,
        no4 macho_32_be refl,
        no4 macho_32_le refl,
        no4 macho_64_be refl,
        no4 macho_64_le refl,
        no4 macho_fat_le refl,
        short-not_magic b 0 mz_header,
        short-not_magic b 0 shebang,
      )
]

-- The names and types of the images.
abbrev pub is_png : Text → Option Text → Bool
is_png ext declared = text_eq ext (codes "png") || is_declared declared (codes "image/png")

abbrev pub is_jpeg : Text → Option Text → Bool
is_jpeg ext declared =
    text_eq ext (codes "jpg")
    || text_eq ext (codes "jpeg")
    || is_declared declared (codes "image/jpeg")

abbrev pub is_webp : Text → Option Text → Bool
is_webp ext declared = text_eq ext (codes "webp") || is_declared declared (codes "image/webp")

-- The magic number of the kind of an image; a PNG by name or type is no other kind, nor is a JPEG a
-- WebP.
pub record HasImageKind (b : Bytes) (ext : Text) (declared : Option Text) : Type 0 where
  pub png : is_png ext declared ≡ true → StandsAt b 0 png_magic
  pub jpeg : is_png ext declared ≡ false → is_jpeg ext declared ≡ true → StandsAt b 0 jpeg_magic
  pub webp :
      is_png ext declared ≡ false
      → is_jpeg ext declared ≡ false
      → is_webp ext declared ≡ true
      → StandsAt b 0 riff_header × StandsAt b 8 webp_header

image-HasImageKind :
    (b : Bytes) (ext : Text) (declared : Option Text)
    → validate_image_magic_bytes b ext declared ≡ true
    → HasImageKind b ext declared
unfolding validate_image_magic_bytes
image-HasImageKind b ext declared h =
    let magic = has_magic_at-StandsAt b in
    record {
      png = λ p. magic 0 png_magic (ground arith);
      jpeg = λ p q. magic 0 jpeg_magic (ground arith);
      webp = λ p q r. (magic 0 riff_header (ground arith), magic 8 webp_header (ground arith));
    }

-- None of these magic numbers stands at the start.
abbrev pub NoneStands : Bytes → List Bytes → Type 0
NoneStands b [] = Unit
NoneStands b (m ∷ ms) = (StandsAt b 0 m → ⊥) × NoneStands b ms

any-NoneStands : (b : Bytes) (ms : List Bytes) → any (has_magic_at b 0) ms ≡ false → NoneStands b ms
any-NoneStands b [] h = tt
any-NoneStands b (m ∷ ms) h = (
  λ stands. let found = StandsAt-has_magic_at b 0 m stands in absurd (ground arith),
  any-NoneStands b ms (ground arith),
)

-- What the kind of an accepted document, by extension or declared type, says of its bytes.
pub record HasKind (b : Bytes) (ext : Text) (declared : Option Text) : Type 0 where
  pub pdf : is_pdf ext declared ≡ true → StandsAt b 0 pdf_magic
  pub open_xml :
      is_pdf ext declared ≡ false → is_open_xml ext declared ≡ true → StandsAt b 0 zip_magic
  pub legacy_office :
      is_pdf ext declared ≡ false
      → is_open_xml ext declared ≡ false
      → is_legacy_office ext declared ≡ true
      → StandsAt b 0 ole2_magic
  pub image :
      is_pdf ext declared ≡ false
      → is_open_xml ext declared ≡ false
      → is_legacy_office ext declared ≡ false
      → is_image ext declared ≡ true
      → HasImageKind b ext declared

validate_by_type-HasKind :
    (b : Bytes) (ext : Text) (declared t : Option Text)
    → validate_by_type b ext declared ≡ valid t
    → HasKind b ext declared
unfolding validate_by_type
validate_by_type-HasKind b ext declared t e =
    let magic = has_magic_at-StandsAt b 0 in
    record {
      pdf = λ p. magic pdf_magic (ground arith);
      open_xml = λ p q. magic zip_magic (ground arith);
      legacy_office = λ p q r. magic ole2_magic (ground arith);
      image = λ p q r s. image-HasImageKind b ext declared (ground arith);
    }

module _ (u : Unicode) where
  -- Every document gets a verdict: the check never throws.
  pub validate-ne-none :
      (b : Bytes) (declared name : Option Text)
      → validate_document_magic_bytes u b declared name ≢ none
  unfolding validate_document_magic_bytes
  validate-ne-none b declared name e = elim (Option-cases (check_zip_bomb u b)) [
    | inl bad ↦ check_zip_bomb-ne-none u b bad
    | inr (check, found) ↦ ground arith
  ]

  validate-by_type :
      (b : Bytes) (declared name t : Option Text)
      → validate_document_magic_bytes u b declared name ≡ some (valid t)
      → validate_by_type b (extension_of u name) declared ≡ valid t
  unfolding validate_document_magic_bytes
  validate-by_type b declared name t e = ground arith

  -- An accepted document has none of the nine executable headers at its start, is no archive that the
  -- check of archives refuses, and has the magic number of the kind that its extension or its declared
  -- type names, the first of PDF, Open XML, legacy Office, PNG, JPEG and WebP: at its start and, for
  -- WebP, at the ninth byte too. For a name and a type of no such kind it says nothing of the last.
  pub validate-valid :
      (b : Bytes) (declared name t : Option Text)
      → validate_document_magic_bytes u b declared name ≡ some (valid t)
      → NoneStands b executable_magics
        × ((r : ZipReason) → check_zip_bomb u b ≢ some (unsafe r))
        × HasKind b (extension_of u name) declared
  unfolding validate_document_magic_bytes
  validate-valid b declared name t e = (
    any-NoneStands b executable_magics
        (sym (has_executable_header-any b) ∙ not_executable (has_executable_header b) refl),
    λ r bad. ground arith,
    validate_by_type-HasKind b (extension_of u name) declared t
        (validate-by_type b declared name t e),
  )
    where
      not_executable : (x : Bool) → has_executable_header b ≡ x → has_executable_header b ≡ false
      not_executable x h = ground arith
