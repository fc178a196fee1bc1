-- ===== src/FileValidation/Names.antt =====
-- File names: extensions, and the blocked extensions and MIME types.
use crm_media.Base.{
  ℕ, suc, Bool, false, ◌&&◌, ◌||◌, List, [], ◌∷◌, Option, none, some, length, drop, ◌==◌, leb,
  if◌then◌else◌, Text, codes, has, map,
}

-- What the JavaScript runtime takes from the Unicode tables: `toLowerCase`, `normalize("NFKC")`,
-- `normalize("NFKD")`, and the decoding of UTF-8 by `toString("utf8")`.
pub record Unicode : Type 0 where
  pub to_lower_case : Text → Text
  pub nfkc : Text → Text
  pub nfkd : Text → Text
  pub utf8 : List ℕ → Text

-- The white space and line terminators of ECMAScript, as `trim` and `\s` read them.
unfoldable pub is_space : ℕ → Bool
is_space c =
    (leb 9 c && leb c 13)
    || c == 32
    || c == 0xA0
    || c == 0x1680
    || (leb 0x2000 c && leb c 0x200A)
    || c == 0x2028
    || c == 0x2029
    || c == 0x202F
    || c == 0x205F
    || c == 0x3000
    || c == 0xFEFF

unfoldable pub trim_start : Text → Text
trim_start [] = []
trim_start (c ∷ s) = let rest = trim_start s in if is_space c then rest else c ∷ s

unfoldable pub trim_end : Text → Text
trim_end [] = []
trim_end (c ∷ s) = elim (trim_end s) [ [] ↦ if is_space c then [] else c ∷ [] | d ∷ r ↦ c ∷ d ∷ r ]

-- `s.trim()`
unfoldable pub trim : Text → Text
trim s = trim_end (trim_start s)

-- `s.lastIndexOf(c)`; -1 is `none`.
unfoldable pub last_index_of : ℕ → Text → Option ℕ
last_index_of c [] = none
last_index_of c (x ∷ s) = elim (last_index_of c s) [
  | some i ↦ some (suc i)
  | none ↦ if x == c then some 0 else none
]

blocked_mimes : List Text
blocked_mimes = map codes (
    "image/svg+xml" ∷ "text/html" ∷ "application/x-msdownload" ∷ "application/x-dosexec"
    ∷ "application/x-executable" ∷ "application/x-mach-binary" ∷ "application/x-elf"
    ∷ "application/x-sh" ∷ "application/x-bat" ∷ "application/x-msi" ∷ "application/x-ms-shortcut"
    ∷ "application/java-archive" ∷ "application/x-php" ∷ "text/x-php" ∷ "application/javascript"
    ∷ "text/javascript" ∷ "application/x-python" ∷ "text/x-python" ∷ "application/x-ruby"
    ∷ "text/x-ruby" ∷ [])

unfoldable pub blocked_extensions : List Text
blocked_extensions = map codes (
    "exe" ∷ "msi" ∷ "dll" ∷ "bat" ∷ "cmd" ∷ "com" ∷ "scr" ∷ "pif" ∷ "cpl" ∷ "jar" ∷ "js" ∷ "jse"
    ∷ "ts" ∷ "jsx" ∷ "tsx" ∷ "vbs" ∷ "vbe" ∷ "wsf" ∷ "wsh" ∷ "ps1" ∷ "psm1" ∷ "psd1" ∷ "sh" ∷ "bash"
    ∷ "zsh" ∷ "ksh" ∷ "php" ∷ "phar" ∷ "phtml" ∷ "py" ∷ "rb" ∷ "pl" ∷ "cgi" ∷ "jsp" ∷ "jspx" ∷ "asp"
    ∷ "aspx" ∷ "hta" ∷ "lnk" ∷ "reg" ∷ "iso" ∷ "img" ∷ "dmg" ∷ "app" ∷ "apk" ∷ "bin" ∷ "sys" ∷ "drv"
    ∷ [])

module _ (u : Unicode) where
  -- `getFileExtension` after its `trim`.
  unfoldable pub extension_of_trimmed : Text → Text
  unfolding last_index_of
  extension_of_trimmed trimmed = elim (last_index_of b'.' trimmed) [
    | none ↦ []
    | some last_dot ↦
        if suc last_dot == length trimmed then [] else u.to_lower_case (drop (suc last_dot) trimmed)
  ]

  unfoldable pub get_file_extension : Text → Text
  unfolding trim extension_of_trimmed
  get_file_extension file_name = extension_of_trimmed (trim file_name)

  unfoldable pub is_blocked_file_name : Text → Bool
  unfolding blocked_extensions has
  is_blocked_file_name file_name = elim (get_file_extension file_name) [
    | [] ↦ false
    | c ∷ ext ↦ has blocked_extensions (c ∷ ext)
  ]

  unfoldable pub is_blocked_mime : Text → Bool
  unfolding blocked_mimes has
  is_blocked_mime mime = has blocked_mimes (u.to_lower_case mime)
