-- ===== src/Sanitize.antt =====
-- src/shared/sanitize-filename.ts: the readable name for the database and the segment for object
-- keys. Texts are lists of code points, so `[...s]` is the text itself.
pub mod Laws
use crm_media.Base.{
  ℕ, Bool, true, false, ◌&&◌, ◌||◌, not, List, [], ◌∷◌, ◌++◌, leb, ◌==◌, take, if◌then◌else◌, Text,
  codes,
}
use crm_media.Base.Decimal.{decimal}
use crm_media.FileValidation.Names.{Unicode, is_space, trim, trim_start, trim_end}

abbrev pub max_stored_original_name : ℕ
max_stored_original_name = 255

-- `[\u0000-\u001F\u007F]`
unfoldable pub is_control : ℕ → Bool
is_control c = leb c 0x1F || c == 0x7F

unfoldable pub remove : (ℕ → Bool) → Text → Text
remove p [] = []
remove p (c ∷ s) = let rest = remove p s in if p c then rest else c ∷ rest

-- `s.replace(/p+/g, r)`; the flag says that the run at hand has been replaced.
unfoldable pub replace_runs : (ℕ → Bool) → ℕ → Bool → Text → Text
replace_runs p r in_run [] = []
replace_runs p r in_run (c ∷ s) =
    let rest = replace_runs p r (p c) s in
    if p c then (if in_run then rest else r ∷ rest) else c ∷ rest

-- `s.replace(/^_+|_+$/g, "")`
unfoldable pub strip_start : ℕ → Text → Text
strip_start r [] = []
strip_start r (c ∷ s) = let rest = strip_start r s in if c == r then rest else c ∷ s

unfoldable pub strip_end : ℕ → Text → Text
strip_end r [] = []
strip_end r (c ∷ s) = elim (strip_end r s) [
  | [] ↦ if c == r then [] else c ∷ []
  | d ∷ t ↦ c ∷ d ∷ t
]

-- `[\w.\-]`
unfoldable pub is_key_char : ℕ → Bool
is_key_char c =
    (leb b'a' c && leb c b'z')
    || (leb b'A' c && leb c b'Z')
    || (leb b'0' c && leb c b'9')
    || c == b'_'
    || c == b'.'
    || c == b'-'

-- `s || fallback`
abbrev pub or_else : Text → Text → Text
or_else [] d = d
or_else (c ∷ s) d = c ∷ s

module _ (u : Unicode) (now : ℕ) where
  abbrev pub fallback_name : Text
  fallback_name = codes "file_" ++ decimal now

  unfoldable pub sanitize_stored_file_name : Text → Text
  unfolding remove is_control trim replace_runs
  sanitize_stored_file_name input =
      let without_controls = trim (remove is_control input) in
      let sliced = take max_stored_original_name (u.nfkc without_controls) in
      or_else (trim (replace_runs is_space b' ' false sliced)) fallback_name

  unfoldable pub sanitize_file_name_for_object_key : Text → Text
  unfolding replace_runs strip_start strip_end is_key_char
  sanitize_file_name_for_object_key input =
      let base = sanitize_stored_file_name input in
      let safe = replace_runs (λ c. not (is_key_char c)) b'_' false (u.nfkd base) in
      let single = replace_runs (λ c. c == b'_') b'_' false safe in
      or_else (strip_end b'_' (strip_start b'_' single)) fallback_name
