-- ===== src/FileValidation/Zip.antt =====
-- `findEocdOffset` and `checkZipBomb`. `none` is the RangeError of a read out of bounds.
use crm_media.Base.{
  ℕ, zero, suc, ◌+◌, ◌-◌, ◌*◌, min, max, Bool, false, ◌||◌, not, Option, none, some, length, take,
  drop, ltb, leb, ◌==◌, if◌then◌else◌, Text,
}
use crm_media.FileValidation.Bytes.{Bytes, ◌>>=◌, read_u16, read_u32, has_magic_at}
use crm_media.FileValidation.Names.{Unicode, is_blocked_file_name}
use crm_media.FileValidation.Headers.{zip_magic}

-- What one offset shows: no signature, an EOCD record whose comment ends the file, or another one.
pub data Probe : Type 0 where
  miss exact loose : Probe

unfoldable pub eocd_at : Bytes → ℕ → Option Probe
eocd_at b i = do
  sig ← read_u32 b i
  if sig == 0x06054b50
      then (do
        comment_len ← read_u16 b (i + 20)
        some (if i + 22 + comment_len == length b then exact else loose))
      else some miss

-- `if (fallback === -1) fallback = i`
abbrev pub keep_first : Option ℕ → ℕ → Option ℕ
keep_first none i = some i
keep_first (some j) i = some j

-- The loop of `findEocdOffset`: `rounds` offsets are left, from `low + rounds - 1` down to `low`.
unfoldable pub eocd_from : Bytes → ℕ → ℕ → Option ℕ → Option (Option ℕ)
eocd_from b low zero fallback = some fallback
eocd_from b low (suc rounds) fallback = elim (eocd_at b (low + rounds)) [
  | none ↦ none
  | some miss ↦ eocd_from b low rounds fallback
  | some exact ↦ some (some (low + rounds))
  | some loose ↦ eocd_from b low rounds (keep_first fallback (low + rounds))
]

-- The result -1 is `some none`. It is called with at least 22 bytes.
unfoldable pub find_eocd_offset : Bytes → Option (Option ℕ)
find_eocd_offset b =
    let max_search = min (length b) (65535 + 22) in
    eocd_from b (length b - max_search) (max_search - 21) none

pub data ZipReason : Type 0 where
  corrupt outside truncated bad_entry too_big bad_ratio : ZipReason
  too_many_entries : ℕ → ZipReason
  blocked_entry : Text → ZipReason

-- `ZipBombCheckResult`: a file that is no archive is safe without counts.
pub data ZipCheck : Type 0 where
  not_zip : ZipCheck
  safe : ℕ → ℕ → ZipCheck
  unsafe : ZipReason → ZipCheck

-- The end of the loop over the entries: the total, or the reason to stop.
pub data Walk : Type 0 where
  total : ℕ → Walk
  stop : ZipReason → Walk

-- One round of the loop: the uncompressed size and the length of the entry, or the reason.
pub data Entry : Type 0 where
  entry : ℕ → ℕ → Entry
  refuse : ZipReason → Entry

abbrev pub mebibytes : ℕ → ℕ
mebibytes n = n * 1024 * 1024

module _ (u : Unicode) (b : Bytes) where
  -- The guard on an entry's name, made only where the name lies within the buffer.
  unfoldable pub entry_name_blocked : ℕ → ℕ → Bool
  entry_name_blocked offset name_len =
      if leb (offset + 46 + name_len) (length b)
      then is_blocked_file_name u (u.utf8 (take name_len (drop (offset + 46) b)))
      else false

  unfoldable pub read_entry : ℕ → ℕ → Option Entry
  read_entry limit offset =
      if ltb limit (offset + 46) || ltb (length b) (offset + 46)
      then some (refuse truncated)
      else do
        sig ← read_u32 b offset
        if not (sig == 0x02014b50) then some (refuse bad_entry) else (do
          uncompressed_size ← read_u32 b (offset + 24)
          name_len ← read_u16 b (offset + 28)
          extra_len ← read_u16 b (offset + 30)
          comment_len ← read_u16 b (offset + 32)
          some (
              if entry_name_blocked offset name_len
              then refuse (blocked_entry (u.utf8 (take name_len (drop (offset + 46) b))))
              else entry uncompressed_size (46 + name_len + extra_len + comment_len)))

  -- The loop over the entries, `count` of them left.
  unfoldable pub walk : ℕ → ℕ → ℕ → ℕ → Option Walk
  walk limit zero sum offset = some (total sum)
  walk limit (suc count) sum offset = elim (read_entry limit offset) [
    | none ↦ none
    | some (refuse r) ↦ some (stop r)
    | some (entry size len) ↦ walk limit count (sum + size) (offset + len)
  ]

  -- The tests on the total. The quotient of doubles passes 100 exactly if the integers do: both
  -- are below 2 ^ 53, and the nearest quotients differ by more than the rounding.
  unfoldable pub judge : ℕ → Walk → ZipCheck
  judge count (stop r) = unsafe r
  judge count (total sum) =
      if ltb (mebibytes 250) sum
      then unsafe too_big
      else if ltb (100 * max (length b) 1) sum
      then unsafe bad_ratio
      else safe sum count

  unfoldable pub check_eocd : ℕ → Option ZipCheck
  check_eocd eocd = do
    entry_count ← read_u16 b (eocd + 10)
    cd_size ← read_u32 b (eocd + 12)
    cd_offset ← read_u32 b (eocd + 16)
    if ltb 10000 entry_count
        then some (unsafe (too_many_entries entry_count))
        else if ltb (length b) (cd_offset + cd_size)
        then some (unsafe outside)
        else (do
          end ← walk (cd_offset + cd_size) entry_count 0 cd_offset
          some (judge entry_count end))

  unfoldable pub check_zip_bomb : Option ZipCheck
  check_zip_bomb =
      if ltb (length b) 22 || not (has_magic_at b 0 zip_magic) then some not_zip else do
        found ← find_eocd_offset b
        elim found [ none ↦ some (unsafe corrupt) | some eocd ↦ check_eocd eocd ]
