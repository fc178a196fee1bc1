-- ===== src/FileValidation/ZipTotal.antt =====
-- The check of archives never reads out of bounds, on any bytes.
use crm_media.Base.{
  ℕ, zero, suc, ◌+◌, ◌-◌, ◌≤◌, ◌≡◌, ◌⊎◌, inl, inr, ◌≢◌, min, Option, none, some, arith, length, ltb,
  Bool-cases, Option-cases,
}
use crm_media.FileValidation.Bytes.{Bytes, read_u16-some, read_u32-some}
use crm_media.FileValidation.Names.{Unicode}
use crm_media.FileValidation.Zip.{
  eocd_at, eocd_from, find_eocd_offset, entry, refuse, read_entry, walk, check_eocd, check_zip_bomb,
  ZipReason,
}

eocd_at-ne-none : (b : Bytes) (i : ℕ) → i + 22 ≤ length b → eocd_at b i ≢ none
unfolding eocd_at
eocd_at-ne-none b i h =
    ground (arith, read_u32-some b i (omega arith), read_u16-some b (i + 20) (omega arith))

-- An EOCD record that starts at a found offset lies within the buffer.
abbrev InRange : Bytes → Option (Option ℕ) → Type 0
InRange b none = ⊥
InRange b (some none) = Unit
InRange b (some (some i)) = i + 22 ≤ length b

eocd_from-InRange :
    (b : Bytes) (low rounds : ℕ) (fallback : Option ℕ)
    → low + rounds + 21 ≤ length b
    → InRange b (some fallback)
    → InRange b (eocd_from b low rounds fallback)
unfolding eocd_from
eocd_from-InRange b low zero fallback h f = f
eocd_from-InRange b low (suc k) none h f = ground (
  arith,
  eocd_at-ne-none b (low + k) (omega arith),
  eocd_from-InRange b low k none (omega arith) tt,
  eocd_from-InRange b low k (some (low + k)) (omega arith),
)
eocd_from-InRange b low (suc k) (some j) h f = ground (
  arith,
  eocd_at-ne-none b (low + k) (omega arith),
  eocd_from-InRange b low k (some j) (omega arith) f,
)

pub find_eocd_offset-InRange : (b : Bytes) → 22 ≤ length b → InRange b (find_eocd_offset b)
unfolding find_eocd_offset
find_eocd_offset-InRange b h =
    eocd_from-InRange b (length b - min (length b) 65557) (min (length b) 65557 - 21) none
      (omega arith) tt

module _ (u : Unicode) (b : Bytes) where
  read_entry-ne-none : (limit offset : ℕ) → read_entry u b limit offset ≢ none
  unfolding read_entry
  read_entry-ne-none limit offset = elim (Bool-cases (ltb (length b) (offset + 46))) [
    | inl short ↦ ground arith
    | inr fits ↦
        let room : offset + 46 ≤ length b = ground arith in
        ground (
          arith,
          read_u32-some b offset (omega arith),
          read_u32-some b (offset + 24) (omega arith),
          read_u16-some b (offset + 28) (omega arith),
          read_u16-some b (offset + 30) (omega arith),
          read_u16-some b (offset + 32) (omega arith),
        )
  ]

  pub read_entry-cases :
      (limit offset : ℕ)
      → ((r : ZipReason) × (read_entry u b limit offset ≡ some (refuse r)))
        ⊎ ((size : ℕ) × (len : ℕ) × (read_entry u b limit offset ≡ some (entry size len)))
  read_entry-cases limit offset = elim (Option-cases (read_entry u b limit offset)) [
    | inl bad ↦ absurd (read_entry-ne-none limit offset bad)
    | inr (refuse r, e) ↦ inl (r, e)
    | inr (entry size len, e) ↦ inr (size, len, e)
  ]

  walk-ne-none : (limit count sum offset : ℕ) → walk u b limit count sum offset ≢ none
  unfolding walk
  walk-ne-none limit zero sum offset e = cc
  walk-ne-none limit (suc count) sum offset e = elim (read_entry-cases limit offset) [
    | inl (r, found) ↦ ground arith
    | inr (size, len, found) ↦ walk-ne-none limit count (sum + size) (offset + len) (ground arith)
  ]

  check_eocd-ne-none : (eocd : ℕ) → eocd + 22 ≤ length b → check_eocd u b eocd ≢ none
  unfolding check_eocd
  check_eocd-ne-none eocd h e =
      let (count, e1) = read_u16-some b (eocd + 10) (omega arith) in
      let (size, e2) = read_u32-some b (eocd + 12) (omega arith) in
      let (start, e3) = read_u32-some b (eocd + 16) (omega arith) in
      ground (arith, walk-ne-none (start + size) count 0 start)

  -- The check of archives returns a result for every buffer: no read is out of bounds.
  pub check_zip_bomb-ne-none : check_zip_bomb u b ≢ none
  unfolding check_zip_bomb
  check_zip_bomb-ne-none e = elim (Bool-cases (ltb (length b) 22)) [
    | inl short ↦ ground arith
    | inr long ↦
        let found = find_eocd_offset-InRange b (ground arith) in
        elim (Option-cases (find_eocd_offset b)) [
          | inl bad ↦ rw bad at found
          | inr (none, none_found) ↦ ground arith
          | inr (some eocd, at_eocd) ↦ ground (arith, check_eocd-ne-none eocd (rw at_eocd at found))
        ]
  ]
