-- ===== src/FileValidation/ZipBounds.antt =====
-- What an archive that the check calls safe is known to be, entry by entry.
use crm_media.Base.{
  ℕ, zero, suc, ◌+◌, ◌*◌, ◌≤◌, ◌≡◌, inl, inr, false, none, some, arith, length, Option-cases, ap,
  ◌∙◌,
}
use crm_media.FileValidation.Bytes.{Bytes, >>=-eq-some, read_u16, read_u32}
use mathlib.Core.Path.{subst₂}
use crm_media.FileValidation.Names.{Unicode}
use crm_media.FileValidation.Zip.{
  find_eocd_offset, entry, Walk, total, stop, read_entry, walk, judge, check_eocd, check_zip_bomb,
  safe, entry_name_blocked,
}
use crm_media.FileValidation.ZipTotal.{read_entry-cases}

module _ (u : Unicode) (b : Bytes) where
  -- A central directory header of an entry of `size` bytes that takes `len` bytes of the directory.
  pub record IsEntry (limit offset size len : ℕ) : Type 0 where
    pub in_directory : offset + 46 ≤ limit
    pub in_buffer : offset + 46 ≤ length b
    pub signature : read_u32 b offset ≡ some 0x02014b50
    pub size_field : read_u32 b (offset + 24) ≡ some size
    pub name_len : ℕ
    pub name_field : read_u16 b (offset + 28) ≡ some name_len
    pub not_blocked : entry_name_blocked u b offset name_len ≡ false
    pub advances : 46 + name_len ≤ len

  -- `count` such headers stand one after the other from `offset` on, and declare `sum` bytes.
  pub data Entries (limit : ℕ) : ℕ → ℕ → ℕ → Type 0 where
    done : {offset : ℕ} → Entries limit zero offset 0
    more :
        {count offset size len sum : ℕ}
        → IsEntry limit offset size len
        → Entries limit count (offset + len) sum
        → Entries limit (suc count) offset (size + sum)

  read_entry-IsEntry :
      (limit offset size len : ℕ)
      → read_entry u b limit offset ≡ some (entry size len)
      → IsEntry limit offset size len
  unfolding read_entry
  read_entry-IsEntry limit offset size len e = elim (Option-cases (read_u16 b (offset + 28))) [
    | inl missing ↦ absurd (ground arith)
    | inr (name_len, found) ↦ record {
      in_directory = ground arith;
      in_buffer = ground arith;
      signature = ground arith;
      size_field = ground arith;
      name_len = name_len;
      name_field = found;
      not_blocked = ground arith;
      advances = ground arith;
    }
  ]

  walk-Entries :
      (limit count sum offset result : ℕ)
      → walk u b limit count sum offset ≡ some (total result)
      → (declared : ℕ) × Entries limit count offset declared × (result ≡ sum + declared)
  unfolding walk
  walk-Entries limit zero sum offset result e = (0, done, ground arith)
  walk-Entries limit (suc count) sum offset result e = elim (read_entry-cases u b limit offset) [
    | inl (r, found) ↦ ground arith
    | inr (size, len, found) ↦
        let (declared, rest, eq) =
          walk-Entries limit count (sum + size) (offset + len) result (ground arith) in
        (size + declared, more (read_entry-IsEntry limit offset size len found) rest, omega arith)
  ]

  -- What the fields of the end record at `eocd` and the directory that they name must satisfy.
  pub record IsSafeArchive (sum count : ℕ) : Type 0 where
    pub eocd : ℕ
    pub size : ℕ
    pub start : ℕ
    pub count_field : read_u16 b (eocd + 10) ≡ some count
    pub size_field : read_u32 b (eocd + 12) ≡ some size
    pub start_field : read_u32 b (eocd + 16) ≡ some start
    pub inside : start + size ≤ length b
    pub few : count ≤ 10000
    pub entries : Entries (start + size) count start sum
    pub small : sum ≤ 250 * 1024 * 1024
    pub ratio : sum ≤ 100 * length b

  judge-safe :
      (n count sum : ℕ) (end : Walk)
      → 22 ≤ length b
      → judge u b n end ≡ safe sum count
      → (end ≡ total sum) × (n ≡ count) × (sum ≤ 250 * 1024 * 1024) × (sum ≤ 100 * length b)
  unfolding judge
  judge-safe n count sum (stop r) h e = cc
  judge-safe n count sum (total t) h e = (ground arith, ground arith, ground arith, ground arith)

  walk-IsSafeArchive :
      (eocd n size start sum count : ℕ) (end : Walk)
      → read_u16 b (eocd + 10) ≡ some n
      → read_u32 b (eocd + 12) ≡ some size
      → read_u32 b (eocd + 16) ≡ some start
      → n ≤ 10000
      → start + size ≤ length b
      → walk u b (start + size) n 0 start ≡ some end
      → 22 ≤ length b
      → judge u b n end ≡ safe sum count
      → IsSafeArchive sum count
  walk-IsSafeArchive eocd n size start sum count end at_count at_size at_start few inside walked h
        e =
      let (totalled, same, small, ratio) = judge-safe n count sum end h e in
      let (declared, entries, sums) =
        walk-Entries (start + size) n 0 start sum (walked ∙ ap some totalled) in
      let sums' : declared ≡ sum = omega arith in
      record {
        eocd = eocd;
        size = size;
        start = start;
        count_field = at_count ∙ ap some same;
        size_field = at_size;
        start_field = at_start;
        inside = inside;
        few = omega arith;
        entries = subst₂ (λ k t. Entries (start + size) k start t) same sums' entries;
        small = small;
        ratio = ratio;
      }

  check_eocd-IsSafeArchive :
      (eocd sum count : ℕ)
      → 22 ≤ length b
      → check_eocd u b eocd ≡ some (safe sum count)
      → IsSafeArchive sum count
  unfolding check_eocd
  check_eocd-IsSafeArchive eocd sum count h e =
      let (n, at_count, e1) = >>=-eq-some (read_u16 b (eocd + 10)) _ e in
      let (size, at_size, e2) = >>=-eq-some (read_u32 b (eocd + 12)) _ e1 in
      let (start, at_start, e3) = >>=-eq-some (read_u32 b (eocd + 16)) _ e2 in
      elim (Option-cases (walk u b (start + size) n 0 start)) [
        | inl bad ↦ absurd (ground arith)
        | inr (end, walked) ↦
            walk-IsSafeArchive eocd n size start sum count end at_count at_size at_start
              (ground arith) (ground arith) walked h (ground arith)
      ]

  -- An archive that the check calls safe names a directory inside the file, with at most 10000
  -- entries that stand one after the other within it, none of a name that the check blocks, whose sizes add up
  -- to the reported total, at most 250 MiB and at most 100 times the file.
  pub check_zip_bomb-IsSafeArchive :
      (sum count : ℕ) → check_zip_bomb u b ≡ some (safe sum count) → IsSafeArchive sum count
  unfolding check_zip_bomb
  check_zip_bomb-IsSafeArchive sum count e = elim (Option-cases (find_eocd_offset b)) [
    | inl bad ↦ absurd (ground arith)
    | inr (none, found) ↦ absurd (ground arith)
    | inr (some eocd, found) ↦ check_eocd-IsSafeArchive eocd sum count (ground arith) (ground arith)
  ]
