-- ===== src/Sanitize/Laws.antt =====
-- What the sanitised names are made of, whatever the input.
use crm_media.Base.{
  ℕ, zero, suc, ◌+◌, ◌%◌, ◌/◌, ◌≤◌, ◌<◌, ◌≡◌, refl, ◌≢◌, Bool, true, false, not, ◌++◌, [], ◌∷◌,
  arith, length, length-take-le, take, All, Text, codes, max, Bool-cases, ltb, ◌==◌, inl, inr,
}
use crm_media.Base.Decimal.{decimal, decimal_from}
use crm_media.FileValidation.Names.{Unicode, is_space, trim, trim_start, trim_end}
use crm_media.Sanitize.{
  is_control, remove, replace_runs, strip_start, strip_end, is_key_char, or_else, fallback_name,
  sanitize_stored_file_name, sanitize_file_name_for_object_key,
}

module _ (P : ℕ → Type 0) where
  All-append : (s t : Text) → All P s → All P t → All P (s ++ t)
  All-append [] t hs ht = ht
  All-append (c ∷ s) t (h, hs) ht = (h, All-append s t hs ht)

  -- What every other character satisfies, and the replacement too, the result satisfies.
  All-replace_runs :
      (p : ℕ → Bool) (r : ℕ) (flag : Bool) (s : Text)
      → P r
      → ((c : ℕ) → p c ≡ false → P c)
      → All P (replace_runs p r flag s)
  unfolding replace_runs
  All-replace_runs p r flag [] pr h = tt
  All-replace_runs p r flag (c ∷ s) pr h = ground (arith, h c, All-replace_runs p r (p c) s pr h)

  All-replace_runs_keep :
      (p : ℕ → Bool) (r : ℕ) (flag : Bool) (s : Text)
      → P r
      → All P s
      → All P (replace_runs p r flag s)
  unfolding replace_runs
  All-replace_runs_keep p r flag [] pr h = tt
  All-replace_runs_keep p r flag (c ∷ s) pr (h, hs) =
      ground (arith, All-replace_runs_keep p r (p c) s pr hs)

  All-strip_start : (r : ℕ) (s : Text) → All P s → All P (strip_start r s)
  unfolding strip_start
  All-strip_start r [] h = tt
  All-strip_start r (c ∷ s) (h, hs) = ground (arith, All-strip_start r s hs)

  All-strip_end : (r : ℕ) (s : Text) → All P s → All P (strip_end r s)
  unfolding strip_end
  All-strip_end r [] h = tt
  All-strip_end r (c ∷ s) (h, hs) = ground (arith, All-strip_end r s hs)

abbrev pub IsKeyChar : ℕ → Type 0
IsKeyChar c = is_key_char c ≡ true

IsKeyChar-digit : (d : ℕ) → d < 10 → IsKeyChar (b'0' + d)
unfolding is_key_char
IsKeyChar-digit d h = ground arith

IsKeyChar-underscore : IsKeyChar b'_'
unfolding is_key_char
IsKeyChar-underscore = refl

decimal_from-IsKeyChar : (fuel n : ℕ) → All IsKeyChar (decimal_from fuel n)
unfolding decimal_from
decimal_from-IsKeyChar zero n = tt
decimal_from-IsKeyChar (suc fuel) n = elim (Bool-cases (ltb n 10)) [
  | inl small ↦ rw small (IsKeyChar-digit n (ground arith), tt)
  | inr large ↦ rw large (
      All-append IsKeyChar (decimal_from fuel (n / 10)) _ (decimal_from-IsKeyChar fuel (n / 10))
        (IsKeyChar-digit (n % 10) (omega arith), tt))
]

fallback_name-IsKeyChar : (u : Unicode) (now : ℕ) → All IsKeyChar (fallback_name u now)
unfolding decimal is_key_char
fallback_name-IsKeyChar u now =
    All-append IsKeyChar (codes "file_") (decimal now) (refl, (refl, (refl, (refl, (refl, tt)))))
      (decimal_from-IsKeyChar (suc now) now)

or_else-All : (P : ℕ → Type 0) (s d : Text) → All P s → All P d → All P (or_else s d)
or_else-All P [] d hs hd = hd
or_else-All P (c ∷ s) d hs hd = hs

or_else-ne-nil : (s : Text) (c : ℕ) (d : Text) → or_else s (c ∷ d) ≢ []
or_else-ne-nil [] c d e = cc
or_else-ne-nil (x ∷ s) c d e = cc

-- The segment of an object key is never empty and consists of letters, digits, `_`, `.` and `-`
-- alone: it holds no slash, whatever the file was called.
pub object_key_segment :
    (u : Unicode) (now : ℕ) (input : Text)
    → All IsKeyChar (sanitize_file_name_for_object_key u now input)
      × (sanitize_file_name_for_object_key u now input ≢ [])
unfolding sanitize_file_name_for_object_key
object_key_segment u now input =
    let base = u.nfkd (sanitize_stored_file_name u now input) in
    let is_bad : ℕ → Bool = λ c. not (is_key_char c) in
    let is_bar : ℕ → Bool = λ c. c == b'_' in
    let safe = replace_runs is_bad b'_' false base in
    let single = replace_runs is_bar b'_' false safe in
    let kept =
      All-replace_runs IsKeyChar is_bad b'_' false base IsKeyChar-underscore
        (λ c h. ground arith) in
    let once = All-replace_runs_keep IsKeyChar is_bar b'_' false safe IsKeyChar-underscore kept in
    let stripped =
      All-strip_end IsKeyChar b'_' (strip_start b'_' single)
        (All-strip_start IsKeyChar b'_' single once) in
    (
      or_else-All IsKeyChar (strip_end b'_' (strip_start b'_' single)) _ stripped
          (fallback_name-IsKeyChar u now),
      or_else-ne-nil (strip_end b'_' (strip_start b'_' single)) _ _,
    )

length-replace_runs :
    (p : ℕ → Bool) (r : ℕ) (flag : Bool) (s : Text) → length (replace_runs p r flag s) ≤ length s
unfolding replace_runs
length-replace_runs p r flag [] = omega arith
length-replace_runs p r flag (c ∷ s) = ground (arith, length-replace_runs p r (p c) s)

length-trim_start : (s : Text) → length (trim_start s) ≤ length s
unfolding trim_start
length-trim_start [] = omega arith
length-trim_start (c ∷ s) = ground (arith, length-trim_start s)

length-trim_end : (s : Text) → length (trim_end s) ≤ length s
unfolding trim_end
length-trim_end [] = omega arith
length-trim_end (c ∷ s) = ground (arith, length-trim_end s)

length-trim : (s : Text) → length (trim s) ≤ length s
unfolding trim
length-trim s = omega (arith, length-trim_end (trim_start s), length-trim_start s)

or_else-length : (s d : Text) (n : ℕ) → length s ≤ n → length (or_else s d) ≤ max n (length d)
or_else-length [] d n h = omega arith
or_else-length (c ∷ s) d n h = omega arith

-- A stored name is never empty and has at most 255 code points, or those of the name made from the
-- clock.
pub stored_name_bounded :
    (u : Unicode) (now : ℕ) (input : Text)
    → (sanitize_stored_file_name u now input ≢ [])
      × (length (sanitize_stored_file_name u now input) ≤ max 255 (length (fallback_name u now)))
unfolding sanitize_stored_file_name
stored_name_bounded u now input =
    let sliced = take 255 (u.nfkc (trim (remove is_control input))) in
    let collapsed = trim (replace_runs is_space b' ' false sliced) in
    let short : length collapsed ≤ 255 = omega (
      arith,
      length-trim (replace_runs is_space b' ' false sliced),
      length-replace_runs is_space b' ' false sliced,
      length-take-le 255 (u.nfkc (trim (remove is_control input))),
    ) in
    (or_else-ne-nil collapsed _ _, or_else-length collapsed (fallback_name u now) 255 short)
