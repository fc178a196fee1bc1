-- ===== src/FileValidation/NameLaws.antt =====
-- Extensions: white space round a name and the stem in front of the last dot do not matter.
use crm_media.Base.{
  ℕ, suc, ◌≡◌, refl, true, false, Bool, [], ◌∷◌, ◌++◌, none, some, arith, length, drop,
  length-append, ◌==◌, Text, All, has, text_eq, ap, ◌∙◌, sym, if◌then◌else◌,
}
use mathlib.Core.List.{append_assoc}
use crm_media.FileValidation.Names.{
  Unicode, is_space, trim_start, trim_end, trim, last_index_of, blocked_extensions,
  extension_of_trimmed, get_file_extension, is_blocked_file_name,
}

-- A code point of an extension: no white space and no dot.
abbrev pub IsPlain : ℕ → Type 0
IsPlain c = (is_space c ≡ false) × (c == b'.' ≡ false)

abbrev pub IsBlank : ℕ → Type 0
IsBlank c = is_space c ≡ true

trim_start-append :
    (stem rest : Text) (c : ℕ)
    → is_space c ≡ false
    → (p : Text) × (trim_start (stem ++ c ∷ rest) ≡ p ++ c ∷ rest)
unfolding trim_start
trim_start-append [] rest c h = ([], ground arith)
trim_start-append (x ∷ stem) rest c h =
    let (p, e) = trim_start-append stem rest c h in go p e (is_space x)
  where
    go :
        (p : Text)
        → trim_start (stem ++ c ∷ rest) ≡ p ++ c ∷ rest
        → (b : Bool)
        → (q : Text) × ((if b then trim_start (stem ++ c ∷ rest) else (x ∷ (stem ++ c ∷ rest)))
            ≡ q ++ c ∷ rest)
    go p e true = (p, e)
    go p e false = (x ∷ stem, refl)

trim_end-blank : (w : Text) → All IsBlank w → trim_end w ≡ []
unfolding trim_end
trim_end-blank [] h = refl
trim_end-blank (c ∷ w) (h, hs) = rw (trim_end-blank w hs, h)

trim_end-append : (s w : Text) → All IsBlank w → trim_end (s ++ w) ≡ trim_end s
unfolding trim_end
trim_end-append [] w h = trim_end-blank w h
trim_end-append (c ∷ s) w h = rw (trim_end-append s w h)

trim_end-plain : (e : Text) → All IsPlain e → trim_end e ≡ e
unfolding trim_end
trim_end-plain [] h = refl
trim_end-plain (c ∷ []) (h, hs) = ground arith
trim_end-plain (c ∷ d ∷ e) (h, hs) = rw (trim_end-plain (d ∷ e) hs)

trim_end-ends :
    (p : Text) (c : ℕ) (e : Text) → All IsPlain (c ∷ e) → trim_end (p ++ c ∷ e) ≡ p ++ c ∷ e
unfolding trim_end
trim_end-ends [] c e h = trim_end-plain (c ∷ e) h
trim_end-ends (x ∷ []) c e h = rw (trim_end-plain (c ∷ e) h)
trim_end-ends (x ∷ y ∷ p) c e h = rw (trim_end-ends (y ∷ p) c e h)

last_index_of-none : (e : Text) → All IsPlain e → last_index_of b'.' e ≡ none
unfolding last_index_of
last_index_of-none [] h = refl
last_index_of-none (c ∷ e) (h, hs) = rw (last_index_of-none e hs, h.1)

last_index_of-dot :
    (p e : Text) → All IsPlain e → last_index_of b'.' (p ++ b'.' ∷ e) ≡ some (length p)
unfolding last_index_of
last_index_of-dot [] e h = rw (last_index_of-none e h)
last_index_of-dot (x ∷ p) e h = rw (last_index_of-dot p e h)

drop-stem : (p e : Text) → drop (suc (length p)) (p ++ b'.' ∷ e) ≡ e
drop-stem [] e = refl
drop-stem (x ∷ p) e = drop-stem p e

trim-name :
    (stem : Text) (c : ℕ) (e w : Text)
    → All IsPlain (c ∷ e)
    → All IsBlank w
    → (p : Text) × (trim (stem ++ b'.' ∷ c ∷ (e ++ w)) ≡ p ++ b'.' ∷ c ∷ e)
unfolding trim is_space
trim-name stem c e w plain blank =
    let (p, started) = trim_start-append stem (c ∷ (e ++ w)) b'.' refl in
    let ended : trim_end ((p ++ b'.' ∷ []) ++ c ∷ e) ≡ (p ++ b'.' ∷ []) ++ c ∷ e =
      trim_end-ends (p ++ b'.' ∷ []) c e plain in
    let assoc : (p ++ b'.' ∷ []) ++ c ∷ e ≡ p ++ b'.' ∷ c ∷ e = simp append_assoc in
    let regroup : (p ++ b'.' ∷ c ∷ e) ++ w ≡ p ++ b'.' ∷ c ∷ (e ++ w) = simp append_assoc in
    (
      p,
      ap trim_end started
          ∙ ap trim_end (sym regroup)
          ∙ trim_end-append (p ++ b'.' ∷ c ∷ e) w blank
          ∙ ap trim_end (sym assoc)
          ∙ ended
          ∙ assoc,
    )

has-nonempty :
    (ext : Text)
    → elim ext [ [] ↦ false | c ∷ e ↦ has blocked_extensions (c ∷ e) ] ≡ has blocked_extensions ext
unfolding has text_eq blocked_extensions
has-nonempty [] = refl
has-nonempty (c ∷ e) = refl

module _ (u : Unicode) where
  extension_of_trimmed-dot :
      (p : Text) (c : ℕ) (e : Text)
      → All IsPlain (c ∷ e)
      → extension_of_trimmed u (p ++ b'.' ∷ c ∷ e) ≡ u.to_lower_case (c ∷ e)
  unfolding extension_of_trimmed
  extension_of_trimmed-dot p c e plain =
      let longer : suc (length p) == length (p ++ b'.' ∷ c ∷ e) ≡ false =
        ground (arith, length-append p (b'.' ∷ c ∷ e)) in
      rw (last_index_of-dot p (c ∷ e) plain, extension_of_trimmed)
        (rw longer (ap u.to_lower_case (drop-stem p (c ∷ e))))

  pub get_file_extension-dot :
      (stem : Text) (c : ℕ) (e w : Text)
      → All IsPlain (c ∷ e)
      → All IsBlank w
      → get_file_extension u (stem ++ b'.' ∷ c ∷ (e ++ w)) ≡ u.to_lower_case (c ∷ e)
  unfolding get_file_extension
  get_file_extension-dot stem c e w plain blank =
      let (p, trimmed) = trim-name stem c e w plain blank in
      ap (extension_of_trimmed u) trimmed ∙ extension_of_trimmed-dot p c e plain

  -- Whatever stands in front of the last dot, and whatever white space follows, a file name is
  -- blocked exactly when its lower-cased extension is one of the blocked extensions.
  pub is_blocked_file_name-dot :
      (stem : Text) (c : ℕ) (e w : Text)
      → All IsPlain (c ∷ e)
      → All IsBlank w
      → is_blocked_file_name u (stem ++ b'.' ∷ c ∷ (e ++ w))
        ≡ has blocked_extensions (u.to_lower_case (c ∷ e))
  unfolding is_blocked_file_name
  is_blocked_file_name-dot stem c e w plain blank =
      rw (get_file_extension-dot stem c e w plain blank, is_blocked_file_name)
        (has-nonempty (u.to_lower_case (c ∷ e)))
