-- ===== src/Email/Escape.antt =====
-- The angle brackets and quotes of a text, and that an escaped text has none.
use crm_media.Base.{
  ℕ, ◌≡◌, refl, ◌∙◌, ap, Bool, true, false, ◌||◌, List, [], ◌∷◌, ◌++◌, ◌==◌, String, Text, codes,
  ==_iff, if◌then◌else◌, arith,
}
use crm_media.Email.Pieces.{Part, quoted, value, template, replace_all, escape_html}

-- The characters that begin or end a tag, or end the value of an attribute.
unfoldable pub is_markup : ℕ → Bool
is_markup c = c == b'<' || (c == b'>' || c == b'"')

unfoldable pub markup : Text → Text
markup [] = []
markup (c ∷ s) = let rest = markup s in if is_markup c then c ∷ rest else rest

pub quoted_markup : String → Text
quoted_markup s = markup (codes s)

unfoldable pub template_markup : List Part → Text
template_markup [] = []
template_markup (quoted s ∷ parts) = quoted_markup s ++ template_markup parts
template_markup (value t ∷ parts) = markup t ++ template_markup parts

pub markup-append : (s t : Text) → markup (s ++ t) ≡ markup s ++ markup t
unfolding markup
markup-append [] t = refl
markup-append (c ∷ s) t = ground (arith, markup-append s t)

pub markup-template : (parts : List Part) → markup (template parts) ≡ template_markup parts
unfolding markup template template_markup quoted_markup
markup-template [] = refl
markup-template (quoted s ∷ parts) =
    markup-append (codes s) (template parts)
    ∙ ap (λ t. markup (codes s) ++ t) (markup-template parts)
markup-template (value t ∷ parts) =
    markup-append t (template parts) ∙ ap (λ u. markup t ++ u) (markup-template parts)

-- The escape of one character.
abbrev pub escape_char : ℕ → Text
escape_char c =
    if c == b'&'
    then codes "&amp;"
    else if c == b'<'
    then codes "&lt;"
    else if c == b'>'
    then codes "&gt;"
    else if c == b'"'
    then codes "&quot;"
    else c ∷ []

-- The four replacements are one pass.
escape_html-cons : (c : ℕ) (s : Text) → escape_html (c ∷ s) ≡ escape_char c ++ escape_html s
unfolding escape_html replace_all
escape_html-cons c s = go (c == b'&') (c == b'<') (c == b'>') (c == b'"') refl refl refl refl
  where
    at :
        (d : ℕ)
        → escape_html (d ∷ s) ≡ escape_char d ++ escape_html s
        → (c == d) ≡ true
        → escape_html (c ∷ s) ≡ escape_char c ++ escape_html s
    at d h e = rw ((==_iff c d).0 e) h

    go :
        (a l g q : Bool)
        → (c == b'&') ≡ a
        → (c == b'<') ≡ l
        → (c == b'>') ≡ g
        → (c == b'"') ≡ q
        → escape_html (c ∷ s) ≡ escape_char c ++ escape_html s
    go true l g q ha hl hg hq = at b'&' refl ha
    go false true g q ha hl hg hq = at b'<' refl hl
    go false false true q ha hl hg hq = at b'>' refl hg
    go false false false true ha hl hg hq = at b'"' refl hq
    go false false false false ha hl hg hq = rw (ha, hl, hg, hq) refl

markup-escape_char : (c : ℕ) → markup (escape_char c) ≡ []
unfolding markup is_markup
markup-escape_char c = go (c == b'&') (c == b'<') (c == b'>') (c == b'"') refl refl refl refl
  where
    plain : is_markup c ≡ false → markup (c ∷ []) ≡ []
    plain h = rw h refl

    go :
        (a l g q : Bool)
        → (c == b'&') ≡ a
        → (c == b'<') ≡ l
        → (c == b'>') ≡ g
        → (c == b'"') ≡ q
        → markup (escape_char c) ≡ []
    go true l g q ha hl hg hq = rw ha refl
    go false true g q ha hl hg hq = rw (ha, hl) refl
    go false false true q ha hl hg hq = rw (ha, hl, hg) refl
    go false false false true ha hl hg hq = rw (ha, hl, hg, hq) refl
    go false false false false ha hl hg hq = rw (ha, hl, hg, hq) (plain (rw (hl, hg, hq) refl))

pub markup-escape_html : (s : Text) → markup (escape_html s) ≡ []
unfolding markup escape_html replace_all
markup-escape_html [] = refl
markup-escape_html (c ∷ s) =
    rw (escape_html-cons, markup-append, markup-escape_char, markup-escape_html s) refl
