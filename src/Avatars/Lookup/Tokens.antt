-- ===== src/Avatars/Lookup/Tokens.antt =====
-- The ids that a lookup asks for.
use crm_media.Base.{
  ◌≡◌, ◌≢◌, refl, sym, ap, ◌∙◌, ◌⊎◌, inl, inr, Bool, true, false, not, ◌&&◌, List, [], ◌∷◌, ◌++◌,
  Text, codes, has, text_eq, eq_of_text_eq, ne_of_text_eq, map, length, ltb, if◌then◌else◌, arith,
  Bool-cases,
}
use crm_media.FileValidation.Names.{trim}
use crm_media.Avatars.{distinct_ids}
use crm_media.Avatars.Distinct.{
  Distinct, has-nil, has-head, has-later, has-cons, distinct_ids-has, distinct_ids-Kept,
  distinct_ids-Distinct,
}
use crm_media.Avatars.Lookup.{split_commas, split_all, is_named, filter, unique_tokens}

true-ne-false : true ≢ false
true-ne-false q = cc

pub has-filter :
    (p : Text → Bool) (ids : List Text) (id : Text)
    → has ids id ≡ true
    → p id ≡ true
    → has (filter p ids) id ≡ true
unfolding filter
has-filter p [] id h e = absurd (true-ne-false (sym h ∙ has-nil id))
has-filter p (other ∷ ids) id h e = elim (has-cons id other ids h) [
  | inl same ↦ rw (ap p (sym same) ∙ e) (rw (same) (has-head other (filter p ids)))
  | inr later ↦ kept (p other) (has-filter p ids id later e)
]
  where
    kept :
        (b : Bool)
        → has (filter p ids) id ≡ true
        → has (if b then other ∷ filter p ids else filter p ids) id ≡ true
    kept true k = has-later id other (filter p ids) k
    kept false k = k

pub filter-has :
    (p : Text → Bool) (ids : List Text) (id : Text)
    → has (filter p ids) id ≡ true
    → (has ids id ≡ true) × (p id ≡ true)
unfolding filter
filter-has p [] id h = absurd (true-ne-false (sym h ∙ has-nil id))
filter-has p (other ∷ ids) id h = go (p other) refl (filter-has p ids id) h
  where
    go :
        (b : Bool)
        → p other ≡ b
        → (has (filter p ids) id ≡ true → (has ids id ≡ true) × (p id ≡ true))
        → has (if b then other ∷ filter p ids else filter p ids) id ≡ true
        → (has (other ∷ ids) id ≡ true) × (p id ≡ true)
    go true e k h = elim (has-cons id other (filter p ids) h) [
      | inl same ↦ (rw (same) (has-head other ids), ap p same ∙ e)
      | inr later ↦ let (among, holds) = k later in (has-later id other ids among, holds)
    ]
    go false e k h = let (among, holds) = k h in (has-later id other ids among, holds)

-- A part of an item between its commas.
abbrev pub IsPart : List Text → Text → Type 0
IsPart raw part = (item : Text) × (has raw item ≡ true) × (has (split_commas item) part ≡ true)

has-append :
    (xs ys : List Text) (id : Text)
    → has (xs ++ ys) id ≡ true
    → (has xs id ≡ true) ⊎ (has ys id ≡ true)
has-append [] ys id h = inr h
has-append (x ∷ xs) ys id h = elim (has-cons id x (xs ++ ys) h) [
  | inl same ↦ inl (rw (same) (has-head x xs))
  | inr later ↦ elim (has-append xs ys id later) [
    | inl left ↦ inl (has-later id x xs left)
    | inr right ↦ inr right
  ]
]

append-left : (xs ys : List Text) (id : Text) → has xs id ≡ true → has (xs ++ ys) id ≡ true
append-left [] ys id h = absurd (true-ne-false (sym h ∙ has-nil id))
append-left (x ∷ xs) ys id h = elim (has-cons id x xs h) [
  | inl same ↦ rw (same) (has-head x (xs ++ ys))
  | inr later ↦ has-later id x (xs ++ ys) (append-left xs ys id later)
]

append-right : (xs ys : List Text) (id : Text) → has ys id ≡ true → has (xs ++ ys) id ≡ true
append-right [] ys id h = h
append-right (x ∷ xs) ys id h = has-later id x (xs ++ ys) (append-right xs ys id h)

split_all-IsPart :
    (raw : List Text) (part : Text) → has (split_all raw) part ≡ true → IsPart raw part
unfolding split_all
split_all-IsPart [] part h = absurd (true-ne-false (sym h ∙ has-nil part))
split_all-IsPart (item ∷ raw) part h =
    elim (has-append (split_commas item) (split_all raw) part h) [
      | inl here ↦ (item, has-head item raw, here)
      | inr there ↦
          let (other, among, within) = split_all-IsPart raw part there in
          (other, has-later other item raw among, within)
    ]

has-split_all :
    (raw : List Text) (item part : Text)
    → has raw item ≡ true
    → has (split_commas item) part ≡ true
    → has (split_all raw) part ≡ true
unfolding split_all
has-split_all [] item part h k = absurd (true-ne-false (sym h ∙ has-nil item))
has-split_all (other ∷ raw) item part h k = elim (has-cons item other raw h) [
  | inl same ↦
      append-left (split_commas other) (split_all raw) part
        (ap (λ x. has (split_commas x) part) (sym same) ∙ k)
  | inr later ↦
      append-right (split_commas other) (split_all raw) part (has-split_all raw item part later k)
]

has-map :
    (f : Text → Text) (xs : List Text) (x : Text) → has xs x ≡ true → has (map f xs) (f x) ≡ true
has-map f [] x h = absurd (true-ne-false (sym h ∙ has-nil x))
has-map f (y ∷ xs) x h = elim (has-cons x y xs h) [
  | inl same ↦ rw (same) (has-head (f y) (map f xs))
  | inr later ↦ has-later (f x) (f y) (map f xs) (has-map f xs x later)
]

map-has :
    (f : Text → Text) (xs : List Text) (id : Text)
    → has (map f xs) id ≡ true
    → (x : Text) × (has xs x ≡ true) × (f x ≡ id)
map-has f [] id h = absurd (true-ne-false (sym h ∙ has-nil id))
map-has f (y ∷ xs) id h = elim (has-cons id (f y) (map f xs) h) [
  | inl same ↦ (y, has-head y xs, sym same)
  | inr later ↦ let (x, among, image) = map-has f xs id later in (x, has-later x y xs among, image)
]

-- An id that is asked for: a part between commas, trimmed, and none of the three that count as none.
pub record IsAsked (raw : List Text) (id : Text) : Type 0 where
  pub part : Text
  pub is_part : IsPart raw part
  pub trimmed : trim part ≡ id
  pub not_empty : id ≢ []
  pub not_null : id ≢ codes "null"
  pub not_undefined : id ≢ codes "undefined"

is_named-parts :
    (id : Text) → is_named id ≡ true → (id ≢ []) × (id ≢ codes "null") × (id ≢ codes "undefined")
unfolding is_named
is_named-parts id h = (
  λ e. true-ne-false (sym h ∙ empty id e),
  ne_of_text_eq id (codes "null") (ground arith),
  ne_of_text_eq id (codes "undefined") (ground arith),
)
  where
    empty :
        (id : Text)
        → id ≡ []
        → (ltb 0 (length id)
            && (not (text_eq id (codes "null")) && not (text_eq id (codes "undefined"))))
          ≡ false
    empty [] e = refl
    empty (c ∷ s) e = absurd (cc)

parts-is_named :
    (id : Text) → id ≢ [] → id ≢ codes "null" → id ≢ codes "undefined" → is_named id ≡ true
unfolding is_named
parts-is_named [] given n u = absurd (given refl)
parts-is_named (c ∷ s) given n u =
    let no_null = differs (c ∷ s) (codes "null") n in
    let no_undefined = differs (c ∷ s) (codes "undefined") u in
    rw (no_null, no_undefined) (ground arith)
  where
    differs : (s t : Text) → s ≢ t → text_eq s t ≡ false
    differs s t ne = elim (Bool-cases (text_eq s t)) [
      | inl same ↦ absurd (ne (eq_of_text_eq s t same))
      | inr other ↦ other
    ]

-- The ids without repetition, exactly those that are asked for.
pub record AreTokens (raw tokens : List Text) : Type 0 where
  pub distinct : Distinct tokens
  pub only : (id : Text) → has tokens id ≡ true → IsAsked raw id
  pub all_of : (id : Text) → IsAsked raw id → has tokens id ≡ true

pub unique_tokens-AreTokens : (raw : List Text) → AreTokens raw (unique_tokens raw)
unfolding unique_tokens
unique_tokens-AreTokens raw = record {
  distinct = distinct_ids-Distinct [] (filter is_named (map trim (split_all raw)));
  only = only;
  all_of = all_of;
}
  where
    only :
        (id : Text)
        → has (distinct_ids [] (filter is_named (map trim (split_all raw)))) id ≡ true
        → IsAsked raw id
    only id h =
        let (among, _, _) = distinct_ids-Kept [] _ id h in
        let (mapped, named) = filter-has is_named (map trim (split_all raw)) id among in
        let (part, within, image) = map-has trim (split_all raw) id mapped in
        let (given, no_null, no_undefined) = is_named-parts id named in
        record {
          part = part;
          is_part = split_all-IsPart raw part within;
          trimmed = image;
          not_empty = given;
          not_null = no_null;
          not_undefined = no_undefined;
        }

    all_of :
        (id : Text)
        → IsAsked raw id
        → has (distinct_ids [] (filter is_named (map trim (split_all raw)))) id ≡ true
    all_of [] a = absurd (a.not_empty refl)
    all_of (c ∷ id) a =
        let (item, among, within) = a.is_part in
        let mapped =
          has-map trim (split_all raw) a.part (has-split_all raw item a.part among within) in
        let named = parts-is_named (c ∷ id) a.not_empty a.not_null a.not_undefined in
        distinct_ids-has c id [] (filter is_named (map trim (split_all raw)))
          (has-filter is_named (map trim (split_all raw)) (c ∷ id)
            (ap (has (map trim (split_all raw))) (sym a.trimmed) ∙ mapped) named)
          (has-nil (c ∷ id))
