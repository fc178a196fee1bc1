-- ===== src/Avatars/Distinct.antt =====
-- The distinct, not empty ids of a list.
use crm_media.Base.{
  ℕ, ◌≡◌, ◌≢◌, refl, sym, ap, ◌∙◌, Bool, true, false, ◌||◌, List, [], ◌∷◌, Text, has, text_eq,
  text_eq_refl, eq_of_text_eq, ◌⊎◌, inl, inr, if◌then◌else◌,
}
use crm_media.Avatars.{distinct_ids}

true-ne-false : true ≢ false
true-ne-false e = cc

-- No id stands twice.
abbrev pub Distinct : List Text → Type 0
Distinct [] = Unit
Distinct (id ∷ ids) = (has ids id ≡ false) × Distinct ids

-- An id that is not empty and not yet seen is kept.
pub distinct_ids-has :
    (c : ℕ) (id : Text) (seen ids : List Text)
    → has ids (c ∷ id) ≡ true
    → has seen (c ∷ id) ≡ false
    → has (distinct_ids seen ids) (c ∷ id) ≡ true
unfolding has distinct_ids text_eq
distinct_ids-has c id seen [] h new = absurd (cc)
distinct_ids-has c id seen ([] ∷ ids) h new = distinct_ids-has c id seen ids h new
distinct_ids-has c id seen ((d ∷ other) ∷ ids) h new =
    go (has seen (d ∷ other)) (text_eq (d ∷ other) (c ∷ id)) refl refl
      (λ seen'. distinct_ids-has c id seen' ids)
  where
    go :
        (before same : Bool)
        → has seen (d ∷ other) ≡ before
        → text_eq (d ∷ other) (c ∷ id) ≡ same
        → ((seen : List Text)
            → has ids (c ∷ id) ≡ true
            → has seen (c ∷ id) ≡ false
            → has (distinct_ids seen ids) (c ∷ id) ≡ true)
        → has
            (if before
              then distinct_ids seen ids
              else (d ∷ other) ∷ distinct_ids ((d ∷ other) ∷ seen) ids)
            (c ∷ id)
          ≡ true
    go true true eb es k =
        absurd (true-ne-false (sym eb ∙ ap (has seen) (eq_of_text_eq _ _ es) ∙ new))
    go true false eb es k = k seen (rw es at h) new
    go false true eb es k = rw es refl
    go false false eb es k = rw es (k ((d ∷ other) ∷ seen) (rw es at h) (rw es new))

pub has-nil : (id : Text) → has [] id ≡ false
unfolding has
has-nil id = refl

pub has-head : (id : Text) (ids : List Text) → has (id ∷ ids) id ≡ true
unfolding has
has-head id ids = rw (text_eq_refl id) refl

pub has-later : (id x : Text) (xs : List Text) → has xs id ≡ true → has (x ∷ xs) id ≡ true
unfolding has
has-later id x xs h = go (text_eq x id)
  where
    go : (same : Bool) → (same || has xs id) ≡ true
    go true = refl
    go false = h

-- An element of a list is its first or one of the others.
pub has-cons :
    (id x : Text) (xs : List Text) → has (x ∷ xs) id ≡ true → (id ≡ x) ⊎ (has xs id ≡ true)
unfolding has
has-cons id x xs h = go (text_eq x id) refl h
  where
    go :
        (same : Bool)
        → text_eq x id ≡ same
        → (same || has xs id) ≡ true
        → (id ≡ x) ⊎ (has xs id ≡ true)
    go true e h = inl (sym (eq_of_text_eq x id e))
    go false e h = inr h

-- What is kept of an id that is in the result.
abbrev pub Kept : List Text → List Text → Text → Type 0
Kept seen ids id = (has ids id ≡ true) × (has seen id ≡ false) × (id ≢ [])

pub distinct_ids-Kept :
    (seen ids : List Text) (id : Text) → has (distinct_ids seen ids) id ≡ true → Kept seen ids id
unfolding has distinct_ids text_eq
distinct_ids-Kept seen [] id h = absurd (cc)
distinct_ids-Kept seen ([] ∷ ids) id h =
    let (among, new, given) = distinct_ids-Kept seen ids id h in
    (later (text_eq [] id) among, new, given)
  where
    later : (same : Bool) → has ids id ≡ true → (same || has ids id) ≡ true
    later true e = refl
    later false e = e
distinct_ids-Kept seen ((d ∷ other) ∷ ids) id h =
    go (has seen (d ∷ other)) (text_eq (d ∷ other) id) refl refl
      (λ seen'. distinct_ids-Kept seen' ids id) h
  where
    go :
        (before same : Bool)
        → has seen (d ∷ other) ≡ before
        → text_eq (d ∷ other) id ≡ same
        → ((seen : List Text) → has (distinct_ids seen ids) id ≡ true → Kept seen ids id)
        → has
            (if before
              then distinct_ids seen ids
              else (d ∷ other) ∷ distinct_ids ((d ∷ other) ∷ seen) ids)
            id
          ≡ true
        → ((same || has ids id) ≡ true) × (has seen id ≡ false) × (id ≢ [])
    go true true eb es k h = let (among, new, given) = k seen h in (refl, new, given)
    go true false eb es k h = k seen h
    go false true eb es k h =
        let equal = eq_of_text_eq (d ∷ other) id es in
        (refl, ap (has seen) (sym equal) ∙ eb, λ e. not_nil (equal ∙ e))
      where
        not_nil : (d ∷ other) ≢ []
        not_nil e = cc
    go false false eb es k h =
        let (among, new, given) = k ((d ∷ other) ∷ seen) (rw es at h) in
        (among, rw es at new, given)

pub distinct_ids-Distinct : (seen ids : List Text) → Distinct (distinct_ids seen ids)
unfolding distinct_ids
distinct_ids-Distinct seen [] = tt
distinct_ids-Distinct seen ([] ∷ ids) = distinct_ids-Distinct seen ids
distinct_ids-Distinct seen ((d ∷ other) ∷ ids) =
    go (has seen (d ∷ other)) (λ seen'. distinct_ids-Distinct seen' ids)
  where
    once : (b : Bool) → has (distinct_ids ((d ∷ other) ∷ seen) ids) (d ∷ other) ≡ b → b ≡ false
    once true e = absurd (
        true-ne-false
          (sym (seen_head seen) ∙ (distinct_ids-Kept ((d ∷ other) ∷ seen) ids (d ∷ other) e).1))
      where
        seen_head : (seen : List Text) → has ((d ∷ other) ∷ seen) (d ∷ other) ≡ true
        seen_head seen = has-head (d ∷ other) seen
    once false e = refl

    go :
        (before : Bool)
        → ((seen : List Text) → Distinct (distinct_ids seen ids))
        → Distinct (
            if before
            then distinct_ids seen ids
            else (d ∷ other) ∷ distinct_ids ((d ∷ other) ∷ seen) ids)
    go true k = k seen
    go false k = (once _ refl, k ((d ∷ other) ∷ seen))
