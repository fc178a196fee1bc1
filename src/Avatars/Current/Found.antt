-- ===== src/Avatars/Current/Found.antt =====
-- Every user that is asked for has exactly the avatar of its row or its deterministic one.
use crm_media.Base.{
  ℕ, ◌≡◌, ◌≢◌, refl, sym, ap, ◌∙◌, Bool, true, false, ◌||◌, List, [], ◌∷◌, Option, none, some, Text,
  get_or, is_some, has, text_eq, eq_of_text_eq, if◌then◌else◌,
}
use crm_media.Avatars.{distinct_ids}
use crm_media.Avatars.Distinct.{distinct_ids-has}
use crm_media.Avatars.Current.{
  Row, AvatarDto, Items, item_of, fallback_dto, put_rows, put_fallbacks,
  get_current_avatars_by_users,
}

true-ne-false : true ≢ false
true-ne-false e = cc

module _ (resolve : Text → ℕ × Text) (tiered : Bool) where
  -- The avatar of the last row of the user.
  abbrev pub of_rows : Text → List Row → Option AvatarDto
  of_rows id rows = item_of id (put_rows resolve tiered rows [])

  -- The avatar of a user: the one that the items have, or the deterministic one.
  abbrev pub value_of : Text → Items → AvatarDto
  value_of id items = get_or (item_of id items) (fallback_dto resolve tiered id)

  add_fallback-value :
      (id other : Text) (items : Items)
      → item_of other items ≡ none
      → value_of id ((other, fallback_dto resolve tiered other) ∷ items) ≡ value_of id items
  unfolding item_of
  add_fallback-value id other items absent = go (text_eq other id) refl
    where
      go :
          (b : Bool)
          → text_eq other id ≡ b
          → get_or
              (if b then some (fallback_dto resolve tiered other) else item_of id items)
              (fallback_dto resolve tiered id)
            ≡ value_of id items
      go true e = rw (sym (eq_of_text_eq other id e), absent) refl
      go false e = refl

  add-some :
      (id other : Text) (value : AvatarDto) (items : Items)
      → is_some (item_of id items) ≡ true
      → is_some (item_of id ((other, value) ∷ items)) ≡ true
  unfolding item_of
  add-some id other value items h = go (text_eq other id)
    where
      go : (b : Bool) → is_some (if b then some value else item_of id items) ≡ true
      go true = refl
      go false = h

  -- One step of the loop over the ids keeps what the loop keeps.
  module _ (P : Items → Type 0)
      (add : (other : Text) (items : Items)
        → item_of other items ≡ none
        → P items
        → P ((other, fallback_dto resolve tiered other) ∷ items)) where
    Keeps-put_fallbacks :
        (ids : List Text) (items : Items) → P items → P (put_fallbacks resolve tiered ids items)
    unfolding put_fallbacks
    Keeps-put_fallbacks [] items h = h
    Keeps-put_fallbacks (other ∷ ids) items h =
        go (item_of other items) refl (Keeps-put_fallbacks ids)
      where
        go :
            (o : Option AvatarDto)
            → item_of other items ≡ o
            → ((items : Items) → P items → P (put_fallbacks resolve tiered ids items))
            → P (elim o as (λ _. Items) [
              | some found ↦ put_fallbacks resolve tiered ids items
              | none ↦
                  put_fallbacks resolve tiered ids
                    ((other, fallback_dto resolve tiered other) ∷ items)
            ])
        go (some found) e k = k items h
        go none e k = k _ (add other items e h)

  put_fallbacks-value :
      (id : Text) (ids : List Text) (items : Items)
      → value_of id (put_fallbacks resolve tiered ids items) ≡ value_of id items
  put_fallbacks-value id ids items =
      Keeps-put_fallbacks (λ items'. value_of id items' ≡ value_of id items)
        (λ other items' absent h. add_fallback-value id other items' absent ∙ h) ids items refl

  put_fallbacks-some :
      (id : Text) (ids : List Text) (items : Items)
      → is_some (item_of id items) ≡ true
      → is_some (item_of id (put_fallbacks resolve tiered ids items)) ≡ true
  put_fallbacks-some id ids items h =
      Keeps-put_fallbacks (λ items'. is_some (item_of id items') ≡ true)
        (λ other items' absent k. add-some id other _ items' k) ids items h

  -- An id of the list has an item.
  put_fallbacks-has :
      (id : Text) (ids : List Text) (items : Items)
      → has ids id ≡ true
      → is_some (item_of id (put_fallbacks resolve tiered ids items)) ≡ true
  unfolding has put_fallbacks item_of
  put_fallbacks-has id [] items h = absurd (cc)
  put_fallbacks-has id (other ∷ ids) items h =
      go (item_of other items) (text_eq other id) refl refl (put_fallbacks-has id ids) h
    where
      added : Items
      added = (other, fallback_dto resolve tiered other) ∷ items

      go :
          (o : Option AvatarDto) (same : Bool)
          → item_of other items ≡ o
          → text_eq other id ≡ same
          → ((items : Items)
              → has ids id ≡ true
              → is_some (item_of id (put_fallbacks resolve tiered ids items)) ≡ true)
          → (same || has ids id) ≡ true
          → is_some (
              item_of id (elim o as (λ _. Items) [
                | some found ↦ put_fallbacks resolve tiered ids items
                | none ↦ put_fallbacks resolve tiered ids added
              ]))
            ≡ true
      go (some found) true e s k h =
          put_fallbacks-some id ids items (rw (sym (eq_of_text_eq other id s), e) refl)
      go none true e s k h = put_fallbacks-some id ids added (rw s refl)
      go (some found) false e s k h = k items h
      go none false e s k h = k added h

some-get_or : {A : Type 0} (o : Option A) (d v : A) → is_some o ≡ true → get_or o d ≡ v → o ≡ some v
some-get_or none d v h e = absurd (cc)
some-get_or (some a) d v h e = ap some e

module _ (resolve : Text → ℕ × Text) (tiered : Bool) (query : List Text → Option (List Row))
    (user_ids : List Text) where
  -- If the avatars of some users are returned, each of them that is named by an id that is not
  -- empty has one: that of the last row that the database has for it, else the deterministic one.
  pub get_current_avatars_by_users-value_of :
      (items : Items)
      → get_current_avatars_by_users resolve tiered query user_ids ≡ some items
      → (c : ℕ) (id : Text) → has user_ids (c ∷ id) ≡ true
      → (rows : List Row) × (query (distinct_ids [] user_ids) ≡ some rows)
        × (item_of (c ∷ id) items
            ≡ some (value_of resolve tiered (c ∷ id) (put_rows resolve tiered rows [])))
  unfolding get_current_avatars_by_users has
  get_current_avatars_by_users-value_of items done c id asked =
      go (distinct_ids [] user_ids) refl done
        (distinct_ids-has c id [] user_ids asked (has-nil (c ∷ id)))
    where
      has-nil : (key : Text) → has [] key ≡ false
      has-nil key = refl

      value_is :
          (ids : List Text) (rows : List Row)
          → has ids (c ∷ id) ≡ true
          → item_of (c ∷ id) (put_fallbacks resolve tiered ids (put_rows resolve tiered rows []))
            ≡ some (value_of resolve tiered (c ∷ id) (put_rows resolve tiered rows []))
      value_is ids rows h =
          some-get_or _ (fallback_dto resolve tiered (c ∷ id)) _
            (put_fallbacks-has resolve tiered (c ∷ id) ids _ h)
            (put_fallbacks-value resolve tiered (c ∷ id) ids (put_rows resolve tiered rows []))

      Result : Option (List Row) → Type 0
      Result o =
          (rows : List Row) × (o ≡ some rows)
          × (item_of (c ∷ id) items
              ≡ some (value_of resolve tiered (c ∷ id) (put_rows resolve tiered rows [])))

      replied :
          (ids : List Text) (o : Option (List Row))
          → elim o as (λ _. Option Items) [
            | none ↦ none
            | some rows ↦ some (put_fallbacks resolve tiered ids (put_rows resolve tiered rows []))
          ]
            ≡ some items
          → has ids (c ∷ id) ≡ true
          → Result o
      replied ids none e h = absurd (cc)
      replied ids (some rows) e h =
          (rows, refl, ap (λ o. item_of (c ∷ id) (get_or o [])) (sym e) ∙ value_is ids rows h)

      go :
          (ids : List Text)
          → distinct_ids [] user_ids ≡ ids
          → elim ids as (λ _. Option Items) [
            | [] ↦ some []
            | first ∷ rest ↦ elim (query (first ∷ rest)) as (λ _. Option Items) [
              | none ↦ none
              | some rows ↦
                  some
                    (put_fallbacks resolve tiered (first ∷ rest) (put_rows resolve tiered rows []))
            ]
          ]
            ≡ some items
          → has ids (c ∷ id) ≡ true
          → Result (query ids)
      go [] e result h = absurd (true-ne-false (sym h ∙ has-nil (c ∷ id)))
      go (first ∷ rest) e result h = replied (first ∷ rest) (query (first ∷ rest)) result h
