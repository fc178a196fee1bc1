-- ===== src/Avatars/Lookup/Found.antt =====
-- Every id of a lookup has its avatar.
use crm_media.Base.{
  ℕ, ◌≡◌, ◌≢◌, ◌≤◌, ◌<◌, refl, sym, ap, ◌∙◌, ◌⊎◌, inl, inr, Bool, true, false, not, ◌||◌, List, [],
  ◌∷◌, Option, none, some, Text, length, ltb, has, text_eq, eq_of_text_eq, ne_of_text_eq, ◌++◌,
  Bool-cases, ltb→lt, arith, if◌then◌else◌,
}
use mathlib.Core.Path.{subst}
use crm_media.Avatars.{build_avatar_urls, distinct_ids}
use crm_media.Avatars.Distinct.{distinct_ids-has, has-nil}
use crm_media.Avatars.Lookup.Tokens.{has-filter, AreTokens, unique_tokens-AreTokens}
use crm_media.Avatars.Current.{
  Row, AvatarDto, Items, item_of, dto, fallback_dto, put_rows, get_current_avatars_by_users,
}
use crm_media.Avatars.Current.Found.{value_of, get_current_avatars_by_users-value_of}
use crm_media.Avatars.Lookup.{
  filter, raw_list, unique_tokens, is_uuid, Answer, found, too_many, lookup_failed, put_others,
  answer_items, answer_tokens, get_users,
}

true-ne-false : true ≢ false
true-ne-false q = cc

-- An id that `p` refuses is not kept.
has-filter-not :
    (p : Text → Bool) (ids : List Text) (id : Text) → p id ≡ false → has (filter p ids) id ≡ false
unfolding has filter
has-filter-not p [] id e = refl
has-filter-not p (other ∷ ids) id e =
    go (text_eq other id) (p other) refl refl (has-filter-not p ids id e)
  where
    go :
        (same kept : Bool)
        → text_eq other id ≡ same
        → p other ≡ kept
        → has (filter p ids) id ≡ false
        → has (if kept then other ∷ filter p ids else filter p ids) id ≡ false
    go true true s k ih = absurd (true-ne-false (sym k ∙ ap p (eq_of_text_eq other id s) ∙ e))
    go false true s k ih = rw (s) ih
    go true false s k ih = ih
    go false false s k ih = ih

module _ (resolve : Text → ℕ × Text) (tiered : Bool) (query : List Text → Option (List Row)) where
  put_others-item_of :
      (id : Text) (ids : List Text) (items : Items)
      → item_of id (put_others resolve tiered query ids items)
        ≡ (if has ids id then some (fallback_dto resolve tiered id) else item_of id items)
  unfolding has put_others item_of
  put_others-item_of id [] items = refl
  put_others-item_of id (other ∷ ids) items =
      put_others-item_of id ids ((other, fallback_dto resolve tiered other) ∷ items)
      ∙ go (text_eq other id) (has ids id) refl
    where
      go :
          (same later : Bool)
          → text_eq other id ≡ same
          → Path
              (Option AvatarDto)
              (if later
                then some (fallback_dto resolve tiered id)
                else if same
                then some (fallback_dto resolve tiered other)
                else item_of id items)
              (if same || later then some (fallback_dto resolve tiered id) else item_of id items)
      go true true s = refl
      go true false s = ap (λ o. some (fallback_dto resolve tiered o)) (eq_of_text_eq other id s)
      go false true s = refl
      go false false s = refl

  -- The avatar of these numbers.
  abbrev pub avatar_with : ℕ × Text → AvatarDto
  avatar_with (avatar_id, color) = record {
    version = 1;
    avatar_id = avatar_id;
    color = color;
    urls = build_avatar_urls avatar_id color tiered;
  }

  -- No row is of the user.
  abbrev pub NoRow : Text → List Row → Type 0
  NoRow id [] = Unit
  NoRow id (row ∷ rows) = (row.user_id ≢ id) × NoRow id rows

  -- The last row of the user, among these.
  pub record LastRow (id : Text) (rows : List Row) (row : Row) : Type 0 where
    pub before : List Row
    pub after : List Row
    pub splits : rows ≡ before ++ row ∷ after
    pub of_user : row.user_id ≡ id
    pub none_after : NoRow id after

  -- The avatar of the last row of the user, or the deterministic one.
  abbrev pub IsAvatarOf : Text → List Row → Option AvatarDto → Type 0
  IsAvatarOf id rows value =
      ((row : Row) × LastRow id rows row × (value ≡ some (avatar_with (row.avatar_id, row.color))))
      ⊎ (NoRow id rows × (value ≡ some (avatar_with (resolve id))))

  -- What the rows assign to an id, over what there was.
  put_rows-LastRow :
      (id : Text) (rows : List Row) (items : Items)
      → ((row : Row) × LastRow id rows row
          × (item_of id (put_rows resolve tiered rows items)
              ≡ some (avatar_with (row.avatar_id, row.color))))
        ⊎ (NoRow id rows × (item_of id (put_rows resolve tiered rows items) ≡ item_of id items))
  unfolding put_rows item_of dto
  put_rows-LastRow id [] items = inr (tt, refl)
  put_rows-LastRow id (first ∷ rows) items =
      elim (put_rows-LastRow id rows
        ((first.user_id, avatar_with (first.avatar_id, first.color)) ∷ items)) [
          | inl (row, last, value) ↦ inl (
            row,
            record {
              before = first ∷ last.before;
              after = last.after;
              splits = ap (λ l. first ∷ l) last.splits;
              of_user = last.of_user;
              none_after = last.none_after;
            },
            value,
          )
          | inr (no_row, kept) ↦ elim (Bool-cases (text_eq first.user_id id)) [
            | inl same ↦ inl (
              first,
              record {
                before = [];
                after = rows;
                splits = refl;
                of_user = eq_of_text_eq first.user_id id same;
                none_after = no_row;
              },
              kept ∙ rw (same) refl,
            )
            | inr other ↦
                inr ((ne_of_text_eq first.user_id id other, no_row), kept ∙ rw (other) refl)
          ]
        ]

  fallback-avatar : (id : Text) → fallback_dto resolve tiered id ≡ avatar_with (resolve id)
  unfolding fallback_dto dto
  fallback-avatar id = refl

  value_of-IsAvatarOf :
      (id : Text) (rows : List Row)
      → IsAvatarOf id rows (some (value_of resolve tiered id (put_rows resolve tiered rows [])))
  unfolding item_of
  value_of-IsAvatarOf id rows = elim (put_rows-LastRow id rows []) [
    | inl (row, last, value) ↦ inl (row, last, rw (value) refl)
    | inr (no_row, absent) ↦ inr (no_row, rw (absent) (ap some (fallback-avatar id)))
  ]

  -- What an id of a lookup has: a UUID is looked up among the rows that the database gives for some
  -- list of ids that has it.
  abbrev pub HasAvatar : List Text → Items → Text → Type 0
  HasAvatar tokens items id =
      ((is_uuid id ≡ true)
        × (ids : List Text) × (rows : List Row) × (has ids id ≡ true)
        × (query ids ≡ some rows)
        × IsAvatarOf id rows (item_of id items))
      ⊎ ((is_uuid id ≡ false) × (item_of id items ≡ some (avatar_with (resolve id))))

  abbrev others_of : List Text → List Text
  others_of tokens = filter (λ token. not (is_uuid token)) tokens

  put_others-HasAvatar :
      (tokens : List Text) (items : Items)
      → get_current_avatars_by_users resolve tiered query (filter is_uuid tokens) ≡ some items
      → (c : ℕ) (id : Text) → has tokens (c ∷ id) ≡ true
      → HasAvatar tokens (put_others resolve tiered query (others_of tokens) items) (c ∷ id)
  put_others-HasAvatar tokens items done c id asked = elim (Bool-cases (is_uuid (c ∷ id))) [
    | inl uuid ↦
        let kept = has-filter is_uuid tokens (c ∷ id) asked uuid in
        let (rows, replied, value) =
          get_current_avatars_by_users-value_of resolve tiered query (filter is_uuid tokens) items
            done c id kept in
        let no_other = has-filter-not (λ t. not (is_uuid t)) tokens (c ∷ id) (ap not uuid) in
        inl (
          uuid,
          distinct_ids [] (filter is_uuid tokens),
          rows,
          distinct_ids-has c id [] (filter is_uuid tokens) kept (has-nil (c ∷ id)),
          replied,
          subst (λ o. IsAvatarOf (c ∷ id) rows o)
              (sym (put_others-item_of (c ∷ id) (others_of tokens) items ∙ rw (no_other) value))
              (value_of-IsAvatarOf (c ∷ id) rows),
        )
    | inr no_uuid ↦
        let other = has-filter (λ t. not (is_uuid t)) tokens (c ∷ id) asked (ap not no_uuid) in
        inr (
          no_uuid,
          put_others-item_of (c ∷ id) (others_of tokens) items
              ∙ rw (other) (ap some (fallback-avatar (c ∷ id))),
        )
  ]

  -- How a lookup of these ids ends.
  abbrev pub TokensSpec : List Text → Answer → Type 0
  TokensSpec tokens answer =
      (100 < length tokens × (answer ≡ too_many))
      ⊎ (length tokens ≤ 100
          × (((answer ≡ lookup_failed)
                × (get_current_avatars_by_users resolve tiered query (filter is_uuid tokens)
                    ≡ none))
              ⊎ ((items : Items) × (answer ≡ found items)
                  × ((id : Text) → has tokens id ≡ true → id ≢ [] → HasAvatar tokens items id))))

  answer_tokens-TokensSpec :
      (tokens : List Text)
      → length tokens ≤ 100
      → TokensSpec tokens (answer_tokens resolve tiered query tokens)
  unfolding answer_tokens has answer_items
  answer_tokens-TokensSpec [] few = inr (few, inr ([], refl, λ id asked given. absurd (cc)))
  answer_tokens-TokensSpec (first ∷ rest) few =
      go (get_current_avatars_by_users resolve tiered query (filter is_uuid (first ∷ rest))) refl
    where
      every :
          (items : Items)
          → get_current_avatars_by_users resolve tiered query (filter is_uuid (first ∷ rest))
            ≡ some items
          → (id : Text) → has (first ∷ rest) id ≡ true
          → id ≢ []
          → HasAvatar
              (first ∷ rest)
              (put_others resolve tiered query (others_of (first ∷ rest)) items)
              id
      every items e [] asked given = absurd (given refl)
      every items e (c ∷ id) asked given = put_others-HasAvatar (first ∷ rest) items e c id asked

      go :
          (o : Option Items)
          → get_current_avatars_by_users resolve tiered query (filter is_uuid (first ∷ rest)) ≡ o
          → TokensSpec
              (first ∷ rest)
              (answer_items resolve tiered query (others_of (first ∷ rest)) o)
      go none e = inr (few, inl (refl, e))
      go (some items) e = inr (
        few,
        inr (put_others resolve tiered query (others_of (first ∷ rest)) items, refl, every items e),
      )

  -- The ids of the query without repetition, and how their lookup ends.
  abbrev pub LookupSpec : List Text → Answer → Type 0
  LookupSpec raw answer = (tokens : List Text) × AreTokens raw tokens × TokensSpec tokens answer

  -- A lookup asks for the ids that stand in its query between commas, trimmed, but for empty ones,
  -- "null" and "undefined". With more than 100 distinct ones it is refused. Otherwise it fails only
  -- where the lookup of those that are UUIDs fails, and else each of them has an avatar in the
  -- answer: a UUID that of the last row that the database gives for it, or the deterministic one if
  -- there is no row, and any other id the deterministic one.
  pub get_users-LookupSpec :
      (query_list : List Text) (single : Option Text)
      → LookupSpec (raw_list query_list single) (get_users resolve tiered query query_list single)
  unfolding get_users
  get_users-LookupSpec query_list single = (
    unique_tokens (raw_list query_list single),
    unique_tokens-AreTokens (raw_list query_list single),
    go (unique_tokens (raw_list query_list single)),
  )
    where
      go :
          (tokens : List Text)
          → TokensSpec tokens (
              if ltb 100 (length tokens)
              then too_many
              else answer_tokens resolve tiered query tokens)
      go tokens = elim (Bool-cases (ltb 100 (length tokens))) [
        | inl many ↦ rw (many) (inl (ltb→lt 100 (length tokens) many, refl))
        | inr few ↦ rw (few) (answer_tokens-TokensSpec tokens (ground arith))
      ]
