-- ===== src/Avatars/Current.antt =====
-- src/modules/media/avatar.service.ts: the avatars that users have, from the rows that the database
-- replies with, `none` if it throws. `resolveDeterministicAvatar` is a parameter. The ids are no
-- names of properties that every object has.
pub mod Found
use crm_media.Base.{
  ℕ, Bool, true, false, List, [], ◌∷◌, Option, none, some, Text, codes, text_eq, get_or,
  if◌then◌else◌,
}
use crm_media.Dlq.{truthy}
use crm_media.Avatars.{AvatarUrls, build_avatar_urls, distinct_ids}

pub record Row : Type 0 where
  pub user_id : Text
  pub avatar_id : ℕ
  pub color : Text

pub record AvatarDto : Type 0 where
  pub version : ℕ
  pub avatar_id : ℕ
  pub color : Text
  pub urls : AvatarUrls

abbrev pub Items : Type 0
Items = List (Text × AvatarDto)

unfoldable pub dto : Bool → ℕ → Text → AvatarDto
dto tiered avatar_id color = record {
  version = 1;
  avatar_id = avatar_id;
  color = color;
  urls = build_avatar_urls avatar_id color tiered;
}

-- `items[id]`; the latest assignment stands first.
unfoldable pub item_of : Text → Items → Option AvatarDto
item_of id [] = none
item_of id ((key, value) ∷ items) = if text_eq key id then some value else item_of id items

module _ (resolve_deterministic_avatar : Text → ℕ × Text) (tiered : Bool) where
  unfoldable pub fallback_dto : Text → AvatarDto
  fallback_dto id =
      let fallback = resolve_deterministic_avatar id in dto tiered fallback.0 fallback.1

  -- `userId || fallbackId || "anonymous"`
  unfoldable pub current_of_rows : Text → Option Text → List Row → AvatarDto
  current_of_rows user_id fallback_id [] =
      fallback_dto
        (get_or (truthy (some user_id)) (get_or (truthy fallback_id) (codes "anonymous")))
  current_of_rows user_id fallback_id (row ∷ rows) = dto tiered row.avatar_id row.color

  -- The distinct, not empty ids of the user.
  unfoldable pub current_ids : Text → Option Text → List Text
  current_ids user_id none = distinct_ids [] (user_id ∷ [])
  current_ids user_id (some fallback_id) = distinct_ids [] (user_id ∷ fallback_id ∷ [])

  -- `query` is the reply to the query for the rows of these ids.
  unfoldable pub get_current_avatar :
      (List Text → Option (List Row)) → Text → Option Text → Option AvatarDto
  get_current_avatar query user_id fallback_id = elim (current_ids user_id fallback_id) [
    | [] ↦ some (current_of_rows user_id fallback_id [])
    | id ∷ ids ↦ elim (query (id ∷ ids)) [
      | none ↦ none
      | some rows ↦ some (current_of_rows user_id fallback_id rows)
    ]
  ]

  unfoldable pub put_rows : List Row → Items → Items
  put_rows [] items = items
  put_rows (row ∷ rows) items =
      put_rows rows ((row.user_id, dto tiered row.avatar_id row.color) ∷ items)

  unfoldable pub put_fallbacks : List Text → Items → Items
  put_fallbacks [] items = items
  put_fallbacks (id ∷ ids) items = elim (item_of id items) [
    | some value ↦ put_fallbacks ids items
    | none ↦ put_fallbacks ids ((id, fallback_dto id) ∷ items)
  ]

  unfoldable pub get_current_avatars_by_users :
      (List Text → Option (List Row)) → List Text → Option Items
  get_current_avatars_by_users query user_ids = elim (distinct_ids [] user_ids) [
    | [] ↦ some []
    | id ∷ ids ↦ elim (query (id ∷ ids)) [
      | none ↦ none
      | some rows ↦ some (put_fallbacks (id ∷ ids) (put_rows rows []))
    ]
  ]
