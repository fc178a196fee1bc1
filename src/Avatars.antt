-- ===== src/Avatars.antt =====
-- src/modules/media/avatar-preset.service.ts: the avatar that a user chooses. The replies of the
-- database are a parameter; the calls are a list, the latest at the head.
pub mod Distinct
pub mod Saved
pub mod Migration
pub mod Current
pub mod Lookup
use crm_media.Base.{
  ℕ, suc, Bool, true, false, not, ◌&&◌, ◌||◌, List, [], ◌∷◌, ◌++◌, Option, none, some, Text, codes,
  length, all, has, leb, ltb, ◌==◌, if◌then◌else◌,
}
use crm_media.Base.Decimal.{decimal}
use crm_media.Media.Upload.{Actor}

-- An avatar id that is no natural number is `none`.
pub record PresetOptions : Type 0 where
  pub avatar_id : Option ℕ
  pub color : Text
  pub actor : Option Actor

pub data Call : Type 0 where
  avatar_upserted : Text → ℕ → Text → Bool → Call
  residue_purged : Text → Bool → Call
  selection_logged : Text → Bool → Call

abbrev pub Calls : Type 0
Calls = List Call

pub record Database : Type 0 where
  pub upsert_avatar : Calls → Text → ℕ → Text → Bool
  pub purge_residue : Calls → Text → Bool
  pub log_selection : Calls → Text → Bool

pub record AvatarUrls : Type 0 where
  pub url_64 : Text
  pub url_256 : Text
  pub url_512 : Text
  pub url_1024 : Text

pub data Answer : Type 0 where
  saved : ℕ → Text → AvatarUrls → Answer
  bad_avatar_id bad_color database_failed : Answer

unfoldable pub is_hex : ℕ → Bool
is_hex c = (leb b'0' c && leb c b'9') || (leb b'a' c && leb c b'f') || (leb b'A' c && leb c b'F')

-- `/^#([0-9a-fA-F]{3}|[0-9a-fA-F]{6})$/`
unfoldable pub is_hex_color : Text → Bool
is_hex_color [] = false
is_hex_color (c ∷ digits) =
    c == b'#' && all is_hex digits && (length digits == 3 || length digits == 6)

-- `replace("#", "")`: the first one.
unfoldable pub remove_hash : Text → Text
remove_hash [] = []
remove_hash (c ∷ s) = let rest = remove_hash s in if c == b'#' then s else c ∷ rest

abbrev pub tier_url : ℕ → Text → Text → Text
tier_url avatar_id tier color =
    codes "/avatars/avatar-"
    ++ (decimal avatar_id ++ (codes "-" ++ (tier ++ (codes ".webp?c=" ++ color))))

abbrev pub base_url : ℕ → Text → Text
base_url avatar_id color =
    codes "/avatars/avatar-" ++ (decimal avatar_id ++ (codes ".webp?c=" ++ color))

unfoldable pub build_avatar_urls : ℕ → Text → Bool → AvatarUrls
build_avatar_urls avatar_id color tiered =
    let clean = remove_hash color in
    let base = base_url avatar_id clean in
    if tiered
    then (record {
      url_64 = tier_url avatar_id (codes "64") clean;
      url_256 = tier_url avatar_id (codes "256") clean;
      url_512 = tier_url avatar_id (codes "512") clean;
      url_1024 = tier_url avatar_id (codes "1024") clean;
    })
    else (record { url_64 = base; url_256 = base; url_512 = base; url_1024 = base })

-- `Array.from(new Set(ids.filter(Boolean)))`, after the ids that are already in the set.
unfoldable pub distinct_ids : List Text → List Text → List Text
distinct_ids seen [] = []
distinct_ids seen ([] ∷ ids) = distinct_ids seen ids
distinct_ids seen ((c ∷ id) ∷ ids) =
    let kept = distinct_ids ((c ∷ id) ∷ seen) ids in
    let skipped = distinct_ids seen ids in if has seen (c ∷ id) then skipped else (c ∷ id) ∷ kept

unfoldable pub target_ids : Text → Option Actor → List Text
target_ids user_id none = distinct_ids [] (user_id ∷ [])
target_ids user_id (some actor) = distinct_ids [] (user_id ∷ actor.sub ∷ actor.user_id ∷ [])

module _ (db : Database) where
  -- The loop over the ids: a failed upsert throws, a failed purge is logged.
  unfoldable pub save_targets : ℕ → Text → List Text → Calls → Bool × Calls
  save_targets avatar_id color [] calls = (true, calls)
  save_targets avatar_id color (id ∷ ids) calls =
      let done = db.upsert_avatar calls id avatar_id color in
      let upserted = avatar_upserted id avatar_id color done ∷ calls in
      let purged = residue_purged id (db.purge_residue upserted id) ∷ upserted in
      let rest = save_targets avatar_id color ids purged in if done then rest else (false, upserted)

  unfoldable pub log_preset : Option Actor → Calls → Calls
  log_preset none calls = calls
  log_preset (some actor) calls =
      selection_logged actor.sub (db.log_selection calls actor.sub) ∷ calls

  unfoldable pub finish_preset : ℕ → Text → Option Actor → Bool × Calls → Answer × Calls
  finish_preset avatar_id color actor (false, calls) = (database_failed, calls)
  finish_preset avatar_id color actor (true, calls) =
      (saved avatar_id color (build_avatar_urls avatar_id color false), log_preset actor calls)

  unfoldable pub save_checked : Text → ℕ → Text → Option Actor → Calls → Answer × Calls
  save_checked user_id avatar_id color actor calls =
      if ltb 83 avatar_id
      then (bad_avatar_id, calls)
      else if not (is_hex_color color)
      then (bad_color, calls)
      else finish_preset avatar_id color actor
          (save_targets avatar_id color (target_ids user_id actor) calls)

  unfoldable pub save_avatar_preset : Text → PresetOptions → Calls → Answer × Calls
  save_avatar_preset user_id options calls = elim options.avatar_id [
    | none ↦ (bad_avatar_id, calls)
    | some n ↦ save_checked user_id n options.color options.actor calls
  ]
