-- ===== src/Avatars/Saved.antt =====
-- What a chosen avatar leaves in the database.
use crm_media.Base.{
  ℕ, ◌≡◌, ◌≢◌, ◌⊎◌, ◌≤◌, Bool, true, false, List, [], ◌∷◌, Option, none, some, Text, has,
}
use crm_media.Media.Upload.{Actor}
use crm_media.Avatars.Distinct.{Distinct}
use crm_media.Avatars.{
  PresetOptions, avatar_upserted, Calls, Database, Answer, saved, bad_avatar_id, bad_color,
  database_failed, is_hex_color,
}

-- The avatars that were stored, the latest first.
abbrev pub stored : Calls → List (Text × ℕ × Text)
stored [] = []
stored (avatar_upserted id n color true ∷ calls) = (id, n, color) ∷ stored calls
stored (_ ∷ calls) = stored calls

-- The rows with one avatar more for each id.
abbrev pub put_all : ℕ → Text → List Text → List (Text × ℕ × Text) → List (Text × ℕ × Text)
put_all n color [] rows = rows
put_all n color (id ∷ ids) rows = put_all n color ids ((id, n, color) ∷ rows)

abbrev IfDone : ℕ → Text → List Text → List (Text × ℕ × Text) → Bool × Calls → Type 0
IfDone n color ids rows (true, calls) = stored calls ≡ put_all n color ids rows
IfDone n color ids rows (false, calls) = Unit

module _ (db : Database) where
  module _ (user_id : Text) (options : PresetOptions) (calls : Calls) where
    -- The id is one of the user's or the actor's.
    abbrev pub IsIdOf : Text → Option Actor → Type 0
    IsIdOf id none = id ≡ user_id
    IsIdOf id (some actor) = (id ≡ user_id) ⊎ ((id ≡ actor.sub) ⊎ (id ≡ actor.user_id))

    -- The ids without repetition, and exactly those of the user and the actor that are not empty.
    pub record AreTargets (actor : Option Actor) (ids : List Text) : Type 0 where
      pub distinct : Distinct ids
      pub not_empty : (id : Text) → has ids id ≡ true → id ≢ []
      pub only : (id : Text) → has ids id ≡ true → IsIdOf id actor
      pub all_of : (id : Text) → id ≢ [] → IsIdOf id actor → has ids id ≡ true

    -- An avatar that is stored is one of the 84, of a hexadecimal color, for the user and the ids of
    -- the actor.
    pub record IsSaved (n : ℕ) (color : Text) (calls' : Calls) : Type 0 where
      pub chosen : options.avatar_id ≡ some n
      pub same_color : color ≡ options.color
      pub in_range : n ≤ 83
      pub is_color : is_hex_color color ≡ true
      pub ids : List Text
      pub are_targets : AreTargets options.actor ids
      pub rows : stored calls' ≡ put_all n color ids (stored calls)

    -- What each answer says of the calls.
    abbrev pub AnswerSpec : Answer × Calls → Type 0
    AnswerSpec (saved n color urls, calls') = IsSaved n color calls'
    AnswerSpec (bad_avatar_id, calls') = calls' ≡ calls
    AnswerSpec (bad_color, calls') = calls' ≡ calls
    AnswerSpec (database_failed, calls') = Unit
