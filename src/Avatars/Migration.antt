-- ===== src/Avatars/Migration.antt =====
-- src/scripts/migrate-user-avatars.ts: an avatar for every user that has none. The number of official
-- avatars and the palette are the contracts library's, and parameters.
pub mod Plan
use crm_media.Base.{
  ℕ, zero, suc, ◌+◌, ◌*◌, ◌/◌, ◌%◌, Bool, true, false, List, [], ◌∷◌, Option, none, some, Text,
  codes, get_or, get_elem?, length, if◌then◌else◌,
}
use crm_media.Dlq.{truthy}
use crm_media.Media.Upload.{Actor}
use crm_media.Avatars.{
  PresetOptions, Call, Calls, Database, Answer, saved, bad_avatar_id, bad_color, database_failed,
  save_avatar_preset,
}

pub record UserRecord : Type 0 where
  pub id : Text
  pub subject : Option Text
  pub email : Text

pub record MigrationPlanItem : Type 0 where
  pub user_id : Text
  pub subject : Option Text
  pub email : Text
  pub avatar_id : ℕ
  pub color : Text

pub record Palette : Type 0 where
  pub official_avatars_count : ℕ
  pub colors : List Text

-- A color outside of the palette, which the source does not reach, is empty.
unfoldable pub get_deterministic_avatar_assignment : Palette → ℕ → ℕ × Text
get_deterministic_avatar_assignment p index =
    let color_index = (index * 7 + index / p.official_avatars_count) % length p.colors in
    ((index * 17) % p.official_avatars_count, get_or (get_elem? p.colors color_index) [])

unfoldable pub plan_item : Palette → ℕ → UserRecord → MigrationPlanItem
plan_item p index user =
    let assignment = get_deterministic_avatar_assignment p index in
    record {
      user_id = user.id;
      subject = truthy user.subject;
      email = user.email;
      avatar_id = assignment.0;
      color = assignment.1;
    }

-- `users.map((user, index) => …)`, from an index on.
unfoldable pub plan_from : Palette → ℕ → List UserRecord → List MigrationPlanItem
plan_from p index [] = []
plan_from p index (user ∷ users) = plan_item p index user ∷ plan_from p (suc index) users

unfoldable pub generate_migration_plan : Palette → List UserRecord → List MigrationPlanItem
generate_migration_plan p users = plan_from p 0 users

pub record MigrateAvatarsOptions : Type 0 where
  pub dry_run : Bool
  pub users : Option (List UserRecord)

pub record Migration : Type 0 where
  pub total_migrated : ℕ
  pub failed : ℕ
  pub plan : List MigrationPlanItem

-- Whether a preset was saved.
abbrev pub is_saved : Answer → Bool
is_saved (saved n color urls) = true
is_saved _ = false

unfoldable pub migration_actor : MigrationPlanItem → Actor
migration_actor item = record {
  user_id = item.user_id;
  sub = get_or (truthy item.subject) item.user_id;
  role = codes "admin";
  email = get_or (truthy (some item.email)) (codes "migration-system@cima.dev");
}

-- The users of the dry run without a database.
unfoldable pub sample_user : Text → Text → UserRecord
sample_user id email = record { id = id; subject = none; email = email }

unfoldable pub sample_users : List UserRecord
sample_users =
    sample_user (codes "sample-1") (codes "admin@cima.dev")
    ∷ sample_user (codes "sample-2") (codes "carolina.mendez@cima.dev")
    ∷ sample_user (codes "sample-3") (codes "alejandro.torres@cima.dev")
    ∷ sample_user (codes "sample-4") (codes "valeria.rojas@cima.dev")
    ∷ sample_user (codes "sample-5") (codes "diego.morales@cima.dev")
    ∷ sample_user (codes "sample-6") (codes "camila.castro@cima.dev")
    ∷ sample_user (codes "sample-7") (codes "javier.herrera@cima.dev")
    ∷ sample_user (codes "sample-8") (codes "daniela.navarro@cima.dev")
    ∷ sample_user (codes "sample-9") (codes "felipe.gutierrez@cima.dev")
    ∷ sample_user (codes "sample-10") (codes "mariana.silva@cima.dev")
    ∷ sample_user (codes "sample-11") (codes "andres.vargas@cima.dev")
    ∷ sample_user (codes "sample-12") (codes "lucia.paredes@cima.dev")
    ∷ []

module _ (db : Database) where
  -- The calls of the database and, apart from them, whether the item was saved.
  unfoldable pub apply_migration_item : MigrationPlanItem → Calls → Bool × Calls
  apply_migration_item item calls =
      let result =
        save_avatar_preset db item.user_id
          (record {
            avatar_id = some item.avatar_id;
            color = item.color;
            actor = some (migration_actor item);
          })
          calls in
      (is_saved result.0, result.1)

  -- The counts of the loop, in the order migrated and failed.
  unfoldable pub apply_items : List MigrationPlanItem → ℕ → ℕ → Calls → (ℕ × ℕ) × Calls
  apply_items [] total failed calls = ((total, failed), calls)
  apply_items (item ∷ items) total failed calls =
      let applied = apply_migration_item item calls in
      let done = apply_items items (suc total) failed applied.1 in
      let undone = apply_items items total (suc failed) applied.1 in
      if applied.0 then done else undone

  module _ (p : Palette) where
    -- The purge at the end catches its errors and is left out.
    unfoldable pub migrate_users : Bool → List UserRecord → Calls → Migration × Calls
    migrate_users dry_run users calls =
        let plan = generate_migration_plan p users in
        let applied = apply_items plan 0 0 calls in
        if dry_run
        then (record { total_migrated = length plan; failed = 0; plan = plan }, calls)
        else (record { total_migrated = applied.0.0; failed = applied.0.1; plan = plan }, applied.1)

    -- `fetched` is the reply to the query for the pending users; `none` is the error that is thrown.
    unfoldable pub migrate_user_avatars :
        Option (List UserRecord) → MigrateAvatarsOptions → Calls → Option (Migration × Calls)
    migrate_user_avatars fetched options calls = elim options.users [
      | some users ↦ some (migrate_users options.dry_run users calls)
      | none ↦ elim fetched [
        | some users ↦ some (migrate_users options.dry_run users calls)
        | none ↦ if options.dry_run then some (migrate_users true sample_users calls) else none
      ]
    ]
