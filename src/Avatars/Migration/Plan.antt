-- ===== src/Avatars/Migration/Plan.antt =====
-- What a migration assigns and counts.
use crm_media.Base.{ℕ, ◌+◌, ◌<◌, ◌≡◌, Bool, true, List, some, length, get_elem?}
use crm_media.Avatars.{Calls, Database}
use crm_media.Avatars.Migration.{UserRecord, MigrationPlanItem, Palette, Migration}

module _ (p : Palette) where
  module _ (db : Database) where
    pub record IsMigrated (dry_run : Bool) (users : List UserRecord) (calls : Calls)
        (r : Migration × Calls) : Type 0 where
      pub planned : length r.0.plan ≡ length users
      pub counted : r.0.total_migrated + r.0.failed ≡ length users
      pub dry : dry_run ≡ true → (r.1 ≡ calls) × (r.0.failed ≡ 0)
      pub distinct :
          (i j : ℕ) (x y : MigrationPlanItem)
          → i < 84
          → j < 84
          → get_elem? r.0.plan i ≡ some x
          → get_elem? r.0.plan j ≡ some y
          → x.avatar_id ≡ y.avatar_id
          → i ≡ j
