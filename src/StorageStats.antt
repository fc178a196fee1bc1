-- ===== src/StorageStats.antt =====
-- src/modules/media/storage.service.ts: the statistics of the storage and their cache of 30 s. The
-- replies of the file system, the database and crm-collab are parameters, and so are the two
-- percentages, which are quotients of floating-point numbers. Times are in milliseconds.
pub mod Fresh
use crm_media.Base.{
  ℕ, zero, suc, ◌+◌, ◌-◌, ◌*◌, min, Bool, true, false, not, ◌&&◌, List, [], ◌∷◌, Option, none, some,
  ltb, if◌then◌else◌,
}

-- A number of JavaScript: a quotient by `suc d`, with its sign, or one of the others.
pub data Number : Type 0 where
  ratio : Bool → ℕ → ℕ → Number
  infinite : Bool → Number
  not_a_number : Number

abbrev pub natural : ℕ → Number
natural n = ratio true n 0

pub record DiskStats : Type 0 where
  pub total_bytes : ℕ
  pub used_bytes : ℕ
  pub available_bytes : ℕ
  pub used_percentage : ℕ

pub record AssetStats : Type 0 where
  pub total_assets_count : ℕ
  pub total_assets_bytes : ℕ
  pub documents_count : ℕ
  pub documents_bytes : ℕ
  pub avatars_count : ℕ
  pub avatars_bytes : ℕ

pub record CloudStorageStats : Type 0 where
  pub quota_bytes : Number
  pub used_bytes : ℕ
  pub available_bytes : Number
  pub used_percentage : Number
  pub total_files_count : ℕ
  pub project_files_count : ℕ
  pub project_files_bytes : ℕ
  pub avatars_count : ℕ
  pub avatars_bytes : ℕ
  pub documents_count : ℕ
  pub documents_bytes : ℕ

pub record StorageStats : Type 0 where
  pub cloud_storage : CloudStorageStats
  pub disk : DiskStats
  pub assets : AssetStats
  pub cached_at : ℕ

-- `cachedStats` and `cacheExpiresAt`.
pub record Cache : Type 0 where
  pub cached_stats : Option StorageStats
  pub cache_expires_at : ℕ

abbrev pub cache_ttl_ms : ℕ
cache_ttl_ms = 30000

abbrev pub default_oci_quota_bytes : ℕ
default_oci_quota_bytes = 10 * 1024 * 1024 * 1024

-- What `statfs` gives.
pub record FileSystem : Type 0 where
  pub bsize : ℕ
  pub blocks : ℕ
  pub bavail : ℕ

-- The reply of crm-collab; `unreachable` is a fetch or a body that threw. A field that is no number
-- is `none`.
pub data CollabReply : Type 0 where
  metrics : Option ℕ → Option ℕ → CollabReply
  not_ok unreachable : CollabReply

-- The replies of one refresh; a `none` of the file system or the database is an error. The quota is
-- `Number` of the variable.
pub record Replies : Type 0 where
  pub statfs : Option FileSystem
  pub quota : Number
  pub rows : Option (List (ℕ × ℕ))
  pub collab : CollabReply

-- `Number(value) || otherwise`
unfoldable pub number_or : Option ℕ → ℕ → ℕ
number_or none otherwise = otherwise
number_or (some zero) otherwise = otherwise
number_or (some (suc n)) otherwise = suc n

-- `quota || DEFAULT_OCI_QUOTA_BYTES`
unfoldable pub quota_or_default : Number → Number
quota_or_default not_a_number = natural default_oci_quota_bytes
quota_or_default (infinite positive) = infinite positive
quota_or_default (ratio positive zero d) = natural default_oci_quota_bytes
quota_or_default (ratio positive (suc n) d) = ratio positive (suc n) d

-- `quota > 0`
unfoldable pub is_positive : Number → Bool
is_positive (ratio true (suc n) d) = true
is_positive (infinite true) = true
is_positive _ = false

-- `Math.max(0, quota - used)`
unfoldable pub left_of : Number → ℕ → Number
left_of (ratio true n d) used = ratio true (n - used * suc d) d
left_of (ratio false n d) used = natural 0
left_of (infinite true) used = infinite true
left_of (infinite false) used = natural 0
left_of not_a_number used = not_a_number

unfoldable pub fetch_collab_metrics : CollabReply → ℕ × ℕ
fetch_collab_metrics (metrics count bytes) = (number_or count 0, number_or bytes 0)
fetch_collab_metrics not_ok = (0, 0)
fetch_collab_metrics unreachable = (0, 0)

-- The first row, if the query succeeded and has one.
unfoldable pub first_row : Option (List (ℕ × ℕ)) → ℕ × ℕ
first_row none = (0, 0)
first_row (some []) = (0, 0)
first_row (some ((count, bytes) ∷ rows)) = (number_or (some count) 0, number_or (some bytes) 0)

unfoldable pub assets_of : CloudStorageStats → AssetStats
assets_of cloud = record {
  total_assets_count = cloud.total_files_count;
  total_assets_bytes = cloud.used_bytes;
  documents_count = cloud.documents_count + cloud.project_files_count;
  documents_bytes = cloud.documents_bytes + cloud.project_files_bytes;
  avatars_count = cloud.avatars_count;
  avatars_bytes = cloud.avatars_bytes;
}

-- The cached statistics that a call at `now` gives back.
unfoldable pub cached : Bool → ℕ → Cache → Option StorageStats
cached force_refresh now c =
    if not force_refresh && ltb now c.cache_expires_at then c.cached_stats else none

-- `rounded used total` is `Math.round((used / total) * 100)`, `percentage used quota` is
-- `Number(((used / quota) * 100).toFixed(2))`.
module _ (rounded : ℕ → ℕ → ℕ) (percentage : ℕ → Number → Number) where
  unfoldable pub get_disk_stats : Option FileSystem → DiskStats
  get_disk_stats none = record {
    total_bytes = 0;
    used_bytes = 0;
    available_bytes = 0;
    used_percentage = 0;
  }
  get_disk_stats (some stats) =
      let total = stats.blocks * stats.bsize in
      let available = stats.bavail * stats.bsize in
      let used = total - available in
      record {
        total_bytes = total;
        used_bytes = used;
        available_bytes = available;
        used_percentage = if ltb 0 total then min 100 (rounded used total) else 0;
      }

  unfoldable pub cloud_storage_of : Number → ℕ × ℕ → ℕ × ℕ → CloudStorageStats
  cloud_storage_of quota documents project =
      let used = documents.1 + project.1 in
      record {
        quota_bytes = quota;
        used_bytes = used;
        available_bytes = left_of quota used;
        used_percentage = if is_positive quota then percentage used quota else natural 0;
        total_files_count = documents.0 + project.0;
        project_files_count = project.0;
        project_files_bytes = project.1;
        avatars_count = 0;
        avatars_bytes = 0;
        documents_count = documents.0;
        documents_bytes = documents.1;
      }

  unfoldable pub get_cloud_storage_stats : Replies → CloudStorageStats
  get_cloud_storage_stats replies =
      cloud_storage_of (quota_or_default replies.quota) (first_row replies.rows)
        (fetch_collab_metrics replies.collab)

  -- From the replies on, for a call made at `now`.
  unfoldable pub refresh : ℕ → Replies → StorageStats × Cache
  refresh now replies =
      let cloud = get_cloud_storage_stats replies in
      let stats : StorageStats = record {
        cloud_storage = cloud;
        disk = get_disk_stats replies.statfs;
        assets = assets_of cloud;
        cached_at = now;
      } in
      (stats, record { cached_stats = some stats; cache_expires_at = now + cache_ttl_ms })

  -- `c` is the cache at the call.
  unfoldable pub get_storage_stats : Bool → ℕ → Cache → Replies → StorageStats × Cache
  get_storage_stats force_refresh now c replies = elim (cached force_refresh now c) [
    | none ↦ refresh now replies
    | some stats ↦ (stats, c)
  ]

unfoldable pub initial_cache : Cache
initial_cache = record { cached_stats = none; cache_expires_at = 0 }

unfoldable pub clear_cache : Cache
clear_cache = record { cached_stats = none; cache_expires_at = 0 }
