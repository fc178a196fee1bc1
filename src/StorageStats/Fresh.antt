-- ===== src/StorageStats/Fresh.antt =====
-- What a call of the statistics gives back is at most 30 s old, and its figures agree.
use crm_media.Base.{
  ℕ, zero, suc, ◌+◌, ◌-◌, ◌*◌, ◌≤◌, ◌<◌, ◌≡◌, refl, ◌⊎◌, inl, inr, min, Bool, true, false, Option,
  none, some, ltb, if◌then◌else◌, Bool-cases, Option-cases, ltb→lt, arith,
}
use mathlib.Core.Path.{subst}
use crm_media.StorageStats.{
  Number, ratio, infinite, not_a_number, natural, quota_or_default, left_of, DiskStats,
  CloudStorageStats, StorageStats, AssetStats, Cache, FileSystem, Replies, get_disk_stats,
  cloud_storage_of, get_cloud_storage_stats, assets_of, refresh, cached, get_storage_stats,
  initial_cache, clear_cache,
}

-- A number that is neither zero nor NaN.
abbrev pub IsTruthy : Number → Type 0
IsTruthy (ratio positive n d) = 0 < n
IsTruthy (infinite positive) = Unit
IsTruthy not_a_number = ⊥

-- What a quota leaves of the bytes: with them it makes up the quota, and it is zero where more are
-- used or the quota is negative.
abbrev pub IsLeft : Number → ℕ → Number → Type 0
IsLeft (ratio true n d) used left =
    (rest : ℕ) × (left ≡ ratio true rest d)
    × ((used * suc d + rest ≡ n) ⊎ (n < used * suc d × (rest ≡ 0)))
IsLeft (infinite true) used left = left ≡ infinite true
IsLeft (ratio false n d) used left = left ≡ natural 0
IsLeft (infinite false) used left = left ≡ natural 0
IsLeft not_a_number used left = ⊥

-- The figures of the bucket, and those derived from them.
pub record CloudAddsUp (cloud : CloudStorageStats) (assets : AssetStats) : Type 0 where
  pub quota_given : IsTruthy cloud.quota_bytes
  pub used : cloud.used_bytes ≡ cloud.documents_bytes + cloud.project_files_bytes
  pub files : cloud.total_files_count ≡ cloud.documents_count + cloud.project_files_count
  pub available : IsLeft cloud.quota_bytes cloud.used_bytes cloud.available_bytes
  pub asset_count : assets.total_assets_count ≡ assets.documents_count + assets.avatars_count
  pub asset_bytes : assets.total_assets_bytes ≡ assets.documents_bytes + assets.avatars_bytes
  pub assets_used : assets.total_assets_bytes ≡ cloud.used_bytes

-- The figures of the disk.
pub record DiskAddsUp (disk : DiskStats) : Type 0 where
  pub parts :
      (disk.used_bytes + disk.available_bytes ≡ disk.total_bytes)
      ⊎ (disk.total_bytes < disk.available_bytes × (disk.used_bytes ≡ 0))
  pub percentage : disk.used_percentage ≤ 100

abbrev pub AddsUp : StorageStats → Type 0
AddsUp stats = CloudAddsUp stats.cloud_storage stats.assets × DiskAddsUp stats.disk

-- What is cached adds up, and expires 30 s after it was asked for.
abbrev pub IsCache : Cache → Type 0
IsCache c =
    (stats : StorageStats)
    → c.cached_stats ≡ some stats
    → AddsUp stats × (c.cache_expires_at ≡ stats.cached_at + 30000)

split_sum : (m n : ℕ) → (n + (m - n) ≡ m) ⊎ (m < n × (m - n ≡ 0))
split_sum m n = elim (Bool-cases (ltb m n)) [
  | inl below ↦ inr (ltb→lt m n below, ground arith)
  | inr above ↦ inl (ground arith)
]

split_rest : (m n : ℕ) → (m - n + n ≡ m) ⊎ (m < n × (m - n ≡ 0))
split_rest m n = elim (split_sum m n) [ inl e ↦ inl (omega arith) | inr below ↦ inr below ]

percentage-le : (n : ℕ) (any : Bool) → (if any then min 100 n else 0) ≤ 100
percentage-le n true = omega arith
percentage-le n false = omega arith

quota_or_default-IsTruthy : (quota : Number) → IsTruthy (quota_or_default quota)
unfolding quota_or_default
quota_or_default-IsTruthy not_a_number = omega arith
quota_or_default-IsTruthy (infinite positive) = tt
quota_or_default-IsTruthy (ratio positive zero d) = omega arith
quota_or_default-IsTruthy (ratio positive (suc n) d) = omega arith

left_of-IsLeft :
    (quota : Number) (used : ℕ) → IsTruthy quota → IsLeft quota used (left_of quota used)
unfolding left_of
left_of-IsLeft (ratio true n d) used h = (n - used * suc d, refl, split_sum n (used * suc d))
left_of-IsLeft (ratio false n d) used h = refl
left_of-IsLeft (infinite true) used h = refl
left_of-IsLeft (infinite false) used h = refl
left_of-IsLeft not_a_number used h = h

module _ (rounded : ℕ → ℕ → ℕ) (percentage : ℕ → Number → Number) where
  -- The cache after refreshes and clearances in any order, a refresh being at the time of its call.
  pub data Reaches : Cache → Type 0 where
    begins : Reaches initial_cache
    refreshes :
        {c : Cache}
        → Reaches c
        → (now : ℕ) (replies : Replies) → Reaches (refresh rounded percentage now replies).1
    clears : {c : Cache} → Reaches c → Reaches clear_cache

  cloud-AddsUp :
      (quota : Number) (documents project : ℕ × ℕ)
      → IsTruthy quota
      → CloudAddsUp
          (cloud_storage_of rounded percentage quota documents project)
          (assets_of (cloud_storage_of rounded percentage quota documents project))
  unfolding cloud_storage_of assets_of
  cloud-AddsUp quota documents project h = record {
    quota_given = h;
    used = refl;
    files = refl;
    available = left_of-IsLeft quota (documents.1 + project.1) h;
    asset_count = omega arith;
    asset_bytes = omega arith;
    assets_used = refl;
  }

  disk-AddsUp : (reply : Option FileSystem) → DiskAddsUp (get_disk_stats rounded percentage reply)
  unfolding get_disk_stats
  disk-AddsUp none = record { parts = inl refl; percentage = omega arith }
  disk-AddsUp (some stats) = record {
    parts = split_rest (stats.blocks * stats.bsize) (stats.bavail * stats.bsize);
    percentage = percentage-le (rounded _ _) (ltb 0 (stats.blocks * stats.bsize));
  }

  refresh-AddsUp : (now : ℕ) (replies : Replies) → AddsUp (refresh rounded percentage now replies).0
  unfolding refresh get_cloud_storage_stats
  refresh-AddsUp now replies =
      (cloud-AddsUp _ _ _ (quota_or_default-IsTruthy replies.quota), disk-AddsUp replies.statfs)

  refresh-IsCache :
      (now : ℕ) (replies : Replies) → IsCache (refresh rounded percentage now replies).1
  unfolding refresh
  refresh-IsCache now replies stats e =
      subst (λ st. AddsUp st × (now + 30000 ≡ st.cached_at + 30000)) (cc)
        (refresh-AddsUp now replies, refl)

  Reaches-IsCache : (c : Cache) → Reaches c → IsCache c
  unfolding initial_cache clear_cache
  Reaches-IsCache c begins stats e = absurd (cc)
  Reaches-IsCache c (refreshes before now replies) stats e = refresh-IsCache now replies stats e
  Reaches-IsCache c (clears before) stats e = absurd (cc)

  cached-hit :
      (force : Bool) (now : ℕ) (c : Cache) (stats : StorageStats)
      → cached force now c ≡ some stats
      → (force ≡ false) × now < c.cache_expires_at × (c.cached_stats ≡ some stats)
  unfolding cached
  cached-hit true now c stats e = absurd (cc)
  cached-hit false now c stats e = elim (Bool-cases (ltb now c.cache_expires_at)) [
    | inl early ↦ (refl, ltb→lt now c.cache_expires_at early, rw (early) at e)
    | inr late ↦ absurd (some_ne_none (rw (late) at e))
  ]
    where
      some_ne_none : Path (Option StorageStats) none (some stats) → ⊥
      some_ne_none h = cc

  -- What a call at `now` gives back and leaves behind.
  abbrev pub IsFresh : Bool → ℕ → Cache → StorageStats × Cache → Type 0
  IsFresh force now c r =
      AddsUp r.0
      × (now < r.0.cached_at + 30000)
      × ((r.0.cached_at ≡ now) ⊎ ((force ≡ false) × (c.cached_stats ≡ some r.0) × (r.1 ≡ c)))
      × (r.1.cached_stats ≡ some r.0)
      × (r.1.cache_expires_at ≡ r.0.cached_at + 30000)

  refresh-IsFresh :
      (force : Bool) (now : ℕ) (c : Cache) (replies : Replies)
      → IsFresh force now c (refresh rounded percentage now replies)
  unfolding refresh
  refresh-IsFresh force now c replies =
      (refresh-AddsUp now replies, omega arith, inl refl, refl, refl)

  get-miss :
      (force : Bool) (now : ℕ) (c : Cache) (replies : Replies)
      → cached force now c ≡ none
      → refresh rounded percentage now replies
        ≡ get_storage_stats rounded percentage force now c replies
  unfolding get_storage_stats
  get-miss force now c replies miss = rw (miss, get_storage_stats) refl

  get-hit :
      (force : Bool) (now : ℕ) (c : Cache) (replies : Replies) (stats : StorageStats)
      → cached force now c ≡ some stats
      → Path
          (StorageStats × Cache)
          (stats, c)
          (get_storage_stats rounded percentage force now c replies)
  unfolding get_storage_stats
  get-hit force now c replies stats hit = rw (hit, get_storage_stats) refl

  -- Let `c` be the cache after refreshes and clearances in any order. A call of `getStorageStats`
  -- at `now` with the cache `c` gives statistics asked for less than 30 s before, and they are asked
  -- for at `now` or are those in the cache, the latter only without `forceRefresh`; they are in the
  -- cache after it, until 30 s after they were asked for. Their figures agree: the used bytes and
  -- the files are the sums over the documents and the projects; the quota is neither zero nor NaN;
  -- the used and the available bytes add up to a positive quota, or none is available when more is
  -- used or the quota is negative; the bytes of the disk add up likewise, and its percentage is at
  -- most 100. Any replies and errors of the file system, the database and crm-collab are allowed,
  -- and any value of the variable of the quota.
  pub get_storage_stats-IsFresh :
      (c : Cache)
      → Reaches c
      → (force : Bool) (now : ℕ) (replies : Replies)
      → IsFresh force now c (get_storage_stats rounded percentage force now c replies)
  get_storage_stats-IsFresh c before force now replies = elim (Option-cases (cached force now c)) [
    | inl miss ↦
        subst (λ r. IsFresh force now c r) (get-miss force now c replies miss)
          (refresh-IsFresh force now c replies)
    | inr (stats, hit) ↦
        let (unforced, early, held) = cached-hit force now c stats hit in
        let (adds_up, expires) = Reaches-IsCache c before stats held in
        subst (λ r. IsFresh force now c r) (get-hit force now c replies stats hit)
          (adds_up, omega arith, inr (unforced, held, refl), held, expires)
  ]
