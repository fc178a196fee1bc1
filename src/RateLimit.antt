-- ===== src/RateLimit.antt =====
-- src/shared/middlewares/rate-limit.middleware.ts: the fixed windows of requests by path and user.
-- The map of attempts is a function, the clock a parameter of each request.
pub mod Windows
use crm_media.Base.{
  ℕ, suc, ◌+◌, ◌-◌, ◌*◌, Bool, true, false, List, [], ◌∷◌, ◌++◌, Option, none, some, Text, codes,
  text_eq, ltb, leb, if◌then◌else◌,
}
use crm_media.FileValidation.Names.{trim}

pub record RateRecord : Type 0 where
  pub count : ℕ
  pub reset_at : ℕ

pub record Limiter : Type 0 where
  pub attempts : Text → Option RateRecord
  pub last_cleanup : ℕ

abbrev pub cleanup_interval : ℕ
cleanup_interval = 5 * 60 * 1000

-- A record that has not expired.
unfoldable pub live : ℕ → Option RateRecord → Option RateRecord
live now none = none
live now (some r) = if leb r.reset_at now then none else some r

-- The difference of the source is negative before the last cleanup, and then below the interval.
unfoldable pub cleanup_expired : ℕ → Limiter → Limiter
cleanup_expired now l =
    if ltb (now - l.last_cleanup) cleanup_interval
    then l
    else (record { attempts = λ key. live now (l.attempts key); last_cleanup = now })

unfoldable pub set_record : Text → RateRecord → Limiter → Limiter
set_record key r l = record {
  attempts = λ k. if text_eq k key then some r else l.attempts k;
  last_cleanup = l.last_cleanup;
}

-- `header?.trim() || next`
unfoldable pub trimmed_or : Option Text → Text → Text
trimmed_or none next = next
trimmed_or (some value) next = elim (trim value) [ [] ↦ next | c ∷ s ↦ c ∷ s ]

unfoldable pub bucket_key : Text → Option Text → Option Text → Text → Text
bucket_key path user_id user_sub ip =
    path ++ (codes ":" ++ trimmed_or user_id (trimmed_or user_sub ip))

module _ (max_attempts window : ℕ) where
  unfoldable pub open_window : Text → ℕ → Limiter → Bool × Limiter
  open_window key now l = (true, set_record key (record { count = 1; reset_at = now + window }) l)

  unfoldable pub count_attempt : Text → RateRecord → Limiter → Bool × Limiter
  count_attempt key r l =
      if leb max_attempts r.count
      then (false, l)
      else (true, set_record key (record { count = suc r.count; reset_at = r.reset_at }) l)

  unfoldable pub check_record : Text → ℕ → Option RateRecord → Limiter → Bool × Limiter
  check_record key now none l = open_window key now l
  check_record key now (some r) l =
      if ltb now r.reset_at then count_attempt key r l else open_window key now l

  -- A request is admitted, or refused with the status 429.
  unfoldable pub admit : Text → ℕ → Limiter → Bool × Limiter
  admit key now l =
      let cleaned = cleanup_expired now l in check_record key now (cleaned.attempts key) cleaned
