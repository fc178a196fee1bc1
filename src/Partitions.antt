-- ===== src/Partitions.antt =====
-- src/db/scripts/audit-partition-utils.ts and src/db/scripts/ensure-audit-log-partitions.ts: the monthly
-- partitions of the audit log. A month is its year and its number from zero; years have at most four
-- digits. The replies of the database are a parameter.
pub mod Names
pub mod Contiguous
use crm_media.Base.{
  ℕ, zero, suc, ◌+◌, ◌/◌, ◌%◌, Bool, true, false, not, ◌&&◌, List, [], ◌∷◌, ◌++◌, Option, none,
  some, Text, codes, text_eq, starts_with, drop, ltb, ◌==◌, if◌then◌else◌,
}
use crm_media.Base.Decimal.{decimal, is_digit}

pub record MonthSlice : Type 0 where
  pub partition_name : Text
  pub from_inclusive : Text
  pub to_exclusive : Text

-- `Date.UTC(year, monthIndex0, 1)` carries months into years.
unfoldable pub utc_month_start : ℕ → ℕ → ℕ × ℕ
utc_month_start year month_index = (year + month_index / 12, month_index % 12)

-- `padStart(2, "0")`
unfoldable pub pad : ℕ → Text
pad n = if ltb n 10 then b'0' ∷ decimal n else decimal n

-- `toISOString().slice(0, 10)` of the first day of a month.
unfoldable pub iso_date : ℕ × ℕ → Text
iso_date (year, month) = decimal year ++ (codes "-" ++ (pad (suc month) ++ codes "-01"))

unfoldable pub slice_for_utc_month : ℕ × ℕ → MonthSlice
slice_for_utc_month (year, month) = record {
  partition_name = codes "audit_logs_p" ++ (decimal year ++ (codes "_" ++ pad (suc month)));
  from_inclusive = iso_date (utc_month_start year month);
  to_exclusive = iso_date (utc_month_start year (suc month));
}

unfoldable pub is_year_month : Text → Bool
is_year_month (a ∷ b ∷ c ∷ d ∷ s ∷ m ∷ n ∷ []) =
    is_digit a
    && (is_digit b && (is_digit c && (is_digit d && (s == b'_' && (is_digit m && is_digit n)))))
is_year_month _ = false

-- `/^audit_logs_p\d{4}_\d{2}$/`
unfoldable pub is_safe_partition_name : Text → Bool
is_safe_partition_name name =
    starts_with (codes "audit_logs_p") name && is_year_month (drop 12 name)

-- The reply to `CREATE TABLE`; code 42P07 says that the table is there.
pub data Created : Type 0 where
  created exists failed : Created

abbrev pub Queries : Type 0
Queries = List (MonthSlice × Created)

pub data Ensured : Type 0 where
  done no_table not_partitioned : Ensured
  unsafe_name : Text → Ensured
  query_failed : Ensured

module _ (create : Queries → MonthSlice → Created) where
  unfoldable pub create_partition : MonthSlice → Queries → Ensured × Queries
  create_partition slice queries =
      let reply = create queries slice in
      if not (is_safe_partition_name slice.partition_name)
      then (unsafe_name slice.partition_name, queries)
      else (elim reply [ failed ↦ query_failed | _ ↦ done ], (slice, reply) ∷ queries)

  -- The loop stops at an error.
  unfoldable pub create_all : List MonthSlice → Ensured × Queries → Ensured × Queries
  create_all [] r = r
  create_all (slice ∷ slices) (done, queries) = create_all slices (create_partition slice queries)
  create_all (slice ∷ slices) r = r

  -- The slices of this month and the two after it.
  unfoldable pub next_slices : ℕ → ℕ → List MonthSlice
  next_slices year month =
      slice_for_utc_month (utc_month_start year month)
      ∷ slice_for_utc_month (utc_month_start year (month + 1))
      ∷ slice_for_utc_month (utc_month_start year (month + 2))
      ∷ []

  -- `kind` is the kind of the table `audit_logs`, if there is one, as its query has answered.
  unfoldable pub ensure_audit_log_partitions : Option Text → ℕ → ℕ → Queries → Ensured × Queries
  ensure_audit_log_partitions none year month queries = (no_table, queries)
  ensure_audit_log_partitions (some []) year month queries = (no_table, queries)
  ensure_audit_log_partitions (some (c ∷ kind)) year month queries =
      if text_eq (c ∷ kind) (codes "p")
      then create_all (next_slices year month) (done, queries)
      else (not_partitioned, queries)
