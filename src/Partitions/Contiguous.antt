-- ===== src/Partitions/Contiguous.antt =====
-- The partitions follow each other without a gap, and none is refused for its name.
use crm_media.Base.{
  ℕ, suc, ◌+◌, ◌/◌, ◌%◌, ◌≤◌, ◌<◌, ◌≡◌, ◌≢◌, refl, ap, ◌∙◌, ◌⊎◌, inl, inr, true, List, [], ◌∷◌,
  Option, none, some, Text, codes, text_eq, arith, Bool-cases, eq_of_text_eq, ne_of_text_eq,
}
use crm_media.Partitions.{
  MonthSlice, utc_month_start, slice_for_utc_month, is_safe_partition_name, Created, created,
  exists, failed, Queries, Ensured, done, query_failed, create_partition, create_all, next_slices,
  ensure_audit_log_partitions,
}
use crm_media.Partitions.Names.{slice-safe}

-- The slice of a month ends where that of the next one begins.
slice-next :
    (year month : ℕ)
    → (slice_for_utc_month (utc_month_start year month)).to_exclusive
      ≡ (slice_for_utc_month (utc_month_start year (suc month))).from_inclusive
unfolding slice_for_utc_month utc_month_start
slice-next year month =
    let years : year + month / 12 + suc (month % 12) / 12
        ≡ year + suc month / 12 + suc month % 12 / 12 =
      omega arith in
    let months : suc (month % 12) % 12 ≡ suc month % 12 % 12 = omega arith in
    rw (years, months) refl

safe_month :
    (year month : ℕ)
    → 1000 ≤ year
    → year < 9999
    → month < 24
    → is_safe_partition_name (slice_for_utc_month (utc_month_start year month)).partition_name
      ≡ true
unfolding utc_month_start
safe_month year month low high short =
    slice-safe (year + month / 12) (month % 12) (omega arith) (omega arith) (omega arith)

-- The reply to a `CREATE TABLE` after which the table is there.
abbrev pub IsThere : Created → Type 0
IsThere reply = (reply ≡ created) ⊎ (reply ≡ exists)

reply-cases : (reply : Created) → IsThere reply ⊎ (reply ≡ failed)
reply-cases created = inl (inl refl)
reply-cases exists = inl (inr refl)
reply-cases failed = inr refl

-- The run `r` has made `slice` and goes on as `r'`, or its last query has failed.
abbrev Went : MonthSlice → Queries → Ensured × Queries → (Queries → Type 0) → Type 0
Went slice queries r Rest =
    ((reply : Created) × (IsThere reply × Rest ((slice, reply) ∷ queries)))
    ⊎ (r ≡ (query_failed, (slice, failed) ∷ queries))

-- Three slices from `first` on are there, made in their order, each starting where the one before
-- it ends; or the last query, for a slice, has failed.
abbrev pub EnsuredRun : MonthSlice → Queries → Ensured × Queries → Type 0
EnsuredRun first queries r =
    ((second third : MonthSlice) × (a b c : Created) × (IsThere a
        × IsThere b
        × IsThere c
        × (first.to_exclusive ≡ second.from_inclusive)
        × (second.to_exclusive ≡ third.from_inclusive)
        × (r ≡ (done, (third, c) ∷ (second, b) ∷ (first, a) ∷ queries))))
    ⊎ ((slice : MonthSlice) × (before : Queries) × (r ≡ (query_failed, (slice, failed) ∷ before)))

module _ (create : Queries → MonthSlice → Created) where
  create_partition-there :
      (slice : MonthSlice) (queries : Queries)
      → is_safe_partition_name slice.partition_name ≡ true
      → IsThere (create queries slice)
      → create_partition create slice queries ≡ (done, (slice, create queries slice) ∷ queries)
  unfolding create_partition
  create_partition-there slice queries safe (inl e) = rw (safe, e) refl
  create_partition-there slice queries safe (inr e) = rw (safe, e) refl

  create_partition-failed :
      (slice : MonthSlice) (queries : Queries)
      → is_safe_partition_name slice.partition_name ≡ true
      → create queries slice ≡ failed
      → create_partition create slice queries ≡ (query_failed, (slice, failed) ∷ queries)
  unfolding create_partition
  create_partition-failed slice queries safe broken = rw (safe, broken) refl

  create_all-failed :
      (slices : List MonthSlice) (queries : Queries)
      → create_all create slices (query_failed, queries) ≡ (query_failed, queries)
  unfolding create_all
  create_all-failed [] queries = refl
  create_all-failed (slice ∷ slices) queries = refl

  create_all-Went :
      (slice : MonthSlice) (slices : List MonthSlice) (queries : Queries)
      → is_safe_partition_name slice.partition_name ≡ true
      → Went slice queries (create_all create (slice ∷ slices) (done, queries)) λ after.
        create_all create (slice ∷ slices) (done, queries) ≡ create_all create slices (done, after)
  unfolding create_all
  create_all-Went slice slices queries safe = elim (reply-cases (create queries slice)) [
    | inl there ↦ inl (
      create queries slice,
      (
        there,
        ap (λ r. create_all create slices r) (create_partition-there slice queries safe there),
      ),
    )
    | inr broken ↦ inr (
        ap (λ r. create_all create slices r) (create_partition-failed slice queries safe broken)
        ∙ create_all-failed slices ((slice, failed) ∷ queries))
  ]

  create_all_nil : (queries : Queries) → create_all create [] (done, queries) ≡ (done, queries)
  unfolding create_all
  create_all_nil queries = refl

  -- Three slices with safe names that follow each other.
  create_three :
      (first second third : MonthSlice) (queries : Queries)
      → is_safe_partition_name first.partition_name ≡ true
      → is_safe_partition_name second.partition_name ≡ true
      → is_safe_partition_name third.partition_name ≡ true
      → first.to_exclusive ≡ second.from_inclusive
      → second.to_exclusive ≡ third.from_inclusive
      → EnsuredRun first queries (create_all create (first ∷ second ∷ third ∷ []) (done, queries))
  create_three first second third queries first_safe second_safe third_safe next next' =
      elim (create_all-Went first (second ∷ third ∷ []) queries first_safe) [
        | inr broken ↦ inr (first, queries, broken)
        | inl (a, (a_there, went)) ↦
            elim (create_all-Went second (third ∷ []) ((first, a) ∷ queries) second_safe) [
              | inr broken ↦ inr (second, (first, a) ∷ queries, went ∙ broken)
              | inl (b, (b_there, went')) ↦
                  elim (create_all-Went third [] ((second, b) ∷ (first, a) ∷ queries) third_safe) [
                    | inr broken ↦
                        inr (third, (second, b) ∷ (first, a) ∷ queries, went ∙ went' ∙ broken)
                    | inl (c, (c_there, went'')) ↦
                        let all = (third, c) ∷ (second, b) ∷ (first, a) ∷ queries in
                        let made = went ∙ went' ∙ went'' ∙ create_all_nil all in
                        inl (second, third, a, b, c, (a_there, b_there, c_there, next, next', made))
                  ]
            ]
      ]

  create_next :
      (year month : ℕ) (queries : Queries)
      → 1000 ≤ year
      → year < 9999
      → month < 12
      → EnsuredRun
          (slice_for_utc_month (utc_month_start year month))
          queries
          (create_all create (next_slices create year month) (done, queries))
  unfolding next_slices
  create_next year month queries low high short =
      create_three (at month) (at (month + 1)) (at (month + 2)) queries
        (safe_month year month low high (omega arith))
        (safe_month year (month + 1) low high (omega arith))
        (safe_month year (month + 2) low high (omega arith))
        (slice-next year month ∙ ap starts (omega arith))
        (slice-next year (month + 1) ∙ ap starts (omega arith))
    where
      at : ℕ → MonthSlice
      at n = slice_for_utc_month (utc_month_start year n)

      starts : ℕ → Text
      starts n = (at n).from_inclusive

  -- With a partitioned table the run makes three slices in a row from this month's on, or ends at a
  -- query that failed; without one it queries nothing.
  abbrev pub EnsuredSpec : Option Text → ℕ → ℕ → Queries → Ensured × Queries → Type 0
  EnsuredSpec kind year month queries r =
      ((kind ≡ some (codes "p"))
        × EnsuredRun (slice_for_utc_month (utc_month_start year month)) queries r)
      ⊎ ((kind ≢ some (codes "p")) × (r.1 ≡ queries))

  -- For a year from 1000 to 9998 and a month from 0 to 11, and for any replies of the database, the
  -- following holds of `ensureAuditLogPartitions`. If `audit_logs` is a partitioned table (kind
  -- "p"), either the partitions of this month and of two more are there after it, each
  -- created by its query or found to exist, in this order, and each slice starts where the one
  -- before it ends; or the last query failed. No name is refused as unsafe. If it is not a
  -- partitioned table, or there is none, no partition is created.
  pub ensure_audit_log_partitions-EnsuredSpec :
      (kind : Option Text) (year month : ℕ) (queries : Queries)
      → 1000 ≤ year
      → year < 9999
      → month < 12
      → EnsuredSpec kind year month queries
          (ensure_audit_log_partitions create kind year month queries)
  unfolding ensure_audit_log_partitions
  ensure_audit_log_partitions-EnsuredSpec none year month queries low high short =
      inr (λ e. cc, refl)
  ensure_audit_log_partitions-EnsuredSpec (some []) year month queries low high short =
      inr (λ e. cc, refl)
  ensure_audit_log_partitions-EnsuredSpec (some (c ∷ kind)) year month queries low high short =
      elim (Bool-cases (text_eq (c ∷ kind) (codes "p"))) [
        | inl same ↦ inl (
          ap some (eq_of_text_eq (c ∷ kind) (codes "p") same),
          rw (same) (create_next year month queries low high short),
        )
        | inr other ↦ inr (λ e. ne_of_text_eq (c ∷ kind) (codes "p") other (cc), rw (other) refl)
      ]
