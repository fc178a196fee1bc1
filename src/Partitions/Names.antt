-- ===== src/Partitions/Names.antt =====
-- The names of the partitions pass their test.
use crm_media.Base.{
  ℕ, suc, ◌+◌, ◌-◌, ◌/◌, ◌%◌, ◌≤◌, ◌<◌, ◌≡◌, refl, ap, ◌∙◌, inl, inr, true, [], ◌∷◌, ◌++◌, ltb,
  arith, Bool-cases, ltb→lt, starts_with,
}
use crm_media.Base.Decimal.{decimal_from, decimal, is_digit}
use crm_media.Partitions.{pad, slice_for_utc_month, is_year_month, is_safe_partition_name}

digit : (n : ℕ) → n < 10 → is_digit (b'0' + n) ≡ true
digit n h = ground arith

digits-one : (f n : ℕ) → n < 10 → decimal_from (suc f) n ≡ (b'0' + n) ∷ []
unfolding decimal_from
digits-one f n h = ground arith

digits-more :
    (f n : ℕ) → 10 ≤ n → decimal_from (suc f) n ≡ decimal_from f (n / 10) ++ ((b'0' + n % 10) ∷ [])
unfolding decimal_from
digits-more f n h = ground arith

-- A year of four digits.
year_digits :
    (f n : ℕ)
    → 1000 ≤ n
    → n < 10000
    → decimal_from (suc (suc (suc (suc f)))) n
      ≡ (b'0' + n / 10 / 10 / 10)
        ∷ (b'0' + n / 10 / 10 % 10)
        ∷ (b'0' + n / 10 % 10)
        ∷ (b'0' + n % 10)
        ∷ []
year_digits f n low high =
    rw
      (
        digits-more (suc (suc (suc f))) n (omega arith),
        digits-more (suc (suc f)) (n / 10) (omega arith),
        digits-more (suc f) (n / 10 / 10) (omega arith),
        digits-one f (n / 10 / 10 / 10) (omega arith),
      )
      refl

decimal-year :
    (n : ℕ)
    → 1000 ≤ n
    → n < 10000
    → decimal n
      ≡ (b'0' + n / 10 / 10 / 10)
        ∷ (b'0' + n / 10 / 10 % 10)
        ∷ (b'0' + n / 10 % 10)
        ∷ (b'0' + n % 10)
        ∷ []
unfolding decimal
decimal-year n low high =
    let fuel : suc n ≡ suc (suc (suc (suc (n - 3)))) = omega arith in
    ap (λ f. decimal_from f n) fuel ∙ year_digits (n - 3) n low high

decimal-one : (n : ℕ) → n < 10 → decimal n ≡ (b'0' + n) ∷ []
unfolding decimal
decimal-one n h = digits-one n n h

decimal-two : (n : ℕ) → 10 ≤ n → n < 100 → decimal n ≡ (b'0' + n / 10) ∷ (b'0' + n % 10) ∷ []
unfolding decimal
decimal-two n low high =
    let fuel : n ≡ suc (n - 1) = omega arith in
    digits-more n n low
    ∙ ap (λ f. decimal_from f (n / 10) ++ ((b'0' + n % 10) ∷ [])) fuel
    ∙ ap (λ l. l ++ ((b'0' + n % 10) ∷ [])) (digits-one (n - 1) (n / 10) (omega arith))

-- A month of two digits.
pad-month : (n : ℕ) → n < 100 → pad n ≡ (b'0' + n / 10) ∷ (b'0' + n % 10) ∷ []
unfolding pad
pad-month n h = elim (Bool-cases (ltb n 10)) [
  | inl small ↦
      let no_tens : n / 10 ≡ 0 = ground arith in
      let ones : n % 10 ≡ n = ground arith in
      rw (small, no_tens, ones, decimal-one n (ltb→lt n 10 small)) refl
  | inr large ↦ let ten : 10 ≤ n = ground arith in rw (large, decimal-two n ten h) refl
]

-- The name of a month's partition has four digits and two.
pub slice-safe :
    (year month : ℕ)
    → 1000 ≤ year
    → year < 10000
    → month < 12
    → is_safe_partition_name (slice_for_utc_month (year, month)).partition_name ≡ true
unfolding is_safe_partition_name is_year_month slice_for_utc_month starts_with
slice-safe year month low high short =
    rw
      (
        decimal-year year low high,
        pad-month (suc month) (omega arith),
        digit (year / 10 / 10 / 10) (omega arith),
        digit (year / 10 / 10 % 10) (omega arith),
        digit (year / 10 % 10) (omega arith),
        digit (year % 10) (omega arith),
        digit (suc month / 10) (omega arith),
        digit (suc month % 10) (omega arith),
      )
      refl
