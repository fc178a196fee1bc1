-- ===== src/RateLimit/Windows.antt =====
-- A window admits its first requests up to the maximum, whatever the other users do.
use crm_media.Base.{
  ℕ, suc, ◌+◌, ◌-◌, ◌≤◌, ◌<◌, ◌≡◌, refl, sym, ap, ◌∙◌, Bool, true, false, List, [], ◌∷◌, Option,
  none, some, Text, text_eq, text_eq_refl, ltb, leb, arith, if◌then◌else◌, Bool-cases, inl, inr,
  All, eq_of_text_eq, ◌&&◌,
}
use crm_media.RateLimit.{
  RateRecord, Limiter, cleanup_interval, live, cleanup_expired, set_record, open_window,
  count_attempt, check_record, admit,
}

-- The requests of a user in the window that is open at a time.
abbrev pub used_of : ℕ → Option RateRecord → ℕ
used_of now none = 0
used_of now (some r) = if ltb now r.reset_at then r.count else 0

abbrev pub used : Text → ℕ → Limiter → ℕ
used key now l = used_of now (l.attempts key)

used-live :
    (now later : ℕ) (r : Option RateRecord)
    → now ≤ later
    → used_of later (live now r) ≡ used_of later r
unfolding live
used-live now later none h = refl
used-live now later (some r) h = ground arith

used-cleanup :
    (key : Text) (now later : ℕ) (l : Limiter)
    → now ≤ later
    → used key later (cleanup_expired now l) ≡ used key later l
unfolding cleanup_expired
used-cleanup key now later l h = elim (Bool-cases (ltb (now - l.last_cleanup) cleanup_interval)) [
  | inl early ↦ rw early refl
  | inr due ↦ rw due (used-live now later (l.attempts key) h)
]

module _ (max_attempts window : ℕ) where
  -- What a request does to the requests used, by every user.
  pub record IsCounted (key : Text) (now : ℕ) (l : Limiter) (answer : Bool × Limiter) : Type 0 where
    pub decision : answer.0 ≡ ltb (used key now l) max_attempts
    pub counted :
        used key now answer.1 ≡ (if answer.0 then suc (used key now l) else used key now l)
    pub others :
        (other : Text) (later : ℕ)
        → text_eq other key ≡ false
        → now ≤ later
        → used other later answer.1 ≡ used other later l

  check_record-IsCounted :
      (key : Text) (now : ℕ) (l : Limiter) (r : Option RateRecord)
      → l.attempts key ≡ r
      → 0 < max_attempts
      → 0 < window
      → IsCounted key now l (check_record max_attempts window key now r l)
  unfolding check_record open_window count_attempt set_record
  check_record-IsCounted key now l none found hm hw = record {
    decision = rw found (ground arith);
    counted = rw (found, text_eq_refl key) (ground arith);
    others = λ other later differs after. rw differs refl;
  }
  check_record-IsCounted key now l (some r) found hm hw = elim (Bool-cases (ltb now r.reset_at)) [
    | inl running ↦ elim (Bool-cases (leb max_attempts r.count)) [
      | inl full ↦ record {
        decision = rw (found, running, full) (ground arith);
        counted = rw (running, full) refl;
        others = λ other later differs after. rw (running, full) refl;
      }
      | inr room ↦ record {
        decision = rw (found, running, room) (ground arith);
        counted = rw (running, room, text_eq_refl key, found) (ground arith);
        others = λ other later differs after. rw (running, room, differs) refl;
      }
    ]
    | inr over ↦ record {
      decision = rw (found, over) (ground arith);
      counted = rw (over, text_eq_refl key, found) (ground arith);
      others = λ other later differs after. rw (over, differs) refl;
    }
  ]

  -- The answer to a request, with a maximum and a window that are not zero: it is admitted if and
  -- only if fewer requests than the maximum are used in the open window of the user on the path; an
  -- admitted request uses one more, a refused one none; and the requests used by any other user,
  -- now or later, stay as they were, although expired records are dropped.
  admit-IsCounted :
      (key : Text) (now : ℕ) (l : Limiter)
      → 0 < max_attempts
      → 0 < window
      → IsCounted key now l (admit max_attempts window key now l)
  unfolding admit
  admit-IsCounted key now l hm hw =
      let cleaned = cleanup_expired now l in
      let same : used key now cleaned ≡ used key now l = used-cleanup key now now l (omega arith) in
      let c = check_record-IsCounted key now cleaned (cleaned.attempts key) refl hm hw in
      record {
        decision = c.decision ∙ ap (λ n. ltb n max_attempts) same;
        counted =
            c.counted
            ∙ ap
                (λ n.
                  if (check_record max_attempts window key now (cleaned.attempts key) cleaned).0
                  then suc n
                  else n)
                same;
        others = λ other later differs after.
            c.others other later differs after ∙ used-cleanup other now later l after;
      }

  -- The requests of all users in their order, each with its key and time: how many of one key are
  -- admitted.
  abbrev pub admitted : Text → List (Text × ℕ) → Limiter → ℕ
  admitted key [] l = 0
  admitted key ((other, now) ∷ requests) l =
      let answer = admit max_attempts window other now l in
      let rest = admitted key requests answer.1 in
      if text_eq key other && answer.0 then suc rest else rest

  cleanup-running :
      (key : Text) (now : ℕ) (l : Limiter) (r : RateRecord)
      → l.attempts key ≡ some r
      → now < r.reset_at
      → (cleanup_expired now l).attempts key ≡ some r
  unfolding cleanup_expired live
  cleanup-running key now l r found running =
      let fresh : leb r.reset_at now ≡ false = ground arith in
      elim (Bool-cases (ltb (now - l.last_cleanup) cleanup_interval)) [
        | inl early ↦ rw early found
        | inr due ↦ rw (due, found, fresh) refl
      ]

  -- A request in a window that runs, of its own user or of another one.
  admit-running :
      (key : Text) (now : ℕ) (l : Limiter) (r : RateRecord)
      → l.attempts key ≡ some r
      → now < r.reset_at
      → admit max_attempts window key now l
        ≡ count_attempt max_attempts window key r (cleanup_expired now l)
  unfolding admit check_record
  admit-running key now l r found running =
      let before : ltb now r.reset_at ≡ true = ground arith in
      rw (cleanup-running key now l r found running, before) refl

  admit-other :
      (key other : Text) (now : ℕ) (l : Limiter) (r : RateRecord)
      → l.attempts key ≡ some r
      → now < r.reset_at
      → text_eq key other ≡ false
      → (admit max_attempts window other now l).1.attempts key ≡ some r
  unfolding admit check_record open_window count_attempt set_record
  admit-other key other now l r found running differs =
      go ((cleanup_expired now l).attempts other) (cleanup_expired now l)
        (cleanup-running key now l r found running)
    where
      go :
          (o : Option RateRecord) (c : Limiter)
          → c.attempts key ≡ some r
          → (check_record max_attempts window other now o c).1.attempts key ≡ some r
      go none c h = rw differs h
      go (some x) c h = ground (arith, differs, h)

  admitted-own :
      (key : Text) (now : ℕ) (requests : List (Text × ℕ)) (l : Limiter) (r : RateRecord)
      → l.attempts key ≡ some r
      → now < r.reset_at
      → r.count ≤ max_attempts
      → ((l' : Limiter) (n : ℕ)
          → l'.attempts key ≡ some (record { count = n; reset_at = r.reset_at })
          → n ≤ max_attempts
          → admitted key requests l' + n ≤ max_attempts)
      → admitted key ((key, now) ∷ requests) l + r.count ≤ max_attempts
  unfolding count_attempt set_record
  admitted-own key now requests l r found running h rest =
      let cleaned = cleanup_expired now l in
      let counted =
        set_record key (record { count = suc r.count; reset_at = r.reset_at }) cleaned in
      let is_counted : counted.attempts key
          ≡ some (record { count = suc r.count; reset_at = r.reset_at }) =
        rw (text_eq_refl key) refl in
      rw (text_eq_refl key, admit-running key now l r found running)
        (elim (Bool-cases (leb max_attempts r.count)) [
          | inl full ↦ rw full (rest cleaned r.count (cleanup-running key now l r found running) h)
          | inr room ↦ rw room (omega (arith, rest counted (suc r.count) is_counted (ground arith)))
        ])

  abbrev pub BeforeReset : ℕ → List (Text × ℕ) → Type 0
  BeforeReset reset_at requests = All (λ request. request.1 < reset_at) requests

  -- In a window that runs, the requests that are admitted until its end, together with those
  -- already counted, are at most the maximum, however the requests of other users come between.
  pub admitted-le :
      (key : Text) (requests : List (Text × ℕ)) (l : Limiter) (r : RateRecord)
      → l.attempts key ≡ some r
      → BeforeReset r.reset_at requests
      → r.count ≤ max_attempts
      → admitted key requests l + r.count ≤ max_attempts
  admitted-le key [] l r found before h = omega arith
  admitted-le key ((other, now) ∷ requests) l r found (running, before) h =
      elim (Bool-cases (text_eq key other)) [
        | inr differs ↦ rw differs (
            admitted-le key requests _ r (admit-other key other now l r found running differs)
              before h)
        | inl same ↦ rw (sym (eq_of_text_eq key other same)) (
            admitted-own key now requests l r found running h
              λ l' n found' h'. admitted-le key requests l' _ found' before h')
      ]
