-- ===== src/Media/Upload/Ends.antt =====
-- The waits of the upload flows end: with a clock that never runs backwards and a timer that never
-- fires early, the fuel of the polling loops is never used up.
use crm_media.Base.{
  ℕ, zero, suc, ◌+◌, ◌*◌, ◌≤◌, ◌<◌, ◌≡◌, true, false, Option, none, some, Text, [], ◌∷◌, ltb, arith,
  ltb→lt,
}
use crm_media.Effects.Defs.{Event, slept, clock_read, fuel_exhausted, Trace, Env, M, return, emit}
use crm_media.Storage.{ObjectMetadata}
use crm_media.Media.Upload.Keeps.{Keeps-metadata_if}
use crm_media.Media.Upload.{poll_metadata, await_metadata, wait_metadata}
use crm_media.Effects.Triple.{branch_eq, given, Triple, bind, branch, weaken, conclude}
use crm_media.Effects.Keeps.{Keeps, Keeps-return, Absorbs, is_read, is_store, reads_of_store}
use crm_media.Storage.Keeps.{Keeps-verify_object_exists, Keeps-get_object_metadata}
use crm_media.Media.Promotion.Keeps.{Keeps-promote, Keeps-try_promote}
use crm_media.Media.Promotion.{try_promote_from_quarantine}
use crm_media.Media.Upload.{
  poll_interval, read_clock, poll_exists, await_object, wait_exists, max_wait,
}

-- What is assumed of `Date.now` and `setTimeout`.
pub record Clock (env : Env) : Type 0 where
  pub monotone : (e : Event) (t : Trace) → env.now t ≤ env.now (e ∷ t)
  pub sleeps : (d : ℕ) (t : Trace) → env.now t + d ≤ env.now (slept d ∷ t)

-- No loop has run out of fuel.
abbrev pub NeverExhausted : Trace → Type 0
NeverExhausted [] = Unit
NeverExhausted (fuel_exhausted ∷ t) = ⊥
NeverExhausted (_ ∷ t) = NeverExhausted t

pub NeverExhausted-store : Absorbs is_store NeverExhausted
NeverExhausted-store = record { apply = go }
  where
    go : (e : Event) → is_store e ≡ true → (t : Trace) → NeverExhausted t → NeverExhausted (e ∷ t)
    go fuel_exhausted h t p = absurd (cc)
    go _ h t p = p

module _ (env : Env) (clock : Clock env) where
  -- The clock has reached `d`.
  abbrev Late : ℕ → Trace → Type 0
  Late d t = (d ≤ env.now t) × NeverExhausted t

  Late-store : (d : ℕ) → Absorbs is_store (Late d)
  Late-store d = record {
    apply =
        λ e h t p. (omega (arith, p.0, clock.monotone e t), NeverExhausted-store.apply e h t p.1);
  }

  Late-reads : (d : ℕ) → Absorbs is_read (Late d)
  Late-reads d = reads_of_store (Late-store d)

  read_clock-Late :
      (d : ℕ) → Triple (Late d) (read_clock env) (λ now t. (d ≤ now) × Late now t) (λ _. Late d)
  unfolding read_clock
  read_clock-Late d = record {
    run = λ t p. (p.0, (clock.monotone (clock_read (env.now t)) t, p.1));
  }

  sleep-Late :
      (now : ℕ)
      → Triple
          (Late now)
          (emit (slept poll_interval))
          (λ _. Late (now + poll_interval))
          (λ _. Late now)
  unfolding emit
  sleep-Late now = record { run = λ t p. (omega (arith, p.0, clock.sleeps poll_interval t), p.1) }

  Keeps-attempt : (d : ℕ) (key : Text) → Keeps (Late d) (try_promote_from_quarantine env key)
  Keeps-attempt d key = Keeps-try_promote env (Late-reads d) (Keeps-promote env (Late-store d)) key

  abbrev Done : Trace → Type 0
  Done = NeverExhausted

  Done-found :
      {P : Trace → Type 0} (o : Option ObjectMetadata) {m : M (Option ObjectMetadata)}
      → ((t : Trace) → P t → Done t)
      → Triple P m (λ _. Done) (λ _. Done)
      → Triple P (elim o [ some m' ↦ return (some m') | none ↦ m ]) (λ _. Done) (λ _. Done)
  Done-found none k h = h
  Done-found (some m') k h = weaken (Keeps-return (some m')) k

  Done-of :
      {A : Type 0} {m : M A} (d : ℕ) → Keeps (Late d) m → Triple (Late d) m (λ _. Done) (λ _. Done)
  Done-of d h = conclude h (λ a t p. p.1) (λ e t p. p.1)

  module _ (deadline d fuel : ℕ) where
    -- One round, given what is known of the rounds that are left.
    poll_exists_round :
        (key : Text)
        → ((now : ℕ)
            → d ≤ now
            → now < deadline
            → Triple
                (Late (now + poll_interval))
                (poll_exists env fuel deadline key)
                (λ _. Done)
                (λ _. Done))
        → Triple (Late d) (poll_exists env (suc fuel) deadline key) (λ _. Done) (λ _. Done)
    unfolding poll_exists
    poll_exists_round key rest =
        bind (conclude (read_clock-Late d) (λ a t p. p) (λ e t p. p.1)) λ now. given λ reached.
          branch_eq (ltb now deadline)
            (λ before.
              let late = now + poll_interval in
              bind (conclude (sleep-Late now) (λ a t p. p) (λ e t p. p.1)) λ _.
                bind
                  (conclude (Keeps-verify_object_exists env (Late-reads late) key) (λ a t p. p)
                    (λ e t p. p.1))
                  λ exists. branch exists (Done-of late (Keeps-return true)) (
                    bind (conclude (Keeps-attempt late key) (λ a t p. p) (λ e t p. p.1)) λ promoted.
                      branch promoted (Done-of late (Keeps-return true))
                        (rest now reached (ltb→lt now deadline before))))
            (λ after. Done-of now (Keeps-return false))

    poll_metadata_round :
        (key : Text)
        → ((now : ℕ)
            → d ≤ now
            → now < deadline
            → Triple
                (Late (now + poll_interval))
                (poll_metadata env fuel deadline key)
                (λ _. Done)
                (λ _. Done))
        → Triple (Late d) (poll_metadata env (suc fuel) deadline key) (λ _. Done) (λ _. Done)
    unfolding poll_metadata
    poll_metadata_round key rest =
        bind (conclude (read_clock-Late d) (λ a t p. p) (λ e t p. p.1)) λ now. given λ reached.
          branch_eq (ltb now deadline)
            (λ before.
              let late = now + poll_interval in
              bind (conclude (sleep-Late now) (λ a t p. p) (λ e t p. p.1)) λ _.
                bind
                  (conclude (Keeps-get_object_metadata env (Late-reads late) key) (λ a t p. p)
                    (λ e t p. p.1))
                  λ meta.
                    Done-found meta (λ t p. p.1)
                      (bind (conclude (Keeps-attempt late key) (λ a t p. p) (λ e t p. p.1))
                        λ promoted.
                          bind
                            (conclude (Keeps-metadata_if env (Late-reads late) promoted key)
                              (λ a t p. p) (λ e t p. p.1))
                            λ again.
                              Done-found again (λ t p. p.1)
                                (rest now reached (ltb→lt now deadline before))))
            (λ after. Done-of now (Keeps-return none))

  poll_exists-Done :
      (fuel deadline d : ℕ) (key : Text)
      → deadline ≤ d + fuel * 500
      → Triple (Late d) (poll_exists env (suc fuel) deadline key) (λ _. Done) (λ _. Done)
  poll_exists-Done zero deadline d key h =
      poll_exists_round deadline d zero key (λ now p q. absurd (omega arith))
  poll_exists-Done (suc f) deadline d key h =
      poll_exists_round deadline d (suc f) key
        (λ now p q. poll_exists-Done f deadline (now + poll_interval) key (omega arith))

  poll_metadata-Done :
      (fuel deadline d : ℕ) (key : Text)
      → deadline ≤ d + fuel * 500
      → Triple (Late d) (poll_metadata env (suc fuel) deadline key) (λ _. Done) (λ _. Done)
  poll_metadata-Done zero deadline d key h =
      poll_metadata_round deadline d zero key (λ now p q. absurd (omega arith))
  poll_metadata-Done (suc f) deadline d key h =
      poll_metadata_round deadline d (suc f) key
        (λ now p q. poll_metadata-Done f deadline (now + poll_interval) key (omega arith))

  -- The first look, an attempt to promote, and the wait of four seconds.
  pub await_object-Done :
      (key : Text) → Triple NeverExhausted (await_object env key) (λ _. Done) (λ _. Done)
  unfolding await_object wait_exists
  await_object-Done key = bind (Keeps-verify_object_exists env reads key) λ exists.
      branch exists (Keeps-return true) (
        bind (Keeps-try_promote env reads (Keeps-promote env NeverExhausted-store) key) λ promoted.
          branch promoted (Keeps-return true) (
            weaken
              (bind (conclude (read_clock-Late 0) (λ a t p. p.1) (λ e t p. p.1))
                λ now. poll_exists-Done 9 (now + max_wait) now key (omega arith))
              (λ t p. (omega arith, p))))
    where
      reads : Absorbs is_read NeverExhausted
      reads = reads_of_store NeverExhausted-store

  pub await_metadata-Done :
      (key : Text) → Triple NeverExhausted (await_metadata env key) (λ _. Done) (λ _. Done)
  unfolding await_metadata wait_metadata
  await_metadata-Done key = bind (Keeps-get_object_metadata env reads key) λ meta.
      Done-found meta (λ t p. p)
        (bind (Keeps-try_promote env reads (Keeps-promote env NeverExhausted-store) key) λ promoted.
          bind (Keeps-metadata_if env reads promoted key) λ again.
            Done-found again (λ t p. p)
              (weaken
                (bind (conclude (read_clock-Late 0) (λ a t p. p.1) (λ e t p. p.1))
                  λ now. poll_metadata-Done 9 (now + max_wait) now key (omega arith))
                (λ t p. (omega arith, p))))
    where
      reads : Absorbs is_read NeverExhausted
      reads = reads_of_store NeverExhausted-store
