-- ===== src/Media/Upload/Keeps.antt =====
-- Invariants of the trace under the waits of the upload flows, and the end of the waits.
use crm_media.Base.{ℕ, zero, suc, refl, Bool, true, false, Option, none, some, Text, ◌∷◌, ltb}
use crm_media.Effects.Defs.{fuel_exhausted, unfinished, slept, Trace, Env, M, return, emit}
use crm_media.Effects.Triple.{bind, branch}
use crm_media.Effects.Keeps.{Keeps, Keeps-return, Keeps-throw, Keeps-emit, Absorbs, is_read}
use crm_media.Storage.{ObjectMetadata}
use crm_media.Storage.Keeps.{Keeps-verify_object_exists, Keeps-get_object_metadata}
use crm_media.Media.Promotion.{promote}
use crm_media.Media.Promotion.Keeps.{Keeps-try_promote}
use crm_media.Media.Upload.{
  poll_interval, read_clock, draw_uuid, poll_exists, wait_exists, await_object, metadata_if,
  poll_metadata, wait_metadata, await_metadata, reject_unavailable,
}

module _ {I : Trace → Type 0} where
  Keeps-found :
      (o : Option ObjectMetadata) {m : M (Option ObjectMetadata)}
      → Keeps I m
      → Keeps I (elim o [ some m' ↦ return (some m') | none ↦ m ])
  Keeps-found none h = h
  Keeps-found (some m') h = Keeps-return (some m')

module _ (env : Env) {I : Trace → Type 0} (reads : Absorbs is_read I) where
  pub Keeps-read_clock : Keeps I (read_clock env)
  unfolding read_clock
  Keeps-read_clock = record { run = λ t p. reads.apply _ refl t p }

  pub Keeps-draw_uuid : Keeps I (draw_uuid env)
  unfolding draw_uuid
  Keeps-draw_uuid = record { run = λ t p. reads.apply _ refl t p }

  pub Keeps-metadata_if : (promoted : Bool) (key : Text) → Keeps I (metadata_if env promoted key)
  unfolding metadata_if
  Keeps-metadata_if promoted key =
      branch promoted (Keeps-get_object_metadata env reads key) (Keeps-return none)

module _ (env : Env) {I : Trace → Type 0} (reads : Absorbs is_read I)
    (promotes : (key : Text) → Keeps I (promote env key))
    (exhausted : (t : Trace) → I t → I (fuel_exhausted ∷ t)) where
  Keeps-sleep : (n : ℕ) → Keeps I (emit (slept n))
  Keeps-sleep n = Keeps-emit (slept n) (reads.apply _ refl)

  Keeps-poll_exists : (fuel deadline : ℕ) (key : Text) → Keeps I (poll_exists env fuel deadline key)
  unfolding poll_exists
  Keeps-poll_exists zero deadline key =
      bind (Keeps-emit fuel_exhausted exhausted) λ _. Keeps-throw unfinished
  Keeps-poll_exists (suc fuel) deadline key = bind (Keeps-read_clock env reads) λ now.
      branch (ltb now deadline)
        (bind (Keeps-sleep poll_interval) λ _.
          bind (Keeps-verify_object_exists env reads key) λ exists.
            branch exists (Keeps-return true) (
              bind (Keeps-try_promote env reads promotes key) λ promoted.
                branch promoted (Keeps-return true) (Keeps-poll_exists fuel deadline key)))
        (Keeps-return false)

  pub Keeps-await_object : (key : Text) → Keeps I (await_object env key)
  unfolding await_object wait_exists
  Keeps-await_object key = bind (Keeps-verify_object_exists env reads key) λ exists.
      branch exists (Keeps-return true) (
        bind (Keeps-try_promote env reads promotes key) λ promoted.
          branch promoted (Keeps-return true)
            (bind (Keeps-read_clock env reads) λ now. Keeps-poll_exists _ _ key))

  Keeps-poll_metadata :
      (fuel deadline : ℕ) (key : Text) → Keeps I (poll_metadata env fuel deadline key)
  unfolding poll_metadata
  Keeps-poll_metadata zero deadline key =
      bind (Keeps-emit fuel_exhausted exhausted) λ _. Keeps-throw unfinished
  Keeps-poll_metadata (suc fuel) deadline key = bind (Keeps-read_clock env reads) λ now.
      branch (ltb now deadline)
        (bind (Keeps-sleep poll_interval) λ _.
          bind (Keeps-get_object_metadata env reads key) λ meta. Keeps-found meta (
            bind (Keeps-try_promote env reads promotes key) λ promoted.
              bind (Keeps-metadata_if env reads promoted key)
                λ again. Keeps-found again (Keeps-poll_metadata fuel deadline key)))
        (Keeps-return none)

  pub Keeps-await_metadata : (key : Text) → Keeps I (await_metadata env key)
  unfolding await_metadata wait_metadata
  Keeps-await_metadata key = bind (Keeps-get_object_metadata env reads key) λ meta.
      Keeps-found meta (
        bind (Keeps-try_promote env reads promotes key) λ promoted.
          bind (Keeps-metadata_if env reads promoted key) λ again.
            Keeps-found again
              (bind (Keeps-read_clock env reads) λ now. Keeps-poll_metadata _ _ key))

  pub Keeps-reject_unavailable :
      {A : Type 0} (key : Text) → Keeps I (reject_unavailable env {A = A} key)
  unfolding reject_unavailable
  Keeps-reject_unavailable key =
      bind (Keeps-verify_object_exists env reads _) λ found. Keeps-throw _
