-- ===== src/QuarantineScan.antt =====
-- src/jobs/run-quarantine-scan.ts: the job that scans every object in quarantine. The pages that
-- the listing of the bucket answers with, one for each round, are a parameter; `none` is a listing
-- that throws.
pub mod Safe
use crm_media.Base.{
  ℕ, suc, ◌+◌, Bool, true, false, List, [], ◌∷◌, Option, none, some, Text, drop, ltb, if◌then◌else◌,
}
use crm_media.FileValidation.Bytes.{Bytes}
use crm_media.Effects.Defs.{Failure, thrown, Env, M, ◌>>=◌, ◌>>◌, return, throw, catch}
use crm_media.Storage.{
  get_namespace, get_object_buffer, get_object_metadata, upload_private_document, delete_object,
}
use crm_media.Antivirus.{scan_buffer_for_virus}
use crm_media.Media.Promotion.{mime_of}
use crm_media.Media.Upload.{read_clock}

-- An object of the listing.
pub record Item : Type 0 where
  pub name : Option Text
  pub time_modified : Option ℕ

pub record Tally : Type 0 where
  pub scanned : ℕ
  pub moved : ℕ
  pub infected : ℕ

abbrev pub counted : Tally → Tally
counted n = record { scanned = suc n.scanned; moved = n.moved; infected = n.infected }

module _ (env : Env) where
  -- `ageMs > OCI_QUARANTINE_MAX_AGE_MS`; without a time the age is the grace and one.
  unfoldable pub is_too_old : ℕ → Option ℕ → Bool
  is_too_old now none = ltb env.quarantine_max_age_ms (env.quarantine_grace_ms + 1)
  is_too_old now (some time) = ltb (time + env.quarantine_max_age_ms) now

  -- `ageMs < graceMs`
  unfoldable pub is_too_young : ℕ → Option ℕ → Bool
  is_too_young now none = false
  is_too_young now (some time) = ltb now (time + env.quarantine_grace_ms)

  unfoldable pub finish_scan : Text → Bytes → Text → Tally → Bool → M Tally
  finish_scan key buffer mime n is_clean =
      if is_clean
      then (do
        upload_private_document env (drop 11 key) buffer mime
        delete_object env key
        return (record { scanned = n.scanned; moved = suc n.moved; infected = n.infected }))
      else (do
        delete_object env key
        return (record { scanned = n.scanned; moved = n.moved; infected = suc n.infected }))

  unfoldable pub scan_object : Text → Tally → M Tally
  scan_object key n = do
    buffer ← get_object_buffer env key
    meta ← get_object_metadata env key
    is_clean ← scan_buffer_for_virus env buffer (some (mime_of meta)) (some key)
    finish_scan key buffer (mime_of meta) n is_clean

  unfoldable pub scan_named : ℕ → Text → Option ℕ → Tally → M Tally
  scan_named now key time n =
      if is_too_old now time
      then delete_object env key >> return n
      else if is_too_young now time
      then return n
      else catch (scan_object key n) (λ e. return n)

  unfoldable pub scan_item : ℕ → Option Text → Option ℕ → Tally → M Tally
  scan_item now none time n = return n
  scan_item now (some []) time n = return n
  scan_item now (some (c ∷ key)) time n = scan_named now (c ∷ key) time (counted n)

  unfoldable pub scan_items : ℕ → List Item → Tally → M Tally
  scan_items now [] n = return n
  scan_items now (item ∷ items) n = do
    n' ← scan_item now item.name item.time_modified n
    scan_items now items n'

  unfoldable pub scan_pages : ℕ → List (Option (List Item)) → Tally → M Tally
  scan_pages now [] n = return n
  scan_pages now (none ∷ pages) n = throw thrown
  scan_pages now (some items ∷ pages) n = do n' ← scan_items now items n; scan_pages now pages n'

  unfoldable pub run_quarantine_scan : List (Option (List Item)) → M Tally
  run_quarantine_scan pages = do
    get_namespace env
    now ← read_clock env
    scan_pages now pages (record { scanned = 0; moved = 0; infected = 0 })
