-- ===== src/Media/Upload.antt =====
-- What the upload flows of document.service.ts and collab-document.service.ts share: the guard on
-- names and types, the clock, and the wait for an object to reach production.
pub mod Keeps
pub mod Looks
pub mod Ends
use crm_media.Base.{
  ℕ, zero, suc, ◌+◌, ◌*◌, ◌<◌, Bool, true, false, ◌||◌, ◌∷◌, Option, none, some, Text, codes,
  String, ltb, if◌then◌else◌,
}
use crm_media.FileValidation.Names.{is_blocked_file_name, is_blocked_mime}
use crm_media.Effects.Defs.{
  fuel_exhausted, Failure, app_error, unfinished, Event, clock_read, slept, uuid_drawn,
  warmup_triggered, audit_logged, AuditLog, Trace, Env, Outcome, ok, M, ◌>>=◌, ◌>>◌, return, throw,
  emit, done_or_throw,
}
use crm_media.Storage.{ObjectMetadata, verify_object_exists, get_object_metadata}
use crm_media.Media.Promotion.{quarantine_key, try_promote_from_quarantine}

-- The principal of a request.
pub record Actor : Type 0 where
  pub user_id : Text
  pub sub : Text
  pub role : Text
  pub email : Text

abbrev pub max_bytes : ℕ
max_bytes = 25 * 1024 * 1024

abbrev pub blocked_type : Failure
blocked_type = app_error 400 "Tipo de archivo bloqueado por seguridad"

abbrev pub still_in_quarantine : Failure
still_in_quarantine =
    app_error 422
      "El archivo sigue en validacion antivirus y aun no pasa a produccion. Reintente en unos segundos."

abbrev pub not_available : Failure
not_available =
    app_error 422
      "El archivo subido aun no esta disponible para registro. Reintente en unos segundos."

abbrev pub max_wait : ℕ
max_wait = 4000

abbrev pub poll_interval : ℕ
poll_interval = 500

-- One round for each interval of the wait, one for a clock that stands on the deadline, and the
-- test that ends the loop.
abbrev pub poll_fuel : ℕ
poll_fuel = 10

module _ (env : Env) where
  unfoldable pub read_clock : M ℕ
  read_clock t = let n = env.now t in (ok n, clock_read n ∷ t)

  unfoldable pub draw_uuid : M Text
  draw_uuid t = let u = env.uuid t in (ok u, uuid_drawn u ∷ t)

  -- The insertion of `createAuditLog`; the event that it also publishes is caught when it fails.
  unfoldable pub create_audit_log : AuditLog → M (Unit {0})
  create_audit_log log t =
      let done = env.insert_audit_log t log in
      (emit (audit_logged log done) >> done_or_throw done) t

  unfoldable pub is_blocked_upload : Text → Text → Bool
  is_blocked_upload stored_file_name mime =
      is_blocked_file_name env.unicode stored_file_name || is_blocked_mime env.unicode mime

  -- The polling loop of `confirmDocumentUpload`.
  unfoldable pub poll_exists : ℕ → ℕ → Text → M Bool
  poll_exists zero deadline object_key = emit fuel_exhausted >> throw unfinished
  poll_exists (suc fuel) deadline object_key = do
    now ← read_clock
    if ltb now deadline
        then (do
          emit (slept poll_interval)
          exists ← verify_object_exists env object_key
          if exists then return true else (do
            promoted ← try_promote_from_quarantine env object_key
            if promoted then return true else poll_exists fuel deadline object_key))
        else return false

  unfoldable pub wait_exists : Text → M Bool
  wait_exists object_key = do now ← read_clock; poll_exists poll_fuel (now + max_wait) object_key

  -- From the first look at the object to the end of the wait.
  unfoldable pub await_object : Text → M Bool
  await_object object_key = do
    exists ← verify_object_exists env object_key
    if exists then return true else (do
      promoted ← try_promote_from_quarantine env object_key
      if promoted then return true else wait_exists object_key)

  -- The same with the metadata, in `resolveDocumentMetadataForCollabCommand`.
  unfoldable pub metadata_if : Bool → Text → M (Option ObjectMetadata)
  metadata_if promoted object_key =
      if promoted then get_object_metadata env object_key else return none

  unfoldable pub poll_metadata : ℕ → ℕ → Text → M (Option ObjectMetadata)
  poll_metadata zero deadline object_key = emit fuel_exhausted >> throw unfinished
  poll_metadata (suc fuel) deadline object_key = do
    now ← read_clock
    if ltb now deadline
        then (do
          emit (slept poll_interval)
          meta ← get_object_metadata env object_key
          elim meta [
            | some m ↦ return (some m)
            | none ↦ do
              promoted ← try_promote_from_quarantine env object_key
              again ← metadata_if promoted object_key
              elim again [
                | some m ↦ return (some m)
                | none ↦ poll_metadata fuel deadline object_key
              ]
          ])
        else return none

  unfoldable pub wait_metadata : Text → M (Option ObjectMetadata)
  wait_metadata object_key = do
    now ← read_clock
    poll_metadata poll_fuel (now + max_wait) object_key

  unfoldable pub await_metadata : Text → M (Option ObjectMetadata)
  await_metadata object_key = do
    meta ← get_object_metadata env object_key
    elim meta [
      | some m ↦ return (some m)
      | none ↦ do
        promoted ← try_promote_from_quarantine env object_key
        again ← metadata_if promoted object_key
        elim again [ some m ↦ return (some m) | none ↦ wait_metadata object_key ]
    ]

  -- The two messages of the status 422.
  unfoldable pub reject_unavailable : {A : Type 0} → Text → M A
  reject_unavailable object_key = do
    in_quarantine ← verify_object_exists env (quarantine_key object_key)
    throw (if in_quarantine then still_in_quarantine else not_available)
