-- ===== src/Media/Promotion.antt =====
-- `tryPromoteFromQuarantine` of src/modules/media/collab-document.service.ts: the move of an
-- uploaded object from quarantine to production, after a scan.
pub mod Keeps
use crm_media.Base.{Bool, true, false, ◌++◌, Option, none, some, Text, codes, if◌then◌else◌}
use crm_media.Effects.Defs.{
  Failure, app_error, thrown, unfinished, Env, M, ◌>>=◌, ◌>>◌, return, throw, catch,
}
use crm_media.Storage.{
  ObjectMetadata, octet_stream, verify_object_exists, get_object_buffer, get_object_metadata,
  upload_private_document, delete_object,
}
use crm_media.Antivirus.{scan_buffer_for_virus}

abbrev pub quarantine_key : Text → Text
quarantine_key object_key = codes "quarantine/" ++ object_key

-- `meta?.mimeType ?? "application/octet-stream"`
abbrev pub mime_of : Option ObjectMetadata → Text
mime_of none = octet_stream
mime_of (some meta) = meta.mime_type

-- `if (error instanceof AppError) throw error; return false`
unfoldable pub rethrow_app_error : Failure → M Bool
rethrow_app_error (app_error status message) = throw (app_error status message)
rethrow_app_error thrown = return false
rethrow_app_error unfinished = throw unfinished

module _ (env : Env) where
  unfoldable pub promote : Text → M Bool
  promote object_key = do
    buffer ← get_object_buffer env (quarantine_key object_key)
    meta ← get_object_metadata env (quarantine_key object_key)
    is_clean ← scan_buffer_for_virus env buffer (some (mime_of meta)) (some object_key)
    if is_clean
        then (do
          upload_private_document env object_key buffer (mime_of meta)
          delete_object env (quarantine_key object_key)
          return true)
        else (do
          delete_object env (quarantine_key object_key)
          throw (app_error 400 "El archivo fue rechazado por la validación antivirus."))

  unfoldable pub try_promote_from_quarantine : Text → M Bool
  try_promote_from_quarantine object_key = do
    in_quarantine ← verify_object_exists env (quarantine_key object_key)
    if in_quarantine then catch (promote object_key) rethrow_app_error else return false
