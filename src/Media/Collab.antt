-- ===== src/Media/Collab.antt =====
-- src/modules/media/collab-document.service.ts: the documents of projects and clients, which the
-- commands of the collaboration service name by their keys.
pub mod Resolve
pub mod Delete
use crm_media.Base.{
  ℕ, Bool, true, false, not, ◌&&◌, ◌||◌, List, [], ◌∷◌, Option, none, some, Text, codes, ltb, ◌==◌,
  is_some, starts_with, if◌then◌else◌,
}
use crm_media.Effects.Defs.{
  Failure, app_error, MediaAsset, AuditLog, Event, warmup_triggered, Env, M, ◌>>=◌, ◌>>◌, return,
  throw, reject_if, emit,
}
use crm_media.Sanitize.{sanitize_stored_file_name}
use crm_media.Storage.{
  ObjectMetadata, verify_object_exists, create_upload_par, create_private_document_url,
  delete_object,
}
use crm_media.Media.Promotion.{quarantine_key}
use crm_media.Media.Upload.{
  Actor, max_bytes, blocked_type, read_clock, create_audit_log, is_blocked_upload, await_metadata,
  reject_unavailable,
}
use crm_media.Media.Documents.{UploadUrl, audit_of, find_document, remove_asset}

abbrev pub foreign_key : Failure
foreign_key = app_error 403 "El objectKey no pertenece a archivos de colaboracion"

unfoldable pub is_collab_key : Text → Bool
is_collab_key key = starts_with (codes "projects/") key || starts_with (codes "clients/") key

unfoldable pub assert_collab_object_key : Text → M (Unit {0})
assert_collab_object_key key = reject_if (not (is_collab_key key)) foreign_key

-- `asset?.originalName || objectKey`
unfoldable pub audited_name : Text → Option (Text × MediaAsset) → Text
audited_name key none = key
audited_name key (some (id, asset)) = elim asset.original_name [ [] ↦ key | c ∷ s ↦ c ∷ s ]

module _ (env : Env) where
  unfoldable pub delete_if_exists : Text → M (Unit {0})
  delete_if_exists key = do
    exists ← verify_object_exists env key
    if exists then delete_object env key else return tt

  unfoldable pub generate_upload_url_for_collab_command : Text → Text → Text → ℕ → M UploadUrl
  generate_upload_url_for_collab_command key file_name mime size = do
    assert_collab_object_key key
    now ← read_clock env
    reject_if (is_blocked_upload env (sanitize_stored_file_name env.unicode now file_name) mime)
        blocked_type
    reject_if (ltb max_bytes size) (app_error 413 "Archivo excede 25MB")
    emit (warmup_triggered "collab_upload_url")
    url ← create_upload_par env (quarantine_key key)
    return (record {
      upload_url = url;
      object_key = key;
      expires_in_seconds = env.doc_par_ttl_seconds;
    })

  -- From the end of the wait on.
  unfoldable pub check_metadata : Text → ℕ → Option ObjectMetadata → M ObjectMetadata
  check_metadata key size none = reject_unavailable env key
  check_metadata key size (some meta) = do
    reject_if (not (meta.size_bytes == size))
        (app_error 400 "El tamano del archivo no coincide con el declarado")
    return meta

  unfoldable pub resolve_metadata_for_collab_command : Text → Text → Text → ℕ → M ObjectMetadata
  resolve_metadata_for_collab_command key file_name mime size = do
    assert_collab_object_key key
    now ← read_clock env
    reject_if (is_blocked_upload env (sanitize_stored_file_name env.unicode now file_name) mime)
        blocked_type
    meta ← await_metadata env key
    check_metadata key size meta

  unfoldable pub get_access_url_for_collab_command : Text → Bool → M (Text × ℕ)
  get_access_url_for_collab_command key force_download = do
    exists ← verify_object_exists env key
    reject_if (not exists) (app_error 404 "Documento no encontrado")
    url ← create_private_document_url env key force_download
    return (url, 300)

  unfoldable pub delete_found_row : Option (Text × MediaAsset) → M (Unit {0})
  delete_found_row none = return tt
  delete_found_row (some (id, asset)) = remove_asset env id

  unfoldable pub audit_deletion : Option Actor → Text → Option (Text × MediaAsset) → M (Unit {0})
  audit_deletion none key row = return tt
  audit_deletion (some actor) key row =
      create_audit_log env (audit_of actor "file.deleted" key (audited_name key row))

  -- From the check that the document is known on.
  unfoldable pub delete_copies : Text → Option Actor → Option (Text × MediaAsset) → M (Unit {0})
  delete_copies key actor row = do
    delete_if_exists key
    delete_if_exists (quarantine_key key)
    delete_found_row row
    audit_deletion actor key row

  unfoldable pub delete_document_for_collab_command : Text → Option Actor → M (Unit {0})
  delete_document_for_collab_command key actor = do
    assert_collab_object_key key
    row ← find_document env key
    exists ← verify_object_exists env key
    quarantined ← verify_object_exists env (quarantine_key key)
    reject_if (not (is_some row) && (not exists && not quarantined))
        (app_error 404 "Documento no encontrado")
    delete_copies key actor row
