-- ===== src/Media/Documents.antt =====
-- src/modules/media/document.service.ts: the documents of a user.
pub mod Confirm
pub mod Safe
pub mod Access
pub mod Issue
pub mod Erase
pub mod Removals
use crm_media.Base.{
  ℕ, Bool, true, false, ◌&&◌, ◌||◌, not, List, [], ◌∷◌, ◌++◌, Option, none, some, Text, codes,
  String, ltb, ◌==◌, text_eq, starts_with, if◌then◌else◌,
}
use crm_media.Effects.Defs.{
  Failure, app_error, thrown, MediaKind, document, MediaAsset, AuditLog, Event, warmup_triggered,
  asset_inserted, asset_deleted, document_found, user_assets_found, user_assets_deleted,
  user_avatar_deleted, logs_anonymized, Trace, Env, Outcome, ok, M, ◌>>=◌, ◌>>◌, return, throw,
  catch, reject_if, emit, done_or_throw, value_or_throw,
}
use crm_media.Sanitize.{sanitize_stored_file_name, sanitize_file_name_for_object_key}
use crm_media.Storage.{
  ObjectMetadata, verify_object_exists, get_object_metadata, create_upload_par,
  create_private_document_url, delete_object,
}
use crm_media.Media.Promotion.{quarantine_key}
use crm_media.Media.Upload.{
  Actor, max_bytes, blocked_type, read_clock, draw_uuid, create_audit_log, is_blocked_upload,
  await_object, reject_unavailable,
}

pub record UploadUrl : Type 0 where
  pub upload_url : Text
  pub object_key : Text
  pub expires_in_seconds : ℕ

pub record ConfirmPayload : Type 0 where
  pub object_key : Text
  pub file_name : Text
  pub mime_type : Text
  pub size_bytes : ℕ

-- `documents/${userId}/`
abbrev pub user_prefix : Text → Text
user_prefix user_id = codes "documents/" ++ (user_id ++ codes "/")

-- `documents/${userId}/${uuid}-${safeFileName}`
abbrev pub new_object_key : Text → Text → Text → Text
new_object_key user_id uuid safe = user_prefix user_id ++ (uuid ++ (codes "-" ++ safe))

abbrev pub new_asset : Actor → ConfirmPayload → Text → ℕ → MediaAsset
new_asset actor payload stored size = record {
  user_id = actor.user_id;
  kind = document;
  object_key = payload.object_key;
  original_name = stored;
  mime_type = payload.mime_type;
  size_bytes = size;
}

abbrev pub audit_of : Actor → String → Text → Text → AuditLog
audit_of actor action key name = record {
  actor_sub = actor.sub;
  actor_email = actor.email;
  actor_role = actor.role;
  action = action;
  resource_id = key;
  original_name = name;
}

-- `asset.userId === actor.userId || asset.userId === actor.sub`
unfoldable pub is_owner : Actor → MediaAsset → Bool
is_owner actor asset = text_eq asset.user_id actor.user_id || text_eq asset.user_id actor.sub

unfoldable pub owns_path_prefix : Actor → Text → Bool
owns_path_prefix actor key =
    starts_with (user_prefix actor.user_id) key || starts_with (user_prefix actor.sub) key

unfoldable pub may_access : Actor → Text → Option (Text × MediaAsset) → Bool
may_access actor key none = owns_path_prefix actor key
may_access actor key (some (id, asset)) = is_owner actor asset

unfoldable pub may_delete : Actor → MediaAsset → Bool
may_delete actor asset = is_owner actor asset || text_eq actor.role (codes "admin")

module _ (env : Env) where
  unfoldable pub generate_document_upload_url : Text → Text → Text → ℕ → M UploadUrl
  generate_document_upload_url user_id file_name mime size = do
    now ← read_clock env
    let stored = sanitize_stored_file_name env.unicode now file_name
    reject_if (is_blocked_upload env stored mime) blocked_type
    reject_if (ltb max_bytes size) (app_error 413 "Archivo excede 25MB")
    uuid ← draw_uuid env
    let key = new_object_key user_id uuid (sanitize_file_name_for_object_key env.unicode now stored)
    emit (warmup_triggered "personal_upload_url")
    url ← create_upload_par env (quarantine_key key)
    return (record {
      upload_url = url;
      object_key = key;
      expires_in_seconds = env.doc_par_ttl_seconds;
    })

  unfoldable pub insert_asset : MediaAsset → M (Unit {0})
  insert_asset asset t =
      let done = env.insert_asset t asset in
      (emit (asset_inserted asset done) >> done_or_throw done) t

  -- From the metadata on: the size, the row, the audit.
  unfoldable pub register_upload : Actor → ConfirmPayload → Text → Option ObjectMetadata → M Text
  register_upload actor payload stored none =
      throw (app_error 422 "No se pudo leer metadata del archivo en producción")
  register_upload actor payload stored (some meta) = do
    reject_if (not (meta.size_bytes == payload.size_bytes))
        (app_error 400 "El tamaño del archivo no coincide con el declarado")
    insert_asset (new_asset actor payload stored meta.size_bytes)
    create_audit_log env (audit_of actor "file.uploaded" payload.object_key stored)
    return payload.object_key

  unfoldable pub confirm_available : Actor → ConfirmPayload → Text → Bool → M Text
  confirm_available actor payload stored exists =
      if exists
      then (do
        meta ← get_object_metadata env payload.object_key
        register_upload actor payload stored meta)
      else reject_unavailable env payload.object_key

  unfoldable pub confirm_document_upload : Actor → ConfirmPayload → M Text
  confirm_document_upload actor payload = do
    reject_if (not (starts_with (user_prefix actor.user_id) payload.object_key))
        (app_error 403 "El objectKey no pertenece a este usuario")
    now ← read_clock env
    let stored = sanitize_stored_file_name env.unicode now payload.file_name
    reject_if (is_blocked_upload env stored payload.mime_type) blocked_type
    exists ← await_object env payload.object_key
    confirm_available actor payload stored exists

  -- The row of a document by its key, with its id.
  unfoldable pub find_document : Text → M (Option (Text × MediaAsset))
  find_document key t =
      let reply = env.find_document t key in
      (emit (document_found key reply) >> value_or_throw reply) t

  unfoldable pub get_document_access_url : Actor → Text → Bool → M (Text × ℕ)
  get_document_access_url actor key force_download = do
    row ← find_document key
    reject_if (not (may_access actor key row))
        (app_error 403 "No autorizado para acceder a este documento")
    url ← create_private_document_url env key force_download
    return (url, 300)

  unfoldable pub remove_asset : Text → M (Unit {0})
  remove_asset id t =
      let done = env.delete_asset t id in (emit (asset_deleted id done) >> done_or_throw done) t

  unfoldable pub delete_row : Actor → Text → Option (Text × MediaAsset) → M (Unit {0})
  delete_row actor key none = throw (app_error 404 "Documento no encontrado")
  delete_row actor key (some (id, asset)) = do
    reject_if (not (may_delete actor asset))
        (app_error 403 "No autorizado para eliminar este documento")
    delete_object env key
    remove_asset id
    create_audit_log env (audit_of actor "file.deleted" key asset.original_name)

  unfoldable pub delete_document : Actor → Text → M (Unit {0})
  delete_document actor key = do row ← find_document key; delete_row actor key row

  unfoldable pub find_user_assets : Text → M (List (Text × MediaAsset))
  find_user_assets user_sub t =
      let reply = env.find_user_assets t user_sub in
      (emit (user_assets_found user_sub reply) >> value_or_throw reply) t

  -- The loop: the failure of a deletion is logged and the next object follows.
  unfoldable pub delete_objects : List (Text × MediaAsset) → M (Unit {0})
  delete_objects [] = return tt
  delete_objects ((id, asset) ∷ assets) = do
    catch (delete_object env asset.object_key) (λ e. return tt)
    delete_objects assets

  unfoldable pub delete_user_rows : Text → List (Text × MediaAsset) → M (Unit {0})
  delete_user_rows user_sub [] = return tt
  delete_user_rows user_sub (asset ∷ assets) = λ t.
      let done = env.delete_user_assets t user_sub in
      (emit (user_assets_deleted user_sub done) >> done_or_throw done) t

  -- `.catch(() => undefined)`
  unfoldable pub delete_avatar_row : Text → M (Unit {0})
  delete_avatar_row user_sub t =
      emit (user_avatar_deleted user_sub (env.delete_user_avatar t user_sub)) t

  unfoldable pub anonymize_audit_logs : Text → M (Unit {0})
  anonymize_audit_logs user_sub t =
      let anon_email = codes "anon-" ++ (user_sub ++ codes "@cima.internal") in
      let done = env.anonymize_logs t user_sub anon_email in
      (emit (logs_anonymized user_sub anon_email done) >> done_or_throw done) t

  unfoldable pub anonymize_user_pii : Text → M (Unit {0})
  anonymize_user_pii user_sub = do
    assets ← find_user_assets user_sub
    delete_objects assets
    delete_user_rows user_sub assets
    delete_avatar_row user_sub
    anonymize_audit_logs user_sub
