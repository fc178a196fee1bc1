-- ===== src/Commands/Execute.antt =====
-- `executeCommand` of src/workers/media-command-processor.ts over the services on documents.
pub mod Safe
use crm_media.Base.{ℕ, Bool, Option, none, some, Text}
use crm_media.Effects.Defs.{Env, M, ◌>>=◌, ◌>>◌, return}
use crm_media.Storage.{ObjectMetadata}
use crm_media.Media.Upload.{Actor}
use crm_media.Media.Documents.{UploadUrl}
use crm_media.Media.Collab.{
  generate_upload_url_for_collab_command, resolve_metadata_for_collab_command,
  get_access_url_for_collab_command, delete_document_for_collab_command,
}
use crm_media.Commands.{
  Request, upload_url_requested, metadata_requested, access_requested, delete_requested,
  MediaCommand,
}

-- The answer by its type, with the fields of that type.
pub data Answer : Type 0 where
  upload_url_created : Text → ℕ → Answer
  metadata_resolved : ℕ → Text → Answer
  access_granted : Text → ℕ → Answer
  deleted : Answer

pub record Response : Type 0 where
  pub correlation_id : Text
  pub object_key : Text
  pub answer : Answer

module _ (env : Env) where
  unfoldable pub answer_request : Text → Request → M Answer
  answer_request key (upload_url_requested file_name mime size) = do
    upload ← generate_upload_url_for_collab_command env key file_name mime size
    return (upload_url_created upload.upload_url upload.expires_in_seconds)
  answer_request key (metadata_requested file_name mime size) = do
    meta ← resolve_metadata_for_collab_command env key file_name mime size
    return (metadata_resolved meta.size_bytes meta.mime_type)
  answer_request key (access_requested force_download) = do
    access ← get_access_url_for_collab_command env key force_download
    return (access_granted access.0 access.1)
  answer_request key (delete_requested actor) = do
    delete_document_for_collab_command env key actor
    return deleted

  unfoldable pub execute_command : MediaCommand → M Response
  execute_command command = do
    answer ← answer_request command.object_key command.request
    return (record {
      correlation_id = command.correlation_id;
      object_key = command.object_key;
      answer = answer;
    })
