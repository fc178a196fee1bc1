-- ===== src/Storage.antt =====
-- src/shared/storage/oci-storage.ts over the client of the OCI SDK: the operations that the
-- services call, in the private bucket. `withRetry` of the shared contracts and the client are one
-- reply of the environment. The pruning of expired requests before a new one (oci-par-prune.ts) is
-- left out: its failures are caught and its calls touch no object.
pub mod Keeps
pub mod Requests
use crm_media.Base.{
  drop, suc, ℕ, ◌+◌, Bool, true, false, List, [], ◌∷◌, ◌++◌, Option, none, some, Text, codes,
  get_or, is_some, if◌then◌else◌,
}
use crm_media.FileValidation.Bytes.{Bytes}
use crm_media.FileValidation.Names.{last_index_of}
use crm_media.Effects.Defs.{
  Head, Event, namespace_read, object_headed, object_read, object_put, object_deleted, par_created,
  Trace, Env, Outcome, ok, M, ◌>>=◌, ◌>>◌, return, throw, thrown, catch, emit, done_or_throw,
  value_or_throw,
}

-- The metadata that the services read.
pub record ObjectMetadata : Type 0 where
  pub size_bytes : ℕ
  pub mime_type : Text

abbrev pub octet_stream : Text
octet_stream = codes "application/octet-stream"

-- `cachedNamespace` is set once a call has succeeded.
unfoldable pub has_namespace : Trace → Bool
has_namespace [] = false
has_namespace (namespace_read true ∷ t) = true
has_namespace (_ ∷ t) = has_namespace t

-- `key.split("/").at(-1)`
unfoldable pub last_segment : Text → Text
last_segment key = elim (last_index_of b'/' key) [ none ↦ key | some i ↦ drop (suc i) key ]

module _ (env : Env) where
  unfoldable pub read_namespace : M (Unit {0})
  read_namespace t =
      let found = env.namespace t in (emit (namespace_read found) >> done_or_throw found) t

  unfoldable pub get_namespace : M (Unit {0})
  get_namespace t = (if has_namespace t then return tt else read_namespace) t

  unfoldable pub head_object : Text → M (Option Head)
  head_object key t = let head = env.head_object t key in (ok head, object_headed key head ∷ t)

  -- `getObjectMetadata`: null when the request fails.
  unfoldable pub get_object_metadata : Text → M (Option ObjectMetadata)
  get_object_metadata key = do
    get_namespace
    head ← head_object key
    return (elim head [
      | none ↦ none
      | some h ↦ some (record {
        size_bytes = get_or h.content_length 0;
        mime_type = get_or h.content_type octet_stream;
      })
    ])

  unfoldable pub verify_object_exists : Text → M Bool
  verify_object_exists key = do get_namespace; head ← head_object key; return (is_some head)

  unfoldable pub get_object : Text → M (Option Bytes)
  get_object key t = let body = env.get_object t key in (ok body, object_read key body ∷ t)

  unfoldable pub get_object_buffer : Text → M Bytes
  get_object_buffer key = do get_namespace; body ← get_object key; value_or_throw body

  unfoldable pub put_object : Text → Bytes → Text → M (Unit {0})
  put_object key body mime t =
      let done = env.put_object t key body mime in
      (emit (object_put key body mime done) >> done_or_throw done) t

  unfoldable pub upload_private_document : Text → Bytes → Text → M (Unit {0})
  upload_private_document key body mime = do get_namespace; put_object key body mime

  unfoldable pub remove_object : Text → M (Unit {0})
  remove_object key t =
      let done = env.delete_object t key in (emit (object_deleted key done) >> done_or_throw done) t

  unfoldable pub delete_object : Text → M (Unit {0})
  delete_object key = do get_namespace; remove_object key

  unfoldable pub create_par : Text → Bool → M (Option (Option Text))
  create_par key write t =
      let par = env.create_par t key write in (ok par, par_created key write par ∷ t)

  -- A missing `accessUri` throws; so does an empty one.
  unfoldable pub access_uri : Option (Option Text) → M Text
  access_uri none = throw thrown
  access_uri (some none) = throw thrown
  access_uri (some (some [])) = throw thrown
  access_uri (some (some (c ∷ uri))) = return (c ∷ uri)

  unfoldable pub create_upload_par : Text → M Text
  create_upload_par key = do
    get_namespace
    par ← create_par key true
    uri ← access_uri par
    return (env.endpoint ++ uri)

  unfoldable pub create_private_document_url : Text → Bool → M Text
  create_private_document_url key force_download = do
    get_namespace
    par ← create_par key false
    uri ← access_uri par
    return (
        if force_download
        then env.endpoint
          ++ (uri
              ++ (codes "?response-content-disposition="
                  ++ env.encode_uri_component
                      (codes "attachment; filename=\"" ++ (last_segment key ++ codes "\""))))
        else env.endpoint ++ uri)
