-- ===== src/Storage/Keeps.antt =====
-- Invariants of the trace under the operations of the storage: reading keeps what survives reads,
-- a write or a removal keeps what survives its own event too.
use crm_media.Base.{refl, Bool, true, false, Option, none, some, Text, [], ◌∷◌}
use crm_media.FileValidation.Bytes.{Bytes}
use crm_media.Effects.Defs.{namespace_read, object_put, object_deleted, Trace, Env, thrown}
use crm_media.Effects.Triple.{bind, branch}
use crm_media.Effects.Keeps.{
  Keeps, Keeps-return, Keeps-throw, Keeps-emit, Keeps-done, Keeps-value, Absorbs, is_read,
}
use crm_media.Storage.{
  get_namespace, read_namespace, has_namespace, head_object, get_object, put_object, remove_object,
  create_par, access_uri, get_object_metadata, verify_object_exists, get_object_buffer,
  upload_private_document, delete_object, create_upload_par, create_private_document_url,
}

module _ (env : Env) {I : Trace → Type 0} (reads : Absorbs is_read I) where
  Keeps-read_namespace : Keeps I (read_namespace env)
  unfolding read_namespace
  Keeps-read_namespace = record {
    run = λ t p.
        (bind (Keeps-emit (namespace_read (env.namespace t)) (reads.apply _ refl))
            λ _. Keeps-done (env.namespace t)).run
          t p;
  }

  pub Keeps-get_namespace : Keeps I (get_namespace env)
  unfolding get_namespace
  Keeps-get_namespace = record {
    run = λ t p. (branch (has_namespace t) (Keeps-return tt) Keeps-read_namespace).run t p;
  }

  Keeps-head_object : (key : Text) → Keeps I (head_object env key)
  unfolding head_object
  Keeps-head_object key = record { run = λ t p. reads.apply _ refl t p }

  Keeps-get_object : (key : Text) → Keeps I (get_object env key)
  unfolding get_object
  Keeps-get_object key = record { run = λ t p. reads.apply _ refl t p }

  Keeps-create_par : (key : Text) (write : Bool) → Keeps I (create_par env key write)
  unfolding create_par
  Keeps-create_par key write = record { run = λ t p. reads.apply _ refl t p }

  Keeps-access_uri : (par : Option (Option Text)) → Keeps I (access_uri env par)
  unfolding access_uri
  Keeps-access_uri none = Keeps-throw thrown
  Keeps-access_uri (some none) = Keeps-throw thrown
  Keeps-access_uri (some (some [])) = Keeps-throw thrown
  Keeps-access_uri (some (some (c ∷ uri))) = Keeps-return (c ∷ uri)

  pub Keeps-get_object_metadata : (key : Text) → Keeps I (get_object_metadata env key)
  unfolding get_object_metadata
  Keeps-get_object_metadata key =
      bind Keeps-get_namespace λ _. bind (Keeps-head_object key) λ head. Keeps-return _

  pub Keeps-verify_object_exists : (key : Text) → Keeps I (verify_object_exists env key)
  unfolding verify_object_exists
  Keeps-verify_object_exists key =
      bind Keeps-get_namespace λ _. bind (Keeps-head_object key) λ head. Keeps-return _

  pub Keeps-get_object_buffer : (key : Text) → Keeps I (get_object_buffer env key)
  unfolding get_object_buffer
  Keeps-get_object_buffer key =
      bind Keeps-get_namespace λ _. bind (Keeps-get_object key) λ body. Keeps-value body

  pub Keeps-create_upload_par : (key : Text) → Keeps I (create_upload_par env key)
  unfolding create_upload_par
  Keeps-create_upload_par key =
      bind Keeps-get_namespace λ _.
        bind (Keeps-create_par key true) λ par. bind (Keeps-access_uri par) λ uri. Keeps-return _

  pub Keeps-create_private_document_url :
      (key : Text) (force : Bool) → Keeps I (create_private_document_url env key force)
  unfolding create_private_document_url
  Keeps-create_private_document_url key force = bind Keeps-get_namespace λ _.
      bind (Keeps-create_par key false) λ par. bind (Keeps-access_uri par) λ uri. Keeps-return _

  pub Keeps-upload_private_document :
      (key : Text) (body : Bytes) (mime : Text)
      → ((r : Bool) (t : Trace) → I t → I (object_put key body mime r ∷ t))
      → Keeps I (upload_private_document env key body mime)
  unfolding upload_private_document put_object
  Keeps-upload_private_document key body mime puts = bind Keeps-get_namespace λ _. record {
    run = λ t p.
        (bind (Keeps-emit _ (puts (env.put_object t key body mime)))
            λ _. Keeps-done (env.put_object t key body mime)).run
          t p;
  }

  pub Keeps-delete_object :
      (key : Text)
      → ((r : Bool) (t : Trace) → I t → I (object_deleted key r ∷ t))
      → Keeps I (delete_object env key)
  unfolding delete_object remove_object
  Keeps-delete_object key deletes = bind Keeps-get_namespace λ _. record {
    run = λ t p.
        (bind (Keeps-emit _ (deletes (env.delete_object t key)))
            λ _. Keeps-done (env.delete_object t key)).run
          t p;
  }
