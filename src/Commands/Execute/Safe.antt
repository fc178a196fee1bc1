-- ===== src/Commands/Execute/Safe.antt =====
-- What holds of every command that is executed.
use crm_media.Base.{ℕ, refl, Bool, Option, none, some, Text, ◌∷◌}
use crm_media.Effects.Defs.{
  object_deleted, asset_deleted, audit_logged, AuditLog, document_found, MediaAsset, Trace, Env,
}
use crm_media.Effects.Triple.{bind, branch}
use crm_media.Effects.Keeps.{
  Keeps, Keeps-return, Keeps-emit, Keeps-done, Keeps-value, Keeps-reject, after, Absorbs, is_read,
  reads_of_store,
}
use crm_media.Storage.Keeps.{
  Keeps-verify_object_exists, Keeps-create_upload_par, Keeps-create_private_document_url,
  Keeps-delete_object,
}
use crm_media.Antivirus.Vetted.{AllVetted, AllVetted-reads}
use crm_media.Media.Promotion.Keeps.{promote-AllVetted}
use crm_media.Media.Promotion.{quarantine_key}
use crm_media.Media.Upload.{Actor, create_audit_log, await_metadata}
use crm_media.Media.Upload.Keeps.{Keeps-read_clock, Keeps-await_metadata}
use crm_media.Media.Upload.Ends.{Clock, NeverExhausted, NeverExhausted-store, await_metadata-Done}
use crm_media.Media.Documents.{find_document, remove_asset}
use crm_media.Media.Collab.{
  assert_collab_object_key, delete_if_exists, generate_upload_url_for_collab_command,
  get_access_url_for_collab_command, delete_found_row, audit_deletion, delete_copies,
  delete_document_for_collab_command,
}
use crm_media.Media.Collab.Resolve.{Keeps-resolve}
use crm_media.Commands.{
  Request, upload_url_requested, metadata_requested, access_requested, delete_requested,
  MediaCommand,
}
use crm_media.Commands.Execute.{answer_request, execute_command}

-- An invariant of the wait for an object that survives the deletions and their audit is one of
-- every command.
module _ (env : Env) {I : Trace → Type 0} (reads : Absorbs is_read I)
    (removals : (key : Text) (r : Bool) (t : Trace) → I t → I (object_deleted key r ∷ t))
    (rows : (id : Text) (r : Bool) (t : Trace) → I t → I (asset_deleted id r ∷ t))
    (audits : (l : AuditLog) (r : Bool) (t : Trace) → I t → I (audit_logged l r ∷ t)) where
  Keeps-delete_if_exists : (key : Text) → Keeps I (delete_if_exists env key)
  unfolding delete_if_exists
  Keeps-delete_if_exists key =
      bind (Keeps-verify_object_exists env reads key)
        λ exists. branch exists (Keeps-delete_object env reads key (removals key)) (Keeps-return tt)

  Keeps-delete_found_row : (row : Option (Text × MediaAsset)) → Keeps I (delete_found_row env row)
  unfolding delete_found_row remove_asset
  Keeps-delete_found_row none = Keeps-return tt
  Keeps-delete_found_row (some (id, asset)) = record {
    run = λ t p.
        (bind (Keeps-emit _ (rows id (env.delete_asset t id)))
            λ _. Keeps-done (env.delete_asset t id)).run
          t p;
  }

  Keeps-audit_deletion :
      (actor : Option Actor) (key : Text) (row : Option (Text × MediaAsset))
      → Keeps I (audit_deletion env actor key row)
  unfolding audit_deletion create_audit_log
  Keeps-audit_deletion none key row = Keeps-return tt
  Keeps-audit_deletion (some actor) key row = record {
    run = λ t p.
        (bind (Keeps-emit _ (audits _ (env.insert_audit_log t _)))
            λ _. Keeps-done (env.insert_audit_log t _)).run
          t p;
  }

  Keeps-find_document : (key : Text) → Keeps I (find_document env key)
  unfolding find_document
  Keeps-find_document key = record {
    run = λ t p.
        (bind (Keeps-emit (document_found key (env.find_document t key)) (reads.apply _ refl))
            λ _. Keeps-value (env.find_document t key)).run
          t p;
  }

  Keeps-delete_document :
      (key : Text) (actor : Option Actor)
      → Keeps I (delete_document_for_collab_command env key actor)
  unfolding delete_document_for_collab_command delete_copies assert_collab_object_key
  Keeps-delete_document key actor = bind (Keeps-reject _ _) λ _.
      bind (Keeps-find_document key) λ row.
        bind (Keeps-verify_object_exists env reads key) λ exists.
          bind (Keeps-verify_object_exists env reads (quarantine_key key)) λ quarantined.
            bind (Keeps-reject _ _) λ _. bind (Keeps-delete_if_exists key) λ _.
              bind (Keeps-delete_if_exists (quarantine_key key))
                λ _. bind (Keeps-delete_found_row row) λ _. Keeps-audit_deletion actor key row

  Keeps-generate :
      (key file_name mime : Text) (size : ℕ)
      → Keeps I (generate_upload_url_for_collab_command env key file_name mime size)
  unfolding generate_upload_url_for_collab_command assert_collab_object_key
  Keeps-generate key file_name mime size = bind (Keeps-reject _ _) λ _.
      bind (Keeps-read_clock env reads) λ now. bind (Keeps-reject _ _) λ _.
        bind (Keeps-reject _ _) λ _.
          bind (Keeps-emit _ (reads.apply _ refl))
            λ _. bind (Keeps-create_upload_par env reads (quarantine_key key)) λ url. Keeps-return _

  Keeps-access :
      (key : Text) (force : Bool) → Keeps I (get_access_url_for_collab_command env key force)
  unfolding get_access_url_for_collab_command
  Keeps-access key force = bind (Keeps-verify_object_exists env reads key) λ exists.
      bind (Keeps-reject _ _)
        λ _. bind (Keeps-create_private_document_url env reads key force) λ url. Keeps-return _

  module _ (awaits : (key : Text) → Keeps I (await_metadata env key)) where
    Keeps-answer_request :
        (key : Text) (request : Request) → Keeps I (answer_request env key request)
    unfolding answer_request
    Keeps-answer_request key (upload_url_requested file_name mime size) =
        bind (Keeps-generate key file_name mime size) λ upload. Keeps-return _
    Keeps-answer_request key (metadata_requested file_name mime size) =
        bind (Keeps-resolve env key file_name mime size reads (awaits key)) λ meta. Keeps-return _
    Keeps-answer_request key (access_requested force) =
        bind (Keeps-access key force) λ access. Keeps-return _
    Keeps-answer_request key (delete_requested actor) =
        bind (Keeps-delete_document key actor) λ _. Keeps-return _

    Keeps-execute_command : (command : MediaCommand) → Keeps I (execute_command env command)
    unfolding execute_command
    Keeps-execute_command command =
        bind (Keeps-answer_request command.object_key command.request) λ answer. Keeps-return _

module _ (env : Env) (command : MediaCommand) where
  -- If every object written before was vetted, so is every object written by the end of a command,
  -- of whatever type.
  pub execute_command-AllVetted :
      (t : Trace) → AllVetted env t → AllVetted env (execute_command env command t).1
  execute_command-AllVetted t h =
      after
        (Keeps-execute_command env (AllVetted-reads env) (λ k r t p. p) (λ i r t p. p)
          (λ l r t p. p)
          (Keeps-await_metadata env (AllVetted-reads env) (promote-AllVetted env) (λ t p. p))
          command)
        t h

  -- With a clock that never runs backwards and timers that never fire early, and from a trace on
  -- which no loop has run out of fuel, no command runs out of the rounds of a polling loop.
  pub execute_command-NeverExhausted :
      Clock env → (t : Trace) → NeverExhausted t → NeverExhausted (execute_command env command t).1
  execute_command-NeverExhausted clock t h =
      after
        (Keeps-execute_command env (reads_of_store NeverExhausted-store) (λ k r t p. p)
          (λ i r t p. p) (λ l r t p. p) (await_metadata-Done env clock) command)
        t h
