-- ===== src/Media/Documents/Safe.antt =====
-- The confirmation of an upload writes only vetted objects, and it ends.
use crm_media.Base.{Bool, ◌∷◌, Option, none, some, Text}
use crm_media.Effects.Defs.{MediaAsset, AuditLog, asset_inserted, audit_logged, Trace, Env}
use crm_media.Effects.Triple.{bind, branch}
use crm_media.Effects.Keeps.{
  Keeps, Keeps-return, Keeps-throw, Keeps-emit, Keeps-done, Keeps-reject, after, Absorbs, is_read,
  reads_of_store,
}
use crm_media.Storage.{ObjectMetadata}
use crm_media.Storage.Keeps.{Keeps-get_object_metadata, Keeps-verify_object_exists}
use crm_media.Antivirus.Vetted.{AllVetted, AllVetted-reads}
use crm_media.Media.Promotion.Keeps.{promote-AllVetted}
use crm_media.Media.Upload.{Actor, create_audit_log, await_object, reject_unavailable}
use crm_media.Media.Upload.Keeps.{Keeps-read_clock, Keeps-await_object}
use crm_media.Media.Upload.Ends.{Clock, NeverExhausted, NeverExhausted-store, await_object-Done}
use crm_media.Media.Documents.{
  ConfirmPayload, insert_asset, register_upload, confirm_available, confirm_document_upload,
}

-- An invariant of the wait for the object that survives the insertion and its audit is one of the
-- whole confirmation.
module _ (env : Env) {I : Trace → Type 0} (reads : Absorbs is_read I)
    (inserts : (a : MediaAsset) (r : Bool) (t : Trace) → I t → I (asset_inserted a r ∷ t))
    (audits : (l : AuditLog) (r : Bool) (t : Trace) → I t → I (audit_logged l r ∷ t)) where
  pub Keeps-create_audit_log : (log : AuditLog) → Keeps I (create_audit_log env log)
  unfolding create_audit_log
  Keeps-create_audit_log log = record {
    run = λ t p.
        (bind (Keeps-emit _ (audits log (env.insert_audit_log t log)))
            λ _. Keeps-done (env.insert_audit_log t log)).run
          t p;
  }

  Keeps-insert_asset : (a : MediaAsset) → Keeps I (insert_asset env a)
  unfolding insert_asset
  Keeps-insert_asset a = record {
    run = λ t p.
        (bind (Keeps-emit _ (inserts a (env.insert_asset t a)))
            λ _. Keeps-done (env.insert_asset t a)).run
          t p;
  }

  module _ (actor : Actor) (payload : ConfirmPayload)
      (awaits : Keeps I (await_object env payload.object_key)) where
    Keeps-register_upload :
        (stored : Text) (meta : Option ObjectMetadata)
        → Keeps I (register_upload env actor payload stored meta)
    unfolding register_upload
    Keeps-register_upload stored none = Keeps-throw _
    Keeps-register_upload stored (some meta) =
        bind (Keeps-reject _ _)
          λ _. bind (Keeps-insert_asset _) λ _. bind (Keeps-create_audit_log _) λ _. Keeps-return _

    pub Keeps-confirm_document_upload : Keeps I (confirm_document_upload env actor payload)
    unfolding confirm_document_upload confirm_available reject_unavailable
    Keeps-confirm_document_upload = bind (Keeps-reject _ _) λ _.
        bind (Keeps-read_clock env reads) λ now. bind (Keeps-reject _ _) λ _. bind awaits λ exists.
          branch exists
            (bind (Keeps-get_object_metadata env reads payload.object_key)
              λ meta. Keeps-register_upload _ meta)
            (bind (Keeps-verify_object_exists env reads _) λ found. Keeps-throw _)

module _ (env : Env) (actor : Actor) (payload : ConfirmPayload) where
  -- If every object written before was vetted, so is every object written by the end of a
  -- confirmation: before the write its bytes had their magic numbers accepted, and were cleared by
  -- the scanner or by the record of their hash.
  pub confirm_document_upload-AllVetted :
      (t : Trace) → AllVetted env t → AllVetted env (confirm_document_upload env actor payload t).1
  confirm_document_upload-AllVetted t h =
      after
        (Keeps-confirm_document_upload env (AllVetted-reads env) (λ a r t p. p) (λ l r t p. p) actor
          payload
          (Keeps-await_object env (AllVetted-reads env) (promote-AllVetted env) (λ t p. p)
            payload.object_key))
        t h

  -- With a clock that never runs backwards and timers that never fire early, and from a trace on
  -- which no loop has run out of fuel, a confirmation never runs out of the ten rounds of its
  -- polling loop.
  pub confirm_document_upload-NeverExhausted :
      Clock env
      → (t : Trace) → NeverExhausted t
      → NeverExhausted (confirm_document_upload env actor payload t).1
  confirm_document_upload-NeverExhausted clock t h =
      after
        (Keeps-confirm_document_upload env (reads_of_store NeverExhausted-store) (λ a r t p. p)
          (λ l r t p. p) actor payload (await_object-Done env clock payload.object_key))
        t h
