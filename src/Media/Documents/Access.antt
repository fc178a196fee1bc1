-- ===== src/Media/Documents/Access.antt =====
-- Who may read and delete a document, and where an upload may go.
use crm_media.Base.{
  ℕ, ◌≡◌, refl, ap, ◌∙◌, ◌⊎◌, Bool, true, false, not, ◌∷◌, Option, none, some, Text, starts_with,
  ◌||◌, inl, inr, text_eq, codes, eq_of_text_eq, arith,
}
use crm_media.Effects.Defs.{
  app_error, MediaAsset, AuditLog, asset_deleted, object_deleted, document_found, audit_logged,
  Trace, Env, err, ◌>>=◌, return, throw, reject_if, emit, value_or_throw,
}
use crm_media.Effects.Triple.{
  Triple, Post, Anything, anything, bind, emitted, guard_eq, conclude, assume, returns,
}
use crm_media.Storage.{get_namespace, remove_object, delete_object}
use crm_media.Storage.Requests.{ReadIssued, create_private_document_url-ReadIssued}
use crm_media.Media.Upload.{Actor, create_audit_log}
use crm_media.Media.Documents.{
  user_prefix, audit_of, find_document, is_owner, owns_path_prefix, may_access,
  get_document_access_url, remove_asset, may_delete, delete_row, delete_document,
}

-- The actor owns the registered document, or no row has the key and it lies in the actor's folder.
abbrev pub Owns : Actor → MediaAsset → Type 0
Owns actor asset = (asset.user_id ≡ actor.user_id) ⊎ (asset.user_id ≡ actor.sub)

abbrev pub Entitled : Actor → Text → Option (Text × MediaAsset) → Type 0
Entitled actor key (some (id, asset)) = Owns actor asset
Entitled actor key none =
    (starts_with (user_prefix actor.user_id) key ≡ true)
    ⊎ (starts_with (user_prefix actor.sub) key ≡ true)

is_owner-Owns :
    (actor : Actor) (asset : MediaAsset) → is_owner actor asset ≡ true → Owns actor asset
unfolding is_owner
is_owner-Owns actor asset h =
    ground (arith, eq_of_text_eq asset.user_id actor.user_id, eq_of_text_eq asset.user_id actor.sub)

-- The owner of a document or an administrator.
abbrev pub MayDelete : Actor → MediaAsset → Type 0
MayDelete actor asset = Owns actor asset ⊎ (actor.role ≡ codes "admin")

may_delete-MayDelete :
    (actor : Actor) (asset : MediaAsset) → may_delete actor asset ≡ true → MayDelete actor asset
unfolding may_delete
may_delete-MayDelete actor asset h = go (is_owner actor asset) refl h
  where
    go :
        (b : Bool)
        → is_owner actor asset ≡ b
        → (b || text_eq actor.role (codes "admin")) ≡ true
        → MayDelete actor asset
    go true e h = inl (is_owner-Owns actor asset e)
    go false e h = inr (eq_of_text_eq actor.role (codes "admin") h)

refused-may_delete :
    (actor : Actor) (asset : MediaAsset)
    → (¬ MayDelete actor asset)
    → may_delete actor asset ≡ false
refused-may_delete actor asset refused = go (may_delete actor asset) refl
  where
    go : (b : Bool) → may_delete actor asset ≡ b → b ≡ false
    go true e = absurd (refused (may_delete-MayDelete actor asset e))
    go false e = refl

may_access-Entitled :
    (actor : Actor) (key : Text) (row : Option (Text × MediaAsset))
    → may_access actor key row ≡ true
    → Entitled actor key row
unfolding may_access owns_path_prefix
may_access-Entitled actor key none h = ground arith
may_access-Entitled actor key (some (id, asset)) h = is_owner-Owns actor asset h

module _ (env : Env) where
  find_document-found :
      (key : Text) (t : Trace)
      → Triple
          (λ t'. t' ≡ t)
          (find_document env key)
          (λ row t'. env.find_document t key ≡ some row)
          (λ _. Anything)
  unfolding find_document emit value_or_throw ◌>>=◌ return throw
  find_document-found key t = record { run = λ t' e. rw (e) (go (env.find_document t key) refl) }
    where
      go :
          (o : Option (Option (Text × MediaAsset)))
          → env.find_document t key ≡ o
          → Post
              (λ row t'. env.find_document t key ≡ some row)
              (λ _. Anything)
              ((emit (document_found key o) >>= λ _. value_or_throw o) t)
      go none e = tt
      go (some row) e = e

  -- The row that the query for the key returned entitles the actor, and the answer is the address of
  -- a request to read that key, which was created as the last call.
  abbrev pub Issued : Actor → Text → Bool → Trace → Text × ℕ → Trace → Type 0
  Issued actor key force t answer t' =
      ((row : Option (Text × MediaAsset)) × (env.find_document t key ≡ some row)
        × Entitled actor key row)
      × ReadIssued env key force answer.0 t'
      × (answer.1 ≡ 300)

  -- When an actor asks for the address of a document and gets one, it is the address of a request to
  -- read the object under that key, created as the last call, with the key's file name for a
  -- download, and the actor is entitled to it: the row that the query for the key returned is owned
  -- by the actor or, if there is none, the key lies in the actor's folder.
  pub get_document_access_url-Entitled :
      (actor : Actor) (key : Text) (force : Bool) (t : Trace)
      → Post
          (Issued actor key force t)
          (λ _. Anything)
          (get_document_access_url env actor key force t)
  unfolding get_document_access_url
  get_document_access_url-Entitled actor key force t =
      (bind (find_document-found key t) λ row. assume λ found.
          guard_eq (not (may_access actor key row)) _ (λ t p. tt)
            λ refused.
              let allowed : may_access actor key row ≡ true = ground arith in
              bind (create_private_document_url-ReadIssued env key force) λ url.
                returns (url, 300)
                  λ t' p. ((row, found, may_access-Entitled actor key row allowed), p, refl)).run
        t refl

  -- What a deletion by an allowed actor leaves on the trace: the object, the row, the audit.
  abbrev pub Deleted : Actor → Text → Text → MediaAsset → Trace → Type 0
  Deleted actor key id asset t' =
      (t : Trace) × (t'
        ≡ audit_logged (audit_of actor "file.deleted" key asset.original_name) true
          ∷ asset_deleted id true
          ∷ object_deleted key true
          ∷ t)

  delete_row-Deleted :
      (actor : Actor) (key id : Text) (asset : MediaAsset)
      → Triple Anything
          (delete_row env actor key (some (id, asset)))
          (λ _ t'. MayDelete actor asset × Deleted actor key id asset t')
          (λ _. Anything)
  unfolding delete_row delete_object remove_object remove_asset create_audit_log
  delete_row-Deleted actor key id asset =
      guard_eq (not (may_delete actor asset)) _ (λ t p. tt)
        λ refused.
          let allowed : may_delete actor asset ≡ true = ground arith in
          bind
            (bind (anything (get_namespace env))
              λ _. emitted (object_deleted key) (λ t. env.delete_object t key))
            λ _. bind (emitted (asset_deleted id) (λ t. env.delete_asset t id)) λ _.
              conclude (emitted (audit_logged log) (λ t. env.insert_audit_log t log))
                (λ a t p.
                  let (t2, e2, (t1, e1, (t0, e0, _))) = p in
                  (
                    may_delete-MayDelete actor asset allowed,
                    (
                      t0,
                      e2
                          ∙ ap (λ r. audit_logged log true ∷ r)
                              (e1 ∙ ap (λ r. asset_deleted id true ∷ r) e0),
                    ),
                  ))
                (λ e t p. tt)
    where
      log : AuditLog
      log = audit_of actor "file.deleted" key asset.original_name

  -- The specification of a deletion by the row that the query returned.
  abbrev pub DeleteSpec : Actor → Text → Trace → Option (Text × MediaAsset) → Type 0
  DeleteSpec actor key t none =
      delete_document env actor key t
      ≡ (err (app_error 404 "Documento no encontrado"), document_found key (some none) ∷ t)
  DeleteSpec actor key t (some (id, asset)) =
      Post (λ _ t'. MayDelete actor asset × Deleted actor key id asset t') (λ _. Anything)
        (delete_document env actor key t)
      × ((¬ MayDelete actor asset)
          → delete_document env actor key t ≡ (
            err (app_error 403 "No autorizado para eliminar este documento"),
            document_found key (some (some (id, asset))) ∷ t,
          ))

  -- The deletion of a document by its row: without a row the status is 404 and to an actor that is
  -- neither the owner nor an administrator it is 403, and in both cases nothing but the query has
  -- happened; a deletion that returns was allowed and has removed the object and then the row, and
  -- logged it.
  pub delete_document-DeleteSpec :
      (actor : Actor) (key : Text) (t : Trace) (row : Option (Text × MediaAsset))
      → env.find_document t key ≡ some row
      → DeleteSpec actor key t row
  unfolding delete_document find_document emit value_or_throw return throw ◌>>=◌ delete_row
      reject_if
  delete_document-DeleteSpec actor key t none found = ground arith
  delete_document-DeleteSpec actor key t (some (id, asset)) found = (
    rw (found) ((delete_row-Deleted actor key id asset).run _ tt),
    λ refused. rw (found) (rw (refused-may_delete actor asset refused) refl),
  )
