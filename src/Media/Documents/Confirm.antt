-- ===== src/Media/Documents/Confirm.antt =====
-- The confirmation of an upload: what it registers.
use crm_media.Base.{
  ℕ, ◌≡◌, refl, Bool, true, false, not, List, [], ◌∷◌, Option, none, some, Text, starts_with, ◌==◌,
  arith, ap, ◌∙◌,
}
use crm_media.Effects.Defs.{
  Failure, app_error, thrown, unfinished, MediaAsset, document, AuditLog, Event, asset_inserted,
  audit_logged, Trace, Env, M, ◌>>=◌, return, throw, emit, done_or_throw,
}
use crm_media.Effects.Triple.{Triple, Post, bind, returns, throws, guard_eq, conclude}
use crm_media.Effects.Keeps.{Keeps, Absorbs, is_read, is_store, reads_of_store}
use crm_media.Sanitize.{sanitize_stored_file_name}
use crm_media.Storage.{ObjectMetadata}
use crm_media.Storage.Keeps.{Keeps-get_object_metadata, Keeps-verify_object_exists}
use crm_media.Media.Promotion.Keeps.{Keeps-promote}
use crm_media.Media.Upload.{Actor, create_audit_log, is_blocked_upload, reject_unavailable}
use crm_media.Media.Upload.Keeps.{Keeps-read_clock, Keeps-await_object}
use crm_media.Media.Documents.{
  ConfirmPayload, user_prefix, new_asset, insert_asset, register_upload, confirm_available,
  confirm_document_upload,
}

-- The rows that were inserted, the latest at the head.
abbrev pub inserted : Trace → List MediaAsset
inserted [] = []
inserted (asset_inserted a true ∷ t) = a ∷ inserted t
inserted (_ ∷ t) = inserted t

abbrev Rows : List MediaAsset → Trace → Type 0
Rows rows t = inserted t ≡ rows

Rows-store : (rows : List MediaAsset) → Absorbs is_store (Rows rows)
Rows-store rows = record { apply = go }
  where
    go : (e : Event) → is_store e ≡ true → (t : Trace) → Rows rows t → Rows rows (e ∷ t)
    go (asset_inserted a r) h t p = absurd (cc)
    go _ h t p = p

module _ (env : Env) (actor : Actor) (payload : ConfirmPayload) where
  -- The row of a confirmed upload: the declared key and type, the size of the stored object.
  pub record IsRegistered (rows : List MediaAsset) (t : Trace) : Type 0 where
    pub now : ℕ
    pub stored : Text
    pub stored_name : stored ≡ sanitize_stored_file_name env.unicode now payload.file_name
    pub own_key : starts_with (user_prefix actor.user_id) payload.object_key ≡ true
    pub allowed : is_blocked_upload env stored payload.mime_type ≡ false
    pub asset : MediaAsset
    pub is_asset : asset ≡ record {
      user_id = actor.user_id;
      kind = document;
      object_key = payload.object_key;
      original_name = stored;
      mime_type = payload.mime_type;
      size_bytes = payload.size_bytes;
    }
    pub row : inserted t ≡ asset ∷ rows

  -- An answer of the service leaves the rows; any other exception says nothing.
  abbrev pub RowsIfAnswered : List MediaAsset → Failure → Trace → Type 0
  RowsIfAnswered rows (app_error s m) t = inserted t ≡ rows
  RowsIfAnswered rows thrown t = Unit
  RowsIfAnswered rows unfinished t = Unit

  answered :
      (rows : List MediaAsset) (e : Failure) (t : Trace) → Rows rows t → RowsIfAnswered rows e t
  answered rows (app_error s m) t p = p
  answered rows thrown t p = tt
  answered rows unfinished t p = tt

  module _ (rows : List MediaAsset) where
    insert_asset-inserted :
        (a : MediaAsset)
        → Triple (Rows rows) (insert_asset env a) (λ _. Rows (a ∷ rows)) (RowsIfAnswered rows)
    unfolding insert_asset emit done_or_throw ◌>>=◌ return throw
    insert_asset-inserted a = record { run = λ t p. go (env.insert_asset t a) t p }
      where
        go :
            (b : Bool) (t : Trace)
            → Rows rows t
            → Post
                (λ _. Rows (a ∷ rows))
                (RowsIfAnswered rows)
                (done_or_throw b (asset_inserted a b ∷ t))
        go true t p = ap (λ r. a ∷ r) p
        go false t p = tt

    create_audit_log-inserted :
        (log : AuditLog) (all : List MediaAsset)
        → Triple (Rows all) (create_audit_log env log) (λ _. Rows all) (RowsIfAnswered rows)
    unfolding create_audit_log emit done_or_throw ◌>>=◌ return throw
    create_audit_log-inserted log all = record { run = λ t p. go (env.insert_audit_log t log) t p }
      where
        go :
            (b : Bool) (t : Trace)
            → Rows all t
            → Post (λ _. Rows all) (RowsIfAnswered rows) (done_or_throw b (audit_logged log b ∷ t))
        go true t p = p
        go false t p = tt

    register_upload-inserted :
        (stored : Text) (meta : Option ObjectMetadata)
        → starts_with (user_prefix actor.user_id) payload.object_key ≡ true
        → is_blocked_upload env stored payload.mime_type ≡ false
        → (now : ℕ) → stored ≡ sanitize_stored_file_name env.unicode now payload.file_name
        → Triple
            (Rows rows)
            (register_upload env actor payload stored meta)
            (λ key t. (key ≡ payload.object_key) × IsRegistered rows t)
            (RowsIfAnswered rows)
    unfolding register_upload
    register_upload-inserted stored none own allowed now name = throws _ (λ t p. p)
    register_upload-inserted stored (some meta) own allowed now name =
        guard_eq (not (meta.size_bytes == payload.size_bytes)) _ (λ t p. p)
          λ same.
            let size : meta.size_bytes ≡ payload.size_bytes = ground arith in
            let asset = new_asset actor payload stored meta.size_bytes in
            let named : asset ≡ new_asset actor payload stored payload.size_bytes =
              ap (new_asset actor payload stored) size in
            bind (insert_asset-inserted asset) λ _.
              bind (create_audit_log-inserted _ (asset ∷ rows)) λ _. returns _ (λ t p. (
                refl,
                record {
                  now = now;
                  stored = stored;
                  stored_name = name;
                  own_key = own;
                  allowed = allowed;
                  asset = new_asset actor payload stored payload.size_bytes;
                  is_asset = refl;
                  row = p ∙ ap (λ a. a ∷ rows) named;
                },
              ))

    reads : Absorbs is_read (Rows rows)
    reads = reads_of_store (Rows-store rows)

    kept :
        {A : Type 0} {m : M A}
        → Keeps (Rows rows) m
        → Triple (Rows rows) m (λ _. Rows rows) (RowsIfAnswered rows)
    kept h = conclude h (λ a t p. p) (answered rows)

    confirm_available-inserted :
        (stored : Text) (exists : Bool)
        → starts_with (user_prefix actor.user_id) payload.object_key ≡ true
        → is_blocked_upload env stored payload.mime_type ≡ false
        → (now : ℕ) → stored ≡ sanitize_stored_file_name env.unicode now payload.file_name
        → Triple
            (Rows rows)
            (confirm_available env actor payload stored exists)
            (λ key t. (key ≡ payload.object_key) × IsRegistered rows t)
            (RowsIfAnswered rows)
    unfolding confirm_available reject_unavailable
    confirm_available-inserted stored true own allowed now name =
        bind (kept (Keeps-get_object_metadata env reads payload.object_key))
          λ meta. register_upload-inserted stored meta own allowed now name
    confirm_available-inserted stored false own allowed now name =
        bind (kept (Keeps-verify_object_exists env reads _)) λ found. throws _ (answered rows _)

    confirm-inserted :
        Triple
          (Rows rows)
          (confirm_document_upload env actor payload)
          (λ key t. (key ≡ payload.object_key) × IsRegistered rows t)
          (RowsIfAnswered rows)
    unfolding confirm_document_upload
    confirm-inserted =
        guard_eq (not (starts_with (user_prefix actor.user_id) payload.object_key)) _ (λ t p. p)
          λ own. bind (kept (Keeps-read_clock env reads)) λ now.
            guard_eq (is_blocked_upload env _ payload.mime_type) _ (λ t p. p)
              λ allowed.
                bind
                  (kept (
                    Keeps-await_object env reads (Keeps-promote env (Rows-store rows)) (λ t p. p)
                      payload.object_key))
                  λ exists. confirm_available-inserted _ exists (ground arith) allowed now refl

  -- A confirmed upload inserts one row, for the user, of the user's own key, of the declared size and
  -- type, and of the declared name as it is cleaned for storing (its fallback carries a time); the
  -- name and the type are not blocked. When the service answers with a status, no row is inserted.
  pub confirm_document_upload-inserted :
      (t : Trace)
      → Post
          (λ key t'. (key ≡ payload.object_key) × IsRegistered (inserted t) t')
          (RowsIfAnswered (inserted t))
          (confirm_document_upload env actor payload t)
  confirm_document_upload-inserted t = (confirm-inserted (inserted t)).run t refl
