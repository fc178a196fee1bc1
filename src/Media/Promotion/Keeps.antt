-- ===== src/Media/Promotion/Keeps.antt =====
-- A promotion writes to production only what a scan has vetted.
use crm_media.Base.{◌≡◌, refl, Bool, true, false, Text, inr, if◌then◌else◌}
use crm_media.FileValidation.Bytes.{Bytes}
use crm_media.Effects.Defs.{Failure, app_error, thrown, unfinished, Trace, Env, ◌>>◌, return, throw}
use crm_media.Effects.Triple.{Triple, bind, branch, weaken, conclude}
use crm_media.Effects.Keeps.{
  Keeps, Keeps-return, Keeps-throw, Keeps-catch, Absorbs, is_read, is_store, reads_of_store,
}
use crm_media.Storage.{upload_private_document, delete_object}
use crm_media.Storage.Keeps.{
  Keeps-verify_object_exists, Keeps-get_object_buffer, Keeps-get_object_metadata,
  Keeps-upload_private_document, Keeps-delete_object,
}
use crm_media.Antivirus.Scans.{Keeps-scan_buffer_for_virus}
use crm_media.Antivirus.Vetted.{AllVetted, AllVetted-reads, Vetted, scan_buffer-AllVetted}
use crm_media.Media.Promotion.{
  quarantine_key, mime_of, rethrow_app_error, promote, try_promote_from_quarantine,
}

module _ {I : Trace → Type 0} where
  Keeps-rethrow : (e : Failure) → Keeps I (rethrow_app_error e)
  unfolding rethrow_app_error
  Keeps-rethrow (app_error s m) = Keeps-throw (app_error s m)
  Keeps-rethrow thrown = Keeps-return false
  Keeps-rethrow unfinished = Keeps-throw unfinished

module _ (env : Env) {I : Trace → Type 0} (store : Absorbs is_store I) where
  pub Keeps-promote : (key : Text) → Keeps I (promote env key)
  unfolding promote
  Keeps-promote key = bind (Keeps-get_object_buffer env reads _) λ buffer.
      bind (Keeps-get_object_metadata env reads _) λ meta.
        bind
          (Keeps-scan_buffer_for_virus env reads reads (λ t p. store.apply _ refl t p)
            (λ t p. store.apply _ refl t p) buffer _ _)
          λ is_clean.
            branch is_clean
              (bind
                (Keeps-upload_private_document env reads key buffer _
                  (λ r t p. store.apply _ refl t p))
                λ _. bind removes λ _. Keeps-return true)
              (bind removes λ _. Keeps-throw _)
    where
      reads : Absorbs is_read I
      reads = reads_of_store store

      removes : Keeps I (delete_object env (quarantine_key key))
      removes = Keeps-delete_object env reads (quarantine_key key) (λ r t p. store.apply _ refl t p)

module _ (env : Env) where
  abbrev pub VettedNow : Bytes → Trace → Type 0
  VettedNow b t = Vetted env b t × AllVetted env t

  VettedNow-reads : (b : Bytes) → Absorbs is_read (VettedNow b)
  VettedNow-reads b = record {
    apply = λ e h t p. ((p.0.0, inr p.0.1), (AllVetted-reads env).apply e h t p.1);
  }

  pub uploads-VettedNow :
      (key : Text) (b : Bytes) (mime : Text)
      → Keeps (VettedNow b) (upload_private_document env key b mime)
  uploads-VettedNow key b mime =
      Keeps-upload_private_document env (VettedNow-reads b) key b mime
        (λ r t p. ((p.0.0, inr p.0.1), (p.0, p.1)))

  promote_scanned-AllVetted :
      (key : Text) (buffer : Bytes) (mime : Text) (is_clean : Bool)
      → Triple
          (λ t. (is_clean ≡ true → Vetted env buffer t) × AllVetted env t)
          (if is_clean
            then upload_private_document env key buffer mime
              >> (delete_object env (quarantine_key key) >> return true)
            else delete_object env (quarantine_key key)
              >> throw (app_error 400 "El archivo fue rechazado por la validación antivirus."))
          (λ _. AllVetted env)
          (λ _. AllVetted env)
  promote_scanned-AllVetted key buffer mime true =
      bind
        (conclude (weaken (uploads-VettedNow key buffer mime) (λ t p. (p.0 refl, p.1)))
          (λ a t p. p.1) (λ e t p. p.1))
        λ _.
          bind (Keeps-delete_object env (AllVetted-reads env) (quarantine_key key) (λ r t p. p))
            λ _. Keeps-return true
  promote_scanned-AllVetted key buffer mime false =
      weaken
        (bind (Keeps-delete_object env (AllVetted-reads env) (quarantine_key key) (λ r t p. p))
          λ _. Keeps-throw _)
        (λ t p. p.1)

  -- A promotion keeps it that every object written was vetted before.
  pub promote-AllVetted : (key : Text) → Keeps (AllVetted env) (promote env key)
  unfolding promote
  promote-AllVetted key = bind (Keeps-get_object_buffer env (AllVetted-reads env) _) λ buffer.
      bind (Keeps-get_object_metadata env (AllVetted-reads env) _) λ meta.
        bind (scan_buffer-AllVetted env buffer _ _)
          λ is_clean. promote_scanned-AllVetted key buffer (mime_of meta) is_clean

-- An invariant of promotions is one of the whole attempt.
module _ (env : Env) {I : Trace → Type 0} (reads : Absorbs is_read I)
    (promotes : (key : Text) → Keeps I (promote env key)) where
  pub Keeps-try_promote : (key : Text) → Keeps I (try_promote_from_quarantine env key)
  unfolding try_promote_from_quarantine
  Keeps-try_promote key =
      bind (Keeps-verify_object_exists env reads _)
        λ found. branch found (Keeps-catch (promotes key) Keeps-rethrow) (Keeps-return false)
