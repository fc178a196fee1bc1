-- ===== src/Media/Collab/Delete.antt =====
-- The deletion by a command: what it removes of the object and its row.
use crm_media.Base.{
  ◌≡◌, refl, sym, ◌∙◌, Bool, true, false, not, [], ◌∷◌, Option, none, some, Text, codes, text_eq,
  text_eq_refl, eq_of_text_eq, length, length-append, Bool-cases, inl, inr, ap, is_some, arith,
  if◌then◌else◌,
}
use crm_media.Effects.Defs.{
  MediaAsset, Head, namespace_read, object_headed, object_put, object_deleted, asset_deleted,
  audit_logged, AuditLog, Trace, Env, ◌>>=◌, return, throw, emit, value_or_throw,
}
use crm_media.Effects.Triple.{
  Triple, Post, Anything, anything, bind, branch_eq, guard_eq, weaken, conclude, emitted, returns,
  assume,
}
use crm_media.Storage.{
  has_namespace, read_namespace, get_namespace, head_object, verify_object_exists, remove_object,
  delete_object,
}
use crm_media.Media.Promotion.{quarantine_key}
use crm_media.Media.Upload.{Actor, create_audit_log}
use crm_media.Media.Documents.{audit_of, find_document, remove_asset}
use crm_media.Media.Collab.{
  is_collab_key, assert_collab_object_key, audited_name, delete_if_exists, delete_found_row,
  audit_deletion, delete_copies, delete_document_for_collab_command,
}

-- The last call on an object has removed it, or was a look at it that failed, for whatever reason;
-- the source takes every failure for an absence.
abbrev pub is_unseen : Text → Trace → Bool
is_unseen key [] = false
is_unseen key (object_headed k head ∷ t) =
    if text_eq k key then not (is_some head) else is_unseen key t
is_unseen key (object_put k body mime r ∷ t) = if text_eq k key then false else is_unseen key t
is_unseen key (object_deleted k r ∷ t) = if text_eq k key then r else is_unseen key t
is_unseen key (_ ∷ t) = is_unseen key t

-- The row was deleted.
abbrev pub is_row_deleted : Text → Trace → Bool
is_row_deleted id [] = false
is_row_deleted id (asset_deleted i r ∷ t) = if text_eq i id then r else is_row_deleted id t
is_row_deleted id (_ ∷ t) = is_row_deleted id t

quarantine_key-ne : (key : Text) → text_eq (quarantine_key key) key ≡ false
quarantine_key-ne key = elim (Bool-cases (text_eq (quarantine_key key) key)) [
  | inr differs ↦ differs
  | inl same ↦
      let e : length (quarantine_key key) ≡ length key =
        ap length (eq_of_text_eq (quarantine_key key) key same) in
      absurd (omega (arith, e, length-append (codes "quarantine/") key))
]

-- What the removal of one object leaves alone.
record Spares (key : Text) (P : Trace → Type 0) : Type 0 where
  of_namespace : (r : Bool) (t : Trace) → P t → P (namespace_read r ∷ t)
  of_head : (h : Option Head) (t : Trace) → P t → P (object_headed key h ∷ t)
  of_removal : (r : Bool) (t : Trace) → P t → P (object_deleted key r ∷ t)

Spares-Anything : (key : Text) → Spares key Anything
Spares-Anything key = record {
  of_namespace = λ r t p. tt;
  of_head = λ h t p. tt;
  of_removal = λ r t p. tt;
}

Spares-unseen :
    (key other : Text) → text_eq key other ≡ false → Spares key (λ t. is_unseen other t ≡ true)
Spares-unseen key other h = record {
  of_namespace = λ r t p. p;
  of_head = λ head t p. rw h p;
  of_removal = λ r t p. rw h p;
}

module _ (env : Env) (key : Text) {P : Trace → Type 0} (spares : Spares key P) where
  get_namespace-spares : Triple P (get_namespace env) (λ _. P) (λ _. Anything)
  unfolding get_namespace read_namespace return
  get_namespace-spares = record { run = λ t p. go (has_namespace t) t p }
    where
      read : Triple P (read_namespace env) (λ _. P) (λ _. Anything)
      read =
          conclude (emitted namespace_read env.namespace)
            (λ a t' p. let (t, e, q) = p in rw e (spares.of_namespace true t q)) (λ e t p. p)

      go :
          (b : Bool) (t : Trace)
          → P t
          → Post (λ _. P) (λ _. Anything) ((if b then return tt else read_namespace env) t)
      go true t p = p
      go false t p = read.run t p

  verify_object_exists-is_unseen :
      Triple P
        (verify_object_exists env key)
        (λ found t. (is_unseen key t ≡ not found) × P t)
        (λ _. Anything)
  unfolding verify_object_exists head_object
  verify_object_exists-is_unseen = bind get_namespace-spares λ _.
      bind {R = λ head t. (is_unseen key t ≡ not (is_some head)) × P t}
        (record { run = λ t p. (rw (text_eq_refl key) refl, spares.of_head _ t p) })
        λ head. returns _ λ t p. p

  delete_object-is_unseen :
      Triple P (delete_object env key) (λ _ t. (is_unseen key t ≡ true) × P t) (λ _. Anything)
  unfolding delete_object remove_object
  delete_object-is_unseen = bind get_namespace-spares λ _.
      conclude (emitted (object_deleted key) (λ t. env.delete_object t key))
        (λ a t' p.
          let (t, e, q) = p in rw e (rw (text_eq_refl key) refl, spares.of_removal true t q))
        (λ e t p. p)

  delete_if_exists-is_unseen :
      Triple P (delete_if_exists env key) (λ _ t. (is_unseen key t ≡ true) × P t) (λ _. Anything)
  unfolding delete_if_exists
  delete_if_exists-is_unseen = bind verify_object_exists-is_unseen λ exists.
      branch_eq exists (λ _. weaken delete_object-is_unseen λ t p. p.1)
        λ missing. returns tt λ t p. (p.0 ∙ ap not missing, p.1)

abbrev pub IsRowDeleted : Option (Text × MediaAsset) → Trace → Type 0
IsRowDeleted none t = Unit
IsRowDeleted (some (id, asset)) t = is_row_deleted id t ≡ true

module _ (env : Env) (key : Text) where
  -- Both copies of the object were removed or not seen, and its row was deleted.
  abbrev pub IsCleared : Option (Text × MediaAsset) → Trace → Type 0
  IsCleared row t =
      (is_unseen (quarantine_key key) t ≡ true) × (is_unseen key t ≡ true) × IsRowDeleted row t

  abbrev CopiesCleared : Trace → Type 0
  CopiesCleared t = (is_unseen (quarantine_key key) t ≡ true) × (is_unseen key t ≡ true)

  delete_found_row-IsCleared :
      (row : Option (Text × MediaAsset))
      → Triple CopiesCleared (delete_found_row env row) (λ _. IsCleared row) (λ _. Anything)
  unfolding delete_found_row remove_asset
  delete_found_row-IsCleared none = returns tt λ t p. (p.0, p.1, tt)
  delete_found_row-IsCleared (some (id, asset)) =
      conclude (emitted (asset_deleted id) (λ t. env.delete_asset t id))
        (λ a t' p. let (t, e, (q, r)) = p in rw e (q, r, rw (text_eq_refl id) refl)) (λ e t p. p)

  audit_deletion-IsCleared :
      (actor : Option Actor) (row found : Option (Text × MediaAsset))
      → Triple
          (IsCleared found)
          (audit_deletion env actor key row)
          (λ _. IsCleared found)
          (λ _. Anything)
  unfolding audit_deletion create_audit_log
  audit_deletion-IsCleared none row found = returns tt λ t p. p
  audit_deletion-IsCleared (some actor) row none =
      conclude (emitted (audit_logged log) (λ t. env.insert_audit_log t log))
        (λ a t' p. let (t, e, q) = p in rw e q) (λ e t p. p)
    where
      log : AuditLog
      log = audit_of actor "file.deleted" key (audited_name key row)
  audit_deletion-IsCleared (some actor) row (some (id, asset)) =
      conclude (emitted (audit_logged log) (λ t. env.insert_audit_log t log))
        (λ a t' p. let (t, e, q) = p in rw e q) (λ e t p. p)
    where
      log : AuditLog
      log = audit_of actor "file.deleted" key (audited_name key row)

  delete_copies-IsCleared :
      (actor : Option Actor) (row : Option (Text × MediaAsset))
      → Triple Anything (delete_copies env key actor row) (λ _. IsCleared row) (λ _. Anything)
  unfolding delete_copies
  delete_copies-IsCleared actor row =
      bind (delete_if_exists-is_unseen env key (Spares-Anything key)) λ _.
        bind
          (weaken
            (delete_if_exists-is_unseen env (quarantine_key key)
              (Spares-unseen (quarantine_key key) key (quarantine_key-ne key)))
            λ t p. p.0)
          λ _. bind (delete_found_row-IsCleared row) λ _. audit_deletion-IsCleared actor row row

  find_document-found :
      (t : Trace) (row : Option (Text × MediaAsset))
      → env.find_document t key ≡ some row
      → Triple (λ t'. t' ≡ t) (find_document env key) (λ row' t'. row' ≡ row) (λ _. Anything)
  unfolding find_document emit value_or_throw ◌>>=◌ return throw
  find_document-found t row found = record { run = λ t' e. rw e (rw found refl) }

  -- When a command deletes a document and returns, the key is one of a project or a client; the last
  -- call on the object in production, and that on its copy in quarantine, has removed it or was a
  -- look at it that failed, so that a copy that was seen is removed; and the row that the query
  -- found, if any, is deleted. A look fails where there is no object, and by any other error too.
  pub delete_document_for_collab_command-IsCleared :
      (actor : Option Actor) (t : Trace) (row : Option (Text × MediaAsset))
      → env.find_document t key ≡ some row
      → Post
          (λ _ t'. (is_collab_key key ≡ true) × IsCleared row t')
          (λ _. Anything)
          (delete_document_for_collab_command env key actor t)
  unfolding delete_document_for_collab_command assert_collab_object_key
  delete_document_for_collab_command-IsCleared actor t row found =
      (guard_eq {P = λ t'. t' ≡ t} (not (is_collab_key key)) _ (λ t p. tt)
          λ collab. bind (find_document-found t row found) λ row'. assume λ same.
            bind (anything (verify_object_exists env key)) λ exists.
              bind (anything (verify_object_exists env (quarantine_key key))) λ quarantined.
                guard_eq _ _ (λ t p. tt)
                  λ known.
                    conclude (delete_copies-IsCleared actor row')
                      (λ a t' p. (ground arith, rw (sym same) p)) (λ e t p. p)).run
        t refl
