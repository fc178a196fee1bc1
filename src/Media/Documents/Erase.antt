-- ===== src/Media/Documents/Erase.antt =====
-- What the erasure of a user's data leaves on the trace.
use crm_media.Base.{◌≡◌, refl, sym, ap, ◌∙◌, Bool, true, List, [], ◌∷◌, ◌++◌, some, Text, codes}
use crm_media.Effects.Defs.{
  MediaAsset, user_assets_deleted, user_avatar_deleted, logs_anonymized, Trace, Env, ◌>>=◌, return,
  throw, emit, value_or_throw,
}
use crm_media.Effects.Triple.{
  Triple, Post, Anything, anything, bind, conclude, emitted, returns, assume,
}
use crm_media.Media.Documents.{
  find_user_assets, delete_objects, delete_user_rows, delete_avatar_row, anonymize_audit_logs,
  anonymize_user_pii,
}

abbrev pub anon_email : Text → Text
anon_email user_sub = codes "anon-" ++ (user_sub ++ codes "@cima.internal")

-- The rows of the user were deleted as the last call, if there were any.
abbrev pub RowsDeleted : Text → List (Text × MediaAsset) → Trace → Type 0
RowsDeleted user_sub [] t' = Unit
RowsDeleted user_sub (asset ∷ assets) t' =
    (t : Trace) × (t' ≡ user_assets_deleted user_sub true ∷ t)

module _ (env : Env) (user_sub : Text) where
  -- The last calls: the rows, the avatar, and the audit logs under the anonymous address.
  abbrev pub IsErased : List (Text × MediaAsset) → Trace → Type 0
  IsErased assets t' =
      (t : Trace) × (r : Bool) × (t'
        ≡ logs_anonymized user_sub (anon_email user_sub) true ∷ user_avatar_deleted user_sub r ∷ t)
      × RowsDeleted user_sub assets t

  delete_user_rows-RowsDeleted :
      (assets : List (Text × MediaAsset))
      → Triple Anything
          (delete_user_rows env user_sub assets)
          (λ _. RowsDeleted user_sub assets)
          (λ _. Anything)
  unfolding delete_user_rows
  delete_user_rows-RowsDeleted [] = returns tt λ t p. tt
  delete_user_rows-RowsDeleted (asset ∷ assets) =
      conclude (emitted (user_assets_deleted user_sub) (λ t. env.delete_user_assets t user_sub))
        (λ a t' p. let (t, e, q) = p in (t, e)) (λ e t p. p)

  delete_avatar_row-event :
      (P : Trace → Type 0)
      → Triple P
          (delete_avatar_row env user_sub)
          (λ _ t'. (t : Trace) × (r : Bool) × (t' ≡ user_avatar_deleted user_sub r ∷ t) × P t)
          (λ _. Anything)
  unfolding delete_avatar_row emit
  delete_avatar_row-event P = record {
    run = λ t p. (t, env.delete_user_avatar t user_sub, refl, p);
  }

  find_user_assets-found :
      (t : Trace) (assets : List (Text × MediaAsset))
      → env.find_user_assets t user_sub ≡ some assets
      → Triple
          (λ t'. t' ≡ t)
          (find_user_assets env user_sub)
          (λ found t'. found ≡ assets)
          (λ _. Anything)
  unfolding find_user_assets emit value_or_throw ◌>>=◌ return throw
  find_user_assets-found t assets found = record { run = λ t' e. rw e (rw found refl) }

  -- An erasure that returns has deleted the rows of the user's files, if the query found any, has
  -- tried to delete the row of the avatar, and has put an anonymous address into the audit logs of
  -- the user, in this order and as its last calls.
  pub anonymize_user_pii-IsErased :
      (t : Trace) (assets : List (Text × MediaAsset))
      → env.find_user_assets t user_sub ≡ some assets
      → Post (λ _. IsErased assets) (λ _. Anything) (anonymize_user_pii env user_sub t)
  unfolding anonymize_user_pii anonymize_audit_logs
  anonymize_user_pii-IsErased t assets found =
      (bind (find_user_assets-found t assets found) λ assets'. assume λ same.
          bind (anything (delete_objects env assets')) λ _.
            bind (delete_user_rows-RowsDeleted assets') λ _. bind (delete_avatar_row-event _) λ _.
              conclude
                (emitted (logs_anonymized user_sub (anon_email user_sub))
                  (λ t. env.anonymize_logs t user_sub (anon_email user_sub)))
                (λ a t' p.
                  let (t1, e1, (t0, r, e0, rows)) = p in
                  (
                    t0,
                    r,
                    e1 ∙ ap (λ x. logs_anonymized user_sub (anon_email user_sub) true ∷ x) e0,
                    rw (sym same) rows,
                  ))
                (λ e t p. p)).run
        t refl
