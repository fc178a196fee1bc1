-- ===== src/Media/Documents/Removals.antt =====
-- The erasure of a user's data tries to remove each object that it finds.
use crm_media.Base.{
  ◌≡◌, refl, sym, ◌⊎◌, inl, inr, Bool, true, false, List, [], ◌∷◌, some, Text, if◌then◌else◌,
}
use crm_media.Effects.Defs.{
  app_error, thrown, unfinished, MediaAsset, Event, namespace_read, object_deleted,
  user_assets_deleted, user_avatar_deleted, logs_anonymized, Trace, Env, Outcome, ok, err, M,
  handle, ◌>>=◌, ◌>>◌, return, throw, catch, emit, done_or_throw, value_or_throw,
}
use crm_media.Effects.Triple.{
  Triple, Post, Anything, bind, conclude, emitted, returns, assume, weaken,
}
use crm_media.Storage.{has_namespace, read_namespace, get_namespace, remove_object, delete_object}
use crm_media.Media.Documents.Erase.{anon_email}
use crm_media.Media.Documents.{
  find_user_assets, delete_objects, delete_user_rows, delete_avatar_row, anonymize_audit_logs,
  anonymize_user_pii,
}

-- A removal was asked for of the object: the call stands on the trace, or the namespace was not read.
abbrev pub IsTried : Text → Trace → Type 0
IsTried key [] = ⊥
IsTried key (object_deleted k r ∷ t) = (k ≡ key) ⊎ IsTried key t
IsTried key (namespace_read false ∷ t) = Unit
IsTried key (_ ∷ t) = IsTried key t

-- So was one of each object of the rows.
abbrev pub AllTried : List (Text × MediaAsset) → Trace → Type 0
AllTried [] t = Unit
AllTried ((id, asset) ∷ assets) t = IsTried asset.object_key t × AllTried assets t

IsTried-later : (key : Text) (e : Event) (t : Trace) → IsTried key t → IsTried key (e ∷ t)
IsTried-later key (object_deleted k r) t h = inr h
IsTried-later key (namespace_read false) t h = tt
IsTried-later key (namespace_read true) t h = h
IsTried-later key _ t h = h

AllTried-later :
    (assets : List (Text × MediaAsset)) (e : Event) (t : Trace)
    → AllTried assets t
    → AllTried assets (e ∷ t)
AllTried-later [] e t h = tt
AllTried-later ((id, asset) ∷ assets) e t h =
    (IsTried-later asset.object_key e t h.0, AllTried-later assets e t h.1)

-- Whatever the outcome, it is ignored.
catch-ignored :
    {P Q : Trace → Type 0} {m : M (Unit {0})}
    → Triple P m (λ _. Q) (λ _. Q)
    → Triple P (catch m (λ e. return tt)) (λ _. Q) (λ _. Anything)
unfolding catch return
catch-ignored {P} {Q} {m} h = record { run = λ t p. go (m t) (h.run t p) }
  where
    go :
        (r : Outcome (Unit {0}) × Trace)
        → Post (λ _. Q) (λ _. Q) r
        → Post (λ _. Q) (λ _. Anything) (handle r (λ e. return tt))
    go (ok a, t) q = q
    go (err (app_error n s), t) q = q
    go (err thrown, t) q = q
    go (err unfinished, t) q = tt

module _ (env : Env) where
  module _ (id : Text) (asset : MediaAsset) (done : List (Text × MediaAsset)) where
    abbrev One : Trace → Type 0
    One = AllTried ((id, asset) ∷ done)

    get_namespace-One : Triple (AllTried done) (get_namespace env) (λ _. AllTried done) (λ _. One)
    unfolding get_namespace read_namespace emit done_or_throw ◌>>=◌ return throw
    get_namespace-One = record { run = λ t p. go (has_namespace t) t p }
      where
        replied :
            (found : Bool) (t : Trace)
            → AllTried done t
            → Post (λ _. AllTried done) (λ _. One) (done_or_throw found (namespace_read found ∷ t))
        replied true t p = AllTried-later done (namespace_read true) t p
        replied false t p = (tt, AllTried-later done (namespace_read false) t p)

        go :
            (b : Bool) (t : Trace)
            → AllTried done t
            → Post (λ _. AllTried done) (λ _. One) ((if b then return tt else read_namespace env) t)
        go true t p = p
        go false t p = replied (env.namespace t) t p

    remove_object-One :
        Triple (AllTried done) (remove_object env asset.object_key) (λ _. One) (λ _. One)
    unfolding remove_object emit done_or_throw ◌>>=◌ return throw
    remove_object-One = record { run = λ t p. go (env.delete_object t asset.object_key) t p }
      where
        go :
            (b : Bool) (t : Trace)
            → AllTried done t
            → Post (λ _. One) (λ _. One) (done_or_throw b (object_deleted asset.object_key b ∷ t))
        go true t p = (inl refl, AllTried-later done (object_deleted asset.object_key true) t p)
        go false t p = (inl refl, AllTried-later done (object_deleted asset.object_key false) t p)

    delete_object-One :
        Triple (AllTried done) (delete_object env asset.object_key) (λ _. One) (λ _. One)
    unfolding delete_object
    delete_object-One = bind get_namespace-One λ _. remove_object-One

  delete_objects-AllTried :
      (assets done : List (Text × MediaAsset))
      → Triple
          (AllTried done)
          (delete_objects env assets)
          (λ _ t. AllTried assets t × AllTried done t)
          (λ _. Anything)
  unfolding delete_objects
  delete_objects-AllTried [] done = returns tt λ t p. (tt, p)
  delete_objects-AllTried ((id, asset) ∷ assets) done =
      bind (catch-ignored (delete_object-One id asset done)) λ _.
        conclude (delete_objects-AllTried assets ((id, asset) ∷ done))
          (λ a t p. ((p.1.0, p.0), p.1.1)) (λ e t p. p)

  module _ (user_sub : Text) where
    later :
        (assets : List (Text × MediaAsset)) (event : Bool → Event) (reply : Trace → Bool)
        → Triple
            (AllTried assets)
            (λ t. (emit (event (reply t)) >> done_or_throw (reply t)) t)
            (λ _. AllTried assets)
            (λ _. Anything)
    later assets event reply =
        conclude (emitted event reply)
          (λ a t' p. let (t, e, h) = p in rw (e) (AllTried-later assets (event true) t h))
          (λ e t p. p)

    delete_user_rows-AllTried :
        (assets rows : List (Text × MediaAsset))
        → Triple
            (AllTried assets)
            (delete_user_rows env user_sub rows)
            (λ _. AllTried assets)
            (λ _. Anything)
    unfolding delete_user_rows
    delete_user_rows-AllTried assets [] = returns tt λ t p. p
    delete_user_rows-AllTried assets (row ∷ rows) =
        later assets (user_assets_deleted user_sub) (λ t. env.delete_user_assets t user_sub)

    delete_avatar_row-AllTried :
        (assets : List (Text × MediaAsset))
        → Triple
            (AllTried assets)
            (delete_avatar_row env user_sub)
            (λ _. AllTried assets)
            (λ _. Anything)
    unfolding delete_avatar_row emit
    delete_avatar_row-AllTried assets = record {
      run = λ t p.
          AllTried-later assets (user_avatar_deleted user_sub (env.delete_user_avatar t user_sub)) t
            p;
    }

    find_user_assets-same :
        (t : Trace) (assets : List (Text × MediaAsset))
        → env.find_user_assets t user_sub ≡ some assets
        → Triple
            (λ t'. t' ≡ t)
            (find_user_assets env user_sub)
            (λ found t'. found ≡ assets)
            (λ _. Anything)
    unfolding find_user_assets emit value_or_throw ◌>>=◌ return throw
    find_user_assets-same t assets found = record { run = λ t' e. rw (e) (rw (found) refl) }

    -- An erasure that returns has tried to remove each object that the query found.
    pub anonymize_user_pii-AllTried :
        (t : Trace) (assets : List (Text × MediaAsset))
        → env.find_user_assets t user_sub ≡ some assets
        → Post (λ _. AllTried assets) (λ _. Anything) (anonymize_user_pii env user_sub t)
    unfolding anonymize_user_pii anonymize_audit_logs
    anonymize_user_pii-AllTried t assets found =
        (bind (find_user_assets-same t assets found) λ assets'. assume λ same.
            bind (delete_objects-AllTried assets' []) λ _.
              bind (weaken (delete_user_rows-AllTried assets' assets') λ t p. p.0) λ _.
                bind (delete_avatar_row-AllTried assets') λ _.
                  conclude
                    (later assets' (logs_anonymized user_sub (anon_email user_sub))
                      (λ t. env.anonymize_logs t user_sub (anon_email user_sub)))
                    (λ a t' p. rw (sym same) p) (λ e t p. p)).run
          t refl
