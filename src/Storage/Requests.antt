-- ===== src/Storage/Requests.antt =====
-- The pre-authenticated requests of src/shared/storage/oci-storage.ts: a request that is handed out
-- was the last call.
use crm_media.Base.{
  ◌≡◌, refl, Bool, true, false, codes, ◌++◌, if◌then◌else◌, [], ◌∷◌, Option, none, some, Text,
}
use crm_media.Effects.Defs.{par_created, Trace, Env}
use crm_media.Effects.Triple.{Triple, Anything, anything, bind, returns, throws}
use crm_media.Storage.{
  get_namespace, create_par, access_uri, create_upload_par, create_private_document_url,
  last_segment,
}

-- The trace ends in the creation of the request for a key, for writing or reading, that answered
-- `par`.
abbrev ParAnswered : Text → Bool → Option (Option Text) → Trace → Type 0
ParAnswered key write par t' = (t : Trace) × (t' ≡ par_created key write par ∷ t)

abbrev pub ParIssued : Text → Trace → Type 0
ParIssued key t' = (uri : Text) × ParAnswered key true (some (some uri)) t'

module _ (env : Env) where
  access_uri-ParIssued :
      (key : Text) (write : Bool) (par : Option (Option Text))
      → Triple
          (ParAnswered key write par)
          (access_uri env par)
          (λ uri. ParAnswered key write (some (some uri)))
          (λ _. Anything)
  unfolding access_uri
  access_uri-ParIssued key write none = throws _ λ t p. tt
  access_uri-ParIssued key write (some none) = throws _ λ t p. tt
  access_uri-ParIssued key write (some (some [])) = throws _ λ t p. tt
  access_uri-ParIssued key write (some (some (c ∷ uri))) = returns _ λ t p. p

  pub create_upload_par-ParIssued :
      (key : Text)
      → Triple Anything (create_upload_par env key) (λ _. ParIssued key) (λ _. Anything)
  unfolding create_upload_par create_par
  create_upload_par-ParIssued key = bind (anything (get_namespace env)) λ _.
      bind {R = ParAnswered key true} (record { run = λ t p. (t, refl) })
        λ par. bind (access_uri-ParIssued key true par) λ uri. returns _ λ t p. (uri, p)

  -- The address of a document: that of the request, with the file name of the key for a download.
  abbrev pub url_of : Text → Bool → Text → Text
  url_of key false uri = env.endpoint ++ uri
  url_of key true uri =
      env.endpoint
      ++ (uri
          ++ (codes "?response-content-disposition="
              ++ env.encode_uri_component
                  (codes "attachment; filename=\"" ++ (last_segment key ++ codes "\""))))

  -- The last call created a request to read the key, and `url` is its address.
  abbrev pub ReadIssued : Text → Bool → Text → Trace → Type 0
  ReadIssued key force url t' =
      (uri : Text) × (t : Trace) × (t' ≡ par_created key false (some (some uri)) ∷ t)
      × (url ≡ url_of key force uri)

  pub create_private_document_url-ReadIssued :
      (key : Text) (force : Bool)
      → Triple Anything
          (create_private_document_url env key force)
          (ReadIssued key force)
          (λ _. Anything)
  unfolding create_private_document_url create_par
  create_private_document_url-ReadIssued key force = bind (anything (get_namespace env)) λ _.
      bind {R = ParAnswered key false} (record { run = λ t p. (t, refl) })
        λ par. bind (access_uri-ParIssued key false par) λ uri. returns _ λ t p. go force uri t p
    where
      go :
          (force : Bool) (uri : Text) (t : Trace)
          → ParAnswered key false (some (some uri)) t
          → ReadIssued key force
              (if force
                then env.endpoint
                  ++ (uri
                      ++ (codes "?response-content-disposition="
                          ++ env.encode_uri_component (
                              codes "attachment; filename=\"" ++ (last_segment key ++ codes "\""))))
                else env.endpoint ++ uri)
              t
      go true uri t (t0, e) = (uri, t0, e, refl)
      go false uri t (t0, e) = (uri, t0, e, refl)
