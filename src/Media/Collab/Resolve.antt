-- ===== src/Media/Collab/Resolve.antt =====
-- The confirmation of an upload of a command: what it answers, and that it ends.
use crm_media.Base.{
  ℕ, ◌≡◌, refl, ◌⊎◌, inl, inr, ◌||◌, Bool, codes, starts_with, true, false, not, Option, none, some,
  Text, ◌==◌, arith,
}
use crm_media.Effects.Defs.{Trace, Env}
use crm_media.Effects.Triple.{
  Triple, Post, Anything, anything, bind, guard_eq, returns, throws, conclude,
}
use crm_media.Effects.Keeps.{Keeps, Keeps-return, Keeps-throw, Keeps-reject, Absorbs, is_read}
use crm_media.Sanitize.{sanitize_stored_file_name}
use crm_media.Storage.{ObjectMetadata}
use crm_media.Storage.Keeps.{Keeps-verify_object_exists}
use crm_media.Media.Upload.{read_clock, is_blocked_upload, await_metadata, reject_unavailable}
use crm_media.Media.Upload.Keeps.{Keeps-read_clock}
use crm_media.Media.Upload.Looks.{LookedAt, await_metadata-LookedAt}
use crm_media.Media.Collab.{
  is_collab_key, assert_collab_object_key, check_metadata, resolve_metadata_for_collab_command,
}

module _ (env : Env) (key file_name mime : Text) (size : ℕ) where
  pub record IsResolved (meta : ObjectMetadata) (t' : Trace) : Type 0 where
    pub now : ℕ
    pub collab :
        (starts_with (codes "projects/") key ≡ true) ⊎ (starts_with (codes "clients/") key ≡ true)
    pub allowed :
        is_blocked_upload env (sanitize_stored_file_name env.unicode now file_name) mime ≡ false
    pub declared : meta.size_bytes ≡ size
    pub looked_at : LookedAt key (some meta) t'

  check_metadata-size :
      (found : Option ObjectMetadata)
      → Triple
          (LookedAt key found)
          (check_metadata env key size found)
          (λ meta t'. (meta.size_bytes ≡ size) × LookedAt key (some meta) t')
          (λ _. Anything)
  unfolding check_metadata reject_unavailable
  check_metadata-size none = bind (anything _) λ _. throws _ λ t p. tt
  check_metadata-size (some meta) =
      guard_eq (not (meta.size_bytes == size)) _ (λ t p. tt)
        λ same. returns meta λ t p. (ground arith, p)

  is_collab-key :
      is_collab_key key ≡ true
      → (starts_with (codes "projects/") key ≡ true) ⊎ (starts_with (codes "clients/") key ≡ true)
  unfolding is_collab_key
  is_collab-key h = go (starts_with (codes "projects/") key) (starts_with (codes "clients/") key) h
    where
      go : (a b : Bool) → (a || b) ≡ true → (a ≡ true) ⊎ (b ≡ true)
      go true b h = inl refl
      go false b h = inr h

  -- The metadata that a command resolves are those that the last call, a look at the object under
  -- its key, has answered with, and their size is the declared one; the key is one of a project or a
  -- client, and the cleaned name and the type are not blocked.
  pub resolve_metadata_for_collab_command-IsResolved :
      (t : Trace)
      → Post IsResolved
          (λ _. Anything)
          (resolve_metadata_for_collab_command env key file_name mime size t)
  unfolding resolve_metadata_for_collab_command assert_collab_object_key
  resolve_metadata_for_collab_command-IsResolved t =
      (guard_eq (not (is_collab_key key)) _ (λ t p. tt)
          λ collab. bind (anything (read_clock env)) λ now.
            guard_eq (is_blocked_upload env _ mime) _ (λ t p. tt)
              λ allowed. bind (await_metadata-LookedAt env key) λ found.
                conclude (check_metadata-size found)
                  (λ meta t p. record {
                    now = now;
                    collab = is_collab-key (ground arith);
                    allowed = allowed;
                    declared = p.0;
                    looked_at = p.1;
                  })
                  (λ e t p. p)).run
        t tt

  module _ {I : Trace → Type 0} (reads : Absorbs is_read I)
      (awaits : Keeps I (await_metadata env key)) where
    Keeps-check_metadata :
        (found : Option ObjectMetadata) → Keeps I (check_metadata env key size found)
    unfolding check_metadata reject_unavailable
    Keeps-check_metadata none = bind (Keeps-verify_object_exists env reads _) λ f. Keeps-throw _
    Keeps-check_metadata (some meta) = bind (Keeps-reject _ _) λ _. Keeps-return meta

    pub Keeps-resolve : Keeps I (resolve_metadata_for_collab_command env key file_name mime size)
    unfolding resolve_metadata_for_collab_command assert_collab_object_key
    Keeps-resolve = bind (Keeps-reject _ _) λ _.
        bind (Keeps-read_clock env reads)
          λ now. bind (Keeps-reject _ _) λ _. bind awaits λ found. Keeps-check_metadata found
