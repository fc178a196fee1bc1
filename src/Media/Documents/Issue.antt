-- ===== src/Media/Documents/Issue.antt =====
-- Where an upload of a user may go.
use crm_media.Base.{ℕ, ◌≡◌, refl, ◌≤◌, false, Text, ltb, arith, All}
use crm_media.Effects.Defs.{warmup_triggered, Trace, Env, emit}
use crm_media.Effects.Triple.{Post, Anything, anything, bind, guard_eq, returns}
use crm_media.Sanitize.{sanitize_stored_file_name, sanitize_file_name_for_object_key}
use crm_media.Sanitize.Laws.{IsKeyChar, object_key_segment}
use crm_media.Storage.Requests.{ParIssued, create_upload_par-ParIssued}
use crm_media.Media.Promotion.{quarantine_key}
use crm_media.Media.Upload.{max_bytes, read_clock, draw_uuid, is_blocked_upload}
use crm_media.Media.Documents.{new_object_key, generate_document_upload_url}

module _ (env : Env) where
  -- An upload that is admitted: its size and type, and the key in the user's folder.
  pub record IsAdmitted (user_id file_name mime : Text) (size : ℕ) (key : Text) : Type 0 where
    pub now : ℕ
    pub uuid : Text
    pub segment : Text
    pub in_bounds : size ≤ max_bytes
    pub allowed :
        is_blocked_upload env (sanitize_stored_file_name env.unicode now file_name) mime ≡ false
    pub in_folder : key ≡ new_object_key user_id uuid segment
    pub is_segment : All IsKeyChar segment

  -- An upload address that is issued is for a size of at most 25 MB, a name and type that are not
  -- blocked and a key in the user's folder, the file's part of which has only letters, digits, `_`,
  -- `.` and `-`; and the last call has created a request to write that key in quarantine.
  pub generate_document_upload_url-IsAdmitted :
      (user_id file_name mime : Text) (size : ℕ) (t : Trace)
      → Post
          (λ r t'.
            IsAdmitted user_id file_name mime size r.object_key
            × ParIssued (quarantine_key r.object_key) t')
          (λ _. Anything)
          (generate_document_upload_url env user_id file_name mime size t)
  unfolding generate_document_upload_url
  generate_document_upload_url-IsAdmitted user_id file_name mime size t =
      (bind (anything (read_clock env)) λ now.
          let stored = sanitize_stored_file_name env.unicode now file_name in
          let segment = sanitize_file_name_for_object_key env.unicode now stored in
          guard_eq (is_blocked_upload env stored mime) _ (λ t p. tt)
            λ allowed.
              guard_eq (ltb max_bytes size) _ (λ t p. tt)
                λ fits. bind (anything (draw_uuid env)) λ uuid.
                  bind (anything (emit (warmup_triggered "personal_upload_url"))) λ _.
                    bind (create_upload_par-ParIssued env _) λ url. returns _ λ t p. (
                      record {
                        now = now;
                        uuid = uuid;
                        segment = segment;
                        in_bounds = ground arith;
                        allowed = allowed;
                        in_folder = refl;
                        is_segment = (object_key_segment env.unicode now stored).0;
                      },
                      p,
                    )).run
        t tt
