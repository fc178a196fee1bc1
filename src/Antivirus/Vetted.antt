-- ===== src/Antivirus/Vetted.antt =====
-- When a buffer has been vetted: its magic bytes are accepted and either the scanner said of these
-- bytes that they are not infected, or their hash was on record as clean.
use crm_media.Base.{
  ◌≡◌, refl, ap, ◌⊎◌, inl, inr, Bool, true, false, not, Option, none, some, [], ◌∷◌, Text, codes,
  arith, eq_of_text_eq,
}
use crm_media.FileValidation.Bytes.{Bytes}
use crm_media.FileValidation.Document.{
  valid, invalid, validate_document_magic_bytes, DocumentValidation,
}
use crm_media.Effects.Defs.{
  ReputationStatus, clean, infected, unknown, Event, object_put, reputation_read, stream_scanned,
  scan_started, Trace, Env,
}
use crm_media.Effects.Defs.{thrown, value_or_throw}
use crm_media.Antivirus.{await_ready, get_scanner, scan_stream, record_reputation}
use crm_media.Effects.Defs.{return, throw, reject_if}
use crm_media.Effects.Defs.{emit}
use crm_media.Antivirus.Scans.{finally_rule, Keeps-scan_buffer_for_virus}
use crm_media.Effects.Triple.{
  value_eq, assume, conclude, weaken, both, anything, Anything, Triple, bind,
}
use crm_media.Effects.Keeps.{Absorbs, is_read}
use crm_media.Antivirus.{
  status_of_row, status_of_reply, get_reputation, scan_fresh, scan_by_status, scan_after_magic,
  scan_buffer_for_virus,
}

status_of_row-clean : (s : Text) → status_of_row s ≡ clean → s ≡ codes "clean"
unfolding status_of_row
status_of_row-clean s h = eq_of_text_eq s (codes "clean") (ground arith)

module _ (env : Env) where
  -- The event clears the bytes.
  abbrev pub Clears : Bytes → Event → Type 0
  Clears b (reputation_read sha (some (some s))) = (sha ≡ env.sha256 b) × (s ≡ codes "clean")
  Clears b (stream_scanned b' (some false)) = b' ≡ b
  Clears b _ = ⊥

  abbrev pub Cleared : Bytes → Trace → Type 0
  Cleared b [] = ⊥
  Cleared b (e ∷ t) = Clears b e ⊎ Cleared b t

  abbrev pub IsAccepted : Bytes → Type 0
  IsAccepted b =
      (mime : Option Text) × (name : Option Text) × (kind : Option Text)
      × (validate_document_magic_bytes env.unicode b mime name ≡ some (valid kind))

  abbrev pub Vetted : Bytes → Trace → Type 0
  Vetted b t = IsAccepted b × Cleared b t

  -- Every object written so far was vetted before it was written.
  abbrev pub AllVetted : Trace → Type 0
  AllVetted [] = Unit
  AllVetted (object_put key b mime r ∷ t) = Vetted b t × AllVetted t
  AllVetted (_ ∷ t) = AllVetted t

  pub AllVetted-reads : Absorbs is_read AllVetted
  AllVetted-reads = record { apply = go }
    where
      go : (e : Event) → is_read e ≡ true → (t : Trace) → AllVetted t → AllVetted (e ∷ t)
      go (object_put key b mime r) h t p = absurd (cc)
      go _ h t p = p

  Cleared-cons : (b : Bytes) (e : Event) (t : Trace) → Cleared b t → Cleared b (e ∷ t)
  Cleared-cons b e t h = inr h

  -- What a result of a scan says of the trace.
  abbrev OnTrue : Bytes → Bool → Trace → Type 0
  OnTrue b r t = r ≡ true → Cleared b t

  scan_stream-Cleared :
      (b : Bytes)
      → Triple Anything (scan_stream env b) (λ r t. r ≡ some false → Cleared b t) (λ e. Anything)
  unfolding scan_stream
  scan_stream-Cleared b = record { run = λ t p. go (env.scan_stream t b) t }
    where
      go : (r : Option Bool) (t : Trace) → r ≡ some false → Cleared b (stream_scanned b r ∷ t)
      go none t h = absurd (cc)
      go (some true) t h = absurd (cc)
      go (some false) t h = inl refl

  value-Cleared :
      (b : Bytes) (reply : Option Bool)
      → Triple
          (λ t. reply ≡ some false → Cleared b t)
          (value_or_throw reply)
          (λ r t. r ≡ false → Cleared b t)
          (λ e. Anything)
  unfolding value_or_throw return throw
  value-Cleared b none = record { run = λ t p. tt }
  value-Cleared b (some r) = record { run = λ t p h. p (ap some h) }

  record_reputation-Cleared :
      (b : Bytes) (r : Bool) (status : ReputationStatus)
      → Triple
          (λ t. r ≡ false → Cleared b t)
          (record_reputation env (env.sha256 b) status)
          (λ _ t. r ≡ false → Cleared b t)
          (λ e. Anything)
  unfolding record_reputation
  record_reputation-Cleared b r status = record { run = λ t p h. inr (p h) }

  negated-Cleared :
      (b : Bytes) (r : Bool)
      → Triple (λ t. r ≡ false → Cleared b t) (return (not r)) (OnTrue b) (λ e. Anything)
  unfolding return
  negated-Cleared b true = record { run = λ t p h. absurd (cc) }
  negated-Cleared b false = record { run = λ t p h. p refl }

  scan_fresh-Cleared : (b : Bytes) → Triple Anything (scan_fresh env b) (OnTrue b) (λ e. Anything)
  unfolding scan_fresh
  scan_fresh-Cleared b = bind (anything (await_ready env)) λ ready.
      bind (anything (reject_if (not ready) thrown)) λ _. bind (anything (get_scanner env)) λ _.
        bind (scan_stream-Cleared b) λ reply. bind (value-Cleared b reply) λ is_infected.
          bind (record_reputation-Cleared b is_infected _) λ _. negated-Cleared b is_infected

  get_reputation-Cleared :
      (b : Bytes)
      → Triple Anything
          (get_reputation env (env.sha256 b))
          (λ s t. s ≡ clean → Cleared b t)
          (λ e. Anything)
  unfolding get_reputation status_of_reply
  get_reputation-Cleared b = record { run = λ t p. go (env.read_reputation t (env.sha256 b)) t }
    where
      go :
          (r : Option (Option Text)) (t : Trace)
          → status_of_reply r ≡ clean
          → Cleared b (reputation_read (env.sha256 b) r ∷ t)
      go none t h = absurd (cc)
      go (some none) t h = absurd (cc)
      go (some (some s)) t h = inl (refl, status_of_row-clean s h)

  scan_by_status-Cleared :
      (b : Bytes) (status : ReputationStatus)
      → Triple
          (λ t. status ≡ clean → Cleared b t)
          (scan_by_status env b status)
          (OnTrue b)
          (λ e. Anything)
  unfolding scan_by_status return
  scan_by_status-Cleared b clean = record { run = λ t p h. p refl }
  scan_by_status-Cleared b infected = record { run = λ t p h. absurd (cc) }
  scan_by_status-Cleared b unknown =
      bind (weaken (anything (emit scan_started)) (λ t p. tt))
        λ _. finally_rule (conclude (scan_fresh-Cleared b) (λ r t p h. inr (p h)) (λ e t p. tt))

  scan_after_magic-Vetted :
      (b : Bytes) (mime name : Option Text) (v : DocumentValidation)
      → validate_document_magic_bytes env.unicode b mime name ≡ some v
      → Triple Anything (scan_after_magic env b v) (λ r t. r ≡ true → Vetted b t) (λ e. Anything)
  unfolding scan_after_magic return
  scan_after_magic-Vetted b mime name (invalid e) h = record { run = λ t p g. absurd (cc) }
  scan_after_magic-Vetted b mime name (valid kind) h =
      conclude (bind (get_reputation-Cleared b) (scan_by_status-Cleared b))
        (λ r t p g. ((mime, name, kind, h), p g)) (λ e t p. tt)

  scan_buffer-Vetted :
      (b : Bytes) (mime name : Option Text)
      → Triple Anything
          (scan_buffer_for_virus env b mime name)
          (λ r t. r ≡ true → Vetted b t)
          (λ e. Anything)
  unfolding scan_buffer_for_virus
  scan_buffer-Vetted b mime name =
      bind (value_eq (validate_document_magic_bytes env.unicode b mime name))
        λ v. assume (scan_after_magic-Vetted b mime name v)

  -- From a trace on which every object was vetted before it was written, a scan leads to such a
  -- trace; and one that answers that a buffer is clean has vetted it.
  pub scan_buffer-AllVetted :
      (b : Bytes) (mime name : Option Text)
      → Triple AllVetted
          (scan_buffer_for_virus env b mime name)
          (λ r t. (r ≡ true → Vetted b t) × AllVetted t)
          (λ e. AllVetted)
  scan_buffer-AllVetted b mime name =
      conclude
        (weaken
          (both (scan_buffer-Vetted b mime name) (
            Keeps-scan_buffer_for_virus env AllVetted-reads AllVetted-reads (λ t p. p) (λ t p. p) b
              mime name))
          (λ t p. (tt, p)))
        (λ r t p. p) (λ e t p. p.1)
