-- ===== src/Antivirus/Scans.antt =====
-- Invariants of the trace under a scan, and the balance of started and completed scans.
use crm_media.Base.{
  ℕ, suc, ◌≡◌, refl, Bool, true, false, not, Option, [], ◌∷◌, Text, ap, arith, ◌-◌,
}
use crm_media.FileValidation.Bytes.{Bytes}
use crm_media.FileValidation.Document.{
  valid, invalid, validate_document_magic_bytes, DocumentValidation,
}
use crm_media.Effects.Defs.{
  Failure, thrown, ReputationStatus, clean, infected, unknown, Event, scan_started, scan_completed,
  scanner_opened, Trace, Env, Outcome, ok, err, M, emit,
}
use crm_media.Effects.Triple.{Triple, Post, conclude, bind}
use crm_media.Effects.Keeps.{
  Keeps, Keeps-return, Keeps-emit, Keeps-done, Keeps-value, Keeps-reject, Absorbs, is_read,
}
use crm_media.Antivirus.{
  get_reputation, record_reputation, await_ready, get_scanner, scan_stream, scan_fresh,
  finally_completed, scan_by_status, scan_after_magic, scan_buffer_for_virus,
}

module _ {A : Type 0} {P : Trace → Type 0} {R : A → Trace → Type 0}
    {E : Failure → Trace → Type 0} where
  pub finally_rule :
      {m : M A}
      → Triple P m (λ a t. R a (scan_completed ∷ t)) (λ e t. E e (scan_completed ∷ t))
      → Triple P (finally_completed m) R E
  unfolding finally_completed
  finally_rule {m} h = record { run = λ t p. go (m t) (h.run t p) }
    where
      go :
          (r : Outcome A × Trace)
          → Post (λ a t. R a (scan_completed ∷ t)) (λ e t. E e (scan_completed ∷ t)) r
          → Post R E (r.0, scan_completed ∷ r.1)
      go (ok a, t) x = x
      go (err e, t) x = x

module _ (env : Env) {I : Trace → Type 0} (reads : Absorbs is_read I) where
  Keeps-get_reputation : (sha : Text) → Keeps I (get_reputation env sha)
  unfolding get_reputation
  Keeps-get_reputation sha = record { run = λ t p. reads.apply _ refl t p }

  Keeps-record_reputation :
      (sha : Text) (s : ReputationStatus) → Keeps I (record_reputation env sha s)
  unfolding record_reputation
  Keeps-record_reputation sha s = record { run = λ t p. reads.apply _ refl t p }

  Keeps-await_ready : Keeps I (await_ready env)
  unfolding await_ready
  Keeps-await_ready = record { run = λ t p. reads.apply _ refl t p }

  Keeps-get_scanner : Keeps I (get_scanner env)
  unfolding get_scanner
  Keeps-get_scanner = record {
    run = λ t p.
        (bind (Keeps-emit (scanner_opened (env.open_scanner t)) (reads.apply _ refl))
            λ _. Keeps-done (env.open_scanner t)).run
          t p;
  }

  Keeps-scan_stream : (b : Bytes) → Keeps I (scan_stream env b)
  unfolding scan_stream
  Keeps-scan_stream b = record { run = λ t p. reads.apply _ refl t p }

  pub Keeps-scan_fresh : (b : Bytes) → Keeps I (scan_fresh env b)
  unfolding scan_fresh
  Keeps-scan_fresh b = bind Keeps-await_ready λ ready. bind (Keeps-reject (not ready) thrown) λ _.
      bind Keeps-get_scanner λ _. bind (Keeps-scan_stream b) λ reply.
        bind (Keeps-value reply)
          λ is_infected. bind (Keeps-record_reputation (env.sha256 b) _) λ _. Keeps-return _

-- A whole scan: what holds between `scan_started` and `scan_completed` may differ from `I`.
module _ (env : Env) {I J : Trace → Type 0} (reads : Absorbs is_read I) (inner : Absorbs is_read J)
    (starts : (t : Trace) → I t → J (scan_started ∷ t))
    (completes : (t : Trace) → J t → I (scan_completed ∷ t)) where
  begins : Triple I (emit scan_started) (λ _. J) (λ _. I)
  unfolding emit
  begins = record { run = λ t p. starts t p }

  Keeps-scan_by_status : (b : Bytes) (s : ReputationStatus) → Keeps I (scan_by_status env b s)
  unfolding scan_by_status
  Keeps-scan_by_status b clean = Keeps-return true
  Keeps-scan_by_status b infected = Keeps-return false
  Keeps-scan_by_status b unknown =
      bind begins λ _.
        finally_rule (conclude (Keeps-scan_fresh env inner b) (λ a. completes) (λ e. completes))

  Keeps-scan_after_magic : (b : Bytes) (v : DocumentValidation) → Keeps I (scan_after_magic env b v)
  unfolding scan_after_magic
  Keeps-scan_after_magic b (invalid e) = Keeps-return false
  Keeps-scan_after_magic b (valid t) =
      bind (Keeps-get_reputation env reads (env.sha256 b)) λ s. Keeps-scan_by_status b s

  pub Keeps-scan_buffer_for_virus :
      (b : Bytes) (mime name : Option Text) → Keeps I (scan_buffer_for_virus env b mime name)
  unfolding scan_buffer_for_virus
  Keeps-scan_buffer_for_virus b mime name =
      bind (Keeps-value (validate_document_magic_bytes env.unicode b mime name))
        λ v. Keeps-scan_after_magic b v

-- The counter `activeScans` of the standby controller, as the trace tells it.
abbrev pub active_scans : Trace → ℕ
active_scans [] = 0
active_scans (scan_started ∷ t) = suc (active_scans t)
active_scans (scan_completed ∷ t) = active_scans t - 1
active_scans (_ ∷ t) = active_scans t

abbrev ActiveScans : ℕ → Trace → Type 0
ActiveScans n t = active_scans t ≡ n

ActiveScans-reads : (n : ℕ) → Absorbs is_read (ActiveScans n)
ActiveScans-reads n = record { apply = go }
  where
    go : (e : Event) → is_read e ≡ true → (t : Trace) → ActiveScans n t → ActiveScans n (e ∷ t)
    go scan_started h t p = absurd (cc)
    go scan_completed h t p = absurd (cc)
    go _ h t p = p

-- A scan gives its slot back: after it, whether it returned or threw, as many scans are active as
-- before.
pub scan_buffer-active_scans :
    (env : Env) (b : Bytes) (mime name : Option Text) (t : Trace)
    → active_scans (scan_buffer_for_virus env b mime name t).1 ≡ active_scans t
scan_buffer-active_scans env b mime name t =
    either (scan_buffer_for_virus env b mime name t) (kept.run t refl)
  where
    n : ℕ
    n = active_scans t

    kept : Keeps (ActiveScans n) (scan_buffer_for_virus env b mime name)
    kept =
        Keeps-scan_buffer_for_virus env {J = ActiveScans (suc n)} (ActiveScans-reads n)
          (ActiveScans-reads (suc n)) (λ t p. ap suc p) (λ t p. omega arith) b mime name

    either :
        (r : Outcome Bool × Trace)
        → Post (λ _. ActiveScans n) (λ _. ActiveScans n) r
        → active_scans r.1 ≡ n
    either (ok a, t') p = p
    either (err e, t') p = p
