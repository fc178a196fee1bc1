-- ===== src/Antivirus.antt =====
-- src/shared/security/clamav.ts and sha256-reputation.service.ts: the verdict on a buffer from its
-- magic bytes, the recorded reputation of its hash, and the scanner.
pub mod Vetted
pub mod Scans
use crm_media.Base.{
  Bool, true, false, not, Option, none, some, List, ◌∷◌, Text, codes, text_eq, if◌then◌else◌,
}
use crm_media.FileValidation.Bytes.{Bytes}
use crm_media.FileValidation.Document.{
  valid, invalid, DocumentValidation, validate_document_magic_bytes,
}
use crm_media.Effects.Defs.{
  ReputationStatus, clean, infected, unknown, Event, reputation_read, reputation_recorded,
  scan_started, scan_completed, ready_awaited, scanner_opened, stream_scanned, Trace, Env, Outcome,
  ok, M, ◌>>=◌, ◌>>◌, return, throw, thrown, reject_if, emit, done_or_throw, value_or_throw,
}

-- `row.status === "clean" || row.status === "infected" ? row.status : "unknown"`
unfoldable pub status_of_row : Text → ReputationStatus
status_of_row s =
    if text_eq s (codes "clean")
    then clean
    else if text_eq s (codes "infected")
    then infected
    else unknown

-- A query that throws is caught, and counts as no row.
unfoldable pub status_of_reply : Option (Option Text) → ReputationStatus
unfolding status_of_row
status_of_reply none = unknown
status_of_reply (some none) = unknown
status_of_reply (some (some s)) = status_of_row s

-- `try { m } finally { scan completed }`
unfoldable pub finally_completed : {A : Type 0} → M A → M A
finally_completed m t = let (o, t') = m t in (o, scan_completed ∷ t')

module _ (env : Env) where
  unfoldable pub get_reputation : Text → M ReputationStatus
  unfolding status_of_reply
  get_reputation sha t =
      let reply = env.read_reputation t sha in
      (ok (status_of_reply reply), reputation_read sha reply ∷ t)

  -- A failed insertion is caught.
  unfoldable pub record_reputation : Text → ReputationStatus → M (Unit {0})
  record_reputation sha status t =
      (ok tt, reputation_recorded sha status (env.record_reputation t sha status) ∷ t)

  unfoldable pub await_ready : M Bool
  await_ready t = let ready = env.ensure_ready t in (ok ready, ready_awaited ready ∷ t)

  -- A fresh connection or the cached scanner.
  unfoldable pub get_scanner : M (Unit {0})
  get_scanner t =
      let opened = env.open_scanner t in (emit (scanner_opened opened) >> done_or_throw opened) t

  unfoldable pub scan_stream : Bytes → M (Option Bool)
  scan_stream b t = let reply = env.scan_stream t b in (ok reply, stream_scanned b reply ∷ t)

  -- The body of the `try`: the result says whether the buffer is clean.
  unfoldable pub scan_fresh : Bytes → M Bool
  scan_fresh b = do
    ready ← await_ready
    reject_if (not ready) thrown
    get_scanner
    reply ← scan_stream b
    is_infected ← value_or_throw reply
    record_reputation (env.sha256 b) (if is_infected then infected else clean)
    return (not is_infected)

  -- After the check of the magic bytes.
  unfoldable pub scan_by_status : Bytes → ReputationStatus → M Bool
  scan_by_status b clean = return true
  scan_by_status b infected = return false
  scan_by_status b unknown = do emit scan_started; finally_completed (scan_fresh b)

  unfoldable pub scan_after_magic : Bytes → DocumentValidation → M Bool
  scan_after_magic b (invalid e) = return false
  scan_after_magic b (valid t) = do status ← get_reputation (env.sha256 b); scan_by_status b status

  unfoldable pub scan_buffer_for_virus : Bytes → Option Text → Option Text → M Bool
  scan_buffer_for_virus b mime name = do
    verdict ← value_or_throw (validate_document_magic_bytes env.unicode b mime name)
    scan_after_magic b verdict
