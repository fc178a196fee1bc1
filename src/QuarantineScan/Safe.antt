-- ===== src/QuarantineScan/Safe.antt =====
-- The job moves only vetted objects, and its counts add up.
use crm_media.Base.{
  ℕ, ◌+◌, ◌≤◌, ◌≡◌, refl, Bool, true, false, List, [], ◌∷◌, Option, none, some, Text, drop, arith,
}
use crm_media.FileValidation.Bytes.{Bytes}
use crm_media.Effects.Defs.{
  app_error, thrown, unfinished, Trace, Env, ok, err, Outcome, M, return, catch, handle,
}
use crm_media.Effects.Triple.{Triple, Post, bind, branch, given, weaken, conclude, returns, throws}
use crm_media.Storage.{delete_object}
use crm_media.Storage.Keeps.{
  Keeps-get_namespace, Keeps-get_object_buffer, Keeps-get_object_metadata, Keeps-delete_object,
}
use crm_media.Antivirus.Vetted.{Vetted, AllVetted, AllVetted-reads, scan_buffer-AllVetted}
use crm_media.Media.Promotion.{mime_of}
use crm_media.Media.Promotion.Keeps.{uploads-VettedNow}
use crm_media.Media.Upload.Keeps.{Keeps-read_clock}
use crm_media.QuarantineScan.{
  Item, Tally, counted, is_too_old, is_too_young, finish_scan, scan_object, scan_named, scan_item,
  scan_items, scan_pages, run_quarantine_scan,
}

-- No object is counted twice.
abbrev pub AddsUp : Tally → Type 0
AddsUp n = n.moved + n.infected ≤ n.scanned

-- One more object is scanned than is accounted for.
abbrev HasRoom : Tally → Type 0
HasRoom n = n.moved + n.infected + 1 ≤ n.scanned

module _ (env : Env) where
  -- A computation that keeps every object vetted and returns a tally that adds up.
  abbrev Tallies : M Tally → Type 0
  Tallies m = Triple (AllVetted env) m (λ n t. AddsUp n × AllVetted env t) (λ _. AllVetted env)

  removes :
      (key : Text)
      → Triple (AllVetted env) (delete_object env key) (λ _. AllVetted env) (λ _. AllVetted env)
  removes key = Keeps-delete_object env (AllVetted-reads env) key (λ r t p. p)

  finish_scan-Tallies :
      (key : Text) (buffer : Bytes) (mime : Text) (n : Tally) (is_clean : Bool)
      → HasRoom n
      → Triple
          (λ t. (is_clean ≡ true → Vetted env buffer t) × AllVetted env t)
          (finish_scan env key buffer mime n is_clean)
          (λ n t. AddsUp n × AllVetted env t)
          (λ _. AllVetted env)
  unfolding finish_scan
  finish_scan-Tallies key buffer mime n true room =
      bind
        (conclude
          (weaken (uploads-VettedNow env (drop 11 key) buffer mime) (λ t p. (p.0 refl, p.1)))
          (λ a t p. p.1) (λ e t p. p.1))
        λ _. bind (removes key) λ _. returns _ λ t p. (omega (arith, room), p)
  finish_scan-Tallies key buffer mime n false room =
      weaken (bind (removes key) λ _. returns _ λ t p. (omega (arith, room), p)) (λ t p. p.1)

  scan_object-Tallies : (key : Text) (n : Tally) → HasRoom n → Tallies (scan_object env key n)
  unfolding scan_object
  scan_object-Tallies key n room =
      bind (Keeps-get_object_buffer env (AllVetted-reads env) key) λ buffer.
        bind (Keeps-get_object_metadata env (AllVetted-reads env) key) λ meta.
          bind (scan_buffer-AllVetted env buffer _ _)
            λ is_clean. finish_scan-Tallies key buffer (mime_of meta) n is_clean room

  caught-Tallies :
      (m : M Tally) (n : Tally) → AddsUp n → Tallies m → Tallies (catch m (λ e. return n))
  unfolding catch return
  caught-Tallies m n adds h = record { run = λ t p. go (m t) (h.run t p) }
    where
      go :
          (r : Outcome Tally × Trace)
          → Post (λ n t. AddsUp n × AllVetted env t) (λ _. AllVetted env) r
          → Post (λ n t. AddsUp n × AllVetted env t) (λ _. AllVetted env) (handle r (λ e. return n))
      go (ok a, t) q = q
      go (err (app_error s m'), t) q = (adds, q)
      go (err thrown, t) q = (adds, q)
      go (err unfinished, t) q = q

  scan_item-Tallies :
      (now : ℕ) (name : Option Text) (time : Option ℕ) (n : Tally)
      → AddsUp n
      → Tallies (scan_item env now name time n)
  unfolding scan_item scan_named
  scan_item-Tallies now none time n adds = returns n λ t p. (adds, p)
  scan_item-Tallies now (some []) time n adds = returns n λ t p. (adds, p)
  scan_item-Tallies now (some (c ∷ key)) time n adds =
      branch (is_too_old env now time)
        (bind (removes (c ∷ key)) λ _. returns (counted n) λ t p. (omega (arith, adds), p))
        (branch (is_too_young env now time) (returns (counted n) λ t p. (omega (arith, adds), p)) (
          caught-Tallies _ (counted n) (omega (arith, adds))
            (scan_object-Tallies (c ∷ key) (counted n) (omega (arith, adds)))))

  scan_items-Tallies :
      (now : ℕ) (items : List Item) (n : Tally) → AddsUp n → Tallies (scan_items env now items n)
  unfolding scan_items
  scan_items-Tallies now [] n adds = returns n λ t p. (adds, p)
  scan_items-Tallies now (item ∷ items) n adds =
      bind (scan_item-Tallies now item.name item.time_modified n adds)
        λ n'. given λ adds'. scan_items-Tallies now items n' adds'

  scan_pages-Tallies :
      (now : ℕ) (pages : List (Option (List Item))) (n : Tally)
      → AddsUp n
      → Tallies (scan_pages env now pages n)
  unfolding scan_pages
  scan_pages-Tallies now [] n adds = returns n λ t p. (adds, p)
  scan_pages-Tallies now (none ∷ pages) n adds = throws thrown λ t p. p
  scan_pages-Tallies now (some items ∷ pages) n adds =
      bind (scan_items-Tallies now items n adds)
        λ n'. given λ adds'. scan_pages-Tallies now pages n' adds'

  -- If every object written before was vetted, so is every object written by the end of the job,
  -- whatever pages the listing answers with, also when the job throws; and when it returns, the
  -- objects that were moved and those that were rejected are together at most the objects scanned.
  pub run_quarantine_scan-AddsUp :
      (pages : List (Option (List Item))) (t : Trace)
      → AllVetted env t
      → Post
          (λ n t'. AddsUp n × AllVetted env t')
          (λ _. AllVetted env)
          (run_quarantine_scan env pages t)
  unfolding run_quarantine_scan
  run_quarantine_scan-AddsUp pages t h =
      (bind (Keeps-get_namespace env (AllVetted-reads env)) λ _.
          bind (Keeps-read_clock env (AllVetted-reads env))
            λ now. scan_pages-Tallies now pages _ (omega arith)).run
        t h
