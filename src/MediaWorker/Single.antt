-- ===== src/MediaWorker/Single.antt =====
-- At most one quarantine scan runs, and none begins in a worker that shuts down.
use crm_media.Base.{
  suc, ◌≤◌, ◌≡◌, ◌≢◌, refl, sym, ◌∙◌, ◌⊎◌, inl, inr, Bool, true, false, not, ◌||◌, ltb, arith,
  if◌then◌else◌,
}
use crm_media.MediaWorker.{
  Config, MediaWorkerState, tick_quarantine, scan_ends, init_email_worker, start_parts,
  start_media_worker, start_media_command_worker, start_identity_event_consumer, first_tick,
  set_timers, shut_down, stop_media_command_worker, stop_identity_event_consumer, close, Step,
  starts, identity_starts, parts_start, ticks, ends, sets_timers, shuts_down, closes, Reaches,
  begins, steps,
}

-- The flag says whether a scan runs, and there is at most one.
abbrev pub IsSingle : MediaWorkerState → Type 0
IsSingle w =
    ((w.is_quarantine_ticking ≡ true) × (w.scans ≡ 1))
    ⊎ ((w.is_quarantine_ticking ≡ false) × (w.scans ≡ 0))

-- No step begins a scan in a worker that shuts down, and only a start ends that.
abbrev pub IsQuiet : MediaWorkerState → Type 0
IsQuiet w =
    w.is_shutting_down ≡ true
    → (w' : MediaWorkerState) → Step w w'
    → (w'.scans ≤ w.scans)
      × ((w'.is_shutting_down ≡ true)
          ⊎ ((config : Config) × (w' ≡ (start_media_worker config w).1)))

true-ne-false : true ≢ false
true-ne-false e = cc

tick_quarantine-IsSingle : (w : MediaWorkerState) → IsSingle w → IsSingle (tick_quarantine w)
unfolding tick_quarantine
tick_quarantine-IsSingle w h = go w.is_quarantine_ticking w.is_shutting_down refl
  where
    fresh : w.is_quarantine_ticking ≡ false → suc w.scans ≡ 1
    fresh idle = elim h [
      | inl (ticking, one) ↦ absurd (true-ne-false (sym ticking ∙ idle))
      | inr (_, none_runs) ↦ omega (arith, none_runs)
    ]

    go :
        (ticking down : Bool)
        → w.is_quarantine_ticking ≡ ticking
        → IsSingle (
            if ticking || down
            then w
            else record w { is_quarantine_ticking = true; scans = suc w.scans })
    go true down e = h
    go false true e = h
    go false false e = inl (refl, fresh e)

start_parts-IsSingle :
    (config : Config) (w : MediaWorkerState) → IsSingle w → IsSingle (start_parts config w)
unfolding start_parts init_email_worker
start_parts-IsSingle config w h = go (not config.redis_url || not config.email_queue_encryption_key)
  where
    parts : MediaWorkerState
    parts = record w { replayer = w.replayer || ltb 0 config.dlq_auto_replay_interval_ms }

    go :
        (b : Bool)
        → IsSingle (record (if b then parts else record parts { email_worker = true }) {
          healthcheck = true;
        })
    go true = h
    go false = h

start-IsSingle :
    (config : Config) (w : MediaWorkerState) → IsSingle w → IsSingle (start_media_worker config w).1
unfolding start_media_worker start_media_command_worker
start-IsSingle config w h = go (not config.redis_url)
  where
    reset : MediaWorkerState
    reset = record w { is_shutting_down = false }

    StateOf : Bool × MediaWorkerState → Type 0
    StateOf r = IsSingle r.1

    go :
        (b : Bool)
        → StateOf (if b then (false, reset) else (true, start_media_command_worker config reset))
    go true = h
    go false = h

start-scans :
    (config : Config) (w : MediaWorkerState) → (start_media_worker config w).1.scans ≡ w.scans
unfolding start_media_worker start_media_command_worker
start-scans config w = go (not config.redis_url)
  where
    reset : MediaWorkerState
    reset = record w { is_shutting_down = false }

    ScansOf : Bool × MediaWorkerState → Type 0
    ScansOf r = r.1.scans ≡ w.scans

    go :
        (b : Bool)
        → ScansOf (if b then (false, reset) else (true, start_media_command_worker config reset))
    go true = refl
    go false = refl

tick-quiet :
    (w : MediaWorkerState) → w.is_shutting_down ≡ true → (tick_quarantine w).scans ≡ w.scans
unfolding tick_quarantine
tick-quiet w down = go w.is_quarantine_ticking w.is_shutting_down down
  where
    go :
        (ticking down : Bool)
        → down ≡ true
        → (if ticking || down
            then w
            else record w { is_quarantine_ticking = true; scans = suc w.scans }).scans
          ≡ w.scans
    go true down e = refl
    go false true e = refl
    go false false e = absurd (true-ne-false (sym e))

start_parts-down :
    (config : Config) (w : MediaWorkerState)
    → ((start_parts config w).is_shutting_down ≡ w.is_shutting_down)
      × ((start_parts config w).scans ≡ w.scans)
unfolding start_parts init_email_worker
start_parts-down config w = go (not config.redis_url || not config.email_queue_encryption_key)
  where
    parts : MediaWorkerState
    parts = record w { replayer = w.replayer || ltb 0 config.dlq_auto_replay_interval_ms }

    started : Bool → MediaWorkerState
    started b = record (if b then parts else record parts { email_worker = true }) {
      healthcheck = true;
    }

    go :
        (b : Bool)
        → ((started b).is_shutting_down ≡ w.is_shutting_down) × ((started b).scans ≡ w.scans)
    go true = (refl, refl)
    go false = (refl, refl)

tick-down :
    (w : MediaWorkerState) → w.is_shutting_down ≡ true → (tick_quarantine w).is_shutting_down ≡ true
unfolding tick_quarantine
tick-down w down = go w.is_quarantine_ticking w.is_shutting_down
  where
    go :
        (ticking flag : Bool)
        → (if ticking || flag
            then w
            else record w { is_quarantine_ticking = true; scans = suc w.scans }).is_shutting_down
          ≡ true
    go true flag = down
    go false true = down
    go false false = down

Step-IsSingle : (w w' : MediaWorkerState) → IsSingle w → Step w w' → IsSingle w'
unfolding start_identity_event_consumer first_tick scan_ends set_timers shut_down close
    stop_media_command_worker stop_identity_event_consumer
Step-IsSingle w _ h (starts config) = start-IsSingle config w h
Step-IsSingle w _ h (identity_starts config) = h
Step-IsSingle w _ h (parts_start config) =
    tick_quarantine-IsSingle (start_parts config w) (start_parts-IsSingle config w h)
Step-IsSingle w _ h ticks = tick_quarantine-IsSingle w h
Step-IsSingle w _ (inl (ticking, one)) (ends p) = inr (refl, omega (arith, one))
Step-IsSingle w _ (inr (idle, zero_scans)) (ends p) = absurd (omega (arith, p, zero_scans))
Step-IsSingle w _ h sets_timers = h
Step-IsSingle w _ h shuts_down = h
Step-IsSingle w _ h (closes closing) = h

Step-IsQuiet : (w : MediaWorkerState) → IsQuiet w
unfolding start_identity_event_consumer first_tick scan_ends set_timers shut_down close
    stop_media_command_worker stop_identity_event_consumer
Step-IsQuiet w down _ (starts config) = (omega (arith, start-scans config w), inr (config, refl))
Step-IsQuiet w down _ (identity_starts config) = (omega arith, inl down)
Step-IsQuiet w down _ (parts_start config) =
    let (flag, same) = start_parts-down config w in
    (
      omega (arith, tick-quiet (start_parts config w) (flag ∙ down), same),
      inl (tick-down (start_parts config w) (flag ∙ down)),
    )
Step-IsQuiet w down _ ticks = (omega (arith, tick-quiet w down), inl (tick-down w down))
Step-IsQuiet w down _ (ends p) = (omega arith, inl down)
Step-IsQuiet w down _ sets_timers = (omega arith, inl down)
Step-IsQuiet w down _ shuts_down = (omega arith, inl refl)
Step-IsQuiet w down _ (closes closing) = (omega arith, inl down)

-- Whatever the order of starts, with their waits, of ticks, ends of scans and stops, the flag of a
-- worker that is reached says whether a scan runs, and there is at most one; once the worker shuts
-- down no step begins another one, and it shuts down until a new start.
pub Reaches-IsSingle : (w : MediaWorkerState) → Reaches w → IsSingle w × IsQuiet w
Reaches-IsSingle w h = (single w h, Step-IsQuiet w)
  where
    single : (w : MediaWorkerState) → Reaches w → IsSingle w
    single _ begins = inr (refl, refl)
    single w' (steps {w} h s) = Step-IsSingle w w' (single w h) s
