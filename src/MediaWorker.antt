-- ===== src/MediaWorker.antt =====
-- src/workers/media.worker.ts, with the stops of src/workers/media-command.worker.ts and of
-- src/workers/identity-event.worker.ts: the life of the process that runs all workers. Its parts are
-- flags; between two waits its code is one step.
pub mod Single
pub mod Stops
use crm_media.Base.{
  ℕ, zero, suc, ◌+◌, ◌-◌, ◌<◌, ◌≡◌, ◌≢◌, Bool, true, false, not, ◌&&◌, ◌||◌, Option, none, some,
  ltb, if◌then◌else◌,
}

-- `env`, as far as the worker reads it, and whether Redis gives a connection for the streams.
pub record Config : Type 0 where
  pub redis_url : Bool
  pub email_queue_encryption_key : Bool
  pub dlq_auto_replay_interval_ms : ℕ
  pub stream_connection : Bool

-- `MediaWorkerState`, the consumers that are there, and the quarantine scans that run.
pub record MediaWorkerState : Type 0 where
  pub is_quarantine_ticking : Bool
  pub is_shutting_down : Bool
  pub quarantine_timer : Bool
  pub stream_depth_timer : Bool
  pub healthcheck : Bool
  pub email_worker : Bool
  pub replayer : Bool
  pub command_consumer : Bool
  pub identity_consumer : Bool
  pub scans : ℕ

abbrev pub initial : MediaWorkerState
initial = record {
  is_quarantine_ticking = false;
  is_shutting_down = false;
  quarantine_timer = false;
  stream_depth_timer = false;
  healthcheck = false;
  email_worker = false;
  replayer = false;
  command_consumer = false;
  identity_consumer = false;
  scans = 0;
}

-- `tickQuarantine` up to the scan that it awaits.
unfoldable pub tick_quarantine : MediaWorkerState → MediaWorkerState
tick_quarantine w =
    if w.is_quarantine_ticking || w.is_shutting_down
    then w
    else record w { is_quarantine_ticking = true; scans = suc w.scans }

-- The scan has returned or thrown.
unfoldable pub scan_ends : MediaWorkerState → MediaWorkerState
scan_ends w = record w { is_quarantine_ticking = false; scans = w.scans - 1 }

unfoldable pub init_email_worker : Config → MediaWorkerState → MediaWorkerState
init_email_worker config w =
    if not config.redis_url || not config.email_queue_encryption_key
    then w
    else record w { email_worker = true }

-- `startMediaCommandWorker` and `startIdentityEventConsumer` up to the waits for their consumers.
unfoldable pub start_media_command_worker : Config → MediaWorkerState → MediaWorkerState
start_media_command_worker config w = record w {
  command_consumer = w.command_consumer || config.stream_connection;
}

unfoldable pub start_identity_event_consumer : Config → MediaWorkerState → MediaWorkerState
start_identity_event_consumer config w = record w {
  identity_consumer = w.identity_consumer || config.stream_connection;
}

-- `startMediaWorker` up to its first wait; `false` is its error.
unfoldable pub start_media_worker : Config → MediaWorkerState → Bool × MediaWorkerState
start_media_worker config w =
    let reset = record w { is_shutting_down = false } in
    if not config.redis_url then (false, reset) else (true, start_media_command_worker config reset)

-- The parts that are started after the waits for the two consumers.
unfoldable pub start_parts : Config → MediaWorkerState → MediaWorkerState
start_parts config w =
    record (init_email_worker config
      (record w { replayer = w.replayer || ltb 0 config.dlq_auto_replay_interval_ms })) {
        healthcheck = true;
      }

-- From these waits up to the first tick's own wait.
unfoldable pub first_tick : Config → MediaWorkerState → MediaWorkerState
first_tick config w = tick_quarantine (start_parts config w)

-- The end of `startMediaWorker`.
unfoldable pub set_timers : MediaWorkerState → MediaWorkerState
set_timers w = record w { quarantine_timer = true; stream_depth_timer = true }

-- `stopMediaWorker` up to its wait.
unfoldable pub shut_down : MediaWorkerState → MediaWorkerState
shut_down w = record w {
  is_shutting_down = true;
  quarantine_timer = false;
  stream_depth_timer = false;
}

-- Whether there is a connection to Redis, and whether the stop of each consumer succeeds.
pub record Closing : Type 0 where
  pub connection : Bool
  pub command_stops : Bool
  pub identity_stops : Bool

unfoldable pub stop_media_command_worker : Closing → MediaWorkerState → MediaWorkerState
stop_media_command_worker closing w = record w {
  command_consumer = w.command_consumer && not (closing.connection && closing.command_stops);
}

unfoldable pub stop_identity_event_consumer : Closing → MediaWorkerState → MediaWorkerState
stop_identity_event_consumer closing w = record w {
  identity_consumer = w.identity_consumer && not (closing.connection && closing.identity_stops);
}

-- The end of `stopMediaWorker`.
unfoldable pub close : Closing → MediaWorkerState → MediaWorkerState
close closing w = stop_media_command_worker closing (
    stop_identity_event_consumer closing
      (record w { healthcheck = false; replayer = false; email_worker = false }))

-- What may happen to the worker, in any order.
pub data Step (w : MediaWorkerState) : MediaWorkerState → Type 0 where
  starts : (config : Config) → Step w (start_media_worker config w).1
  identity_starts : (config : Config) → Step w (start_identity_event_consumer config w)
  parts_start : (config : Config) → Step w (first_tick config w)
  ticks : Step w (tick_quarantine w)
  ends : 0 < w.scans → Step w (scan_ends w)
  sets_timers : Step w (set_timers w)
  shuts_down : Step w (shut_down w)
  closes : (closing : Closing) → Step w (close closing w)

pub data Reaches : MediaWorkerState → Type 0 where
  begins : Reaches initial
  steps : {w w' : MediaWorkerState} → Reaches w → Step w w' → Reaches w'

-- The wait of `stopMediaWorker`, on fuel: whether a scan ticks at a time, and the time at which a
-- timer of 100 ms fires. It gives the time at which it ends.
unfoldable pub wait_idle : (ℕ → Bool) → (ℕ → ℕ) → ℕ → ℕ → ℕ → Option ℕ
wait_idle ticking sleep zero deadline now = none
wait_idle ticking sleep (suc fuel) deadline now =
    let rest = wait_idle ticking sleep fuel deadline (sleep now) in
    if ticking now && ltb now deadline then rest else some now
