-- ===== src/Standby.antt =====
-- src/shared/security/clamav-standby.controller.ts: the life of the virus scanner, which sleeps when
-- it is not used. An operation of the controller between two waits is one action; the answer of
-- the scanner to a ping, which the warm-up and `ensureReady` wait for, is an action of its own.
-- Messages to Redis and to the manager change no state and are left out.
pub mod Awake
pub mod Warmup
use crm_media.Base.{ℕ, suc, ◌+◌, ◌-◌, Bool, true, false, List, [], ◌∷◌, ltb, if◌then◌else◌}

pub data ClamavState : Type 0 where
  standby warming_up ready : ClamavState

pub record Controller : Type 0 where
  pub state : ClamavState
  pub last_activity_at : ℕ
  pub active_scans : ℕ

-- The constructor at its time.
abbrev pub initial : ℕ → Controller
initial now = record { state = standby; last_activity_at = now; active_scans = 0 }

abbrev pub warmed : ClamavState → ClamavState
warmed ready = ready
warmed standby = warming_up
warmed warming_up = warming_up

unfoldable pub trigger_warmup : ℕ → Controller → Controller
trigger_warmup now c = record {
  state = warmed c.state;
  last_activity_at = now;
  active_scans = c.active_scans;
}

-- `ensureReady` up to its first ping.
unfoldable pub ensure_ready_begins : ℕ → Controller → Controller
ensure_ready_begins now c = record {
  state = c.state;
  last_activity_at = now;
  active_scans = c.active_scans;
}

-- A scanner that is not ready is warmed up as in `triggerWarmup`, at the same time.
unfoldable pub notify_scan_started : ℕ → Controller → Controller
notify_scan_started now c = record {
  state = warmed c.state;
  last_activity_at = now;
  active_scans = suc c.active_scans;
}

-- `Math.max(0, this.activeScans - 1)`
unfoldable pub notify_scan_completed : ℕ → Controller → Controller
notify_scan_completed now c = record {
  state = c.state;
  last_activity_at = now;
  active_scans = c.active_scans - 1;
}

-- The end of `evaluateIdleTimeout`, by the state; a scanner on standby stays as it is.
abbrev pub suspend : ClamavState → Controller → Bool × Controller
suspend standby c = (false, c)
suspend _ c = (
  true,
  record { state = standby; last_activity_at = c.last_activity_at; active_scans = c.active_scans },
)

-- `idleTime < this.idleTimeoutMs` is `now < lastActivityAt + idleTimeoutMs`.
unfoldable pub evaluate_idle_timeout : ℕ → ℕ → Controller → Bool × Controller
evaluate_idle_timeout timeout now c =
    if ltb 0 c.active_scans
    then (false, c)
    else if ltb now (c.last_activity_at + timeout)
    then (false, c)
    else suspend c.state c

-- `PONG` has arrived.
unfoldable pub ping_answered : Controller → Controller
ping_answered c = record {
  state = ready;
  last_activity_at = c.last_activity_at;
  active_scans = c.active_scans;
}

-- What may happen to the controller, in any order.
pub data Action : Type 0 where
  warmup ensure started completed idle_check : ℕ → Action
  pong : Action

unfoldable pub act : ℕ → Action → Controller → Controller
act timeout (warmup now) c = trigger_warmup now c
act timeout (ensure now) c = ensure_ready_begins now c
act timeout (started now) c = notify_scan_started now c
act timeout (completed now) c = notify_scan_completed now c
act timeout (idle_check now) c = (evaluate_idle_timeout timeout now c).1
act timeout pong c = ping_answered c

-- The controllers that some order of actions reaches.
pub data Reaches (timeout : ℕ) : Controller → Type 0 where
  starts : (now : ℕ) → Reaches timeout (initial now)
  acts : {c : Controller} (a : Action) → Reaches timeout c → Reaches timeout (act timeout a c)
