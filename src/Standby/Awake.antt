-- ===== src/Standby/Awake.antt =====
-- The scanner is never suspended under a scan, nor before it has been idle for the timeout.
use crm_media.Base.{ℕ, ◌+◌, ◌≤◌, ◌<◌, ◌≡◌, ◌≢◌, refl, false, ltb, arith, Bool-cases, inl, inr}
use crm_media.Standby.{
  ClamavState, standby, warming_up, ready, Controller, warmed, trigger_warmup, ensure_ready_begins,
  notify_scan_started, notify_scan_completed, suspend, evaluate_idle_timeout, ping_answered, Action,
  warmup, ensure, started, completed, idle_check, pong, act, Reaches, starts, acts,
}

-- Under a scan the scanner is awake.
abbrev pub IsAwake : Controller → Type 0
IsAwake c = 0 < c.active_scans → c.state ≢ standby

warmed-ne : (s : ClamavState) → warmed s ≢ standby
warmed-ne standby e = cc
warmed-ne warming_up e = cc
warmed-ne ready e = cc

evaluate-active :
    (timeout now : ℕ) (c : Controller)
    → 0 < c.active_scans
    → evaluate_idle_timeout timeout now c ≡ (false, c)
unfolding evaluate_idle_timeout
evaluate-active timeout now c h = ground arith

suspend-active_scans :
    (s : ClamavState) (c : Controller) → (suspend s c).1.active_scans ≡ c.active_scans
suspend-active_scans standby c = refl
suspend-active_scans warming_up c = refl
suspend-active_scans ready c = refl

evaluate-active_scans :
    (timeout now : ℕ) (c : Controller)
    → (evaluate_idle_timeout timeout now c).1.active_scans ≡ c.active_scans
unfolding evaluate_idle_timeout
evaluate-active_scans timeout now c = ground (arith, suspend-active_scans c.state c)

act-IsAwake : (timeout : ℕ) (a : Action) (c : Controller) → IsAwake c → IsAwake (act timeout a c)
unfolding act trigger_warmup ensure_ready_begins notify_scan_started notify_scan_completed
    ping_answered
act-IsAwake timeout (warmup now) c h = λ p. warmed-ne c.state
act-IsAwake timeout (ensure now) c h = h
act-IsAwake timeout (started now) c h = λ p. warmed-ne c.state
act-IsAwake timeout (completed now) c h = λ p. h (omega (arith, p))
act-IsAwake timeout (idle_check now) c h = λ p.
    let active : 0 < c.active_scans = omega (arith, p, evaluate-active_scans timeout now c) in
    rw (evaluate-active timeout now c active, act) (h active)
act-IsAwake timeout pong c h = λ p e. cc

-- Whatever the order of actions, the scanner is not suspended while a scan is active.
pub Reaches-IsAwake : (timeout : ℕ) (c : Controller) → Reaches timeout c → IsAwake c
Reaches-IsAwake timeout c (starts now) = λ p. absurd (omega (arith, p))
Reaches-IsAwake timeout c' (acts {c} a h) = act-IsAwake timeout a c (Reaches-IsAwake timeout c h)

-- Why an action has suspended the scanner.
abbrev pub IsIdleCheck : ℕ → Action → Controller → Type 0
IsIdleCheck timeout a c =
    (now : ℕ) × (a ≡ idle_check now) × (c.active_scans ≡ 0) × (c.last_activity_at + timeout ≤ now)

-- An action that suspends a scanner that was awake is an idle check, with no active scan and at
-- least the timeout after the last activity.
pub act-IsIdleCheck :
    (timeout : ℕ) (a : Action) (c : Controller)
    → c.state ≢ standby
    → (act timeout a c).state ≡ standby
    → IsIdleCheck timeout a c
unfolding act trigger_warmup ensure_ready_begins notify_scan_started notify_scan_completed
    ping_answered evaluate_idle_timeout
act-IsIdleCheck timeout (warmup now) c ne e = absurd (warmed-ne c.state e)
act-IsIdleCheck timeout (ensure now) c ne e = absurd (ne e)
act-IsIdleCheck timeout (started now) c ne e = absurd (warmed-ne c.state e)
act-IsIdleCheck timeout (completed now) c ne e = absurd (ne e)
act-IsIdleCheck timeout (idle_check now) c ne e = elim (Bool-cases (ltb 0 c.active_scans)) [
  | inl active ↦ absurd (ne (rw (active, act) at e))
  | inr no_scan ↦ elim (Bool-cases (ltb now (c.last_activity_at + timeout))) [
    | inl early ↦ absurd (ne (rw (no_scan, early, act) at e))
    | inr due ↦ (now, refl, ground arith, ground arith)
  ]
]
act-IsIdleCheck timeout pong c ne e = absurd (cc)
