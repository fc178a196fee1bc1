-- ===== src/Standby/Warmup.antt =====
-- The waits of src/shared/security/clamav-standby.controller.ts: `ensureReady` and
-- `backgroundWarmupPoll`, with the rest of the process acting on the controller meanwhile. The code
-- between two waits takes no time.
pub mod Ends
pub mod Wakes
use crm_media.Base.{
  ℕ, zero, suc, ◌+◌, Bool, true, false, List, [], ◌∷◌, Option, none, some, ltb, if◌then◌else◌,
}
use crm_media.Standby.{
  ClamavState, standby, warming_up, ready, Controller, trigger_warmup, ensure_ready_begins,
  ping_answered, Action, act,
}

-- The world around the controller. `ping limit start` is the answer of the scanner and the time at
-- which it arrives, `none` if neither data nor an error nor the timeout ever comes: then the promise
-- never settles; `sleep d start` is the time at which a timer fires; `others start end` is what
-- the rest of the process does to the controller between these times.
pub record World : Type 0 where
  pub ping : ℕ → ℕ → Option (Bool × ℕ)
  pub sleep : ℕ → ℕ → ℕ
  pub others : ℕ → ℕ → List Action

unfoldable pub act_all : ℕ → List Action → Controller → Controller
act_all idle [] c = c
act_all idle (a ∷ actions) c = act_all idle actions (act idle a c)

abbrev pub is_ready : ClamavState → Bool
is_ready ready = true
is_ready _ = false

abbrev pub is_warming : ClamavState → Bool
is_warming warming_up = true
is_warming _ = false

-- A time and the controller at it.
pub record At : Type 0 where
  pub time : ℕ
  pub controller : Controller

-- How a wait ends: with an answer, or never, at a ping that does not settle; `no_fuel` says that the
-- fuel of the model ran out.
pub data Wait : Type 0 where
  ended : Bool → At → Wait
  hangs no_fuel : Wait

-- The code after a ping, by its answer.
unfoldable pub after : Option (Bool × At) → (At → Wait) → Wait
after none rest = hangs
after (some (true, a)) rest = ended true a
after (some (false, a)) rest = rest a

module _ (w : World) (idle : ℕ) where
  unfoldable pub meanwhile : ℕ → ℕ → Controller → Controller
  meanwhile start end c = act_all idle (w.others start end) c

  -- What an answer at a time leaves.
  unfoldable pub answered : Bool → ℕ → ℕ → Controller → At
  answered answer now arrival c =
      let later = meanwhile now arrival c in
      record { time = arrival; controller = if answer then ping_answered later else later }

  -- `pingClamavTcp`: its answer, and what it leaves; `none` where it does not settle.
  unfoldable pub ping_clamav_tcp : ℕ → ℕ → Controller → Option (Bool × At)
  ping_clamav_tcp limit now c = elim (w.ping limit now) [
    | none ↦ none
    | some (answer, arrival) ↦ some (answer, answered answer now arrival c)
  ]

  unfoldable pub sleep_at : ℕ → At → At
  sleep_at d a = record {
    time = w.sleep d a.time;
    controller = meanwhile a.time (w.sleep d a.time) a.controller;
  }

  -- The loop of `ensureReady`, on fuel.
  unfoldable pub wait_ready : ℕ → ℕ → At → Wait
  wait_ready zero deadline a = no_fuel
  wait_ready (suc fuel) deadline a =
      let rest : At → Wait = λ a'. wait_ready fuel deadline (sleep_at 300 a') in
      if ltb a.time deadline
      then after (ping_clamav_tcp 1000 a.time a.controller) rest
      else ended false a

  -- From `triggerWarmup` on.
  unfoldable pub warm_and_wait : ℕ → ℕ → At → Wait
  warm_and_wait fuel timeout_ms a =
      wait_ready fuel (a.time + timeout_ms)
        (record { time = a.time; controller = trigger_warmup a.time a.controller })

  unfoldable pub ensure_ready : ℕ → ℕ → At → Wait
  ensure_ready fuel timeout_ms a =
      let c = ensure_ready_begins a.time a.controller in
      if is_ready c.state
      then after (ping_clamav_tcp 1000 a.time c) (warm_and_wait fuel timeout_ms)
      else warm_and_wait fuel timeout_ms (record { time = a.time; controller = c })

  -- `backgroundWarmupPoll`, by the attempts that are left; `none` hangs at a ping.
  unfoldable pub background_warmup_poll : ℕ → ℕ → At → Option At
  background_warmup_poll zero delay_ms a = some a
  background_warmup_poll (suc attempts) delay_ms a =
      let rest : At → Option At =
        λ a'. background_warmup_poll attempts delay_ms (sleep_at delay_ms a') in
      if is_warming a.controller.state
      then elim (ping_clamav_tcp 1500 a.time a.controller) [
        | none ↦ none
        | some (true, a') ↦ some a'
        | some (false, a') ↦ rest a'
      ]
      else some a
