-- ===== src/Standby/Warmup/Wakes.antt =====
-- A scanner that comes up in time is found: the wait of `ensureReady` returns `true`.
use crm_media.Base.{
  ℕ, zero, suc, ◌+◌, ◌*◌, ◌≤◌, ◌<◌, ◌≡◌, ◌≢◌, refl, arith, inl, inr, Bool-cases, Bool, true, false,
  Option, none, some, ltb, ltb→lt, if◌then◌else◌,
}
use crm_media.Standby.{ready, Controller, ensure_ready_begins}
use crm_media.Standby.Warmup.{
  World, is_ready, At, Wait, ended, after, answered, ping_clamav_tcp, sleep_at, wait_ready,
  warm_and_wait, ensure_ready,
}
use crm_media.Standby.Warmup.Ends.{Ticks, answered-ready}

-- Every ping settles, the scanner answers those from `up` on, and a round of the loop, a ping and a
-- sleep of 300 ms, takes at most `gap`.
pub record ComesUp (w : World) (up gap : ℕ) : Type 0 where
  pub settles : (limit now : ℕ) → w.ping limit now ≢ none
  pub answers : (limit now arrival : ℕ) → up ≤ now → w.ping limit now ≢ some (false, arrival)
  pub round :
      (now arrival : ℕ) (answer : Bool)
      → w.ping 1000 now ≡ some (answer, arrival)
      → w.sleep 300 arrival ≤ now + gap

-- The wait ended with `true` and a scanner that is ready.
abbrev pub Awake : Wait → Type 0
Awake r = (a : At) × (r ≡ ended true a) × (a.controller.state ≡ ready)

lt-ltb : (a b : ℕ) → a < b → ltb a b ≡ true
lt-ltb a b h = ground arith

module _ (w : World) (idle up gap : ℕ) (ticks : Ticks w) (comes_up : ComesUp w up gap) where
  silent-early : (limit now arrival : ℕ) → w.ping limit now ≡ some (false, arrival) → now < up
  silent-early limit now arrival silent = elim (Bool-cases (ltb now up)) [
    | inl early ↦ ltb→lt now up early
    | inr late ↦
        let up_now : up ≤ now = ground arith in
        absurd (comes_up.answers limit now arrival up_now silent)
  ]

  -- A ping, given what is known of the rest if it is not answered.
  after_ping :
      (limit : ℕ) (a : At) (rest : At → Wait)
      → ((a' : At) → w.ping limit a.time ≡ some (false, a'.time) → Awake (rest a'))
      → Awake (after (ping_clamav_tcp w idle limit a.time a.controller) rest)
  unfolding after ping_clamav_tcp answered
  after_ping limit a rest k = go (w.ping limit a.time) refl
    where
      go :
          (reply : Option (Bool × ℕ))
          → w.ping limit a.time ≡ reply
          → Awake (
              after
                (elim reply as (λ _. Option (Bool × At)) [
                  | none ↦ none
                  | some (answer, arrival) ↦
                      some (answer, answered w idle answer a.time arrival a.controller)
                ])
                rest)
      go none e = absurd (comes_up.settles limit a.time e)
      go (some (true, arrival)) e = (
        answered w idle true a.time arrival a.controller,
        refl,
        answered-ready w idle a.time arrival a.controller,
      )
      go (some (false, arrival)) e = k (answered w idle false a.time arrival a.controller) e

  -- A round before the deadline.
  wait_ready-round :
      (fuel deadline : ℕ) (a : At)
      → a.time < deadline
      → ((a' : At)
          → w.ping 1000 a.time ≡ some (false, a'.time)
          → Awake (wait_ready w idle fuel deadline (sleep_at w idle 300 a')))
      → Awake (wait_ready w idle (suc fuel) deadline a)
  unfolding wait_ready
  wait_ready-round fuel deadline a before rest =
      rw (lt-ltb a.time deadline before)
        (after_ping 1000 a (λ a'. wait_ready w idle fuel deadline (sleep_at w idle 300 a')) rest)

  next-time :
      (a a' : At)
      → w.ping 1000 a.time ≡ some (false, a'.time)
      → (a.time + 300 ≤ (sleep_at w idle 300 a').time)
        × ((sleep_at w idle 300 a').time ≤ a.time + gap)
  unfolding sleep_at
  next-time a a' e = (
    omega (arith, ticks.ping 1000 a.time false a'.time e, ticks.sleep 300 a'.time),
    comes_up.round a.time a'.time false e,
  )

  wait_ready-Awake :
      (fuel deadline : ℕ) (a : At)
      → a.time < deadline
      → deadline ≤ a.time + fuel * 300
      → up + gap ≤ deadline
      → Awake (wait_ready w idle (suc fuel) deadline a)
  wait_ready-Awake zero deadline a before enough soon = absurd (omega arith)
  wait_ready-Awake (suc fuel) deadline a before enough soon =
      wait_ready-round (suc fuel) deadline a before λ a' silent.
        wait_ready-Awake fuel deadline (sleep_at w idle 300 a')
          (omega (arith, next-time a a' silent, silent-early 1000 a.time a'.time silent))
          (omega (arith, next-time a a' silent)) soon

  warm-Awake :
      (fuel timeout_ms : ℕ) (a : At)
      → 0 < timeout_ms
      → timeout_ms ≤ fuel * 300
      → up + gap ≤ a.time + timeout_ms
      → Awake (warm_and_wait w idle (suc fuel) timeout_ms a)
  unfolding warm_and_wait
  warm-Awake fuel timeout_ms a some_time enough soon =
      wait_ready-Awake fuel (a.time + timeout_ms) _ (omega arith) (omega arith) soon

  -- A scanner that answers from a time on that is one round of the loop before the timeout is found:
  -- `ensureReady` returns `true` with the scanner ready, whatever it answered before and the rest of
  -- the process does meanwhile. The timeout is positive, every ping settles, pings and timers do not
  -- end too early, and there is one unit of fuel for each 300 ms of the timeout and one more.
  pub ensure_ready-Awake :
      (fuel timeout_ms : ℕ) (a : At)
      → 0 < timeout_ms
      → timeout_ms ≤ fuel * 300
      → up + gap ≤ a.time + timeout_ms
      → Awake (ensure_ready w idle (suc fuel) timeout_ms a)
  unfolding ensure_ready
  ensure_ready-Awake fuel timeout_ms a some_time enough soon = go (is_ready c.state)
    where
      c : Controller
      c = ensure_ready_begins a.time a.controller

      start : At
      start = record { time = a.time; controller = c }

      go :
          (b : Bool)
          → Awake (
              if b
              then after
                  (ping_clamav_tcp w idle 1000 a.time c)
                  (warm_and_wait w idle (suc fuel) timeout_ms)
              else warm_and_wait w idle (suc fuel) timeout_ms start)
      go true = after_ping 1000 start (warm_and_wait w idle (suc fuel) timeout_ms) λ a' silent.
          warm-Awake fuel timeout_ms a' some_time enough
            (omega (arith, ticks.ping 1000 a.time false a'.time silent, soon))
      go false = warm-Awake fuel timeout_ms start some_time enough soon
