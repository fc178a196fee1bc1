-- ===== src/Standby/Warmup/Ends.antt =====
-- The waits end, and all that they do to the controller are its actions.
use crm_media.Base.{
  ℕ, zero, suc, ◌+◌, ◌*◌, ◌≤◌, ◌<◌, ◌≡◌, refl, arith, Bool, true, false, List, [], ◌∷◌, Option,
  none, some, ltb, ltb→lt, if◌then◌else◌,
}
use crm_media.Standby.{
  ready, Controller, ensure_ready_begins, ping_answered, Action, act, warmup, ensure, pong, Reaches,
  acts,
}
use crm_media.Standby.Warmup.{
  World, act_all, is_ready, is_warming, At, Wait, ended, hangs, no_fuel, after, meanwhile, answered,
  ping_clamav_tcp, sleep_at, wait_ready, warm_and_wait, ensure_ready, background_warmup_poll,
}

-- What is assumed of the clock: pings and timers do not end before they begin, nor timers early.
pub record Ticks (w : World) : Type 0 where
  pub ping :
      (limit now : ℕ) (answer : Bool) (arrival : ℕ)
      → w.ping limit now ≡ some (answer, arrival)
      → now ≤ arrival
  pub sleep : (d now : ℕ) → now + d ≤ w.sleep d now

module _ (w : World) (idle : ℕ) where
  act_all-Reaches :
      (actions : List Action) (c : Controller)
      → Reaches idle c
      → Reaches idle (act_all idle actions c)
  unfolding act_all
  act_all-Reaches [] c h = h
  act_all-Reaches (a ∷ actions) c h = act_all-Reaches actions (act idle a c) (acts a h)

  meanwhile-Reaches :
      (start end : ℕ) (c : Controller)
      → Reaches idle c
      → Reaches idle (meanwhile w idle start end c)
  unfolding meanwhile
  meanwhile-Reaches start end c h = act_all-Reaches (w.others start end) c h

  answered-Reaches :
      (answer : Bool) (now arrival : ℕ) (c : Controller)
      → Reaches idle c
      → Reaches idle (answered w idle answer now arrival c).controller
  unfolding answered act
  answered-Reaches true now arrival c h = acts pong (meanwhile-Reaches now arrival c h)
  answered-Reaches false now arrival c h = meanwhile-Reaches now arrival c h

  sleep_at-Reaches :
      (d : ℕ) (a : At) → Reaches idle a.controller → Reaches idle (sleep_at w idle d a).controller
  unfolding sleep_at
  sleep_at-Reaches d a h = meanwhile-Reaches a.time (w.sleep d a.time) a.controller h

  pub answered-time :
      (answer : Bool) (now arrival : ℕ) (c : Controller)
      → (answered w idle answer now arrival c).time ≡ arrival
  unfolding answered
  answered-time answer now arrival c = refl

  -- A wait has ended, and with `true` only with a scanner that is ready; or it hangs at a ping that
  -- does not settle.
  abbrev pub Returned : Wait → Type 0
  Returned no_fuel = ⊥
  Returned hangs = (limit now : ℕ) × (w.ping limit now ≡ none)
  Returned (ended b a) = Reaches idle a.controller × (b ≡ true → a.controller.state ≡ ready)

  pub answered-ready :
      (now arrival : ℕ) (c : Controller)
      → (answered w idle true now arrival c).controller.state ≡ ready
  unfolding answered ping_answered
  answered-ready now arrival c = refl

  -- The poll in the background.
  abbrev pub Polled : Option At → Type 0
  Polled none = (limit now : ℕ) × (w.ping limit now ≡ none)
  Polled (some a) = Reaches idle a.controller

  -- It does nothing but the controller's actions either.
  pub background_warmup_poll-Polled :
      (attempts delay_ms : ℕ) (a : At)
      → Reaches idle a.controller
      → Polled (background_warmup_poll w idle attempts delay_ms a)
  unfolding background_warmup_poll ping_clamav_tcp
  background_warmup_poll-Polled zero delay_ms a h = h
  background_warmup_poll-Polled (suc attempts) delay_ms a h =
      go (is_warming a.controller.state) (w.ping 1500 a.time) refl
        (background_warmup_poll-Polled attempts delay_ms)
    where
      go :
          (warming : Bool) (reply : Option (Bool × ℕ))
          → w.ping 1500 a.time ≡ reply
          → ((a' : At)
              → Reaches idle a'.controller
              → Polled (background_warmup_poll w idle attempts delay_ms a'))
          → Polled (
              if warming
              then elim (elim reply as (λ _. Option (Bool × At)) [
                | none ↦ none
                | some (answer, arrival) ↦
                    some (answer, answered w idle answer a.time arrival a.controller)
              ])
                  as (λ _. Option At) [
                    | none ↦ none
                    | some (true, a') ↦ some a'
                    | some (false, a') ↦
                        background_warmup_poll w idle attempts delay_ms
                          (sleep_at w idle delay_ms a')
                  ]
              else some a)
      go false reply e k = h
      go true none e k = (1500, a.time, e)
      go true (some (true, arrival)) e k = answered-Reaches true a.time arrival a.controller h
      go true (some (false, arrival)) e k =
          k (sleep_at w idle delay_ms (answered w idle false a.time arrival a.controller))
            (sleep_at-Reaches delay_ms _ (answered-Reaches false a.time arrival a.controller h))

  module _ (ticks : Ticks w) where
    -- A ping, given what is known of the rest if it is not answered.
    after_ping :
        (limit : ℕ) (a : At) (rest : At → Wait)
        → Reaches idle a.controller
        → ((a' : At) → a.time ≤ a'.time → Reaches idle a'.controller → Returned (rest a'))
        → Returned (after (ping_clamav_tcp w idle limit a.time a.controller) rest)
    unfolding after ping_clamav_tcp
    after_ping limit a rest h k = go (w.ping limit a.time) refl
      where
        left : Bool → ℕ → At
        left answer arrival = answered w idle answer a.time arrival a.controller

        time_of : (arrival : ℕ) → (left false arrival).time ≡ arrival
        time_of arrival = answered-time false a.time arrival a.controller

        go :
            (reply : Option (Bool × ℕ))
            → w.ping limit a.time ≡ reply
            → Returned (
                after
                  (elim reply as (λ _. Option (Bool × At)) [
                    | none ↦ none
                    | some (answer, arrival) ↦ some (answer, left answer arrival)
                  ])
                  rest)
        go none e = (limit, a.time, e)
        go (some (true, arrival)) e = (
          answered-Reaches true a.time arrival a.controller h,
          λ _. answered-ready a.time arrival a.controller,
        )
        go (some (false, arrival)) e =
            k (left false arrival)
              (omega (arith, ticks.ping limit a.time false arrival e, time_of arrival))
              (answered-Reaches false a.time arrival a.controller h)

    sleep-time : (d : ℕ) (a : At) → a.time + d ≤ (sleep_at w idle d a).time
    unfolding sleep_at
    sleep-time d a = ticks.sleep d a.time

    -- One round of the loop, given what is known of the rounds that are left.
    wait_ready-round :
        (fuel deadline : ℕ) (a : At)
        → Reaches idle a.controller
        → (a.time < deadline
            → (a' : At) → a.time + 300 ≤ a'.time
            → Reaches idle a'.controller
            → Returned (wait_ready w idle fuel deadline a'))
        → Returned (wait_ready w idle (suc fuel) deadline a)
    unfolding wait_ready
    wait_ready-round fuel deadline a h rest = go (ltb a.time deadline) refl
      where
        next : At → Wait
        next a' = wait_ready w idle fuel deadline (sleep_at w idle 300 a')

        go :
            (b : Bool)
            → ltb a.time deadline ≡ b
            → Returned (
                if b
                then after (ping_clamav_tcp w idle 1000 a.time a.controller) next
                else ended false a)
        go true before = after_ping 1000 a next h λ a' later k.
            rest (ltb→lt a.time deadline before) (sleep_at w idle 300 a')
              (omega (arith, later, sleep-time 300 a')) (sleep_at-Reaches 300 a' k)
        go false late = (h, λ e. absurd (cc))

    wait_ready-Returned :
        (fuel deadline : ℕ) (a : At)
        → Reaches idle a.controller
        → deadline ≤ a.time + fuel * 300
        → Returned (wait_ready w idle (suc fuel) deadline a)
    wait_ready-Returned zero deadline a h enough =
        wait_ready-round zero deadline a h λ before a' later k. absurd (omega arith)
    wait_ready-Returned (suc fuel) deadline a h enough =
        wait_ready-round (suc fuel) deadline a h
          λ before a' later k. wait_ready-Returned fuel deadline a' k (omega arith)

    warm-Returned :
        (fuel timeout_ms : ℕ) (a : At)
        → Reaches idle a.controller
        → timeout_ms ≤ fuel * 300
        → Returned (warm_and_wait w idle (suc fuel) timeout_ms a)
    unfolding warm_and_wait act
    warm-Returned fuel timeout_ms a h enough =
        wait_ready-Returned fuel (a.time + timeout_ms) _ (acts (warmup a.time) h) (omega arith)

    -- With one unit of fuel for each 300 ms of the timeout and one more, the wait for the scanner
    -- either ends, or hangs at a ping that never settles, which is none that the scanner's side
    -- answers, refuses or lets run into its timeout. This holds whatever the rest of the process does
    -- meanwhile, if pings and timers do not end too early. When the wait ends, the controller is one
    -- that its actions reach, and if it ends with `true` it is ready.
    pub ensure_ready-Returned :
        (fuel timeout_ms : ℕ) (a : At)
        → Reaches idle a.controller
        → timeout_ms ≤ fuel * 300
        → Returned (ensure_ready w idle (suc fuel) timeout_ms a)
    unfolding ensure_ready act
    ensure_ready-Returned fuel timeout_ms a h enough = go (is_ready c.state)
      where
        c : Controller
        c = ensure_ready_begins a.time a.controller

        began : Reaches idle c
        began = acts (ensure a.time) h

        start : At
        start = record { time = a.time; controller = c }

        go :
            (b : Bool)
            → Returned (
                if b
                then after
                    (ping_clamav_tcp w idle 1000 a.time c)
                    (warm_and_wait w idle (suc fuel) timeout_ms)
                else warm_and_wait w idle (suc fuel) timeout_ms start)
        go true =
            after_ping 1000 start _ began λ a' later k. warm-Returned fuel timeout_ms a' k enough
        go false = warm-Returned fuel timeout_ms start began enough
