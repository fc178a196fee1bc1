-- ===== src/MediaWorker/Stops.antt =====
-- The stop of the worker comes to its end.
use crm_media.Base.{
  ℕ, zero, suc, ◌+◌, ◌*◌, ◌≤◌, ◌<◌, ◌≡◌, refl, ◌⊎◌, inl, inr, Bool, true, false, ◌&&◌, Option, none,
  some, ltb, arith, if◌then◌else◌,
}
use crm_media.MediaWorker.{wait_idle}

module _ (ticking : ℕ → Bool) (sleep : ℕ → ℕ) (late : (now : ℕ) → now + 100 ≤ sleep now) where
  abbrev pub Waited : ℕ → Option ℕ → Type 0
  Waited deadline none = ⊥
  Waited deadline (some now) = (ticking now ≡ false) ⊎ (deadline ≤ now)

  round :
      (now deadline : ℕ) (rest : Option ℕ)
      → (now < deadline → Waited deadline rest)
      → Waited deadline (if ticking now && ltb now deadline then rest else some now)
  round now deadline rest k = go (ticking now) (ltb now deadline) refl refl
    where
      go :
          (t b : Bool)
          → ticking now ≡ t
          → ltb now deadline ≡ b
          → Waited deadline (if t && b then rest else some now)
      go true true et eb = k (ground arith)
      go true false et eb = inr (ground arith)
      go false b et eb = inl et

  -- With timers that do not fire early and 51 units of fuel, the wait of five seconds ends, when no
  -- scan ticks or the time is over.
  pub wait_idle-Waited :
      (fuel deadline now : ℕ)
      → deadline ≤ now + fuel * 100
      → Waited deadline (wait_idle ticking sleep (suc fuel) deadline now)
  unfolding wait_idle
  wait_idle-Waited zero deadline now enough = round now deadline _ λ before. absurd (omega arith)
  wait_idle-Waited (suc fuel) deadline now enough =
      round now deadline _
        λ before. wait_idle-Waited fuel deadline (sleep now) (omega (arith, late now))
