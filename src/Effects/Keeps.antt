-- ===== src/Effects/Keeps.antt =====
-- Invariants of the trace: computations that keep them, and the classes of events they survive.
use crm_media.Base.{◌≡◌, refl, ◌∷◌, Bool, true, false, Option, none, some}
use crm_media.Effects.Defs.{
  fuel_exhausted, emit, done_or_throw, value_or_throw, reject_if, Event, object_put, object_deleted,
  asset_inserted, asset_deleted, user_assets_deleted, user_avatar_deleted, user_avatar_inserted,
  logs_anonymized, audit_logged, scan_started, scan_completed, Failure, unfinished, app_error,
  thrown, Trace, Outcome, ok, err, M, handle, catch, return, throw,
}
use crm_media.Effects.Triple.{Post, Triple}

-- A computation that keeps an invariant of the trace, whether it returns or throws.
abbrev pub Keeps : {A : Type 0} → (Trace → Type 0) → M A → Type 0
Keeps I m = Triple I m (λ _. I) (λ _. I)

module _ {I : Trace → Type 0} where
  pub Keeps-return : {A : Type 0} (a : A) → Keeps I (return a)
  unfolding return
  Keeps-return a = record { run = λ t p. p }

  pub Keeps-throw : {A : Type 0} (e : Failure) → Keeps I (throw {A = A} e)
  unfolding throw
  Keeps-throw e = record { run = λ t p. p }

  pub Keeps-emit : (e : Event) → ((t : Trace) → I t → I (e ∷ t)) → Keeps I (emit e)
  unfolding emit
  Keeps-emit e h = record { run = λ t p. h t p }

  pub Keeps-done : (b : Bool) → Keeps I (done_or_throw b)
  unfolding done_or_throw
  Keeps-done true = Keeps-return tt
  Keeps-done false = Keeps-throw thrown

  pub Keeps-value : {A : Type 0} (o : Option A) → Keeps I (value_or_throw o)
  unfolding value_or_throw
  Keeps-value none = Keeps-throw thrown
  Keeps-value (some a) = Keeps-return a

  pub Keeps-reject : (b : Bool) (e : Failure) → Keeps I (reject_if b e)
  unfolding reject_if
  Keeps-reject true e = Keeps-throw e
  Keeps-reject false e = Keeps-return tt

  pub Keeps-catch :
      {A : Type 0} {m : M A} {h : Failure → M A}
      → Keeps I m
      → ((e : Failure) → Keeps I (h e))
      → Keeps I (catch m h)
  unfolding catch
  Keeps-catch {A} {m} {h} hm hh = record { run = λ t p. go (m t) (hm.run t p) }
    where
      go : (r : Outcome A × Trace) → Post (λ _. I) (λ _. I) r → Post (λ _. I) (λ _. I) (handle r h)
      go (ok a, t') q = q
      go (err (app_error n s), t') q = (hh (app_error n s)).run t' q
      go (err thrown, t') q = (hh thrown).run t' q
      go (err unfinished, t') q = q

  pub Keeps-option :
      {A B : Type 0} (o : Option A) {m : M B} {f : A → M B}
      → Keeps I m
      → ((a : A) → Keeps I (f a))
      → Keeps I (elim o [ none ↦ m | some a ↦ f a ])
  Keeps-option none hm hf = hm
  Keeps-option (some a) hm hf = hf a

-- An invariant holds of the trace that is left, whatever the outcome.
pub after : {A : Type 0} {I : Trace → Type 0} {m : M A} → Keeps I m → (t : Trace) → I t → I (m t).1
after {A} {I} {m} h t p = go (m t) (h.run t p)
  where
    go : (r : Outcome A × Trace) → Post (λ _. I) (λ _. I) r → I r.1
    go (ok a, t') q = q
    go (err e, t') q = q

-- The invariant survives each event of a class.
pub record Absorbs (class : Event → Bool) (I : Trace → Type 0) : Type 0 where
  pub apply : (e : Event) → class e ≡ true → (t : Trace) → I t → I (e ∷ t)

-- The events that change neither the store nor the database, and begin or end no scan. The streams
-- and counters of Redis count as neither.
abbrev pub is_read : Event → Bool
is_read (object_put k b m r) = false
is_read (object_deleted k r) = false
is_read (asset_inserted a r) = false
is_read (asset_deleted i r) = false
is_read (user_assets_deleted u r) = false
is_read (user_avatar_deleted u r) = false
is_read (user_avatar_inserted u a c r) = false
is_read (logs_anonymized s e r) = false
is_read (audit_logged a r) = false
is_read scan_started = false
is_read scan_completed = false
is_read fuel_exhausted = false
is_read _ = true

-- The events that leave the database alone, but for reputations.
abbrev pub is_store : Event → Bool
is_store (asset_inserted a r) = false
is_store (asset_deleted i r) = false
is_store (user_assets_deleted u r) = false
is_store (user_avatar_deleted u r) = false
is_store (user_avatar_inserted u a c r) = false
is_store (logs_anonymized s e r) = false
is_store (audit_logged a r) = false
is_store fuel_exhausted = false
is_store _ = true

pub is_read-is_store : (e : Event) → is_read e ≡ true → is_store e ≡ true
is_read-is_store (asset_inserted a r) h = h
is_read-is_store (asset_deleted i r) h = h
is_read-is_store (user_assets_deleted u r) h = h
is_read-is_store (user_avatar_deleted u r) h = h
is_read-is_store (user_avatar_inserted u a c r) h = h
is_read-is_store (logs_anonymized s e r) h = h
is_read-is_store (audit_logged a r) h = h
is_read-is_store fuel_exhausted h = h
is_read-is_store _ h = refl

pub reads_of_store : {I : Trace → Type 0} → Absorbs is_store I → Absorbs is_read I
reads_of_store h = record { apply = λ e r. h.apply e (is_read-is_store e r) }
