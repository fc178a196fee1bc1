-- ===== src/Effects/Triple.antt =====
-- Pre- and postconditions of computations: what holds of the trace on return and on a throw.
use crm_media.Base.{◌≡◌, refl, ◌∷◌, Bool, true, false, Option, none, some, if◌then◌else◌}
use crm_media.Effects.Defs.{
  ◌>>◌, emit, done_or_throw, value_or_throw, reject_if, Event, Failure, Trace, Outcome, ok, err, M,
  then_do, ◌>>=◌, return, throw,
}

abbrev pub Post :
    {A : Type 0} → (A → Trace → Type 0) → (Failure → Trace → Type 0) → Outcome A × Trace → Type 0
Post R E (ok a, t) = R a t
Post R E (err e, t) = E e t

-- From a trace of `P` the computation returns in `R` or throws in `E`.
pub record Triple {A : Type 0} (P : Trace → Type 0) (m : M A) (R : A → Trace → Type 0)
    (E : Failure → Trace → Type 0) : Type 0 where
  pub run : (t : Trace) → P t → Post R E (m t)

module _ {A B : Type 0} {P : Trace → Type 0} {R : A → Trace → Type 0} {S : B → Trace → Type 0}
    {E : Failure → Trace → Type 0} where
  -- The rule for a sequence.
  pub bind :
      {m : M A} {f : A → M B}
      → Triple P m R E
      → ((a : A) → Triple (R a) (f a) S E)
      → Triple P (m >>= f) S E
  unfolding ◌>>=◌
  bind {m} {f} hm hf = record { run = λ t p. go (m t) (hm.run t p) }
    where
      go : (r : Outcome A × Trace) → Post R E r → Post S E (then_do r f)
      go (ok a, t') h = (hf a).run t' h
      go (err e, t') h = h

module _ {A : Type 0} {P : Trace → Type 0} {R : A → Trace → Type 0}
    {E : Failure → Trace → Type 0} where
  pub branch :
      (b : Bool) {m n : M A} → Triple P m R E → Triple P n R E → Triple P (if b then m else n) R E
  branch true hm hn = hm
  branch false hm hn = hn

  pub weaken :
      {m : M A} {Q : Trace → Type 0} → Triple Q m R E → ((t : Trace) → P t → Q t) → Triple P m R E
  weaken h k = record { run = λ t p. h.run t (k t p) }

-- A weaker conclusion.
module _ {A : Type 0} {P : Trace → Type 0} {R S : A → Trace → Type 0}
    {E F : Failure → Trace → Type 0} where
  pub conclude :
      {m : M A}
      → Triple P m R E
      → ((a : A) (t : Trace) → R a t → S a t)
      → ((e : Failure) (t : Trace) → E e t → F e t)
      → Triple P m S F
  conclude {m} h k l = record { run = λ t p. go (m t) (h.run t p) }
    where
      go : (r : Outcome A × Trace) → Post R E r → Post S F r
      go (ok a, t) x = k a t x
      go (err e, t) x = l e t x

-- Two specifications of one computation hold together.
module _ {A : Type 0} {P Q : Trace → Type 0} {R S : A → Trace → Type 0}
    {E F : Failure → Trace → Type 0} where
  pub both :
      {m : M A}
      → Triple P m R E
      → Triple Q m S F
      → Triple (λ t. P t × Q t) m (λ a t. R a t × S a t) (λ e t. E e t × F e t)
  both {m} h k = record { run = λ t p. go (m t) (h.run t p.0) (k.run t p.1) }
    where
      go :
          (r : Outcome A × Trace)
          → Post R E r
          → Post S F r
          → Post (λ a t. R a t × S a t) (λ e t. E e t × F e t) r
      go (ok a, t) x y = (x, y)
      go (err e, t) x y = (x, y)

abbrev pub Anything : Trace → Type 0
Anything t = Unit

-- Nothing is claimed of a computation.
pub anything : {A : Type 0} (m : M A) → Triple Anything m (λ _. Anything) (λ _. Anything)
anything {A} m = record { run = λ t p. go (m t) }
  where
    go : (r : Outcome A × Trace) → Post (λ _. Anything) (λ _. Anything) r
    go (ok a, t) = tt
    go (err e, t) = tt

-- The value that a call returned is the one that it had.
pub value_eq :
    {A : Type 0} (o : Option A)
    → Triple Anything (value_or_throw o) (λ v t. o ≡ some v) (λ _. Anything)
unfolding value_or_throw return throw
value_eq none = record { run = λ t p. tt }
value_eq (some a) = record { run = λ t p. refl }

-- A fact about values alone is a hypothesis of the rest.
pub assume :
    {A H : Type 0} {m : M A} {R : A → Trace → Type 0} {E : Failure → Trace → Type 0}
    → (H → Triple Anything m R E)
    → Triple (λ _. H) m R E
assume f = record { run = λ t h. (f h).run t tt }

module _ {A : Type 0} {P : Trace → Type 0} {R : A → Trace → Type 0}
    {E : Failure → Trace → Type 0} where
  -- A branch may use the value of its test.
  pub branch_eq :
      (b : Bool) {m n : M A}
      → (b ≡ true → Triple P m R E)
      → (b ≡ false → Triple P n R E)
      → Triple P (if b then m else n) R E
  branch_eq true hm hn = hm refl
  branch_eq false hm hn = hn refl

  pub given : {H : Type 0} {m : M A} → (H → Triple P m R E) → Triple (λ t. H × P t) m R E
  given f = record { run = λ t p. (f p.0).run t p.1 }

module _ {P : Trace → Type 0} {E : Failure → Trace → Type 0} where
  -- After a guard its test is known to have failed.
  pub guard_eq :
      {B : Type 0} (b : Bool) (e : Failure) {m : M B} {S : B → Trace → Type 0}
      → ((t : Trace) → P t → E e t)
      → (b ≡ false → Triple P m S E)
      → Triple P (reject_if b e >> m) S E
  unfolding reject_if throw return ◌>>=◌
  guard_eq true e k h = record { run = λ t p. k t p }
  guard_eq false e k h = record { run = λ t p. (h refl).run t p }

module _ {A : Type 0} {P : Trace → Type 0} {R : A → Trace → Type 0}
    {E : Failure → Trace → Type 0} where
  pub returns : (a : A) → ((t : Trace) → P t → R a t) → Triple P (return a) R E
  unfolding return
  returns a h = record { run = h }

  pub throws : (e : Failure) → ((t : Trace) → P t → E e t) → Triple P (throw e) R E
  unfolding throw
  throws e h = record { run = h }

-- A call whose reply says whether it succeeded leaves its event on the trace.
abbrev pub Emitted : Event → (Trace → Type 0) → Trace → Type 0
Emitted e P t' = (t : Trace) × (t' ≡ e ∷ t) × P t

pub emitted :
    {P : Trace → Type 0} (event : Bool → Event) (reply : Trace → Bool)
    → Triple P
        (λ t. (emit (event (reply t)) >> done_or_throw (reply t)) t)
        (λ _. Emitted (event true) P)
        (λ _. Anything)
unfolding emit done_or_throw ◌>>=◌ return throw
emitted {P} event reply = record { run = λ t p. go t p (reply t) }
  where
    go :
        (t : Trace)
        → P t
        → (b : Bool)
        → Post (λ _. Emitted (event true) P) (λ _. Anything) (done_or_throw b (event b ∷ t))
    go t p true = (t, refl, p)
    go t p false = tt
