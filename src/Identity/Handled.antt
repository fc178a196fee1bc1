-- ===== src/Identity/Handled.antt =====
-- What an event of a user's life leaves on the trace.
use crm_media.Base.{ℕ, ◌≡◌, ◌≢◌, ◌⊎◌, Bool, true, Option, none, some, List, ◌∷◌, Text, codes}
use crm_media.Effects.Defs.{MediaAsset, user_avatar_inserted, metric_counted, Trace, Env}
use crm_media.Effects.Triple.{Triple}
use crm_media.Dlq.{truthy}
use crm_media.Media.Documents.{find_user_assets}
use crm_media.Media.Documents.Erase.{IsErased}
use crm_media.Media.Documents.Removals.{AllTried}
use crm_media.Identity.{AuthIdentityEvent, Handling, handled, invalid_schema}

-- The calls of `P`, and at most a counter after them.
abbrev pub ThenCounted : (Trace → Type 0) → Trace → Type 0
ThenCounted P t' =
    P t'
    ⊎ ((t : Trace) × (key name : Text) × (r : Bool) × (t' ≡ metric_counted key name r ∷ t) × P t)

module _ (env : Env) (resolve : Text → ℕ × Text) (event : AuthIdentityEvent) (t : Trace) where
  abbrev pub Assigned : Text → Trace → Type 0
  Assigned user_sub t' =
      t' ≡ user_avatar_inserted user_sub (resolve user_sub).0 (resolve user_sub).1 true ∷ t

  -- The event is rejected without its user, else its effect holds when the handler has returned.
  abbrev pub ForUser : (Text → Trace → Type 0) → Option Text → Handling → Trace → Type 0
  ForUser P none h t' = (h ≡ invalid_schema) × (t' ≡ t)
  ForUser P (some user_sub) h t' = (h ≡ handled) × ThenCounted (P user_sub) t'

  -- The files of the user that the query finds, and what their erasure leaves.
  abbrev pub Erased : Text → Trace → Type 0
  Erased user_sub t' =
      (assets : List (Text × MediaAsset)) × (env.find_user_assets t user_sub ≡ some assets)
      × IsErased env user_sub assets t'
      × AllTried assets t'

  abbrev pub IdentitySpec : Handling → Trace → Type 0
  IdentitySpec h t' =
      (event.type ≡ codes "user.registered" → ForUser Assigned (truthy event.user_sub) h t')
      × (event.type ≡ codes "user.deleted" → ForUser Erased (truthy event.user_sub) h t')
      × (event.type ≢ codes "user.registered"
          → event.type ≢ codes "user.deleted"
          → (h ≡ handled) × (t' ≡ t))
