-- ===== src/Identity.antt =====
-- src/workers/identity-event.worker.ts: what the service does when a user is registered or deleted. The
-- consumer of the stream and `resolveDeterministicAvatar` are the contracts library's; the second is
-- a parameter.
pub mod Handled
use crm_media.Base.{
  ℕ, Bool, true, false, List, [], ◌∷◌, Option, none, some, Text, codes, text_eq, get_or,
  if◌then◌else◌,
}
use crm_media.Effects.Defs.{user_avatar_inserted, Env, M, ◌>>=◌, ◌>>◌, return, emit, done_or_throw}
use crm_media.Dlq.{truthy}
use crm_media.Media.Documents.{anonymize_user_pii}
use crm_media.Commands.Worker.{count_metric, versioned}

pub record AuthIdentityEvent : Type 0 where
  pub type : Text
  pub user_sub : Option Text
  pub version : Option ℕ

-- A handler returns or rejects the event for good; any other error is thrown.
pub data Handling : Type 0 where
  handled invalid_schema : Handling

module _ (env : Env) (resolve_deterministic_avatar : Text → ℕ × Text) where
  unfoldable pub count_event : Text → AuthIdentityEvent → M (Unit {0})
  count_event type event t =
      (if env.has_redis t
          then count_metric env (codes "metrics:events:processed")
              (versioned type (get_or event.version 1))
          else return tt)
        t

  -- `onConflictDoNothing`: the call succeeds if the user has an avatar.
  unfoldable pub assign_avatar : Text → M (Unit {0})
  assign_avatar user_sub t =
      let fallback = resolve_deterministic_avatar user_sub in
      let done = env.insert_user_avatar t user_sub fallback.0 fallback.1 in
      (emit (user_avatar_inserted user_sub fallback.0 fallback.1 done) >> done_or_throw done) t

  unfoldable pub register_user : AuthIdentityEvent → Option Text → M Handling
  register_user event none = return invalid_schema
  register_user event (some user_sub) = do
    assign_avatar user_sub
    count_event (codes "user.registered") event
    return handled

  unfoldable pub handle_user_registered : AuthIdentityEvent → M Handling
  handle_user_registered event = register_user event (truthy event.user_sub)

  unfoldable pub delete_user : AuthIdentityEvent → Option Text → M Handling
  delete_user event none = return invalid_schema
  delete_user event (some user_sub) = do
    anonymize_user_pii env user_sub
    count_event (codes "user.deleted") event
    return handled

  unfoldable pub handle_user_deleted : AuthIdentityEvent → M Handling
  handle_user_deleted event = delete_user event (truthy event.user_sub)

  unfoldable pub handle_identity_event : AuthIdentityEvent → M Handling
  handle_identity_event event =
      if text_eq event.type (codes "user.registered")
      then handle_user_registered event
      else if text_eq event.type (codes "user.deleted")
      then handle_user_deleted event
      else return handled
