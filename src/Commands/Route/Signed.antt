-- ===== src/Commands/Route/Signed.antt =====
-- What the internal route answers, and that it runs no command whose token is not signed.
use crm_media.Base.{◌/◌, ◌≡◌, refl, ◌≢◌, ◌⊎◌, inl, inr, ◌↔◌, Option, none, some, codes}
use crm_media.Effects.Defs.{
  app_error, thrown, unfinished, Trace, Env, Outcome, ok, err, then_do, handle, ◌>>=◌, return,
  throw, catch,
}
use crm_media.Commands.{
  MediaCommand, Verifier, Verdict, accepted, non_retryable, not_configured,
  failed as failed_verdict, verify_media_command_signature,
}
use crm_media.Commands.Signed.{IsSigned, not-IsSigned, verify_media_command_signature-IsSigned}
use crm_media.Commands.Execute.{Response, execute_command}
use crm_media.Commands.Route.{
  Reply, invalid_command, unsigned, executed, failed, failed_reply, execute_or_fail,
  reply_to_verdict, post_command,
}

-- The answer for the end of `executeCommand`, on the trace that it leaves.
abbrev pub Ran : MediaCommand → Outcome Response × Trace → Outcome Reply × Trace → Type 0
Ran c (ok response, t) o = o ≡ (ok (executed response), t)
Ran c (err (app_error n s), t) o =
    o ≡ (ok (failed c.correlation_id c.object_key n (some (codes s))), t)
Ran c (err thrown, t) o = o ≡ (ok (failed c.correlation_id c.object_key 500 none), t)
Ran c (err unfinished, t) o = o ≡ (err unfinished, t)

module _ (env : Env) (v : Verifier) where
  abbrev pub RouteSpec : Option (Option MediaCommand) → Trace → Outcome Reply × Trace → Type 0
  RouteSpec none t o = o ≡ (err (app_error 400 "Cuerpo de solicitud JSON inválido"), t)
  RouteSpec (some none) t o = o ≡ (ok invalid_command, t)
  RouteSpec (some (some c)) t o =
      (IsSigned v c (env.now t / 1000) × Ran c (execute_command env c t) o)
      ⊎ (¬ IsSigned v c (env.now t / 1000) × (verdict : Verdict) × (o ≡ (ok (unsigned verdict), t)))

  execute_or_fail-Ran :
      (c : MediaCommand) (t : Trace) → Ran c (execute_command env c t) (execute_or_fail env v c t)
  unfolding execute_or_fail catch ◌>>=◌ return failed_reply
  execute_or_fail-Ran c t = go (execute_command env c t)
    where
      go :
          (o : Outcome Response × Trace)
          → Ran c o (
              handle
                (then_do o (λ result. return (executed result)))
                λ e. return (failed_reply c e))
      go (ok response, t') = refl
      go (err (app_error n s), t') = refl
      go (err thrown, t') = refl
      go (err unfinished, t') = refl

  -- A body that is no JSON throws status 400 and one that is no command is answered so; a command
  -- whose token is not signed is answered as unsigned; neither makes any call. A signed command is
  -- executed, and the answer is its result, the status and text of its `AppError`, or status 500 for
  -- another error.
  pub post_command-RouteSpec :
      (body : Option (Option MediaCommand)) (t : Trace)
      → RouteSpec body t (post_command env v body t)
  unfolding post_command throw return reply_to_verdict
  post_command-RouteSpec none t = refl
  post_command-RouteSpec (some none) t = refl
  post_command-RouteSpec (some (some c)) t =
      go (verify_media_command_signature v c (env.now t / 1000)) refl
    where
      signed :
          (verify_media_command_signature v c (env.now t / 1000) ≡ accepted)
          ↔ IsSigned v c (env.now t / 1000)
      signed = verify_media_command_signature-IsSigned v c (env.now t / 1000)

      refused :
          (verdict : Verdict)
          → verify_media_command_signature v c (env.now t / 1000) ≡ verdict
          → accepted ≢ verdict
          → ¬ IsSigned v c (env.now t / 1000)
      refused = not-IsSigned v c (env.now t / 1000)

      go :
          (verdict : Verdict)
          → verify_media_command_signature v c (env.now t / 1000) ≡ verdict
          → (IsSigned v c (env.now t / 1000)
              × Ran c (execute_command env c t) (reply_to_verdict env v c verdict t))
            ⊎ (¬ IsSigned v c (env.now t / 1000)
                × (verdict' : Verdict) × (reply_to_verdict env v c verdict t
                    ≡ (ok (unsigned verdict'), t)))
      go accepted e = inl (signed.0 e, execute_or_fail-Ran c t)
      go (non_retryable r) e = inr (refused (non_retryable r) e (λ h. cc), non_retryable r, refl)
      go not_configured e = inr (refused not_configured e (λ h. cc), not_configured, refl)
      go failed_verdict e = inr (refused failed_verdict e (λ h. cc), failed_verdict, refl)
