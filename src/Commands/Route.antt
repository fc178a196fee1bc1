-- ===== src/Commands/Route.antt =====
-- src/modules/media/internal-documents.routes.ts: the internal route that runs a command. The schema of
-- the contracts library is a parameter: a body is `none` if it is no JSON and an inner `none` if it
-- is no command.
pub mod Signed
use crm_media.Base.{ℕ, ◌/◌, Option, none, some, Text, codes}
use crm_media.Effects.Defs.{
  Failure, app_error, thrown, unfinished, Env, M, ◌>>=◌, return, throw, catch,
}
use crm_media.Commands.{MediaCommand, Verifier, Verdict, accepted, verify_media_command_signature}
use crm_media.Commands.Execute.{Response, execute_command}

-- The answers with a body. The text of an error that is no `AppError` is `none`.
pub data Reply : Type 0 where
  invalid_command : Reply
  unsigned : Verdict → Reply
  executed : Response → Reply
  failed : Text → Text → ℕ → Option Text → Reply

unfoldable pub status : Reply → ℕ
status invalid_command = 400
status (unsigned verdict) = 401
status (executed response) = 200
status (failed correlation_id object_key status_code message) = status_code

unfoldable pub failed_reply : MediaCommand → Failure → Reply
failed_reply c (app_error n s) = failed c.correlation_id c.object_key n (some (codes s))
failed_reply c thrown = failed c.correlation_id c.object_key 500 none
failed_reply c unfinished = failed c.correlation_id c.object_key 500 none

module _ (env : Env) (v : Verifier) where
  unfoldable pub execute_or_fail : MediaCommand → M Reply
  execute_or_fail c =
      catch (execute_command env c >>= λ result. return (executed result))
        (λ e. return (failed_reply c e))

  unfoldable pub reply_to_verdict : MediaCommand → Verdict → M Reply
  reply_to_verdict c accepted = execute_or_fail c
  reply_to_verdict c verdict = return (unsigned verdict)

  unfoldable pub post_command : Option (Option MediaCommand) → M Reply
  post_command none = throw (app_error 400 "Cuerpo de solicitud JSON inválido")
  post_command (some none) = return invalid_command
  post_command (some (some c)) =
      λ t. reply_to_verdict c (verify_media_command_signature v c (env.now t / 1000)) t
