-- ===== src/Commands/Worker/Answered.antt =====
-- What the handling of a delivered command leaves: a command is executed only if its token is signed,
-- and it counts as processed only with its answer on the stream.
use crm_media.Base.{
  ◌/◌, ◌≡◌, ◌≢◌, refl, ◌⊎◌, inl, inr, Bool, true, false, [], ◌∷◌, some, Text, if◌then◌else◌,
}
use crm_media.Effects.Defs.{
  response_added, Event, Failure, Trace, Env, Outcome, ok, err, ◌>>=◌, return, throw, emit,
  done_or_throw, then_do,
}
use crm_media.Commands.{
  Verifier, Verdict, accepted, non_retryable, not_configured, failed,
  verify_media_command_signature,
}
use crm_media.Commands.Signed.{IsSigned, not-IsSigned, verify_media_command_signature-IsSigned}
use crm_media.Commands.Execute.{Response, execute_command}
use crm_media.Commands.Worker.{
  answered, Envelope, stamp, Delivery, Handling, processed, unverified, process_failed,
  final_trace_id, handling, count_metric, add_response, count_processed, publish_stamped,
  publish_response, process_command, handle_verified, handle_verdict, handle_media_command,
}

abbrev pub Within : Event → Trace → Type 0
Within e [] = ⊥
Within e (e' ∷ t) = (e' ≡ e) ⊎ Within e t

module _ (env : Env) (stringify : Envelope → Text) (v : Verifier) (d : Delivery) (t : Trace) where
  -- The payload that answers the command with a result.
  abbrev pub payload_of : Response → Text
  payload_of result =
      stringify (stamp (some (final_trace_id d.trace_id (env.now t))) (answered result))

  -- The command was executed with this result.
  abbrev pub Executed : Response → Trace → Type 0
  Executed result t1 = execute_command env d.command t ≡ (ok result, t1)

  -- The command was executed, and its answer is on the stream if there is a connection to it.
  abbrev pub IsProcessed : Trace → Type 0
  IsProcessed t' =
      (result : Response) × (t1 : Trace) × Executed result t1
      × ((env.has_redis t1 ≡ false) ⊎ Within (response_added (payload_of result) true) t')

  -- The command failed, or its result could not be put on the stream.
  abbrev pub IsFailed : Failure → Trace → Type 0
  IsFailed e t' =
      (execute_command env d.command t ≡ (err e, t'))
      ⊎ ((result : Response) × (t1 : Trace) × Executed result t1
          × (t' ≡ response_added (payload_of result) false ∷ t1))

  abbrev pub HandledSpec : Handling × Trace → Type 0
  HandledSpec (processed, t') = IsSigned v d.command (env.now t / 1000) × IsProcessed t'
  HandledSpec (unverified verdict, t') =
      ¬ IsSigned v d.command (env.now t / 1000) × (verdict ≢ accepted) × (t' ≡ t)
  HandledSpec (process_failed e, t') = IsSigned v d.command (env.now t / 1000) × IsFailed e t'

  abbrev Spec : Outcome (Unit {0}) × Trace → Type 0
  Spec (ok _, t') = IsProcessed t'
  Spec (err e, t') = IsFailed e t'

  abbrev id : Text
  id = final_trace_id d.trace_id (env.now t)

  module _ (result : Response) (t1 : Trace) (run : Executed result t1) where
    abbrev payload : Text
    payload = payload_of result

    -- Counting a processed command takes nothing from the stream.
    counted :
        (t' : Trace)
        → (env.has_redis t1 ≡ false) ⊎ Within (response_added payload true) t'
        → Spec (count_processed env d t')
    unfolding count_processed count_metric emit return
    counted t' h = go (env.has_redis t') _ _
      where
        more :
            (e : Event)
            → (env.has_redis t1 ≡ false) ⊎ Within (response_added payload true) t'
            → (env.has_redis t1 ≡ false) ⊎ Within (response_added payload true) (e ∷ t')
        more e (inl gone) = inl gone
        more e (inr h) = inr (inr h)

        go :
            (b : Bool) (key name : Text)
            → Spec ((if b then count_metric env key name else return tt) t')
        go true key name = (result, t1, run, more _ h)
        go false key name = (result, t1, run, h)

    -- From the reply of the stream on.
    stamped :
        (added : Bool) (key name : Text)
        → Spec (
            then_do
              (then_do
                (done_or_throw added (response_added payload added ∷ t1))
                (λ _. count_metric env key name))
              (λ _. count_processed env d))
    unfolding done_or_throw count_metric emit return throw
    stamped true key name = counted _ (inr (inr (inl refl)))
    stamped false key name = inr (result, t1, run, refl)

    published : Spec (
        then_do
          (publish_response env stringify (some id) (answered result) t1)
          (λ _. count_processed env d))
    unfolding publish_response publish_stamped add_response ◌>>=◌ emit return
    published = go (env.has_redis t1) refl
      where
        go :
            (b : Bool)
            → env.has_redis t1 ≡ b
            → Spec (
                then_do
                  ((if b
                      then publish_stamped env stringify (stamp (some id) (answered result))
                      else return tt)
                    t1)
                  (λ _. count_processed env d))
        go true e = stamped (env.add_response t1 payload) _ _
        go false e = counted t1 (inl e)

  handle_verified-Spec : Spec (handle_verified env stringify d id t)
  unfolding handle_verified process_command ◌>>=◌
  handle_verified-Spec = go (execute_command env d.command t) refl
    where
      go :
          (o : Outcome Response × Trace)
          → execute_command env d.command t ≡ o
          → Spec (
              then_do
                (then_do o λ result. publish_response env stringify (some id) (answered result))
                (λ _. count_processed env d))
      go (ok result, t1) e = published result t1 e
      go (err e', t1) e = inl e

  -- If the handler returns, the token is signed, the command was executed, and its answer, with the
  -- trace id of the command, was put on the stream of responses where there is a connection to
  -- Redis. If the token is refused, it is not signed and no call was made. Otherwise the token is
  -- signed and the command failed, or its answer was not taken by the stream.
  pub handle_media_command-HandledSpec : HandledSpec (handle_media_command env stringify v d t)
  unfolding handle_media_command handle_verdict handling
  handle_media_command-HandledSpec =
      go (verify_media_command_signature v d.command (env.now t / 1000)) refl
    where
      run :
          IsSigned v d.command (env.now t / 1000)
          → (o : Outcome (Unit {0}) × Trace) → Spec o
          → HandledSpec (handling o)
      run signed (ok _, t') h = (signed, h)
      run signed (err e, t') h = (signed, h)

      go :
          (verdict : Verdict)
          → verify_media_command_signature v d.command (env.now t / 1000) ≡ verdict
          → HandledSpec (handle_verdict env stringify d id verdict t)
      go accepted e =
          run ((verify_media_command_signature-IsSigned v d.command (env.now t / 1000)).0 e) _
            handle_verified-Spec
      go (non_retryable r) e = (not-IsSigned v d.command _ _ e (λ h. cc), λ h. cc, refl)
      go not_configured e = (not-IsSigned v d.command _ _ e (λ h. cc), λ h. cc, refl)
      go failed e = (not-IsSigned v d.command _ _ e (λ h. cc), λ h. cc, refl)
