-- ===== src/Commands/Worker.antt =====
-- src/workers/media-command.worker.ts and the end of src/workers/media-command-processor.ts: a command
-- that the stream delivers is checked, executed and answered, and one that fails for good becomes a
-- dead letter. The consumer of the stream is the contracts library's; JSON is a parameter.
pub mod Answered
pub mod DeadLetter
use crm_media.Base.{
  ℕ, ◌/◌, Bool, true, false, List, [], ◌∷◌, ◌++◌, Option, none, some, Text, codes, get_or,
  if◌then◌else◌,
}
use crm_media.Base.Decimal.{decimal}
use crm_media.Effects.Defs.{
  response_added, metric_counted, Failure, Trace, Env, Outcome, ok, err, M, ◌>>=◌, ◌>>◌, return,
  catch, emit, done_or_throw,
}
use crm_media.Dlq.{Json, Settings, DlqRecord, truthy}
use crm_media.Dlq.Replay.{Redis, Calls, append_media_command_to_dlq}
use crm_media.Commands.{
  MediaCommand, Verifier, Verdict, accepted, command_type, verify_media_command_signature,
}
use crm_media.Commands.Execute.{
  Answer, upload_url_created, metadata_resolved, access_granted, deleted, Response, execute_command,
}

-- What is published: an answer, or a failure with its correlation id, object key, status and text.
pub data Message : Type 0 where
  answered : Response → Message
  command_failed : Text → Option Text → ℕ → Text → Message

abbrev pub answer_type : Answer → Text
answer_type (upload_url_created u n) = codes "file.upload-url-created"
answer_type (metadata_resolved n m) = codes "file.metadata-resolved"
answer_type (access_granted u n) = codes "file.access-granted"
answer_type deleted = codes "file.deleted"

abbrev pub response_type : Message → Text
response_type (answered r) = answer_type r.answer
response_type (command_failed c k n m) = codes "file.command-failed"

pub record Envelope : Type 0 where
  pub message : Message
  pub version : ℕ
  pub contract_version : ℕ
  pub trace_id : Option Text

-- `store` is the trace id of `traceStorage`, if there is one. A message has its correlation id.
unfoldable pub stamp : Option Text → Message → Envelope
stamp store message = record {
  message = message;
  version = 1;
  contract_version = 1;
  trace_id = store;
}

-- A command as the stream delivers it.
pub record Delivery : Type 0 where
  pub command : MediaCommand
  pub trace_id : Option Text
  pub version : Option ℕ

-- How the handler ends: it returns, the check of the token throws, or the command fails.
pub data Handling : Type 0 where
  processed : Handling
  unverified : Verdict → Handling
  process_failed : Failure → Handling

unfoldable pub versioned : Text → ℕ → Text
versioned type version = type ++ (codes ":v" ++ decimal version)

-- `traceId || cmd-${Date.now()}`
unfoldable pub final_trace_id : Option Text → ℕ → Text
final_trace_id trace_id now = get_or (truthy trace_id) (codes "cmd-" ++ decimal now)

unfoldable pub handling : Outcome (Unit {0}) × Trace → Handling × Trace
handling (ok _, t) = (processed, t)
handling (err e, t) = (process_failed e, t)

module _ (env : Env) where
  -- `hincrby(key, field, 1)`, whose error is caught.
  unfoldable pub count_metric : Text → Text → M (Unit {0})
  count_metric key name t = emit (metric_counted key name (env.count_metric t key name)) t

  unfoldable pub add_response : Text → M (Unit {0})
  add_response payload t =
      let added = env.add_response t payload in
      (emit (response_added payload added) >> done_or_throw added) t

  unfoldable pub count_processed : Delivery → M (Unit {0})
  count_processed d t =
      (if env.has_redis t
          then count_metric (codes "metrics:commands:processed")
              (versioned (command_type d.command.request) (get_or d.version 1))
          else return tt)
        t

  module _ (stringify : Envelope → Text) where
    -- `xadd` throws if it fails, the metric does not.
    unfoldable pub publish_stamped : Envelope → M (Unit {0})
    publish_stamped envelope = do
      add_response (stringify envelope)
      count_metric (codes "metrics:events:published")
          (versioned (response_type envelope.message) envelope.version)

    unfoldable pub publish_response : Option Text → Message → M (Unit {0})
    publish_response store message t =
        (if env.has_redis t then publish_stamped (stamp store message) else return tt) t

    unfoldable pub process_command : Option Text → MediaCommand → M (Unit {0})
    process_command store command = do
      result ← execute_command env command
      publish_response store (answered result)

    unfoldable pub handle_verified : Delivery → Text → M (Unit {0})
    handle_verified d trace_id = do process_command (some trace_id) d.command; count_processed d

    unfoldable pub handle_verdict : Delivery → Text → Verdict → Trace → Handling × Trace
    handle_verdict d trace_id accepted t = handling (handle_verified d trace_id t)
    handle_verdict d trace_id verdict t = (unverified verdict, t)

    -- Both readings of the clock come before any other call.
    unfoldable pub handle_media_command : Verifier → Delivery → Trace → Handling × Trace
    handle_media_command v d t =
        handle_verdict d (final_trace_id d.trace_id (env.now t))
          (verify_media_command_signature v d.command (env.now t / 1000)) t

    -- `parse` gives the correlation id and the object key of a payload, where they are present and
    -- not empty, and `none` if `JSON.parse` throws.
    module _ (parse : Text → Option (Option Text × Option Text)) where
      unfoldable pub report_parsed :
          Option Text → DlqRecord → Option (Option Text × Option Text) → M (Unit {0})
      report_parsed store r (some (some correlation_id, object_key)) =
          publish_response store (command_failed correlation_id object_key 500 r.error_message)
      report_parsed store r _ = return tt

      unfoldable pub report_payload : Option Text → DlqRecord → Option Text → M (Unit {0})
      report_payload store r none = return tt
      report_payload store r (some payload) =
          catch (report_parsed store r (parse payload)) (λ _. return tt)

      unfoldable pub report_failure : Option Text → DlqRecord → M (Unit {0})
      report_failure store r = report_payload store r (truthy r.payload)

      -- The trace of the service and the calls on the stream of dead letters.
      unfoldable pub handle_dlq :
          Redis → Json → Settings → Option Text → DlqRecord → Trace × Calls → Trace × Calls
      handle_dlq redis json settings store r (t, calls) =
          if env.has_redis t
          then (
            (report_failure store r t).1,
            (append_media_command_to_dlq redis json settings r calls).1,
          )
          else (t, calls)
