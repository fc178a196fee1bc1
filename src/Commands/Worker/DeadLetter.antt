-- ===== src/Commands/Worker/DeadLetter.antt =====
-- A command that failed for good: its dead letter, and the failure that is reported.
use crm_media.Base.{◌≡◌, refl, Bool, true, false, Option, none, some, Text, ◌∷◌, inl, inr}
use crm_media.Effects.Defs.{
  response_added, Trace, Env, catch, return, throw, emit, done_or_throw, then_do, handle, ◌>>=◌,
}
use crm_media.Dlq.{Json, IsJson, Settings, DlqRecord, truthy, record_fields, parse_dlq_entry}
use crm_media.Dlq.RoundTrip.{entry_of, parse_dlq_entry-record_fields}
use crm_media.Dlq.Replay.{Redis, Calls, record_added, append_media_command_to_dlq}
use crm_media.Commands.Worker.{
  command_failed, Envelope, stamp, count_metric, add_response, publish_stamped, publish_response,
  report_parsed, report_payload, report_failure, handle_dlq,
}
use crm_media.Commands.Worker.Answered.{Within}

module _ (env : Env) (stringify : Envelope → Text)
    (parse : Text → Option (Option Text × Option Text)) (store : Option Text) (r : DlqRecord)
    (t : Trace) where
  -- A failure with status 500 was offered to the stream for a correlation id, else nothing was done.
  abbrev pub Reported : Option (Option Text × Option Text) → Trace → Type 0
  Reported (some (some correlation_id, object_key)) t' =
      (added : Bool) × Within
        (response_added
          (stringify (stamp store (command_failed correlation_id object_key 500 r.error_message)))
          added)
        t'
  Reported _ t' = t' ≡ t

  abbrev parsed_payload : Option Text → Option (Option Text × Option Text)
  parsed_payload none = none
  parsed_payload (some payload) = parse payload

  -- The record was added with the fields from which the whole entry is read back.
  abbrev pub IsKept : Redis → Json → Settings → Calls → Trace × Calls → Type 0
  IsKept redis json settings calls (t', calls') =
      Reported (parsed_payload (truthy r.payload)) t'
      × (calls'
          ≡ record_added (record_fields json r) (redis.add_record calls (record_fields json r))
            ∷ calls)
      × ((id : Text) → parse_dlq_entry json settings id (record_fields json r) ≡ entry_of id r)

  module _ (connected : env.has_redis t ≡ true) where
    report-Reported :
        (p : Option (Option Text × Option Text))
        → Reported p (catch (report_parsed env stringify parse store r p) (λ _. return tt) t).1
    unfolding catch report_parsed publish_response publish_stamped add_response count_metric emit
        done_or_throw return throw ◌>>=◌
    report-Reported none = refl
    report-Reported (some (none, object_key)) = refl
    report-Reported (some (some correlation_id, object_key)) =
        rw connected (go (env.add_response t _) _ _)
      where
        payload : Text
        payload =
            stringify (stamp store (command_failed correlation_id object_key 500 r.error_message))

        go :
            (added : Bool) (key name : Text)
            → Reported
                (some (some correlation_id, object_key))
                (handle
                  (then_do
                    (done_or_throw added (response_added payload added ∷ t))
                    λ _. count_metric env key name)
                  (λ _. return tt)).1
        go true key name = (true, inr (inl refl))
        go false key name = (false, inl refl)

    -- With a connection to Redis, whatever becomes of the report, the dead letter is offered to its
    -- stream, with the fields from which all of it is read back; a payload with a correlation id is
    -- reported as failed under that id, with status 500 and the text of the error.
    pub handle_dlq-IsKept :
        (redis : Redis) (json : Json) (settings : Settings) (calls : Calls)
        → IsJson json
        → IsKept redis json settings calls
            (handle_dlq env stringify parse redis json settings store r (t, calls))
    unfolding handle_dlq report_failure report_payload append_media_command_to_dlq return
    handle_dlq-IsKept redis json settings calls laws =
        rw connected
          (go (truthy r.payload), refl, λ id. parse_dlq_entry-record_fields json settings laws id r)
      where
        go :
            (payload : Option Text)
            → Reported
                (parsed_payload payload)
                (report_payload env stringify parse store r payload t).1
        go none = refl
        go (some p) = report-Reported (parse p)
