-- ===== src/Email/Dispatch.antt =====
-- src/modules/email/email.controller.ts and src/modules/email/email.service.ts: a request becomes a job
-- of the queue. Dates, hashes, the encryption, the schema of a request and the replies of the queue
-- are parameters.
pub mod Receipt
use crm_media.Base.{
  ℕ, ◌+◌, ◌*◌, Bool, true, false, not, ◌&&◌, ◌||◌, List, [], ◌∷◌, ◌++◌, Option, none, some, Text,
  codes, text_eq, take, leb, ltb, get_or, is_some, if◌then◌else◌,
}
use crm_media.Dlq.{truthy}
use crm_media.EmailAuth.{
  Gate, Decision, allowed, unauthorized, forbidden, unavailable, authorize_email,
}
use crm_media.Email.Templates.{RenderedEmail, SystemTemplateName, render_system_template}

-- A request by its schema: it has a template, by its name and token, or its content.
pub data Body : Type 0 where
  by_template : SystemTemplateName → Text → Body
  by_content : RenderedEmail → Body

pub record SendEmailRequest : Type 0 where
  pub id : Text
  pub to : Text
  pub reply_to : Option Text
  pub expires_at : Text
  pub body : Body

-- Without the copies, which no request has.
pub record RawEmailPayload : Type 0 where
  pub to : Text
  pub from : Option Text
  pub reply_to : Option Text
  pub content : RenderedEmail

pub record EmailDispatchJob : Type 0 where
  pub ciphertext : Text
  pub fingerprint : Text
  pub expires_at : Text
  pub producer : Text
  pub trace_id : Text

-- A call of the queue with its reply; `none` is a call that threw, an inner `none` no job.
pub data Call : Type 0 where
  job_added : Text → EmailDispatchJob → Bool → Call
  job_read : Text → Option (Option EmailDispatchJob) → Call

abbrev pub Calls : Type 0
Calls = List Call

pub record Queue : Type 0 where
  pub add : Calls → Text → EmailDispatchJob → Bool
  pub get_job : Calls → Text → Option (Option EmailDispatchJob)

-- The library functions and settings. A date that is not valid is `none`, as is an encryption that
-- throws; `parse` is `none` for a body that is no JSON, an inner `none` for no request.
pub record Office : Type 0 where
  pub parse_date : Text → Option ℕ
  pub print : SendEmailRequest → Text
  pub sha256 : Text → Text
  pub encrypt : RawEmailPayload → Option Text
  pub encode_uri_component : Text → Text
  pub to_upper_case : Text → Text
  pub app_public_url : Text
  pub email_auth_issuer : Text
  pub parse : Text → Option (Option SendEmailRequest)

-- The receipt with its id, or the error with its status.
pub data Result : Type 0 where
  queued : Text → Result
  bad_request : Result
  refused : Decision → Result
  template_forbidden : Result
  no_queue : Result
  encryption_failed : Result
  conflict : Result
  unconfirmed : Result

-- Seven days.
abbrev pub week_ms : ℕ
week_ms = 604800000

-- `remaining <= 0 || remaining > week`; for a date that is not valid both comparisons are false.
unfoldable pub is_outside : Option ℕ → ℕ → Bool
is_outside none now = false
is_outside (some expires) now = leb expires now || ltb (now + week_ms) expires

unfoldable pub uses_template : Body → Bool
uses_template (by_template name token) = true
uses_template (by_content content) = false

module _ (office : Office) where
  unfoldable pub fingerprint : SendEmailRequest → Text
  fingerprint req = office.sha256 (office.print req)

  unfoldable pub job_id : Text → SendEmailRequest → Text
  job_id producer req =
      codes "email-" ++ (take 16 (office.sha256 producer) ++ (codes "-" ++ req.id))

  unfoldable pub content_of : Text → Body → RenderedEmail
  content_of to (by_template name token) =
      render_system_template office.encode_uri_component office.to_upper_case name token to
        office.app_public_url
  content_of to (by_content content) = content

  -- The winning record is the one that is read back.
  unfoldable pub confirm :
      SendEmailRequest → Text → Option (Option EmailDispatchJob) → Calls → Result × Calls
  confirm req id none calls = (unconfirmed, calls)
  confirm req id (some none) calls = (unconfirmed, calls)
  confirm req id (some (some job)) calls =
      if text_eq job.fingerprint (fingerprint req) then (queued id, calls) else (conflict, calls)

  unfoldable pub read_back : Queue → SendEmailRequest → Text → Calls → Result × Calls
  read_back queue req id calls =
      let reply = queue.get_job calls id in confirm req id reply (job_read id reply ∷ calls)

  unfoldable pub enqueue :
      Queue → SendEmailRequest → Text → EmailDispatchJob → Calls → Result × Calls
  enqueue queue req id job calls =
      let added = queue.add calls id job in
      let calls' = job_added id job added ∷ calls in
      if added then read_back queue req id calls' else (unconfirmed, calls')

  unfoldable pub dispatch_encrypted :
      Queue → SendEmailRequest → Text → Text → Option Text → Calls → Result × Calls
  dispatch_encrypted queue req producer trace_id none calls = (encryption_failed, calls)
  dispatch_encrypted queue req producer trace_id (some ciphertext) calls =
      enqueue queue req (job_id producer req)
        (record {
          ciphertext = ciphertext;
          fingerprint = fingerprint req;
          expires_at = req.expires_at;
          producer = producer;
          trace_id = trace_id;
        })
        calls

  unfoldable pub dispatch_queued :
      Option Queue → SendEmailRequest → Text → Text → Calls → Result × Calls
  dispatch_queued none req producer trace_id calls = (no_queue, calls)
  dispatch_queued (some queue) req producer trace_id calls =
      dispatch_encrypted queue req producer trace_id
        (office.encrypt (record {
          to = req.to;
          from = none;
          reply_to = req.reply_to;
          content = content_of req.to req.body;
        }))
        calls

  unfoldable pub dispatch_email :
      Option Queue → ℕ → SendEmailRequest → Text → Text → Calls → Result × Calls
  dispatch_email queue now req producer trace_id calls =
      if is_outside (office.parse_date req.expires_at) now
      then (bad_request, calls)
      else dispatch_queued queue req producer trace_id calls

  module _ (queue : Option Queue) (trace_id : Option Text) where
    -- `now` in milliseconds.
    unfoldable pub send_parsed :
        ℕ → Text → Option (Option SendEmailRequest) → Calls → Result × Calls
    send_parsed now producer none calls = (bad_request, calls)
    send_parsed now producer (some none) calls = (bad_request, calls)
    send_parsed now producer (some (some req)) calls =
        if uses_template req.body && not (text_eq producer office.email_auth_issuer)
        then (template_forbidden, calls)
        else dispatch_email queue now req producer (get_or (truthy trace_id) req.id) calls

    unfoldable pub send_decided : ℕ → Text → Decision → Calls → Result × Calls
    send_decided now body (allowed producer) calls =
        send_parsed now producer (office.parse body) calls
    send_decided now body unauthorized calls = (refused unauthorized, calls)
    send_decided now body forbidden calls = (refused forbidden, calls)
    send_decided now body unavailable calls = (refused unavailable, calls)

    -- `seconds` is the time of the check of the token, `now` that of the service.
    unfoldable pub send_email : Gate → Option Text → Text → ℕ → ℕ → Calls → Result × Calls
    send_email gate authorization body seconds now calls =
        send_decided now body (authorize_email gate body seconds authorization) calls
