-- ===== src/Email/Processor.antt =====
-- src/modules/email/email.processor.ts and src/modules/email/email.mailer.ts: a job of the queue is sent,
-- refused for good or left to a later attempt. The replies of the mail server are parameters.
pub mod Attempts
use crm_media.Base.{
  ℕ, Bool, true, false, ◌||◌, List, [], ◌∷◌, Option, none, some, Text, get_or, leb, ltb, ◌==◌,
  if◌then◌else◌,
}
use crm_media.Dlq.{truthy}
use crm_media.Email.Templates.{RenderedEmail}
use crm_media.Email.Dispatch.{RawEmailPayload, EmailDispatchJob}

-- A call returns or throws, with the response code of the server if there is one.
pub data Reply (A : Type 0) : Type 0 where
  replied : A → Reply A
  raised : Option ℕ → Reply A

pub record MailOptions : Type 0 where
  pub from : Text
  pub to : Text
  pub reply_to : Option Text
  pub content : RenderedEmail

-- The numbers of recipients that were accepted and rejected.
pub record SentMessageInfo : Type 0 where
  pub accepted : ℕ
  pub rejected : ℕ
  pub message_id : Text

pub data Call : Type 0 where
  transport_verified : Reply (Unit {0}) → Call
  mail_sent : MailOptions → Reply SentMessageInfo → Call

-- `smtpVerified`, and the calls of the transport, the latest first.
pub record Transport : Type 0 where
  pub verified : Bool
  pub calls : List Call

pub record Server : Type 0 where
  pub mail_from : Text
  pub is_log : Bool
  pub log_id : Text
  pub verify : List Call → Reply (Unit {0})
  pub send_mail : List Call → MailOptions → Reply SentMessageInfo
  pub decrypt : Text → Option RawEmailPayload
  pub parse_date : Text → Option ℕ

pub data Processed : Type 0 where
  sent : Text → Processed
  expired : Processed
  rejected : ℕ → Processed
  unavailable : Option ℕ → Processed

module _ (server : Server) where
  unfoldable pub mail_options : RawEmailPayload → MailOptions
  mail_options payload = record {
    from = get_or (truthy payload.from) server.mail_from;
    to = payload.to;
    reply_to = payload.reply_to;
    content = payload.content;
  }

  -- A transport that is verified once stays so.
  unfoldable pub ensure_smtp_ready : Transport → Reply (Unit {0}) × Transport
  ensure_smtp_ready s =
      let reply = server.verify s.calls in
      let calls = transport_verified reply ∷ s.calls in
      if s.verified then (replied tt, s) else elim reply [
        | replied _ ↦ (replied tt, record { verified = true; calls = calls })
        | raised code ↦ (raised code, record { verified = false; calls = calls })
      ]

  unfoldable pub accept_info : Reply SentMessageInfo → Reply Text
  accept_info (raised code) = raised code
  accept_info (replied info) =
      if info.accepted == 0 || ltb 0 info.rejected
      then raised (some 550)
      else replied info.message_id

  -- One attempt: `withRetry` with `maxAttempts: 1` calls the transport once.
  unfoldable pub send_verified : MailOptions → Reply (Unit {0}) × Transport → Reply Text × Transport
  send_verified options (raised code, s) = (raised code, s)
  send_verified options (replied _, s) =
      let reply = server.send_mail s.calls options in
      (
        accept_info reply,
        record { verified = s.verified; calls = mail_sent options reply ∷ s.calls },
      )

  unfoldable pub send_raw_email : RawEmailPayload → Transport → Reply Text × Transport
  send_raw_email payload s =
      if server.is_log
      then (replied server.log_id, s)
      else send_verified (mail_options payload) (ensure_smtp_ready s)

  -- A code of zero counts as none.
  unfoldable pub classify : Option ℕ → Processed
  classify none = unavailable none
  classify (some code) =
      if code == 0
      then unavailable none
      else if leb 500 code
      then rejected code
      else unavailable (some code)

  unfoldable pub conclude : Reply Text × Transport → Processed × Transport
  conclude (replied id, s) = (sent id, s)
  conclude (raised code, s) = (classify code, s)

  unfoldable pub send_decrypted : Option RawEmailPayload → Transport → Processed × Transport
  send_decrypted none s = (classify none, s)
  send_decrypted (some payload) s = conclude (send_raw_email payload s)

  -- `Date.parse(expiresAt) <= now`, which is false for a date that is not valid.
  unfoldable pub has_expired : Option ℕ → ℕ → Bool
  has_expired none now = false
  has_expired (some expires) now = leb expires now

  unfoldable pub process_email_job : EmailDispatchJob → ℕ → Transport → Processed × Transport
  process_email_job job now s =
      if has_expired (server.parse_date job.expires_at) now
      then (expired, s)
      else send_decrypted (server.decrypt job.ciphertext) s
