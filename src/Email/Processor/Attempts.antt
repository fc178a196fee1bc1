-- ===== src/Email/Processor/Attempts.antt =====
-- A job is sent at most once in an attempt, and how the attempt ends.
use crm_media.Base.{ℕ, suc, ◌≤◌, ◌<◌, ◌≡◌, ◌⊎◌, true, List, [], ◌∷◌, none, some, Text}
use crm_media.Email.Dispatch.{RawEmailPayload, EmailDispatchJob}
use crm_media.Email.Processor.{
  replied, SentMessageInfo, Call, transport_verified, mail_sent, Transport, Server, Processed, sent,
  expired, rejected, unavailable, mail_options,
}

abbrev pub sends : List Call → ℕ
sends [] = 0
sends (mail_sent o r ∷ calls) = suc (sends calls)
sends (transport_verified r ∷ calls) = sends calls

module _ (server : Server) (job : EmailDispatchJob) (now : ℕ) (s : Transport) where
  -- The server took the message of the job, as the last call, for all its recipients.
  abbrev Accepted : Text → Transport → Type 0
  Accepted id s' =
      (payload : RawEmailPayload) × (server.decrypt job.ciphertext ≡ some payload)
      × (((server.is_log ≡ true) × (s' ≡ s) × (id ≡ server.log_id))
          ⊎ ((info : SentMessageInfo) × (calls : List Call) × (s'.calls
                ≡ mail_sent (mail_options server payload) (replied info) ∷ calls)
              × (0 < info.accepted)
              × (info.rejected ≡ 0)
              × (id ≡ info.message_id)))

  abbrev Ended : Processed × Transport → Type 0
  Ended (sent id, s') = Accepted id s'
  Ended (expired, s') = s' ≡ s
  Ended (rejected code, s') = 500 ≤ code
  Ended (unavailable none, s') = Unit
  Ended (unavailable (some code), s') = code < 500

  abbrev Attempted : Processed × Transport → Type 0
  Attempted r = Ended r × (sends r.1.calls ≤ suc (sends s.calls))

  -- The job is given up as expired, with no call, exactly when its expiry is a date that is past.
  pub record ProcessSpec (r : Processed × Transport) : Type 0 where
    pub attempted : Attempted r
    pub late :
        (date : ℕ) → server.parse_date job.expires_at ≡ some date → date ≤ now → r ≡ (expired, s)
    pub in_time :
        r.0 ≡ expired → (date : ℕ) × (server.parse_date job.expires_at ≡ some date) × (date ≤ now)
