-- ===== src/Email/Dispatch/Receipt.antt =====
-- What a receipt for an email says.
use crm_media.Base.{
  ℕ, ◌+◌, ◌≤◌, ◌<◌, ◌≡◌, ◌≢◌, refl, ◌⊎◌, inl, inr, Bool, true, false, not, ◌&&◌, ◌∷◌, Option, none,
  some, Text, text_eq, eq_of_text_eq, ne_of_text_eq, get_or, codes, take, ◌++◌, arith,
  if◌then◌else◌,
}
use crm_media.Dlq.{truthy}
use crm_media.EmailAuth.{
  Gate, Decision, allowed, unauthorized, forbidden, unavailable, authorize_email,
}
use crm_media.Email.Templates.{RenderedEmail, render_system_template}
use crm_media.Email.Dispatch.{
  Body, by_template, by_content, SendEmailRequest, RawEmailPayload, EmailDispatchJob, job_added,
  job_read, Calls, Queue, Office, Result, queued, bad_request, refused, template_forbidden,
  no_queue, encryption_failed, conflict, unconfirmed, week_ms, is_outside, uses_template,
  fingerprint, job_id, content_of, confirm, read_back, enqueue, dispatch_encrypted, dispatch_queued,
  dispatch_email, send_parsed, send_decided, send_email,
}

module _ (office : Office) (queue : Option Queue) (trace_id : Option Text) (gate : Gate)
    (authorization : Option Text) (body : Text) (seconds now : ℕ) (calls : Calls) where
  -- The content of a mail: the given one, or that of the template.
  abbrev pub IsContent : Text → Body → RenderedEmail → Type 0
  IsContent to (by_content given) content = content ≡ given
  IsContent to (by_template name token) content =
      content
      ≡ render_system_template office.encode_uri_component office.to_upper_case name token to
          office.app_public_url

  content_of-IsContent : (to : Text) (b : Body) → IsContent to b (content_of office to b)
  unfolding content_of
  content_of-IsContent to (by_content given) = refl
  content_of-IsContent to (by_template name token) = refl

  -- A template is only for the identity service.
  abbrev pub IsEntitled : Body → Text → Type 0
  IsEntitled (by_content given) producer = Unit
  IsEntitled (by_template name token) producer = producer ≡ office.email_auth_issuer

  uses_template-IsEntitled :
      (b : Body) (producer : Text)
      → (uses_template b ≡ true → producer ≡ office.email_auth_issuer)
      → IsEntitled b producer
  unfolding uses_template
  uses_template-IsEntitled (by_content given) producer h = tt
  uses_template-IsEntitled (by_template name token) producer h = h refl

  -- What a job offers of a request: its fingerprint, expiry, producer and trace, and the encryption of
  -- the mail to its address with its content.
  pub record IsJobOf (producer : Text) (req : SendEmailRequest) (job : EmailDispatchJob)
      : Type 0 where
    pub same_fingerprint : job.fingerprint ≡ office.sha256 (office.print req)
    pub same_expiry : job.expires_at ≡ req.expires_at
    pub same_producer : job.producer ≡ producer
    pub same_trace : job.trace_id ≡ get_or (truthy trace_id) req.id
    pub content : RenderedEmail
    pub is_content : IsContent req.to req.body content
    pub encrypted :
        office.encrypt
          (record { to = req.to; from = none; reply_to = req.reply_to; content = content })
        ≡ some job.ciphertext

  -- A valid date lies within the next seven days.
  abbrev InWindow : Option ℕ → Type 0
  InWindow none = Unit
  InWindow (some expires) = (now < expires) × (expires ≤ now + week_ms)

  -- A request that the service may send, up to the queue, and the job that the queue has been offered.
  pub record IsOffered (id : Text) (offered : EmailDispatchJob) (req : SendEmailRequest)
      : Type 0 where
    pub producer : Text
    pub authorized : authorize_email gate body seconds authorization ≡ allowed producer
    pub parsed : office.parse body ≡ some (some req)
    pub entitled : IsEntitled req.body producer
    pub timely : InWindow (office.parse_date req.expires_at)
    pub same_id : id ≡ codes "email-" ++ (take 16 (office.sha256 producer) ++ (codes "-" ++ req.id))
    pub job_of : IsJobOf producer req offered

  -- The queue took the job and gave back, under its id, one with the request's fingerprint.
  abbrev pub IsAccepted : Text → Calls → Type 0
  IsAccepted id calls' =
      (req : SendEmailRequest) × (offered : EmailDispatchJob) × (job : EmailDispatchJob) × IsOffered
        id offered req
      × (job.fingerprint ≡ office.sha256 (office.print req))
      × (calls' ≡ job_read id (some (some job)) ∷ job_added id offered true ∷ calls)

  -- The queue holds another email under the id.
  abbrev IsConflict : Calls → Type 0
  IsConflict calls' =
      (req : SendEmailRequest) × (id : Text) × (offered : EmailDispatchJob)
      × (job : EmailDispatchJob) × IsOffered id offered req
      × (job.fingerprint ≢ office.sha256 (office.print req))
      × (calls' ≡ job_read id (some (some job)) ∷ job_added id offered true ∷ calls)

  -- The queue has not taken the job, or gives none back.
  abbrev IsUnconfirmed : Calls → Type 0
  IsUnconfirmed calls' =
      (req : SendEmailRequest) × (id : Text) × (offered : EmailDispatchJob) × IsOffered id offered
        req
      × ((calls' ≡ job_added id offered false ∷ calls)
          ⊎ ((calls' ≡ job_read id none ∷ job_added id offered true ∷ calls)
              ⊎ (calls' ≡ job_read id (some none) ∷ job_added id offered true ∷ calls)))

  abbrev pub SendSpec : Result × Calls → Type 0
  SendSpec (queued id, calls') = IsAccepted id calls'
  SendSpec (bad_request, calls') = calls' ≡ calls
  SendSpec (refused d, calls') =
      (authorize_email gate body seconds authorization ≡ d) × (calls' ≡ calls)
  SendSpec (template_forbidden, calls') = calls' ≡ calls
  SendSpec (no_queue, calls') = (queue ≡ none) × (calls' ≡ calls)
  SendSpec (encryption_failed, calls') = calls' ≡ calls
  SendSpec (conflict, calls') = IsConflict calls'
  SendSpec (unconfirmed, calls') = IsUnconfirmed calls'

  -- A request is sent for a producer that may send it, up to the queue.
  module _ (producer : Text) (req : SendEmailRequest)
      (authorized : authorize_email gate body seconds authorization ≡ allowed producer)
      (parsed : office.parse body ≡ some (some req))
      (entitled : uses_template req.body ≡ true → producer ≡ office.email_auth_issuer)
      (timely : InWindow (office.parse_date req.expires_at)) where
    abbrev id : Text
    id = job_id office producer req

    offers : (offered : EmailDispatchJob) → IsJobOf producer req offered → IsOffered id offered req
    unfolding job_id
    offers offered same = record {
      producer = producer;
      authorized = authorized;
      parsed = parsed;
      entitled = uses_template-IsEntitled req.body producer entitled;
      timely = timely;
      same_id = refl;
      job_of = same;
    }

    confirm-SendSpec :
        (offered : EmailDispatchJob) (reply : Option (Option EmailDispatchJob))
        → IsJobOf producer req offered
        → SendSpec
            (confirm office req id reply (job_read id reply ∷ job_added id offered true ∷ calls))
    unfolding confirm fingerprint
    confirm-SendSpec offered none same = (req, id, offered, offers offered same, inr (inl refl))
    confirm-SendSpec offered (some none) same =
        (req, id, offered, offers offered same, inr (inr refl))
    confirm-SendSpec offered (some (some job)) same =
        go (text_eq job.fingerprint (office.sha256 (office.print req))) refl
      where
        calls' : Calls
        calls' = job_read id (some (some job)) ∷ job_added id offered true ∷ calls

        go :
            (b : Bool)
            → text_eq job.fingerprint (office.sha256 (office.print req)) ≡ b
            → SendSpec (if b then (queued id, calls') else (conflict, calls'))
        go true e = (req, offered, job, offers offered same, eq_of_text_eq _ _ e, refl)
        go false e = (req, id, offered, job, offers offered same, ne_of_text_eq _ _ e, refl)

    enqueue-SendSpec :
        (q : Queue) (job : EmailDispatchJob)
        → IsJobOf producer req job
        → SendSpec (enqueue office q req id job calls)
    unfolding enqueue read_back
    enqueue-SendSpec q job same = go (q.add calls id job)
      where
        go :
            (added : Bool)
            → SendSpec (
                let calls' = job_added id job added ∷ calls in
                if added then read_back office q req id calls' else (unconfirmed, calls'))
        go true = confirm-SendSpec job (q.get_job (job_added id job true ∷ calls) id) same
        go false = (req, id, job, offers job same, inl refl)

    dispatch_queued-SendSpec :
        SendSpec (dispatch_queued office queue req producer (get_or (truthy trace_id) req.id) calls)
    unfolding dispatch_queued dispatch_encrypted fingerprint
    dispatch_queued-SendSpec = go queue refl
      where
        mail : RawEmailPayload
        mail = record {
          to = req.to;
          from = none;
          reply_to = req.reply_to;
          content = content_of office req.to req.body;
        }

        sealed :
            (q : Queue) (ciphertext : Option Text)
            → office.encrypt mail ≡ ciphertext
            → SendSpec (
                dispatch_encrypted office q req producer
                  (get_or (truthy trace_id) req.id)
                  ciphertext
                  calls)
        sealed q none e = refl
        sealed q (some ciphertext) e = enqueue-SendSpec q _ (record {
          same_fingerprint = refl;
          same_expiry = refl;
          same_producer = refl;
          same_trace = refl;
          content = content_of office req.to req.body;
          is_content = content_of-IsContent req.to req.body;
          encrypted = e;
        })

        go :
            (o : Option Queue)
            → queue ≡ o
            → SendSpec
                (dispatch_queued office o req producer (get_or (truthy trace_id) req.id) calls)
        go none e = (e, refl)
        go (some q) e = sealed q _ refl

  in_window : (expires : Option ℕ) → is_outside expires now ≡ false → InWindow expires
  unfolding is_outside
  in_window none h = tt
  in_window (some expires) h = ground arith

  dispatch_email-SendSpec :
      (producer : Text) (req : SendEmailRequest)
      → authorize_email gate body seconds authorization ≡ allowed producer
      → office.parse body ≡ some (some req)
      → (uses_template req.body ≡ true → producer ≡ office.email_auth_issuer)
      → SendSpec
          (dispatch_email office queue now req producer (get_or (truthy trace_id) req.id) calls)
  unfolding dispatch_email
  dispatch_email-SendSpec producer req authorized parsed entitled =
      go (is_outside (office.parse_date req.expires_at) now) refl
    where
      go :
          (b : Bool)
          → is_outside (office.parse_date req.expires_at) now ≡ b
          → SendSpec (
              if b
              then (bad_request, calls)
              else dispatch_queued office queue req producer
                  (get_or (truthy trace_id) req.id)
                  calls)
      go true e = refl
      go false e =
          dispatch_queued-SendSpec producer req authorized parsed entitled
            (in_window (office.parse_date req.expires_at) e)

  send_parsed-SendSpec :
      (producer : Text) (p : Option (Option SendEmailRequest))
      → authorize_email gate body seconds authorization ≡ allowed producer
      → office.parse body ≡ p
      → SendSpec (send_parsed office queue trace_id now producer p calls)
  unfolding send_parsed
  send_parsed-SendSpec producer none authorized parsed = refl
  send_parsed-SendSpec producer (some none) authorized parsed = refl
  send_parsed-SendSpec producer (some (some req)) authorized parsed =
      go (uses_template req.body) (text_eq producer office.email_auth_issuer) refl refl
    where
      go :
          (t i : Bool)
          → uses_template req.body ≡ t
          → text_eq producer office.email_auth_issuer ≡ i
          → SendSpec (
              if t && not i
              then (template_forbidden, calls)
              else dispatch_email office queue now req producer
                  (get_or (truthy trace_id) req.id)
                  calls)
      go true true et ei =
          dispatch_email-SendSpec producer req authorized parsed λ _. eq_of_text_eq _ _ ei
      go true false et ei = refl
      go false i et ei = dispatch_email-SendSpec producer req authorized parsed λ h. absurd (cc)

  -- A receipt is given only to a service whose token allows it, for a body that is a request, made
  -- from a template only for the identity service, whose expiry, if it is a valid date, is within
  -- seven days, and after the queue has taken the job of this request and has given back one with
  -- its fingerprint, under an id made of the service and the request. The job carries the fingerprint
  -- and the expiry of the request, the service, the trace, and the encryption of the mail to its
  -- address with its content. A refusal before that makes no call; a conflict means that such a job was
  -- taken but the queue holds another email under the id, and the service is unavailable if the
  -- queue does not take such a job or gives none back.
  pub send_email-SendSpec :
      SendSpec (send_email office queue trace_id gate authorization body seconds now calls)
  unfolding send_email send_decided
  send_email-SendSpec = go (authorize_email gate body seconds authorization) refl
    where
      go :
          (d : Decision)
          → authorize_email gate body seconds authorization ≡ d
          → SendSpec (send_decided office queue trace_id now body d calls)
      go (allowed producer) e = send_parsed-SendSpec producer (office.parse body) e refl
      go unauthorized e = (e, refl)
      go forbidden e = (e, refl)
      go unavailable e = (e, refl)
