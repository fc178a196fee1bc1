-- ===== src/Examples/Mails.antt =====
-- The theorems on emails and avatars at concrete inputs.
use crm_media.Base.{ℕ, ◌≡◌, refl, true, false, List, [], ◌∷◌, Option, none, some, Text, codes, ◌⊎◌}
use crm_media.FileValidation.Bytes.{Bytes}
use crm_media.Email.Templates.{client_invite, password_reset, render_system_template}
use crm_media.Email.Escape.{is_markup, markup}
use crm_media.Email.Markup.{render_system_template-markup}
use crm_media.Email.Dispatch.{
  by_template, SendEmailRequest, RawEmailPayload, EmailDispatchJob, Queue, Office, send_email,
}
use crm_media.Email.Dispatch.Receipt.{SendSpec, send_email-SendSpec}
use crm_media.Email.Processor.{replied, Transport, Server}
use crm_media.Email.Crypto.{Crypto, key, encrypt_email, decrypt_email}
use crm_media.Email.Crypto.RoundTrip.{IsSound, decrypt_email-encrypt_email}
use crm_media.Avatars.Migration.{UserRecord, Palette}
use crm_media.Avatars.Current.{Row}
use crm_media.Avatars.Lookup.{raw_list, get_users}
use crm_media.Avatars.Lookup.Found.{LookupSpec, get_users-LookupSpec}
use crm_media.Examples.Workers.{email_gate, write_text, read_texts, read-write_text}

-- Every character as `a`, and nothing else.
abbrev encode : Text → Text
encode [] = []
encode (c ∷ s) = b'a' ∷ encode s

encode-markup : (s : Text) → markup (encode s) ≡ []
unfolding markup is_markup
encode-markup [] = refl
encode-markup (c ∷ s) = encode-markup s

render_system_template-markup_example :
    markup
      (render_system_template encode
        (λ s. s)
        client_invite
        (codes "t1")
        (codes "<b>")
        (codes "u")).html
    ≡ markup
        (render_system_template encode
          (λ s. s)
          client_invite
          (codes "t2")
          (codes "ana")
          (codes "u")).html
render_system_template-markup_example =
    render_system_template-markup encode (λ s. s) encode-markup client_invite (codes "t1")
      (codes "t2") (codes "<b>") (codes "ana") (codes "u")

abbrev request : SendEmailRequest
request = record {
  id = codes "1";
  to = codes "ana";
  reply_to = none;
  expires_at = codes "soon";
  body = by_template password_reset (codes "t1");
}

abbrev office : Office
office = record {
  parse_date = λ s. some 5000;
  print = λ r. r.id;
  sha256 = λ s. s;
  encrypt = λ p. some p.to;
  encode_uri_component = encode;
  to_upper_case = λ s. s;
  app_public_url = codes "https://host/";
  email_auth_issuer = codes "auth";
  parse = λ s. some (some request);
}

abbrev stored_job : EmailDispatchJob
stored_job = record {
  ciphertext = codes "ana";
  fingerprint = codes "1";
  expires_at = codes "soon";
  producer = codes "auth";
  trace_id = codes "1";
}

abbrev queue : Queue
queue = record { add = λ calls id job. true; get_job = λ calls id. some (some stored_job) }

send_email-SendSpec_example :
    SendSpec office
      (some queue)
      none
      email_gate
      (some (codes "Bearer h.p.s"))
      (codes "{}")
      10
      1000
      []
      (send_email office
        (some queue)
        none
        email_gate
        (some (codes "Bearer h.p.s"))
        (codes "{}")
        10
        1000
        [])
send_email-SendSpec_example =
    send_email-SendSpec office (some queue) none email_gate (some (codes "Bearer h.p.s"))
      (codes "{}") 10 1000 []

abbrev letter : RawEmailPayload
letter = record {
  to = codes "ana";
  from = none;
  reply_to = none;
  content = record { subject = codes "s"; text = codes "t"; html = codes "h" };
}

abbrev server : Server
server = record {
  mail_from = codes "cima";
  is_log = false;
  log_id = codes "log";
  verify = λ calls. replied tt;
  send_mail =
      λ calls options. replied (record { accepted = 1; rejected = 0; message_id = codes "m" });
  decrypt = λ c. some letter;
  parse_date = λ s. some 5000;
}

abbrev transport : Transport
transport = record { verified = false; calls = [] }

-- A letter as the texts of its fields, the optional ones behind a sign that they are there.
abbrev write_option : Option Text → Text
write_option none = []
write_option (some s) = 1 ∷ s

abbrev read_option : Text → Option Text
read_option [] = none
read_option (c ∷ s) = some s

read-write_option : (o : Option Text) → read_option (write_option o) ≡ o
read-write_option none = refl
read-write_option (some s) = refl

abbrev write_letter : RawEmailPayload → Bytes
write_letter p = write_text p.to (
    write_text (write_option p.from) (
      write_text (write_option p.reply_to)
        (write_text p.content.subject (write_text p.content.text (write_text p.content.html [])))))

abbrev letter_of : List Text → Option RawEmailPayload
letter_of (to ∷ from ∷ reply_to ∷ subject ∷ text ∷ html ∷ rest) = some (record {
  to = to;
  from = read_option from;
  reply_to = read_option reply_to;
  content = record { subject = subject; text = text; html = html };
})
letter_of _ = none

read-write_letter : (p : RawEmailPayload) → letter_of (read_texts (write_letter p)) ≡ some p
read-write_letter p =
    rw
      (
        read-write_text p.to,
        read-write_text (write_option p.from),
        read-write_text (write_option p.reply_to),
        read-write_text p.content.subject,
        read-write_text p.content.text,
        read-write_text p.content.html,
        read-write_option p.from,
        read-write_option p.reply_to,
      )
      refl

abbrev sixteen : Bytes
sixteen = 1 ∷ 2 ∷ 3 ∷ 4 ∷ 5 ∷ 6 ∷ 7 ∷ 8 ∷ 9 ∷ 10 ∷ 11 ∷ 12 ∷ 13 ∷ 14 ∷ 15 ∷ 16 ∷ []

abbrev twelve : Bytes
twelve = 1 ∷ 2 ∷ 3 ∷ 4 ∷ 5 ∷ 6 ∷ 7 ∷ 8 ∷ 9 ∷ 10 ∷ 11 ∷ 12 ∷ []

-- A cipher that leaves the data as it is.
abbrev crypto : Crypto
crypto = record {
  email_queue_encryption_key = some (codes "k");
  from_base64 = λ s. s;
  to_base64 = λ b. b;
  stringify = write_letter;
  parse = λ b. letter_of (read_texts b);
  seal = λ k iv b. (b, sixteen);
  unseal = λ k iv tag b. some b;
}

crypto-IsSound : IsSound crypto
crypto-IsSound = record {
  base64 = λ b. refl;
  json = read-write_letter;
  tag = λ k iv b. refl;
  opens = λ k iv b. refl;
}

decrypt_email-encrypt_email_example :
    ((encrypt_email crypto twelve letter ≡ none) × (key crypto ≡ none))
    ⊎ ((c : Text) × (encrypt_email crypto twelve letter ≡ some c)
        × (decrypt_email crypto c ≡ some letter))
decrypt_email-encrypt_email_example =
    decrypt_email-encrypt_email crypto crypto-IsSound twelve refl letter

abbrev user_one : UserRecord
user_one = record { id = codes "1"; subject = none; email = codes "ana@host" }

abbrev user_two : UserRecord
user_two = record { id = codes "2"; subject = some (codes "two"); email = codes "eve@host" }

abbrev palette : Palette
palette = record { official_avatars_count = 84; colors = codes "#000000" ∷ codes "#ffffff" ∷ [] }

abbrev first_avatar : Text → ℕ × Text
first_avatar id = (0, codes "#000000")

abbrev row : Row
row = record {
  user_id = codes "0f8fad5b-d9cb-469f-a165-70867728950e";
  avatar_id = 7;
  color = codes "#ffffff";
}

abbrev uuid : Text
uuid = codes "0f8fad5b-d9cb-469f-a165-70867728950e"

abbrev asked : List Text
asked = codes "ana, null" ∷ uuid ∷ []

get_users-LookupSpec_example :
    LookupSpec first_avatar false
      (λ ids. some (row ∷ []))
      (raw_list asked none)
      (get_users first_avatar false (λ ids. some (row ∷ [])) asked none)
get_users-LookupSpec_example =
    get_users-LookupSpec first_avatar false (λ ids. some (row ∷ [])) asked none
