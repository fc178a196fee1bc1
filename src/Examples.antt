-- ===== src/Examples.antt =====
-- A concrete environment, and the theorems at concrete inputs.
pub mod Files
pub mod Flows
pub mod Workers
pub mod Streams
pub mod Mails
use crm_media.Base.{
  ℕ, ◌+◌, Bool, true, false, ◌||◌, List, [], ◌∷◌, ◌++◌, Option, none, some, Text, codes, text_eq,
  starts_with, if◌then◌else◌,
}
use crm_media.FileValidation.Bytes.{Bytes}
use crm_media.FileValidation.Names.{Unicode}
use crm_media.Effects.Defs.{
  Head, MediaKind, document, MediaAsset, AuditLog, Event, object_put, slept, Trace, Env,
}
use crm_media.Media.Upload.{Actor}
use crm_media.Media.Documents.{ConfirmPayload}

abbrev pub ascii : Unicode
ascii = record { to_lower_case = λ s. s; nfkc = λ s. s; nfkd = λ s. s; utf8 = λ b. b }

-- `%PDF-`
abbrev pub pdf : Bytes
pdf = 0x25 ∷ 0x50 ∷ 0x44 ∷ 0x46 ∷ 0x2D ∷ 0x31 ∷ []

-- The object was written.
abbrev pub is_put : Trace → Text → Bool
is_put [] key = false
is_put (object_put k body mime true ∷ t) key = text_eq k key || is_put t key
is_put (_ ∷ t) key = is_put t key

-- The time that has been slept.
abbrev pub slept_time : Trace → ℕ
slept_time [] = 0
slept_time (slept n ∷ t) = slept_time t + n
slept_time (_ ∷ t) = slept_time t

abbrev pub own_key : Text
own_key = codes "documents/ana/1-a.pdf"

abbrev pub own_asset : MediaAsset
own_asset = record {
  user_id = codes "ana";
  kind = document;
  object_key = own_key;
  original_name = codes "a.pdf";
  mime_type = codes "application/pdf";
  size_bytes = 6;
}

abbrev pub pdf_head : Head
pdf_head = record { content_length = some 6; content_type = some (codes "application/pdf") }

-- Everything is in quarantine and nothing is infected.
abbrev pub clinic : Env
clinic = record {
  unicode = ascii;
  sha256 = λ b. b;
  endpoint = codes "https://host";
  encode_uri_component = λ s. s;
  doc_par_ttl_seconds = 600;
  quarantine_grace_ms = 1000;
  quarantine_max_age_ms = 100000;
  namespace = λ t. true;
  head_object = λ t key.
      if starts_with (codes "quarantine/") key || is_put t key then some pdf_head else none;
  get_object = λ t key. some pdf;
  put_object = λ t key body mime. true;
  delete_object = λ t key. true;
  create_par = λ t key write. some (some (codes "/p/1"));
  find_document = λ t key. some (if text_eq key own_key then some (codes "1", own_asset) else none);
  insert_asset = λ t asset. true;
  delete_asset = λ t id. true;
  find_user_assets = λ t user. some ((codes "1", own_asset) ∷ []);
  delete_user_assets = λ t user. true;
  delete_user_avatar = λ t user. false;
  insert_user_avatar = λ t user avatar color. true;
  anonymize_logs = λ t user email. true;
  insert_audit_log = λ t log. true;
  read_reputation = λ t hash. some none;
  record_reputation = λ t hash status. true;
  ensure_ready = λ t. true;
  open_scanner = λ t. true;
  scan_stream = λ t b. some false;
  now = λ t. slept_time t;
  uuid = λ t. codes "1";
  has_redis = λ t. true;
  add_response = λ t payload. true;
  count_metric = λ t key field. true;
}

abbrev pub ana : Actor
ana = record {
  user_id = codes "ana";
  sub = codes "ana-sub";
  role = codes "cliente";
  email = codes "ana@host";
}

abbrev pub eve : Actor
eve = record {
  user_id = codes "eve";
  sub = codes "eve-sub";
  role = codes "cliente";
  email = codes "eve@host";
}

abbrev pub own_payload : ConfirmPayload
own_payload = record {
  object_key = own_key;
  file_name = codes "a.pdf";
  mime_type = codes "application/pdf";
  size_bytes = 6;
}
