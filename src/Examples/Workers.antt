-- ===== src/Examples/Workers.antt =====
-- The theorems on the workers and the middleware at concrete inputs.
use crm_media.Base.{
  ℕ, zero, suc, ◌∙◌, ◌+◌, ◌≤◌, ◌≡◌, ◌↔◌, refl, true, false, List, [], ◌∷◌, Option, none, some, Text,
  codes, text_eq, starts_with, arith, ap,
}
use crm_media.Dlq.{Json, IsJson, Settings, DlqRecord, record_fields, Fields}
use crm_media.Dlq.Replay.{Calls, range_read, Redis, replay_cycle}
use crm_media.Dlq.Replay.Safe.{NoneLost}
use crm_media.Dlq.Operator.{post_replay}
use crm_media.Dlq.Operator.Reachable.{begins, steps, cycles, posts, Reaches-NoneLost}
use crm_media.RateLimit.{Limiter}
use crm_media.RateLimit.Windows.{admitted, admitted-le}
use crm_media.Standby.{
  standby, ready, Controller, initial, started, pong, idle_check, act, starts, acts,
  evaluate_idle_timeout,
}
use crm_media.Standby.Awake.{IsAwake, IsIdleCheck, Reaches-IsAwake, act-IsIdleCheck}
use crm_media.Commands.{
  delete_requested, MediaCommand, Claims, Verifier, accepted, split_dots,
  verify_media_command_signature,
}
use crm_media.Commands.Signed.{IsSigned, verify_media_command_signature-IsSigned}
use crm_media.Avatars.{PresetOptions, Database}
use crm_media.EmailAuth.{
  Gate, allowed, is_base64url, is_part, three_parts, bearer_parts, is_timely, is_valid, check_key,
  check_source, check_named, check_decoded, check_parts, authorize_email,
}
use crm_media.EmailAuth.Authorized.{IsAuthorized, authorize_email-IsAuthorized}
use crm_media.ParPrune.{
  ParSummary, ListParsPage, has_id, is_expired_par, prune_items, prune_pages, prune_expired_pars,
}
use crm_media.ParPrune.Bound.{IsPruned, prune_expired_pars-IsPruned}

-- An encoding of fields: every code point plus one, and a zero after each string.
abbrev pub write_text : Text → Text → Text
write_text [] rest = 0 ∷ rest
write_text (c ∷ s) rest = suc c ∷ write_text s rest

abbrev write_fields : Fields → Text
write_fields [] = []
write_fields ((k, v) ∷ m) = write_text k (write_text v (write_fields m))

abbrev pub put_code : ℕ → List Text → List Text
put_code c [] = []
put_code c (s ∷ rest) = (c ∷ s) ∷ rest

abbrev pub read_texts : Text → List Text
read_texts [] = []
read_texts (zero ∷ rest) = [] ∷ read_texts rest
read_texts (suc c ∷ rest) = put_code c (read_texts rest)

abbrev pairs : List Text → Fields
pairs [] = []
pairs (k ∷ []) = []
pairs (k ∷ v ∷ rest) = (k, v) ∷ pairs rest

pub read-write_text : (s rest : Text) → read_texts (write_text s rest) ≡ s ∷ read_texts rest
read-write_text [] rest = refl
read-write_text (c ∷ s) rest = ap (put_code c) (read-write_text s rest)

read-write_fields : (m : Fields) → pairs (read_texts (write_fields m)) ≡ m
read-write_fields [] = refl
read-write_fields ((k, v) ∷ m) =
    ap pairs (read-write_text k _ ∙ ap (λ r. k ∷ r) (read-write_text v (write_fields m)))
    ∙ ap (λ r. (k, v) ∷ r) (read-write_fields m)

abbrev parse_object : Text → Option Fields
parse_object [] = none
parse_object (c ∷ s) = some (pairs (read_texts s))

abbrev pub encoding : Json
encoding = record { stringify = λ m. 9 ∷ write_fields m; parse = parse_object }

pub encoding-IsJson : IsJson encoding
encoding-IsJson = record {
  parse-stringify = λ m. ap some (read-write_fields m);
  stringify-ne-nil = λ m e. cc;
}

abbrev pub streams : Settings
streams = record { stream_key = codes "commands"; consumer_group = codes "media" }

abbrev pub failed_command : DlqRecord
failed_command = record {
  source_stream = codes "s";
  source_group = codes "g";
  source_message_id = codes "1-0";
  consumer_id = codes "c";
  failed_at = codes "t";
  delivery_count = 12;
  reason = codes "r";
  error_name = codes "Error";
  error_message = codes "m";
  error_stack = some [];
  payload = some (codes "p");
  raw_fields = (codes "payload", codes "p") ∷ [];
}

-- A stream with the one record.
abbrev pub broker : Redis
broker = record {
  add_record = λ calls fields. some (some (codes "2-0"));
  range = λ calls id. some ((id, record_fields encoding failed_command) ∷ []);
  latest = λ calls n. some ((codes "2-0", record_fields encoding failed_command) ∷ []);
  add_command = λ calls stream payload. some (some (codes "3-0"));
  delete = λ calls id. some 1;
}

abbrev no_number : Text → Option ℕ
no_number s = none

Reaches-NoneLost_example :
    NoneLost encoding streams
      (post_replay broker encoding streams true none none
        (replay_cycle broker encoding streams [])).1
Reaches-NoneLost_example =
    Reaches-NoneLost broker encoding streams no_number
      (steps (steps begins cycles) (posts true none none))

abbrev found_record : Calls
found_record =
    range_read (codes "2-0") (some ((codes "2-0", record_fields encoding failed_command) ∷ [])) ∷ []

abbrev running_limiter : Limiter
running_limiter = record {
  attempts = λ key. some (record { count = 1; reset_at = 100 });
  last_cleanup = 0;
}

admitted-le_example :
    admitted 2 1000
        (codes "k")
        ((codes "k", 5) ∷ (codes "j", 6) ∷ (codes "k", 7) ∷ [])
        running_limiter
      + 1
    ≤ 2
admitted-le_example =
    admitted-le 2 1000 (codes "k") ((codes "k", 5) ∷ (codes "j", 6) ∷ (codes "k", 7) ∷ [])
      running_limiter (record { count = 1; reset_at = 100 }) refl
      (omega arith, (omega arith, (omega arith, tt))) (omega arith)

Reaches-IsAwake_example : IsAwake (act 900 pong (act 900 (started 5) (initial 0)))
Reaches-IsAwake_example =
    Reaches-IsAwake 900 (act 900 pong (act 900 (started 5) (initial 0)))
      (acts pong (acts (started 5) (starts 0)))

abbrev idle : Controller
idle = record { state = ready; last_activity_at = 10; active_scans = 0 }

idle-suspended : (act 900 (idle_check 1000) idle).state ≡ standby
unfolding act evaluate_idle_timeout
idle-suspended = refl

act-IsIdleCheck_example : IsIdleCheck 900 (idle_check 1000) idle
act-IsIdleCheck_example = act-IsIdleCheck 900 (idle_check 1000) idle (λ e. cc) idle-suspended

abbrev pub delete_command : MediaCommand
delete_command = record {
  correlation_id = codes "c1";
  signature = codes "h.p.s";
  object_key = codes "projects/1/a";
  request = delete_requested none;
}

abbrev delete_claims : Claims
delete_claims = record {
  exp = some 100;
  iss = some (codes "collab");
  aud = some (codes "crm-media");
  purpose = some (codes "media.command");
  correlation_id = some (codes "c1");
  command_type = some (codes "file.delete-requested");
  object_key = some (codes "projects/1/a");
}

abbrev pub verifier : Verifier
verifier = record {
  issuer = codes "collab";
  configured_key = some (codes "pem");
  has_jwks = false;
  jwks_key = λ kid. none;
  parse_kid = λ header. none;
  parse_claims = λ payload. some delete_claims;
  check = λ key signed signature. some (text_eq signed (codes "h.p"));
}

verify_media_command_signature-IsSigned_example :
    (verify_media_command_signature verifier delete_command 50 ≡ accepted)
    ↔ IsSigned verifier delete_command 50
verify_media_command_signature-IsSigned_example =
    verify_media_command_signature-IsSigned verifier delete_command 50

abbrev expired_par : ParSummary
expired_par = record { id = some (codes "par"); time_expires = some 5 }

abbrev par_pages : List (Option ListParsPage)
par_pages = some (record { items = expired_par ∷ []; has_next = false }) ∷ []

one_pruned :
    prune_expired_pars 10 (λ tried item. true) 50000 par_pages ≡ some (1, (expired_par, true) ∷ [])
unfolding prune_expired_pars prune_pages prune_items has_id is_expired_par
one_pruned = refl

prune_expired_pars-IsPruned_example :
    IsPruned 10 (λ tried item. true) 50000 (1, (expired_par, true) ∷ [])
prune_expired_pars-IsPruned_example =
    prune_expired_pars-IsPruned 10 (λ tried item. true) 50000 par_pages
      (1, (expired_par, true) ∷ []) one_pruned

abbrev pub database : Database
database = record {
  upsert_avatar = λ calls id n color. true;
  purge_residue = λ calls id. false;
  log_selection = λ calls id. true;
}

abbrev preset : PresetOptions
preset = record { avatar_id = some 7; color = codes "#86070c"; actor = none }

abbrev pub email_gate : Gate
email_gate = record {
  parse_header = λ part. some (record { alg = some (codes "RS256"); kid = some (codes "k") });
  parse_claims = λ part. some (record {
    iss = some (codes "crm");
    sub = some (codes "crm");
    aud = some (codes "crm-media:email");
    purpose = some (codes "email:dispatch");
    exp = some 130;
    iat = some 100;
    body_hash = some (codes "body");
  });
  sha256 = λ body. body;
  source_of = λ issuer. some (codes "source");
  fetch_key = λ source kid. some (codes "pem");
  check = λ key signed signature. true;
}

email-allowed :
    authorize_email email_gate (codes "body") 110 (some (codes "Bearer a.b.c"))
    ≡ allowed (codes "crm")
unfolding authorize_email check_parts check_decoded check_named is_valid check_source check_key
    bearer_parts three_parts is_part is_base64url split_dots starts_with text_eq is_timely
email-allowed = refl

authorize_email-IsAuthorized_example :
    IsAuthorized email_gate (codes "body") 110 (some (codes "Bearer a.b.c")) (codes "crm")
authorize_email-IsAuthorized_example =
    authorize_email-IsAuthorized email_gate (codes "body") 110 (codes "crm")
      (some (codes "Bearer a.b.c")) email-allowed
