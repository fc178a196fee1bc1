-- ===== src/Effects/Defs.antt =====
-- Events, replies, and the monad: a computation extends the trace and returns or throws.
use crm_media.Base.{ℕ, Bool, true, false, List, ◌∷◌, Option, none, some, String, Text}
use crm_media.FileValidation.Bytes.{Bytes}
use crm_media.FileValidation.Names.{Unicode}

-- What `headObject` returns; absent headers are `none`.
pub record Head : Type 0 where
  pub content_length : Option ℕ
  pub content_type : Option Text

-- The rows of `media_assets` and `audit_logs`, as far as the services write or read them.
pub data MediaKind : Type 0 where
  avatar document : MediaKind

pub record MediaAsset : Type 0 where
  pub user_id : Text
  pub kind : MediaKind
  pub object_key : Text
  pub original_name : Text
  pub mime_type : Text
  pub size_bytes : ℕ

pub record AuditLog : Type 0 where
  pub actor_sub : Text
  pub actor_email : Text
  pub actor_role : Text
  pub action : String
  pub resource_id : Text
  pub original_name : Text

pub data ReputationStatus : Type 0 where
  clean infected unknown : ReputationStatus

-- An exception: an `AppError` with its status and message, or any other one.
-- `unfinished` is no exception: it says that the fuel of a loop of the model ran out.
pub data Failure : Type 0 where
  app_error : ℕ → String → Failure
  thrown : Failure
  unfinished : Failure

-- A call with its reply. A Boolean reply says that the call succeeded; `none` that it threw.
pub data Event : Type 0 where
  namespace_read : Bool → Event
  object_headed : Text → Option Head → Event
  object_read : Text → Option Bytes → Event
  object_put : Text → Bytes → Text → Bool → Event
  object_deleted : Text → Bool → Event
  par_created : Text → Bool → Option (Option Text) → Event
  document_found : Text → Option (Option (Text × MediaAsset)) → Event
  asset_inserted : MediaAsset → Bool → Event
  asset_deleted : Text → Bool → Event
  user_assets_found : Text → Option (List (Text × MediaAsset)) → Event
  user_assets_deleted : Text → Bool → Event
  user_avatar_deleted : Text → Bool → Event
  user_avatar_inserted : Text → ℕ → Text → Bool → Event
  logs_anonymized : Text → Text → Bool → Event
  audit_logged : AuditLog → Bool → Event
  reputation_read : Text → Option (Option Text) → Event
  reputation_recorded : Text → ReputationStatus → Bool → Event
  warmup_triggered : String → Event
  scan_started scan_completed : Event
  ready_awaited : Bool → Event
  scanner_opened : Bool → Event
  stream_scanned : Bytes → Option Bool → Event
  clock_read : ℕ → Event
  slept : ℕ → Event
  uuid_drawn : Text → Event
  -- An entry of the stream of responses, and a counter in Redis.
  response_added : Text → Bool → Event
  metric_counted : Text → Text → Bool → Event
  -- No call: the fuel of a loop of the model ran out.
  fuel_exhausted : Event

-- The latest event stands at the head.
abbrev pub Trace : Type 0
Trace = List Event

-- The environment: the settings of `env`, the library functions without effects, and the reply of
-- each call after each trace.
pub record Env : Type 0 where
  pub unicode : Unicode
  pub sha256 : Bytes → Text
  pub endpoint : Text
  pub encode_uri_component : Text → Text
  pub doc_par_ttl_seconds : ℕ
  pub quarantine_grace_ms : ℕ
  pub quarantine_max_age_ms : ℕ
  pub namespace : Trace → Bool
  pub head_object : Trace → Text → Option Head
  pub get_object : Trace → Text → Option Bytes
  pub put_object : Trace → Text → Bytes → Text → Bool
  pub delete_object : Trace → Text → Bool
  pub create_par : Trace → Text → Bool → Option (Option Text)
  pub find_document : Trace → Text → Option (Option (Text × MediaAsset))
  pub insert_asset : Trace → MediaAsset → Bool
  pub delete_asset : Trace → Text → Bool
  pub find_user_assets : Trace → Text → Option (List (Text × MediaAsset))
  pub delete_user_assets : Trace → Text → Bool
  pub delete_user_avatar : Trace → Text → Bool
  pub insert_user_avatar : Trace → Text → ℕ → Text → Bool
  pub anonymize_logs : Trace → Text → Text → Bool
  pub insert_audit_log : Trace → AuditLog → Bool
  pub read_reputation : Trace → Text → Option (Option Text)
  pub record_reputation : Trace → Text → ReputationStatus → Bool
  pub ensure_ready : Trace → Bool
  pub open_scanner : Trace → Bool
  pub scan_stream : Trace → Bytes → Option Bool
  pub now : Trace → ℕ
  pub uuid : Trace → Text
  pub has_redis : Trace → Bool
  pub add_response : Trace → Text → Bool
  pub count_metric : Trace → Text → Text → Bool

pub data Outcome (A : Type 0) : Type 0 where
  ok : A → Outcome A
  err : Failure → Outcome A

abbrev pub M : Type 0 → Type 0
M A = Trace → Outcome A × Trace

abbrev pub then_do : {A B : Type 0} → Outcome A × Trace → (A → M B) → Outcome B × Trace
then_do (ok a, t) f = f a t
then_do (err e, t) f = (err e, t)

infixl 5 ◌>>=◌ ◌>>◌
unfoldable pub ◌>>=◌ : {A B : Type 0} → M A → (A → M B) → M B
◌>>=◌ m f t = then_do (m t) f

abbrev pub ◌>>◌ : {B : Type 0} → M (Unit {0}) → M B → M B
◌>>◌ m k = m >>= λ _. k

unfoldable pub return : {A : Type 0} → A → M A
return a t = (ok a, t)

unfoldable pub throw : {A : Type 0} → Failure → M A
throw e t = (err e, t)

-- `if (bad) throw e`
unfoldable pub reject_if : Bool → Failure → M (Unit {0})
reject_if true e = throw e
reject_if false e = return tt

abbrev pub handle : {A : Type 0} → Outcome A × Trace → (Failure → M A) → Outcome A × Trace
handle (ok a, t) h = (ok a, t)
handle (err unfinished, t) h = (err unfinished, t)
handle (err e, t) h = h e t

-- `try { m } catch (e) { h(e) }`; running out of fuel is not caught.
unfoldable pub catch : {A : Type 0} → M A → (Failure → M A) → M A
catch m h t = handle (m t) h

-- One call: the event with its reply.
unfoldable pub emit : Event → M (Unit {0})
emit e t = (ok tt, e ∷ t)

-- A call that returns nothing: it throws if the reply says so.
unfoldable pub done_or_throw : Bool → M (Unit {0})
done_or_throw true = return tt
done_or_throw false = throw thrown

unfoldable pub value_or_throw : {A : Type 0} → Option A → M A
value_or_throw none = throw thrown
value_or_throw (some a) = return a
