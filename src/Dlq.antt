-- ===== src/Dlq.antt =====
-- src/workers/media-command-dlq.ts: the stream of the commands that failed, its records, and their
-- replay. The replies of Redis and the JSON functions are parameters. What a replay has sent to
-- Redis is a list, the latest call first.
pub mod RoundTrip
pub mod Replay
pub mod Operator
use crm_media.Base.{
  ℕ, Bool, true, false, not, List, [], ◌∷◌, ◌++◌, Option, none, some, Text, codes, text_eq, get_or,
  all, leb, ◌&&◌, if◌then◌else◌, ◌≡◌, ◌≢◌,
}
use crm_media.Base.Decimal.{decimal, is_digit, parse_decimal}

abbrev pub Fields : Type 0
Fields = List (Text × Text)

-- `JSON.stringify` and `JSON.parse` of an object of strings; a parse that throws is `none`.
pub record Json : Type 0 where
  pub stringify : Fields → Text
  pub parse : Text → Option Fields

-- What is assumed of them.
pub record IsJson (json : Json) : Type 0 where
  pub parse-stringify : (m : Fields) → json.parse (json.stringify m) ≡ some m
  pub stringify-ne-nil : (m : Fields) → json.stringify m ≢ []

-- `env.MEDIA_COMMANDS_STREAM_KEY`, `env.MEDIA_COMMANDS_CONSUMER_GROUP`.
pub record Settings : Type 0 where
  pub stream_key : Text
  pub consumer_group : Text

-- `MediaCommandDlqRecord`; an optional field that is absent is `none`.
pub record DlqRecord : Type 0 where
  pub source_stream : Text
  pub source_group : Text
  pub source_message_id : Text
  pub consumer_id : Text
  pub failed_at : Text
  pub delivery_count : ℕ
  pub reason : Text
  pub error_name : Text
  pub error_message : Text
  pub error_stack : Option Text
  pub payload : Option Text
  pub raw_fields : Fields

-- `MediaCommandDlqEntry`; `none` is a delivery count that is no decimal number.
pub record DlqEntry : Type 0 where
  pub id : Text
  pub source_stream : Text
  pub source_group : Text
  pub source_message_id : Text
  pub consumer_id : Text
  pub failed_at : Text
  pub delivery_count : Option ℕ
  pub reason : Text
  pub error_name : Text
  pub error_message : Text
  pub error_stack : Option Text
  pub payload : Option Text
  pub raw_fields : Fields

-- A string that is present and not empty.
unfoldable pub truthy : Option Text → Option Text
truthy none = none
truthy (some []) = none
truthy (some (c ∷ s)) = some (c ∷ s)

unfoldable pub optional_field : Text → Option Text → List Text
optional_field name value = elim (truthy value) [ none ↦ [] | some v ↦ name ∷ v ∷ [] ]

-- The fields that `appendMediaCommandToDlq` writes.
unfoldable pub record_fields : Json → DlqRecord → List Text
record_fields json r =
    codes "sourceStream"
    ∷ r.source_stream
    ∷ codes "sourceGroup"
    ∷ r.source_group
    ∷ codes "sourceMessageId"
    ∷ r.source_message_id
    ∷ codes "consumerId"
    ∷ r.consumer_id
    ∷ codes "failedAt"
    ∷ r.failed_at
    ∷ codes "deliveryCount"
    ∷ decimal r.delivery_count
    ∷ codes "reason"
    ∷ r.reason
    ∷ codes "errorName"
    ∷ r.error_name
    ∷ codes "errorMessage"
    ∷ r.error_message
    ∷ codes "rawFields"
    ∷ json.stringify r.raw_fields
    ∷ (optional_field (codes "errorStack") r.error_stack
        ++ optional_field (codes "payload") r.payload)

-- An object of strings; the latest assignment stands first.
unfoldable pub assign_fields : Fields → List Text → Fields
assign_fields m [] = m
assign_fields m (k ∷ []) = m
assign_fields m (k ∷ v ∷ rest) = assign_fields ((k, v) ∷ m) rest

unfoldable pub stream_fields_to_object : List Text → Fields
stream_fields_to_object fields = assign_fields [] fields

unfoldable pub field : Text → Fields → Option Text
field name [] = none
field name ((k, v) ∷ m) = if text_eq k name then some v else field name m

-- `Number(map.deliveryCount ?? 0)`
unfoldable pub read_count : Option Text → Option ℕ
read_count none = some 0
read_count (some s) = if all is_digit s then some (parse_decimal s) else none

-- `map.rawFields ? JSON.parse(map.rawFields) : {}`, and `{}` when that throws.
unfoldable pub read_raw_fields : Json → Option Text → Fields
read_raw_fields json text = elim (truthy text) [ none ↦ [] | some s ↦ get_or (json.parse s) [] ]

unfoldable pub entry_of_map : Json → Settings → Text → Fields → DlqEntry
entry_of_map json settings id m = record {
  id = id;
  source_stream = get_or (field (codes "sourceStream") m) settings.stream_key;
  source_group = get_or (field (codes "sourceGroup") m) settings.consumer_group;
  source_message_id = get_or (field (codes "sourceMessageId") m) [];
  consumer_id = get_or (field (codes "consumerId") m) [];
  failed_at = get_or (field (codes "failedAt") m) [];
  delivery_count = read_count (field (codes "deliveryCount") m);
  reason = get_or (field (codes "reason") m) (codes "unknown");
  error_name = get_or (field (codes "errorName") m) (codes "Error");
  error_message = get_or (field (codes "errorMessage") m) [];
  error_stack = field (codes "errorStack") m;
  payload = field (codes "payload") m;
  raw_fields = read_raw_fields json (field (codes "rawFields") m);
}

unfoldable pub parse_dlq_entry : Json → Settings → Text → List Text → DlqEntry
parse_dlq_entry json settings id fields =
    entry_of_map json settings id (stream_fields_to_object fields)
