-- ===== src/Dlq/RoundTrip.antt =====
-- What is read back from the fields of a record.
use crm_media.Base.{
  ℕ, ◌≡◌, ◌≢◌, refl, List, [], ◌∷◌, ◌++◌, Option, none, some, Text, codes, text_eq, ap, ◌∙◌,
}
use crm_media.Base.Decimal.{decimal, parse-decimal, all-decimal}
use crm_media.Dlq.{
  Fields, Json, IsJson, Settings, DlqRecord, DlqEntry, truthy, optional_field, record_fields,
  assign_fields, stream_fields_to_object, field, read_count, read_raw_fields, entry_of_map,
  parse_dlq_entry,
}

-- The entry of a record: an empty stack or payload is not kept.
abbrev pub entry_of : Text → DlqRecord → DlqEntry
entry_of id r = record {
  id = id;
  source_stream = r.source_stream;
  source_group = r.source_group;
  source_message_id = r.source_message_id;
  consumer_id = r.consumer_id;
  failed_at = r.failed_at;
  delivery_count = some r.delivery_count;
  reason = r.reason;
  error_name = r.error_name;
  error_message = r.error_message;
  error_stack = truthy r.error_stack;
  payload = truthy r.payload;
  raw_fields = r.raw_fields;
}

read_count-decimal : (n : ℕ) → read_count (some (decimal n)) ≡ some n
unfolding read_count
read_count-decimal n = rw (all-decimal n) (ap some (parse-decimal n))

read_raw_fields-stringify :
    (json : Json) → IsJson json → (m : Fields) → read_raw_fields json (some (json.stringify m)) ≡ m
unfolding read_raw_fields truthy
read_raw_fields-stringify json laws m =
    go (json.stringify m) (laws.stringify-ne-nil m) (laws.parse-stringify m)
  where
    go : (s : Text) → s ≢ [] → json.parse s ≡ some m → read_raw_fields json (some s) ≡ m
    go [] ne e = absurd (ne refl)
    go (c ∷ s) ne e = rw e refl

-- The fields with the optional ones given.
abbrev fields_with : Json → DlqRecord → Option Text → Option Text → List Text
fields_with json r stack payload =
    codes "sourceStream"
    ∷ r.source_stream
    ∷ codes "sourceGroup"
    ∷ r.source_group
    ∷ codes "sourceMessageId"
    ∷ r.source_message_id
    ∷ codes "consumerId"
    ∷ r.consumer_id
    ∷ codes "failedAt"
    ∷ r.failed_at
    ∷ codes "deliveryCount"
    ∷ decimal r.delivery_count
    ∷ codes "reason"
    ∷ r.reason
    ∷ codes "errorName"
    ∷ r.error_name
    ∷ codes "errorMessage"
    ∷ r.error_message
    ∷ codes "rawFields"
    ∷ json.stringify r.raw_fields
    ∷ (elim stack [ none ↦ [] | some v ↦ codes "errorStack" ∷ v ∷ [] ]
        ++ elim payload [ none ↦ [] | some v ↦ codes "payload" ∷ v ∷ [] ])

abbrev entry_with : Text → DlqRecord → Option Text → Option Text → Option ℕ → Fields → DlqEntry
entry_with id r stack payload count raw = record {
  id = id;
  source_stream = r.source_stream;
  source_group = r.source_group;
  source_message_id = r.source_message_id;
  consumer_id = r.consumer_id;
  failed_at = r.failed_at;
  delivery_count = count;
  reason = r.reason;
  error_name = r.error_name;
  error_message = r.error_message;
  error_stack = stack;
  payload = payload;
  raw_fields = raw;
}

parse-fields_with :
    (json : Json) (settings : Settings) (id : Text) (r : DlqRecord) (stack payload : Option Text)
    → parse_dlq_entry json settings id (fields_with json r stack payload)
      ≡ entry_with id r stack payload
          (read_count (some (decimal r.delivery_count)))
          (read_raw_fields json (some (json.stringify r.raw_fields)))
unfolding parse_dlq_entry entry_of_map stream_fields_to_object assign_fields field text_eq
parse-fields_with json settings id r none none = refl
parse-fields_with json settings id r none (some p) = refl
parse-fields_with json settings id r (some s) none = refl
parse-fields_with json settings id r (some s) (some p) = refl

-- With JSON functions that give back what was printed, a record that was written to the stream is
-- read back with all its fields; an error stack or payload that is empty reads as absent.
pub parse_dlq_entry-record_fields :
    (json : Json) (settings : Settings)
    → IsJson json
    → (id : Text) (r : DlqRecord)
    → parse_dlq_entry json settings id (record_fields json r) ≡ entry_of id r
unfolding record_fields optional_field
parse_dlq_entry-record_fields json settings laws id r =
    let stack = truthy r.error_stack in
    let payload = truthy r.payload in
    parse-fields_with json settings id r stack payload
    ∙ ap
        (λ n.
          entry_with id r stack payload n
            (read_raw_fields json (some (json.stringify r.raw_fields))))
        (read_count-decimal r.delivery_count)
    ∙ ap (entry_with id r stack payload (some r.delivery_count))
        (read_raw_fields-stringify json laws r.raw_fields)
