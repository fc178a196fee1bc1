-- ===== src/Dlq/Replay.antt =====
-- `appendMediaCommandToDlq`, `listMediaCommandDlqEntries`, `replayMediaCommandDlqEntry` and one
-- cycle of `startMediaDlqReplayer`, over the replies of Redis.
pub mod Safe
use crm_media.Base.{
  ℕ, Bool, true, false, List, [], ◌∷◌, Option, none, some, Text, codes, get_or, ltb, map,
  if◌then◌else◌,
}
use crm_media.Dlq.{Json, Settings, DlqRecord, DlqEntry, truthy, record_fields, parse_dlq_entry}

abbrev pub Message : Type 0
Message = Text × List Text

-- A call of Redis with its reply; `none` is a call that threw. A null id is an inner `none`.
pub data Call : Type 0 where
  record_added : List Text → Option (Option Text) → Call
  range_read : Text → Option (List Message) → Call
  latest_read : ℕ → Option (List Message) → Call
  command_added : Text → Text → Option (Option Text) → Call
  entry_deleted : Text → Option ℕ → Call

abbrev pub Calls : Type 0
Calls = List Call

pub record Redis : Type 0 where
  pub add_record : Calls → List Text → Option (Option Text)
  pub range : Calls → Text → Option (List Message)
  pub latest : Calls → ℕ → Option (List Message)
  pub add_command : Calls → Text → Text → Option (Option Text)
  pub delete : Calls → Text → Option ℕ

pub data Appended : Type 0 where
  appended : Text → Appended
  append_failed : Appended

-- What a replay returns, or the error that it throws.
pub data Replayed : Type 0 where
  replayed : Text → Bool → Replayed
  no_entry no_payload not_added redis_failed : Replayed

-- A null or empty id throws, and so does a call that fails.
unfoldable pub added_id : Option (Option Text) → Option Text
added_id none = none
added_id (some id) = truthy id

module _ (redis : Redis) (json : Json) (settings : Settings) where
  unfoldable pub append_media_command_to_dlq : DlqRecord → Calls → Appended × Calls
  append_media_command_to_dlq r calls =
      let reply = redis.add_record calls (record_fields json r) in
      (
        elim (added_id reply) [ none ↦ append_failed | some id ↦ appended id ],
        record_added (record_fields json r) reply ∷ calls,
      )

  unfoldable pub remove_replayed : Text → Text → Calls → Replayed × Calls
  remove_replayed id new_id calls =
      let reply = redis.delete calls id in
      (
        elim reply [ none ↦ redis_failed | some n ↦ replayed new_id (ltb 0 n) ],
        entry_deleted id reply ∷ calls,
      )

  -- From the reply to `xadd` on.
  unfoldable pub after_add : Text → Bool → Option (Option Text) → Calls → Replayed × Calls
  after_add id remove none calls = (redis_failed, calls)
  after_add id remove (some none) calls = (not_added, calls)
  after_add id remove (some (some [])) calls = (not_added, calls)
  after_add id remove (some (some (c ∷ s))) calls =
      if remove then remove_replayed id (c ∷ s) calls else (replayed (c ∷ s) false, calls)

  unfoldable pub add_payload : Text → Bool → DlqEntry → Text → Calls → Replayed × Calls
  add_payload id remove entry payload calls =
      let stream = get_or (truthy (some entry.source_stream)) settings.stream_key in
      let reply = redis.add_command calls stream payload in
      after_add id remove reply (command_added stream payload reply ∷ calls)

  unfoldable pub replay_payload : Text → Bool → DlqEntry → Option Text → Calls → Replayed × Calls
  replay_payload id remove entry none calls = (no_payload, calls)
  replay_payload id remove entry (some payload) calls = add_payload id remove entry payload calls

  unfoldable pub replay_entry : Text → Bool → DlqEntry → Calls → Replayed × Calls
  replay_entry id remove entry calls = replay_payload id remove entry (truthy entry.payload) calls

  unfoldable pub replay_found : Text → Bool → Option (List Message) → Calls → Replayed × Calls
  replay_found id remove none calls = (redis_failed, calls)
  replay_found id remove (some []) calls = (no_entry, calls)
  replay_found id remove (some ((found, fields) ∷ rest)) calls =
      replay_entry id remove (parse_dlq_entry json settings found fields) calls

  unfoldable pub replay_media_command_dlq_entry : Text → Bool → Calls → Replayed × Calls
  replay_media_command_dlq_entry id remove calls =
      let reply = redis.range calls id in replay_found id remove reply (range_read id reply ∷ calls)

  unfoldable pub parse_messages : Option (List Message) → Option (List DlqEntry)
  parse_messages none = none
  parse_messages (some messages) = some (map (λ m. parse_dlq_entry json settings m.0 m.1) messages)

  unfoldable pub list_media_command_dlq_entries : ℕ → Calls → Option (List DlqEntry) × Calls
  list_media_command_dlq_entries limit calls =
      let reply = redis.latest calls limit in
      (parse_messages reply, latest_read limit reply ∷ calls)

  -- The loop of the replayer: an error is logged and the next entry follows.
  unfoldable pub replay_each : List DlqEntry → Calls → Calls
  replay_each [] calls = calls
  replay_each (entry ∷ entries) calls =
      replay_each entries (replay_media_command_dlq_entry entry.id true calls).1

  unfoldable pub replay_listed : Option (List DlqEntry) × Calls → Calls
  replay_listed (none, calls) = calls
  replay_listed (some entries, calls) = replay_each entries calls

  unfoldable pub replay_cycle : Calls → Calls
  replay_cycle calls = replay_listed (list_media_command_dlq_entries 10 calls)
