-- ===== src/Dlq/Replay/Safe.antt =====
-- No failed command is lost by a replay, and what a replay sends is what was recorded.
use crm_media.Base.{
  ℕ, ◌≡◌, refl, Bool, true, false, List, [], ◌∷◌, Option, none, some, Text, get_or,
}
use crm_media.Dlq.{
  Json, IsJson, Settings, DlqRecord, DlqEntry, truthy, record_fields, parse_dlq_entry,
}
use crm_media.Dlq.RoundTrip.{parse_dlq_entry-record_fields}
use crm_media.Dlq.Replay.{
  Message, range_read, command_added, entry_deleted, Calls, Redis, remove_replayed, after_add,
  add_payload, replay_payload, parse_messages, replay_entry, replay_found,
  replay_media_command_dlq_entry, list_media_command_dlq_entries, replay_each, replay_listed,
  replay_cycle,
}

module _ (json : Json) (settings : Settings) where
  -- The last calls have read the entry `id` and added its command to its stream, under an id.
  abbrev pub JustAdded : Text → Calls → Type 0
  JustAdded id
        (command_added stream payload (some (some (c ∷ s)))
          ∷ range_read read (some ((found, fields) ∷ rest))
          ∷ calls) =
      (read ≡ id)
      × (truthy (parse_dlq_entry json settings found fields).payload ≡ some payload)
      × (stream
          ≡ get_or (truthy (some (parse_dlq_entry json settings found fields).source_stream))
              settings.stream_key)
  JustAdded _ _ = ⊥

  -- Each entry was removed right after its command was added.
  abbrev pub NoneLost : Calls → Type 0
  NoneLost [] = Unit
  NoneLost (entry_deleted id n ∷ calls) = JustAdded id calls × NoneLost calls
  NoneLost (_ ∷ calls) = NoneLost calls

module _ (redis : Redis) (json : Json) (settings : Settings) where
  after_add-NoneLost :
      (id found : Text) (fields : List Text) (rest : List Message) (remove : Bool)
      (reply : Option (Option Text)) (payload : Text) (calls : Calls)
      → NoneLost json settings calls
      → truthy (parse_dlq_entry json settings found fields).payload ≡ some payload
      → NoneLost json settings (
          let stream =
            get_or
              (truthy (some (parse_dlq_entry json settings found fields).source_stream))
              settings.stream_key in
          (after_add redis json settings id remove reply (
            command_added stream payload reply
            ∷ range_read id (some ((found, fields) ∷ rest))
            ∷ calls)).1)
  unfolding after_add remove_replayed
  after_add-NoneLost id found fields rest remove none payload calls h e = h
  after_add-NoneLost id found fields rest remove (some none) payload calls h e = h
  after_add-NoneLost id found fields rest remove (some (some [])) payload calls h e = h
  after_add-NoneLost id found fields rest true (some (some (c ∷ s))) payload calls h e =
      ((refl, e, refl), h)
  after_add-NoneLost id found fields rest false (some (some (c ∷ s))) payload calls h e = h

  replay_payload-NoneLost :
      (id found : Text) (fields : List Text) (rest : List Message) (remove : Bool)
      (payload : Option Text) (calls : Calls)
      → NoneLost json settings calls
      → truthy (parse_dlq_entry json settings found fields).payload ≡ payload
      → NoneLost json settings
          (replay_payload redis json settings id remove
            (parse_dlq_entry json settings found fields)
            payload
            (range_read id (some ((found, fields) ∷ rest)) ∷ calls)).1
  unfolding replay_payload add_payload
  replay_payload-NoneLost id found fields rest remove none calls h e = h
  replay_payload-NoneLost id found fields rest remove (some p) calls h e =
      after_add-NoneLost id found fields rest remove _ p calls h e

  replay_found-NoneLost :
      (id : Text) (remove : Bool) (reply : Option (List Message)) (calls : Calls)
      → NoneLost json settings calls
      → NoneLost json settings
          (replay_found redis json settings id remove reply (range_read id reply ∷ calls)).1
  unfolding replay_found replay_entry
  replay_found-NoneLost id remove none calls h = h
  replay_found-NoneLost id remove (some []) calls h = h
  replay_found-NoneLost id remove (some ((found, fields) ∷ rest)) calls h =
      replay_payload-NoneLost id found fields rest remove _ calls h refl

  pub replay-NoneLost :
      (id : Text) (remove : Bool) (calls : Calls)
      → NoneLost json settings calls
      → NoneLost json settings
          (replay_media_command_dlq_entry redis json settings id remove calls).1
  unfolding replay_media_command_dlq_entry
  replay-NoneLost id remove calls h = replay_found-NoneLost id remove _ calls h

  replay_each-NoneLost :
      (entries : List DlqEntry) (calls : Calls)
      → NoneLost json settings calls
      → NoneLost json settings (replay_each redis json settings entries calls)
  unfolding replay_each
  replay_each-NoneLost [] calls h = h
  replay_each-NoneLost (entry ∷ entries) calls h =
      replay_each-NoneLost entries _ (replay-NoneLost entry.id true calls h)

  -- If each removal of an entry so far came right after the addition of its command, so does each
  -- removal by the end of a cycle of the replayer.
  pub replay_cycle-NoneLost :
      (calls : Calls)
      → NoneLost json settings calls
      → NoneLost json settings (replay_cycle redis json settings calls)
  unfolding replay_cycle list_media_command_dlq_entries replay_listed
  replay_cycle-NoneLost calls h =
      go (parse_messages redis json settings (redis.latest calls 10)) _ h
    where
      go :
          (entries : Option (List DlqEntry)) (calls' : Calls)
          → NoneLost json settings calls'
          → NoneLost json settings (replay_listed redis json settings (entries, calls'))
      go none calls' p = p
      go (some entries) calls' p = replay_each-NoneLost entries calls' p

  -- The replay of a record that was appended, with a stream and a payload that are not empty, adds
  -- that payload to that stream.
  pub replay-record_fields :
      IsJson json
      → (id stream payload : Text) (c d : ℕ) (r : DlqRecord) (remove : Bool) (rest : List Message)
        (calls : Calls)
      → r.source_stream ≡ c ∷ stream
      → r.payload ≡ some (d ∷ payload)
      → redis.range calls id ≡ some ((id, record_fields json r) ∷ rest)
      → replay_media_command_dlq_entry redis json settings id remove calls ≡ (
          let before = range_read id (some ((id, record_fields json r) ∷ rest)) ∷ calls in
          let reply = redis.add_command before (c ∷ stream) (d ∷ payload) in
          after_add redis json settings id remove reply
            (command_added (c ∷ stream) (d ∷ payload) reply ∷ before))
  unfolding replay_media_command_dlq_entry replay_found replay_entry replay_payload add_payload
      truthy
  replay-record_fields laws id stream payload c d r remove rest calls at has_payload found =
      rw (found, parse_dlq_entry-record_fields json settings laws id r, at, has_payload) refl
