-- ===== src/Dlq/Operator.antt =====
-- How operators replay dead letters: the command line of src/scripts/media-commands-dlq.ts and the
-- route `/dlq/media-commands/replay` of src/app.ts. `Number` is a parameter.
pub mod Reachable
use crm_media.Base.{
  ℕ, suc, Bool, true, false, not, ◌||◌, List, [], ◌∷◌, ◌++◌, Option, none, some, Text, codes,
  text_eq, starts_with, drop, any, get_elem?, get_or, length, ltb, if◌then◌else◌,
}
use crm_media.Dlq.{Json, Settings, DlqEntry, truthy}
use crm_media.Dlq.Replay.{
  Redis, Calls, Replayed, replayed, no_entry, no_payload, not_added, redis_failed,
  replay_media_command_dlq_entry, list_media_command_dlq_entries,
}

unfoldable pub find_inline : Text → List Text → Option Text
find_inline prefix [] = none
find_inline prefix (arg ∷ args) =
    if starts_with prefix arg then some arg else find_inline prefix args

-- The argument after the first that is `flag`.
unfoldable pub after_flag : Text → List Text → Option Text
after_flag flag [] = none
after_flag flag (arg ∷ args) = if text_eq arg flag then get_elem? args 0 else after_flag flag args

-- `getArg(name)` of `process.argv`.
unfoldable pub get_arg : List Text → Text → Option Text
get_arg argv name =
    let prefix = codes "--" ++ (name ++ codes "=") in
    elim (find_inline prefix argv) [
      | none ↦ after_flag (codes "--" ++ name) argv
      | some inline ↦ some (drop (length prefix) inline)
    ]

unfoldable pub has_flag : List Text → Text → Bool
has_flag argv name = any (λ arg. text_eq arg (codes "--" ++ name)) argv

-- How `main` ends; `listed none` is a list that Redis failed to give.
pub data Output : Type 0 where
  no_redis bad_limit no_id usage : Output
  listed : Option (List DlqEntry) → Output
  answered : Text → Replayed → Output

-- One result of a replay of all entries, `success` or the error.
pub record Result : Type 0 where
  pub id : Text
  pub outcome : Replayed

-- What the route answers; `unavailable` is its 503.
pub data Answer : Type 0 where
  unavailable : Answer
  list_failed : Answer
  one : Text → Replayed → Answer
  all : List Result → Answer

module _ (redis : Redis) (json : Json) (settings : Settings) where
  -- `number` is `Number`, where it gives a natural number.
  module _ (number : Text → Option ℕ) where
    unfoldable pub read_limit : Option Text → Option ℕ
    read_limit none = some 25
    read_limit (some s) = number s

    unfoldable pub list_limited : Option ℕ → Calls → Output × Calls
    list_limited none calls = (bad_limit, calls)
    list_limited (some limit) calls =
        let list = list_media_command_dlq_entries redis json settings limit calls in
        if ltb limit 1 || ltb 500 limit then (bad_limit, calls) else (listed list.0, list.1)

    unfoldable pub replay_given : List Text → Option Text → Calls → Output × Calls
    replay_given argv none calls = (no_id, calls)
    replay_given argv (some id) calls =
        let run =
          replay_media_command_dlq_entry redis json settings id (not (has_flag argv (codes "keep")))
            calls in
        (answered id run.0, run.1)

    unfoldable pub run_command : List Text → Option Text → Calls → Output × Calls
    run_command argv none calls = (usage, calls)
    run_command argv (some command) calls =
        if text_eq command (codes "list")
        then list_limited (read_limit (get_arg argv (codes "limit"))) calls
        else if text_eq command (codes "replay")
        then replay_given argv (truthy (get_arg argv (codes "id"))) calls
        else (usage, calls)

    -- `connected` is whether there is a connection to Redis.
    unfoldable pub main : Bool → List Text → Calls → Output × Calls
    main connected argv calls =
        if connected then run_command argv (get_elem? argv 2) calls else (no_redis, calls)

  -- An error becomes a result, and the next entry follows.
  unfoldable pub replay_all : List DlqEntry → Calls → List Result × Calls
  replay_all [] calls = ([], calls)
  replay_all (entry ∷ entries) calls =
      let run = replay_media_command_dlq_entry redis json settings entry.id true calls in
      let rest = replay_all entries run.1 in
      (record { id = entry.id; outcome = run.0 } ∷ rest.0, rest.1)

  unfoldable pub replay_listed_all : Option (List DlqEntry) × Calls → Answer × Calls
  replay_listed_all (none, calls) = (list_failed, calls)
  replay_listed_all (some entries, calls) = let run = replay_all entries calls in (all run.0, run.1)

  unfoldable pub replay_asked : Option Text → Calls → Answer × Calls
  replay_asked none calls =
      replay_listed_all (list_media_command_dlq_entries redis json settings 100 calls)
  replay_asked (some id) calls =
      let run = replay_media_command_dlq_entry redis json settings id true calls in
      (one id run.0, run.1)

  -- The id of the body, where that is JSON with a string as its id, comes before that of the query.
  unfoldable pub asked_id : Option Text → Option Text → Option Text
  asked_id body query = elim (truthy body) [ none ↦ truthy query | some id ↦ some id ]

  unfoldable pub post_replay : Bool → Option Text → Option Text → Calls → Answer × Calls
  post_replay connected body query calls =
      if connected then replay_asked (asked_id body query) calls else (unavailable, calls)
