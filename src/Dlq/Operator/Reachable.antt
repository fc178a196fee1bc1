-- ===== src/Dlq/Operator/Reachable.antt =====
-- Whatever appends, replays and listings of dead letters happen, in any order, none is lost.
use crm_media.Base.{
  ℕ, inl, inr, Bool, true, false, ◌||◌, List, [], ◌∷◌, Option, none, some, Text, codes, text_eq,
  ltb, Bool-cases,
}
use crm_media.Dlq.{Json, Settings, DlqRecord, DlqEntry}
use crm_media.Dlq.Replay.{
  Redis, Calls, append_media_command_to_dlq, list_media_command_dlq_entries, replay_cycle,
}
use crm_media.Dlq.Replay.Safe.{NoneLost, replay-NoneLost, replay_cycle-NoneLost}
use crm_media.Dlq.Operator.{
  list_limited, replay_given, run_command, main, replay_all, replay_listed_all, replay_asked,
  post_replay,
}

module _ (redis : Redis) (json : Json) (settings : Settings) (number : Text → Option ℕ) where
  -- One process that uses the stream.
  pub data Step (calls : Calls) : Calls → Type 0 where
    appends :
        (r : DlqRecord) → Step calls (append_media_command_to_dlq redis json settings r calls).1
    cycles : Step calls (replay_cycle redis json settings calls)
    commands :
        (connected : Bool) (argv : List Text)
        → Step calls (main redis json settings number connected argv calls).1
    posts :
        (connected : Bool) (body query : Option Text)
        → Step calls (post_replay redis json settings connected body query calls).1

  pub data Reaches : Calls → Type 0 where
    begins : Reaches []
    steps : {calls calls' : Calls} → Reaches calls → Step calls calls' → Reaches calls'

  replay_all-NoneLost :
      (entries : List DlqEntry) (calls : Calls)
      → NoneLost json settings calls
      → NoneLost json settings (replay_all redis json settings entries calls).1
  unfolding replay_all
  replay_all-NoneLost [] calls h = h
  replay_all-NoneLost (entry ∷ entries) calls h =
      replay_all-NoneLost entries _ (replay-NoneLost redis json settings entry.id true calls h)

  replay_listed_all-NoneLost :
      (entries : Option (List DlqEntry)) (calls : Calls)
      → NoneLost json settings calls
      → NoneLost json settings (replay_listed_all redis json settings (entries, calls)).1
  unfolding replay_listed_all
  replay_listed_all-NoneLost none calls h = h
  replay_listed_all-NoneLost (some entries) calls h = replay_all-NoneLost entries calls h

  replay_asked-NoneLost :
      (id : Option Text) (calls : Calls)
      → NoneLost json settings calls
      → NoneLost json settings (replay_asked redis json settings id calls).1
  unfolding replay_asked list_media_command_dlq_entries
  replay_asked-NoneLost none calls h = replay_listed_all-NoneLost _ _ h
  replay_asked-NoneLost (some id) calls h = replay-NoneLost redis json settings id true calls h

  list_limited-NoneLost :
      (limit : Option ℕ) (calls : Calls)
      → NoneLost json settings calls
      → NoneLost json settings (list_limited redis json settings number limit calls).1
  unfolding list_limited list_media_command_dlq_entries
  list_limited-NoneLost none calls h = h
  list_limited-NoneLost (some limit) calls h = elim (Bool-cases (ltb limit 1 || ltb 500 limit)) [
    | inl out ↦ rw (out) h
    | inr within ↦ rw (within) h
  ]

  replay_given-NoneLost :
      (argv : List Text) (id : Option Text) (calls : Calls)
      → NoneLost json settings calls
      → NoneLost json settings (replay_given redis json settings number argv id calls).1
  unfolding replay_given
  replay_given-NoneLost argv none calls h = h
  replay_given-NoneLost argv (some id) calls h = replay-NoneLost redis json settings id _ calls h

  run_command-NoneLost :
      (argv : List Text) (command : Option Text) (calls : Calls)
      → NoneLost json settings calls
      → NoneLost json settings (run_command redis json settings number argv command calls).1
  unfolding run_command
  run_command-NoneLost argv none calls h = h
  run_command-NoneLost argv (some command) calls h =
      elim (Bool-cases (text_eq command (codes "list"))) [
        | inl is_list ↦ rw (is_list) (list_limited-NoneLost _ calls h)
        | inr not_list ↦ elim (Bool-cases (text_eq command (codes "replay"))) [
          | inl is_replay ↦ rw (not_list, is_replay) (replay_given-NoneLost argv _ calls h)
          | inr other ↦ rw (not_list, other) h
        ]
      ]

  main-NoneLost :
      (connected : Bool) (argv : List Text) (calls : Calls)
      → NoneLost json settings calls
      → NoneLost json settings (main redis json settings number connected argv calls).1
  unfolding main
  main-NoneLost true argv calls h = run_command-NoneLost argv _ calls h
  main-NoneLost false argv calls h = h

  post_replay-NoneLost :
      (connected : Bool) (body query : Option Text) (calls : Calls)
      → NoneLost json settings calls
      → NoneLost json settings (post_replay redis json settings connected body query calls).1
  unfolding post_replay
  post_replay-NoneLost true body query calls h = replay_asked-NoneLost _ calls h
  post_replay-NoneLost false body query calls h = h

  Step-NoneLost :
      {calls calls' : Calls}
      → Step calls calls'
      → NoneLost json settings calls
      → NoneLost json settings calls'
  unfolding append_media_command_to_dlq
  Step-NoneLost (appends r) h = h
  Step-NoneLost cycles h = replay_cycle-NoneLost redis json settings _ h
  Step-NoneLost (commands connected argv) h = main-NoneLost connected argv _ h
  Step-NoneLost (posts connected body query) h = post_replay-NoneLost connected body query _ h

  -- Let records be appended to the stream of dead letters, cycles of the replayer, command lines of
  -- the operators' script with any arguments, and replays asked over HTTP run one after another,
  -- in any order and with any replies of Redis. Then each removal of an entry came right after two
  -- calls: a read of the entry of that id, which found one with a payload, and the addition of that
  -- payload to the stream that the entry names (the stream of commands if it names none), which
  -- answered with an id that is not empty.
  pub Reaches-NoneLost : {calls : Calls} → Reaches calls → NoneLost json settings calls
  Reaches-NoneLost begins = tt
  Reaches-NoneLost (steps before step) = Step-NoneLost step (Reaches-NoneLost before)
