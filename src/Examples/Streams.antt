-- ===== src/Examples/Streams.antt =====
-- The theorems on the workers of the streams, the scanner, the process, the partitions and the
-- statistics at concrete inputs.
use crm_media.Base.{
  ℕ, ◌+◌, ◌*◌, ◌/◌, false, refl, true, [], ◌∷◌, Option, none, some, Text, codes, leb, arith,
}
use crm_media.Commands.Worker.{Envelope, Delivery, handle_media_command, handle_dlq}
use crm_media.Commands.Worker.Answered.{HandledSpec, handle_media_command-HandledSpec}
use crm_media.Commands.Worker.DeadLetter.{IsKept, handle_dlq-IsKept}
use crm_media.Commands.Route.{post_command}
use crm_media.Commands.Route.Signed.{RouteSpec, post_command-RouteSpec}
use crm_media.Identity.{AuthIdentityEvent}
use crm_media.Standby.{initial, starts}
use crm_media.Standby.Warmup.{World, At, ensure_ready}
use crm_media.Standby.Warmup.Ends.{Ticks, Returned, ensure_ready-Returned}
use crm_media.Standby.Warmup.Wakes.{ComesUp, Awake, ensure_ready-Awake}
use crm_media.MediaWorker.{
  initial as initial_worker, Config, MediaWorkerState, start_media_worker,
  start_identity_event_consumer, first_tick, shut_down, begins, steps, identity_starts, parts_start,
  starts as starts_worker, shuts_down,
}
use crm_media.MediaWorker.Single.{IsSingle, IsQuiet, Reaches-IsSingle}
use crm_media.Partitions.{
  MonthSlice, Created, created, exists, Queries, ensure_audit_log_partitions,
}
use crm_media.Partitions.Contiguous.{EnsuredSpec, ensure_audit_log_partitions-EnsuredSpec}
use crm_media.StorageStats.{
  Number, ratio, not_a_number, natural, metrics, not_ok, Replies, Cache, refresh, get_storage_stats,
}
use crm_media.StorageStats.Fresh.{
  begins as begins_cache, refreshes, IsFresh, get_storage_stats-IsFresh,
}
use crm_media.Examples.{clinic}
use crm_media.Examples.Workers.{
  delete_command, verifier, encoding, encoding-IsJson, streams, failed_command, broker,
}

abbrev plain : Envelope → Text
plain e = codes "{}"

abbrev delivery : Delivery
delivery = record { command = delete_command; trace_id = none; version = some 1 }

handle_media_command-HandledSpec_example :
    HandledSpec clinic plain verifier delivery []
      (handle_media_command clinic plain verifier delivery [])
handle_media_command-HandledSpec_example =
    handle_media_command-HandledSpec clinic plain verifier delivery []

post_command-RouteSpec_example :
    RouteSpec clinic verifier
      (some (some delete_command))
      []
      (post_command clinic verifier (some (some delete_command)) [])
post_command-RouteSpec_example =
    post_command-RouteSpec clinic verifier (some (some delete_command)) []

abbrev find_ids : Text → Option (Option Text × Option Text)
find_ids payload = some (some (codes "c1"), some (codes "projects/1/a"))

abbrev deletion : AuthIdentityEvent
deletion = record { type = codes "user.deleted"; user_sub = some (codes "ana"); version = some 1 }

abbrev first_avatar : Text → ℕ × Text
first_avatar id = (0, codes "#000000")

-- The scanner comes up after three seconds; a ping takes a tenth of one.
abbrev waking : World
waking = record {
  ping = λ limit now. some (leb 3000 now, now + 100);
  sleep = λ d now. now + d;
  others = λ start end. [];
}

waking-Ticks : Ticks waking
waking-Ticks = record {
  ping = λ limit now answer arrival e. ground arith;
  sleep = λ d now. omega arith;
}

waking-ComesUp : ComesUp waking 3000 400
waking-ComesUp = record {
  settles = λ limit now e. cc;
  answers = λ limit now arrival h e. ground arith;
  round = λ now arrival answer e. ground arith;
}

abbrev asleep : At
asleep = record { time = 0; controller = initial 0 }

ensure_ready-Awake_example : Awake (ensure_ready waking 900000 28 8000 asleep)
ensure_ready-Awake_example =
    ensure_ready-Awake waking 900000 3000 400 waking-Ticks waking-ComesUp 27 8000 asleep
      (omega arith) (omega arith) (omega arith)

ensure_ready-Returned_example : Returned waking 900000 (ensure_ready waking 900000 28 8000 asleep)
ensure_ready-Returned_example =
    ensure_ready-Returned waking 900000 waking-Ticks 27 8000 asleep (starts 0) (omega arith)

abbrev full_config : Config
full_config = record {
  redis_url = true;
  email_queue_encryption_key = true;
  dlq_auto_replay_interval_ms = 60000;
  stream_connection = true;
}

abbrev running : MediaWorkerState
running =
    first_tick full_config
      (start_identity_event_consumer full_config (start_media_worker full_config initial_worker).1)

Reaches-IsSingle_example : IsSingle (shut_down running) × IsQuiet (shut_down running)
Reaches-IsSingle_example = Reaches-IsSingle (shut_down running) (
    steps
      (steps (steps (steps begins (starts_worker full_config)) (identity_starts full_config))
        (parts_start full_config))
      shuts_down)

handle_dlq-IsKept_example :
    IsKept clinic plain find_ids none failed_command [] broker encoding streams []
      (handle_dlq clinic plain find_ids broker encoding streams none failed_command ([], []))
handle_dlq-IsKept_example =
    handle_dlq-IsKept clinic plain find_ids none failed_command [] refl broker encoding streams []
      encoding-IsJson

-- The first partition is there already.
abbrev replies : Queries → MonthSlice → Created
replies [] slice = exists
replies (query ∷ queries) slice = created

ensure_audit_log_partitions-EnsuredSpec_example :
    EnsuredSpec replies
      (some (codes "p"))
      2025
      11
      []
      (ensure_audit_log_partitions replies (some (codes "p")) 2025 11 [])
ensure_audit_log_partitions-EnsuredSpec_example =
    ensure_audit_log_partitions-EnsuredSpec replies (some (codes "p")) 2025 11 [] (omega arith)
      (omega arith) (omega arith)

abbrev percent : ℕ → ℕ → ℕ
percent used total = 100 * used / total

abbrev no_percent : ℕ → Number → Number
no_percent used quota = natural 0

abbrev quiet_day : Replies
quiet_day = record {
  statfs = some (record { bsize = 4096; blocks = 1000; bavail = 250 });
  quota = ratio false 5 0;
  rows = some ((12, 34567) ∷ []);
  collab = metrics (some 3) (some 8901);
}

abbrev full_cache : Cache
full_cache = (refresh percent no_percent 1000 quiet_day).1

-- A call from the cache.
get_storage_stats-IsFresh_example : IsFresh percent no_percent false 30999 full_cache (
    get_storage_stats percent no_percent false 30999 full_cache
      (record { statfs = none; quota = not_a_number; rows = none; collab = not_ok }))
get_storage_stats-IsFresh_example =
    get_storage_stats-IsFresh percent no_percent full_cache (refreshes begins_cache 1000 quiet_day)
      false 30999 (record { statfs = none; quota = not_a_number; rows = none; collab = not_ok })
