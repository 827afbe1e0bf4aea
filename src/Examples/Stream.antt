-- ===== src/Examples/Stream.antt =====
-- internal/stream/manager.go: small inputs.
use baidu_disk_link.Common.{
  ◌+◌, ◌*◌, ◌/◌, ◌^◌, ◌≤◌, ◌<◌, ◌≡◌, ◌⊎◌, refl, true, false, none, some, List, [], ◌∷◌, max, arith,
  ℕ_discrete,
}
use baidu_disk_link.Common.Maps.{lookup, without}
use baidu_disk_link.Common.Decimal.{pos, negsuc}
use baidu_disk_link.ChunkStore.Types.{Bytes, File, ChunkKey, ChunkKey-discrete}
use baidu_disk_link.Stream.Types.{probe, stream, Event, quiet, seek, Observation, Handle, near}
use baidu_disk_link.Stream.Config.{
  Settings, Config, default_config, complete, positive_or, at_least_or, complete_session_workers,
  IsUsable, complete-IsUsable,
}
use baidu_disk_link.Stream.Assembly.{ok, read_at, ReadError}
use baidu_disk_link.Stream.Assembly.Exact.{chunk_of, read_at-exact}
use baidu_disk_link.Stream.Board.{
  Board, empty_board, ensure, live_task, ensure_new, chunk_span, new_task, add_task, start_task,
  mark_hedged, publish_hedge, conclude, write_task, forget_task,
}
use baidu_disk_link.Stream.Board.Sound.{IsSound}
use baidu_disk_link.Stream.Board.Run
use baidu_disk_link.Stream.Board.Run.{BoardCall, board_run, board_run-IsSound}
use baidu_disk_link.Stream.Board.Final.{HasResult, board_run-HasResult}
use baidu_disk_link.Stream.Board.Choice.{
  Admitted, next_task, next_task-Admitted, is_full, choose, pop, take_first,
}
use baidu_disk_link.Stream.Access.{
  observe, observe_head, thresholds, compare_read, is_probe_jump, is_tail_probe, is_seek, settle,
}
use baidu_disk_link.Stream.Access.Sequential.{observe_seek}
use baidu_disk_link.Stream.Session.{Session, prepare_session}
use baidu_disk_link.Stream.Session.Epochs.{
  Proceeds, prepare_session-Proceeds, prepare_session_apart,
}
use baidu_disk_link.Stream.Buffer.{
  Plan, schedule, end_offset, reset_plan, window, reset_jobs, chunks,
}
use baidu_disk_link.Stream.Buffer.Coverage.{asks, schedule_complete, schedule_inside}

abbrev movie : File
movie = record { fsid = b'7' ∷ []; size = 3; mtm = 1 }

abbrev content : Bytes
content = 7 ∷ 8 ∷ 9 ∷ []

read_at-exact_example :
    read_at false false movie 2 (λ index. ok (chunk_of 2 content index)) (pos 1) (pos 5)
    ≡ ok (8 ∷ 9 ∷ [])
read_at-exact_example =
    read_at-exact movie 2 1 5 content (λ index. ok (chunk_of 2 content index)) (omega arith)
      (λ e. cc) refl (omega arith) (λ index. refl)

abbrev key : ChunkKey
key = record { version = b'7' ∷ []; index = 0 }

-- a chunk is asked for, downloaded twice at once, and its task finished by both
abbrev calls : List BoardCall
calls =
    Run.ensured false 2 key movie 0 1 near
    ∷ Run.started 1
    ∷ Run.hedge_marked false 1
    ∷ Run.hedge_came 1 (7 ∷ 8 ∷ [])
    ∷ []

abbrev later : List BoardCall
later = Run.finished 1 [] (some ReadError.download_failed) ∷ Run.shut ∷ []

board_run-IsSound_example : IsSound (board_run calls empty_board)
board_run-IsSound_example = board_run-IsSound calls

hedged : HasResult 1 (7 ∷ 8 ∷ []) none (board_run calls empty_board)
unfolding board_run Run.board_step ensure live_task ensure_new chunk_span new_task add_task
    start_task mark_hedged publish_hedge conclude write_task forget_task lookup without ℕ_discrete
    ChunkKey-discrete
hedged = (
  record {
    key = key;
    file = movie;
    offset = 0;
    length = 2;
    priority = near;
    epoch = 1;
    canceled = true;
    done = true;
    bytes = 7 ∷ 8 ∷ [];
    error = none;
    started = true;
    finished = true;
    foreground = false;
    hedged = true;
    hedge_pending = false;
  },
  refl,
  refl,
  refl,
  refl,
)

board_run-HasResult_example :
    HasResult 1 (7 ∷ 8 ∷ []) none (board_run later (board_run calls empty_board))
board_run-HasResult_example =
    board_run-HasResult 1 (7 ∷ 8 ∷ []) none later (board_run calls empty_board)
      (board_run-IsSound calls) hedged

abbrev settings : Settings
settings = record {
  chunk_size = pos 0;
  forward_gap = negsuc 0;
  seek_threshold = pos 0;
  workers = pos 3;
  low_watermark = pos 0;
  target_buffer = pos 0;
  back_buffer = pos 0;
  memory_cache = pos 0;
  disk_cache = pos 0;
  cache_path = [];
  hedge = true;
  diagnostics = false;
  hedge_min_delay = pos 0;
  hedge_max_delay = pos 0;
  session_workers = pos 9;
  idle_reclaim = pos 0;
}

abbrev completed : Config
completed = record default_config {
  workers = 3;
  session_workers = 1;
  disk_cache = 0;
  memory_cache = 0;
}

complete-IsUsable_example : IsUsable completed
unfolding complete positive_or at_least_or complete_session_workers
complete-IsUsable_example = complete-IsUsable settings completed refl

-- a handle that has read bytes 4 to 7 of a large file as a stream
abbrev handle : Handle
handle = record {
  file = record movie { size = 2 ^ 40 };
  id = 1;
  last_offset = some 4;
  last_length = 4;
  forward_reads = 3;
  mode = stream;
  tail_probe = false;
  epoch = 0;
  released = false;
}

far_away : (observe default_config (2 ^ 30) 8 handle).1.event ≡ seek
unfolding observe observe_head thresholds compare_read is_probe_jump is_tail_probe is_seek settle
far_away = refl

observe_seek_example :
    (handle.mode ≡ stream)
    × ((2 ^ 30 < 8) ⊎ (8 + max default_config.seek_threshold default_config.target_buffer < 2 ^ 30))
    × ((observe default_config (2 ^ 30) 8 handle).0.mode ≡ probe)
    × ((observe default_config (2 ^ 30) 8 handle).0.forward_reads ≡ 1)
observe_seek_example = observe_seek default_config (2 ^ 30) 8 handle 4 refl refl far_away

abbrev session : Session
session = record {
  file = movie;
  epoch = 2;
  active_handle = 1;
  stream_anchor = 0;
  cursor = 10;
  refs = 1;
  inflight = 0;
  slow_streak = 0;
  last_access = 0;
  schedule_set = false;
  schedule_epoch = 0;
  scheduled_floor = 0;
  scheduled_near = 0;
  scheduled_end = 0;
  hedges = 0;
  dlink_refreshes = 0;
}

abbrev seen : Event → Observation
seen event = record { mode = probe; event = event; stream_read = false }

prepare_session-Proceeds_example :
    Proceeds session
      (prepare_session default_config 1 (seen seek) 5 1 9 session).0
      (prepare_session default_config 1 (seen seek) 5 1 9 session).1
prepare_session-Proceeds_example =
    prepare_session-Proceeds default_config 1 5 1 9 (seen seek) session

prepare_session_apart_example :
    let r = prepare_session default_config 2 (seen seek) 5 1 9 session in
    (r.0 ≡ record session { last_access = 9 })
    × (r.1.cancels ≡ false)
    × (r.1.event ≡ quiet)
    × (r.1.stream_read ≡ false)
prepare_session_apart_example =
    prepare_session_apart default_config 2 5 1 9 (seen seek) session (λ e. omega (arith, e))
      (λ e. omega (arith, e)) refl refl

abbrev small : Config
small = record default_config { chunk_size = 1; target_buffer = 2; back_buffer = 1 }

abbrev planned : Plan
unfolding reset_plan
planned = reset_plan small 1 2 (window small movie 1) session

scheduled : schedule small movie 1 2 session ≡ some planned
unfolding schedule end_offset
scheduled = refl

schedule_complete_example :
    (asks (2 / 1) planned.jobs ≡ true)
    ⊎ ((session.schedule_set ≡ true)
        × (session.schedule_epoch ≡ 2)
        × (2 / 1 ≤ session.scheduled_end))
unfolding end_offset
schedule_complete_example =
    schedule_complete small movie 1 2 2 session planned (omega arith) scheduled (omega arith)
      (omega arith)

schedule_inside_example : 2 * 1 < 3
unfolding asks planned chunks window reset_jobs
schedule_inside_example =
    schedule_inside small movie 1 2 2 session planned (omega arith) (omega arith) scheduled refl

-- one chunk is asked for
abbrev waiting : Board
unfolding board_run
waiting = board_run (Run.ensured false 2 key movie 0 1 near ∷ []) empty_board

chosen : (next_task default_config [] waiting).1 ≡ some 1
unfolding next_task choose pop take_first is_full waiting board_run Run.board_step ensure live_task
    ensure_new chunk_span new_task add_task lookup without ℕ_discrete ChunkKey-discrete
chosen = refl

next_task-Admitted_example :
    Admitted (is_full default_config []) 1 (next_task default_config [] waiting).0
next_task-Admitted_example = next_task-Admitted default_config [] waiting 1 chosen
