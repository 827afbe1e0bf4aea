-- ===== src/Stream/Session.antt =====
-- internal/stream/manager.go: sessions, one for each version of a file. A handle id of 0 stands for
-- no active handle. Times are nanoseconds.
pub mod Epochs
use baidu_disk_link.Common.{
  ℕ, ◌+◌, ◌-◌, ◌*◌, ◌/◌, ◌≤◌, ◌<◌, ◌≡◌, Bool, true, false, not, ◌&&◌, ◌||◌, Option, none, some,
  List, [], ◌∷◌, ltb, leb, ◌==◌, if◌then◌else◌, max,
}
use baidu_disk_link.ChunkStore.Types.{Bytes, File}
use baidu_disk_link.Stream.Types.{
  Mode, probe, stream, Event, quiet, start, seek, Observation, Handle,
}
use baidu_disk_link.Stream.Config.{Config}

pub record Session : Type 0 where
  pub file : File
  pub epoch : ℕ
  pub active_handle : ℕ
  pub stream_anchor : ℕ
  pub cursor : ℕ
  pub refs : ℕ
  pub inflight : ℕ
  pub slow_streak : ℕ
  pub last_access : ℕ
  pub schedule_set : Bool
  pub schedule_epoch : ℕ
  pub scheduled_floor : ℕ
  pub scheduled_near : ℕ
  pub scheduled_end : ℕ
  pub hedges : ℕ
  pub dlink_refreshes : ℕ

-- sessionLocked, for a version that has no session yet
unfoldable pub new_session : File → ℕ → Session
new_session file now = record {
  file = file;
  epoch = 0;
  active_handle = 0;
  stream_anchor = 0;
  cursor = 0;
  refs = 0;
  inflight = 0;
  slow_streak = 0;
  last_access = now;
  schedule_set = false;
  schedule_epoch = 0;
  scheduled_floor = 0;
  scheduled_near = 0;
  scheduled_end = 0;
  hedges = 0;
  dlink_refreshes = 0;
}

-- inScheduledWindowLocked
unfoldable pub in_scheduled_window : Config → Session → ℕ → Bool
in_scheduled_window cfg s offset =
    (s.schedule_set && (s.schedule_epoch == s.epoch && ltb 0 cfg.chunk_size))
    && (leb s.scheduled_floor (offset / cfg.chunk_size)
        && leb (offset / cfg.chunk_size) s.scheduled_end)

-- What the middle of `prepareRead` decides: the session, the event that is left, whether the read
-- stands apart from the playback, and whether the tasks of earlier epochs are cancelled.
pub record Decision : Type 0 where
  pub session : Session
  pub event : Event
  pub independent : Bool
  pub cancels : Bool

-- a new epoch, which the handle leads
abbrev pub take_over : ℕ → ℕ → Session → Session
take_over id offset s = record s { epoch = s.epoch + 1; active_handle = id; stream_anchor = offset }

abbrev pub activate : ℕ → ℕ → Session → Session
activate id offset s = record s { active_handle = id; stream_anchor = offset }

abbrev pub is_stream : Mode → Bool
is_stream probe = false
is_stream stream = true

abbrev another : ℕ → Session → Bool
another id s = not (s.active_handle == 0) && not (s.active_handle == id)

unfoldable pub decide_quiet : ℕ → Mode → ℕ → Session → Decision
decide_quiet id mode offset s =
    if is_stream mode && s.active_handle == 0
    then record {
      session = activate id offset s;
      event = start;
      independent = false;
      cancels = false;
    }
    else record { session = s; event = quiet; independent = false; cancels = false }

unfoldable pub decide_start : ℕ → Bool → ℕ → Session → Decision
decide_start id within offset s =
    if another id s && not within
    then record {
      session = take_over id offset s;
      event = start;
      independent = false;
      cancels = true;
    }
    else if s.active_handle == 0
    then record {
      session = activate id offset s;
      event = start;
      independent = false;
      cancels = false;
    }
    else record { session = s; event = start; independent = false; cancels = false }

unfoldable pub decide_seek : ℕ → ℕ → Session → Decision
decide_seek id offset s =
    if another id s
    then record { session = s; event = quiet; independent = true; cancels = false }
    else record {
      session = take_over id offset s;
      event = seek;
      independent = false;
      cancels = true;
    }

-- a seek inside the scheduled window counts as none
unfoldable pub decide : ℕ → Event → Mode → Bool → ℕ → Session → Decision
unfolding decide_quiet decide_start decide_seek
decide id quiet mode within offset s = decide_quiet id mode offset s
decide id start mode within offset s = decide_start id within offset s
decide id seek mode within offset s =
    if within then decide_quiet id mode offset s else decide_seek id offset s

abbrev pub is_start : Event → Bool
is_start quiet = false
is_start start = true
is_start seek = false

-- What `prepareRead` gives back.
pub record Prepared : Type 0 where
  pub epoch : ℕ
  pub mode : Mode
  pub stream_read : Bool
  pub event : Event
  pub log_event : Bool
  pub cancels : Bool

-- `prepareRead` on the session of the handle, after the handle has been observed
unfoldable pub prepare_session : Config → ℕ → Observation → ℕ → ℕ → ℕ → Session → Session × Prepared
unfolding decide in_scheduled_window
prepare_session cfg id observed offset length now s =
    let within = in_scheduled_window cfg s offset in
    let d = decide id observed.event observed.mode within offset s in
    let stream_read =
      not d.independent && (observed.stream_read && (d.session.active_handle == id || within)) in
    (
      record d.session {
        last_access = now;
        cursor = if stream_read then max d.session.cursor (offset + length) else d.session.cursor;
      },
      record {
        epoch = d.session.epoch;
        mode = observed.mode;
        stream_read = stream_read;
        event = d.event;
        log_event =
            not (d.session.epoch == s.epoch)
            || (is_start d.event && (s.active_handle == 0 && d.session.active_handle == id));
        cancels = d.cancels;
      },
    )

-- `sessionWorkerLimitLocked`, for a session that is there
abbrev is_active : Session → Bool
is_active s = ltb 0 s.refs && not (s.active_handle == 0)

unfoldable pub active_sessions : List (Bytes × Session) → ℕ
active_sessions [] = 0
active_sessions ((version, s) ∷ l) = (if is_active s then 1 else 0) + active_sessions l

unfoldable pub worker_limit : Config → List (Bytes × Session) → ℕ
unfolding active_sessions
worker_limit cfg sessions =
    if ltb 1 (active_sessions sessions) then cfg.session_workers else cfg.workers

-- the session's part of `startHedge`: whether the link of the file is given up, which the third slow
-- chunk in a row does
unfoldable pub count_hedge : Session → Session × Bool
count_hedge s =
    let counted : Session = record s { hedges = s.hedges + 1; slow_streak = s.slow_streak + 1 } in
    if leb 3 counted.slow_streak
    then (record counted { slow_streak = 0; dlink_refreshes = s.dlink_refreshes + 1 }, true)
    else (counted, false)
