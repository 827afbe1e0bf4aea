-- ===== src/Stream/Types.antt =====
-- internal/stream/manager.go: modes, events and priorities.
use baidu_disk_link.Common.{ℕ, Option, Bool}
use baidu_disk_link.ChunkStore.Types.{File}

-- accessMode
pub data Mode : Type 0 where
  probe stream : Mode

-- readEvent
pub data Event : Type 0 where
  quiet start seek : Event

pub record Observation : Type 0 where
  pub mode : Mode
  pub event : Event
  pub stream_read : Bool

-- `Handle`; no offset seen yet is -1 in the source and `none` here
pub record Handle : Type 0 where
  pub file : File
  pub id : ℕ
  pub last_offset : Option ℕ
  pub last_length : ℕ
  pub forward_reads : ℕ
  pub mode : Mode
  pub tail_probe : Bool
  pub epoch : ℕ
  pub released : Bool

-- priority
pub data Priority : Type 0 where
  foreground near ahead back : Priority
