-- ===== src/Stream/Buffer.antt =====
-- internal/stream/manager.go: `scheduleBuffer`, which keeps the chunks ahead of a reader coming. What
-- it computes is a plan: the session afterwards, what the memory cache drops, and the tasks to ensure.
pub mod Coverage
use baidu_disk_link.Common.{
  ℕ, zero, suc, ◌+◌, ◌-◌, ◌*◌, ◌/◌, ◌^◌, Bool, true, false, not, ◌&&◌, ◌||◌, Option, none, some,
  List, [], ◌∷◌, ◌++◌, ltb, leb, ◌==◌, if◌then◌else◌, max, min,
}
use baidu_disk_link.ChunkStore.Types.{File}
use baidu_disk_link.Stream.Types.{Priority, foreground, near, ahead, back}
use baidu_disk_link.Stream.Config.{Config}
use baidu_disk_link.Stream.Session.{Session}

-- pruneMemoryWindow, removeMemoryRange, or neither
pub data Drop : Type 0 where
  keep : Drop
  outside within : ℕ → ℕ → Drop

pub record Plan : Type 0 where
  pub session : Session
  pub drop : Drop
  pub jobs : List (ℕ × Priority)

-- the first and the last chunk of each part of the window, for a reader at `cursor`
pub record Window : Type 0 where
  pub start : ℕ
  pub near_end : ℕ
  pub end : ℕ
  pub floor : ℕ

-- the end of the window in bytes
unfoldable pub end_offset : Config → File → ℕ → ℕ
end_offset cfg file cursor =
    if ltb 0 file.size && ltb file.size (cursor + cfg.target_buffer)
    then file.size
    else cursor + cfg.target_buffer

unfoldable pub window : Config → File → ℕ → Window
unfolding end_offset
window cfg file cursor =
    let end = (end_offset cfg file cursor - 1) / cfg.chunk_size in
    record {
      start = cursor / cfg.chunk_size;
      near_end = min ((cursor + 64 * 2 ^ 20) / cfg.chunk_size) end;
      end = end;
      floor = (cursor - cfg.back_buffer) / cfg.chunk_size;
    }

-- `count` chunks from `first` on
unfoldable pub chunks : ℕ → ℕ → Priority → List (ℕ × Priority)
chunks first zero priority = []
chunks first (suc count) priority = (first, priority) ∷ chunks (first + 1) count priority

-- the jobs of a new window
unfoldable pub reset_jobs : Config → ℕ → Window → List (ℕ × Priority)
reset_jobs cfg cursor w =
    chunks w.start (w.near_end + 1 - w.start) near
    ++ (chunks (w.near_end + 1) (w.end + 1 - (w.near_end + 1)) ahead
        ++ (if ltb 0 cfg.back_buffer && ltb 0 cursor
            then chunks w.floor ((cursor - 1) / cfg.chunk_size + 1 - w.floor) back
            else []))

-- the loop over the chunks behind the previous end
unfoldable pub extend_jobs : ℕ → ℕ → ℕ → List (ℕ × Priority)
extend_jobs near_end index zero = []
extend_jobs near_end index (suc count) =
    (index, if leb index near_end then near else ahead) ∷ extend_jobs near_end (index + 1) count

-- the jobs of a window that has moved on
unfoldable pub advance_jobs : ℕ → ℕ → Window → List (ℕ × Priority)
unfolding extend_jobs
advance_jobs previous_near previous_end w =
    let first = max (previous_near + 1) w.start in
    chunks first (min w.near_end previous_end + 1 - first) near
    ++ extend_jobs w.near_end (previous_end + 1) (w.end + 1 - (previous_end + 1))

unfoldable pub reset_plan : Config → ℕ → ℕ → Window → Session → Plan
unfolding reset_jobs
reset_plan cfg cursor epoch w s = record {
  session = record s {
    schedule_set = true;
    schedule_epoch = epoch;
    scheduled_floor = w.floor;
    scheduled_near = w.near_end;
    scheduled_end = w.end;
  };
  drop = outside w.floor w.end;
  jobs = reset_jobs cfg cursor w;
}

unfoldable pub advance_plan : Window → Session → Plan
unfolding advance_jobs
advance_plan w s = record {
  session = record s {
    scheduled_floor = max s.scheduled_floor w.floor;
    scheduled_near = max s.scheduled_near w.near_end;
    scheduled_end = max s.scheduled_end w.end;
  };
  drop = if ltb s.scheduled_floor w.floor then within s.scheduled_floor w.floor else keep;
  jobs = advance_jobs s.scheduled_near s.scheduled_end w;
}

-- the early returns of `scheduleBuffer`, and its plan
unfoldable pub schedule : Config → File → ℕ → ℕ → Session → Option Plan
unfolding reset_plan advance_plan
schedule cfg file cursor epoch s =
    if leb file.size cursor && ltb 0 file.size
    then none
    else if leb (end_offset cfg file cursor) cursor
    then none
    else if not (s.epoch == epoch) || s.active_handle == 0
    then none
    else if not s.schedule_set || not (s.schedule_epoch == epoch)
    then some (reset_plan cfg cursor epoch (window cfg file cursor) s)
    else some (advance_plan (window cfg file cursor) s)
