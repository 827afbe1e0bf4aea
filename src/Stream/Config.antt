-- ===== src/Stream/Config.antt =====
-- internal/stream/manager.go: the settings of the engine, and how `NewManager` completes them. Sizes
-- are bytes, delays nanoseconds. A setting may be negative; what the engine runs with is not.
use baidu_disk_link.Common.{
  ℕ, suc, ◌-◌, ◌*◌, ◌^◌, ◌≤◌, ◌<◌, ◌≡◌, Bool, true, false, Option, none, some, [], ltb, leb,
  if◌then◌else◌, arith,
}
use baidu_disk_link.Common.Decimal.{ℤ, pos, negsuc}
use baidu_disk_link.ChunkStore.Types.{Bytes}

-- `Config`, as it is given
pub record Settings : Type 0 where
  pub chunk_size : ℤ
  pub forward_gap : ℤ
  pub seek_threshold : ℤ
  pub workers : ℤ
  pub low_watermark : ℤ
  pub target_buffer : ℤ
  pub back_buffer : ℤ
  pub memory_cache : ℤ
  pub disk_cache : ℤ
  pub cache_path : Bytes
  pub hedge : Bool
  pub diagnostics : Bool
  pub hedge_min_delay : ℤ
  pub hedge_max_delay : ℤ
  pub session_workers : ℤ
  pub idle_reclaim : ℤ

-- `Config`, as the engine runs with it
pub record Config : Type 0 where
  pub chunk_size : ℕ
  pub forward_gap : ℕ
  pub seek_threshold : ℕ
  pub workers : ℕ
  pub low_watermark : ℕ
  pub target_buffer : ℕ
  pub back_buffer : ℕ
  pub memory_cache : ℕ
  pub disk_cache : ℕ
  pub cache_path : Bytes
  pub hedge : Bool
  pub diagnostics : Bool
  pub hedge_min_delay : ℕ
  pub hedge_max_delay : ℕ
  pub session_workers : ℕ
  pub idle_reclaim : ℕ

abbrev mib : ℕ
mib = 2 ^ 20

abbrev millisecond : ℕ
millisecond = 1_000_000

abbrev pub default_config : Config
default_config = record {
  chunk_size = mib;
  forward_gap = 8 * mib;
  seek_threshold = 16 * mib;
  workers = 8;
  low_watermark = 128 * mib;
  target_buffer = 256 * mib;
  back_buffer = 32 * mib;
  memory_cache = 320 * mib;
  disk_cache = 2 ^ 31;
  cache_path = [];
  hedge = true;
  diagnostics = false;
  hedge_min_delay = 300 * millisecond;
  hedge_max_delay = 800 * millisecond;
  session_workers = 6;
  idle_reclaim = 600_000 * millisecond;
}

-- if value <= 0 { value = default }
unfoldable pub positive_or : ℕ → ℤ → ℕ
positive_or default (pos ℕ.zero) = default
positive_or default (pos (suc n)) = suc n
positive_or default (negsuc n) = default

-- if value < least { value = default }
unfoldable pub at_least_or : ℕ → ℕ → ℤ → ℕ
at_least_or default least (pos n) = if ltb n least then default else n
at_least_or default least (negsuc n) = default

-- a worker count for each session that is out of range becomes two less than there are workers,
-- or all of them
abbrev complete_workers : ℕ → ℕ
complete_workers workers = if leb workers 2 then workers else workers - 2

unfoldable pub complete_session_workers : ℕ → ℤ → ℕ
complete_session_workers workers (pos ℕ.zero) = complete_workers workers
complete_session_workers workers (pos (suc n)) =
    if ltb workers (suc n) then complete_workers workers else suc n
complete_session_workers workers (negsuc n) = complete_workers workers

abbrev non_negative : ℤ → Option ℕ
non_negative (pos n) = some n
non_negative (negsuc n) = none

positive_or-pos : (default : ℕ) (v : ℤ) → 0 < default → 0 < positive_or default v
unfolding positive_or
positive_or-pos default (pos ℕ.zero) h = h
positive_or-pos default (pos (suc n)) h = omega arith
positive_or-pos default (negsuc n) h = h

at_least_or-pos :
    (default least : ℕ) (v : ℤ) → 0 < default → 0 < least → 0 < at_least_or default least v
unfolding at_least_or
at_least_or-pos default least (pos n) h k = ground arith
at_least_or-pos default least (negsuc n) h k = h

complete_session_workers_bounds :
    (workers : ℕ) (v : ℤ)
    → 0 < workers
    → (0 < complete_session_workers workers v) × (complete_session_workers workers v ≤ workers)
unfolding complete_session_workers
complete_session_workers_bounds workers (pos ℕ.zero) h = ground arith
complete_session_workers_bounds workers (pos (suc n)) h = ground arith
complete_session_workers_bounds workers (negsuc n) h = ground arith

-- the part of `NewManager` that completes the settings; `none` is its error
unfoldable pub complete : Settings → Option Config
complete s =
    let forward_gap = positive_or default_config.forward_gap s.forward_gap in
    let workers = positive_or default_config.workers s.workers in
    let low_watermark = positive_or default_config.low_watermark s.low_watermark in
    let hedge_min_delay = positive_or default_config.hedge_min_delay s.hedge_min_delay in
    elim (non_negative s.memory_cache) [
      | none ↦ none
      | some memory_cache ↦ elim (non_negative s.disk_cache) [
        | none ↦ none
        | some disk_cache ↦ some (record {
          chunk_size = positive_or default_config.chunk_size s.chunk_size;
          forward_gap = forward_gap;
          seek_threshold = at_least_or default_config.seek_threshold forward_gap s.seek_threshold;
          workers = workers;
          low_watermark = low_watermark;
          target_buffer = at_least_or default_config.target_buffer low_watermark s.target_buffer;
          back_buffer = positive_or default_config.back_buffer s.back_buffer;
          memory_cache = memory_cache;
          disk_cache = disk_cache;
          cache_path = s.cache_path;
          hedge = s.hedge;
          diagnostics = s.diagnostics;
          hedge_min_delay = hedge_min_delay;
          hedge_max_delay =
              at_least_or default_config.hedge_max_delay hedge_min_delay s.hedge_max_delay;
          session_workers = complete_session_workers workers s.session_workers;
          idle_reclaim = positive_or default_config.idle_reclaim s.idle_reclaim;
        })
      ]
    ]

-- What the engine relies on.
pub record IsUsable (c : Config) : Type 0 where
  pub has_chunks : 0 < c.chunk_size
  pub has_gap : 0 < c.forward_gap
  pub has_threshold : 0 < c.seek_threshold
  pub has_workers : 0 < c.workers
  pub has_watermark : 0 < c.low_watermark
  pub has_target : 0 < c.target_buffer
  pub has_session_workers : 0 < c.session_workers
  pub session_share : c.session_workers ≤ c.workers
  pub has_back_buffer : 0 < c.back_buffer
  pub has_delay : 0 < c.hedge_min_delay
  pub has_idle : 0 < c.idle_reclaim

-- Settings that are accepted, whatever they are, give an engine with at least one byte to a chunk
-- and to each window, at least one worker, a share of a session between one worker and all of them,
-- and positive delays for hedging and reclaiming.
pub complete-IsUsable : (s : Settings) (c : Config) → complete s ≡ some c → IsUsable c
unfolding complete
complete-IsUsable s c h =
    let d = default_config in
    let workers = positive_or-pos d.workers s.workers (omega arith) in
    let watermark = positive_or-pos d.low_watermark s.low_watermark (omega arith) in
    let gap = positive_or-pos d.forward_gap s.forward_gap (omega arith) in
    let share =
      complete_session_workers_bounds (positive_or d.workers s.workers) s.session_workers workers in
    ground (
      arith,
      workers,
      watermark,
      gap,
      share,
      positive_or-pos d.chunk_size s.chunk_size (omega arith),
      positive_or-pos d.back_buffer s.back_buffer (omega arith),
      positive_or-pos d.hedge_min_delay s.hedge_min_delay (omega arith),
      positive_or-pos d.idle_reclaim s.idle_reclaim (omega arith),
      at_least_or-pos d.seek_threshold (positive_or d.forward_gap s.forward_gap) s.seek_threshold
          (omega arith) gap,
      at_least_or-pos d.target_buffer (positive_or d.low_watermark s.low_watermark) s.target_buffer
          (omega arith) watermark,
    )
