-- ===== src/Stream/Access.antt =====
-- internal/stream/manager.go: `observeHandleLocked`, which tells playback from probing. A comparison
-- with a difference is written as one with a sum, since the offsets of the source are signed.
pub mod Sequential
use baidu_disk_link.Common.{
  ℕ, suc, ◌+◌, ◌-◌, ◌*◌, ◌/◌, ◌^◌, Bool, true, false, not, ◌&&◌, ◌||◌, Option, none, some, ltb, leb,
  ◌==◌, if◌then◌else◌, max,
}
use baidu_disk_link.ChunkStore.Types.{File}
use baidu_disk_link.Stream.Types.{
  Mode, probe, stream, Event, quiet, start, seek, Observation, Handle,
}
use baidu_disk_link.Stream.Config.{Config}

-- the sizes that the classification compares with
pub record Thresholds : Type 0 where
  pub probe_length : ℕ
  pub probe_edge : ℕ
  pub head_edge : ℕ

unfoldable pub thresholds : Config → ℕ → Thresholds
thresholds cfg size = record {
  probe_length = if ltb size (2 ^ 20 * 4) then max 1 (cfg.chunk_size / 2) else 128 * 2 ^ 10;
  probe_edge = if ltb size (2 ^ 20 * 4) then cfg.chunk_size else 2 ^ 20;
  head_edge = if leb (256 * 2 ^ 20) size then 8 * 2 ^ 20 else 0;
}

-- a short read near the end of the file
unfoldable pub is_tail_probe : Thresholds → Handle → ℕ → ℕ → Bool
is_tail_probe t h offset length =
    ltb 0 h.file.size && (leb length t.probe_length && leb h.file.size (offset + t.probe_edge))

abbrev pub is_stream : Mode → Bool
is_stream probe = false
is_stream stream = true

unfoldable pub remember : ℕ → ℕ → Handle → Handle
remember offset length h = record h { last_offset = some offset; last_length = length }

abbrev pub probing : Observation
probing = record { mode = probe; event = quiet; stream_read = false }

-- the end of the function: two reads in a row make a stream
unfoldable pub settle : ℕ → ℕ → Event → Handle → Handle × Observation
settle offset length event h =
    if leb 2 h.forward_reads && not (is_stream h.mode)
    then (
      remember offset length (record h { mode = stream }),
      record { mode = stream; event = start; stream_read = true },
    )
    else (
      remember offset length h,
      record { mode = h.mode; event = event; stream_read = is_stream h.mode },
    )

-- a short read at an edge of the file, away from where the handle stands
unfoldable pub is_probe_jump : Config → Thresholds → Handle → ℕ → ℕ → ℕ → Bool
is_probe_jump cfg t h last offset length =
    let expected = last + h.last_length in
    (leb length t.probe_length && (ltb offset t.probe_edge || is_tail_probe t h offset length))
    && (not (offset == last) && (ltb offset expected || ltb (expected + cfg.seek_threshold) offset))

unfoldable pub is_seek : Config → Handle → ℕ → ℕ → Bool
is_seek cfg h last offset =
    let expected = last + h.last_length in
    not (offset == last)
    && (is_stream h.mode
        && (ltb offset expected
            || ltb (expected + max cfg.seek_threshold cfg.target_buffer) offset))

-- the comparison with the read before
unfoldable pub compare_read : Config → Thresholds → ℕ → ℕ → Handle → Option ℕ → Handle × Observation
compare_read cfg t offset length h none =
    settle offset length quiet (record h { forward_reads = 1 })
compare_read cfg t offset length h (some last) =
    let expected = last + h.last_length in
    if is_probe_jump cfg t h last offset length
    then (h, record { mode = h.mode; event = quiet; stream_read = false })
    else if is_seek cfg h last offset
    then settle offset length seek (record h { forward_reads = 1; mode = probe })
    else if offset == last
    then settle offset length quiet h
    else if leb expected offset && leb offset (expected + cfg.forward_gap)
    then settle offset length quiet (record h { forward_reads = h.forward_reads + 1 })
    else settle offset length quiet (record h { forward_reads = 1 })

-- the reads at the head of a large file count as probing
unfoldable pub observe_head : Config → Thresholds → ℕ → ℕ → Handle → Handle × Observation
observe_head cfg t offset length h =
    if ltb 0 t.head_edge
      && (not (is_stream h.mode)
          && (not (is_tail_probe t h offset length) && ltb offset t.head_edge))
    then (remember offset length (record h { forward_reads = 0 }), probing)
    else compare_read cfg t offset length h h.last_offset

abbrev pub is_fresh : Handle → Bool
is_fresh h = elim h.last_offset [ none ↦ true | some last ↦ false ]

unfoldable pub forget_reads : Handle → Handle
forget_reads h = record h {
  tail_probe = false;
  last_offset = none;
  last_length = 0;
  forward_reads = 0;
  mode = probe;
}

unfoldable pub observe : Config → ℕ → ℕ → Handle → Handle × Observation
observe cfg offset length h =
    let t = thresholds cfg h.file.size in
    let tail = is_tail_probe t h offset length in
    if is_fresh h && tail
    then (remember offset length (record h { tail_probe = true }), probing)
    else if h.tail_probe
    then (if tail
        then (remember offset length h, probing)
        else observe_head cfg t offset length (forget_reads h))
    else observe_head cfg t offset length h
