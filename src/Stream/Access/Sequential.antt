-- ===== src/Stream/Access/Sequential.antt =====
-- internal/stream/manager.go: what the classification makes of a player's reads.
use baidu_disk_link.Common.{
  ℕ, ◌+◌, ◌<◌, ◌≡◌, refl, ap, sym, ◌∙◌, true, false, ◌⊎◌, some, max, arith,
}
use baidu_disk_link.Stream.Types.{probe, stream, Event, quiet, seek, Handle}
use baidu_disk_link.Stream.Config.{Config}
use baidu_disk_link.Stream.Access.{
  Thresholds, thresholds, remember, settle, is_probe_jump, is_seek, compare_read, observe_head,
  observe,
}

-- A handle in the middle of a stream, which has read up to the given offset.
pub record IsStreaming (offset : ℕ) (h : Handle) : Type 0 where
  pub streams : h.mode ≡ stream
  pub settled : h.tail_probe ≡ false
  pub last : ℕ
  pub seen : h.last_offset ≡ some last
  pub moved : 0 < h.last_length
  pub reached : last + h.last_length ≡ offset

module _ (cfg : Config) (t : Thresholds) (offset length : ℕ) (h : Handle) where
  settle_streaming :
      (event : Event)
      → h.mode ≡ stream
      → settle offset length event h
        ≡ (remember offset length h, record { mode = stream; event = event; stream_read = true })
  unfolding settle
  settle_streaming event e = ground (arith, e)

  settle_event : (event : Event) → (settle offset length event h).1.event ≡ seek → event ≡ seek
  unfolding settle
  settle_event event e = ground arith

  observe_head_streaming :
      h.mode ≡ stream
      → observe_head cfg t offset length h ≡ compare_read cfg t offset length h h.last_offset
  unfolding observe_head
  observe_head_streaming e = ground (arith, e)

  observe_head_event :
      (observe_head cfg t offset length h).1.event ≡ seek
      → observe_head cfg t offset length h ≡ compare_read cfg t offset length h h.last_offset
  unfolding observe_head
  observe_head_event e = ground arith

  observe_started :
      (last : ℕ)
      → h.last_offset ≡ some last
      → h.tail_probe ≡ false
      → observe cfg offset length h ≡ observe_head cfg (thresholds cfg h.file.size) offset length h
  unfolding observe
  observe_started last e settled = ground (arith, e, settled)

  compare_contiguous :
      (last : ℕ)
      → last + h.last_length ≡ offset
      → 0 < h.last_length
      → compare_read cfg t offset length h (some last)
        ≡ settle offset length quiet (record h { forward_reads = h.forward_reads + 1 })
  unfolding compare_read is_probe_jump is_seek
  compare_contiguous last e moved = ground arith

  -- the one branch that reports a seek
  compare_seek :
      (last : ℕ)
      → (compare_read cfg t offset length h (some last)).1.event ≡ seek
      → (is_seek cfg h last offset ≡ true)
        × (compare_read cfg t offset length h (some last)
            ≡ settle offset length seek (record h { forward_reads = 1; mode = probe }))
  unfolding compare_read settle
  compare_seek last e = ground arith

  is_seek_lem :
      (last : ℕ)
      → is_seek cfg h last offset ≡ true
      → (h.mode ≡ stream)
        × ((offset < last + h.last_length)
            ⊎ (last + h.last_length + max cfg.seek_threshold cfg.target_buffer < offset))
  unfolding is_seek
  is_seek_lem last e = ground arith

  settle_seek :
      (settle offset length seek (record h { forward_reads = 1; mode = probe })).0
      ≡ remember offset length (record h { forward_reads = 1; mode = probe })
  unfolding settle
  settle_seek = refl

-- While a stream is read on from where it stands, with reads that are not empty, it goes on as a
-- stream, with no event, wherever in the file it stands.
pub observe-IsStreaming :
    (cfg : Config) (offset length : ℕ) (h : Handle)
    → IsStreaming offset h
    → 0 < length
    → IsStreaming (offset + length) (observe cfg offset length h).0
      × ((observe cfg offset length h).1
          ≡ record { mode = stream; event = quiet; stream_read = true })
unfolding remember
observe-IsStreaming cfg offset length h s some_bytes =
    let t = thresholds cfg h.file.size in
    let path =
      observe_started cfg t offset length h s.last s.seen s.settled
      ∙ observe_head_streaming cfg t offset length h s.streams
      ∙ ap (compare_read cfg t offset length h) s.seen
      ∙ compare_contiguous cfg t offset length h s.last s.reached s.moved
      ∙ settle_streaming cfg t offset length (record h { forward_reads = h.forward_reads + 1 })
          quiet s.streams in
    rw path (
      record {
        streams = s.streams;
        settled = s.settled;
        last = offset;
        seen = refl;
        moved = some_bytes;
        reached = refl;
      },
      refl,
    )

-- A read that is taken for a seek, by a handle that has read before and whose last read was no
-- probe of the end of the file, comes from a handle that streams, and jumps back, or ahead by more
-- than both the seek threshold and the target buffer; the handle is then probing again, one read
-- into the new place.
pub observe_seek :
    (cfg : Config) (offset length : ℕ) (h : Handle) (last : ℕ)
    → h.last_offset ≡ some last
    → h.tail_probe ≡ false
    → (observe cfg offset length h).1.event ≡ seek
    → (h.mode ≡ stream)
      × ((offset < last + h.last_length)
          ⊎ (last + h.last_length + max cfg.seek_threshold cfg.target_buffer < offset))
      × ((observe cfg offset length h).0.mode ≡ probe)
      × ((observe cfg offset length h).0.forward_reads ≡ 1)
unfolding remember
observe_seek cfg offset length h last e settled s =
    let t = thresholds cfg h.file.size in
    let started = observe_started cfg t offset length h last e settled in
    let headed = observe_head_event cfg t offset length h (ap (λ r. r.1.event) (sym started) ∙ s) in
    let compared = started ∙ headed ∙ ap (compare_read cfg t offset length h) e in
    let (jump, settles) =
      compare_seek cfg t offset length h last (ap (λ r. r.1.event) (sym compared) ∙ s) in
    let (streams, far) = is_seek_lem cfg t offset length h last jump in
    rw (compared ∙ settles) (rw (settle_seek cfg t offset length h) (streams, far, refl, refl))
