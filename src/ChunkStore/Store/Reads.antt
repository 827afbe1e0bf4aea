-- ===== src/ChunkStore/Store/Reads.antt =====
-- internal/stream/store.go: what a reader gets from the two levels together.
use baidu_disk_link.Common.{
  ◌≤◌, ◌<◌, ◌≡◌, ap, sym, ◌∙◌, Bool, inl, inr, none, some, length, arith, Option-cases,
}
use baidu_disk_link.ChunkStore.Types.{Bytes, ChunkKey}
use baidu_disk_link.ChunkStore.Memory.{IsValid, put_memory, get_memory}
use baidu_disk_link.ChunkStore.Memory.Reads.{get-put_self, get-get_memory, get_memory-cached}
use baidu_disk_link.ChunkStore.Disk.{Os}
use baidu_disk_link.ChunkStore.Store.{Store, get_with_touch, get_disk, read_disk}

-- What memory holds is what a read gives, whatever the file system says.
read_memory :
    (os : Os) (key : ChunkKey) (touch : Bool) (s : Store) (bytes : Bytes)
    → (get_memory key touch s.memory).1 ≡ some bytes
    → (get_with_touch os key touch s).1 ≡ some bytes
unfolding get_with_touch
read_memory os key touch s bytes e = rw (e, get_with_touch)

after_hit :
    (os : Os) (key : ChunkKey) (touch : Bool) (s : Store) (bytes old : Bytes)
    → (get_memory key touch s.memory).1 ≡ some old
    → (get_with_touch os key touch s).1 ≡ some bytes
    → ((get_with_touch os key touch s).0.memory ≡ (get_memory key touch s.memory).0) × (old ≡ bytes)
unfolding get_with_touch
after_hit os key touch s bytes old e = ground (arith, e)

after_miss :
    (os : Os) (key : ChunkKey) (touch : Bool) (s : Store)
    → (get_memory key touch s.memory).1 ≡ none
    → get_with_touch os key touch s ≡ get_disk os key s
unfolding get_with_touch
after_miss os key touch s e = rw (e, get_with_touch)

-- A chunk read from disk has been put into memory.
get_disk_cases :
    (os : Os) (key : ChunkKey) (s : Store) (bytes : Bytes)
    → (get_disk os key s).1 ≡ some bytes
    → (get_disk os key s).0.memory ≡ put_memory key bytes s.memory
unfolding get_disk read_disk
get_disk_cases os key s bytes h = ground arith

-- With a well-formed memory half whose positive limit the chunk does not exceed, a chunk that is
-- read once, from memory or from disk, is found again in memory, with the same bytes and whatever
-- the file system answers then.
pub get_with_touch_again :
    (os later : Os) (key : ChunkKey) (touch again : Bool) (s : Store) (bytes : Bytes)
    → IsValid s.memory
    → 0 < s.memory.limit
    → length bytes ≤ s.memory.limit
    → (get_with_touch os key touch s).1 ≡ some bytes
    → (get_with_touch later key again (get_with_touch os key touch s).0).1 ≡ some bytes
get_with_touch_again os later key touch again s bytes v some_room fits h =
    elim (Option-cases (get_memory key touch s.memory).1) [
      | inr (old, e) ↦
          let (state, same) = after_hit os key touch s bytes old e h in
          read_memory later key again _ bytes (
            rw state (
              get-get_memory key key touch again s.memory v
              ∙ get_memory-cached key again s.memory v
              ∙ sym (get_memory-cached key touch s.memory v)
              ∙ e
              ∙ ap some same))
      | inl e ↦
          let disk = after_miss os key touch s e in
          read_memory later key again _ bytes (
            rw disk (
              rw (get_disk_cases os key s bytes (rw disk at h))
                (get-put_self key bytes again s.memory v some_room fits)))
    ]
