-- ===== src/ChunkStore/Store.antt =====
-- internal/stream/store.go: `chunkStore`, the memory half over the disk half.
pub mod Reads
use baidu_disk_link.Common.{
  ℕ, Bool, true, false, Option, none, some, [], ◌∷◌, length, ltb, if◌then◌else◌,
}
use baidu_disk_link.Common.Maps.{lookup}
use baidu_disk_link.ChunkStore.Types.{Bytes, ChunkKey, ChunkKey-discrete}
use baidu_disk_link.ChunkStore.Memory
use baidu_disk_link.ChunkStore.Memory.{Memory, element, put_memory, get_memory}
use baidu_disk_link.ChunkStore.Disk.{
  Disk, Os, empty_disk, disabled, chunk_path, touch_disk, forget_disk, put_disk,
}

pub record Store : Type 0 where
  pub memory : Memory
  pub disk : Disk

unfoldable pub empty : ℕ → Bytes → ℕ → Store
empty memory_limit folder disk_limit = record {
  memory = Memory.empty memory_limit;
  disk = empty_disk folder disk_limit;
}

-- the end of `getWithTouch`, for a key that is indexed on disk
unfoldable pub read_disk : Os → ChunkKey → Store → Option Bytes → Store × Option Bytes
read_disk os key s none = (record s { disk = forget_disk key s.disk }, none)
read_disk os key s (some bytes) = (record s { memory = put_memory key bytes s.memory }, some bytes)

-- the part of `getWithTouch` that follows a miss in memory
unfoldable pub get_disk : Os → ChunkKey → Store → Store × Option Bytes
unfolding read_disk
get_disk os key s =
    if disabled s.disk then (s, none) else elim (lookup ChunkKey-discrete key s.disk.ready) [
      | none ↦ (s, none)
      | some size ↦
          read_disk os key (record s { disk = touch_disk key s.disk })
            (os.read_file (chunk_path os key s.disk))
    ]

unfoldable pub get_with_touch : Os → ChunkKey → Bool → Store → Store × Option Bytes
unfolding get_disk
get_with_touch os key touch s =
    let found = get_memory key touch s.memory in
    elim found.1 [
      | some bytes ↦ (record s { memory = found.0 }, some bytes)
      | none ↦ get_disk os key s
    ]

unfoldable pub get : Os → ChunkKey → Store → Store × Option Bytes
unfolding get_with_touch
get os key s = get_with_touch os key true s

unfoldable pub get_without_touch : Os → ChunkKey → Store → Store × Option Bytes
unfolding get_with_touch
get_without_touch os key s = get_with_touch os key false s

unfoldable pub chunk_length : ChunkKey → Store → Store × Option ℕ
chunk_length key s = elim (element key s.memory) [
  | some bytes ↦ (s, some (length bytes))
  | none ↦ if disabled s.disk then (s, none) else elim (lookup ChunkKey-discrete key s.disk.ready) [
    | none ↦ (s, none)
    | some size ↦ (record s { disk = touch_disk key s.disk }, some size)
  ]
]

unfoldable pub usage : Store → ℕ × ℕ
usage s = (s.memory.bytes, s.disk.bytes)

-- the store after the write, and whether it reports no error
unfoldable pub put : Os → ChunkKey → Bytes → Store → Store × Bool
put os key bytes s =
    if ltb (length bytes) 1
    then (s, true)
    else let memory = put_memory key bytes s.memory in
      if disabled s.disk
      then (record s { memory = memory }, true)
      else let written = put_disk os key bytes s.disk in
        (record s { memory = memory; disk = written.0 }, written.1)
