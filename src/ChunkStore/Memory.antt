-- ===== src/ChunkStore/Memory.antt =====
-- internal/stream/store.go: the memory half of `chunkStore`. An element of the linked list is named
-- by the key of the entry that it holds, which never changes while the element is in the list: so
-- `index` is the key set of the map `memory`, and `lru` the list, front first.
pub mod Eviction
pub mod Valid
pub mod Reads
use baidu_disk_link.Common.{
  ℕ, ◌+◌, ◌-◌, ◌≤◌, ◌≡◌, ite, Bool, true, false, ◌&&◌, ◌||◌, Option, none, some, List, [], ◌∷◌,
  ◌++◌, length, ltb, leb, ◌==◌, if◌then◌else◌,
}
use baidu_disk_link.Common.Maps.{mem, erase, has, lookup, without, total, Distinct}
use baidu_disk_link.ChunkStore.Types.{Bytes, ChunkKey, Bytes-discrete, ChunkKey-discrete}

pub record Memory : Type 0 where
  pub limit : ℕ
  pub bytes : ℕ
  pub index : List ChunkKey
  pub lru : List (ChunkKey × Bytes)

unfoldable pub empty : ℕ → Memory
empty limit = record { limit = limit; bytes = 0; index = []; lru = [] }

-- s.memory[key], read through to the data of the element
unfoldable pub element : ChunkKey → Memory → Option Bytes
element key s =
    if mem ChunkKey-discrete key s.index then lookup ChunkKey-discrete key s.lru else none

-- s.lru.MoveToBack(element), for the element that holds the key, with the data given anew
unfoldable pub move_to_back : ChunkKey → Bytes → Memory → Memory
move_to_back key bytes s = record s {
  lru = without ChunkKey-discrete key s.lru ++ (key, bytes) ∷ [];
}

-- the loop at the end of `putMemory`, over what is left of the list
unfoldable pub evict_from : List (ChunkKey × Bytes) → Memory → Memory
evict_from [] s = s
evict_from ((key, bytes) ∷ rest) s =
    let more = evict_from rest (record s {
      index = erase ChunkKey-discrete key s.index;
      bytes = s.bytes - length bytes;
      lru = rest;
    }) in
    if ltb s.limit s.bytes then more else s

unfoldable pub write_chunk : ChunkKey → Bytes → Memory → Option Bytes → Memory
unfolding move_to_back
write_chunk key bytes s (some old) =
    move_to_back key bytes (record s { bytes = s.bytes - length old + length bytes })
write_chunk key bytes s none = record s {
  lru = s.lru ++ (key, bytes) ∷ [];
  index = key ∷ s.index;
  bytes = s.bytes + length bytes;
}

unfoldable pub put_memory : ChunkKey → Bytes → Memory → Memory
unfolding evict_from write_chunk element
put_memory key bytes s =
    if leb s.limit 0 || ltb s.limit (length bytes)
    then s
    else let written = write_chunk key bytes s (element key s) in evict_from written.lru written

-- the memory part of `getWithTouch`
unfoldable pub get_memory : ChunkKey → Bool → Memory → Memory × Option Bytes
unfolding element move_to_back
get_memory key touch s = elim (element key s) [
  | none ↦ (s, none)
  | some bytes ↦ (if touch then move_to_back key bytes s else s, some bytes)
]

unfoldable pub clear_memory : Memory → Memory × ℕ
clear_memory s = (record s { index = []; lru = []; bytes = 0 }, s.bytes)

unfoldable pub remove_memory : ChunkKey → Memory → Memory
unfolding element
remove_memory key s = elim (element key s) [
  | none ↦ s
  | some bytes ↦ record s {
    index = erase ChunkKey-discrete key s.index;
    bytes = s.bytes - length bytes;
    lru = without ChunkKey-discrete key s.lru;
  }
]

-- `count` rounds of the loop of `removeMemoryRange`, from `start` on
unfoldable pub remove_from : Bytes → ℕ → ℕ → Memory → Memory
unfolding remove_memory
remove_from version start ℕ.zero s = s
remove_from version start (ℕ.suc count) s =
    remove_from version (start + 1) count
      (remove_memory (record { version = version; index = start }) s)

unfoldable pub remove_memory_range : Bytes → ℕ → ℕ → Memory → Memory
unfolding remove_from
remove_memory_range version start end s =
    if leb end start then s else remove_from version start (end - start) s

-- the test of `pruneMemoryWindow`
unfoldable pub outside : Bytes → ℕ → ℕ → ChunkKey → Bool
outside version start end key =
    ite (Bytes-discrete key.version version) true false
    && (ltb key.index start || ltb end key.index)

-- its loop, over the keys that the range over the map visits
unfoldable pub prune_keys : Bytes → ℕ → ℕ → List ChunkKey → Memory → Memory
unfolding remove_memory
prune_keys version start end [] s = s
prune_keys version start end (key ∷ keys) s =
    prune_keys version start end keys
      (if outside version start end key then remove_memory key s else s)

unfoldable pub prune_memory_window : Bytes → ℕ → ℕ → Memory → Memory
unfolding prune_keys
prune_memory_window version start end s = prune_keys version start end s.index s

-- What each operation keeps: the two structures hold the same keys, each once, and the counter is
-- the size of what is held.
pub record IsConsistent (s : Memory) : Type 0 where
  pub counted : s.bytes ≡ total ChunkKey-discrete length s.lru
  pub distinct : Distinct ChunkKey-discrete s.lru
  pub indexed :
      (key : ChunkKey) → mem ChunkKey-discrete key s.index ≡ has ChunkKey-discrete key s.lru

-- Between operations the bytes held are also within the budget.
pub record IsValid (s : Memory) : Type 0 where
  pub consistent : IsConsistent s
  pub bounded : s.bytes ≤ s.limit
