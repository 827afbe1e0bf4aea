-- ===== src/ChunkStore/Memory/Reads.antt =====
-- internal/stream/store.go: what a reader of the memory half finds after each operation.
use baidu_disk_link.Common.{
  ℕ, zero, suc, ◌+◌, ◌-◌, ◌≤◌, ◌<◌, ◌≡◌, refl, ite, ◌&&◌, Bool, inl, inr, Option, none, some, List,
  [], ◌∷◌, ◌++◌, length, ltb, leb, if◌then◌else◌, arith, Bool-cases, Option-cases, ◌⊎◌,
}
use baidu_disk_link.Common.Maps.{
  mem, lookup, without, absent_of_lookup, lookup_absent, has-without, lookup-without,
  without_absent, lookup-move, append-Distinct, without-Distinct,
}
use baidu_disk_link.ChunkStore.Types.{Bytes, ChunkKey, ChunkKey-discrete, Bytes-discrete}
use baidu_disk_link.ChunkStore.Memory.{
  Memory, element, move_to_back, write_chunk, put_memory, get_memory, remove_memory, remove_from,
  remove_memory_range, outside, prune_keys, prune_memory_window, IsValid,
}
use baidu_disk_link.ChunkStore.Memory.Eviction.{
  shrink, evict_from_lem, lookup-shrink_last, lookup-shrink_sound,
}
use baidu_disk_link.ChunkStore.Memory.Valid.{
  element-eq-lookup, put_memory-IsValid, write_chunk-IsConsistent, remove_memory-IsValid,
  remove_memory_range-IsValid, prune_memory_window-IsValid, get_memory-IsValid,
}

-- The bytes that the cache has for a key.
abbrev pub cached : ChunkKey → Memory → Option Bytes
cached key s = lookup ChunkKey-discrete key s.lru

-- On a well-formed cache with a positive limit that the chunk does not exceed, a write replaces the
-- chunk of its key, puts it last, and drops the oldest chunks, as few as will do.
pub put_memory-lru :
    (key : ChunkKey) (bytes : Bytes) (s : Memory)
    → IsValid s
    → 0 < s.limit
    → length bytes ≤ s.limit
    → (put_memory key bytes s).lru
      ≡ shrink s.limit (without ChunkKey-discrete key s.lru ++ (key, bytes) ∷ [])
unfolding put_memory write_chunk
put_memory-lru key bytes s v some_room fits = elim (Option-cases (element key s)) [
  | inl e ↦ ground (
    arith,
    evict_from_lem _ (write_chunk key bytes s (element key s)) refl
        (write_chunk-IsConsistent key bytes s v.consistent),
    without_absent ChunkKey-discrete key s.lru,
    absent_of_lookup ChunkKey-discrete key s.lru,
    element-eq-lookup key s v.consistent,
  )
  | inr (old, e) ↦ ground (
    arith,
    e,
    evict_from_lem _ (write_chunk key bytes s (element key s)) refl
        (write_chunk-IsConsistent key bytes s v.consistent),
  )
]

-- On a well-formed cache with a positive limit that the chunk does not exceed, the chunk is found
-- right after it is written, with the bytes that were written.
pub get-put_self :
    (key : ChunkKey) (bytes : Bytes) (touch : Bool) (s : Memory)
    → IsValid s
    → 0 < s.limit
    → length bytes ≤ s.limit
    → (get_memory key touch (put_memory key bytes s)).1 ≡ some bytes
unfolding get_memory
get-put_self key bytes touch s v some_room fits = ground (
  arith,
  element-eq-lookup key (put_memory key bytes s) (put_memory-IsValid key bytes s v).consistent,
  put_memory-lru key bytes s v some_room fits,
  has-without ChunkKey-discrete key key s.lru,
  lookup-shrink_last s.limit (without ChunkKey-discrete key s.lru) key bytes,
)

pub get_memory-cached :
    (key : ChunkKey) (touch : Bool) (s : Memory)
    → IsValid s
    → (get_memory key touch s).1 ≡ cached key s
unfolding get_memory
get_memory-cached key touch s v = ground (arith, element-eq-lookup key s v.consistent)

put_memory_cases :
    (key : ChunkKey) (bytes : Bytes) (s : Memory)
    → (put_memory key bytes s ≡ s) ⊎ ((0 < s.limit) × (length bytes ≤ s.limit))
unfolding put_memory
put_memory_cases key bytes s = ground arith

sound_stored :
    (key other : ChunkKey) (bytes found : Bytes) (touch : Bool) (s : Memory)
    → IsValid s
    → 0 < s.limit
    → length bytes ≤ s.limit
    → (get_memory other touch (put_memory key bytes s)).1 ≡ some found
    → ((other ≡ key) × (found ≡ bytes)) ⊎ ((get_memory other touch s).1 ≡ some found)
sound_stored key other bytes found touch s v some_room fits h =
    let gone = has-without ChunkKey-discrete key key s.lru in
    let kept : lookup ChunkKey-discrete other
          (without ChunkKey-discrete key s.lru ++ (key, bytes) ∷ [])
        ≡ some found =
      lookup-shrink_sound s.limit _ other found
        (append-Distinct ChunkKey-discrete key bytes _ (ground (arith, gone))
          (without-Distinct ChunkKey-discrete key s.lru v.consistent.distinct))
        (ground (
          arith,
          h,
          put_memory-lru key bytes s v some_room fits,
          get_memory-cached other touch _ (put_memory-IsValid key bytes s v),
        )) in
    let moved = lookup-move ChunkKey-discrete other key bytes s.lru in
    elim (ChunkKey-discrete other key) [
      | yes same ↦ inl (same, ground (arith, kept, moved))
      | no different ↦ inr (ground (arith, kept, moved, get_memory-cached other touch s v))
    ]

-- On a well-formed cache a write makes nothing up: a chunk found after it is the one written, or
-- was found before.
pub get-put_sound :
    (key other : ChunkKey) (bytes found : Bytes) (touch : Bool) (s : Memory)
    → IsValid s
    → (get_memory other touch (put_memory key bytes s)).1 ≡ some found
    → ((other ≡ key) × (found ≡ bytes)) ⊎ ((get_memory other touch s).1 ≡ some found)
get-put_sound key other bytes found touch s v h = elim (put_memory_cases key bytes s) [
  | inl same ↦ inr (rw same at h)
  | inr (some_room, fits) ↦ sound_stored key other bytes found touch s v some_room fits h
]

cached-remove :
    (j key : ChunkKey) (s : Memory)
    → IsValid s
    → cached j (remove_memory key s) ≡ ite (ChunkKey-discrete j key) none (cached j s)
unfolding remove_memory
cached-remove j key s v =
    ground
      (arith, element-eq-lookup key s v.consistent, lookup-without ChunkKey-discrete j key s.lru)

cached-remove_from :
    (version : Bytes) (start count : ℕ) (j : ChunkKey) (s : Memory)
    → IsValid s
    → cached j (remove_from version start count s)
      ≡ ite
          (Bytes-discrete j.version version)
          (if leb start j.index && ltb j.index (start + count) then none else cached j s)
          (cached j s)
unfolding remove_from
cached-remove_from version start zero j s v = ground arith
cached-remove_from version start (suc count) j s v = ground (
  arith,
  cached-remove_from version (start + 1) count j
      (remove_memory (record { version = version; index = start }) s) (remove_memory-IsValid _ s v),
  cached-remove j (record { version = version; index = start }) s v,
)

cached-prune_keys :
    (version : Bytes) (start end : ℕ) (l : List ChunkKey) (j : ChunkKey) (s : Memory)
    → IsValid s
    → cached j (prune_keys version start end l s)
      ≡ (if mem ChunkKey-discrete j l && outside version start end j then none else cached j s)
unfolding prune_keys mem
cached-prune_keys version start end [] j s v = refl
cached-prune_keys version start end (key ∷ l) j s v =
    elim (Bool-cases (outside version start end key)) [
      | inl out ↦ ground (
        arith,
        cached-prune_keys version start end l j (remove_memory key s)
            (remove_memory-IsValid key s v),
        cached-remove j key s v,
        out,
      )
      | inr kept ↦ ground (arith, cached-prune_keys version start end l j s v, kept)
    ]

-- On a well-formed cache, after `removeMemoryRange` the chunks of the version at indices from
-- `start` up to but not including `end` are gone, and every other chunk is as it was.
pub get-remove_memory_range :
    (version : Bytes) (start end : ℕ) (j : ChunkKey) (touch : Bool) (s : Memory)
    → IsValid s
    → (get_memory j touch (remove_memory_range version start end s)).1
      ≡ ite
          (Bytes-discrete j.version version)
          (if leb start j.index && ltb j.index end then none else (get_memory j touch s).1)
          (get_memory j touch s).1
unfolding remove_memory_range
get-remove_memory_range version start end j touch s v =
    rw
      (
        get_memory-cached j touch s v,
        get_memory-cached j touch _ (remove_memory_range-IsValid version start end s v),
      )
      (ground (arith, cached-remove_from version start (end - start) j s v))

pruned :
    (version : Bytes) (start end : ℕ) (j : ChunkKey) (s : Memory)
    → IsValid s
    → cached j (prune_memory_window version start end s)
      ≡ (if outside version start end j then none else cached j s)
unfolding prune_memory_window
pruned version start end j s v = ground (
  arith,
  cached-prune_keys version start end s.index j s v,
  v.consistent.indexed j,
  lookup_absent ChunkKey-discrete j s.lru,
)

-- On a well-formed cache, after `pruneMemoryWindow` the chunks of the version with an index below
-- `start` or above `end` are gone, and every other chunk is as it was.
pub get-prune_memory_window :
    (version : Bytes) (start end : ℕ) (j : ChunkKey) (touch : Bool) (s : Memory)
    → IsValid s
    → (get_memory j touch (prune_memory_window version start end s)).1
      ≡ (if outside version start end j then none else (get_memory j touch s).1)
get-prune_memory_window version start end j touch s v =
    rw
      (
        get_memory-cached j touch s v,
        get_memory-cached j touch _ (prune_memory_window-IsValid version start end s v),
      )
      (pruned version start end j s v)

cached-move_to_back :
    (key j : ChunkKey) (bytes : Bytes) (s : Memory)
    → cached key s ≡ some bytes
    → cached j (move_to_back key bytes s) ≡ cached j s
unfolding move_to_back
cached-move_to_back key j bytes s e =
    ground (arith, e, lookup-move ChunkKey-discrete j key bytes s.lru)

cached-get_memory :
    (key j : ChunkKey) (touch : Bool) (s : Memory)
    → IsValid s
    → cached j (get_memory key touch s).0 ≡ cached j s
unfolding get_memory
cached-get_memory key j touch s v = elim (Option-cases (element key s)) [
  | inl e ↦ rw (e, get_memory)
  | inr (bytes, e) ↦
      ground (arith, e, element-eq-lookup key s v.consistent, cached-move_to_back key j bytes s)
]

-- On a well-formed cache, reading one chunk, marked as used or not, changes nothing that a reader
-- of any chunk finds.
pub get-get_memory :
    (key j : ChunkKey) (touch again : Bool) (s : Memory)
    → IsValid s
    → (get_memory j again (get_memory key touch s).0).1 ≡ (get_memory j again s).1
get-get_memory key j touch again s v =
    rw
      (
        get_memory-cached j again s v,
        get_memory-cached j again _ (get_memory-IsValid key touch s v),
      )
      (cached-get_memory key j touch s v)
