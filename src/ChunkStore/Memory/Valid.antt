-- ===== src/ChunkStore/Memory/Valid.antt =====
-- internal/stream/store.go: the bookkeeping of the memory half under each operation.
use baidu_disk_link.Common.{
  ℕ, zero, suc, ◌+◌, ◌-◌, ◌≡◌, refl, sym, subst, ◌∙◌, ◌||◌, Bool, true, false, inl, inr, none, some,
  List, [], ◌∷◌, ◌++◌, length, ltb, leb, if◌then◌else◌, arith, Bool-cases, Option-cases,
}
use baidu_disk_link.Common.Maps.{
  mem, erase, has, lookup, without, total, mem-erase, has_of_lookup, absent_of_lookup,
  lookup_absent, has-append, has-without, total-append, total-without, append-Distinct,
  without-Distinct,
}
use baidu_disk_link.ChunkStore.Types.{Bytes, ChunkKey, ChunkKey-discrete}
use baidu_disk_link.ChunkStore.Memory.{
  Memory, empty, element, move_to_back, write_chunk, put_memory, get_memory, clear_memory,
  remove_memory, remove_from, remove_memory_range, outside, prune_keys, prune_memory_window,
  IsConsistent, IsValid,
}
use baidu_disk_link.ChunkStore.Memory.Eviction.{evict_from-IsValid}

-- The map leads to the entry that the list holds.
pub element-eq-lookup :
    (key : ChunkKey) (s : Memory)
    → IsConsistent s
    → element key s ≡ lookup ChunkKey-discrete key s.lru
unfolding element
element-eq-lookup key s c = ground (arith, c.indexed key, lookup_absent ChunkKey-discrete key s.lru)

module _ (key : ChunkKey) (bytes old : Bytes) (s : Memory) (c : IsConsistent s) where
  rewrite-IsConsistent :
      lookup ChunkKey-discrete key s.lru ≡ some old
      → IsConsistent
          (move_to_back key bytes (record s { bytes = s.bytes - length old + length bytes }))
  unfolding move_to_back total has
  rewrite-IsConsistent e = record {
    counted = ground (
      arith,
      c.counted,
      total-append ChunkKey-discrete length (without ChunkKey-discrete key s.lru)
          ((key, bytes) ∷ []),
      total-without ChunkKey-discrete length key old s.lru c.distinct e,
    );
    distinct =
        append-Distinct ChunkKey-discrete key bytes (without ChunkKey-discrete key s.lru)
          (ground (arith, has-without ChunkKey-discrete key key s.lru))
          (without-Distinct ChunkKey-discrete key s.lru c.distinct);
    indexed = λ j. ground (
      arith,
      c.indexed j,
      has-append ChunkKey-discrete j (without ChunkKey-discrete key s.lru) ((key, bytes) ∷ []),
      has-without ChunkKey-discrete j key s.lru,
      has_of_lookup ChunkKey-discrete key s.lru old e,
    );
  }

  insert-IsConsistent :
      has ChunkKey-discrete key s.lru ≡ false
      → IsConsistent (record s {
        lru = s.lru ++ (key, bytes) ∷ [];
        index = key ∷ s.index;
        bytes = s.bytes + length bytes;
      })
  unfolding total has mem
  insert-IsConsistent e = record {
    counted =
        ground (arith, c.counted, total-append ChunkKey-discrete length s.lru ((key, bytes) ∷ []));
    distinct = append-Distinct ChunkKey-discrete key bytes s.lru e c.distinct;
    indexed =
        λ j. ground (arith, c.indexed j, has-append ChunkKey-discrete j s.lru ((key, bytes) ∷ []));
  }

  remove-IsConsistent :
      lookup ChunkKey-discrete key s.lru ≡ some old
      → IsConsistent (record s {
        index = erase ChunkKey-discrete key s.index;
        bytes = s.bytes - length old;
        lru = without ChunkKey-discrete key s.lru;
      })
  unfolding total has
  remove-IsConsistent e = record {
    counted =
        ground
          (arith, c.counted, total-without ChunkKey-discrete length key old s.lru c.distinct e);
    distinct = without-Distinct ChunkKey-discrete key s.lru c.distinct;
    indexed = λ j. ground (
      arith,
      c.indexed j,
      mem-erase ChunkKey-discrete j key s.index,
      has-without ChunkKey-discrete j key s.lru,
    );
  }

pub write_chunk-IsConsistent :
    (key : ChunkKey) (bytes : Bytes) (s : Memory)
    → IsConsistent s
    → IsConsistent (write_chunk key bytes s (element key s))
unfolding write_chunk
write_chunk-IsConsistent key bytes s c = elim (Option-cases (element key s)) [
  | inl e ↦ rw e (insert-IsConsistent key bytes [] s c (absent e))
  | inr (old, e) ↦
      rw e (rewrite-IsConsistent key bytes old s c (sym (element-eq-lookup key s c) ∙ e))
]
  where
    absent : element key s ≡ none → has ChunkKey-discrete key s.lru ≡ false
    absent e = absent_of_lookup ChunkKey-discrete key s.lru (sym (element-eq-lookup key s c) ∙ e)

pub put_memory-IsValid :
    (key : ChunkKey) (bytes : Bytes) (s : Memory) → IsValid s → IsValid (put_memory key bytes s)
unfolding put_memory
put_memory-IsValid key bytes s v = elim (Bool-cases (leb s.limit 0 || ltb s.limit (length bytes))) [
  | inl skip ↦ rw skip v
  | inr room ↦ rw room (evict_from-IsValid _ (write_chunk-IsConsistent key bytes s v.consistent))
]

move_to_back-IsValid :
    (key : ChunkKey) (bytes : Bytes) (s : Memory)
    → IsValid s
    → element key s ≡ some bytes
    → IsValid (move_to_back key bytes s)
unfolding move_to_back
move_to_back-IsValid key bytes s v e =
    let found = sym (element-eq-lookup key s v.consistent) ∙ e in
    let same : s.bytes - length bytes + length bytes ≡ s.bytes = omega (
      arith,
      v.consistent.counted,
      total-without ChunkKey-discrete length key bytes s.lru v.consistent.distinct found,
    ) in
    record {
      consistent =
          subst (λ n. IsConsistent (move_to_back key bytes (record s { bytes = n }))) same
            (rewrite-IsConsistent key bytes bytes s v.consistent found);
      bounded = v.bounded;
    }

pub get_memory-IsValid :
    (key : ChunkKey) (touch : Bool) (s : Memory) → IsValid s → IsValid (get_memory key touch s).0
unfolding get_memory
get_memory-IsValid key touch s v = elim (Option-cases (element key s)) [
  | inl e ↦ rw (e, get_memory) v
  | inr (old, e) ↦ rw (e, get_memory) (touched touch old e)
]
  where
    touched :
        (t : Bool) (old : Bytes)
        → element key s ≡ some old
        → IsValid (if t then move_to_back key old s else s)
    touched false old e = v
    touched true old e = move_to_back-IsValid key old s v e

pub clear_memory-IsValid : (s : Memory) → IsValid (clear_memory s).0
unfolding clear_memory total has mem
clear_memory-IsValid s = record {
  consistent = record { counted = refl; distinct = tt; indexed = λ j. refl };
  bounded = omega arith;
}

pub remove_memory-IsValid :
    (key : ChunkKey) (s : Memory) → IsValid s → IsValid (remove_memory key s)
unfolding remove_memory
remove_memory-IsValid key s v = elim (Option-cases (element key s)) [
  | inl e ↦ rw (e, remove_memory) v
  | inr (old, e) ↦
      rw (e, remove_memory)
        (record {
          consistent =
              remove-IsConsistent key [] old s v.consistent
                (sym (element-eq-lookup key s v.consistent) ∙ e);
          bounded = omega (arith, v.bounded);
        })
]

remove_from-IsValid :
    (version : Bytes) (start count : ℕ) (s : Memory)
    → IsValid s
    → IsValid (remove_from version start count s)
unfolding remove_from
remove_from-IsValid version start zero s v = v
remove_from-IsValid version start (suc count) s v =
    remove_from-IsValid version (start + 1) count _ (remove_memory-IsValid _ s v)

pub remove_memory_range-IsValid :
    (version : Bytes) (start end : ℕ) (s : Memory)
    → IsValid s
    → IsValid (remove_memory_range version start end s)
unfolding remove_memory_range
remove_memory_range-IsValid version start end s v = elim (Bool-cases (leb end start)) [
  | inl nothing ↦ rw nothing v
  | inr some_left ↦ rw some_left (remove_from-IsValid version start (end - start) s v)
]

prune_keys-IsValid :
    (version : Bytes) (start end : ℕ) (l : List ChunkKey) (s : Memory)
    → IsValid s
    → IsValid (prune_keys version start end l s)
unfolding prune_keys
prune_keys-IsValid version start end [] s v = v
prune_keys-IsValid version start end (key ∷ l) s v =
    elim (Bool-cases (outside version start end key)) [
      | inl out ↦ rw out (prune_keys-IsValid version start end l _ (remove_memory-IsValid key s v))
      | inr inside ↦ rw inside (prune_keys-IsValid version start end l s v)
    ]

pub prune_memory_window-IsValid :
    (version : Bytes) (start end : ℕ) (s : Memory)
    → IsValid s
    → IsValid (prune_memory_window version start end s)
unfolding prune_memory_window
prune_memory_window-IsValid version start end s v = prune_keys-IsValid version start end s.index s v

pub data MemoryCall : Type 0 where
  put : ChunkKey → Bytes → MemoryCall
  get : ChunkKey → Bool → MemoryCall
  clear : MemoryCall
  remove_range prune : Bytes → ℕ → ℕ → MemoryCall

unfoldable pub step : MemoryCall → Memory → Memory
step (put key bytes) s = put_memory key bytes s
step (get key touch) s = (get_memory key touch s).0
step clear s = (clear_memory s).0
step (remove_range version start end) s = remove_memory_range version start end s
step (prune version start end) s = prune_memory_window version start end s

unfoldable pub run : List MemoryCall → Memory → Memory
unfolding step
run [] s = s
run (call ∷ calls) s = run calls (step call s)

step-IsValid : (call : MemoryCall) (s : Memory) → IsValid s → IsValid (step call s)
unfolding step
step-IsValid (put key bytes) s v = put_memory-IsValid key bytes s v
step-IsValid (get key touch) s v = get_memory-IsValid key touch s v
step-IsValid clear s v = clear_memory-IsValid s
step-IsValid (remove_range version start end) s v =
    remove_memory_range-IsValid version start end s v
step-IsValid (prune version start end) s v = prune_memory_window-IsValid version start end s v

run-IsValid : (calls : List MemoryCall) (s : Memory) → IsValid s → IsValid (run calls s)
unfolding run
run-IsValid [] s v = v
run-IsValid (call ∷ calls) s v = run-IsValid calls (step call s) (step-IsValid call s v)

empty-IsValid : (limit : ℕ) → IsValid (empty limit)
unfolding empty total has mem
empty-IsValid limit = record {
  consistent = record { counted = refl; distinct = tt; indexed = λ j. refl };
  bounded = omega arith;
}

-- After any sequence of operations on a new cache, the byte counter is exactly the size of the chunks held and
-- within the limit, the list holds no key twice, and the map has exactly the keys of the list.
pub run-empty-IsValid : (limit : ℕ) (calls : List MemoryCall) → IsValid (run calls (empty limit))
run-empty-IsValid limit calls = run-IsValid calls (empty limit) (empty-IsValid limit)
