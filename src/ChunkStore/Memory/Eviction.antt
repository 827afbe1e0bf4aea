-- ===== src/ChunkStore/Memory/Eviction.antt =====
-- internal/stream/store.go: the eviction loop of `putMemory`, against its specification.
use baidu_disk_link.Common.{
  ℕ, ◌-◌, ◌≤◌, ◌≡◌, refl, ap, ◌∙◌, false, inl, inr, some, List, [], ◌∷◌, ◌++◌, length,
  length-append, ltb, if◌then◌else◌, arith, Bool-cases,
}
use baidu_disk_link.Common.Maps.{
  erase, has, lookup, total, Distinct, mem-erase, has_of_lookup, lookup-append_second,
}
use baidu_disk_link.ChunkStore.Types.{Bytes, ChunkKey, ChunkKey-discrete}
use baidu_disk_link.ChunkStore.Memory.{Memory, evict_from, IsConsistent, IsValid}

-- The bytes that a list of chunks holds.
abbrev pub weight : List (ChunkKey × Bytes) → ℕ
unfolding total
weight = total ChunkKey-discrete length

-- The chunks that stay: the oldest are dropped until the rest fits.
unfoldable pub shrink : ℕ → List (ChunkKey × Bytes) → List (ChunkKey × Bytes)
shrink limit [] = []
shrink limit (entry ∷ rest) =
    let fewer = shrink limit rest in
    if ltb limit (total ChunkKey-discrete length (entry ∷ rest)) then fewer else entry ∷ rest

pub shrink-le :
    (limit : ℕ) (l : List (ChunkKey × Bytes))
    → total ChunkKey-discrete length (shrink limit l) ≤ limit
unfolding shrink total
shrink-le limit [] = omega arith
shrink-le limit (e ∷ l) = ground (arith, shrink-le limit l)

-- What fits stays whole.
pub shrink_fits :
    (limit : ℕ) (l : List (ChunkKey × Bytes))
    → total ChunkKey-discrete length l ≤ limit
    → shrink limit l ≡ l
unfolding shrink
shrink_fits limit [] h = refl
shrink_fits limit (e ∷ l) h = ground arith

-- No longer end of the list would have fitted.
pub shrink-longest :
    (limit : ℕ) (front back : List (ChunkKey × Bytes))
    → total ChunkKey-discrete length back ≤ limit
    → length back ≤ length (shrink limit (front ++ back))
unfolding shrink
shrink-longest limit [] back h = ground (arith, shrink_fits limit back h)
shrink-longest limit (e ∷ front) back h =
    ground (arith, shrink-longest limit front back h, length-append front back)

-- The newest chunk survives if it fits by itself.
pub lookup-shrink_last :
    (limit : ℕ) (l : List (ChunkKey × Bytes)) (key : ChunkKey) (bytes : Bytes)
    → has ChunkKey-discrete key l ≡ false
    → length bytes ≤ limit
    → lookup ChunkKey-discrete key (shrink limit (l ++ (key, bytes) ∷ [])) ≡ some bytes
unfolding shrink lookup total has
lookup-shrink_last limit [] key bytes h fits = ground arith
lookup-shrink_last limit ((j, w) ∷ l) key bytes h fits = ground (
  arith,
  lookup-shrink_last limit l key bytes,
  lookup-append_second ChunkKey-discrete key l ((key, bytes) ∷ []),
)

pub shrink-Distinct :
    (limit : ℕ) (l : List (ChunkKey × Bytes))
    → Distinct ChunkKey-discrete l
    → Distinct ChunkKey-discrete (shrink limit l)
unfolding shrink
shrink-Distinct limit [] d = tt
shrink-Distinct limit ((j, w) ∷ l) d = ground (arith, shrink-Distinct limit l d.1)

-- What is found after the eviction was there before it, with the same bytes.
pub lookup-shrink_sound :
    (limit : ℕ) (l : List (ChunkKey × Bytes)) (key : ChunkKey) (bytes : Bytes)
    → Distinct ChunkKey-discrete l
    → lookup ChunkKey-discrete key (shrink limit l) ≡ some bytes
    → lookup ChunkKey-discrete key l ≡ some bytes
unfolding shrink lookup
lookup-shrink_sound limit [] key bytes d h = h
lookup-shrink_sound limit ((j, w) ∷ l) key bytes d h =
    ground (
      arith,
      lookup-shrink_sound limit l key bytes d.1,
      has_of_lookup ChunkKey-discrete key l bytes,
    )

drop_oldest-IsConsistent :
    (key : ChunkKey) (bytes : Bytes) (rest : List (ChunkKey × Bytes)) (s : Memory)
    → s.lru ≡ (key, bytes) ∷ rest
    → IsConsistent s
    → IsConsistent (record s {
      index = erase ChunkKey-discrete key s.index;
      bytes = s.bytes - length bytes;
      lru = rest;
    })
unfolding total has
drop_oldest-IsConsistent key bytes rest s e c = record {
  counted = ground (arith, c.counted);
  distinct = ground (arith, c.distinct);
  indexed = λ j. ground (arith, c.indexed j, c.distinct, mem-erase ChunkKey-discrete j key s.index);
}

-- The loop computes the specification, and keeps the books and the budget as they are.
pub evict_from_lem :
    (l : List (ChunkKey × Bytes)) (s : Memory)
    → s.lru ≡ l
    → IsConsistent s
    → ((evict_from l s).lru ≡ shrink s.limit l)
      × IsConsistent (evict_from l s)
      × ((evict_from l s).limit ≡ s.limit)
unfolding evict_from shrink
evict_from_lem [] s e c = (e, c, refl)
evict_from_lem ((key, bytes) ∷ rest) s e c =
    let counted : s.bytes ≡ total ChunkKey-discrete length ((key, bytes) ∷ rest) =
      c.counted ∙ ap (total ChunkKey-discrete length) e in
    let ih =
      evict_from_lem rest
        (record s {
          index = erase ChunkKey-discrete key s.index;
          bytes = s.bytes - length bytes;
          lru = rest;
        })
        refl (drop_oldest-IsConsistent key bytes rest s e c) in
    elim (Bool-cases (ltb s.limit s.bytes)) [
      | inl over ↦ rw (over, ← counted) (rw over ih)
      | inr fits ↦ rw (fits, ← counted) (rw fits (e, c, refl))
    ]

-- So the loop ends within the budget.
pub evict_from-IsValid : (s : Memory) → IsConsistent s → IsValid (evict_from s.lru s)
evict_from-IsValid s c =
    let (stays, kept, same) = evict_from_lem s.lru s refl c in
    record {
      consistent = kept;
      bounded =
          omega (
            arith,
            kept.counted,
            ap (total ChunkKey-discrete length) stays,
            shrink-le s.limit s.lru,
          );
    }
