-- ===== src/ChunkStore/Disk/Trim.antt =====
-- internal/stream/store.go: `trimDiskLocked`, and the operations that end in it.
use baidu_disk_link.Common.{
  ℕ, ◌≤◌, ◌≡◌, ◌⊎◌, refl, ◌∙◌, true, inl, inr, List, [], ◌∷◌, length, ltb, arith, Bool-cases,
  Option-cases,
}
use baidu_disk_link.Common.Maps.{has, lookup, without, total, without_absent, mem}
use baidu_disk_link.ChunkStore.Types.{Bytes, ChunkKey, ChunkKey-discrete}
use baidu_disk_link.ChunkStore.Names.{parse_chunk_file_name}
use baidu_disk_link.ChunkStore.Disk.{
  Disk, DiskEntry, Os, FoundFile, empty_disk, add_disk, touch_disk, remove_disk, trim_from,
  trim_disk, put_disk, index_files, load_disk_index, forget_disk, chunk_path, IsConsistent,
}
use baidu_disk_link.ChunkStore.Disk.Valid.{
  add_disk-IsConsistent, remove_disk-IsConsistent, touch_disk-IsConsistent, disk_element-eq-lookup,
}

remove_front :
    (key : ChunkKey) (entry : DiskEntry) (rest : List (ChunkKey × DiskEntry)) (d : Disk)
    → d.lru ≡ (key, entry) ∷ rest
    → IsConsistent d
    → (remove_disk key d).lru ≡ rest
unfolding remove_disk lookup without
remove_front key entry rest d e c =
    ground
      (arith, disk_element-eq-lookup key d c, c.distinct, without_absent ChunkKey-discrete key rest)

limit-remove_disk : (key : ChunkKey) (d : Disk) → (remove_disk key d).limit ≡ d.limit
unfolding remove_disk
limit-remove_disk key d = ground arith

trim_from_lem :
    (os : Os) (l : List (ChunkKey × DiskEntry)) (d : Disk)
    → d.lru ≡ l
    → IsConsistent d
    → IsConsistent (trim_from os l d).0
      × ((trim_from os l d).1 ≡ true → (trim_from os l d).0.bytes ≤ d.limit)
unfolding trim_from total
trim_from_lem os [] d e c = (c, λ _. ground (arith, c.counted))
trim_from_lem os ((key, entry) ∷ rest) d e c =
    let (kept, fits) =
      trim_from_lem os rest (remove_disk key d) (remove_front key entry rest d e c)
        (remove_disk-IsConsistent key d c) in
    elim (Bool-cases (ltb d.limit d.bytes)) [
      | inr small ↦ rw small (c, λ _. ground (arith, small))
      | inl over ↦ elim (Bool-cases (os.remove entry.path)) [
        | inl gone ↦ rw (over, gone) (kept, λ h. ground (arith, fits h, limit-remove_disk key d))
        | inr stays ↦ rw (over, stays) (c, λ h. absurd (cc))
      ]
    ]

trim_disk_lem :
    (os : Os) (d : Disk)
    → IsConsistent d
    → IsConsistent (trim_disk os d).0
      × ((trim_disk os d).1 ≡ true → (trim_disk os d).0.bytes ≤ d.limit)
unfolding trim_disk
trim_disk_lem os d c = trim_from_lem os d.lru d refl c

limit-add_disk :
    (key : ChunkKey) (path : Bytes) (size : ℕ) (d : Disk)
    → (add_disk key path size d).limit ≡ d.limit
unfolding add_disk
limit-add_disk key path size d = ground arith

put_disk_cases :
    (os : Os) (key : ChunkKey) (bytes : Bytes) (d : Disk)
    → (put_disk os key bytes d ≡ trim_disk os (add_disk key (chunk_path os key d) (length bytes) d))
      ⊎ ((put_disk os key bytes d).0 ≡ d)
unfolding put_disk
put_disk_cases os key bytes d = ground arith

put_disk_lem :
    (os : Os) (key : ChunkKey) (bytes : Bytes) (d : Disk)
    → IsConsistent d
    → d.bytes ≤ d.limit
    → IsConsistent (put_disk os key bytes d).0
      × ((put_disk os key bytes d).1 ≡ true → (put_disk os key bytes d).0.bytes ≤ d.limit)
put_disk_lem os key bytes d c fits =
    let path = chunk_path os key d in
    let (kept, bounded) =
      trim_disk_lem os (add_disk key path (length bytes) d)
        (add_disk-IsConsistent key d c path (length bytes)) in
    elim (put_disk_cases os key bytes d) [
      | inl e ↦
          rw e (kept, λ h. ground (arith, bounded h, limit-add_disk key path (length bytes) d))
      | inr e ↦ rw e (c, λ _. fits)
    ]

index_files-IsConsistent :
    (os : Os) (files : List FoundFile) (d : Disk)
    → IsConsistent d
    → IsConsistent (index_files os files d)
unfolding index_files
index_files-IsConsistent os [] d c = c
index_files-IsConsistent os (file ∷ files) d c =
    elim (Option-cases (parse_chunk_file_name file.name)) [
      | inl e ↦ rw e (index_files-IsConsistent os files d c)
      | inr (key, e) ↦ rw e (
          index_files-IsConsistent os files _
            (add_disk-IsConsistent key d c (os.join d.folder file.name) file.size))
    ]

limit-index_files :
    (os : Os) (files : List FoundFile) (d : Disk) → (index_files os files d).limit ≡ d.limit
unfolding index_files
limit-index_files os [] d = refl
limit-index_files os (file ∷ files) d = elim (Option-cases (parse_chunk_file_name file.name)) [
  | inl e ↦ rw (e, index_files) (limit-index_files os files d)
  | inr (key, e) ↦
      rw (e, index_files)
        (limit-index_files os files _ ∙ limit-add_disk key (os.join d.folder file.name) file.size d)
]

empty_disk-IsConsistent : (folder : Bytes) (limit : ℕ) → IsConsistent (empty_disk folder limit)
unfolding empty_disk total has mem lookup
empty_disk-IsConsistent folder limit = record {
  counted = refl;
  distinct = tt;
  indexed = λ j. refl;
  sized = λ j. refl;
}

load_disk_index-IsConsistent :
    (os : Os) (files : List FoundFile) (d : Disk)
    → IsConsistent d
    → IsConsistent (load_disk_index os files d).0
unfolding load_disk_index
load_disk_index-IsConsistent os files d c =
    (trim_disk_lem os _ (index_files-IsConsistent os files d c)).0

-- A write to a consistent disk cache that reports no error leaves it within its budget, if it was
-- so before.
pub put_disk-le-limit :
    (os : Os) (key : ChunkKey) (bytes : Bytes) (d : Disk)
    → IsConsistent d
    → d.bytes ≤ d.limit
    → (put_disk os key bytes d).1 ≡ true
    → (put_disk os key bytes d).0.bytes ≤ d.limit
put_disk-le-limit os key bytes d c fits = (put_disk_lem os key bytes d c fits).1

-- A start from a consistent index that reports no error has an index within the budget, whatever
-- files it found.
pub load_disk_index-le-limit :
    (os : Os) (files : List FoundFile) (d : Disk)
    → IsConsistent d
    → (load_disk_index os files d).1 ≡ true
    → (load_disk_index os files d).0.bytes ≤ d.limit
unfolding load_disk_index
load_disk_index-le-limit os files d c h = ground (
  arith,
  (trim_disk_lem os _ (index_files-IsConsistent os files d c)).1 h,
  limit-index_files os files d,
)

pub data DiskCall : Type 0 where
  put : Os → ChunkKey → Bytes → DiskCall
  touch forget : ChunkKey → DiskCall
  load : Os → List FoundFile → DiskCall

unfoldable pub disk_step : DiskCall → Disk → Disk
disk_step (put os key bytes) d = (put_disk os key bytes d).0
disk_step (touch key) d = touch_disk key d
disk_step (forget key) d = forget_disk key d
disk_step (load os files) d = (load_disk_index os files d).0

unfoldable pub disk_run : List DiskCall → Disk → Disk
unfolding disk_step
disk_run [] d = d
disk_run (call ∷ calls) d = disk_run calls (disk_step call d)

put_disk-IsConsistent :
    (os : Os) (key : ChunkKey) (bytes : Bytes) (d : Disk)
    → IsConsistent d
    → IsConsistent (put_disk os key bytes d).0
put_disk-IsConsistent os key bytes d c = elim (put_disk_cases os key bytes d) [
  | inl e ↦
      rw e
        (trim_disk_lem os _ (add_disk-IsConsistent key d c (chunk_path os key d) (length bytes))).0
  | inr e ↦ rw e c
]

disk_step-IsConsistent :
    (call : DiskCall) (d : Disk) → IsConsistent d → IsConsistent (disk_step call d)
unfolding disk_step forget_disk
disk_step-IsConsistent (put os key bytes) d c = put_disk-IsConsistent os key bytes d c
disk_step-IsConsistent (touch key) d c = touch_disk-IsConsistent key d c
disk_step-IsConsistent (forget key) d c = remove_disk-IsConsistent key d c
disk_step-IsConsistent (load os files) d c = load_disk_index-IsConsistent os files d c

disk_run-IsConsistent :
    (calls : List DiskCall) (d : Disk) → IsConsistent d → IsConsistent (disk_run calls d)
unfolding disk_run
disk_run-IsConsistent [] d c = c
disk_run-IsConsistent (call ∷ calls) d c =
    disk_run-IsConsistent calls _ (disk_step-IsConsistent call d c)

-- After any sequence of operations on a new disk cache, whatever the file system answers, each key is listed once, the
-- list, the map of elements and the map of lengths agree on every key, and the byte counter is the size of what is listed.
pub disk_run-empty_disk-IsConsistent :
    (folder : Bytes) (limit : ℕ) (calls : List DiskCall)
    → IsConsistent (disk_run calls (empty_disk folder limit))
disk_run-empty_disk-IsConsistent folder limit calls =
    disk_run-IsConsistent calls (empty_disk folder limit) (empty_disk-IsConsistent folder limit)
