-- ===== src/ChunkStore/Disk.antt =====
-- internal/stream/store.go: the disk half of `chunkStore`. As in the memory half, an element of the
-- list is named by the key of its entry; `entries` is the key set of `diskEntries`, and `ready` the
-- map `diskReady`. What the operating system answers is an argument of each operation.
pub mod Valid
pub mod Trim
use baidu_disk_link.Common.{
  ℕ, ◌+◌, ◌-◌, ◌≤◌, ◌≡◌, Bool, true, false, ◌||◌, Option, none, some, List, [], ◌∷◌, ◌++◌, length,
  ltb, if◌then◌else◌,
}
use baidu_disk_link.Common.Maps.{mem, erase, has, lookup, without, insert, total, Distinct}
use baidu_disk_link.ChunkStore.Types.{Bytes, ChunkKey, ChunkKey-discrete}
use baidu_disk_link.ChunkStore.Names.{chunk_name, parse_chunk_file_name}

pub record DiskEntry : Type 0 where
  pub path : Bytes
  pub size : ℕ

-- `folder` is empty where no cache path is configured.
pub record Disk : Type 0 where
  pub folder : Bytes
  pub limit : ℕ
  pub bytes : ℕ
  pub ready : List (ChunkKey × ℕ)
  pub entries : List ChunkKey
  pub lru : List (ChunkKey × DiskEntry)

-- What the file system answers: `filepath.Join`, `os.ReadFile`, whether a temporary file could be
-- made, written, closed and renamed, and whether `os.Remove` succeeds or finds nothing to remove.
pub record Os : Type 0 where
  pub join : Bytes → Bytes → Bytes
  pub read_file : Bytes → Option Bytes
  pub create_temp : Bool
  pub write_temp : Bool
  pub close_temp : Bool
  pub rename : Bytes → Bool
  pub remove : Bytes → Bool

unfoldable pub empty_disk : Bytes → ℕ → Disk
empty_disk folder limit = record {
  folder = folder;
  limit = limit;
  bytes = 0;
  ready = [];
  entries = [];
  lru = [];
}

abbrev no_folder : Bytes → Bool
no_folder [] = true
no_folder (c ∷ folder) = false

-- s.diskPath == "" || s.diskLimit <= 0
unfoldable pub disabled : Disk → Bool
disabled d = no_folder d.folder || ltb d.limit 1

unfoldable pub chunk_path : Os → ChunkKey → Disk → Bytes
unfolding chunk_name
chunk_path os key d = os.join d.folder (chunk_name key)

-- s.diskEntries[key], read through to the entry of the element
unfoldable pub disk_element : ChunkKey → Disk → Option DiskEntry
disk_element key d =
    if mem ChunkKey-discrete key d.entries then lookup ChunkKey-discrete key d.lru else none

unfoldable pub add_disk : ChunkKey → Bytes → ℕ → Disk → Disk
unfolding disk_element
add_disk key path size d = elim (disk_element key d) [
  | some old ↦ record d {
    bytes = d.bytes - old.size + size;
    lru = without ChunkKey-discrete key d.lru ++ (key, record { path = path; size = size }) ∷ [];
    ready = insert ChunkKey-discrete key size d.ready;
  }
  | none ↦ record d {
    bytes = d.bytes + size;
    lru = d.lru ++ (key, record { path = path; size = size }) ∷ [];
    entries = key ∷ d.entries;
    ready = insert ChunkKey-discrete key size d.ready;
  }
]

unfoldable pub touch_disk : ChunkKey → Disk → Disk
unfolding disk_element
touch_disk key d = elim (disk_element key d) [
  | some entry ↦ record d { lru = without ChunkKey-discrete key d.lru ++ (key, entry) ∷ [] }
  | none ↦ d
]

unfoldable pub remove_disk : ChunkKey → Disk → Disk
unfolding disk_element
remove_disk key d = elim (disk_element key d) [
  | some entry ↦ record d {
    bytes = d.bytes - entry.size;
    lru = without ChunkKey-discrete key d.lru;
    entries = erase ChunkKey-discrete key d.entries;
    ready = without ChunkKey-discrete key d.ready;
  }
  | none ↦ record d { ready = without ChunkKey-discrete key d.ready }
]

-- the loop of `trimDiskLocked`, over what is left of the list; `false` where a removal failed
unfoldable pub trim_from : Os → List (ChunkKey × DiskEntry) → Disk → Disk × Bool
unfolding remove_disk
trim_from os [] d = (d, true)
trim_from os ((key, entry) ∷ rest) d =
    let more = trim_from os rest (remove_disk key d) in
    if ltb d.limit d.bytes then (if os.remove entry.path then more else (d, false)) else (d, true)

unfoldable pub trim_disk : Os → Disk → Disk × Bool
trim_disk os d = trim_from os d.lru d

unfoldable pub put_disk : Os → ChunkKey → Bytes → Disk → Disk × Bool
put_disk os key bytes d =
    if ltb (length bytes) 1 || disabled d
    then (d, true)
    else if os.create_temp
    then (if os.write_temp
        then (if os.close_temp
            then (if os.rename (chunk_path os key d)
                then trim_disk os (add_disk key (chunk_path os key d) (length bytes) d)
                else (d, false))
            else (d, false))
        else (d, false))
    else (d, false)

-- A regular file of the cache folder that ends in `.chunk`.
pub record FoundFile : Type 0 where
  pub name : Bytes
  pub size : ℕ

-- the loop of `loadDiskIndex` over the files, oldest first
unfoldable pub index_files : Os → List FoundFile → Disk → Disk
index_files os [] d = d
index_files os (file ∷ files) d = index_files os files (elim (parse_chunk_file_name file.name) [
  | none ↦ d
  | some key ↦ add_disk key (os.join d.folder file.name) file.size d
])

unfoldable pub load_disk_index : Os → List FoundFile → Disk → Disk × Bool
load_disk_index os files d = trim_disk os (index_files os files d)

-- forgetDisk
unfoldable pub forget_disk : ChunkKey → Disk → Disk
forget_disk key d = remove_disk key d

-- Each key is listed once, the three structures agree, and the counter is the size of what is listed.
pub record IsConsistent (d : Disk) : Type 0 where
  pub counted : d.bytes ≡ total ChunkKey-discrete (λ (e : DiskEntry). e.size) d.lru
  pub distinct : Distinct ChunkKey-discrete d.lru
  pub indexed :
      (key : ChunkKey) → mem ChunkKey-discrete key d.entries ≡ has ChunkKey-discrete key d.lru
  pub sized :
      (key : ChunkKey)
      → lookup ChunkKey-discrete key d.ready
        ≡ elim (lookup ChunkKey-discrete key d.lru) [ none ↦ none | some e ↦ some e.size ]
