-- ===== src/Examples/ChunkStore.antt =====
-- internal/stream/store.go: small inputs.
use baidu_disk_link.Common.{◌≤◌, ◌≡◌, refl, true, some, List, [], ◌∷◌, ◌++◌, arith, ℕ_discrete}
use baidu_disk_link.Common.Maps.{mem, erase, lookup, without}
use baidu_disk_link.ChunkStore.Types.{Bytes, File, ChunkKey, ChunkKey-discrete, Bytes-discrete}
use baidu_disk_link.ChunkStore.Names.{sanitize_version, chunk_name, parse_chunk_file_name}
use baidu_disk_link.ChunkStore.Names.RoundTrip.{parse_chunk_file_name-chunk_name}
use baidu_disk_link.ChunkStore.Memory.{
  Memory, empty, element, move_to_back, write_chunk, evict_from, put_memory, get_memory, IsValid,
}
use baidu_disk_link.ChunkStore.Memory.Eviction.{shrink}
use baidu_disk_link.ChunkStore.Memory.Valid
use baidu_disk_link.ChunkStore.Memory.Valid.{MemoryCall, run, step, run-empty-IsValid}
use baidu_disk_link.ChunkStore.Memory.Reads.{put_memory-lru}
use baidu_disk_link.ChunkStore.Disk
use baidu_disk_link.ChunkStore.Disk.{Disk, Os, FoundFile, empty_disk, put_disk, load_disk_index}
use baidu_disk_link.ChunkStore.Disk.Trim
use baidu_disk_link.ChunkStore.Disk.Trim.{
  DiskCall, disk_run, disk_run-empty_disk-IsConsistent, put_disk-le-limit, load_disk_index-le-limit,
}
use baidu_disk_link.ChunkStore.Store.{Store, get_with_touch}

abbrev version : Bytes
version = b'v' ∷ []

abbrev first : ChunkKey
first = record { version = version; index = 0 }

abbrev second : ChunkKey
second = record { version = version; index = 1 }

abbrev calls : List MemoryCall
calls = Valid.put first (1 ∷ 2 ∷ []) ∷ Valid.put second (3 ∷ []) ∷ []

-- a cache with room for four bytes that holds three
abbrev two_chunks : Memory
two_chunks = record {
  limit = 4;
  bytes = 3;
  index = second ∷ first ∷ [];
  lru = (first, 1 ∷ 2 ∷ []) ∷ (second, 3 ∷ []) ∷ [];
}

run-calls : run calls (empty 4) ≡ two_chunks
unfolding run step put_memory write_chunk element evict_from move_to_back empty mem erase lookup
    without ChunkKey-discrete Bytes-discrete ℕ_discrete
run-calls = refl

two_chunks-IsValid : IsValid two_chunks
two_chunks-IsValid = rw run-calls at (run-empty-IsValid 4 calls)

run-empty-IsValid_example : IsValid (run calls (empty 4))
run-empty-IsValid_example = run-empty-IsValid 4 calls

put_memory-lru_example :
    (put_memory first (9 ∷ 9 ∷ 9 ∷ 9 ∷ []) two_chunks).lru
    ≡ shrink 4 (without ChunkKey-discrete first two_chunks.lru ++ (first, 9 ∷ 9 ∷ 9 ∷ 9 ∷ []) ∷ [])
put_memory-lru_example =
    put_memory-lru first (9 ∷ 9 ∷ 9 ∷ 9 ∷ []) two_chunks two_chunks-IsValid (omega arith)
      (omega arith)

found_second : (get_memory second true (put_memory first (5 ∷ []) two_chunks)).1 ≡ some (3 ∷ [])
unfolding put_memory get_memory write_chunk element evict_from move_to_back mem erase lookup without
    ChunkKey-discrete Bytes-discrete ℕ_discrete
found_second = refl

-- a file system on which all goes well
abbrev os : Os
os = record {
  join = λ folder name. folder ++ b'/' ∷ name;
  read_file = λ path. some (4 ∷ 4 ∷ []);
  create_temp = true;
  write_temp = true;
  close_temp = true;
  rename = λ path. true;
  remove = λ path. true;
}

abbrev disk_calls : List DiskCall
disk_calls = Trim.put os first (1 ∷ 2 ∷ []) ∷ Trim.put os second (3 ∷ []) ∷ Trim.touch first ∷ []

disk_run-empty_disk-IsConsistent_example :
    Disk.IsConsistent (disk_run disk_calls (empty_disk version 2))
disk_run-empty_disk-IsConsistent_example = disk_run-empty_disk-IsConsistent version 2 disk_calls

abbrev no_disk_calls : List DiskCall
no_disk_calls = []

abbrev new_disk : Disk
new_disk = record { folder = version; limit = 2; bytes = 0; ready = []; entries = []; lru = [] }

new_disk-IsConsistent : Disk.IsConsistent new_disk
unfolding disk_run empty_disk
new_disk-IsConsistent = disk_run-empty_disk-IsConsistent version 2 no_disk_calls

written : (put_disk os first (1 ∷ 2 ∷ []) new_disk).1 ≡ true
unfolding put_disk Disk.disabled Disk.trim_disk Disk.trim_from Disk.add_disk mem
written = refl

put_disk-le-limit_example : (put_disk os first (1 ∷ 2 ∷ []) new_disk).0.bytes ≤ 2
put_disk-le-limit_example =
    put_disk-le-limit os first (1 ∷ 2 ∷ []) new_disk new_disk-IsConsistent (omega arith) written

abbrev found_files : List FoundFile
found_files =
    record { name = b'v' ∷ b'-' ∷ b'0' ∷ b'.' ∷ b'c' ∷ b'h' ∷ b'u' ∷ b'n' ∷ b'k' ∷ []; size = 5 }
    ∷ []

loaded : (load_disk_index os found_files new_disk).1 ≡ true
unfolding load_disk_index Disk.trim_disk Disk.trim_from Disk.index_files parse_chunk_file_name
    Disk.add_disk mem
loaded = refl

abbrev store : Store
store = record { memory = two_chunks; disk = new_disk }

found_in_memory : (get_with_touch os second true store).1 ≡ some (3 ∷ [])
unfolding get_with_touch get_memory element mem lookup ChunkKey-discrete Bytes-discrete ℕ_discrete
found_in_memory = refl

abbrev dotted : ChunkKey
dotted = record { version = b'a' ∷ b'.' ∷ b'.' ∷ b'/' ∷ []; index = 12 }

parse_chunk_file_name-chunk_name_example :
    parse_chunk_file_name (chunk_name dotted)
    ≡ some (record { version = sanitize_version dotted.version; index = 12 })
unfolding sanitize_version
parse_chunk_file_name-chunk_name_example =
    parse_chunk_file_name-chunk_name dotted (λ e. cc) (omega arith)

abbrev movie : File
movie = record { fsid = b'7' ∷ []; size = 100; mtm = 5 }
