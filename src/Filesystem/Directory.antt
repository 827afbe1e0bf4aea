-- ===== src/Filesystem/Directory.antt =====
-- internal/fs/filesystem.go: the refresh of a directory from the remote side, `Readdir` and `Lookup`, on the metadata store and the
-- cache of missing paths. The remote listing, with its state passed on, is an argument; one call sees one time, in nanoseconds.
pub mod Refresh
pub mod Search
use baidu_disk_link.Common.{
  ℕ, zero, suc, ◌+◌, ◌*◌, ◌/◌, ◌^◌, ◌≡◌, Bool, true, false, not, ◌&&◌, ◌||◌, Option, none, some,
  List, [], ◌∷◌, ◌++◌, map, ◌==◌, if◌then◌else◌,
}
use baidu_disk_link.Common.Decimal.{ℤ, pos, negsuc}
use baidu_disk_link.Common.Text.{text, is_blank}
use baidu_disk_link.ChunkStore.Types.{Bytes}
use baidu_disk_link.NegativeCache.{NegativeCache, mark_missing, is_missing}
use baidu_disk_link.Remote.Errors.{Failure, Outcome, ok, err}
use baidu_disk_link.Baidu.Listing.{RemoteEntry}
use baidu_disk_link.MetadataStore.{
  Entry, Table, Store, StoreError, answer, refusal, same, replace_children, upsert_entry,
  get_by_path, list_children, sort_by_name,
}
use baidu_disk_link.Filesystem.{
  Filesystem, Errno, success, eio, enoent, seen_as, should_refresh, trim_root_prefix,
}
use baidu_disk_link.Filesystem.Paths.{join, base, join_path}

-- what the file system keeps besides its settings, and the state of the remote side
pub record State (W : Type 0) : Type 0 where
  pub store : Store
  pub negative : Option NegativeCache
  pub remote : W

pub data RefreshError : Type 0 where
  not_listed : Failure → RefreshError
  not_stored : StoreError → RefreshError

abbrev pub seconds : ℕ → ℕ
seconds now = now / 10 ^ 9

abbrev pub expiry : Filesystem → ℕ → ℤ
expiry fs now = pos (seconds (now + fs.ttl))

unfoldable pub child_expires_at : Filesystem → ℕ → Bool → ℤ
child_expires_at fs now is_dir = if is_dir then pos 0 else expiry fs now

unfoldable pub existing_mtime : Bytes → Store → ℤ
unfolding get_by_path
existing_mtime path s = elim (get_by_path path s) [
  | refusal e ↦ pos 0
  | answer found ↦ elim found [ none ↦ pos 0 | some e ↦ e.mtime ]
]

-- the row of a child
unfoldable pub child_row : Filesystem → ℕ → Bytes → Bytes → RemoteEntry → Entry
unfolding child_expires_at
child_row fs now parent path e = record {
  id = 0;
  fsid = e.fsid;
  parent = parent;
  path = path;
  name = e.server_name;
  size = e.size;
  is_dir = e.is_dir;
  mtime = e.server_mtime;
  md5 = e.md5;
  last_sync_at = pos (seconds now);
  expires_at = child_expires_at fs now e.is_dir;
  negative = false;
}

-- the path of a child of the root
unfoldable pub root_child_path : Bytes → RemoteEntry → Bytes
unfolding trim_root_prefix join
root_child_path root e =
    let trimmed = trim_root_prefix root e.path in
    let relative = if is_blank trimmed then e.server_name else trimmed in
    join root (elim relative [ [] ↦ [] | c ∷ s ↦ if c == b'/' then c ∷ s else b'/' ∷ c ∷ s ])

-- the row of the directory itself
unfoldable pub directory_row : Filesystem → ℕ → (fsid parent path name : Bytes) → ℤ → Entry
directory_row fs now fsid parent path name mtime = record {
  id = 0;
  fsid = fsid;
  parent = parent;
  path = path;
  name = name;
  size = pos 0;
  is_dir = true;
  mtime = mtime;
  md5 = [];
  last_sync_at = pos (seconds now);
  expires_at = expiry fs now;
  negative = false;
}

-- the parent that the store knows, or the root
unfoldable pub known_parent : Bytes → Store → Bytes
unfolding get_by_path
known_parent path s = elim (get_by_path path s) [
  | refusal e ↦ text "0"
  | answer found ↦ elim found [
    | none ↦ text "0"
    | some e ↦ if is_blank e.parent then text "0" else e.parent
  ]
]

-- ReplaceChildren, and then the row of the directory, which may depend on what is stored by then
unfoldable pub store_directory :
    (Table → ℕ) → Bytes → List Entry → (Store → Entry) → Store → Store × Option StoreError
unfolding replace_children upsert_entry
store_directory fresh fsid children itself s =
    let replaced = replace_children fresh fsid children s in
    elim replaced.1 [ some e ↦ replaced | none ↦ upsert_entry fresh (itself replaced.0) replaced.0 ]

unfoldable pub is_stale : Filesystem → ℕ → Bytes → Store → Bool
unfolding should_refresh get_by_path
is_stale fs now path s =
    should_refresh fs
      (λ asked. elim (get_by_path asked s) [
        | refusal e ↦ none
        | answer found ↦ elim found [
          | none ↦ none
          | some e ↦ some (seen_as e.path e.name e.is_dir e.expires_at)
        ]
      ])
      path (seconds now)

unfoldable pub find_named : Bytes → List Entry → Option Entry
find_named name [] = none
find_named name (child ∷ children) =
    if same child.name name then some child else find_named name children

-- dirEntries: the names and whether they are directories, sorted
unfoldable pub dir_entries : List Entry → List (Bytes × Bool)
unfolding sort_by_name
dir_entries children = map (λ e. (e.name, e.is_dir)) (sort_by_name children)

module _ {W : Type 0} (fresh : Table → ℕ)
    (list_remote : W → Bytes → W × Outcome (List RemoteEntry)) where
  -- `refreshRoot` and `refreshDir`, which differ in the rows that they write
  unfoldable pub refresh :
      Filesystem
      → (path fsid : Bytes) → (RemoteEntry → Entry)
      → (Store → Entry)
      → State W
      → State W × Option RefreshError
  unfolding store_directory
  refresh fs path fsid row itself s =
      let listed = list_remote s.remote path in
      if not fs.has_store || not fs.has_remote then (s, none) else elim listed.1 [
        | err e ↦ (record s { remote = listed.0 }, some (not_listed e))
        | ok entries ↦
            let stored = store_directory fresh fsid (map row entries) itself s.store in
            (
              record s { remote = listed.0; store = stored.0 },
              elim stored.1 [ none ↦ none | some e ↦ some (not_stored e) ],
            )
      ]

  unfoldable pub refresh_root : Filesystem → ℕ → State W → State W × Option RefreshError
  unfolding refresh child_row root_child_path directory_row existing_mtime
  refresh_root fs now =
      refresh fs fs.root_path (text "0")
        (λ e. child_row fs now (text "0") (root_child_path fs.root_path e) e)
        (λ s. directory_row fs now (text "0") [] fs.root_path [] (existing_mtime fs.root_path s))

  unfoldable pub refresh_dir :
      Filesystem → ℕ → (path fsid : Bytes) → State W → State W × Option RefreshError
  unfolding refresh child_row directory_row existing_mtime known_parent base
  refresh_dir fs now path fsid =
      refresh fs path fsid (λ e. child_row fs now fsid e.path e)
        (λ s.
          directory_row fs now fsid (known_parent path s) path (base path) (existing_mtime path s))

  -- the children of a path, after a refresh where it is needed; none where there is an error
  unfoldable pub children_of :
      (State W → State W × Option RefreshError)
      → Bool
      → Bytes
      → State W
      → State W × Option (List Entry)
  unfolding list_children
  children_of again stale path s =
      let after = again s in
      elim (list_children path s.store) [
        | refusal e ↦ (s, none)
        | answer children ↦ if not stale then (s, some children) else elim after.1 [
          | some e ↦ (after.0, none)
          | none ↦ elim (list_children path after.0.store) [
            | refusal e ↦ (after.0, none)
            | answer now ↦ (after.0, some now)
          ]
        ]
      ]

  unfoldable pub readdir_of :
      Filesystem
      → (State W → State W × Option RefreshError)
      → Bool
      → Bytes
      → State W
      → State W × (Errno × List (Bytes × Bool))
  unfolding children_of dir_entries
  readdir_of fs again stale path s =
      let listed = children_of again stale path s in
      if not fs.has_store then (s, (success, [])) else elim listed.1 [
        | none ↦ (listed.0, (eio, []))
        | some children ↦ (listed.0, (success, dir_entries children))
      ]

  -- markMissing, which makes the cache where there is none
  unfoldable pub mark : Bytes → ℕ → State W → State W
  unfolding mark_missing
  mark path now s = record s {
    negative = some (
        mark_missing path now (elim s.negative [
          | some cache ↦ cache
          | none ↦ record { ttl = 30 * 10 ^ 9; entries = [] }
        ]));
  }

  -- whether the path is known to be missing; the cache forgets a path that has been there too long
  unfoldable pub known_missing : Bytes → ℕ → State W → State W × Bool
  unfolding is_missing
  known_missing path now s = elim s.negative [
    | none ↦ (s, false)
    | some cache ↦
        (record s { negative = some (is_missing path now cache).0 }, (is_missing path now cache).1)
  ]

  unfoldable pub search :
      Bytes → Bytes → ℕ → State W → List Entry → State W × (Errno × Option Entry)
  unfolding find_named mark
  search name path now s children = elim (find_named name children) [
    | some child ↦ (s, (success, some child))
    | none ↦ (mark path now s, (enoent, none))
  ]

  unfoldable pub lookup_of :
      Filesystem
      → (State W → State W × Option RefreshError)
      → (State W → Bool)
      → ℕ
      → (path name : Bytes) → State W
      → State W × (Errno × Option Entry)
  unfolding known_missing children_of search join_path
  lookup_of fs again stale now path name s =
      let asked = known_missing (join_path path name) now s in
      let listed = children_of again (stale asked.0) path asked.0 in
      if not fs.has_store
      then (s, (enoent, none))
      else if asked.1
      then (asked.0, (enoent, none))
      else elim listed.1 [
        | none ↦ (listed.0, (eio, none))
        | some children ↦ search name (join_path path name) now listed.0 children
      ]

  -- Readdir and Lookup of the root
  unfoldable pub readdir_root : Filesystem → ℕ → State W → State W × (Errno × List (Bytes × Bool))
  unfolding readdir_of refresh_root is_stale
  readdir_root fs now s =
      readdir_of fs (refresh_root fs now) (is_stale fs now fs.root_path s.store) fs.root_path s

  unfoldable pub lookup_root : Filesystem → ℕ → Bytes → State W → State W × (Errno × Option Entry)
  unfolding lookup_of refresh_root is_stale
  lookup_root fs now name s =
      lookup_of fs (refresh_root fs now) (λ t. is_stale fs now fs.root_path t.store) now
        fs.root_path name s

  -- Readdir and Lookup of an entry's node
  unfoldable pub readdir_dir :
      Filesystem → ℕ → Entry → State W → State W × (Errno × List (Bytes × Bool))
  unfolding readdir_of refresh_dir is_stale
  readdir_dir fs now e s =
      readdir_of fs (refresh_dir fs now e.path e.fsid)
        (is_stale fs now e.path s.store && (fs.has_remote && e.is_dir)) e.path s

  unfoldable pub lookup_dir :
      Filesystem → ℕ → Entry → Bytes → State W → State W × (Errno × Option Entry)
  unfolding lookup_of refresh_dir is_stale
  lookup_dir fs now e name s =
      lookup_of fs (refresh_dir fs now e.path e.fsid)
        (λ t. is_stale fs now e.path t.store && (fs.has_remote && e.is_dir)) now e.path name s
