-- ===== src/Filesystem/Directory/Refresh.antt =====
-- internal/fs/filesystem.go: what a refresh leaves in the metadata store.
use baidu_disk_link.Common.{
  ℕ, ◌+◌, ◌/◌, ◌^◌, ◌≡◌, refl, ap, ◌∙◌, true, false, Option, none, some, List, [], ◌∷◌, map, inl,
  inr, arith, if◌then◌else◌, Option-cases,
}
use baidu_disk_link.Common.Decimal.{pos}
use baidu_disk_link.Common.Text.{text, is_blank}
use baidu_disk_link.ChunkStore.Types.{Bytes}
use baidu_disk_link.Remote.Errors.{Failure, Outcome, ok, err}
use baidu_disk_link.Baidu.Listing.{RemoteEntry}
use baidu_disk_link.MetadataStore.{
  Entry, Table, Store, opened, same, upsert_rows, without_children, replace_children, upsert_entry,
  get_by_path, find_row,
}
use baidu_disk_link.MetadataStore.Lookup.{
  view, DistinctPaths, view-upsert, view-upsert_rows, view-without_children, write, write_all,
  forget, keep, strip, find-none, find-some,
}
use baidu_disk_link.MetadataStore.Run.{view_store}
use baidu_disk_link.Filesystem.{Filesystem}
use baidu_disk_link.Filesystem.Paths.{base}
use baidu_disk_link.Filesystem.Directory.{
  State, not_listed, store_directory, refresh, refresh_dir, refresh_root, child_row,
  child_expires_at, root_child_path, directory_row, known_parent, existing_mtime,
}

store_directory-view :
    (fresh : Table → ℕ) (fsid : Bytes) (children : List Entry) (itself : Store → Entry)
    (rows : Table)
    → DistinctPaths rows
    → ((store_directory fresh fsid children itself (opened rows)).1 ≡ none)
      × ((path : Bytes)
          → view_store (store_directory fresh fsid children itself (opened rows)).0 path
            ≡ write
                (itself (opened (upsert_rows fresh children (without_children fsid rows))))
                (write_all children (forget (λ e. same e.parent fsid) (view rows)))
                path)
unfolding store_directory replace_children upsert_entry view_store write forget
store_directory-view fresh fsid children itself rows d =
    let replaced = upsert_rows fresh children (without_children fsid rows) in
    let row = itself (opened replaced) in
    (
      refl,
      λ path.
          view-upsert fresh row replaced path
          ∙ ap (λ x. if same row.path path then some (strip row) else x)
              (view-upsert_rows fresh children (without_children fsid rows)
                (forget (λ e. same e.parent fsid) (view rows))
                (λ p. view-without_children fsid rows p d) path),
    )

-- the last entry of a listing that has a path
unfoldable pub last_listed : (RemoteEntry → Bytes) → Bytes → List RemoteEntry → Option RemoteEntry
last_listed place other [] = none
last_listed place other (e ∷ entries) = elim (last_listed place other entries) [
  | some later ↦ some later
  | none ↦ if same (place e) other then some e else none
]

write_all-map :
    (row : RemoteEntry → Entry) (place : RemoteEntry → Bytes) (entries : List RemoteEntry)
    (m : Bytes → Option Entry) (other : Bytes)
    → ((e : RemoteEntry) → (row e).path ≡ place e)
    → write_all (map row entries) m other
      ≡ elim (last_listed place other entries) [ some e ↦ some (strip (row e)) | none ↦ m other ]
unfolding write_all write last_listed
write_all-map row place [] m other at = refl
write_all-map row place (e ∷ entries) m other at =
    write_all-map row place entries (write (row e) m) other at
    ∙ (elim (Option-cases (last_listed place other entries)) [
      | inl last ↦ ground (arith, last, at e)
      | inr (later, found) ↦ ground (arith, found)
    ])

-- the columns that a listing gives a path: those of the last entry with the path, or those that it had if they were not those of
-- a child of the directory
unfoldable pub shown :
    Filesystem → ℕ → Table → Bytes → (RemoteEntry → Bytes) → List RemoteEntry → Bytes → Option Entry
unfolding last_listed view
shown fs now rows fsid place entries other = elim (last_listed place other entries) [
  | some e ↦ some (record {
    id = 0;
    fsid = e.fsid;
    parent = fsid;
    path = place e;
    name = e.server_name;
    size = e.size;
    is_dir = e.is_dir;
    mtime = e.server_mtime;
    md5 = e.md5;
    last_sync_at = pos (now / 10 ^ 9);
    expires_at = if e.is_dir then pos 0 else pos ((now + fs.ttl) / 10 ^ 9);
    negative = false;
  })
  | none ↦ elim (view rows other) [
    | none ↦ none
    | some e ↦ if same e.parent fsid then none else some e
  ]
]

-- the same with the row of the directory itself, whose parent and time are what the store knew of them
unfoldable pub expected :
    Filesystem
    → ℕ
    → Table
    → (path fsid name : Bytes) → (Option Entry → Bytes)
    → (RemoteEntry → Bytes)
    → List RemoteEntry
    → Bytes
    → Option Entry
unfolding shown
expected fs now rows path fsid name parent place entries other =
    let before = shown fs now rows fsid place entries in
    if same path other
    then some (record {
      id = 0;
      fsid = fsid;
      parent = parent (before path);
      path = path;
      name = name;
      size = pos 0;
      is_dir = true;
      mtime = elim (before path) [ none ↦ pos 0 | some e ↦ e.mtime ];
      md5 = [];
      last_sync_at = pos (now / 10 ^ 9);
      expires_at = pos ((now + fs.ttl) / 10 ^ 9);
      negative = false;
    })
    else before other

-- the parent that is known, or the root
abbrev pub parent_of : Option Entry → Bytes
parent_of none = text "0"
parent_of (some e) = if is_blank e.parent then text "0" else e.parent

-- the root has no parent
abbrev pub no_parent : Option Entry → Bytes
no_parent known = []

known_parent-view :
    (path : Bytes) (rows : Table) → known_parent path (opened rows) ≡ parent_of (view rows path)
unfolding known_parent get_by_path
known_parent-view path rows = elim (Option-cases (find_row path rows)) [
  | inl absent ↦ let gone = find-none path rows absent in ground (arith, absent, gone)
  | inr (row, found) ↦ let there = find-some path rows row found in ground (arith, found, there)
]

existing_mtime-view :
    (path : Bytes) (rows : Table)
    → existing_mtime path (opened rows) ≡ elim (view rows path) [ none ↦ pos 0 | some e ↦ e.mtime ]
unfolding existing_mtime get_by_path
existing_mtime-view path rows = elim (Option-cases (find_row path rows)) [
  | inl absent ↦ let gone = find-none path rows absent in ground (arith, absent, gone)
  | inr (row, found) ↦ let there = find-some path rows row found in ground (arith, found, there)
]

module _ {W : Type 0} (fresh : Table → ℕ)
    (list_remote : W → Bytes → W × Outcome (List RemoteEntry)) where
  -- what a refresh leaves, in terms of the rows that it writes
  refresh-view :
      (fs : Filesystem) (path fsid : Bytes) (row : RemoteEntry → Entry) (itself : Store → Entry)
      (s : State W) (rows : Table) (entries : List RemoteEntry)
      → fs.has_store ≡ true
      → fs.has_remote ≡ true
      → s.store ≡ opened rows
      → DistinctPaths rows
      → (list_remote s.remote path).1 ≡ ok entries
      → ((refresh fresh list_remote fs path fsid row itself s).1 ≡ none)
        × ((other : Bytes)
            → view_store (refresh fresh list_remote fs path fsid row itself s).0.store other
              ≡ write
                  (itself
                    (opened (upsert_rows fresh (map row entries) (without_children fsid rows))))
                  (write_all (map row entries) (forget (λ e. same e.parent fsid) (view rows)))
                  other)
  unfolding refresh
  refresh-view fs path fsid row itself s rows entries here there open_store d listed =
      let stored = store_directory-view fresh fsid (map row entries) itself rows d in
      let done : (store_directory fresh fsid (map row entries) itself s.store).1 ≡ none =
        ap (λ t. (store_directory fresh fsid (map row entries) itself t).1) open_store ∙ stored.0 in
      (
        rw (here, there, listed, refresh) (ground (arith, done)),
        λ other.
            rw (here, there, listed, refresh)
              (ap (λ t. view_store (store_directory fresh fsid (map row entries) itself t).0 other)
                  open_store
                ∙ stored.1 other),
      )

  -- the columns after a refresh whose rows are those of a listing and of the directory
  refresh-expected :
      (fs : Filesystem) (now : ℕ) (path fsid name : Bytes) (parent : Option Entry → Bytes)
      (place : RemoteEntry → Bytes) (up : Store → Bytes) (s : State W) (rows : Table)
      (entries : List RemoteEntry)
      → ((rows : Table) → up (opened rows) ≡ parent (view rows path))
      → fs.has_store ≡ true
      → fs.has_remote ≡ true
      → s.store ≡ opened rows
      → DistinctPaths rows
      → (list_remote s.remote path).1 ≡ ok entries
      → let refreshed =
          refresh fresh list_remote fs path fsid
            (λ e. child_row fs now fsid (place e) e)
            (λ t. directory_row fs now fsid (up t) path name (existing_mtime path t))
            s in
        (refreshed.1 ≡ none)
        × ((other : Bytes)
            → view_store refreshed.0.store other
              ≡ expected fs now rows path fsid name parent place entries other)
  unfolding expected shown child_row child_expires_at directory_row write forget keep
  refresh-expected fs now path fsid name parent place up s rows entries knows here there open_store
        d listed =
      let row : RemoteEntry → Entry = λ e. child_row fs now fsid (place e) e in
      let itself : Store → Entry =
        λ t. directory_row fs now fsid (up t) path name (existing_mtime path t) in
      let done =
        refresh-view fs path fsid row itself s rows entries here there open_store d listed in
      let replaced = upsert_rows fresh (map row entries) (without_children fsid rows) in
      let listing : (other : Bytes)
          → write_all (map row entries) (forget (λ e. same e.parent fsid) (view rows)) other
            ≡ shown fs now rows fsid place entries other =
        λ other.
          write_all-map row place entries (forget (λ e. same e.parent fsid) (view rows)) other
            (λ e. refl) in
      let known : view replaced path ≡ shown fs now rows fsid place entries path =
        view-upsert_rows fresh (map row entries) (without_children fsid rows)
          (forget (λ e. same e.parent fsid) (view rows)) (λ p. view-without_children fsid rows p d)
          path
        ∙ listing path in
      let own_parent = knows replaced ∙ ap parent known in
      let own_mtime =
        existing_mtime-view path replaced
        ∙ ap (λ x. elim x [ none ↦ pos 0 | some e ↦ e.mtime ]) known in
      (
        done.0,
        λ other.
            done.1 other
            ∙ ap (λ x. if same path other then some (strip (itself (opened replaced))) else x)
                (listing other)
            ∙ ap
                (λ x.
                  if same path other
                  then some (
                      strip (
                        directory_row fs now fsid x path name
                          (existing_mtime path (opened replaced))))
                  else shown fs now rows fsid place entries other)
                own_parent
            ∙ ap
                (λ x.
                  if same path other
                  then some (
                      strip (
                        directory_row fs now fsid
                          (parent (shown fs now rows fsid place entries path)) path name x))
                  else shown fs now rows fsid place entries other)
                own_mtime,
      )

  -- A refresh makes the store say what the remote side lists. After `refreshDir` each path of the listing has the columns of its
  -- last entry there, with the directory as its parent and a time to live unless it is a directory; the children that the
  -- directory had and that are not listed are forgotten; the directory has its own row, under the parent that the store
  -- knows or else the root; and every other path has the columns that it had. The same holds of `refreshRoot`, where the
  -- paths are put together from the root's path and what the listing says, and the root has no parent. The remote side
  -- lists the directory and the root, there is a database, and no path has two rows.
  pub refresh-shows :
      (fs : Filesystem) (now : ℕ) (path fsid : Bytes) (s : State W) (rows : Table)
      (entries root_entries : List RemoteEntry)
      → fs.has_store ≡ true
      → fs.has_remote ≡ true
      → s.store ≡ opened rows
      → DistinctPaths rows
      → (list_remote s.remote path).1 ≡ ok entries
      → (list_remote s.remote fs.root_path).1 ≡ ok root_entries
      → ((refresh_dir fresh list_remote fs now path fsid s).1 ≡ none)
        × ((other : Bytes)
            → view_store (refresh_dir fresh list_remote fs now path fsid s).0.store other
              ≡ expected fs now rows path fsid (base path) parent_of (λ e. e.path) entries other)
        × ((refresh_root fresh list_remote fs now s).1 ≡ none)
        × ((other : Bytes)
            → view_store (refresh_root fresh list_remote fs now s).0.store other
              ≡ expected fs now rows fs.root_path
                  (text "0")
                  []
                  no_parent
                  (root_child_path fs.root_path)
                  root_entries
                  other)
  unfolding refresh_dir refresh_root
  refresh-shows fs now path fsid s rows entries root_entries here there open_store d listed
        root_listed =
      let dir =
        refresh-expected fs now path fsid (base path) parent_of (λ e. e.path) (known_parent path) s
          rows entries (known_parent-view path) here there open_store d listed in
      let whole =
        refresh-expected fs now fs.root_path (text "0") [] no_parent (root_child_path fs.root_path)
          (λ t. []) s rows root_entries (λ t. refl) here there open_store d root_listed in
      (dir.0, dir.1, whole.0, whole.1)

  -- A refresh that the remote side fails leaves the store as it was, and says so.
  pub refresh-failed :
      (fs : Filesystem) (path fsid : Bytes) (row : RemoteEntry → Entry) (itself : Store → Entry)
      (s : State W) (e : Failure)
      → fs.has_store ≡ true
      → fs.has_remote ≡ true
      → (list_remote s.remote path).1 ≡ err e
      → ((refresh fresh list_remote fs path fsid row itself s).1 ≡ some (not_listed e))
        × ((refresh fresh list_remote fs path fsid row itself s).0.store ≡ s.store)
  unfolding refresh
  refresh-failed fs path fsid row itself s e here there failed = ground (arith, here, there, failed)
