-- ===== src/MetadataStore.antt =====
-- internal/store/store.go: the table of the entries, which SQLite keeps. A database that is there answers every
-- statement; the id that it gives to a new row is an argument.
pub mod Like
pub mod Lookup
pub mod Valid
pub mod Deletion
pub mod Order
pub mod Run
use baidu_disk_link.Common.{
  ℕ, ◌+◌, ◌*◌, ◌≡◌, ite, Bool, true, false, not, ◌&&◌, ◌||◌, Option, none, some, List, [], ◌∷◌,
  ◌++◌, ltb, leb, ◌==◌, if◌then◌else◌, map,
}
use baidu_disk_link.Common.Decimal.{ℤ, pos}
use baidu_disk_link.Common.Text.{text, is_blank}
use baidu_disk_link.ChunkStore.Types.{Bytes, Bytes-discrete}
use baidu_disk_link.MetadataStore.Like.{is_like, trim_slashes}

-- a row of the table `entries`; the columns that hold 0 or 1 are tests
pub record Entry : Type 0 where
  pub id : ℕ
  pub fsid : Bytes
  pub parent : Bytes
  pub path : Bytes
  pub name : Bytes
  pub size : ℤ
  pub is_dir : Bool
  pub mtime : ℤ
  pub md5 : Bytes
  pub last_sync_at : ℤ
  pub expires_at : ℤ
  pub negative : Bool

abbrev pub Table : Type 0
Table = List Entry

-- no store, a store without a database, or the rows of the database
pub data Store : Type 0 where
  nil_store no_db : Store
  opened : Table → Store

pub data StoreError : Type 0 where
  store_is_nil db_is_required refuse_to_delete_root : StoreError

abbrev pub same : Bytes → Bytes → Bool
same a b = ite (Bytes-discrete a b) true false

-- a byte at a time, as SQLite and Go compare texts
unfoldable pub text_leb : Bytes → Bytes → Bool
text_leb [] b = true
text_leb (c ∷ a) [] = false
text_leb (c ∷ a) (d ∷ b) = ltb c d || (c == d && text_leb a b)

-- where path = ?
unfoldable pub find_row : Bytes → Table → Option Entry
find_row path [] = none
find_row path (e ∷ rows) = if same e.path path then some e else find_row path rows

-- on conflict(path) do update: every column but the id, and but the path, which is the same
unfoldable pub update_row : Entry → Table → Table
update_row e [] = []
update_row e (row ∷ rows) =
    (if same row.path e.path then record e { id = row.id } else row) ∷ update_row e rows

-- delete from entries where parent_fsid = ?
unfoldable pub without_children : Bytes → Table → Table
without_children parent [] = []
without_children parent (e ∷ rows) =
    if same e.parent parent then without_children parent rows else e ∷ without_children parent rows

-- an entry without a parent gets that of the call
abbrev pub with_parent : Bytes → Entry → Entry
with_parent parent e = if is_blank e.parent then record e { parent = parent } else e

module _ (fresh : Table → ℕ) where
  -- the statement `upsertEntrySQL`
  unfoldable pub upsert_row : Entry → Table → Table
  unfolding find_row update_row
  upsert_row e rows = elim (find_row e.path rows) [
    | some row ↦ update_row e rows
    | none ↦ rows ++ record e { id = fresh rows } ∷ []
  ]

  -- the loop over the entries, in one transaction
  unfoldable pub upsert_rows : List Entry → Table → Table
  unfolding upsert_row
  upsert_rows [] rows = rows
  upsert_rows (e ∷ entries) rows = upsert_rows entries (upsert_row e rows)

  unfoldable pub upsert_entry : Entry → Store → Store × Option StoreError
  unfolding upsert_row
  upsert_entry e nil_store = (nil_store, some store_is_nil)
  upsert_entry e no_db = (no_db, some db_is_required)
  upsert_entry e (opened rows) = (opened (upsert_row e rows), none)

  unfoldable pub upsert_entries : List Entry → Store → Store × Option StoreError
  unfolding upsert_rows
  upsert_entries entries nil_store = (nil_store, some db_is_required)
  upsert_entries entries no_db = (no_db, some db_is_required)
  upsert_entries entries (opened rows) = (opened (upsert_rows entries rows), none)

  unfoldable pub upsert_from_remote : Bytes → List Entry → Store → Store × Option StoreError
  unfolding upsert_entries
  upsert_from_remote parent entries s = upsert_entries (map (with_parent parent) entries) s

  abbrev pub root_row : ℤ → ℤ → Table → Entry
  root_row now tomorrow rows = record {
    id = fresh rows;
    fsid = text "0";
    parent = [];
    path = text "/";
    name = [];
    size = pos 0;
    is_dir = true;
    mtime = pos 0;
    md5 = [];
    last_sync_at = now;
    expires_at = tomorrow;
    negative = false;
  }

  -- EnsureRoot: on conflict(path) do nothing
  unfoldable pub ensure_root : ℤ → ℤ → Store → Store × Option StoreError
  unfolding find_row
  ensure_root now tomorrow nil_store = (nil_store, some store_is_nil)
  ensure_root now tomorrow no_db = (no_db, some db_is_required)
  ensure_root now tomorrow (opened rows) = elim (find_row (text "/") rows) [
    | some row ↦ (opened rows, none)
    | none ↦ (opened (rows ++ root_row now tomorrow rows ∷ []), none)
  ]

  unfoldable pub replace_children : Bytes → List Entry → Store → Store × Option StoreError
  unfolding without_children upsert_rows
  replace_children parent entries nil_store = (nil_store, some db_is_required)
  replace_children parent entries no_db = (no_db, some db_is_required)
  replace_children parent entries (opened rows) =
      (opened (upsert_rows entries (without_children parent rows)), none)

-- update entries set expires_at = 0 where path = ?
unfoldable pub expire_row : Bytes → Table → Table
expire_row path [] = []
expire_row path (e ∷ rows) =
    (if same e.path path then record e { expires_at = pos 0 } else e) ∷ expire_row path rows

unfoldable pub expire_path : Bytes → Store → Store × Option StoreError
unfolding expire_row
expire_path path nil_store = (nil_store, some store_is_nil)
expire_path path no_db = (no_db, some db_is_required)
expire_path path (opened rows) = (opened (expire_row path rows), none)

-- where path = ? or path like ?
unfoldable pub is_below : Bytes → Bytes → Bool
unfolding is_like trim_slashes
is_below path other = same other path || is_like (trim_slashes path ++ text "/%") other

unfoldable pub delete_rows : Bytes → Table → Table
unfolding is_below
delete_rows path [] = []
delete_rows path (e ∷ rows) =
    if is_below path e.path then delete_rows path rows else e ∷ delete_rows path rows

unfoldable pub delete_path : Bytes → Store → Store × Option StoreError
unfolding delete_rows
delete_path path nil_store = (nil_store, some store_is_nil)
delete_path path no_db = (no_db, some db_is_required)
delete_path path (opened rows) =
    if is_blank path || same path (text "/")
    then (opened rows, some refuse_to_delete_root)
    else (opened (delete_rows path rows), none)

-- where parent_fsid = ?
unfoldable pub rows_of_parent : Bytes → Table → Table
rows_of_parent parent [] = []
rows_of_parent parent (e ∷ rows) =
    if same e.parent parent then e ∷ rows_of_parent parent rows else rows_of_parent parent rows

unfoldable pub insert_by_name : Entry → Table → Table
unfolding text_leb
insert_by_name e [] = e ∷ []
insert_by_name e (f ∷ rows) =
    if text_leb e.name f.name then e ∷ f ∷ rows else f ∷ insert_by_name e rows

-- order by name asc, and `Sorted`; rows of one name stay in the order that they have
unfoldable pub sort_by_name : Table → Table
unfolding insert_by_name
sort_by_name [] = []
sort_by_name (e ∷ rows) = insert_by_name e (sort_by_name rows)

-- an answer or an error
pub data Answer {ℓ} (A : Type ℓ) : Type ℓ where
  answer : A → Answer A
  refusal : StoreError → Answer A

unfoldable pub get_by_path : Bytes → Store → Answer (Option Entry)
unfolding find_row
get_by_path path nil_store = refusal store_is_nil
get_by_path path no_db = refusal db_is_required
get_by_path path (opened rows) = answer (find_row path rows)

unfoldable pub get_children_by_parent : Bytes → Store → Answer (List Entry)
unfolding rows_of_parent sort_by_name
get_children_by_parent parent nil_store = refusal store_is_nil
get_children_by_parent parent no_db = refusal db_is_required
get_children_by_parent parent (opened rows) = answer (sort_by_name (rows_of_parent parent rows))

unfoldable pub list_children : Bytes → Store → Answer (List Entry)
unfolding find_row rows_of_parent sort_by_name
list_children path nil_store = refusal store_is_nil
list_children path no_db = refusal db_is_required
list_children path (opened rows) =
    if same path (text "/")
    then answer (sort_by_name (rows_of_parent (text "0") rows))
    else elim (find_row path rows) [
      | none ↦ answer []
      | some parent ↦ answer (sort_by_name (rows_of_parent parent.fsid rows))
    ]
