-- ===== src/Filesystem.antt =====
-- internal/fs/filesystem.go: the deletion of an entry of a directory, and when a listing is refreshed.
-- What the metadata store and the remote side answer are arguments; what is called is in the result.
pub mod Deletion
pub mod Paths
pub mod Attributes
pub mod Directory
use baidu_disk_link.Common.{
  ℕ, ◌≤◌, ◌≡◌, ite, Bool, true, false, not, ◌&&◌, ◌||◌, Option, none, some, List, [], ◌∷◌, ◌++◌,
  leb, ◌==◌, if◌then◌else◌,
}
use baidu_disk_link.Common.Decimal.{ℤ, pos, negsuc}
use baidu_disk_link.ChunkStore.Types.{Bytes, Bytes-discrete}

-- The fields of store.Entry that are read here.
pub record Entry : Type 0 where
  pub path : Bytes
  pub name : Bytes
  pub is_dir : Bool
  pub expires_at : ℕ

-- an entry of the store; a time before 1970 is over, as 0 is
abbrev pub seen_as : (path name : Bytes) → Bool → ℤ → Entry
seen_as path name is_dir (pos n) = record {
  path = path;
  name = name;
  is_dir = is_dir;
  expires_at = n;
}
seen_as path name is_dir (negsuc n) = record {
  path = path;
  name = name;
  is_dir = is_dir;
  expires_at = 0;
}

pub record Filesystem : Type 0 where
  pub has_store : Bool
  pub has_remote : Bool
  pub enable_delete : Bool
  pub root_path : Bytes
  pub ttl : ℕ

pub data Errno : Type 0 where
  success eio erofs enoent enotdir eisdir eperm : Errno

-- A call with an effect: `remote.Delete`, `store.DeletePath`, `markMissing`.
pub data Effect : Type 0 where
  delete_remote delete_metadata mark_missing : Bytes → Effect

abbrev pub slash : Bytes
slash = 47 ∷ []

-- the loop over the children
unfoldable pub find_child : Bytes → List Entry → Option Entry
find_child name [] = none
find_child name (child ∷ children) =
    ite (Bytes-discrete child.name name) (some child) (find_child name children)

abbrev pub is_text : Bytes → Bytes → Bool
is_text a b = ite (Bytes-discrete a b) true false

unfoldable pub is_protected : Filesystem → Bytes → Bool
is_protected fs path = is_text path [] || (is_text path fs.root_path || is_text path slash)

-- the end of `deleteChild`: whether the remote side and the metadata store succeed is given
unfoldable pub delete_path : Bool → Bool → Bytes → Errno × List Effect
delete_path remote_ok metadata_ok path =
    if not remote_ok
    then (eio, delete_remote path ∷ [])
    else if not metadata_ok
    then (eio, delete_remote path ∷ delete_metadata path ∷ [])
    else (success, delete_remote path ∷ delete_metadata path ∷ mark_missing path ∷ [])

unfoldable pub delete_target : Filesystem → Bool → Bool → Bool → Entry → Errno × List Effect
unfolding is_protected delete_path
delete_target fs remote_ok metadata_ok want_dir target =
    if want_dir && not target.is_dir
    then (enotdir, [])
    else if not want_dir && target.is_dir
    then (eisdir, [])
    else if is_protected fs target.path
    then (eperm, [])
    else delete_path remote_ok metadata_ok target.path

-- deleteChild; `listed` is what ListChildren answers, none for an error
unfoldable pub delete_child :
    Filesystem → Option (List Entry) → Bool → Bool → Bytes → Bool → Errno × List Effect
unfolding find_child delete_target
delete_child fs listed remote_ok metadata_ok name want_dir =
    if not fs.has_store || not fs.has_remote
    then (eio, [])
    else if not fs.enable_delete
    then (erofs, [])
    else elim listed [
      | none ↦ (eio, [])
      | some children ↦ elim (find_child name children) [
        | none ↦ (enoent, [])
        | some target ↦ delete_target fs remote_ok metadata_ok want_dir target
      ]
    ]

-- shouldRefresh; `get` is GetByPath, none for an error or a missing entry
unfoldable pub should_refresh : Filesystem → (Bytes → Option Entry) → Bytes → ℕ → Bool
should_refresh fs get path now =
    let asked = if is_text path [] then fs.root_path else path in
    if not fs.has_remote then false else if fs.ttl == 0 then true else elim (get asked) [
      | none ↦ true
      | some current ↦ current.expires_at == 0 || leb current.expires_at now
    ]

unfoldable pub has_prefix : Bytes → Bytes → Option Bytes
has_prefix [] text = some text
has_prefix (c ∷ word) [] = none
has_prefix (c ∷ word) (d ∷ text) = if c == d then has_prefix word text else none

-- trimRootPrefix; what follows the root and a slash keeps the slash
unfoldable pub trim_root_prefix : Bytes → Bytes → Bytes
unfolding has_prefix
trim_root_prefix root full =
    if is_text root [] || is_text root slash
    then full
    else if is_text full root
    then []
    else elim (has_prefix (root ++ slash) full) [ none ↦ full | some rest ↦ 47 ∷ rest ]
