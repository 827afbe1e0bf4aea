-- ===== src/Filesystem/Deletion.antt =====
-- internal/fs/filesystem.go: what a deletion may touch.
use baidu_disk_link.Common.{
  ◌≡◌, ◌≢◌, inl, inr, Bool, true, false, some, List, [], ◌∷◌, arith, Option-cases,
}
use baidu_disk_link.ChunkStore.Types.{Bytes}
use baidu_disk_link.Filesystem.{
  Entry, Filesystem, slash, find_child, is_protected, delete_path, delete_target, delete_child,
}

-- The conditions under which an entry may be deleted by a name.
pub record MayDelete (fs : Filesystem) (children : List Entry) (name : Bytes) (want_dir : Bool)
    (target : Entry) : Type 0 where
  pub found : find_child name children ≡ some target
  pub named : target.name ≡ name
  pub kind : target.is_dir ≡ want_dir
  pub enabled : fs.enable_delete ≡ true
  pub some_path : target.path ≢ []
  pub not_root : target.path ≢ fs.root_path
  pub not_slash : target.path ≢ slash

find_child-name :
    (name : Bytes) (children : List Entry) (target : Entry)
    → find_child name children ≡ some target
    → target.name ≡ name
unfolding find_child
find_child-name name [] target e = absurd (cc)
find_child-name name (child ∷ children) target e =
    ground (arith, e, find_child-name name children target)

not_protected :
    (fs : Filesystem) (path : Bytes)
    → is_protected fs path ≡ false
    → (path ≢ []) × (path ≢ fs.root_path) × (path ≢ slash)
unfolding is_protected
not_protected fs path e = ground arith

delete_target-cases :
    (fs : Filesystem) (remote_ok metadata_ok want_dir : Bool) (target : Entry)
    → (delete_target fs remote_ok metadata_ok want_dir target).1 ≢ []
    → (target.is_dir ≡ want_dir)
      × (is_protected fs target.path ≡ false)
      × (delete_target fs remote_ok metadata_ok want_dir target
          ≡ delete_path remote_ok metadata_ok target.path)
unfolding delete_target
delete_target-cases fs remote_ok metadata_ok want_dir target h = ground arith

-- When the children could be listed, `deleteChild` calls something that deletes only if deletion is
-- enabled and the first child of the name is of the kind asked for and is neither without a path,
-- nor the root of the mount, nor `/`; and then its calls are about that child's path alone, and its
-- answer is that of the deletion of the path.
pub delete_child-MayDelete :
    (fs : Filesystem) (children : List Entry) (remote_ok metadata_ok : Bool) (name : Bytes)
    (want_dir : Bool)
    → (delete_child fs (some children) remote_ok metadata_ok name want_dir).1 ≢ []
    → (target : Entry) × MayDelete fs children name want_dir target
      × (delete_child fs (some children) remote_ok metadata_ok name want_dir
          ≡ delete_path remote_ok metadata_ok target.path)
unfolding delete_child
delete_child-MayDelete fs children remote_ok metadata_ok name want_dir h =
    elim (Option-cases (find_child name children)) [
      | inl missing ↦ absurd (ground (arith, h, missing))
      | inr (target, found) ↦
          let called : (delete_target fs remote_ok metadata_ok want_dir target).1 ≢ [] =
            ground (arith, h, found) in
          let same = delete_target-cases fs remote_ok metadata_ok want_dir target called in
          let open_path = not_protected fs target.path same.1 in
          (
            target,
            record {
              found = found;
              named = find_child-name name children target found;
              kind = same.0;
              enabled = ground (arith, h);
              some_path = open_path.0;
              not_root = open_path.1;
              not_slash = open_path.2;
            },
            ground (arith, h, found, same.2),
          )
    ]
