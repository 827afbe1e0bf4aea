-- ===== src/Filesystem/Attributes.antt =====
-- internal/fs/filesystem.go: the attributes of an entry. The bits of the kind and of the permissions do not overlap, so that
-- their sum is their union.
use baidu_disk_link.Common.{
  ℕ, zero, suc, ◌+◌, ◌-◌, ◌/◌, ◌%◌, ◌^◌, ◌≡◌, arith, ◌==◌, List, [], ◌∷◌, if◌then◌else◌,
}
use baidu_disk_link.Common.Decimal.{ℤ, pos, negsuc}
use baidu_disk_link.MetadataStore.{Entry}

-- what the mount has of groups
pub record Groups : Type 0 where
  pub primary_gid : ℕ
  pub gids : List ℕ

pub record Attributes : Type 0 where
  pub mode : ℕ
  pub gid : ℕ
  pub mtime : ℕ
  pub atime : ℕ
  pub ctime : ℕ
  pub size : ℕ
  pub blocks : ℕ

-- uint64
abbrev pub to_uint64 : ℤ → ℕ
to_uint64 (pos n) = n % 2 ^ 64
to_uint64 (negsuc n) = 2 ^ 64 - 1 - n % 2 ^ 64

-- syscall.S_IFDIR and syscall.S_IFREG
abbrev pub directory_kind : ℕ
directory_kind = 16384

abbrev pub regular_kind : ℕ
regular_kind = 32768

-- 0750 and 0755
abbrev pub dir_mode : Groups → ℕ
dir_mode g = elim g.gids [ [] ↦ 493 | gid ∷ gids ↦ 488 ]

-- 0640 and 0644
abbrev pub file_mode : Groups → ℕ
file_mode g = elim g.gids [ [] ↦ 420 | gid ∷ gids ↦ 416 ]

-- a time that is not known is that of the clock
abbrev pub inode_time : ℕ → ℤ → ℕ
inode_time now (negsuc n) = now
inode_time now (pos zero) = now
inode_time now (pos (suc n)) = suc n

abbrev pub blocks_of : ℕ → ℕ
blocks_of size = (size + 511) % 2 ^ 64 / 512

-- the first group that is not 0
unfoldable pub first_gid : List ℕ → ℕ
first_gid [] = 0
first_gid (gid ∷ gids) = if gid == 0 then first_gid gids else gid

-- the groups of `NewFilesystemWithStream`
unfoldable pub new_groups : List ℕ → Groups
unfolding first_gid
new_groups gids = record { primary_gid = first_gid gids; gids = gids }

-- Getattr of an entry's node
unfoldable pub get_attributes : Groups → ℕ → Entry → Attributes
get_attributes g now e =
    let time = inode_time now e.mtime in
    if e.is_dir
    then record {
      mode = directory_kind + dir_mode g;
      gid = g.primary_gid;
      mtime = time;
      atime = time;
      ctime = time;
      size = 0;
      blocks = 0;
    }
    else record {
      mode = regular_kind + file_mode g;
      gid = g.primary_gid;
      mtime = time;
      atime = time;
      ctime = time;
      size = to_uint64 e.size;
      blocks = blocks_of (to_uint64 e.size);
    }

-- fillEntryOut, which Lookup answers with
unfoldable pub fill_entry_out : Groups → ℕ → Entry → ℕ → Attributes
fill_entry_out g now e kind =
    let time = inode_time now e.mtime in
    let filled : Attributes = record {
      mode = kind + (if e.is_dir then dir_mode g else file_mode g);
      gid = g.primary_gid;
      mtime = time;
      atime = time;
      ctime = time;
      size = to_uint64 e.size;
      blocks = 0;
    } in
    if e.is_dir
    then record filled { size = 0 }
    else record filled { blocks = blocks_of (to_uint64 e.size) }

-- the kind that Lookup gives to an entry
abbrev pub kind_of : Entry → ℕ
kind_of e = if e.is_dir then directory_kind else regular_kind

-- The attributes that `Lookup` answers with are those that `Getattr` of the entry's node answers with at the same time.
pub fill_entry_out-get_attributes :
    (g : Groups) (now : ℕ) (e : Entry) → fill_entry_out g now e (kind_of e) ≡ get_attributes g now e
unfolding fill_entry_out get_attributes
fill_entry_out-get_attributes g now e = ground arith
