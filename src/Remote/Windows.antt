-- ===== src/Remote/Windows.antt =====
-- internal/remote/remote.go: the cache of downloaded windows. `cacheByFSID` groups the keys of
-- `cached` by file and is not kept apart; the order in which a range over one of its buckets comes
-- to the keys is an argument of the reading.
pub mod Valid
pub mod Truth
use baidu_disk_link.Common.{
  ℕ, ◌+◌, ◌-◌, ◌≡◌, ◌≤◌, ite, Bool, true, false, not, ◌&&◌, ◌||◌, Option, none, some, List, [], ◌∷◌,
  ◌++◌, length, ltb, leb, ◌==◌, if◌then◌else◌, ℕ_discrete,
}
use baidu_disk_link.Common.Maps.{mem, has, lookup, without, insert}
use baidu_disk_link.Common.Decimal.{ℤ, pos, negsuc}
use baidu_disk_link.Common.Slices.{slice}
use baidu_disk_link.ChunkStore.Types.{Bytes, Bytes-discrete}

-- cacheKey
pub record WindowKey : Type 0 where
  pub fsid : Bytes
  pub offset : ℕ

unfoldable pub WindowKey-discrete : Discrete WindowKey
unfolding ℕ_discrete
WindowKey-discrete = hlevel ℕ_discrete

pub record Windows : Type 0 where
  pub cached : List (WindowKey × Bytes)
  pub order : List WindowKey
  pub bytes : ℕ
  pub limit : ℕ

-- clearCachedReadsLocked
unfoldable pub clear_cached : Windows → Windows
clear_cached s = record s { cached = []; order = []; bytes = 0 }

-- ClearReadCache
unfoldable pub clear_read_cache : Windows → Windows × ℕ
unfolding clear_cached
clear_read_cache s = (clear_cached s, s.bytes)

-- the loops that take the first occurrence of a key out of the order
unfoldable pub erase_first : WindowKey → List WindowKey → List WindowKey
erase_first key [] = []
erase_first key (existing ∷ more) =
    ite (WindowKey-discrete key existing) more (existing ∷ erase_first key more)

-- removeCachedKeyLocked
unfoldable pub remove_cached : WindowKey → Windows → Windows
remove_cached key s = elim (lookup WindowKey-discrete key s.cached) [
  | none ↦ s
  | some bytes ↦ record s {
    bytes = s.bytes - length bytes;
    cached = without WindowKey-discrete key s.cached;
  }
]

-- the loop at the end of `storeCachedLocked`, over what is left of the order
unfoldable pub evict_oldest : List WindowKey → Windows → Windows
unfolding remove_cached
evict_oldest [] s = s
evict_oldest (oldest ∷ rest) s =
    let more = evict_oldest rest (remove_cached oldest (record s { order = rest })) in
    if ltb s.limit s.bytes then more else s

-- the old window of the key is given up
unfoldable pub drop_window : WindowKey → Windows → Windows
unfolding remove_cached erase_first
drop_window key s =
    if has WindowKey-discrete key s.cached
    then record (remove_cached key s) { order = erase_first key s.order }
    else s

unfoldable pub add_window : WindowKey → Bytes → Windows → Windows
add_window key window s = record s {
  cached = insert WindowKey-discrete key window s.cached;
  order = s.order ++ key ∷ [];
  bytes = s.bytes + length window;
}

-- storeCachedLocked
unfoldable pub store_cached : WindowKey → Bytes → Windows → Windows
unfolding drop_window add_window evict_oldest
store_cached key window s =
    if length window == 0 || ltb s.limit (length window)
    then s
    else let added = add_window key window (drop_window key s) in evict_oldest added.order added

-- the window is the last of the order from now on
unfoldable pub touch_window : WindowKey → Windows → Windows
unfolding erase_first
touch_window key s =
    if mem WindowKey-discrete key s.order
    then record s { order = erase_first key s.order ++ key ∷ [] }
    else s

-- whether a window of the file holds the whole range
unfoldable pub covers : Bytes → ℕ → ℕ → WindowKey → Bytes → Bool
covers fsid offset count key window =
    ite (Bytes-discrete key.fsid fsid) true false
    && (not (length window == 0)
        && (leb key.offset offset && leb (offset + count) (key.offset + length window)))

-- readCachedLocked
unfoldable pub read_cached : List WindowKey → Bytes → ℕ → ℕ → Windows → Windows × Option Bytes
unfolding covers touch_window
read_cached [] fsid offset count s = (s, none)
read_cached (key ∷ more) fsid offset count s =
    let rest = read_cached more fsid offset count s in
    elim (lookup WindowKey-discrete key s.cached) [
      | none ↦ rest
      | some window ↦
          if covers fsid offset count key window
          then (touch_window key s, some (slice (offset - key.offset) count window))
          else rest
    ]

-- ReadCachedWindow, whose length may be negative
unfoldable pub read_cached_window :
    List WindowKey → Bytes → ℕ → ℤ → Windows → Windows × Option Bytes
unfolding read_cached
read_cached_window visited fsid offset (negsuc n) s = (s, none)
read_cached_window visited fsid offset (pos count) s =
    if count == 0 then (s, none) else read_cached visited fsid offset count s
