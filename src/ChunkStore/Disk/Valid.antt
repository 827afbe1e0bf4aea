-- ===== src/ChunkStore/Disk/Valid.antt =====
-- internal/stream/store.go: the bookkeeping of the disk half under each operation.
use baidu_disk_link.Common.{
  ℕ, ◌+◌, ◌≡◌, ite, sym, ◌∙◌, true, false, inl, inr, none, some, [], ◌∷◌, ◌++◌, arith, Option-cases,
}
use baidu_disk_link.Common.Maps.{
  mem, has, lookup, without, insert, total, mem-erase, has_of_lookup, absent_of_lookup,
  lookup_absent, has-append, has-without, lookup-without, lookup-insert, lookup-move,
  without_absent, total-append, total-without, append-Distinct, without-Distinct,
}
use baidu_disk_link.ChunkStore.Types.{Bytes, ChunkKey, ChunkKey-discrete}
use baidu_disk_link.ChunkStore.Disk.{
  Disk, DiskEntry, disk_element, add_disk, touch_disk, remove_disk, IsConsistent,
}

abbrev size_of : DiskEntry → ℕ
size_of = λ e. e.size

pub disk_element-eq-lookup :
    (key : ChunkKey) (d : Disk)
    → IsConsistent d
    → disk_element key d ≡ lookup ChunkKey-discrete key d.lru
unfolding disk_element
disk_element-eq-lookup key d c =
    ground (arith, c.indexed key, lookup_absent ChunkKey-discrete key d.lru)

module _ (key : ChunkKey) (d : Disk) (c : IsConsistent d) where
  absent : disk_element key d ≡ none → has ChunkKey-discrete key d.lru ≡ false
  absent e = absent_of_lookup ChunkKey-discrete key d.lru (sym (disk_element-eq-lookup key d c) ∙ e)

  present :
      (entry : DiskEntry)
      → disk_element key d ≡ some entry
      → lookup ChunkKey-discrete key d.lru ≡ some entry
  present entry e = sym (disk_element-eq-lookup key d c) ∙ e

  -- both branches of `addDiskLocked` put the entry last in the list
  lru-add_disk :
      (path : Bytes) (size : ℕ)
      → (add_disk key path size d).lru
        ≡ without ChunkKey-discrete key d.lru ++ (key, record { path = path; size = size }) ∷ []
  unfolding add_disk
  lru-add_disk path size = ground (arith, absent, without_absent ChunkKey-discrete key d.lru)

  bytes-add_disk :
      (path : Bytes) (size : ℕ)
      → (add_disk key path size d).bytes
        ≡ total ChunkKey-discrete size_of (without ChunkKey-discrete key d.lru) + size
  unfolding add_disk
  bytes-add_disk path size = elim (Option-cases (disk_element key d)) [
    | inl e ↦ ground (arith, e, c.counted, absent e, without_absent ChunkKey-discrete key d.lru)
    | inr (old, e) ↦ ground (
      arith,
      e,
      c.counted,
      total-without ChunkKey-discrete size_of key old d.lru c.distinct (present old e),
    )
  ]

  mem-add_disk :
      (path : Bytes) (size : ℕ) (j : ChunkKey)
      → mem ChunkKey-discrete j (add_disk key path size d).entries
        ≡ ite (ChunkKey-discrete j key) true (mem ChunkKey-discrete j d.entries)
  unfolding add_disk mem
  mem-add_disk path size j = elim (Option-cases (disk_element key d)) [
    | inl e ↦ ground (arith, e)
    | inr (old, e) ↦
        ground
          (arith, e, c.indexed j, has_of_lookup ChunkKey-discrete key d.lru old (present old e))
  ]

  ready-add_disk :
      (path : Bytes) (size : ℕ)
      → (add_disk key path size d).ready ≡ insert ChunkKey-discrete key size d.ready
  unfolding add_disk
  ready-add_disk path size = ground arith

  pub add_disk-IsConsistent : (path : Bytes) (size : ℕ) → IsConsistent (add_disk key path size d)
  unfolding total has
  add_disk-IsConsistent path size =
      let entry : DiskEntry = record { path = path; size = size } in
      let left = without ChunkKey-discrete key d.lru in
      record {
        counted = ground (
          arith,
          bytes-add_disk path size,
          lru-add_disk path size,
          total-append ChunkKey-discrete size_of left ((key, entry) ∷ []),
        );
        distinct = rw (lru-add_disk path size) (
            append-Distinct ChunkKey-discrete key entry left
              (ground (arith, has-without ChunkKey-discrete key key d.lru))
              (without-Distinct ChunkKey-discrete key d.lru c.distinct));
        indexed = λ j. ground (
          arith,
          mem-add_disk path size j,
          lru-add_disk path size,
          c.indexed j,
          has-append ChunkKey-discrete j left ((key, entry) ∷ []),
          has-without ChunkKey-discrete j key d.lru,
        );
        sized = λ j. ground (
          arith,
          ready-add_disk path size,
          lru-add_disk path size,
          c.sized j,
          lookup-insert ChunkKey-discrete j key size d.ready,
          lookup-move ChunkKey-discrete j key entry d.lru,
        );
      }

  pub remove_disk-IsConsistent : IsConsistent (remove_disk key d)
  unfolding remove_disk
  remove_disk-IsConsistent = elim (Option-cases (disk_element key d)) [
    | inl e ↦
        rw (e, remove_disk)
          (record {
            counted = c.counted;
            distinct = c.distinct;
            indexed = c.indexed;
            sized = λ j. ground (
              arith,
              c.sized j,
              lookup-without ChunkKey-discrete j key d.ready,
              lookup_absent ChunkKey-discrete key d.lru (absent e),
            );
          })
    | inr (old, e) ↦
        rw (e, remove_disk)
          (record {
            counted = ground (
              arith,
              c.counted,
              total-without ChunkKey-discrete size_of key old d.lru c.distinct (present old e),
            );
            distinct = without-Distinct ChunkKey-discrete key d.lru c.distinct;
            indexed = λ j. ground (
              arith,
              c.indexed j,
              mem-erase ChunkKey-discrete j key d.entries,
              has-without ChunkKey-discrete j key d.lru,
            );
            sized = λ j. ground (
              arith,
              c.sized j,
              lookup-without ChunkKey-discrete j key d.ready,
              lookup-without ChunkKey-discrete j key d.lru,
            );
          })
  ]

  pub touch_disk-IsConsistent : IsConsistent (touch_disk key d)
  unfolding touch_disk total has
  touch_disk-IsConsistent = elim (Option-cases (disk_element key d)) [
    | inl e ↦ rw (e, touch_disk) c
    | inr (old, e) ↦
        rw (e, touch_disk)
          (let left = without ChunkKey-discrete key d.lru in
            record {
              counted = ground (
                arith,
                c.counted,
                total-append ChunkKey-discrete size_of left ((key, old) ∷ []),
                total-without ChunkKey-discrete size_of key old d.lru c.distinct (present old e),
              );
              distinct =
                  append-Distinct ChunkKey-discrete key old left
                    (ground (arith, has-without ChunkKey-discrete key key d.lru))
                    (without-Distinct ChunkKey-discrete key d.lru c.distinct);
              indexed = λ j. ground (
                arith,
                c.indexed j,
                has-append ChunkKey-discrete j left ((key, old) ∷ []),
                has-without ChunkKey-discrete j key d.lru,
                has_of_lookup ChunkKey-discrete key d.lru old (present old e),
              );
              sized = λ j.
                  ground (
                    arith,
                    c.sized j,
                    lookup-move ChunkKey-discrete j key old d.lru,
                    present old e,
                  );
            })
  ]
