-- ===== src/MetadataStore/Valid.antt =====
-- internal/store/store.go: every operation keeps a table in which no path and no id has two rows.
use baidu_disk_link.Common.{
  ℕ, ◌≡◌, refl, sym, ap, ◌∙◌, Bool, false, ◌||◌, none, List, [], ◌∷◌, ◌++◌, inl, inr, ◌==◌, arith,
  Option-cases,
}
use baidu_disk_link.ChunkStore.Types.{Bytes, Bytes-discrete}
use baidu_disk_link.MetadataStore.{
  Entry, Table, same, find_row, update_row, upsert_row, upsert_rows, without_children, expire_row,
  delete_rows,
}
use baidu_disk_link.MetadataStore.Lookup.{
  view, DistinctPaths, view-without_children, view-expire, view-delete, keep, expire, view-update,
  view-append, find-none,
}

unfoldable pub has_id : ℕ → Table → Bool
has_id n [] = false
has_id n (e ∷ rows) = e.id == n || has_id n rows

-- No id has two rows.
abbrev pub DistinctIds : Table → Type 0
DistinctIds [] = Unit {0}
DistinctIds (e ∷ rows) = (has_id e.id rows ≡ false) × DistinctIds rows

has_id-update : (e : Entry) (n : ℕ) (rows : Table) → has_id n (update_row e rows) ≡ has_id n rows
unfolding has_id update_row
has_id-update e n [] = refl
has_id-update e n (row ∷ rows) = ground (arith, has_id-update e n rows)

update-DistinctIds : (e : Entry) (rows : Table) → DistinctIds rows → DistinctIds (update_row e rows)
unfolding update_row
update-DistinctIds e [] d = tt
update-DistinctIds e (row ∷ rows) d =
    ground (arith, update-DistinctIds e rows d.1, has_id-update e row.id rows, d.0)

has_id-append :
    (n : ℕ) (rows : Table) (e : Entry) → has_id n (rows ++ e ∷ []) ≡ (has_id n rows || e.id == n)
unfolding has_id
has_id-append n [] e = ground arith
has_id-append n (row ∷ rows) e = ground (arith, has_id-append n rows e)

pub append-DistinctIds :
    (rows : Table) (e : Entry)
    → has_id e.id rows ≡ false
    → DistinctIds rows
    → DistinctIds (rows ++ e ∷ [])
unfolding has_id
append-DistinctIds [] e h d = (refl, tt)
append-DistinctIds (row ∷ rows) e h d =
    ground (arith, h, d.0, append-DistinctIds rows e, d.1, has_id-append row.id rows e)

update-DistinctPaths :
    (e : Entry) (rows : Table) → DistinctPaths rows → DistinctPaths (update_row e rows)
unfolding update_row
update-DistinctPaths e [] d = tt
update-DistinctPaths e (row ∷ rows) d =
    ground (arith, update-DistinctPaths e rows d.1, d.0, view-update e rows row.path)

pub append-DistinctPaths :
    (rows : Table) (e : Entry)
    → view rows e.path ≡ none
    → DistinctPaths rows
    → DistinctPaths (rows ++ e ∷ [])
unfolding view
append-DistinctPaths [] e h d = (refl, tt)
append-DistinctPaths (row ∷ rows) e h d =
    let rest = append-DistinctPaths rows e in
    elim (Bytes-discrete row.path e.path) [
      | yes p ↦ absurd (ground (arith, h, p))
      | no apart ↦
          let apart_too : ¬ (e.path ≡ row.path) = λ q. apart (sym q) in
          ground (arith, h, apart, apart_too, rest, d.0, d.1, view-append rows e row.path)
    ]

pub upsert-DistinctPaths :
    (fresh : Table → ℕ) (e : Entry) (rows : Table)
    → DistinctPaths rows
    → DistinctPaths (upsert_row fresh e rows)
unfolding upsert_row
upsert-DistinctPaths fresh e rows d = elim (Option-cases (find_row e.path rows)) [
  | inl absent ↦
      rw (absent, upsert_row)
        (append-DistinctPaths rows (record e { id = fresh rows }) (find-none e.path rows absent) d)
  | inr (row, found) ↦ rw (found, upsert_row) (update-DistinctPaths e rows d)
]

pub upsert_rows-DistinctPaths :
    (fresh : Table → ℕ) (entries : List Entry) (rows : Table)
    → DistinctPaths rows
    → DistinctPaths (upsert_rows fresh entries rows)
unfolding upsert_rows
upsert_rows-DistinctPaths fresh [] rows d = d
upsert_rows-DistinctPaths fresh (e ∷ entries) rows d =
    upsert_rows-DistinctPaths fresh entries (upsert_row fresh e rows)
      (upsert-DistinctPaths fresh e rows d)

pub without_children-DistinctPaths :
    (parent : Bytes) (rows : Table)
    → DistinctPaths rows
    → DistinctPaths (without_children parent rows)
unfolding without_children keep
without_children-DistinctPaths parent [] d = tt
without_children-DistinctPaths parent (e ∷ rows) d =
    let gone : view (without_children parent rows) e.path ≡ none =
      view-without_children parent rows e.path d.1 ∙ ap (keep (λ f. same f.parent parent)) d.0 in
    ground (arith, gone, without_children-DistinctPaths parent rows d.1)

pub delete-DistinctPaths :
    (path : Bytes) (rows : Table) → DistinctPaths rows → DistinctPaths (delete_rows path rows)
unfolding delete_rows
delete-DistinctPaths path [] d = tt
delete-DistinctPaths path (e ∷ rows) d =
    ground (arith, d.0, view-delete path rows e.path, delete-DistinctPaths path rows d.1)

pub expire-DistinctPaths :
    (path : Bytes) (rows : Table) → DistinctPaths rows → DistinctPaths (expire_row path rows)
unfolding expire_row expire
expire-DistinctPaths path [] d = tt
expire-DistinctPaths path (e ∷ rows) d =
    ground (arith, d.0, view-expire path rows e.path, expire-DistinctPaths path rows d.1)

module _ (fresh : Table → ℕ) (unused : (rows : Table) → has_id (fresh rows) rows ≡ false) where
  pub upsert-DistinctIds :
      (e : Entry) (rows : Table) → DistinctIds rows → DistinctIds (upsert_row fresh e rows)
  unfolding upsert_row
  upsert-DistinctIds e rows d = elim (Option-cases (find_row e.path rows)) [
    | inl absent ↦
        rw (absent, upsert_row)
          (append-DistinctIds rows (record e { id = fresh rows }) (unused rows) d)
    | inr (row, found) ↦ rw (found, upsert_row) (update-DistinctIds e rows d)
  ]

  pub upsert_rows-DistinctIds :
      (entries : List Entry) (rows : Table)
      → DistinctIds rows
      → DistinctIds (upsert_rows fresh entries rows)
  unfolding upsert_rows
  upsert_rows-DistinctIds [] rows d = d
  upsert_rows-DistinctIds (e ∷ entries) rows d =
      upsert_rows-DistinctIds entries (upsert_row fresh e rows) (upsert-DistinctIds e rows d)

has_id-without_children :
    (parent : Bytes) (n : ℕ) (rows : Table)
    → has_id n rows ≡ false
    → has_id n (without_children parent rows) ≡ false
unfolding has_id without_children
has_id-without_children parent n [] h = refl
has_id-without_children parent n (e ∷ rows) h =
    ground (arith, h, has_id-without_children parent n rows)

pub without_children-DistinctIds :
    (parent : Bytes) (rows : Table) → DistinctIds rows → DistinctIds (without_children parent rows)
unfolding without_children
without_children-DistinctIds parent [] d = tt
without_children-DistinctIds parent (e ∷ rows) d = ground (
  arith,
  has_id-without_children parent e.id rows d.0,
  without_children-DistinctIds parent rows d.1,
)

has_id-delete :
    (path : Bytes) (n : ℕ) (rows : Table)
    → has_id n rows ≡ false
    → has_id n (delete_rows path rows) ≡ false
unfolding has_id delete_rows
has_id-delete path n [] h = refl
has_id-delete path n (e ∷ rows) h = ground (arith, h, has_id-delete path n rows)

pub delete-DistinctIds :
    (path : Bytes) (rows : Table) → DistinctIds rows → DistinctIds (delete_rows path rows)
unfolding delete_rows
delete-DistinctIds path [] d = tt
delete-DistinctIds path (e ∷ rows) d =
    ground (arith, has_id-delete path e.id rows d.0, delete-DistinctIds path rows d.1)

has_id-expire :
    (path : Bytes) (n : ℕ) (rows : Table) → has_id n (expire_row path rows) ≡ has_id n rows
unfolding has_id expire_row
has_id-expire path n [] = refl
has_id-expire path n (e ∷ rows) = ground (arith, has_id-expire path n rows)

pub expire-DistinctIds :
    (path : Bytes) (rows : Table) → DistinctIds rows → DistinctIds (expire_row path rows)
unfolding expire_row
expire-DistinctIds path [] d = tt
expire-DistinctIds path (e ∷ rows) d =
    ground (arith, d.0, has_id-expire path e.id rows, expire-DistinctIds path rows d.1)
