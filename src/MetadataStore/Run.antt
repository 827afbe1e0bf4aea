-- ===== src/MetadataStore/Run.antt =====
-- internal/store/store.go: sequences of operations against the map that they stand for.
use baidu_disk_link.Common.{
  ℕ, ◌≡◌, refl, sym, ap, subst, fun_ext, ◌∙◌, true, false, ◌++◌, ◌||◌, Option, none, some, List, [],
  ◌∷◌, inl, inr, map, arith, if◌then◌else◌, Option-cases, Bool-cases,
}
use baidu_disk_link.Common.Decimal.{ℤ}
use baidu_disk_link.Common.Text.{text, is_blank}
use baidu_disk_link.ChunkStore.Types.{Bytes, Bytes-discrete}
use baidu_disk_link.MetadataStore.{
  Entry, Table, Store, nil_store, no_db, opened, same, find_row, upsert_entry, upsert_entries,
  upsert_from_remote, with_parent, root_row, ensure_root, replace_children, without_children,
  expire_path, is_below, delete_path,
}
use baidu_disk_link.MetadataStore.Lookup.{
  strip, view, DistinctPaths, view-upsert, view-upsert_rows, view-without_children, view-expire,
  view-delete, view-append, forget, expire, write, write_all, find-none, find-some,
}
use baidu_disk_link.MetadataStore.Deletion.{is_plain, lower-like}
use baidu_disk_link.MetadataStore.Like.{trim_slashes}
use baidu_disk_link.Remote.Errors.{starts_with, lower}
use baidu_disk_link.MetadataStore.Valid.{
  has_id, DistinctIds, upsert-DistinctPaths, upsert_rows-DistinctPaths, append-DistinctPaths,
  without_children-DistinctPaths, delete-DistinctPaths, expire-DistinctPaths, upsert-DistinctIds,
  upsert_rows-DistinctIds, append-DistinctIds, without_children-DistinctIds, delete-DistinctIds,
  expire-DistinctIds,
}

-- the calls that change the table
pub data Operation : Type 0 where
  upsert : Entry → Operation
  upsert_many : List Entry → Operation
  from_remote : Bytes → List Entry → Operation
  root : ℤ → ℤ → Operation
  replace : Bytes → List Entry → Operation
  expire_at delete : Bytes → Operation

module _ (fresh : Table → ℕ) where
  unfoldable pub apply : Operation → Store → Store
  unfolding upsert_entry upsert_entries upsert_from_remote ensure_root replace_children expire_path
      delete_path
  apply (upsert e) s = (upsert_entry fresh e s).0
  apply (upsert_many entries) s = (upsert_entries fresh entries s).0
  apply (from_remote parent entries) s = (upsert_from_remote fresh parent entries s).0
  apply (root now tomorrow) s = (ensure_root fresh now tomorrow s).0
  apply (replace parent entries) s = (replace_children fresh parent entries s).0
  apply (expire_at path) s = (expire_path path s).0
  apply (delete path) s = (delete_path path s).0

  unfoldable pub run : List Operation → Store → Store
  unfolding apply
  run [] s = s
  run (o ∷ operations) s = run operations (apply o s)

-- the root's columns
abbrev root_entry : ℤ → ℤ → Entry
root_entry now tomorrow = root_row (λ rows. 0) now tomorrow []

-- what an operation means for the map from paths to columns
unfoldable pub mean : Operation → (Bytes → Option Entry) → Bytes → Option Entry
unfolding write write_all forget expire
mean (upsert e) m path = write e m path
mean (upsert_many entries) m path = write_all entries m path
mean (from_remote parent entries) m path = write_all (map (with_parent parent) entries) m path
mean (root now tomorrow) m path = elim (m path) [
  | some e ↦ some e
  | none ↦ if same (text "/") path then some (root_entry now tomorrow) else none
]
mean (replace parent entries) m path = write_all entries (forget (λ e. same e.parent parent) m) path
mean (expire_at prefix) m path = expire prefix m path
mean (delete prefix) m path =
    if is_blank prefix || same prefix (text "/")
    then m path
    else if same path prefix || starts_with (lower (trim_slashes prefix ++ text "/")) (lower path)
    then none
    else m path

-- A deletion is plain when its path, but for slashes at its end, has no wildcard of a pattern.
unfoldable pub IsPlain : Operation → Type 0
unfolding is_plain
IsPlain (upsert e) = Unit {0}
IsPlain (upsert_many entries) = Unit {0}
IsPlain (from_remote parent entries) = Unit {0}
IsPlain (root now tomorrow) = Unit {0}
IsPlain (replace parent entries) = Unit {0}
IsPlain (expire_at prefix) = Unit {0}
IsPlain (delete prefix) = is_plain (trim_slashes prefix) ≡ true

unfoldable pub ArePlain : List Operation → Type 0
unfolding IsPlain
ArePlain [] = Unit {0}
ArePlain (o ∷ operations) = IsPlain o × ArePlain operations

unfoldable pub mean_all : List Operation → (Bytes → Option Entry) → Bytes → Option Entry
unfolding mean
mean_all [] m = m
mean_all (o ∷ operations) m = mean_all operations (mean o m)

-- the columns that a store answers with
unfoldable pub view_store : Store → Bytes → Option Entry
unfolding view
view_store nil_store path = none
view_store no_db path = none
view_store (opened rows) path = view rows path

-- no path has two rows
abbrev pub IsDistinct : Store → Type 0
IsDistinct nil_store = Unit {0}
IsDistinct no_db = Unit {0}
IsDistinct (opened rows) = DistinctPaths rows

-- no id has two rows
abbrev pub HasIds : Store → Type 0
HasIds nil_store = Unit {0}
HasIds no_db = Unit {0}
HasIds (opened rows) = DistinctIds rows

-- what one operation on an open table does
view-apply :
    (fresh : Table → ℕ) (o : Operation) (rows : Table) (path : Bytes)
    → DistinctPaths rows
    → IsPlain o
    → view_store (apply fresh o (opened rows)) path ≡ mean o (view rows) path
unfolding apply mean view_store IsPlain is_below
view-apply fresh (upsert e) rows path d h = view-upsert fresh e rows path
view-apply fresh (upsert_many entries) rows path d h =
    view-upsert_rows fresh entries rows (view rows) (λ p. refl) path
view-apply fresh (from_remote parent entries) rows path d h =
    view-upsert_rows fresh (map (with_parent parent) entries) rows (view rows) (λ p. refl) path
view-apply fresh (root now tomorrow) rows path d h =
    elim (Option-cases (find_row (text "/") rows)) [
      | inl absent ↦
          rw (absent, view_store) (view-append rows (root_row fresh now tomorrow rows) path)
      | inr (row, found) ↦
          let held = find-some (text "/") rows row found in
          elim (Option-cases (view rows path)) [
            | inr (e, there) ↦ ground (arith, found, there)
            | inl missing ↦ elim (Bytes-discrete (text "/") path) [
              | yes p ↦
                  let wrong : some (strip row) ≡ none = sym held ∙ ap (view rows) p ∙ missing in
                  absurd (cc)
              | no apart ↦ ground (arith, found, missing, apart)
            ]
          ]
    ]
view-apply fresh (replace parent entries) rows path d h =
    view-upsert_rows fresh entries (without_children parent rows)
      (forget (λ e. same e.parent parent) (view rows)) (λ p. view-without_children parent rows p d)
      path
view-apply fresh (expire_at prefix) rows path d h = view-expire prefix rows path
view-apply fresh (delete prefix) rows path d h =
    let like : is_below prefix path
        ≡ (same path prefix || starts_with (lower (trim_slashes prefix ++ text "/")) (lower path)) =
      ap (λ b. same path prefix || b) (lower-like (trim_slashes prefix) path h) in
    ground (arith, view-delete prefix rows path, like)

apply-DistinctPaths :
    (fresh : Table → ℕ) (o : Operation) (rows : Table)
    → DistinctPaths rows
    → IsDistinct (apply fresh o (opened rows))
unfolding apply
apply-DistinctPaths fresh (upsert e) rows d = upsert-DistinctPaths fresh e rows d
apply-DistinctPaths fresh (upsert_many entries) rows d =
    upsert_rows-DistinctPaths fresh entries rows d
apply-DistinctPaths fresh (from_remote parent entries) rows d =
    upsert_rows-DistinctPaths fresh (map (with_parent parent) entries) rows d
apply-DistinctPaths fresh (root now tomorrow) rows d =
    elim (Option-cases (find_row (text "/") rows)) [
      | inl absent ↦
          rw (absent, IsDistinct)
            (append-DistinctPaths rows (root_row fresh now tomorrow rows)
              (find-none (text "/") rows absent) d)
      | inr (row, found) ↦ rw (found, IsDistinct) d
    ]
apply-DistinctPaths fresh (replace parent entries) rows d =
    upsert_rows-DistinctPaths fresh entries (without_children parent rows)
      (without_children-DistinctPaths parent rows d)
apply-DistinctPaths fresh (expire_at prefix) rows d = expire-DistinctPaths prefix rows d
apply-DistinctPaths fresh (delete prefix) rows d =
    elim (Bool-cases (is_blank prefix || same prefix (text "/"))) [
      | inl refused ↦ rw (refused, IsDistinct) d
      | inr allowed ↦ rw (allowed, IsDistinct) (delete-DistinctPaths prefix rows d)
    ]

module _ (fresh : Table → ℕ) (unused : (rows : Table) → has_id (fresh rows) rows ≡ false) where
  apply-HasIds :
      (o : Operation) (rows : Table) → DistinctIds rows → HasIds (apply fresh o (opened rows))
  unfolding apply
  apply-HasIds (upsert e) rows d = upsert-DistinctIds fresh unused e rows d
  apply-HasIds (upsert_many entries) rows d = upsert_rows-DistinctIds fresh unused entries rows d
  apply-HasIds (from_remote parent entries) rows d =
      upsert_rows-DistinctIds fresh unused (map (with_parent parent) entries) rows d
  apply-HasIds (root now tomorrow) rows d = elim (Option-cases (find_row (text "/") rows)) [
    | inl absent ↦
        rw (absent, HasIds)
          (append-DistinctIds rows (root_row fresh now tomorrow rows) (unused rows) d)
    | inr (row, found) ↦ rw (found, HasIds) d
  ]
  apply-HasIds (replace parent entries) rows d =
      upsert_rows-DistinctIds fresh unused entries (without_children parent rows)
        (without_children-DistinctIds parent rows d)
  apply-HasIds (expire_at prefix) rows d = expire-DistinctIds prefix rows d
  apply-HasIds (delete prefix) rows d =
      elim (Bool-cases (is_blank prefix || same prefix (text "/"))) [
        | inl refused ↦ rw (refused, HasIds) d
        | inr allowed ↦ rw (allowed, HasIds) (delete-DistinctIds prefix rows d)
      ]

-- the rows after one operation on an open table
unfoldable pub rows_of : Store → Table
rows_of nil_store = []
rows_of no_db = []
rows_of (opened rows) = rows

apply-opened :
    (fresh : Table → ℕ) (o : Operation) (rows : Table)
    → apply fresh o (opened rows) ≡ opened (rows_of (apply fresh o (opened rows)))
unfolding apply rows_of
apply-opened fresh (upsert e) rows = refl
apply-opened fresh (upsert_many entries) rows = refl
apply-opened fresh (from_remote parent entries) rows = refl
apply-opened fresh (root now tomorrow) rows = ground arith
apply-opened fresh (replace parent entries) rows = refl
apply-opened fresh (expire_at prefix) rows = refl
apply-opened fresh (delete prefix) rows = ground arith

module _ (fresh : Table → ℕ) where
  run-DistinctPaths :
      (operations : List Operation) (rows : Table)
      → DistinctPaths rows
      → IsDistinct (run fresh operations (opened rows))
  unfolding run
  run-DistinctPaths [] rows d = d
  run-DistinctPaths (o ∷ operations) rows d =
      let after = rows_of (apply fresh o (opened rows)) in
      let next =
        subst IsDistinct (apply-opened fresh o rows) (apply-DistinctPaths fresh o rows d) in
      subst (λ s. IsDistinct (run fresh operations s)) (sym (apply-opened fresh o rows))
        (run-DistinctPaths operations after next)

  -- After any sequence of operations the table answers for each path with the columns that the operations mean, one after the
  -- other, for a map from paths to columns: a write replaces what was there, the entries of a batch in their order; a
  -- replacement of children first forgets the columns of that parent; an expiry changes one path; a deletion forgets the
  -- path and the paths that begin, but for the case of ASCII letters, with it and a slash, where slashes at its end do not
  -- count, and does nothing for the root or an empty path. No path has two rows before, the paths of the deletions hold
  -- neither `%` nor `_`, and the ids are left out.
  pub run-refines :
      (operations : List Operation) (rows : Table) (path : Bytes)
      → DistinctPaths rows
      → ArePlain operations
      → view_store (run fresh operations (opened rows)) path ≡ mean_all operations (view rows) path
  unfolding run mean_all view_store ArePlain
  run-refines [] rows path d h = refl
  run-refines (o ∷ operations) rows path d h =
      let after = rows_of (apply fresh o (opened rows)) in
      let moved = apply-opened fresh o rows in
      let next = subst IsDistinct moved (apply-DistinctPaths fresh o rows d) in
      let meant : view after ≡ mean o (view rows) =
        fun_ext (λ p. ap (λ s. view_store s p) (sym moved) ∙ view-apply fresh o rows p d h.0) in
      ap (λ s. view_store (run fresh operations s) path) moved
      ∙ run-refines operations after path next h.1
      ∙ ap (λ m. mean_all operations m path) meant

  -- Every sequence of operations keeps a table in which no path and no id has two rows, when a new row gets an id that no row
  -- has.
  pub run-IsValid :
      ((rows : Table) → has_id (fresh rows) rows ≡ false)
      → (operations : List Operation) (rows : Table) → DistinctPaths rows
      → DistinctIds rows
      → IsDistinct (run fresh operations (opened rows))
        × HasIds (run fresh operations (opened rows))
  unfolding run
  run-IsValid unused [] rows d i = (d, i)
  run-IsValid unused (o ∷ operations) rows d i =
      let after = rows_of (apply fresh o (opened rows)) in
      let moved = apply-opened fresh o rows in
      subst (λ s. IsDistinct (run fresh operations s) × HasIds (run fresh operations s)) (sym moved)
        (run-IsValid unused operations after
          (subst IsDistinct moved (apply-DistinctPaths fresh o rows d))
          (subst HasIds moved (apply-HasIds fresh unused o rows i)))
