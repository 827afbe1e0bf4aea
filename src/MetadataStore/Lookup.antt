-- ===== src/MetadataStore/Lookup.antt =====
-- internal/store/store.go: the table as a map from paths to the columns of a row, its id left out.
use baidu_disk_link.Common.{
  ℕ, ◌≡◌, refl, sym, ap, subst, ◌∙◌, Bool, Option, none, some, List, [], ◌∷◌, ◌++◌, inl, inr, arith,
  if◌then◌else◌, Option-cases,
}
use baidu_disk_link.Common.Decimal.{pos}
use baidu_disk_link.ChunkStore.Types.{Bytes, Bytes-discrete}
use baidu_disk_link.MetadataStore.{
  Entry, Table, same, find_row, update_row, upsert_row, upsert_rows, without_children, expire_row,
  is_below, delete_rows,
}

abbrev pub strip : Entry → Entry
strip e = record e { id = 0 }

unfoldable pub view : Table → Bytes → Option Entry
view [] path = none
view (e ∷ rows) path = if same e.path path then some (strip e) else view rows path

-- No path has two rows.
abbrev pub DistinctPaths : Table → Type 0
DistinctPaths [] = Unit {0}
DistinctPaths (e ∷ rows) = (view rows e.path ≡ none) × DistinctPaths rows

-- the map after a write
unfoldable pub write : Entry → (Bytes → Option Entry) → Bytes → Option Entry
write e m path = if same e.path path then some (strip e) else m path

unfoldable pub write_all : List Entry → (Bytes → Option Entry) → Bytes → Option Entry
unfolding write
write_all [] m = m
write_all (e ∷ entries) m = write_all entries (write e m)

-- the map without the rows of a test
unfoldable pub keep : (Entry → Bool) → Option Entry → Option Entry
keep test none = none
keep test (some e) = if test e then none else some e

unfoldable pub forget : (Entry → Bool) → (Bytes → Option Entry) → Bytes → Option Entry
unfolding keep
forget test m path = keep test (m path)

unfoldable pub expire : Bytes → (Bytes → Option Entry) → Bytes → Option Entry
expire path m other = elim (m other) [
  | none ↦ none
  | some e ↦ some (if same other path then record e { expires_at = pos 0 } else e)
]

pub find-none : (path : Bytes) (rows : Table) → find_row path rows ≡ none → view rows path ≡ none
unfolding find_row view
find-none path [] h = refl
find-none path (e ∷ rows) h = ground (arith, find-none path rows)

pub find-some :
    (path : Bytes) (rows : Table) (row : Entry)
    → find_row path rows ≡ some row
    → view rows path ≡ some (strip row)
unfolding find_row view
find-some path [] row h = absurd (cc)
find-some path (e ∷ rows) row h = ground (arith, find-some path rows row)

pub view-update :
    (e : Entry) (rows : Table) (path : Bytes)
    → view (update_row e rows) path ≡ (
        if same e.path path
        then (elim (view rows path) [ none ↦ none | some old ↦ some (strip e) ])
        else view rows path)
unfolding update_row view
view-update e [] path = ground arith
view-update e (row ∷ rows) path = ground (arith, view-update e rows path)

pub view-append :
    (rows : Table) (e : Entry) (path : Bytes)
    → view (rows ++ e ∷ []) path ≡ elim (view rows path) [
      | none ↦ if same e.path path then some (strip e) else none
      | some old ↦ some old
    ]
unfolding view
view-append [] e path = refl
view-append (row ∷ rows) e path = ground (arith, view-append rows e path)

module _ (fresh : Table → ℕ) where
  pub view-upsert :
      (e : Entry) (rows : Table) (path : Bytes)
      → view (upsert_row fresh e rows) path ≡ write e (view rows) path
  unfolding upsert_row write
  view-upsert e rows path = elim (Option-cases (find_row e.path rows)) [
    | inl absent ↦
        let held = find-none e.path rows absent in
        let added = view-append rows (record e { id = fresh rows }) path in
        elim (Bytes-discrete e.path path) [
          | yes p ↦
              let here : view rows path ≡ none = ap (view rows) (sym p) ∙ held in
              ground (arith, absent, added, here, p)
          | no apart ↦ elim (Option-cases (view rows path)) [
            | inl missing ↦ ground (arith, absent, added, apart, missing)
            | inr (old, there) ↦ ground (arith, absent, added, apart, there)
          ]
        ]
    | inr (row, found) ↦
        let held = find-some e.path rows row found in
        let changed = view-update e rows path in
        elim (Bytes-discrete e.path path) [
          | yes p ↦
              let here : view rows path ≡ some (strip row) = ap (view rows) (sym p) ∙ held in
              ground (arith, found, changed, here, p)
          | no apart ↦ ground (arith, found, changed, apart)
        ]
  ]

  -- the map after a batch of writes
  pub view-upsert_rows :
      (entries : List Entry) (rows : Table) (m : Bytes → Option Entry)
      → ((path : Bytes) → view rows path ≡ m path)
      → (path : Bytes) → view (upsert_rows fresh entries rows) path ≡ write_all entries m path
  unfolding upsert_rows write_all write
  view-upsert_rows [] rows m same_map path = same_map path
  view-upsert_rows (e ∷ entries) rows m same_map path =
      view-upsert_rows entries (upsert_row fresh e rows) (write e m)
        (λ p.
          view-upsert e rows p ∙ ap (λ x. if same e.path p then some (strip e) else x) (same_map p))
        path

pub view-without_children :
    (parent : Bytes) (rows : Table) (path : Bytes)
    → DistinctPaths rows
    → view (without_children parent rows) path ≡ keep (λ e. same e.parent parent) (view rows path)
unfolding without_children keep view
view-without_children parent [] path d = refl
view-without_children parent (e ∷ rows) path d =
    let rest = view-without_children parent rows path d.1 in
    elim (Bytes-discrete e.path path) [
      | yes p ↦
          let here : view rows path ≡ none = subst (λ x. view rows x ≡ none) p d.0 in
          let gone : view (without_children parent rows) path ≡ none =
            rest ∙ ap (keep (λ e. same e.parent parent)) here in
          ground (arith, gone, p)
      | no apart ↦ ground (arith, rest, apart)
    ]

pub view-expire :
    (path : Bytes) (rows : Table) (other : Bytes)
    → view (expire_row path rows) other ≡ expire path (view rows) other
unfolding expire_row expire view
view-expire path [] other = refl
view-expire path (e ∷ rows) other =
    let rest = view-expire path rows other in
    elim (Bytes-discrete e.path other) [
      | yes p ↦ elim (Bytes-discrete e.path path) [
        | yes q ↦ ground (arith, rest, p, q, sym p ∙ q)
        | no away ↦ ground (arith, rest, p, away)
      ]
      | no apart ↦ ground (arith, rest, apart)
    ]

pub view-delete :
    (path : Bytes) (rows : Table) (other : Bytes)
    → view (delete_rows path rows) other ≡ (if is_below path other then none else view rows other)
unfolding delete_rows view
view-delete path [] other = ground arith
view-delete path (e ∷ rows) other =
    let rest = view-delete path rows other in
    elim (Bytes-discrete e.path other) [
      | yes p ↦ let below = ap (is_below path) p in ground (arith, rest, p, below)
      | no apart ↦ ground (arith, rest, apart)
    ]
