-- ===== src/MetadataStore/Order.antt =====
-- internal/store/store.go: the rows come in the order of their names.
use baidu_disk_link.Common.{
  ℕ, ◌+◌, ◌≡◌, refl, ◌∙◌, Bool, true, false, ◌&&◌, [], ◌∷◌, arith, if◌then◌else◌,
}
use baidu_disk_link.ChunkStore.Types.{Bytes}
use baidu_disk_link.MetadataStore.{
  Entry, Table, opened, same, text_leb, rows_of_parent, insert_by_name, sort_by_name,
  get_children_by_parent, answer,
}

text_leb-total : (a b : Bytes) → text_leb a b ≡ false → text_leb b a ≡ true
unfolding text_leb
text_leb-total [] b h = absurd (cc)
text_leb-total (c ∷ a) [] h = refl
text_leb-total (c ∷ a) (d ∷ b) h = ground (arith, h, text_leb-total a b)

-- no row comes after one with a greater name
abbrev pub IsSorted : Table → Type 0
IsSorted [] = Unit {0}
IsSorted (e ∷ []) = Unit {0}
IsSorted (e ∷ f ∷ rows) = (text_leb e.name f.name ≡ true) × IsSorted (f ∷ rows)

insert-IsSorted : (e : Entry) (rows : Table) → IsSorted rows → IsSorted (insert_by_name e rows)
unfolding insert_by_name
insert-IsSorted e [] s = tt
insert-IsSorted e (f ∷ []) s = ground (arith, text_leb-total e.name f.name)
insert-IsSorted e (f ∷ g ∷ rows) s =
    ground (arith, s.0, s.1, text_leb-total e.name f.name, insert-IsSorted e (g ∷ rows) s.1)

sort-IsSorted : (rows : Table) → IsSorted (sort_by_name rows)
unfolding sort_by_name
sort-IsSorted [] = tt
sort-IsSorted (e ∷ rows) = insert-IsSorted e (sort_by_name rows) (sort-IsSorted rows)

-- how many rows pass a test
unfoldable pub count : (Entry → Bool) → Table → ℕ
count test [] = 0
count test (e ∷ rows) = (if test e then 1 else 0) + count test rows

count-insert :
    (test : Entry → Bool) (e : Entry) (rows : Table)
    → count test (insert_by_name e rows) ≡ count test (e ∷ rows)
unfolding count insert_by_name
count-insert test e [] = refl
count-insert test e (f ∷ rows) = ground (arith, count-insert test e rows)

count-sort : (test : Entry → Bool) (rows : Table) → count test (sort_by_name rows) ≡ count test rows
unfolding count sort_by_name
count-sort test [] = refl
count-sort test (e ∷ rows) =
    omega (arith, count-insert test e (sort_by_name rows), count-sort test rows)

count-rows_of_parent :
    (test : Entry → Bool) (parent : Bytes) (rows : Table)
    → count test (rows_of_parent parent rows) ≡ count (λ e. same e.parent parent && test e) rows
unfolding count rows_of_parent
count-rows_of_parent test parent [] = refl
count-rows_of_parent test parent (e ∷ rows) = ground (arith, count-rows_of_parent test parent rows)

-- The children of a parent are the rows of the table with that parent, each as often as it is there, in the order of their names.
pub children-IsSorted :
    (parent : Bytes) (rows : Table)
    → (children : Table) × (get_children_by_parent parent (opened rows) ≡ answer children)
      × IsSorted children
      × ((test : Entry → Bool)
          → count test children ≡ count (λ e. same e.parent parent && test e) rows)
unfolding get_children_by_parent
children-IsSorted parent rows = (
  sort_by_name (rows_of_parent parent rows),
  refl,
  sort-IsSorted (rows_of_parent parent rows),
  λ test. count-sort test (rows_of_parent parent rows) ∙ count-rows_of_parent test parent rows,
)
