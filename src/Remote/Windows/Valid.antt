-- ===== src/Remote/Windows/Valid.antt =====
-- internal/remote/remote.go: the bookkeeping of the window cache.
use baidu_disk_link.Common.{
  ℕ, ◌≤◌, ◌≡◌, refl, sym, ap, subst, ◌∙◌, ite, true, false, ◌||◌, inl, inr, List, [], ◌∷◌, ◌++◌,
  length, ltb, ◌==◌, arith, Bool-cases, Option-cases,
}
use baidu_disk_link.Common.Maps.{
  mem, has, lookup, total, Distinct, absent_of_lookup, has-without, total-without, without-Distinct,
  without_absent, insert-Distinct,
}
use baidu_disk_link.ChunkStore.Types.{Bytes}
use baidu_disk_link.Remote.Windows.{
  WindowKey, WindowKey-discrete, Windows, clear_cached, erase_first, remove_cached, evict_oldest,
  drop_window, add_window, store_cached, touch_window, covers, read_cached,
}

-- no key stands twice
abbrev pub Once : List WindowKey → Type 0
Once [] = Unit {0}
Once (key ∷ l) = (mem WindowKey-discrete key l ≡ false) × Once l

mem-append_last :
    (j k : WindowKey) (l : List WindowKey)
    → mem WindowKey-discrete j (l ++ k ∷ [])
      ≡ ite (WindowKey-discrete j k) true (mem WindowKey-discrete j l)
unfolding mem
mem-append_last j k [] = refl
mem-append_last j k (i ∷ l) = ground (arith, mem-append_last j k l)

append_last-Once :
    (k : WindowKey) (l : List WindowKey)
    → mem WindowKey-discrete k l ≡ false
    → Once l
    → Once (l ++ k ∷ [])
unfolding mem
append_last-Once k [] h o = (refl, tt)
append_last-Once k (i ∷ l) h o = ground (arith, append_last-Once k l, mem-append_last i k l, o)

mem-erase_first :
    (j k : WindowKey) (l : List WindowKey)
    → Once l
    → mem WindowKey-discrete j (erase_first k l)
      ≡ ite (WindowKey-discrete j k) false (mem WindowKey-discrete j l)
unfolding mem erase_first
mem-erase_first j k [] o = ground arith
mem-erase_first j k (i ∷ l) o = ground (arith, mem-erase_first j k l o.1, o.0)

erase_first-Once : (k : WindowKey) (l : List WindowKey) → Once l → Once (erase_first k l)
unfolding mem erase_first
erase_first-Once k [] o = tt
erase_first-Once k (i ∷ l) o =
    ground (arith, erase_first-Once k l o.1, mem-erase_first i k l o.1, o)

-- What each operation keeps.
pub record IsOrdered (s : Windows) : Type 0 where
  pub counted : s.bytes ≡ total WindowKey-discrete length s.cached
  pub distinct : Distinct WindowKey-discrete s.cached
  pub once : Once s.order
  pub listed :
      (key : WindowKey) → has WindowKey-discrete key s.cached ≡ mem WindowKey-discrete key s.order

pub record IsSettled (s : Windows) : Type 0 where
  pub ordered : IsOrdered s
  pub bounded : s.bytes ≤ s.limit

-- a key that leaves both the map and the order
remove_cached-IsOrdered :
    (key : WindowKey) (order : List WindowKey) (s : Windows)
    → IsOrdered s
    → Once order
    → ((j : WindowKey)
        → mem WindowKey-discrete j order
          ≡ ite (WindowKey-discrete j key) false (mem WindowKey-discrete j s.order))
    → IsOrdered (record (remove_cached key s) { order = order })
unfolding remove_cached
remove_cached-IsOrdered key order s o once left =
    elim (Option-cases (lookup WindowKey-discrete key s.cached)) [
      | inl e ↦
          rw (e, remove_cached)
            (record {
              counted = o.counted;
              distinct = o.distinct;
              once = once;
              listed = λ j.
                  ground
                    (arith, left j, o.listed j, absent_of_lookup WindowKey-discrete key s.cached e);
            })
      | inr (window, e) ↦
          rw (e, remove_cached)
            (record {
              counted = omega (
                arith,
                o.counted,
                total-without WindowKey-discrete length key window s.cached o.distinct e,
              );
              distinct = without-Distinct WindowKey-discrete key s.cached o.distinct;
              once = once;
              listed = λ j.
                  ground (arith, left j, o.listed j, has-without WindowKey-discrete j key s.cached);
            })
    ]

drop_window-IsOrdered :
    (key : WindowKey) (s : Windows) → IsOrdered s → IsOrdered (drop_window key s)
unfolding drop_window
drop_window-IsOrdered key s o = elim (Bool-cases (has WindowKey-discrete key s.cached)) [
  | inl e ↦
      rw (e, drop_window)
        (remove_cached-IsOrdered key (erase_first key s.order) s o
          (erase_first-Once key s.order o.once) (λ j. mem-erase_first j key s.order o.once))
  | inr e ↦ rw (e, drop_window) o
]

-- the key is free afterwards
drop_window-absent :
    (key : WindowKey) (s : Windows) → has WindowKey-discrete key (drop_window key s).cached ≡ false
unfolding drop_window remove_cached
drop_window-absent key s = ground (
  arith,
  has-without WindowKey-discrete key key s.cached,
  absent_of_lookup WindowKey-discrete key s.cached,
)

add_window-IsOrdered :
    (key : WindowKey) (window : Bytes) (s : Windows)
    → IsOrdered s
    → has WindowKey-discrete key s.cached ≡ false
    → IsOrdered (add_window key window s)
unfolding add_window total has
add_window-IsOrdered key window s o e = record {
  counted = omega (
    arith,
    o.counted,
    ap (total WindowKey-discrete length) (without_absent WindowKey-discrete key s.cached e),
  );
  distinct = insert-Distinct WindowKey-discrete key window s.cached o.distinct;
  once = append_last-Once key s.order (sym (o.listed key) ∙ e) o.once;
  listed = λ j. ground (
    arith,
    o.listed j,
    mem-append_last j key s.order,
    has-without WindowKey-discrete j key s.cached,
  );
}

none_left :
    (l : List (WindowKey × Bytes))
    → ((j : WindowKey) → has WindowKey-discrete j l ≡ false)
    → total WindowKey-discrete length l ≡ 0
unfolding total has
none_left [] h = refl
none_left ((k, window) ∷ l) h = absurd (ground (arith, h k))

-- what the order does not list is not there
all_gone : (s : Windows) → IsOrdered s → s.order ≡ [] → s.bytes ≡ 0
unfolding mem
all_gone s o e = o.counted ∙ none_left s.cached (λ j. o.listed j ∙ ap (mem WindowKey-discrete j) e)

remove_cached-order :
    (key : WindowKey) (order : List WindowKey) (s : Windows)
    → remove_cached key (record s { order = order })
      ≡ record (remove_cached key s) { order = order }
unfolding remove_cached
remove_cached-order key order s = elim (Option-cases (lookup WindowKey-discrete key s.cached)) [
  | inl e ↦ rw (e, remove_cached)
  | inr (window, e) ↦ rw (e, remove_cached)
]

-- the oldest key leaves
remove_oldest-IsOrdered :
    (oldest : WindowKey) (rest : List WindowKey) (s : Windows)
    → s.order ≡ oldest ∷ rest
    → IsOrdered s
    → IsOrdered (remove_cached oldest (record s { order = rest }))
unfolding mem
remove_oldest-IsOrdered oldest rest s e o =
    let once = subst Once e o.once in
    rw (remove_cached-order oldest rest s)
      (remove_cached-IsOrdered oldest rest s o once.1 (λ j. rw e (ground (arith, once.0))))

remove_cached-kept : (key : WindowKey) (s : Windows) → (remove_cached key s).order ≡ s.order
unfolding remove_cached
remove_cached-kept key s = ground arith

evict_oldest-IsSettled :
    (rest : List WindowKey) (s : Windows)
    → s.order ≡ rest
    → IsOrdered s
    → IsSettled (evict_oldest rest s)
unfolding evict_oldest
evict_oldest-IsSettled [] s e o = record { ordered = o; bounded = omega (arith, all_gone s o e) }
evict_oldest-IsSettled (oldest ∷ rest) s e o = elim (Bool-cases (ltb s.limit s.bytes)) [
  | inl over ↦ rw over (
      evict_oldest-IsSettled rest _ (remove_cached-kept oldest (record s { order = rest }))
        (remove_oldest-IsOrdered oldest rest s e o))
  | inr fits ↦ rw fits (record { ordered = o; bounded = ground (arith, fits) })
]

pub store_cached-IsSettled :
    (key : WindowKey) (window : Bytes) (s : Windows)
    → IsSettled s
    → IsSettled (store_cached key window s)
unfolding store_cached
store_cached-IsSettled key window s v =
    elim (Bool-cases (length window == 0 || ltb s.limit (length window))) [
      | inl skip ↦ rw skip v
      | inr room ↦ rw room (
          evict_oldest-IsSettled _ _ refl (
            add_window-IsOrdered key window _ (drop_window-IsOrdered key s v.ordered)
              (drop_window-absent key s)))
    ]

touch_window-IsSettled :
    (key : WindowKey) (s : Windows) → IsSettled s → IsSettled (touch_window key s)
unfolding touch_window
touch_window-IsSettled key s v = elim (Bool-cases (mem WindowKey-discrete key s.order)) [
  | inl e ↦
      rw (e, touch_window)
        (record {
          ordered = record {
            counted = v.ordered.counted;
            distinct = v.ordered.distinct;
            once =
                append_last-Once key (erase_first key s.order)
                  (ground (arith, mem-erase_first key key s.order v.ordered.once))
                  (erase_first-Once key s.order v.ordered.once);
            listed = λ j. ground (
              arith,
              v.ordered.listed j,
              mem-append_last j key (erase_first key s.order),
              mem-erase_first j key s.order v.ordered.once,
              e,
            );
          };
          bounded = v.bounded;
        })
  | inr e ↦ rw (e, touch_window) v
]

pub read_cached-IsSettled :
    (visited : List WindowKey) (fsid : Bytes) (offset count : ℕ) (s : Windows)
    → IsSettled s
    → IsSettled (read_cached visited fsid offset count s).0
unfolding read_cached
read_cached-IsSettled [] fsid offset count s v = v
read_cached-IsSettled (key ∷ more) fsid offset count s v =
    elim (Option-cases (lookup WindowKey-discrete key s.cached)) [
      | inl e ↦ rw (e, read_cached) (read_cached-IsSettled more fsid offset count s v)
      | inr (window, e) ↦ elim (Bool-cases (covers fsid offset count key window)) [
        | inl c ↦ rw (e, c, read_cached) (touch_window-IsSettled key s v)
        | inr c ↦ rw (e, c, read_cached) (read_cached-IsSettled more fsid offset count s v)
      ]
    ]

-- The operations on the window cache.
pub data WindowCall : Type 0 where
  store : WindowKey → Bytes → WindowCall
  read : List WindowKey → Bytes → ℕ → ℕ → WindowCall
  clear : WindowCall

unfoldable pub windows_run : List WindowCall → Windows → Windows
windows_run [] s = s
windows_run (store key window ∷ calls) s = windows_run calls (store_cached key window s)
windows_run (read visited fsid offset count ∷ calls) s =
    windows_run calls (read_cached visited fsid offset count s).0
windows_run (clear ∷ calls) s = windows_run calls (clear_cached s)

clear_cached-IsSettled : (s : Windows) → IsSettled (clear_cached s)
unfolding clear_cached total has mem
clear_cached-IsSettled s = record {
  ordered = record { counted = refl; distinct = tt; once = tt; listed = λ j. refl };
  bounded = omega arith;
}

windows_run-IsSettled_from :
    (calls : List WindowCall) (s : Windows) → IsSettled s → IsSettled (windows_run calls s)
unfolding windows_run
windows_run-IsSettled_from [] s v = v
windows_run-IsSettled_from (store key window ∷ calls) s v =
    windows_run-IsSettled_from calls _ (store_cached-IsSettled key window s v)
windows_run-IsSettled_from (read visited fsid offset count ∷ calls) s v =
    windows_run-IsSettled_from calls _ (read_cached-IsSettled visited fsid offset count s v)
windows_run-IsSettled_from (clear ∷ calls) s v =
    windows_run-IsSettled_from calls _ (clear_cached-IsSettled s)

-- After any sequence of stores, reads and clearings on a window cache that has been cleared, its
-- byte counter is the size of the windows held and within the limit, no key is held or listed
-- twice, and the eviction order lists exactly the keys that are held.
pub windows_run-IsSettled :
    (calls : List WindowCall) (s : Windows) → IsSettled (windows_run calls (clear_cached s))
windows_run-IsSettled calls s =
    windows_run-IsSettled_from calls (clear_cached s) (clear_cached-IsSettled s)
