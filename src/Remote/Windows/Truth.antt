-- ===== src/Remote/Windows/Truth.antt =====
-- internal/remote/remote.go: the windows of the cache against the content of the files.
use baidu_disk_link.Common.{
  ℕ, ◌+◌, ◌-◌, ◌≤◌, ◌≡◌, refl, true, ◌||◌, inl, inr, some, List, [], ◌∷◌, length, ltb, ◌==◌, arith,
  Bool-cases, Option-cases, ap, ◌∙◌,
}
use baidu_disk_link.Common.Maps.{lookup, without, has}
use baidu_disk_link.Common.Slices.{slice, slice-slice}
use baidu_disk_link.ChunkStore.Types.{Bytes}
use baidu_disk_link.Remote.Windows.{
  WindowKey, WindowKey-discrete, Windows, remove_cached, evict_oldest, drop_window, add_window,
  store_cached, touch_window, covers, read_cached,
}

module _ (content : Bytes → Bytes) where
  -- every window holds the bytes of its file from its offset on
  abbrev pub Truthful : List (WindowKey × Bytes) → Type 0
  Truthful [] = Unit {0}
  Truthful ((key, window) ∷ l) =
      (window ≡ slice key.offset (length window) (content key.fsid)) × Truthful l

  lookup-Truthful :
      (key : WindowKey) (window : Bytes) (l : List (WindowKey × Bytes))
      → Truthful l
      → lookup WindowKey-discrete key l ≡ some window
      → window ≡ slice key.offset (length window) (content key.fsid)
  unfolding lookup
  lookup-Truthful key window [] t e = absurd (cc)
  lookup-Truthful key window ((k, w) ∷ l) t e = elim (WindowKey-discrete key k) [
    | yes same ↦ ground (arith, e, t.0, same)
    | no other ↦ lookup-Truthful key window l t.1 (ground (arith, e, other))
  ]

  without-Truthful :
      (key : WindowKey) (l : List (WindowKey × Bytes))
      → Truthful l
      → Truthful (without WindowKey-discrete key l)
  unfolding without
  without-Truthful key [] t = tt
  without-Truthful key ((k, w) ∷ l) t = ground (arith, without-Truthful key l t.1, t.0)

  remove_cached-Truthful :
      (key : WindowKey) (s : Windows) → Truthful s.cached → Truthful (remove_cached key s).cached
  unfolding remove_cached
  remove_cached-Truthful key s t = elim (Option-cases (lookup WindowKey-discrete key s.cached)) [
    | inl e ↦ rw (e, remove_cached) t
    | inr (window, e) ↦ rw (e, remove_cached) (without-Truthful key s.cached t)
  ]

  drop_window-Truthful :
      (key : WindowKey) (s : Windows) → Truthful s.cached → Truthful (drop_window key s).cached
  unfolding drop_window
  drop_window-Truthful key s t = elim (Bool-cases (has WindowKey-discrete key s.cached)) [
    | inl e ↦ rw (e, drop_window) (remove_cached-Truthful key s t)
    | inr e ↦ rw (e, drop_window) t
  ]

  evict_oldest-Truthful :
      (rest : List WindowKey) (s : Windows)
      → Truthful s.cached
      → Truthful (evict_oldest rest s).cached
  unfolding evict_oldest
  evict_oldest-Truthful [] s t = t
  evict_oldest-Truthful (oldest ∷ rest) s t = elim (Bool-cases (ltb s.limit s.bytes)) [
    | inl over ↦
        rw over (
          evict_oldest-Truthful rest _
            (remove_cached-Truthful oldest (record s { order = rest }) t))
    | inr fits ↦ rw fits t
  ]

  pub store_cached-Truthful :
      (key : WindowKey) (window : Bytes) (s : Windows)
      → window ≡ slice key.offset (length window) (content key.fsid)
      → Truthful s.cached
      → Truthful (store_cached key window s).cached
  unfolding store_cached add_window
  store_cached-Truthful key window s true_window t =
      elim (Bool-cases (length window == 0 || ltb s.limit (length window))) [
        | inl skip ↦ rw skip t
        | inr room ↦ rw room (
            evict_oldest-Truthful _ (add_window key window (drop_window key s))
              (true_window, without-Truthful key _ (drop_window-Truthful key s t)))
      ]

  touch_window-cached : (key : WindowKey) (s : Windows) → (touch_window key s).cached ≡ s.cached
  unfolding touch_window
  touch_window-cached key s = ground arith

  pub read_cached-kept :
      (visited : List WindowKey) (fsid : Bytes) (offset count : ℕ) (s : Windows)
      → (read_cached visited fsid offset count s).0.cached ≡ s.cached
  unfolding read_cached
  read_cached-kept [] fsid offset count s = refl
  read_cached-kept (key ∷ more) fsid offset count s =
      ground (arith, read_cached-kept more fsid offset count s, touch_window-cached key s)

  -- the part of a window that covers a range
  covered :
      (fsid : Bytes) (offset count : ℕ) (key : WindowKey) (window : Bytes)
      → covers fsid offset count key window ≡ true
      → window ≡ slice key.offset (length window) (content key.fsid)
      → slice (offset - key.offset) count window ≡ slice offset count (content fsid)
  unfolding covers
  covered fsid offset count key window c t =
      let same : key.fsid ≡ fsid = ground arith in
      let inside : offset - key.offset + count ≤ length window = ground arith in
      let place : key.offset + (offset - key.offset) ≡ offset = ground arith in
      ap (slice (offset - key.offset) count) t
      ∙ slice-slice (offset - key.offset) count key.offset (length window) (content key.fsid) inside
      ∙ ap (λ n. slice n count (content key.fsid)) place
      ∙ ap (λ f. slice offset count (content f)) same

  -- A read that the window cache answers gives the bytes of the file: when every window held is a block of its file at its
  -- offset, whatever order the keys are visited in, the answer is the range that was asked for.
  pub read_cached-exact :
      (visited : List WindowKey) (fsid : Bytes) (offset count : ℕ) (s : Windows) (answer : Bytes)
      → Truthful s.cached
      → (read_cached visited fsid offset count s).1 ≡ some answer
      → answer ≡ slice offset count (content fsid)
  unfolding read_cached
  read_cached-exact [] fsid offset count s answer t e = absurd (cc)
  read_cached-exact (key ∷ more) fsid offset count s answer t e =
      let rest = read_cached-exact more fsid offset count s answer t in
      elim (Option-cases (lookup WindowKey-discrete key s.cached)) [
        | inl gone ↦ rest (ground (arith, e, gone))
        | inr (window, found) ↦ elim (Bool-cases (covers fsid offset count key window)) [
          | inl c ↦
              let exact =
                covered fsid offset count key window c
                  (lookup-Truthful key window s.cached t found) in
              ground (arith, e, found, c, exact)
          | inr c ↦ rest (ground (arith, e, found, c))
        ]
      ]
