-- ===== src/Filesystem/Directory/Search.antt =====
-- internal/fs/filesystem.go: what `Lookup` answers.
use baidu_disk_link.Common.{
  ℕ, ◌*◌, ◌^◌, ◌≡◌, refl, sym, ap, ◌∙◌, Bool, true, false, not, ◌&&◌, ◌||◌, Option, none, some,
  List, [], ◌∷◌, inl, inr, ◌⊎◌, arith, Option-cases, Bool-cases,
}
use baidu_disk_link.Common.Maps.{lookup}
use baidu_disk_link.ChunkStore.Types.{Bytes, Bytes-discrete}
use baidu_disk_link.NegativeCache.{NegativeCache, is_missing, is_missing-mark_missing}
use baidu_disk_link.Remote.Errors.{Outcome}
use baidu_disk_link.Baidu.Listing.{RemoteEntry}
use baidu_disk_link.MetadataStore.{Entry, Table, StoreError, Answer, answer, refusal, list_children}
use baidu_disk_link.Filesystem.{Filesystem, Errno, success, eio, enoent}
use baidu_disk_link.Filesystem.Paths.{join_path}
use baidu_disk_link.Filesystem.Directory.{
  State, RefreshError, find_named, children_of, mark, known_missing, search, lookup_of,
}

-- a child that is found has the name, and is one of the children
find_named-name :
    (name : Bytes) (children : List Entry) (child : Entry)
    → find_named name children ≡ some child
    → child.name ≡ name
unfolding find_named
find_named-name name [] child e = absurd (cc)
find_named-name name (first ∷ children) child e = elim (Bytes-discrete first.name name) [
  | yes p ↦ let found : first ≡ child = ground (arith, e, p) in ap (λ x. x.name) (sym found) ∙ p
  | no apart ↦ find_named-name name children child (ground (arith, e, apart))
]

Answer-cases {ℓ} :
    {A : Type ℓ} (o : Answer A) → ((e : StoreError) × (o ≡ refusal e)) ⊎ ((a : A) × (o ≡ answer a))
Answer-cases (answer a) = inr (a, refl)
Answer-cases (refusal e) = inl (e, refl)

-- a path that is known to be missing stays so when it is asked for
is_missing-again :
    (path : Bytes) (now : ℕ) (c : NegativeCache)
    → (is_missing path now c).1 ≡ true
    → (is_missing path now (is_missing path now c).0).1 ≡ true
unfolding is_missing
is_missing-again path now c h = elim (Option-cases (lookup Bytes-discrete path c.entries)) [
  | inl absent ↦ absurd (ground (arith, h, absent))
  | inr (marked, held) ↦ ground (arith, h, held)
]

-- whether there is an error
unfoldable pub is_there {ℓ} : {A : Type ℓ} → Option A → Bool
is_there none = false
is_there (some a) = true

unfoldable pub is_refused {ℓ} : {A : Type ℓ} → Answer A → Bool
is_refused (answer a) = false
is_refused (refusal e) = true

not_other : (a b : Bool) → not a ≡ b → a ≡ not b
not_other a b e = ground (arith, e)

module _ {W : Type 0} (fresh : Table → ℕ)
    (list_remote : W → Bytes → W × Outcome (List RemoteEntry)) where
  -- the children are those that the store has afterwards
  children_of-listed :
      (again : State W → State W × Option RefreshError) (stale : Bool) (path : Bytes) (s : State W)
      (children : List Entry)
      → (children_of fresh list_remote again stale path s).1 ≡ some children
      → list_children path (children_of fresh list_remote again stale path s).0.store
        ≡ answer children
  unfolding children_of
  children_of-listed again stale path s children e =
      let after = again s in
      elim (Answer-cases (list_children path s.store)) [
        | inl (failure, bad) ↦ absurd (ground (arith, e, bad))
        | inr (before, listed) ↦ elim (Bool-cases stale) [
          | inr fresh_enough ↦ ground (arith, e, listed, fresh_enough)
          | inl old ↦ elim (Option-cases after.1) [
            | inr (failure, bad) ↦ absurd (ground (arith, e, listed, old, bad))
            | inl refreshed ↦ elim (Answer-cases (list_children path after.0.store)) [
              | inl (failure, bad) ↦ absurd (ground (arith, e, listed, old, refreshed, bad))
              | inr (now, again_listed) ↦ ground (arith, e, listed, old, refreshed, again_listed)
            ]
          ]
        ]
      ]

  -- the mark is there at once
  mark-known :
      (path : Bytes) (now : ℕ) (s : State W)
      → (known_missing fresh list_remote path now (mark fresh list_remote path now s)).1 ≡ true
  unfolding mark known_missing
  mark-known path now s =
      let cache : NegativeCache = elim s.negative [
        | some cache ↦ cache
        | none ↦ record { ttl = 30 * 10 ^ 9; entries = [] }
      ] in
      let known = is_missing-mark_missing path now now cache (omega arith) in known.1 (omega arith)

  known_missing-again :
      (path : Bytes) (now : ℕ) (s : State W)
      → (known_missing fresh list_remote path now s).1 ≡ true
      → (known_missing fresh list_remote path now (known_missing fresh list_remote path now s).0).1
        ≡ true
  unfolding known_missing
  known_missing-again path now s h = elim (Option-cases s.negative) [
    | inl nothing ↦ absurd (ground (arith, h, nothing))
    | inr (cache, there) ↦
        let held : (is_missing path now cache).1 ≡ true = ground (arith, h, there) in
        rw (there, known_missing) (is_missing-again path now cache held)
  ]

  -- whether the children of a path cannot be had: the store refuses, or a refresh that is due fails
  unfoldable pub fails :
      (State W → State W × Option RefreshError) → (State W → Bool) → Bytes → State W → Bool
  fails again stale path s =
      is_refused (list_children path s.store)
      || (stale s && (is_there (again s).1 || is_refused (list_children path (again s).0.store)))

  fails-children_of :
      (again : State W → State W × Option RefreshError) (stale : State W → Bool) (path : Bytes)
      (s : State W)
      → is_there (children_of fresh list_remote again (stale s) path s).1
        ≡ not (fails again stale path s)
  unfolding children_of fails is_there is_refused
  fails-children_of again stale path s =
      let after = again s in
      elim (Answer-cases (list_children path s.store)) [
        | inl (failure, bad) ↦ ground (arith, bad)
        | inr (before, listed) ↦ elim (Bool-cases (stale s)) [
          | inr fresh_enough ↦ ground (arith, listed, fresh_enough)
          | inl old ↦ elim (Option-cases after.1) [
            | inr (failure, bad) ↦ ground (arith, listed, old, bad)
            | inl refreshed ↦ elim (Answer-cases (list_children path after.0.store)) [
              | inl (failure, bad) ↦ ground (arith, listed, old, refreshed, bad)
              | inr (now, again_listed) ↦ ground (arith, listed, old, refreshed, again_listed)
            ]
          ]
        ]
      ]

  -- what an answer of `Lookup` says of the state after it; `known` tells whether the path was in the cache of missing paths,
  -- `failed` whether the children cannot be had
  unfoldable pub SaysTrue :
      (known failed : Bool) → ℕ → (path name : Bytes) → State W → Errno × Option Entry → Type 0
  unfolding known_missing
  SaysTrue known failed now path name after (errno, some child) =
      (errno ≡ success)
      × (known ≡ false)
      × (failed ≡ false)
      × (child.name ≡ name)
      × ((children : List Entry) × (list_children path after.store ≡ answer children)
          × (find_named name children ≡ some child))
  SaysTrue known failed now path name after (errno, none) =
      ((errno ≡ eio) × (known ≡ false) × (failed ≡ true))
      ⊎ ((errno ≡ enoent)
          × ((known_missing fresh list_remote (join_path path name) now after).1 ≡ true)
          × ((known ≡ true)
              ⊎ ((failed ≡ false)
                  × ((children : List Entry) × (list_children path after.store ≡ answer children)
                      × (find_named name children ≡ none)))))

  search-SaysTrue :
      (now : ℕ) (path name : Bytes) (s : State W) (children : List Entry)
      → list_children path s.store ≡ answer children
      → SaysTrue false false now path name
          (search fresh list_remote name (join_path path name) now s children).0
          (search fresh list_remote name (join_path path name) now s children).1
  unfolding search SaysTrue
  search-SaysTrue now path name s children listed = elim (Option-cases (find_named name children)) [
    | inl missing ↦
        rw (missing, search)
          (inr
            (refl, mark-known (join_path path name) now s, inr (refl, (children, listed, missing))))
    | inr (child, found) ↦
        rw (found, search)
          (refl, refl, refl, find_named-name name children child found, (children, listed, found))
  ]

  -- Whatever `Lookup` answers, for the root as for any directory and with or without a refresh, is true of the state that it
  -- leaves. A path that the cache knows to be missing is answered with ENOENT. Otherwise the answer is EIO exactly when the
  -- store refuses or a refresh that is due fails; else it is the first child of that name that the store lists, or, where
  -- it lists none, ENOENT, and the path is in the cache of missing paths, so that the next question is answered from
  -- there. There is a store.
  pub lookup_of-SaysTrue :
      (fs : Filesystem) (again : State W → State W × Option RefreshError) (stale : State W → Bool)
      (now : ℕ) (path name : Bytes) (s : State W)
      → fs.has_store ≡ true
      → SaysTrue
          (known_missing fresh list_remote (join_path path name) now s).1
          (fails again stale path (known_missing fresh list_remote (join_path path name) now s).0)
          now
          path
          name
          (lookup_of fresh list_remote fs again stale now path name s).0
          (lookup_of fresh list_remote fs again stale now path name s).1
  unfolding lookup_of SaysTrue is_there
  lookup_of-SaysTrue fs again stale now path name s there =
      let asked = known_missing fresh list_remote (join_path path name) now s in
      let listed = children_of fresh list_remote again (stale asked.0) path asked.0 in
      let had = fails-children_of again stale path asked.0 in
      elim (Bool-cases asked.1) [
        | inl missing ↦
            rw (there, missing, lookup_of)
              (inr (refl, known_missing-again (join_path path name) now s missing, inl refl))
        | inr unknown ↦ elim (Option-cases listed.1) [
          | inl none_had ↦
              let failed : fails again stale path asked.0 ≡ true =
                not_other _ _ (sym had ∙ ap is_there none_had) in
              rw (there, unknown, none_had, lookup_of) (inl (refl, refl, failed))
          | inr (children, found) ↦
              let worked : fails again stale path asked.0 ≡ false =
                not_other _ _ (sym had ∙ ap is_there found) in
              rw (there, unknown, found, worked, lookup_of)
                (search-SaysTrue now path name listed.0 children
                  (children_of-listed again (stale asked.0) path asked.0 children found))
        ]
      ]
