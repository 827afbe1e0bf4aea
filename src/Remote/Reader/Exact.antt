-- ===== src/Remote/Reader/Exact.antt =====
-- internal/remote/remote.go: the reads against the content of the files.
use baidu_disk_link.Common.{
  ℕ, zero, suc, ◌≡◌, refl, sym, ap, ◌∙◌, Bool, true, false, List, [], ◌∷◌, inl, inr, length,
  if◌then◌else◌, arith, Bool-cases, Option-cases, ◌⊎◌,
}
use baidu_disk_link.Common.Decimal.{ℤ, pos, negsuc}
use baidu_disk_link.Common.Slices.{slice}
use baidu_disk_link.ChunkStore.Types.{Bytes}
use baidu_disk_link.Remote.Errors.{Failure, Outcome, ok, err, classify, short_read}
use baidu_disk_link.Remote.Windows.{WindowKey, Windows, read_cached}
use baidu_disk_link.Remote.Windows.Truth.{
  Truthful, store_cached-Truthful, read_cached-kept, read_cached-exact,
}
use baidu_disk_link.Remote.Reader.{
  Reader, Client, fresh_link, download_link, check_length, is_auth, attempt, fetch, cached_or,
  guarded, read_exact_range, read_stream_range,
}

pub Outcome-cases {ℓ} :
    {A : Type ℓ} (o : Outcome A) → ((a : A) × (o ≡ ok a)) ⊎ ((e : Failure) × (o ≡ err e))
Outcome-cases (ok a) = inl (a, refl)
Outcome-cases (err e) = inr (e, refl)

module _ {C : Type 0} (client : Client C) (visit : Windows → Bytes → List WindowKey)
    (content : Bytes → Bytes)
    (honest : (c : C) (fsid : Bytes) (offset count : ℕ) (bytes : Bytes)
      → (client.read_range c fsid offset count).1 ≡ ok bytes
      → bytes ≡ slice offset (length bytes) (content fsid)) where
  checked-honest :
      (whole : Bool) (count : ℕ) (got : Outcome Bytes) (bytes : Bytes)
      → check_length client visit whole count got ≡ ok bytes
      → (got ≡ ok bytes) × ((whole ≡ false) ⊎ (length bytes ≡ count))
  unfolding check_length
  checked-honest whole count (err f) bytes e = absurd (cc)
  checked-honest false count (ok got) bytes e = (e, inl refl)
  checked-honest true count (ok got) bytes e = ground (arith, e)

  attempt-honest :
      (more : ℕ) (whole : Bool) (fsid : Bytes) (offset count : ℕ) (last : Failure) (c : C)
      (bytes : Bytes)
      → (attempt client visit more whole fsid offset count last c).1 ≡ ok bytes
      → (bytes ≡ slice offset (length bytes) (content fsid))
        × ((whole ≡ false) ⊎ (length bytes ≡ count))
  unfolding attempt
  attempt-honest zero whole fsid offset count last c bytes e = absurd (cc)
  attempt-honest (suc more) whole fsid offset count last c bytes e =
      elim (Outcome-cases
        (check_length client visit whole count (client.read_range c fsid offset count).1)) [
          | inl (got, checked) ↦
              let whole_read =
                checked-honest whole count (client.read_range c fsid offset count).1 got checked in
              let same : got ≡ bytes = ground (arith, e, checked) in
              rw (sym same) (honest c fsid offset count got whole_read.0, whole_read.1)
          | inr (failure, checked) ↦
              elim (Option-cases (client.context_error (client.read_range c fsid offset count).0)) [
                | inl going_on ↦
                    let next = client.read_range c fsid offset count in
                    attempt-honest more whole fsid offset count failure
                      (if is_auth client visit (classify failure)
                        then client.refresh_auth next.0
                        else next.0)
                      bytes (ground (arith, e, checked, going_on))
                | inr (stop, stopped) ↦ absurd (ground (arith, e, checked, stopped))
              ]
        ]

  -- what a download gives, and what it leaves in the cache
  pub fetch-answer :
      (whole : Bool) (fsid : Bytes) (offset count : ℕ) (r : Reader) (c : C) (bytes : Bytes)
      → (fetch client visit whole fsid offset count r c).1 ≡ ok bytes
      → (bytes ≡ slice offset (length bytes) (content fsid))
        × ((whole ≡ false) ⊎ (length bytes ≡ count))
  unfolding fetch
  fetch-answer whole fsid offset count r c bytes e =
      elim (Outcome-cases (attempt client visit 2 whole fsid offset count short_read c).1) [
        | inl (got, a) ↦
            attempt-honest 2 whole fsid offset count short_read c bytes (ground (arith, e, a))
        | inr (failure, a) ↦ absurd (ground (arith, e, a))
      ]

  pub fetch-Truthful :
      (whole : Bool) (fsid : Bytes) (offset count : ℕ) (r : Reader) (c : C)
      → Truthful content r.windows.cached
      → Truthful content (fetch client visit whole fsid offset count r c).0.0.windows.cached
  unfolding fetch
  fetch-Truthful whole fsid offset count r c t =
      elim (Outcome-cases (attempt client visit 2 whole fsid offset count short_read c).1) [
        | inl (got, a) ↦
            rw (a, fetch)
              (store_cached-Truthful content (record { fsid = fsid; offset = offset }) got r.windows
                (attempt-honest 2 whole fsid offset count short_read c got a).0 t)
        | inr (failure, a) ↦ rw (a, fetch) t
      ]

  -- the cache or else the download, when a whole range is wanted
  pub exact-answer :
      (fsid : Bytes) (offset count : ℕ) (r : Reader) (c : C) (bytes : Bytes)
      → Truthful content r.windows.cached
      → (cached_or client visit (fetch client visit true fsid offset count) fsid offset count r c).1
        ≡ ok bytes
      → bytes ≡ slice offset count (content fsid)
  unfolding cached_or
  exact-answer fsid offset count r c bytes t e =
      elim (Option-cases (read_cached (visit r.windows fsid) fsid offset count r.windows).1) [
        | inl missing ↦
            let after : Reader = record r {
              windows = (read_cached (visit r.windows fsid) fsid offset count r.windows).0;
            } in
            let got =
              fetch-answer true fsid offset count after c bytes (ground (arith, e, missing)) in
            elim got.1 [
              | inl wrong ↦ absurd (cc)
              | inr full ↦ got.0 ∙ ap (λ n. slice offset n (content fsid)) full
            ]
        | inr (got, found) ↦
            read_cached-exact content (visit r.windows fsid) fsid offset count r.windows bytes t
              (ground (arith, e, found))
      ]

  pub exact-Truthful :
      (fsid : Bytes) (offset count : ℕ) (r : Reader) (c : C)
      → Truthful content r.windows.cached
      → Truthful content
          (cached_or client visit
            (fetch client visit true fsid offset count)
            fsid
            offset
            count
            r
            c).0.0.windows.cached
  unfolding cached_or
  exact-Truthful fsid offset count r c t =
      let kept = read_cached-kept content (visit r.windows fsid) fsid offset count r.windows in
      elim (Option-cases (read_cached (visit r.windows fsid) fsid offset count r.windows).1) [
        | inl missing ↦
            rw (missing, cached_or) (fetch-Truthful true fsid offset count _ c (rw kept t))
        | inr (got, found) ↦ rw (found, cached_or, kept) t
      ]

  pub download_link-windows :
      (now : ℕ) (fsid : Bytes) (r : Reader) (c : C)
      → (download_link client visit now fsid r c).0.0.windows ≡ r.windows
  unfolding download_link
  download_link-windows now fsid r c = elim (Option-cases (fresh_link client visit now fsid r)) [
    | inr (link, fresh) ↦ rw (fresh, download_link)
    | inl stale ↦ elim (Outcome-cases (client.get_download_link c fsid).1) [
      | inl (link, got) ↦ rw (stale, got, download_link)
      | inr (failure, got) ↦ rw (stale, got, download_link)
    ]
  ]

  -- `ReadExactRange` gives exactly the bytes of the file that were asked for: when the client is there and only ever gives
  -- bytes of the file at the offset asked for, and every cached window holds such bytes, a read that succeeds gives the
  -- whole range, retries, refreshed authorisations and cache hits included.
  pub read_exact_range-exact :
      (now : ℕ) (fsid : Bytes) (offset count : ℕ) (r : Reader) (c : C) (bytes : Bytes)
      → r.connected ≡ true
      → Truthful content r.windows.cached
      → (read_exact_range client visit now fsid offset (pos count) r c).1 ≡ ok bytes
      → bytes ≡ slice offset count (content fsid)
  unfolding read_exact_range guarded
  read_exact_range-exact now [] offset count r c bytes here t e = absurd (cc)
  read_exact_range-exact now (d ∷ fsid) offset count r c bytes here t e =
      let linked = download_link client visit now (d ∷ fsid) r c in
      let kept = download_link-windows now (d ∷ fsid) r c in
      elim (Outcome-cases linked.1) [
        | inl (link, got) ↦
            exact-answer (d ∷ fsid) offset count linked.0.0 linked.0.1 bytes (rw kept t)
              (ground (arith, e, got, here))
        | inr (failure, got) ↦ absurd (ground (arith, e, got, here))
      ]

  -- Whatever `ReadExactRange` answers, an error included, it leaves a cache whose windows all hold bytes of their files, when
  -- the client only ever gives bytes of the file at the offset asked for and the cache was such before.
  pub read_exact_range-Truthful :
      (now : ℕ) (fsid : Bytes) (offset : ℕ) (count : ℤ) (r : Reader) (c : C)
      → Truthful content r.windows.cached
      → Truthful content
          (read_exact_range client visit now fsid offset count r c).0.0.windows.cached
  unfolding read_exact_range guarded
  read_exact_range-Truthful now fsid offset (negsuc n) r c t = t
  read_exact_range-Truthful now [] offset (pos count) r c t = t
  read_exact_range-Truthful now (d ∷ fsid) offset (pos count) r c t =
      let linked = download_link client visit now (d ∷ fsid) r c in
      let kept = download_link-windows now (d ∷ fsid) r c in
      elim (Bool-cases r.connected) [
        | inr away ↦ rw (away, guarded) t
        | inl here ↦ elim (Outcome-cases linked.1) [
          | inl (link, got) ↦
              rw (here, got, guarded)
                (exact-Truthful (d ∷ fsid) offset count linked.0.0 linked.0.1 (rw kept t))
          | inr (failure, got) ↦ rw (here, got, guarded, kept) t
        ]
      ]

  -- A stream read that succeeds gives exactly the bytes of the file that were asked for, when the client is there and only
  -- ever gives bytes of the file at the offset asked for.
  pub read_stream_range-exact :
      (fsid : Bytes) (offset count : ℕ) (r : Reader) (c : C) (bytes : Bytes)
      → r.connected ≡ true
      → (read_stream_range client visit fsid offset (pos count) r c).1 ≡ ok bytes
      → bytes ≡ slice offset count (content fsid)
  unfolding read_stream_range
  read_stream_range-exact [] offset count r c bytes here e = absurd (cc)
  read_stream_range-exact (d ∷ fsid) offset count r c bytes here e =
      let got = client.read_range c (d ∷ fsid) offset count in
      elim (Outcome-cases (check_length client visit true count got.1)) [
        | inl (found, checked) ↦
            let whole = checked-honest true count got.1 found checked in
            let same : found ≡ bytes = ground (arith, e, checked, here) in
            elim whole.1 [
              | inl wrong ↦ absurd (cc)
              | inr full ↦
                  sym same
                  ∙ honest c (d ∷ fsid) offset count found whole.0
                  ∙ ap (λ n. slice offset n (content (d ∷ fsid))) full
            ]
        | inr (failure, checked) ↦ absurd (ground (arith, e, checked, here))
      ]
