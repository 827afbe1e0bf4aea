-- ===== src/Remote/Concurrent/Whole.antt =====
-- internal/remote/remote.go: `ReadRange` gives the whole range, whether it reads in one window or in chunks.
use baidu_disk_link.Common.{
  ℕ, suc, ◌+◌, ◌-◌, ◌*◌, ◌/◌, ◌^◌, ◌≤◌, ◌<◌, ◌≡◌, refl, sym, ap, subst, ◌∙◌, true, false, Option,
  some, List, [], ◌∷◌, ◌++◌, inl, inr, ◌↔◌, length, leb, ◌==◌, max, arith, Bool-cases,
}
use baidu_disk_link.Common.Decimal.{pos}
use baidu_disk_link.Common.Slices.{slice, slice_end, length-slice, slice-append-slice}
use native.Mathlib.Nat.{div-mul-le_self, le-div_iff_mul-le}
use baidu_disk_link.ChunkStore.Types.{Bytes}
use baidu_disk_link.Remote.Errors.{Outcome, ok}
use baidu_disk_link.Remote.Windows.{WindowKey, Windows}
use baidu_disk_link.Remote.Windows.Truth.{Truthful}
use baidu_disk_link.Remote.Reader.{
  Reader, Client, zeros, align_offset, slice_for_window, fetch, guarded, download_link,
  fetch_aligned, fetch_window, read_sequential, read_exact_range,
}
use baidu_disk_link.Remote.Reader.Exact.{
  Outcome-cases, fetch-answer, download_link-windows, read_exact_range-exact,
}
use baidu_disk_link.Remote.Concurrent.{
  run_jobs, read_concurrent, read_with_options, complete, read_range,
}
use baidu_disk_link.Remote.Concurrent.Buffer.{byte_at-slice, byte_at-ext}
use baidu_disk_link.Remote.Concurrent.Exact.{comes, length-zeros, run_jobs-exact}
use baidu_disk_link.Remote.Concurrent.Joined.{
  slice_for_window-part, HoldsChunk, joined_or-answer, cached_or-part,
}
use baidu_disk_link.Remote.Concurrent.Settled.{
  read_with_options-settings, read_with_options-Truthful, download_link-settings,
}

align_offset-le : (offset size : ℕ) → align_offset offset size ≤ offset
unfolding align_offset
align_offset-le offset size = ground (arith, div-mul-le_self offset size)

-- the number of chunks against the bytes
last_chunk : (i count chunk : ℕ) → 0 < chunk → i < count → i / chunk < (count + chunk - 1) / chunk
last_chunk i count chunk h k =
    let low = div-mul-le_self i chunk in
    let expand : (i / chunk + 1) * chunk ≡ i / chunk * chunk + chunk = omega arith in
    let next : i / chunk + 1 ≤ (count + chunk - 1) / chunk =
      (le-div_iff_mul-le h).1 (omega (arith, low, expand, k, h)) in
    omega (arith, next)

chunk_starts :
    (j count chunk : ℕ)
    → 0 < chunk
    → 0 < count
    → j < (count + chunk - 1) / chunk
    → j * chunk < count
chunk_starts j count chunk h k below =
    let next : suc j ≤ (count + chunk - 1) / chunk = omega (arith, below) in
    let fits = (le-div_iff_mul-le h).0 next in
    let expand : suc j * chunk ≡ j * chunk + chunk = omega arith in
    omega (arith, fits, expand, k, h)

module _ {C : Type 0} (client : Client C) (visit : Windows → Bytes → List WindowKey)
    (others : C → WindowKey → Option (Outcome Bytes)) (content : Bytes → Bytes)
    (honest : (c : C) (fsid : Bytes) (offset count : ℕ) (bytes : Bytes)
      → (client.read_range c fsid offset count).1 ≡ ok bytes
      → bytes ≡ slice offset (length bytes) (content fsid))
    (chunk : ℕ)
    (joined : (c : C) (key : WindowKey) (bytes : Bytes)
      → others c key ≡ some (ok bytes)
      → HoldsChunk content chunk key bytes)
    (order : ℕ → List ℕ) (each : (total j : ℕ) → (comes j (order total) ≡ true) ↔ (j < total)) where
  -- bytes of the file from the offset on, no more than asked for
  abbrev IsPart : Bytes → ℕ → ℕ → Bytes → Type 0
  IsPart fsid offset count bytes =
      (bytes ≡ slice offset (length bytes) (content fsid)) × (length bytes ≤ count)

  whole-IsPart :
      (fsid : Bytes) (offset count : ℕ) (bytes : Bytes)
      → bytes ≡ slice offset count (content fsid)
      → IsPart fsid offset count bytes
  whole-IsPart fsid offset count bytes e =
      let size = ap length e ∙ length-slice offset count (content fsid) in
      (
        e
            ∙ slice_end offset count (content fsid)
            ∙ ap (λ k. slice offset k (content fsid)) (sym size),
        omega (arith, size),
      )

  fetch_aligned-IsPart :
      (fsid : Bytes) (offset count : ℕ) (r : Reader) (c : C) (bytes : Bytes)
      → (fetch_aligned client visit others fsid offset count r c).1 ≡ ok bytes
      → IsPart fsid offset count bytes
  unfolding fetch_aligned fetch_window HoldsChunk
  fetch_aligned-IsPart fsid offset count r c bytes e =
      let size = max (max count (8 * 2 ^ 20)) r.chunk_size in
      let base = align_offset offset size in
      let got = fetch client visit false fsid base size r c in
      let cut : (window : Bytes)
          → window ≡ slice base (length window) (content fsid)
          → slice_for_window window base offset count ≡ bytes
          → IsPart fsid offset count bytes =
        λ window true_window same. subst (IsPart fsid offset count) same (
          slice_for_window-part (content fsid) window base offset count
            (align_offset-le offset size) true_window) in
      elim (joined_or-answer client visit others
        (fetch_window client visit fsid size base offset count) fsid base offset count r c bytes
        e) [
          | inr (window, found, same) ↦ cut window (joined c _ window found).0 same
          | inl own ↦ elim (Outcome-cases got.1) [
            | inr (failure, bad) ↦ absurd (ground (arith, own, bad))
            | inl (window, good) ↦
                cut window
                  (fetch-answer client visit content honest false fsid base size r c window good).0
                  (ground (arith, own, good))
          ]
        ]

  read_sequential-IsPart :
      (fsid : Bytes) (offset count : ℕ) (r : Reader) (c : C) (bytes : Bytes)
      → Truthful content r.windows.cached
      → (read_sequential client visit others fsid offset count r c).1 ≡ ok bytes
      → IsPart fsid offset count bytes
  unfolding read_sequential
  read_sequential-IsPart fsid offset count r c bytes t e =
      elim (cached_or-part client visit others content
        (fetch_aligned client visit others fsid offset count) fsid offset count r c bytes
        (IsPart fsid offset count bytes) t
        (λ after tt_ same got. fetch_aligned-IsPart fsid offset count after c bytes got) e) [
          | inl whole ↦ whole-IsPart fsid offset count bytes whole
          | inr part ↦ part
        ]

  -- A read in chunks gives exactly the range that was asked for, in whatever order the workers fetch the chunks, if they fetch each
  -- one: for a range of more than one chunk within the file, from a client that only gives bytes of the file at the offset
  -- asked for a cache that holds such bytes, and reads of other callers that hold a chunk each.
  pub run_jobs-whole :
      (fsid : Bytes) (offset count : ℕ) (r : Reader) (c : C) (bytes : Bytes)
      → Truthful content r.windows.cached
      → offset + count ≤ length (content fsid)
      → 0 < r.chunk_size
      → r.chunk_size ≤ chunk
      → 0 < count
      → (run_jobs client visit others fsid offset count r.chunk_size
          (order ((count + r.chunk_size - 1) / r.chunk_size))
          (zeros count)
          r
          c).1
        ≡ ok bytes
      → bytes ≡ slice offset count (content fsid)
  run_jobs-whole fsid offset count r c bytes t inside positive fits filled e =
      let total = (count + r.chunk_size - 1) / r.chunk_size in
      let done =
        run_jobs-exact client visit others content chunk honest joined fsid offset count
          r.chunk_size (order total) (zeros count) r c bytes t inside (length-zeros count)
          (λ i h.
            inr ((each total (i / r.chunk_size)).1 (last_chunk i count r.chunk_size positive h)))
          (λ j h. chunk_starts j count r.chunk_size positive filled ((each total j).0 h)) positive
          fits e in
      byte_at-ext bytes (slice offset count (content fsid))
        (done.0 ∙ (omega (arith, inside, length-slice offset count (content fsid))))
        (λ i h.
          let low : i < count = omega (arith, h, done.0) in
          done.1 i low ∙ sym (byte_at-slice i offset count (content fsid) low))

  read_with_options-IsPart :
      (fsid : Bytes) (offset count : ℕ) (r : Reader) (c : C) (bytes : Bytes)
      → Truthful content r.windows.cached
      → offset + count ≤ length (content fsid)
      → 0 < r.chunk_size
      → r.chunk_size ≤ chunk
      → (read_with_options client visit others order fsid offset count r c).1 ≡ ok bytes
      → IsPart fsid offset count bytes
  unfolding read_with_options read_concurrent
  read_with_options-IsPart fsid offset count r c bytes t inside positive fits e =
      let total = (count + r.chunk_size - 1) / r.chunk_size in
      let sequential = read_sequential-IsPart fsid offset count r c bytes t in
      elim (Bool-cases (leb r.concurrency 1)) [
        | inl one ↦ sequential (ground (arith, e, one))
        | inr several ↦ elim (Bool-cases (count == 0)) [
          | inl nothing ↦
              let same : [] ≡ bytes = ground (arith, e, several, nothing) in
              subst (IsPart fsid offset count) same (refl, omega arith)
          | inr something ↦ elim (Bool-cases (leb total 1)) [
            | inl single ↦ sequential (ground (arith, e, several, something, single))
            | inr more ↦ whole-IsPart fsid offset count bytes (
                run_jobs-whole fsid offset count r c bytes t inside positive fits
                  (ground (arith, something)) (ground (arith, e, several, something, more)))
          ]
        ]
      ]

  complete-whole :
      (now : ℕ) (fsid : Bytes) (offset count : ℕ) (r : Reader) (c : C) (bytes : Bytes)
      → r.connected ≡ true
      → Truthful content r.windows.cached
      → offset + count ≤ length (content fsid)
      → 0 < r.chunk_size
      → r.chunk_size ≤ chunk
      → (complete client visit others order now fsid offset count r c).1 ≡ ok bytes
      → bytes ≡ slice offset count (content fsid)
  unfolding complete
  complete-whole now fsid offset count r c bytes here t inside positive fits e =
      let got = read_with_options client visit others order fsid offset count r c in
      let kept =
        read_with_options-Truthful client visit others content honest order fsid offset count r c
          t in
      let same_settings =
        read_with_options-settings client visit others order fsid offset count r c in
      let still : got.0.0.connected ≡ true = ap (λ s. s.0) same_settings ∙ here in
      elim (Outcome-cases got.1) [
        | inr (failure, bad) ↦ absurd (ground (arith, e, bad))
        | inl (data_read, good) ↦
            let part =
              read_with_options-IsPart fsid offset count r c data_read t inside positive fits
                good in
            let more =
              read_exact_range client visit now fsid (offset + length data_read)
                (pos (count - length data_read)) got.0.0 got.0.1 in
            elim (Bool-cases (leb count (length data_read))) [
              | inl enough ↦
                  let same : data_read ≡ bytes = ground (arith, e, good, enough) in
                  let size : length data_read ≡ count = ground (arith, enough, part.1) in
                  sym same ∙ part.0 ∙ ap (λ k. slice offset k (content fsid)) size
              | inr short ↦ elim (Outcome-cases more.1) [
                | inr (failure, bad) ↦ absurd (ground (arith, e, good, short, bad))
                | inl (missing, found) ↦
                    let exact =
                      read_exact_range-exact client visit content honest now fsid
                        (offset + length data_read) (count - length data_read) got.0.0 got.0.1
                        missing still kept found in
                    let same : data_read ++ missing ≡ bytes =
                      ground (arith, e, good, short, found) in
                    let total : length data_read + (count - length data_read) ≡ count =
                      omega (arith, part.1) in
                    sym same
                    ∙ ap (λ x. x ++ missing) part.0
                    ∙ ap (λ x. slice offset (length data_read) (content fsid) ++ x) exact
                    ∙ slice-append-slice offset (length data_read) (count - length data_read)
                        (content fsid)
                    ∙ ap (λ k. slice offset k (content fsid)) total
              ]
            ]
      ]

  -- `ReadRange` gives exactly the range that was asked for, when it gives one: from a window of the cache, from one download that is cut
  -- to size, or from chunks that workers fetch in any order, with what is missing at the end of a window read after it. The
  -- client is there and only gives bytes of the file at the offset asked for, every cached window holds such bytes, a read of
  -- another caller that is joined holds a chunk of the file or what is left of it, and the range lies within the file.
  pub read_range-whole :
      (now : ℕ) (fsid : Bytes) (offset count : ℕ) (r : Reader) (c : C) (bytes : Bytes)
      → r.connected ≡ true
      → Truthful content r.windows.cached
      → offset + count ≤ length (content fsid)
      → 0 < r.chunk_size
      → r.chunk_size ≤ chunk
      → (read_range client visit others order now fsid offset (pos count) r c).1 ≡ ok bytes
      → bytes ≡ slice offset count (content fsid)
  unfolding read_range guarded
  read_range-whole now [] offset count r c bytes here t inside positive fits e = absurd (cc)
  read_range-whole now (d ∷ fsid) offset count r c bytes here t inside positive fits e =
      let linked = download_link client visit now (d ∷ fsid) r c in
      let kept = download_link-windows client visit content honest now (d ∷ fsid) r c in
      let same_settings = download_link-settings client visit others now (d ∷ fsid) r c in
      elim (Outcome-cases linked.1) [
        | inr (failure, got) ↦ absurd (ground (arith, e, got, here))
        | inl (link, got) ↦
            elim (cached_or-part client visit others content
              (complete client visit others order now (d ∷ fsid) offset count) (d ∷ fsid) offset
              count linked.0.0 linked.0.1 bytes (bytes ≡ slice offset count (content (d ∷ fsid)))
              (rw kept t)
              (λ after true_windows same done.
                let settled = same ∙ same_settings in
                complete-whole now (d ∷ fsid) offset count after linked.0.1 bytes
                  (ap (λ s. s.0) settled ∙ here) true_windows inside
                  (subst (λ k. 0 < k) (sym (ap (λ s. s.1) settled)) positive)
                  (subst (λ k. k ≤ chunk) (sym (ap (λ s. s.1) settled)) fits) done)
              (ground (arith, e, got, here))) [ inl whole ↦ whole | inr part ↦ part ]
      ]
