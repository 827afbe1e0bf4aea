-- ===== src/Remote/Concurrent/Settled.antt =====
-- internal/remote/remote.go: what the reads leave as it is: the settings, and that the windows of the cache are true.
use baidu_disk_link.Common.{
  ℕ, ◌+◌, ◌-◌, ◌*◌, ◌/◌, ◌^◌, ◌≡◌, refl, ◌∙◌, Bool, true, false, List, [], ◌∷◌, inl, inr, length,
  leb, ◌==◌, Option, min, max, Bool-cases, Option-cases,
}
use baidu_disk_link.Common.Slices.{slice}
use baidu_disk_link.ChunkStore.Types.{Bytes}
use baidu_disk_link.Remote.Errors.{Outcome, ok, err, short_read}
use baidu_disk_link.Remote.Windows.{WindowKey, Windows, read_cached}
use baidu_disk_link.Remote.Windows.Truth.{Truthful, read_cached-kept}
use baidu_disk_link.Remote.Reader.{
  Reader, Client, zeros, align_offset, fetch, cached_or, download_link, fresh_link, attempt,
  fetch_aligned, read_sequential, joined_or, fetch_window,
}
use baidu_disk_link.Remote.Reader.Exact.{Outcome-cases, fetch-Truthful}
use baidu_disk_link.Remote.Concurrent.{
  write_at, read_chunk, run_jobs, read_concurrent, read_with_options,
}

abbrev pub settings : Reader → Bool × ℕ
settings r = (r.connected, r.chunk_size)

module _ {C : Type 0} (client : Client C) (visit : Windows → Bytes → List WindowKey)
    (others : C → WindowKey → Option (Outcome Bytes)) where
  fetch-settings :
      (whole : Bool) (fsid : Bytes) (offset count : ℕ) (r : Reader) (c : C)
      → settings (fetch client visit whole fsid offset count r c).0.0 ≡ settings r
  unfolding fetch
  fetch-settings whole fsid offset count r c =
      elim (Outcome-cases (attempt client visit 2 whole fsid offset count short_read c).1) [
        | inl (got, a) ↦ rw (a, fetch) refl
        | inr (failure, a) ↦ rw (a, fetch) refl
      ]

  -- the look into the cache changes only the order of the windows
  pub cached_or-settings :
      (otherwise : Reader → C → (Reader × C) × Outcome Bytes) (fsid : Bytes) (offset count : ℕ)
      (r : Reader) (c : C)
      → ((after : Reader) → settings (otherwise after c).0.0 ≡ settings after)
      → settings (cached_or client visit otherwise fsid offset count r c).0.0 ≡ settings r
  unfolding cached_or
  cached_or-settings otherwise fsid offset count r c kept =
      elim (Option-cases (read_cached (visit r.windows fsid) fsid offset count r.windows).1) [
        | inl missing ↦ rw (missing, cached_or) (kept _)
        | inr (got, found) ↦ rw (found, cached_or) refl
      ]

  joined_or-settings :
      (own : Reader → C → (Reader × C) × Outcome Bytes) (fsid : Bytes) (base offset count : ℕ)
      (r : Reader) (c : C)
      → settings (own r c).0.0 ≡ settings r
      → settings (joined_or client visit others own fsid base offset count r c).0.0 ≡ settings r
  unfolding joined_or
  joined_or-settings own fsid base offset count r c kept =
      elim (Option-cases (others c (record { fsid = fsid; offset = base }))) [
        | inl alone ↦ rw (alone, joined_or) kept
        | inr (ok bytes, found) ↦ rw (found, joined_or) refl
        | inr (err failure, found) ↦ rw (found, joined_or) refl
      ]

  fetch_aligned-settings :
      (fsid : Bytes) (offset count : ℕ) (r : Reader) (c : C)
      → settings (fetch_aligned client visit others fsid offset count r c).0.0 ≡ settings r
  unfolding fetch_aligned fetch_window
  fetch_aligned-settings fsid offset count r c =
      let size = max (max count (8 * 2 ^ 20)) r.chunk_size in
      let base = align_offset offset size in
      let got = fetch client visit false fsid base size r c in
      let kept = fetch-settings false fsid base size r c in
      joined_or-settings (fetch_window client visit fsid size base offset count) fsid base offset
        count r c
        (elim (Outcome-cases got.1) [
          | inl (bytes, good) ↦ rw (good, fetch_window) kept
          | inr (failure, bad) ↦ rw (bad, fetch_window) kept
        ])

  pub read_sequential-settings :
      (fsid : Bytes) (offset count : ℕ) (r : Reader) (c : C)
      → settings (read_sequential client visit others fsid offset count r c).0.0 ≡ settings r
  unfolding read_sequential
  read_sequential-settings fsid offset count r c =
      cached_or-settings (fetch_aligned client visit others fsid offset count) fsid offset count r c
        (λ after. fetch_aligned-settings fsid offset count after c)

  run_jobs-settings :
      (fsid : Bytes) (offset count chunk : ℕ) (order : List ℕ) (buf : Bytes) (r : Reader) (c : C)
      → settings (run_jobs client visit others fsid offset count chunk order buf r c).0.0
        ≡ settings r
  unfolding run_jobs read_chunk
  run_jobs-settings fsid offset count chunk [] buf r c = refl
  run_jobs-settings fsid offset count chunk (index ∷ order) buf r c =
      let begin = index * chunk in
      let want = min (begin + chunk) count - begin in
      let got = read_chunk client visit others fsid (offset + begin) want r c in
      let kept : settings got.0.0 ≡ settings r =
        cached_or-settings
          (joined_or client visit others (fetch client visit true fsid (offset + begin) want) fsid
            (offset + begin) (offset + begin) want)
          fsid (offset + begin) want r c
          (λ after.
            joined_or-settings (fetch client visit true fsid (offset + begin) want) fsid
              (offset + begin) (offset + begin) want after c
              (fetch-settings true fsid (offset + begin) want after c)) in
      elim (Outcome-cases got.1) [
        | inr (failure, bad) ↦ rw (bad, run_jobs) kept
        | inl (piece, good) ↦
            rw (good, run_jobs)
              (run_jobs-settings fsid offset count chunk order (write_at begin piece buf) got.0.0
                  got.0.1
                ∙ kept)
      ]

  pub download_link-settings :
      (now : ℕ) (fsid : Bytes) (r : Reader) (c : C)
      → settings (download_link client visit now fsid r c).0.0 ≡ settings r
  unfolding download_link
  download_link-settings now fsid r c = elim (Option-cases (fresh_link client visit now fsid r)) [
    | inr (link, fresh) ↦ rw (fresh, download_link) refl
    | inl stale ↦ elim (Outcome-cases (client.get_download_link c fsid).1) [
      | inl (link, got) ↦ rw (stale, got, download_link) refl
      | inr (failure, got) ↦ rw (stale, got, download_link) refl
    ]
  ]

  pub read_with_options-settings :
      (order : ℕ → List ℕ) (fsid : Bytes) (offset count : ℕ) (r : Reader) (c : C)
      → settings (read_with_options client visit others order fsid offset count r c).0.0
        ≡ settings r
  unfolding read_with_options read_concurrent
  read_with_options-settings order fsid offset count r c =
      let total = (count + r.chunk_size - 1) / r.chunk_size in
      let sequential = read_sequential-settings fsid offset count r c in
      elim (Bool-cases (leb r.concurrency 1)) [
        | inl one ↦ rw (one, read_with_options) sequential
        | inr several ↦ elim (Bool-cases (count == 0)) [
          | inl nothing ↦ rw (several, nothing, read_with_options) refl
          | inr something ↦ elim (Bool-cases (leb total 1)) [
            | inl single ↦ rw (several, something, single, read_with_options) sequential
            | inr more ↦
                rw (several, something, more, read_with_options)
                  (run_jobs-settings fsid offset count r.chunk_size (order total) (zeros count) r c)
          ]
        ]
      ]

  module _ (content : Bytes → Bytes)
      (honest : (c : C) (fsid : Bytes) (offset count : ℕ) (bytes : Bytes)
        → (client.read_range c fsid offset count).1 ≡ ok bytes
        → bytes ≡ slice offset (length bytes) (content fsid)) where
    pub cached_or-Truthful :
        (otherwise : Reader → C → (Reader × C) × Outcome Bytes) (fsid : Bytes) (offset count : ℕ)
        (r : Reader) (c : C)
        → ((after : Reader)
            → Truthful content after.windows.cached
            → Truthful content (otherwise after c).0.0.windows.cached)
        → Truthful content r.windows.cached
        → Truthful content
            (cached_or client visit otherwise fsid offset count r c).0.0.windows.cached
    unfolding cached_or
    cached_or-Truthful otherwise fsid offset count r c next t =
        let kept = read_cached-kept content (visit r.windows fsid) fsid offset count r.windows in
        elim (Option-cases (read_cached (visit r.windows fsid) fsid offset count r.windows).1) [
          | inl missing ↦ rw (missing, cached_or) (next _ (rw kept t))
          | inr (got, found) ↦ rw (found, cached_or, kept) t
        ]

    joined_or-Truthful :
        (own : Reader → C → (Reader × C) × Outcome Bytes) (fsid : Bytes) (base offset count : ℕ)
        (r : Reader) (c : C)
        → Truthful content (own r c).0.0.windows.cached
        → Truthful content r.windows.cached
        → Truthful content
            (joined_or client visit others own fsid base offset count r c).0.0.windows.cached
    unfolding joined_or
    joined_or-Truthful own fsid base offset count r c next t =
        elim (Option-cases (others c (record { fsid = fsid; offset = base }))) [
          | inl alone ↦ rw (alone, joined_or) next
          | inr (ok bytes, found) ↦ rw (found, joined_or) t
          | inr (err failure, found) ↦ rw (found, joined_or) t
        ]

    fetch_aligned-Truthful :
        (fsid : Bytes) (offset count : ℕ) (r : Reader) (c : C)
        → Truthful content r.windows.cached
        → Truthful content
            (fetch_aligned client visit others fsid offset count r c).0.0.windows.cached
    unfolding fetch_aligned fetch_window
    fetch_aligned-Truthful fsid offset count r c t =
        let size = max (max count (8 * 2 ^ 20)) r.chunk_size in
        let base = align_offset offset size in
        let got = fetch client visit false fsid base size r c in
        let kept = fetch-Truthful client visit content honest false fsid base size r c t in
        joined_or-Truthful (fetch_window client visit fsid size base offset count) fsid base offset
          count r c
          (elim (Outcome-cases got.1) [
            | inl (bytes, good) ↦ rw (good, fetch_window) kept
            | inr (failure, bad) ↦ rw (bad, fetch_window) kept
          ])
          t

    pub read_sequential-Truthful :
        (fsid : Bytes) (offset count : ℕ) (r : Reader) (c : C)
        → Truthful content r.windows.cached
        → Truthful content
            (read_sequential client visit others fsid offset count r c).0.0.windows.cached
    unfolding read_sequential
    read_sequential-Truthful fsid offset count r c t =
        cached_or-Truthful (fetch_aligned client visit others fsid offset count) fsid offset count r
          c (λ after. fetch_aligned-Truthful fsid offset count after c) t

    pub read_chunk-Truthful :
        (fsid : Bytes) (offset count : ℕ) (r : Reader) (c : C)
        → Truthful content r.windows.cached
        → Truthful content (read_chunk client visit others fsid offset count r c).0.0.windows.cached
    unfolding read_chunk
    read_chunk-Truthful fsid offset count r c t =
        let download = fetch client visit true fsid offset count in
        cached_or-Truthful (joined_or client visit others download fsid offset offset count) fsid
          offset count r c
          (λ after kept.
            joined_or-Truthful download fsid offset offset count after c
              (fetch-Truthful client visit content honest true fsid offset count after c kept) kept)
          t

    run_jobs-Truthful :
        (fsid : Bytes) (offset count chunk : ℕ) (order : List ℕ) (buf : Bytes) (r : Reader) (c : C)
        → Truthful content r.windows.cached
        → Truthful content
            (run_jobs client visit others fsid offset count chunk order buf r c).0.0.windows.cached
    unfolding run_jobs read_chunk
    run_jobs-Truthful fsid offset count chunk [] buf r c t = t
    run_jobs-Truthful fsid offset count chunk (index ∷ order) buf r c t =
        let begin = index * chunk in
        let want = min (begin + chunk) count - begin in
        let got = read_chunk client visit others fsid (offset + begin) want r c in
        let kept = read_chunk-Truthful fsid (offset + begin) want r c t in
        elim (Outcome-cases got.1) [
          | inr (failure, bad) ↦ rw (bad, run_jobs) kept
          | inl (piece, good) ↦
              rw (good, run_jobs)
                (run_jobs-Truthful fsid offset count chunk order (write_at begin piece buf) got.0.0
                  got.0.1 kept)
        ]

    -- Whatever a read in chunks answers, in whatever order the chunks come, it leaves a cache whose windows hold bytes of their
    -- files.
    pub read_with_options-Truthful :
        (order : ℕ → List ℕ) (fsid : Bytes) (offset count : ℕ) (r : Reader) (c : C)
        → Truthful content r.windows.cached
        → Truthful content
            (read_with_options client visit others order fsid offset count r c).0.0.windows.cached
    unfolding read_with_options read_concurrent
    read_with_options-Truthful order fsid offset count r c t =
        let total = (count + r.chunk_size - 1) / r.chunk_size in
        let sequential = read_sequential-Truthful fsid offset count r c t in
        elim (Bool-cases (leb r.concurrency 1)) [
          | inl one ↦ rw (one, read_with_options) sequential
          | inr several ↦ elim (Bool-cases (count == 0)) [
            | inl nothing ↦ rw (several, nothing, read_with_options) t
            | inr something ↦ elim (Bool-cases (leb total 1)) [
              | inl single ↦ rw (several, something, single, read_with_options) sequential
              | inr more ↦
                  rw (several, something, more, read_with_options)
                    (run_jobs-Truthful fsid offset count r.chunk_size (order total) (zeros count) r
                      c t)
            ]
          ]
        ]
