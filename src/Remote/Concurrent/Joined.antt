-- ===== src/Remote/Concurrent/Joined.antt =====
-- internal/remote/remote.go: the reads of other callers that a read joins, and the bytes that it cuts out of them.
use baidu_disk_link.Common.{
  ℕ, ◌+◌, ◌-◌, ◌≤◌, ◌≡◌, refl, sym, ap, ◌∙◌, true, false, Option, some, List, inl, inr, ◌⊎◌, length,
  ltb, leb, min, arith, Bool-cases, Option-cases,
}
use baidu_disk_link.Common.Slices.{slice, length-slice, slice-slice}
use baidu_disk_link.ChunkStore.Types.{Bytes}
use baidu_disk_link.Remote.Errors.{Outcome, ok, err}
use baidu_disk_link.Remote.Windows.{WindowKey, Windows, read_cached}
use baidu_disk_link.Remote.Windows.Truth.{Truthful, read_cached-kept, read_cached-exact}
use baidu_disk_link.Remote.Reader.{Reader, Client, slice_for_window, fetch, cached_or, joined_or}
use baidu_disk_link.Remote.Reader.Exact.{fetch-answer}
use baidu_disk_link.Remote.Concurrent.{read_chunk}
use baidu_disk_link.Remote.Concurrent.Settled.{settings}

-- what is cut out of a window are bytes of the file, no more than asked for
pub slice_for_window-part :
    (content window : Bytes) (base offset count : ℕ)
    → base ≤ offset
    → window ≡ slice base (length window) content
    → (slice_for_window window base offset count
        ≡ slice offset (length (slice_for_window window base offset count)) content)
      × (length (slice_for_window window base offset count) ≤ count)
unfolding slice_for_window
slice_for_window-part content window base offset count h w =
    let start = offset - base in
    let place : base + start ≡ offset = omega (arith, h) in
    let cut : (k : ℕ)
        → start + k ≤ length window
        → (slice start k window ≡ slice offset (length (slice start k window)) content)
          × (length (slice start k window) ≤ k) =
      λ k fits.
        let size : length (slice start k window) ≡ k =
          length-slice start k window ∙ omega (arith, fits) in
        (
          ap (slice start k) w
              ∙ slice-slice start k base (length window) content fits
              ∙ ap (λ j. slice j k content) place
              ∙ ap (λ j. slice offset j content) (sym size),
          omega (arith, size),
        ) in
    elim (Bool-cases (leb (length window) start)) [
      | inl past ↦ rw (past, slice_for_window) (refl, omega arith)
      | inr some_there ↦ elim (Bool-cases (ltb (length window) (start + count))) [
        | inl short ↦
            let part = cut (length window - start) (ground (arith, some_there)) in
            rw (some_there, short, slice_for_window) (part.0, ground (arith, part.1, short))
        | inr full ↦ rw (some_there, full, slice_for_window) (cut count (ground (arith, full)))
      ]
    ]

-- What a read in flight comes to for those that join it: bytes of the file from its offset on, as many as a chunk has or up to
-- the end of the file.
unfoldable pub HoldsChunk : (Bytes → Bytes) → ℕ → WindowKey → Bytes → Type 0
HoldsChunk content chunk key bytes =
    (bytes ≡ slice key.offset (length bytes) (content key.fsid))
    × (min (key.offset + chunk) (length (content key.fsid)) ≤ key.offset + length bytes)

module _ {C : Type 0} (client : Client C) (visit : Windows → Bytes → List WindowKey)
    (others : C → WindowKey → Option (Outcome Bytes)) where
  -- the answer is that of the read itself, or cut out of what another caller reads
  pub joined_or-answer :
      (own : Reader → C → (Reader × C) × Outcome Bytes) (fsid : Bytes) (base offset count : ℕ)
      (r : Reader) (c : C) (bytes : Bytes)
      → (joined_or client visit others own fsid base offset count r c).1 ≡ ok bytes
      → ((own r c).1 ≡ ok bytes)
        ⊎ ((window : Bytes) × (others c (record { fsid = fsid; offset = base }) ≡ some (ok window))
            × (slice_for_window window base offset count ≡ bytes))
  unfolding joined_or
  joined_or-answer own fsid base offset count r c bytes e =
      elim (Option-cases (others c (record { fsid = fsid; offset = base }))) [
        | inl alone ↦ inl (ground (arith, e, alone))
        | inr (ok window, found) ↦ inr (window, found, ground (arith, e, found))
        | inr (err failure, found) ↦ absurd (ground (arith, e, found))
      ]

  module _ (content : Bytes → Bytes) where
    pub cached_or-part :
        (otherwise : Reader → C → (Reader × C) × Outcome Bytes) (fsid : Bytes) (offset count : ℕ)
        (r : Reader) (c : C) (bytes : Bytes) (P : Type 0)
        → Truthful content r.windows.cached
        → ((after : Reader)
            → Truthful content after.windows.cached
            → settings after ≡ settings r
            → (otherwise after c).1 ≡ ok bytes
            → P)
        → (cached_or client visit otherwise fsid offset count r c).1 ≡ ok bytes
        → (bytes ≡ slice offset count (content fsid)) ⊎ P
    unfolding cached_or
    cached_or-part otherwise fsid offset count r c bytes P t next e =
        let after : Reader = record r {
          windows = (read_cached (visit r.windows fsid) fsid offset count r.windows).0;
        } in
        let kept = read_cached-kept content (visit r.windows fsid) fsid offset count r.windows in
        elim (Option-cases (read_cached (visit r.windows fsid) fsid offset count r.windows).1) [
          | inl missing ↦ inr (next after (rw kept t) refl (ground (arith, e, missing)))
          | inr (got, found) ↦ inl (
              read_cached-exact content (visit r.windows fsid) fsid offset count r.windows bytes t
                (ground (arith, e, found)))
        ]

    module _ (chunk : ℕ)
        (honest : (c : C) (fsid : Bytes) (offset count : ℕ) (bytes : Bytes)
          → (client.read_range c fsid offset count).1 ≡ ok bytes
          → bytes ≡ slice offset (length bytes) (content fsid))
        (joined : (c : C) (key : WindowKey) (bytes : Bytes)
          → others c key ≡ some (ok bytes)
          → HoldsChunk content chunk key bytes) where
      -- a chunk that is joined is whole
      joined_chunk :
          (fsid : Bytes) (offset count : ℕ) (window : Bytes)
          → HoldsChunk content chunk (record { fsid = fsid; offset = offset }) window
          → count ≤ chunk
          → offset + count ≤ length (content fsid)
          → slice_for_window window offset offset count ≡ slice offset count (content fsid)
      unfolding HoldsChunk slice_for_window
      joined_chunk fsid offset count window h fits inside =
          let part =
            slice_for_window-part (content fsid) window offset offset count (omega arith) h.0 in
          let enough : count ≤ length window = omega (arith, h.1, fits, inside) in
          let size : length (slice_for_window window offset offset count) ≡ count =
            elim (Bool-cases (leb (length window) (offset - offset))) [
              | inl past ↦ rw (past, slice_for_window) (ground (arith, past, enough))
              | inr some_there ↦
                  let full : ltb (length window) (offset - offset + count) ≡ false =
                    ground (arith, enough) in
                  rw (some_there, full, slice_for_window)
                    (length-slice (offset - offset) count window ∙ omega (arith, enough))
            ] in
          part.0 ∙ ap (λ n. slice offset n (content fsid)) size

      pub read_chunk-exact :
          (fsid : Bytes) (offset count : ℕ) (r : Reader) (c : C) (bytes : Bytes)
          → Truthful content r.windows.cached
          → count ≤ chunk
          → offset + count ≤ length (content fsid)
          → (read_chunk client visit others fsid offset count r c).1 ≡ ok bytes
          → bytes ≡ slice offset count (content fsid)
      unfolding read_chunk
      read_chunk-exact fsid offset count r c bytes t fits inside e =
          let download = fetch client visit true fsid offset count in
          elim (cached_or-part (joined_or client visit others download fsid offset offset count)
            fsid offset count r c bytes (bytes ≡ slice offset count (content fsid)) t
            (λ after kept same got.
              elim (joined_or-answer download fsid offset offset count after c bytes got) [
                | inl own ↦
                    let whole =
                      fetch-answer client visit content honest true fsid offset count after c bytes
                        own in
                    elim whole.1 [
                      | inl wrong ↦ absurd (cc)
                      | inr full ↦ whole.0 ∙ ap (λ n. slice offset n (content fsid)) full
                    ]
                | inr (window, found, cut) ↦
                    sym cut
                    ∙ joined_chunk fsid offset count window (joined c _ window found) fits inside
              ])
            e) [ inl cached ↦ cached | inr read ↦ read ]
