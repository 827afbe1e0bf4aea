-- ===== src/Remote/Concurrent.antt =====
-- internal/remote/remote.go: `ReadRange` and `Prefetch`, which read a range in chunks that several workers fetch. The chunks come
-- in an order that is an argument, each whole; a read that another caller has in flight is joined.
pub mod Buffer
pub mod Exact
pub mod Joined
pub mod Settled
pub mod Whole
use baidu_disk_link.Common.{
  ℕ, zero, suc, ◌+◌, ◌-◌, ◌*◌, ◌/◌, ◌^◌, ◌≡◌, Bool, true, false, not, ◌&&◌, ◌||◌, Option, none,
  some, List, [], ◌∷◌, ◌++◌, length, take, drop, ltb, leb, ◌==◌, if◌then◌else◌, max, min,
}
use baidu_disk_link.Common.Decimal.{ℤ, pos, negsuc}
use baidu_disk_link.ChunkStore.Types.{Bytes}
use baidu_disk_link.Remote.Errors.{Failure, fsid_required, short_read, Outcome, ok, err}
use baidu_disk_link.Remote.Windows.{WindowKey, Windows}
use baidu_disk_link.Remote.Reader.{
  Reader, Client, zeros, fetch, joined_or, cached_or, guarded, download_link, read_sequential,
  read_exact_range,
}

-- copy(buf[begin:], bytes), within the buffer
unfoldable pub write_at : ℕ → Bytes → Bytes → Bytes
write_at begin bytes buf = take begin buf ++ bytes ++ drop (begin + length bytes) buf

module _ {C : Type 0} (client : Client C) (visit : Windows → Bytes → List WindowKey)
    (others : C → WindowKey → Option (Outcome Bytes)) where
  -- readChunk
  unfoldable pub read_chunk : Bytes → ℕ → ℕ → Reader → C → (Reader × C) × Outcome Bytes
  unfolding cached_or joined_or fetch
  read_chunk fsid offset count r c =
      cached_or client visit
        (joined_or client visit others (fetch client visit true fsid offset count) fsid offset
          offset count)
        fsid offset count r c

  -- what the workers do, for the chunks in the order in which they come; the first error ends the read
  unfoldable pub run_jobs :
      Bytes → (offset count chunk : ℕ) → List ℕ → Bytes → Reader → C → (Reader × C) × Outcome Bytes
  unfolding read_chunk write_at
  run_jobs fsid offset count chunk [] buf r c = ((r, c), ok buf)
  run_jobs fsid offset count chunk (index ∷ order) buf r c =
      let begin = index * chunk in
      let size = min (begin + chunk) count - begin in
      let got = read_chunk fsid (offset + begin) size r c in
      elim got.1 [
        | err e ↦ (got.0, err e)
        | ok bytes ↦
            run_jobs fsid offset count chunk order (write_at begin bytes buf) got.0.0 got.0.1
      ]

  module _ (order : ℕ → List ℕ) where
    unfoldable pub read_concurrent : Bytes → ℕ → ℕ → Reader → C → (Reader × C) × Outcome Bytes
    unfolding run_jobs read_sequential zeros
    read_concurrent fsid offset count r c =
        let total = (count + r.chunk_size - 1) / r.chunk_size in
        if count == 0
        then ((r, c), ok [])
        else if leb total 1
        then read_sequential client visit others fsid offset count r c
        else run_jobs fsid offset count r.chunk_size (order total) (zeros count) r c

    unfoldable pub read_with_options : Bytes → ℕ → ℕ → Reader → C → (Reader × C) × Outcome Bytes
    unfolding read_concurrent read_sequential
    read_with_options fsid offset count r c =
        if leb r.concurrency 1
        then read_sequential client visit others fsid offset count r c
        else read_concurrent fsid offset count r c

    -- the end of `ReadRange`: what is missing is read exactly
    unfoldable pub complete : ℕ → Bytes → ℕ → ℕ → Reader → C → (Reader × C) × Outcome Bytes
    unfolding read_with_options read_exact_range
    complete now fsid offset count r c =
        let got = read_with_options fsid offset count r c in
        elim got.1 [
          | err e ↦ (got.0, err e)
          | ok bytes ↦
              let more =
                read_exact_range client visit now fsid (offset + length bytes)
                  (pos (count - length bytes)) got.0.0 got.0.1 in
              if leb count (length bytes) then (got.0, ok bytes) else elim more.1 [
                | err e ↦ (more.0, err e)
                | ok missing ↦
                    if length (bytes ++ missing) == count
                    then (more.0, ok (bytes ++ missing))
                    else (more.0, err short_read)
              ]
        ]

    unfoldable pub read_range : ℕ → Bytes → ℕ → ℤ → Reader → C → (Reader × C) × Outcome Bytes
    unfolding guarded cached_or complete
    read_range now fsid offset count r c =
        guarded client visit
          (λ n. cached_or client visit (complete now fsid offset n) fsid offset n) now fsid count r
          c
