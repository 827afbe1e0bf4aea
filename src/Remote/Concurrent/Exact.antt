-- ===== src/Remote/Concurrent/Exact.antt =====
-- internal/remote/remote.go: the chunks of `readConcurrent` and the reads of `ReadRange` against the content of the files.
use baidu_disk_link.Common.{
  ℕ, zero, suc, ◌+◌, ◌-◌, ◌*◌, ◌/◌, ◌≤◌, ◌<◌, ◌≡◌, refl, sym, ap, subst, ◌∙◌, Bool, true, false,
  ◌&&◌, Option, some, List, [], ◌∷◌, inl, inr, ◌⊎◌, length, ltb, leb, ◌==◌, if◌then◌else◌, min,
  arith, Bool-cases,
}
use baidu_disk_link.Common.Slices.{slice, length-slice}
use native.Mathlib.Nat.{div-mul-le_self, lt-div-mul-add}
use baidu_disk_link.ChunkStore.Types.{Bytes}
use baidu_disk_link.Remote.Errors.{Outcome, ok}
use baidu_disk_link.Remote.Windows.{WindowKey, Windows}
use baidu_disk_link.Remote.Windows.Truth.{Truthful}
use baidu_disk_link.Remote.Reader.{Reader, Client, zeros}
use baidu_disk_link.Remote.Reader.Exact.{Outcome-cases}
use baidu_disk_link.Remote.Concurrent.{write_at, read_chunk, run_jobs}
use baidu_disk_link.Remote.Concurrent.Settled.{read_chunk-Truthful}
use baidu_disk_link.Remote.Concurrent.Joined.{HoldsChunk, read_chunk-exact}
use baidu_disk_link.Remote.Concurrent.Buffer.{
  byte_at, byte_at-slice, length-write_at, byte_at-write_at,
}

-- whether a chunk is among those that come
unfoldable pub comes : ℕ → List ℕ → Bool
comes index [] = false
comes index (j ∷ order) = if j == index then true else comes index order

pub length-zeros : (n : ℕ) → length (zeros n) ≡ n
unfolding zeros
length-zeros zero = refl
length-zeros (suc n) = ap suc (length-zeros n)

module _ {C : Type 0} (client : Client C) (visit : Windows → Bytes → List WindowKey)
    (others : C → WindowKey → Option (Outcome Bytes)) (content : Bytes → Bytes) (least : ℕ)
    (honest : (c : C) (fsid : Bytes) (offset count : ℕ) (bytes : Bytes)
      → (client.read_range c fsid offset count).1 ≡ ok bytes
      → bytes ≡ slice offset (length bytes) (content fsid))
    (joined : (c : C) (key : WindowKey) (bytes : Bytes)
      → others c key ≡ some (ok bytes)
      → HoldsChunk content least key bytes) where
  -- a byte is right after its chunk has come
  right_after :
      (fsid : Bytes) (offset count chunk index : ℕ) (order : List ℕ) (buf piece : Bytes)
      → piece
        ≡ slice
            (offset + index * chunk)
            (min (index * chunk + chunk) count - index * chunk)
            (content fsid)
      → length piece ≡ min (index * chunk + chunk) count - index * chunk
      → index * chunk + length piece ≤ length buf
      → 0 < chunk
      → (i : ℕ) → i < count
      → (byte_at i buf ≡ byte_at (offset + i) (content fsid))
        ⊎ (comes (i / chunk) (index ∷ order) ≡ true)
      → (byte_at i (write_at (index * chunk) piece buf) ≡ byte_at (offset + i) (content fsid))
        ⊎ (comes (i / chunk) order ≡ true)
  unfolding comes
  right_after fsid offset count chunk index order buf piece exact filled fits pos_chunk i h before =
      let begin = index * chunk in
      let want = min (begin + chunk) count - begin in
      let written = byte_at-write_at i begin piece buf fits in
      elim (Bool-cases (leb begin i && ltb i (begin + length piece))) [
        | inl inside ↦
            let low : begin ≤ i = ground (arith, inside) in
            let high : i - begin < want = ground (arith, inside, filled) in
            let place : offset + begin + (i - begin) ≡ offset + i = omega (arith, low) in
            let taken : byte_at i (write_at begin piece buf) ≡ byte_at (i - begin) piece =
              written ∙ ap (λ b. if b then byte_at (i - begin) piece else byte_at i buf) inside in
            inl (
              taken
              ∙ ap (byte_at (i - begin)) exact
              ∙ byte_at-slice (i - begin) (offset + begin) want (content fsid) high
              ∙ ap (λ k. byte_at k (content fsid)) place)
        | inr outside ↦
            let left : byte_at i (write_at begin piece buf) ≡ byte_at i buf =
              written ∙ ap (λ b. if b then byte_at (i - begin) piece else byte_at i buf) outside in
            elim before [
              | inl here ↦ inl (left ∙ here)
              | inr coming ↦ elim (Bool-cases (index == i / chunk)) [
                | inr other ↦ inr (ground (arith, coming, other))
                | inl own ↦
                    let same : i / chunk ≡ index = ground (arith, own) in
                    let low : begin ≤ i =
                      subst (λ k. k * chunk ≤ i) same (div-mul-le_self i chunk) in
                    let high : i < begin + chunk =
                      subst (λ k. i < k * chunk + chunk) same (lt-div-mul-add pos_chunk) in
                    absurd (ground (arith, outside, low, high, filled, h))
              ]
            ]
      ]

  -- every byte of the buffer that is written, or whose chunk is still to come, is right in the end
  pub run_jobs-exact :
      (fsid : Bytes) (offset count chunk : ℕ) (order : List ℕ) (buf : Bytes) (r : Reader) (c : C)
      (bytes : Bytes)
      → Truthful content r.windows.cached
      → offset + count ≤ length (content fsid)
      → length buf ≡ count
      → ((i : ℕ)
          → i < count
          → (byte_at i buf ≡ byte_at (offset + i) (content fsid))
            ⊎ (comes (i / chunk) order ≡ true))
      → ((j : ℕ) → comes j order ≡ true → j * chunk < count)
      → 0 < chunk
      → chunk ≤ least
      → (run_jobs client visit others fsid offset count chunk order buf r c).1 ≡ ok bytes
      → (length bytes ≡ count)
        × ((i : ℕ) → i < count → byte_at i bytes ≡ byte_at (offset + i) (content fsid))
  unfolding run_jobs comes read_chunk
  run_jobs-exact fsid offset count chunk [] buf r c bytes t inside size right within pos_chunk small
        e =
      let same : buf ≡ bytes = ground (arith, e) in
      (
        sym (ap length same) ∙ size,
        λ i h. elim (right i h) [
          | inl here ↦ ap (byte_at i) (sym same) ∙ here
          | inr wrong ↦ absurd (cc)
        ],
      )
  run_jobs-exact fsid offset count chunk (index ∷ order) buf r c bytes t inside size right within
        pos_chunk small e =
      let begin = index * chunk in
      let want = min (begin + chunk) count - begin in
      let got = read_chunk client visit others fsid (offset + begin) want r c in
      elim (Outcome-cases got.1) [
        | inr (failure, bad) ↦ absurd (ground (arith, e, bad))
        | inl (piece, good) ↦
            let first : begin < count = within index (ground arith) in
            let exact =
              read_chunk-exact client visit others content least honest joined fsid (offset + begin)
                want r c piece t (omega (arith, small)) (omega (arith, inside, first)) good in
            let kept =
              read_chunk-Truthful client visit others content honest fsid (offset + begin) want r c
                t in
            let filled : length piece ≡ want = omega (
              arith,
              ap length exact,
              length-slice (offset + begin) want (content fsid),
              inside,
              first,
            ) in
            let fits : begin + length piece ≤ length buf = omega (arith, filled, size, first) in
            run_jobs-exact fsid offset count chunk order (write_at begin piece buf) got.0.0 got.0.1
              bytes kept inside (length-write_at begin piece buf fits ∙ size)
              (λ i h.
                right_after fsid offset count chunk index order buf piece exact filled fits
                  pos_chunk i h (right i h))
              (λ j h. within j (ground (arith, h))) pos_chunk small (ground (arith, e, good))
      ]
