-- ===== src/Stream/Assembly/Exact.antt =====
-- internal/stream/manager.go: a read against the content of the file.
use baidu_disk_link.Common.{
  ℕ, zero, suc, ◌+◌, ◌-◌, ◌*◌, ◌/◌, ◌≤◌, ◌<◌, ◌≡◌, ◌≢◌, refl, ap, ◌∙◌, false, ◌⊎◌, inl, inr, List,
  [], ◌∷◌, length, take, drop, ltb, leb, if◌then◌else◌, min, arith, Bool-cases,
}
use native.Mathlib.Nat.{div-mul-le_self, lt-div-mul-add, le-div_iff_mul-le, add-mul}
use baidu_disk_link.Common.Slices.{
  slice, length-slice, slice-slice, slice-append-slice, slice_past, slice_end,
}
use baidu_disk_link.Common.Decimal.{pos}
use baidu_disk_link.ChunkStore.Types.{Bytes, File}
use baidu_disk_link.Stream.Assembly.{
  Result, ok, is_empty, clip, check_request, wait_chunks, part, copy_chunks, read_range,
  read_request, read_at,
}

-- Chunk `index` of a file with the given content.
abbrev pub chunk_of : ℕ → Bytes → ℕ → Bytes
chunk_of chunk_size content index = slice (index * chunk_size) chunk_size content

-- The chunks from `index` on, `count` of them.
chunks_from : ℕ → Bytes → ℕ → ℕ → List Bytes
chunks_from chunk_size content index zero = []
chunks_from chunk_size content index (suc count) =
    chunk_of chunk_size content index ∷ chunks_from chunk_size content (index + 1) count

wait_chunks_lem :
    (chunk_size : ℕ) (content : Bytes) (wait : ℕ → Result Bytes)
    → ((index : ℕ) → wait index ≡ ok (chunk_of chunk_size content index))
    → (index count : ℕ)
    → wait_chunks wait index count ≡ ok (chunks_from chunk_size content index count)
unfolding wait_chunks chunks_from
wait_chunks_lem chunk_size content wait h index zero = refl
wait_chunks_lem chunk_size content wait h index (suc count) =
    rw (h index, wait_chunks_lem chunk_size content wait h (index + 1) count)

-- A chunk that the reader has got to gives the next bytes of the range.
part_lem :
    (chunk_size offset size index written : ℕ) (content : Bytes)
    → index * chunk_size ≤ offset + written
    → offset + written < index * chunk_size + chunk_size
    → (written ≡ 0) ⊎ (offset + written ≡ index * chunk_size)
    → offset + size ≤ length content
    → part chunk_size offset size index written (chunk_of chunk_size content index)
      ≡ slice
          (offset + written)
          (min (index * chunk_size + chunk_size - (offset + written)) (size - written))
          content
unfolding part
part_lem chunk_size offset size index written content low high at_start fits =
    let base = index * chunk_size in
    let start = offset + written - base in
    let count = min (base + chunk_size - (offset + written)) (size - written) in
    let begins : (if ltb base offset then offset - base else 0) ≡ start = ground arith in
    let held = length-slice base chunk_size content in
    let amount : min (length (chunk_of chunk_size content index) - start) (size - written) ≡ count =
      omega (arith, held) in
    let position : base + start ≡ offset + written = omega arith in
    ap
      (λ k.
        take (min (length (chunk_of chunk_size content index) - k) (size - written))
          (drop k (chunk_of chunk_size content index)))
      begins
    ∙ ap (λ n. slice start n (chunk_of chunk_size content index)) amount
    ∙ slice-slice start count base chunk_size content (omega arith)
    ∙ ap (λ k. slice k count content) position

module _ (chunk_size offset size : ℕ) (content : Bytes)
    (fits : offset + size ≤ length content) where
  -- one round of the copying loop
  copy_step :
      (index written : ℕ) (chunks : List Bytes)
      → written < size
      → index * chunk_size ≤ offset + written
      → offset + written < index * chunk_size + chunk_size
      → (written ≡ 0) ⊎ (offset + written ≡ index * chunk_size)
      → copy_chunks chunk_size offset size index
          (slice offset written content)
          (chunk_of chunk_size content index ∷ chunks)
        ≡ copy_chunks chunk_size offset size
            (index + 1)
            (slice offset
              (written
                + min (index * chunk_size + chunk_size - (offset + written)) (size - written))
              content)
            chunks
  unfolding copy_chunks
  copy_step index written chunks more low high begins =
      let count = min (index * chunk_size + chunk_size - (offset + written)) (size - written) in
      let copied : length (slice offset written content) ≡ written =
        omega (arith, length-slice offset written content) in
      let taken = part_lem chunk_size offset size index written content low high begins fits in
      let some_taken : length (slice (offset + written) count content) ≡ count =
        omega (arith, length-slice (offset + written) count content) in
      rw copied (
        rw taken
          (rw (slice-append-slice offset written count content) (ground (arith, some_taken))))

  -- From any chunk on that holds the next byte, the loop completes the range, if the chunks that are left just reach its end.
  copy_chunks_lem :
      (count index written : ℕ)
      → written < size
      → index * chunk_size ≤ offset + written
      → offset + written < index * chunk_size + chunk_size
      → (written ≡ 0) ⊎ (offset + written ≡ index * chunk_size)
      → index * chunk_size + count * chunk_size < offset + size
      → offset + size ≤ index * chunk_size + count * chunk_size + chunk_size
      → copy_chunks chunk_size offset size index
          (slice offset written content)
          (chunks_from chunk_size content index (suc count))
        ≡ ok (slice offset size content)
  unfolding chunks_from
  copy_chunks_lem zero index written more low high begins before reach =
      copy_step index written [] more low high begins
      ∙ ap (λ n. copy_chunks chunk_size offset size (index + 1) (slice offset n content) [])
          (omega arith)
      ∙ copy_done (index + 1)
    where
      copy_done :
          (index : ℕ)
          → copy_chunks chunk_size offset size index (slice offset size content) []
            ≡ ok (slice offset size content)
      copy_done index = unfold copy_chunks in ground (arith, length-slice offset size content)
  copy_chunks_lem (suc count) index written more low high begins before reach =
      let next =
        written + min (index * chunk_size + chunk_size - (offset + written)) (size - written) in
      let lands : offset + next ≡ (index + 1) * chunk_size = omega arith in
      copy_step index written _ more low high begins
      ∙ copy_chunks_lem count (index + 1) next (omega arith) (omega arith) (omega arith) (inr lands)
          (omega arith) (omega arith)

-- A range inside the file is read exactly, if every chunk is delivered whole.
read_range-exact :
    (chunk_size offset size : ℕ) (content : Bytes) (wait : ℕ → Result Bytes)
    → 0 < chunk_size
    → 0 < size
    → offset + size ≤ length content
    → ((index : ℕ) → wait index ≡ ok (chunk_of chunk_size content index))
    → read_range chunk_size wait offset size ≡ ok (slice offset size content)
unfolding read_range
read_range-exact chunk_size offset size content wait some_chunk some_bytes fits h =
    let first = offset / chunk_size in
    let last = (offset + size - 1) / chunk_size in
    let low = div-mul-le_self offset chunk_size in
    let high = lt-div-mul-add {a = offset} some_chunk in
    let last_low = div-mul-le_self (offset + size - 1) chunk_size in
    let last_high = lt-div-mul-add {a = offset + size - 1} some_chunk in
    let ordered : first ≤ last = (le-div_iff_mul-le some_chunk).1 (omega arith) in
    let more = last - first in
    let apart : last * chunk_size ≡ first * chunk_size + more * chunk_size =
      let e : last ≡ first + more = omega arith in
      ap (λ (t : ℕ). t * chunk_size) e ∙ add-mul first more chunk_size in
    let rounds : last + 1 - first ≡ suc more = omega arith in
    rw (rounds, wait_chunks_lem chunk_size content wait h first (suc more))
      (copy_chunks_lem chunk_size offset size content fits more first 0 some_bytes (omega arith)
        (omega arith) (inl refl) (omega arith) (omega arith))

read_clipped :
    (file : File) (chunk_size offset size : ℕ) (content : Bytes) (wait : ℕ → Result Bytes)
    → 0 < chunk_size
    → file.size ≡ length content
    → 0 < file.size
    → ((index : ℕ) → wait index ≡ ok (chunk_of chunk_size content index))
    → read_request false false chunk_size wait (clip file offset size)
      ≡ ok (slice offset size content)
unfolding read_request clip
read_clipped file chunk_size offset zero content wait some_chunk sized some_bytes h = refl
read_clipped file chunk_size offset (suc n) content wait some_chunk sized some_bytes h =
    elim (Bool-cases (leb file.size offset)) [
      | inl past ↦ ground (arith, past, slice_past offset (suc n) content)
      | inr inside ↦ elim (Bool-cases (ltb file.size (offset + suc n))) [
        | inl over ↦
            let left : min (suc n) (length content - offset) ≡ file.size - offset = ground arith in
            ground (
              arith,
              inside,
              over,
              left,
              slice_end offset (suc n) content,
              read_range-exact chunk_size offset (file.size - offset) content wait some_chunk
                  (ground arith) (ground arith) h,
            )
        | inr within ↦ ground (
          arith,
          inside,
          within,
          read_range-exact chunk_size offset (suc n) content wait some_chunk (omega arith)
              (ground arith) h,
        )
      ]
    ]

is_empty-false : (text : Bytes) → text ≢ [] → is_empty text ≡ false
is_empty-false [] h = absurd (h refl)
is_empty-false (c ∷ text) h = refl

-- For a positive chunk size and a file with an id whose size is above zero and is the length of its
-- content, on a handle and an engine that are open: when every chunk is delivered whole, a read
-- returns exactly the bytes from the offset on, as many as are asked for or as are left before the
-- end of the file.
pub read_at-exact :
    (file : File) (chunk_size offset size : ℕ) (content : Bytes) (wait : ℕ → Result Bytes)
    → 0 < chunk_size
    → file.fsid ≢ []
    → file.size ≡ length content
    → 0 < file.size
    → ((index : ℕ) → wait index ≡ ok (chunk_of chunk_size content index))
    → read_at false false file chunk_size wait (pos offset) (pos size)
      ≡ ok (slice offset size content)
unfolding read_at check_request
read_at-exact file chunk_size offset size content wait some_chunk named sized some_bytes h =
    rw (is_empty-false file.fsid named)
      (read_clipped file chunk_size offset size content wait some_chunk sized some_bytes h)
