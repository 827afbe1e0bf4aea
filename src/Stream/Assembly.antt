-- ===== src/Stream/Assembly.antt =====
-- internal/stream/manager.go: the guards of `readAt`, the refusals of `prepareRead`, and its second half, which waits for the chunks
-- of the range in order and copies the range out of them. What `waitChunk` answers for each index is
-- an argument. Offsets and lengths are signed where a caller gives them.
pub mod Exact
use baidu_disk_link.Common.{
  ℕ, zero, suc, ◌+◌, ◌-◌, ◌*◌, ◌/◌, ◌≤◌, ◌≡◌, Bool, true, false, ◌&&◌, ◌||◌, Option, none, some,
  List, [], ◌∷◌, ◌++◌, length, take, drop, ltb, leb, ◌==◌, if◌then◌else◌, min,
}
use baidu_disk_link.Common.Decimal.{ℤ, pos, negsuc}
use baidu_disk_link.ChunkStore.Types.{Bytes, File}

pub data ReadError : Type 0 where
  fsid_required negative_range handle_released manager_closed unexpected_eof canceled : ReadError
  download_failed : ReadError

pub data Result {ℓ} (A : Type ℓ) : Type ℓ where
  ok : A → Result A
  err : ReadError → Result A

infixl 5 ◌>>=◌
abbrev pub ◌>>=◌ {ℓ κ} : {A : Type ℓ} {B : Type κ} → Result A → (A → Result B) → Result B
ok a >>= f = f a
err e >>= f = err e

-- What the guards at the head of `readAt` leave to read: nothing, or a range cut off at the end of the file.
pub data Request : Type 0 where
  nothing : Request
  range : ℕ → ℕ → Request

abbrev pub is_empty : Bytes → Bool
is_empty [] = true
is_empty (c ∷ text) = false

unfoldable pub clip : File → ℕ → ℕ → Request
clip file offset length =
    if length == 0 || (ltb 0 file.size && leb file.size offset)
    then nothing
    else if ltb 0 file.size && ltb file.size (offset + length)
    then range offset (file.size - offset)
    else range offset length

unfoldable pub check_request : File → ℤ → ℤ → Result Request
unfolding clip
check_request file (negsuc n) length =
    if is_empty file.fsid then err fsid_required else err negative_range
check_request file (pos n) (negsuc m) =
    if is_empty file.fsid then err fsid_required else err negative_range
check_request file (pos offset) (pos length) =
    if is_empty file.fsid then err fsid_required else ok (clip file offset length)

-- the loop over `waitChunk`, `count` chunks from `index` on; the first error ends it
unfoldable pub wait_chunks : (ℕ → Result Bytes) → ℕ → ℕ → Result (List Bytes)
wait_chunks wait index zero = ok []
wait_chunks wait index (suc count) = do
  chunk ← wait index
  rest ← wait_chunks wait (index + 1) count
  ok (chunk ∷ rest)

-- the part of a chunk that the copying loop takes, when `written` bytes are there
unfoldable pub part : ℕ → ℕ → ℕ → ℕ → ℕ → Bytes → Bytes
part chunk_size offset size index written chunk =
    let start = if ltb (index * chunk_size) offset then offset - index * chunk_size else 0 in
    take (min (length chunk - start) (size - written)) (drop start chunk)

-- the copying loop; `copied` is what is written of the result so far
unfoldable pub copy_chunks : ℕ → ℕ → ℕ → ℕ → Bytes → List Bytes → Result Bytes
unfolding part
copy_chunks chunk_size offset size index copied [] =
    if length copied == size then ok copied else err unexpected_eof
copy_chunks chunk_size offset size index copied (chunk ∷ chunks) =
    let taken = part chunk_size offset size index (length copied) chunk in
    let rest = copy_chunks chunk_size offset size (index + 1) (copied ++ taken) chunks in
    if length taken == 0 then err unexpected_eof else rest

-- the chunks of a range, from `first` to `last`
unfoldable pub read_range : ℕ → (ℕ → Result Bytes) → ℕ → ℕ → Result Bytes
unfolding wait_chunks copy_chunks
read_range chunk_size wait offset size = do
  let first = offset / chunk_size
  let last = (offset + size - 1) / chunk_size
  chunks ← wait_chunks wait first (last + 1 - first)
  copy_chunks chunk_size offset size first [] chunks

-- the refusals of `prepareRead`, which come only where there is something to read
unfoldable pub read_request :
    (released closed : Bool) → ℕ → (ℕ → Result Bytes) → Request → Result Bytes
unfolding read_range
read_request released closed chunk_size wait nothing = ok []
read_request released closed chunk_size wait (range offset size) =
    if released
    then err handle_released
    else if closed
    then err manager_closed
    else read_range chunk_size wait offset size

-- whether the handle is released and the manager closed comes first
unfoldable pub read_at :
    (released closed : Bool) → File → ℕ → (ℕ → Result Bytes) → ℤ → ℤ → Result Bytes
unfolding check_request read_request
read_at released closed file chunk_size wait offset length = do
  request ← check_request file offset length
  read_request released closed chunk_size wait request
