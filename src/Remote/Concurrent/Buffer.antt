-- ===== src/Remote/Concurrent/Buffer.antt =====
-- internal/remote/remote.go: the buffer of `readConcurrent`, a byte at a time.
use baidu_disk_link.Common.{
  ℕ, zero, suc, ◌+◌, ◌-◌, ◌≤◌, ◌<◌, ◌≡◌, refl, ap, ◌∙◌, ◌&&◌, Option, none, some, [], ◌∷◌, ◌++◌,
  length, length-append, length-take, length-drop, take, drop, ltb, leb, if◌then◌else◌, arith, ◌⊎◌,
  inl, inr,
}
use baidu_disk_link.Common.Slices.{slice}
use baidu_disk_link.ChunkStore.Types.{Bytes}
use baidu_disk_link.Remote.Concurrent.{write_at}

-- the byte at an index
unfoldable pub byte_at : ℕ → Bytes → Option ℕ
byte_at i [] = none
byte_at zero (b ∷ bytes) = some b
byte_at (suc i) (b ∷ bytes) = byte_at i bytes

byte_at-append :
    (i : ℕ) (s t : Bytes)
    → byte_at i (s ++ t) ≡ (if ltb i (length s) then byte_at i s else byte_at (i - length s) t)
unfolding byte_at
byte_at-append i [] t = ground arith
byte_at-append zero (b ∷ s) t = ground arith
byte_at-append (suc i) (b ∷ s) t =
    let step : suc i - suc (length s) ≡ i - length s = omega arith in
    rw step (ground (arith, byte_at-append i s t))

byte_at-take : (i n : ℕ) (s : Bytes) → i < n → byte_at i (take n s) ≡ byte_at i s
unfolding byte_at
byte_at-take i zero s h = absurd (omega (arith, h))
byte_at-take i (suc n) [] h = refl
byte_at-take zero (suc n) (b ∷ s) h = refl
byte_at-take (suc i) (suc n) (b ∷ s) h = byte_at-take i n s (omega (arith, h))

byte_at-drop : (i n : ℕ) (s : Bytes) → byte_at i (drop n s) ≡ byte_at (n + i) s
unfolding byte_at
byte_at-drop i zero s = ap (λ k. byte_at k s) (omega arith)
byte_at-drop i (suc n) [] = refl
byte_at-drop i (suc n) (b ∷ s) =
    let step : suc n + i ≡ suc (n + i) = omega arith in rw step (byte_at-drop i n s)

pub byte_at-slice : (i lo n : ℕ) (s : Bytes) → i < n → byte_at i (slice lo n s) ≡ byte_at (lo + i) s
byte_at-slice i lo n s h = byte_at-take i n (drop lo s) h ∙ byte_at-drop i lo s

-- equal byte for byte
pub byte_at-ext :
    (s t : Bytes)
    → length s ≡ length t
    → ((i : ℕ) → i < length s → byte_at i s ≡ byte_at i t)
    → s ≡ t
unfolding byte_at
byte_at-ext [] [] h e = refl
byte_at-ext [] (c ∷ t) h e = absurd (omega (arith, h))
byte_at-ext (b ∷ s) [] h e = absurd (omega (arith, h))
byte_at-ext (b ∷ s) (c ∷ t) h e =
    let first : some b ≡ some c = e 0 (omega arith) in
    let head : b ≡ c = cc in
    ap (λ x. x ∷ s) head
    ∙ ap (◌∷◌ c) (byte_at-ext s t (omega (arith, h)) (λ i k. e (suc i) (omega (arith, k))))

pub length-write_at :
    (begin : ℕ) (bytes buf : Bytes)
    → begin + length bytes ≤ length buf
    → length (write_at begin bytes buf) ≡ length buf
unfolding write_at
length-write_at begin bytes buf h = omega (
  arith,
  h,
  length-append (take begin buf ++ bytes) (drop (begin + length bytes) buf),
  length-append (take begin buf) bytes,
  length-take begin buf,
  length-drop (begin + length bytes) buf,
)

-- the bytes of the chunk where it is written, and those that were there elsewhere
pub byte_at-write_at :
    (i begin : ℕ) (bytes buf : Bytes)
    → begin + length bytes ≤ length buf
    → byte_at i (write_at begin bytes buf) ≡ (
        if leb begin i && ltb i (begin + length bytes)
        then byte_at (i - begin) bytes
        else byte_at i buf)
unfolding write_at
byte_at-write_at i begin bytes buf h =
    let tail = drop (begin + length bytes) buf in
    let head_length : length (take begin buf) ≡ begin = length-take begin buf ∙ omega (arith, h) in
    let outer = byte_at-append i (take begin buf ++ bytes) tail in
    let inner = byte_at-append i (take begin buf) bytes in
    let both = length-append (take begin buf) bytes in
    let behind = byte_at-drop (i - length (take begin buf ++ bytes)) (begin + length bytes) buf in
    let place : (i < begin)
        ⊎ ((begin ≤ i) × (i < begin + length bytes))
        ⊎ (begin + length bytes ≤ i) =
      omega arith in
    elim place [
      | inl before ↦
          let kept = byte_at-take i begin buf before in
          ground (arith, before, head_length, outer, inner, both, kept)
      | inr (inl within) ↦
          let place_in : i - length (take begin buf) ≡ i - begin = omega (arith, head_length) in
          let moved = ap (λ k. byte_at k bytes) place_in in
          ground (arith, within.0, within.1, head_length, outer, inner, both, moved)
      | inr (inr past) ↦
          let place_in : begin + length bytes + (i - length (take begin buf ++ bytes)) ≡ i =
            omega (arith, head_length, both, past) in
          let moved = behind ∙ ap (λ k. byte_at k buf) place_in in
          ground (arith, past, head_length, outer, inner, both, moved)
    ]
