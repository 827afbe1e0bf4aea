-- ===== src/Playback/Range.antt =====
-- internal/app/playback.go: `parseHTTPRange`.
use baidu_disk_link.Common.{
  ℕ, zero, suc, ◌+◌, ◌-◌, ◌≤◌, ◌<◌, ◌≡◌, refl, ap, ◌∙◌, Bool, true, false, not, ◌&&◌, ◌||◌, Option,
  none, some, [], ◌∷◌, ◌++◌, leb, if◌then◌else◌, min, arith, inl, inr, ◌⊎◌, Option-cases,
  Bool-cases,
}
use baidu_disk_link.Common.Decimal.{
  pos, negsuc, format, max_int64, format-AllDigits, AllDigits, format-ne-nil,
}
use baidu_disk_link.Common.Text.{
  text, is_blank, strip_prefix, split_first, has_byte, parse_nat, split_first-format,
  parse_nat-format, has_byte-append, has_byte-format,
}
use baidu_disk_link.ChunkStore.Types.{Bytes}
use baidu_disk_link.Baidu.Network.{trim_space, trim_left, trim_right, is_space}
use baidu_disk_link.Playback.{
  RangeAnswer, bad_range, not_satisfiable, span, suffix_range, open_range, closed_range, parse_spec,
  parse_http_range,
}

-- What is sent of a file that is not empty lies within it, and is all of it where it is no part.
unfoldable pub IsWithin : ℕ → RangeAnswer → Type 0
IsWithin size bad_range = Unit {0}
IsWithin size not_satisfiable = Unit {0}
IsWithin size (span start (negsuc m) partial) = ⊥
IsWithin size (span start (pos end) true) = (start ≤ end) × (end < size)
IsWithin size (span start (pos end) false) = (start ≡ 0) × (end + 1 ≡ size)

suffix-IsWithin : (suffix : Option ℕ) (n : ℕ) → IsWithin (suc n) (suffix_range suffix (pos (suc n)))
unfolding IsWithin suffix_range
suffix-IsWithin none n = tt
suffix-IsWithin (some zero) n = tt
suffix-IsWithin (some (suc m)) n = (omega arith, omega arith)

open-IsWithin : (start n : ℕ) → IsWithin (suc n) (open_range start (pos (suc n)))
unfolding IsWithin open_range
open-IsWithin start n = ground arith

closed-IsWithin :
    (start : ℕ) (end : Option ℕ) (n : ℕ) → IsWithin (suc n) (closed_range start end (pos (suc n)))
unfolding IsWithin closed_range
closed-IsWithin start none n = tt
closed-IsWithin start (some end) n = ground arith

spec-IsWithin : (spec : Bytes) (n : ℕ) → IsWithin (suc n) (parse_spec spec (pos (suc n)))
unfolding IsWithin parse_spec
spec-IsWithin spec n = elim (Bool-cases (is_blank spec || has_byte b',' spec)) [
  | inl bad ↦ rw (bad, IsWithin) tt
  | inr good ↦ elim (Option-cases (split_first b'-' spec)) [
    | inl none_there ↦ rw (good, none_there, IsWithin) tt
    | inr ((first, last), halves) ↦ elim (Bool-cases (is_blank first)) [
      | inl from_end ↦ rw (good, halves, from_end, IsWithin) (suffix-IsWithin (parse_nat last) n)
      | inr from_start ↦ elim (Option-cases (parse_nat first)) [
        | inl unread ↦ rw (good, halves, from_start, unread, IsWithin) tt
        | inr (start, read) ↦ elim (Bool-cases (is_blank last)) [
          | inl to_end ↦
              rw (good, halves, from_start, read, to_end, IsWithin) (open-IsWithin start n)
          | inr closed ↦
              rw (good, halves, from_start, read, closed, IsWithin)
                (closed-IsWithin start (parse_nat last) n)
        ]
      ]
    ]
  ]
]

-- Whatever the header of a request says, an answer with bytes of a file that is not empty names a first and a last byte of the
-- file, in order,
-- and all of the file if it is not marked as a part.
pub parse_http_range-IsWithin :
    (header : Bytes) (n : ℕ) → IsWithin (suc n) (parse_http_range header (pos (suc n)))
unfolding IsWithin parse_http_range
parse_http_range-IsWithin [] n = (refl, omega arith)
parse_http_range-IsWithin (c ∷ header) n =
    elim (Option-cases (strip_prefix (text "bytes=") (c ∷ header))) [
      | inl other ↦ rw (other, IsWithin) tt
      | inr (spec, unit) ↦ rw (unit, IsWithin) (spec-IsWithin (trim_space spec) n)
    ]

no_space : Bytes → Bool
no_space [] = true
no_space (c ∷ s) = not (is_space c) && no_space s

trim_right-no_space : (s : Bytes) → no_space s ≡ true → trim_right s ≡ s
unfolding no_space trim_right
trim_right-no_space [] h = refl
trim_right-no_space (c ∷ []) h = ground (arith, h)
trim_right-no_space (c ∷ d ∷ s) h = ground (arith, h, trim_right-no_space (d ∷ s))

trim_space-no_space : (s : Bytes) → no_space s ≡ true → trim_space s ≡ s
unfolding no_space trim_space trim_left
trim_space-no_space [] h = refl
trim_space-no_space (c ∷ s) h = ground (arith, h, trim_right-no_space (c ∷ s) h)

no_space-append : (s t : Bytes) → no_space s ≡ true → no_space t ≡ true → no_space (s ++ t) ≡ true
unfolding no_space
no_space-append [] t h k = k
no_space-append (c ∷ s) t h k = ground (arith, h, no_space-append s t)

no_space-digits : (s : Bytes) → AllDigits s → no_space s ≡ true
unfolding no_space is_space
no_space-digits [] d = refl
no_space-digits (c ∷ s) d = ground (arith, d.0, d.1, no_space-digits s d.2)

blank_nil : (s : Bytes) → is_blank s ≡ true → s ≡ []
blank_nil [] h = refl
blank_nil (c ∷ s) h = absurd (cc)

no_space-bounds : (a b : ℕ) → no_space (format a ++ b'-' ∷ format b) ≡ true
unfolding no_space is_space
no_space-bounds a b =
    no_space-append (format a) (b'-' ∷ format b) (no_space-digits (format a) (format-AllDigits a))
      (no_space-digits (format b) (format-AllDigits b))

is_blank-format : (n : ℕ) → is_blank (format n) ≡ false
is_blank-format n = elim (Bool-cases (is_blank (format n))) [
  | inr filled ↦ filled
  | inl blank ↦ absurd (format-ne-nil n (blank_nil (format n) blank))
]

blank-append : (s t : Bytes) → is_blank (s ++ b'-' ∷ t) ≡ false
blank-append [] t = refl
blank-append (c ∷ s) t = refl

closed_range-some :
    (a b size : ℕ)
    → a ≤ b
    → closed_range a (some b) (pos size)
      ≡ (if leb size a then not_satisfiable else span a (pos (min b (size - 1))) true)
unfolding closed_range
closed_range-some a b zero h = ground (arith, h)
closed_range-some a b (suc n) h =
    let least : (n < b + 0) ⊎ (b ≤ n) = omega arith in
    elim least [
      | inl over ↦
          let low : min b (suc n - 1) ≡ n = omega (arith, over) in rw low (ground (arith, h, over))
      | inr within ↦
          let low : min b (suc n - 1) ≡ b = omega (arith, within) in
          rw low (ground (arith, h, within))
    ]

-- A request for the bytes from `a` to `b`, in the form of RFC 9110, is answered with those of them that the file has, and refused
-- when it has none; the numbers fit into 64 bits and are in order.
pub parse_http_range-format :
    (a b size : ℕ)
    → a ≤ b
    → b ≤ max_int64
    → parse_http_range (text "bytes=" ++ (format a ++ b'-' ∷ format b)) (pos size)
      ≡ (if leb size a then not_satisfiable else span a (pos (min b (size - 1))) true)
unfolding parse_http_range parse_spec strip_prefix has_byte
parse_http_range-format a b size h fits =
    let spec = format a ++ b'-' ∷ format b in
    let bare = trim_space-no_space spec (no_space-bounds a b) in
    let filled = blank-append (format a) (format b) in
    let one : has_byte b',' spec ≡ false =
      has_byte-append b',' (format a) (b'-' ∷ format b)
      ∙ ap (λ x. x || has_byte b',' (b'-' ∷ format b)) (has_byte-format b',' a refl)
      ∙ has_byte-format b',' b refl in
    let halves = split_first-format b'-' a (format b) refl in
    let first = parse_nat-format a (omega (arith, h, fits)) in
    let last = parse_nat-format b fits in
    rw (bare, filled, one, halves, is_blank-format a, first, is_blank-format b, last)
      (closed_range-some a b size h)
