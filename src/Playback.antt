-- ===== src/Playback.antt =====
-- internal/app/playback.go: the answer to a request for a file. The reader and the connection are arguments; the
-- type of the content is left out.
pub mod Range
pub mod Body
pub mod Whole
use baidu_disk_link.Common.{
  ℕ, zero, suc, ◌+◌, ◌-◌, ◌*◌, ◌^◌, ◌≡◌, Bool, true, false, not, ◌&&◌, ◌||◌, Option, none, some,
  List, [], ◌∷◌, ◌++◌, length, ltb, leb, ◌==◌, if◌then◌else◌, min,
}
use baidu_disk_link.Common.Decimal.{ℤ, pos, negsuc, format}
use baidu_disk_link.Common.Text.{text, is_blank, strip_prefix, split_first, has_byte, parse_nat}
use baidu_disk_link.ChunkStore.Types.{Bytes}
use baidu_disk_link.Remote.Errors.{Failure, Outcome, ok, err}
use baidu_disk_link.Baidu.Network.{trim_space}
use baidu_disk_link.Baidu.Listing.{format_int}

-- A header that is not understood, one that asks for what is not there, or the first and the last byte that are sent, and
-- whether they are a part. The last is -1 where nothing is known of the end.
pub data RangeAnswer : Type 0 where
  bad_range not_satisfiable : RangeAnswer
  span : (start : ℕ) (end : ℤ) (partial : Bool) → RangeAnswer

-- size - 1
abbrev pub last_byte : ℕ → ℤ
last_byte zero = negsuc 0
last_byte (suc n) = pos n

-- bytes=-5
unfoldable pub suffix_range : Option ℕ → ℤ → RangeAnswer
suffix_range none size = bad_range
suffix_range (some zero) size = bad_range
suffix_range (some (suc n)) (negsuc m) = not_satisfiable
suffix_range (some (suc n)) (pos size) = span (size - min (suc n) size) (last_byte size) true

-- bytes=5-
unfoldable pub open_range : ℕ → ℤ → RangeAnswer
open_range start (negsuc m) = span start (negsuc 0) true
open_range start (pos size) =
    if leb size start then not_satisfiable else span start (last_byte size) true

-- bytes=5-9
unfoldable pub closed_range : ℕ → Option ℕ → ℤ → RangeAnswer
closed_range start none size = bad_range
closed_range start (some end) (negsuc m) =
    if ltb end start then bad_range else span start (pos end) true
closed_range start (some end) (pos size) =
    if ltb end start
    then bad_range
    else if leb size start
    then not_satisfiable
    else span start (if leb size end then last_byte size else pos end) true

-- the part after "bytes="
unfoldable pub parse_spec : Bytes → ℤ → RangeAnswer
unfolding has_byte split_first parse_nat suffix_range open_range closed_range
parse_spec spec size =
    if is_blank spec || has_byte b',' spec then bad_range else elim (split_first b'-' spec) [
      | none ↦ bad_range
      | some (first, last) ↦
          if is_blank first then suffix_range (parse_nat last) size else elim (parse_nat first) [
            | none ↦ bad_range
            | some start ↦
                if is_blank last
                then open_range start size
                else closed_range start (parse_nat last) size
          ]
    ]

unfoldable pub parse_http_range : Bytes → ℤ → RangeAnswer
unfolding strip_prefix trim_space parse_spec
parse_http_range [] (pos (suc n)) = span 0 (pos n) false
parse_http_range [] (pos zero) = span 0 (negsuc 0) false
parse_http_range [] (negsuc m) = span 0 (negsuc 0) false
parse_http_range (c ∷ header) size = elim (strip_prefix (text "bytes=") (c ∷ header)) [
  | none ↦ bad_range
  | some spec ↦ parse_spec (trim_space spec) size
]

-- What is written, and the error that ends it.
pub record Written : Type 0 where
  pub sent : Bytes
  pub failure : Option Failure

abbrev pub chunk_size : ℕ
chunk_size = 4 * 2 ^ 20

-- The reader, with its state passed on, and the error of a write after what is already sent.
pub record Channel (R : Type 0) : Type 0 where
  pub read : R → (offset count : ℕ) → R × Outcome Bytes
  pub write_error : (sent bytes : Bytes) → Option Failure

module _ {R : Type 0} (channel : Channel R) where
  -- the loop of `writePlaybackRange` up to the byte `stop`, which is not sent; `known` is whether the size is. None where
  -- the rounds do not suffice
  unfoldable pub write_loop : Bool → (rounds stop offset : ℕ) → Bytes → R → Option (R × Written)
  write_loop known zero stop offset sent r =
      if leb stop offset then some (r, record { sent = sent; failure = none }) else none
  write_loop known (suc more) stop offset sent r =
      let want = min chunk_size (stop - offset) in
      let got = channel.read r offset want in
      if leb stop offset then some (r, record { sent = sent; failure = none }) else elim got.1 [
        | err e ↦ some (got.0, record { sent = sent; failure = some e })
        | ok bytes ↦
            let rest = write_loop known more stop (offset + length bytes) (sent ++ bytes) got.0 in
            if length bytes == 0
            then some (got.0, record { sent = sent; failure = none })
            else elim (channel.write_error sent bytes) [
              | some e ↦ some (got.0, record { sent = sent; failure = some e })
              | none ↦
                  if not known && ltb (length bytes) want
                  then some (got.0, record { sent = sent ++ bytes; failure = none })
                  else rest
            ]
      ]

  unfoldable pub write_playback_range : ℤ → ℕ → ℤ → R → Option (R × Written)
  unfolding write_loop
  write_playback_range size start (negsuc m) r = some (r, record { sent = []; failure = none })
  write_playback_range (negsuc m) start (pos end) r =
      write_loop false chunk_size (start + chunk_size) start [] r
  write_playback_range (pos size) start (pos end) r =
      let stop = min (end + 1) size in
      if leb size start
      then some (r, record { sent = []; failure = none })
      else write_loop true (stop - start) stop start [] r

pub data Method : Type 0 where
  get head other : Method

-- An error with its status and Content-Range, or a status, Content-Length, Content-Range and what is written.
pub data Response : Type 0 where
  refused : (status : ℕ) (content_range : Option Bytes) → Response
  served :
      (status : ℕ) (content_length : Option ℕ) (content_range : Option Bytes) (body : Written)
      → Response

abbrev pub no_body : Written
no_body = record { sent = []; failure = none }

-- end - start + 1; the end is -1 only from 0
unfoldable pub span_length : ℕ → ℤ → ℕ
span_length start (negsuc m) = 0
span_length start (pos end) = end + 1 - start

-- Content-Range and Content-Length of a part, where the size is known
unfoldable pub range_headers : ℕ → ℤ → ℤ → Option ℕ × Option Bytes
unfolding span_length format_int
range_headers start end (negsuc m) = (none, none)
range_headers start end (pos size) = (
  some (span_length start end),
  some (text "bytes " ++ ((format start ++ b'-' ∷ format_int end) ++ b'/' ∷ format size)),
)

-- Content-Length of the whole
unfoldable pub whole_length : ℕ → ℤ → ℤ → Option ℕ
unfolding span_length
whole_length start end (negsuc m) = none
whole_length start (negsuc m) (pos size) = some size
whole_length start (pos end) (pos size) =
    if start == 0 then some (span_length start (pos end)) else some size

module _ {R : Type 0} (channel : Channel R) where
  unfoldable pub serve_span : ℤ → RangeAnswer → R → Option (R × Response)
  unfolding write_playback_range range_headers whole_length
  serve_span size bad_range r = some (r, refused 400 none)
  serve_span (negsuc m) not_satisfiable r = some (r, refused 416 none)
  serve_span (pos size) not_satisfiable r =
      some (r, refused 416 (some (text "bytes */" ++ format size)))
  serve_span size (span start end partial) r =
      let headers = range_headers start end size in
      elim (write_playback_range channel size start end r) [
        | none ↦ none
        | some answer ↦ some (
          answer.0,
          if partial
              then served 206 headers.0 headers.1 answer.1
              else served 200 (whole_length start end size) none answer.1,
        )
      ]

  -- `servePlaybackFile`, where the app and its reader are there
  unfoldable pub serve_playback_file : Method → Bytes → ℤ → R → Option (R × Response)
  unfolding parse_http_range serve_span
  serve_playback_file other header size r = some (r, refused 405 none)
  serve_playback_file head header (negsuc m) r = some (r, served 200 none none no_body)
  serve_playback_file head header (pos size) r = some (r, served 200 (some size) none no_body)
  serve_playback_file get header size r = serve_span size (parse_http_range header size) r
