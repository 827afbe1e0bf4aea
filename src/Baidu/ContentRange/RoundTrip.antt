-- ===== src/Baidu/ContentRange/RoundTrip.antt =====
-- internal/baidu/client.go: headers in the form of RFC 9110 read back.
use baidu_disk_link.Common.{
  ℕ, ◌≤◌, ◌<◌, ◌≡◌, ◌≢◌, refl, sym, ap, ◌∙◌, if_pos, false, Option, none, some, ◌||◌, ◌∷◌, ◌++◌,
  arith,
}
use baidu_disk_link.Common.Decimal.{format, max_int64}
use baidu_disk_link.Common.Text.{
  text, strip_prefix, split_first-append, split_first-format, parse_nat, parse_nat-format, has_byte,
  has_byte-append, has_byte-format,
}
use baidu_disk_link.ChunkStore.Types.{Bytes, Bytes-discrete}
use baidu_disk_link.Baidu.ContentRange.{
  ContentRange, range_unit, parse_known, parse_total, parse_content_range,
}

abbrev format_total : Option ℕ → Bytes
format_total none = text "*"
format_total (some size) = format size

-- the header that a server writes
abbrev pub format_content_range : ContentRange → Bytes
format_content_range r =
    range_unit ++ ((format r.start ++ b'-' ∷ format r.end) ++ b'/' ∷ format_total r.total)

-- What a header may say: the numbers fit into 64 bits, the range is not empty and lies within the file.
abbrev IsWithin : ℕ → Option ℕ → Type 0
IsWithin end none = Unit {0}
IsWithin end (some size) = (end < size) × (size ≤ max_int64)

pub record IsProper (r : ContentRange) : Type 0 where
  pub ordered : r.start ≤ r.end
  pub fits : r.end ≤ max_int64
  pub within : IsWithin r.end r.total

format-ne-star : (n : ℕ) → n ≤ max_int64 → format n ≢ text "*"
unfolding parse_nat
format-ne-star n h e =
    let wrong : some n ≡ none = sym (parse_nat-format n h) ∙ ap parse_nat e in absurd (cc)

parse_total-format :
    (start end : ℕ) (total : Option ℕ)
    → IsWithin end total
    → parse_total start end (format_total total)
      ≡ some (record { start = start; end = end; total = total })
unfolding parse_total parse_known
parse_total-format start end none w = if_pos (Bytes-discrete (text "*") (text "*")) refl _ _
parse_total-format start end (some size) w =
    ground (arith, parse_nat-format size w.1, format-ne-star size w.1)

-- The header that a server writes for a range reads back as that range.
pub parse_content_range-format :
    (r : ContentRange) → IsProper r → parse_content_range (format_content_range r) ≡ some r
unfolding parse_content_range has_byte strip_prefix
parse_content_range-format r p =
    let bounds = format r.start ++ b'-' ∷ format r.end in
    let no_slash : has_byte b'/' bounds ≡ false =
      has_byte-append b'/' (format r.start) (b'-' ∷ format r.end)
      ∙ ap (λ x. x || has_byte b'/' (b'-' ∷ format r.end)) (has_byte-format b'/' r.start refl)
      ∙ has_byte-format b'/' r.end refl in
    let halves = split_first-append b'/' bounds (format_total r.total) no_slash in
    let first = split_first-format b'-' r.start (format r.end) refl in
    let start = parse_nat-format r.start (omega (arith, p.ordered, p.fits)) in
    rw (halves, first, start, parse_nat-format r.end p.fits)
      (ground (arith, p.ordered, parse_total-format r.start r.end r.total p.within))

-- the bounds that are read are in order
pub parse_content_range-ordered :
    (value : Bytes) (r : ContentRange) → parse_content_range value ≡ some r → r.start ≤ r.end
unfolding parse_content_range parse_total parse_known
parse_content_range-ordered value r e = ground (arith, e)
