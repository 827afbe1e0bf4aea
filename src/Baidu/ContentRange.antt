-- ===== src/Baidu/ContentRange.antt =====
-- internal/baidu/client.go: `parseContentRange`, which reads the header "bytes 0-9/100".
pub mod RoundTrip
use baidu_disk_link.Common.{
  ℕ, ◌≡◌, ite, Bool, true, false, Option, none, some, [], ◌∷◌, ltb, leb, if◌then◌else◌,
}
use baidu_disk_link.Common.Text.{text, strip_prefix, split_first, parse_nat, ◌>>=◌}
use baidu_disk_link.ChunkStore.Types.{Bytes, Bytes-discrete}

-- The first and the last byte, and the length of the file, which may be left open by a star.
pub record ContentRange : Type 0 where
  pub start : ℕ
  pub end : ℕ
  pub total : Option ℕ

abbrev pub range_unit : Bytes
range_unit = text "bytes "

unfoldable pub parse_known : ℕ → ℕ → Bytes → Option ContentRange
unfolding parse_nat
parse_known start end total = do
  size ← parse_nat total
  if leb size end then none else some (record { start = start; end = end; total = some size })

unfoldable pub parse_total : ℕ → ℕ → Bytes → Option ContentRange
unfolding parse_known
parse_total start end total =
    ite (Bytes-discrete total (text "*")) (some (record { start = start; end = end; total = none }))
      (parse_known start end total)

unfoldable pub parse_content_range : Bytes → Option ContentRange
unfolding strip_prefix split_first parse_nat parse_total
parse_content_range value = do
  rest ← strip_prefix range_unit value
  (bounds, total) ← split_first b'/' rest
  (first, last) ← split_first b'-' bounds
  start ← parse_nat first
  end ← parse_nat last
  if ltb end start then none else parse_total start end total
