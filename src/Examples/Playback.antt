-- ===== src/Examples/Playback.antt =====
-- internal/app/playback.go: small inputs.
use baidu_disk_link.Common.{
  ℕ, ◌+◌, ◌-◌, ◌≡◌, refl, sym, ap, ◌∙◌, true, none, some, [], ◌∷◌, ◌++◌, length, arith,
  if◌then◌else◌, min, leb,
}
use baidu_disk_link.Common.Decimal.{pos, format}
use baidu_disk_link.Common.Slices.{slice, slice_end, length-slice}
use baidu_disk_link.Common.Text.{text}
use baidu_disk_link.ChunkStore.Types.{Bytes}
use baidu_disk_link.Remote.Errors.{ok}
use baidu_disk_link.Playback.{
  not_satisfiable, span, parse_http_range, Written, Channel, write_playback_range, write_loop, get,
  Response, serve_playback_file, serve_span, served, whole_length, span_length, range_headers,
}
use baidu_disk_link.Playback.Range.{parse_http_range-format}
use baidu_disk_link.Playback.Body.{write_playback_range-prefix}
use baidu_disk_link.Playback.Whole.{IsTrue, serve_playback_file-IsTrue}

parse_http_range-format_example :
    parse_http_range (text "bytes=" ++ (format 1 ++ b'-' ∷ format 9)) (pos 4)
    ≡ (if leb 4 1 then not_satisfiable else span 1 (pos (min 9 (4 - 1))) true)
parse_http_range-format_example = parse_http_range-format 1 9 4 (omega arith) (omega arith)

abbrev content : Bytes
content = 5 ∷ 6 ∷ 7 ∷ 8 ∷ []

-- a reader of the file, and a connection that takes everything
abbrev channel : Channel ℕ
channel = record {
  read = λ r offset count. (r + 1, ok (slice offset count content));
  write_error = λ sent bytes. none;
}

exact :
    (r offset count : ℕ) (bytes : Bytes)
    → (channel.read r offset count).1 ≡ ok bytes
    → bytes ≡ slice offset count content
exact r offset count bytes e = let same : slice offset count content ≡ bytes = cc (e) in sym same

honest :
    (r offset count : ℕ) (bytes : Bytes)
    → (channel.read r offset count).1 ≡ ok bytes
    → bytes ≡ slice offset (length bytes) content
honest r offset count bytes e =
    let size = ap length (exact r offset count bytes e) ∙ length-slice offset count content in
    exact r offset count bytes e
    ∙ slice_end offset count content
    ∙ ap (λ k. slice offset k content) (sym size)

abbrev written : ℕ × Written
written = (1, record { sent = 6 ∷ 7 ∷ []; failure = none })

sent : write_playback_range channel (pos 4) 1 (pos 2) 0 ≡ some written
unfolding write_playback_range write_loop
sent = refl

write_playback_range-prefix_example : Path Bytes (6 ∷ 7 ∷ []) (slice 1 2 content)
write_playback_range-prefix_example =
    write_playback_range-prefix channel content honest (pos 4) 1 (pos 2) 0 written sent

abbrev answer : ℕ × Response
answer = (1, served 200 (some 4) none (record { sent = content; failure = none }))

whole : serve_playback_file channel get [] (pos 4) 0 ≡ some answer
unfolding serve_playback_file parse_http_range serve_span write_playback_range write_loop
    whole_length span_length range_headers
whole = refl

serve_playback_file-IsTrue_example :
    IsTrue content (served 200 (some 4) none (record { sent = content; failure = none }))
serve_playback_file-IsTrue_example =
    serve_playback_file-IsTrue channel content exact [] 3 0 answer refl (omega arith) whole
