-- ===== src/Playback/Whole.antt =====
-- internal/app/playback.go: the answers of `servePlaybackFile` against their headers.
use baidu_disk_link.Common.{
  ℕ, zero, suc, ◌+◌, ◌-◌, ◌≤◌, ◌<◌, ◌≡◌, refl, sym, ap, subst, ◌∙◌, Bool, true, false, Option, none,
  some, [], ◌++◌, length, length-append, min, arith, inl, inr, ◌⊎◌, Option-cases, take_all,
}
use baidu_disk_link.Common.Decimal.{pos, negsuc, format, max_int64}
use baidu_disk_link.Common.Slices.{slice, slice_end, length-slice}
use baidu_disk_link.Common.Text.{text}
use baidu_disk_link.ChunkStore.Types.{Bytes}
use baidu_disk_link.Remote.Errors.{ok}
use baidu_disk_link.Remote.Reader.Exact.{Outcome-cases}
use baidu_disk_link.Baidu.ContentRange.{ContentRange, parse_content_range}
use baidu_disk_link.Baidu.ContentRange.RoundTrip.{
  IsProper, format_content_range, parse_content_range-format,
}
use baidu_disk_link.Baidu.Listing.{format_int}
use baidu_disk_link.Playback.{
  RangeAnswer, bad_range, not_satisfiable, span, parse_http_range, Written, Channel, chunk_size,
  write_loop, write_playback_range, get, Response, refused, served, span_length, range_headers,
  whole_length, serve_span, serve_playback_file,
}
use baidu_disk_link.Playback.Range.{IsWithin, parse_http_range-IsWithin}
use baidu_disk_link.Playback.Body.{write_playback_range-prefix}

-- What an answer says of its body: a part is the block of its Content-Range and as long as its Content-Length, and the whole is
-- the whole.
pub record IsPart (content : Bytes) (content_length : Option ℕ) (content_range : Option Bytes)
    (sent : Bytes) : Type 0 where
  pub range : ContentRange
  pub header : Bytes
  pub named : content_range ≡ some header
  pub reads_back : parse_content_range header ≡ some range
  pub total : range.total ≡ some (length content)
  pub block : sent ≡ slice range.start (range.end - range.start + 1) content
  pub counted : content_length ≡ some (length sent)

unfoldable pub IsTrue : Bytes → Response → Type 0
IsTrue content (refused status content_range) = (status ≡ 400) ⊎ (status ≡ 416)
IsTrue content (served status content_length content_range body) =
    (body.failure ≡ none)
    → ((status ≡ 206) × IsPart content content_length content_range body.sent)
      ⊎ ((status ≡ 200) × (content_length ≡ some (length content)) × (body.sent ≡ content))

module _ {R : Type 0} (channel : Channel R) (content : Bytes)
    (exact : (r : R) (offset count : ℕ) (bytes : Bytes)
      → (channel.read r offset count).1 ≡ ok bytes
      → bytes ≡ slice offset count content) where
  exact-length :
      (r : R) (offset count : ℕ) (bytes : Bytes)
      → (channel.read r offset count).1 ≡ ok bytes
      → offset + count ≤ length content
      → length bytes ≡ count
  exact-length r offset count bytes e h =
      omega (arith, h, ap length (exact r offset count bytes e), length-slice offset count content)

  write_loop-full :
      (rounds start stop offset : ℕ) (sent : Bytes) (r : R) (answer : R × Written)
      → offset ≡ start + length sent
      → offset ≤ stop
      → stop ≤ length content
      → write_loop channel true rounds stop offset sent r ≡ some answer
      → answer.1.failure ≡ none
      → start + length answer.1.sent ≡ stop
  unfolding write_loop
  write_loop-full zero start stop offset sent r answer at within h e fine =
      ground (arith, at, within, e)
  write_loop-full (suc more) start stop offset sent r answer at within h e fine =
      let want = min chunk_size (stop - offset) in
      let got = channel.read r offset want in
      elim (Outcome-cases got.1) [
        | inr (failure, bad) ↦ ground (arith, at, within, e, bad, fine)
        | inl (bytes, good) ↦
            let size = exact-length r offset want bytes good (omega (arith, h, within)) in
            let next : offset + length bytes ≡ start + length (sent ++ bytes) =
              omega (arith, at, length-append sent bytes) in
            let rest =
              write_loop-full more start stop (offset + length bytes) (sent ++ bytes) got.0 answer
                next (omega (arith, size, within)) h in
            ground (arith, at, within, e, good, fine, size, rest)
      ]

  exact-honest :
      (r : R) (offset count : ℕ) (bytes : Bytes)
      → (channel.read r offset count).1 ≡ ok bytes
      → bytes ≡ slice offset (length bytes) content
  exact-honest r offset count bytes e =
      let whole = exact r offset count bytes e in
      let size = ap length whole ∙ length-slice offset count content in
      whole ∙ slice_end offset count content ∙ ap (λ k. slice offset k content) (sym size)

  -- `writePlaybackRange` sends the whole range, when it ends without an error, for a range within the file and a reader that is
  -- exact.
  pub write_playback_range-whole :
      (start end : ℕ) (r : R) (answer : R × Written)
      → start ≤ end
      → end < length content
      → write_playback_range channel (pos (length content)) start (pos end) r ≡ some answer
      → answer.1.failure ≡ none
      → answer.1.sent ≡ slice start (end - start + 1) content
  unfolding write_playback_range
  write_playback_range-whole start end r answer ordered within e fine =
      let stop = min (end + 1) (length content) in
      let looped : write_loop channel true (stop - start) stop start [] r ≡ some answer =
        ground (arith, ordered, within, e) in
      let full =
        write_loop-full (stop - start) start stop start [] r answer (omega arith)
          (omega (arith, ordered, within)) (omega arith) looped fine in
      let size : length answer.1.sent ≡ end - start + 1 = omega (arith, full, ordered, within) in
      write_playback_range-prefix channel content exact-honest (pos (length content)) start
        (pos end) r answer e
      ∙ ap (λ k. slice start k content) size

  range_headers-IsPart :
      (start end : ℕ) (sent : Bytes)
      → start ≤ end
      → end < length content
      → length content ≤ max_int64
      → sent ≡ slice start (end - start + 1) content
      → IsPart content
          (range_headers start (pos end) (pos (length content))).0
          (range_headers start (pos end) (pos (length content))).1
          sent
  unfolding range_headers span_length format_int
  range_headers-IsPart start end sent ordered within fits block =
      let range : ContentRange = record {
        start = start;
        end = end;
        total = some (length content);
      } in
      let proper : IsProper range = record {
        ordered = ordered;
        fits = omega (arith, within, fits);
        within = (within, fits);
      } in
      record {
        range = range;
        header = format_content_range range;
        named = refl;
        reads_back = parse_content_range-format range proper;
        total = refl;
        block = block;
        counted = ap some (
            omega (
              arith,
              ap length block,
              length-slice start (end - start + 1) content,
              ordered,
              within,
            ));
      }

  span-IsTrue :
      (n start end : ℕ) (partial : Bool) (r : R) (answer : R × Response)
      → length content ≡ suc n
      → length content ≤ max_int64
      → IsWithin (suc n) (span start (pos end) partial)
      → serve_span channel (pos (length content)) (span start (pos end) partial) r ≡ some answer
      → IsTrue content answer.1
  unfolding serve_span IsTrue IsWithin whole_length span_length
  span-IsTrue n start end true r answer size fits w e =
      elim (Option-cases (write_playback_range channel (pos (length content)) start (pos end) r)) [
        | inl stuck ↦ absurd (ground (arith, e, stuck))
        | inr (written, done) ↦
            let headers = range_headers start (pos end) (pos (length content)) in
            let same : served 206 headers.0 headers.1 written.1 ≡ answer.1 =
              ground (arith, e, done) in
            subst (IsTrue content) same (λ fine. inl (
              refl,
              range_headers-IsPart start end written.1.sent w.0 (omega (arith, w.1, size)) fits (
                  write_playback_range-whole start end r written w.0 (omega (arith, w.1, size)) done
                    fine),
            ))
      ]
  span-IsTrue n start end false r answer size fits w e =
      elim (Option-cases (write_playback_range channel (pos (length content)) start (pos end) r)) [
        | inl stuck ↦ absurd (ground (arith, e, stuck))
        | inr (written, done) ↦
            let headers = whole_length start (pos end) (pos (length content)) in
            let same : served 200 headers none written.1 ≡ answer.1 = ground (arith, e, done) in
            let counted : headers ≡ some (length content) = ground (arith, w.0, w.1, size) in
            let count : end - start + 1 ≡ length content = omega (arith, w.0, w.1, size) in
            subst (IsTrue content) same (λ fine. inr (
              refl,
              counted,
              write_playback_range-whole start end r written (omega (arith, w.0))
                    (omega (arith, w.1, size)) done fine
                  ∙ ap (λ k. slice k (end - start + 1) content) w.0
                  ∙ take_all (end - start + 1) content (omega (arith, count)),
            ))
      ]

  answer-IsTrue :
      (n : ℕ) (range : RangeAnswer) (r : R) (answer : R × Response)
      → length content ≡ suc n
      → length content ≤ max_int64
      → IsWithin (suc n) range
      → serve_span channel (pos (length content)) range r ≡ some answer
      → IsTrue content answer.1
  unfolding serve_span IsTrue IsWithin
  answer-IsTrue n bad_range r answer size fits w e =
      let same : refused 400 none ≡ answer.1 = ground (arith, e) in
      subst (IsTrue content) same (inl refl)
  answer-IsTrue n not_satisfiable r answer size fits w e =
      let same : refused 416 (some (text "bytes */" ++ format (length content))) ≡ answer.1 =
        ground (arith, e) in
      subst (IsTrue content) same (inr refl)
  answer-IsTrue n (span start (negsuc m) partial) r answer size fits w e = absurd w
  answer-IsTrue n (span start (pos end) partial) r answer size fits w e =
      span-IsTrue n start end partial r answer size fits w e

  -- Every answer to a GET request for a file that is not empty is true: it is refused with 400 or 416, or its body ends in an error, or
  -- it is a part (206) whose Content-Range a client reads back as the block of the file that the body is, with the file's
  -- length and the body's length in Content-Length, or it is the whole file (200) with its length. The reader is exact and
  -- the length of the file fits into 64 bits.
  pub serve_playback_file-IsTrue :
      (header : Bytes) (n : ℕ) (r : R) (answer : R × Response)
      → length content ≡ suc n
      → length content ≤ max_int64
      → serve_playback_file channel get header (pos (length content)) r ≡ some answer
      → IsTrue content answer.1
  unfolding serve_playback_file
  serve_playback_file-IsTrue header n r answer size fits e =
      let within =
        subst (λ k. IsWithin k (parse_http_range header (pos k))) (sym size)
          (parse_http_range-IsWithin header n) in
      answer-IsTrue n (parse_http_range header (pos (length content))) r answer size fits
        (subst (λ k. IsWithin k (parse_http_range header (pos (length content)))) size within) e
