-- ===== src/Baidu/Download/Exact.antt =====
-- internal/baidu/client.go: `ReadRange` against the content of the files.
use baidu_disk_link.Common.{
  ℕ, zero, suc, ◌+◌, ◌-◌, ◌≤◌, ◌≡◌, sym, ap, ◌∙◌, none, some, [], ◌++◌, inl, inr, length,
  length-append, min, arith, Option-cases, ℕ_discrete, ◌⊎◌, append_assoc,
}
use baidu_disk_link.Common.Decimal.{pos}
use baidu_disk_link.Common.Slices.{slice, slice_end, slice-prefix}
use baidu_disk_link.ChunkStore.Types.{Bytes}
use baidu_disk_link.Remote.Errors.{ok}
use baidu_disk_link.Remote.Reader.Exact.{Outcome-cases}
use baidu_disk_link.Common.Text.{text}
use baidu_disk_link.Baidu.Network.{Opened, refused, opened, Network, do_json, file_metas, head_link}
use baidu_disk_link.Baidu.Account.{
  Account, Decoder, get_download_link, FileMetaResponse, link_of_response, redirect,
}
use baidu_disk_link.Baidu.Account.Links.{AreTrue, get_download_link-true}
use baidu_disk_link.Baidu.ContentRange.{ContentRange, parse_content_range}
use baidu_disk_link.Baidu.ContentRange.RoundTrip.{parse_content_range-ordered}
use baidu_disk_link.Baidu.Download.{
  Received, fill, check_range, check_extra, read_body, read_answer, read_range,
}

-- the bounds of a header that passes: to the end of the range or of the file
check_range-passed :
    (offset end : ℕ) (r : ContentRange)
    → check_range offset end r ≡ none
    → (r.start ≡ offset) × ((r.end ≡ end) ⊎ ((r.end ≤ end) × (r.total ≡ some (r.end + 1))))
unfolding check_range
check_range-passed offset end r e = elim (Option-cases r.total) [
  | inl unknown ↦ (ground (arith, e, unknown), inl (ground (arith, e, unknown)))
  | inr (total, known) ↦ (
    ground (arith, e, known),
    elim (ℕ_discrete r.end end) [
      | yes whole ↦ inl whole
      | no part ↦
          let last : r.end + 1 ≡ total = ground (arith, e, known, part) in
          inr (ground (arith, e, known, part), known ∙ ap some (sym last))
    ],
  )
]

-- such a block is the one that was asked for, when the length in the header is the file's
whole-block :
    (offset end : ℕ) (r : ContentRange) (content : Bytes)
    → r.start ≤ r.end
    → ((total : ℕ) → r.total ≡ some total → total ≡ length content)
    → check_range offset end r ≡ none
    → slice r.start (r.end - r.start + 1) content ≡ slice offset (end + 1 - offset) content
whole-block offset end r content ordered sized e =
    let passed = check_range-passed offset end r e in
    let start : r.start ≡ offset = passed.0 in
    elim passed.1 [
      | inl whole ↦
          let count : r.end - r.start + 1 ≡ end + 1 - offset =
            omega (arith, ordered, start, whole) in
          ap (λ k. slice k (r.end - r.start + 1) content) start
          ∙ ap (λ k. slice offset k content) count
      | inr (within, known) ↦
          let size = sized (r.end + 1) known in
          let count : r.end - r.start + 1 ≡ min (end + 1 - offset) (length content - offset) =
            omega (arith, ordered, start, within, size) in
          ap (λ k. slice k (r.end - r.start + 1) content) start
          ∙ ap (λ k. slice offset k content) count
          ∙ sym (slice_end offset (end + 1 - offset) content)
    ]

module _ {W : Type 0} (network : Network W) (body : W → Bytes)
    (reads : (w : W) (k : ℕ) → (network.read w k).1.0 ++ body (network.read w k).0 ≡ body w)
    (bounded : (w : W) (k : ℕ) → length (network.read w k).1.0 ≤ k) where
  -- what is in the buffer and what is still to come
  fill-kept :
      (rounds want : ℕ) (got : Bytes) (w : W) (answer : W × Received)
      → fill network rounds want got w ≡ some answer
      → answer.1.bytes ++ body answer.0 ≡ got ++ body w
  unfolding fill
  fill-kept zero want got w answer e = ground (arith, e)
  fill-kept (suc more) want got w answer e =
      let step = network.read w (want - length got) in
      let moved : (got ++ step.1.0) ++ body step.0 ≡ got ++ body w =
        append_assoc got step.1.0 (body step.0)
        ∙ ap (λ x. got ++ x) (reads w (want - length got)) in
      ground (arith, e, moved, fill-kept more want (got ++ step.1.0) step.0 answer)

  fill-full :
      (rounds want : ℕ) (got : Bytes) (w : W) (answer : W × Received)
      → length got ≤ want
      → fill network rounds want got w ≡ some answer
      → answer.1.failure ≡ none
      → length answer.1.bytes ≡ want
  unfolding fill
  fill-full zero want got w answer h e fine = ground (arith, e, fine)
  fill-full (suc more) want got w answer h e fine =
      let step = network.read w (want - length got) in
      ground (
        arith,
        e,
        fine,
        length-append got step.1.0,
        bounded w (want - length got),
        fill-full more want (got ++ step.1.0) step.0 answer,
      )

  check_extra-bytes :
      (want : ℕ) (got : W × Received) → (check_extra network want got).1.bytes ≡ got.1.bytes
  unfolding check_extra
  check_extra-bytes want (w, got) = ground arith

  check_extra-fine :
      (want : ℕ) (got : W × Received)
      → (check_extra network want got).1.failure ≡ none
      → got.1.failure ≡ none
  unfolding check_extra
  check_extra-fine want (w, got) e = ground (arith, e)

  read_body-exact :
      (offset end : ℕ) (r : ContentRange) (content : Bytes) (w : W) (answer : W × Received)
      → r.start ≤ r.end
      → ((total : ℕ) → r.total ≡ some total → total ≡ length content)
      → body w ≡ slice r.start (length (body w)) content
      → read_body network offset end r w ≡ some answer
      → answer.1.failure ≡ none
      → answer.1.bytes ≡ slice offset (end + 1 - offset) content
  unfolding read_body
  read_body-exact offset end r content w answer ordered sized served e fine =
      let want = r.end - r.start + 1 in
      elim (Option-cases (check_range offset end r)) [
        | inr (failure, bad) ↦ absurd (ground (arith, e, bad, fine))
        | inl passed ↦ elim (Option-cases (fill network want want [] w)) [
          | inl stuck ↦ absurd (ground (arith, e, passed, stuck))
          | inr (got, filled) ↦
              let same : check_extra network want got ≡ answer =
                ground (arith, e, passed, filled) in
              let bytes : answer.1.bytes ≡ got.1.bytes =
                ap (λ x. x.1.bytes) (sym same) ∙ check_extra-bytes want got in
              let went : got.1.failure ≡ none =
                check_extra-fine want got (ap (λ x. x.1.failure) same ∙ fine) in
              let full = fill-full want want [] w got (omega arith) filled went in
              let kept = fill-kept want want [] w got filled in
              let fits : length got.1.bytes ≤ length (body w) =
                omega (arith, ap length kept, length-append got.1.bytes (body got.0)) in
              bytes
              ∙ slice-prefix r.start (length (body w)) got.1.bytes (body got.0) content fits
                  (kept ∙ served)
              ∙ ap (λ k. slice r.start k content) full
              ∙ whole-block offset end r content ordered sized passed
        ]
      ]

  read_answer-exact :
      (offset end : ℕ) (content : Bytes) (w : W) (reply : Opened) (answer : W × Received)
      → ((header : Bytes) (r : ContentRange)
          → reply ≡ opened 206 header
          → parse_content_range header ≡ some r
          → (body w ≡ slice r.start (length (body w)) content)
            × ((total : ℕ) → r.total ≡ some total → total ≡ length content))
      → read_answer network offset end w reply ≡ some answer
      → answer.1.failure ≡ none
      → answer.1.bytes ≡ slice offset (end + 1 - offset) content
  unfolding read_answer
  read_answer-exact offset end content w (refused cause) answer serves e fine =
      absurd (ground (arith, e, fine))
  read_answer-exact offset end content w (opened status header) answer serves e fine =
      elim (Option-cases (parse_content_range header)) [
        | inl bad ↦ absurd (ground (arith, e, fine, bad))
        | inr (r, good) ↦
            let is_206 : status ≡ 206 = ground (arith, e, fine, good) in
            let served = serves header r (ap (λ k. opened k header) is_206) good in
            read_body-exact offset end r content w answer
              (parse_content_range-ordered header r good) served.1 served.0
              (ground (arith, e, good, is_206)) fine
      ]

  -- What the network is taken to do: a link that it names for a file leads there, as does one that it redirects to; and the body
  -- of a partial answer holds bytes of the file from where its header says, which may end early or go on too far, and says the
  -- file's length or nothing.
  module _ (decoder : Decoder) (file content : Bytes → Bytes)
      (names : (w : W) (token fsid : Bytes) (response : FileMetaResponse) (link : Bytes)
        → do_json decoder.metas (network.send w (file_metas token (text "[" ++ fsid ++ text "]"))).1
          ≡ ok response
        → link_of_response response ≡ ok link
        → file link ≡ content fsid)
      (leads : (w : W) (link token url : Bytes)
        → redirect link (network.send w (head_link link token)).1 ≡ ok url
        → file url ≡ file link)
      (serves : (w : W) (url : Bytes) (first last : ℕ) (header : Bytes) (r : ContentRange)
        → (network.get_range w url first last).1 ≡ opened 206 header
        → parse_content_range header ≡ some r
        → (body (network.get_range w url first last).0
            ≡ slice r.start (length (body (network.get_range w url first last).0)) (file url))
          × ((total : ℕ) → r.total ≡ some total → total ≡ length (file url))) where
    -- `ReadRange` gives the bytes of the file or an error: when every link that is kept leads to its file, and a read returns
    -- without an error, its bytes are those of the file at the offset, as many as asked for or up to the end of the file.
    -- The body may come in any pieces, break off or be too long; the network only has to name, redirect to and serve
    -- the file that is asked for, with headers that tell where the bytes of the body are.
    pub read_range-exact :
        (fsid : Bytes) (offset count : ℕ) (a : Account) (w : W) (answer : (Account × W) × Received)
        → AreTrue file content a.links
        → read_range network decoder fsid (pos offset) count a w ≡ some answer
        → answer.1.failure ≡ none
        → answer.1.bytes ≡ slice offset count (content fsid)
    unfolding read_range
    read_range-exact fsid offset zero a w answer t e fine = ground (arith, e)
    read_range-exact fsid offset (suc count) a w answer t e fine =
        let linked = get_download_link network decoder fsid a w in
        elim (Outcome-cases linked.1) [
          | inr (failure, bad) ↦ absurd (ground (arith, e, bad, fine))
          | inl (link, got) ↦
              let reply = network.get_range linked.0.1 link.url offset (offset + count) in
              elim (Option-cases (read_answer network offset (offset + count) reply.0 reply.1)) [
                | inl stuck ↦ absurd (ground (arith, e, got, stuck))
                | inr (found, done) ↦
                    let same : found.1 ≡ answer.1 = ground (arith, e, got, done) in
                    let size : offset + count + 1 - offset ≡ suc count = omega arith in
                    ap (λ x. x.bytes) (sym same)
                    ∙ read_answer-exact offset (offset + count) (file link.url) reply.0 reply.1
                        found
                        (λ header r. serves linked.0.1 link.url offset (offset + count) header r)
                        done (ap (λ x. x.failure) same ∙ fine)
                    ∙ ap (λ k. slice offset k (file link.url)) size
                    ∙ ap (slice offset (suc count)) (
                        get_download_link-true file content network decoder names leads fsid a w
                          link t got)
              ]
        ]
