-- ===== src/Baidu/Download/Ends.antt =====
-- internal/baidu/client.go: `ReadRange` comes to an end.
use baidu_disk_link.Common.{
  ℕ, zero, suc, ◌+◌, ◌-◌, ◌≤◌, ◌≡◌, none, some, [], ◌++◌, inl, inr, length, length-append, arith,
  Option-cases, ◌≢◌,
}
use baidu_disk_link.Common.Decimal.{ℤ, pos, negsuc}
use baidu_disk_link.ChunkStore.Types.{Bytes}
use baidu_disk_link.Remote.Reader.Exact.{Outcome-cases}
use baidu_disk_link.Baidu.Network.{Opened, refused, opened, Network}
use baidu_disk_link.Baidu.Account.{Account, Decoder, get_download_link}
use baidu_disk_link.Baidu.ContentRange.{ContentRange, parse_content_range}
use baidu_disk_link.Baidu.Download.{Received, fill, read_body, read_answer, read_range}

module _ {W : Type 0} (network : Network W) where
  -- as many rounds as bytes are missing suffice
  fill-ends :
      (rounds want : ℕ) (got : Bytes) (w : W)
      → want ≤ rounds + length got
      → fill network rounds want got w ≢ none
  unfolding fill
  fill-ends zero want got w h e = ground (arith, e)
  fill-ends (suc more) want got w h e =
      let step = network.read w (want - length got) in
      ground (arith, e, length-append got step.1.0, fill-ends more want (got ++ step.1.0) step.0)

  read_body-ends :
      (offset end : ℕ) (r : ContentRange) (w : W) → read_body network offset end r w ≢ none
  unfolding read_body
  read_body-ends offset end r w e =
      let want = r.end - r.start + 1 in ground (arith, e, fill-ends want want [] w)

  read_answer-ends :
      (offset end : ℕ) (w : W) (answer : Opened) → read_answer network offset end w answer ≢ none
  unfolding read_answer
  read_answer-ends offset end w (refused cause) e = ground (arith, e)
  read_answer-ends offset end w (opened status content_range) e =
      elim (Option-cases (parse_content_range content_range)) [
        | inl bad ↦ ground (arith, e, bad)
        | inr (r, good) ↦ ground (arith, e, good, read_body-ends offset end r w)
      ]

  read_range-ends :
      (decoder : Decoder) (fsid : Bytes) (offset : ℤ) (count : ℕ) (a : Account) (w : W)
      → read_range network decoder fsid offset count a w ≢ none
  unfolding read_range
  read_range-ends decoder fsid (negsuc n) count a w e = absurd (cc)
  read_range-ends decoder fsid (pos offset) zero a w e = absurd (cc)
  read_range-ends decoder fsid (pos offset) (suc count) a w e =
      let linked = get_download_link network decoder fsid a w in
      elim (Outcome-cases linked.1) [
        | inr (failure, got) ↦ ground (arith, e, got)
        | inl (link, got) ↦
            let answer = network.get_range linked.0.1 link.url offset (offset + count) in
            ground (arith, e, got, read_answer-ends offset (offset + count) answer.0 answer.1)
      ]

  -- `ReadRange` always returns: the loop over the body makes at most as many reads as the block has bytes, whatever the
  -- network answers.
  pub read_range-total :
      (decoder : Decoder) (fsid : Bytes) (offset : ℤ) (count : ℕ) (a : Account) (w : W)
      → (answer : (Account × W) × Received) × (read_range network decoder fsid offset count a w
          ≡ some answer)
  read_range-total decoder fsid offset count a w =
      elim (Option-cases (read_range network decoder fsid offset count a w)) [
        | inr found ↦ found
        | inl stuck ↦ absurd (read_range-ends decoder fsid offset count a w stuck)
      ]
