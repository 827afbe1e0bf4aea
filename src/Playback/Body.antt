-- ===== src/Playback/Body.antt =====
-- internal/app/playback.go: `writePlaybackRange`.
use baidu_disk_link.Common.{
  ℕ, zero, suc, ◌+◌, ◌-◌, ◌≤◌, ◌≡◌, ◌≢◌, refl, sym, ap, ◌∙◌, Bool, true, false, none, some, [],
  ◌++◌, length, length-append, min, arith, inl, inr, Option-cases, ap,
}
use baidu_disk_link.Common.Decimal.{ℤ, pos, negsuc}
use baidu_disk_link.Common.Slices.{slice, slice-append-slice}
use baidu_disk_link.ChunkStore.Types.{Bytes}
use baidu_disk_link.Remote.Errors.{ok}
use baidu_disk_link.Remote.Reader.Exact.{Outcome-cases}
use baidu_disk_link.Playback.{Written, Channel, chunk_size, write_loop, write_playback_range}

module _ {R : Type 0} (channel : Channel R) where
  write_loop-ends :
      (known : Bool) (rounds stop offset : ℕ) (sent : Bytes) (r : R)
      → stop ≤ rounds + offset
      → write_loop channel known rounds stop offset sent r ≢ none
  unfolding write_loop
  write_loop-ends known zero stop offset sent r h e = ground (arith, h, e)
  write_loop-ends known (suc more) stop offset sent r h e =
      let got = channel.read r offset (min chunk_size (stop - offset)) in
      elim (Outcome-cases got.1) [
        | inr (failure, bad) ↦ ground (arith, e, bad)
        | inl (bytes, good) ↦
            let rest =
              write_loop-ends known more stop (offset + length bytes) (sent ++ bytes) got.0 in
            ground (arith, h, e, good, rest)
      ]

  write_playback_range-ends :
      (size : ℤ) (start : ℕ) (end : ℤ) (r : R)
      → write_playback_range channel size start end r ≢ none
  unfolding write_playback_range
  write_playback_range-ends size start (negsuc m) r e = absurd (cc)
  write_playback_range-ends (negsuc m) start (pos end) r e =
      write_loop-ends false chunk_size (start + chunk_size) start [] r (omega arith) e
  write_playback_range-ends (pos size) start (pos end) r e =
      let stop = min (end + 1) size in
      ground (arith, e, write_loop-ends true (stop - start) stop start [] r (omega arith))

  -- `writePlaybackRange` always returns: each round sends at least one byte of those that are still to be sent, or is the last.
  pub write_playback_range-total :
      (size : ℤ) (start : ℕ) (end : ℤ) (r : R)
      → (answer : R × Written) × (write_playback_range channel size start end r ≡ some answer)
  write_playback_range-total size start end r =
      elim (Option-cases (write_playback_range channel size start end r)) [
        | inr found ↦ found
        | inl stuck ↦ absurd (write_playback_range-ends size start end r stuck)
      ]

  -- what a reader that is right reads
  module _ (content : Bytes)
      (honest : (r : R) (offset count : ℕ) (bytes : Bytes)
        → (channel.read r offset count).1 ≡ ok bytes
        → bytes ≡ slice offset (length bytes) content) where
    longer :
        (start offset : ℕ) (sent bytes : Bytes)
        → offset ≡ start + length sent
        → sent ≡ slice start (length sent) content
        → bytes ≡ slice offset (length bytes) content
        → sent ++ bytes ≡ slice start (length (sent ++ bytes)) content
    longer start offset sent bytes at before read =
        ap (λ x. x ++ bytes) before
        ∙ ap (λ x. slice start (length sent) content ++ x)
            (read ∙ ap (λ k. slice k (length bytes) content) at)
        ∙ slice-append-slice start (length sent) (length bytes) content
        ∙ ap (λ k. slice start k content) (sym (length-append sent bytes))

    write_loop-prefix :
        (known : Bool) (rounds start stop offset : ℕ) (sent : Bytes) (r : R) (answer : R × Written)
        → offset ≡ start + length sent
        → sent ≡ slice start (length sent) content
        → write_loop channel known rounds stop offset sent r ≡ some answer
        → answer.1.sent ≡ slice start (length answer.1.sent) content
    unfolding write_loop
    write_loop-prefix known zero start stop offset sent r answer at before e =
        ground (arith, before, e)
    write_loop-prefix known (suc more) start stop offset sent r answer at before e =
        let got = channel.read r offset (min chunk_size (stop - offset)) in
        elim (Outcome-cases got.1) [
          | inr (failure, bad) ↦ ground (arith, before, e, bad)
          | inl (bytes, good) ↦
              let added =
                longer start offset sent bytes at before
                  (honest r offset (min chunk_size (stop - offset)) bytes good) in
              let next : offset + length bytes ≡ start + length (sent ++ bytes) =
                omega (arith, at, length-append sent bytes) in
              let rest =
                write_loop-prefix known more start stop (offset + length bytes) (sent ++ bytes)
                  got.0 answer next added in
              ground (arith, before, added, e, good, rest)
        ]

    -- What `writePlaybackRange` sends are bytes of the file from the start of the range on, without a gap, also when an error of
    -- the reader or of the connection ends it, if the reader only gives bytes of the file at the offset asked for.
    pub write_playback_range-prefix :
        (size : ℤ) (start : ℕ) (end : ℤ) (r : R) (answer : R × Written)
        → write_playback_range channel size start end r ≡ some answer
        → answer.1.sent ≡ slice start (length answer.1.sent) content
    unfolding write_playback_range
    write_playback_range-prefix size start (negsuc m) r answer e = ground (arith, e)
    write_playback_range-prefix (negsuc m) start (pos end) r answer e =
        write_loop-prefix false chunk_size start (start + chunk_size) start [] r answer
          (omega arith) refl e
    write_playback_range-prefix (pos size) start (pos end) r answer e =
        let stop = min (end + 1) size in
        ground (
          arith,
          e,
          write_loop-prefix true (stop - start) start stop start [] r answer (omega arith) refl,
        )
