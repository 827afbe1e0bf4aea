-- ===== src/Baidu/Download.antt =====
-- internal/baidu/client.go: `ReadRange`, the download of a block of a file. A header is reported as it
-- is, without the quotes.
pub mod Exact
pub mod Ends
pub mod Errors
use baidu_disk_link.Common.{
  ℕ, zero, suc, ◌+◌, ◌-◌, ◌≡◌, Bool, true, false, not, ◌&&◌, Option, none, some, List, [], ◌∷◌,
  ◌++◌, length, ltb, leb, ◌==◌, if◌then◌else◌,
}
use baidu_disk_link.Common.Decimal.{ℤ, pos, negsuc, format}
use baidu_disk_link.Common.Text.{text}
use baidu_disk_link.ChunkStore.Types.{Bytes}
use baidu_disk_link.Remote.Errors.{Failure, Outcome, ok, err, reported}
use baidu_disk_link.Baidu.Network.{
  Cause, wrap, raise, report, Progress, going, at_end, broken, Opened, refused, opened, Network,
  trim_space,
}
use baidu_disk_link.Baidu.Account.{DownloadLink, Account, Decoder, get_download_link}
use baidu_disk_link.Baidu.ContentRange.{ContentRange, parse_content_range}

-- What `ReadRange` returns: the bytes that are in the buffer, and the error.
pub record Received : Type 0 where
  pub bytes : Bytes
  pub failure : Option Failure

abbrev pub failed : Bytes → Failure → Received
failed bytes e = record { bytes = bytes; failure = some e }

abbrev pub received : Bytes → Received
received bytes = record { bytes = bytes; failure = none }

abbrev unexpected_eof : Cause
unexpected_eof = record { is_eof = true; is_deadline = false; message = text "unexpected EOF" }

abbrev no_progress : Cause
no_progress = record {
  is_eof = false;
  is_deadline = false;
  message = text "multiple Read calls return no data or error";
}

abbrev count_of : ℕ → ℕ → Bytes
count_of n want = format n ++ text " of " ++ format want

abbrev timed_out : ℕ → ℕ → Cause → Failure
timed_out n want =
    wrap (text "download range body timeout after " ++ count_of n want ++ text " bytes: ")

abbrev short_body : ℕ → ℕ → Cause → Failure
short_body n want = wrap (
    text "download range body length "
    ++ format n
    ++ text ", declared "
    ++ format want
    ++ text ": ")

-- the bounds of the header against what was asked for
unfoldable pub check_range : ℕ → ℕ → ContentRange → Option Failure
check_range offset end r =
    let at_file_end : Bool = elim r.total [ none ↦ false | some total ↦ r.end + 1 == total ] in
    if not (r.start == offset)
    then some (
        report (
          text "download content range starts at "
          ++ format r.start
          ++ text ", want "
          ++ format offset))
    else if ltb end r.end
    then some (
        report (
          text "download content range ends at "
          ++ format r.end
          ++ text ", requested at most "
          ++ format end))
    else if ltb r.end end && not at_file_end
    then some (
        wrap
          (text "download content range ends at "
            ++ format r.end
            ++ text " before requested end "
            ++ format end
            ++ text ": ")
          unexpected_eof)
    else none

unfoldable pub status_failure : ℕ → Bytes → Failure
unfolding trim_space
status_failure status body =
    report
      (text "download range failed: status=" ++ format status ++ text " body=" ++ trim_space body)

module _ {W : Type 0} (network : Network W) where
  -- the error of a Read, unless it is the end of a body that is complete
  unfoldable pub read_failure : ℕ → ℕ → Option Cause → Progress → Option Failure
  read_failure n want context going = none
  read_failure n want (some cause) at_end = some (timed_out n want cause)
  read_failure n want none at_end =
      if n == want then none else some (short_body n want unexpected_eof)
  read_failure n want (some cause) (broken e) = some (timed_out n want cause)
  read_failure n want none (broken e) = some (short_body n want e)

  -- the loop that fills the buffer; none where the rounds do not suffice
  unfoldable pub fill : ℕ → ℕ → Bytes → W → Option (W × Received)
  unfolding read_failure
  fill zero want got w = if leb want (length got) then some (w, received got) else none
  fill (suc more) want got w =
      let step = network.read w (want - length got) in
      let now = got ++ step.1.0 in
      let rest = fill more want now step.0 in
      if leb want (length got)
      then some (w, received got)
      else elim (read_failure (length now) want (network.stopped step.0) step.1.1) [
        | some e ↦ some (step.0, failed now e)
        | none ↦
            if length step.1.0 == 0
            then some (step.0, failed now (short_body (length now) want no_progress))
            else rest
      ]

  -- the error of the Read of one more byte
  unfoldable pub extra_failure : ℕ → ℕ → Option Cause → Progress → Option Failure
  extra_failure n want context going = none
  extra_failure n want context at_end = none
  extra_failure n want (some cause) (broken e) = some (timed_out n want cause)
  extra_failure n want none (broken e) = some (raise e)

  unfoldable pub check_extra : ℕ → W × Received → W × Received
  unfolding extra_failure
  check_extra want (w, got) =
      let step = network.read w 1 in
      elim got.failure [
        | some e ↦ (w, got)
        | none ↦
            if ltb 0 (length step.1.0)
            then (
              step.0,
              failed got.bytes
                  (report (text "download range exceeded declared length " ++ format want)),
            )
            else (
              step.0,
              record {
                bytes = got.bytes;
                failure = extra_failure (length got.bytes) want (network.stopped step.0) step.1.1;
              },
            )
      ]

  -- the body of an answer whose header has been read
  unfoldable pub read_body : ℕ → ℕ → ContentRange → W → Option (W × Received)
  unfolding check_range fill check_extra
  read_body offset end r w =
      let want = r.end - r.start + 1 in
      elim (check_range offset end r) [
        | some e ↦ some (w, failed [] e)
        | none ↦ elim (fill want want [] w) [ none ↦ none | some got ↦ some (check_extra want got) ]
      ]

  unfoldable pub read_answer : ℕ → ℕ → W → Opened → Option (W × Received)
  unfolding read_body status_failure
  read_answer offset end w (refused cause) = elim (network.stopped w) [
    | some stop ↦ some (w, failed [] (wrap (text "download range timed out or canceled: ") stop))
    | none ↦ some (w, failed [] (raise cause))
  ]
  read_answer offset end w (opened status content_range) =
      if not (status == 206)
      then some (w, failed [] (status_failure status (network.read_all w)))
      else elim (parse_content_range content_range) [
        | none ↦ some (w, failed [] (report (text "invalid content range " ++ content_range)))
        | some r ↦ read_body offset end r w
      ]

  -- `ReadRange`; none only where the loop of the body does not end
  unfoldable pub read_range :
      Decoder → Bytes → ℤ → ℕ → Account → W → Option ((Account × W) × Received)
  unfolding get_download_link read_answer
  read_range decoder fsid (negsuc n) count a w =
      some ((a, w), failed [] (report (text "offset must be non-negative")))
  read_range decoder fsid (pos offset) zero a w = some ((a, w), received [])
  read_range decoder fsid (pos offset) (suc count) a w =
      let linked = get_download_link network decoder fsid a w in
      elim linked.1 [
        | err e ↦ some (linked.0, failed [] e)
        | ok link ↦
            let answer = network.get_range linked.0.1 link.url offset (offset + count) in
            elim (read_answer offset (offset + count) answer.0 answer.1) [
              | none ↦ none
              | some got ↦ some ((linked.0.0, got.0), got.1)
            ]
      ]
