-- ===== src/Baidu/Network.antt =====
-- internal/baidu/client.go: what the client asks of the network and of its JSON decoder, and `doJSON`.
use baidu_disk_link.Common.{
  ℕ, Bool, false, ◌&&◌, ◌||◌, Option, List, [], ◌∷◌, ◌++◌, leb, ◌==◌, if◌then◌else◌,
}
use baidu_disk_link.Common.Text.{text}
use baidu_disk_link.ChunkStore.Types.{Bytes}
use baidu_disk_link.Remote.Errors.{Failure, reported, Outcome, err}

-- An error of the network, of a context or of a decoder: whether it is an end of file, whether it is a
-- deadline or a cancellation, and its message.
pub record Cause : Type 0 where
  pub is_eof : Bool
  pub is_deadline : Bool
  pub message : Bytes

-- fmt.Errorf with the cause as its last argument, under %w
abbrev pub wrap : Bytes → Cause → Failure
wrap prefix cause = reported cause.is_eof cause.is_deadline (prefix ++ cause.message)

-- the error itself
abbrev pub raise : Cause → Failure
raise = wrap []

-- errors.New
abbrev pub report : Bytes → Failure
report message = reported false false message

-- The queries that are sent.
pub data Request : Type 0 where
  list_files : (token directory : Bytes) (start : Option ℕ) → Request
  file_metas : (token fsids : Bytes) → Request
  delete_files : (token : Bytes) (paths : List Bytes) → Request
  refresh_token : (token id secret : Bytes) → Request
  head_link : (link token : Bytes) → Request

-- The answer: none, one whose body breaks off after some bytes, or a status, a Location and a body.
pub data Reply : Type 0 where
  unanswered : Cause → Reply
  cut_off : (status : ℕ) (location body : Bytes) (cause : Cause) → Reply
  answered : (status : ℕ) (location body : Bytes) → Reply

-- What one Read of a body ends with: no error, io.EOF, or another error.
pub data Progress : Type 0 where
  going at_end : Progress
  broken : Cause → Progress

-- The answer to a request for a range.
pub data Opened : Type 0 where
  refused : Cause → Opened
  opened : (status : ℕ) (content_range : Bytes) → Opened

-- `read` reads at most so many bytes of the body that is open; `read_all` its first 512 bytes;
-- `stopped` is the error of the download's context, once there is one.
pub record Network (W : Type 0) : Type 0 where
  pub send : W → Request → W × Reply
  pub get_range : W → (url : Bytes) (first last : ℕ) → W × Opened
  pub read : W → ℕ → W × (Bytes × Progress)
  pub read_all : W → Bytes
  pub stopped : W → Option Cause
  pub now : W → ℕ

unfoldable pub is_space : ℕ → Bool
is_space c = c == 32 || (leb 9 c && leb c 13)

unfoldable pub trim_left : Bytes → Bytes
unfolding is_space
trim_left [] = []
trim_left (c ∷ s) = if is_space c then trim_left s else c ∷ s

-- strings.TrimRight by blanks
unfoldable pub trim_right : Bytes → Bytes
unfolding is_space
trim_right [] = []
trim_right (c ∷ s) =
    let rest = trim_right s in
    elim rest [ [] ↦ if is_space c then [] else c ∷ [] | d ∷ behind ↦ c ∷ d ∷ behind ]

-- strings.TrimSpace on ASCII
unfoldable pub trim_space : Bytes → Bytes
unfolding trim_left trim_right
trim_space s = trim_right (trim_left s)

-- doJSON, with the decoder of the answer that is expected
unfoldable pub do_json {ℓ} : {A : Type ℓ} → (Bytes → Outcome A) → Reply → Outcome A
unfolding trim_space
do_json decode (unanswered cause) = err (raise cause)
do_json decode (cut_off status location body cause) = err (raise cause)
do_json decode (answered status location body) =
    if leb 400 status
    then err (report (text "baidu api failed: " ++ trim_space body))
    else decode body
