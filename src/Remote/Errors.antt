-- ===== src/Remote/Errors.antt =====
-- internal/remote/remote.go: the errors of a download and their classes. A message is its bytes;
-- the upper case is that of the ASCII letters.
use baidu_disk_link.Common.{
  ◌+◌, ◌≡◌, refl, Bool, true, false, ◌&&◌, ◌||◌, [], ◌∷◌, leb, ◌==◌, if◌then◌else◌, arith,
}
use baidu_disk_link.ChunkStore.Types.{Bytes}

-- `reported` is an error of the client or of the context: whether it is an end of file, whether it is
-- a deadline or a cancellation, and its message.
pub data Failure : Type 0 where
  length_negative fsid_required short_read : Failure
  reported : Bool → Bool → Bytes → Failure

pub data Outcome {ℓ} (A : Type ℓ) : Type ℓ where
  ok : A → Outcome A
  err : Failure → Outcome A

-- DownloadErrorKind
pub data DownloadErrorKind : Type 0 where
  other transport auth range eof : DownloadErrorKind

unfoldable pub lower : Bytes → Bytes
lower [] = []
lower (c ∷ text) = (if leb 65 c && leb c 90 then c + 32 else c) ∷ lower text

unfoldable pub starts_with : Bytes → Bytes → Bool
starts_with [] text = true
starts_with (c ∷ word) [] = false
starts_with (c ∷ word) (d ∷ text) = (c == d) && starts_with word text

-- strings.Contains(text, word), for a word that is not empty
unfoldable pub contains : Bytes → Bytes → Bool
unfolding starts_with
contains word [] = false
contains word (c ∷ text) = starts_with word (c ∷ text) || contains word text

-- status=401
abbrev status_401 : Bytes
status_401 = 115 ∷ 116 ∷ 97 ∷ 116 ∷ 117 ∷ 115 ∷ 61 ∷ 52 ∷ 48 ∷ 49 ∷ []

-- status=403
abbrev status_403 : Bytes
status_403 = 115 ∷ 116 ∷ 97 ∷ 116 ∷ 117 ∷ 115 ∷ 61 ∷ 52 ∷ 48 ∷ 51 ∷ []

-- unauthorized
abbrev unauthorized : Bytes
unauthorized = 117 ∷ 110 ∷ 97 ∷ 117 ∷ 116 ∷ 104 ∷ 111 ∷ 114 ∷ 105 ∷ 122 ∷ 101 ∷ 100 ∷ []

-- forbidden
abbrev forbidden : Bytes
forbidden = 102 ∷ 111 ∷ 114 ∷ 98 ∷ 105 ∷ 100 ∷ 100 ∷ 101 ∷ 110 ∷ []

-- status=416
abbrev status_416 : Bytes
status_416 = 115 ∷ 116 ∷ 97 ∷ 116 ∷ 117 ∷ 115 ∷ 61 ∷ 52 ∷ 49 ∷ 54 ∷ []

-- content range
abbrev content_range : Bytes
content_range = 99 ∷ 111 ∷ 110 ∷ 116 ∷ 101 ∷ 110 ∷ 116 ∷ 32 ∷ 114 ∷ 97 ∷ 110 ∷ 103 ∷ 101 ∷ []

-- timeout
abbrev timeout : Bytes
timeout = 116 ∷ 105 ∷ 109 ∷ 101 ∷ 111 ∷ 117 ∷ 116 ∷ []

-- connection reset
abbrev connection_reset : Bytes
connection_reset =
    99 ∷ 111 ∷ 110 ∷ 110 ∷ 101 ∷ 99 ∷ 116 ∷ 105 ∷ 111 ∷ 110 ∷ 32 ∷ 114 ∷ 101 ∷ 115 ∷ 101 ∷ 116 ∷ []

unfoldable pub classify_message : Bool → Bytes → DownloadErrorKind
unfolding contains
classify_message deadline message =
    if contains status_401 message
      || (contains status_403 message
          || (contains unauthorized message || contains forbidden message))
    then auth
    else if contains status_416 message || contains content_range message
    then range
    else if deadline || (contains timeout message || contains connection_reset message)
    then transport
    else other

-- ClassifyDownloadError; the messages of the guards hold none of the words
unfoldable pub classify : Failure → DownloadErrorKind
unfolding classify_message lower
classify length_negative = other
classify fsid_required = other
classify short_read = eof
classify (reported end deadline message) =
    if end then eof else classify_message deadline (lower message)

pub lower-lower : (text : Bytes) → lower (lower text) ≡ lower text
unfolding lower
lower-lower [] = refl
lower-lower (c ∷ text) = ground (arith, lower-lower text)

-- a message with the status 403
pub classify_message-auth :
    (deadline : Bool) (message : Bytes)
    → contains status_403 message ≡ true
    → classify_message deadline message ≡ auth
unfolding classify_message
classify_message-auth deadline message h = ground (arith, h)

-- The class of a reported error does not depend on the case of the letters of its message.
pub classify-lower :
    (end deadline : Bool) (message : Bytes)
    → classify (reported end deadline (lower message)) ≡ classify (reported end deadline message)
unfolding classify
classify-lower end deadline message = rw (lower-lower message)
