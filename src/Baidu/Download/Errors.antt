-- ===== src/Baidu/Download/Errors.antt =====
-- internal/baidu/client.go and internal/remote/remote.go: how the reader takes the errors of a download.
use baidu_disk_link.Common.{◌≡◌, refl, Bool, false, ◌++◌, ◌||◌, if◌then◌else◌}
use baidu_disk_link.Common.Decimal.{format}
use baidu_disk_link.Common.Text.{text}
use baidu_disk_link.ChunkStore.Types.{Bytes}
use baidu_disk_link.Remote.Errors.{
  auth, range, lower, starts_with, contains, classify, classify_message, classify_message-auth,
  reported,
}
use baidu_disk_link.Baidu.Network.{trim_space}
use baidu_disk_link.Baidu.Download.{status_failure}

-- what a message says of the authorisation
abbrev pub names_authorisation : Bytes → Bool
names_authorisation message =
    contains (text "status=401") message
    || (contains (text "status=403") message
        || (contains (text "unauthorized") message || contains (text "forbidden") message))

-- An answer 401 or 403 is an error of the authorisation to the reader, whatever the body of the answer says. An answer 416 is an
-- error of the range, unless the body, spaces around it and upper case aside, names an error of the authorisation, which it
-- then is. With the answers 404, 500 and 503 the class is that of the body alone.
pub classify-status_failure :
    (body : Bytes)
    → (classify (status_failure 401 body) ≡ auth)
      × (classify (status_failure 403 body) ≡ auth)
      × (classify (status_failure 416 body)
          ≡ (if names_authorisation (lower (trim_space body)) then auth else range))
      × (classify (status_failure 404 body) ≡ classify (reported false false (trim_space body)))
      × (classify (status_failure 500 body) ≡ classify (reported false false (trim_space body)))
      × (classify (status_failure 503 body) ≡ classify (reported false false (trim_space body)))
unfolding classify classify_message status_failure contains starts_with lower format
classify-status_failure body =
    let message = lower (text "download range failed: status=403 body=" ++ trim_space body) in
    (refl, classify_message-auth false message refl, refl, refl, refl, refl)
