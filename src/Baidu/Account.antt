-- ===== src/Baidu/Account.antt =====
-- internal/baidu/client.go: the tokens and the download links that the client keeps.
pub mod Links
use baidu_disk_link.Common.{
  ℕ, ◌+◌, ◌*◌, ◌^◌, Bool, true, false, Option, none, some, List, [], ◌∷◌, ◌++◌, ltb, leb, ◌==◌,
  if◌then◌else◌, not,
}
use baidu_disk_link.Common.Decimal.{ℤ, pos, negsuc, format}
use baidu_disk_link.Common.Maps.{lookup, without, insert}
use baidu_disk_link.Common.Text.{text, is_blank}
use baidu_disk_link.ChunkStore.Types.{Bytes, Bytes-discrete}
use baidu_disk_link.Remote.Errors.{Outcome, ok, err, Failure}
use baidu_disk_link.Baidu.Network.{
  Cause, raise, report, Request, file_metas, refresh_token, head_link, Reply, unanswered, cut_off,
  answered, Network, trim_space, do_json,
}

-- `expires_at` is none for the zero time.
pub record DownloadLink : Type 0 where
  pub url : Bytes
  pub expires_at : Option ℕ

-- The state of an APIClient.
pub record Account : Type 0 where
  pub access_token : Bytes
  pub refresh_token : Bytes
  pub client_id : Bytes
  pub client_secret : Bytes
  pub links : List (Bytes × DownloadLink)

-- apiFileMeta; `is_dir` holds where the number is not 0.
pub record FileMeta : Type 0 where
  pub fsid : ℤ
  pub server_name : Bytes
  pub path : Bytes
  pub size : ℤ
  pub is_dir : Bool
  pub server_mtime : ℤ
  pub local_mtime : ℤ
  pub md5 : Bytes
  pub dlink : Bytes

-- apiFileMetaResponse
pub record FileMetaResponse : Type 0 where
  pub entries : List FileMeta
  pub list : List FileMeta
  pub error_code : ℤ
  pub error_msg : Bytes

-- what a refresh answers
pub record Tokens : Type 0 where
  pub access_token : Bytes
  pub refresh_token : Bytes

-- json.Unmarshal
pub record Decoder : Type 0 where
  pub metas : Bytes → Outcome FileMetaResponse
  pub tokens : Bytes → Outcome Tokens

abbrev pub is_zero : ℤ → Bool
is_zero (negsuc n) = false
is_zero (pos n) = n == 0

-- `Entries`, or `List` where that is empty
unfoldable pub metas_of : FileMetaResponse → List FileMeta
metas_of response = elim response.entries [ [] ↦ response.list | m ∷ ms ↦ m ∷ ms ]

-- time.Now().After(link.ExpiresAt)
abbrev pub is_expired : ℕ → DownloadLink → Bool
is_expired now link = elim link.expires_at [ none ↦ false | some time ↦ ltb time now ]

unfoldable pub cached_download_link : ℕ → Bytes → Account → Account × Option DownloadLink
cached_download_link now fsid a = elim (lookup Bytes-discrete fsid a.links) [
  | none ↦ (a, none)
  | some link ↦
      if is_expired now link
      then (record a { links = without Bytes-discrete fsid a.links }, none)
      else (a, some link)
]

unfoldable pub cache_download_link : Bytes → DownloadLink → Account → Account
cache_download_link fsid link a = record a { links = insert Bytes-discrete fsid link a.links }

unfoldable pub invalidate_download_link : Bytes → Account → Account
invalidate_download_link fsid a =
    if is_blank fsid then a else record a { links = without Bytes-discrete fsid a.links }

-- the link of the first entry
unfoldable pub first_link : List FileMeta → Outcome Bytes
first_link [] = err (report (text "missing file metadata"))
first_link (m ∷ ms) =
    if is_blank m.dlink then err (report (text "missing download link")) else ok m.dlink

unfoldable pub link_of_response : FileMetaResponse → Outcome Bytes
unfolding first_link metas_of
link_of_response response =
    if not (is_zero response.error_code)
    then err (report (text "baidu dlink failed: " ++ response.error_msg))
    else first_link (metas_of response)

-- where the HEAD request leads
unfoldable pub redirect : Bytes → Reply → Outcome Bytes
unfolding trim_space
redirect link (unanswered cause) = err (raise cause)
redirect link (cut_off status location body cause) =
    if leb 400 status
    then err (report (text "download head failed: " ++ trim_space body))
    else ok (if is_blank location then link else location)
redirect link (answered status location body) =
    if leb 400 status
    then err (report (text "download head failed: " ++ trim_space body))
    else ok (if is_blank location then link else location)

unfoldable pub pick_tokens : Tokens → Account → Outcome Account
pick_tokens got a =
    if is_blank got.access_token
    then err (report (text "missing access token"))
    else ok (record a {
      access_token = got.access_token;
      refresh_token = if is_blank got.refresh_token then a.refresh_token else got.refresh_token;
      links = [];
    })

-- the answer to the refresh of the tokens
unfoldable pub tokens_of_reply : (Bytes → Outcome Tokens) → Reply → Outcome Tokens
unfolding trim_space
tokens_of_reply decode (unanswered cause) = err (raise cause)
tokens_of_reply decode (cut_off status location body cause) = err (raise cause)
tokens_of_reply decode (answered status location body) =
    if leb 400 status
    then err (report (text "refresh failed: " ++ trim_space body))
    else decode body

module _ {W : Type 0} (network : Network W) (decoder : Decoder) where
  unfoldable pub resolve_download_url : Bytes → Account → W → W × Outcome Bytes
  unfolding redirect
  resolve_download_url link a w =
      let answer = network.send w (head_link link a.access_token) in
      (answer.0, redirect link answer.1)

  -- the part after the look into the cache
  unfoldable pub ask_download_link : Bytes → Account → W → (Account × W) × Outcome DownloadLink
  unfolding do_json link_of_response resolve_download_url cache_download_link
  ask_download_link fsid a w =
      let answer = network.send w (file_metas a.access_token (text "[" ++ fsid ++ text "]")) in
      elim (do_json decoder.metas answer.1) [
        | err e ↦ ((a, answer.0), err e)
        | ok response ↦ elim (link_of_response response) [
          | err e ↦ ((a, answer.0), err e)
          | ok link ↦
              let final = resolve_download_url link a answer.0 in
              elim final.1 [
                | err e ↦ ((a, final.0), err e)
                | ok url ↦
                    let out : DownloadLink = record {
                      url = url;
                      expires_at = some (network.now final.0 + 600 * 10 ^ 9);
                    } in
                    ((cache_download_link fsid out a, final.0), ok out)
              ]
        ]
      ]

  unfoldable pub get_download_link : Bytes → Account → W → (Account × W) × Outcome DownloadLink
  unfolding cached_download_link ask_download_link
  get_download_link fsid a w =
      let cached = cached_download_link (network.now w) fsid a in
      elim cached.1 [
        | some link ↦ ((cached.0, w), ok link)
        | none ↦ ask_download_link fsid cached.0 w
      ]

  -- RefreshAuth; `on_update` is the callback, when there is one
  unfoldable pub refresh_auth :
      (Bytes → Bytes → W → W × Option Cause) → Account → W → (Account × W) × Option Failure
  unfolding tokens_of_reply pick_tokens
  refresh_auth on_update a w =
      let answer = network.send w (refresh_token a.refresh_token a.client_id a.client_secret) in
      if is_blank a.refresh_token
      then ((a, w), some (report (text "refresh token is required")))
      else elim (tokens_of_reply decoder.tokens answer.1) [
        | err e ↦ ((a, answer.0), some e)
        | ok got ↦ elim (pick_tokens got a) [
          | err e ↦ ((a, answer.0), some e)
          | ok after ↦
              let told = on_update after.access_token after.refresh_token answer.0 in
              ((after, told.0), elim told.1 [ none ↦ none | some cause ↦ some (raise cause) ])
        ]
      ]
