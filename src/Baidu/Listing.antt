-- ===== src/Baidu/Listing.antt =====
-- internal/baidu/client.go: `List`, `Stat` and `Delete`.
pub mod Pages
use baidu_disk_link.Common.{
  ℕ, zero, suc, Bool, true, false, not, ◌&&◌, ◌||◌, Option, none, some, List, [], ◌∷◌, ◌++◌, map,
  ltb, leb, ◌==◌, if◌then◌else◌,
}
use baidu_disk_link.Common.Decimal.{ℤ, pos, negsuc, format}
use baidu_disk_link.Common.Text.{text, is_blank}
use baidu_disk_link.ChunkStore.Types.{Bytes}
use baidu_disk_link.Remote.Errors.{Failure, Outcome, ok, err}
use baidu_disk_link.Baidu.Network.{
  report, Request, list_files, file_metas, delete_files, Reply, Network, do_json,
}
use baidu_disk_link.Baidu.Account.{Account, FileMeta, FileMetaResponse, Decoder, is_zero, metas_of}

-- RemoteEntry
pub record RemoteEntry : Type 0 where
  pub fsid : Bytes
  pub server_name : Bytes
  pub path : Bytes
  pub size : ℤ
  pub is_dir : Bool
  pub server_mtime : ℤ
  pub local_mtime : ℤ
  pub md5 : Bytes

-- apiListResponse; `has_more` holds where the number is not 0. The entries have the fields of a file's
-- metadata but for the link.
pub record ListResponse : Type 0 where
  pub entries : List FileMeta
  pub has_more : Bool
  pub next : ℤ
  pub error_code : ℤ
  pub error_msg : Bytes

-- apiFileManagerResponse
pub record FileManagerResponse : Type 0 where
  pub error_code : ℤ
  pub error_msg : Bytes
  pub error_msg2 : Bytes

-- strconv.FormatInt(n, 10)
unfoldable pub format_int : ℤ → Bytes
format_int (pos n) = format n
format_int (negsuc n) = b'-' ∷ format (suc n)

unfoldable pub meta_to_remote : FileMeta → RemoteEntry
unfolding format_int
meta_to_remote m = record {
  fsid = format_int m.fsid;
  server_name = m.server_name;
  path = m.path;
  size = m.size;
  is_dir = m.is_dir;
  server_mtime = m.server_mtime;
  local_mtime = m.local_mtime;
  md5 = m.md5;
}

-- the entry of no file
abbrev pub no_entry : RemoteEntry
no_entry = record {
  fsid = [];
  server_name = [];
  path = [];
  size = pos 0;
  is_dir = false;
  server_mtime = pos 0;
  local_mtime = pos 0;
  md5 = [];
}

-- 0 and 109 are no errors
abbrev pub is_listed : ℤ → Bool
is_listed (negsuc n) = false
is_listed (pos n) = n == 0 || n == 109

unfoldable pub check_listed : ListResponse → Outcome ListResponse
check_listed response =
    if is_listed response.error_code
    then ok response
    else err (report (text "baidu list failed: " ++ response.error_msg))

-- the mark of the next page, when there is one
unfoldable pub next_mark : ℕ → ListResponse → Option ℕ
next_mark mark response = elim response.next [
  | negsuc n ↦ none
  | pos next ↦ elim response.entries [
    | [] ↦ none
    | m ∷ ms ↦ if not response.has_more || leb next mark then none else some next
  ]
]

-- the entry of the first metadata
unfoldable pub first_entry : List FileMeta → RemoteEntry
unfolding meta_to_remote
first_entry [] = no_entry
first_entry (m ∷ ms) = meta_to_remote m

unfoldable pub check_stat : FileMetaResponse → Outcome RemoteEntry
unfolding first_entry metas_of
check_stat response =
    if is_zero response.error_code
    then ok (first_entry (metas_of response))
    else err (report (text "baidu stat failed: " ++ response.error_msg))

-- the message of an answer that is not 0
unfoldable pub delete_message : FileManagerResponse → Bytes
unfolding format_int
delete_message response =
    if not (is_blank response.error_msg)
    then response.error_msg
    else if not (is_blank response.error_msg2)
    then response.error_msg2
    else text "errno=" ++ format_int response.error_code

unfoldable pub check_deleted : FileManagerResponse → Option Failure
unfolding delete_message
check_deleted response =
    if is_zero response.error_code
    then none
    else some (report (text "baidu delete failed: " ++ delete_message response))

module _ {W : Type 0} (network : Network W) where
  -- one page
  unfoldable pub ask_page :
      (Bytes → Outcome ListResponse) → Bytes → ℕ → Account → W → W × Outcome ListResponse
  unfolding do_json check_listed
  ask_page decode directory mark a w =
      let start : Option ℕ = if ltb 0 mark then some mark else none in
      let answer = network.send w (list_files a.access_token directory start) in
      (
        answer.0,
        elim (do_json decode answer.1) [ err e ↦ err e | ok response ↦ check_listed response ],
      )

  -- the loop of `List`; none where the rounds do not suffice
  unfoldable pub list_pages :
      (Bytes → Outcome ListResponse)
      → Bytes
      → (rounds mark : ℕ) → List RemoteEntry
      → Account
      → W
      → Option (W × Outcome (List RemoteEntry))
  unfolding ask_page next_mark meta_to_remote
  list_pages decode directory zero mark out a w = none
  list_pages decode directory (suc more) mark out a w =
      let page = ask_page decode directory mark a w in
      elim page.1 [
        | err e ↦ some (page.0, err e)
        | ok response ↦
            let now = out ++ map meta_to_remote response.entries in
            elim (next_mark mark response) [
              | none ↦ some (page.0, ok now)
              | some next ↦ list_pages decode directory more next now a page.0
            ]
      ]

  unfoldable pub stat : Decoder → Bytes → Account → W → W × Outcome RemoteEntry
  unfolding do_json check_stat
  stat decoder path a w =
      let answer = network.send w (file_metas a.access_token (text "[" ++ path ++ text "]")) in
      (
        answer.0,
        elim (do_json decoder.metas answer.1) [ err e ↦ err e | ok response ↦ check_stat response ],
      )

  -- Delete
  unfoldable pub delete_paths :
      (Bytes → Outcome FileManagerResponse) → List Bytes → Account → W → W × Option Failure
  unfolding do_json check_deleted
  delete_paths decode [] a w = (w, none)
  delete_paths decode (path ∷ paths) a w =
      let answer = network.send w (delete_files a.access_token (path ∷ paths)) in
      (
        answer.0,
        elim (do_json decode answer.1) [ err e ↦ some e | ok response ↦ check_deleted response ],
      )
