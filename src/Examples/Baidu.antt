-- ===== src/Examples/Baidu.antt =====
-- internal/baidu/client.go: small inputs.
use baidu_disk_link.Common.{
  ℕ, zero, suc, ◌+◌, ◌≤◌, ◌≡◌, ◌≢◌, ◌⊎◌, refl, sym, ap, subst, ◌∙◌, true, false, Option, none, some,
  List, [], ◌∷◌, ◌++◌, length, take, drop, drop_all, length-take, map, arith, ℕ_discrete,
  if◌then◌else◌,
}
use baidu_disk_link.Common.Decimal.{pos, parse_int64, scan, scan_text}
use baidu_disk_link.Common.Maps.{lookup, without}
use baidu_disk_link.Common.Slices.{slice}
use baidu_disk_link.Common.Text.{text, strip_prefix, split_first, parse_nat}
use baidu_disk_link.ChunkStore.Types.{Bytes, Bytes-discrete}
use baidu_disk_link.Remote.Errors.{ok, Outcome, auth, range, classify, lower, reported}
use baidu_disk_link.Remote.Windows.{WindowKey, WindowKey-discrete, Windows, read_cached, covers}
use baidu_disk_link.Remote.Reader.{
  Reader, read_exact_range, guarded, cached_or, fetch, attempt, check_length, download_link,
  fresh_link,
}
use baidu_disk_link.Baidu.Network.{
  Network, Request, list_files, delete_files, refresh_token, answered, going, opened, Cause,
  do_json, trim_space, file_metas, head_link,
}
use baidu_disk_link.Baidu.Account.{
  Account, DownloadLink, FileMeta, FileMetaResponse, Decoder, link_of_response, redirect,
  get_download_link, cached_download_link, ask_download_link, first_link, metas_of,
  resolve_download_url, cache_download_link,
}
use baidu_disk_link.Baidu.Account.Links.{AreTrue, AreTrue-nil, get_download_link-AreTrue}
use baidu_disk_link.Baidu.ContentRange.{ContentRange, parse_content_range, parse_known, parse_total}
use baidu_disk_link.Baidu.ContentRange.RoundTrip.{format_content_range, parse_content_range-format}
use baidu_disk_link.Baidu.Download.{
  Received, received, read_range, read_answer, read_body, check_range, fill, read_failure,
  check_extra, extra_failure, status_failure,
}
use baidu_disk_link.Baidu.Download.Ends.{read_range-total}
use baidu_disk_link.Baidu.Download.Exact.{read_range-exact}
use baidu_disk_link.Baidu.Download.Errors.{names_authorisation, classify-status_failure}
use baidu_disk_link.Baidu.Listing.{
  ListResponse, list_pages, ask_page, next_mark, check_listed, meta_to_remote,
}
use baidu_disk_link.Baidu.Listing.Pages.{IsPage, list_pages-ends, list_pages-whole}
use baidu_disk_link.Baidu.Client.{api_client, read_block, outcome, link_outcome}
use baidu_disk_link.Baidu.Client.Exact.{true_client, read_exact_range-over_network}

abbrev bounds : ContentRange
bounds = record { start = 0; end = 3; total = some 4 }

parse_content_range-format_example : parse_content_range (format_content_range bounds) ≡ some bounds
parse_content_range-format_example =
    parse_content_range-format bounds
      (record { ordered = omega arith; fits = omega arith; within = (omega arith, omega arith) })

classify-status_failure_example :
    (classify (status_failure 401 (text "no")) ≡ auth)
    × (classify (status_failure 403 (text "no")) ≡ auth)
    × (classify (status_failure 416 (text "no"))
        ≡ (if names_authorisation (lower (trim_space (text "no"))) then auth else range))
    × (classify (status_failure 404 (text "no"))
        ≡ classify (reported false false (trim_space (text "no"))))
    × (classify (status_failure 500 (text "no"))
        ≡ classify (reported false false (trim_space (text "no"))))
    × (classify (status_failure 503 (text "no"))
        ≡ classify (reported false false (trim_space (text "no"))))
classify-status_failure_example = classify-status_failure (text "no")

abbrev stored : Bytes
stored = 5 ∷ 6 ∷ 7 ∷ 8 ∷ []

-- one file, whose bytes are what is left of the body that is open
abbrev network : Network Bytes
network = record {
  send = λ w request. (w, answered 200 [] []);
  get_range = λ w url first last. (stored, opened 206 (text "bytes 0-3/4"));
  read = λ w k. (drop k w, (take k w, going));
  read_all = λ w. w;
  stopped = λ w. none;
  now = λ w. 0;
}

abbrev file_meta : FileMeta
file_meta = record {
  fsid = pos 7;
  server_name = text "a";
  path = text "/a";
  size = pos 4;
  is_dir = false;
  server_mtime = pos 0;
  local_mtime = pos 0;
  md5 = [];
  dlink = text "u";
}

abbrev decoder : Decoder
decoder = record {
  metas = λ body.
      ok (record { entries = file_meta ∷ []; list = []; error_code = pos 0; error_msg = [] });
  tokens = λ body. ok (record { access_token = text "t"; refresh_token = [] });
}

abbrev account : Account
account = record {
  access_token = text "t";
  refresh_token = text "r";
  client_id = [];
  client_secret = [];
  links = [];
}

abbrev content : Bytes → Bytes
content name = stored

take-append-drop : (k : ℕ) (s : Bytes) → take k s ++ drop k s ≡ s
take-append-drop zero s = refl
take-append-drop (suc k) [] = refl
take-append-drop (suc k) (b ∷ s) = ap (◌∷◌ b) (take-append-drop k s)

taken : (w : Bytes) (k : ℕ) → length (take k w) ≤ k
taken w k = omega (arith, length-take k w)

names :
    (w : Bytes) (token fsid : Bytes) (response : FileMetaResponse) (link : Bytes)
    → do_json decoder.metas (network.send w (file_metas token (text "[" ++ fsid ++ text "]"))).1
      ≡ ok response
    → link_of_response response ≡ ok link
    → content link ≡ content fsid
names w token fsid response link e f = refl

leads :
    (w : Bytes) (link token url : Bytes)
    → redirect link (network.send w (head_link link token)).1 ≡ ok url
    → content url ≡ content link
leads w link token url e = refl

header_read : parse_content_range (text "bytes 0-3/4") ≡ some bounds
unfolding parse_content_range strip_prefix split_first parse_nat parse_known parse_total parse_int64
    scan scan_text Bytes-discrete ℕ_discrete
header_read = refl

serves :
    (w : Bytes) (url : Bytes) (first last : ℕ) (header : Bytes) (r : ContentRange)
    → (network.get_range w url first last).1 ≡ opened 206 header
    → parse_content_range header ≡ some r
    → ((network.get_range w url first last).0
        ≡ slice r.start (length (network.get_range w url first last).0) (content url))
      × ((total : ℕ) → r.total ≡ some total → total ≡ length (content url))
serves w url first last header r e p =
    let same : text "bytes 0-3/4" ≡ header = cc in
    let found : some bounds ≡ some r = sym header_read ∙ ap parse_content_range same ∙ p in
    let is_bounds : bounds ≡ r = cc in
    subst
      (λ x. (stored ≡ slice x.start 4 stored) × ((total : ℕ) → x.total ≡ some total → total ≡ 4))
      is_bounds (refl, λ total q. let four : 4 ≡ total = cc in sym four)

abbrev link : DownloadLink
link = record { url = text "u"; expires_at = some 600000000000 }

abbrev answer : (Account × Bytes) × Received
answer = ((record account { links = (text "7", link) ∷ [] }, []), received stored)

downloaded : read_range network decoder (text "7") (pos 0) 4 account [] ≡ some answer
unfolding read_range get_download_link cached_download_link ask_download_link do_json
    link_of_response first_link metas_of resolve_download_url redirect cache_download_link
    read_answer read_body check_range fill read_failure check_extra extra_failure
    parse_content_range strip_prefix split_first parse_nat parse_known parse_total parse_int64 scan
    scan_text lookup without Bytes-discrete ℕ_discrete
downloaded = refl

read_range-exact_example : stored ≡ slice 0 4 stored
read_range-exact_example =
    read_range-exact network (λ w. w) (λ w k. take-append-drop k w) taken decoder content content
      names leads serves (text "7") 0 4 account [] answer (AreTrue-nil content content) downloaded
      refl

read_range-total_example :
    (answer : (Account × Bytes) × Received) × (read_range network decoder
        (text "7")
        (pos 0)
        4
        account
        []
      ≡ some answer)
read_range-total_example = read_range-total network decoder (text "7") (pos 0) 4 account []

get_download_link-AreTrue_example :
    AreTrue content content (get_download_link network decoder (text "7") account []).0.0.links
get_download_link-AreTrue_example =
    get_download_link-AreTrue content content network decoder names leads (text "7") account []
      (AreTrue-nil content content)

abbrev visit : Windows → Bytes → List WindowKey
visit s name = s.order

abbrev reader : Reader
reader = record {
  connected = true;
  links = [];
  windows = record { cached = []; order = []; bytes = 0; limit = 4 };
  concurrency = 1;
  chunk_size = 4;
}

abbrev on_update : Bytes → Bytes → Bytes → Bytes × Option Cause
on_update access refresh w = (w, none)

read_over :
    (read_exact_range
      (true_client network
        (λ w. w)
        (λ w k. take-append-drop k w)
        taken
        decoder
        on_update
        content
        content
        names
        leads
        serves)
      visit
      0
      (text "7")
      0
      (pos 4)
      reader
      ((account, []), AreTrue-nil content content)).1
    ≡ ok stored
unfolding true_client api_client read_block outcome link_outcome read_exact_range guarded cached_or
    fetch attempt check_length download_link fresh_link read_cached covers WindowKey-discrete
    read_range get_download_link cached_download_link ask_download_link do_json link_of_response
    first_link metas_of resolve_download_url redirect cache_download_link read_answer read_body
    check_range fill read_failure check_extra extra_failure parse_content_range strip_prefix
    split_first parse_nat parse_known parse_total parse_int64 scan scan_text lookup without
    Bytes-discrete ℕ_discrete
read_over = refl

read_exact_range-over_network_example : stored ≡ slice 0 4 stored
read_exact_range-over_network_example =
    read_exact_range-over_network network (λ w. w) (λ w k. take-append-drop k w) taken decoder
      on_update content content names leads serves visit 0 (text "7") 0 4 reader
      ((account, []), AreTrue-nil content content) stored refl tt read_over

abbrev start_of : Request → ℕ
start_of (list_files token name none) = 0
start_of (list_files token name (some start)) = start
start_of (file_metas token fsids) = 0
start_of (delete_files token paths) = 0
start_of (refresh_token token id secret) = 0
start_of (head_link found token) = 0

-- a directory of two files, whose pages say where they start
abbrev directory : Network ℕ
directory = record {
  send = λ w request. (w, answered 200 [] (start_of request ∷ []));
  get_range = λ w url first last. (w, opened 200 []);
  read = λ w k. (w, ([], going));
  read_all = λ w. [];
  stopped = λ w. none;
  now = λ w. 0;
}

abbrev second_meta : FileMeta
second_meta = record file_meta { fsid = pos 8; path = text "/b"; server_name = text "b" }

abbrev both : List FileMeta
both = file_meta ∷ second_meta ∷ []

-- one file a page
abbrev page : ℕ → ListResponse
page zero = record {
  entries = file_meta ∷ [];
  has_more = true;
  next = pos 1;
  error_code = pos 0;
  error_msg = [];
}
page (suc zero) = record {
  entries = second_meta ∷ [];
  has_more = false;
  next = pos 2;
  error_code = pos 0;
  error_msg = [];
}
page (suc (suc n)) = record {
  entries = [];
  has_more = false;
  next = pos (suc (suc n));
  error_code = pos 0;
  error_msg = [];
}

abbrev decode : Bytes → Outcome ListResponse
decode [] = ok (page 0)
decode (n ∷ body) = ok (page n)

page-IsPage : (mark : ℕ) → IsPage both mark (page mark)
page-IsPage zero = record {
  entries = refl;
  next = refl;
  more = λ m e. absurd (cc);
  last = λ m. absurd (cc);
}
page-IsPage (suc zero) = record {
  entries = refl;
  next = refl;
  more = λ m. absurd (cc);
  last = λ m. refl;
}
page-IsPage (suc (suc n)) =
    let place : suc (suc n) + 0 ≡ suc (suc n) = omega arith in
    record {
      entries = refl;
      next = ap pos (sym place);
      more = λ m. absurd (cc);
      last = λ m. drop_all (suc (suc n) + 0) both (omega arith);
    }

first-IsPage :
    (w : ℕ) (token : Bytes) (response : ListResponse)
    → do_json decode (directory.send w (list_files token (text "/") none)).1 ≡ ok response
    → (response.error_code ≡ pos 0) ⊎ (response.error_code ≡ pos 109)
    → IsPage both 0 response
unfolding do_json
first-IsPage w token response e code =
    let same : page 0 ≡ response = cc (e) in subst (IsPage both 0) same (page-IsPage 0)

later-IsPage :
    (w : ℕ) (token : Bytes) (mark : ℕ) (response : ListResponse)
    → do_json decode (directory.send w (list_files token (text "/") (some mark))).1 ≡ ok response
    → (response.error_code ≡ pos 0) ⊎ (response.error_code ≡ pos 109)
    → IsPage both mark response
unfolding do_json
later-IsPage w token mark response e code =
    let same : page mark ≡ response = cc (e) in subst (IsPage both mark) same (page-IsPage mark)

listed :
    list_pages directory decode (text "/") 2 0 [] account 0 ≡ some (0, ok (map meta_to_remote both))
unfolding list_pages ask_page do_json check_listed next_mark
listed = refl

list_pages-whole_example :
    (meta_to_remote file_meta ∷ meta_to_remote second_meta ∷ []) ≡ map meta_to_remote both
list_pages-whole_example =
    list_pages-whole directory decode (text "/") both first-IsPage later-IsPage 2
      (map meta_to_remote both) account 0 0 listed

asked_page :
    (w mark : ℕ) (response : ListResponse)
    → (ask_page directory decode (text "/") mark account w).1 ≡ ok response
    → page mark ≡ response
unfolding ask_page do_json check_listed
asked_page w zero response e = cc (e)
asked_page w (suc zero) response e = cc (e)
asked_page w (suc (suc n)) response e = ground (arith, e)

last_mark : (mark next : ℕ) → next_mark mark (page mark) ≡ some next → next ≤ 1
unfolding next_mark
last_mark zero next e = let one : 1 ≡ next = cc (e) in omega (arith, one)
last_mark (suc zero) next e = absurd (cc)
last_mark (suc (suc n)) next e = absurd (cc)

no_more :
    (w mark : ℕ) (response : ListResponse) (next : ℕ)
    → (ask_page directory decode (text "/") mark account w).1 ≡ ok response
    → next_mark mark response ≡ some next
    → next ≤ 1
no_more w mark response next e f =
    last_mark mark next (ap (next_mark mark) (asked_page w mark response e) ∙ f)

list_pages-ends_example : list_pages directory decode (text "/") 2 0 [] account 0 ≢ none
list_pages-ends_example =
    list_pages-ends directory decode (text "/") 1 2 0 [] account 0 no_more (omega arith)
      (omega arith)
