-- ===== src/Baidu/Client/Exact.antt =====
-- internal/baidu/client.go under internal/remote/remote.go: the reads of the reader over the client.
use baidu_disk_link.Common.{
  ℕ, zero, suc, ◌+◌, ◌≡◌, sym, ap, ◌∙◌, true, Option, some, List, ◌++◌, inl, inr, length, ◌≤◌, ◌-◌,
  subst, arith, Option-cases, Bool-cases, min,
}
use baidu_disk_link.Common.Decimal.{pos}
use baidu_disk_link.Common.Slices.{slice, slice_end, length-slice}
use baidu_disk_link.Common.Text.{text, is_blank}
use baidu_disk_link.ChunkStore.Types.{Bytes}
use baidu_disk_link.Remote.Errors.{ok}
use baidu_disk_link.Remote.Windows.{WindowKey, Windows}
use baidu_disk_link.Remote.Windows.Truth.{Truthful}
use baidu_disk_link.Remote.Reader.{Reader, Client, read_exact_range}
use baidu_disk_link.Remote.Reader.Exact.{Outcome-cases, read_exact_range-exact}
use baidu_disk_link.Baidu.Network.{
  Cause, opened, Network, do_json, file_metas, head_link, refresh_token,
}
use baidu_disk_link.Baidu.Account.{
  Account, Decoder, FileMetaResponse, get_download_link, link_of_response, redirect, refresh_auth,
  tokens_of_reply, pick_tokens,
}
use baidu_disk_link.Baidu.Account.Links.{AreTrue, AreTrue-nil, get_download_link-AreTrue}
use baidu_disk_link.Baidu.ContentRange.{ContentRange, parse_content_range}
use baidu_disk_link.Baidu.Download.{Received, read_answer, read_range}
use baidu_disk_link.Baidu.Download.Exact.{read_range-exact}
use baidu_disk_link.Baidu.Client.{outcome, read_block, api_client}

module _ {W : Type 0} (network : Network W) (body : W → Bytes)
    (reads : (w : W) (k : ℕ) → (network.read w k).1.0 ++ body (network.read w k).0 ≡ body w)
    (bounded : (w : W) (k : ℕ) → length (network.read w k).1.0 ≤ k) (decoder : Decoder)
    (on_update : Bytes → Bytes → W → W × Option Cause) (file content : Bytes → Bytes)
    (names : (w : W) (token fsid : Bytes) (response : FileMetaResponse) (link : Bytes)
      → do_json decoder.metas (network.send w (file_metas token (text "[" ++ fsid ++ text "]"))).1
        ≡ ok response
      → link_of_response response ≡ ok link
      → file link ≡ content fsid)
    (leads : (w : W) (link token url : Bytes)
      → redirect link (network.send w (head_link link token)).1 ≡ ok url
      → file url ≡ file link)
    (serves : (w : W) (url : Bytes) (first last : ℕ) (header : Bytes) (r : ContentRange)
      → (network.get_range w url first last).1 ≡ opened 206 header
      → parse_content_range header ≡ some r
      → (body (network.get_range w url first last).0
          ≡ slice r.start (length (body (network.get_range w url first last).0)) (file url))
        × ((total : ℕ) → r.total ≡ some total → total ≡ length (file url))) where
  abbrev Truth : Account → Type 0
  Truth a = AreTrue file content a.links

  read_range-AreTrue :
      (fsid : Bytes) (offset count : ℕ) (a : Account) (w : W) (answer : (Account × W) × Received)
      → Truth a
      → read_range network decoder fsid (pos offset) count a w ≡ some answer
      → Truth answer.0.0
  unfolding read_range
  read_range-AreTrue fsid offset zero a w answer t e =
      let same : a ≡ answer.0.0 = ground (arith, e) in subst (λ x. Truth x) same t
  read_range-AreTrue fsid offset (suc count) a w answer t e =
      let linked = get_download_link network decoder fsid a w in
      let kept = get_download_link-AreTrue file content network decoder names leads fsid a w t in
      let same : linked.0.0 ≡ answer.0.0 = elim (Outcome-cases linked.1) [
        | inr (failure, bad) ↦ ground (arith, e, bad)
        | inl (link, got) ↦
            let reply = network.get_range linked.0.1 link.url offset (offset + count) in
            elim (Option-cases (read_answer network offset (offset + count) reply.0 reply.1)) [
              | inl stuck ↦ absurd (ground (arith, e, got, stuck))
              | inr (found, done) ↦ ground (arith, e, got, done)
            ]
      ] in
      subst (λ x. Truth x) same kept

  pub read_block-AreTrue :
      (c : Account × W) (fsid : Bytes) (offset count : ℕ)
      → Truth c.0
      → Truth (read_block network decoder on_update c fsid offset count).0.0
  unfolding read_block
  read_block-AreTrue (a, w) fsid offset count t =
      elim (Option-cases (read_range network decoder fsid (pos offset) count a w)) [
        | inl stuck ↦ rw (stuck, read_block) t
        | inr (answer, e) ↦ rw (e, read_block) (read_range-AreTrue fsid offset count a w answer t e)
      ]

  read_block-honest :
      (c : Account × W) (fsid : Bytes) (offset count : ℕ) (bytes : Bytes)
      → Truth c.0
      → (read_block network decoder on_update c fsid offset count).1 ≡ ok bytes
      → bytes ≡ slice offset (length bytes) (content fsid)
  unfolding read_block outcome
  read_block-honest (a, w) fsid offset count bytes t e =
      elim (Option-cases (read_range network decoder fsid (pos offset) count a w)) [
        | inl stuck ↦ absurd (ground (arith, stuck, e))
        | inr (answer, found) ↦ elim (Option-cases answer.1.failure) [
          | inr (failure, bad) ↦ absurd (ground (arith, found, bad, e))
          | inl fine ↦
              let same : answer.1.bytes ≡ bytes = ground (arith, found, fine, e) in
              let exact =
                read_range-exact network body reads bounded decoder file content names leads serves
                  fsid offset count a w answer t found fine in
              let whole : bytes ≡ slice offset count (content fsid) = sym same ∙ exact in
              let size : length bytes ≡ min count (length (content fsid) - offset) =
                ap length whole ∙ length-slice offset count (content fsid) in
              whole
              ∙ slice_end offset count (content fsid)
              ∙ ap (λ k. slice offset k (content fsid)) (sym size)
        ]
      ]

  pub refresh_auth-AreTrue :
      (a : Account) (w : W) → Truth a → Truth (refresh_auth network decoder on_update a w).0.0
  unfolding refresh_auth pick_tokens
  refresh_auth-AreTrue a w t =
      let answer = network.send w (refresh_token a.refresh_token a.client_id a.client_secret) in
      elim (Bool-cases (is_blank a.refresh_token)) [
        | inl blank ↦ rw (blank, refresh_auth) t
        | inr there ↦ elim (Outcome-cases (tokens_of_reply decoder.tokens answer.1)) [
          | inr (failure, bad) ↦ rw (there, bad, refresh_auth) t
          | inl (got, good) ↦ elim (Bool-cases (is_blank got.access_token)) [
            | inl missing ↦ rw (there, good, missing, refresh_auth) t
            | inr present ↦ rw (there, good, present, refresh_auth) (AreTrue-nil file content)
          ]
        ]
      ]

  -- the client, whose states are those in which every link that is kept leads to its file
  unfoldable pub true_client : Client ((c : Account × W) × Truth c.0)
  unfolding api_client get_download_link
  true_client =
      let api = api_client network decoder on_update in
      record {
        read_range = λ c fsid offset count. (
          ((api.read_range c.0 fsid offset count).0, read_block-AreTrue c.0 fsid offset count c.1),
          (api.read_range c.0 fsid offset count).1,
        );
        refresh_auth = λ c. (api.refresh_auth c.0, refresh_auth-AreTrue c.0.0 c.0.1 c.1);
        get_download_link = λ c fsid. (
          (
            (api.get_download_link c.0 fsid).0,
            get_download_link-AreTrue file content network decoder names leads fsid c.0.0 c.0.1 c.1,
          ),
          (api.get_download_link c.0 fsid).1,
        );
        context_error = λ c. api.context_error c.0;
      }

  -- The reader over the client of the cloud drive gives the bytes of the file: when the network names, redirects to and serves the
  -- files that are asked for, a `ReadExactRange` from a cache of such bytes that ends without an error gives exactly the block
  -- that was asked for, whatever pieces, failed attempts, refreshed tokens and expired links there were on the way.
  pub read_exact_range-over_network :
      (visit : Windows → Bytes → List WindowKey) (now : ℕ) (fsid : Bytes) (offset count : ℕ)
      (r : Reader) (c : (c : Account × W) × Truth c.0) (bytes : Bytes)
      → r.connected ≡ true
      → Truthful content r.windows.cached
      → (read_exact_range true_client visit now fsid offset (pos count) r c).1 ≡ ok bytes
      → bytes ≡ slice offset count (content fsid)
  unfolding true_client api_client
  read_exact_range-over_network visit now fsid offset count r c bytes =
      read_exact_range-exact true_client visit content
        (λ c fsid offset count bytes. read_block-honest c.0 fsid offset count bytes c.1) now fsid
        offset count r c bytes
