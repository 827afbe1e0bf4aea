-- ===== src/Baidu/Account/Links.antt =====
-- internal/baidu/client.go: the download links against the files that they lead to.
use baidu_disk_link.Common.{
  ℕ, ◌≡◌, sym, ap, ◌∙◌, some, List, [], ◌++◌, inl, inr, arith, Bool-cases, Option-cases,
}
use baidu_disk_link.Common.Maps.{lookup, without, insert, lookup-without, lookup-insert}
use baidu_disk_link.Common.Text.{text}
use baidu_disk_link.ChunkStore.Types.{Bytes, Bytes-discrete}
use baidu_disk_link.Remote.Errors.{ok}
use baidu_disk_link.Remote.Reader.Exact.{Outcome-cases}
use baidu_disk_link.Baidu.Network.{file_metas, head_link, Network, do_json}
use baidu_disk_link.Baidu.Account.{
  DownloadLink, Account, FileMetaResponse, Decoder, is_expired, cached_download_link,
  cache_download_link, link_of_response, redirect, resolve_download_url, ask_download_link,
  get_download_link,
}

-- Every link that is kept leads to the file that it is kept for.
pub AreTrue : (Bytes → Bytes) → (Bytes → Bytes) → List (Bytes × DownloadLink) → Type 0
AreTrue file content links =
    (fsid : Bytes) (link : DownloadLink)
    → lookup Bytes-discrete fsid links ≡ some link
    → file link.url ≡ content fsid

module _ (file content : Bytes → Bytes) where
  pub AreTrue-nil : AreTrue file content []
  unfolding AreTrue lookup
  AreTrue-nil fsid link e = absurd (cc)

  without-AreTrue :
      (fsid : Bytes) (links : List (Bytes × DownloadLink))
      → AreTrue file content links
      → AreTrue file content (without Bytes-discrete fsid links)
  unfolding AreTrue
  without-AreTrue fsid links t other link e =
      ground (arith, e, lookup-without Bytes-discrete other fsid links, t other link)

  insert-AreTrue :
      (fsid : Bytes) (link : DownloadLink) (links : List (Bytes × DownloadLink))
      → file link.url ≡ content fsid
      → AreTrue file content links
      → AreTrue file content (insert Bytes-discrete fsid link links)
  unfolding AreTrue
  insert-AreTrue fsid link links h t other found e =
      let looked = lookup-insert Bytes-discrete other fsid link links in
      elim (Bytes-discrete other fsid) [
        | yes same ↦
            let held : some link ≡ some found = ground (arith, e, looked, same) in
            let found_link : link ≡ found = cc in
            ap (λ l. file l.url) (sym found_link) ∙ h ∙ ap content (sym same)
        | no apart ↦ t other found (ground (arith, e, looked, apart))
      ]

  cached_download_link-AreTrue :
      (now : ℕ) (fsid : Bytes) (a : Account)
      → AreTrue file content a.links
      → AreTrue file content (cached_download_link now fsid a).0.links
  unfolding cached_download_link
  cached_download_link-AreTrue now fsid a t =
      elim (Option-cases (lookup Bytes-discrete fsid a.links)) [
        | inl missing ↦ rw (missing, cached_download_link) t
        | inr (link, found) ↦ elim (Bool-cases (is_expired now link)) [
          | inl old ↦ rw (found, old, cached_download_link) (without-AreTrue fsid a.links t)
          | inr fresh ↦ rw (found, fresh, cached_download_link) t
        ]
      ]

  -- a link that is found leads to the file
  cached_download_link-true :
      (now : ℕ) (fsid : Bytes) (a : Account) (link : DownloadLink)
      → AreTrue file content a.links
      → (cached_download_link now fsid a).1 ≡ some link
      → file link.url ≡ content fsid
  unfolding cached_download_link AreTrue
  cached_download_link-true now fsid a link t e =
      elim (Option-cases (lookup Bytes-discrete fsid a.links)) [
        | inl missing ↦ absurd (ground (arith, missing, e))
        | inr (held, found) ↦ t fsid link (ground (arith, found, e))
      ]

  -- What the network is taken to do: a link that it names for a file leads there, as does a link that it redirects to.
  module _ {W : Type 0} (network : Network W) (decoder : Decoder)
      (names : (w : W) (token fsid : Bytes) (response : FileMetaResponse) (link : Bytes)
        → do_json decoder.metas (network.send w (file_metas token (text "[" ++ fsid ++ text "]"))).1
          ≡ ok response
        → link_of_response response ≡ ok link
        → file link ≡ content fsid)
      (leads : (w : W) (link token url : Bytes)
        → redirect link (network.send w (head_link link token)).1 ≡ ok url
        → file url ≡ file link) where
    ask_download_link-AreTrue :
        (fsid : Bytes) (a : Account) (w : W)
        → AreTrue file content a.links
        → AreTrue file content (ask_download_link network decoder fsid a w).0.0.links
    unfolding ask_download_link resolve_download_url cache_download_link
    ask_download_link-AreTrue fsid a w t =
        let answer = network.send w (file_metas a.access_token (text "[" ++ fsid ++ text "]")) in
        elim (Outcome-cases (do_json decoder.metas answer.1)) [
          | inr (failure, bad) ↦ rw (bad, ask_download_link) t
          | inl (response, good) ↦ elim (Outcome-cases (link_of_response response)) [
            | inr (failure, bad) ↦ rw (good, bad, ask_download_link) t
            | inl (link, named) ↦
                let final = resolve_download_url network decoder link a answer.0 in
                elim (Outcome-cases final.1) [
                  | inr (failure, bad) ↦ rw (good, named, bad, ask_download_link) t
                  | inl (url, led) ↦
                      rw (good, named, led, ask_download_link)
                        (insert-AreTrue fsid _ a.links
                          (leads answer.0 link a.access_token url led
                            ∙ names w a.access_token fsid response link good named)
                          t)
                ]
          ]
        ]

    ask_download_link-true :
        (fsid : Bytes) (a : Account) (w : W) (link : DownloadLink)
        → (ask_download_link network decoder fsid a w).1 ≡ ok link
        → file link.url ≡ content fsid
    unfolding ask_download_link resolve_download_url
    ask_download_link-true fsid a w link e =
        let answer = network.send w (file_metas a.access_token (text "[" ++ fsid ++ text "]")) in
        elim (Outcome-cases (do_json decoder.metas answer.1)) [
          | inr (failure, bad) ↦ absurd (ground (arith, e, bad))
          | inl (response, good) ↦ elim (Outcome-cases (link_of_response response)) [
            | inr (failure, bad) ↦ absurd (ground (arith, e, good, bad))
            | inl (named_link, named) ↦
                let final = resolve_download_url network decoder named_link a answer.0 in
                elim (Outcome-cases final.1) [
                  | inr (failure, bad) ↦ absurd (ground (arith, e, good, named, bad))
                  | inl (url, led) ↦
                      let same : link.url ≡ url = ground (arith, e, good, named, led) in
                      ap file same
                      ∙ leads answer.0 named_link a.access_token url led
                      ∙ names w a.access_token fsid response named_link good named
                ]
          ]
        ]

    -- Whatever `GetDownloadLink` answers, an error included, the links that are kept afterwards all lead to the files that
    -- they are kept for, when they did before and the network names and redirects to links of the file asked for.
    pub get_download_link-AreTrue :
        (fsid : Bytes) (a : Account) (w : W)
        → AreTrue file content a.links
        → AreTrue file content (get_download_link network decoder fsid a w).0.0.links
    unfolding get_download_link
    get_download_link-AreTrue fsid a w t =
        let cached = cached_download_link (network.now w) fsid a in
        let kept = cached_download_link-AreTrue (network.now w) fsid a t in
        elim (Option-cases cached.1) [
          | inr (link, found) ↦ rw (found, get_download_link) kept
          | inl missing ↦
              rw (missing, get_download_link) (ask_download_link-AreTrue fsid cached.0 w kept)
        ]

    pub get_download_link-true :
        (fsid : Bytes) (a : Account) (w : W) (link : DownloadLink)
        → AreTrue file content a.links
        → (get_download_link network decoder fsid a w).1 ≡ ok link
        → file link.url ≡ content fsid
    unfolding get_download_link
    get_download_link-true fsid a w link t e =
        let cached = cached_download_link (network.now w) fsid a in
        elim (Option-cases cached.1) [
          | inr (held, found) ↦
              let same : held ≡ link = ground (arith, e, found) in
              ap (λ l. file l.url) (sym same)
              ∙ cached_download_link-true (network.now w) fsid a held t found
          | inl missing ↦ ask_download_link-true fsid cached.0 w link (ground (arith, e, missing))
        ]
