-- ===== src/Remote/Reader/Delivery.antt =====
-- internal/remote/remote.go: reads from a client that answers.
use baidu_disk_link.Common.{
  ℕ, ◌≤◌, ◌≡◌, ◌≢◌, refl, ap, ◌∙◌, true, none, if◌then◌else◌, ◌+◌, inl, inr, List, [], ◌∷◌, length,
  arith, Option-cases,
}
use baidu_disk_link.Common.Decimal.{pos}
use baidu_disk_link.Common.Slices.{slice, length-slice}
use baidu_disk_link.ChunkStore.Types.{Bytes}
use baidu_disk_link.Remote.Errors.{
  Failure, Outcome, ok, err, DownloadErrorKind, other, transport, auth, range, eof, classify,
}
use baidu_disk_link.Remote.Windows.{WindowKey, Windows, read_cached}
use baidu_disk_link.Remote.Windows.Truth.{Truthful, read_cached-exact}
use baidu_disk_link.Remote.Reader.{
  Link, Reader, Client, fresh_link, download_link, check_length, attempt, fetch, cached_or, guarded,
  read_exact_range, is_auth,
}
use baidu_disk_link.Remote.Reader.Exact.{Outcome-cases}

-- the client for the second attempt: after an error of the authorisation, its tokens are refreshed
abbrev pub second_client : {C : Type 0} → Client C → DownloadErrorKind → C → C
second_client client other c = c
second_client client transport c = c
second_client client auth c = client.refresh_auth c
second_client client range c = c
second_client client eof c = c

module _ {C : Type 0} (client : Client C) (visit : Windows → Bytes → List WindowKey)
    (content : Bytes → Bytes) (link : Link) (fsid : Bytes) (offset count : ℕ)
    (linked : (c : C) → (client.get_download_link c fsid).1 ≡ ok link)
    (exact : (c : C) (bytes : Bytes)
      → (client.read_range c fsid offset count).1 ≡ ok bytes
      → bytes ≡ slice offset count (content fsid))
    (recovers : (c : C) (e : Failure)
      → (client.read_range c fsid offset count).1 ≡ err e
      → let after = (client.read_range c fsid offset count).0 in
        (client.context_error after ≡ none)
        × ((bytes : Bytes) × ((client.read_range
                (second_client client (classify e) after)
                fsid
                offset
                count).1
              ≡ ok bytes))) where
  second-is_auth :
      (k : DownloadErrorKind) (c : C)
      → (if is_auth client visit k then client.refresh_auth c else c) ≡ second_client client k c
  second-is_auth other c = refl
  second-is_auth transport c = refl
  second-is_auth auth c = refl
  second-is_auth range c = refl
  second-is_auth eof c = refl

  fetch-delivers :
      (r : Reader) (c : C)
      → length (slice offset count (content fsid)) ≡ count
      → (fetch client visit true fsid offset count r c).1 ≡ ok (slice offset count (content fsid))
  unfolding fetch attempt check_length
  fetch-delivers r c full =
      let got = client.read_range c fsid offset count in
      elim (Outcome-cases got.1) [
        | inl (bytes, good) ↦ ground (arith, full, good, exact c bytes good)
        | inr (e, bad) ↦
            let again = recovers c e bad in
            let next = second_client client (classify e) got.0 in
            let (bytes, found) = again.1 in
            let same = second-is_auth (classify e) got.0 in
            ground (arith, full, bad, again.0, found, exact next bytes found, same)
      ]

  cached_or-delivers :
      (r : Reader) (c : C)
      → length (slice offset count (content fsid)) ≡ count
      → Truthful content r.windows.cached
      → (cached_or client visit (fetch client visit true fsid offset count) fsid offset count r c).1
        ≡ ok (slice offset count (content fsid))
  unfolding cached_or
  cached_or-delivers r c full t =
      let after : Reader = record r {
        windows = (read_cached (visit r.windows fsid) fsid offset count r.windows).0;
      } in
      elim (Option-cases (read_cached (visit r.windows fsid) fsid offset count r.windows).1) [
        | inl missing ↦ ground (arith, missing, fetch-delivers after c full)
        | inr (got, found) ↦
            let exact =
              read_cached-exact content (visit r.windows fsid) fsid offset count r.windows got t
                found in
            ground (arith, found, exact)
      ]

  download_link-kept :
      (now : ℕ) (r : Reader) (c : C)
      → (download_link client visit now fsid r c).0.0.windows ≡ r.windows
  unfolding download_link
  download_link-kept now r c = elim (Option-cases (fresh_link client visit now fsid r)) [
    | inr (held, fresh) ↦ rw (fresh, download_link)
    | inl stale ↦ rw (stale, linked c, download_link)
  ]

  download_link-ok :
      (now : ℕ) (r : Reader) (c : C)
      → (some_link : Link) × ((download_link client visit now fsid r c).1 ≡ ok some_link)
  unfolding download_link
  download_link-ok now r c = elim (Option-cases (fresh_link client visit now fsid r)) [
    | inr (held, fresh) ↦ (held, ground (arith, fresh))
    | inl stale ↦ (link, ground (arith, stale, linked c))
  ]

  guarded-named :
      (read : ℕ → Reader → C → (Reader × C) × Outcome Bytes) (now n : ℕ) (name : Bytes) (r : Reader)
      (c : C) (some_link : Link)
      → name ≢ []
      → r.connected ≡ true
      → (download_link client visit now name r c).1 ≡ ok some_link
      → guarded client visit read now name (pos n) r c
        ≡ read n
            (download_link client visit now name r c).0.0
            (download_link client visit now name r c).0.1
  unfolding guarded
  guarded-named read now n [] r c some_link named here got = absurd (named refl)
  guarded-named read now n (d ∷ name) r c some_link named here got = ground (arith, here, got)

  -- `ReadExactRange` answers, and with exactly the range asked for, even where the first attempt fails: when the file has a name, the
  -- client is there and gives a link for it, every cached window holds bytes of its file, the range does not reach past the
  -- end of the file, an answer of the client for the range holds it, and after an error the context is still open and the
  -- client answers the next time, its tokens refreshed first if the error was one of the authorisation.
  pub read_exact_range-delivers :
      (now : ℕ) (r : Reader) (c : C)
      → fsid ≢ []
      → r.connected ≡ true
      → Truthful content r.windows.cached
      → offset + count ≤ length (content fsid)
      → (read_exact_range client visit now fsid offset (pos count) r c).1
        ≡ ok (slice offset count (content fsid))
  unfolding read_exact_range
  read_exact_range-delivers now r c named here t inside =
      let found = download_link client visit now fsid r c in
      let (some_link, got) = download_link-ok now r c in
      let full : length (slice offset count (content fsid)) ≡ count =
        length-slice offset count (content fsid) ∙ omega (arith, inside) in
      ap (λ x. x.1)
        (guarded-named
          (λ n. cached_or client visit (fetch client visit true fsid offset n) fsid offset n) now
          count fsid r c some_link named here got)
      ∙ cached_or-delivers found.0.0 found.0.1 full (rw (download_link-kept now r c) t)
