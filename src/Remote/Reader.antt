-- ===== src/Remote/Reader.antt =====
-- internal/remote/remote.go: the reader's settings, its links, and the reads of one caller. The client and its state,
-- the reads that other callers have in flight, the clock and the order of a range over a map are arguments.
pub mod Exact
pub mod Delivery
use baidu_disk_link.Common.{
  ℕ, zero, suc, ◌+◌, ◌-◌, ◌*◌, ◌/◌, ◌^◌, ◌≤◌, ◌≡◌, Bool, true, false, not, ◌&&◌, ◌||◌, Option, none,
  some, List, [], ◌∷◌, length, ltb, leb, ◌==◌, if◌then◌else◌, max,
}
use baidu_disk_link.Common.Decimal.{ℤ, pos, negsuc}
use baidu_disk_link.Common.Maps.{lookup, without, insert}
use baidu_disk_link.Common.Slices.{slice}
use baidu_disk_link.ChunkStore.Types.{Bytes, Bytes-discrete}
use baidu_disk_link.Remote.Errors.{
  Failure, length_negative, fsid_required, short_read, Outcome, ok, err, DownloadErrorKind, auth,
  transport, range, eof, other, classify,
}
use baidu_disk_link.Remote.Windows.{WindowKey, Windows, clear_cached, store_cached, read_cached}

-- The expiry of a download link, when it has one.
pub record Link : Type 0 where
  pub expires : Option ℕ

pub record CachedLink : Type 0 where
  pub link : Link
  pub expires_at : ℕ

pub record Reader : Type 0 where
  pub connected : Bool
  pub links : List (Bytes × CachedLink)
  pub windows : Windows
  pub concurrency : ℕ
  pub chunk_size : ℕ

-- What the reader calls on its client, with the client's state passed on: `ReadRange`, `RefreshAuth`,
-- `GetDownloadLink`; and the error of the context, once it is there.
pub record Client (C : Type 0) : Type 0 where
  pub read_range : C → Bytes → ℕ → ℕ → C × Outcome Bytes
  pub refresh_auth : C → C
  pub get_download_link : C → Bytes → C × Outcome Link
  pub context_error : C → Option Failure

unfoldable pub new_reader : Bool → Reader
new_reader connected = record {
  connected = connected;
  links = [];
  windows = record { cached = []; order = []; bytes = 0; limit = 64 * 2 ^ 20 };
  concurrency = 1;
  chunk_size = 8 * 2 ^ 20;
}

-- a setting that is not positive gives way to the default
abbrev positive_or : ℕ → ℤ → ℕ
positive_or default (negsuc n) = default
positive_or default (pos zero) = default
positive_or default (pos (suc n)) = suc n

unfoldable pub set_download_options : ℤ → ℤ → Reader → Reader
unfolding clear_cached
set_download_options concurrency chunk_size r = record r {
  concurrency = positive_or 1 concurrency;
  chunk_size = positive_or (8 * 2 ^ 20) chunk_size;
  windows = clear_cached r.windows;
}

unfoldable pub set_client : Bool → Reader → Reader
unfolding clear_cached
set_client connected r = record r {
  connected = connected;
  links = [];
  windows = clear_cached r.windows;
}

unfoldable pub invalidate_download_link : Bytes → Reader → Reader
invalidate_download_link [] r = r
invalidate_download_link (c ∷ fsid) r = record r {
  links = without Bytes-discrete (c ∷ fsid) r.links;
}

unfoldable pub zeros : ℕ → Bytes
zeros zero = []
zeros (suc n) = 0 ∷ zeros n

unfoldable pub align_offset : ℕ → ℕ → ℕ
align_offset offset size = if size == 0 || offset == 0 then 0 else offset / size * size

unfoldable pub slice_for_window : Bytes → ℕ → ℕ → ℕ → Bytes
slice_for_window window window_offset offset count =
    let start = offset - window_offset in
    if leb (length window) start
    then []
    else if ltb (length window) (start + count)
    then slice start (length window - start) window
    else slice start count window

module _ {C : Type 0} (client : Client C) (visit : Windows → Bytes → List WindowKey) where
  -- a link that has not run out is used again
  unfoldable pub fresh_link : ℕ → Bytes → Reader → Option Link
  fresh_link now fsid r = elim (lookup Bytes-discrete fsid r.links) [
    | none ↦ none
    | some held ↦ if ltb now held.expires_at then some held.link else none
  ]

  abbrev expiry : ℕ → Link → ℕ
  expiry now link = elim link.expires [ none ↦ now + 600 * 10 ^ 9 | some time ↦ time ]

  unfoldable pub download_link : ℕ → Bytes → Reader → C → (Reader × C) × Outcome Link
  unfolding fresh_link
  download_link now fsid r c =
      let asked = client.get_download_link c fsid in
      elim (fresh_link now fsid r) [
        | some link ↦ ((r, c), ok link)
        | none ↦ elim asked.1 [
          | err e ↦ ((r, asked.0), err e)
          | ok link ↦
              let held : CachedLink = record { link = link; expires_at = expiry now link } in
              ((record r { links = insert Bytes-discrete fsid held r.links }, asked.0), ok link)
        ]
      ]

  -- a read that must be whole and is not counts as failed
  unfoldable pub check_length : Bool → ℕ → Outcome Bytes → Outcome Bytes
  check_length whole count (err e) = err e
  check_length whole count (ok bytes) =
      if whole && not (length bytes == count) then err short_read else ok bytes

  abbrev pub is_auth : DownloadErrorKind → Bool
  is_auth other = false
  is_auth transport = false
  is_auth auth = true
  is_auth range = false
  is_auth eof = false

  -- the loop over the attempts; `last` is the error so far
  unfoldable pub attempt : ℕ → Bool → Bytes → ℕ → ℕ → Failure → C → C × Outcome Bytes
  unfolding check_length classify
  attempt zero whole fsid offset count last c = (c, err last)
  attempt (suc more) whole fsid offset count last c =
      let got = client.read_range c fsid offset count in
      elim (check_length whole count got.1) [
        | ok bytes ↦ (got.0, ok bytes)
        | err e ↦ elim (client.context_error got.0) [
          | some stop ↦ (got.0, err stop)
          | none ↦
              attempt more whole fsid offset count e
                (if is_auth (classify e) then client.refresh_auth got.0 else got.0)
        ]
      ]

  -- the download of `ReadExactRange` or `readSequential`, whose result is put in the cache
  unfoldable pub fetch : Bool → Bytes → ℕ → ℕ → Reader → C → (Reader × C) × Outcome Bytes
  unfolding attempt store_cached
  fetch whole fsid offset count r c =
      let got = attempt 2 whole fsid offset count short_read c in
      elim got.1 [
        | err e ↦ ((r, got.0), err e)
        | ok bytes ↦ (
          (
            record r {
              windows = store_cached (record { fsid = fsid; offset = offset }) bytes r.windows;
            },
            got.0,
          ),
          ok bytes,
        )
      ]

  -- the cache is asked first
  unfoldable pub cached_or :
      (Reader → C → (Reader × C) × Outcome Bytes)
      → Bytes
      → ℕ
      → ℕ
      → Reader
      → C
      → (Reader × C) × Outcome Bytes
  unfolding read_cached
  cached_or otherwise fsid offset count r c =
      let seen = read_cached (visit r.windows fsid) fsid offset count r.windows in
      let after : Reader = record r { windows = seen.0 } in
      elim seen.1 [ some bytes ↦ ((after, c), ok bytes) | none ↦ otherwise after c ]

  -- the guards that the reads share, and the link that they ask for
  unfoldable pub guarded :
      (ℕ → Reader → C → (Reader × C) × Outcome Bytes)
      → ℕ
      → Bytes
      → ℤ
      → Reader
      → C
      → (Reader × C) × Outcome Bytes
  unfolding download_link zeros
  guarded read now fsid (negsuc n) r c = ((r, c), err length_negative)
  guarded read now [] (pos count) r c = ((r, c), err fsid_required)
  guarded read now (d ∷ fsid) (pos count) r c =
      let linked = download_link now (d ∷ fsid) r c in
      if not r.connected
      then ((r, c), ok (zeros count))
      else elim linked.1 [ err e ↦ (linked.0, err e) | ok link ↦ read count linked.0.0 linked.0.1 ]

  -- ReadExactRange
  unfoldable pub read_exact_range : ℕ → Bytes → ℕ → ℤ → Reader → C → (Reader × C) × Outcome Bytes
  unfolding guarded cached_or fetch
  read_exact_range now fsid offset count r c =
      guarded (λ n. cached_or (fetch true fsid offset n) fsid offset n) now fsid count r c

  -- waitInflight and beginInflight: a read of another caller with the same key is waited for, and cut to size. `others` gives
  -- the reads in flight with what the wait for them comes to.
  unfoldable pub joined_or :
      (C → WindowKey → Option (Outcome Bytes))
      → (Reader → C → (Reader × C) × Outcome Bytes)
      → Bytes
      → (window_offset offset count : ℕ) → Reader
      → C
      → (Reader × C) × Outcome Bytes
  unfolding slice_for_window
  joined_or others own fsid window_offset offset count r c =
      elim (others c (record { fsid = fsid; offset = window_offset })) [
        | none ↦ own r c
        | some (err e) ↦ ((r, c), err e)
        | some (ok bytes) ↦ ((r, c), ok (slice_for_window bytes window_offset offset count))
      ]

  -- readSequential: the download that no other caller has begun
  unfoldable pub fetch_window :
      Bytes → (size window_offset offset count : ℕ) → Reader → C → (Reader × C) × Outcome Bytes
  unfolding fetch slice_for_window
  fetch_window fsid size window_offset offset count r c =
      let got = fetch false fsid window_offset size r c in
      elim got.1 [
        | err e ↦ (got.0, err e)
        | ok bytes ↦ (got.0, ok (slice_for_window bytes window_offset offset count))
      ]

  -- readSequential, after its own look into the cache
  unfoldable pub fetch_aligned :
      (C → WindowKey → Option (Outcome Bytes))
      → Bytes
      → ℕ
      → ℕ
      → Reader
      → C
      → (Reader × C) × Outcome Bytes
  unfolding joined_or fetch_window align_offset
  fetch_aligned others fsid offset count r c =
      let size = max (max count (8 * 2 ^ 20)) r.chunk_size in
      let base = align_offset offset size in
      joined_or others (fetch_window fsid size base offset count) fsid base offset count r c

  unfoldable pub read_sequential :
      (C → WindowKey → Option (Outcome Bytes))
      → Bytes
      → ℕ
      → ℕ
      → Reader
      → C
      → (Reader × C) × Outcome Bytes
  unfolding cached_or fetch_aligned
  read_sequential others fsid offset count r c =
      cached_or (fetch_aligned others fsid offset count) fsid offset count r c

  -- ReadStreamRange, which neither asks the cache nor fills it, and tries once
  unfoldable pub read_stream_range : Bytes → ℕ → ℤ → Reader → C → C × Outcome Bytes
  unfolding check_length classify zeros
  read_stream_range fsid offset (negsuc n) r c = (c, err length_negative)
  read_stream_range [] offset (pos count) r c = (c, err fsid_required)
  read_stream_range (d ∷ fsid) offset (pos count) r c =
      let got = client.read_range c (d ∷ fsid) offset count in
      if not r.connected then (c, ok (zeros count)) else elim (check_length true count got.1) [
        | ok bytes ↦ (got.0, ok bytes)
        | err e ↦ (if is_auth (classify e) then client.refresh_auth got.0 else got.0, err e)
      ]
