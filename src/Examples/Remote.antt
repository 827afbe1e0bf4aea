-- ===== src/Examples/Remote.antt =====
-- internal/remote/remote.go, internal/cache/negative.go and internal/fs/filesystem.go: small inputs.
use baidu_disk_link.Common.{
  ℕ, zero, suc, ◌+◌, ◌<◌, ◌≤◌, ◌≡◌, ◌≢◌, ◌↔◌, refl, sym, ap, subst, ◌∙◌, ite, true, false, Option,
  none, some, List, [], ◌∷◌, length, arith, ℕ_discrete,
}
use baidu_disk_link.Common.Decimal.{pos, format}
use baidu_disk_link.Common.Maps.{lookup, has, without}
use baidu_disk_link.Common.Slices.{slice, slice_end, length-slice}
use baidu_disk_link.ChunkStore.Types.{Bytes, Bytes-discrete}
use baidu_disk_link.Remote.Errors.{
  Failure, reported, Outcome, ok, err, auth, classify, classify_message, contains, starts_with,
  lower,
}
use baidu_disk_link.Common.Text.{text}
use baidu_disk_link.Remote.Windows.{
  WindowKey, WindowKey-discrete, Windows, clear_cached, read_cached, store_cached, covers,
}
use baidu_disk_link.Remote.Windows.Valid
use baidu_disk_link.Remote.Windows.Valid.{WindowCall, windows_run, IsSettled, windows_run-IsSettled}
use baidu_disk_link.Remote.Windows.Truth.{Truthful}
use baidu_disk_link.Remote.Reader.{
  Reader, Client, read_exact_range, read_stream_range, guarded, cached_or, fetch, attempt,
  joined_or, check_length, download_link, fresh_link, zeros,
}
use baidu_disk_link.Remote.Reader.Exact.{read_exact_range-exact, read_exact_range-Truthful}
use baidu_disk_link.Remote.Reader.Delivery.{second_client, read_exact_range-delivers}
use baidu_disk_link.Remote.Concurrent.{
  read_range, complete, read_with_options, read_concurrent, run_jobs, read_chunk, write_at,
}
use baidu_disk_link.Remote.Concurrent.Exact.{comes}
use baidu_disk_link.Remote.Concurrent.Joined.{HoldsChunk}
use baidu_disk_link.Remote.Concurrent.Whole.{read_range-whole}
use baidu_disk_link.NegativeCache.{NegativeCache, mark_missing, is_missing, is_missing-mark_missing}
use baidu_disk_link.Settings.{
  parse_int, parse_positive_int64, parse_non_negative_int64, parse_settings-format,
}
use baidu_disk_link.Filesystem.{
  Filesystem, Entry, delete_child, delete_path, find_child, delete_target, is_protected,
}
use baidu_disk_link.Filesystem.Deletion.{MayDelete, delete_child-MayDelete}

abbrev fsid : Bytes
fsid = b'7' ∷ []

abbrev key : WindowKey
key = record { fsid = fsid; offset = 1 }

abbrev content : Bytes → Bytes
content name = 5 ∷ 6 ∷ 7 ∷ 8 ∷ []

-- a cache that holds the second and the third byte
abbrev windows : Windows
windows = record { cached = (key, 6 ∷ 7 ∷ []) ∷ []; order = key ∷ []; bytes = 2; limit = 4 }

windows_run-IsSettled_example : IsSettled (
    windows_run
      (Valid.store key (6 ∷ 7 ∷ []) ∷ Valid.store key (5 ∷ []) ∷ [])
      (clear_cached windows))
windows_run-IsSettled_example =
    windows_run-IsSettled (Valid.store key (6 ∷ 7 ∷ []) ∷ Valid.store key (5 ∷ []) ∷ []) windows

hit : (read_cached (key ∷ []) fsid 2 1 windows).1 ≡ some (7 ∷ [])
unfolding read_cached covers lookup WindowKey-discrete Bytes-discrete ℕ_discrete
hit = refl

-- a client that reads the content, and whose state counts its calls
abbrev client : Client ℕ
client = record {
  read_range = λ c name offset count. (c + 1, ok (slice offset count (content name)));
  refresh_auth = λ c. c;
  get_download_link = λ c name. (c + 1, ok (record { expires = none }));
  context_error = λ c. none;
}

honest :
    (c : ℕ) (name : Bytes) (offset count : ℕ) (bytes : Bytes)
    → (client.read_range c name offset count).1 ≡ ok bytes
    → bytes ≡ slice offset (length bytes) (content name)
honest c name offset count bytes e =
    let same : slice offset count (content name) ≡ bytes = cc (e) in
    subst (λ b. b ≡ slice offset (length b) (content name)) same
      (slice_end offset count (content name)
        ∙ ap (λ n. slice offset n (content name)) (sym (length-slice offset count (content name))))

abbrev visit : Windows → Bytes → List WindowKey
visit s name = s.order

abbrev reader : Reader
reader = record { connected = true; links = []; windows = windows; concurrency = 1; chunk_size = 4 }

downloaded : (read_exact_range client visit 0 fsid 0 (pos 2) reader 0).1 ≡ ok (5 ∷ 6 ∷ [])
unfolding read_exact_range guarded cached_or fetch attempt check_length download_link fresh_link
    read_cached covers lookup WindowKey-discrete Bytes-discrete ℕ_discrete
downloaded = refl

read_exact_range-exact_example : Path Bytes (5 ∷ 6 ∷ []) (slice 0 2 (content fsid))
read_exact_range-exact_example =
    read_exact_range-exact client visit content honest 0 fsid 0 2 reader 0 (5 ∷ 6 ∷ []) refl
      (refl, tt) downloaded

read_exact_range-Truthful_example :
    Truthful content (read_exact_range client visit 0 fsid 0 (pos 2) reader 0).0.0.windows.cached
read_exact_range-Truthful_example =
    read_exact_range-Truthful client visit content honest 0 fsid 0 (pos 2) reader 0 (refl, tt)

abbrev negative : NegativeCache
negative = record { ttl = 10; entries = [] }

is_missing-mark_missing_example :
    ((is_missing fsid 7 (mark_missing fsid 3 negative)).1 ≡ true) ↔ (7 ≤ 3 + negative.ttl)
is_missing-mark_missing_example = is_missing-mark_missing fsid 3 7 negative (omega arith)

abbrev mount : Filesystem
mount = record {
  has_store = true;
  has_remote = true;
  enable_delete = true;
  root_path = b'r' ∷ [];
  ttl = 5;
}

abbrev child : Entry
child = record { path = b'r' ∷ b'/' ∷ b'a' ∷ []; name = b'a' ∷ []; is_dir = false; expires_at = 0 }

called : (delete_child mount (some (child ∷ [])) true false (b'a' ∷ []) false).1 ≢ []
unfolding delete_child find_child delete_target is_protected delete_path Bytes-discrete ℕ_discrete
called e = cc

delete_child-MayDelete_example :
    (target : Entry) × MayDelete mount (child ∷ []) (b'a' ∷ []) false target
    × (delete_child mount (some (child ∷ [])) true false (b'a' ∷ []) false
        ≡ delete_path true false target.path)
delete_child-MayDelete_example =
    delete_child-MayDelete mount (child ∷ []) true false (b'a' ∷ []) false called

streamed : (read_stream_range client visit fsid 1 (pos 2) reader 0).1 ≡ ok (6 ∷ 7 ∷ [])
unfolding read_stream_range check_length
streamed = refl

parse_settings-format_example :
    (parse_int (format 42) 8 ≡ 42)
    × (parse_positive_int64 (format 42) 8 ≡ 42)
    × (parse_non_negative_int64 (format 42) 8 ≡ 42)
    × (parse_int (b'-' ∷ format 43) 8 ≡ 8)
    × (parse_positive_int64 (b'-' ∷ format 43) 8 ≡ 8)
    × (parse_non_negative_int64 (b'-' ∷ format 43) 8 ≡ 8)
parse_settings-format_example = parse_settings-format 8 42 (omega arith)

-- a client whose tokens have run out as long as its state is 0
abbrev expired : Client ℕ
expired = record {
  read_range = λ c name offset count. elim c [
    | zero ↦ (0, err (reported false false (text "status=401")))
    | suc n ↦ (suc n, ok (slice offset count (content name)))
  ];
  refresh_auth = λ c. suc c;
  get_download_link = λ c name. (c, ok (record { expires = none }));
  context_error = λ c. none;
}

unauthorised : classify (reported false false (text "status=401")) ≡ auth
unfolding classify classify_message contains starts_with lower
unauthorised = refl

exact_two :
    (c : ℕ) (bytes : Bytes)
    → (expired.read_range c fsid 0 2).1 ≡ ok bytes
    → bytes ≡ slice 0 2 (content fsid)
exact_two zero bytes e = absurd (cc)
exact_two (suc n) bytes e = cc (e)

recovers :
    (c : ℕ) (e : Failure)
    → (expired.read_range c fsid 0 2).1 ≡ err e
    → (expired.context_error (expired.read_range c fsid 0 2).0 ≡ none)
      × ((bytes : Bytes) × ((expired.read_range
              (second_client expired (classify e) (expired.read_range c fsid 0 2).0)
              fsid
              0
              2).1
            ≡ ok bytes))
recovers zero e bad =
    let same : reported false false (text "status=401") ≡ e = cc (bad) in
    (
      refl,
      subst
          (λ k.
            (bytes : Bytes) × ((expired.read_range (second_client expired k 0) fsid 0 2).1
              ≡ ok bytes))
          (sym unauthorised ∙ ap classify same) (5 ∷ 6 ∷ [], refl),
    )
recovers (suc n) e bad = absurd (cc)

read_exact_range-delivers_example :
    (read_exact_range expired visit 0 fsid 0 (pos 2) reader 0).1 ≡ ok (slice 0 2 (content fsid))
read_exact_range-delivers_example =
    read_exact_range-delivers expired visit content (record { expires = none }) fsid 0 2 (λ c. refl)
      exact_two recovers 0 reader 0 (λ e. cc) refl (refl, tt) (omega arith)

-- the chunks in the order of their numbers, the last first
abbrev order : ℕ → List ℕ
order zero = []
order (suc n) = n ∷ order n

each_chunk : (total j : ℕ) → (comes j (order total) ≡ true) ↔ (j < total)
unfolding comes
each_chunk zero j = ground arith
each_chunk (suc n) j = ground (arith, each_chunk n j)

-- two workers, and chunks of one byte
abbrev two_workers : Reader
two_workers = record {
  connected = true;
  links = [];
  windows = record { cached = []; order = []; bytes = 0; limit = 4 };
  concurrency = 2;
  chunk_size = 1;
}

-- another caller reads the second byte
abbrev second : WindowKey
second = record { fsid = fsid; offset = 1 }

abbrev others : ℕ → WindowKey → Option (Outcome Bytes)
others c asked = ite (WindowKey-discrete asked second) (some (ok (6 ∷ []))) none

joined :
    (c : ℕ) (asked : WindowKey) (bytes : Bytes)
    → others c asked ≡ some (ok bytes)
    → HoldsChunk content 1 asked bytes
unfolding HoldsChunk
joined c asked bytes e = elim (WindowKey-discrete asked second) [
  | yes p ↦
      let same : 6 ∷ [] ≡ bytes = ground (arith, e, p) in
      let here : HoldsChunk content 1 second (6 ∷ []) = (refl, omega arith) in
      subst (λ b. HoldsChunk content 1 asked b) same
        (subst (λ k. HoldsChunk content 1 k (6 ∷ [])) (sym p) here)
  | no apart ↦ absurd (ground (arith, e, apart))
]

in_chunks :
    (read_range client visit others order 0 fsid 0 (pos 3) two_workers 0).1 ≡ ok (5 ∷ 6 ∷ 7 ∷ [])
unfolding read_range guarded cached_or complete read_with_options read_concurrent run_jobs
    read_chunk joined_or write_at zeros fetch attempt check_length download_link fresh_link
    read_cached store_cached covers has without lookup WindowKey-discrete Bytes-discrete ℕ_discrete
in_chunks = refl

read_range-whole_example : Path Bytes (5 ∷ 6 ∷ 7 ∷ []) (slice 0 3 (content fsid))
read_range-whole_example =
    read_range-whole client visit others content honest 1 joined order each_chunk 0 fsid 0 3
      two_workers 0 (5 ∷ 6 ∷ 7 ∷ []) refl tt (omega arith) (omega arith) (omega arith) in_chunks
