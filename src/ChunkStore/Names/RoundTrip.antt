-- ===== src/ChunkStore/Names/RoundTrip.antt =====
-- internal/stream/store.go: reading the names of chunk files back, and telling versions apart.
use mathlib.Core.List.{append_assoc}
use baidu_disk_link.Common.{
  ℕ, ◌≤◌, ◌≡◌, ◌≢◌, refl, ap, sym, ◌∙◌, Bool, true, false, some, [], ◌∷◌, ◌++◌, ◌==◌, arith,
}
use baidu_disk_link.Common.Decimal.{
  format, parse_int64, parse_int64-format, max_int64, AllDigits, format-AllDigits, format-ne-nil,
}
use baidu_disk_link.ChunkStore.Types.{Bytes, File, ChunkKey}
use baidu_disk_link.ChunkStore.Names.{
  file_version, chunk_version, sanitize_version, chunk_name, chunk_suffix, split_last, parse_index,
  is_empty, parse_base, parse_chunk_file_name, trim_suffix, trim_suffix-append, split_last-append,
}

is_empty-false : (text : Bytes) → text ≢ [] → is_empty text ≡ false
is_empty-false [] h = absurd (h refl)
is_empty-false (c ∷ text) h = refl

parse_of_trim :
    (name base : Bytes)
    → trim_suffix chunk_suffix name ≡ some base
    → parse_chunk_file_name name ≡ parse_base base
unfolding parse_chunk_file_name
parse_of_trim name base e = rw (e, parse_chunk_file_name)

parse_base_lem :
    (version : Bytes) (n : ℕ)
    → version ≢ []
    → n ≤ max_int64
    → parse_base (version ++ b'-' ∷ format n) ≡ some (record { version = version; index = n })
unfolding parse_base parse_index
parse_base_lem version n some_version fits = ground (
  arith,
  split_last-append version (format n) (format-AllDigits n),
  is_empty-false version some_version,
  is_empty-false (format n) (format-ne-nil n),
  parse_int64-format n fits,
)

-- The name of a chunk's file reads back as the chunk's index and its version as it stands in the name, provided
-- that the version is not empty and the index fits into 64 bits.
pub parse_chunk_file_name-chunk_name :
    (key : ChunkKey)
    → sanitize_version key.version ≢ []
    → key.index ≤ max_int64
    → parse_chunk_file_name (chunk_name key)
      ≡ some (record { version = sanitize_version key.version; index = key.index })
unfolding chunk_name
parse_chunk_file_name-chunk_name key some_version fits =
    let base = sanitize_version key.version ++ b'-' ∷ format key.index in
    parse_of_trim (chunk_name key) base (
      ap (trim_suffix chunk_suffix)
        (sym (append_assoc (sanitize_version key.version) (b'-' ∷ format key.index) chunk_suffix))
      ∙ trim_suffix-append chunk_suffix base (λ e. cc))
    ∙ parse_base_lem (sanitize_version key.version) key.index some_version fits

abbrev pub starts_dot : Bytes → Bool
starts_dot [] = false
starts_dot (c ∷ text) = c == b'.'

-- A text with no path separator, no colon and no two dots in a row.
abbrev pub IsSafe : Bytes → Type 0
IsSafe [] = Unit {0}
IsSafe (c ∷ text) =
    (c ≢ b'/') × (c ≢ 0x5c) × (c ≢ b':') × ¬ ((c ≡ b'.') × (starts_dot text ≡ true)) × IsSafe text

format-injective : (m n : ℕ) → m ≤ max_int64 → n ≤ max_int64 → format m ≡ format n → m ≡ n
format-injective m n hm hn e =
    cc (parse_int64-format m hm, parse_int64-format n hn, ap parse_int64 e)

split_last-injective :
    (before before' text text' : Bytes)
    → AllDigits text
    → AllDigits text'
    → before ++ b'-' ∷ text ≡ before' ++ b'-' ∷ text'
    → (before ≡ before') × (text ≡ text')
split_last-injective before before' text text' d d' e =
    ground
      (arith, split_last-append before text d, split_last-append before' text' d', ap split_last e)

starts_dot-sanitize :
    (c : ℕ) (text : Bytes) → c ≢ b'.' → starts_dot (sanitize_version (c ∷ text)) ≡ false
unfolding sanitize_version
starts_dot-sanitize c [] h = ground arith
starts_dot-sanitize c (d ∷ text) h = ground arith

-- Whatever a version holds, its part of a file name has no path separator, no colon and no two dots in a row.
pub sanitize_version-IsSafe : (version : Bytes) → IsSafe (sanitize_version version)
unfolding sanitize_version
sanitize_version-IsSafe [] = tt
sanitize_version-IsSafe (c ∷ []) = ground arith
sanitize_version-IsSafe (c ∷ d ∷ text) = ground (
  arith,
  sanitize_version-IsSafe text,
  sanitize_version-IsSafe (d ∷ text),
  starts_dot-sanitize d text,
)

-- "-chunk"
abbrev word_chunk : Bytes
word_chunk = b'-' ∷ b'c' ∷ b'h' ∷ b'u' ∷ b'n' ∷ b'k' ∷ []

append_mark-injective : (x y : Bytes) → x ++ word_chunk ≡ y ++ word_chunk → x ≡ y
append_mark-injective x y e = cc (
  ap (trim_suffix word_chunk) e,
  trim_suffix-append word_chunk x (λ p. cc),
  trim_suffix-append word_chunk y (λ p. cc),
)

file_version-injective :
    (f g : File)
    → f.size ≤ max_int64
    → g.size ≤ max_int64
    → f.mtm ≤ max_int64
    → g.mtm ≤ max_int64
    → file_version f ≡ file_version g
    → f ≡ g
unfolding file_version
file_version-injective f g fs gs fm gm e =
    let (front, mtm) =
      split_last-injective (f.fsid ++ b'-' ∷ format f.size) (g.fsid ++ b'-' ∷ format g.size)
        (format f.mtm) (format g.mtm) (format-AllDigits f.mtm) (format-AllDigits g.mtm)
        (append_assoc f.fsid (b'-' ∷ format f.size) (b'-' ∷ format f.mtm)
          ∙ e
          ∙ sym (append_assoc g.fsid (b'-' ∷ format g.size) (b'-' ∷ format g.mtm))) in
    let (fsid, size) =
      split_last-injective f.fsid g.fsid (format f.size) (format g.size) (format-AllDigits f.size)
        (format-AllDigits g.size) front in
    ground (
      arith,
      fsid,
      format-injective f.size g.size fs gs size,
      format-injective f.mtm g.mtm fm gm mtm,
    )

-- Two files share a version only if they agree in id, size and time, and the chunk sizes are equal too,
-- for numbers that fit into 64 bits.
pub chunk_version-injective :
    (f g : File) (m n : ℕ)
    → f.size ≤ max_int64
    → g.size ≤ max_int64
    → f.mtm ≤ max_int64
    → g.mtm ≤ max_int64
    → m ≤ max_int64
    → n ≤ max_int64
    → chunk_version f m ≡ chunk_version g n
    → (f ≡ g) × (m ≡ n)
unfolding chunk_version
chunk_version-injective f g m n fs gs fm gm hm hn e =
    let (heads, chunk) =
      split_last-injective (file_version f ++ word_chunk) (file_version g ++ word_chunk) (format m)
        (format n) (format-AllDigits m) (format-AllDigits n)
        (append_assoc (file_version f) word_chunk (b'-' ∷ format m)
          ∙ e
          ∙ sym (append_assoc (file_version g) word_chunk (b'-' ∷ format n))) in
    let versions : file_version f ≡ file_version g =
      append_mark-injective (file_version f) (file_version g) heads in
    (file_version-injective f g fs gs fm gm versions, format-injective m n hm hn chunk)
