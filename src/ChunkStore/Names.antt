-- ===== src/ChunkStore/Names.antt =====
-- internal/stream/store.go: versions, and the names of the files of the disk cache.
pub mod RoundTrip
use baidu_disk_link.Common.{
  ℕ, ◌+◌, ◌≤◌, ◌<◌, ◌≡◌, ◌≢◌, refl, ap, sym, ◌∙◌, ite, if_pos, if_neg, Bool, true, false, ◌&&◌,
  ◌||◌, inl, inr, Option, none, some, List, [], ◌∷◌, ◌++◌, length, length-append, ltb, leb, ◌==◌,
  if◌then◌else◌, arith, Bool-cases,
}
use baidu_disk_link.Common.Decimal.{
  ℤ, pos, negsuc, format, parse_int64, parse_int64-format, max_int64, AllDigits, format-AllDigits,
  digits-cons,
}
use baidu_disk_link.ChunkStore.Types.{Bytes, File, ChunkKey, Bytes-discrete}

unfoldable pub file_version : File → Bytes
unfolding format
file_version file = file.fsid ++ b'-' ∷ (format file.size ++ b'-' ∷ format file.mtm)

-- "-chunk-"
abbrev pub chunk_mark : Bytes
chunk_mark = b'-' ∷ b'c' ∷ b'h' ∷ b'u' ∷ b'n' ∷ b'k' ∷ b'-' ∷ []

unfoldable pub chunk_version : File → ℕ → Bytes
unfolding file_version
chunk_version file chunk_size = file_version file ++ (chunk_mark ++ format chunk_size)

abbrev pub clean : ℕ → ℕ
clean c = if c == b'/' || (c == 0x5c || c == b':') then b'_' else c

unfoldable pub sanitize_version : Bytes → Bytes
sanitize_version [] = []
sanitize_version (c ∷ []) = clean c ∷ []
sanitize_version (c ∷ d ∷ text) = elim (c == b'.' && d == b'.') [
  | true ↦ b'_' ∷ sanitize_version text
  | false ↦ clean c ∷ sanitize_version (d ∷ text)
]

-- ".chunk"
abbrev pub chunk_suffix : Bytes
chunk_suffix = b'.' ∷ b'c' ∷ b'h' ∷ b'u' ∷ b'n' ∷ b'k' ∷ []

-- the name that `chunkPath` joins to the cache directory
unfoldable pub chunk_name : ChunkKey → Bytes
unfolding sanitize_version format
chunk_name key = sanitize_version key.version ++ b'-' ∷ (format key.index ++ chunk_suffix)

-- `strings.TrimSuffix(text, suffix)`, where it cuts something off
unfoldable pub trim_suffix : Bytes → Bytes → Option Bytes
unfolding Bytes-discrete
trim_suffix suffix [] = none
trim_suffix suffix (c ∷ text) =
    let rest = trim_suffix suffix text in
    ite (Bytes-discrete (c ∷ text) suffix) (some [])
      (elim rest [ none ↦ none | some base ↦ some (c ∷ base) ])

-- the text before and behind `strings.LastIndexByte(text, '-')`
unfoldable pub split_last : Bytes → Option (Bytes × Bytes)
split_last [] = none
split_last (c ∷ text) = elim (split_last text) [
  | some (before, behind) ↦ some (c ∷ before, behind)
  | none ↦ if c == b'-' then some ([], text) else none
]

unfoldable pub parse_index : Bytes → Bytes → Option ChunkKey
unfolding parse_int64
parse_index version text = elim (parse_int64 text) [
  | none ↦ none
  | some (negsuc n) ↦ none
  | some (pos n) ↦ some (record { version = version; index = n })
]

abbrev pub is_empty : Bytes → Bool
is_empty [] = true
is_empty (c ∷ text) = false

unfoldable pub parse_base : Bytes → Option ChunkKey
unfolding split_last parse_index
parse_base base = elim (split_last base) [
  | none ↦ none
  | some (version, text) ↦
      if is_empty version || is_empty text then none else parse_index version text
]

unfoldable pub parse_chunk_file_name : Bytes → Option ChunkKey
unfolding trim_suffix parse_base
parse_chunk_file_name name = elim (trim_suffix chunk_suffix name) [
  | none ↦ none
  | some base ↦ parse_base base
]

pub trim_suffix-append :
    (suffix base : Bytes) → suffix ≢ [] → trim_suffix suffix (base ++ suffix) ≡ some base
unfolding trim_suffix
trim_suffix-append [] base h = absurd (h refl)
trim_suffix-append (c ∷ suffix) [] h = rw (if_pos _ refl)
trim_suffix-append (c ∷ suffix) (d ∷ base) h = rw (
  if_neg _ (λ (e : d ∷ (base ++ c ∷ suffix) ≡ c ∷ suffix).
      omega (arith, ap length e, length-append base (c ∷ suffix))),
  trim_suffix-append (c ∷ suffix) base h,
)

split_last-none : (text : Bytes) → AllDigits text → split_last text ≡ none
unfolding split_last
split_last-none [] h = refl
split_last-none (c ∷ text) h = ground (arith, split_last-none text h.2)

pub split_last-append :
    (before text : Bytes)
    → AllDigits text
    → split_last (before ++ b'-' ∷ text) ≡ some (before, text)
unfolding split_last
split_last-append [] text h = ground (arith, split_last-none text h)
split_last-append (c ∷ before) text h = ground (arith, split_last-append before text h)
