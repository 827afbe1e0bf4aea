-- ===== src/MetadataStore/Like.antt =====
-- internal/store/store.go: SQLite's `like`, and strings.TrimRight(path, "/").
use baidu_disk_link.Common.{
  ℕ, ◌+◌, Bool, true, false, ◌&&◌, ◌||◌, [], ◌∷◌, leb, ◌==◌, if◌then◌else◌,
}
use baidu_disk_link.ChunkStore.Types.{Bytes}

-- the capital letters of ASCII are as good as the small ones
abbrev pub fold : ℕ → ℕ
fold c = if leb b'A' c && leb c b'Z' then c + 32 else c

-- the bytes of UTF-8 that continue a character
unfoldable pub skip_continuation : Bytes → Bytes
skip_continuation [] = []
skip_continuation (c ∷ s) = if leb 128 c && leb c 191 then skip_continuation s else c ∷ s

unfoldable pub some_suffix : (Bytes → Bool) → Bytes → Bool
some_suffix test [] = test []
some_suffix test (c ∷ s) = test (c ∷ s) || some_suffix test s

unfoldable pub is_like : Bytes → Bytes → Bool
unfolding skip_continuation some_suffix
is_like [] [] = true
is_like [] (c ∷ s) = false
is_like (p ∷ pattern_rest) s = if p == b'%' then some_suffix (is_like pattern_rest) s else elim s [
  | [] ↦ false
  | c ∷ rest ↦
      if p == b'_'
      then is_like pattern_rest (skip_continuation rest)
      else fold p == fold c && is_like pattern_rest rest
]

unfoldable pub trim_slashes : Bytes → Bytes
trim_slashes [] = []
trim_slashes (c ∷ s) =
    let rest = trim_slashes s in
    elim rest [ [] ↦ if c == b'/' then [] else c ∷ [] | d ∷ behind ↦ c ∷ d ∷ behind ]
