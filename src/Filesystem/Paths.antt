-- ===== src/Filesystem/Paths.antt =====
-- internal/fs/filesystem.go: `JoinPath`, and what it uses of package path.
use baidu_disk_link.Common.{
  ◌≡◌, refl, Bool, true, false, ◌||◌, List, [], ◌∷◌, ◌++◌, ◌==◌, if◌then◌else◌, arith,
}
use baidu_disk_link.Common.Text.{text, is_blank, has_byte}
use baidu_disk_link.ChunkStore.Types.{Bytes}
use baidu_disk_link.MetadataStore.{same}

-- the parts between the slashes
unfoldable pub segments : Bytes → List Bytes
segments [] = [] ∷ []
segments (c ∷ s) =
    let rest = segments s in
    if c == b'/'
    then [] ∷ rest
    else elim rest [ [] ↦ (c ∷ []) ∷ [] | first ∷ others ↦ (c ∷ first) ∷ others ]

-- what `..` does to the parts so far, the last first
unfoldable pub step_back : Bool → List Bytes → List Bytes
step_back rooted [] = if rooted then [] else text ".." ∷ []
step_back rooted (last ∷ before) =
    if same last (text "..") then text ".." ∷ last ∷ before else before

unfoldable pub clean_segments : Bool → List Bytes → List Bytes → List Bytes
unfolding step_back
clean_segments rooted kept [] = kept
clean_segments rooted kept (part ∷ rest) =
    if is_blank part || same part (text ".")
    then clean_segments rooted kept rest
    else if same part (text "..")
    then clean_segments rooted (step_back rooted kept) rest
    else clean_segments rooted (part ∷ kept) rest

-- the parts, the last first, joined by slashes
unfoldable pub join_segments : List Bytes → Bytes
join_segments [] = []
join_segments (last ∷ []) = last
join_segments (last ∷ part ∷ before) = join_segments (part ∷ before) ++ b'/' ∷ last

-- path.Clean of a text that is not empty
unfoldable pub clean : Bytes → Bytes
unfolding segments clean_segments join_segments
clean [] = text "."
clean (c ∷ s) =
    let relative = join_segments (clean_segments false [] (segments (c ∷ s))) in
    if c == b'/'
    then b'/' ∷ join_segments (clean_segments true [] (segments s))
    else if is_blank relative
    then text "."
    else relative

-- path.Join of two parts
unfoldable pub join : Bytes → Bytes → Bytes
unfolding clean
join [] [] = []
join [] (d ∷ b) = clean (d ∷ b)
join (c ∷ a) [] = clean (c ∷ a)
join (c ∷ a) (d ∷ b) = clean (c ∷ a ++ b'/' ∷ d ∷ b)

-- the last part, or what is before it where it is empty
unfoldable pub last_segment : List Bytes → Bytes
last_segment [] = []
last_segment (part ∷ rest) = let last = last_segment rest in if is_blank last then part else last

-- path.Base
unfoldable pub base : Bytes → Bytes
unfolding last_segment segments
base [] = text "."
base (c ∷ s) =
    let last = last_segment (segments (c ∷ s)) in if is_blank last then text "/" else last

-- JoinPath
unfoldable pub join_path : Bytes → Bytes → Bytes
unfolding join
join_path parent name =
    if is_blank parent || same parent (text "/") then join (text "/") name else join parent name

-- a name of a file
pub record IsName (s : Bytes) : Type 0 where
  pub one_part : has_byte b'/' s ≡ false
  pub filled : is_blank s ≡ false
  pub no_dot : same s (text ".") ≡ false
  pub no_dots : same s (text "..") ≡ false

segments-name : (s : Bytes) → has_byte b'/' s ≡ false → segments s ≡ s ∷ []
unfolding segments has_byte
segments-name [] h = refl
segments-name (c ∷ s) h = ground (arith, h, segments-name s)

-- JoinPath of the root and a name
pub join_path-root : (name : Bytes) → IsName name → join_path (text "/") name ≡ b'/' ∷ name
unfolding join_path join clean segments clean_segments join_segments
join_path-root [] n = absurd (ground (arith, n.filled))
join_path-root (c ∷ name) n =
    rw (segments-name (c ∷ name) n.one_part) (ground (arith, n.no_dot, n.no_dots))
