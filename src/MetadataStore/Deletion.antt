-- ===== src/MetadataStore/Deletion.antt =====
-- internal/store/store.go: what `DeletePath` deletes.
use baidu_disk_link.Common.{
  ℕ, ◌<◌, ◌≡◌, ◌≢◌, refl, sym, ap, ◌∙◌, Bool, true, false, ◌||◌, ◌&&◌, none, [], ◌∷◌, ◌++◌, inl,
  inr, arith, leb, ◌==◌, if◌then◌else◌, Bool-cases, not, append_assoc,
}
use baidu_disk_link.Common.Text.{text, is_blank}
use baidu_disk_link.ChunkStore.Types.{Bytes, Bytes-discrete}
use baidu_disk_link.Remote.Errors.{starts_with, lower}
use baidu_disk_link.MetadataStore.{
  Table, nil_store, no_db, opened, same, is_below, delete_rows, delete_path, find_row,
}
use baidu_disk_link.MetadataStore.Like.{skip_continuation, some_suffix, is_like, trim_slashes}

like-percent : (s : Bytes) → is_like (text "%") s ≡ true
unfolding is_like some_suffix
like-percent [] = refl
like-percent (c ∷ s) = ground (arith, like-percent s)

-- a text that holds no wildcard
unfoldable pub is_plain : Bytes → Bool
is_plain [] = true
is_plain (c ∷ s) = not (c == b'%' || c == b'_') && is_plain s

-- no byte of UTF-8 that continues a character comes first
unfoldable pub starts_fresh : Bytes → Bool
starts_fresh [] = true
starts_fresh (c ∷ s) = not (leb 128 c && leb c 191)

-- no byte that continues a character comes after an underscore, as in any text in UTF-8
unfoldable pub is_text : Bytes → Bool
unfolding starts_fresh
is_text [] = true
is_text (c ∷ s) = (not (c == b'_') || starts_fresh s) && is_text s

some_suffix_self : (test : Bytes → Bool) (s : Bytes) → test s ≡ true → some_suffix test s ≡ true
unfolding some_suffix
some_suffix_self test [] h = h
some_suffix_self test (c ∷ s) h = ground (arith, h)

some_suffix-append :
    (test : Bytes → Bool) (s t : Bytes)
    → some_suffix test t ≡ true
    → some_suffix test (s ++ t) ≡ true
unfolding some_suffix
some_suffix-append test [] t h = h
some_suffix-append test (c ∷ s) t h = ground (arith, h, some_suffix-append test s t)

skip_fresh : (s : Bytes) → starts_fresh s ≡ true → skip_continuation s ≡ s
unfolding skip_continuation starts_fresh
skip_fresh [] h = refl
skip_fresh (c ∷ s) h = ground (arith, h)

starts_fresh-append :
    (s t : Bytes) → starts_fresh s ≡ true → starts_fresh t ≡ true → starts_fresh (s ++ t) ≡ true
unfolding starts_fresh
starts_fresh-append [] t h k = k
starts_fresh-append (c ∷ s) t h k = h

-- a text is like itself, with whatever may follow
like-append :
    (pattern behind s : Bytes)
    → is_text pattern ≡ true
    → starts_fresh s ≡ true
    → is_like behind s ≡ true
    → is_like (pattern ++ behind) (pattern ++ s) ≡ true
unfolding is_like is_text some_suffix
like-append [] behind s a f h = h
like-append (c ∷ pattern) behind s a f h =
    let rest = like-append pattern behind s (ground (arith, a)) f h in
    elim (Bool-cases (c == b'%')) [
      | inl percent ↦
          let later = some_suffix_self (is_like (pattern ++ behind)) (pattern ++ s) rest in
          ground (arith, percent, later)
      | inr other ↦ elim (Bool-cases (c == b'_')) [
        | inl underscore ↦
            let fresh_rest = starts_fresh-append pattern s (ground (arith, a, underscore)) f in
            let skipped = skip_fresh (pattern ++ s) fresh_rest in
            ground (arith, other, underscore, rest, skipped)
        | inr plain ↦ ground (arith, other, plain, rest)
      ]
    ]

find-delete :
    (path other : Bytes) (rows : Table)
    → find_row other (delete_rows path rows)
      ≡ (if is_below path other then none else find_row other rows)
unfolding find_row delete_rows
find-delete path other [] = ground arith
find-delete path other (e ∷ rows) =
    let rest = find-delete path other rows in
    elim (Bytes-discrete e.path other) [
      | yes p ↦ let below = ap (is_below path) p in ground (arith, rest, p, below)
      | no apart ↦ ground (arith, rest, apart)
    ]

-- the rows that a deletion leaves
abbrev pub left : Bytes → Table → Table
left path rows = elim (delete_path path (opened rows)).0 [
  | nil_store ↦ []
  | no_db ↦ []
  | opened after ↦ after
]

filled_not_blank : (path : Bytes) → path ≢ [] → is_blank path ≡ false
filled_not_blank [] h = absurd (h refl)
filled_not_blank (c ∷ path) h = refl

append_filled : (s t : Bytes) (c : ℕ) → s ++ c ∷ t ≢ []
append_filled [] t c e = absurd (cc)
append_filled (d ∷ s) t c e = absurd (cc)

left_of_allowed :
    (path : Bytes) (rows : Table)
    → path ≢ []
    → path ≢ text "/"
    → ((delete_path path (opened rows)).1 ≡ none) × (left path rows ≡ delete_rows path rows)
unfolding delete_path
left_of_allowed path rows filled other = ground (arith, filled_not_blank path filled, other)

-- what is below a path is like it
below_subtree :
    (path rest : Bytes)
    → is_text (trim_slashes path) ≡ true
    → is_below path (trim_slashes path ++ b'/' ∷ rest) ≡ true
unfolding is_below is_like starts_fresh
below_subtree path rest h =
    let like =
      like-append (trim_slashes path) (text "/%") (b'/' ∷ rest) h refl (like-percent rest) in
    ground (arith, like)

-- `DeletePath` deletes a path and all that is below it, for every path but the root's that is text in UTF-8: after it no row has the path,
-- or the path and a slash in front.
pub delete_path-subtree :
    (path rest : Bytes) (rows : Table)
    → is_text (trim_slashes path) ≡ true
    → path ≢ []
    → path ≢ text "/"
    → ((delete_path path (opened rows)).1 ≡ none)
      × (find_row path (left path rows) ≡ none)
      × (find_row (trim_slashes path ++ b'/' ∷ rest) (left path rows) ≡ none)
unfolding is_below
delete_path-subtree path rest rows h filled other =
    let allowed = left_of_allowed path rows filled other in
    let gone : (q : Bytes) → is_below path q ≡ true → find_row q (left path rows) ≡ none =
      λ q below. ap (find_row q) allowed.1 ∙ find-delete path q rows ∙ (rw below refl) in
    (
      allowed.0,
      gone path (ground arith),
      gone (trim_slashes path ++ b'/' ∷ rest) (below_subtree path rest h),
    )

pub lower-like :
    (path other : Bytes)
    → is_plain path ≡ true
    → is_like (path ++ text "/%") other ≡ starts_with (lower (path ++ text "/")) (lower other)
unfolding is_like is_plain starts_with lower
lower-like [] [] h = refl
lower-like [] (c ∷ other) h = let all = like-percent other in ground (arith, all)
lower-like (c ∷ path) [] h = ground (arith, h)
lower-like (c ∷ path) (d ∷ other) h = ground (arith, h, lower-like path other)

-- `DeletePath` of a path without a wildcard and without a slash at its end deletes the rows of that path and of the paths that begin,
-- but for the case of ASCII letters, with it and a slash, and leaves every other row as it is.
pub delete_path-plain :
    (path other : Bytes) (rows : Table)
    → is_plain path ≡ true
    → trim_slashes path ≡ path
    → path ≢ []
    → find_row other (left path rows) ≡ (
        if same other path || starts_with (lower (path ++ text "/")) (lower other)
        then none
        else find_row other rows)
unfolding is_below
delete_path-plain path other rows plain trimmed filled =
    let not_root : path ≢ text "/" = λ e. filled (sym trimmed ∙ ap trim_slashes e) in
    let allowed = left_of_allowed path rows filled not_root in
    let like : is_like (trim_slashes path ++ text "/%") other
        ≡ starts_with (lower (path ++ text "/")) (lower other) =
      ap (λ p. is_like (p ++ text "/%") other) trimmed ∙ lower-like path other plain in
    ap (find_row other) allowed.1
    ∙ find-delete path other rows
    ∙ ap (λ b. if same other path || b then none else find_row other rows) like

-- An underscore in the path stands for any character: `DeletePath` of `s_t` deletes what is below `sct` as well, for every character
-- c of one byte, although that is another directory. This is not what the deletion of a path means to do.
pub delete_path-underscore :
    (s t rest : Bytes) (c : ℕ) (rows : Table)
    → is_text s ≡ true
    → is_text t ≡ true
    → starts_fresh t ≡ true
    → c < 128
    → trim_slashes (s ++ b'_' ∷ t) ≡ s ++ b'_' ∷ t
    → find_row (s ++ c ∷ t ++ b'/' ∷ rest) (left (s ++ b'_' ∷ t) rows) ≡ none
unfolding is_below is_like starts_fresh trim_slashes
delete_path-underscore s t rest c rows hs ht ft small trimmed =
    let path = s ++ b'_' ∷ t in
    let other = s ++ c ∷ t ++ b'/' ∷ rest in
    let filled = append_filled s t b'_' in
    let not_root : path ≢ text "/" = λ e. filled (sym trimmed ∙ ap trim_slashes e) in
    let allowed = left_of_allowed path rows filled not_root in
    let tail = t ++ b'/' ∷ rest in
    let tail_like = like-append t (text "/%") (b'/' ∷ rest) ht refl (like-percent rest) in
    let skipped = skip_fresh tail (starts_fresh-append t (b'/' ∷ rest) ft refl) in
    let inner : is_like (b'_' ∷ t ++ text "/%") (c ∷ tail) ≡ true =
      ap (is_like (t ++ text "/%")) skipped ∙ tail_like in
    let all = like-append s (b'_' ∷ t ++ text "/%") (c ∷ tail) hs (ground (arith, small)) inner in
    let pattern : trim_slashes path ++ text "/%" ≡ s ++ (b'_' ∷ t ++ text "/%") =
      ap (λ p. p ++ text "/%") trimmed ∙ append_assoc s (b'_' ∷ t) (text "/%") in
    let whole : other ≡ s ++ (c ∷ tail) = append_assoc s (c ∷ t) (b'/' ∷ rest) in
    let like : is_like (trim_slashes path ++ text "/%") other ≡ true =
      ap (λ p. is_like p other) pattern ∙ ap (is_like (s ++ (b'_' ∷ t ++ text "/%"))) whole ∙ all in
    ap (find_row other) allowed.1 ∙ find-delete path other rows ∙ (rw like (ground arith))
