-- ===== src/Settings.antt =====
-- internal/config/config.go: the parsing of the values of the environment. `parse_int64` stands for
-- strconv.ParseInt with base 10 and 64 bits, and for strconv.Atoi, whose int has 64 bits too.
use baidu_disk_link.Common.{
  ℕ, ◌≤◌, ◌≡◌, ite, ap, sym, ◌∙◌, suc, Bool, true, false, none, some, List, [], ◌∷◌, ltb, ◌==◌,
  if◌then◌else◌, arith,
}
use baidu_disk_link.Common.Decimal.{
  pos, negsuc, format, parse_int64, parse_int64-format, parse_int64-format_negative, format-cons,
  max_int64,
}
use baidu_disk_link.ChunkStore.Types.{Bytes, Bytes-discrete}

-- parseInt
unfoldable pub parse_int : Bytes → ℕ → ℕ
unfolding parse_int64
parse_int [] fallback = fallback
parse_int (c ∷ value) fallback = elim (parse_int64 (c ∷ value)) [
  | none ↦ fallback
  | some (negsuc n) ↦ fallback
  | some (pos n) ↦ if ltb 0 n then n else fallback
]

-- parseInt64
unfoldable pub parse_positive_int64 : Bytes → ℕ → ℕ
unfolding parse_int64
parse_positive_int64 [] fallback = fallback
parse_positive_int64 (c ∷ value) fallback = elim (parse_int64 (c ∷ value)) [
  | none ↦ fallback
  | some (negsuc n) ↦ fallback
  | some (pos n) ↦ if ltb 0 n then n else fallback
]

-- parseNonNegativeInt64
unfoldable pub parse_non_negative_int64 : Bytes → ℕ → ℕ
unfolding parse_int64
parse_non_negative_int64 [] fallback = fallback
parse_non_negative_int64 (c ∷ value) fallback = elim (parse_int64 (c ∷ value)) [
  | none ↦ fallback
  | some (negsuc n) ↦ fallback
  | some (pos n) ↦ n
]

-- "1", "true", "TRUE", "yes", "YES", "on", "ON"
abbrev pub true_words : List Bytes
true_words =
    (b'1' ∷ [])
    ∷ (b't' ∷ b'r' ∷ b'u' ∷ b'e' ∷ [])
    ∷ (b'T' ∷ b'R' ∷ b'U' ∷ b'E' ∷ [])
    ∷ (b'y' ∷ b'e' ∷ b's' ∷ [])
    ∷ (b'Y' ∷ b'E' ∷ b'S' ∷ [])
    ∷ (b'o' ∷ b'n' ∷ [])
    ∷ (b'O' ∷ b'N' ∷ [])
    ∷ []

unfoldable pub is_one_of : Bytes → List Bytes → Bool
is_one_of value [] = false
is_one_of value (word ∷ words) = ite (Bytes-discrete value word) true (is_one_of value words)

unfoldable pub parse_bool : Bytes → Bool
unfolding is_one_of
parse_bool value = is_one_of value true_words

unfoldable pub parse_bool_default : Bytes → Bool → Bool
unfolding parse_bool
parse_bool_default [] fallback = fallback
parse_bool_default (c ∷ value) fallback = parse_bool (c ∷ value)

-- A number of 64 bits in decimal is taken as it is, except that `parseInt` and `parseInt64` take the fallback for 0; a
-- negative number gives the fallback of all three.
pub parse_settings-format :
    (fallback n : ℕ)
    → n ≤ max_int64
    → (parse_int (format n) fallback ≡ (if n == 0 then fallback else n))
      × (parse_positive_int64 (format n) fallback ≡ (if n == 0 then fallback else n))
      × (parse_non_negative_int64 (format n) fallback ≡ n)
      × (parse_int (b'-' ∷ format (suc n)) fallback ≡ fallback)
      × (parse_positive_int64 (b'-' ∷ format (suc n)) fallback ≡ fallback)
      × (parse_non_negative_int64 (b'-' ∷ format (suc n)) fallback ≡ fallback)
unfolding parse_int parse_positive_int64 parse_non_negative_int64
parse_settings-format fallback n fits =
    let read = parse_int64-format n fits in
    let (c, value, same) = format-cons n in
    let shown : parse_int64 (c ∷ value) ≡ some (pos n) = ap parse_int64 (sym same) ∙ read in
    let below = parse_int64-format_negative n fits in
    (
      rw same (ground (arith, shown)),
      rw same (ground (arith, shown)),
      rw same (ground (arith, shown)),
      ground (arith, below),
      ground (arith, below),
      ground (arith, below),
    )
