-- ===== src/Common/Text.antt =====
-- Text as byte codes: the parts of package strings that the program calls.
use Prim.Native.Nat.{ℕ, ◌≤◌}
use Prim.Native.Char.{code}
use Prim.Native.String.{String}
use mathlib.Core.Path.{◌≡◌, refl}
use mathlib.Core.Bool.{Bool, true, false, ◌&&◌, ◌||◌}
use mathlib.Core.Option.{Option, none, some}
use mathlib.Core.List.{List, [], ◌∷◌, ◌++◌}
use native.Mathlib.Omega.{arith}
use baidu_disk_link.Common.Tests.{leb, ◌==◌, if◌then◌else◌}
use baidu_disk_link.Common.Decimal.{
  pos, negsuc, format, parse_int64, parse_int64-format, max_int64, AllDigits, format-AllDigits,
}

-- the bytes of a literal in ASCII
abbrev pub text : String → List ℕ
text String.[] = []
text (String.◌∷◌ c s) = code c ∷ text s

abbrev pub is_blank : List ℕ → Bool
is_blank [] = true
is_blank (c ∷ s) = false

-- strings.TrimPrefix where `HasPrefix` holds, and none where it does not
unfoldable pub strip_prefix : List ℕ → List ℕ → Option (List ℕ)
strip_prefix [] s = some s
strip_prefix (c ∷ word) [] = none
strip_prefix (c ∷ word) (d ∷ s) = if c == d then strip_prefix word s else none

-- the two parts of strings.SplitN(s, sep, 2), if there are two
unfoldable pub split_first : ℕ → List ℕ → Option (List ℕ × List ℕ)
split_first sep [] = none
split_first sep (c ∷ s) =
    let rest = split_first sep s in
    if c == sep
    then some ([], s)
    else elim rest [ none ↦ none | some (before, behind) ↦ some (c ∷ before, behind) ]

-- strings.Contains(s, sep) for one byte
unfoldable pub has_byte : ℕ → List ℕ → Bool
has_byte sep [] = false
has_byte sep (c ∷ s) = (c == sep) || has_byte sep s

-- strconv.ParseInt(s, 10, 64), where a negative number is as good as an error
unfoldable pub parse_nat : List ℕ → Option ℕ
unfolding parse_int64
parse_nat s = elim (parse_int64 s) [ none ↦ none | some (pos n) ↦ some n | some (negsuc n) ↦ none ]

infixl 5 ◌>>=◌
abbrev pub ◌>>=◌ {ℓ κ} : {A : Type ℓ} {B : Type κ} → Option A → (A → Option B) → Option B
none >>= f = none
some a >>= f = f a

pub strip_prefix-append : (word s : List ℕ) → strip_prefix word (word ++ s) ≡ some s
unfolding strip_prefix
strip_prefix-append [] s = refl
strip_prefix-append (c ∷ word) s = ground (arith, strip_prefix-append word s)

pub split_first-append :
    (sep : ℕ) (before behind : List ℕ)
    → has_byte sep before ≡ false
    → split_first sep (before ++ sep ∷ behind) ≡ some (before, behind)
unfolding split_first has_byte
split_first-append sep [] behind h = ground arith
split_first-append sep (c ∷ before) behind h = ground (arith, split_first-append sep before behind)

-- no digit is a separator
has_byte-digits :
    (sep : ℕ) (s : List ℕ)
    → (leb b'0' sep && leb sep b'9') ≡ false
    → AllDigits s
    → has_byte sep s ≡ false
unfolding has_byte
has_byte-digits sep [] h d = refl
has_byte-digits sep (c ∷ s) h d = ground (arith, has_byte-digits sep s h d.2)

pub split_first-format :
    (sep n : ℕ) (behind : List ℕ)
    → (leb b'0' sep && leb sep b'9') ≡ false
    → split_first sep (format n ++ sep ∷ behind) ≡ some (format n, behind)
split_first-format sep n behind h =
    split_first-append sep (format n) behind (has_byte-digits sep (format n) h (format-AllDigits n))

pub has_byte-append :
    (sep : ℕ) (s t : List ℕ) → has_byte sep (s ++ t) ≡ (has_byte sep s || has_byte sep t)
unfolding has_byte
has_byte-append sep [] t = refl
has_byte-append sep (c ∷ s) t = ground (arith, has_byte-append sep s t)

pub has_byte-format :
    (sep n : ℕ) → (leb b'0' sep && leb sep b'9') ≡ false → has_byte sep (format n) ≡ false
has_byte-format sep n h = has_byte-digits sep (format n) h (format-AllDigits n)

pub parse_nat-format : (n : ℕ) → n ≤ max_int64 → parse_nat (format n) ≡ some n
unfolding parse_nat
parse_nat-format n h = ground (arith, parse_int64-format n h)
