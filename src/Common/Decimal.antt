-- ===== src/Common/Decimal.antt =====
-- Decimal text: `strconv.FormatInt(n, 10)` of a number that is not negative, and
-- `strconv.ParseInt(text, 10, 64)`.
use Prim.Native.Nat.{ℕ, zero, suc, ◌+◌, ◌-◌, ◌*◌, ◌/◌, ◌%◌, ◌^◌, ◌≤◌, ◌<◌}
use mathlib.Core.Path.{◌≡◌}
use mathlib.Core.Logic.{◌≢◌, inl, inr}
use mathlib.Core.Bool.{Bool, ◌&&◌}
use mathlib.Core.Option.{Option, none, some}
use mathlib.Core.List.{List, [], ◌∷◌}
use native.Mathlib.Omega.{arith}
use baidu_disk_link.Common.Tests.{ltb, leb, ◌==◌, if◌then◌else◌, Bool-cases}

-- A signed 64-bit number; `negsuc n` is -(n + 1).
pub data ℤ : Type 0 where
  pos : ℕ → ℤ
  negsuc : ℕ → ℤ

-- the digits of `n` before `out`, given enough rounds
unfoldable pub digits : ℕ → ℕ → List ℕ → List ℕ
digits zero n out = out
digits (suc rounds) n out =
    let more = digits rounds (n / 10) ((b'0' + n % 10) ∷ out) in
    if ltb n 10 then (b'0' + n) ∷ out else more

unfoldable pub format : ℕ → List ℕ
unfolding digits
format n = digits (suc n) n []

abbrev pub is_digit : ℕ → Bool
is_digit c = leb b'0' c && leb c b'9'

-- reads digits behind the number `n`; no value above `max` is accepted
unfoldable pub scan : ℕ → ℕ → List ℕ → Option ℕ
scan limit n [] = if leb n limit then some n else none
scan limit n (c ∷ text) =
    let rest = scan limit (10 * n + (c - b'0')) text in if is_digit c then rest else none

abbrev pub max_int64 : ℕ
max_int64 = 2 ^ 63 - 1

abbrev negate : ℕ → ℤ
negate zero = pos zero
negate (suc n) = negsuc n

unfoldable pub scan_text : ℕ → List ℕ → Option ℕ
unfolding scan
scan_text limit [] = none
scan_text limit (c ∷ text) = scan limit 0 (c ∷ text)

unfoldable pub parse_int64 : List ℕ → Option ℤ
unfolding scan_text
parse_int64 [] = none
parse_int64 (c ∷ text) =
    if c == b'-'
    then elim (scan_text (2 ^ 63) text) [ none ↦ none | some n ↦ some (negate n) ]
    else if c == b'+'
    then elim (scan_text max_int64 text) [ none ↦ none | some n ↦ some (pos n) ]
    else elim (scan_text max_int64 (c ∷ text)) [ none ↦ none | some n ↦ some (pos n) ]

scan-digits :
    (rounds limit n : ℕ) (out : List ℕ)
    → n < rounds
    → scan limit 0 (digits rounds n out) ≡ scan limit n out
unfolding scan digits
scan-digits zero limit n out h = elim h [ ]
scan-digits (suc rounds) limit n out h =
    ground (arith, scan-digits rounds limit (n / 10) ((b'0' + n % 10) ∷ out))

-- What stands before the last digits is a digit too.
abbrev pub AllDigits : List ℕ → Type 0
AllDigits [] = Unit {0}
AllDigits (c ∷ text) = (b'0' ≤ c) × (c ≤ b'9') × AllDigits text

digits-AllDigits : (rounds n : ℕ) (out : List ℕ) → AllDigits out → AllDigits (digits rounds n out)
unfolding digits
digits-AllDigits zero n out h = h
digits-AllDigits (suc rounds) n out h =
    ground (arith, digits-AllDigits rounds (n / 10) ((b'0' + n % 10) ∷ out))

pub format-AllDigits : (n : ℕ) → AllDigits (format n)
unfolding format
format-AllDigits n = digits-AllDigits (suc n) n [] tt

-- There is at least one digit, and the first one is no sign.
pub digits-cons :
    (rounds n : ℕ) (out : List ℕ)
    → n < rounds
    → (c : ℕ) × (text : List ℕ) × (digits rounds n out ≡ c ∷ text) × (b'0' ≤ c) × (c ≤ b'9')
unfolding digits
digits-cons zero n out h = elim h [ ]
digits-cons (suc rounds) n out h = elim (Bool-cases (ltb n 10)) [
  | inl small ↦ (b'0' + n, out, rw small, omega arith, ground arith)
  | inr big ↦ rw big (digits-cons rounds (n / 10) ((b'0' + n % 10) ∷ out) (ground arith))
]

-- A printed number that fits reads back.
pub parse_int64-format : (n : ℕ) → n ≤ max_int64 → parse_int64 (format n) ≡ some (pos n)
unfolding parse_int64 format scan
parse_int64-format n h =
    let (c, text, e, low, high) = digits-cons (suc n) n [] (omega arith) in
    ground (arith, e, low, high, scan-digits (suc n) max_int64 n [])

-- A negative number that fits reads back.
pub parse_int64-format_negative :
    (n : ℕ) → n ≤ max_int64 → parse_int64 (b'-' ∷ format (suc n)) ≡ some (negsuc n)
unfolding parse_int64 format scan
parse_int64-format_negative n h =
    let (c, text, e, low, high) = digits-cons (suc (suc n)) (suc n) [] (omega arith) in
    ground (arith, e, low, high, scan-digits (suc (suc n)) (2 ^ 63) (suc n) [])

pub format-cons : (n : ℕ) → (c : ℕ) × (text : List ℕ) × (format n ≡ c ∷ text)
unfolding format
format-cons n = let (c, text, e, low, high) = digits-cons (suc n) n [] (omega arith) in (c, text, e)

pub format-ne-nil : (n : ℕ) → format n ≢ []
unfolding format
format-ne-nil n e = let (c, text, d, _, _) = digits-cons (suc n) n [] (omega arith) in cc (d, e)
