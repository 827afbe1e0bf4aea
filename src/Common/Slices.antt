-- ===== src/Common/Slices.antt =====
-- Blocks of consecutive bytes: `slice lo n xs` is `xs[lo : lo+n]`, cut off at the end of `xs`.
use Prim.Native.Nat.{ℕ, zero, suc, ◌+◌, ◌-◌, ◌≤◌, min}
use mathlib.Core.Path.{◌≡◌, refl, sym, ap, ◌∙◌}
use mathlib.Core.List.{List, [], ◌∷◌, ◌++◌}
use native.Mathlib.Omega.{arith}
use baidu_disk_link.Common.Lists.{length, take, drop, length-take, length-drop, drop_all}

module _ {ℓ} {A : Type ℓ} where
  drop-nil : (n : ℕ) → drop {A = A} n [] ≡ []
  drop-nil zero = refl
  drop-nil (suc n) = refl

  take-nil : (n : ℕ) → take {A = A} n [] ≡ []
  take-nil zero = refl
  take-nil (suc n) = refl

  pub drop-drop : (m n : ℕ) (xs : List A) → drop n (drop m xs) ≡ drop (m + n) xs
  drop-drop zero n xs = ground arith
  drop-drop (suc m) n [] = rw (drop-nil n, drop-nil (suc m + n))
  drop-drop (suc m) n (x ∷ xs) =
      let step : suc m + n ≡ suc (m + n) = omega arith in rw step (drop-drop m n xs)

  take-take : (m n : ℕ) (xs : List A) → m ≤ n → take m (take n xs) ≡ take m xs
  take-take zero n xs h = refl
  take-take (suc m) zero xs h = absurd (omega arith)
  take-take (suc m) (suc n) [] h = refl
  take-take (suc m) (suc n) (x ∷ xs) h = ap (◌∷◌ x) (take-take m n xs (omega arith))

  drop-take : (m n : ℕ) (xs : List A) → drop m (take (m + n) xs) ≡ take n (drop m xs)
  drop-take zero n xs = ground arith
  drop-take (suc m) n [] = rw (take-nil (suc m + n), take-nil n)
  drop-take (suc m) n (x ∷ xs) =
      let step : suc m + n ≡ suc (m + n) = omega arith in rw step (drop-take m n xs)

  pub take-append-take_drop :
      (m n : ℕ) (xs : List A) → take m xs ++ take n (drop m xs) ≡ take (m + n) xs
  take-append-take_drop zero n xs = ground arith
  take-append-take_drop (suc m) n [] = rw (take-nil (suc m + n), take-nil n)
  take-append-take_drop (suc m) n (x ∷ xs) =
      let step : suc m + n ≡ suc (m + n) = omega arith in
      rw step (ap (◌∷◌ x) (take-append-take_drop m n xs))

  abbrev pub slice : ℕ → ℕ → List A → List A
  slice lo n xs = take n (drop lo xs)

  pub length-slice : (lo n : ℕ) (xs : List A) → length (slice lo n xs) ≡ min n (length xs - lo)
  length-slice lo n xs = length-take n (drop lo xs) ∙ ap (min n) (length-drop lo xs)

  -- a block of a block
  pub slice-slice :
      (start n base size : ℕ) (xs : List A)
      → start + n ≤ size
      → slice start n (slice base size xs) ≡ slice (base + start) n xs
  slice-slice start n base size xs h =
      let rest : size ≡ start + (size - start) = omega arith in
      ap (λ k. take n (drop start (take k (drop base xs)))) rest
      ∙ ap (take n) (drop-take start (size - start) (drop base xs))
      ∙ take-take n (size - start) (drop start (drop base xs)) (omega arith)
      ∙ ap (take n) (drop-drop base start xs)

  -- two blocks in a row
  pub slice-append-slice :
      (lo m n : ℕ) (xs : List A) → slice lo m xs ++ slice (lo + m) n xs ≡ slice lo (m + n) xs
  slice-append-slice lo m n xs =
      ap (λ ys. slice lo m xs ++ take n ys) (sym (drop-drop lo m xs))
      ∙ take-append-take_drop m n (drop lo xs)

  take-min : (n : ℕ) (xs : List A) → take (min n (length xs)) xs ≡ take n xs
  take-min zero xs = let none_left : min zero (length xs) ≡ zero = omega arith in rw none_left
  take-min (suc n) [] = take-nil (min (suc n) (length {A = A} []))
  take-min (suc n) (x ∷ xs) =
      let step : min (suc n) (suc (length xs)) ≡ suc (min n (length xs)) = omega arith in
      rw step (ap (◌∷◌ x) (take-min n xs))

  -- a block is the same whatever is asked for past the end
  pub slice_end : (lo n : ℕ) (xs : List A) → slice lo n xs ≡ slice lo (min n (length xs - lo)) xs
  slice_end lo n xs =
      sym (take-min n (drop lo xs)) ∙ ap (λ k. take (min n k) (drop lo xs)) (length-drop lo xs)

  pub slice_past : (lo n : ℕ) (xs : List A) → length xs ≤ lo → slice lo n xs ≡ []
  slice_past lo n xs h = ap (take n) (drop_all lo xs h) ∙ take-nil n

  take-append : (xs ys : List A) → take (length xs) (xs ++ ys) ≡ xs
  take-append [] ys = refl
  take-append (x ∷ xs) ys = ap (◌∷◌ x) (take-append xs ys)

  -- the first part of a block
  pub slice-prefix :
      (lo n : ℕ) (xs ys zs : List A)
      → length xs ≤ n
      → xs ++ ys ≡ slice lo n zs
      → xs ≡ slice lo (length xs) zs
  slice-prefix lo n xs ys zs h e =
      let start : lo + 0 ≡ lo = omega arith in
      sym (take-append xs ys)
      ∙ ap (take (length xs)) e
      ∙ slice-slice 0 (length xs) lo n zs (omega (arith, h))
      ∙ ap (λ k. slice k (length xs) zs) start
