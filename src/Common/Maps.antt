-- ===== src/Common/Maps.antt =====
-- Association lists, for the maps and the linked lists of the program. `lookup` answers with the
-- first entry of a key; `without` drops every entry of it.
use Prim.Native.Nat.{ℕ, ◌+◌}
use mathlib.Core.Logic.{ite}
use mathlib.Core.Bool.{Bool, true, false, ◌||◌}
use mathlib.Core.List.{List, [], ◌∷◌, ◌++◌, map}
use mathlib.Core.Option.{Option, none, some}
use mathlib.Core.Path.{◌≡◌, refl}
use native.Mathlib.Omega.{arith}

module _ {K : Type 0} (dec : Discrete K) where
  -- membership in a key set
  unfoldable pub mem : K → List K → Bool
  mem k [] = false
  mem k (j ∷ l) = ite (dec k j) true (mem k l)

  unfoldable pub erase : K → List K → List K
  erase k [] = []
  erase k (j ∷ l) = ite (dec k j) (erase k l) (j ∷ erase k l)

  pub mem-erase : (j k : K) (l : List K) → mem j (erase k l) ≡ ite (dec j k) false (mem j l)
  unfolding mem erase
  mem-erase j k [] = ground arith
  mem-erase j k (i ∷ l) = ground (arith, mem-erase j k l)

module _ {K V : Type 0} (dec : Discrete K) where
  unfoldable pub lookup : K → List (K × V) → Option V
  lookup k [] = none
  lookup k ((j, v) ∷ l) = ite (dec k j) (some v) (lookup k l)

  unfoldable pub has : K → List (K × V) → Bool
  has k [] = false
  has k ((j, v) ∷ l) = ite (dec k j) true (has k l)

  unfoldable pub without : K → List (K × V) → List (K × V)
  without k [] = []
  without k ((j, v) ∷ l) = ite (dec k j) (without k l) ((j, v) ∷ without k l)

  -- m[k] = v
  abbrev pub insert : K → V → List (K × V) → List (K × V)
  insert k v l = (k, v) ∷ without k l

  pub lookup-without :
      (j k : K) (l : List (K × V)) → lookup j (without k l) ≡ ite (dec j k) none (lookup j l)
  unfolding lookup without
  lookup-without j k [] = ground arith
  lookup-without j k ((i, v) ∷ l) = ground (arith, lookup-without j k l)

  pub lookup-insert :
      (j k : K) (v : V) (l : List (K × V))
      → lookup j (insert k v l) ≡ ite (dec j k) (some v) (lookup j l)
  unfolding lookup
  lookup-insert j k v l = ground (arith, lookup-without j k l)

  pub has-without :
      (j k : K) (l : List (K × V)) → has j (without k l) ≡ ite (dec j k) false (has j l)
  unfolding has without
  has-without j k [] = ground arith
  has-without j k ((i, v) ∷ l) = ground (arith, has-without j k l)

  pub has-append : (k : K) (l m : List (K × V)) → has k (l ++ m) ≡ (has k l || has k m)
  unfolding has
  has-append k [] m = refl
  has-append k ((j, v) ∷ l) m = ground (arith, has-append k l m)

  pub lookup-append_first :
      (k : K) (l m : List (K × V)) → has k m ≡ false → lookup k (l ++ m) ≡ lookup k l
  unfolding lookup has
  lookup-append_first k [] [] h = refl
  lookup-append_first k [] ((j, v) ∷ m) h = ground (arith, lookup-append_first k [] m)
  lookup-append_first k ((j, v) ∷ l) m h = ground (arith, lookup-append_first k l m h)

  pub lookup-append_second :
      (k : K) (l m : List (K × V)) → has k l ≡ false → lookup k (l ++ m) ≡ lookup k m
  unfolding lookup has
  lookup-append_second k [] m h = refl
  lookup-append_second k ((j, v) ∷ l) m h = ground (arith, lookup-append_second k l m)

  -- an entry that is taken out and put back last
  pub lookup-move :
      (j k : K) (v : V) (l : List (K × V))
      → lookup j (without k l ++ (k, v) ∷ []) ≡ ite (dec j k) (some v) (lookup j l)
  unfolding lookup without
  lookup-move j k v [] = refl
  lookup-move j k v ((i, w) ∷ l) = ground (arith, lookup-move j k v l)

  pub lookup_absent : (k : K) (l : List (K × V)) → has k l ≡ false → lookup k l ≡ none
  unfolding lookup has
  lookup_absent k [] h = refl
  lookup_absent k ((j, v) ∷ l) h = ground (arith, lookup_absent k l)

  pub has_of_lookup : (k : K) (l : List (K × V)) (v : V) → lookup k l ≡ some v → has k l ≡ true
  unfolding lookup has
  has_of_lookup k [] v h = cc
  has_of_lookup k ((j, w) ∷ l) v h = ground (arith, has_of_lookup k l v)

  pub absent_of_lookup : (k : K) (l : List (K × V)) → lookup k l ≡ none → has k l ≡ false
  unfolding lookup has
  absent_of_lookup k [] h = refl
  absent_of_lookup k ((j, w) ∷ l) h = ground (arith, absent_of_lookup k l)

  pub lookup_of_has : (k : K) (l : List (K × V)) → has k l ≡ true → (v : V) × (lookup k l ≡ some v)
  unfolding lookup has
  lookup_of_has k [] h = absurd (cc)
  lookup_of_has k ((j, w) ∷ l) h = elim (dec k j) [
    | yes p ↦ (w, ground arith)
    | no p ↦ let (v, e) = lookup_of_has k l (ground arith) in (v, ground arith)
  ]

  pub without_absent : (k : K) (l : List (K × V)) → has k l ≡ false → without k l ≡ l
  unfolding has without
  without_absent k [] h = refl
  without_absent k ((j, v) ∷ l) h = ground (arith, without_absent k l)

  -- No key has two entries.
  abbrev pub Distinct : List (K × V) → Type 0
  Distinct [] = Unit {0}
  Distinct ((k, v) ∷ l) = (has k l ≡ false) × Distinct l

  pub without-Distinct : (k : K) (l : List (K × V)) → Distinct l → Distinct (without k l)
  unfolding without
  without-Distinct k [] d = tt
  without-Distinct k ((j, v) ∷ l) d = ground (arith, without-Distinct k l d.1, has-without j k l)

  pub append-Distinct :
      (k : K) (v : V) (l : List (K × V))
      → has k l ≡ false
      → Distinct l
      → Distinct (l ++ (k, v) ∷ [])
  unfolding has
  append-Distinct k v [] h d = (refl, tt)
  append-Distinct k v ((j, w) ∷ l) h d =
      ground (arith, append-Distinct k v l, has-append j l ((k, v) ∷ []))

  pub insert-Distinct : (k : K) (v : V) (l : List (K × V)) → Distinct l → Distinct (insert k v l)
  insert-Distinct k v l d = ground (arith, without-Distinct k l d, has-without k k l)

  -- What the entries weigh together.
  module _ (size : V → ℕ) where
    unfoldable pub total : List (K × V) → ℕ
    total [] = 0
    total ((k, v) ∷ l) = size v + total l

    pub total-append : (l m : List (K × V)) → total (l ++ m) ≡ total l + total m
    unfolding total
    total-append [] m = omega arith
    total-append ((k, v) ∷ l) m = omega (arith, total-append l m)

    pub total-without :
        (k : K) (v : V) (l : List (K × V))
        → Distinct l
        → lookup k l ≡ some v
        → total (without k l) + size v ≡ total l
    unfolding total lookup without
    total-without k v [] d h = absurd (cc)
    total-without k v ((j, w) ∷ l) d h = ground (arith, total-without k v l d.1, without_absent k l)

abbrev pub keys {ℓ κ} : {K : Type ℓ} {V : Type κ} → List (K × V) → List K
keys = map (λ e. e.0)
