-- ===== src/Base/Maps.antt =====
-- A JavaScript `Map` with numbers as keys: an association list in order of insertion.
use Prim.Native.Nat.{ℕ, zero, suc, ◌+◌, ◌≤◌, ◌<◌}
use mathlib.Core.Path.{◌≡◌, refl}
use mathlib.Core.Logic.{inl, inr}
use mathlib.Core.Bool.{Bool, true, false}
use mathlib.Core.Option.{Option, none, some}
use mathlib.Core.List.{List, [], ◌∷◌}
use native.Mathlib.Omega.{arith}
use p2ptransfer.Base.Tests.{◌==◌, if◌then◌else◌, Option-cases}
use p2ptransfer.Base.Lists.{length}

module _ {ℓ} {V : Type ℓ} where
  -- `get`
  abbrev pub lookup : ℕ → List (ℕ × V) → Option V
  lookup key [] = none
  lookup key ((at, found) ∷ rest) = if at == key then some found else lookup key rest

  -- `has`
  abbrev pub has : ℕ → List (ℕ × V) → Bool
  has k m = elim (lookup k m) [ none ↦ false | some _ ↦ true ]

  -- `set`
  abbrev pub insert : ℕ → V → List (ℕ × V) → List (ℕ × V)
  insert key new [] = (key, new) ∷ []
  insert key new ((at, old) ∷ rest) =
      if at == key then (key, new) ∷ rest else (at, old) ∷ insert key new rest

  -- `delete`
  abbrev pub remove : ℕ → List (ℕ × V) → List (ℕ × V)
  remove key [] = []
  remove key ((at, old) ∷ rest) = if at == key then rest else (at, old) ∷ remove key rest

  -- No key stands in the list twice.
  abbrev pub Distinct : List (ℕ × V) → Type ℓ
  Distinct [] = Unit
  Distinct ((k, v) ∷ m) = (lookup k m ≡ none) × Distinct m

module _ {ℓ} {V : Type ℓ} where
  pub lookup-insert :
      (j k : ℕ) (v : V) (m : List (ℕ × V))
      → lookup j (insert k v m) ≡ (if k == j then some v else lookup j m)
  lookup-insert j k v [] = refl
  lookup-insert j k v ((i, w) ∷ m) = ground (arith, lookup-insert j k v m)

  pub lookup-remove :
      (j k : ℕ) (m : List (ℕ × V))
      → Distinct m
      → lookup j (remove k m) ≡ (if k == j then none else lookup j m)
  lookup-remove j k [] d = ground arith
  lookup-remove j k ((i, w) ∷ m) d = ground (arith, lookup-remove j k m d.1)

  pub Distinct-insert : (k : ℕ) (v : V) (m : List (ℕ × V)) → Distinct m → Distinct (insert k v m)
  Distinct-insert k v [] d = (refl, tt)
  Distinct-insert k v ((i, w) ∷ m) d =
      ground (arith, lookup-insert i k v m, Distinct-insert k v m d.1)

  pub Distinct-remove : (k : ℕ) (m : List (ℕ × V)) → Distinct m → Distinct (remove k m)
  Distinct-remove k [] d = tt
  Distinct-remove k ((i, w) ∷ m) d =
      ground (arith, lookup-remove i k m d.1, Distinct-remove k m d.1)

  pub length-insert :
      (k : ℕ) (v : V) (m : List (ℕ × V))
      → lookup k m ≡ none
      → length (insert k v m) ≡ suc (length m)
  length-insert k v [] h = refl
  length-insert k v ((i, w) ∷ m) h = ground (arith, length-insert k v m)

  pub length-remove :
      (k : ℕ) {v : V} (m : List (ℕ × V))
      → lookup k m ≡ some v
      → length m ≡ suc (length (remove k m))
  length-remove k [] h = cc
  length-remove k {v} ((i, w) ∷ m) h = ground (arith, length-remove k {v = v} m)

  -- Distinct keys that lie in [a, a + n) are at most n.
  pub length-le_of_keys :
      (n a : ℕ) (m : List (ℕ × V))
      → Distinct m
      → ((k : ℕ) (v : V) → lookup k m ≡ some v → (a ≤ k) × (k < a + n))
      → length m ≤ n
  length-le_of_keys zero a [] d h = omega arith
  length-le_of_keys zero a ((k, v) ∷ m) d h = absurd (ground (arith, h k v))
  length-le_of_keys (suc n) a m d h = elim (Option-cases (lookup a m)) [
    | inl free ↦ omega (arith, length-le_of_keys n (suc a) m d λ k v e. ground (arith, h k v))
    | inr (w, taken) ↦ omega (
      arith,
      length-remove a m taken,
      length-le_of_keys n (suc a) (remove a m) (Distinct-remove a m d)
          λ k v e. ground (arith, lookup-remove k a m d, h k v),
    )
  ]
