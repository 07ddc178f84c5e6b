-- ===== src/Base/Counts.antt =====
-- How often a number stands in a list, and the lists that no number stands in twice.
use Prim.Native.Nat.{ℕ, zero, suc, ◌+◌}
use mathlib.Core.Path.{◌≡◌}
use mathlib.Core.List.{List, [], ◌∷◌, ◌++◌}
use native.Mathlib.Omega.{arith}
use p2ptransfer.Base.Tests.{ltb, leb, ◌==◌, if◌then◌else◌}
use p2ptransfer.Base.Lists.{range_from}

abbrev pub count : ℕ → List ℕ → ℕ
count a [] = 0
count a (x ∷ xs) = (if x == a then 1 else 0) + count a xs

pub count-append :
    (n : ℕ) (front back : List ℕ) → count n (front ++ back) ≡ count n front + count n back
count-append n [] back = omega arith
count-append n (first ∷ front) back = omega (arith, count-append n front back)

-- 1 if the number lies in [s, s + n), else 0.
abbrev pub inside : ℕ → ℕ → ℕ → ℕ
inside s n a = if leb s a then (if ltb a (s + n) then 1 else 0) else 0

pub count-range_from : (a s n : ℕ) → count a (range_from s n) ≡ inside s n a
count-range_from a s zero = ground arith
count-range_from a s (suc n) = ground (arith, count-range_from a (suc s) n)
