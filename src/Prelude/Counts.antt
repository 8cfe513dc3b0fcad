-- ===== src/Prelude/Counts.antt =====
-- How often a number occurs in a list: multisets as `omega` reads them.
use Prim.Native.Nat.{ℕ, suc, zero, ◌+◌, ◌≤◌, ◌<◌}
use mathlib.Core.List.{List, [], ◌∷◌, ◌++◌}
use mathlib.Core.Path.{◌≡◌, refl}
use native.Mathlib.Omega.{arith}
use free_token_intel.Prelude.Tests.{if◌then◌else◌, ◌==◌}
use free_token_intel.Prelude.Lists.{take, drop, range_from}

unfoldable pub count : ℕ → List ℕ → ℕ
count a [] = 0
count a (x ∷ xs) = (if x == a then 1 else 0) + count a xs

-- Two lists hold the same items, each as often.
abbrev pub SameItems : List ℕ → List ℕ → Type 0
SameItems xs ys = (a : ℕ) → count a xs ≡ count a ys

-- No item stands in the list twice.
abbrev pub IsDistinct : List ℕ → Type 0
IsDistinct xs = (a : ℕ) → count a xs ≤ 1

pub count-append : (a : ℕ) (xs ys : List ℕ) → count a (xs ++ ys) ≡ count a xs + count a ys
unfolding count
count-append a [] ys = omega arith
count-append a (x ∷ xs) ys = omega (arith, count-append a xs ys)

pub count-take-drop :
    (a n : ℕ) (xs : List ℕ) → count a (take n xs) + count a (drop n xs) ≡ count a xs
unfolding count
count-take-drop a zero xs = omega arith
count-take-drop a (suc n) [] = omega arith
count-take-drop a (suc n) (x ∷ xs) = omega (arith, count-take-drop a n xs)

pub count-range_below : (a lo n : ℕ) → a < lo → count a (range_from lo n) ≡ 0
unfolding count
count-range_below a lo zero h = refl
count-range_below a lo (suc n) h = ground (arith, count-range_below a (suc lo) n)

pub range-IsDistinct : (lo n : ℕ) → IsDistinct (range_from lo n)
unfolding count
range-IsDistinct lo zero a = omega arith
range-IsDistinct lo (suc n) a =
    ground (arith, range-IsDistinct (suc lo) n a, count-range_below a (suc lo) n)
