-- ===== src/Prelude/Sorting.antt =====
-- `list.sort` on integers: the sorted rearrangement of a list, by insertion.
use Prim.Native.Nat.{ℕ, zero, suc, ◌+◌, ◌≤◌, ◌<◌}
use mathlib.Core.List.{List, [], ◌∷◌}
use mathlib.Core.Path.{◌≡◌, refl}
use native.Mathlib.Omega.{arith}
use free_token_intel.Prelude.Tests.{if◌then◌else◌, leb}
use free_token_intel.Prelude.Lists.{length, drop, range_from}
use free_token_intel.Prelude.Counts.{count, SameItems}

unfoldable pub insert : ℕ → List ℕ → List ℕ
insert x [] = x ∷ []
insert x (y ∷ ys) = if leb x y then x ∷ y ∷ ys else y ∷ insert x ys

unfoldable pub sort : List ℕ → List ℕ
unfolding insert
sort [] = []
sort (x ∷ xs) = insert x (sort xs)

count-insert : (a x : ℕ) (ys : List ℕ) → count a (insert x ys) ≡ count a (x ∷ ys)
unfolding insert count
count-insert a x [] = refl
count-insert a x (y ∷ ys) = ground (arith, count-insert a x ys)

-- Sorting keeps the items.
pub count-sort : (a : ℕ) (xs : List ℕ) → count a (sort xs) ≡ count a xs
unfolding sort count
count-sort a [] = refl
count-sort a (x ∷ xs) = ground (arith, count-sort a xs, count-insert a x (sort xs))

length-insert : (x : ℕ) (ys : List ℕ) → length (insert x ys) ≡ 1 + length ys
unfolding insert
length-insert x [] = refl
length-insert x (y ∷ ys) = ground (arith, length-insert x ys)

pub length-sort : (xs : List ℕ) → length (sort xs) ≡ length xs
unfolding sort
length-sort [] = refl
length-sort (x ∷ xs) = omega (arith, length-sort xs, length-insert x (sort xs))

-- Every element is at least `lo`, and they do not fall.
abbrev pub RisesFrom : ℕ → List ℕ → Type 0
RisesFrom lo [] = Unit {0}
RisesFrom lo (x ∷ xs) = (lo ≤ x) × RisesFrom x xs

abbrev pub IsSorted : List ℕ → Type 0
IsSorted xs = RisesFrom 0 xs

insert-RisesFrom : (x lo : ℕ) (ys : List ℕ) → lo ≤ x → RisesFrom lo ys → RisesFrom lo (insert x ys)
unfolding insert
insert-RisesFrom x lo [] h r = (h, tt)
insert-RisesFrom x lo (y ∷ ys) h r = ground (arith, insert-RisesFrom x y ys)

pub sort-IsSorted : (xs : List ℕ) → IsSorted (sort xs)
unfolding sort
sort-IsSorted [] = tt
sort-IsSorted (x ∷ xs) = insert-RisesFrom x 0 (sort xs) (omega arith) (sort-IsSorted xs)

count-RisesFrom_below : (a lo : ℕ) (xs : List ℕ) → RisesFrom lo xs → a < lo → count a xs ≡ 0
unfolding count
count-RisesFrom_below a lo [] r h = refl
count-RisesFrom_below a lo (x ∷ xs) r h = ground (arith, count-RisesFrom_below a x xs r.1)

heads-eq :
    (x y lo : ℕ) (xs ys : List ℕ)
    → RisesFrom lo (x ∷ xs)
    → RisesFrom lo (y ∷ ys)
    → SameItems (x ∷ xs) (y ∷ ys)
    → x ≡ y
unfolding count
heads-eq x y lo xs ys r s h =
    ground (arith, h x, h y, count-RisesFrom_below x y ys s.1, count-RisesFrom_below y x xs r.1)

-- A sorted list is determined by its items.
pub RisesFrom-unique :
    (lo : ℕ) (xs ys : List ℕ) → RisesFrom lo xs → RisesFrom lo ys → SameItems xs ys → xs ≡ ys
unfolding count
RisesFrom-unique lo [] [] r s h = refl
RisesFrom-unique lo [] (y ∷ ys) r s h = absurd (ground (arith, h y))
RisesFrom-unique lo (x ∷ xs) [] r s h = absurd (ground (arith, h x))
RisesFrom-unique lo (x ∷ xs) (y ∷ ys) r s h =
    let e = heads-eq x y lo xs ys r s h in
    let tails = RisesFrom-unique x xs ys r.1 (rw e s.1) (λ a. ground (arith, h a, e)) in
    cc (e, tails)

-- Sorting any rearrangement of a sorted list gives that list back.
pub sort_restores : (xs ys : List ℕ) → IsSorted ys → SameItems xs ys → sort xs ≡ ys
sort_restores xs ys s h =
    RisesFrom-unique 0 (sort xs) ys (sort-IsSorted xs) s (λ a. omega (arith, count-sort a xs, h a))

RisesFrom-lower : {lo x : ℕ} (ys : List ℕ) → lo ≤ x → RisesFrom x ys → RisesFrom lo ys
RisesFrom-lower [] h r = tt
RisesFrom-lower (y ∷ ys) h r = (omega arith, r.1)

pub RisesFrom-drop : (n lo : ℕ) (xs : List ℕ) → RisesFrom lo xs → RisesFrom lo (drop n xs)
RisesFrom-drop zero lo xs r = r
RisesFrom-drop (suc n) lo [] r = tt
RisesFrom-drop (suc n) lo (x ∷ xs) r = RisesFrom-lower (drop n xs) r.0 (RisesFrom-drop n x xs r.1)

range-RisesFrom : (lo n : ℕ) → RisesFrom lo (range_from lo n)
range-RisesFrom lo zero = tt
range-RisesFrom lo (suc n) = (
  omega arith,
  RisesFrom-lower (range_from (suc lo) n) (omega arith) (range-RisesFrom (suc lo) n),
)

pub range-IsSorted : (lo n : ℕ) → IsSorted (range_from lo n)
range-IsSorted lo n = RisesFrom-lower (range_from lo n) (omega arith) (range-RisesFrom lo n)
