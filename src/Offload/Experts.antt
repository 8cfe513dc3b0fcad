-- ===== src/Offload/Experts.antt =====
-- The lists of experts: the routed ones, each once, and those of them that are missing.
use free_token_intel.Prelude.{
  ℕ, zero, suc, ◌+◌, ◌≤◌, ◌<◌, ◌≡◌, refl, ap, subst, inl, inr, Bool, true, not, List, [], ◌∷◌, ◌++◌,
  arith, ltb, ◌==◌, if◌then◌else◌, Bool-cases, ==_iff, length, select, range_from, count,
  IsDistinct, count-append,
}
use free_token_intel.Offload.{listed, first_uses, all_below}

count-select :
    (keep : ℕ → Bool) (x : ℕ) (xs : List ℕ)
    → count x (select keep xs) ≡ (if keep x then count x xs else 0)
unfolding count
count-select keep x [] = ground arith
count-select keep x (y ∷ ys) = elim (Bool-cases (y == x)) [
  | inl same ↦
      let e : keep y ≡ keep x = ap keep ((==_iff y x).0 same) in
      elim (Bool-cases (keep y)) [
        | inl yes_y ↦ ground (arith, e, yes_y, count-select keep x ys)
        | inr no_y ↦ ground (arith, e, no_y, count-select keep x ys)
      ]
  | inr other ↦ elim (Bool-cases (keep y)) [
    | inl yes_y ↦ ground (arith, yes_y, other, count-select keep x ys)
    | inr no_y ↦ ground (arith, no_y, other, count-select keep x ys)
  ]
]

-- What is selected is in the list and passes the test, and the other way round.
pub select-passes :
    (keep : ℕ → Bool) (x : ℕ) (xs : List ℕ)
    → 0 < count x (select keep xs)
    → (keep x ≡ true) × (0 < count x xs)
select-passes keep x xs h = elim (Bool-cases (keep x)) [
  | inl passes ↦ (passes, ground (arith, count-select keep x xs, passes, h))
  | inr fails ↦ absurd (ground (arith, count-select keep x xs, fails, h))
]

pub select-has :
    (keep : ℕ → Bool) (x : ℕ) (xs : List ℕ)
    → keep x ≡ true
    → 0 < count x xs
    → 0 < count x (select keep xs)
select-has keep x xs passes h = ground (arith, count-select keep x xs, passes)

pub select-IsDistinct :
    (keep : ℕ → Bool) (xs : List ℕ) → IsDistinct xs → IsDistinct (select keep xs)
select-IsDistinct keep xs d x = ground (arith, count-select keep x xs, d x)

pub select-split :
    (keep : ℕ → Bool) (xs : List ℕ)
    → length (select (λ x. not (keep x)) xs) + length (select keep xs) ≡ length xs
select-split keep [] = refl
select-split keep (x ∷ xs) = elim (Bool-cases (keep x)) [
  | inl passes ↦ rw passes (omega (arith, select-split keep xs))
  | inr fails ↦ rw fails (omega (arith, select-split keep xs))
]

-- Distinct numbers below `n` are at most `n`.
remove-length :
    (n : ℕ) (xs : List ℕ) → length (select (λ x. not (x == n)) xs) + count n xs ≡ length xs
unfolding count
remove-length n [] = refl
remove-length n (x ∷ xs) = elim (Bool-cases (x == n)) [
  | inl same ↦ rw same (omega (arith, remove-length n xs))
  | inr other ↦ rw other (omega (arith, remove-length n xs))
]

pub length-IsDistinct :
    (n : ℕ) (xs : List ℕ) → IsDistinct xs → ((x : ℕ) → 0 < count x xs → x < n) → length xs ≤ n
unfolding count
length-IsDistinct zero [] d h = omega arith
length-IsDistinct zero (x ∷ xs) d h = absurd (let z = h x (ground arith) in omega (arith, z))
length-IsDistinct (suc n) xs d h =
    let keep : ℕ → Bool = λ x. not (x == n) in
    let rest = length-IsDistinct n (select keep xs) (select-IsDistinct keep xs d) (λ x k.
      let (other, there) = select-passes keep x xs k in
      let low = h x there in ground (arith, other, low)) in
    omega (arith, rest, remove-length n xs, d n)

listed-count : (x : ℕ) (xs : List ℕ) → listed x xs ≡ ltb 0 (count x xs)
unfolding count
listed-count x [] = refl
listed-count x (y ∷ ys) = ground (arith, listed-count x ys)

-- `seen` has each routed expert once.
pub first_uses-IsDistinct : (seen xs : List ℕ) → IsDistinct seen → IsDistinct (first_uses seen xs)
unfolding first_uses count
first_uses-IsDistinct seen [] d = d
first_uses-IsDistinct seen (x ∷ xs) d = elim (Bool-cases (listed x seen)) [
  | inl old ↦ rw old (first_uses-IsDistinct seen xs d)
  | inr new ↦ rw new (
      first_uses-IsDistinct (seen ++ x ∷ []) xs
        (λ y. ground (arith, d y, count-append y seen (x ∷ []), listed-count x seen, new)))
]

pub first_uses-count :
    (seen xs : List ℕ) (y : ℕ) → 0 < count y seen + count y xs → 0 < count y (first_uses seen xs)
unfolding first_uses count
first_uses-count seen [] y h = omega (arith, h)
first_uses-count seen (x ∷ xs) y h = elim (Bool-cases (listed x seen)) [
  | inl old ↦ rw old (first_uses-count seen xs y (ground (arith, h, old, listed-count x seen)))
  | inr new ↦
      rw new
        (first_uses-count (seen ++ x ∷ []) xs y (omega (arith, h, count-append y seen (x ∷ []))))
]

pub first_uses-from :
    (seen xs : List ℕ) (y : ℕ) → 0 < count y (first_uses seen xs) → 0 < count y seen + count y xs
unfolding first_uses count
first_uses-from seen [] y h = omega (arith, h)
first_uses-from seen (x ∷ xs) y h = elim (Bool-cases (listed x seen)) [
  | inl old ↦
      let inner =
        first_uses-from seen xs y
          (subst (λ b. 0 < count y (first_uses (if b then seen else seen ++ x ∷ []) xs)) old h) in
      omega (arith, inner)
  | inr new ↦
      let inner =
        first_uses-from (seen ++ x ∷ []) xs y
          (subst (λ b. 0 < count y (first_uses (if b then seen else seen ++ x ∷ []) xs)) new h) in
      omega (arith, inner, count-append y seen (x ∷ []))
]

pub all_below_iff :
    (n : ℕ) (xs : List ℕ) → ((x : ℕ) → 0 < count x xs → x < n) → all_below n xs ≡ true
unfolding count
all_below_iff n [] h = refl
all_below_iff n (x ∷ xs) h =
    let here = h x (ground arith) in
    ground (arith, here, all_below_iff n xs (λ y k. h y (omega (arith, k))))

pub range-count : (x lo n : ℕ) → 0 < count x (range_from lo n) → (lo ≤ x) × (x < lo + n)
unfolding count
range-count x lo zero h = absurd (omega (arith, h))
range-count x lo (suc n) h = elim (Bool-cases (lo == x)) [
  | inl same ↦ ground (arith, same)
  | inr other ↦
      let (low, high) = range-count x (suc lo) n (ground (arith, other, h)) in
      (omega (arith, low), omega (arith, high))
]

pub range-has : (x lo n : ℕ) → lo ≤ x → x < lo + n → 0 < count x (range_from lo n)
unfolding count
range-has x lo zero h k = absurd (omega (arith, h, k))
range-has x lo (suc n) h k = elim (Bool-cases (lo == x)) [
  | inl same ↦ ground (arith, same)
  | inr other ↦ omega (arith, range-has x (suc lo) n (ground (arith, other, h)) (omega (arith, k)))
]
