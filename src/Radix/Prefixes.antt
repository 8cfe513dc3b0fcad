-- ===== src/Radix/Prefixes.antt =====
-- Common prefixes of lists, and their whole pages.
use free_token_intel.Prelude.{
  ℕ, zero, suc, ◌+◌, ◌-◌, ◌*◌, ◌/◌, ◌≤◌, ◌<◌, min, ◌≡◌, refl, List, [], ◌∷◌, arith, leb, length,
  take, drop,
}
use free_token_intel.Align.{align_down, align_down-le, lt-align_down}
use free_token_intel.Radix.{compare_key, same_tokens, same_page}

pub compare_key-le_left : (xs ys : List ℕ) → compare_key xs ys ≤ length xs
unfolding compare_key
compare_key-le_left [] ys = omega arith
compare_key-le_left (x ∷ xs) [] = omega arith
compare_key-le_left (x ∷ xs) (y ∷ ys) = ground (arith, compare_key-le_left xs ys)

pub compare_key-le_right : (xs ys : List ℕ) → compare_key xs ys ≤ length ys
unfolding compare_key
compare_key-le_right [] ys = omega arith
compare_key-le_right (x ∷ xs) [] = omega arith
compare_key-le_right (x ∷ xs) (y ∷ ys) = ground (arith, compare_key-le_right xs ys)

pub compare_key-drop :
    (m : ℕ) (xs ys : List ℕ)
    → m ≤ compare_key xs ys
    → compare_key (drop m xs) (drop m ys) ≡ compare_key xs ys - m
unfolding compare_key
compare_key-drop zero xs ys h = omega arith
compare_key-drop (suc m) [] ys h = absurd (omega arith)
compare_key-drop (suc m) (x ∷ xs) [] h = absurd (omega arith)
compare_key-drop (suc m) (x ∷ xs) (y ∷ ys) h = ground (arith, compare_key-drop m xs ys)

pub compare_key-take :
    (m : ℕ) (xs ys : List ℕ) → compare_key (take m xs) ys ≡ min m (compare_key xs ys)
unfolding compare_key
compare_key-take zero xs ys = omega arith
compare_key-take (suc m) [] ys = omega arith
compare_key-take (suc m) (x ∷ xs) [] = omega arith
compare_key-take (suc m) (x ∷ xs) (y ∷ ys) = ground (arith, compare_key-take m xs ys)

-- Where two lists leave a third decides where they leave each other.
pub compare_key_ultra :
    (ks xs ys : List ℕ)
    → compare_key ks ys < compare_key ks xs
    → compare_key xs ys ≡ compare_key ks ys
unfolding compare_key
compare_key_ultra [] xs ys h = absurd (omega arith)
compare_key_ultra (k ∷ ks) [] ys h = absurd (omega arith)
compare_key_ultra (k ∷ ks) (x ∷ xs) [] h = omega arith
compare_key_ultra (k ∷ ks) (x ∷ xs) (y ∷ ys) h = ground (arith, compare_key_ultra ks xs ys)

pub compare_key_comm : (xs ys : List ℕ) → compare_key xs ys ≡ compare_key ys xs
unfolding compare_key
compare_key_comm [] [] = refl
compare_key_comm [] (y ∷ ys) = refl
compare_key_comm (x ∷ xs) [] = refl
compare_key_comm (x ∷ xs) (y ∷ ys) = ground (arith, compare_key_comm xs ys)

pub compare_key_both :
    (m : ℕ) (ks xs ys : List ℕ)
    → m ≤ compare_key ks xs
    → m ≤ compare_key ks ys
    → compare_key xs ys ≡ m + compare_key (drop m xs) (drop m ys)
unfolding compare_key
compare_key_both zero ks xs ys h k = omega arith
compare_key_both (suc m) [] xs ys h k = absurd (omega arith)
compare_key_both (suc m) (q ∷ ks) [] ys h k = absurd (omega arith)
compare_key_both (suc m) (q ∷ ks) (x ∷ xs) [] h k = absurd (omega arith)
compare_key_both (suc m) (q ∷ ks) (x ∷ xs) (y ∷ ys) h k =
    ground (arith, compare_key_both m ks xs ys)

-- Two lists have the same first page, the first being that long, exactly if they agree on it.
pub same_page-compare_key :
    (page_size : ℕ) (xs ys : List ℕ)
    → page_size ≤ length xs
    → same_page page_size xs ys ≡ leb page_size (compare_key xs ys)
unfolding same_page same_tokens compare_key
same_page-compare_key zero xs ys h = ground arith
same_page-compare_key (suc n) [] ys h = absurd (omega arith)
same_page-compare_key (suc n) (x ∷ xs) [] h = ground arith
same_page-compare_key (suc n) (x ∷ xs) (y ∷ ys) h = ground (arith, same_page-compare_key n xs ys)

-- A length of whole pages.
abbrev pub IsAligned : ℕ → ℕ → Type 0
IsAligned page_size n = align_down n page_size ≡ n

pub align_down-IsAligned : (n page_size : ℕ) → IsAligned page_size (align_down n page_size)
unfolding align_down
align_down-IsAligned n page_size = grind arith

div_unique : (a b x : ℕ) → a * b ≤ x → x < a * b + b → x / b ≡ a
div_unique a b x h k = grind arith

pub align_down-add :
    (page_size m n : ℕ)
    → 0 < page_size
    → IsAligned page_size m
    → align_down (m + n) page_size ≡ m + align_down n page_size
unfolding align_down
align_down-add page_size m n pos a =
    let q = m / page_size in
    let d = n / page_size in
    let low : d * page_size ≤ n = align_down-le n page_size in
    let high : n < d * page_size + page_size = lt-align_down n page_size pos in
    let split : (q + d) * page_size ≡ q * page_size + d * page_size = grind arith in
    let e : (m + n) / page_size ≡ q + d =
      div_unique (q + d) page_size (m + n) (omega arith) (omega arith) in
    rw e (omega arith)

pub align_down_mono : (page_size m n : ℕ) → m ≤ n → align_down m page_size ≤ align_down n page_size
unfolding align_down
align_down_mono page_size m n h = grind arith

pub align_down_small : (page_size n : ℕ) → n < page_size → align_down n page_size ≡ 0
unfolding align_down
align_down_small page_size n h = grind arith

pub align_down_page : (page_size n : ℕ) → page_size ≤ n → page_size ≤ align_down n page_size
unfolding align_down
align_down_page page_size n h = grind arith
