-- ===== src/CacheManager.antt =====
-- python/freetoken/scheduler/cache.py: CacheManager on its radix cache, but for the tool-call anchors.
use free_token_intel.Prelude.{
  ℕ, ◌≤◌, ◌≡◌, refl, ap, ◌∙◌, inl, inr, true, false, Option, some, List, ◌++◌, Result, leb,
  Bool-cases, [], ◌∷◌, length, take, drop, length-append, length-take, length-drop, arith,
}
use free_token_intel.Align.{align_down, align_down-le}
use free_token_intel.Radix.{Handle, RadixCache, compare_key, match_prefix, insert_prefix}
use free_token_intel.Radix.Prefixes.{compare_key-take, align_down-IsAligned}
use free_token_intel.Radix.Locks.{get_matched_indices, lock_handle, size_info}
use free_token_intel.Radix.Insert.{merged}
use free_token_intel.Radix.View.{stored}
use free_token_intel.Radix.Cache.{IsCache, resident, insert_prefix-Inserted, match_prefix-resident}
use free_token_intel.Radix.Found.{match_prefix-get_matched_indices}
use free_token_intel.Radix.Handed.{insert_prefix-get_matched_indices}
use free_token_intel.Radix.Evict.{Heapq, evict}

-- `tic` is the clock's reading, and `now` that for a new node.
abbrev pub match_prompt : RadixCache → ℕ → List ℕ → RadixCache × ℕ × Handle
match_prompt c tic input_ids = match_prefix c tic input_ids

abbrev pub lock : RadixCache → Handle → Option (Result RadixCache)
lock c handle = lock_handle c handle false

abbrev pub unlock : RadixCache → Handle → Option (Result RadixCache)
unlock c handle = lock_handle c handle true

abbrev pub commit : RadixCache → ℕ → ℕ → List ℕ → List ℕ → RadixCache × ℕ × Handle
commit c tic now input_ids indices = insert_prefix c tic now input_ids indices

abbrev pub reclaim : Heapq → RadixCache → ℕ → Option (Result (RadixCache × List ℕ))
reclaim heapq c size = evict heapq c size

abbrev pub evictable_size : RadixCache → ℕ
evictable_size c = (size_info c).evictable_size

compare_key-append : (xs ys : List ℕ) → compare_key xs (xs ++ ys) ≡ length xs
unfolding compare_key
compare_key-append [] ys = refl
compare_key-append (x ∷ xs) ys = ground (arith, compare_key-append xs ys)

merged-le :
    (before found slots : List ℕ) (n : ℕ)
    → length slots ≡ n
    → n ≤ length (merged before found slots n)
merged-le before found slots n e = elim (Bool-cases (leb n (length before))) [
  | inl covered ↦ rw covered (ground (arith, covered))
  | inr less ↦
      let whole = found ++ drop (length found) slots in
      rw less (
        omega (
          arith,
          length-take n whole,
          length-append found (drop (length found) slots),
          length-drop (length found) slots,
          e,
        ))
]

-- The handle of a commit gives the slots of its whole pages: those that were resident before, and the
-- request's own behind them. A prompt that begins with a committed request matches at least its whole pages. The slots of its
-- handle are those that were resident of it before, where these cover the committed pages; else they are
-- the slots of the committed pages that were resident before, and the request's own behind them.
pub commit-match_prompt :
    (c : RadixCache) (tic now later : ℕ) (input_ids indices more : List ℕ)
    → IsCache c
    → length indices ≡ length input_ids
    → let n = align_down (length input_ids) c.page_size in
      let r = commit c tic now input_ids indices in
      let m = match_prompt r.0 later (input_ids ++ more) in
      let old = resident c (take n input_ids) in
      (get_matched_indices r.0 r.2 ≡ some (old ++ drop (length old) (take n indices)))
      × (slots : List ℕ) × (get_matched_indices m.0 m.2 ≡ some slots)
      × (m.1 ≡ length slots)
      × (n ≤ m.1)
      × (slots ≡ merged (resident c (input_ids ++ more)) old (take n indices) n)
commit-match_prompt c tic now later input_ids indices more v paired =
    let n = align_down (length input_ids) c.page_size in
    let y = input_ids ++ more in
    let d = (commit c tic now input_ids indices).0 in
    let low = align_down-le (length input_ids) c.page_size in
    let ins = insert_prefix-Inserted c tic now input_ids indices v paired in
    let found = match_prefix-get_matched_indices d later y ins.sound in
    let matched = match_prefix-resident d later y ins.sound in
    let begins : compare_key (take n input_ids) y ≡ n =
      omega (arith, compare_key-take n input_ids y, compare_key-append input_ids more, low) in
    let common : align_down (compare_key (take n input_ids) y) c.page_size ≡ n =
      ap (λ k. align_down k c.page_size) begins
      ∙ align_down-IsAligned (length input_ids) c.page_size in
    let now_there : resident d y
        ≡ merged (resident c y) (resident c (take n input_ids)) (take n indices) n =
      ap (λ p. stored p d.root y) ins.same_pages
      ∙ ins.merges y
      ∙ ap (λ k. merged (resident c y) (resident c (take n input_ids)) (take n indices) k) common in
    let size : length (take n indices) ≡ n = omega (arith, length-take n indices, paired, low) in
    let enough = merged-le (resident c y) (resident c (take n input_ids)) (take n indices) n size in
    (
      (insert_prefix-get_matched_indices c tic now input_ids indices v paired).0,
      resident d y,
      found.0,
      matched.1,
      omega (arith, matched.1, ap length now_there, enough),
      now_there,
    )
