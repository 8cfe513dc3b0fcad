-- ===== src/Radix/Shared.antt =====
-- What two prompts that begin alike are matched with.
use free_token_intel.Prelude.{ℕ, ◌≤◌, min, ap, List, length, arith}
use free_token_intel.Align.{align_down}
use free_token_intel.Radix.{RadixCache, compare_key, match_prefix}
use free_token_intel.Radix.Closed.{stored_closed}
use free_token_intel.Radix.Cache.{IsCache, match_prefix-resident}

-- In a well-formed cache, a prompt that is matched after another one is found at least as far as the
-- other was found, up to the whole pages in which the two begin alike.
pub match_prefix-shared :
    (c : RadixCache) (tic later : ℕ) (x y : List ℕ)
    → IsCache c
    → let m = match_prefix c tic x in
      min m.1 (align_down (compare_key x y) c.page_size) ≤ (match_prefix m.0 later y).1
match_prefix-shared c tic later x y v =
    let (same, found, whole, short, sound) = match_prefix-resident c tic x v in
    let (same_later, found_later, whole_later, short_later, sound_later) =
      match_prefix-resident (match_prefix c tic x).0 later y sound in
    omega (
      arith,
      found,
      found_later,
      ap length (same y),
      stored_closed c.page_size v.pages c.root x y v.tree,
    )
