-- ===== src/Radix/Reach.antt =====
-- Any sequence of calls of a radix cache by clients that lock the handles they were given, give back
-- only locks that they hold, and reset a cache without locks.
use free_token_intel.Prelude.{
  ℕ, ◌≤◌, ◌<◌, ◌≡◌, refl, sym, subst, ◌∙◌, true, false, some, List, arith, ok, length, count,
}
use free_token_intel.Radix.{Handle, RadixCache, empty_cache, match_prefix, insert_prefix}
use free_token_intel.Radix.Locks.{size_info, lock_handle}
use free_token_intel.Radix.Ledger.{Locks}
use free_token_intel.Radix.Locking.{IsLedger, lock_on, IsOn, lock_handle-Locked}
use free_token_intel.Radix.Held.{match_prefix-IsLedger, insert_prefix-IsLedger}
use free_token_intel.Radix.Evict.{Heapq, IsHeapq, evict, reset}
use free_token_intel.Radix.Evicted.{evict-Evicts}

abbrev pub no_locks : Locks
no_locks u = 0

-- One call that comes back, with the locks before and after it.
pub data Step (h : Heapq) : RadixCache → Locks → RadixCache → Locks → Type 0 where
  matches :
      (c : RadixCache) (held : Locks) (tic : ℕ) (input : List ℕ)
      → Step h c held (match_prefix c tic input).0 held
  inserts :
      (c : RadixCache) (held : Locks) (tic now : ℕ) (input_ids indices : List ℕ)
      → length indices ≡ length input_ids
      → Step h c held (insert_prefix c tic now input_ids indices).0 held
  locks :
      (c d : RadixCache) (held : Locks) (handle : Handle)
      → IsOn handle c
      → lock_handle c handle false ≡ some (ok d)
      → Step h c held d (lock_on handle held)
  unlocks :
      (c d : RadixCache) (held : Locks) (handle : Handle)
      → IsOn handle c
      → lock_handle c handle true ≡ some (ok d)
      → Step h c (lock_on handle held) d held
  evicts :
      (c d : RadixCache) (held : Locks) (size : ℕ) (slots : List ℕ)
      → size ≤ c.evictable_size
      → evict h c size ≡ some (ok (d, slots))
      → Step h c held d held
  resets : (c : RadixCache) → Step h c no_locks (reset c) no_locks

pub data Reach (h : Heapq) (page_size : ℕ) : RadixCache → Locks → Type 0 where
  begin : (uuid : ℕ) → Reach h page_size (empty_cache page_size uuid) no_locks
  next :
      (c d : RadixCache) (held held' : Locks)
      → Reach h page_size c held
      → Step h c held d held'
      → Reach h page_size d held'

empty_cache-IsLedger :
    (page_size uuid : ℕ) → 0 < page_size → IsLedger no_locks (empty_cache page_size uuid)
unfolding empty_cache size_info count
empty_cache-IsLedger page_size uuid pos = record {
  cache = record {
    pages = pos;
    tree = tt;
    named = record { once = λ x. omega arith; old = λ x h. refl };
  };
  counted = tt;
  sized = record { free = refl; held = refl };
  placed = λ u h. refl;
}

same_result : {A : Type 0} (a b : A) → some (ok a) ≡ some (ok b) → a ≡ b
same_result a b e = cc

module _ (h : Heapq) (laws : IsHeapq h) where
  Step-IsLedger :
      (c d : RadixCache) (held held' : Locks)
      → Step h c held d held'
      → IsLedger held c
      → IsLedger held' d
  unfolding reset
  Step-IsLedger _ _ _ _ (Step.matches c held tic input) v = match_prefix-IsLedger held c tic input v
  Step-IsLedger _ _ _ _ (Step.inserts c held tic now input_ids indices paired) v =
      insert_prefix-IsLedger held c tic now input_ids indices v paired
  Step-IsLedger _ _ _ _ (Step.locks c d held handle on e) v =
      let w = lock_handle-Locked false c handle held on v in
      subst (IsLedger (lock_on handle held)) (same_result w.out d (sym w.runs ∙ e)) w.ledger
  Step-IsLedger _ _ _ _ (Step.unlocks c d held handle on e) v =
      let w = lock_handle-Locked true c handle held on v in
      subst (IsLedger held) (same_result w.out d (sym w.runs ∙ e)) w.ledger
  Step-IsLedger _ _ _ _ (Step.evicts c d held size slots le e) v =
      let w = evict-Evicts h laws c held v size le in
      subst (λ r. IsLedger held r.0) (same_result (w.out, w.slots) (d, slots) (sym w.runs ∙ e))
        w.ledger
  Step-IsLedger _ _ _ _ (Step.resets c) v =
      empty_cache-IsLedger c.page_size c.next_uuid v.cache.pages

  -- After any calls on a new cache with pages of at least one token: the tree consists of whole pages
  -- with a slot for each token, its nodes are distinct, the reference count of each is the number of
  -- the locks held on it or below it, the two sizes are the summed lengths of the unlocked and of the
  -- locked nodes, and every node that is locked is still in the tree.
  pub Reach-IsLedger :
      (page_size : ℕ) (c : RadixCache) (held : Locks)
      → 0 < page_size
      → Reach h page_size c held
      → IsLedger held c
  Reach-IsLedger page_size _ _ pos (Reach.begin uuid) = empty_cache-IsLedger page_size uuid pos
  Reach-IsLedger page_size _ _ pos (Reach.next c d held held' r s) =
      Step-IsLedger c d held held' s (Reach-IsLedger page_size c held pos r)
