-- ===== src/Examples/Radix.antt =====
-- A radix cache on pages of two tokens with two prompts in it that share a page, and a heap as a list.
use free_token_intel.Prelude.{
  ℕ, ◌++◌, ◌≤◌, min, ◌≡◌, ◌↔◌, ◌<◌, refl, ap, ◌∙◌, inl, inr, true, false, Option, none, some, List,
  [], ◌∷◌, arith, ltb, if◌then◌else◌, Bool-cases, assertion_error, Result, ok, raise, length, count,
  SameItems,
}
use free_token_intel.Align.{align_down}
use free_token_intel.Radix.{
  Handle, RadixCache, compare_key, same_tokens, same_page, split_at, tree_walk, add_child, attach,
  empty_cache, match_prefix, insert_prefix,
}
use free_token_intel.Radix.View.{stored}
use free_token_intel.Radix.Shared.{match_prefix-shared}
use free_token_intel.Radix.Locks.{
  path_value, get_matched_indices, size_info, count_lock, lock_path, lock_handle,
}
use free_token_intel.Radix.Cache.{resident, Inserted, match_prefix-resident, insert_prefix-Inserted}
use free_token_intel.Radix.Locking.{IsLedger, IsOn, Locked, lock_handle-Locked, lock_handle-unlock}
use free_token_intel.Radix.Found.{match_prefix-get_matched_indices}
use free_token_intel.CacheManager.{match_prompt, commit, commit-match_prompt}
use free_token_intel.Radix.Evict.{
  Heapq, IsHeapq, collect_leave_nodes, find_leaf, timestamp_of, del_child, exposed, push_all,
  take_leaf, evict_one, evict_loop, nodes, evict, reset,
}
use free_token_intel.Radix.Evicted.{Evicts, evict-Evicts, evict_raises_iff}
use free_token_intel.Radix.Reach.{no_locks, Step, Reach, Reach-IsLedger}

program : Unit {0}
unfolding align_down compare_key same_tokens same_page split_at tree_walk add_child attach
    empty_cache match_prefix insert_prefix stored path_value get_matched_indices size_info
    count_lock lock_path lock_handle collect_leave_nodes find_leaf timestamp_of del_child exposed
    push_all take_leaf evict_one evict_loop nodes evict reset count
program = tt

-- A list as a heap: the least item is found when it is popped.
abbrev least : (ℕ → ℕ) → ℕ → Option (ℕ × List ℕ) → Option (ℕ × List ℕ)
least t x none = some (x, [])
least t x (some (y, ys)) = if ltb (t y) (t x) then some (y, x ∷ ys) else some (x, y ∷ ys)

abbrev pop_least : (ℕ → ℕ) → List ℕ → Option (ℕ × List ℕ)
pop_least t [] = none
pop_least t (x ∷ xs) = least t x (pop_least t xs)

abbrev list_heap : Heapq
list_heap = record { heapify = λ t xs. xs; heappush = λ t xs x. x ∷ xs; heappop = pop_least }

pop_least-SameItems :
    (t : ℕ → ℕ) (x : ℕ) (xs : List ℕ)
    → (p : ℕ) × (rest : List ℕ) × (pop_least t (x ∷ xs) ≡ some (p, rest))
      × SameItems (p ∷ rest) (x ∷ xs)
unfolding count
pop_least-SameItems t x [] = (x, [], refl, λ a. refl)
pop_least-SameItems t x (z ∷ zs) =
    let (y, ys, e, same) = pop_least-SameItems t z zs in
    elim (Bool-cases (ltb (t y) (t x))) [
      | inl lower ↦ (y, x ∷ ys, ap (least t x) e ∙ rw lower refl, λ a. omega (arith, same a))
      | inr other ↦ (x, y ∷ ys, ap (least t x) e ∙ rw other refl, λ a. omega (arith, same a))
    ]

list_heap-IsHeapq : IsHeapq list_heap
list_heap-IsHeapq = record {
  heapified = λ t xs a. refl;
  pushed = λ t xs x a. refl;
  popped = pop_least-SameItems;
}

abbrev first_ids : List ℕ
first_ids = 1 ∷ 2 ∷ 3 ∷ 4 ∷ []

abbrev second_ids : List ℕ
second_ids = 1 ∷ 2 ∷ 5 ∷ 6 ∷ 7 ∷ []

abbrev first_slots : List ℕ
first_slots = 10 ∷ 11 ∷ 12 ∷ 13 ∷ []

abbrev second_slots : List ℕ
second_slots = 20 ∷ 21 ∷ 22 ∷ 23 ∷ 24 ∷ []

abbrev new_cache : RadixCache
new_cache = empty_cache 2 0

abbrev one_prompt : RadixCache
one_prompt = (insert_prefix new_cache 1 1 first_ids first_slots).0

abbrev two_prompts : RadixCache
two_prompts = (insert_prefix one_prompt 2 2 second_ids second_slots).0

-- The second prompt reuses the first page; its last token fills no page.
two_prompts_hold :
    (resident two_prompts first_ids ≡ first_slots)
    × (resident two_prompts second_ids ≡ 10 ∷ 11 ∷ 22 ∷ 23 ∷ [])
    × (two_prompts.evictable_size ≡ 6)
unfolding program
two_prompts_hold = (refl, refl, refl)

reach_one : Reach list_heap 2 one_prompt no_locks
reach_one =
    Reach.next new_cache one_prompt no_locks no_locks (Reach.begin 0)
      (Step.inserts new_cache no_locks 1 1 first_ids first_slots refl)

reach_two : Reach list_heap 2 two_prompts no_locks
reach_two =
    Reach.next one_prompt two_prompts no_locks no_locks reach_one
      (Step.inserts one_prompt no_locks 2 2 second_ids second_slots refl)

Reach-IsLedger_example : IsLedger no_locks two_prompts
Reach-IsLedger_example =
    Reach-IsLedger list_heap list_heap-IsHeapq 2 two_prompts no_locks (ground arith) reach_two

one-IsLedger : IsLedger no_locks one_prompt
one-IsLedger =
    Reach-IsLedger list_heap list_heap-IsHeapq 2 one_prompt no_locks (ground arith) reach_one

two-IsLedger : IsLedger no_locks two_prompts
two-IsLedger =
    Reach-IsLedger list_heap list_heap-IsHeapq 2 two_prompts no_locks (ground arith) reach_two

insert_prefix-Inserted_example :
    Inserted one_prompt
      (1 ∷ 2 ∷ 5 ∷ 6 ∷ [])
      (20 ∷ 21 ∷ 22 ∷ 23 ∷ [])
      two_prompts
      2
      (record { cached_len = 4; node = some 3 })
unfolding program
insert_prefix-Inserted_example =
    insert_prefix-Inserted one_prompt 2 2 second_ids second_slots one-IsLedger.cache refl

-- The second prompt is committed, and a longer one is matched.
commit-match_prompt_example :
    let r = commit one_prompt 2 2 second_ids second_slots in
    let m = match_prompt r.0 3 (second_ids ++ 7 ∷ 8 ∷ []) in
    (get_matched_indices r.0 r.2 ≡ some (10 ∷ 11 ∷ 22 ∷ 23 ∷ []))
    × (slots : List ℕ) × (get_matched_indices m.0 m.2 ≡ some slots)
    × (m.1 ≡ length slots)
    × (4 ≤ m.1)
    × (slots ≡ 10 ∷ 11 ∷ 22 ∷ 23 ∷ [])
unfolding program
commit-match_prompt_example =
    commit-match_prompt one_prompt 2 2 3 second_ids second_slots (7 ∷ 8 ∷ []) one-IsLedger.cache
      refl

match_prefix-resident_example :
    (match_prefix two_prompts 3 (1 ∷ 2 ∷ 5 ∷ 9 ∷ [])).1
    ≡ length (resident two_prompts (1 ∷ 2 ∷ 5 ∷ 9 ∷ []))
match_prefix-resident_example =
    (match_prefix-resident two_prompts 3 (1 ∷ 2 ∷ 5 ∷ 9 ∷ []) two-IsLedger.cache).1

match_prefix-get_matched_indices_example :
    let m = match_prefix two_prompts 3 second_ids in
    (get_matched_indices m.0 m.2 ≡ some (resident two_prompts second_ids)) × IsOn m.2 m.0
match_prefix-get_matched_indices_example =
    match_prefix-get_matched_indices two_prompts 3 second_ids two-IsLedger.cache

abbrev handle : Handle
handle = record { cached_len = 4; node = some 1 }

handle-IsOn : IsOn handle two_prompts
unfolding program
handle-IsOn p e = ground (arith, e)

lock_handle-Locked_example : Locked two_prompts handle false no_locks
lock_handle-Locked_example =
    lock_handle-Locked false two_prompts handle no_locks handle-IsOn two-IsLedger

lock_handle-unlock_example :
    (d : RadixCache) × (lock_handle two_prompts handle false ≡ some (ok d))
    × (lock_handle d handle true ≡ some (ok two_prompts))
lock_handle-unlock_example = lock_handle-unlock two_prompts handle no_locks handle-IsOn two-IsLedger

evict-Evicts_example : Evicts list_heap two_prompts no_locks 3
unfolding program
evict-Evicts_example =
    evict-Evicts list_heap list_heap-IsHeapq two_prompts no_locks two-IsLedger 3 (ground arith)

evict_raises_iff_example :
    (evict list_heap two_prompts 7 ≡ some (raise assertion_error))
    ↔ (two_prompts.evictable_size < 7)
evict_raises_iff_example =
    evict_raises_iff list_heap list_heap-IsHeapq two_prompts no_locks two-IsLedger 7

abbrev slots_returned : Option (Result (RadixCache × List ℕ)) → List ℕ
slots_returned none = []
slots_returned (some (raise e)) = []
slots_returned (some (ok (c, slots))) = slots

-- The oldest leaf goes first, then the next; the shared page stays.
evict_runs : slots_returned (evict list_heap two_prompts 3) ≡ 12 ∷ 13 ∷ 22 ∷ 23 ∷ []
unfolding program
evict_runs = refl

match_prefix-shared_example :
    let m = match_prefix two_prompts 3 first_ids in
    min m.1 (align_down (compare_key first_ids second_ids) 2) ≤ (match_prefix m.0 4 second_ids).1
unfolding program
match_prefix-shared_example =
    match_prefix-shared two_prompts 3 4 first_ids second_ids two-IsLedger.cache
