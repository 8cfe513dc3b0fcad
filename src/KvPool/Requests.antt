-- ===== src/KvPool/Requests.antt =====
-- What a request gets from the pool, and when it gets nothing.
use free_token_intel.Prelude.{
  ℕ, ◌+◌, ◌-◌, ◌*◌, ◌≤◌, ◌<◌, ◌≡◌, ◌↔◌, true, false, Option, some, List, [], ◌∷◌, ◌++◌, arith,
  value_error, runtime_error, ok, raise, length, take, drop, length-take, count, SameItems,
  IsDistinct, count-append, count-take-drop, count-range_below, range-IsDistinct, IsSorted,
  sort_restores,
}
use free_token_intel.Prelude.Dict.{Dict, lookup, contains, store, delete, lookup-store}
use free_token_intel.KvPool.{Pool, allocate, free, is_allocated, allocated_slots}
use free_token_intel.KvPool.Conservation.{
  World, Reach, start, held, slots_of, need, allocate-Allocates, count-allocate, Reach-IsSound,
  start-IsSound,
}

-- In any reachable pool, the slots that `allocate` hands out are as many as the pages need, none of
-- them is the padding slot or a number past the pool, no slot is handed out twice, and none is
-- still free, held by any request of before, or owned by the prefix tree.
pub allocate_isolated :
    (page_size num_pages : ℕ) {w : World} (req_id : ℕ) (pages : Option ℕ) {q : Pool}
    {slots : List ℕ}
    → Reach (start page_size num_pages) w
    → allocate w.pool req_id pages ≡ ok (q, slots)
    → (length slots ≡ need w.pool pages)
      × ((a : ℕ)
          → count a slots
              + count a q.free_slots
              + count a (held w.pool.alloc)
              + count a w.tree_owned
            ≡ count a (slots_of (num_pages * page_size)))
      × IsDistinct slots
      × (count 0 slots ≡ 0)
allocate_isolated page_size num_pages {w} req_id pages {q} {slots} r done =
    let h = allocate-Allocates w.pool req_id pages done in
    let v = Reach-IsSound r (start-IsSound page_size num_pages) in
    let top = num_pages * page_size - 1 in
    (
      rw h.front (omega (arith, length-take (need w.pool pages) w.pool.free_slots, h.room)),
      λ a. omega (arith, v.owned a, count-allocate a h),
      λ a. omega (arith, v.owned a, count-allocate a h, range-IsDistinct 1 top a),
      omega (arith, v.owned 0, count-allocate 0 h, count-range_below 0 1 top (omega arith)),
    )

-- `allocate` raises a ValueError exactly for a request that already holds slots, a RuntimeError
-- exactly when a new request needs more slots than are free, and succeeds otherwise.
pub allocate_outcome :
    (p : Pool) (req_id : ℕ) (pages : Option ℕ)
    → ((is_allocated p req_id ≡ true) ↔ (allocate p req_id pages ≡ raise value_error))
      × (((is_allocated p req_id ≡ false) × (length p.free_slots < need p pages))
          ↔ (allocate p req_id pages ≡ raise runtime_error))
      × (((is_allocated p req_id ≡ false) × (need p pages ≤ length p.free_slots))
          ↔ ((q : Pool) × (slots : List ℕ) × (allocate p req_id pages ≡ ok (q, slots))))
unfolding allocate is_allocated
allocate_outcome p req_id pages = (
  (λ h. ground arith, λ h. ground arith),
  (λ h. ground arith, λ h. ground arith),
  (
    λ h. (
      record p {
        free_slots = drop (need p pages) p.free_slots;
        alloc = store req_id (take (need p pages) p.free_slots) p.alloc;
      },
      take (need p pages) p.free_slots,
      ground arith,
    ),
    λ h. ground arith,
  ),
)

delete-store :
    (k : ℕ) (s : List ℕ) (d : Dict (List ℕ)) → contains k d ≡ false → delete k (store k s d) ≡ d
unfolding contains store delete
delete-store k s [] h = ground arith
delete-store k s ((j, t) ∷ d) h = ground (arith, delete-store k s d)

lookup-store_self : (k : ℕ) (s : List ℕ) (d : Dict (List ℕ)) → lookup k (store k s d) ≡ some s
lookup-store_self k s d = ground (arith, lookup-store k k s d)

abbrev booked : Pool → ℕ → ℕ → Pool
booked p k n = record p {
  free_slots = drop n p.free_slots;
  alloc = store k (take n p.free_slots) p.alloc;
}

free-booked :
    (p : Pool) (k n : ℕ)
    → IsSorted p.free_slots
    → contains k p.alloc ≡ false
    → free (booked p k n) k ≡ p
unfolding free
free-booked p k n s fresh =
    rw (lookup-store_self k (take n p.free_slots) p.alloc, free)
      (ground (
        arith,
        delete-store k (take n p.free_slots) p.alloc fresh,
        sort_restores (drop n p.free_slots ++ take n p.free_slots) p.free_slots s same,
      ))
  where
    same : SameItems (drop n p.free_slots ++ take n p.free_slots) p.free_slots
    same a = omega (
      arith,
      count-append a (drop n p.free_slots) (take n p.free_slots),
      count-take-drop a n p.free_slots,
    )

-- Freeing a request right after its allocation gives back exactly the pool of before, the order of
-- its free list included, if that list was in ascending order.
pub allocate-free :
    (p : Pool) (req_id : ℕ) (pages : Option ℕ) {q : Pool} {slots : List ℕ}
    → IsSorted p.free_slots
    → allocate p req_id pages ≡ ok (q, slots)
    → (free q req_id ≡ p) × (allocated_slots q req_id ≡ slots)
unfolding allocate allocated_slots
allocate-free p req_id pages {q} {slots} s done =
    let e : q ≡ booked p req_id (need p pages) = ground arith in
    let h = allocate-Allocates p req_id pages done in
    (
      rw e (free-booked p req_id (need p pages) s h.fresh),
      rw h.booked (ground (arith, lookup-store_self req_id slots p.alloc)),
    )
