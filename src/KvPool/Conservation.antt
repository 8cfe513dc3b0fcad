-- ===== src/KvPool/Conservation.antt =====
-- The pool and the prefix tree together: their histories, and the owners of a slot.
use free_token_intel.Prelude.{
  ℕ, ◌+◌, ◌-◌, ◌*◌, ◌≤◌, ◌≡◌, refl, inl, inr, false, Option, some, List, [], ◌∷◌, ◌++◌, arith,
  Option-cases, ok, length, take, drop, range_from, count, SameItems, count-append, count-take-drop,
  count-range_below, range-IsDistinct, count-sort, IsSorted, sort-IsSorted, RisesFrom-drop,
  range-IsSorted,
}
use free_token_intel.Prelude.Dict.{
  Dict, lookup, contains, store, delete, KeysDistinct, store-KeysDistinct, delete-KeysDistinct,
}
use free_token_intel.KvPool.{Pool, pages_wanted, init, allocate, free, detach, free_slots}

-- The slots that requests hold.
abbrev pub held : Dict (List ℕ) → List ℕ
held [] = []
held ((k, slots) ∷ d) = slots ++ held d

count-held-store :
    (a k : ℕ) (slots : List ℕ) (d : Dict (List ℕ))
    → contains k d ≡ false
    → count a (held (store k slots d)) ≡ count a slots + count a (held d)
unfolding contains store count
count-held-store a k slots [] h = omega (arith, count-append a slots [])
count-held-store a k slots ((j, s) ∷ d) h = ground (
  arith,
  count-held-store a k slots d,
  count-append a s (held d),
  count-append a s (held (store k slots d)),
)

count-held-delete :
    (a k : ℕ) {slots : List ℕ} (d : Dict (List ℕ))
    → lookup k d ≡ some slots
    → count a (held d) ≡ count a slots + count a (held (delete k d))
unfolding lookup delete
count-held-delete a k [] h = cc
count-held-delete a k {slots} ((j, s) ∷ d) h = ground (
  arith,
  count-held-delete a k {slots = slots} d,
  count-append a s (held d),
  count-append a s (held (delete k d)),
)

-- The pool beside the slots that the prefix tree owns: detached by `detach`, not yet given back.
pub record World : Type 0 where
  pub pool : Pool
  pub tree_owned : List ℕ

-- What the engine does with a pool. The tree gives back only slots that it owns.
pub data Step (w : World) : World → Type 0 where
  allocates :
      (req_id : ℕ) (num_pages : Option ℕ) {p : Pool} {slots : List ℕ}
      → allocate w.pool req_id num_pages ≡ ok (p, slots)
      → Step w (record { pool = p; tree_owned = w.tree_owned })
  frees : (req_id : ℕ) → Step w (record w { pool = free w.pool req_id })
  detaches :
      (req_id : ℕ)
      → Step w (record {
        pool = (detach w.pool req_id).0;
        tree_owned = (detach w.pool req_id).1 ++ w.tree_owned;
      })
  returns :
      (slots rest : List ℕ)
      → SameItems w.tree_owned (slots ++ rest)
      → Step w (record { pool = free_slots w.pool slots; tree_owned = rest })

pub data Reach (s : World) : World → Type 0 where
  here : Reach s s
  next : {t u : World} → Reach s t → Step t u → Reach s u

abbrev pub start : ℕ → ℕ → World
start page_size num_pages = record { pool = init page_size num_pages; tree_owned = [] }

-- The slots of a pool of size `n`, and how many owners a slot has.
abbrev pub slots_of : ℕ → List ℕ
slots_of n = range_from 1 (n - 1)

abbrev pub owners : ℕ → World → ℕ
owners a w = count a w.pool.free_slots + count a (held w.pool.alloc) + count a w.tree_owned

pub record IsSound (n : ℕ) (w : World) : Type 0 where
  pub owned : (a : ℕ) → owners a w ≡ count a (slots_of n)
  pub sorted : IsSorted w.pool.free_slots
  pub distinct : KeysDistinct w.pool.alloc

pub start-IsSound :
    (page_size num_pages : ℕ) → IsSound (num_pages * page_size) (start page_size num_pages)
unfolding init count
start-IsSound page_size num_pages = record {
  owned = λ a. omega arith;
  sorted = range-IsSorted 1 (num_pages * page_size - 1);
  distinct = tt;
}

abbrev pub need : Pool → Option ℕ → ℕ
need p num_pages = pages_wanted p num_pages * p.page_size

-- A successful `allocate` takes the front of the free list and books it for the request.
pub record Allocates (p : Pool) (req_id n : ℕ) (q : Pool) (slots : List ℕ) : Type 0 where
  pub fresh : contains req_id p.alloc ≡ false
  pub room : n ≤ length p.free_slots
  pub front : slots ≡ take n p.free_slots
  pub rest : q.free_slots ≡ drop n p.free_slots
  pub booked : q.alloc ≡ store req_id slots p.alloc

pub allocate-Allocates :
    (p : Pool) (req_id : ℕ) (num_pages : Option ℕ) {q : Pool} {slots : List ℕ}
    → allocate p req_id num_pages ≡ ok (q, slots)
    → Allocates p req_id (need p num_pages) q slots
unfolding allocate
allocate-Allocates p req_id num_pages done = ground arith

pub count-allocate :
    (a : ℕ) {p q : Pool} {req_id n : ℕ} {slots : List ℕ}
    → Allocates p req_id n q slots
    → (count a q.free_slots + count a slots ≡ count a p.free_slots)
      × (count a (held q.alloc) ≡ count a slots + count a (held p.alloc))
count-allocate a {p} {req_id = k} {n} {slots} h = (
  rw (h.rest, h.front) (omega (arith, count-take-drop a n p.free_slots)),
  rw h.booked (count-held-store a k slots p.alloc h.fresh),
)

Step-Allocates :
    {m : ℕ} {w : World} {p : Pool} {req_id n : ℕ} {slots : List ℕ}
    → Allocates w.pool req_id n p slots
    → IsSound m w
    → IsSound m (record { pool = p; tree_owned = w.tree_owned })
Step-Allocates {w = w} {p} {req_id} {n} {slots} h v = record {
  owned = λ a. omega (arith, v.owned a, count-allocate a h);
  sorted = rw h.rest (RisesFrom-drop n 0 w.pool.free_slots v.sorted);
  distinct = rw h.booked (store-KeysDistinct req_id slots w.pool.alloc v.distinct);
}

Step-frees :
    {m : ℕ} {w : World} (req_id : ℕ)
    → IsSound m w
    → IsSound m (record w { pool = free w.pool req_id })
unfolding free
Step-frees {w = w} k v = elim (Option-cases (lookup k w.pool.alloc)) [
  | inl e ↦ rw (e, free) v
  | inr (s, e) ↦
      rw (e, free)
        (record {
          owned = λ a. omega (
            arith,
            v.owned a,
            count-held-delete a k w.pool.alloc e,
            count-sort a (w.pool.free_slots ++ s),
            count-append a w.pool.free_slots s,
          );
          sorted = sort-IsSorted (w.pool.free_slots ++ s);
          distinct = delete-KeysDistinct k w.pool.alloc v.distinct;
        })
]

Step-detaches :
    {m : ℕ} {w : World} (req_id : ℕ)
    → IsSound m w
    → IsSound m (record {
      pool = (detach w.pool req_id).0;
      tree_owned = (detach w.pool req_id).1 ++ w.tree_owned;
    })
unfolding detach
Step-detaches {w = w} k v = elim (Option-cases (lookup k w.pool.alloc)) [
  | inl e ↦ rw (e, detach) v
  | inr (s, e) ↦
      rw (e, detach)
        (record {
          owned = λ a. omega (
            arith,
            v.owned a,
            count-held-delete a k w.pool.alloc e,
            count-append a s w.tree_owned,
          );
          sorted = v.sorted;
          distinct = delete-KeysDistinct k w.pool.alloc v.distinct;
        })
]

-- `free_slots` on every list, the empty one included.
free_slots_parts :
    (p : Pool) (slots : List ℕ)
    → IsSorted p.free_slots
    → ((a : ℕ) → count a (free_slots p slots).free_slots ≡ count a p.free_slots + count a slots)
      × IsSorted (free_slots p slots).free_slots
      × ((free_slots p slots).alloc ≡ p.alloc)
unfolding free_slots count
free_slots_parts p [] s = (λ a. omega arith, s, refl)
free_slots_parts p (x ∷ xs) s = (
  λ a. omega (arith, count-sort a (p.free_slots ++ x ∷ xs), count-append a p.free_slots (x ∷ xs)),
  sort-IsSorted (p.free_slots ++ x ∷ xs),
  refl,
)

Step-returns :
    {m : ℕ} {w : World} (slots rest : List ℕ)
    → SameItems w.tree_owned (slots ++ rest)
    → IsSound m w
    → IsSound m (record { pool = free_slots w.pool slots; tree_owned = rest })
Step-returns {w = w} slots rest same v =
    let parts = free_slots_parts w.pool slots v.sorted in
    record {
      owned =
          λ a. rw parts.2 (omega (arith, v.owned a, parts.0 a, same a, count-append a slots rest));
      sorted = parts.1;
      distinct = rw parts.2 v.distinct;
    }

pub Step-IsSound : {m : ℕ} {w u : World} → Step w u → IsSound m w → IsSound m u
Step-IsSound {w = w} (Step.allocates req_id num_pages done) v =
    Step-Allocates (allocate-Allocates w.pool req_id num_pages done) v
Step-IsSound (Step.frees req_id) v = Step-frees req_id v
Step-IsSound (Step.detaches req_id) v = Step-detaches req_id v
Step-IsSound (Step.returns slots rest same) v = Step-returns slots rest same v

pub Reach-IsSound : {m : ℕ} {w u : World} → Reach w u → IsSound m w → IsSound m u
Reach-IsSound Reach.here v = v
Reach-IsSound (Reach.next r s) v = Step-IsSound s (Reach-IsSound r v)

-- After any sequence of allocations, frees, detachments and returns, every slot from 1 up to the
-- pool's size has exactly one owner (the free list, one request, or the prefix tree), no other
-- number has one, and the free list is in ascending order.
pub Reach-owners :
    (page_size num_pages : ℕ) {w : World}
    → Reach (start page_size num_pages) w
    → ((a : ℕ) → owners a w ≡ count a (slots_of (num_pages * page_size)))
      × ((a : ℕ) → owners a w ≤ 1)
      × (owners 0 w ≡ 0)
      × IsSorted w.pool.free_slots
Reach-owners page_size num_pages {w} r =
    let v = Reach-IsSound r (start-IsSound page_size num_pages) in
    let top = num_pages * page_size - 1 in
    (
      v.owned,
      λ a. omega (arith, v.owned a, range-IsDistinct 1 top a),
      omega (arith, v.owned 0, count-range_below 0 1 top (omega arith)),
      v.sorted,
    )
