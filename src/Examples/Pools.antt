-- ===== src/Examples/Pools.antt =====
-- The KV pool on four pages of two slots.
use free_token_intel.Prelude.{
  ℕ, ◌+◌, ◌≤◌, ◌<◌, ◌≡◌, refl, true, false, none, some, List, [], ◌∷◌, ok, raise, value_error,
  runtime_error, count, IsDistinct, IsSorted, range-IsSorted, ◌↔◌, length, range_from, sort, insert,
}
use free_token_intel.Prelude.Dict.{lookup, contains, store, delete}
use free_token_intel.KvPool.{
  Pool, init, allocate, free, detach, free_slots, allocated_slots, is_allocated,
  num_allocatable_slots,
}
use free_token_intel.KvPool.Conservation.{
  World, Step, Reach, start, owners, slots_of, held as held_slots, need, Reach-owners,
}
use free_token_intel.KvPool.Requests.{allocate_isolated, allocate_outcome, allocate-free}

program : Unit {0}
unfolding init allocate free detach free_slots allocated_slots is_allocated num_allocatable_slots
    lookup contains store delete sort insert
program = tt

-- Slots 1..7, and request 9 holding the first four.
abbrev empty : Pool
empty = record { page_size = 2; num_pages = 4; free_slots = range_from 1 7; alloc = [] }

abbrev held : Pool
held = record empty { free_slots = 5 ∷ 6 ∷ 7 ∷ []; alloc = (9, 1 ∷ 2 ∷ 3 ∷ 4 ∷ []) ∷ [] }

runs :
    (init 2 4 ≡ empty)
    × (allocate empty 9 (some 2) ≡ ok (held, 1 ∷ 2 ∷ 3 ∷ 4 ∷ []))
    × (allocate held 9 (some 1) ≡ raise value_error)
    × (allocate held 8 (some 2) ≡ raise runtime_error)
    × (free held 9 ≡ empty)
    × (detach held 9 ≡ (record held { alloc = [] }, 1 ∷ 2 ∷ 3 ∷ 4 ∷ []))
unfolding program
runs = (refl, refl, refl, refl, refl, refl)

-- A request is served and its slots go to the prefix tree.
abbrev given : List ℕ
given = 5 ∷ 6 ∷ []

abbrev after : World
after = record { pool = record held { alloc = [] }; tree_owned = 1 ∷ 2 ∷ 3 ∷ 4 ∷ [] }

history : Reach (start 2 4) after
unfolding program
history =
    Reach.next
      (Reach.next Reach.here
        (Step.allocates 9 (some 2) {p = held} {slots = 1 ∷ 2 ∷ 3 ∷ 4 ∷ []} refl))
      (Step.detaches 9)

Reach-owners_example :
    ((a : ℕ) → owners a after ≡ count a (slots_of 8))
    × ((a : ℕ) → owners a after ≤ 1)
    × (owners 0 after ≡ 0)
    × IsSorted after.pool.free_slots
Reach-owners_example = Reach-owners 2 4 history

allocate_isolated_example :
    (length given ≡ need after.pool (some 1))
    × ((a : ℕ)
        → count a given
            + count a (7 ∷ [])
            + count a (held_slots after.pool.alloc)
            + count a after.tree_owned
          ≡ count a (slots_of 8))
    × IsDistinct given
    × (count 0 given ≡ 0)
unfolding program
allocate_isolated_example =
    allocate_isolated 2 4 8 (some 1)
      {q = record held { free_slots = 7 ∷ []; alloc = (8, 5 ∷ 6 ∷ []) ∷ [] }} {slots = given}
      history refl

allocate_outcome_example :
    ((is_allocated held 9 ≡ true) ↔ (allocate held 9 none ≡ raise value_error))
    × (((is_allocated held 9 ≡ false) × (3 < need held none))
        ↔ (allocate held 9 none ≡ raise runtime_error))
    × (((is_allocated held 9 ≡ false) × (need held none ≤ 3))
        ↔ ((q : Pool) × (slots : List ℕ) × (allocate held 9 none ≡ ok (q, slots))))
allocate_outcome_example = allocate_outcome held 9 none

empty-IsSorted : IsSorted empty.free_slots
empty-IsSorted = range-IsSorted 1 7

allocate-free_example : (free held 9 ≡ empty) × (allocated_slots held 9 ≡ 1 ∷ 2 ∷ 3 ∷ 4 ∷ [])
unfolding program
allocate-free_example = allocate-free empty 9 (some 2) empty-IsSorted refl
