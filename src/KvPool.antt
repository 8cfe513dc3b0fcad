-- ===== src/KvPool.antt =====
-- python/freetoken/kvcache/mha_pool.py: the paged KV pool's slot allocator. The tensors that the
-- slots index are not part of the model; a tensor of slot indices is the list of its entries.
pub mod Conservation
pub mod Requests
use free_token_intel.Prelude.{
  ℕ, ◌+◌, ◌-◌, ◌*◌, ◌≡◌, Bool, not, List, [], ◌∷◌, ◌++◌, Option, none, some, leb, length, take,
  drop, range_from, sort, Result, ok, raise, value_error, runtime_error, guard, ◌>>=◌, ◌>>◌,
}
use free_token_intel.Prelude.Dict.{Dict, lookup, contains, store, delete}

pub record Pool : Type 0 where
  pub page_size : ℕ
  pub num_pages : ℕ
  pub free_slots : List ℕ
  pub alloc : Dict (List ℕ)

abbrev pub num_slots : Pool → ℕ
num_slots p = p.num_pages * p.page_size

-- Slot 0 is the padding slot and is never handed out.
unfoldable pub init : ℕ → ℕ → Pool
init page_size num_pages = record {
  page_size = page_size;
  num_pages = num_pages;
  free_slots = range_from 1 (num_pages * page_size - 1);
  alloc = [];
}

unfoldable pub num_allocatable_slots : Pool → ℕ
num_allocatable_slots p = length p.free_slots

-- `num_pages = None` asks for the pool's whole page count.
abbrev pub pages_wanted : Pool → Option ℕ → ℕ
pages_wanted p none = p.num_pages
pages_wanted p (some n) = n

unfoldable pub allocate : Pool → ℕ → Option ℕ → Result (Pool × List ℕ)
allocate p req_id num_pages = do
  let need = pages_wanted p num_pages * p.page_size
  guard (not (contains req_id p.alloc)) value_error
  guard (leb need (length p.free_slots)) runtime_error
  let slots = take need p.free_slots
  ok (record p { free_slots = drop need p.free_slots; alloc = store req_id slots p.alloc }, slots)

unfoldable pub free : Pool → ℕ → Pool
free p req_id = elim (lookup req_id p.alloc) [
  | none ↦ p
  | some slots ↦ record p {
    free_slots = sort (p.free_slots ++ slots);
    alloc = delete req_id p.alloc;
  }
]

-- The slots leave the pool's books and stay live: the prefix tree owns them from here.
unfoldable pub detach : Pool → ℕ → Pool × List ℕ
detach p req_id = elim (lookup req_id p.alloc) [
  | none ↦ (p, [])
  | some slots ↦ (record p { alloc = delete req_id p.alloc }, slots)
]

unfoldable pub is_allocated : Pool → ℕ → Bool
is_allocated p req_id = contains req_id p.alloc

unfoldable pub allocated_slots : Pool → ℕ → List ℕ
allocated_slots p req_id = elim (lookup req_id p.alloc) [ none ↦ [] | some slots ↦ slots ]

unfoldable pub free_slots : Pool → List ℕ → Pool
free_slots p [] = p
free_slots p (s ∷ slots) = record p { free_slots = sort (p.free_slots ++ s ∷ slots) }
