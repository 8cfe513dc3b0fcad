-- ===== src/Radix/Evict.antt =====
-- python/freetoken/kvcache/radix_cache.py: `evict`, `_collect_leave_nodes_for_evict` and `reset`. The
-- `heapq` of the standard library is a parameter: its three functions on lists of nodes, under the
-- order of their timestamps. A node is known by its uuid, and its fields are read in the tree.
use free_token_intel.Prelude.{
  ℕ, zero, suc, ◌+◌, ◌-◌, max, ◌≡◌, Bool, true, false, ◌&&◌, Option, none, some, List, [], ◌∷◌,
  ◌++◌, ltb, ◌==◌, if◌then◌else◌, assertion_error, Result, ok, raise, ◌>>◌, guard, length,
  SameItems,
}
use free_token_intel.Radix.{Node, Forest, bare, node, RadixCache, empty_cache}

-- `timestamp → heap → …`: the order is `RadixTreeNode.__lt__`.
pub record Heapq : Type 0 where
  pub heapify : (ℕ → ℕ) → List ℕ → List ℕ
  pub heappush : (ℕ → ℕ) → List ℕ → ℕ → List ℕ
  pub heappop : (ℕ → ℕ) → List ℕ → Option (ℕ × List ℕ)

-- What the code relies on: the functions lose and invent no item.
pub record IsHeapq (h : Heapq) : Type 0 where
  pub heapified : (t : ℕ → ℕ) (xs : List ℕ) → SameItems (h.heapify t xs) xs
  pub pushed : (t : ℕ → ℕ) (xs : List ℕ) (x : ℕ) → SameItems (h.heappush t xs x) (x ∷ xs)
  pub popped :
      (t : ℕ → ℕ) (x : ℕ) (xs : List ℕ)
      → (p : ℕ) × (rest : List ℕ) × (h.heappop t (x ∷ xs) ≡ some (p, rest))
        × SameItems (p ∷ rest) (x ∷ xs)

-- The unlocked leaves, as the stack of the code meets them: the last child first.
unfoldable pub collect_leave_nodes : Forest → List ℕ
collect_leave_nodes bare = []
collect_leave_nodes (node n bare sibs) =
    collect_leave_nodes sibs ++ (if n.ref_count == 0 then n.uuid ∷ [] else [])
collect_leave_nodes (node n (node m below beside) sibs) =
    collect_leave_nodes sibs ++ collect_leave_nodes (node m below beside)

abbrev pub or_else : Option Node → Option Node → Option Node
or_else none other = other
or_else (some n) other = some n

-- The node with a uuid, when it is a leaf.
unfoldable pub find_leaf : ℕ → Forest → Option Node
find_leaf p bare = none
find_leaf p (node n bare sibs) = if n.uuid == p then some n else find_leaf p sibs
find_leaf p (node n (node m below beside) sibs) =
    if n.uuid == p then none else or_else (find_leaf p (node m below beside)) (find_leaf p sibs)

-- `__lt__` compares these.
unfoldable pub timestamp_of : Forest → ℕ → ℕ
timestamp_of bare u = 0
timestamp_of (node n kids sibs) u =
    if n.uuid == u then n.timestamp else max (timestamp_of kids u) (timestamp_of sibs u)

-- `del parent.children[key]`: no two children of a node have the same page.
unfoldable pub del_child : ℕ → Forest → Forest
del_child p bare = bare
del_child p (node n kids sibs) =
    if n.uuid == p then sibs else node n (del_child p kids) (del_child p sibs)

abbrev pub only_child : ℕ → Forest → Bool
only_child p bare = false
only_child p (node n kids bare) = n.uuid == p
only_child p (node n kids (node m below beside)) = false

-- The parent of a node, when it has no other child and is not locked.
unfoldable pub exposed : ℕ → Forest → List ℕ
exposed p bare = []
exposed p (node n kids sibs) =
    if only_child p kids && (n.ref_count == 0)
    then n.uuid ∷ []
    else exposed p kids ++ exposed p sibs

-- The state of the loop of `evict`.
pub record Evicting : Type 0 where
  pub root : Forest
  pub evictable_size : ℕ
  pub leave_nodes : List ℕ
  pub evicted_size : ℕ
  pub evicted_indices : List ℕ

unfoldable pub push_all : Heapq → (ℕ → ℕ) → List ℕ → List ℕ → List ℕ
push_all h t heap [] = heap
push_all h t heap (x ∷ xs) = push_all h t (h.heappush t heap x) xs

unfoldable pub take_leaf : Heapq → Evicting → ℕ → List ℕ → Node → Evicting
take_leaf h s p rest n =
    let root = del_child p s.root in
    record {
      root = root;
      evictable_size = s.evictable_size - length n.key;
      leave_nodes = push_all h (timestamp_of root) rest (exposed p s.root);
      evicted_size = s.evicted_size + length n.key;
      evicted_indices = s.evicted_indices ++ n.value;
    }

abbrev pub take_found : Heapq → Evicting → ℕ → List ℕ → Option Node → Result Evicting
take_found h s p rest none = raise assertion_error
take_found h s p rest (some n) = do
  guard (n.ref_count == 0) assertion_error
  ok (take_leaf h s p rest n)

abbrev pub take_popped : Heapq → Evicting → Option (ℕ × List ℕ) → Result Evicting
take_popped h s none = raise assertion_error
take_popped h s (some (p, rest)) = take_found h s p rest (find_leaf p s.root)

-- One turn of the loop.
unfoldable pub evict_one : Heapq → Evicting → Result Evicting
evict_one h s = take_popped h s (h.heappop (timestamp_of s.root) s.leave_nodes)

abbrev pub keep_on :
    (Evicting → Option (Result Evicting))
    → Evicting
    → Bool
    → Result Evicting
    → Option (Result Evicting)
keep_on again s false turn = some (ok s)
keep_on again s true (raise e) = some (raise e)
keep_on again s true (ok s') = again s'

-- `while evicted_size < size`; none when the fuel runs out.
unfoldable pub evict_loop : Heapq → ℕ → ℕ → Evicting → Option (Result Evicting)
evict_loop h zero size s = none
evict_loop h (suc fuel) size s =
    keep_on (λ s'. evict_loop h fuel size s') s (ltb s.evicted_size size) (evict_one h s)

unfoldable pub nodes : Forest → ℕ
nodes bare = 0
nodes (node n kids sibs) = 1 + nodes kids + nodes sibs

abbrev pub evict_start : Heapq → RadixCache → Evicting
evict_start h c = record {
  root = c.root;
  evictable_size = c.evictable_size;
  leave_nodes = h.heapify (timestamp_of c.root) (collect_leave_nodes c.root);
  evicted_size = 0;
  evicted_indices = [];
}

abbrev pub evicted : RadixCache → Result Evicting → Result (RadixCache × List ℕ)
evicted c (raise e) = raise e
evicted c (ok s) =
    ok (record c { root = s.root; evictable_size = s.evictable_size }, s.evicted_indices)

abbrev pub hand_over : RadixCache → Option (Result Evicting) → Option (Result (RadixCache × List ℕ))
hand_over c none = none
hand_over c (some r) = some (evicted c r)

-- A turn takes a node out of the tree, so one more turn than there are nodes is enough.
unfoldable pub evict : Heapq → RadixCache → ℕ → Option (Result (RadixCache × List ℕ))
evict h c size =
    if size == 0
    then some (ok (c, []))
    else if ltb c.evictable_size size
    then some (raise assertion_error)
    else hand_over c (evict_loop h (suc (nodes c.root)) size (evict_start h c))

unfoldable pub reset : RadixCache → RadixCache
reset c = empty_cache c.page_size c.next_uuid
