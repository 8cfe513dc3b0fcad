-- ===== src/Radix/Evicting.antt =====
-- The loop of `evict`, turn by turn.
use free_token_intel.Prelude.{
  ℕ, ◌+◌, ◌≤◌, ◌<◌, ◌≡◌, refl, sym, ap, ◌∙◌, inl, inr, some, List, [], ◌∷◌, arith, ◌==◌,
  if◌then◌else◌, Bool-cases, ==_iff, ok, length, length-append, count, SameItems, count-append,
}
use free_token_intel.Radix.{Node, Forest, bare, node}
use free_token_intel.Radix.View.{IsTree}
use free_token_intel.Radix.Names.{uuids}
use free_token_intel.Radix.Totals.{total}
use free_token_intel.Radix.Locks.{path_value}
use free_token_intel.Radix.Ledger.{Locks, pins, IsCounted, free_size, held_size}
use free_token_intel.Radix.Held.{uuids-total}
use free_token_intel.Radix.Evict.{
  Heapq, IsHeapq, collect_leave_nodes, find_leaf, timestamp_of, del_child, exposed, Evicting,
  push_all, take_leaf, take_found, take_popped, evict_one, nodes,
}
use free_token_intel.Radix.Leaves.{leaf-uuids}
use free_token_intel.Radix.Remove.{Removed, del_child-Removed}

-- Without locks on it, a subtree has an unlocked leaf.
unlocked_leaf :
    (held : Locks) (n : Node) (kids sibs : Forest)
    → IsCounted held (node n kids sibs)
    → pins held (node n kids sibs) ≡ 0
    → 0 < length (collect_leave_nodes (node n kids sibs))
unfolding collect_leave_nodes
unlocked_leaf held n bare sibs c z =
    let own : List ℕ = if n.ref_count == 0 then n.uuid ∷ [] else [] in
    ground (arith, length-append (collect_leave_nodes sibs) own, c.0, z)
unlocked_leaf held n (node m below beside) sibs c z =
    let deep = unlocked_leaf held m below beside c.1 (omega (arith, z)) in
    omega (
      arith,
      deep,
      length-append (collect_leave_nodes sibs) (collect_leave_nodes (node m below beside)),
    )

-- Where nothing can be collected, nothing is evictable: no locked node stands below an unlocked one.
no_leaves :
    (held : Locks) (f : Forest)
    → IsCounted held f
    → length (collect_leave_nodes f) ≡ 0
    → total free_size f ≡ 0
unfolding collect_leave_nodes
no_leaves held bare c z = refl
no_leaves held (node n bare sibs) c z =
    let own : List ℕ = if n.ref_count == 0 then n.uuid ∷ [] else [] in
    let e = length-append (collect_leave_nodes sibs) own in
    ground (arith, e, no_leaves held sibs c.2 (omega (arith, e, z)))
no_leaves held (node n (node m below beside) sibs) c z =
    let e = length-append (collect_leave_nodes sibs) (collect_leave_nodes (node m below beside)) in
    let inner = no_leaves held (node m below beside) c.1 (omega (arith, e, z)) in
    let outer = no_leaves held sibs c.2 (omega (arith, e, z)) in
    elim (Bool-cases (n.ref_count == 0)) [
      | inl unlocked ↦ absurd (
          omega
            (arith, e, z, unlocked_leaf held m below beside c.1 (ground (arith, unlocked, c.0))))
      | inr locked ↦ rw locked (omega (arith, inner, outer))
    ]

count-length : (xs : List ℕ) → ((x : ℕ) → count x xs ≡ 0) → length xs ≡ 0
unfolding count
count-length [] h = refl
count-length (x ∷ xs) h = absurd (ground (arith, h x))

nodes-total : (f : Forest) → nodes f ≡ total (λ n. 1) f
unfolding nodes
nodes-total bare = refl
nodes-total (node n kids sibs) = omega (arith, nodes-total kids, nodes-total sibs)

module _ (h : Heapq) (laws : IsHeapq h) where
  push_all-count :
      (t : ℕ → ℕ) (heap xs : List ℕ) (x : ℕ)
      → count x (push_all h t heap xs) ≡ count x heap + count x xs
  unfolding push_all count
  push_all-count t heap [] x = omega arith
  push_all-count t heap (y ∷ ys) x =
      omega (arith, push_all-count t (h.heappush t heap y) ys x, laws.pushed t heap y x)

  module _ (page_size : ℕ) (held : Locks) (start : Forest) where
    abbrev pub slot_count : ℕ → Forest → ℕ
    slot_count x f = total (λ n. count x n.value) f

    -- What holds of each turn: of the tree, of the leaves to take, and of what was taken so far.
    pub record IsEvicting (s : Evicting) : Type 0 where
      pub tree : IsTree page_size s.root
      pub named : (x : ℕ) → count x (uuids s.root) ≤ count x (uuids start)
      pub counted : IsCounted held s.root
      pub free : s.evictable_size ≡ total free_size s.root
      pub kept : total held_size s.root ≡ total held_size start
      pub leaves : (x : ℕ) → count x s.leave_nodes ≡ count x (collect_leave_nodes s.root)
      pub sum : s.evicted_size + s.evictable_size ≡ total free_size start
      pub slots : (x : ℕ) → count x s.evicted_indices + slot_count x s.root ≡ slot_count x start
      pub got : s.evicted_size ≡ length s.evicted_indices
      pub paths : (q : ℕ) → 0 < held q → path_value q s.root ≡ path_value q start
      pub placed : (x : ℕ) → count x (uuids s.root) ≡ 0 → held x ≡ 0

    -- Taking an unlocked leaf off the heap.
    take_leaf-IsEvicting :
        (s : Evicting) (p : ℕ) (rest : List ℕ)
        → IsEvicting s
        → SameItems (p ∷ rest) s.leave_nodes
        → (r : Removed p s.root) → (held p ≡ 0)
        → IsEvicting (take_leaf h s p rest r.taken)
    unfolding take_leaf count
    take_leaf-IsEvicting s p rest v same r z =
        let f = del_child p s.root in
        let own : (x : ℕ)
            → count x (uuids f) + (if r.taken.uuid == x then 1 else 0) ≡ count x (uuids s.root) =
          λ x. omega (
            arith,
            r.sums (λ n. if n.uuid == x then 1 else 0),
            uuids-total x f,
            uuids-total x s.root,
          ) in
        let (span, tree) = r.spans page_size v.tree in
        record {
          tree = tree;
          named = λ x. omega (arith, own x, v.named x);
          counted = r.counted held z v.counted;
          free = ground (arith, v.free, r.sums free_size, r.unlocked);
          kept = ground (arith, v.kept, r.sums held_size, r.unlocked);
          leaves = λ x. omega (
            arith,
            push_all-count (timestamp_of f) rest (exposed p s.root) x,
            r.leaves x,
            same x,
            v.leaves x,
          );
          sum = ground (arith, v.sum, v.free, r.sums free_size, r.unlocked);
          slots = λ x. omega (
            arith,
            v.slots x,
            r.sums (λ n. count x n.value),
            count-append x s.evicted_indices r.taken.value,
          );
          got = omega (arith, v.got, span.paired, length-append s.evicted_indices r.taken.value);
          paths =
              λ q locked. r.paths q (λ e. omega (arith, ap held e, z, locked)) ∙ v.paths q locked;
          placed = λ x gone. elim (Bool-cases (r.taken.uuid == x)) [
            | inl this ↦ ap held (sym ((==_iff r.taken.uuid x).0 this) ∙ r.named) ∙ z
            | inr other ↦ v.placed x (ground (arith, own x, other, gone))
          ];
        }

    -- One turn: a leaf is there to take, and the assertion on it holds.
    pub record Turns (s : Evicting) : Type 0 where
      pub next : Evicting
      pub runs : evict_one h s ≡ ok next
      pub still : IsEvicting next
      pub fewer : nodes next.root < nodes s.root

    evict_found :
        (s : Evicting) (p : ℕ) (rest : List ℕ) (n : Node)
        → h.heappop (timestamp_of s.root) s.leave_nodes ≡ some (p, rest)
        → find_leaf p s.root ≡ some n
        → n.ref_count ≡ 0
        → evict_one h s ≡ ok (take_leaf h s p rest n)
    unfolding evict_one
    evict_found s p rest n pop found zero_refs =
        ap (take_popped h s) pop ∙ ap (take_found h s p rest) found ∙ ground (arith, zero_refs)

    pub evict_popped :
        (s : Evicting) (p : ℕ) (rest : List ℕ)
        → IsEvicting s
        → ((x : ℕ) → count x (uuids start) ≤ 1)
        → h.heappop (timestamp_of s.root) s.leave_nodes ≡ some (p, rest)
        → SameItems (p ∷ rest) s.leave_nodes
        → Turns s
    unfolding take_leaf count
    evict_popped s p rest v distinct pop same =
        let once_each : (x : ℕ) → count x (uuids s.root) ≤ 1 =
          λ x. omega (arith, v.named x, distinct x) in
        let there : count p (collect_leave_nodes s.root) ≡ 1 =
          ground (arith, same p, v.leaves p, leaf-uuids p s.root, once_each p) in
        let r = del_child-Removed p s.root once_each there in
        record {
          next = take_leaf h s p rest r.taken;
          runs = evict_found s p rest r.taken pop r.found r.unlocked;
          still = take_leaf-IsEvicting s p rest v same r (r.refs held v.counted);
          fewer =
              omega (arith, r.sums (λ n. 1), nodes-total (del_child p s.root), nodes-total s.root);
        }

    pub evict_one-Turns :
        (s : Evicting)
        → IsEvicting s
        → ((x : ℕ) → count x (uuids start) ≤ 1)
        → 0 < s.evictable_size
        → Turns s
    evict_one-Turns s v distinct room = go s.leave_nodes refl
      where
        go : (heap : List ℕ) → s.leave_nodes ≡ heap → Turns s
        go [] e =
            let gone : (x : ℕ) → count x (collect_leave_nodes s.root) ≡ 0 =
              λ x. unfold count in omega (arith, v.leaves x, ap (count x) e) in
            absurd (
              omega (
                arith,
                room,
                v.free,
                no_leaves held s.root v.counted (count-length (collect_leave_nodes s.root) gone),
              ))
        go (y ∷ ys) e =
            let (p, rest, pop, same) = laws.popped (timestamp_of s.root) y ys in
            evict_popped s p rest v distinct (ap (h.heappop (timestamp_of s.root)) e ∙ pop)
              (λ x. same x ∙ ap (count x) (sym e))
