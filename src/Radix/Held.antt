-- ===== src/Radix/Held.antt =====
-- The locks that are held, over a match and an insertion.
use free_token_intel.Prelude.{
  ℕ, suc, ◌+◌, ◌≤◌, ◌≡◌, refl, sym, subst, ◌≢◌, inl, inr, false, List, arith, ◌==◌, if◌then◌else◌,
  Bool-cases, length, take, drop, length-take, count, count-append,
}
use free_token_intel.Align.{align_down, align_down-le}
use free_token_intel.Radix.{
  Node, Forest, bare, node, Walked, tree_walk, set_parent, RadixCache, match_prefix, new_node,
  insert_walked, insert_prefix,
}
use free_token_intel.Radix.Prefixes.{IsAligned, align_down-IsAligned}
use free_token_intel.Radix.Locks.{size_info}
use free_token_intel.Radix.Names.{uuids, tree_walk-Renames, Renames}
use free_token_intel.Radix.Grow.{grown, IsRest}
use free_token_intel.Radix.Totals.{total, IsAdditive, tree_walk-total, grown-total}
use free_token_intel.Radix.Cache.{
  IsCache, match_prefix-resident, walked-IsRest, insert_prefix-Inserted,
}
use free_token_intel.Radix.Ledger.{Locks, free_size, held_size}
use free_token_intel.Radix.Counting.{
  free_size-IsAdditive, held_size-IsAdditive, tree_walk-IsCounted, grown-IsCounted,
}
use free_token_intel.Radix.Locking.{IsLedger}

-- A number that no node of the tree has carries no locks.
fresh : (held : Locks) (c : RadixCache) (u : ℕ) → IsLedger held c → c.next_uuid ≤ u → held u ≡ 0
fresh held c u v h = v.placed u (v.cache.named.old u h)

walked_placed :
    (held : Locks) (u : ℕ) (f : Forest) (w : Walked)
    → Renames u f w
    → ((x : ℕ) → count x (uuids f) ≡ 0 → held x ≡ 0)
    → (x : ℕ) → count x (uuids w.forest) ≡ 0
    → held x ≡ 0
walked_placed held u f w (Renames.kept e same) placed x h = placed x (omega (arith, same x, h))
walked_placed held u f w (Renames.one_more e same) placed x h = placed x (omega (arith, same x, h))

-- A match keeps the counts, the sizes and the locks, though it may split a node that is locked.
pub match_prefix-IsLedger :
    (held : Locks) (c : RadixCache) (tic : ℕ) (input : List ℕ)
    → IsLedger held c
    → IsLedger held (match_prefix c tic input).0
unfolding match_prefix size_info
match_prefix-IsLedger held c tic input v =
    let u = c.next_uuid in
    let free = tree_walk-total u free_size (free_size-IsAdditive u) c.page_size tic c.root input in
    let kept = tree_walk-total u held_size (held_size-IsAdditive u) c.page_size tic c.root input in
    let renames = tree_walk-Renames c.page_size tic u c.root input in
    record {
      cache = (match_prefix-resident c tic input v.cache).4;
      counted =
          tree_walk-IsCounted u held (fresh held c u v (omega arith)) c.page_size v.cache.pages tic
            c.root input v.cache.tree v.counted;
      sized = record {
        free = omega (arith, v.sized.free, free);
        held = omega (arith, v.sized.held, kept);
      };
      placed =
          walked_placed held u c.root (tree_walk c.page_size tic u c.root input) renames v.placed;
    }

pub next_uuid-le : (u : ℕ) (f : Forest) (w : Walked) → Renames u f w → u ≤ w.next_uuid
next_uuid-le u f w (Renames.kept e same) = omega (arith, e)
next_uuid-le u f w (Renames.one_more e same) = omega (arith, e)

-- How often a uuid is in a tree, as a sum.
pub uuids-total :
    (x : ℕ) (f : Forest) → total (λ n. if n.uuid == x then 1 else 0) f ≡ count x (uuids f)
unfolding count
uuids-total x bare = refl
uuids-total x (node n kids sibs) =
    omega (arith, uuids-total x kids, uuids-total x sibs, count-append x (uuids kids) (uuids sibs))

uuids-IsAdditive : (u x : ℕ) → x ≢ u → IsAdditive u (λ n. if n.uuid == x then 1 else 0)
uuids-IsAdditive u x other = record {
  touched = λ n tic. refl;
  divided = λ m tic n. ground (arith, other);
}

module _ (held : Locks) (c : RadixCache) (v : IsLedger held c) (tic now : ℕ) (input slots : List ℕ)
    (whole : IsAligned c.page_size (length input)) (paired : length slots ≡ length input) where
  abbrev walked : Walked
  walked = tree_walk c.page_size tic c.next_uuid c.root input

  grown_placed :
      (new : Node)
      → IsRest c.page_size v.cache.pages new walked input slots
      → (x : ℕ) → count x (uuids (grown c.page_size v.cache.pages new walked)) ≡ 0
      → held x ≡ 0
  grown_placed new rest x h =
      let u = c.next_uuid in
      let own : Node → ℕ = λ n. if n.uuid == x then 1 else 0 in
      elim (Bool-cases (x == u)) [
        | inl same ↦ fresh held c x v (ground (arith, same))
        | inr other ↦
            let sum =
              grown-total u own (uuids-IsAdditive u x (ground (arith, other))) c.page_size
                v.cache.pages tic new c.root input slots v.cache.tree v.cache.named rest in
            v.placed x (
              omega (
                arith,
                sum,
                h,
                uuids-total x c.root,
                uuids-total x (grown c.page_size v.cache.pages new walked),
              ))
      ]

  abbrev all_there : RadixCache
  all_there = record c { root = walked.forest; next_uuid = walked.next_uuid }

  abbrev with_rest : RadixCache
  with_rest = record c {
    root = set_parent c.page_size (new_node walked now input slots) walked.reached walked.forest;
    next_uuid = suc walked.next_uuid;
    evictable_size = c.evictable_size + length (drop walked.prefix_len input);
  }

  all_there-IsLedger : IsLedger held all_there
  unfolding match_prefix
  all_there-IsLedger = match_prefix-IsLedger held c tic input v

  with_rest-IsLedger :
      (walked.prefix_len == length input) ≡ false → IsCache with_rest → IsLedger held with_rest
  unfolding size_info
  with_rest-IsLedger more sound =
      let u = c.next_uuid in
      let new = new_node walked now input slots in
      let rest = walked-IsRest c tic now input slots v.cache whole paired more in
      let known = v.cache in
      let free =
        grown-total u free_size (free_size-IsAdditive u) c.page_size known.pages tic new c.root
          input slots known.tree known.named rest in
      let kept =
        grown-total u held_size (held_size-IsAdditive u) c.page_size known.pages tic new c.root
          input slots known.tree known.named rest in
      record {
        cache = sound;
        counted =
            grown-IsCounted u held (fresh held c u v (omega arith)) c.page_size known.pages tic new
              c.root input slots
              (
                refl,
                fresh held c walked.next_uuid v (
                    next_uuid-le u c.root walked
                      (tree_walk-Renames c.page_size tic u c.root input)),
              )
              known.tree known.named rest v.counted;
        sized = record {
          free = omega (arith, v.sized.free, free);
          held = omega (arith, v.sized.held, kept);
        };
        placed = grown_placed new rest;
      }

  pub insert_walked-IsLedger :
      IsCache (insert_walked c now input slots walked).0
      → IsLedger held (insert_walked c now input slots walked).0
  insert_walked-IsLedger = elim (Bool-cases (walked.prefix_len == length input)) [
    | inl all ↦ rw all (λ sound. all_there-IsLedger)
    | inr more ↦ rw more (λ sound. with_rest-IsLedger more sound)
  ]

-- An insertion of as many slots as tokens keeps the counts, the sizes and the locks: the new node is
-- counted as evictable.
pub insert_prefix-IsLedger :
    (held : Locks) (c : RadixCache) (tic now : ℕ) (input_ids indices : List ℕ)
    → IsLedger held c
    → length indices ≡ length input_ids
    → IsLedger held (insert_prefix c tic now input_ids indices).0
unfolding insert_prefix
insert_prefix-IsLedger held c tic now input_ids indices v paired =
    let n = align_down (length input_ids) c.page_size in
    let e : length (take n input_ids) ≡ n =
      omega (arith, length-take n input_ids, align_down-le (length input_ids) c.page_size) in
    insert_walked-IsLedger held c v tic now (take n input_ids) (take n indices)
      (subst (IsAligned c.page_size) (sym e) (align_down-IsAligned (length input_ids) c.page_size))
      (omega
        (arith, e, length-take n indices, paired, align_down-le (length input_ids) c.page_size))
      (insert_prefix-Inserted c tic now input_ids indices v.cache paired).sound
