-- ===== src/Radix/Evicted.antt =====
-- `evict` as a whole.
use free_token_intel.Prelude.{
  ℕ, zero, suc, ◌+◌, ◌≤◌, ◌<◌, ◌≡◌, refl, sym, ap, ◌∙◌, inl, inr, true, false, some, List, [],
  arith, ltb, ◌==◌, Bool-cases, assertion_error, ok, raise, Error, ◌↔◌, length, count,
}
use free_token_intel.Radix.{Forest, Handle, RadixCache}
use free_token_intel.Radix.Names.{uuids}
use free_token_intel.Radix.Totals.{total}
use free_token_intel.Radix.Locks.{path_value, get_matched_indices, size_info}
use free_token_intel.Radix.Ledger.{Locks, free_size}
use free_token_intel.Radix.Locking.{IsLedger}
use free_token_intel.Radix.Evict.{
  Heapq, IsHeapq, collect_leave_nodes, timestamp_of, Evicting, evict_one, keep_on, evict_loop,
  nodes, evict_start, hand_over, evict,
}
use free_token_intel.Radix.Evicting.{IsEvicting, evict_one-Turns}

module _ (h : Heapq) (laws : IsHeapq h) (page_size : ℕ) (held : Locks) (start : Forest)
    (distinct : (x : ℕ) → count x (uuids start) ≤ 1) where
  pub record Loops (fuel size : ℕ) (s : Evicting) : Type 0 where
    pub last : Evicting
    pub runs : evict_loop h fuel size s ≡ some (ok last)
    pub still : IsEvicting h laws page_size held start last
    pub enough : size ≤ last.evicted_size

  loop_stop :
      (fuel size : ℕ) (s : Evicting)
      → size ≤ s.evicted_size
      → evict_loop h (suc fuel) size s ≡ some (ok s)
  unfolding evict_loop
  loop_stop fuel size s e =
      let done : ltb s.evicted_size size ≡ false = ground arith in
      ap (λ b. keep_on (λ s'. evict_loop h fuel size s') s b (evict_one h s)) done

  loop_turn :
      (fuel size : ℕ) (s next : Evicting)
      → s.evicted_size < size
      → evict_one h s ≡ ok next
      → evict_loop h (suc fuel) size s ≡ evict_loop h fuel size next
  unfolding evict_loop
  loop_turn fuel size s next more e =
      let go : ltb s.evicted_size size ≡ true = ground arith in
      ap (λ b. keep_on (λ s'. evict_loop h fuel size s') s b (evict_one h s)) go
      ∙ ap (keep_on (λ s'. evict_loop h fuel size s') s true) e

  pub evict_loop-Loops :
      (fuel size : ℕ) (s : Evicting)
      → nodes s.root < fuel
      → size ≤ total free_size start
      → IsEvicting h laws page_size held start s
      → Loops fuel size s
  evict_loop-Loops zero size s f le v = absurd (omega (arith, f))
  evict_loop-Loops (suc fuel) size s f le v = elim (Bool-cases (ltb s.evicted_size size)) [
    | inr done ↦
        let e : size ≤ s.evicted_size = ground (arith, done) in
        record { last = s; runs = loop_stop fuel size s e; still = v; enough = e }
    | inl more ↦
        let lt : s.evicted_size < size = ground (arith, more) in
        let turn =
          evict_one-Turns h laws page_size held start s v distinct (omega (arith, lt, v.sum, le)) in
        let rest =
          evict_loop-Loops fuel size turn.next (omega (arith, turn.fewer, f)) le turn.still in
        record {
          last = rest.last;
          runs = loop_turn fuel size s turn.next lt turn.runs ∙ rest.runs;
          still = rest.still;
          enough = rest.enough;
        }
  ]

never_both : {A : Type 0} {a : A} {e : Error} → some (ok a) ≡ some (raise e) → ⊥
never_both p = cc

-- How often a slot is in the tree.
abbrev pub slots_of : ℕ → RadixCache → ℕ
slots_of x c = total (λ n. count x n.value) c.root

-- What an eviction of `size` slots comes to.
pub record Evicts (h : Heapq) (c : RadixCache) (held : Locks) (size : ℕ) : Type 0 where
  pub out : RadixCache
  pub slots : List ℕ
  pub runs : evict h c size ≡ some (ok (out, slots))
  pub enough : size ≤ length slots
  pub smaller : length slots + out.evictable_size ≡ c.evictable_size
  pub untouched : out.protected_size ≡ c.protected_size
  pub moved : (x : ℕ) → count x slots + slots_of x out ≡ slots_of x c
  pub locked :
      (handle : Handle) (p : ℕ)
      → handle.node ≡ some p
      → 0 < held p
      → get_matched_indices out handle ≡ get_matched_indices c handle
  pub ledger : IsLedger held out

module _ (h : Heapq) (laws : IsHeapq h) (c : RadixCache) (held : Locks) (v : IsLedger held c) where
  evict_start-IsEvicting : IsEvicting h laws c.page_size held c.root (evict_start h c)
  unfolding size_info count
  evict_start-IsEvicting = record {
    tree = v.cache.tree;
    named = λ x. omega arith;
    counted = v.counted;
    free = omega (arith, v.sized.free);
    kept = refl;
    leaves = laws.heapified (timestamp_of c.root) (collect_leave_nodes c.root);
    sum = omega (arith, v.sized.free);
    slots = λ x. omega arith;
    got = refl;
    paths = λ q locked. refl;
    placed = v.placed;
  }

  evict_runs :
      (size : ℕ) (last : Evicting)
      → 0 < size
      → size ≤ c.evictable_size
      → evict_loop h (suc (nodes c.root)) size (evict_start h c) ≡ some (ok last)
      → evict h c size ≡ hand_over c (some (ok last))
  unfolding evict
  evict_runs size last pos le e =
      let more : (size == 0) ≡ false = ground arith in
      let room : ltb c.evictable_size size ≡ false = ground arith in
      rw (more, room) (ap (hand_over c) e)

  evict_nothing : evict h c 0 ≡ some (ok (c, []))
  unfolding evict
  evict_nothing = refl

  same_indices :
      (d : RadixCache) (handle : Handle) (p : ℕ)
      → handle.node ≡ some p
      → path_value p d.root ≡ path_value p c.root
      → get_matched_indices d handle ≡ get_matched_indices c handle
  unfolding get_matched_indices
  same_indices d handle p e same = rw e same

  evict_some : (size : ℕ) → 0 < size → size ≤ c.evictable_size → Evicts h c held size
  unfolding size_info
  evict_some size pos le =
      let done =
        evict_loop-Loops h laws c.page_size held c.root v.cache.named.once (suc (nodes c.root)) size
          (evict_start h c) (omega arith) (omega (arith, le, v.sized.free))
          evict_start-IsEvicting in
      let s = done.last in
      let w = done.still in
      let d : RadixCache = record c { root = s.root; evictable_size = s.evictable_size } in
      record {
        out = d;
        slots = s.evicted_indices;
        runs = evict_runs size s pos le done.runs;
        enough = omega (arith, done.enough, w.got);
        smaller = omega (arith, w.got, w.sum, v.sized.free);
        untouched = refl;
        moved = w.slots;
        locked = λ handle p e lock. same_indices d handle p e (w.paths p lock);
        ledger = record {
          cache = record {
            pages = v.cache.pages;
            tree = w.tree;
            named = record {
              once = λ x. omega (arith, w.named x, v.cache.named.once x);
              old = λ x h. omega (arith, w.named x, v.cache.named.old x h);
            };
          };
          counted = w.counted;
          sized = record {
            free = omega (arith, w.free);
            held = omega (arith, w.kept, v.sized.held);
          };
          placed = w.placed;
        };
      }

  -- An eviction of no more than the evictable size succeeds, whatever the order in which the heap gives
  -- equal timestamps: no assertion of it fails and it comes to an end. It returns at least as many slots
  -- as asked for, and the evictable size falls by their number. Every slot that was in the tree is in
  -- it or returned, and not both more often than before; the protected size and the indices of every
  -- locked handle stay as they are; and the counts and the sizes are those of the same locks.
  pub evict-Evicts : (size : ℕ) → size ≤ c.evictable_size → Evicts h c held size
  unfolding count
  evict-Evicts zero le = record {
    out = c;
    slots = [];
    runs = evict_nothing;
    enough = omega arith;
    smaller = omega arith;
    untouched = refl;
    moved = λ x. omega arith;
    locked = λ handle p e lock. refl;
    ledger = v;
  }
  evict-Evicts (suc size) le = evict_some (suc size) (omega arith) le

  evict_refuses :
      (size : ℕ) → c.evictable_size < size → evict h c size ≡ some (raise assertion_error)
  unfolding evict
  evict_refuses size more = ground arith

  -- Under the invariant, an eviction raises an AssertionError exactly if it asks for more than the
  -- evictable size.
  pub evict_raises_iff :
      (size : ℕ) → (evict h c size ≡ some (raise assertion_error)) ↔ (c.evictable_size < size)
  evict_raises_iff size = (
    λ raised. elim (Bool-cases (ltb c.evictable_size size)) [
      | inl more ↦ ground (arith, more)
      | inr room ↦
          let e = (evict-Evicts size (ground (arith, room))).runs in
          absurd (never_both (sym e ∙ raised))
    ],
    evict_refuses size,
  )
