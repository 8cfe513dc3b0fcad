-- ===== src/Radix/Locking.antt =====
-- `lock_handle` on a whole cache.
use free_token_intel.Prelude.{
  ℕ, ◌+◌, ◌≡◌, refl, sym, ap, subst, ◌∙◌, inl, inr, Bool, true, false, none, some, List, arith,
  ◌==◌, if◌then◌else◌, Bool-cases, Option-cases, ==_iff, ok, length, count,
}
use free_token_intel.Radix.{Forest, bare, node, Handle, RadixCache}
use free_token_intel.Radix.Locks.{
  get_matched_indices, SizeInfo, total_size, size_info, with_root, after_climb, lock_handle,
}
use free_token_intel.Radix.Names.{uuids}
use free_token_intel.Radix.Totals.{total}
use free_token_intel.Radix.Cache.{IsCache, resident}
use free_token_intel.Radix.Ledger.{
  Locks, one_more, before, after, IsCounted, free_size, held_size, IsSized, SameSpans,
  SameSpans-refl, SameSpans-uuids,
}
use free_token_intel.Radix.Climb.{lock_path-Climbs}
use free_token_intel.Radix.Kept.{
  SameSpans-stored, SameSpans-path_value, SameSpans-IsTree, SameSpans-trans, counted_alike,
}

-- A cache whose reference counts and sizes are those of the locks that are held on its nodes.
pub record IsLedger (held : Locks) (c : RadixCache) : Type 0 where
  pub cache : IsCache c
  pub counted : IsCounted held c.root
  pub sized : IsSized c.root 0 0 (size_info c)
  pub placed : (u : ℕ) → count u (uuids c.root) ≡ 0 → held u ≡ 0

abbrev pub lock_on : Handle → Locks → Locks
lock_on h held = elim h.node [ none ↦ held | some p ↦ one_more p held ]

-- The node of a handle, but for the root, is a node of the cache.
abbrev pub IsOn : Handle → RadixCache → Type 0
IsOn h c = (p : ℕ) → h.node ≡ some p → count p (uuids c.root) ≡ 1

-- A cache that holds the same, under the same nodes.
pub record SameContents (c d : RadixCache) : Type 0 where
  pub spans : SameSpans c.root d.root
  pub view : (y : List ℕ) → resident d y ≡ resident c y
  pub indices : (h : Handle) → get_matched_indices d h ≡ get_matched_indices c h
  pub size : total_size (size_info d) ≡ total_size (size_info c)
  pub pages : d.page_size ≡ c.page_size
  pub next : d.next_uuid ≡ c.next_uuid

sizes_add : (f : Forest) → total free_size f + total held_size f ≡ total (λ n. length n.key) f
sizes_add bare = omega arith
sizes_add (node n kids sibs) = ground (arith, sizes_add kids, sizes_add sibs)

same_length :
    (f g : Forest) → SameSpans f g → total (λ n. length n.key) g ≡ total (λ n. length n.key) f
same_length bare bare e = refl
same_length bare (node n kids sibs) e = absurd e
same_length (node n kids sibs) bare e = absurd e
same_length (node n kids sibs) (node m kids' sibs') e =
    let own : length m.key ≡ length n.key = ap length e.0 in
    omega (arith, own, same_length kids kids' e.4, same_length sibs sibs' e.5)

module _ (c : RadixCache) (f : Forest) (s : SizeInfo) (same : SameSpans c.root f) where
  with_root-SameContents :
      IsSized c.root 0 0 (size_info c) → IsSized f 0 0 s → SameContents c (with_root c f s)
  unfolding get_matched_indices total_size size_info
  with_root-SameContents z z' = record {
    spans = same;
    view = λ y. SameSpans-stored c.page_size c.root f y same;
    indices = λ h. elim (Option-cases h.node) [
      | inl e ↦ rw e refl
      | inr (p, e) ↦ rw e (SameSpans-path_value p c.root f same)
    ];
    size = omega (
      arith,
      z.free,
      z.held,
      z'.free,
      z'.held,
      sizes_add c.root,
      sizes_add f,
      same_length c.root f same,
    );
    pages = refl;
    next = refl;
  }

  with_root-IsLedger :
      (held : Locks)
      → IsCache c
      → IsCounted held f
      → IsSized f 0 0 s
      → ((u : ℕ) → count u (uuids c.root) ≡ 0 → held u ≡ 0)
      → IsLedger held (with_root c f s)
  unfolding size_info
  with_root-IsLedger held v counted sized placed =
      let names = SameSpans-uuids c.root f same in
      record {
        cache = record {
          pages = v.pages;
          tree = SameSpans-IsTree c.page_size c.root f same v.tree;
          named = record {
            once = λ x. omega (arith, v.named.once x, ap (count x) names);
            old = λ x old. omega (arith, v.named.old x old, ap (count x) names);
          };
        };
        counted = counted;
        sized = record { free = sized.free; held = sized.held };
        placed = λ u h. placed u (ap (count u) (sym names) ∙ h);
      }

abbrev pub before_on : Bool → Handle → Locks → Locks
before_on unlock h held = if unlock then lock_on h held else held

abbrev pub after_on : Bool → Handle → Locks → Locks
after_on unlock h held = if unlock then held else lock_on h held

-- What one call of `lock_handle` does to the cache.
pub record Locked (c : RadixCache) (h : Handle) (unlock : Bool) (held : Locks) : Type 0 where
  pub out : RadixCache
  pub runs : lock_handle c h unlock ≡ some (ok out)
  pub ledger : IsLedger (after_on unlock h held) out
  pub same : SameContents c out

SameContents-refl : (c : RadixCache) → SameContents c c
SameContents-refl c = record {
  spans = SameSpans-refl c.root;
  view = λ y. refl;
  indices = λ h. refl;
  size = refl;
  pages = refl;
  next = refl;
}

placed_after :
    (unlock : Bool) (p : ℕ) (held : Locks) (us : List ℕ)
    → count p us ≡ 1
    → ((u : ℕ) → count u us ≡ 0 → before unlock p held u ≡ 0)
    → (u : ℕ) → count u us ≡ 0
    → after unlock p held u ≡ 0
placed_after true p held us one placed u h = omega (arith, placed u h)
placed_after false p held us one placed u h = elim (Bool-cases (u == p)) [
  | inl same ↦ absurd (omega (arith, one, h, ap (λ v. count v us) ((==_iff u p).0 same)))
  | inr other ↦ rw other (omega (arith, placed u h))
]

node-Locked :
    (unlock : Bool) (c : RadixCache) (p len : ℕ) (held : Locks)
    → count p (uuids c.root) ≡ 1
    → IsLedger (before unlock p held) c
    → let h : Handle = record { cached_len = len; node = some p } in Locked c h unlock held
unfolding lock_handle
node-Locked unlock c p len held one v =
    let w = lock_path-Climbs unlock p held c.root (size_info c) 0 0 one v.counted v.sized in
    record {
      out = with_root c w.out w.sizes;
      runs = ap (after_climb c) w.runs;
      ledger =
          with_root-IsLedger c w.out w.sizes w.same (after unlock p held) v.cache w.counted w.sized
            (placed_after unlock p held (uuids c.root) one v.placed);
      same = with_root-SameContents c w.out w.sizes w.same v.sized w.sized;
    }

root-Locked :
    (unlock : Bool) (c : RadixCache) (len : ℕ) (held : Locks)
    → IsLedger held c
    → let h : Handle = record { cached_len = len; node = none } in Locked c h unlock held
unfolding lock_handle
root-Locked true c len held v = record {
  out = c;
  runs = refl;
  ledger = v;
  same = SameContents-refl c;
}
root-Locked false c len held v = record {
  out = c;
  runs = refl;
  ledger = v;
  same = SameContents-refl c;
}

root_before :
    (unlock : Bool) (c : RadixCache) (held : Locks)
    → IsLedger (if unlock then held else held) c
    → IsLedger held c
root_before true c held v = v
root_before false c held v = v

-- Taking a lock on a handle of the cache, or giving back one that is held, finds the node and fails no
-- assertion. Afterwards every reference count is the number of the locks held on the node or below it,
-- with the one taken or given, the two sizes are the summed lengths of the unlocked and of the locked
-- nodes, their sum is as before, and of every prompt the same slots are resident.
pub lock_handle-Locked :
    (unlock : Bool) (c : RadixCache) (h : Handle) (held : Locks)
    → IsOn h c
    → IsLedger (before_on unlock h held) c
    → Locked c h unlock held
lock_handle-Locked unlock c h held on v = elim (Option-cases h.node) [
  | inl e ↦
      let same : h ≡ record { cached_len = h.cached_len; node = none } =
        λ i. record { cached_len = h.cached_len; node = e i } in
      subst (λ k. Locked c k unlock held) (sym same)
        (root-Locked unlock c h.cached_len held
          (root_before unlock c held (subst (λ k. IsLedger (before_on unlock k held) c) same v)))
  | inr (p, e) ↦
      let same : h ≡ record { cached_len = h.cached_len; node = some p } =
        λ i. record { cached_len = h.cached_len; node = e i } in
      subst (λ k. Locked c k unlock held) (sym same)
        (node-Locked unlock c p h.cached_len held (on p e)
          (subst (λ k. IsLedger (before_on unlock k held) c) same v))
]

sizes_alike : (f g : Forest) (s t : SizeInfo) → g ≡ f → IsSized f 0 0 s → IsSized g 0 0 t → t ≡ s
sizes_alike f g s t e z z' =
    let free : t.evictable_size ≡ s.evictable_size =
      omega (arith, z.free, z'.free, ap (total free_size) e) in
    let kept : t.protected_size ≡ s.protected_size =
      omega (arith, z.held, z'.held, ap (total held_size) e) in
    λ i. record { evictable_size = free i; protected_size = kept i }

-- Two caches of the same nodes and the same locks are one.
ledger_alike :
    (held : Locks) (c d : RadixCache) → SameContents c d → IsLedger held c → IsLedger held d → d ≡ c
unfolding size_info
ledger_alike held c d same v w =
    let roots = counted_alike held c.root d.root same.spans v.counted w.counted in
    let sizes = sizes_alike c.root d.root (size_info c) (size_info d) roots v.sized w.sized in
    λ i. record {
      page_size = same.pages i;
      evictable_size = (sizes i).evictable_size;
      protected_size = (sizes i).protected_size;
      root = roots i;
      next_uuid = same.next i;
    }

SameContents-trans : (b c d : RadixCache) → SameContents b c → SameContents c d → SameContents b d
SameContents-trans b c d m n = record {
  spans = SameSpans-trans b.root c.root d.root m.spans n.spans;
  view = λ y. n.view y ∙ m.view y;
  indices = λ h. n.indices h ∙ m.indices h;
  size = n.size ∙ m.size;
  pages = n.pages ∙ m.pages;
  next = n.next ∙ m.next;
}

-- A lock on a handle of the cache can be taken, and giving it back at once leaves the cache exactly as
-- it was.
pub lock_handle-unlock :
    (c : RadixCache) (h : Handle) (held : Locks)
    → IsOn h c
    → IsLedger held c
    → (d : RadixCache) × (lock_handle c h false ≡ some (ok d))
      × (lock_handle d h true ≡ some (ok c))
lock_handle-unlock c h held on v =
    let taken = lock_handle-Locked false c h held on v in
    let d = taken.out in
    let there : IsOn h d =
      λ p e. ap (count p) (SameSpans-uuids c.root d.root taken.same.spans) ∙ on p e in
    let given = lock_handle-Locked true d h held there taken.ledger in
    let back : given.out ≡ c =
      ledger_alike held c given.out (SameContents-trans c d given.out taken.same given.same) v
        given.ledger in
    (d, taken.runs, given.runs ∙ ap (λ e. some (ok e)) back)
