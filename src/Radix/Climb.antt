-- ===== src/Radix/Climb.antt =====
-- `lock_handle` from a node up to the root.
use free_token_intel.Prelude.{
  ℕ, zero, suc, ◌+◌, ◌-◌, ◌≡◌, refl, ap, ◌∙◌, inl, inr, Bool, true, false, arith, ◌==◌,
  if◌then◌else◌, Bool-cases, length, count,
}
use free_token_intel.Radix.{Node, Forest, bare, node}
use free_token_intel.Radix.Locks.{SizeInfo, count_lock, Climb, climb_node, lock_path}
use free_token_intel.Radix.Names.{uuids, node-uuids}
use free_token_intel.Radix.Totals.{total}
use free_token_intel.Radix.Ledger.{
  Locks, one_more, pins, IsCounted, free_size, held_size, IsSized, SameSpans, pins-one_more, before,
  after, beside_refs, absent-IsCounted, SameSpans-refl, SameSpans-pins,
}

-- A turn of the loop on a node with `locks` locks on it or below it but for the one that is taken or given.
pub record Counts (unlock : Bool) (n : Node) (kids sibs : Forest) (s : SizeInfo) (locks e q : ℕ)
    : Type 0 where
  pub out : Node
  pub sizes : SizeInfo
  pub runs : climb_node unlock n kids sibs s ≡ Climb.climbed (node out kids sibs) sizes
  pub same :
      (out.key ≡ n.key)
      × (out.value ≡ n.value)
      × (out.uuid ≡ n.uuid)
      × (out.timestamp ≡ n.timestamp)
  pub refs : out.ref_count ≡ (if unlock then locks else 1 + locks)
  pub sized : IsSized (node out kids sibs) e q sizes

pub climb_node-Counts :
    (unlock : Bool) (n : Node) (kids sibs : Forest) (s : SizeInfo) (locks e q : ℕ)
    → n.ref_count ≡ (if unlock then 1 + locks else locks)
    → IsSized (node n kids sibs) e q s
    → Counts unlock n kids sibs s locks e q
unfolding count_lock
climb_node-Counts true n kids sibs s zero e q r z = record {
  out = record n { ref_count = 0 };
  sizes = record {
    evictable_size = s.evictable_size + length n.key;
    protected_size = s.protected_size - length n.key;
  };
  runs = ground (arith, r);
  same = (refl, refl, refl, refl);
  refs = refl;
  sized = record { free = ground (arith, z.free, r); held = ground (arith, z.held, r) };
}
climb_node-Counts true n kids sibs s (suc k) e q r z = record {
  out = record n { ref_count = suc k };
  sizes = s;
  runs = ground (arith, r);
  same = (refl, refl, refl, refl);
  refs = refl;
  sized = record { free = ground (arith, z.free, r); held = ground (arith, z.held, r) };
}
climb_node-Counts false n kids sibs s zero e q r z = record {
  out = record n { ref_count = 1 };
  sizes = record {
    evictable_size = s.evictable_size - length n.key;
    protected_size = s.protected_size + length n.key;
  };
  runs = ground (arith, r);
  same = (refl, refl, refl, refl);
  refs = refl;
  sized = record { free = ground (arith, z.free, r); held = ground (arith, z.held, r) };
}
climb_node-Counts false n kids sibs s (suc k) e q r z = record {
  out = record n { ref_count = suc (suc k) };
  sizes = s;
  runs = ground (arith, r);
  same = (refl, refl, refl, refl);
  refs = omega arith;
  sized = record { free = ground (arith, z.free, r); held = ground (arith, z.held, r) };
}

-- Where no such node is, no loop.
pub lock_path-absent :
    (unlock : Bool) (p : ℕ) (f : Forest) (s : SizeInfo)
    → count p (uuids f) ≡ 0
    → lock_path unlock p f s ≡ Climb.absent
unfolding lock_path
lock_path-absent unlock p bare s h = refl
lock_path-absent unlock p (node n kids sibs) s h =
    let names = node-uuids 0 n kids sibs p in
    ground (
      arith,
      names,
      lock_path-absent unlock p kids s (omega (arith, names)),
      lock_path-absent unlock p sibs s (omega (arith, names)),
    )

-- What the loop from a node of the tree does.
pub record Climbs (unlock : Bool) (p : ℕ) (held : Locks) (f : Forest) (s : SizeInfo) (e q : ℕ)
    : Type 0 where
  pub out : Forest
  pub sizes : SizeInfo
  pub runs : lock_path unlock p f s ≡ Climb.climbed out sizes
  pub same : SameSpans f out
  pub counted : IsCounted (after unlock p held) out
  pub sized : IsSized out e q sizes

refs_before :
    (unlock : Bool) (p : ℕ) (held : Locks) (n : Node) (kids sibs : Forest)
    → (if n.uuid == p then 1 else 0) + count p (uuids kids) ≡ 1
    → IsCounted (before unlock p held) (node n kids sibs)
    → n.ref_count
      ≡ (if unlock then 1 + (held n.uuid + pins held kids) else held n.uuid + pins held kids)
refs_before true p held n kids sibs one c = ground (arith, c.0, pins-one_more p held kids)
refs_before false p held n kids sibs one c = c.0

refs_after :
    (unlock : Bool) (p : ℕ) (held : Locks) (n : Node) (kids kids' : Forest) (m u : ℕ)
    → (if n.uuid == p then 1 else 0) + count p (uuids kids) ≡ 1
    → SameSpans kids kids'
    → u ≡ n.uuid
    → m ≡ (if unlock then held n.uuid + pins held kids else 1 + (held n.uuid + pins held kids))
    → m ≡ after unlock p held u + pins (after unlock p held) kids'
refs_after true p held n kids kids' m u one same e r =
    omega (arith, r, ap held e, SameSpans-pins held kids kids' same)
refs_after false p held n kids kids' m u one same e r =
    let own : one_more p held u ≡ one_more p held n.uuid = ap (one_more p held) e in
    omega (
      arith,
      r,
      own,
      one,
      SameSpans-pins (one_more p held) kids kids' same,
      pins-one_more p held kids,
    )

-- The last turn, on a node with the loop's start on it or below it.
climb_up :
    (unlock : Bool) (p : ℕ) (held : Locks) (n : Node) (kids kids' sibs : Forest) (s s' : SizeInfo)
    (e q : ℕ)
    → (if n.uuid == p then 1 else 0) + count p (uuids kids) ≡ 1
    → IsCounted (before unlock p held) (node n kids sibs)
    → SameSpans kids kids'
    → IsCounted (after unlock p held) kids'
    → IsCounted (after unlock p held) sibs
    → IsSized (node n kids' sibs) e q s'
    → lock_path unlock p (node n kids sibs) s ≡ climb_node unlock n kids' sibs s'
    → Climbs unlock p held (node n kids sibs) s e q
climb_up unlock p held n kids kids' sibs s s' e q one c same ck cs z up =
    let locks = held n.uuid + pins held kids in
    let turn =
      climb_node-Counts unlock n kids' sibs s' locks e q
        (refs_before unlock p held n kids sibs one c) z in
    record {
      out = node turn.out kids' sibs;
      sizes = turn.sizes;
      runs = up ∙ turn.runs;
      same = (turn.same.0, turn.same.1, turn.same.2, turn.same.3, same, SameSpans-refl sibs);
      counted = (
        refs_after unlock p held n kids kids' turn.out.ref_count turn.out.uuid one same turn.same.2
            turn.refs,
        ck,
        cs,
      );
      sized = turn.sized;
    }

lock_path_below :
    (unlock : Bool) (p : ℕ) (n : Node) (kids sibs kids' : Forest) (s s' : SizeInfo)
    → (n.uuid == p) ≡ false
    → lock_path unlock p kids s ≡ Climb.climbed kids' s'
    → lock_path unlock p (node n kids sibs) s ≡ climb_node unlock n kids' sibs s'
unfolding lock_path
lock_path_below unlock p n kids sibs kids' s s' other e = rw (other, e) refl

lock_path_beside :
    (unlock : Bool) (p : ℕ) (n : Node) (kids sibs sibs' : Forest) (s s' : SizeInfo)
    → (n.uuid == p) ≡ false
    → count p (uuids kids) ≡ 0
    → lock_path unlock p sibs s ≡ Climb.climbed sibs' s'
    → lock_path unlock p (node n kids sibs) s ≡ Climb.climbed (node n kids sibs') s'
unfolding lock_path
lock_path_beside unlock p n kids sibs sibs' s s' other gone e =
    rw (other, lock_path-absent unlock p kids s gone, e) refl

pub lock_path-Climbs :
    (unlock : Bool) (p : ℕ) (held : Locks) (f : Forest) (s : SizeInfo) (e q : ℕ)
    → count p (uuids f) ≡ 1
    → IsCounted (before unlock p held) f
    → IsSized f e q s
    → Climbs unlock p held f s e q
unfolding lock_path
lock_path-Climbs unlock p held bare s e q one c z = absurd (unfold count in omega (arith, one))
lock_path-Climbs unlock p held (node n kids sibs) s e q one c z =
    let names = node-uuids 0 n kids sibs p in
    elim (Bool-cases (n.uuid == p)) [
      | inl here ↦
          climb_up unlock p held n kids kids sibs s s e q (ground (arith, names, one, here)) c
            (SameSpans-refl kids)
            (absent-IsCounted unlock p held kids (ground (arith, names, one, here)) c.1)
            (absent-IsCounted unlock p held sibs (ground (arith, names, one, here)) c.2) z
            (rw here refl)
      | inr other ↦ elim (Bool-cases (count p (uuids kids) == 0)) [
        | inl none_below ↦
            let deep =
              lock_path-Climbs unlock p held sibs s (e + free_size n + total free_size kids)
                (q + held_size n + total held_size kids)
                (ground (arith, names, one, other, none_below)) c.2
                (record { free = omega (arith, z.free); held = omega (arith, z.held) }) in
            record {
              out = node n kids deep.out;
              sizes = deep.sizes;
              runs =
                  lock_path_beside unlock p n kids sibs deep.out s deep.sizes other
                    (ground (arith, none_below)) deep.runs;
              same = (refl, refl, refl, refl, SameSpans-refl kids, deep.same);
              counted = (
                beside_refs unlock p held n kids (ground (arith, other, none_below)) c.0,
                absent-IsCounted unlock p held kids (ground (arith, none_below)) c.1,
                deep.counted,
              );
              sized = record {
                free = omega (arith, deep.sized.free);
                held = omega (arith, deep.sized.held);
              };
            }
        | inr some_below ↦
            let here_or_below : (if n.uuid == p then 1 else 0) + count p (uuids kids) ≡ 1 =
              ground (arith, names, one, some_below) in
            let deep =
              lock_path-Climbs unlock p held kids s (e + free_size n + total free_size sibs)
                (q + held_size n + total held_size sibs) (ground (arith, here_or_below, other)) c.1
                (record { free = omega (arith, z.free); held = omega (arith, z.held) }) in
            climb_up unlock p held n kids deep.out sibs s deep.sizes e q here_or_below c deep.same
              deep.counted
              (absent-IsCounted unlock p held sibs (ground (arith, names, one, some_below)) c.2)
              (record {
                free = omega (arith, deep.sized.free);
                held = omega (arith, deep.sized.held);
              })
              (lock_path_below unlock p n kids sibs deep.out s deep.sizes other deep.runs)
      ]
    ]
