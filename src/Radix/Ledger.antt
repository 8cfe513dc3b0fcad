-- ===== src/Radix/Ledger.antt =====
-- The locks that are held, as a number for each node, against the reference counts and the sizes.
use free_token_intel.Prelude.{
  ℕ, ◌+◌, ◌≡◌, refl, ap, Bool, true, false, arith, ◌==◌, if◌then◌else◌, length, count,
}
use free_token_intel.Radix.{Node, Forest, bare, node}
use free_token_intel.Radix.Locks.{SizeInfo}
use free_token_intel.Radix.Names.{uuids, node-uuids}
use free_token_intel.Radix.Totals.{total}

-- How many locks are held on each node, and one more of them.
abbrev pub Locks : Type 0
Locks = ℕ → ℕ

abbrev pub one_more : ℕ → Locks → Locks
one_more p held u = held u + (if u == p then 1 else 0)

-- The locks inside a tree.
abbrev pub pins : Locks → Forest → ℕ
pins held f = total (λ n. held n.uuid) f

-- A node's reference count is the number of the locks held on it or below it.
abbrev pub IsCounted : Locks → Forest → Type 0
IsCounted held bare = Unit
IsCounted held (node n kids sibs) =
    (n.ref_count ≡ held n.uuid + pins held kids) × IsCounted held kids × IsCounted held sibs

abbrev pub free_size : Node → ℕ
free_size n = if n.ref_count == 0 then length n.key else 0

abbrev pub held_size : Node → ℕ
held_size n = if n.ref_count == 0 then 0 else length n.key

-- The sizes are those of the tree's nodes, on top of what is outside of it.
pub record IsSized (f : Forest) (e p : ℕ) (s : SizeInfo) : Type 0 where
  pub free : s.evictable_size ≡ total free_size f + e
  pub held : s.protected_size ≡ total held_size f + p

-- The same nodes, with other reference counts.
abbrev pub SameSpans : Forest → Forest → Type 0
SameSpans bare bare = Unit
SameSpans bare (node n kids sibs) = ⊥
SameSpans (node n kids sibs) bare = ⊥
SameSpans (node n kids sibs) (node m kids' sibs') =
    (m.key ≡ n.key)
    × (m.value ≡ n.value)
    × (m.uuid ≡ n.uuid)
    × (m.timestamp ≡ n.timestamp)
    × SameSpans kids kids'
    × SameSpans sibs sibs'

module _ (p : ℕ) (held : Locks) where
  pub pins-one_more : (f : Forest) → pins (one_more p held) f ≡ pins held f + count p (uuids f)
  unfolding count
  pins-one_more bare = refl
  pins-one_more (node n kids sibs) =
      ground (arith, pins-one_more kids, pins-one_more sibs, node-uuids 0 n kids sibs p)

  pub locked-IsCounted :
      (f : Forest) → count p (uuids f) ≡ 0 → IsCounted held f → IsCounted (one_more p held) f
  locked-IsCounted bare h c = tt
  locked-IsCounted (node n kids sibs) h c =
      let names = node-uuids 0 n kids sibs p in
      (
        ground (arith, c.0, names, pins-one_more kids),
        locked-IsCounted kids (omega (arith, names)) c.1,
        locked-IsCounted sibs (omega (arith, names)) c.2,
      )

  pub unlocked-IsCounted :
      (f : Forest) → count p (uuids f) ≡ 0 → IsCounted (one_more p held) f → IsCounted held f
  unlocked-IsCounted bare h c = tt
  unlocked-IsCounted (node n kids sibs) h c =
      let names = node-uuids 0 n kids sibs p in
      (
        ground (arith, c.0, names, pins-one_more kids),
        unlocked-IsCounted kids (omega (arith, names)) c.1,
        unlocked-IsCounted sibs (omega (arith, names)) c.2,
      )

-- The locks around one call of `lock_handle`.
abbrev pub before : Bool → ℕ → Locks → Locks
before unlock p held = if unlock then one_more p held else held

abbrev pub after : Bool → ℕ → Locks → Locks
after unlock p held = if unlock then held else one_more p held

-- A node away from the path keeps its count.
pub beside_refs :
    (unlock : Bool) (p : ℕ) (held : Locks) (n : Node) (kids : Forest)
    → (if n.uuid == p then 1 else 0) + count p (uuids kids) ≡ 0
    → n.ref_count ≡ before unlock p held n.uuid + pins (before unlock p held) kids
    → n.ref_count ≡ after unlock p held n.uuid + pins (after unlock p held) kids
beside_refs true p held n kids h r = omega (arith, r, pins-one_more p held kids)
beside_refs false p held n kids h r = omega (arith, r, pins-one_more p held kids)

pub absent-IsCounted :
    (unlock : Bool) (p : ℕ) (held : Locks) (f : Forest)
    → count p (uuids f) ≡ 0
    → IsCounted (before unlock p held) f
    → IsCounted (after unlock p held) f
absent-IsCounted true p held f h c = unlocked-IsCounted p held f h c
absent-IsCounted false p held f h c = locked-IsCounted p held f h c

pub SameSpans-refl : (f : Forest) → SameSpans f f
SameSpans-refl bare = tt
SameSpans-refl (node n kids sibs) =
    (refl, refl, refl, refl, SameSpans-refl kids, SameSpans-refl sibs)

pub SameSpans-pins : (held : Locks) (f g : Forest) → SameSpans f g → pins held g ≡ pins held f
SameSpans-pins held bare bare e = refl
SameSpans-pins held bare (node n kids sibs) e = absurd e
SameSpans-pins held (node n kids sibs) bare e = absurd e
SameSpans-pins held (node n kids sibs) (node m kids' sibs') e =
    let own : held m.uuid ≡ held n.uuid = ap held e.2 in
    omega (arith, own, SameSpans-pins held kids kids' e.4, SameSpans-pins held sibs sibs' e.5)

pub SameSpans-uuids : (f g : Forest) → SameSpans f g → uuids g ≡ uuids f
SameSpans-uuids bare bare e = refl
SameSpans-uuids bare (node n kids sibs) e = absurd e
SameSpans-uuids (node n kids sibs) bare e = absurd e
SameSpans-uuids (node n kids sibs) (node m kids' sibs') e =
    rw (e.2, SameSpans-uuids kids kids' e.4, SameSpans-uuids sibs sibs' e.5) refl
