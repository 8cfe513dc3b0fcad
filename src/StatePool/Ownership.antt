-- ===== src/StatePool/Ownership.antt =====
-- `LinearStatePool` in use: the histories of its callers, and who has its slots.
use free_token_intel.Prelude.{
  ℕ, ◌+◌, ◌-◌, ◌≡◌, refl, Option, List, [], ◌++◌, arith, Result, ok, raise, range_from, count,
  SameItems, IsDistinct, count-append, count-range_below, range-IsDistinct,
}
use free_token_intel.StatePool.{
  Geometry, linear_local_dims, StatePool, init, rebuild, alloc, reclaim_all_slots, free,
  clear_slots, copy_from, reset,
}
use free_token_intel.StatePool.Slots.{alloc_lem}

-- A pool in use: the slots that are out.
pub record InUse (State : Type 0) : Type 0 where
  pub pool : StatePool State
  pub live : List ℕ

module _ {State : Type 0} where
  -- What the callers do: they give back slots that are out, and rebuild or reclaim an idle pool.
  pub data Uses (zeros : State) (w : InUse State) : InUse State → Type 0 where
    allocs :
        (n : ℕ) (q : StatePool State) (slots : List ℕ)
        → alloc w.pool n ≡ ok (q, slots)
        → Uses zeros w (record { pool = q; live = slots ++ w.live })
    frees :
        (slots rest : List ℕ)
        → SameItems w.live (slots ++ rest)
        → Uses zeros w (record { pool = free w.pool slots; live = rest })
    clears : (slots : List ℕ) → Uses zeros w (record w { pool = clear_slots zeros w.pool slots })
    resets : (slot : ℕ) → Uses zeros w (record w { pool = reset zeros w.pool slot })
    copies : (src dst : ℕ) → Uses zeros w (record w { pool = copy_from w.pool src dst })
    rebuilds : (n : ℕ) → w.live ≡ [] → Uses zeros w (record w { pool = rebuild zeros w.pool n })
    reclaims : w.live ≡ [] → Uses zeros w (record w { pool = reclaim_all_slots w.pool })

  pub data InUseAfter (zeros : State) (s : InUse State) : InUse State → Type 0 where
    start : InUseAfter zeros s s
    then_uses : {t u : InUse State} → InUseAfter zeros s t → Uses zeros t u → InUseAfter zeros s u

  abbrev pub IsShared : InUse State → Type 0
  IsShared w =
      (a : ℕ)
      → count a w.pool.free_slots + count a w.live ≡ count a (range_from 1 (w.pool.num_slots - 1))

  alloc-num_slots :
      (p : StatePool State) (n : ℕ) {q : StatePool State} {slots : List ℕ}
      → alloc p n ≡ ok (q, slots)
      → q.num_slots ≡ p.num_slots
  unfolding alloc
  alloc-num_slots p n e = ground arith

  Uses-IsShared : {zeros : State} {w v : InUse State} → Uses zeros w v → IsShared w → IsShared v
  unfolding free reset clear_slots copy_from rebuild reclaim_all_slots count
  Uses-IsShared {zeros} {w} {v} (Uses.allocs n q slots e) k a =
      rw (alloc-num_slots w.pool n {q = q} {slots = slots} e)
        (omega (arith, k a, ((alloc_lem w.pool n).1 q slots e).1 a, count-append a slots w.live))
  Uses-IsShared {zeros} {w} {v} (Uses.frees slots rest same) k a =
      omega (arith, k a, same a, count-append a slots rest, count-append a w.pool.free_slots slots)
  Uses-IsShared (Uses.clears slots) k a = k a
  Uses-IsShared (Uses.resets slot) k a = k a
  Uses-IsShared (Uses.copies src dst) k a = k a
  Uses-IsShared (Uses.rebuilds n idle) k a = rw idle (omega arith)
  Uses-IsShared (Uses.reclaims idle) k a = rw idle (omega arith)

  After-IsShared :
      {zeros : State} {s w : InUse State} → InUseAfter zeros s w → IsShared s → IsShared w
  After-IsShared InUseAfter.start k = k
  After-IsShared (InUseAfter.then_uses r m) k = Uses-IsShared m (After-IsShared r k)

  init-slots :
      (zeros : State) (g : Geometry) (n : ℕ) (ids : Option (List ℕ)) {p : StatePool State}
      → init zeros g n ids ≡ ok p
      → p.free_slots ≡ range_from 1 (p.num_slots - 1)
  unfolding init
  init-slots zeros g n ids {p} e = by_dims (linear_local_dims g) refl
    where
      by_dims :
          (d : Result (ℕ × ℕ))
          → linear_local_dims g ≡ d
          → p.free_slots ≡ range_from 1 (p.num_slots - 1)
      by_dims (raise x) ed = absurd (ground (arith, ed))
      by_dims (ok (c, v)) ed = ground (arith, ed)

  -- Whatever a new pool has been through, provided that its users give back only slots that are out
  -- and rebuild or reclaim it only when none is: each of its slots but the padding slot is either
  -- free or out, once, and no other number is.
  pub InUseAfter-slots :
      (zeros : State) (g : Geometry) (n : ℕ) (ids : Option (List ℕ)) {p : StatePool State}
      {w : InUse State}
      → init zeros g n ids ≡ ok p
      → InUseAfter zeros (record { pool = p; live = [] }) w
      → ((a : ℕ)
          → count a w.pool.free_slots + count a w.live
            ≡ count a (range_from 1 (w.pool.num_slots - 1)))
        × (count 0 w.live ≡ 0)
        × IsDistinct w.live
  unfolding count
  InUseAfter-slots zeros g n ids {p} {w} e r =
      let v = After-IsShared r (λ a. rw (init-slots zeros g n ids e) (omega arith)) in
      let top = w.pool.num_slots - 1 in
      (
        v,
        omega (arith, v 0, count-range_below 0 1 top (omega arith)),
        λ a. omega (arith, v a, range-IsDistinct 1 top a),
      )
