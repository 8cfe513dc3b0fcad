-- ===== src/Scheduler/Prefill/Run.antt =====
-- The references of a pass's requests: consecutive, new, and to live requests.
use free_token_intel.Prelude.{
  ℕ, zero, suc, ◌+◌, ◌-◌, ◌≤◌, ◌≡◌, ap, ◌∙◌, false, List, [], ◌∷◌, ◌++◌, arith, range_from,
}
use free_token_intel.Scheduler.Req.{Req, PendingReq, Heap, alloc}
use free_token_intel.Scheduler.Refs.{Below, Below-alloc, alloc-cell, alloc-cell_new}
use free_token_intel.Scheduler.Adder.{Adder}
use free_token_intel.Scheduler.Prefill.{Pass, admit}
use free_token_intel.Scheduler.Prefill.Walk.{Walks}

-- A pass numbers its requests in the order in which it admits them.
pub record IsRun (lo : ℕ) (s : Pass) : Type 0 where
  pub start : lo ≤ s.heap.next_ref
  pub run : s.reqs ≡ range_from lo (s.heap.next_ref - lo)

range-snoc : (lo n : ℕ) → range_from lo (suc n) ≡ range_from lo n ++ (lo + n) ∷ []
range-snoc lo zero = ap (λ x. x ∷ []) (omega arith)
range-snoc lo (suc n) =
    ap (◌∷◌ lo) (range-snoc (suc lo) n ∙ ap (λ x. range_from (suc lo) n ++ x ∷ []) (omega arith))

pub sub_self : (n : ℕ) → n - n ≡ 0
sub_self n = omega arith

admit-IsRun :
    (lo : ℕ) (s : Pass) (p : PendingReq) (a : Adder) (r : Req)
    → IsRun lo s
    → IsRun lo (admit s p a r)
unfolding admit alloc
admit-IsRun lo s p a r v =
    let n = s.heap.next_ref - lo in
    let e : s.heap.next_ref + 1 - lo ≡ suc n = omega (arith, v.start) in
    let f : lo + n ≡ s.heap.next_ref = omega (arith, v.start) in
    record {
      start = omega (arith, v.start);
      run = rw (e, range-snoc lo n, f) (ap (λ rs. rs ++ s.heap.next_ref ∷ []) v.run);
    }

pub Walks-IsRun :
    {lo : ℕ} {s t : Pass} {ps : List PendingReq} → Walks s ps t → IsRun lo s → IsRun lo t
Walks-IsRun Walks.done v = v
Walks-IsRun {lo} (Walks.takes {s} {t} {p} {ps} a r h w) v = Walks-IsRun w (admit-IsRun lo s p a r v)
Walks-IsRun (Walks.stops e) v = v
Walks-IsRun (Walks.skips e w) v = Walks-IsRun w v

-- No request of a new batch is aborted.
abbrev pub AreLive : Heap → List ℕ → Type 0
AreLive h [] = Unit
AreLive h (r ∷ rs) = ((h.cell r).aborted ≡ false) × AreLive h rs

record IsLive (s : Pass) : Type 0 where
  exist : Below s.heap s.reqs
  live : AreLive s.heap s.reqs

AreLive-alloc :
    (h : Heap) (r : Req) (rs : List ℕ)
    → Below h rs
    → r.aborted ≡ false
    → AreLive h rs
    → AreLive (alloc h r) (rs ++ h.next_ref ∷ [])
AreLive-alloc h r [] b e v = (ap (λ x. x.aborted) (alloc-cell_new h r) ∙ e, tt)
AreLive-alloc h r (x ∷ xs) b e v =
    (ap (λ y. y.aborted) (alloc-cell h r x b.0) ∙ v.0, AreLive-alloc h r xs b.1 e v.1)

admit-IsLive :
    (s : Pass) (p : PendingReq) (a : Adder) (r : Req)
    → r.aborted ≡ false
    → IsLive s
    → IsLive (admit s p a r)
unfolding admit
admit-IsLive s p a r e v = record {
  exist = Below-alloc s.heap r s.reqs v.exist;
  live = AreLive-alloc s.heap r s.reqs v.exist e v.live;
}

Walks-IsLive : {s t : Pass} {ps : List PendingReq} → Walks s ps t → IsLive s → IsLive t
Walks-IsLive Walks.done v = v
Walks-IsLive (Walks.takes {s} {t} {p} {ps} a r h w) v =
    Walks-IsLive w (admit-IsLive s p a r h.carries.is_live v)
Walks-IsLive (Walks.stops e) v = v
Walks-IsLive (Walks.skips e w) v = Walks-IsLive w v

pub Walks-AreLive :
    {s t : Pass} {ps : List PendingReq} → Walks s ps t → s.reqs ≡ [] → AreLive t.heap t.reqs
Walks-AreLive {s} w e = (Walks-IsLive w (record { exist = rw e tt; live = rw e tt })).live
