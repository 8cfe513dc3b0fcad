-- ===== src/Scheduler/Prefill/Walk.antt =====
-- The admission loop as a relation: which requests a pass takes, skips, or stops at.
use free_token_intel.Prelude.{
  ℕ, ◌≤◌, ◌<◌, ◌≡◌, refl, ap, ◌∙◌, inl, inr, true, false, Option, none, some, List, [], ◌∷◌, arith,
  if◌then◌else◌, Bool-cases,
}
use free_token_intel.Scheduler.Req.{Req, PendingReq, Heap, input_len, alloc}
use free_token_intel.Scheduler.Refs.{Grows, Grows-alloc, Grows-refl}
use free_token_intel.Scheduler.Adder.{Adder, try_add_one}
use free_token_intel.Scheduler.Adder.Outcome.{
  offset, offset_fresh, offset_continued, Admits, Outcome, try_add_one-Outcome,
}
use free_token_intel.Scheduler.Prefill.{Pass, is_continuation, admit, walk}

-- The part of a queued prompt that is done lies within it, and its chunk is an existing
-- `ChunkedReq`.
abbrev pub IsKnown : Heap → Option ℕ → Type 0
IsKnown h none = Unit
IsKnown h (some c) = (c < h.next_ref) × ((h.cell c).chunked ≡ true)

abbrev pub IsReady : Heap → List PendingReq → Type 0
IsReady h [] = Unit
IsReady h (p ∷ ps) = (offset h p ≤ input_len p) × IsKnown h p.chunked_req × IsReady h ps

pub offset-Grows :
    {h k : Heap} (p : PendingReq) → Grows h k → IsKnown h p.chunked_req → offset k p ≡ offset h p
offset-Grows {h} {k} p g known = by_kind p.chunked_req refl known
  where
    by_kind : (o : Option ℕ) → p.chunked_req ≡ o → IsKnown h o → offset k p ≡ offset h p
    by_kind none e b = rw (offset_fresh h p e, offset_fresh k p e)
    by_kind (some c) e b =
        rw (offset_continued h p c e, offset_continued k p c e)
          (ap (λ x. x.device_len) (g.same c b.0))

IsKnown-Grows : {h k : Heap} (o : Option ℕ) → Grows h k → IsKnown h o → IsKnown k o
IsKnown-Grows none g b = tt
IsKnown-Grows (some c) g b = (omega (arith, g.more), ap (λ r. r.chunked) (g.same c b.0) ∙ b.1)

pub IsReady-Grows : {h k : Heap} (ps : List PendingReq) → Grows h k → IsReady h ps → IsReady k ps
IsReady-Grows [] g ready = tt
IsReady-Grows (p ∷ ps) g ready = (
  rw (offset-Grows p g ready.1) ready.0,
  IsKnown-Grows p.chunked_req g ready.1,
  IsReady-Grows ps g ready.2,
)

pub IsReady-alloc :
    (h : Heap) (r : Req) (ps : List PendingReq) → IsReady h ps → IsReady (alloc h r) ps
IsReady-alloc h r ps ready = IsReady-Grows ps (Grows-alloc h r (Grows-refl (alloc h r))) ready

pub data Walks : Pass → List PendingReq → Pass → Type 0 where
  done : {s : Pass} → Walks s [] s
  takes :
      {s t : Pass} {p : PendingReq} {ps : List PendingReq} (a : Adder) (r : Req)
      → Admits s.heap s.adder p a r
      → Walks (admit s p a r) ps t
      → Walks s (p ∷ ps) t
  stops :
      {s : Pass} {p : PendingReq} {ps : List PendingReq}
      → is_continuation p ≡ true
      → Walks s (p ∷ ps) s
  skips :
      {s t : Pass} {p : PendingReq} {ps : List PendingReq}
      → is_continuation p ≡ false
      → Walks s ps t
      → Walks s (p ∷ ps) t

-- The rest of the loop after one call of `try_add_one`, for any result that it can have.
walk-step :
    (s : Pass) (p : PendingReq) (ps : List PendingReq) (b : Adder) (o : Option Req)
    → Outcome s.heap s.adder p b o
    → ((t : Pass) → IsReady t.heap ps → Walks t ps (walk t ps))
    → IsReady s.heap ps
    → Walks s (p ∷ ps) (elim o as (λ _. Pass) [
      | none ↦
          if is_continuation p then record s { adder = b } else walk (record s { adder = b }) ps
      | some r ↦ walk (admit s p b r) ps
    ])
unfolding admit
walk-step s p ps b none h rest k = rw h (elim (Bool-cases (is_continuation p)) [
  | inl e ↦ rw e (Walks.stops e)
  | inr e ↦ rw e (Walks.skips e (rest s k))
])
walk-step s p ps b (some r) h rest k =
    Walks.takes b r h (rest (admit s p b r) (IsReady-alloc s.heap r ps k))

pub walk-Walks : (s : Pass) (ps : List PendingReq) → IsReady s.heap ps → Walks s ps (walk s ps)
unfolding walk
walk-Walks s [] k = Walks.done
walk-Walks s (p ∷ ps) k =
    walk-step s p ps (try_add_one s.heap s.adder p).0 (try_add_one s.heap s.adder p).1
      (try_add_one-Outcome s.heap s.adder p k.0) (λ t ready. walk-Walks t ps ready) k.2
