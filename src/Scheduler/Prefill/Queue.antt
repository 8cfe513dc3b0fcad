-- ===== src/Scheduler/Prefill/Queue.antt =====
-- One prefill pass and the queue: where the requests and their rows go.
use free_token_intel.Prelude.{
  ℕ, ◌+◌, ◌≡◌, refl, ap, Option, none, some, List, [], ◌∷◌, ◌++◌, map, arith, count, count-append,
}
use mathlib.Core.List.{map-append}
use free_token_intel.Scheduler.Req.{Req, PendingReq, Heap, alloc, row_of, rows}
use free_token_intel.Scheduler.Refs.{
  Below, Grows, Grows-refl, Grows-alloc, Below-alloc, rows-Grows, alloc-cell_new,
}
use free_token_intel.Scheduler.Adder.{Adder}
use free_token_intel.Scheduler.Adder.Outcome.{row_of_fresh, row_of_continued}
use free_token_intel.Scheduler.Prefill.{Pass, admit, unadmitted}
use free_token_intel.Scheduler.Prefill.Walk.{Walks, IsReady, IsKnown, IsReady-alloc}
use free_token_intel.Scheduler.Prefill.Oids.{
  Apart, admit-Apart, tail-Apart, Walks-Grows, unadmitted_none, unadmitted_taken,
  unadmitted_skipped,
}

abbrev pub queue_rows : Heap → List PendingReq → List ℕ
queue_rows h = map (row_of h)

pub rows-append :
    (h : Heap) (a : ℕ) (ps qs : List PendingReq)
    → count a (queue_rows h (ps ++ qs)) ≡ count a (queue_rows h ps) + count a (queue_rows h qs)
unfolding count
rows-append h a [] qs = omega arith
rows-append h a (p ∷ ps) qs = omega (arith, rows-append h a ps qs)

pub row_of-Grows :
    {h k : Heap} (p : PendingReq) → Grows h k → IsKnown h p.chunked_req → row_of k p ≡ row_of h p
row_of-Grows {h} {k} p g known = by_kind p.chunked_req refl known
  where
    by_kind : (o : Option ℕ) → p.chunked_req ≡ o → IsKnown h o → row_of k p ≡ row_of h p
    by_kind none e b = rw (row_of_fresh h p e, row_of_fresh k p e)
    by_kind (some c) e b = rw (row_of_continued h p c e, row_of_continued k p c e, g.same c b.0)

pub queue_rows-Grows :
    {h k : Heap} (ps : List PendingReq)
    → Grows h k
    → IsReady h ps
    → queue_rows k ps ≡ queue_rows h ps
queue_rows-Grows [] g ready = refl
queue_rows-Grows (p ∷ ps) g ready = rw (row_of-Grows p g ready.1, queue_rows-Grows ps g ready.2)

pub admit-rows :
    (s : Pass) (p : PendingReq) (a : Adder) (r : Req) (x : ℕ)
    → Below s.heap s.reqs
    → count x (rows (admit s p a r).heap (admit s p a r).reqs)
      ≡ count x (rows s.heap s.reqs) + count x (r.table_idx ∷ [])
unfolding admit
admit-rows s p a r x b =
    rw
      (
        map-append (λ c. ((alloc s.heap r).cell c).table_idx) s.reqs (s.heap.next_ref ∷ []),
        rows-Grows s.reqs (Grows-alloc s.heap r (Grows-refl (alloc s.heap r))) b,
        alloc-cell_new s.heap r,
      )
      (count-append x (rows s.heap s.reqs) (r.table_idx ∷ []))

module _ (s : Pass) (p : PendingReq) (ps : List PendingReq) (a : Adder) (r : Req) where
  admit-IsReady : IsReady s.heap ps → IsReady (admit s p a r).heap ps
  unfolding admit
  admit-IsReady ready = IsReady-alloc s.heap r ps ready

  admit-queue_rows : IsReady s.heap ps → queue_rows (admit s p a r).heap ps ≡ queue_rows s.heap ps
  unfolding admit
  admit-queue_rows ready =
      queue_rows-Grows ps (Grows-alloc s.heap r (Grows-refl (alloc s.heap r))) ready

pub admit-Below :
    (s : Pass) (p : PendingReq) (a : Adder) (r : Req)
    → Below s.heap s.reqs
    → Below (admit s p a r).heap (admit s p a r).reqs
unfolding admit
admit-Below s p a r b = Below-alloc s.heap r s.reqs b

-- The rows of the queue and of the batch, before and after.
pub Walks-rows :
    {s t : Pass} {ps : List PendingReq} (x : ℕ)
    → Walks s ps t
    → Apart s ps
    → IsReady s.heap ps
    → Below s.heap s.reqs
    → count x (queue_rows s.heap ps) + count x (rows s.heap s.reqs)
      ≡ count x (queue_rows t.heap (unadmitted t.admitted ps)) + count x (rows t.heap t.reqs)
unfolding count
Walks-rows x Walks.done d ready b = refl
Walks-rows x (Walks.takes {s} {t} {p} {ps} a r h w) d ready b =
    rw (unadmitted_taken s t p ps a r w) (
      omega (
        arith,
        Walks-rows x w (admit-Apart s p ps a r d) (admit-IsReady s p ps a r ready.2)
            (admit-Below s p a r b),
        admit-rows s p a r x b,
        ap (count x) (admit-queue_rows s p ps a r ready.2),
        ap (λ n. count x (n ∷ [])) h.carries.row_kept,
      ))
Walks-rows x (Walks.stops {s} {p} {ps} e) d ready b = rw (unadmitted_none s (p ∷ ps) d)
Walks-rows x (Walks.skips {s} {t} {p} {ps} e w) d ready b =
    rw (unadmitted_skipped s t p ps d w, row_of-Grows p (Walks-Grows w) ready.1)
      (omega (arith, Walks-rows x w (tail-Apart s p ps d) ready.2 b))
