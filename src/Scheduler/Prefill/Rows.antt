-- ===== src/Scheduler/Prefill/Rows.antt =====
-- Where the rows of the queued requests are after a prefill pass.
use free_token_intel.Prelude.{
  ℕ, ◌+◌, ◌-◌, ◌≡◌, refl, Bool, some, List, [], ◌∷◌, ◌++◌, arith, select, range_from, count,
  IsDistinct,
}
use free_token_intel.Scheduler.Req.{PendingReq, Heap, Batch, rows}
use free_token_intel.Scheduler.Refs.{Below, Grows}
use free_token_intel.Scheduler.Prefill.{
  Pass, Limits, walk, unadmitted, first_pass, batch_of, finish, schedule_next_batch,
}
use free_token_intel.Scheduler.Prefill.Walk.{Walks, IsReady, IsReady-Grows, walk-Walks}
use free_token_intel.Scheduler.Prefill.Budget.{finish-batch}
use free_token_intel.Scheduler.Prefill.Oids.{
  oids, oids-append, Apart, admit-Apart, tail-Apart, Walks-Grows, unadmitted_none, unadmitted_taken,
  unadmitted_skipped, admitted_oids,
}
use free_token_intel.Scheduler.Prefill.Queue.{queue_rows, rows-append, Walks-rows}
use free_token_intel.Scheduler.Prefill.Split.{plain, IsReady-append, Walks-IsSplit}
use free_token_intel.Scheduler.Prefill.Run.{AreLive, sub_self, Walks-IsRun, Walks-AreLive}

-- The identities of the queue are those admitted and those left.
Walks-oids :
    {s t : Pass} {ps : List PendingReq} (o : ℕ)
    → Walks s ps t
    → Apart s ps
    → count o (oids t.admitted) + count o (oids (unadmitted t.admitted ps))
      ≡ count o (oids s.admitted) + count o (oids ps)
unfolding count
Walks-oids o Walks.done d = refl
Walks-oids o (Walks.takes {s} {t} {p} {ps} a r h w) d =
    rw (unadmitted_taken s t p ps a r w)
      (omega (arith, Walks-oids o w (admit-Apart s p ps a r d), admitted_oids s p a r o))
Walks-oids o (Walks.stops {s} {p} {ps} e) d = rw (unadmitted_none s (p ∷ ps) d)
Walks-oids o (Walks.skips {s} {t} {p} {ps} e w) d =
    rw (unadmitted_skipped s t p ps d w) (omega (arith, Walks-oids o w (tail-Apart s p ps d)))

IsReady-select :
    (h : Heap) (keep : PendingReq → Bool) (ps : List PendingReq)
    → IsReady h ps
    → IsReady h (select keep ps)
IsReady-select h keep [] v = tt
IsReady-select h keep (p ∷ ps) v = ground (arith, IsReady-select h keep ps v.2)

-- What a pass does to the queue of one step: the batch's requests and the queue that is left.
pub record Passes (h : Heap) (pending : List PendingReq) (b : Batch) (k : Heap)
    (q : List PendingReq) : Type 0 where
  pub rows_kept :
      (x : ℕ)
      → count x (queue_rows h pending)
        ≡ count x (queue_rows k q) + count x (rows k (plain k b.reqs))
  pub ready : IsReady k q
  pub distinct : IsDistinct (oids q)
  pub grows : Grows h k
  pub exist : Below k b.reqs
  pub alive : AreLive k b.reqs
  pub fresh : b.reqs ≡ range_from h.next_ref (k.next_ref - h.next_ref)

queue_after : Pass → List PendingReq → List PendingReq
queue_after s ps = s.chunked_list ++ unadmitted s.admitted ps

walk-Passes :
    (l : Limits) (inflight running : ℕ) (h : Heap) (ps : List PendingReq)
    → IsReady h ps
    → IsDistinct (oids ps)
    → let s = walk (first_pass l inflight running h) ps in
      Passes h ps (batch_of s) s.heap (queue_after s ps)
unfolding queue_after count
walk-Passes l inflight running h ps ready d =
    let first = first_pass l inflight running h in
    let w = walk-Walks first ps ready in
    let t = walk first ps in
    let g = Walks-Grows w in
    let apart : Apart first ps = λ o. omega (arith, d o) in
    let v =
      Walks-IsSplit w
        (record { below = tt; ready = tt; split = λ x. refl; again = λ o. omega arith }) in
    record {
      rows_kept = λ x. omega (
        arith,
        Walks-rows x w apart ready tt,
        v.split x,
        rows-append t.heap x t.chunked_list (unadmitted t.admitted ps),
      );
      ready =
          IsReady-append t.heap t.chunked_list (unadmitted t.admitted ps) v.ready
            (IsReady-select t.heap _ ps (IsReady-Grows ps g ready));
      distinct = λ o. omega (
        arith,
        d o,
        Walks-oids o w apart,
        v.again o,
        oids-append o t.chunked_list (unadmitted t.admitted ps),
      );
      grows = g;
      exist = v.below;
      alive = Walks-AreLive w refl;
      fresh = (Walks-IsRun w (record { start = omega arith; run = rw (sub_self h.next_ref) })).run;
    }

finish-queue :
    (pending : List PendingReq) (s : Pass) {b : Batch} {h : Heap} {q : List PendingReq}
    → finish pending s ≡ (some b, h, q)
    → q ≡ queue_after s pending
unfolding queue_after
finish-queue pending s f = ground arith

-- A prefill pass loses no request and doubles none: the page-table rows of the queue are afterwards
-- held, each as often, by the requests left in the queue and by the batch's finished prompts; the
-- queued objects stay distinct, within their prompts, and refer to existing chunks; no existing
-- request object is changed.
pub schedule_next_batch-Passes :
    (l : Limits) (inflight running : ℕ) (h : Heap) (pending : List PendingReq) {b : Batch}
    {k : Heap} {q : List PendingReq}
    → IsReady h pending
    → IsDistinct (oids pending)
    → schedule_next_batch l inflight running h pending ≡ (some b, k, q)
    → Passes h pending b k q
unfolding schedule_next_batch
schedule_next_batch-Passes l inflight running h [] ready d e = absurd (ground arith)
schedule_next_batch-Passes l inflight running h (p ∷ ps) ready d e =
    let s = walk (first_pass l inflight running h) (p ∷ ps) in
    let (eb, ek) = finish-batch (p ∷ ps) s e in
    rw (eb, ek, finish-queue (p ∷ ps) s e) (walk-Passes l inflight running h (p ∷ ps) ready d)
