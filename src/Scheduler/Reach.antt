-- ===== src/Scheduler/Reach.antt =====
-- The histories of the serving loop: requests are added and aborted between steps, in any order.
use free_token_intel.Prelude.{
  ℕ, ◌+◌, ◌≡◌, refl, sym, ap, subst, ◌∙◌, Option, none, some, List, [], ◌∷◌, arith, ok, length,
  range_from, count, IsSorted,
}
use free_token_intel.Scheduler.Req.{PendingReq, Heap, Batch, rows}
use free_token_intel.Scheduler.Refs.{Grows, Grows-refl}
use free_token_intel.Scheduler.Prefill.{Pass, walk, first_pass, finish, Limits}
use free_token_intel.Scheduler.Prefill
use free_token_intel.Scheduler.Prefill.Walk.{IsReady, walk-Walks}
use free_token_intel.Scheduler.Prefill.Oids.{Walks-Grows}
use free_token_intel.Scheduler.Prefill.Queue.{queue_rows}
use free_token_intel.Scheduler.Prefill.Rows.{Passes, schedule_next_batch-Passes}
use free_token_intel.Scheduler.Decode.{inflight_tokens, sort_by_uid}
use free_token_intel.Scheduler.Decode
use free_token_intel.Scheduler.Core.{
  Config, Scheduler, init, add, abort, limits, complete, schedule, schedule_prefill,
}
use free_token_intel.Scheduler.Forward.{after_forward, step}
use free_token_intel.Scheduler.Lifecycle.{IsSound, IsNew, init-IsSound, add-IsSound}
use free_token_intel.Scheduler.Abort.{abort-IsSound}
use free_token_intel.Scheduler.Loop.{
  count-sort_by_uid, IsSound-Grows, prefill-IsSound, decode-IsSound,
}

-- A pass that builds no batch leaves the queue as it was.
finish-none :
    (pending : List PendingReq) (s : Pass) {h : Heap} {q : List PendingReq}
    → finish pending s ≡ (none, h, q)
    → (h ≡ s.heap) × (q ≡ pending)
finish-none pending s e = ground arith

empty-pass :
    (l : Limits) (inflight running : ℕ) (h : Heap) (pending : List PendingReq) {k : Heap}
    {q : List PendingReq}
    → IsReady h pending
    → Prefill.schedule_next_batch l inflight running h pending ≡ (none, k, q)
    → Grows h k × (q ≡ pending)
unfolding Prefill.schedule_next_batch
empty-pass l inflight running h [] {k} ready e =
    let same : k ≡ h = ground arith in (subst (Grows h) (sym same) (Grows-refl h), ground arith)
empty-pass l inflight running h (p ∷ ps) ready e =
    let first = first_pass l inflight running h in
    let (ek, eq) = finish-none (p ∷ ps) (walk first (p ∷ ps)) e in
    (subst (Grows h) (sym ek) (Walks-Grows (walk-Walks first (p ∷ ps) ready)), eq)

decode-batch :
    (h : Heap) (running : List ℕ) {b : Batch}
    → Decode.schedule_next_batch h running ≡ some b
    → b.reqs ≡ sort_by_uid h running
unfolding Decode.schedule_next_batch
decode-batch h [] e = absurd (ground arith)
decode-batch h (r ∷ rs) e = ground arith

-- What `schedule` may return: a prefill batch, or a decode batch over a queue left as it was.
data Schedules (s : Scheduler) (b : Batch) (t : Scheduler) : Type 0 where
  prefills :
      (k : Heap) (q : List PendingReq)
      → t ≡ record s { heap = k; pending = q }
      → Passes s.heap s.pending b k q
      → Schedules s b t
  decodes :
      (k : Heap)
      → t ≡ record s { heap = k }
      → Grows s.heap k
      → b.reqs ≡ sort_by_uid k s.running
      → Schedules s b t

schedule-Schedules :
    {n : ℕ} (s : Scheduler) {b : Batch} {t : Scheduler}
    → IsSound n s
    → schedule s ≡ (some b, t)
    → Schedules s b t
unfolding schedule schedule_prefill
schedule-Schedules s {b} {t} v e = by_pass r.0 r.1 r.2 refl
  where
    l : Limits
    l = limits s

    inflight : ℕ
    inflight = inflight_tokens s.config.page_size s.heap s.running

    r : Option Batch × Heap × List PendingReq
    r = Prefill.schedule_next_batch l inflight (length s.running) s.heap s.pending

    by_pass : (o : Option Batch) (k : Heap) (q : List PendingReq) → r ≡ (o, k, q) → Schedules s b t
    by_pass (some c) k q er =
        let eb : c ≡ b = ground arith in
        let et : t ≡ record s { heap = k; pending = q } = ground arith in
        let p =
          schedule_next_batch-Passes l inflight (length s.running) s.heap s.pending v.ready
            v.distinct er in
        Schedules.prefills k q et (subst (λ x. Passes s.heap s.pending x k q) eb p)
    by_pass none k q er =
        let (g, eq) = empty-pass l inflight (length s.running) s.heap s.pending v.ready er in
        let et : t ≡ record s { heap = k } = ground (arith, eq) in
        Schedules.decodes k et g (decode-batch k s.running {b = b} (ground arith))

-- One step of the loop, whether it runs a prefill batch or a decode batch, and whatever the model
-- samples (one token for each request of the batch), keeps the invariant.
pub step-IsSound :
    {n : ℕ} (s : Scheduler) (eos : ℕ) (toks : List ℕ) {b : Batch} {t u : Scheduler}
    → IsSound n s
    → schedule s ≡ (some b, t)
    → length b.reqs ≡ length toks
    → step s eos toks ≡ some u
    → IsSound n u
unfolding step
step-IsSound {n = m} s eos toks {b} {t} {u} v es el e =
    let eu : u ≡ complete (record t { heap = after_forward b.phase eos t.heap b.reqs toks }) b =
      ground (arith, es) in
    subst (IsSound m) (sym eu) (by_kind (schedule-Schedules s v es))
  where
    by_kind :
        Schedules s b t
        → IsSound m (complete (record t { heap = after_forward b.phase eos t.heap b.reqs toks }) b)
    by_kind (Schedules.prefills k q et p) = rw et (prefill-IsSound s b k q eos toks v p el)
    by_kind (Schedules.decodes k et g eb) = rw et (
        decode-IsSound (record s { heap = k }) b eos toks (IsSound-Grows s k v g)
          (λ x. ap (count x) eb ∙ count-sort_by_uid k x s.running) el)

-- What can happen to a scheduler: a request is handed in, one is aborted, or the loop turns once.
pub data Moves (s : Scheduler) : Scheduler → Type 0 where
  adds : {t : Scheduler} (p : PendingReq) (uid : ℕ) → IsNew s p → add s p ≡ ok (t, uid) → Moves s t
  aborts : (uid : ℕ) → Moves s (abort s uid).0
  turns :
      {t u : Scheduler} {b : Batch} (eos : ℕ) (toks : List ℕ)
      → schedule s ≡ (some b, t)
      → length b.reqs ≡ length toks
      → step s eos toks ≡ some u
      → Moves s u

pub data Reach (s : Scheduler) : Scheduler → Type 0 where
  start : Reach s s
  then_moves : {t u : Scheduler} → Reach s t → Moves t u → Reach s u

Moves-IsSound : {n : ℕ} {s t : Scheduler} → Moves s t → IsSound n s → IsSound n t
Moves-IsSound (Moves.adds {t} p uid new done) v = add-IsSound _ p new v done
Moves-IsSound (Moves.aborts uid) v = abort-IsSound _ uid v
Moves-IsSound (Moves.turns eos toks es el e) v = step-IsSound _ eos toks v es el e

Reach-IsSound : {n : ℕ} {s t : Scheduler} → Reach s t → IsSound n s → IsSound n t
Reach-IsSound Reach.start v = v
Reach-IsSound (Reach.then_moves r m) v = Moves-IsSound m (Reach-IsSound r v)

-- Whatever has happened to a scheduler since it was made - requests added and aborted, prefill and
-- decode batches run, prompts chunked, requests finished, in any order - each of its page-table rows
-- has exactly one owner: the free list, a queued request or a running request; no other row has one;
-- and the free list is in ascending order, so that the lowest free row is handed out next.
pub Reach-rows :
    (c : Config) (cache_budget : ℕ) (h : Heap) {s : Scheduler}
    → Reach (init c cache_budget h) s
    → ((x : ℕ)
        → count x s.free_slots
            + count x (queue_rows s.heap s.pending)
            + count x (rows s.heap s.running)
          ≡ count x (range_from 0 c.max_running_req))
      × IsSorted s.free_slots
Reach-rows c cache_budget h r =
    let v = Reach-IsSound r (init-IsSound c cache_budget h) in (v.owned, v.sorted)
