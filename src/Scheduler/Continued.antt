-- ===== src/Scheduler/Continued.antt =====
-- The next batch of a scheduler whose queue begins with a prompt in chunks (scheduler/prefill.py).
use free_token_intel.Prelude.{
  ℕ, ◌+◌, ◌<◌, min, ◌≡◌, refl, sym, ap, subst, ◌∙◌, true, Option, none, some, List, [], ◌∷◌, ◌++◌,
  arith, if◌then◌else◌, length,
}
use free_token_intel.Scheduler.Req.{Req, PendingReq, Heap, Batch, alloc, input_len}
use free_token_intel.Scheduler.Adder.{Adder, resume, try_add_one}
use free_token_intel.Scheduler.Adder.Progress.{IsPart, Gains, resume-Gains}
use free_token_intel.Scheduler.Decode
use free_token_intel.Scheduler.Decode.{inflight_tokens}
use free_token_intel.Scheduler.Prefill.{
  Pass, is_continuation, admit, walk, first_pass, finish, batch_of, unadmitted, schedule_next_batch,
}
use free_token_intel.Scheduler.Core.{Scheduler, limits, schedule_prefill, schedule}
use free_token_intel.Scheduler.Extends.{Extends, walk-Extends}

abbrev PassResult : Type 0
PassResult = Option Batch × Heap × List PendingReq

-- The queue begins with a prompt in chunks, the last of which is `ref`.
pub record Heads (s : Scheduler) (p : PendingReq) (rest : List PendingReq) (ref : ℕ) : Type 0 where
  pub queue : s.pending ≡ p ∷ rest
  pub chunk : p.chunked_req ≡ some ref
  pub part : IsPart p (s.heap.cell ref)
  pub left : (s.heap.cell ref).device_len < input_len p

-- What the next batch does with it.
pub record Continued (s : Scheduler) (p : PendingReq) (ref : ℕ) : Type 0 where
  pub batch : Batch
  pub after : Scheduler
  pub runs : schedule s ≡ (some batch, after)
  pub made : ℕ
  pub others : List ℕ
  pub first : batch.reqs ≡ made ∷ others
  pub part : IsPart p (after.heap.cell made)
  pub same_uid : (after.heap.cell made).uid ≡ p.uid
  pub gained :
      min ((s.heap.cell ref).device_len + s.config.max_extend_tokens) (input_len p)
      ≡ (after.heap.cell made).device_len
  pub same_config : after.config ≡ s.config
  pub rest : List PendingReq
  pub again :
      (after.heap.cell made).chunked ≡ true
      → after.pending ≡ record p { chunked_req = some made } ∷ rest

try_continued :
    (h : Heap) (a : Adder) (p : PendingReq) (ref : ℕ) (b : Adder) (r : Req)
    → 0 < a.token_budget
    → p.chunked_req ≡ some ref
    → resume a p (h.cell ref) ≡ some (b, r)
    → try_add_one h a p ≡ (b, some r)
unfolding try_add_one
try_continued h a p ref b r some_budget chunk runs = ground (arith, some_budget, chunk, runs)

walk_continued :
    (s : Pass) (p : PendingReq) (ps : List PendingReq) (a : Adder) (r : Req)
    → try_add_one s.heap s.adder p ≡ (a, some r)
    → walk s (p ∷ ps) ≡ walk (admit s p a r) ps
unfolding walk
walk_continued s p ps a r runs =
    ap
      (λ (result : Adder × Option Req). elim result.1 as (λ _. Pass) [
        | none ↦
            if is_continuation p
            then record s { adder = result.0 }
            else walk (record s { adder = result.0 }) ps
        | some q ↦ walk (admit s p result.0 q) ps
      ])
      runs

module _ (s : Scheduler) (p : PendingReq) (ps : List PendingReq) (ref : ℕ) (h : Heads s p ps ref)
    (some_budget : 0 < s.config.max_extend_tokens) where
  abbrev begun : Pass
  begun =
      first_pass (limits s) (inflight_tokens s.config.page_size s.heap s.running) (length s.running)
        s.heap

  gains : Gains begun.adder p (s.heap.cell ref)
  gains = resume-Gains begun.adder p (s.heap.cell ref) some_budget h.left

  abbrev admitted : Pass
  admitted = admit begun p gains.after gains.made

  walked : Extends admitted (walk admitted ps)
  walked = walk-Extends admitted ps

  walk_first : walk begun (p ∷ ps) ≡ walk admitted ps
  walk_first =
      walk_continued begun p ps gains.after gains.made (
        try_continued s.heap begun.adder p ref gains.after gains.made some_budget h.chunk
          gains.runs)

  abbrev passed : Pass
  passed = walk admitted ps

  made_cell : passed.heap.cell s.heap.next_ref ≡ gains.made
  unfolding admit alloc
  made_cell = walked.grows.same s.heap.next_ref (omega arith) ∙ ground arith

  first_made : passed.reqs ≡ s.heap.next_ref ∷ walked.more
  unfolding admit
  first_made = walked.reqs

  first_queued :
      gains.made.chunked ≡ true
      → passed.chunked_list ≡ record p { chunked_req = some s.heap.next_ref } ∷ walked.chunks
  unfolding admit
  first_queued chunk =
      walked.queued
      ∙ ap
          (λ b.
            (if b
              then record p { chunked_req = if b then some s.heap.next_ref else none } ∷ []
              else [])
            ++ walked.chunks)
          chunk

  finish_made :
      (t : Pass) (ref' : ℕ) (others : List ℕ)
      → t.reqs ≡ ref' ∷ others
      → (b : Batch) × (b.reqs ≡ ref' ∷ others)
        × (finish (p ∷ ps) t ≡ (some b, t.heap, t.chunked_list ++ unadmitted t.admitted (p ∷ ps)))
  finish_made t ref' others e = (
    batch_of t,
    e,
    ap
        (λ (reqs : List ℕ). elim reqs as (λ _. PassResult) [
          | [] ↦ (none, t.heap, p ∷ ps)
          | _ ∷ _ ↦ (some (batch_of t), t.heap, t.chunked_list ++ unadmitted t.admitted (p ∷ ps))
        ])
        e,
  )

  pub continued : Continued s p ref
  unfolding schedule schedule_prefill schedule_next_batch
  continued =
      let (b, first, finished) = finish_made passed s.heap.next_ref walked.more first_made in
      let queue = passed.chunked_list ++ unadmitted passed.admitted (p ∷ ps) in
      let pass =
        ap
          (λ q.
            schedule_next_batch (limits s) (inflight_tokens s.config.page_size s.heap s.running)
              (length s.running) s.heap q)
          h.queue
        ∙ ap (finish (p ∷ ps)) walk_first
        ∙ finished in
      record {
        batch = b;
        after = record s { heap = passed.heap; pending = queue };
        runs =
            ap
              (λ (r : PassResult). elim r.0 as (λ _. Option Batch × Scheduler) [
                | none ↦ (
                  Decode.schedule_next_batch r.1 s.running,
                  record s { heap = r.1; pending = r.2 },
                )
                | some x ↦ (some x, record s { heap = r.1; pending = r.2 })
              ])
              pass;
        made = s.heap.next_ref;
        others = walked.more;
        first = first;
        part = subst (IsPart p) (sym made_cell) gains.part;
        same_uid = ap (λ r. r.uid) made_cell ∙ gains.same_uid;
        gained = gains.gained ∙ ap (λ r. r.device_len) (sym made_cell);
        same_config = refl;
        rest = walked.chunks ++ unadmitted passed.admitted (p ∷ ps);
        again = λ chunk.
            ap (λ q. q ++ unadmitted passed.admitted (p ∷ ps))
              (first_queued (ap (λ r. r.chunked) (sym made_cell) ∙ chunk));
      }
