-- ===== src/Scheduler/Idle.antt =====
-- What asking a scheduler whether it is idle does to it.
use free_token_intel.Prelude.{ℕ, ◌+◌, ◌≡◌, false, some, List, arith, length, range_from, count}
use free_token_intel.Scheduler.Req.{PendingReq, Heap, Batch, rows}
use free_token_intel.Scheduler.Refs.{rows-Grows}
use free_token_intel.Scheduler.Prefill
use free_token_intel.Scheduler.Prefill.Split.{plain}
use free_token_intel.Scheduler.Prefill.Rows.{schedule_next_batch-Passes}
use free_token_intel.Scheduler.Decode.{inflight_tokens}
use free_token_intel.Scheduler.Core.{Scheduler, limits, schedule, schedule_prefill, idle}
use free_token_intel.Scheduler.Lifecycle.{owners, IsSound}

-- Asking a sound scheduler whether it is idle while a prompt can be admitted loses rows: the answer
-- is no, and afterwards the rows of the batch's finished prompts have no owner, so these rows and the
-- owned ones together make up the rows of the scheduler.
pub idle-owners :
    {n : ℕ} (s : Scheduler) {b : Batch} {k : Heap} {q : List PendingReq}
    → IsSound n s
    → Prefill.schedule_next_batch
        (limits s)
        (inflight_tokens s.config.page_size s.heap s.running)
        (length s.running)
        s.heap
        s.pending
      ≡ (some b, k, q)
    → ((idle s).0 ≡ false)
      × ((x : ℕ)
          → owners x (idle s).1 + count x (rows k (plain k b.reqs)) ≡ count x (range_from 0 n))
unfolding idle schedule schedule_prefill
idle-owners {n} s {b} {k} {q} v e =
    let p =
      schedule_next_batch-Passes (limits s) (inflight_tokens s.config.page_size s.heap s.running)
        (length s.running) s.heap s.pending {b = b} {k = k} {q = q} v.ready v.distinct e in
    let after : (idle s).1 ≡ record s { heap = k; pending = q } = ground (arith, e) in
    (
      ground (arith, e),
      λ x.
          rw (after, rows-Grows s.running p.grows v.exist)
            (omega (arith, v.owned x, p.rows_kept x)),
    )
