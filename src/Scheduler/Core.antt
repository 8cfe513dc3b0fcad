-- ===== src/Scheduler/Core.antt =====
-- `Scheduler` of python/freetoken/scheduler/scheduler.py, and `SchedulerConfig` of config.py.
use free_token_intel.Prelude.{
  ℕ, ◌+◌, max, Bool, true, false, not, ◌&&◌, Option, none, some, List, [], ◌∷◌, ◌++◌, ◌==◌,
  if◌then◌else◌, runtime_error, Result, ok, raise, length, select, range_from, sort,
}
use free_token_intel.Scheduler.Req.{row_of, rows, PendingReq, Heap, Batch}
use free_token_intel.Scheduler.Prefill.{Limits}
use free_token_intel.Scheduler.Prefill
use free_token_intel.Scheduler.Decode.{mem, filter_reqs, abort_req, inflight_tokens}
use free_token_intel.Scheduler.Decode

-- Of the configuration, what the scheduler reads.
pub record Config : Type 0 where
  pub max_running_req : ℕ
  pub max_extend_tokens : ℕ
  pub page_size : ℕ

pub record Scheduler : Type 0 where
  pub config : Config
  pub cache_budget : ℕ
  pub next_uid : ℕ
  pub free_slots : List ℕ
  pub running : List ℕ
  pub pending : List PendingReq
  pub heap : Heap

unfoldable pub init : Config → ℕ → Heap → Scheduler
init c cache_budget heap = record {
  config = c;
  cache_budget = cache_budget;
  next_uid = 0;
  free_slots = range_from 0 c.max_running_req;
  running = [];
  pending = [];
  heap = heap;
}

-- `add`: the row that the request gets, written into the pending request.
abbrev pub queued : PendingReq → ℕ → PendingReq
queued p row = record p { table_idx = row; next_table_idx = none }

unfoldable pub add : Scheduler → PendingReq → Result (Scheduler × ℕ)
add s p = elim s.free_slots [
  | [] ↦ raise runtime_error
  | row ∷ rest ↦ ok (
    record s {
      free_slots = rest;
      pending = Prefill.add_one_req s.pending (queued p row);
      next_uid = max s.next_uid (p.uid + 1);
    },
    p.uid,
  )
]

-- The first pending request with the uid, and the queue without it.
unfoldable pub take_pending : List PendingReq → ℕ → Option PendingReq × List PendingReq
take_pending [] uid = (none, [])
take_pending (p ∷ ps) uid =
    let rest = take_pending ps uid in if p.uid == uid then (some p, ps) else (rest.0, p ∷ rest.1)

abbrev pub release : Scheduler → List ℕ → Scheduler
release s rows = record s { free_slots = sort (s.free_slots ++ rows) }

unfoldable pub abort_running : Scheduler → ℕ → Scheduler × Bool
abort_running s uid =
    let (found, rest) = abort_req s.heap s.running uid in
    elim found [
      | none ↦ (s, false)
      | some r ↦ (release (record s { running = rest }) ((s.heap.cell r).table_idx ∷ []), true)
    ]

unfoldable pub abort : Scheduler → ℕ → Scheduler × Bool
abort s uid =
    let (found, rest) = take_pending s.pending uid in
    elim found [
      | none ↦ abort_running s uid
      | some p ↦ (release (record s { pending = rest }) (row_of s.heap p ∷ []), true)
    ]

abbrev pub limits : Scheduler → Limits
limits s = record {
  max_running_req = s.config.max_running_req;
  cache_budget = s.cache_budget;
  prefill_budget = s.config.max_extend_tokens;
}

unfoldable pub schedule_prefill : Scheduler → Option Batch × Scheduler
schedule_prefill s =
    let r =
      Prefill.schedule_next_batch (limits s) (inflight_tokens s.config.page_size s.heap s.running)
        (length s.running) s.heap s.pending in
    (r.0, record s { heap = r.1; pending = r.2 })

-- Prefill if anything is queued and admitted, else decode.
unfoldable pub schedule : Scheduler → Option Batch × Scheduler
schedule s =
    let (batch, t) = schedule_prefill s in
    elim batch [ none ↦ (Decode.schedule_next_batch t.heap t.running, t) | some b ↦ (some b, t) ]

-- The property `idle` asks `schedule`, which changes the scheduler, and drops the batch.
unfoldable pub idle : Scheduler → Bool × Scheduler
idle s = let (batch, t) = schedule s in elim batch [ none ↦ (true, t) | some _ ↦ (false, t) ]

-- The requests that stopped running in this step, and their rows.
abbrev pub stopped : List ℕ → List ℕ → List ℕ
stopped before after = select (λ r. not (mem r after)) before

-- The scan of the batch for aborted requests that the difference missed; `freed` also serves as
-- `seen`, which holds the same rows.
unfoldable pub scan_aborted : Heap → List ℕ → List ℕ → List ℕ
scan_aborted h freed [] = freed
scan_aborted h freed (r ∷ rs) =
    scan_aborted h
      (if (h.cell r).aborted && not (mem (h.cell r).table_idx freed)
        then freed ++ (h.cell r).table_idx ∷ []
        else freed)
      rs

abbrev pub release_all : Scheduler → List ℕ → Scheduler
release_all s [] = s
release_all s (x ∷ xs) = release s (x ∷ xs)

unfoldable pub complete : Scheduler → Batch → Scheduler
complete s b =
    let after = filter_reqs s.heap s.running b.reqs in
    release_all (record s { running = after })
      (scan_aborted s.heap (rows s.heap (stopped s.running after)) b.reqs)
