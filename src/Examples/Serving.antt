-- ===== src/Examples/Serving.antt =====
-- The scheduler with two rows and a budget of three tokens a step: a prompt of five tokens runs in
-- two chunks, then decodes; with a budget of two tokens, in three chunks.
use free_token_intel.Prelude.{
  ℕ, ◌+◌, ◌≤◌, ◌≡◌, refl, false, Option, none, some, List, [], ◌∷◌, arith, Result, ok, raise, count,
  IsDistinct, IsSorted, range_from, sort, insert,
}
use free_token_intel.Scheduler.Req.{
  SamplingParams, Req, PendingReq, Heap, Batch, Phase, make_pending_req, alloc, can_decode, row_of,
  rows, input_len,
}
use free_token_intel.Scheduler.Adder.{
  Adder, try_allocate_one, undo_allocation, new_req, chunk_size, add_one_req, resume, start,
  try_add_one,
}
use free_token_intel.Scheduler.Prefill.{admit, walk, was_admitted}
use free_token_intel.Scheduler.Prefill
use free_token_intel.Scheduler.Prefill.{Limits}
use free_token_intel.Scheduler.Prefill.Walk.{IsReady}
use free_token_intel.Scheduler.Prefill.Oids.{oids}
use free_token_intel.Scheduler.Prefill.Budget.{WithinLimits, schedule_next_batch-WithinLimits}
use free_token_intel.Scheduler.Prefill.Rows.{Passes, schedule_next_batch-Passes}
use free_token_intel.Scheduler.Continued.{Heads}
use free_token_intel.Scheduler.Continue.{Finishes, step-Finishes}
use free_token_intel.Scheduler.Adder.Outcome.{Outcome, offset, try_add_one-Outcome}
use free_token_intel.Scheduler.Prefill.Queue.{queue_rows}
use free_token_intel.Scheduler.Decode.{
  mem, merge, filter_reqs, abort_req, inflight_tokens, insert_by_uid, sort_by_uid,
}
use free_token_intel.Scheduler.Decode
use free_token_intel.Scheduler.Core.{
  Config, Scheduler, init, add, take_pending, abort_running, abort, schedule_prefill, schedule,
  scan_aborted, complete, idle,
}
use free_token_intel.Scheduler.Prefill.Split.{plain}
use free_token_intel.Scheduler.Idle.{idle-owners}
use free_token_intel.Scheduler.Forward.{
  take_token, write, after_forward, step, Ran, after_forward-Ran,
}
use free_token_intel.Scheduler.Lifecycle.{owners, IsNew, IsSound, init-IsSound, add-IsSound}
use free_token_intel.Scheduler.Abort.{abort-IsSound}
use free_token_intel.Scheduler.Reach.{Moves, Reach, Reach-rows, step-IsSound}

program : Unit {0}
unfolding make_pending_req alloc can_decode row_of try_allocate_one undo_allocation new_req
    chunk_size add_one_req resume start try_add_one admit walk was_admitted
    Prefill.schedule_next_batch Prefill.add_one_req mem merge filter_reqs abort_req inflight_tokens
    insert_by_uid sort_by_uid Decode.schedule_next_batch init add take_pending abort_running abort
    schedule_prefill schedule scan_aborted complete take_token write after_forward step sort insert
program = tt

abbrev params : SamplingParams
params = record { ignore_eos = false; max_tokens = 2 }

abbrev config : Config
config = record { max_running_req = 2; max_extend_tokens = 3; page_size = 1 }

abbrev blank : Req
blank = record {
  input_ids = [];
  table_idx = 0;
  cached_len = 0;
  output_len = 0;
  uid = 0;
  sampling_params = params;
  cache_handle = none;
  linear_slot_idx = none;
  aborted = false;
  mamba_ping_pong = none;
  mamba_restore_src = none;
  device_len = 0;
  max_device_len = 0;
  next_table_idx = none;
  chunked = false;
}

abbrev no_objects : Heap
no_objects = record { cell = λ x. blank; next_ref = 0 }

abbrev prompt : PendingReq
prompt = make_pending_req 50 7 (11 ∷ 12 ∷ 13 ∷ 14 ∷ 15 ∷ []) params none 0 none none none

abbrev value_or : Scheduler → Result (Scheduler × ℕ) → Scheduler
value_or s (ok (t, uid)) = t
value_or s (raise e) = s

abbrev after_step : Scheduler → List ℕ → Scheduler
after_step s toks = elim (step s 99 toks) [ none ↦ s | some t ↦ t ]

abbrev s0 : Scheduler
s0 = init config 100 no_objects

abbrev s1 : Scheduler
s1 = value_or s0 (add s0 prompt)

abbrev s2 : Scheduler
s2 = after_step s1 (20 ∷ [])

abbrev s3 : Scheduler
s3 = after_step s2 (21 ∷ [])

abbrev s4 : Scheduler
s4 = after_step s3 (22 ∷ [])

-- The rows: one taken by the prompt, back after its last token.
row_history :
    (s1.free_slots ≡ 1 ∷ [])
    × (queue_rows s2.heap s2.pending ≡ 0 ∷ [])
    × (s2.running ≡ [])
    × (s3.pending ≡ [])
    × (rows s3.heap s3.running ≡ 0 ∷ [])
    × (s4.running ≡ [])
    × (s4.free_slots ≡ 0 ∷ 1 ∷ [])
unfolding program
row_history = (refl, refl, refl, refl, refl, refl, refl)

abbrev done : Batch → Option Batch → Batch
done b none = b
done b (some c) = c

abbrev no_batch : Batch
no_batch = record {
  reqs = [];
  phase = Phase.decode;
  log_new_tokens = 0;
  log_cached_tokens = 0;
  prompt_admissions = [];
}

abbrev batch_at : Scheduler → Batch
batch_at s = done no_batch (schedule s).0

prompt-IsNew : IsNew s0 prompt
unfolding program count
prompt-IsNew = record { unsplit = refl; fits = omega arith; unseen = refl }

history : Reach s0 s4
unfolding program
history =
    Reach.then_moves
      (Reach.then_moves
        (Reach.then_moves
          (Reach.then_moves Reach.start (Moves.adds {t = s1} prompt 7 prompt-IsNew refl))
          (Moves.turns {t = (schedule s1).1} {u = s2} {b = batch_at s1} 99 (20 ∷ []) refl refl
            refl))
        (Moves.turns {t = (schedule s2).1} {u = s3} {b = batch_at s2} 99 (21 ∷ []) refl refl refl))
      (Moves.turns {t = (schedule s3).1} {u = s4} {b = batch_at s3} 99 (22 ∷ []) refl refl refl)

Reach-rows_example :
    ((x : ℕ)
      → count x s4.free_slots
          + count x (queue_rows s4.heap s4.pending)
          + count x (rows s4.heap s4.running)
        ≡ count x (range_from 0 2))
    × IsSorted s4.free_slots
Reach-rows_example = Reach-rows config 100 no_objects history

-- The queue of `s1`, its pass and its batch.
known : IsReady s1.heap s1.pending
unfolding program offset
known = (omega arith, tt, tt)

abbrev l : Limits
l = record { max_running_req = 2; cache_budget = 100; prefill_budget = 3 }

abbrev passed : Option Batch × Heap × List PendingReq
passed = Prefill.schedule_next_batch l 0 0 s1.heap s1.pending

pass_runs :
    Prefill.schedule_next_batch l 0 0 s1.heap s1.pending ≡ (some (batch_at s1), passed.1, passed.2)
unfolding program
pass_runs = refl

schedule_next_batch-WithinLimits_example : WithinLimits l 0 0 (batch_at s1) passed.1
schedule_next_batch-WithinLimits_example =
    schedule_next_batch-WithinLimits l 0 0 s1.heap s1.pending {b = batch_at s1} {h' = passed.1}
      {q = passed.2} known pass_runs

one_prompt : IsDistinct (oids s1.pending)
unfolding program count
one_prompt o = ground arith

schedule_next_batch-Passes_example : Passes s1.heap s1.pending (batch_at s1) passed.1 passed.2
schedule_next_batch-Passes_example =
    schedule_next_batch-Passes l 0 0 s1.heap s1.pending {b = batch_at s1} {k = passed.1}
      {q = passed.2} known one_prompt pass_runs

abbrev adder : Adder
adder = record {
  token_budget = 3;
  step_budget = 3;
  reserved_size = 0;
  max_running_req = 2;
  cache_budget = 100;
  running_count = 0;
}

fits : offset no_objects prompt ≤ input_len prompt
unfolding program offset
fits = omega arith

try_add_one-Outcome_example :
    Outcome no_objects adder prompt
      (try_add_one no_objects adder prompt).0
      (try_add_one no_objects adder prompt).1
try_add_one-Outcome_example = try_add_one-Outcome no_objects adder prompt fits

-- With two tokens a step, the prompt needs two more steps after its first.
abbrev two_a_step : Scheduler
two_a_step =
    let s = init (record config { max_extend_tokens = 2 }) 100 no_objects in
    after_step (value_or s (add s prompt)) (20 ∷ [])

abbrev chunk_queued : PendingReq
chunk_queued = record prompt { chunked_req = some 0; next_table_idx = none }

prompt-Heads : Heads two_a_step chunk_queued [] 0
unfolding program
prompt-Heads = record {
  queue = refl;
  chunk = refl;
  part = record { within = omega arith; partial = refl };
  left = omega arith;
}

step-Finishes_example : Finishes 99 7 5 two_a_step ((21 ∷ []) ∷ [])
unfolding program
step-Finishes_example =
    step-Finishes 99 two_a_step ((21 ∷ []) ∷ []) chunk_queued [] 0 prompt-Heads (omega arith)
      (omega arith)

one_request : IsDistinct (0 ∷ [])
unfolding count
one_request o = ground arith

after_forward-Ran_example :
    Ran (0 ∷ []) s3.heap (after_forward Phase.decode 99 s3.heap (0 ∷ []) (22 ∷ []))
after_forward-Ran_example =
    after_forward-Ran Phase.decode 99 s3.heap (0 ∷ []) (22 ∷ []) one_request refl

s1-IsSound : IsSound 2 s1
unfolding program
s1-IsSound =
    add-IsSound s0 prompt {t = s1} {uid = 7} prompt-IsNew (init-IsSound config 100 no_objects) refl

add-IsSound_example : IsSound 2 s1
unfolding program
add-IsSound_example =
    add-IsSound s0 prompt {t = s1} {uid = 7} prompt-IsNew (init-IsSound config 100 no_objects) refl

abort-IsSound_example : IsSound 2 (abort s1 7).0
abort-IsSound_example = abort-IsSound s1 7 s1-IsSound

step-IsSound_example : IsSound 2 s2
unfolding program
step-IsSound_example =
    step-IsSound s1 99 (20 ∷ []) {b = batch_at s1} {t = (schedule s1).1} {u = s2} s1-IsSound refl
      refl refl

s2-IsSound : IsSound 2 s2
unfolding program
s2-IsSound =
    step-IsSound s1 99 (20 ∷ []) {b = batch_at s1} {t = (schedule s1).1} {u = s2} s1-IsSound refl
      refl refl

abbrev second : Option Batch × Heap × List PendingReq
second = Prefill.schedule_next_batch l 0 0 s2.heap s2.pending

-- The last chunk's row has no owner after the question.
idle_drops : rows second.1 (plain second.1 (batch_at s2).reqs) ≡ 0 ∷ []
unfolding program
idle_drops = refl

idle-owners_example :
    ((idle s2).0 ≡ false)
    × ((x : ℕ)
        → owners x (idle s2).1 + count x (rows second.1 (plain second.1 (batch_at s2).reqs))
          ≡ count x (range_from 0 2))
unfolding program
idle-owners_example = idle-owners s2 {b = batch_at s2} {k = second.1} {q = second.2} s2-IsSound refl
