-- ===== src/Scheduler/Adder.antt =====
-- `PrefillAdder` of python/freetoken/scheduler/prefill.py: admits requests into one prefill batch
-- within the token budget. Each method returns the adder as it leaves it.
pub mod Outcome
pub mod Progress
use free_token_intel.Prelude.{
  ℕ, ◌+◌, ◌-◌, min, Bool, true, false, Option, none, some, ltb, leb, ◌==◌, if◌then◌else◌, length,
  take,
}
use free_token_intel.Scheduler.Req.{Req, PendingReq, Heap, input_len, output_len}

pub record Adder : Type 0 where
  pub token_budget : ℕ
  pub step_budget : ℕ
  pub reserved_size : ℕ
  pub max_running_req : ℕ
  pub cache_budget : ℕ
  pub running_count : ℕ

-- What an admission reserves of the pool.
abbrev pub footprint : PendingReq → ℕ
footprint p = (input_len p - p.cached_len) + output_len p

unfoldable pub try_allocate_one : Adder → PendingReq → Option (Adder × ℕ)
try_allocate_one a p =
    if leb a.max_running_req a.running_count
    then none
    else if ltb a.cache_budget (a.reserved_size + footprint p)
    then none
    else some (
      record a {
        reserved_size = a.reserved_size + footprint p;
        running_count = a.running_count + 1;
      },
      p.cached_len,
    )

unfoldable pub undo_allocation : Adder → PendingReq → Adder
undo_allocation a p = record a {
  reserved_size = a.reserved_size - footprint p;
  running_count = a.running_count - 1;
}

-- The `Req` or `ChunkedReq` that carries the prompt up to `cached_len + chunk_size`, as
-- `__post_init__` completes it.
unfoldable pub new_req : PendingReq → ℕ → ℕ → ℕ → Option ℕ → Option ℕ → Bool → Req
new_req p table_idx cached_len chunk_size next_table_idx cache_handle is_chunked =
    let ids = take (cached_len + chunk_size) p.input_ids in
    record {
      input_ids = ids;
      table_idx = table_idx;
      cached_len = cached_len;
      output_len = output_len p;
      uid = p.uid;
      sampling_params = p.sampling_params;
      cache_handle = cache_handle;
      linear_slot_idx = p.linear_slot_idx;
      aborted = false;
      mamba_ping_pong = p.mamba_ping_pong;
      mamba_restore_src = p.mamba_restore_src;
      device_len = length ids;
      max_device_len = length ids + output_len p;
      next_table_idx = next_table_idx;
      chunked = is_chunked;
    }

-- How many tokens the request may extend in this step; `none` leaves it in the queue.
unfoldable pub chunk_size : ℕ → ℕ → Bool → Option ℕ
chunk_size token_budget remain_len true =
    if leb (min token_budget remain_len) 0 then none else some (min token_budget remain_len)
chunk_size token_budget remain_len false =
    if ltb token_budget remain_len then none else some remain_len

unfoldable pub add_one_req :
    Adder → PendingReq → ℕ → ℕ → Option ℕ → Option ℕ → Bool → Option (Adder × Req)
add_one_req a p table_idx cached_len next_table_idx cache_handle chunked =
    let remain_len = input_len p - cached_len in
    elim (chunk_size a.token_budget remain_len chunked) [
      | none ↦ none
      | some n ↦ some (
        record a { token_budget = a.token_budget - n },
        new_req p table_idx cached_len n next_table_idx cache_handle (ltb n remain_len),
      )
    ]

-- A continuation resumes its chunk: same row, from where the chunk ended.
unfoldable pub resume : Adder → PendingReq → Req → Option (Adder × Req)
resume a p c = add_one_req a p c.table_idx c.device_len c.next_table_idx c.cache_handle true

-- A fresh prompt passes the two gates, then the budget; a refusal by the budget rolls back.
abbrev pub or_undo : Adder → PendingReq → Option (Adder × Req) → Adder × Option Req
or_undo a p none = (undo_allocation a p, none)
or_undo a p (some (b, r)) = (b, some r)

unfoldable pub start : Adder → PendingReq → Adder × Option Req
start a p = elim (try_allocate_one a p) [
  | none ↦ (a, none)
  | some (b, cached) ↦ or_undo b p (
      add_one_req b p p.table_idx cached p.next_table_idx p.cache_handle
        (b.token_budget == b.step_budget))
]

abbrev keep_on_refusal : Adder → Option (Adder × Req) → Adder × Option Req
keep_on_refusal a none = (a, none)
keep_on_refusal a (some (b, r)) = (b, some r)

unfoldable pub try_add_one : Heap → Adder → PendingReq → Adder × Option Req
try_add_one h a p = if leb a.token_budget 0 then (a, none) else elim p.chunked_req [
  | none ↦ start a p
  | some ref ↦ keep_on_refusal a (resume a p (h.cell ref))
]
