-- ===== src/Scheduler/Req.antt =====
-- python/freetoken/core.py (`SamplingParams`, `Req`, `Batch`) and the request classes of
-- python/freetoken/scheduler/prefill.py (`PendingReq`, `ChunkedReq`). A `Req` is shared between the
-- queue, the decode set, the batch and the engine and is changed in place, so it lives in a heap and
-- is passed about by its reference. Token ids, rows and handles are numbers.
use free_token_intel.Prelude.{
  ℕ, ◌+◌, ◌-◌, Bool, false, not, ◌&&◌, Option, none, some, List, map, ltb, ◌==◌, if◌then◌else◌,
  length,
}

-- The sampling fields that are floats or texts are not read by the scheduler.
pub record SamplingParams : Type 0 where
  pub ignore_eos : Bool
  pub max_tokens : ℕ

-- `chunked` tells the class: a `ChunkedReq`, or a plain `Req`.
pub record Req : Type 0 where
  pub input_ids : List ℕ
  pub table_idx : ℕ
  pub cached_len : ℕ
  pub output_len : ℕ
  pub uid : ℕ
  pub sampling_params : SamplingParams
  pub cache_handle : Option ℕ
  pub linear_slot_idx : Option ℕ
  pub aborted : Bool
  pub mamba_ping_pong : Option (ℕ × ℕ)
  pub mamba_restore_src : Option ℕ
  pub device_len : ℕ
  pub max_device_len : ℕ
  pub next_table_idx : Option ℕ
  pub chunked : Bool

-- A request never holds more than `max_device_len` tokens while it runs, nor fewer than the cached
-- ones, so these differences are those of the source.
abbrev pub remain_len : Req → ℕ
remain_len r = r.max_device_len - r.device_len

abbrev pub extend_len : Req → ℕ
extend_len r = r.device_len - r.cached_len

-- `ChunkedReq.can_decode`, whatever the chunk.
abbrev pub chunk_can_decode : Req → Bool
chunk_can_decode r = false

-- `Req.can_decode`, overridden by `ChunkedReq.can_decode`.
unfoldable pub can_decode : Req → Bool
can_decode r = if r.chunked then chunk_can_decode r else ltb 0 (remain_len r) && not r.aborted

-- `oid` is the identity of the object, which `id(p)` reads. A `next_table_idx` of -1 is `none`.
pub record PendingReq : Type 0 where
  pub oid : ℕ
  pub uid : ℕ
  pub input_ids : List ℕ
  pub sampling_params : SamplingParams
  pub chunked_req : Option ℕ
  pub cached_len : ℕ
  pub table_idx : ℕ
  pub next_table_idx : Option ℕ
  pub cache_handle : Option ℕ
  pub linear_slot_idx : Option ℕ
  pub mamba_ping_pong : Option (ℕ × ℕ)
  pub mamba_restore_src : Option ℕ

abbrev pub input_len : PendingReq → ℕ
input_len p = length p.input_ids

abbrev pub output_len : PendingReq → ℕ
output_len p = p.sampling_params.max_tokens

unfoldable pub make_pending_req :
    ℕ
    → ℕ
    → List ℕ
    → SamplingParams
    → Option ℕ
    → ℕ
    → Option ℕ
    → Option (ℕ × ℕ)
    → Option ℕ
    → PendingReq
make_pending_req oid uid ids params handle cached slot ping_pong restore = record {
  oid = oid;
  uid = uid;
  input_ids = ids;
  sampling_params = params;
  chunked_req = none;
  cached_len = cached;
  table_idx = 0;
  next_table_idx = some 0;
  cache_handle = handle;
  linear_slot_idx = slot;
  mamba_ping_pong = ping_pong;
  mamba_restore_src = restore;
}

-- The objects by reference, and the next free reference.
pub record Heap : Type 0 where
  pub cell : ℕ → Req
  pub next_ref : ℕ

unfoldable pub alloc : Heap → Req → Heap
alloc h r = record {
  cell = λ x. if x == h.next_ref then r else h.cell x;
  next_ref = h.next_ref + 1;
}

-- The row of a pending request: its chunk's, if it has one.
unfoldable pub row_of : Heap → PendingReq → ℕ
row_of h p = elim p.chunked_req [ none ↦ p.table_idx | some c ↦ (h.cell c).table_idx ]

-- `[req.table_idx for req in reqs]`
abbrev pub rows : Heap → List ℕ → List ℕ
rows h = map (λ r. (h.cell r).table_idx)

pub data Phase : Type 0 where
  prefill decode : Phase

-- The requests are references. The tensors that the engine fills in are not part of the model.
pub record Batch : Type 0 where
  pub reqs : List ℕ
  pub phase : Phase
  pub log_new_tokens : ℕ
  pub log_cached_tokens : ℕ
  pub prompt_admissions : List (ℕ × ℕ × ℕ)
