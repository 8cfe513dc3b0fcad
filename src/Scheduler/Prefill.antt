-- ===== src/Scheduler/Prefill.antt =====
-- `PrefillManager` of python/freetoken/scheduler/prefill.py: the pending queue and one step's
-- prefill admission. What `decode_manager` is asked for comes as two numbers.
pub mod Walk
pub mod Budget
pub mod Oids
pub mod Queue
pub mod Split
pub mod Run
pub mod Rows
use free_token_intel.Prelude.{
  ℕ, ◌+◌, Bool, true, false, not, Option, none, some, List, [], ◌∷◌, ◌++◌, ◌==◌, if◌then◌else◌,
  select, ltb, length,
}
use free_token_intel.Scheduler.Req.{
  Req, PendingReq, Heap, Batch, Phase, input_len, extend_len, alloc,
}
use free_token_intel.Scheduler.Adder.{Adder, try_add_one}

-- The variables of the admission loop: the adder, the heap with the new requests, and the lists
-- that the pass builds.
pub record Pass : Type 0 where
  pub adder : Adder
  pub heap : Heap
  pub reqs : List ℕ
  pub chunked_list : List PendingReq
  pub admitted : List PendingReq
  pub prompt_admissions : List (ℕ × ℕ × ℕ)
  pub log_new_tokens : ℕ

abbrev pub is_continuation : PendingReq → Bool
is_continuation p = elim p.chunked_req [ none ↦ false | some _ ↦ true ]

-- The body of the loop for an admitted request.
unfoldable pub admit : Pass → PendingReq → Adder → Req → Pass
admit s p a r =
    let ref = s.heap.next_ref in
    let p' = record p { chunked_req = if r.chunked then some ref else none } in
    record {
      adder = a;
      heap = alloc s.heap r;
      reqs = s.reqs ++ ref ∷ [];
      chunked_list = if r.chunked then s.chunked_list ++ p' ∷ [] else s.chunked_list;
      admitted = s.admitted ++ p' ∷ [];
      prompt_admissions =
          if is_continuation p
          then s.prompt_admissions
          else s.prompt_admissions ++ (r.uid, input_len p, 0) ∷ [];
      log_new_tokens = s.log_new_tokens + extend_len r;
    }

-- The loop over the queue. A continuation that is refused ends the pass; a fresh prompt that is
-- refused is skipped.
unfoldable pub walk : Pass → List PendingReq → Pass
walk s [] = s
walk s (p ∷ ps) =
    let (a, req) = try_add_one s.heap s.adder p in
    elim req [
      | some r ↦ walk (admit s p a r) ps
      | none ↦
          if is_continuation p then record s { adder = a } else walk (record s { adder = a }) ps
    ]

-- `id(p) in {id(q) for q in admitted}`
unfoldable pub was_admitted : ℕ → List PendingReq → Bool
was_admitted oid [] = false
was_admitted oid (p ∷ ps) = if p.oid == oid then true else was_admitted oid ps

abbrev pub unadmitted : List PendingReq → List PendingReq → List PendingReq
unadmitted admitted = select (λ p. not (was_admitted p.oid admitted))

pub record Limits : Type 0 where
  pub max_running_req : ℕ
  pub cache_budget : ℕ
  pub prefill_budget : ℕ

abbrev pub first_pass : Limits → ℕ → ℕ → Heap → Pass
first_pass l inflight running heap = record {
  adder = record {
    token_budget = l.prefill_budget;
    step_budget = l.prefill_budget;
    reserved_size = inflight;
    max_running_req = l.max_running_req;
    cache_budget = l.cache_budget;
    running_count = running;
  };
  heap = heap;
  reqs = [];
  chunked_list = [];
  admitted = [];
  prompt_admissions = [];
  log_new_tokens = 0;
}

abbrev pub batch_of : Pass → Batch
batch_of s = record {
  reqs = s.reqs;
  phase = Phase.prefill;
  log_new_tokens = s.log_new_tokens;
  log_cached_tokens = 0;
  prompt_admissions = s.prompt_admissions;
}

-- The batch, if any request was admitted, with the heap and the queue after the pass.
abbrev pub finish : List PendingReq → Pass → Option Batch × Heap × List PendingReq
finish pending s = elim s.reqs [
  | [] ↦ (none, s.heap, pending)
  | _ ∷ _ ↦ (some (batch_of s), s.heap, s.chunked_list ++ unadmitted s.admitted pending)
]

unfoldable pub schedule_next_batch :
    Limits → ℕ → ℕ → Heap → List PendingReq → Option Batch × Heap × List PendingReq
schedule_next_batch l inflight running heap [] = (none, heap, [])
schedule_next_batch l inflight running heap (p ∷ ps) =
    finish (p ∷ ps) (walk (first_pass l inflight running heap) (p ∷ ps))

unfoldable pub add_one_req : List PendingReq → PendingReq → List PendingReq
add_one_req pending p = pending ++ p ∷ []

-- The chunk of the first pending request with the uid, and the queue without the request.
unfoldable pub abort_req : List PendingReq → ℕ → Option ℕ × List PendingReq
abort_req [] uid = (none, [])
abort_req (p ∷ ps) uid =
    let rest = abort_req ps uid in
    if p.uid == uid then (p.chunked_req, ps) else (rest.0, p ∷ rest.1)

abbrev pub runnable : List PendingReq → Bool
runnable pending = ltb 0 (length pending)
