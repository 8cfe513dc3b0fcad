-- ===== src/Lib.antt =====
-- The serving core of FreeToken-Intel: which requests run in each step, what they hold of the page
-- table and of the KV pool, and how the memory of a card is split before anything runs.
--
-- The engine (python/freetoken/engine/engine.py) owns the loop. `Scheduler.add` gives a request a
-- page-table row and queues it; `Scheduler.schedule` picks a prefill batch, else a decode batch; the
-- engine runs the model on it, appends the sampled tokens and marks what has finished; and
-- `Scheduler.complete` moves finished prompts to the decode set and frees the rows of what stopped.
-- The slots of a request in the KV pool are allocated and freed beside this, by its row.
--
--   Align        python/freetoken/utils/misc.py: div_ceil, align_ceil, align_down, div_even.
--   CacheBudget  python/freetoken/engine/cache_budget.py: plan_cache_budget (Plan),
--                check_pinned_kv_fit and resolve_served_context_len (Pinned), and the plan under that
--                check (Agree). A float is an element of a parameter type, with `int(b * r)` and `0 < r <= 1` as functions of it.
--   FunctionCalls
--                python/freetoken/server/function_call_parser.py: GenericTagParser (Markers and Turns are
--                on where a marker is found, Stream and Chunks on whole streams). json and str.strip are
--                a parameter. A turn of the inner loop is on fuel, as in Reasoning, whose
--                find and trailing_partial it uses: the two files have the same function.
--   KvPool       python/freetoken/kvcache/mha_pool.py, the slot allocator of MHAKVCache. The slots
--                that `detach` takes off the books belong to the prefix tree, which the histories of
--                KvPool.Conservation keep as a list.
--   NaiveCache   python/freetoken/kvcache/naive_cache.py: NaiveKVCache, the cache that shares nothing.
--   Radix        python/freetoken/kvcache/radix_cache.py: RadixPrefixCache, and fast_compare_key of
--                _compare.py. View is the abstract cache; Walk, Insert, Grow, Closed and Shared are on the
--                walk and the insertion, Locks, Ledger and Locking on lock_handle, Evict, Remove and Evicted
--                on evict, Found and Handed on a handle's indices, Reach on sequences of calls. The
--                functions of heapq are a parameter. A node object is known by its uuid; a handle whose
--                node has left the tree is out of the model, as is an eviction's order.
--   StatePool    python/freetoken/kvcache/linear_state_pool.py: LinearStatePool (Slots, Ownership) and
--                linear_state_bytes_per_req (Sizes). The state of a slot is an element of a
--                parameter type.
--   CacheManager python/freetoken/scheduler/cache.py: CacheManager over the radix cache (`match` is
--                match_prompt, and `evict` is reclaim).
--   Anchor       python/freetoken/scheduler/cache.py: CacheManager.snapshot_toolcall_anchor.
--   Offload      python/freetoken/moe/offload_cache.py, OffloadMoeCache, and the fetch of experts in
--                python/freetoken/models/qwen3_moe/__init__.py, _forward_offload (Forward). Inverse is on
--                the two maps, Victim on the LRU choice, Placing and Loop on the staging of the misses,
--                Experts on the ids, Fetch, Serve and Reach on whole calls and runs, and Hybrid is the
--                split of _forward_hybrid and the gathers of _forward_offload (Gathers, Halves). A tensor
--                is a function of the index, -1 is none, and a row of weights an element of a parameter
--                type; the rounding of the fetch share is a function that is a parameter.
--   Reasoning    python/freetoken/server/reasoning_parser.py: ThinkTagParser.parse over its chunks, and
--                flush (Kept and Held are on what it yields and what it holds back). A string is a
--                list of code points, and a turn of the inner loop is on fuel: one more than what is
--                pending, since each turn that goes on takes a tag off.
--   Scheduler    python/freetoken/scheduler and what it uses of core.py and engine.py:
--     Req        core.py (SamplingParams, Req, Batch), prefill.py (PendingReq, ChunkedReq). A `Req`
--                is shared and changed in place, so it lives in a heap, under a reference.
--     Adder      prefill.py, PrefillAdder: the gates, the reservation and its rollback, chunking
--                (Progress: how far a pass carries a chunked prompt).
--     Prefill    prefill.py, PrefillManager: the admission pass and the rebuilt queue.
--     Decode     decode.py, DecodeManager.
--     Core       scheduler.py, Scheduler: add, abort, schedule, complete.
--     Forward    engine.py, Engine.step: `schedule`, the requests after sampling, `complete`.
--     Refs, Completion, Lifecycle, Abort, Steps, Loop, Reach: lemmas on these, and the invariant of
--                a scheduler over every history of adds, aborts and steps; Idle, the query `idle`;
--                Extends, Continued and Continue, a chunked prompt over the next batch and the steps.
--   Prelude      shared types (Result, with the exceptions of the code), lists and dicts over the
--                native numbers, multisets as counts, sorting.
--   Examples     runs on small inputs.
--
-- Most loops of the modelled code are over a list or along a tree, so the models recurse on it and need
-- no fuel. The loop of `evict` takes a node out of the tree in each turn and has the number of nodes
-- and one more as fuel, which is enough, and so is what the inner loops of the two parsers have.
--
-- The sizes and token counts are natural numbers, as Python's integers do not wrap around; where the code
-- subtracts, the result is not negative in the states that the models reach, or is tested first.
-- Sampled tokens, the model and tensors are not modelled: a step takes its tokens as an argument.
-- The CPU half of a hybrid step, the hybrid prefix cache, the arithmetic on expert weights and the rest
-- of the server are outside the models;
-- the assertions of RadixTreeNode.set_key_value and split_at and the tree test check_integrity are not
-- modelled, and the counter of node uuids, which all caches of a process share, is a cache's own; a
-- request's cache handle and state slots are carried along as opaque numbers.
pub mod Prelude
pub mod Align
pub mod CacheBudget
pub mod FunctionCalls
pub mod KvPool
pub mod NaiveCache
pub mod StatePool
pub mod Anchor
pub mod CacheManager
pub mod Offload
pub mod Radix
pub mod Reasoning
pub mod Scheduler
pub mod Examples
