-- ===== src/Scheduler/Decode.antt =====
-- `DecodeManager` of python/freetoken/scheduler/decode.py. The `OrderedDict` of the running
-- requests is the list of its keys, in order.
use free_token_intel.Prelude.{
  ℕ, ◌+◌, ◌-◌, ◌*◌, Bool, true, false, Option, none, some, List, [], ◌∷◌, ◌++◌, map, leb, ◌==◌,
  if◌then◌else◌, length, select, sum,
}
use free_token_intel.Scheduler.Req.{Heap, Batch, Phase, remain_len, can_decode}

unfoldable pub mem : ℕ → List ℕ → Bool
mem r [] = false
mem r (x ∷ xs) = if x == r then true else mem r xs

-- `for req in reqs: merged[req] = None`: a key that is there keeps its place.
unfoldable pub merge : List ℕ → List ℕ → List ℕ
merge running [] = running
merge running (r ∷ rs) = merge (if mem r running then running else running ++ r ∷ []) rs

abbrev pub live : Heap → List ℕ → List ℕ
live h = select (λ r. can_decode (h.cell r))

unfoldable pub filter_reqs : Heap → List ℕ → List ℕ → List ℕ
filter_reqs h running reqs = live h (merge running reqs)

-- `running_reqs.pop(req, None)`
unfoldable pub remove_req : List ℕ → ℕ → List ℕ
remove_req [] r = []
remove_req (x ∷ xs) r = if x == r then xs else x ∷ remove_req xs r

-- The first running request with the uid, and the requests without it.
unfoldable pub abort_req : Heap → List ℕ → ℕ → Option ℕ × List ℕ
abort_req h [] uid = (none, [])
abort_req h (x ∷ xs) uid =
    let rest = abort_req h xs uid in
    if (h.cell x).uid == uid then (some x, xs) else (rest.0, x ∷ rest.1)

unfoldable pub inflight_tokens : ℕ → Heap → List ℕ → ℕ
inflight_tokens page_size h running =
    sum (map (λ r. remain_len (h.cell r)) running) + (page_size - 1) * length running

-- `sorted(running_reqs, key=uid)`, which is stable.
unfoldable pub insert_by_uid : Heap → ℕ → List ℕ → List ℕ
insert_by_uid h r [] = r ∷ []
insert_by_uid h r (x ∷ xs) =
    if leb (h.cell r).uid (h.cell x).uid then r ∷ x ∷ xs else x ∷ insert_by_uid h r xs

unfoldable pub sort_by_uid : Heap → List ℕ → List ℕ
sort_by_uid h [] = []
sort_by_uid h (x ∷ xs) = insert_by_uid h x (sort_by_uid h xs)

unfoldable pub schedule_next_batch : Heap → List ℕ → Option Batch
schedule_next_batch h [] = none
schedule_next_batch h (r ∷ rs) = some (record {
  reqs = sort_by_uid h (r ∷ rs);
  phase = Phase.decode;
  log_new_tokens = 0;
  log_cached_tokens = 0;
  prompt_admissions = [];
})
