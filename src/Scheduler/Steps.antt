-- ===== src/Scheduler/Steps.antt =====
-- One step of the engine's loop over the scheduler: schedule, forward, complete.
use free_token_intel.Prelude.{
  ℕ, ◌+◌, ◌≤◌, ◌<◌, min, ◌≡◌, refl, List, [], ◌∷◌, ◌++◌, arith, ltb, if◌then◌else◌, range_from,
  count, IsDistinct, count-append, range-IsDistinct, IsSorted,
}
use mathlib.Core.List.{map-append}
use free_token_intel.Scheduler.Req.{Heap, Batch, rows}
use free_token_intel.Scheduler.Refs.{Below}
use free_token_intel.Scheduler.Prefill.Walk.{IsReady}
use free_token_intel.Scheduler.Prefill.Oids.{oids}
use free_token_intel.Scheduler.Prefill.Queue.{queue_rows}
use free_token_intel.Scheduler.Prefill.Split.{plain}
use free_token_intel.Scheduler.Decode.{live, filter_reqs}
use free_token_intel.Scheduler.Core.{Scheduler, stopped, scan_aborted, release_all, complete}
use free_token_intel.Scheduler.Completion.{
  merge-new, merge-old, dead, aborted, live-dead-rows, count-live, stopped-dead, scan_aborted-count,
  IsSettled, live-aborted-rows, aborted-dead-rows,
}
use free_token_intel.Scheduler.Lifecycle.{owners, IsSound, release_all-parts}

-- The state that `complete` leaves, for any set that runs on and any rows that come back.
abbrev completed : Scheduler → List ℕ → List ℕ → Scheduler
completed s after freed = release_all (record s { running = after }) freed

abbrev balance : ℕ → Scheduler → List ℕ → List ℕ → ℕ
balance x s after freed =
    count x s.free_slots
    + count x freed
    + count x (queue_rows s.heap s.pending)
    + count x (rows s.heap after)

completed-IsSound :
    {n : ℕ} (s : Scheduler) (after freed : List ℕ)
    → ((x : ℕ) → balance x s after freed ≡ count x (range_from 0 n))
    → IsSorted s.free_slots
    → IsReady s.heap s.pending
    → IsDistinct (oids s.pending)
    → Below s.heap after
    → IsDistinct after
    → IsSound n (completed s after freed)
unfolding count
completed-IsSound s after [] b sorted ready distinct exist once = record {
  owned = λ x. omega (arith, b x);
  sorted = sorted;
  ready = ready;
  distinct = distinct;
  exist = exist;
  once = once;
}
completed-IsSound s after (f ∷ fs) b sorted ready distinct exist once =
    let parts = release_all-parts s (f ∷ fs) sorted in
    record {
      owned = λ x. omega (arith, b x, parts.0 x);
      sorted = parts.1;
      ready = ready;
      distinct = distinct;
      exist = exist;
      once = once;
    }

live-append : (h : Heap) (xs ys : List ℕ) → live h (xs ++ ys) ≡ live h xs ++ live h ys
live-append h [] ys = refl
live-append h (x ∷ xs) ys = ground (arith, live-append h xs ys)

Below-live : (h k : Heap) (xs : List ℕ) → Below h xs → Below h (live k xs)
Below-live h k [] b = tt
Below-live h k (x ∷ xs) b = ground (arith, Below-live h k xs b.1)

Below-append : (h : Heap) (xs ys : List ℕ) → Below h xs → Below h ys → Below h (xs ++ ys)
Below-append h [] ys b c = c
Below-append h (x ∷ xs) ys b c = (b.0, Below-append h xs ys b.1 c)

live-once : (h : Heap) (xs : List ℕ) → IsDistinct xs → IsDistinct (live h xs)
live-once h xs d x = ground (arith, d x, count-live h x xs)

-- The rows that `complete` frees.
abbrev freed_rows : Heap → List ℕ → List ℕ → List ℕ → List ℕ
freed_rows h running after bs = scan_aborted h (rows h (stopped running after)) bs

count-freed :
    (h : Heap) (x : ℕ) (running merged bs : List ℕ)
    → ((y : ℕ) → count y running ≤ count y merged)
    → count x (freed_rows h running (live h merged) bs) ≡ (
        if ltb 0 (count x (rows h (dead h running)))
        then count x (rows h (dead h running))
        else min 1 (count x (rows h (aborted h bs))))
count-freed h x running merged bs sub =
    rw (stopped-dead h running merged sub) (scan_aborted-count h x (rows h (dead h running)) bs)

freed-sum : (d a f : ℕ) → d + a ≤ 1 → f ≡ (if ltb 0 d then d else min 1 a) → f ≡ d + a
freed-sum d a f h e = ground arith

freed-left : (d a f : ℕ) → (0 < a → 0 < d) → f ≡ (if ltb 0 d then d else min 1 a) → f ≡ d
freed-left d a f h e = ground arith

count-live-append :
    (h : Heap) (x : ℕ) (xs ys : List ℕ)
    → count x (rows h (live h (xs ++ ys)))
      ≡ count x (rows h (live h xs)) + count x (rows h (live h ys))
count-live-append h x xs ys =
    rw (live-append h xs ys, map-append (λ r. (h.cell r).table_idx) (live h xs) (live h ys))
      (count-append x (rows h (live h xs)) (rows h (live h ys)))

-- A state in which a batch runs: `held` are the rows of the batch's requests outside the books.
pub record InFlight (n : ℕ) (s : Scheduler) (held : List ℕ) : Type 0 where
  pub owned : (x : ℕ) → owners x s + count x held ≡ count x (range_from 0 n)
  pub sorted : IsSorted s.free_slots
  pub ready : IsReady s.heap s.pending
  pub distinct : IsDistinct (oids s.pending)
  pub exist : Below s.heap s.running
  pub once : IsDistinct s.running

-- A prefill batch: new requests, none of them running.
pub complete_prefill :
    {n : ℕ} (s : Scheduler) (b : Batch)
    → InFlight n s (rows s.heap (plain s.heap b.reqs))
    → Below s.heap b.reqs
    → ((x : ℕ) → count x s.running + count x b.reqs ≤ 1)
    → IsSettled s.heap b.reqs
    → IsSound n (complete s b)
unfolding complete filter_reqs
complete_prefill {n} s b v exist apart settled = rw (merge-new b.reqs s.running apart) (
    completed-IsSound s (live h (s.running ++ b.reqs)) freed balanced v.sorted v.ready v.distinct
      (Below-live h h (s.running ++ b.reqs) (Below-append h s.running b.reqs v.exist exist))
      (live-once h (s.running ++ b.reqs)
        (λ x. omega (arith, count-append x s.running b.reqs, apart x))))
  where
    h : Heap
    h = s.heap

    freed : List ℕ
    freed = freed_rows h s.running (live h (s.running ++ b.reqs)) b.reqs

    balanced : (x : ℕ) → balance x s (live h (s.running ++ b.reqs)) freed ≡ count x (range_from 0 n)
    balanced x =
        let one = range-IsDistinct 0 n x in
        let ran = live-dead-rows h x s.running in
        let new = live-aborted-rows h x b.reqs settled in
        let back =
          freed-sum (count x (rows h (dead h s.running))) (count x (rows h (aborted h b.reqs)))
            (count x freed) (omega (arith, v.owned x, one, ran, new))
            (count-freed h x s.running (s.running ++ b.reqs) b.reqs
              (λ y. omega (arith, count-append y s.running b.reqs))) in
        omega (arith, v.owned x, ran, new, back, count-live-append h x s.running b.reqs)

-- A decode batch: some of the running requests.
pub complete_decode :
    {n : ℕ} (s : Scheduler) (b : Batch)
    → IsSound n s
    → ((x : ℕ) → 0 < count x b.reqs → 0 < count x s.running)
    → IsSound n (complete s b)
unfolding complete filter_reqs
complete_decode {n} s b v sub = rw (merge-old b.reqs s.running sub) (
    completed-IsSound s (live h s.running) freed balanced v.sorted v.ready v.distinct
      (Below-live h h s.running v.exist) (live-once h s.running v.once))
  where
    h : Heap
    h = s.heap

    freed : List ℕ
    freed = freed_rows h s.running (live h s.running) b.reqs

    balanced : (x : ℕ) → balance x s (live h s.running) freed ≡ count x (range_from 0 n)
    balanced x =
        let ran = live-dead-rows h x s.running in
        let back =
          freed-left (count x (rows h (dead h s.running))) (count x (rows h (aborted h b.reqs)))
            (count x freed) (aborted-dead-rows h x s.running b.reqs sub)
            (count-freed h x s.running s.running b.reqs (λ y. omega arith)) in
        omega (arith, v.owned x, ran, back)
