-- ===== src/Scheduler/Lifecycle.antt =====
-- The invariant of the scheduler, and `Scheduler.add`.
use free_token_intel.Prelude.{
  ℕ, ◌+◌, ◌≤◌, max, ◌≡◌, refl, ap, subst, inl, inr, none, List, [], ◌∷◌, ◌++◌, arith, ◌==◌,
  Bool-cases, ==_iff, ok, range_from, count, IsDistinct, count-append, count-sort, IsSorted,
  sort-IsSorted, RisesFrom-drop, range-IsSorted,
}
use free_token_intel.Scheduler.Req.{PendingReq, Heap, rows, input_len}
use free_token_intel.Scheduler.Refs.{Below}
use free_token_intel.Scheduler.Adder.Outcome.{offset_fresh, row_of_fresh}
use free_token_intel.Scheduler.Prefill.Walk.{IsReady}
use free_token_intel.Scheduler.Prefill.Oids.{oids, oids-append}
use free_token_intel.Scheduler.Prefill.Queue.{queue_rows, rows-append}
use free_token_intel.Scheduler.Prefill
use free_token_intel.Scheduler.Core.{Scheduler, Config, init, queued, add, release_all}

-- How many owners a page-table row has.
abbrev pub owners : ℕ → Scheduler → ℕ
owners x s =
    count x s.free_slots + count x (queue_rows s.heap s.pending) + count x (rows s.heap s.running)

-- The invariant of a scheduler with `n` rows.
pub record IsSound (n : ℕ) (s : Scheduler) : Type 0 where
  pub owned : (x : ℕ) → owners x s ≡ count x (range_from 0 n)
  pub sorted : IsSorted s.free_slots
  pub ready : IsReady s.heap s.pending
  pub distinct : IsDistinct (oids s.pending)
  pub exist : Below s.heap s.running
  pub once : IsDistinct s.running

pub init-IsSound :
    (c : Config) (cache_budget : ℕ) (h : Heap) → IsSound c.max_running_req (init c cache_budget h)
unfolding init count
init-IsSound c cache_budget h = record {
  owned = λ x. omega arith;
  sorted = range-IsSorted 0 c.max_running_req;
  ready = tt;
  distinct = λ x. omega arith;
  exist = tt;
  once = λ x. omega arith;
}

-- A request that the engine hands to `add`: a new object, nothing of it extended past its prompt.
pub record IsNew (s : Scheduler) (p : PendingReq) : Type 0 where
  pub unsplit : p.chunked_req ≡ none
  pub fits : p.cached_len ≤ input_len p
  pub unseen : count p.oid (oids s.pending) ≡ 0

IsReady-concat :
    (h : Heap) (ps : List PendingReq) (p : PendingReq)
    → IsReady h ps
    → p.chunked_req ≡ none
    → p.cached_len ≤ input_len p
    → IsReady h (ps ++ p ∷ [])
IsReady-concat h [] p v e fits = (rw (offset_fresh h p e) fits, simp e tt, tt)
IsReady-concat h (q ∷ ps) p v e fits = (v.0, v.1, IsReady-concat h ps p v.2 e fits)

abbrev added : Scheduler → PendingReq → ℕ → List ℕ → Scheduler
added s p row rest = record s {
  free_slots = rest;
  pending = s.pending ++ queued p row ∷ [];
  next_uid = max s.next_uid (p.uid + 1);
}

added-IsSound :
    {n : ℕ} (s : Scheduler) (p : PendingReq) (row : ℕ) (rest : List ℕ)
    → s.free_slots ≡ row ∷ rest
    → IsNew s p
    → IsSound n s
    → IsSound n (added s p row rest)
unfolding count
added-IsSound s p row rest e n v = record {
  owned = λ x. omega (
    arith,
    v.owned x,
    ap (count x) e,
    rows-append s.heap x s.pending (queued p row ∷ []),
    ap (λ r. count x (r ∷ [])) (row_of_fresh s.heap (queued p row) n.unsplit),
  );
  sorted = RisesFrom-drop 1 0 (row ∷ rest) (subst IsSorted e v.sorted);
  ready = IsReady-concat s.heap s.pending (queued p row) v.ready n.unsplit n.fits;
  distinct = λ o. one_more o (v.distinct o) (oids-append o s.pending (queued p row ∷ []));
  exist = v.exist;
  once = v.once;
}
  where
    one_more :
        (o : ℕ)
        → count o (oids s.pending) ≤ 1
        → count o (oids (s.pending ++ queued p row ∷ []))
          ≡ count o (oids s.pending) + count o (oids (queued p row ∷ []))
        → count o (oids (s.pending ++ queued p row ∷ [])) ≤ 1
    one_more o d h = elim (Bool-cases (p.oid == o)) [
      | inl hit ↦ ground (arith, (==_iff p.oid o).0 hit, n.unseen)
      | inr miss ↦ ground arith
    ]

-- `add` gives the new request the lowest free row.
pub add-IsSound :
    {n : ℕ} (s : Scheduler) (p : PendingReq) {t : Scheduler} {uid : ℕ}
    → IsNew s p
    → IsSound n s
    → add s p ≡ ok (t, uid)
    → IsSound n t
unfolding add Prefill.add_one_req
add-IsSound {n = m} s p {t} {uid} n v done = by_slots s.free_slots refl
  where
    by_slots : (frees : List ℕ) → s.free_slots ≡ frees → IsSound m t
    by_slots [] e = absurd (ground arith)
    by_slots (row ∷ rest) e =
        let same : t ≡ added s p row rest = ground arith in
        rw same (added-IsSound s p row rest e n v)

-- Rows that come back: the free list holds them besides its own, in order.
pub release_all-parts :
    (s : Scheduler) (back : List ℕ)
    → IsSorted s.free_slots
    → ((x : ℕ) → count x (release_all s back).free_slots ≡ count x s.free_slots + count x back)
      × IsSorted (release_all s back).free_slots
unfolding count
release_all-parts s [] sorted = (λ x. omega arith, sorted)
release_all-parts s (b ∷ bs) sorted = (
  λ x. omega (arith, count-sort x (s.free_slots ++ b ∷ bs), count-append x s.free_slots (b ∷ bs)),
  sort-IsSorted (s.free_slots ++ b ∷ bs),
)
