-- ===== src/Scheduler/Abort.antt =====
-- `Scheduler.abort` in every case: the request is queued, chunked, running, or not there.
use free_token_intel.Prelude.{
  ℕ, ◌+◌, ◌≤◌, ◌≡◌, refl, inl, inr, Bool, true, false, Option, none, some, List, [], ◌∷◌, arith,
  ◌==◌, Bool-cases, count,
}
use free_token_intel.Scheduler.Req.{PendingReq, Heap, row_of, rows}
use free_token_intel.Scheduler.Refs.{Below}
use free_token_intel.Scheduler.Prefill.Walk.{IsReady}
use free_token_intel.Scheduler.Prefill.Oids.{oids}
use free_token_intel.Scheduler.Prefill.Queue.{queue_rows}
use free_token_intel.Scheduler.Decode.{abort_req}
use free_token_intel.Scheduler.Core.{Scheduler, take_pending, release, abort_running, abort}
use free_token_intel.Scheduler.Lifecycle.{IsSound, release_all-parts}

-- The pending request that `abort` finds, and the queue without it.
record Taken (h : Heap) (ps : List PendingReq) (p : PendingReq) (rest : List PendingReq)
    : Type 0 where
  taken_rows :
      (x : ℕ) → count x (queue_rows h ps) ≡ count x (row_of h p ∷ []) + count x (queue_rows h rest)
  taken_ready : IsReady h ps → IsReady h rest
  taken_oids : (o : ℕ) → count o (oids rest) ≤ count o (oids ps)

take_pending-Taken :
    (h : Heap) (ps : List PendingReq) (uid : ℕ) {p : PendingReq} {rest : List PendingReq}
    → take_pending ps uid ≡ (some p, rest)
    → Taken h ps p rest
unfolding take_pending count
take_pending-Taken h [] uid e = absurd (ground arith)
take_pending-Taken h (q ∷ ps) uid {p} {rest} e = elim (Bool-cases (q.uid == uid)) [
  | inl hit ↦
      let ep : p ≡ q = ground arith in
      let er : rest ≡ ps = ground arith in
      rw (ep, er)
        (record {
          taken_rows = λ x. omega arith;
          taken_ready = λ v. v.2;
          taken_oids = λ o. omega arith;
        })
  | inr miss ↦
      let back = (take_pending ps uid).1 in
      let er : rest ≡ q ∷ back = ground arith in
      let t = take_pending-Taken h ps uid {p = p} {rest = back} (ground arith) in
      rw er (record {
        taken_rows = λ x. omega (arith, t.taken_rows x);
        taken_ready = λ v. (v.0, v.1, t.taken_ready v.2);
        taken_oids = λ o. omega (arith, t.taken_oids o);
      })
]

record TakenRun (h : Heap) (rs : List ℕ) (r : ℕ) (rest : List ℕ) : Type 0 where
  taken_rows :
      (x : ℕ) → count x (rows h rs) ≡ count x ((h.cell r).table_idx ∷ []) + count x (rows h rest)
  taken_exist : Below h rs → Below h rest
  taken_refs : (x : ℕ) → count x rest ≤ count x rs

abort_req-TakenRun :
    (h : Heap) (rs : List ℕ) (uid : ℕ) {r : ℕ} {rest : List ℕ}
    → abort_req h rs uid ≡ (some r, rest)
    → TakenRun h rs r rest
unfolding abort_req count
abort_req-TakenRun h [] uid e = absurd (ground arith)
abort_req-TakenRun h (q ∷ rs) uid {r} {rest} e = elim (Bool-cases ((h.cell q).uid == uid)) [
  | inl hit ↦
      let ep : r ≡ q = ground arith in
      let er : rest ≡ rs = ground arith in
      rw (ep, er)
        (record {
          taken_rows = λ x. omega arith;
          taken_exist = λ v. v.1;
          taken_refs = λ o. omega arith;
        })
  | inr miss ↦
      let back = (abort_req h rs uid).1 in
      let er : rest ≡ q ∷ back = ground arith in
      let t = abort_req-TakenRun h rs uid {r = r} {rest = back} (ground arith) in
      rw er (record {
        taken_rows = λ x. omega (arith, t.taken_rows x);
        taken_exist = λ v. (v.0, t.taken_exist v.1);
        taken_refs = λ o. omega (arith, t.taken_refs o);
      })
]

abort_running-IsSound :
    {n : ℕ} (s : Scheduler) (uid : ℕ) → IsSound n s → IsSound n (abort_running s uid).0
unfolding abort_running
abort_running-IsSound {n} s uid v = by_result (abort_req s.heap s.running uid).0 refl
  where
    rest : List ℕ
    rest = (abort_req s.heap s.running uid).1

    by_result :
        (o : Option ℕ)
        → (abort_req s.heap s.running uid).0 ≡ o
        → IsSound n
            (elim o as (λ _. Scheduler × Bool) [
              | none ↦ (s, false)
              | some r ↦
                  (release (record s { running = rest }) ((s.heap.cell r).table_idx ∷ []), true)
            ]).0
    by_result none e = v
    by_result (some r) e =
        let t = abort_req-TakenRun s.heap s.running uid {r = r} {rest = rest} (ground arith) in
        let back = (s.heap.cell r).table_idx ∷ [] in
        let parts = release_all-parts s back v.sorted in
        record {
          owned = λ x. omega (arith, v.owned x, t.taken_rows x, parts.0 x);
          sorted = parts.1;
          ready = v.ready;
          distinct = v.distinct;
          exist = t.taken_exist v.exist;
          once = λ x. omega (arith, v.once x, t.taken_refs x);
        }

-- `abort`, whether the request is queued, chunked, running or not there at all.
pub abort-IsSound : {n : ℕ} (s : Scheduler) (uid : ℕ) → IsSound n s → IsSound n (abort s uid).0
unfolding abort
abort-IsSound {n} s uid v = by_result (take_pending s.pending uid).0 refl
  where
    rest : List PendingReq
    rest = (take_pending s.pending uid).1

    by_result :
        (o : Option PendingReq)
        → (take_pending s.pending uid).0 ≡ o
        → IsSound n
            (elim o as (λ _. Scheduler × Bool) [
              | none ↦ abort_running s uid
              | some p ↦ (release (record s { pending = rest }) (row_of s.heap p ∷ []), true)
            ]).0
    by_result none e = abort_running-IsSound s uid v
    by_result (some p) e =
        let t = take_pending-Taken s.heap s.pending uid {p = p} {rest = rest} (ground arith) in
        let back = row_of s.heap p ∷ [] in
        let parts = release_all-parts s back v.sorted in
        record {
          owned = λ x. omega (arith, v.owned x, t.taken_rows x, parts.0 x);
          sorted = parts.1;
          ready = t.taken_ready v.ready;
          distinct = λ o. omega (arith, v.distinct o, t.taken_oids o);
          exist = v.exist;
          once = v.once;
        }
