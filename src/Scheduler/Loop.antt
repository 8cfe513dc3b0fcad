-- ===== src/Scheduler/Loop.antt =====
-- One step of the engine's loop, whole: `Scheduler.schedule`, the bookkeeping of `Engine.step`,
-- `Scheduler.complete`.
use free_token_intel.Prelude.{
  ℕ, ◌+◌, ◌-◌, ◌≤◌, ◌<◌, ◌≡◌, refl, sym, ap, subst, ◌∙◌, inl, inr, true, false, Option, none, some,
  List, [], ◌∷◌, arith, ltb, ◌==◌, Bool-cases, ==_iff, length, range_from, count, IsDistinct,
  count-range_below, range-IsDistinct,
}
use free_token_intel.Scheduler.Req.{PendingReq, Heap, Batch, row_of, rows}
use free_token_intel.Scheduler.Refs.{Below, Grows, Below-Grows, rows-Grows}
use free_token_intel.Scheduler.Adder.Outcome.{
  offset, offset_fresh, offset_continued, row_of_fresh, row_of_continued,
}
use free_token_intel.Scheduler.Prefill.Walk.{IsReady, IsKnown, IsReady-Grows}
use free_token_intel.Scheduler.Prefill.Queue.{queue_rows, queue_rows-Grows}
use free_token_intel.Scheduler.Prefill.Split.{plain}
use free_token_intel.Scheduler.Prefill.Run.{AreLive}
use free_token_intel.Scheduler.Prefill.Rows.{Passes}
use free_token_intel.Scheduler.Decode.{sort_by_uid, insert_by_uid}
use free_token_intel.Scheduler.Core.{Scheduler, complete}
use free_token_intel.Scheduler.Forward.{Ran, after_forward, after_forward-Ran}
use free_token_intel.Scheduler.Completion.{IsSettled}
use free_token_intel.Scheduler.Lifecycle.{owners, IsSound}
use free_token_intel.Scheduler.Steps.{complete_prefill, complete_decode}

module _ {bs : List ℕ} {h k : Heap} (v : Ran bs h k) where
  rows-Ran : (rs : List ℕ) → rows k rs ≡ rows h rs
  rows-Ran [] = refl
  rows-Ran (r ∷ rs) = rw (v.rows_kept r, rows-Ran rs)

  plain-Ran : (rs : List ℕ) → plain k rs ≡ plain h rs
  plain-Ran [] = refl
  plain-Ran (r ∷ rs) = rw (v.kinds_kept r, plain-Ran rs)

  Below-Ran : (rs : List ℕ) → Below h rs → Below k rs
  Below-Ran [] b = tt
  Below-Ran (r ∷ rs) b = (omega (arith, v.refs_kept, b.0), Below-Ran rs b.1)

  row_of-Ran : (p : PendingReq) → row_of k p ≡ row_of h p
  row_of-Ran p = by_kind p.chunked_req refl
    where
      by_kind : (o : Option ℕ) → p.chunked_req ≡ o → row_of k p ≡ row_of h p
      by_kind none e = rw (row_of_fresh h p e, row_of_fresh k p e)
      by_kind (some c) e = rw (row_of_continued h p c e, row_of_continued k p c e) (v.rows_kept c)

  offset-Ran : (p : PendingReq) → IsKnown h p.chunked_req → offset k p ≡ offset h p
  offset-Ran p known = by_kind p.chunked_req refl known
    where
      by_kind : (o : Option ℕ) → p.chunked_req ≡ o → IsKnown h o → offset k p ≡ offset h p
      by_kind none e b = rw (offset_fresh h p e, offset_fresh k p e)
      by_kind (some c) e b =
          rw (offset_continued h p c e, offset_continued k p c e)
            (ap (λ x. x.device_len) (v.chunks_kept c b.1))

  IsKnown-Ran : (o : Option ℕ) → IsKnown h o → IsKnown k o
  IsKnown-Ran none b = tt
  IsKnown-Ran (some c) b = (omega (arith, v.refs_kept, b.0), v.kinds_kept c ∙ b.1)

  queue_rows-Ran : (ps : List PendingReq) → queue_rows k ps ≡ queue_rows h ps
  queue_rows-Ran [] = refl
  queue_rows-Ran (p ∷ ps) = rw (row_of-Ran p, queue_rows-Ran ps)

  IsReady-Ran : (ps : List PendingReq) → IsReady h ps → IsReady k ps
  IsReady-Ran [] ready = tt
  IsReady-Ran (p ∷ ps) ready =
      (rw (offset-Ran p ready.1) ready.0, IsKnown-Ran p.chunked_req ready.1, IsReady-Ran ps ready.2)

count-Below : (h : Heap) (x : ℕ) (rs : List ℕ) → Below h rs → h.next_ref ≤ x → count x rs ≡ 0
unfolding count
count-Below h x [] b far = refl
count-Below h x (r ∷ rs) b far = ground (arith, count-Below h x rs b.1)

AreLive-at :
    (h : Heap) (x : ℕ) (rs : List ℕ) → AreLive h rs → 0 < count x rs → (h.cell x).aborted ≡ false
unfolding count
AreLive-at h x [] live k = absurd (omega arith)
AreLive-at h x (r ∷ rs) live k = elim (Bool-cases (r == x)) [
  | inl hit ↦
      let same : r ≡ x = (==_iff r x).0 hit in subst (λ y. (h.cell y).aborted ≡ false) same live.0
  | inr miss ↦ AreLive-at h x rs live.1 (ground arith)
]

Ran-IsSettled : {bs : List ℕ} {h k : Heap} → Ran bs h k → AreLive h bs → IsSettled k bs
Ran-IsSettled {bs} {h} {k} v live = record {
  chunks = λ x here chunk.
      let before : (h.cell x).chunked ≡ true = sym (v.kinds_kept x) ∙ chunk in
      ap (λ r. r.aborted) (v.chunks_kept x before) ∙ AreLive-at h x bs live here;
  others = λ x here plain. v.settled x here (sym (v.kinds_kept x) ∙ plain);
}

-- The step after a prefill batch.
pub prefill-IsSound :
    {n : ℕ} (s : Scheduler) (b : Batch) (k : Heap) (q : List PendingReq) (eos : ℕ) (toks : List ℕ)
    → IsSound n s
    → Passes s.heap s.pending b k q
    → length b.reqs ≡ length toks
    → IsSound n
        (complete (record s { heap = after_forward b.phase eos k b.reqs toks; pending = q }) b)
prefill-IsSound {n} s b k q eos toks v p e =
    complete_prefill (record s { heap = h; pending = q }) b
      (record {
        owned = owned_after;
        sorted = v.sorted;
        ready = IsReady-Ran ran q p.ready;
        distinct = p.distinct;
        exist = Below-Ran ran s.running (Below-Grows s.running p.grows v.exist);
        once = v.once;
      })
      (Below-Ran ran b.reqs p.exist) apart (Ran-IsSettled ran p.alive)
  where
    h : Heap
    h = after_forward b.phase eos k b.reqs toks

    m : ℕ
    m = k.next_ref - s.heap.next_ref

    once : IsDistinct b.reqs
    once = rw p.fresh (range-IsDistinct s.heap.next_ref m)

    ran : Ran b.reqs k h
    ran = after_forward-Ran b.phase eos k b.reqs toks once e

    apart : (x : ℕ) → count x s.running + count x b.reqs ≤ 1
    apart x = elim (Bool-cases (ltb x s.heap.next_ref)) [
      | inl old ↦
          let new : count x b.reqs ≡ 0 =
            rw p.fresh (count-range_below x s.heap.next_ref m (ground arith)) in
          omega (arith, v.once x, new)
      | inr new ↦ omega (arith, once x, count-Below s.heap x s.running v.exist (ground arith))
    ]

    owned_after :
        (x : ℕ)
        → owners x (record s { heap = h; pending = q }) + count x (rows h (plain h b.reqs))
          ≡ count x (range_from 0 n)
    owned_after x =
        let er = rows-Ran ran s.running ∙ rows-Grows s.running p.grows v.exist in
        rw (queue_rows-Ran ran q, er, plain-Ran ran b.reqs, rows-Ran ran (plain k b.reqs))
          (omega (arith, v.owned x, p.rows_kept x))

count-insert_by_uid :
    (h : Heap) (x r : ℕ) (rs : List ℕ) → count x (insert_by_uid h r rs) ≡ count x (r ∷ rs)
unfolding insert_by_uid count
count-insert_by_uid h x r [] = refl
count-insert_by_uid h x r (q ∷ rs) = ground (arith, count-insert_by_uid h x r rs)

pub count-sort_by_uid : (h : Heap) (x : ℕ) (rs : List ℕ) → count x (sort_by_uid h rs) ≡ count x rs
unfolding sort_by_uid count
count-sort_by_uid h x [] = refl
count-sort_by_uid h x (r ∷ rs) =
    omega (arith, count-sort_by_uid h x rs, count-insert_by_uid h x r (sort_by_uid h rs))

-- The scheduler over a heap that has grown, or that a batch has run over.
pub IsSound-Grows :
    {n : ℕ} (s : Scheduler) (k : Heap)
    → IsSound n s
    → Grows s.heap k
    → IsSound n (record s { heap = k })
IsSound-Grows s k v g = record {
  owned =
      λ x. rw (queue_rows-Grows s.pending g v.ready, rows-Grows s.running g v.exist) (v.owned x);
  sorted = v.sorted;
  ready = IsReady-Grows s.pending g v.ready;
  distinct = v.distinct;
  exist = Below-Grows s.running g v.exist;
  once = v.once;
}

IsSound-Ran :
    {n : ℕ} {bs : List ℕ} (s : Scheduler) (k : Heap)
    → IsSound n s
    → Ran bs s.heap k
    → IsSound n (record s { heap = k })
IsSound-Ran s k v ran = record {
  owned = λ x. rw (queue_rows-Ran ran s.pending, rows-Ran ran s.running) (v.owned x);
  sorted = v.sorted;
  ready = IsReady-Ran ran s.pending v.ready;
  distinct = v.distinct;
  exist = Below-Ran ran s.running v.exist;
  once = v.once;
}

-- The step after a decode batch, over a heap that a pass without a batch has left.
pub decode-IsSound :
    {n : ℕ} (s : Scheduler) (b : Batch) (eos : ℕ) (toks : List ℕ)
    → IsSound n s
    → ((x : ℕ) → count x b.reqs ≡ count x s.running)
    → length b.reqs ≡ length toks
    → IsSound n (complete (record s { heap = after_forward b.phase eos s.heap b.reqs toks }) b)
decode-IsSound s b eos toks v same e =
    let once : IsDistinct b.reqs = λ x. omega (arith, v.once x, same x) in
    let ran = after_forward-Ran b.phase eos s.heap b.reqs toks once e in
    let h = after_forward b.phase eos s.heap b.reqs toks in
    complete_decode (record s { heap = h }) b (IsSound-Ran s h v ran)
      (λ x k. omega (arith, same x, k))
