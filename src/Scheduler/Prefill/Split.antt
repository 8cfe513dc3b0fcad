-- ===== src/Scheduler/Prefill/Split.antt =====
-- The requests of a pass: chunks, which stay queued, and finished prompts.
use free_token_intel.Prelude.{
  ℕ, ◌+◌, ◌≤◌, ◌≡◌, refl, ap, ◌∙◌, inl, inr, true, false, not, none, some, List, [], ◌∷◌, ◌++◌,
  arith, if◌then◌else◌, Bool-cases, select, count, count-append,
}
use mathlib.Core.List.{map-append}
use free_token_intel.Scheduler.Req.{Req, PendingReq, Heap, alloc, row_of, rows, input_len}
use free_token_intel.Scheduler.Refs.{
  Below, Grows, Grows-refl, Grows-alloc, Below-alloc, rows-Grows, alloc-cell_new,
}
use free_token_intel.Scheduler.Adder.{Adder}
use free_token_intel.Scheduler.Adder.Outcome.{row_of_continued, offset_continued}
use free_token_intel.Scheduler.Prefill.{Pass, admit}
use free_token_intel.Scheduler.Prefill.Walk.{Walks, IsReady, IsReady-alloc}
use free_token_intel.Scheduler.Prefill.Oids.{oids, oids-append}
use free_token_intel.Scheduler.Prefill.Queue.{queue_rows, queue_rows-Grows, rows-append, admit-rows}

-- The requests of a batch whose prompt is finished: plain `Req`s.
abbrev pub plain : Heap → List ℕ → List ℕ
plain h = select (λ r. not (h.cell r).chunked)

pub plain-Grows : {h k : Heap} (rs : List ℕ) → Grows h k → Below h rs → plain k rs ≡ plain h rs
plain-Grows [] g b = refl
plain-Grows (r ∷ rs) g b = rw (g.same r b.0, plain-Grows rs g b.1)

plain-append : (h : Heap) (xs ys : List ℕ) → plain h (xs ++ ys) ≡ plain h xs ++ plain h ys
plain-append h [] ys = refl
plain-append h (x ∷ xs) ys = ground (arith, plain-append h xs ys)

plain-Below : (h k : Heap) (rs : List ℕ) → Below h rs → Below h (plain k rs)
plain-Below h k [] b = tt
plain-Below h k (r ∷ rs) b = ground (arith, plain-Below h k rs b.1)

pub IsReady-append :
    (h : Heap) (ps qs : List PendingReq) → IsReady h ps → IsReady h qs → IsReady h (ps ++ qs)
IsReady-append h [] qs v w = w
IsReady-append h (p ∷ ps) qs v w = (v.0, v.1, IsReady-append h ps qs v.2 w)

-- The requests of a pass: its chunks, which stay queued, and its finished prompts.
pub record IsSplit (s : Pass) : Type 0 where
  pub below : Below s.heap s.reqs
  pub ready : IsReady s.heap s.chunked_list
  pub split :
      (x : ℕ)
      → count x (rows s.heap s.reqs)
        ≡ count x (queue_rows s.heap s.chunked_list) + count x (rows s.heap (plain s.heap s.reqs))
  pub again : (o : ℕ) → count o (oids s.chunked_list) ≤ count o (oids s.admitted)

-- The queue entry of an admitted chunk.
abbrev chunk_entry : Pass → PendingReq → PendingReq
chunk_entry s p = record p { chunked_req = some s.heap.next_ref }

chunk_entry-row :
    (s : Pass) (p : PendingReq) (r : Req) → row_of (alloc s.heap r) (chunk_entry s p) ≡ r.table_idx
chunk_entry-row s p r = rw (
  row_of_continued (alloc s.heap r) (chunk_entry s p) s.heap.next_ref refl,
  alloc-cell_new s.heap r,
)

chunk_entry-IsReady :
    (s : Pass) (p : PendingReq) (r : Req)
    → r.device_len ≤ input_len p
    → r.chunked ≡ true
    → IsReady (alloc s.heap r) (chunk_entry s p ∷ [])
unfolding alloc
chunk_entry-IsReady s p r h chunk = (
  rw
      (
        offset_continued (alloc s.heap r) (chunk_entry s p) s.heap.next_ref refl,
        alloc-cell_new s.heap r,
      )
      h,
  (omega arith, ap (λ x. x.chunked) (alloc-cell_new s.heap r) ∙ chunk),
  tt,
)

-- The finished prompts of a pass after one more request.
plain-alloc :
    (h : Heap) (r : Req) (rs : List ℕ)
    → Below h rs
    → plain (alloc h r) (rs ++ h.next_ref ∷ [])
      ≡ plain h rs ++ (if r.chunked then [] else h.next_ref ∷ [])
plain-alloc h r rs b =
    rw
      (
        plain-append (alloc h r) rs (h.next_ref ∷ []),
        plain-Grows rs (Grows-alloc h r (Grows-refl (alloc h r))) b,
        alloc-cell_new h r,
      )
      (ground arith)

plain-rows-alloc :
    (h : Heap) (r : Req) (rs : List ℕ) (x : ℕ)
    → Below h rs
    → count x (rows (alloc h r) (plain (alloc h r) (rs ++ h.next_ref ∷ [])))
      ≡ count x (rows h (plain h rs)) + (if r.chunked then 0 else count x (r.table_idx ∷ []))
unfolding count
plain-rows-alloc h r rs x b =
    rw
      (
        plain-alloc h r rs b,
        map-append (λ c. ((alloc h r).cell c).table_idx) (plain h rs)
            (if r.chunked then [] else h.next_ref ∷ []),
        rows-Grows (plain h rs) (Grows-alloc h r (Grows-refl (alloc h r))) (plain-Below h h rs b),
        count-append x (rows h (plain h rs)),
      )
      (elim (Bool-cases r.chunked) [
        | inl chunk ↦ simp chunk
        | inr whole ↦ simp (whole, alloc-cell_new h r)
      ])

module _ (s : Pass) (p : PendingReq) (a : Adder) (r : Req) (v : IsSplit s) where
  abbrev old_queue : queue_rows (alloc s.heap r) s.chunked_list ≡ queue_rows s.heap s.chunked_list
  old_queue =
      queue_rows-Grows s.chunked_list (Grows-alloc s.heap r (Grows-refl (alloc s.heap r))) v.ready

  admit_chunk : r.device_len ≤ input_len p → r.chunked ≡ true → IsSplit (admit s p a r)
  unfolding admit count
  admit_chunk h chunk = record {
    below = Below-alloc s.heap r s.reqs v.below;
    ready = simp chunk (
        IsReady-append (alloc s.heap r) s.chunked_list (chunk_entry s p ∷ [])
          (IsReady-alloc s.heap r s.chunked_list v.ready) (chunk_entry-IsReady s p r h chunk));
    split = λ x. simp chunk (
        omega (
          arith,
          v.split x,
          admit-rows s p a r x v.below,
          plain-rows-alloc s.heap r s.reqs x v.below,
          ap (λ c. if c then 0 else count x (r.table_idx ∷ [])) chunk,
          rows-append (alloc s.heap r) x s.chunked_list (chunk_entry s p ∷ []),
          ap (count x) old_queue,
          ap (λ n. count x (n ∷ [])) (chunk_entry-row s p r),
        ));
    again = λ o. simp chunk (
        omega (
          arith,
          v.again o,
          oids-append o s.chunked_list (chunk_entry s p ∷ []),
          oids-append o s.admitted (chunk_entry s p ∷ []),
        ));
  }

  admit_whole : r.chunked ≡ false → IsSplit (admit s p a r)
  unfolding admit count
  admit_whole whole = record {
    below = Below-alloc s.heap r s.reqs v.below;
    ready = simp whole (IsReady-alloc s.heap r s.chunked_list v.ready);
    split = λ x. simp whole (
        omega (
          arith,
          v.split x,
          admit-rows s p a r x v.below,
          plain-rows-alloc s.heap r s.reqs x v.below,
          ap (λ c. if c then 0 else count x (r.table_idx ∷ [])) whole,
          ap (count x) old_queue,
        ));
    again = λ o.
        simp whole (
          omega
            (arith, v.again o, oids-append o s.admitted (record p { chunked_req = none } ∷ [])));
  }

admit-IsSplit :
    (s : Pass) (p : PendingReq) (a : Adder) (r : Req)
    → r.device_len ≤ input_len p
    → IsSplit s
    → IsSplit (admit s p a r)
admit-IsSplit s p a r h v = elim (Bool-cases r.chunked) [
  | inl chunk ↦ admit_chunk s p a r v h chunk
  | inr whole ↦ admit_whole s p a r v whole
]

pub Walks-IsSplit : {s t : Pass} {ps : List PendingReq} → Walks s ps t → IsSplit s → IsSplit t
Walks-IsSplit Walks.done v = v
Walks-IsSplit (Walks.takes {s} {t} {p} {ps} a r h w) v =
    Walks-IsSplit w (admit-IsSplit s p a r h.carries.ends v)
Walks-IsSplit (Walks.stops e) v = v
Walks-IsSplit (Walks.skips e w) v = Walks-IsSplit w v
