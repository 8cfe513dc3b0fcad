-- ===== src/Scheduler/Adder/Outcome.antt =====
-- What one call of `try_add_one` does, on every branch.
use free_token_intel.Prelude.{
  ℕ, ◌+◌, ◌-◌, ◌≤◌, ◌<◌, ◌≡◌, refl, ◌⊎◌, inl, inr, Bool, true, false, Option, none, some, arith,
  ltb, leb, ◌==◌, Bool-cases, Option-cases, length, take, length-take,
}
use free_token_intel.Scheduler.Req.{
  Req, PendingReq, Heap, row_of, input_len, output_len, extend_len,
}
use free_token_intel.Scheduler.Adder.{
  Adder, footprint, try_allocate_one, undo_allocation, new_req, chunk_size, add_one_req, resume,
  or_undo, start, keep_on_refusal, try_add_one,
}

-- Where the next chunk of the prompt begins: after the cached prefix, or where the last chunk ended.
unfoldable pub offset : Heap → PendingReq → ℕ
offset h p = elim p.chunked_req [ none ↦ p.cached_len | some c ↦ (h.cell c).device_len ]

module _ (h : Heap) (p : PendingReq) where
  pub offset_fresh : p.chunked_req ≡ none → offset h p ≡ p.cached_len
  unfolding offset
  offset_fresh e = ground arith

  pub offset_continued : (c : ℕ) → p.chunked_req ≡ some c → offset h p ≡ (h.cell c).device_len
  unfolding offset
  offset_continued c e = ground arith

  pub row_of_fresh : p.chunked_req ≡ none → row_of h p ≡ p.table_idx
  unfolding row_of
  row_of_fresh e = ground arith

  pub row_of_continued : (c : ℕ) → p.chunked_req ≡ some c → row_of h p ≡ (h.cell c).table_idx
  unfolding row_of
  row_of_continued c e = ground arith

-- The request carries the prompt up to the end of a chunk that begins at `from`.
pub record Carries (p : PendingReq) (from row_idx : ℕ) (r : Req) : Type 0 where
  pub begins : r.cached_len ≡ from
  pub ends : r.device_len ≤ input_len p
  pub grows : from ≤ r.device_len
  pub slice : r.input_ids ≡ take r.device_len p.input_ids
  pub row_kept : r.table_idx ≡ row_idx
  pub uid_kept : r.uid ≡ p.uid
  pub is_live : r.aborted ≡ false
  pub to_generate : r.max_device_len ≡ r.device_len + output_len p
  pub partial : r.chunked ≡ ltb r.device_len (input_len p)

new_req-Carries :
    (p : PendingReq) (row_idx from n : ℕ) (next handle : Option ℕ)
    → from + n ≤ input_len p
    → Carries p from row_idx (new_req p row_idx from n next handle (ltb n (input_len p - from)))
unfolding new_req
new_req-Carries p row_idx from n next handle h =
    let e : length (take (from + n) p.input_ids) ≡ from + n =
      omega (arith, length-take (from + n) p.input_ids) in
    record {
      begins = refl;
      ends = omega (arith, e);
      grows = omega (arith, e);
      slice = rw e;
      row_kept = refl;
      uid_kept = refl;
      is_live = refl;
      to_generate = refl;
      partial = rw e (ground arith);
    }

pub record Extends (a : Adder) (p : PendingReq) (from row_idx : ℕ) (b : Adder) (r : Req)
    : Type 0 where
  pub carries : Carries p from row_idx r
  pub charged : b.token_budget + extend_len r ≡ a.token_budget
  pub same_step : b.step_budget ≡ a.step_budget
  pub same_cap : b.max_running_req ≡ a.max_running_req
  pub same_pool : b.cache_budget ≡ a.cache_budget
  pub same_reserved : b.reserved_size ≡ a.reserved_size
  pub same_count : b.running_count ≡ a.running_count

-- `chunk_size` never exceeds the budget or the rest of the prompt.
chunk_size-le :
    (budget rest : ℕ) (chunked : Bool) {n : ℕ}
    → chunk_size budget rest chunked ≡ some n
    → (n ≤ budget) × (n ≤ rest) × (chunked ≡ true → 0 < n)
unfolding chunk_size
chunk_size-le budget rest true h = ground arith
chunk_size-le budget rest false h = ground arith

-- The parameters of one admission: the row, where the chunk begins, and what is passed on.
module _ (a : Adder) (p : PendingReq) (row_idx from : ℕ) (next handle : Option ℕ) where
  abbrev made : ℕ → Req
  made n = new_req p row_idx from n next handle (ltb n (input_len p - from))

  made-Extends :
      (n : ℕ)
      → from + n ≤ input_len p
      → n ≤ a.token_budget
      → Extends a p from row_idx (record a { token_budget = a.token_budget - n }) (made n)
  unfolding new_req
  made-Extends n h k = record {
    carries = new_req-Carries p row_idx from n next handle h;
    charged = omega (arith, length-take (from + n) p.input_ids);
    same_step = refl;
    same_cap = refl;
    same_pool = refl;
    same_reserved = refl;
    same_count = refl;
  }

  pub add_one_req-Extends :
      (chunked : Bool) {b : Adder} {r : Req}
      → from ≤ input_len p
      → add_one_req a p row_idx from next handle chunked ≡ some (b, r)
      → Extends a p from row_idx b r × (chunked ≡ true → from < r.device_len)
  unfolding add_one_req new_req
  add_one_req-Extends chunked {b} {r} h e =
      elim (Option-cases (chunk_size a.token_budget (input_len p - from) chunked)) [
        | inl nothing ↦ absurd (ground arith)
        | inr (n, found) ↦
            let size = chunk_size-le a.token_budget (input_len p - from) chunked found in
            let eb : b ≡ record a { token_budget = a.token_budget - n } = ground arith in
            let er : r ≡ made n = ground arith in
            (
              rw (eb, er) (made-Extends n (omega arith) size.0),
              λ c. rw er (omega (arith, length-take (from + n) p.input_ids, size.2 c)),
            )
      ]

-- A fresh prompt takes a running slot and its footprint of the pool, within the two limits; a
-- continuation takes neither, and gains at least one token.
pub data Reserves (a : Adder) (p : PendingReq) (from : ℕ) (b : Adder) (r : Req) : Type 0 where
  fresh :
      p.chunked_req ≡ none
      → b.running_count ≡ a.running_count + 1
      → b.running_count ≤ a.max_running_req
      → b.reserved_size ≡ a.reserved_size + footprint p
      → b.reserved_size ≤ a.cache_budget
      → Reserves a p from b r
  continued :
      (c : ℕ)
      → p.chunked_req ≡ some c
      → b.running_count ≡ a.running_count
      → b.reserved_size ≡ a.reserved_size
      → from < r.device_len
      → Reserves a p from b r

pub record Admits (h : Heap) (a : Adder) (p : PendingReq) (b : Adder) (r : Req) : Type 0 where
  pub carries : Carries p (offset h p) (row_of h p) r
  pub charged : b.token_budget + extend_len r ≡ a.token_budget
  pub same_step : b.step_budget ≡ a.step_budget
  pub same_cap : b.max_running_req ≡ a.max_running_req
  pub same_pool : b.cache_budget ≡ a.cache_budget
  pub reserves : Reserves a p (offset h p) b r

abbrev pub Outcome : Heap → Adder → PendingReq → Adder → Option Req → Type 0
Outcome h a p b none = b ≡ a
Outcome h a p b (some r) = Admits h a p b r

reserved : Adder → PendingReq → Adder
reserved a p = record a {
  reserved_size = a.reserved_size + footprint p;
  running_count = a.running_count + 1;
}

undo-reserved : (a : Adder) (p : PendingReq) → undo_allocation (reserved a p) p ≡ a
unfolding undo_allocation reserved
undo-reserved a p = ground arith

try_allocate_one-cases :
    (a : Adder) (p : PendingReq)
    → (try_allocate_one a p ≡ none)
      ⊎ ((try_allocate_one a p ≡ some (reserved a p, p.cached_len))
          × (a.running_count < a.max_running_req)
          × (a.reserved_size + footprint p ≤ a.cache_budget))
unfolding try_allocate_one reserved
try_allocate_one-cases a p = ground arith

-- What the source knows where the budget decides: a fresh prompt, its footprint reserved.
module _ (h : Heap) (a : Adder) (p : PendingReq) (new : p.chunked_req ≡ none)
    (fits : p.cached_len ≤ input_len p) where
  or_undo-Outcome :
      (first : Bool) (o : Option (Adder × Req))
      → a.running_count < a.max_running_req
      → a.reserved_size + footprint p ≤ a.cache_budget
      → add_one_req (reserved a p) p p.table_idx p.cached_len p.next_table_idx p.cache_handle first
        ≡ o
      → Outcome h a p (or_undo (reserved a p) p o).0 (or_undo (reserved a p) p o).1
  or_undo-Outcome first none below pool e = undo-reserved a p
  or_undo-Outcome first (some (b, r)) below pool e =
      let (x, _) =
        add_one_req-Extends (reserved a p) p p.table_idx p.cached_len p.next_table_idx
          p.cache_handle first fits e in
      unfold reserved in
      record {
        carries = rw (offset_fresh h p new, row_of_fresh h p new) x.carries;
        charged = x.charged;
        same_step = x.same_step;
        same_cap = x.same_cap;
        same_pool = x.same_pool;
        reserves =
            Reserves.fresh new (omega (arith, x.same_count)) (omega (arith, x.same_count))
              x.same_reserved (omega (arith, x.same_reserved));
      }

  start-Outcome : Outcome h a p (start a p).0 (start a p).1
  unfolding start
  start-Outcome = elim (try_allocate_one-cases a p) [
    | inl e ↦ rw (e, start) refl
    | inr (e, below, pool) ↦
        rw (e, start)
          (or_undo-Outcome ((reserved a p).token_budget == (reserved a p).step_budget) _ below pool
            refl)
  ]

resume-opened :
    (a : Adder) (p : PendingReq) (c : Req) {o : Option (Adder × Req)}
    → resume a p c ≡ o
    → add_one_req a p c.table_idx c.device_len c.next_table_idx c.cache_handle true ≡ o
unfolding resume
resume-opened a p c e = e

resume-Outcome :
    (h : Heap) (a : Adder) (p : PendingReq) (c : ℕ) (o : Option (Adder × Req))
    → p.chunked_req ≡ some c
    → (h.cell c).device_len ≤ input_len p
    → resume a p (h.cell c) ≡ o
    → Outcome h a p (keep_on_refusal a o).0 (keep_on_refusal a o).1
resume-Outcome h a p c none held fits e = refl
resume-Outcome h a p c (some (b, r)) held fits e =
    let cell = h.cell c in
    let (x, grew) =
      add_one_req-Extends a p cell.table_idx cell.device_len cell.next_table_idx cell.cache_handle
        true fits (resume-opened a p cell e) in
    record {
      carries = rw (offset_continued h p c held, row_of_continued h p c held) x.carries;
      charged = x.charged;
      same_step = x.same_step;
      same_cap = x.same_cap;
      same_pool = x.same_pool;
      reserves =
          Reserves.continued c held x.same_count x.same_reserved
            (rw (offset_continued h p c held) (grew refl));
    }

-- One call of `try_add_one`, whatever the request and the adder. A refusal leaves the adder exactly
-- as it was (the reservation of a refused fresh prompt is rolled back). An admission charges the
-- step's token budget with the tokens that the new request extends; the request carries the prompt
-- from where it stood (the cached prefix, or the end of the last chunk) to its new end, keeps the
-- row and the uid, and is a `ChunkedReq` exactly if the prompt is not finished. A fresh prompt takes
-- one running slot and its footprint within the cap and the pool budget; a continuation takes
-- neither and gains at least one token. (The prompt is at least as long as the part that is done.)
pub try_add_one-Outcome :
    (h : Heap) (a : Adder) (p : PendingReq)
    → offset h p ≤ input_len p
    → Outcome h a p (try_add_one h a p).0 (try_add_one h a p).1
unfolding try_add_one
try_add_one-Outcome h a p fits = elim (Bool-cases (leb a.token_budget 0)) [
  | inl spent ↦ rw (spent, try_add_one) refl
  | inr left ↦ rw (left, try_add_one) (by_kind p.chunked_req refl)
]
  where
    by_kind :
        (o : Option ℕ)
        → p.chunked_req ≡ o
        → let t = elim o as (λ _. Adder × Option Req) [
          | none ↦ start a p
          | some ref ↦ keep_on_refusal a (resume a p (h.cell ref))
        ] in
          Outcome h a p t.0 t.1
    by_kind none new = start-Outcome h a p new (rw (offset_fresh h p new) at fits)
    by_kind (some c) held =
        resume-Outcome h a p c (resume a p (h.cell c)) held
          (rw (offset_continued h p c held) at fits) refl
