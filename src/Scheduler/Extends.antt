-- ===== src/Scheduler/Extends.antt =====
-- What the walk over the queue adds to an admission pass (python/freetoken/scheduler/prefill.py).
use free_token_intel.Prelude.{
  ℕ, ◌≡◌, sym, ap, ◌∙◌, inl, inr, Option, none, some, List, [], ◌∷◌, ◌++◌, append_assoc, append-nil,
  if◌then◌else◌, Bool-cases,
}
use free_token_intel.Scheduler.Req.{Req, PendingReq}
use free_token_intel.Scheduler.Refs.{Grows, Grows-refl, Grows-alloc}
use free_token_intel.Scheduler.Adder.{Adder, try_add_one}
use free_token_intel.Scheduler.Prefill.{Pass, is_continuation, admit, walk}

-- What a walk over the queue leaves of the pass that it began with.
pub record Extends (s t : Pass) : Type 0 where
  pub more : List ℕ
  pub chunks : List PendingReq
  pub reqs : t.reqs ≡ s.reqs ++ more
  pub queued : t.chunked_list ≡ s.chunked_list ++ chunks
  pub grows : Grows s.heap t.heap

Extends-refl : (s : Pass) (a : Adder) → Extends s (record s { adder = a })
Extends-refl s a = record {
  more = [];
  chunks = [];
  reqs = sym (append-nil s.reqs);
  queued = sym (append-nil s.chunked_list);
  grows = Grows-refl s.heap;
}

admit-Extends :
    (s : Pass) (p : PendingReq) (a : Adder) (r : Req) {t : Pass}
    → Extends (admit s p a r) t
    → Extends s t
unfolding admit
admit-Extends s p a r {t} e =
    let p' = record p { chunked_req = if r.chunked then some s.heap.next_ref else none } in
    elim (Bool-cases r.chunked) [
      | inl chunk ↦ record {
        more = s.heap.next_ref ∷ e.more;
        chunks = p' ∷ e.chunks;
        reqs = e.reqs ∙ append_assoc s.reqs (s.heap.next_ref ∷ []) e.more;
        queued =
            e.queued
            ∙ ap (λ b. (if b then s.chunked_list ++ p' ∷ [] else s.chunked_list) ++ e.chunks) chunk
            ∙ append_assoc s.chunked_list (p' ∷ []) e.chunks;
        grows = Grows-alloc s.heap r e.grows;
      }
      | inr whole ↦ record {
        more = s.heap.next_ref ∷ e.more;
        chunks = e.chunks;
        reqs = e.reqs ∙ append_assoc s.reqs (s.heap.next_ref ∷ []) e.more;
        queued =
            e.queued
            ∙ ap (λ b. (if b then s.chunked_list ++ p' ∷ [] else s.chunked_list) ++ e.chunks) whole;
        grows = Grows-alloc s.heap r e.grows;
      }
    ]

walk_rest :
    (s : Pass) (p : PendingReq) (ps : List PendingReq) (b : Adder) (o : Option Req)
    → ((t : Pass) → Extends t (walk t ps))
    → Extends s (elim o as (λ _. Pass) [
      | none ↦
          if is_continuation p then record s { adder = b } else walk (record s { adder = b }) ps
      | some r ↦ walk (admit s p b r) ps
    ])
walk_rest s p ps b (some r) rest = admit-Extends s p b r (rest (admit s p b r))
walk_rest s p ps b none rest = elim (Bool-cases (is_continuation p)) [
  | inl e ↦ rw e (Extends-refl s b)
  | inr e ↦
      let t = rest (record s { adder = b }) in
      rw e (record {
        more = t.more;
        chunks = t.chunks;
        reqs = t.reqs;
        queued = t.queued;
        grows = t.grows;
      })
]

pub walk-Extends : (s : Pass) (ps : List PendingReq) → Extends s (walk s ps)
unfolding walk
walk-Extends s [] = Extends-refl s s.adder
walk-Extends s (p ∷ ps) =
    walk_rest s p ps (try_add_one s.heap s.adder p).0 (try_add_one s.heap s.adder p).1
      (λ t. walk-Extends t ps)
