-- ===== src/Scheduler/Prefill/Budget.antt =====
-- One prefill pass against its three limits: the token budget, the running cap, the pool budget.
use free_token_intel.Prelude.{
  ℕ, ◌+◌, ◌≤◌, ◌<◌, ◌≡◌, refl, true, false, none, some, List, [], ◌∷◌, ◌++◌, arith, length,
  length-append,
}
use free_token_intel.Scheduler.Req.{Req, PendingReq, Heap, Batch, extend_len, alloc}
use free_token_intel.Scheduler.Refs.{Below, alloc-cell, alloc-cell_new, Below-alloc}
use free_token_intel.Scheduler.Adder.{Adder}
use free_token_intel.Scheduler.Adder.Outcome.{Reserves}
use free_token_intel.Scheduler.Prefill.{
  Pass, Limits, is_continuation, admit, walk, first_pass, batch_of, finish, schedule_next_batch,
}
use free_token_intel.Scheduler.Prefill.Walk.{Walks, IsReady, walk-Walks}

-- The tokens that the requests of a batch extend.
abbrev pub extended : Heap → List ℕ → ℕ
extended h [] = 0
extended h (r ∷ rs) = extend_len (h.cell r) + extended h rs

extended-alloc :
    (h : Heap) (r : Req) (rs : List ℕ) → Below h rs → extended (alloc h r) rs ≡ extended h rs
extended-alloc h r [] b = refl
extended-alloc h r (x ∷ xs) b = rw (alloc-cell h r x b.0, extended-alloc h r xs b.1)

extended-append :
    (h : Heap) (xs ys : List ℕ) → extended h (xs ++ ys) ≡ extended h xs + extended h ys
extended-append h [] ys = omega arith
extended-append h (x ∷ xs) ys = omega (arith, extended-append h xs ys)

-- The log of new tokens is what the batch extends.
record IsLogged (s : Pass) : Type 0 where
  logged : s.log_new_tokens ≡ extended s.heap s.reqs
  below : Below s.heap s.reqs

admit-IsLogged :
    (s : Pass) (p : PendingReq) (a : Adder) (r : Req) → IsLogged s → IsLogged (admit s p a r)
unfolding admit
admit-IsLogged s p a r v = record {
  logged =
      rw
        (
          extended-append (alloc s.heap r) s.reqs (s.heap.next_ref ∷ []),
          extended-alloc s.heap r s.reqs v.below,
          alloc-cell_new s.heap r,
        )
        (omega (arith, v.logged));
  below = Below-alloc s.heap r s.reqs v.below;
}

Walks-IsLogged : {s t : Pass} {ps : List PendingReq} → Walks s ps t → IsLogged s → IsLogged t
Walks-IsLogged Walks.done v = v
Walks-IsLogged (Walks.takes {s} {t} {p} {ps} a r h w) v =
    Walks-IsLogged w (admit-IsLogged s p a r v)
Walks-IsLogged (Walks.stops e) v = v
Walks-IsLogged (Walks.skips e w) v = Walks-IsLogged w v

Walks-charged :
    {s t : Pass} {ps : List PendingReq}
    → Walks s ps t
    → t.adder.token_budget + t.log_new_tokens ≡ s.adder.token_budget + s.log_new_tokens
unfolding admit
Walks-charged Walks.done = refl
Walks-charged (Walks.takes a r h w) = omega (arith, Walks-charged w, h.charged)
Walks-charged (Walks.stops e) = refl
Walks-charged (Walks.skips e w) = Walks-charged w

-- The fresh prompts of a pass are those that it records as admissions; each took a running slot.
record IsCapped (s t : Pass) : Type 0 where
  counted :
      t.adder.running_count + length s.prompt_admissions
      ≡ s.adder.running_count + length t.prompt_admissions
  capped :
      (length s.prompt_admissions < length t.prompt_admissions)
      → t.adder.running_count ≤ s.adder.max_running_req
  pooled :
      (length s.prompt_admissions < length t.prompt_admissions)
      → t.adder.reserved_size ≤ s.adder.cache_budget
  kept :
      length s.prompt_admissions ≡ length t.prompt_admissions
      → t.adder.reserved_size ≡ s.adder.reserved_size
  grown : length s.prompt_admissions ≤ length t.prompt_admissions

length-concat {ℓ} : {A : Type ℓ} (xs : List A) (x : A) → length (xs ++ x ∷ []) ≡ length xs + 1
length-concat xs x = omega (arith, length-append xs (x ∷ []))

is_continuation_fresh : (p : PendingReq) → p.chunked_req ≡ none → is_continuation p ≡ false
is_continuation_fresh p e = ground arith

is_continuation-some : (p : PendingReq) (c : ℕ) → p.chunked_req ≡ some c → is_continuation p ≡ true
is_continuation-some p c e = ground arith

admit-IsCapped :
    (s : Pass) (p : PendingReq) (a : Adder) (r : Req) {from : ℕ}
    → Reserves s.adder p from a r
    → IsCapped s (admit s p a r)
unfolding admit
admit-IsCapped s p a r (Reserves.fresh e c m v k) =
    let one = length-concat s.prompt_admissions (r.uid, length p.input_ids, 0) in
    rw (is_continuation_fresh p e) (record {
      counted = omega (arith, one);
      capped = λ _. m;
      pooled = λ _. k;
      kept = λ x. absurd (omega (arith, one));
      grown = omega (arith, one);
    })
admit-IsCapped s p a r (Reserves.continued c e m v k) = rw (is_continuation-some p c e) (record {
  counted = omega arith;
  capped = λ x. absurd (omega arith);
  pooled = λ x. absurd (omega arith);
  kept = λ _. v;
  grown = omega arith;
})

IsCapped-trans :
    {s t u : Pass}
    → t.adder.max_running_req ≡ s.adder.max_running_req
    → t.adder.cache_budget ≡ s.adder.cache_budget
    → IsCapped s t
    → IsCapped t u
    → IsCapped s u
IsCapped-trans c p v w = record {
  counted = omega arith;
  capped = λ x. grind arith;
  pooled = λ x. grind arith;
  kept = λ x. omega arith;
  grown = omega arith;
}

IsCapped-refl : (s : Pass) → IsCapped s s
IsCapped-refl s = record {
  counted = refl;
  capped = λ x. absurd (omega arith);
  pooled = λ x. absurd (omega arith);
  kept = λ _. refl;
  grown = omega arith;
}

Walks-IsCapped : {s t : Pass} {ps : List PendingReq} → Walks s ps t → IsCapped s t
unfolding admit
Walks-IsCapped Walks.done = IsCapped-refl _
Walks-IsCapped (Walks.takes {s} {t} {p} {ps} a r h w) =
    IsCapped-trans h.same_cap h.same_pool (admit-IsCapped s p a r h.reserves) (Walks-IsCapped w)
Walks-IsCapped (Walks.stops e) = IsCapped-refl _
Walks-IsCapped (Walks.skips e w) = Walks-IsCapped w

pub record WithinLimits (l : Limits) (inflight running : ℕ) (b : Batch) (h : Heap) : Type 0 where
  pub token_log : b.log_new_tokens ≡ extended h b.reqs
  pub token_budget : extended h b.reqs ≤ l.prefill_budget
  pub running_cap :
      0 < length b.prompt_admissions → running + length b.prompt_admissions ≤ l.max_running_req

-- What `finish` makes of a pass: a batch of its requests, over its heap.
pub finish-batch :
    (pending : List PendingReq) (s : Pass) {b : Batch} {h : Heap} {q : List PendingReq}
    → finish pending s ≡ (some b, h, q)
    → (b ≡ batch_of s) × (h ≡ s.heap)
finish-batch pending s f = ground arith

walk-WithinLimits :
    (l : Limits) (inflight running : ℕ) (h : Heap) (ps : List PendingReq)
    → IsReady h ps
    → let s = walk (first_pass l inflight running h) ps in
      WithinLimits l inflight running (batch_of s) s.heap
walk-WithinLimits l inflight running h ps ready =
    let w = walk-Walks (first_pass l inflight running h) ps ready in
    let logs = Walks-IsLogged w (record { logged = refl; below = tt }) in
    let caps = Walks-IsCapped w in
    record {
      token_log = logs.logged;
      token_budget = omega (arith, logs.logged, Walks-charged w);
      running_cap = λ x. omega (arith, caps.counted, caps.capped x);
    }

-- Every prefill batch extends at most the step's token budget, over all its requests together, and
-- its log of new tokens is exactly what they extend; if it starts new prompts, they and the running
-- requests are at most `max_running_req`. (The queued prompts are at least as long as the part that
-- is done.)
pub schedule_next_batch-WithinLimits :
    (l : Limits) (inflight running : ℕ) (h : Heap) (pending : List PendingReq) {b : Batch}
    {h' : Heap} {q : List PendingReq}
    → IsReady h pending
    → schedule_next_batch l inflight running h pending ≡ (some b, h', q)
    → WithinLimits l inflight running b h'
unfolding schedule_next_batch
schedule_next_batch-WithinLimits l inflight running h [] ready e = absurd (ground arith)
schedule_next_batch-WithinLimits l inflight running h (p ∷ ps) ready e =
    let (eb, eh) = finish-batch (p ∷ ps) (walk (first_pass l inflight running h) (p ∷ ps)) e in
    rw (eb, eh) (walk-WithinLimits l inflight running h (p ∷ ps) ready)
