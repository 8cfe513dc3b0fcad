-- ===== src/Scheduler/Continue.antt =====
-- A chunked prompt at the front of the queue, over the steps of the engine's loop (engine.py).
use free_token_intel.Prelude.{
  ℕ, ◌+◌, ◌-◌, ◌≤◌, ◌<◌, ◌≡◌, refl, sym, ap, subst, ◌∙◌, inl, inr, true, false, Option, none, some,
  List, [], ◌∷◌, arith, ltb, ◌==◌, ==_iff, Bool-cases,
}
use free_token_intel.Scheduler.Req.{PendingReq, Heap, Batch, Phase, input_len}
use free_token_intel.Scheduler.Core.{Scheduler, schedule, release_all, complete}
use free_token_intel.Scheduler.Forward.{take_token, take_token_keeps, write, after_forward, step}
use free_token_intel.Scheduler.Continued.{Heads, Continued, continued}

-- Sampling leaves a chunk alone.
after_forward_chunk :
    (phase : Phase) (eos : ℕ) (h : Heap) (bs toks : List ℕ) (x : ℕ)
    → (h.cell x).chunked ≡ true
    → (after_forward phase eos h bs toks).cell x ≡ h.cell x
unfolding after_forward write
after_forward_chunk phase eos h [] toks x chunk = refl
after_forward_chunk phase eos h (b ∷ bs) [] x chunk = refl
after_forward_chunk phase eos h (b ∷ bs) (tok ∷ toks) x chunk =
    let k = write h b (take_token phase eos tok (h.cell b)) in
    let same : k.cell x ≡ h.cell x = elim (Bool-cases (x == b)) [
      | inl here ↦
          let e : x ≡ b = (==_iff x b).0 here in
          let chunk_b : (h.cell b).chunked ≡ true = ap (λ i. (h.cell i).chunked) (sym e) ∙ chunk in
          rw here ((take_token_keeps phase eos tok (h.cell b)).2 chunk_b ∙ ap h.cell (sym e))
      | inr other ↦ rw other refl
    ] in
    after_forward_chunk phase eos k bs toks x (ap (λ r. r.chunked) same ∙ chunk) ∙ same

release_all_keeps :
    (s : Scheduler) (rows : List ℕ)
    → ((release_all s rows).heap ≡ s.heap)
      × ((release_all s rows).pending ≡ s.pending)
      × ((release_all s rows).config ≡ s.config)
release_all_keeps s [] = (refl, refl, refl)
release_all_keeps s (x ∷ xs) = (refl, refl, refl)

-- Of some steps, each with its sampled tokens, and one batch more: one of the batches begins with a
-- request of the uid that is no chunk and extends to the end of a prompt of this length.
pub data Finishes (eos uid len : ℕ) : Scheduler → List (List ℕ) → Type 0 where
  now :
      (s t : Scheduler) (toks : List (List ℕ)) (b : Batch) (ref : ℕ) (others : List ℕ)
      → schedule s ≡ (some b, t)
      → b.reqs ≡ ref ∷ others
      → (t.heap.cell ref).uid ≡ uid
      → (t.heap.cell ref).device_len ≡ len
      → (t.heap.cell ref).chunked ≡ false
      → Finishes eos uid len s toks
  later :
      (s u : Scheduler) (sampled : List ℕ) (toks : List (List ℕ))
      → step s eos sampled ≡ some u
      → Finishes eos uid len u toks
      → Finishes eos uid len s (sampled ∷ toks)

-- The token budgets of the steps and of the batch behind them.
abbrev pub budgets : ℕ → List (List ℕ) → ℕ
budgets budget [] = budget
budgets budget (sampled ∷ toks) = budget + budgets budget toks

module _ (eos : ℕ) (s : Scheduler) (p : PendingReq) (ref : ℕ) (k : Continued s p ref)
    (chunk : (k.after.heap.cell k.made).chunked ≡ true) where
  abbrev sampled_on : List ℕ → Scheduler
  sampled_on toks = record k.after {
    heap = after_forward k.batch.phase eos k.after.heap k.batch.reqs toks;
  }

  abbrev stepped : List ℕ → Scheduler
  stepped toks = complete (sampled_on toks) k.batch

  step_continued : (toks : List ℕ) → step s eos toks ≡ some (stepped toks)
  unfolding step
  step_continued toks =
      ap
        (λ (r : Option Batch × Scheduler). elim r.0 as (λ _. Option Scheduler) [
          | none ↦ none
          | some b ↦
              some
                (complete (record r.1 { heap = after_forward b.phase eos r.1.heap b.reqs toks }) b)
        ])
        k.runs

  stepped_keeps :
      (toks : List ℕ)
      → ((stepped toks).heap ≡ (sampled_on toks).heap)
        × ((stepped toks).pending ≡ k.after.pending)
        × ((stepped toks).config ≡ k.after.config)
  unfolding complete
  stepped_keeps toks = release_all_keeps _ _

  same_chunk : (toks : List ℕ) → (stepped toks).heap.cell k.made ≡ k.after.heap.cell k.made
  same_chunk toks =
      ap (λ h. h.cell k.made) (stepped_keeps toks).0
      ∙ after_forward_chunk k.batch.phase eos k.after.heap k.batch.reqs toks k.made chunk

  short : (k.after.heap.cell k.made).device_len < input_len p
  short = ground (arith, k.part.partial, chunk)

  stepped-Heads :
      (toks : List ℕ) → Heads (stepped toks) (record p { chunked_req = some k.made }) k.rest k.made
  stepped-Heads toks = record {
    queue = (stepped_keeps toks).1 ∙ k.again chunk;
    chunk = refl;
    part = record {
      within = subst (λ r. r.device_len ≤ input_len p) (sym (same_chunk toks)) k.part.within;
      partial =
          subst (λ r. r.chunked ≡ ltb r.device_len (input_len p)) (sym (same_chunk toks))
            k.part.partial;
    };
    left = subst (λ r. r.device_len < input_len p) (sym (same_chunk toks)) short;
  }

finished_now :
    (eos : ℕ) (s : Scheduler) (toks : List (List ℕ)) (p : PendingReq) (ref : ℕ)
    (k : Continued s p ref)
    → (k.after.heap.cell k.made).chunked ≡ false
    → Finishes eos p.uid (input_len p) s toks
finished_now eos s toks p ref k whole =
    Finishes.now s k.after toks k.batch k.made k.others k.runs k.first k.same_uid
      (ground (arith, k.part.partial, k.part.within, whole)) whole

-- A prompt in chunks at the front of the queue is finished: if every step may extend at least one token,
-- and the token budgets of some successive steps and of the batch behind them cover together what is
-- left of it, then one of these batches begins with a request of its uid that is no chunk and extends to
-- the prompt's end, whatever tokens are sampled and whatever else is queued or runs.
pub step-Finishes :
    (eos : ℕ) (s : Scheduler) (toks : List (List ℕ)) (p : PendingReq) (rest : List PendingReq)
    (ref : ℕ)
    → Heads s p rest ref
    → 0 < s.config.max_extend_tokens
    → input_len p - (s.heap.cell ref).device_len ≤ budgets s.config.max_extend_tokens toks
    → Finishes eos p.uid (input_len p) s toks
step-Finishes eos s [] p rest ref h some_budget fits =
    let k = continued s p rest ref h some_budget in
    elim (Bool-cases (k.after.heap.cell k.made).chunked) [
      | inr whole ↦ finished_now eos s [] p ref k whole
      | inl chunk ↦ absurd (omega (arith, short eos s p ref k chunk, k.gained, fits))
    ]
step-Finishes eos s (toks ∷ more) p rest ref h some_budget fits =
    let k = continued s p rest ref h some_budget in
    elim (Bool-cases (k.after.heap.cell k.made).chunked) [
      | inr whole ↦ finished_now eos s (toks ∷ more) p ref k whole
      | inl chunk ↦
          let u = stepped eos s p ref k chunk toks in
          let same : u.config.max_extend_tokens ≡ s.config.max_extend_tokens =
            ap (λ c. c.max_extend_tokens)
              ((stepped_keeps eos s p ref k chunk toks).2 ∙ k.same_config) in
          let at : (u.heap.cell k.made).device_len ≡ (k.after.heap.cell k.made).device_len =
            ap (λ r. r.device_len) (same_chunk eos s p ref k chunk toks) in
          let budget = ap (λ n. budgets n more) same in
          Finishes.later s u toks more (step_continued eos s p ref k chunk toks) (
            step-Finishes eos u more (record p { chunked_req = some k.made }) k.rest k.made
              (stepped-Heads eos s p ref k chunk toks) (omega (arith, same, some_budget))
              (omega (arith, short eos s p ref k chunk, k.gained, fits, at, budget)))
    ]
