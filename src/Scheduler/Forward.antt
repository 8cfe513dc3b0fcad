-- ===== src/Scheduler/Forward.antt =====
-- The part of `Engine.step` in python/freetoken/engine/engine.py that changes the requests of a batch
-- between `Scheduler.schedule` and `Scheduler.complete`. The sampled tokens come from the model and
-- the sampler. The caches, the history of tokens that is kept for them, the restoring of a linear state
-- before the forward pass (`mamba_restore_src`) and the tool-call anchor are not part of it.
use free_token_intel.Prelude.{
  ℕ, ◌+◌, ◌-◌, ◌<◌, ◌≡◌, refl, ap, ◌∙◌, ◌⊎◌, inl, inr, Bool, true, false, not, ◌&&◌, ◌||◌, Option,
  none, some, List, [], ◌∷◌, ◌++◌, arith, ltb, leb, ◌==◌, if◌then◌else◌, Bool-cases, ==_iff, length,
  count, IsDistinct,
}
use free_token_intel.Scheduler.Req.{Req, Heap, Batch, Phase, can_decode}
use free_token_intel.Scheduler.Core.{Scheduler, schedule, complete}

abbrev pub is_decode : Phase → Bool
is_decode Phase.prefill = false
is_decode Phase.decode = true

abbrev with_token : Phase → Req → ℕ → List ℕ
with_token phase r tok = if is_decode phase then tok ∷ [] else r.input_ids ++ tok ∷ []

-- The final chunk of a chunked prompt has its cached prefix set to the prompt's end.
abbrev snapped : Phase → Req → ℕ → ℕ
snapped phase r tok =
    if not (is_decode phase) && ltb 0 r.cached_len
    then length (with_token phase r tok) - 1
    else r.cached_len

-- Whether the request is aborted once it has its token.
abbrev pub is_stopped : ℕ → ℕ → Req → Bool
is_stopped eos tok r =
    r.aborted
    || (not r.sampling_params.ignore_eos && tok == eos)
    || leb r.max_device_len (r.device_len + 1)

-- One request of the batch and its sampled token. A `ChunkedReq` is skipped.
unfoldable pub take_token : Phase → ℕ → ℕ → Req → Req
take_token phase eos tok r = if r.chunked then r else record r {
  input_ids = with_token phase r tok;
  cached_len = snapped phase r tok;
  device_len = r.device_len + 1;
  aborted = is_stopped eos tok r;
}

unfoldable pub write : Heap → ℕ → Req → Heap
write h ref r = record h { cell = λ x. if x == ref then r else h.cell x }

-- The loop over the batch, one token for each request.
unfoldable pub after_forward : Phase → ℕ → Heap → List ℕ → List ℕ → Heap
after_forward phase eos h [] toks = h
after_forward phase eos h (r ∷ rs) [] = h
after_forward phase eos h (r ∷ rs) (tok ∷ toks) =
    after_forward phase eos (write h r (take_token phase eos tok (h.cell r))) rs toks

-- The sampled batch is handed back to the scheduler.
abbrev pub finish_batch : ℕ → List ℕ → Batch → Scheduler → Scheduler
finish_batch eos toks b t =
    complete (record t { heap = after_forward b.phase eos t.heap b.reqs toks }) b

-- One step of the engine's loop: `none` if there was nothing to run.
unfoldable pub step : Scheduler → ℕ → List ℕ → Option Scheduler
step s eos toks =
    let (batch, t) = schedule s in
    elim batch [ none ↦ none | some b ↦ some (finish_batch eos toks b t) ]

-- What the loop does to the objects: none is created, moved to another row or turned into another
-- class, chunks are left alone, and a finished prompt of the batch either decodes on or is aborted.
pub record Ran (bs : List ℕ) (h k : Heap) : Type 0 where
  pub refs_kept : k.next_ref ≡ h.next_ref
  pub rows_kept : (x : ℕ) → (k.cell x).table_idx ≡ (h.cell x).table_idx
  pub kinds_kept : (x : ℕ) → (k.cell x).chunked ≡ (h.cell x).chunked
  pub chunks_kept : (x : ℕ) → (h.cell x).chunked ≡ true → k.cell x ≡ h.cell x
  pub settled :
      (x : ℕ)
      → 0 < count x bs
      → (h.cell x).chunked ≡ false
      → can_decode (k.cell x) ≡ not (k.cell x).aborted

pub take_token_keeps :
    (phase : Phase) (eos tok : ℕ) (r : Req)
    → ((take_token phase eos tok r).table_idx ≡ r.table_idx)
      × ((take_token phase eos tok r).chunked ≡ r.chunked)
      × (r.chunked ≡ true → take_token phase eos tok r ≡ r)
unfolding take_token
take_token_keeps phase eos tok r = elim (Bool-cases r.chunked) [
  | inl e ↦ ground arith
  | inr e ↦ ground arith
]

-- After its token a plain request is aborted or has room for another one.
take_token_settled :
    (phase : Phase) (eos tok : ℕ) (r : Req)
    → r.chunked ≡ false
    → can_decode (take_token phase eos tok r) ≡ not (take_token phase eos tok r).aborted
unfolding take_token can_decode
take_token_settled phase eos tok r e = ground arith

write_cell :
    (h : Heap) (ref x : ℕ) (r : Req) → (write h ref r).cell x ≡ (if x == ref then r else h.cell x)
unfolding write
write_cell h ref x r = refl

module _ (phase : Phase) (eos : ℕ) where
  -- A request outside the batch is left alone.
  after_forward_other :
      (h : Heap) (bs toks : List ℕ) (x : ℕ)
      → count x bs ≡ 0
      → (after_forward phase eos h bs toks).cell x ≡ h.cell x
  unfolding after_forward count
  after_forward_other h [] toks x absent = refl
  after_forward_other h (b ∷ bs) [] x absent = refl
  after_forward_other h (b ∷ bs) (tok ∷ toks) x absent =
      let r = take_token phase eos tok (h.cell b) in
      ground (arith, after_forward_other (write h b r) bs toks x, write_cell h b x r)

  -- A request of the batch takes exactly one token.
  after_forward_token :
      (h : Heap) (bs toks : List ℕ) (x : ℕ)
      → IsDistinct bs
      → length bs ≡ length toks
      → 0 < count x bs
      → (tok : ℕ) × ((after_forward phase eos h bs toks).cell x
          ≡ take_token phase eos tok (h.cell x))
  unfolding after_forward count
  after_forward_token h [] toks x d e present = absurd (omega arith)
  after_forward_token h (b ∷ bs) [] x d e present = absurd (omega arith)
  after_forward_token h (b ∷ bs) (tok ∷ toks) x d e present =
      let r = take_token phase eos tok (h.cell b) in
      elim (Bool-cases (b == x)) [
        | inl hit ↦
            let same : b ≡ x = (==_iff b x).0 hit in
            (
              tok,
              ground (
                arith,
                same,
                d x,
                after_forward_other (write h b r) bs toks x,
                write_cell h b x r,
              ),
            )
        | inr miss ↦
            let (tok', found) =
              after_forward_token (write h b r) bs toks x (λ a. omega (arith, d a)) (omega arith)
                (ground arith) in
            (tok', ground (arith, found, write_cell h b x r))
      ]

after_forward_refs :
    (phase : Phase) (eos : ℕ) (h : Heap) (bs toks : List ℕ)
    → (after_forward phase eos h bs toks).next_ref ≡ h.next_ref
unfolding after_forward write
after_forward_refs phase eos h [] toks = refl
after_forward_refs phase eos h (b ∷ bs) [] = refl
after_forward_refs phase eos h (b ∷ bs) (tok ∷ toks) =
    after_forward_refs phase eos (write h b (take_token phase eos tok (h.cell b))) bs toks

-- Every object is as before, or took one token.
after_forward_cases :
    (phase : Phase) (eos : ℕ) (h : Heap) (bs toks : List ℕ) (x : ℕ)
    → IsDistinct bs
    → length bs ≡ length toks
    → ((count x bs ≡ 0) × ((after_forward phase eos h bs toks).cell x ≡ h.cell x))
      ⊎ ((tok : ℕ) × ((after_forward phase eos h bs toks).cell x
            ≡ take_token phase eos tok (h.cell x)))
after_forward_cases phase eos h bs toks x d e = elim (Bool-cases (ltb 0 (count x bs))) [
  | inl present ↦ inr (after_forward_token phase eos h bs toks x d e (ground arith))
  | inr absent ↦
      let none_there : count x bs ≡ 0 = ground arith in
      inl (none_there, after_forward_other phase eos h bs toks x none_there)
]

-- A step of the engine over a batch of distinct requests, with one token for each, creates no
-- request, moves none to another row and turns none into another class; it leaves every `ChunkedReq`
-- alone, and every finished prompt of the batch either is aborted or can decode on.
pub after_forward-Ran :
    (phase : Phase) (eos : ℕ) (h : Heap) (bs toks : List ℕ)
    → IsDistinct bs
    → length bs ≡ length toks
    → Ran bs h (after_forward phase eos h bs toks)
after_forward-Ran phase eos h bs toks d e = record {
  refs_kept = after_forward_refs phase eos h bs toks;
  rows_kept = λ x. elim (after_forward_cases phase eos h bs toks x d e) [
    | inl (_, same) ↦ ap (λ r. r.table_idx) same
    | inr (tok, took) ↦ ap (λ r. r.table_idx) took ∙ (take_token_keeps phase eos tok (h.cell x)).0
  ];
  kinds_kept = λ x. elim (after_forward_cases phase eos h bs toks x d e) [
    | inl (_, same) ↦ ap (λ r. r.chunked) same
    | inr (tok, took) ↦ ap (λ r. r.chunked) took ∙ (take_token_keeps phase eos tok (h.cell x)).1
  ];
  chunks_kept = λ x chunk. elim (after_forward_cases phase eos h bs toks x d e) [
    | inl (_, same) ↦ same
    | inr (tok, took) ↦ took ∙ (take_token_keeps phase eos tok (h.cell x)).2 chunk
  ];
  settled = λ x present plain. elim (after_forward_cases phase eos h bs toks x d e) [
    | inl (absent, _) ↦ absurd (omega arith)
    | inr (tok, took) ↦ rw took (take_token_settled phase eos tok (h.cell x) plain)
  ];
}
