-- ===== src/Scheduler/Completion.antt =====
-- The parts of `Scheduler.complete`: which requests run on, which stop, and whose rows are freed.
use free_token_intel.Prelude.{
  ℕ, ◌+◌, ◌≤◌, ◌<◌, min, ◌≡◌, refl, sym, ◌∙◌, inl, inr, true, false, not, List, [], ◌∷◌, ◌++◌,
  append_assoc, append-nil, arith, ltb, ◌==◌, if◌then◌else◌, Bool-cases, ==_iff, select, count,
  count-append,
}
use free_token_intel.Scheduler.Req.{Req, Heap, can_decode, rows}
use free_token_intel.Scheduler.Prefill.Split.{plain}
use free_token_intel.Scheduler.Decode.{mem, merge, live}
use free_token_intel.Scheduler.Core.{stopped, scan_aborted}

pub mem-count : (r : ℕ) (xs : List ℕ) → mem r xs ≡ ltb 0 (count r xs)
unfolding mem count
mem-count r [] = refl
mem-count r (x ∷ xs) = ground (arith, mem-count r xs)

new_head :
    (b : ℕ) (bs running : List ℕ) → count b running + count b (b ∷ bs) ≤ 1 → mem b running ≡ false
unfolding count
new_head b bs running h = ground (arith, mem-count b running)

moved :
    (x b : ℕ) (bs running : List ℕ)
    → count x running + count x (b ∷ bs) ≤ 1
    → count x (running ++ b ∷ []) + count x bs ≤ 1
unfolding count
moved x b bs running h = omega (arith, count-append x running (b ∷ []))

-- Requests that are not in the set are added behind it, in order.
pub merge-new :
    (bs running : List ℕ)
    → ((x : ℕ) → count x running + count x bs ≤ 1)
    → merge running bs ≡ running ++ bs
unfolding merge
merge-new [] running h = sym (append-nil running)
merge-new (b ∷ bs) running h =
    let absent : mem b running ≡ false = new_head b bs running (h b) in
    rw absent (
      merge-new bs (running ++ b ∷ []) (λ x. moved x b bs running (h x))
      ∙ append_assoc running (b ∷ []) bs)

old_head :
    (b : ℕ) (bs running : List ℕ)
    → (0 < count b (b ∷ bs) → 0 < count b running)
    → mem b running ≡ true
unfolding count
old_head b bs running h = ground (arith, mem-count b running)

tail_old :
    (x b : ℕ) (bs running : List ℕ)
    → (0 < count x (b ∷ bs) → 0 < count x running)
    → 0 < count x bs
    → 0 < count x running
unfolding count
tail_old x b bs running h k = h (omega arith)

-- Requests that are in the set already change nothing.
pub merge-old :
    (bs running : List ℕ)
    → ((x : ℕ) → 0 < count x bs → 0 < count x running)
    → merge running bs ≡ running
unfolding merge
merge-old [] running h = refl
merge-old (b ∷ bs) running h =
    let present : mem b running ≡ true = old_head b bs running (h b) in
    rw present (merge-old bs running (λ x. tail_old x b bs running (h x)))

abbrev pub dead : Heap → List ℕ → List ℕ
dead h = select (λ r. not (can_decode (h.cell r)))

abbrev pub aborted : Heap → List ℕ → List ℕ
aborted h = select (λ r. (h.cell r).aborted)

pub live-dead-rows :
    (h : Heap) (x : ℕ) (rs : List ℕ)
    → count x (rows h (live h rs)) + count x (rows h (dead h rs)) ≡ count x (rows h rs)
unfolding count
live-dead-rows h x [] = refl
live-dead-rows h x (r ∷ rs) = ground (arith, live-dead-rows h x rs)

pub count-live :
    (h : Heap) (r : ℕ) (rs : List ℕ)
    → count r (live h rs) ≡ (if can_decode (h.cell r) then count r rs else 0)
unfolding count
count-live h r [] = ground arith
count-live h r (x ∷ rs) = elim (Bool-cases (x == r)) [
  | inl e ↦ let same : x ≡ r = (==_iff x r).0 e in rw same (ground (arith, count-live h r rs))
  | inr e ↦ ground (arith, count-live h r rs)
]

tail_sub :
    (x r : ℕ) (rs merged : List ℕ) → count x (r ∷ rs) ≤ count x merged → count x rs ≤ count x merged
unfolding count
tail_sub x r rs merged h = omega arith

decided :
    (r : ℕ) (rs merged : List ℕ) (h : Heap)
    → count r (r ∷ rs) ≤ count r merged
    → mem r (live h merged) ≡ can_decode (h.cell r)
unfolding count
decided r rs merged h sub = ground (arith, mem-count r (live h merged), count-live h r merged)

-- What `running_before - running_after` holds.
pub stopped-dead :
    (h : Heap) (rs merged : List ℕ)
    → ((x : ℕ) → count x rs ≤ count x merged)
    → stopped rs (live h merged) ≡ dead h rs
stopped-dead h [] merged sub = refl
stopped-dead h (r ∷ rs) merged sub =
    let rest = stopped-dead h rs merged (λ x. tail_sub x r rs merged (sub x)) in
    let test : mem r (live h merged) ≡ can_decode (h.cell r) = decided r rs merged h (sub r) in
    ground (arith, rest, test)

pub scan_aborted-count :
    (h : Heap) (x : ℕ) (freed bs : List ℕ)
    → count x (scan_aborted h freed bs)
      ≡ (if ltb 0 (count x freed) then count x freed else min 1 (count x (rows h (aborted h bs))))
unfolding scan_aborted count
scan_aborted-count h x freed [] = ground arith
scan_aborted-count h x freed (b ∷ bs) =
    let row = (h.cell b).table_idx in
    elim (Bool-cases (row == x)) [
      | inl e ↦
          let same : row ≡ x = (==_iff row x).0 e in
          ground (
            arith,
            same,
            mem-count row freed,
            count-append x freed (row ∷ []),
            scan_aborted-count h x freed bs,
            scan_aborted-count h x (freed ++ row ∷ []) bs,
          )
      | inr e ↦ ground (
        arith,
        count-append x freed (row ∷ []),
        scan_aborted-count h x freed bs,
        scan_aborted-count h x (freed ++ row ∷ []) bs,
      )
    ]

-- A batch whose chunks are live, and whose other requests decode on or are aborted.
pub record IsSettled (h : Heap) (bs : List ℕ) : Type 0 where
  pub chunks : (x : ℕ) → 0 < count x bs → (h.cell x).chunked ≡ true → (h.cell x).aborted ≡ false
  pub others :
      (x : ℕ)
      → 0 < count x bs
      → (h.cell x).chunked ≡ false
      → can_decode (h.cell x) ≡ not (h.cell x).aborted

IsSettled-tail : (h : Heap) (b : ℕ) (bs : List ℕ) → IsSettled h (b ∷ bs) → IsSettled h bs
unfolding count
IsSettled-tail h b bs v = record {
  chunks = λ x k. v.chunks x (omega arith);
  others = λ x k. v.others x (omega arith);
}

can_decode_chunk : (r : Req) → r.chunked ≡ true → can_decode r ≡ false
unfolding can_decode
can_decode_chunk r e = ground arith

count_self : (b : ℕ) (bs : List ℕ) → 0 < count b (b ∷ bs)
unfolding count
count_self b bs = ground arith

-- The finished prompts of a batch are those that decode on and those that are aborted.
pub live-aborted-rows :
    (h : Heap) (x : ℕ) (bs : List ℕ)
    → IsSettled h bs
    → count x (rows h (live h bs)) + count x (rows h (aborted h bs)) ≡ count x (rows h (plain h bs))
unfolding count
live-aborted-rows h x [] v = refl
live-aborted-rows h x (b ∷ bs) v =
    let rest = live-aborted-rows h x bs (IsSettled-tail h b bs v) in
    let here : 0 < count b (b ∷ bs) = count_self b bs in
    elim (Bool-cases (h.cell b).chunked) [
      | inl e ↦ ground (arith, rest, can_decode_chunk (h.cell b) e, v.chunks b here e)
      | inr e ↦ ground (arith, rest, v.others b here e)
    ]

can_decode_aborted : (r : Req) → r.aborted ≡ true → can_decode r ≡ false
unfolding can_decode
can_decode_aborted r e = ground arith

dead-row :
    (h : Heap) (b : ℕ) (rs : List ℕ)
    → 0 < count b rs
    → can_decode (h.cell b) ≡ false
    → 0 < count (h.cell b).table_idx (rows h (dead h rs))
unfolding count
dead-row h b [] k e = absurd (omega arith)
dead-row h b (r ∷ rs) k e = elim (Bool-cases (r == b)) [
  | inl hit ↦ let same : r ≡ b = (==_iff r b).0 hit in rw same (ground (arith, e))
  | inr miss ↦ ground (arith, dead-row h b rs (ground arith) e)
]

-- An aborted request of a decode batch is among those that stop.
pub aborted-dead-rows :
    (h : Heap) (x : ℕ) (running bs : List ℕ)
    → ((y : ℕ) → 0 < count y bs → 0 < count y running)
    → 0 < count x (rows h (aborted h bs))
    → 0 < count x (rows h (dead h running))
unfolding count
aborted-dead-rows h x running [] sub k = absurd (omega arith)
aborted-dead-rows h x running (b ∷ bs) sub k =
    let rest = aborted-dead-rows h x running bs (λ y m. sub y (omega arith)) in
    elim (Bool-cases (h.cell b).aborted) [
      | inl e ↦ elim (Bool-cases ((h.cell b).table_idx == x)) [
        | inl hit ↦
            let same : (h.cell b).table_idx ≡ x = (==_iff (h.cell b).table_idx x).0 hit in
            let there =
              dead-row h b running (sub b (ground arith)) (can_decode_aborted (h.cell b) e) in
            ground (arith, same, there)
        | inr miss ↦ rest (ground arith)
      ]
      | inr e ↦ rest (ground arith)
    ]
