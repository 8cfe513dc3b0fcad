-- ===== src/Scheduler/Refs.antt =====
-- The heap of requests: allocation leaves the objects that are there as they were.
use free_token_intel.Prelude.{ℕ, ◌≤◌, ◌<◌, ◌≡◌, refl, ◌∙◌, List, [], ◌∷◌, ◌++◌, arith}
use free_token_intel.Scheduler.Req.{Req, Heap, alloc, rows}

pub alloc-cell : (h : Heap) (r : Req) (x : ℕ) → x < h.next_ref → (alloc h r).cell x ≡ h.cell x
unfolding alloc
alloc-cell h r x below = ground arith

pub alloc-cell_new : (h : Heap) (r : Req) → (alloc h r).cell h.next_ref ≡ r
unfolding alloc
alloc-cell_new h r = ground arith

-- References to objects that exist.
abbrev pub Below : Heap → List ℕ → Type 0
Below h [] = Unit
Below h (r ∷ rs) = (r < h.next_ref) × Below h rs

pub Below-alloc :
    (h : Heap) (r : Req) (rs : List ℕ) → Below h rs → Below (alloc h r) (rs ++ h.next_ref ∷ [])
unfolding alloc
Below-alloc h r [] b = (omega arith, tt)
Below-alloc h r (x ∷ xs) b = (omega arith, Below-alloc h r xs b.1)

-- The second heap holds the objects of the first, unchanged, and perhaps more.
pub record Grows (h k : Heap) : Type 0 where
  pub more : h.next_ref ≤ k.next_ref
  pub same : (x : ℕ) → x < h.next_ref → k.cell x ≡ h.cell x

pub Grows-refl : (h : Heap) → Grows h h
Grows-refl h = record { more = omega arith; same = λ x b. refl }

pub Grows-alloc : (h : Heap) (r : Req) {k : Heap} → Grows (alloc h r) k → Grows h k
unfolding alloc
Grows-alloc h r {k} g = record {
  more = omega (arith, g.more);
  same = λ x b. g.same x (omega arith) ∙ alloc-cell h r x b;
}

pub Below-Grows : {h k : Heap} (rs : List ℕ) → Grows h k → Below h rs → Below k rs
Below-Grows [] g b = tt
Below-Grows (r ∷ rs) g b = (omega (arith, g.more), Below-Grows rs g b.1)

pub rows-Grows : {h k : Heap} (rs : List ℕ) → Grows h k → Below h rs → rows k rs ≡ rows h rs
rows-Grows [] g b = refl
rows-Grows (r ∷ rs) g b = rw (g.same r b.0, rows-Grows rs g b.1)
