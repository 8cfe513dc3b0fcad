-- ===== src/StatePool/Slots.antt =====
-- `LinearStatePool`: what `alloc` hands out, and what `copy_from` and `clear_slots` write.
use free_token_intel.Prelude.{
  ℕ, zero, suc, ◌+◌, ◌≤◌, ◌<◌, ◌≡◌, refl, ◌∙◌, ◌≢◌, ◌↔◌, inl, inr, List, [], ◌∷◌, arith, ◌==◌,
  Bool-cases, ==_iff, runtime_error, ok, raise, length, count,
}
use free_token_intel.StatePool.{
  StatePool, pop_back, pop_many, alloc, set_state, clear_states, clear_slots, copy_from,
}

count-pop_back :
    (a x : ℕ) (ys : List ℕ)
    → count a (pop_back x ys).0 + count a ((pop_back x ys).1 ∷ []) ≡ count a (x ∷ ys)
unfolding pop_back count
count-pop_back a x [] = omega arith
count-pop_back a x (y ∷ ys) = omega (arith, count-pop_back a y ys)

length-pop_back : (x : ℕ) (ys : List ℕ) → length (pop_back x ys).0 ≡ length ys
unfolding pop_back
length-pop_back x [] = refl
length-pop_back x (y ∷ ys) = omega (arith, length-pop_back y ys)

count-pop_many :
    (a n : ℕ) (xs : List ℕ) → count a (pop_many n xs).0 + count a (pop_many n xs).1 ≡ count a xs
unfolding pop_many count
count-pop_many a zero xs = omega arith
count-pop_many a (suc n) [] = omega arith
count-pop_many a (suc n) (x ∷ xs) =
    omega (arith, count-pop_back a x xs, count-pop_many a n (pop_back x xs).0)

length-pop_many : (n : ℕ) (xs : List ℕ) → n ≤ length xs → length (pop_many n xs).0 ≡ n
unfolding pop_many
length-pop_many zero xs h = refl
length-pop_many (suc n) [] h = absurd (omega arith)
length-pop_many (suc n) (x ∷ xs) h =
    omega (arith, length-pop_many n (pop_back x xs).0 (omega (arith, length-pop_back x xs)))

module _ {State : Type 0} where
  -- `alloc` raises exactly if fewer slots are free than wanted; else it hands out as many as wanted,
  -- which with the slots that stay free are those that were free, each as often, and leaves every
  -- state as it was.
  pub alloc_lem :
      (p : StatePool State) (n : ℕ)
      → ((alloc p n ≡ raise runtime_error) ↔ (length p.free_slots < n))
        × ((q : StatePool State) (slots : List ℕ)
            → alloc p n ≡ ok (q, slots)
            → (length slots ≡ n)
              × ((a : ℕ) → count a slots + count a q.free_slots ≡ count a p.free_slots)
              × (q.states ≡ p.states))
  unfolding alloc
  alloc_lem p n = (
    (λ e. ground arith, λ h. ground arith),
    λ q slots e.
        let enough : n ≤ length p.free_slots = ground arith in
        let eq : q ≡ record p { free_slots = (pop_many n p.free_slots).1 } = ground arith in
        let es : slots ≡ (pop_many n p.free_slots).0 = ground arith in
        rw (eq, es)
          (length-pop_many n p.free_slots enough, λ a. count-pop_many a n p.free_slots, refl),
  )

  clear_states_other :
      (zeros : State) (f : ℕ → State) (slots : List ℕ) (x : ℕ)
      → count x slots ≡ 0
      → clear_states zeros f slots x ≡ f x
  unfolding clear_states set_state count
  clear_states_other zeros f [] x h = refl
  clear_states_other zeros f (s ∷ slots) x h =
      clear_states_other zeros (set_state f s zeros) slots x (omega arith) ∙ ground arith

  clear_states_cleared :
      (zeros : State) (f : ℕ → State) (slots : List ℕ) (x : ℕ)
      → f x ≡ zeros
      → clear_states zeros f slots x ≡ zeros
  unfolding clear_states set_state
  clear_states_cleared zeros f [] x h = h
  clear_states_cleared zeros f (s ∷ slots) x h =
      clear_states_cleared zeros (set_state f s zeros) slots x (ground arith)

  clear_states_in :
      (zeros : State) (f : ℕ → State) (slots : List ℕ) (x : ℕ)
      → 0 < count x slots
      → clear_states zeros f slots x ≡ zeros
  unfolding clear_states set_state count
  clear_states_in zeros f [] x h = absurd (omega arith)
  clear_states_in zeros f (s ∷ slots) x h = elim (Bool-cases (s == x)) [
    | inl hit ↦
        let same : s ≡ x = (==_iff s x).0 hit in
        clear_states_cleared zeros (set_state f s zeros) slots x (ground (arith, same))
    | inr miss ↦ clear_states_in zeros (set_state f s zeros) slots x (ground arith)
  ]

  -- A snapshot survives its source: after a live slot is copied to a track slot and any slots but the
  -- track slot are cleared, the live one among them, the track slot holds the live state of before;
  -- the cleared slots hold zeros and every other slot what it held.
  pub copy_from-clear_slots :
      (zeros : State) (p : StatePool State) (src dst : ℕ) (slots : List ℕ)
      → count dst slots ≡ 0
      → ((clear_slots zeros (copy_from p src dst) slots).states dst ≡ p.states src)
        × ((x : ℕ)
            → 0 < count x slots
            → (clear_slots zeros (copy_from p src dst) slots).states x ≡ zeros)
        × ((x : ℕ)
            → count x slots ≡ 0
            → x ≢ dst
            → (clear_slots zeros (copy_from p src dst) slots).states x ≡ p.states x)
  unfolding clear_slots copy_from set_state
  copy_from-clear_slots zeros p src dst slots apart = (
    clear_states_other zeros (set_state p.states dst (p.states src)) slots dst apart ∙ ground arith,
    λ x h. clear_states_in zeros (set_state p.states dst (p.states src)) slots x h,
    λ x h far.
        clear_states_other zeros (set_state p.states dst (p.states src)) slots x h
        ∙ ground (arith, far),
  )
