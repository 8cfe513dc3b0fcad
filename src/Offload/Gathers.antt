-- ===== src/Offload/Gathers.antt =====
-- The gathers of `_forward_offload`: how often a row and a column are in them.
use free_token_intel.Prelude.{
  ℕ, zero, suc, ◌+◌, ◌≤◌, ◌<◌, ◌≡◌, ◌≢◌, refl, sym, ap, ◌∙◌, inl, inr, Bool, true, false, ◌&&◌,
  Option, none, some, List, [], ◌∷◌, ◌++◌, map, ◌==◌, ==_iff, if◌then◌else◌, Bool-cases, select,
  arith,
}
use free_token_intel.Offload.{OffloadMoeCache, listed}
use free_token_intel.Offload.Forward.{routed_slot}
use free_token_intel.Offload.Hybrid.{
  over, Group, pairs, is_some, group_all, expert_to_col, groups_of, groups,
}

-- How many items pass a test.
abbrev pub tally {ℓ} : {A : Type ℓ} → (A → Bool) → List A → ℕ
tally t [] = 0
tally t (x ∷ xs) = (if t x then 1 else 0) + tally t xs

module _ {A : Type 0} (t : A → Bool) where
  tally-append : (xs ys : List A) → tally t (xs ++ ys) ≡ tally t xs + tally t ys
  tally-append [] ys = omega arith
  tally-append (x ∷ xs) ys = omega (arith, tally-append xs ys)

  tally_none : (xs : List A) → ((x : A) → t x ≡ false) → tally t xs ≡ 0
  tally_none [] h = refl
  tally_none (x ∷ xs) h = rw (h x) (omega (arith, tally_none xs h))

  pub tally-over_none :
      (f : ℕ → List A) (lo n : ℕ)
      → ((x : ℕ) → lo ≤ x → tally t (f x) ≡ 0)
      → tally t (over f lo n) ≡ 0
  tally-over_none f lo zero h = refl
  tally-over_none f lo (suc n) h = omega (
    arith,
    tally-append (f lo) (over f (suc lo) n),
    h lo (omega arith),
    tally-over_none f (suc lo) n (λ x le. h x (omega (arith, le))),
  )

  -- Only one turn of a loop adds items that pass.
  pub tally-over_one :
      (f : ℕ → List A) (lo n a : ℕ)
      → lo ≤ a
      → a < lo + n
      → ((x : ℕ) → x ≢ a → tally t (f x) ≡ 0)
      → tally t (over f lo n) ≡ tally t (f a)
  tally-over_one f lo zero a le lt h = absurd (omega (arith, le, lt))
  tally-over_one f lo (suc n) a le lt h = elim (Bool-cases (lo == a)) [
    | inl same ↦
        let e : lo ≡ a = (==_iff lo a).0 same in
        omega (
          arith,
          tally-append (f lo) (over f (suc lo) n),
          ap (λ x. tally t (f x)) e,
          tally-over_none f (suc lo) n (λ x above. h x (λ k. omega (arith, e, k, above))),
        )
    | inr other ↦
        let apart : lo ≢ a = λ e. ground (arith, other, e) in
        omega (
          arith,
          tally-append (f lo) (over f (suc lo) n),
          h lo apart,
          tally-over_one f (suc lo) n a (ground (arith, le, other)) (omega (arith, lt)) h,
        )
  ]

  tally-select_all :
      (keep : A → Bool) (xs : List A)
      → ((x : A) → t x ≡ true → keep x ≡ true)
      → tally t (select keep xs) ≡ tally t xs
  tally-select_all keep [] h = refl
  tally-select_all keep (x ∷ xs) h = elim (Bool-cases (t x)) [
    | inl passes ↦ rw (h x passes) (omega (arith, tally-select_all keep xs h))
    | inr fails ↦ elim (Bool-cases (keep x)) [
      | inl kept ↦ rw kept (omega (arith, tally-select_all keep xs h))
      | inr out ↦ rw (out, fails) (omega (arith, tally-select_all keep xs h))
    ]
  ]

  tally-select_none :
      (keep : A → Bool) (xs : List A)
      → ((x : A) → t x ≡ true → keep x ≡ false)
      → tally t (select keep xs) ≡ 0
  tally-select_none keep [] h = refl
  tally-select_none keep (x ∷ xs) h = elim (Bool-cases (keep x)) [
    | inr out ↦ rw out (tally-select_none keep xs h)
    | inl kept ↦ elim (Bool-cases (t x)) [
      | inl passes ↦ absurd (ground (arith, h x passes, kept))
      | inr fails ↦ rw (kept, fails) (omega (arith, tally-select_none keep xs h))
    ]
  ]

tally-map :
    {A B : Type 0} (t : B → Bool) (f : A → B) (xs : List A)
    → tally t (map f xs) ≡ tally (λ x. t (f x)) xs
tally-map t f [] = refl
tally-map t f (x ∷ xs) = ap (λ n. (if t (f x) then 1 else 0) + n) (tally-map t f xs)

abbrev pair_at : ℕ → ℕ → ℕ × ℕ → Bool
pair_at j i p = (p.0 == j) && (p.1 == i)

-- A gather of one column, slot and row.
abbrev pub group_at : ℕ → ℕ → ℕ → Group → Bool
group_at j s i g = (g.0 == j) && (g.1 == s) && (g.2 == i)

pair_at-is : (j i : ℕ) (p : ℕ × ℕ) → pair_at j i p ≡ true → (p.0 ≡ j) × (p.1 ≡ i)
pair_at-is j i p h = (ground (arith, h), ground (arith, h))

group_at-is :
    (j x i s : ℕ) (p : ℕ × ℕ) → group_at j x i (p.0, s, p.1) ≡ true → (p.0 ≡ j) × (p.1 ≡ i)
group_at-is j x i s p h = (ground (arith, h), ground (arith, h))

tally_same :
    {A : Type 0} (t u : A → Bool) (xs : List A) → ((x : A) → t x ≡ u x) → tally t xs ≡ tally u xs
tally_same t u [] h = refl
tally_same t u (x ∷ xs) h = rw (h x) (omega (arith, tally_same t u xs h))

pairs-once : (j i k B : ℕ) → j < k → i < B → tally (pair_at j i) (pairs k B) ≡ 1
pairs-once j i k B in_k in_B =
    tally-over_one (pair_at j i) (λ a. over (λ b. (a, b) ∷ []) 0 B) 0 k j (omega arith)
      (omega (arith, in_k))
      (λ a other.
        tally-over_none (pair_at j i) (λ b. (a, b) ∷ []) 0 B (λ b le. ground (arith, other)))
    ∙ tally-over_one (pair_at j i) (λ b. (j, b) ∷ []) 0 B i (omega arith) (omega (arith, in_B))
        (λ b other. ground (arith, other))
    ∙ ground arith

module _ {Row : Type 0} (c : OffloadMoeCache Row) (layer : ℕ) (ids : ℕ → ℕ → ℕ) (B k : ℕ)
    (exclude : List ℕ) where
  -- The gathers of one expert.
  all_none :
      (j x i s : ℕ) (ps : List (ℕ × ℕ))
      → ((p : ℕ × ℕ) → group_at j x i (p.0, s, p.1) ≡ false)
      → tally (group_at j x i) (group_all (some s) ps) ≡ 0
  all_none j x i s ps h =
      tally-map (group_at j x i) (λ p. (p.0, s, p.1)) ps
      ∙ tally_none (λ p. group_at j x i (p.0, s, p.1)) ps h

  excluded :
      (j x i e : ℕ)
      → listed e exclude ≡ true
      → tally (group_at j x i) (groups_of c layer ids B k exclude e) ≡ 0
  excluded j x i e h = rw h refl

  of_slot :
      (j x i e : ℕ) (o : Option ℕ)
      → ids i j ≢ e
      → tally (group_at j x i) (group_all o (expert_to_col c layer ids B k e)) ≡ 0
  unfolding expert_to_col
  of_slot j x i e none other = refl
  of_slot j x i e (some s) other =
      tally-map (group_at j x i) (λ p. (p.0, s, p.1)) (expert_to_col c layer ids B k e)
      ∙ tally-select_none (λ p. group_at j x i (p.0, s, p.1)) _ (pairs k B)
          (λ p h.
            let (at_j, at_i) = group_at-is j x i s p h in
            let same : ids p.1 p.0 ≡ ids i j = (λ d. ids (at_i d) (at_j d)) in
            ground (arith, same, other))

  of_other :
      (j x i e : ℕ) → ids i j ≢ e → tally (group_at j x i) (groups_of c layer ids B k exclude e) ≡ 0
  of_other j x i e other = elim (Bool-cases (listed e exclude)) [
    | inl out ↦ excluded j x i e out
    | inr in_pool ↦ rw in_pool (of_slot j x i e (routed_slot c layer e) other)
  ]

  module _ (j i s : ℕ) (in_k : j < k) (in_B : i < B) (slot : routed_slot c layer (ids i j) ≡ some s)
      (ours : listed (ids i j) exclude ≡ false) where
    own_groups :
        (x : ℕ)
        → tally (group_at j x i) (groups_of c layer ids B k exclude (ids i j))
          ≡ tally (λ p. group_at j x i (p.0, s, p.1)) (pairs k B)
    unfolding expert_to_col
    own_groups x =
        rw (ours, slot)
          (tally-map (group_at j x i) (λ p. (p.0, s, p.1)) (expert_to_col c layer ids B k (ids i j))
            ∙ tally-select_all (λ p. group_at j x i (p.0, s, p.1)) _ (pairs k B)
                (λ p h.
                  let (at_j, at_i) = group_at-is j x i s p h in
                  let same : ids p.1 p.0 ≡ ids i j = (λ d. ids (at_i d) (at_j d)) in
                  let there : is_some (routed_slot c layer (ids p.1 p.0)) ≡ true =
                    ap (λ e. is_some (routed_slot c layer e)) same ∙ ap is_some slot in
                  ground (arith, same, there)))

    pub groups-once :
        ids i j < c.num_experts → tally (group_at j s i) (groups c layer ids B k exclude) ≡ 1
    unfolding groups
    groups-once low =
        tally-over_one (group_at j s i) (groups_of c layer ids B k exclude) 0 c.num_experts
          (ids i j) (omega arith) (omega (arith, low))
          (λ e other. of_other j s i e (λ same. other (sym same)))
        ∙ own_groups s
        ∙ tally_same (λ p. group_at j s i (p.0, s, p.1)) (pair_at j i) (pairs k B)
            (λ p. ground arith)
        ∙ pairs-once j i k B in_k in_B

    pub groups_other :
        (x : ℕ)
        → x ≢ s
        → ids i j < c.num_experts
        → tally (group_at j x i) (groups c layer ids B k exclude) ≡ 0
    unfolding groups
    groups_other x apart low =
        tally-over_one (group_at j x i) (groups_of c layer ids B k exclude) 0 c.num_experts
          (ids i j) (omega arith) (omega (arith, low))
          (λ e other. of_other j x i e (λ same. other (sym same)))
        ∙ own_groups x
        ∙ tally_none (λ p. group_at j x i (p.0, s, p.1)) (pairs k B) (λ p. ground (arith, apart))

  -- The pairs of an excluded expert are in no gather.
  pub groups_excluded :
      (j x i : ℕ)
      → listed (ids i j) exclude ≡ true
      → ids i j < c.num_experts
      → tally (group_at j x i) (groups c layer ids B k exclude) ≡ 0
  unfolding groups
  groups_excluded j x i out low =
      tally-over_one (group_at j x i) (groups_of c layer ids B k exclude) 0 c.num_experts (ids i j)
        (omega arith) (omega (arith, low)) (λ e other. of_other j x i e (λ same. other (sym same)))
      ∙ excluded j x i (ids i j) out
