-- ===== src/CacheBudget/Plan.antt =====
-- `plan_cache_budget` of python/freetoken/engine/cache_budget.py: the split and its floors.
use free_token_intel.Prelude.{
  ℕ, ◌+◌, ◌-◌, ◌*◌, ◌/◌, ◌≤◌, ◌<◌, max, ◌≡◌, refl, sym, subst, inl, inr, Bool, ◌||◌, Option, none,
  some, arith, leb, ◌==◌, Bool-cases, Result, ok,
}
use free_token_intel.CacheBudget.{
  CacheBudget, Shapes, available, slot_bytes, bytes_per_kv_token, kv_token_bytes, split,
  default_slots, fraction_cap, plan_cache_budget,
}

pub div_le : (a b : ℕ) → a / b * b ≤ a
div_le a b = grind arith

pub lt_div : (a b : ℕ) → 0 < b → a < a / b * b + b
lt_div a b h = grind arith

pub le_div : (a b c : ℕ) → 0 < b → c * b ≤ a → c ≤ a / b
le_div a b c h k = grind arith

mul-positive : (a b : ℕ) → 0 < a → 0 < b → 0 < a * b
mul-positive a b h k = grind arith

-- A token's KV row is never empty, so the source's check for it is never the one that raises.
pub kv_token_bytes-positive : (s : Shapes) {n : ℕ} → kv_token_bytes s ≡ ok n → 0 < n
unfolding kv_token_bytes bytes_per_kv_token
kv_token_bytes-positive s {n} e =
    let a = s.num_layers in
    let b = s.num_kv_heads in
    let c = s.head_dim in
    let d = s.dtype_bytes in
    elim (Bool-cases (a == 0 || b == 0 || c == 0 || d == 0)) [
      | inl bad ↦ absurd (ground arith)
      | inr good ↦
          let ha : 0 < a = ground arith in
          let hb : 0 < b = ground arith in
          let hc : 0 < c = ground arith in
          let hd : 0 < d = ground arith in
          let p =
            mul-positive (2 * a * b * c) d
              (mul-positive (2 * a * b) c (mul-positive (2 * a) b (omega arith) hb) hc) hd in
          let same : n ≡ 2 * a * b * c * d = ground arith in subst (λ m. 0 < m) (sym same) p
    ]

-- What the resolved counts promise of a budget with the two unit sizes.
pub record Fits (budget per_slot per_token kv_reserve_tokens min_slots : ℕ) (c : CacheBudget)
    : Type 0 where
  pub budgeted : c.budget_bytes ≡ budget
  pub whole : c.moe_cache_bytes + c.kv_bytes ≡ budget
  pub slots_paid : c.moe_cache_bytes ≡ c.moe_cache_size * per_slot
  pub slots_floor : min_slots ≤ c.moe_cache_size
  pub pages_floor : kv_reserve_tokens ≤ c.kv_num_pages
  pub pages_paid : c.kv_num_pages * per_token ≤ c.kv_bytes
  pub pages_most : c.kv_bytes < (c.kv_num_pages + 1) * per_token

available-le : (left : ℕ) (o : Option ℕ) → available left o ≤ left
available-le left none = omega arith
available-le left (some c) = omega arith

max-times : (a b c n : ℕ) → a * c ≤ n → b * c ≤ n → max a b * c ≤ n
max-times a b c n h k = elim (Bool-cases (leb a b)) [
  | inl e ↦ let m : max a b ≡ b = ground arith in rw m k
  | inr e ↦ let m : max a b ≡ a = ground arith in rw m h
]

split-Fits :
    (budget per_slot per_token kv_reserve_tokens min_slots : ℕ) (moe_cap : Option ℕ)
    → 0 < per_token
    → kv_reserve_tokens * per_token + min_slots * per_slot ≤ budget
    → Fits budget per_slot per_token kv_reserve_tokens min_slots
        (split budget per_slot per_token kv_reserve_tokens min_slots moe_cap)
unfolding split
split-Fits budget per_slot per_token kv_reserve_tokens min_slots moe_cap pos room =
    let left = budget - kv_reserve_tokens * per_token in
    let share = available left moe_cap in
    let moe = max min_slots (share / per_slot) * per_slot in
    let kv = budget - moe in
    let paid : moe ≤ left =
      max-times min_slots (share / per_slot) per_slot left (omega arith)
        (omega (arith, div_le share per_slot, available-le left moe_cap)) in
    let enough : kv_reserve_tokens ≤ kv / per_token =
      le_div kv per_token kv_reserve_tokens pos (omega arith) in
    let pages : max kv_reserve_tokens (kv / per_token) ≡ kv / per_token = omega arith in
    record {
      budgeted = refl;
      whole = omega arith;
      slots_paid = refl;
      slots_floor = omega arith;
      pages_floor = omega arith;
      pages_paid = rw pages (div_le kv per_token);
      pages_most = rw pages (omega (arith, lt_div kv per_token pos));
    }

module _ (Ratio : Type 0) (scale : ℕ → Ratio → ℕ) (in_unit : Ratio → Bool) where
  module _ (s : Shapes) (total : ℕ) (ratio : Ratio)
      (kv_reserve_tokens num_experts num_moe_layers : ℕ) (min_slots : Option ℕ)
      (fraction : Option Ratio) where
    abbrev planned : Result CacheBudget
    planned =
        plan_cache_budget Ratio scale in_unit s total ratio kv_reserve_tokens num_experts
          num_moe_layers min_slots fraction

    -- A plan that is given splits the whole addressable budget, `int(total * ratio)`, between the
    -- expert cache, whose slots are at least the minimum and exactly paid for, and the KV pool,
    -- whose pages are at least the reserve, fit in its share, and are as many as fit.
    pub plan_cache_budget-Fits :
        {c : CacheBudget} {per_slot per_token : ℕ}
        → slot_bytes s ≡ ok per_slot
        → kv_token_bytes s ≡ ok per_token
        → planned ≡ ok c
        → Fits
            (scale total ratio)
            per_slot
            per_token
            kv_reserve_tokens
            (default_slots min_slots num_experts)
            c
    unfolding plan_cache_budget
    plan_cache_budget-Fits {c} {per_slot} {per_token} es et e =
        let budget = scale total ratio in
        let slots = default_slots min_slots num_experts in
        let pos : 0 < per_token = ground (arith, es, et) in
        let room : kv_reserve_tokens * per_token + slots * per_slot ≤ budget =
          ground (arith, es, et) in
        let made : c
            ≡ split budget per_slot per_token kv_reserve_tokens slots
                (fraction_cap Ratio scale in_unit budget fraction) =
          ground (arith, es, et) in
        subst (Fits budget per_slot per_token kv_reserve_tokens slots) (sym made) (
          split-Fits budget per_slot per_token kv_reserve_tokens slots
            (fraction_cap Ratio scale in_unit budget fraction) pos room)
