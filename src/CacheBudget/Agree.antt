-- ===== src/CacheBudget/Agree.antt =====
-- `plan_cache_budget` and `check_pinned_kv_fit` of python/freetoken/engine/cache_budget.py, on one card.
use free_token_intel.Prelude.{
  ℕ, ◌+◌, ◌-◌, ◌*◌, ◌/◌, ◌≤◌, ◌<◌, min, ◌≡◌, refl, ap, ◌∙◌, inl, inr, Bool, true, Option, some,
  arith, ltb, ◌==◌, Bool-cases, Result-cases, ok,
}
use free_token_intel.CacheBudget.{
  CacheBudget, Shapes, slot_bytes, kv_token_bytes, default_slots, plan_cache_budget,
  pinned_moe_bytes, cap_pages, check_pinned_kv_fit,
}
use free_token_intel.CacheBudget.Plan.{Fits, plan_cache_budget-Fits}

div_unique : (a b x : ℕ) → a * b ≤ x → x < (a + 1) * b → x / b ≡ a
div_unique a b x h k = grind arith

-- The pinned cache is charged as the plan charges it.
pinned_moe_bytes_lem :
    (s : Shapes) (size : ℕ) {per_slot : ℕ}
    → slot_bytes s ≡ ok per_slot
    → pinned_moe_bytes s size ≡ ok (size * per_slot)
unfolding pinned_moe_bytes
pinned_moe_bytes_lem s size {per_slot} e = elim (Bool-cases (size == 0)) [
  | inl none_pinned ↦ rw none_pinned (ap (λ n. ok n) (grind arith))
  | inr some_pinned ↦ rw (some_pinned, e) refl
]

-- The pages that fit beside a plan's expert cache are the plan's pages.
cap_pages-Fits :
    (budget per_slot per_token reserve slots requested reserved : ℕ) (c : CacheBudget)
    → Fits budget per_slot per_token reserve slots c
    → reserved < c.kv_num_pages
    → cap_pages budget (c.moe_cache_size * per_slot) per_token requested reserved
      ≡ ok (min requested (c.kv_num_pages - reserved), ltb (c.kv_num_pages - reserved) requested)
unfolding cap_pages
cap_pages-Fits budget per_slot per_token reserve slots requested reserved c f room =
    let left : budget - c.moe_cache_size * per_slot ≡ c.kv_bytes =
      omega (arith, f.whole, f.slots_paid) in
    let fit : (budget - c.moe_cache_size * per_slot) / per_token ≡ c.kv_num_pages =
      ap (λ n. n / per_token) left
      ∙ div_unique c.kv_num_pages per_token c.kv_bytes f.pages_paid f.pages_most in
    rw fit (ground (arith, room))

module _ (Ratio : Type 0) (scale : ℕ → Ratio → ℕ) (in_unit : Ratio → Bool) where
  -- A plan passes the check of the pinned flags on the same card: asked for one page or more beside the
  -- plan's slots, of which fewer are reserved than the plan has, the check raises nothing, returns the
  -- pages asked for up to those of the plan less the reserved ones, and reports a cap exactly if that is
  -- less.
  pub plan_cache_budget-check_pinned_kv_fit :
      (s : Shapes) (total : ℕ) (ratio : Ratio) (kv_reserve_tokens num_experts num_moe_layers : ℕ)
      (min_slots : Option ℕ) (fraction : Option Ratio) (requested reserved : ℕ) {c : CacheBudget}
      → plan_cache_budget Ratio scale in_unit s total ratio kv_reserve_tokens num_experts
          num_moe_layers min_slots fraction
        ≡ ok c
      → 0 < requested
      → reserved < c.kv_num_pages
      → check_pinned_kv_fit Ratio scale in_unit s
          (some total)
          ratio
          c.moe_cache_size
          requested
          reserved
        ≡ ok (min requested (c.kv_num_pages - reserved), ltb (c.kv_num_pages - reserved) requested)
  unfolding plan_cache_budget check_pinned_kv_fit
  plan_cache_budget-check_pinned_kv_fit s total ratio kv_reserve_tokens num_experts num_moe_layers
        min_slots fraction requested reserved {c} e asked room =
      elim (Result-cases (slot_bytes s)) [
        | inr (x, bad) ↦ absurd (ground (arith, e, bad))
        | inl (per_slot, es) ↦ elim (Result-cases (kv_token_bytes s)) [
          | inr (x, bad) ↦ absurd (ground (arith, e, es, bad))
          | inl (per_token, et) ↦
              let valid : in_unit ratio ≡ true = ground (arith, e) in
              let f =
                plan_cache_budget-Fits Ratio scale in_unit s total ratio kv_reserve_tokens
                  num_experts num_moe_layers min_slots fraction {c = c} {per_slot = per_slot}
                  {per_token = per_token} es et e in
              let capped =
                cap_pages-Fits (scale total ratio) per_slot per_token kv_reserve_tokens
                  (default_slots min_slots num_experts) requested reserved c f room in
              ground (arith, valid, asked, pinned_moe_bytes_lem s c.moe_cache_size es, et, capped)
        ]
      ]
