-- ===== src/Examples/Budgets.antt =====
-- The cache budget of a small model: a slot of 48 bytes, a token of 16 bytes, 1000 bytes of VRAM.
use free_token_intel.Prelude.{
  ℕ, ◌*◌, ◌/◌, ◌≡◌, refl, Bool, true, false, ◌&&◌, none, some, arith, ltb, leb, Result, ok,
}
use free_token_intel.CacheBudget.{
  CacheBudget, Shapes, bytes_per_expert_slot, bytes_per_kv_token, slot_bytes, kv_token_bytes, split,
  default_slots, plan_cache_budget, pinned_moe_bytes, cap_pages, check_pinned_kv_fit,
  resolve_served_context_len,
}
use free_token_intel.CacheBudget.Plan.{Fits, plan_cache_budget-Fits}
use free_token_intel.CacheBudget.Agree.{plan_cache_budget-check_pinned_kv_fit}
use free_token_intel.CacheBudget.Pinned.{Capped, check_pinned_kv_fit-Capped}

program : Unit {0}
unfolding bytes_per_expert_slot bytes_per_kv_token slot_bytes kv_token_bytes split default_slots
    plan_cache_budget pinned_moe_bytes cap_pages check_pinned_kv_fit resolve_served_context_len
program = tt

abbrev shapes : Shapes
shapes = record {
  moe_intermediate_size = 4;
  hidden_size = 2;
  num_layers = 1;
  num_kv_heads = 2;
  head_dim = 2;
  dtype_bytes = 2;
  bytes_per_slot_override = none;
}

-- Ratios in percent.
abbrev percent : ℕ → ℕ → ℕ
percent total r = total * r / 100

abbrev up_to_all : ℕ → Bool
up_to_all r = ltb 0 r && leb r 100

abbrev plan : Result CacheBudget
plan = plan_cache_budget ℕ percent up_to_all shapes 1000 90 10 4 3 none (some 50)

abbrev budget : CacheBudget
budget = record {
  budget_bytes = 900;
  moe_cache_bytes = 432;
  kv_bytes = 468;
  moe_cache_size = 9;
  kv_num_pages = 29;
  kv_is_floored = false;
}

plan_runs : plan ≡ ok budget
unfolding program
plan_runs = refl

plan_cache_budget-Fits_example : Fits 900 48 16 10 4 budget
unfolding program
plan_cache_budget-Fits_example =
    plan_cache_budget-Fits ℕ percent up_to_all shapes 1000 90 10 4 3 none (some 50) {c = budget}
      {per_slot = 48} {per_token = 16} refl refl refl

-- Beside the plan's slots 40 pages are asked for, and one is reserved.
plan_cache_budget-check_pinned_kv_fit_example :
    check_pinned_kv_fit ℕ percent up_to_all shapes (some 1000) 90 9 40 1 ≡ ok (28, true)
unfolding program
plan_cache_budget-check_pinned_kv_fit_example =
    plan_cache_budget-check_pinned_kv_fit ℕ percent up_to_all shapes 1000 90 10 4 3 none (some 50)
      40 1 {c = budget} refl (omega arith) (omega arith)

check_pinned_kv_fit-Capped_example : Capped 900 432 16 100 1 28 true
unfolding program
check_pinned_kv_fit-Capped_example =
    check_pinned_kv_fit-Capped ℕ percent up_to_all shapes 1000 90 9 100 1 {moe_bytes = 432}
      {per_token = 16} {pages = 28} {capped = true} refl refl refl
