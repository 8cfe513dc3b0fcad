-- ===== src/CacheBudget.antt =====
-- python/freetoken/engine/cache_budget.py: how the addressable VRAM is split between the MoE expert
-- cache and the KV pool. The sizes are natural numbers, so `x <= 0` reads `x == 0`. The texts that
-- explain a cap are `true` where one is given. Floats and their product with a size are parameters.
pub mod Plan
pub mod Pinned
pub mod Agree
use free_token_intel.Prelude.{
  ℕ, ◌+◌, ◌-◌, ◌*◌, ◌/◌, max, min, Bool, true, false, not, ◌||◌, Option, none, some, leb, ◌==◌,
  if◌then◌else◌, Result, ◌>>=◌, ◌>>◌, ok, raise, value_error, guard,
}

pub record CacheBudget : Type 0 where
  pub budget_bytes : ℕ
  pub moe_cache_bytes : ℕ
  pub kv_bytes : ℕ
  pub moe_cache_size : ℕ
  pub kv_num_pages : ℕ
  pub kv_is_floored : Bool

unfoldable pub bytes_per_expert_slot : ℕ → ℕ → ℕ → Result ℕ
bytes_per_expert_slot moe_intermediate_size hidden_size dtype_bytes = do
  guard (not (moe_intermediate_size == 0 || hidden_size == 0 || dtype_bytes == 0)) value_error
  ok ((2 * moe_intermediate_size * hidden_size + hidden_size * moe_intermediate_size) * dtype_bytes)

unfoldable pub bytes_per_kv_token : ℕ → ℕ → ℕ → ℕ → Result ℕ
bytes_per_kv_token num_layers num_kv_heads head_dim dtype_bytes = do
  guard (not (num_layers == 0 || num_kv_heads == 0 || head_dim == 0 || dtype_bytes == 0))
      value_error
  ok (2 * num_layers * num_kv_heads * head_dim * dtype_bytes)

-- The shapes of an expert slot and of a token's KV row.
pub record Shapes : Type 0 where
  pub moe_intermediate_size : ℕ
  pub hidden_size : ℕ
  pub num_layers : ℕ
  pub num_kv_heads : ℕ
  pub head_dim : ℕ
  pub dtype_bytes : ℕ
  pub bytes_per_slot_override : Option ℕ

unfoldable pub slot_bytes : Shapes → Result ℕ
slot_bytes s = elim s.bytes_per_slot_override [
  | none ↦ bytes_per_expert_slot s.moe_intermediate_size s.hidden_size s.dtype_bytes
  | some n ↦ (do guard (not (n == 0)) value_error; ok n)
]

unfoldable pub kv_token_bytes : Shapes → Result ℕ
kv_token_bytes s = bytes_per_kv_token s.num_layers s.num_kv_heads s.head_dim s.dtype_bytes

-- An operator's fraction caps the share of the expert cache.
abbrev pub available : ℕ → Option ℕ → ℕ
available left none = left
available left (some c) = min left c

-- The split of a budget, once the two unit sizes are known and the floors are seen to fit.
unfoldable pub split : ℕ → ℕ → ℕ → ℕ → ℕ → Option ℕ → CacheBudget
split budget per_slot per_token kv_reserve_tokens min_slots moe_cap =
    let left = budget - kv_reserve_tokens * per_token in
    let moe_cache_size = max min_slots (available left moe_cap / per_slot) in
    let moe_bytes = moe_cache_size * per_slot in
    let kv_bytes = budget - moe_bytes in
    let pages = max kv_reserve_tokens (kv_bytes / per_token) in
    record {
      budget_bytes = budget;
      moe_cache_bytes = moe_bytes;
      kv_bytes = kv_bytes;
      moe_cache_size = moe_cache_size;
      kv_num_pages = pages;
      kv_is_floored = pages == kv_reserve_tokens;
    }

unfoldable pub default_slots : Option ℕ → ℕ → ℕ
default_slots none num_experts = num_experts
default_slots (some n) num_experts = n

-- The bytes of the pinned MoE cache; a dense model has none.
unfoldable pub pinned_moe_bytes : Shapes → ℕ → Result ℕ
pinned_moe_bytes s moe_cache_size =
    if moe_cache_size == 0
    then ok 0
    else (do per_slot ← slot_bytes s; ok (moe_cache_size * per_slot))

-- The whole pages that fit, less those that the caller adds, against the pages asked for.
unfoldable pub cap_pages : ℕ → ℕ → ℕ → ℕ → ℕ → Result (ℕ × Bool)
cap_pages budget moe_bytes per_token requested reserved =
    let fit = (budget - moe_bytes) / per_token in
    if leb fit reserved
    then raise value_error
    else if leb requested (fit - reserved)
    then ok (requested, false)
    else ok (fit - reserved, true)

-- `Ratio` is Python's float, `scale b r` is `int(b * r)`, and `in_unit r` is `0 < r <= 1`.
module _ (Ratio : Type 0) (scale : ℕ → Ratio → ℕ) (in_unit : Ratio → Bool) where
  abbrev pub fraction_in_unit : Option Ratio → Bool
  fraction_in_unit none = true
  fraction_in_unit (some r) = in_unit r

  abbrev pub fraction_cap : ℕ → Option Ratio → Option ℕ
  fraction_cap budget none = none
  fraction_cap budget (some r) = some (scale budget r)

  unfoldable pub plan_cache_budget :
      Shapes → ℕ → Ratio → ℕ → ℕ → ℕ → Option ℕ → Option Ratio → Result CacheBudget
  plan_cache_budget s total_vram_bytes memory_ratio kv_reserve_tokens num_experts num_moe_layers
        min_moe_cache_size moe_fraction =
      do
        guard (in_unit memory_ratio) value_error
        guard (not (total_vram_bytes == 0)) value_error
        guard (not (kv_reserve_tokens == 0)) value_error
        guard (not (num_experts == 0 || num_moe_layers == 0)) value_error
        guard (fraction_in_unit moe_fraction) value_error
        let budget = scale total_vram_bytes memory_ratio
        let min_slots = default_slots min_moe_cache_size num_experts
        per_slot ← slot_bytes s
        per_token ← kv_token_bytes s
        guard (not (per_token == 0)) value_error
        guard (leb (kv_reserve_tokens * per_token + min_slots * per_slot) budget) value_error
        ok (
            split budget per_slot per_token kv_reserve_tokens min_slots
              (fraction_cap budget moe_fraction))

  unfoldable pub check_pinned_kv_fit : Shapes → Option ℕ → Ratio → ℕ → ℕ → ℕ → Result (ℕ × Bool)
  check_pinned_kv_fit s none memory_ratio moe_cache_size requested reserved = ok (requested, false)
  check_pinned_kv_fit s (some total) memory_ratio moe_cache_size requested reserved = do
    guard (in_unit memory_ratio) value_error
    guard (not (requested == 0)) value_error
    moe_bytes ← pinned_moe_bytes s moe_cache_size
    per_token ← kv_token_bytes s
    cap_pages (scale total memory_ratio) moe_bytes per_token requested reserved

unfoldable pub resolve_served_context_len : ℕ → Option ℕ → ℕ × Bool
resolve_served_context_len max_seq_len none = (max_seq_len, false)
resolve_served_context_len max_seq_len (some pages) =
    if leb max_seq_len pages then (max_seq_len, false) else (pages, true)
