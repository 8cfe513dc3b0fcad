-- ===== src/Offload/Forward.antt =====
-- python/freetoken/models/qwen3_moe/__init__.py: how `_forward_offload` fetches the experts of a batch
-- and looks up their slots. The weights that it then multiplies are those of the slots.
use free_token_intel.Prelude.{
  ℕ, ◌+◌, ◌*◌, Bool, not, Option, none, some, List, ltb, if◌then◌else◌, Result, ◌>>=◌, select,
}
use free_token_intel.Offload.{
  OffloadMoeCache, listed, ensure_experts, materialize_layer, copy_missing,
}

-- `[e for e in flat_ids if e not in exclude]`; without `exclude` it is all of them.
unfoldable pub fetch_ids : List ℕ → List ℕ → List ℕ
fetch_ids exclude expert_ids = select (λ e. not (listed e exclude)) expert_ids

-- The slot of an expert where `0 <= slot < S`, else none.
abbrev pub valid_slot : ℕ → Option ℕ → Option ℕ
valid_slot S none = none
valid_slot S (some slot) = if ltb slot S then some slot else none

module _ {Row : Type 0} where
  unfoldable pub fetch_experts :
      OffloadMoeCache Row → ℕ → Bool → List ℕ → List ℕ → Result (OffloadMoeCache Row)
  fetch_experts c layer_id is_prefill exclude expert_ids =
      (if is_prefill
        then materialize_layer c layer_id
        else ensure_experts c layer_id (fetch_ids exclude expert_ids))
      >>= copy_missing

  unfoldable pub routed_slot : OffloadMoeCache Row → ℕ → ℕ → Option ℕ
  routed_slot c layer_id expert =
      valid_slot c.cache_size (c.slot_for_id (layer_id * c.num_experts + expert))
