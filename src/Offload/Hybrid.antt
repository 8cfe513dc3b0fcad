-- ===== src/Offload/Hybrid.antt =====
-- python/freetoken/models/qwen3_moe/__init__.py: how `_forward_hybrid` splits the routed experts between
-- the CPU and the pool, and the gathers that `_forward_offload` makes for its half. `ids i j` is the
-- expert of row i in column j of `top_idx`, which has B rows and k columns.
use free_token_intel.Prelude.{
  ℕ, zero, suc, ◌-◌, min, max, Bool, true, false, ◌&&◌, Option, none, some, List, [], ◌∷◌, ◌++◌,
  map, ltb, ◌==◌, if◌then◌else◌, length, take, select, sort, Result, ok, ◌>>=◌,
}
use free_token_intel.Offload.{OffloadMoeCache, listed, first_uses}
use free_token_intel.Offload.Forward.{routed_slot, fetch_experts}

-- `for x in range(lo, lo + n): out += f(x)`
abbrev pub over {ℓ} : {A : Type ℓ} → (ℕ → List A) → ℕ → ℕ → List A
over f lo zero = []
over f lo (suc n) = f lo ++ over f (suc lo) n

-- `expert_ids.reshape(-1)`
unfoldable pub flat_ids : (ℕ → ℕ → ℕ) → ℕ → ℕ → List ℕ
flat_ids ids B k = over (λ i. over (λ j. ids i j ∷ []) 0 k) 0 B

-- `int(max_fetch or -1)` caps when it is not negative; none is a negative number or None.
abbrev pub cap_of : Option ℕ → ℕ → ℕ
cap_of none n_fetch = n_fetch
cap_of (some zero) n_fetch = n_fetch
cap_of (some (suc m)) n_fetch = if ltb (suc m) n_fetch then suc m else n_fetch

-- `round_share n` is `int(round(n * fetch_frac))`.
unfoldable pub fetch_count : (ℕ → ℕ) → Option ℕ → ℕ → ℕ
fetch_count round_share max_fetch n = max 1 (min (n - 1) (cap_of max_fetch (round_share n)))

unfoldable pub cpu_experts : (ℕ → ℕ) → Option ℕ → List ℕ → List ℕ
cpu_experts round_share max_fetch seen =
    take (length seen - fetch_count round_share max_fetch (length seen)) (sort seen)

-- The fetch fraction f, where it matters: at 0 or below, at 1 or above, else by `int(round(n * f))`.
pub data FetchFraction : Type 0 where
  at_most_zero at_least_one : FetchFraction
  between : (ℕ → ℕ) → FetchFraction

-- The experts that the CPU computes. Without a split it is none, and the step is pure offload.
unfoldable pub cpu_half : FetchFraction → Option ℕ → List ℕ → List ℕ
cpu_half FetchFraction.at_most_zero max_fetch seen = []
cpu_half FetchFraction.at_least_one max_fetch seen = []
cpu_half (FetchFraction.between round_share) max_fetch seen = cpu_experts round_share max_fetch seen

-- A gather: the column, the slot and the row.
abbrev pub Group : Type 0
Group = ℕ × ℕ × ℕ

-- `(j, i)` over the columns and the rows.
abbrev pub pairs : ℕ → ℕ → List (ℕ × ℕ)
pairs k B = over (λ j. over (λ i. (j, i) ∷ []) 0 B) 0 k

abbrev pub is_some : Option ℕ → Bool
is_some none = false
is_some (some x) = true

abbrev pub group_all : Option ℕ → List (ℕ × ℕ) → List Group
group_all none ps = []
group_all (some slot) ps = map (λ p. (p.0, slot, p.1)) ps

module _ {Row : Type 0} (c : OffloadMoeCache Row) (layer_id : ℕ) (ids : ℕ → ℕ → ℕ) (B k : ℕ) where
  -- `expert_to_col[e]`
  unfoldable pub expert_to_col : ℕ → List (ℕ × ℕ)
  expert_to_col e =
      select (λ p. is_some (routed_slot c layer_id (ids p.1 p.0)) && (ids p.1 p.0 == e)) (pairs k B)

  abbrev pub groups_of : List ℕ → ℕ → List Group
  groups_of exclude e =
      if listed e exclude then [] else group_all (routed_slot c layer_id e) (expert_to_col e)

  unfoldable pub groups : List ℕ → List Group
  groups exclude = over (groups_of exclude) 0 c.num_experts

-- What a step of `_forward_hybrid` comes to.
pub record Shares (Row : Type 0) : Type 0 where
  pub pool : OffloadMoeCache Row
  pub gathers : List Group
  pub on_cpu : List ℕ

unfoldable pub forward_hybrid :
    {Row : Type 0}
    → FetchFraction
    → Option ℕ
    → OffloadMoeCache Row
    → ℕ
    → Bool
    → (ℕ → ℕ → ℕ)
    → ℕ
    → ℕ
    → Result (Shares Row)
forward_hybrid fraction max_fetch c layer_id is_prefill ids B k = do
  let flat = flat_ids ids B k
  let cpu = cpu_half fraction max_fetch (first_uses [] flat)
  out ← fetch_experts c layer_id is_prefill cpu flat
  ok (record { pool = out; gathers = groups out layer_id ids B k cpu; on_cpu = cpu })
