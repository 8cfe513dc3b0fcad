-- ===== src/Offload/Halves.antt =====
-- The two halves of a hybrid step: what the pool gathers and what is left to the CPU.
use free_token_intel.Prelude.{
  ℕ, zero, suc, ◌+◌, ◌-◌, ◌≤◌, ◌<◌, ◌≡◌, refl, ◌≢◌, ap, inl, inr, Bool, true, false, not, Option,
  List, [], ◌∷◌, ◌==◌, ==_iff, Bool-cases, arith, Result, ok, ◌>>=◌, count, count-append, min, max,
  length, length-take, length-sort, sort,
}
use free_token_intel.Offload.{OffloadMoeCache, listed, first_uses, has_banks}
use free_token_intel.Offload.Experts.{select-has, select-passes, range-has, range-count}
use free_token_intel.Offload.Fetch.{IsPool}
use free_token_intel.Offload.Forward.{fetch_ids}
use free_token_intel.Offload.Serve.{HasRows, wanted, fetch_experts-Serves}
use free_token_intel.Offload.Hybrid.{
  over, flat_ids, fetch_count, cpu_experts, FetchFraction, cpu_half, cap_of, groups, Shares,
  forward_hybrid,
}
use free_token_intel.Offload.Gathers.{tally, group_at, groups-once, groups_other, groups_excluded}

count-over :
    (x : ℕ) (f : ℕ → List ℕ) (lo n a : ℕ)
    → lo ≤ a
    → a < lo + n
    → 0 < count x (f a)
    → 0 < count x (over f lo n)
count-over x f lo zero a le lt h = absurd (omega (arith, le, lt))
count-over x f lo (suc n) a le lt h = elim (Bool-cases (lo == a)) [
  | inl same ↦
      let e : lo ≡ a = (==_iff lo a).0 same in
      omega (arith, count-append x (f lo) (over f (suc lo) n), ap (λ y. count x (f y)) e, h)
  | inr other ↦ omega (
    arith,
    count-append x (f lo) (over f (suc lo) n),
    count-over x f (suc lo) n a (ground (arith, le, other)) (omega (arith, lt)) h,
  )
]

count-over_from :
    (x : ℕ) (f : ℕ → List ℕ) (lo n : ℕ)
    → 0 < count x (over f lo n)
    → (a : ℕ) × (lo ≤ a) × (a < lo + n) × (0 < count x (f a))
unfolding count
count-over_from x f lo zero h = absurd (omega (arith, h))
count-over_from x f lo (suc n) h = elim (Bool-cases (count x (f lo) == 0)) [
  | inr here ↦ (lo, omega arith, omega arith, ground (arith, here))
  | inl gone ↦
      let (a, le, lt, k) =
        count-over_from x f (suc lo) n
          (ground (arith, count-append x (f lo) (over f (suc lo) n), h, gone)) in
      (a, omega (arith, le), omega (arith, lt), k)
]

module _ (ids : ℕ → ℕ → ℕ) (B k : ℕ) where
  flat_ids-has : (i j : ℕ) → i < B → j < k → 0 < count (ids i j) (flat_ids ids B k)
  unfolding flat_ids count
  flat_ids-has i j in_B in_k =
      count-over (ids i j) (λ a. over (λ b. ids a b ∷ []) 0 k) 0 B i (omega arith)
        (omega (arith, in_B))
        (count-over (ids i j) (λ b. ids i b ∷ []) 0 k j (omega arith) (omega (arith, in_k))
          (ground arith))

  flat_ids-from :
      (E : ℕ)
      → ((i j : ℕ) → i < B → j < k → ids i j < E)
      → (e : ℕ) → 0 < count e (flat_ids ids B k)
      → e < E
  unfolding flat_ids count
  flat_ids-from E low e h =
      let (i, le, in_B, row) = count-over_from e (λ a. over (λ b. ids a b ∷ []) 0 k) 0 B h in
      let (j, le2, in_k, here) = count-over_from e (λ b. ids i b ∷ []) 0 k row in
      ground (arith, low i j (omega (arith, in_B)) (omega (arith, in_k)), here)

-- Neither half is empty where there are two experts or more.
cpu_experts-length :
    (round_share : ℕ → ℕ) (max_fetch : Option ℕ) (seen : List ℕ)
    → 2 ≤ length seen
    → (0 < length (cpu_experts round_share max_fetch seen))
      × (length (cpu_experts round_share max_fetch seen) < length seen)
unfolding cpu_experts fetch_count
cpu_experts-length round_share max_fetch seen h =
    let n = length seen in
    let f = max 1 (min (n - 1) (cap_of max_fetch (round_share n))) in
    let size = length-take (n - f) (sort seen) in
    let all = length-sort seen in (omega (arith, size, all, h), omega (arith, size, all, h))

-- A row and a column of the routing are the CPU's, or the pool gathers them once, from a slot that has
-- the rows of their expert.
pub data Share {Row : Type 0} (layer : ℕ) (ids : ℕ → ℕ → ℕ) (i j : ℕ) (r : Shares Row)
    : Type 0 where
  cpu :
      listed (ids i j) r.on_cpu ≡ true
      → ((slot : ℕ) → tally (group_at j slot i) r.gathers ≡ 0)
      → Share layer ids i j r
  gathered :
      (slot : ℕ)
      → listed (ids i j) r.on_cpu ≡ false
      → HasRows layer (ids i j) slot r.pool.banks
      → tally (group_at j slot i) r.gathers ≡ 1
      → ((other : ℕ) → other ≢ slot → tally (group_at j other i) r.gathers ≡ 0)
      → Share layer ids i j r

-- How many experts the CPU has of n that are routed: none without a split, else some but not all.
abbrev pub IsSplit : FetchFraction → ℕ → List ℕ → Type 0
IsSplit FetchFraction.at_most_zero n on_cpu = on_cpu ≡ []
IsSplit FetchFraction.at_least_one n on_cpu = on_cpu ≡ []
IsSplit (FetchFraction.between round_share) n on_cpu = (0 < length on_cpu) × (length on_cpu < n)

cpu_half-IsSplit :
    (fraction : FetchFraction) (max_fetch : Option ℕ) (seen : List ℕ)
    → 2 ≤ length seen
    → IsSplit fraction (length seen) (cpu_half fraction max_fetch seen)
unfolding cpu_half
cpu_half-IsSplit FetchFraction.at_most_zero max_fetch seen h = refl
cpu_half-IsSplit FetchFraction.at_least_one max_fetch seen h = refl
cpu_half-IsSplit (FetchFraction.between round_share) max_fetch seen h =
    cpu_experts-length round_share max_fetch seen h

pub record Halves {Row : Type 0} (fraction : FetchFraction) (layer : ℕ) (ids : ℕ → ℕ → ℕ) (B k : ℕ)
    (r : Result (Shares Row)) : Type 0 where
  pub out : Shares Row
  pub runs : r ≡ ok out
  pub pool : IsPool out.pool
  pub covers : (i j : ℕ) → i < B → j < k → Share layer ids i j out
  pub split :
      2 ≤ length (first_uses [] (flat_ids ids B k))
      → IsSplit fraction (length (first_uses [] (flat_ids ids B k))) out.on_cpu

module _ {Row : Type 0} (c : OffloadMoeCache Row) (exclude flat : List ℕ) where
  wanted-low :
      (is_prefill : Bool)
      → ((e : ℕ) → 0 < count e flat → e < c.num_experts)
      → (e : ℕ) → 0 < count e (wanted c is_prefill exclude flat)
      → e < c.num_experts
  unfolding fetch_ids
  wanted-low true low e h = let (le, lt) = range-count e 0 c.num_experts h in omega (arith, lt)
  wanted-low false low e h = low e (select-passes (λ x. not (listed x exclude)) e flat h).1

  wanted-has :
      (is_prefill : Bool) (e : ℕ)
      → e < c.num_experts
      → 0 < count e flat
      → listed e exclude ≡ false
      → 0 < count e (wanted c is_prefill exclude flat)
  unfolding fetch_ids
  wanted-has true e low h ours = range-has e 0 c.num_experts (omega arith) (omega (arith, low))
  wanted-has false e low h ours = select-has (λ x. not (listed x exclude)) e flat (ap not ours) h

-- On a sound pool of at least two slots with its banks attached, for a layer of the model and routed
-- experts of it, a step, of prefill and of decode alike, raises nothing in its pool half. Every row and
-- column of the routing is either of an expert that is left to the CPU, and then in no gather, or in one
-- gather only, once, and from a slot that has the host's rows of its expert in every bank. Where two
-- experts or more are routed, the CPU has none if the fetch fraction is not between 0 and 1, else some
-- but not all. The pool is sound again.
pub forward_hybrid-Halves :
    {Row : Type 0} (fraction : FetchFraction) (max_fetch : Option ℕ) (c : OffloadMoeCache Row)
    (layer : ℕ) (is_prefill : Bool) (ids : ℕ → ℕ → ℕ) (B k : ℕ)
    → IsPool c
    → layer < c.num_layers
    → has_banks c.banks ≡ true
    → 2 ≤ c.cache_size
    → ((i j : ℕ) → i < B → j < k → ids i j < c.num_experts)
    → Halves fraction layer ids B k (forward_hybrid fraction max_fetch c layer is_prefill ids B k)
unfolding forward_hybrid
forward_hybrid-Halves fraction max_fetch c layer is_prefill ids B k v known some_bank two low =
    let flat = flat_ids ids B k in
    let left_out = cpu_half fraction max_fetch (first_uses [] flat) in
    let s =
      fetch_experts-Serves c layer is_prefill left_out flat v known some_bank two
        (wanted-low c left_out flat is_prefill (flat_ids-from ids B k c.num_experts low)) in
    let out : Shares _ = record {
      pool = s.out;
      gathers = groups s.out layer ids B k left_out;
      on_cpu = left_out;
    } in
    record {
      out = out;
      runs =
          ap
            (λ r. r >>= (λ o.
              ok (record {
                pool = o;
                gathers = groups o layer ids B k left_out;
                on_cpu = left_out;
              })))
            s.runs;
      pool = s.pool;
      covers = λ i j in_B in_k.
          let e = ids i j in
          let fits : e < s.out.num_experts = omega (arith, low i j in_B in_k, s.same_experts) in
          elim (Bool-cases (listed e left_out)) [
            | inl out_of ↦
                Share.cpu out_of
                  (λ slot. groups_excluded s.out layer ids B k left_out j slot i out_of fits)
            | inr ours ↦
                let at = s.served e (
                  wanted-has c left_out flat is_prefill e (low i j in_B in_k)
                    (flat_ids-has ids B k i j in_B in_k) ours) in
                Share.gathered at.slot ours at.rows
                  (groups-once s.out layer ids B k left_out j i at.slot in_k in_B at.valid ours
                    fits)
                  (λ other apart.
                    groups_other s.out layer ids B k left_out j i at.slot in_k in_B at.valid ours
                      other apart fits)
          ];
      split = cpu_half-IsSplit fraction max_fetch (first_uses [] flat);
    }
