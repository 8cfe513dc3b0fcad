-- ===== src/Examples/Offload.antt =====
-- A model of two layers with two experts each, on a pool of three slots with one bank.
use free_token_intel.Offload.Hybrid.{
  flat_ids, fetch_count, FetchFraction, cpu_experts, cpu_half, expert_to_col, groups,
  forward_hybrid,
}
use free_token_intel.Offload.Halves.{Halves, forward_hybrid-Halves}
use free_token_intel.Prelude.{
  if◌then◌else◌, ◌==◌, ◌/◌, ℕ, ◌+◌, ◌*◌, ◌≡◌, ◌<◌, refl, true, false, none, some, [], ◌∷◌, arith,
  Result, ok, raise, range_from, ◌>>=◌, value_error, count, sort,
}
use free_token_intel.Offload.{
  OffloadMoeCache, Source, put, first_uses, stamp_hits, lru_slot, first_free, victim, place,
  stage_misses, resync_slot_for_id, load, misses, ensure_experts, materialize_layer, copy_rows,
  copy_missing, resident_slots, rebuild, reset, reset_stats, init, make_banks, set_bank_sources,
  mark_active, Staging, staging_of, decode_miss_stats,
}
use free_token_intel.Offload.Fetch.{IsPool}
use free_token_intel.Offload.Forward.{fetch_ids, fetch_experts, routed_slot}
use free_token_intel.Offload.Serve.{Serves, fetch_experts-Serves, load-resync_slot_for_id}
use free_token_intel.Offload.Reach.{Reach, Reach-IsPool}

program : Unit {0}
unfolding put first_uses stamp_hits lru_slot first_free victim place stage_misses resync_slot_for_id
    load misses ensure_experts materialize_layer copy_rows copy_missing resident_slots rebuild reset
    reset_stats init make_banks set_bank_sources mark_active fetch_ids fetch_experts routed_slot
    decode_miss_stats count sort flat_ids fetch_count cpu_experts cpu_half expert_to_col groups
    forward_hybrid
program = tt

abbrev host : Source ℕ
host = record { layers = 2; rows = λ layer expert. 100 + 10 * layer + expert }

abbrev new_pool : OffloadMoeCache ℕ
new_pool = record {
  num_layers = 2;
  num_experts = 2;
  cache_size = 3;
  slot_for_id = λ id. none;
  id_of_slot = λ slot. none;
  usage = λ slot. 0;
  step = 0;
  active_mask = λ expert. 0;
  plan_slots = 3;
  plan = [];
  banks = [];
  pending_src_layer = none;
  pending_whole_layer = false;
  stat_missing = 0;
  stat_calls = 0;
}

abbrev pool : OffloadMoeCache ℕ
pool = record new_pool { banks = record { sources = host.rows; cache = λ slot. 0 } ∷ [] }

init_runs : init true 2 2 3 ≡ ok new_pool
unfolding program
init_runs = refl

attach_runs : set_bank_sources 0 true (host ∷ []) new_pool ≡ ok pool
unfolding program
attach_runs = refl

init_small : init {Row = ℕ} true 2 2 1 ≡ raise value_error
unfolding program
init_small = refl

attached : Reach 0 pool
attached = Reach.attached true true 2 2 3 (host ∷ []) new_pool pool init_runs attach_runs

pool_IsPool : IsPool pool
pool_IsPool = Reach-IsPool 0 pool attached

-- Layer 0 for expert 1, layer 1 whole, then layer 0 for both: expert 1 is a hit in slot 2.
abbrev after : Result (OffloadMoeCache ℕ)
after = do
  a ← fetch_experts pool 0 false [] (1 ∷ 1 ∷ [])
  b ← fetch_experts a 1 true [] []
  fetch_experts b 0 false (1 ∷ []) (0 ∷ 1 ∷ 0 ∷ [])

after_slots :
    (after >>= (λ c.
      ok (routed_slot c 0 0 ∷ routed_slot c 0 1 ∷ routed_slot c 1 0 ∷ routed_slot c 1 1 ∷ [])))
    ≡ ok (some 0 ∷ none ∷ some 1 ∷ some 2 ∷ [])
unfolding program
after_slots = refl

two_experts : (e : ℕ) → 0 < count e (1 ∷ 0 ∷ 1 ∷ []) → e < 2
unfolding program
two_experts e h = ground (arith, h)

one_expert : (e : ℕ) → 0 < count e (fetch_ids (1 ∷ []) (0 ∷ 1 ∷ 0 ∷ [])) → e < 2
unfolding program
one_expert e h = ground (arith, h)

-- Expert 1 is excluded, expert 0 of layer 1 is fetched.
fetch_experts-Serves_example :
    Serves pool 1
      (fetch_ids (1 ∷ []) (0 ∷ 1 ∷ 0 ∷ []))
      (fetch_experts pool 1 false (1 ∷ []) (0 ∷ 1 ∷ 0 ∷ []))
fetch_experts-Serves_example =
    fetch_experts-Serves pool 1 false (1 ∷ []) (0 ∷ 1 ∷ 0 ∷ []) pool_IsPool (omega arith) refl
      (omega arith) one_expert

load-resync_slot_for_id_example :
    let base = 1 * 2 in
    (g : Staging) × (stage_misses false 3 base 1 3
        (sort (misses pool 1 (first_uses [] (1 ∷ 0 ∷ 1 ∷ []))))
        (staging_of pool base 1 (first_uses [] (1 ∷ 0 ∷ 1 ∷ [])))
      ≡ ok g)
    × (resync_slot_for_id 2 g.id_of_slot 3 ≡ g.slot_for_id)
load-resync_slot_for_id_example =
    load-resync_slot_for_id pool 1 (1 ∷ 0 ∷ 1 ∷ []) pool_IsPool (omega arith) two_experts

-- Layer 1 is prefilled; then the pool is reset.
range_two : (e : ℕ) → 0 < count e (range_from 0 2) → e < 2
unfolding program
range_two e h = ground (arith, h)

prefilled : Serves pool 1 (range_from 0 2) (fetch_experts pool 1 true [] [])
prefilled =
    fetch_experts-Serves pool 1 true [] [] pool_IsPool (omega arith) refl (omega arith) range_two

prefilled_Reach : Reach 0 prefilled.out
prefilled_Reach = Reach.fetched pool prefilled.out 1 true [] [] attached prefilled.runs

Reach-IsPool_example : IsPool (reset 0 prefilled.out)
Reach-IsPool_example =
    Reach-IsPool 0 (reset 0 prefilled.out) (Reach.cleared prefilled.out prefilled_Reach)

-- Two rows with two columns on layer 0: both rows are routed to experts 0 and 1.
abbrev routed : ℕ → ℕ → ℕ
routed i j = if i == j then 0 else 1

routed_low : (i j : ℕ) → i < 2 → j < 2 → routed i j < 2
routed_low i j a b = ground arith

-- Half of two is one, so expert 0 is the CPU's, and expert 1 is gathered for both rows from slot 0.
half_runs :
    (forward_hybrid (FetchFraction.between (λ n. n / 2)) none pool 0 false routed 2 2
      >>= (λ r. ok r.gathers))
    ≡ ok ((0, 0, 1) ∷ (1, 0, 0) ∷ [])
unfolding program
half_runs = refl

forward_hybrid-Halves_example :
    Halves
      (FetchFraction.between (λ n. n / 2))
      0
      routed
      2
      2
      (forward_hybrid (FetchFraction.between (λ n. n / 2)) none pool 0 false routed 2 2)
forward_hybrid-Halves_example =
    forward_hybrid-Halves (FetchFraction.between (λ n. n / 2)) none pool 0 false routed 2 2
      pool_IsPool (omega arith) refl (omega arith) routed_low
