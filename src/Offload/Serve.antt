-- ===== src/Offload/Serve.antt =====
-- A fetch serves the experts that it was asked for.
use free_token_intel.Prelude.{
  ℕ, ◌+◌, ◌*◌, ◌≤◌, ◌<◌, ◌≡◌, refl, ap, ◌∙◌, Bool, true, false, Option, none, some, List, [], ◌∷◌,
  arith, ltb, leb, if◌then◌else◌, Result, ok, ◌>>=◌, range_from, count, range-IsDistinct,
  count-sort, sort, length-sort,
}
use free_token_intel.Offload.{
  Bank, OffloadMoeCache, Staging, stage_misses, first_uses, staging_of, misses, has_banks,
  ensure_experts, materialize_layer, copy_missing, resync_slot_for_id,
}
use free_token_intel.Offload.Placing.{id-row, id-column}
use free_token_intel.Offload.Experts.{
  first_uses-IsDistinct, first_uses-count, first_uses-from, all_below_iff, range-count,
}
use free_token_intel.Offload.Fetch.{Holds, IsPool, Fetched, load-Fetched, staged-resync}
use free_token_intel.Offload.Forward.{fetch_ids, fetch_experts, valid_slot, routed_slot}

valid_slot-is : (S : ℕ) (o : Option ℕ) (s : ℕ) → valid_slot S o ≡ some s → (o ≡ some s) × (s < S)
valid_slot-is S none s h = absurd (ground (arith, h))
valid_slot-is S (some t) s h = ground (arith, h)

module _ {Row : Type 0} where
  pub ensure-Fetched :
      (c : OffloadMoeCache Row) (layer : ℕ) (ids : List ℕ)
      → IsPool c
      → layer < c.num_layers
      → has_banks c.banks ≡ true
      → 2 ≤ c.cache_size
      → ((e : ℕ) → 0 < count e ids → e < c.num_experts)
      → Fetched c layer (first_uses [] ids) (ensure_experts c layer ids >>= copy_missing)
  unfolding ensure_experts count
  ensure-Fetched c layer ids v known some_bank two below =
      let seen = first_uses [] ids in
      let experts : (e : ℕ) → 0 < count e seen → e < c.num_experts =
        λ e h. below e (omega (arith, first_uses-from [] ids e h)) in
      let done =
        load-Fetched c v layer known false seen (sort (misses c layer seen))
          (first_uses-IsDistinct [] ids (λ x. omega arith)) experts
          (λ x. count-sort x (misses c layer seen)) (length-sort (misses c layer seen)) some_bank in
      let small : ltb c.cache_size 2 ≡ false = ground (arith, two) in
      let in_range = all_below_iff c.num_experts seen experts in
      let layer_ok : ltb layer c.num_layers ≡ true = ground (arith, known) in
      rw (some_bank, small, in_range, layer_ok) done

  pub materialize-Fetched :
      (c : OffloadMoeCache Row) (layer : ℕ)
      → IsPool c
      → layer < c.num_layers
      → has_banks c.banks ≡ true
      → Fetched c layer (range_from 0 c.num_experts) (materialize_layer c layer >>= copy_missing)
  unfolding materialize_layer
  materialize-Fetched c layer v known some_bank =
      let experts = range_from 0 c.num_experts in
      let done =
        load-Fetched c v layer known true experts (misses c layer experts)
          (range-IsDistinct 0 c.num_experts)
          (λ e h. let (low, high) = range-count e 0 c.num_experts h in omega (arith, high))
          (λ x. refl) refl some_bank in
      let layer_ok : ltb layer c.num_layers ≡ true = ground (arith, known) in
      let fits : leb c.num_experts c.cache_size ≡ true = ground (arith, v.fits) in
      rw (layer_ok, fits) done

  -- Every bank has the expert's row in a slot.
  abbrev pub HasRows : ℕ → ℕ → ℕ → List (Bank Row) → Type 0
  HasRows layer e s [] = Unit
  HasRows layer e s (b ∷ bs) = (b.cache s ≡ b.sources layer e) × HasRows layer e s bs

  Holds-HasRows :
      (E layer e s : ℕ) (ids : ℕ → Option ℕ) (bs : List (Bank Row))
      → e < E
      → ids s ≡ some (layer * E + e)
      → Holds E ids bs
      → HasRows layer e s bs
  Holds-HasRows E layer e s ids [] low here h = tt
  Holds-HasRows E layer e s ids (b ∷ bs) low here h = (
    h.0 s (layer * E + e) here
        ∙ (λ i. b.sources (id-row layer E e low i) (id-column layer E e low i)),
    Holds-HasRows E layer e s ids bs low here h.1,
  )

  -- An expert is served from a slot of the pool that has its rows.
  pub record IsServed (c : OffloadMoeCache Row) (layer e : ℕ) : Type 0 where
    pub slot : ℕ
    pub valid : routed_slot c layer e ≡ some slot
    pub rows : HasRows layer e slot c.banks

  resident-IsServed :
      (c : OffloadMoeCache Row) (layer e s : ℕ)
      → IsPool c
      → e < c.num_experts
      → c.slot_for_id (layer * c.num_experts + e) ≡ some s
      → IsServed c layer e
  unfolding routed_slot
  resident-IsServed c layer e s v low there =
      let back = v.inverse.bwd s (layer * c.num_experts + e) there in
      let in_pool : ltb s c.cache_size ≡ true =
        ground (arith, (v.inverse.bound s (layer * c.num_experts + e) back).0) in
      record {
        slot = s;
        valid = ap (valid_slot c.cache_size) there ∙ rw in_pool refl;
        rows = Holds-HasRows c.num_experts layer e s c.id_of_slot c.banks low back v.holds;
      }

  -- What a fetch for some experts comes to.
  pub record Serves (c : OffloadMoeCache Row) (layer : ℕ) (experts : List ℕ)
      (r : Result (OffloadMoeCache Row)) : Type 0 where
    pub out : OffloadMoeCache Row
    pub runs : r ≡ ok out
    pub pool : IsPool out
    pub same_experts : out.num_experts ≡ c.num_experts
    pub served : (e : ℕ) → 0 < count e experts → IsServed out layer e
    pub hits :
        (e s : ℕ)
        → 0 < count e experts
        → routed_slot c layer e ≡ some s
        → routed_slot out layer e ≡ some s

  Fetched-Serves :
      (c : OffloadMoeCache Row) (layer : ℕ) (seen experts : List ℕ)
      (r : Result (OffloadMoeCache Row))
      → ((e : ℕ) → 0 < count e experts → (0 < count e seen) × (e < c.num_experts))
      → Fetched c layer seen r
      → Serves c layer experts r
  unfolding routed_slot
  Fetched-Serves c layer seen experts r known f =
      let same : f.out.num_experts ≡ c.num_experts = f.same_size.1 in
      let at : (e : ℕ)
          → f.out.slot_for_id (layer * f.out.num_experts + e)
            ≡ f.out.slot_for_id (layer * c.num_experts + e) =
        λ e. ap (λ n. f.out.slot_for_id (layer * n + e)) same in
      record {
        out = f.out;
        runs = f.runs;
        pool = f.pool;
        same_experts = same;
        served = λ e h.
            let (there, low) = known e h in
            let (s, found) = f.resident e there in
            resident-IsServed f.out layer e s f.pool (omega (arith, low, same)) (at e ∙ found);
        hits = λ e s h old.
            let (there, low) = known e h in
            let (found, in_pool) =
              valid_slot-is c.cache_size (c.slot_for_id (layer * c.num_experts + e)) s old in
            let now = at e ∙ f.hits e s there found in
            let fits : ltb s f.out.cache_size ≡ true = ground (arith, in_pool, f.same_size.0) in
            ap (valid_slot f.out.cache_size) now ∙ rw fits refl;
      }

  -- The experts that a batch asks for: all of the layer in prefill, else the routed ones that are not
  -- excluded.
  abbrev pub wanted : OffloadMoeCache Row → Bool → List ℕ → List ℕ → List ℕ
  wanted c is_prefill exclude expert_ids =
      if is_prefill then range_from 0 c.num_experts else fetch_ids exclude expert_ids

  -- On a pool of at least two slots with its banks attached, fetching for a layer of the model and
  -- experts of it raises nothing. Afterwards each expert that was asked for has a slot of the pool, and
  -- in every bank the row of that slot is the host's row of that expert and layer; an expert that had a
  -- slot before keeps it; and the pool is sound again.
  pub fetch_experts-Serves :
      (c : OffloadMoeCache Row) (layer : ℕ) (is_prefill : Bool) (exclude expert_ids : List ℕ)
      → IsPool c
      → layer < c.num_layers
      → has_banks c.banks ≡ true
      → 2 ≤ c.cache_size
      → ((e : ℕ) → 0 < count e (wanted c is_prefill exclude expert_ids) → e < c.num_experts)
      → Serves c layer
          (wanted c is_prefill exclude expert_ids)
          (fetch_experts c layer is_prefill exclude expert_ids)
  unfolding fetch_experts
  fetch_experts-Serves c layer true exclude expert_ids v known some_bank two below =
      Fetched-Serves c layer (range_from 0 c.num_experts) (range_from 0 c.num_experts) _
        (λ e h. (h, below e h)) (materialize-Fetched c layer v known some_bank)
  fetch_experts-Serves c layer false exclude expert_ids v known some_bank two below =
      let ids = fetch_ids exclude expert_ids in
      Fetched-Serves c layer (first_uses [] ids) ids _
        (λ e h. (first_uses-count [] ids e (omega (arith, h)), below e h))
        (ensure-Fetched c layer ids v known some_bank two below)

  -- On a sound pool, for a layer of the model and experts of it, the staging loop of `ensure_experts`
  -- raises nothing, and the rows that `_resync_slot_for_id` then rebuilds from the slots are the rows
  -- that the loop has left: updating and clearing one row per miss already keeps the two maps in step.
  pub load-resync_slot_for_id :
      (c : OffloadMoeCache Row) (layer : ℕ) (ids : List ℕ)
      → IsPool c
      → layer < c.num_layers
      → ((e : ℕ) → 0 < count e ids → e < c.num_experts)
      → let seen = first_uses [] ids in
        let base = layer * c.num_experts in
        (g : Staging) × (stage_misses false c.cache_size base
            (c.step + 1)
            c.plan_slots
            (sort (misses c layer seen))
            (staging_of c base (c.step + 1) seen)
          ≡ ok g)
        × (resync_slot_for_id c.num_experts g.id_of_slot c.cache_size ≡ g.slot_for_id)
  unfolding count
  load-resync_slot_for_id c layer ids v known below =
      let seen = first_uses [] ids in
      let missing = misses c layer seen in
      staged-resync c v layer known false seen (sort missing)
        (first_uses-IsDistinct [] ids (λ x. omega arith))
        (λ e h. below e (omega (arith, first_uses-from [] ids e h))) (λ x. count-sort x missing)
        (length-sort missing)
