-- ===== src/Offload.antt =====
-- python/freetoken/moe/offload_cache.py: OffloadMoeCache, the pool of device slots that expert weights
-- are streamed into. A tensor of slots or of ids is a function of the index, with -1 as none; the row
-- of an expert in one bank is an element of a parameter type. `slot_for_id` is its flat view, whose
-- rows are the layers. Only the first `num_indices` entries of the staged plan are kept, and none of
-- the buffers that `rebuild` allocates: nothing is pending then, so they are not read.
-- A call that raises has no state: what it has changed by then is not kept.
pub mod Inverse
pub mod Victim
pub mod Placing
pub mod Loop
pub mod Experts
pub mod Fetch
pub mod Forward
pub mod Serve
pub mod Reach
pub mod Hybrid
pub mod Gathers
pub mod Halves
use free_token_intel.Prelude.{
  ℕ, zero, suc, ◌+◌, ◌*◌, ◌/◌, ◌%◌, max, Bool, true, false, not, ◌&&◌, ◌||◌, Option, none, some,
  List, [], ◌∷◌, ◌++◌, map, ltb, leb, ◌==◌, if◌then◌else◌, value_error, runtime_error,
  assertion_error, Result, ok, ◌>>=◌, ◌>>◌, guard, length, select, range_from, sort,
}
use free_token_intel.Prelude.{index_error}

pub record Bank (Row : Type 0) : Type 0 where
  pub sources : ℕ → ℕ → Row
  pub cache : ℕ → Row

pub record OffloadMoeCache (Row : Type 0) : Type 0 where
  pub num_layers : ℕ
  pub num_experts : ℕ
  pub cache_size : ℕ
  pub slot_for_id : ℕ → Option ℕ
  pub id_of_slot : ℕ → Option ℕ
  pub usage : ℕ → ℕ
  pub step : ℕ
  pub active_mask : ℕ → ℕ
  pub plan_slots : ℕ
  pub plan : List (ℕ × ℕ)
  pub banks : List (Bank Row)
  pub pending_src_layer : Option ℕ
  pub pending_whole_layer : Bool
  pub stat_missing : ℕ
  pub stat_calls : ℕ

-- `tensor[i] = v`
unfoldable pub put : {A : Type 0} → (ℕ → A) → ℕ → A → ℕ → A
put f i v = λ x. if x == i then v else f x

abbrev pub is_none : Option ℕ → Bool
is_none none = true
is_none (some x) = false

-- `seen`: the routed experts, each once, in the order of their first use.
abbrev pub listed : ℕ → List ℕ → Bool
listed x [] = false
listed x (y ∷ ys) = (y == x) || listed x ys

unfoldable pub first_uses : List ℕ → List ℕ → List ℕ
first_uses seen [] = seen
first_uses seen (x ∷ xs) = first_uses (if listed x seen then seen else seen ++ x ∷ []) xs

unfoldable pub mark_active : List ℕ → ℕ → ℕ
mark_active [] = λ x. 0
mark_active (e ∷ es) = put (mark_active es) e 1

-- Phase 1: the slot of each hit is stamped.
abbrev pub stamp : ℕ → Option ℕ → (ℕ → ℕ) → ℕ → ℕ
stamp step none usage = usage
stamp step (some slot) usage = put usage slot step

unfoldable pub stamp_hits : (ℕ → Option ℕ) → ℕ → ℕ → List ℕ → (ℕ → ℕ) → ℕ → ℕ
stamp_hits rows base step [] usage = usage
stamp_hits rows base step (e ∷ es) usage =
    stamp_hits rows base step es (stamp step (rows (base + e)) usage)

-- `min(range(S), key=lambda s: (usage[s], s))`
unfoldable pub lru_slot : (ℕ → ℕ) → ℕ → ℕ
lru_slot usage zero = 0
lru_slot usage (suc zero) = 0
lru_slot usage (suc (suc n)) =
    let best = lru_slot usage (suc n) in if ltb (usage (suc n)) (usage best) then suc n else best

-- `[s for s in range(S) if id_of_slot[s] == -1]`, its first item.
abbrev pub or_this : Option ℕ → Bool → ℕ → Option ℕ
or_this (some slot) empty this = some slot
or_this none empty this = if empty then some this else none

unfoldable pub first_free : (ℕ → Option ℕ) → ℕ → Option ℕ
first_free ids zero = none
first_free ids (suc n) = or_this (first_free ids n) (is_none (ids n)) n

abbrev pub or_slot : Option ℕ → ℕ → ℕ
or_slot none slot = slot
or_slot (some free) slot = free

-- The state of the loop over the misses.
pub record Staging : Type 0 where
  pub slot_for_id : ℕ → Option ℕ
  pub id_of_slot : ℕ → Option ℕ
  pub usage : ℕ → ℕ
  pub plan : List (ℕ × ℕ)

-- `materialize_layer` prefers an empty slot.
unfoldable pub victim : Bool → ℕ → Staging → ℕ
victim whole S g =
    if whole then or_slot (first_free g.id_of_slot S) (lru_slot g.usage S) else lru_slot g.usage S

abbrev pub clear_old : Option ℕ → (ℕ → Option ℕ) → ℕ → Option ℕ
clear_old none rows = rows
clear_old (some old) rows = put rows old none

unfoldable pub place : ℕ → ℕ → ℕ → ℕ → Staging → Staging
place base step expert slot g = record {
  slot_for_id = put (clear_old (g.id_of_slot slot) g.slot_for_id) (base + expert) (some slot);
  id_of_slot = put g.id_of_slot slot (some (base + expert));
  usage = put g.usage slot step;
  plan = g.plan ++ (slot, expert) ∷ [];
}

unfoldable pub stage_misses : Bool → ℕ → ℕ → ℕ → ℕ → List ℕ → Staging → Result Staging
stage_misses whole S base step plan_slots [] g = ok g
stage_misses whole S base step plan_slots (e ∷ es) g = do
  guard (ltb (length g.plan) plan_slots) runtime_error
  stage_misses whole S base step plan_slots es (place base step e (victim whole S g) g)

-- `_resync_slot_for_id` over the first slots: row `id // E`, column `id % E`.
abbrev pub resync_one : ℕ → Option ℕ → ℕ → (ℕ → Option ℕ) → ℕ → Option ℕ
resync_one E none slot rows = rows
resync_one E (some id) slot rows = put rows ((id / E) * E + id % E) (some slot)

unfoldable pub resync_slot_for_id : ℕ → (ℕ → Option ℕ) → ℕ → ℕ → Option ℕ
resync_slot_for_id E ids zero = λ id. none
resync_slot_for_id E ids (suc n) = resync_one E (ids n) n (resync_slot_for_id E ids n)

abbrev pub all_below : ℕ → List ℕ → Bool
all_below n [] = true
all_below n (x ∷ xs) = ltb x n && all_below n xs

abbrev pub holds_layer : ℕ → ℕ → Option ℕ → Bool
holds_layer base E none = false
holds_layer base E (some id) = leb base id && ltb id (base + E)

-- One host bank of the schema: how many layers it has, and the rows of each.
pub record Source (Row : Type 0) : Type 0 where
  pub layers : ℕ
  pub rows : ℕ → ℕ → Row

module _ {Row : Type 0} where
  -- What `ensure_experts` and `materialize_layer` share: the experts `seen`, the misses in the order
  -- in which they are staged.
  abbrev pub with_staging : OffloadMoeCache Row → ℕ → Bool → ℕ → Staging → OffloadMoeCache Row
  with_staging c layer_id whole missing g = record c {
    slot_for_id = resync_slot_for_id c.num_experts g.id_of_slot c.cache_size;
    id_of_slot = g.id_of_slot;
    usage = g.usage;
    plan = g.plan;
    pending_src_layer = some layer_id;
    pending_whole_layer = whole;
    stat_missing = c.stat_missing + missing;
    stat_calls = c.stat_calls + 1;
  }

  abbrev pub staging_of : OffloadMoeCache Row → ℕ → ℕ → List ℕ → Staging
  staging_of c base step seen = record {
    slot_for_id = c.slot_for_id;
    id_of_slot = c.id_of_slot;
    usage = stamp_hits c.slot_for_id base step seen c.usage;
    plan = [];
  }

  unfoldable pub load :
      OffloadMoeCache Row → ℕ → Bool → List ℕ → List ℕ → Result (OffloadMoeCache Row)
  load c layer_id whole seen missing = do
    let base = layer_id * c.num_experts
    let step = c.step + 1
    g ← stage_misses whole c.cache_size base step c.plan_slots missing (staging_of c base step seen)
    ok (
        with_staging (record c { step = step; active_mask = mark_active seen }) layer_id whole
          (length missing) g)

  unfoldable pub misses : OffloadMoeCache Row → ℕ → List ℕ → List ℕ
  misses c layer_id seen = select (λ e. is_none (c.slot_for_id (layer_id * c.num_experts + e))) seen

  abbrev pub has_banks : List (Bank Row) → Bool
  has_banks [] = false
  has_banks (b ∷ bs) = true

  unfoldable pub ensure_experts : OffloadMoeCache Row → ℕ → List ℕ → Result (OffloadMoeCache Row)
  ensure_experts c layer_id expert_ids = do
    guard (not (has_banks c.banks && ltb c.cache_size 2)) runtime_error
    let seen = first_uses [] expert_ids
    guard (all_below c.num_experts seen) index_error
    guard (ltb layer_id c.num_layers) index_error
    load c layer_id false seen (sort (misses c layer_id seen))

  unfoldable pub materialize_layer : OffloadMoeCache Row → ℕ → Result (OffloadMoeCache Row)
  materialize_layer c layer_id = do
    guard (ltb layer_id c.num_layers) value_error
    guard (leb c.num_experts c.cache_size) value_error
    let experts = range_from 0 c.num_experts
    load c layer_id true experts (misses c layer_id experts)

  -- `cache[slot].copy_(host[row])` for the staged pairs.
  unfoldable pub copy_rows : (ℕ → Row) → List (ℕ × ℕ) → (ℕ → Row) → ℕ → Row
  copy_rows host [] cache = cache
  copy_rows host (pair ∷ rest) cache = copy_rows host rest (put cache pair.0 (host pair.1))

  abbrev pub copy_bank : ℕ → List (ℕ × ℕ) → Bank Row → Bank Row
  copy_bank layer plan b = record b { cache = copy_rows (b.sources layer) plan b.cache }

  unfoldable pub copy_missing : OffloadMoeCache Row → Result (OffloadMoeCache Row)
  copy_missing c = do
    guard (has_banks c.banks) assertion_error
    ok (elim c.pending_src_layer [
      | none ↦ c
      | some layer ↦ record c {
        banks = map (copy_bank layer c.plan) c.banks;
        pending_src_layer = none;
        pending_whole_layer = false;
      }
    ])

  unfoldable pub resident_slots : OffloadMoeCache Row → ℕ → List ℕ
  resident_slots c layer_id =
      select (λ slot. holds_layer (layer_id * c.num_experts) c.num_experts (c.id_of_slot slot))
        (range_from 0 c.cache_size)

  abbrev pub clear_bank : Row → Bank Row → Bank Row
  clear_bank zeros b = record b { cache = λ slot. zeros }

  -- A pool without experts in it. `zeros` is the row that `torch.zeros` makes.
  abbrev pub emptied : Row → OffloadMoeCache Row → OffloadMoeCache Row
  emptied zeros c = record c {
    slot_for_id = λ id. none;
    id_of_slot = λ slot. none;
    usage = λ slot. 0;
    step = 0;
    active_mask = λ expert. 0;
    plan = [];
    banks = map (clear_bank zeros) c.banks;
    pending_src_layer = none;
    pending_whole_layer = false;
  }

  unfoldable pub reset_stats : OffloadMoeCache Row → OffloadMoeCache Row
  reset_stats c = record c { stat_missing = 0; stat_calls = 0 }

  unfoldable pub decode_miss_stats : OffloadMoeCache Row → ℕ × ℕ
  decode_miss_stats c = (c.stat_missing, c.stat_calls)

  unfoldable pub reset : Row → OffloadMoeCache Row → OffloadMoeCache Row
  reset zeros c = reset_stats (emptied zeros c)

  -- The staging buffers and the slot pools are allocated anew; the statistics stay.
  unfoldable pub rebuild : Row → OffloadMoeCache Row → ℕ → Result (OffloadMoeCache Row)
  rebuild zeros c cache_size = do
    guard (leb c.num_experts cache_size) value_error
    ok (record (emptied zeros c) {
      cache_size = cache_size;
      plan_slots = max c.num_experts cache_size;
    })

  -- `known_format`: `quant_format in _BANK_SCHEMAS`.
  unfoldable pub init : Bool → ℕ → ℕ → ℕ → Result (OffloadMoeCache Row)
  init known_format num_layers num_experts cache_size = do
    guard known_format value_error
    guard (leb num_experts cache_size) value_error
    ok (record {
      num_layers = num_layers;
      num_experts = num_experts;
      cache_size = cache_size;
      slot_for_id = λ id. none;
      id_of_slot = λ slot. none;
      usage = λ slot. 0;
      step = 0;
      active_mask = λ expert. 0;
      plan_slots = max num_experts cache_size;
      plan = [];
      banks = [];
      pending_src_layer = none;
      pending_whole_layer = false;
      stat_missing = 0;
      stat_calls = 0;
    })

  -- The banks in the order of the schema; a bank with a wrong number of layers is refused.
  unfoldable pub make_banks : Row → ℕ → List (Source Row) → Result (List (Bank Row))
  make_banks zeros num_layers [] = ok []
  make_banks zeros num_layers (s ∷ sources) = do
    guard (s.layers == num_layers) value_error
    guard (ltb 0 num_layers) index_error
    rest ← make_banks zeros num_layers sources
    ok (record { sources = s.rows; cache = λ slot. zeros } ∷ rest)

  -- `names_match`: `set(sources) == set(self.bank_schema)`.
  unfoldable pub set_bank_sources :
      Row → Bool → List (Source Row) → OffloadMoeCache Row → Result (OffloadMoeCache Row)
  set_bank_sources zeros names_match sources c = do
    guard names_match value_error
    banks ← make_banks zeros c.num_layers sources
    ok (record c { banks = banks })
