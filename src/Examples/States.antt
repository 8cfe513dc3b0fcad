-- ===== src/Examples/States.antt =====
-- The state pool with four slots, for one layer of two heads on one device. A state is a number.
use free_token_intel.Prelude.{
  ℕ, ◌+◌, ◌*◌, ◌<◌, ◌≡◌, refl, ◌≢◌, ◌↔◌, none, List, [], ◌∷◌, runtime_error, ok, raise, length,
  range_from, count, IsDistinct,
}
use free_token_intel.Prelude.Dict.{contains, store}
use free_token_intel.Align.{div_even}
use free_token_intel.StatePool.{
  Geometry, Shape, StatePool, linear_local_dims, index_layers, layers_or_all, pop_back, pop_many,
  init, alloc, reclaim_all_slots, rebuild, free, set_state, clear_states, clear_slots, copy_from,
  bytes_per_slot, linear_state_bytes_per_req,
}
use free_token_intel.StatePool.Sizes.{init-bytes_per_slot}
use free_token_intel.StatePool.Slots.{alloc_lem, copy_from-clear_slots}
use free_token_intel.StatePool.Ownership.{InUse, Uses, InUseAfter, InUseAfter-slots}

program : Unit {0}
unfolding contains store div_even linear_local_dims index_layers layers_or_all pop_back pop_many
    init alloc reclaim_all_slots rebuild free set_state clear_states clear_slots copy_from
    bytes_per_slot linear_state_bytes_per_req
program = tt

abbrev geometry : Geometry
geometry = record {
  num_layers = 1;
  num_key_heads = 2;
  num_value_heads = 4;
  key_head_dim = 2;
  value_head_dim = 3;
  conv_kernel_dim = 4;
  tp_size = 2;
}

abbrev shape : Shape
shape = record {
  n_layers = 1;
  local_conv_dim = 10;
  km1 = 3;
  local_v_heads = 2;
  key_dim = 2;
  value_dim = 3;
}

abbrev fresh : StatePool ℕ
fresh = record {
  shape = shape;
  num_slots = 4;
  states = λ x. 0;
  local_index = (0, 0) ∷ [];
  free_slots = 1 ∷ 2 ∷ 3 ∷ [];
}

abbrev drawn : StatePool ℕ
drawn = record fresh { free_slots = 1 ∷ [] }

runs :
    (init 0 geometry 4 none ≡ ok fresh)
    × (alloc fresh 2 ≡ ok (drawn, 3 ∷ 2 ∷ []))
    × (alloc drawn 2 ≡ raise runtime_error)
    × (linear_state_bytes_per_req geometry 2 4 ≡ ok 108)
unfolding program
runs = (refl, refl, refl, refl)

init-bytes_per_slot_example :
    linear_state_bytes_per_req geometry 2 4 ≡ ok (bytes_per_slot fresh 2 4)
unfolding program
init-bytes_per_slot_example = init-bytes_per_slot 0 geometry 4 none 2 4 {p = fresh} refl

alloc_lem_example :
    ((alloc fresh 2 ≡ raise runtime_error) ↔ (3 < 2))
    × ((q : StatePool ℕ) (slots : List ℕ)
        → alloc fresh 2 ≡ ok (q, slots)
        → (length slots ≡ 2)
          × ((a : ℕ) → count a slots + count a q.free_slots ≡ count a fresh.free_slots)
          × (q.states ≡ fresh.states))
alloc_lem_example = alloc_lem fresh 2

apart : count 2 (3 ∷ []) ≡ 0
unfolding count
apart = refl

abbrev running : StatePool ℕ
running = record drawn { states = λ x. x * 100 }

copy_from-clear_slots_example :
    ((clear_slots 0 (copy_from running 3 2) (3 ∷ [])).states 2 ≡ 300)
    × ((x : ℕ)
        → 0 < count x (3 ∷ [])
        → (clear_slots 0 (copy_from running 3 2) (3 ∷ [])).states x ≡ 0)
    × ((x : ℕ)
        → count x (3 ∷ []) ≡ 0
        → x ≢ 2
        → (clear_slots 0 (copy_from running 3 2) (3 ∷ [])).states x ≡ x * 100)
copy_from-clear_slots_example = copy_from-clear_slots 0 running 3 2 (3 ∷ []) apart

abbrev out : InUse ℕ
out = record { pool = drawn; live = 3 ∷ 2 ∷ [] }

history : InUseAfter {State = ℕ} 0 (record { pool = fresh; live = [] }) out
unfolding program
history = InUseAfter.then_uses InUseAfter.start (Uses.allocs 2 drawn (3 ∷ 2 ∷ []) refl)

InUseAfter-slots_example :
    ((a : ℕ) → count a (1 ∷ []) + count a (3 ∷ 2 ∷ []) ≡ count a (range_from 1 3))
    × (count 0 (3 ∷ 2 ∷ []) ≡ 0)
    × IsDistinct (3 ∷ 2 ∷ [])
unfolding program
InUseAfter-slots_example = InUseAfter-slots 0 geometry 4 none {p = fresh} {w = out} refl history
