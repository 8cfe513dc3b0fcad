-- ===== src/StatePool.antt =====
-- python/freetoken/kvcache/linear_state_pool.py: the slots of recurrent state. A slot's state over all
-- layers (conv and SSM) is an element of a parameter type; the sizes of the two dtypes are numbers.
pub mod Slots
pub mod Ownership
pub mod Sizes
use free_token_intel.Prelude.{
  ℕ, zero, suc, ◌+◌, ◌-◌, ◌*◌, Bool, true, Option, none, some, List, [], ◌∷◌, ◌++◌, ltb, ◌==◌,
  if◌then◌else◌, value_error, runtime_error, Result, ok, raise, ◌>>=◌, ◌>>◌, guard, length,
  range_from,
}
use free_token_intel.Prelude.Dict.{Dict, contains, store}
use free_token_intel.Align.{div_even}

-- The raw dimensions that the constructor takes.
pub record Geometry : Type 0 where
  pub num_layers : ℕ
  pub num_key_heads : ℕ
  pub num_value_heads : ℕ
  pub key_head_dim : ℕ
  pub value_head_dim : ℕ
  pub conv_kernel_dim : ℕ
  pub tp_size : ℕ

-- `(conv_dim, v_heads)` of one device.
unfoldable pub linear_local_dims : Geometry → Result (ℕ × ℕ)
linear_local_dims g = do
  k ← div_even g.num_key_heads g.tp_size true
  v ← div_even g.num_value_heads g.tp_size true
  ok (2 * k * g.key_head_dim + v * g.value_head_dim, v)

-- `shape` is that of the two stacked tensors without the slots: layers, conv dim, kernel - 1, heads,
-- key dim and value dim.
pub record Shape : Type 0 where
  pub n_layers : ℕ
  pub local_conv_dim : ℕ
  pub km1 : ℕ
  pub local_v_heads : ℕ
  pub key_dim : ℕ
  pub value_dim : ℕ

pub record StatePool (State : Type 0) : Type 0 where
  pub shape : Shape
  pub num_slots : ℕ
  pub states : ℕ → State
  pub local_index : Dict ℕ
  pub free_slots : List ℕ

-- `{layer_id: i for i, layer_id in enumerate(ids)}`
unfoldable pub index_layers : ℕ → List ℕ → Dict ℕ → Dict ℕ
index_layers i [] d = d
index_layers i (x ∷ xs) d = index_layers (suc i) xs (store x i d)

unfoldable pub layers_or_all : Option (List ℕ) → ℕ → List ℕ
layers_or_all none n = range_from 0 n
layers_or_all (some ids) n = ids

-- `list.pop()`, and `[xs.pop() for _ in range(n)]` with what is left.
unfoldable pub pop_back : ℕ → List ℕ → List ℕ × ℕ
pop_back x [] = ([], x)
pop_back x (y ∷ ys) = let r = pop_back y ys in (x ∷ r.0, r.1)

unfoldable pub pop_many : ℕ → List ℕ → List ℕ × List ℕ
pop_many zero xs = ([], xs)
pop_many (suc n) [] = ([], [])
pop_many (suc n) (x ∷ xs) =
    let r = pop_back x xs in let rest = pop_many n r.0 in (r.1 ∷ rest.0, rest.1)

module _ {State : Type 0} where
  unfoldable pub init : State → Geometry → ℕ → Option (List ℕ) → Result (StatePool State)
  init zeros g num_slots layer_ids = do
    dims ← linear_local_dims g
    let ids = layers_or_all layer_ids g.num_layers
    guard (length ids == g.num_layers) value_error
    ok (record {
      shape = record {
        n_layers = g.num_layers;
        local_conv_dim = dims.0;
        km1 = g.conv_kernel_dim - 1;
        local_v_heads = dims.1;
        key_dim = g.key_head_dim;
        value_dim = g.value_head_dim;
      };
      num_slots = num_slots;
      states = λ x. zeros;
      local_index = index_layers 0 ids [];
      free_slots = range_from 1 (num_slots - 1);
    })

  unfoldable pub alloc : StatePool State → ℕ → Result (StatePool State × List ℕ)
  alloc p n =
      if ltb (length p.free_slots) n
      then raise runtime_error
      else ok (record p { free_slots = (pop_many n p.free_slots).1 }, (pop_many n p.free_slots).0)

  unfoldable pub reclaim_all_slots : StatePool State → StatePool State
  reclaim_all_slots p = record p { free_slots = range_from 1 (p.num_slots - 1) }

  unfoldable pub rebuild : State → StatePool State → ℕ → StatePool State
  rebuild zeros p n = record p {
    num_slots = n;
    states = λ x. zeros;
    free_slots = range_from 1 (n - 1);
  }

  unfoldable pub free : StatePool State → List ℕ → StatePool State
  free p slots = record p { free_slots = p.free_slots ++ slots }

  unfoldable pub set_state : (ℕ → State) → ℕ → State → ℕ → State
  set_state f dst v x = if x == dst then v else f x

  unfoldable pub clear_states : State → (ℕ → State) → List ℕ → ℕ → State
  clear_states zeros f [] = f
  clear_states zeros f (s ∷ slots) = clear_states zeros (set_state f s zeros) slots

  unfoldable pub clear_slots : State → StatePool State → List ℕ → StatePool State
  clear_slots zeros p slots = record p { states = clear_states zeros p.states slots }

  unfoldable pub copy_from : StatePool State → ℕ → ℕ → StatePool State
  copy_from p src dst = record p { states = set_state p.states dst (p.states src) }

  unfoldable pub reset : State → StatePool State → ℕ → StatePool State
  reset zeros p table_idx = record p { states = set_state p.states table_idx zeros }

  unfoldable pub is_linear_layer : StatePool State → ℕ → Bool
  is_linear_layer p layer_id = contains layer_id p.local_index

  -- The elements of one slot's tensors, times the sizes of their dtypes.
  unfoldable pub bytes_per_slot : StatePool State → ℕ → ℕ → ℕ
  bytes_per_slot p itemsize ssm_itemsize =
      let s = p.shape in
      s.n_layers * s.local_conv_dim * s.km1 * itemsize
      + s.n_layers * s.local_v_heads * s.key_dim * s.value_dim * ssm_itemsize

unfoldable pub linear_state_bytes_per_req : Geometry → ℕ → ℕ → Result ℕ
linear_state_bytes_per_req g itemsize ssm_itemsize = do
  dims ← linear_local_dims g
  let conv_bytes = dims.0 * (g.conv_kernel_dim - 1) * itemsize
  let rec_bytes = dims.1 * g.key_head_dim * g.value_head_dim * ssm_itemsize
  ok (g.num_layers * (conv_bytes + rec_bytes))
