-- ===== src/StatePool/Sizes.antt =====
-- The byte estimate of python/freetoken/kvcache/linear_state_pool.py, against the pool.
use free_token_intel.Prelude.{
  ℕ, ◌+◌, ◌-◌, ◌*◌, ◌≡◌, refl, sym, ap, Option, List, arith, Result, ok, raise,
}
use free_token_intel.StatePool.{
  Geometry, Shape, StatePool, linear_local_dims, init, bytes_per_slot, linear_state_bytes_per_req,
}

spread : (n c k i v d e j : ℕ) → n * c * k * i + n * v * d * e * j ≡ n * (c * k * i + v * d * e * j)
spread n c k i v d e j = grind arith

-- A pool takes, for each slot, exactly the bytes that `linear_state_bytes_per_req` says a request
-- needs with the same dimensions and dtypes; where a pool can be made there is an estimate.
pub init-bytes_per_slot :
    {State : Type 0} (zeros : State) (g : Geometry) (num_slots : ℕ) (layer_ids : Option (List ℕ))
    (itemsize ssm_itemsize : ℕ) {p : StatePool State}
    → init zeros g num_slots layer_ids ≡ ok p
    → linear_state_bytes_per_req g itemsize ssm_itemsize
      ≡ ok (bytes_per_slot p itemsize ssm_itemsize)
unfolding init bytes_per_slot linear_state_bytes_per_req
init-bytes_per_slot zeros g num_slots layer_ids itemsize ssm_itemsize {p} e =
    by_dims (linear_local_dims g) refl
  where
    of_dims : ℕ → ℕ → Shape
    of_dims c v = record {
      n_layers = g.num_layers;
      local_conv_dim = c;
      km1 = g.conv_kernel_dim - 1;
      local_v_heads = v;
      key_dim = g.key_head_dim;
      value_dim = g.value_head_dim;
    }

    by_dims :
        (d : Result (ℕ × ℕ))
        → linear_local_dims g ≡ d
        → linear_state_bytes_per_req g itemsize ssm_itemsize
          ≡ ok (bytes_per_slot p itemsize ssm_itemsize)
    by_dims (raise x) ed = absurd (ground (arith, ed))
    by_dims (ok (c, v)) ed =
        let es : p.shape ≡ of_dims c v = ground (arith, ed) in
        simp (ed, es)
          (ap ok (
            sym (
              spread g.num_layers c (g.conv_kernel_dim - 1) itemsize v g.key_head_dim
                g.value_head_dim ssm_itemsize)))
