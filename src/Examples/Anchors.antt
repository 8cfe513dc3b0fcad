-- ===== src/Examples/Anchors.antt =====
-- A request at its anchor of four tokens, on pages of two, with live slot 1 and track slots 2 and 3.
use free_token_intel.Prelude.{ℕ, ◌*◌, ◌≡◌, refl, true, false, none, some, [], ◌∷◌, arith}
use free_token_intel.Align.{align_down}
use free_token_intel.StatePool.{StatePool, set_state, copy_from}
use free_token_intel.Anchor.{
  Tracked, due, snapshot_one, snapshot_toolcall_anchor, IsUntracked,
  snapshot_toolcall_anchor_untracked,
}

program : Unit {0}
unfolding align_down set_state copy_from due snapshot_one snapshot_toolcall_anchor
program = tt

abbrev tracked : Tracked
tracked = record {
  toolcall_anchor_len = some 4;
  linear_slot_idx = 1;
  mamba_ping_pong = some (2, 3);
  mamba_last_track_seqlen = none;
  second_is_next = false;
}

abbrev pool : StatePool ℕ
pool = record {
  shape = record {
    n_layers = 1;
    local_conv_dim = 1;
    km1 = 1;
    local_v_heads = 1;
    key_dim = 1;
    value_dim = 1;
  };
  num_slots = 4;
  states = λ x. x * 100;
  local_index = [];
  free_slots = [];
}

snapshot_runs :
    ((snapshot_toolcall_anchor 2 pool (tracked ∷ [])).0.states 2 ≡ 100)
    × ((snapshot_toolcall_anchor 2 pool (tracked ∷ [])).1
        ≡ record tracked { mamba_last_track_seqlen = some 4; second_is_next = true } ∷ [])
    × ((snapshot_toolcall_anchor 3 pool (tracked ∷ [])).0.states 2 ≡ 200)
unfolding program
snapshot_runs = (refl, refl, refl)

live_apart : IsUntracked 1 (tracked ∷ [])
live_apart = (λ pair e. ground (arith, e), tt)

snapshot_toolcall_anchor_untracked_example :
    (snapshot_toolcall_anchor 2 pool (tracked ∷ [])).0.states 1 ≡ 100
snapshot_toolcall_anchor_untracked_example =
    snapshot_toolcall_anchor_untracked 2 pool (tracked ∷ []) 1 live_apart
