-- ===== src/Anchor.antt =====
-- `CacheManager.snapshot_toolcall_anchor` of python/freetoken/scheduler/cache.py: the state of a request
-- at its tool-call anchor is copied to a track slot. Of a request it holds the fields that this reads;
-- the index of the next track slot, 0 or 1, is a Boolean, and a request with track slots has a live
-- slot.
use free_token_intel.Prelude.{
  ℕ, ◌≡◌, refl, ap, ◌∙◌, ◌≢◌, Bool, true, false, not, ◌||◌, Option, none, some, List, [], ◌∷◌,
  arith, ◌==◌, if◌then◌else◌,
}
use free_token_intel.Align.{align_down}
use free_token_intel.StatePool.{StatePool, set_state, copy_from}

pub record Tracked : Type 0 where
  pub toolcall_anchor_len : Option ℕ
  pub linear_slot_idx : ℕ
  pub mamba_ping_pong : Option (ℕ × ℕ)
  pub mamba_last_track_seqlen : Option ℕ
  pub second_is_next : Bool

abbrev pub is_none : Option ℕ → Bool
is_none none = true
is_none (some x) = false

-- The anchor and the track slots of a request that is to be copied now.
unfoldable pub due : ℕ → Tracked → Option (ℕ × (ℕ × ℕ))
due page_size r = elim r.toolcall_anchor_len [
  | none ↦ none
  | some anchor ↦ elim r.mamba_ping_pong [
    | none ↦ none
    | some pair ↦
        if not (is_none r.mamba_last_track_seqlen) || not (align_down anchor page_size == anchor)
        then none
        else some (anchor, pair)
  ]
]

abbrev pub track_slot : Tracked → ℕ × ℕ → ℕ
track_slot r pair = if r.second_is_next then pair.1 else pair.0

module _ {State : Type 0} where
  abbrev pub snapshot_at :
      StatePool State → Tracked → Option (ℕ × (ℕ × ℕ)) → StatePool State × Tracked
  snapshot_at pool r none = (pool, r)
  snapshot_at pool r (some (anchor, pair)) = (
    copy_from pool r.linear_slot_idx (track_slot r pair),
    record r { mamba_last_track_seqlen = some anchor; second_is_next = not r.second_is_next },
  )

  unfoldable pub snapshot_one : ℕ → StatePool State → Tracked → StatePool State × Tracked
  snapshot_one page_size pool r = snapshot_at pool r (due page_size r)

  unfoldable pub snapshot_toolcall_anchor :
      ℕ → StatePool State → List Tracked → StatePool State × List Tracked
  snapshot_toolcall_anchor page_size pool [] = (pool, [])
  snapshot_toolcall_anchor page_size pool (r ∷ rs) =
      let one = snapshot_one page_size pool r in
      let rest = snapshot_toolcall_anchor page_size one.0 rs in (rest.0, one.1 ∷ rest.1)

tracked-due :
    (page_size : ℕ) (r : Tracked) (n : ℕ)
    → r.mamba_last_track_seqlen ≡ some n
    → due page_size r ≡ none
unfolding due
tracked-due page_size r n e = by_anchor r.toolcall_anchor_len r.mamba_ping_pong refl refl
  where
    by_anchor :
        (o : Option ℕ) (q : Option (ℕ × ℕ))
        → r.toolcall_anchor_len ≡ o
        → r.mamba_ping_pong ≡ q
        → due page_size r ≡ none
    by_anchor none q eo eq = ground (arith, eo)
    by_anchor (some a) none eo eq = ground (arith, eo, eq)
    by_anchor (some a) (some pair) eo eq = ground (arith, eo, eq, e)

module _ {State : Type 0} (page_size : ℕ) where
  snapshot_at-due :
      (pool : StatePool State) (r : Tracked) (o : Option (ℕ × (ℕ × ℕ)))
      → due page_size r ≡ o
      → due page_size (snapshot_at pool r o).1 ≡ none
  snapshot_at-due pool r none e = e
  snapshot_at-due pool r (some (anchor, pair)) e = tracked-due page_size _ anchor refl

  snapshot_one-due :
      (pool : StatePool State) (r : Tracked)
      → due page_size (snapshot_one page_size pool r).1 ≡ none
  unfolding snapshot_one
  snapshot_one-due pool r = snapshot_at-due pool r (due page_size r) refl

  snapshot_one-none :
      (pool : StatePool State) (r : Tracked)
      → due page_size r ≡ none
      → snapshot_one page_size pool r ≡ (pool, r)
  unfolding snapshot_one
  snapshot_one-none pool r e = ap (snapshot_at pool r) e

  -- Freezing anchors is done once: a second call on the same requests, with any pool, changes neither
  -- the pool nor a request.
  snapshot_toolcall_anchor_once :
      (pool other : StatePool State) (rs : List Tracked)
      → snapshot_toolcall_anchor page_size other (snapshot_toolcall_anchor page_size pool rs).1
        ≡ (other, (snapshot_toolcall_anchor page_size pool rs).1)
  unfolding snapshot_toolcall_anchor
  snapshot_toolcall_anchor_once pool other [] = refl
  snapshot_toolcall_anchor_once pool other (r ∷ rs) =
      let one = snapshot_one page_size pool r in
      rw
        (
          snapshot_one-none other one.1 (snapshot_one-due pool r),
          snapshot_toolcall_anchor_once one.0 other rs,
        )
        refl

due-pair :
    (page_size : ℕ) (r : Tracked) (anchor : ℕ) (pair : ℕ × ℕ)
    → due page_size r ≡ some (anchor, pair)
    → r.mamba_ping_pong ≡ some pair
unfolding due
due-pair page_size r anchor pair e = by_anchor r.toolcall_anchor_len r.mamba_ping_pong refl refl
  where
    by_anchor :
        (o : Option ℕ) (q : Option (ℕ × ℕ))
        → r.toolcall_anchor_len ≡ o
        → r.mamba_ping_pong ≡ q
        → r.mamba_ping_pong ≡ some pair
    by_anchor none q eo eq = absurd (ground (arith, eo, e))
    by_anchor (some a) none eo eq = absurd (ground (arith, eo, eq, e))
    by_anchor (some a) (some p) eo eq = ground (arith, eo, eq, e)

-- A slot that is no request's track slot.
abbrev pub IsUntracked : ℕ → List Tracked → Type 0
IsUntracked x [] = Unit
IsUntracked x (r ∷ rs) =
    ((pair : ℕ × ℕ) → r.mamba_ping_pong ≡ some pair → (x ≢ pair.0) × (x ≢ pair.1))
    × IsUntracked x rs

module _ {State : Type 0} (page_size : ℕ) where
  snapshot_at-kept :
      (pool : StatePool State) (r : Tracked) (x : ℕ) (o : Option (ℕ × (ℕ × ℕ)))
      → ((pair : ℕ × ℕ) → r.mamba_ping_pong ≡ some pair → (x ≢ pair.0) × (x ≢ pair.1))
      → due page_size r ≡ o
      → (snapshot_at pool r o).0.states x ≡ pool.states x
  unfolding copy_from set_state
  snapshot_at-kept pool r x none far e = refl
  snapshot_at-kept pool r x (some (anchor, pair)) far e =
      let apart = far pair (due-pair page_size r anchor pair e) in ground (arith, apart)

  -- Freezing anchors changes no slot but track slots: the state of every other slot, the live ones
  -- included, stays as it was.
  pub snapshot_toolcall_anchor_untracked :
      (pool : StatePool State) (rs : List Tracked) (x : ℕ)
      → IsUntracked x rs
      → (snapshot_toolcall_anchor page_size pool rs).0.states x ≡ pool.states x
  unfolding snapshot_toolcall_anchor snapshot_one
  snapshot_toolcall_anchor_untracked pool [] x far = refl
  snapshot_toolcall_anchor_untracked pool (r ∷ rs) x far =
      snapshot_toolcall_anchor_untracked (snapshot_one page_size pool r).0 rs x far.1
      ∙ snapshot_at-kept pool r x (due page_size r) far.0 refl
