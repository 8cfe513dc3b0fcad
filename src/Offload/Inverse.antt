-- ===== src/Offload/Inverse.antt =====
-- The two maps between expert ids and slots, through the staging of one miss.
use free_token_intel.Prelude.{
  ℕ, zero, suc, ◌+◌, ◌*◌, ◌/◌, ◌%◌, ◌<◌, ◌≡◌, refl, sym, ap, ◌∙◌, ◌≢◌, inl, inr, Option, none, some,
  arith, ◌==◌, Bool-cases, Option-cases, ==_iff,
}
use free_token_intel.Offload.{put, clear_old, resync_one, resync_slot_for_id}

-- The maps are inverse to each other, on slots of the pool and on ids below `ids_end`.
pub record IsInverse (S ids_end : ℕ) (rows ids : ℕ → Option ℕ) : Type 0 where
  pub bound : (s id : ℕ) → ids s ≡ some id → (s < S) × (id < ids_end)
  pub fwd : (s id : ℕ) → ids s ≡ some id → rows id ≡ some s
  pub bwd : (s id : ℕ) → rows id ≡ some s → ids s ≡ some id

pub put_here : {A : Type 0} (f : ℕ → A) (i : ℕ) (v : A) → put f i v i ≡ v
unfolding put
put_here f i v = ground arith

pub put_apart : {A : Type 0} (f : ℕ → A) (i : ℕ) (v : A) (x : ℕ) → x ≢ i → put f i v x ≡ f x
unfolding put
put_apart f i v x h = ground (arith, h)

-- What a write leaves at an index.
pub data Written {A : Type 0} (f : ℕ → A) (i : ℕ) (v : A) (x : ℕ) : Type 0 where
  written : x ≡ i → put f i v x ≡ v → Written f i v x
  kept : x ≢ i → put f i v x ≡ f x → Written f i v x

pub put-Written : {A : Type 0} (f : ℕ → A) (i : ℕ) (v : A) (x : ℕ) → Written f i v x
unfolding put
put-Written f i v x = elim (Bool-cases (x == i)) [
  | inl same ↦ Written.written ((==_iff x i).0 same) (rw same refl)
  | inr other ↦ Written.kept (ground (arith, other)) (rw other refl)
]

-- The cleared map loses the old id only.
clear_old-kept :
    (o : Option ℕ) (rows : ℕ → Option ℕ) (id s : ℕ)
    → clear_old o rows id ≡ some s
    → (rows id ≡ some s) × (o ≢ some id)
unfolding put
clear_old-kept none rows id s h = (h, λ e. ground arith)
clear_old-kept (some old) rows id s h = (ground (arith, h), λ e. ground (arith, h, e))

clear_old-other :
    (o : Option ℕ) (rows : ℕ → Option ℕ) (id : ℕ) → o ≢ some id → clear_old o rows id ≡ rows id
unfolding put
clear_old-other none rows id h = refl
clear_old-other (some old) rows id h = elim (Bool-cases (id == old)) [
  | inl same ↦ absurd (h (ap (λ i. some i) (sym ((==_iff id old).0 same))))
  | inr other ↦ rw other refl
]

module _ (S ids_end : ℕ) (rows ids : ℕ → Option ℕ) (v : IsInverse S ids_end rows ids) where
  never_two : (s t id : ℕ) → ids s ≡ some id → ids t ≡ some id → s ≡ t
  never_two s t id h k = ground (arith, v.fwd s id h, v.fwd t id k)

  module _ (slot id : ℕ) (in_pool : slot < S) (is_id : id < ids_end)
      (missing : rows id ≡ none) where
    abbrev new_rows : ℕ → Option ℕ
    new_rows = put (clear_old (ids slot) rows) id (some slot)

    abbrev new_ids : ℕ → Option ℕ
    new_ids = put ids slot (some id)

    bound_after : (s i : ℕ) → new_ids s ≡ some i → (s < S) × (i < ids_end)
    bound_after s i h = elim (put-Written ids slot (some id) s) [
      | Written.written e w ↦ ground (arith, e, w, h, in_pool, is_id)
      | Written.kept other w ↦ v.bound s i (sym w ∙ h)
    ]

    fwd_after : (s i : ℕ) → new_ids s ≡ some i → new_rows i ≡ some s
    fwd_after s i h = elim (put-Written ids slot (some id) s) [
      | Written.written e w ↦
          let same : i ≡ id = ground (arith, w, h) in
          ap new_rows same
          ∙ put_here (clear_old (ids slot) rows) id (some slot)
          ∙ ap (λ x. some x) (sym e)
      | Written.kept other w ↦
          let old : ids s ≡ some i = sym w ∙ h in
          let not_id : i ≢ id = λ same. ground (arith, v.fwd s i old, ap rows same, missing) in
          let stays : ids slot ≢ some i = λ same. other (never_two s slot i old same) in
          put_apart (clear_old (ids slot) rows) id (some slot) i not_id
          ∙ clear_old-other (ids slot) rows i stays
          ∙ v.fwd s i old
    ]

    bwd_after : (s i : ℕ) → new_rows i ≡ some s → new_ids s ≡ some i
    bwd_after s i h = elim (put-Written (clear_old (ids slot) rows) id (some slot) i) [
      | Written.written e w ↦
          let same : s ≡ slot = ground (arith, w, h) in
          ap new_ids same ∙ put_here ids slot (some id) ∙ ap (λ x. some x) (sym e)
      | Written.kept other w ↦
          let (old, stays) = clear_old-kept (ids slot) rows i s (sym w ∙ h) in
          let held = v.bwd s i old in
          put_apart ids slot (some id) s (λ same. stays (ap ids (sym same) ∙ held)) ∙ held
    ]

    pub put-IsInverse : IsInverse S ids_end new_rows new_ids
    put-IsInverse = record { bound = bound_after; fwd = fwd_after; bwd = bwd_after }

    -- A row that is another expert's and not the victim's is as it was.
    pub rows_kept : (i s : ℕ) → rows i ≡ some s → s ≢ slot → new_rows i ≡ some s
    rows_kept i s h other = fwd_after s i (put_apart ids slot (some id) s other ∙ v.bwd s i h)

    pub rows_none : (i : ℕ) → rows i ≡ none → i ≢ id → new_rows i ≡ none
    rows_none i h other = elim (Option-cases (new_rows i)) [
      | inl e ↦ e
      | inr (s, e) ↦
          let w = put_apart (clear_old (ids slot) rows) id (some slot) i other in
          absurd (ground (arith, h, (clear_old-kept (ids slot) rows i s (sym w ∙ e)).0))
    ]

-- `_resync_slot_for_id` writes each slot under its own id.
resync-index : (E id : ℕ) → (id / E) * E + id % E ≡ id
resync-index E id = grind arith

module _ (S ids_end E : ℕ) (rows ids : ℕ → Option ℕ) (v : IsInverse S ids_end rows ids) where
  resync_one-put :
      (n id : ℕ)
      → ids n ≡ some id
      → resync_slot_for_id E ids (suc n) ≡ put (resync_slot_for_id E ids n) id (some n)
  unfolding resync_slot_for_id
  resync_one-put n id h =
      ap (λ o. resync_one E o n (resync_slot_for_id E ids n)) h
      ∙ ap (λ i. put (resync_slot_for_id E ids n) i (some n)) (resync-index E id)

  resync_none :
      (n : ℕ) → ids n ≡ none → resync_slot_for_id E ids (suc n) ≡ resync_slot_for_id E ids n
  unfolding resync_slot_for_id
  resync_none n h = ap (λ o. resync_one E o n (resync_slot_for_id E ids n)) h

  -- A row that is none is never written.
  resync_absent : (n id : ℕ) → rows id ≡ none → resync_slot_for_id E ids n id ≡ none
  unfolding resync_slot_for_id
  resync_absent zero id h = refl
  resync_absent (suc n) id h = elim (Option-cases (ids n)) [
    | inl e ↦ ap (λ f. f id) (resync_none n e) ∙ resync_absent n id h
    | inr (i, e) ↦
        let other : id ≢ i = λ same. ground (arith, ap rows same, h, v.fwd n i e) in
        ap (λ f. f id) (resync_one-put n i e)
        ∙ put_apart (resync_slot_for_id E ids n) i (some n) id other
        ∙ resync_absent n id h
  ]

  resync_present : (n id s : ℕ) → rows id ≡ some s → s < n → resync_slot_for_id E ids n id ≡ some s
  resync_present zero id s h lt = absurd (omega (arith, lt))
  resync_present (suc n) id s h lt = elim (Bool-cases (s == n)) [
    | inl last ↦
        let e : s ≡ n = (==_iff s n).0 last in
        let here = ap ids (sym e) ∙ v.bwd s id h in
        ap (λ f. f id) (resync_one-put n id here)
        ∙ put_here (resync_slot_for_id E ids n) id (some n)
        ∙ ap (λ x. some x) (sym e)
    | inr earlier ↦
        let rest = resync_present n id s h (ground (arith, lt, earlier)) in
        elim (Option-cases (ids n)) [
          | inl e ↦ ap (λ f. f id) (resync_none n e) ∙ rest
          | inr (i, e) ↦
              let other : id ≢ i = λ same. ground (arith, ap rows same, h, v.fwd n i e, earlier) in
              ap (λ f. f id) (resync_one-put n i e)
              ∙ put_apart (resync_slot_for_id E ids n) i (some n) id other
              ∙ rest
        ]
  ]

  -- Rebuilt from the slots, the rows are what they were.
  pub resync_same : resync_slot_for_id E ids S ≡ rows
  resync_same =
      let at : (id : ℕ) → resync_slot_for_id E ids S id ≡ rows id = λ id.
        elim (Option-cases (rows id)) [
          | inl e ↦ resync_absent S id e ∙ sym e
          | inr (s, e) ↦ resync_present S id s e ((v.bound s id (v.bwd s id e)).0) ∙ sym e
        ] in
      λ i id. at id i
