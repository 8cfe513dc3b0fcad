-- ===== src/Offload/Placing.antt =====
-- What staging one miss does.
use free_token_intel.Prelude.{
  ℕ, ◌+◌, ◌*◌, ◌/◌, ◌%◌, ◌≤◌, ◌<◌, ◌≡◌, refl, sym, ap, ◌∙◌, ◌≢◌, inl, inr, none, some, List, [],
  ◌∷◌, ◌++◌, arith,
}
use free_token_intel.Offload.{put, Staging, clear_old, place, copy_rows}
use free_token_intel.Offload.Inverse.{
  IsInverse, Written, put-Written, put_here, put_apart, put-IsInverse, rows_kept, rows_none,
}
use free_token_intel.Offload.Victim.{IsVictim}

pub record IsStaging (S ids_end step : ℕ) (g : Staging) : Type 0 where
  pub inverse : IsInverse S ids_end g.slot_for_id g.id_of_slot
  pub old : (s : ℕ) → g.usage s ≤ step

-- An id is in a slot that this step has used.
abbrev pub IsFresh : ℕ → Staging → ℕ → ℕ → Type 0
IsFresh step g id s = (g.slot_for_id id ≡ some s) × (g.usage s ≡ step)

-- Flat ids.
pub id-row : (layer E e : ℕ) → e < E → (layer * E + e) / E ≡ layer
id-row layer E e h = grind arith

pub id-column : (layer E e : ℕ) → e < E → (layer * E + e) % E ≡ e
id-column layer E e h = grind arith

pub id-lt : (layer E e L : ℕ) → e < E → layer < L → layer * E + e < L * E
id-lt layer E e L h k = grind arith

module _ {Row : Type 0} where
  pub copy_rows-append :
      (host : ℕ → Row) (plan : List (ℕ × ℕ)) (slot row : ℕ) (cache : ℕ → Row)
      → copy_rows host (plan ++ (slot, row) ∷ []) cache
        ≡ put (copy_rows host plan cache) slot (host row)
  unfolding copy_rows
  copy_rows-append host [] slot row cache = refl
  copy_rows-append host (p ∷ plan) slot row cache =
      copy_rows-append host plan slot row (put cache p.0 (host p.1))

  -- After the staged copies, every slot holds the row of its id.
  abbrev pub IsMirror : ℕ → (ℕ → ℕ → Row) → ℕ → Staging → (ℕ → Row) → Type 0
  IsMirror E host layer g cache =
      (s id : ℕ)
      → g.id_of_slot s ≡ some id
      → copy_rows (host layer) g.plan cache s ≡ host (id / E) (id % E)

module _ (S E layer ids_end step : ℕ) where
  module _ (g : Staging) (v : IsStaging S ids_end step g) (e slot : ℕ)
      (pick : IsVictim S step g slot) (expert : e < E) (known : layer * E + e < ids_end)
      (missing : g.slot_for_id (layer * E + e) ≡ none) where
    pub place-IsStaging : IsStaging S ids_end step (place (layer * E) step e slot g)
    unfolding place
    place-IsStaging = record {
      inverse =
          put-IsInverse S ids_end g.slot_for_id g.id_of_slot v.inverse slot (layer * E + e)
            pick.in_pool known missing;
      old = λ s. elim (put-Written g.usage slot step s) [
        | Written.written same w ↦ omega (arith, w)
        | Written.kept other w ↦ omega (arith, w, v.old s)
      ];
    }

    not_the_victim : (id s : ℕ) → IsFresh step g id s → s ≢ slot
    not_the_victim id s f same = elim pick.unused [
      | inl empty ↦ ground (arith, v.inverse.bwd s id f.0, ap g.id_of_slot same, empty)
      | inr unused ↦ omega (arith, ap g.usage same, unused, f.1)
    ]

    pub place_kept :
        (id s : ℕ) → IsFresh step g id s → IsFresh step (place (layer * E) step e slot g) id s
    unfolding place
    place_kept id s f =
        let other = not_the_victim id s f in
        (
          rows_kept S ids_end g.slot_for_id g.id_of_slot v.inverse slot (layer * E + e) pick.in_pool
              known missing id s f.0 other,
          put_apart g.usage slot step s other ∙ f.1,
        )

    pub place_new : IsFresh step (place (layer * E) step e slot g) (layer * E + e) slot
    unfolding place
    place_new = (
      put_here (clear_old (g.id_of_slot slot) g.slot_for_id) (layer * E + e) (some slot),
      put_here g.usage slot step,
    )

    pub place-none :
        (id : ℕ)
        → g.slot_for_id id ≡ none
        → id ≢ layer * E + e
        → (place (layer * E) step e slot g).slot_for_id id ≡ none
    unfolding place
    place-none id h other =
        rows_none S ids_end g.slot_for_id g.id_of_slot v.inverse slot (layer * E + e) pick.in_pool
          known missing id h other

    pub place-IsMirror :
        {Row : Type 0} (host : ℕ → ℕ → Row) (cache : ℕ → Row)
        → IsMirror E host layer g cache
        → IsMirror E host layer (place (layer * E) step e slot g) cache
    unfolding place
    place-IsMirror host cache m s id h =
        let copied = copy_rows (host layer) g.plan cache in
        ap (λ f. f s) (copy_rows-append (host layer) g.plan slot e cache)
        ∙ elim (put-Written g.id_of_slot slot (some (layer * E + e)) s) [
          | Written.written same w ↦
              let is_new : layer * E + e ≡ id = ground (arith, w, h) in
              ap (put copied slot (host layer e)) same
              ∙ put_here copied slot (host layer e)
              ∙ (λ i. host (sym (id-row layer E e expert) i) (sym (id-column layer E e expert) i))
              ∙ ap (λ j. host (j / E) (j % E)) is_new
          | Written.kept other w ↦ put_apart copied slot (host layer e) s other ∙ m s id (sym w ∙ h)
        ]
