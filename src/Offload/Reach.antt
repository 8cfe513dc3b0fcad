-- ===== src/Offload/Reach.antt =====
-- The pool of expert slots over whole runs: attached once, then fetched from, reset and resized.
use free_token_intel.Prelude.{
  ℕ, ◌+◌, ◌*◌, ◌<◌, ◌≡◌, refl, sym, ap, subst, ◌∙◌, inl, inr, Bool, true, false, not, ◌&&◌, none,
  List, [], ◌∷◌, map, arith, ltb, leb, ◌==◌, Bool-cases, ==_iff, Error, value_error, runtime_error,
  assertion_error, Result, ok, raise, ◌>>=◌, ◌>>◌, guard, count,
}
use free_token_intel.Prelude.{index_error}
use free_token_intel.Offload.{
  Bank, OffloadMoeCache, Source, stage_misses, first_uses, all_below, staging_of, load, has_banks,
  ensure_experts, materialize_layer, copy_missing, clear_bank, reset_stats, reset, rebuild, init,
  make_banks, set_bank_sources,
}
use free_token_intel.Offload.Inverse.{IsInverse}
use free_token_intel.Offload.Experts.{first_uses-count}
use free_token_intel.Offload.Fetch.{Holds, IsPool, Fetched}
use free_token_intel.Offload.Forward.{fetch_ids, fetch_experts}
use free_token_intel.Offload.Serve.{ensure-Fetched, materialize-Fetched}

guard-ok :
    {A : Type 0} (b : Bool) (e : Error) (r : Result A) (out : A)
    → (guard b e >> r) ≡ ok out
    → (b ≡ true) × (r ≡ ok out)
guard-ok true e r out h = (refl, h)
guard-ok false e r out h = absurd (ground (arith, h))

bind-ok :
    {A B : Type 0} (r : Result A) (f : A → Result B) (out : B)
    → (r >>= f) ≡ ok out
    → (x : A) × (r ≡ ok x) × (f x ≡ ok out)
bind-ok (raise e) f out h = absurd (ground (arith, h))
bind-ok (ok x) f out h = (x, refl, h)

from-ok : {A : Type 0} (P : A → Type 0) {x y : A} → ok x ≡ ok y → P x → P y
from-ok P h p = subst P (ground (arith, h)) p

all_below-at : (n : ℕ) (xs : List ℕ) → all_below n xs ≡ true → (e : ℕ) → 0 < count e xs → e < n
unfolding count
all_below-at n [] h e k = absurd (omega (arith, k))
all_below-at n (x ∷ xs) h e k = elim (Bool-cases (x == e)) [
  | inl same ↦ ground (arith, h, (==_iff x e).0 same)
  | inr other ↦ all_below-at n xs (ground (arith, h)) e (ground (arith, k, other))
]

IsInverse-none : (S n : ℕ) → IsInverse S n (λ id. none) (λ s. none)
IsInverse-none S n = record {
  bound = λ s id h. absurd (ground (arith, h));
  fwd = λ s id h. absurd (ground (arith, h));
  bwd = λ s id h. absurd (ground (arith, h));
}

module _ {Row : Type 0} where
  load-banks :
      (c : OffloadMoeCache Row) (layer : ℕ) (whole : Bool) (seen missing : List ℕ)
      (d : OffloadMoeCache Row)
      → load c layer whole seen missing ≡ ok d
      → d.banks ≡ c.banks
  unfolding load
  load-banks c layer whole seen missing d h =
      let (g, r, e) =
        bind-ok
          (stage_misses whole c.cache_size (layer * c.num_experts) (c.step + 1) c.plan_slots missing
            (staging_of c (layer * c.num_experts) (c.step + 1) seen))
          _ d h in
      ground (arith, e)

  copy_missing-banks :
      (c d : OffloadMoeCache Row) → copy_missing c ≡ ok d → has_banks c.banks ≡ true
  unfolding copy_missing
  copy_missing-banks c d h = (guard-ok (has_banks c.banks) assertion_error _ d h).0

  -- A fetch that returns had a layer of the model and experts of it, and banks to copy from.
  module _ (c d : OffloadMoeCache Row) (v : IsPool c) (layer : ℕ) where
    the_pool :
        (seen : List ℕ) (r : Result (OffloadMoeCache Row))
        → Fetched c layer seen r
        → r ≡ ok d
        → IsPool d
    the_pool seen r f h =
        let same : f.out ≡ d = ground (arith, f.runs, h) in subst (λ x. IsPool x) same f.pool

    materialize-IsPool : (materialize_layer c layer >>= copy_missing) ≡ ok d → IsPool d
    unfolding materialize_layer
    materialize-IsPool h =
        let (m, r, e) = bind-ok (materialize_layer c layer) copy_missing d h in
        let (known, r2) = guard-ok (ltb layer c.num_layers) value_error _ m r in
        let (fits, r3) = guard-ok (leb c.num_experts c.cache_size) value_error _ m r2 in
        let banks =
          ap has_banks (sym (load-banks c layer true _ _ m r3)) ∙ copy_missing-banks m d e in
        the_pool _ _ (materialize-Fetched c layer v (ground (arith, known)) banks) h

    ensure-IsPool : (ids : List ℕ) → (ensure_experts c layer ids >>= copy_missing) ≡ ok d → IsPool d
    unfolding ensure_experts
    ensure-IsPool ids h =
        let seen = first_uses [] ids in
        let (m, r, e) = bind-ok (ensure_experts c layer ids) copy_missing d h in
        let (two, r2) =
          guard-ok (not (has_banks c.banks && ltb c.cache_size 2)) runtime_error _ m r in
        let (low, r3) = guard-ok (all_below c.num_experts seen) index_error _ m r2 in
        let (known, r4) = guard-ok (ltb layer c.num_layers) index_error _ m r3 in
        let banks =
          ap has_banks (sym (load-banks c layer false _ _ m r4)) ∙ copy_missing-banks m d e in
        let roomy : ltb c.cache_size 2 ≡ false = ground (arith, two, banks) in
        the_pool _ _
          (ensure-Fetched c layer ids v (ground (arith, known)) banks (ground (arith, roomy))
            (λ x k.
              all_below-at c.num_experts seen low x (first_uses-count [] ids x (omega (arith, k)))))
          h

  fetch-IsPool :
      (c d : OffloadMoeCache Row) (layer : ℕ) (is_prefill : Bool) (exclude expert_ids : List ℕ)
      → IsPool c
      → fetch_experts c layer is_prefill exclude expert_ids ≡ ok d
      → IsPool d
  unfolding fetch_experts
  fetch-IsPool c d layer true exclude expert_ids v h = materialize-IsPool c d v layer h
  fetch-IsPool c d layer false exclude expert_ids v h =
      ensure-IsPool c d v layer (fetch_ids exclude expert_ids) h

  -- An empty pool is sound, whatever its banks.
  Holds-none : (E : ℕ) (bs : List (Bank Row)) → Holds E (λ s. none) bs
  Holds-none E [] = tt
  Holds-none E (b ∷ bs) = ((λ s id h. absurd (ground (arith, h))), Holds-none E bs)

  attach-IsPool :
      (c : OffloadMoeCache Row) (bs : List (Bank Row))
      → IsPool c
      → c.id_of_slot ≡ (λ s. none)
      → IsPool (record c { banks = bs })
  attach-IsPool c bs v empty = record {
    fits = v.fits;
    room = v.room;
    inverse = v.inverse;
    old = v.old;
    idle = v.idle;
    holds = subst (λ ids. Holds c.num_experts ids bs) (sym empty) (Holds-none c.num_experts bs);
  }

  pub init-IsPool :
      (known : Bool) (L E S : ℕ) (c : OffloadMoeCache Row)
      → init known L E S ≡ ok c
      → IsPool c × (c.id_of_slot ≡ (λ s. none))
  unfolding init
  init-IsPool known L E S c h =
      let (k, r) = guard-ok known value_error _ c h in
      let (fits, r2) = guard-ok (leb E S) value_error _ c r in
      from-ok (λ x. IsPool x × (x.id_of_slot ≡ (λ s. none))) r2
        (
          record {
            fits = ground (arith, fits);
            room = omega arith;
            inverse = IsInverse-none S (L * E);
            old = λ s. omega arith;
            idle = refl;
            holds = tt;
          },
          refl,
        )

  attached-IsPool :
      (zeros : Row) (known match_ : Bool) (L E S : ℕ) (sources : List (Source Row))
      (c d : OffloadMoeCache Row)
      → init known L E S ≡ ok c
      → set_bank_sources zeros match_ sources c ≡ ok d
      → IsPool d
  unfolding set_bank_sources
  attached-IsPool zeros known match_ L E S sources c d made attached =
      let (v, empty) = init-IsPool known L E S c made in
      let (m, s) = guard-ok match_ value_error _ d attached in
      let (banks, b, e) = bind-ok (make_banks zeros c.num_layers sources) _ d s in
      from-ok (λ x. IsPool x) e (attach-IsPool c banks v empty)

  reset-IsPool : (zeros : Row) (c : OffloadMoeCache Row) → IsPool c → IsPool (reset zeros c)
  unfolding reset reset_stats
  reset-IsPool zeros c v = record {
    fits = v.fits;
    room = v.room;
    inverse = IsInverse-none c.cache_size (c.num_layers * c.num_experts);
    old = λ s. omega arith;
    idle = refl;
    holds = Holds-none c.num_experts (map (clear_bank zeros) c.banks);
  }

  rebuild-IsPool :
      (zeros : Row) (c d : OffloadMoeCache Row) (S : ℕ)
      → IsPool c
      → rebuild zeros c S ≡ ok d
      → IsPool d
  unfolding rebuild
  rebuild-IsPool zeros c d S v h =
      let (fits, r) = guard-ok (leb c.num_experts S) value_error _ d h in
      from-ok (λ x. IsPool x) r
        (record {
          fits = ground (arith, fits);
          room = omega arith;
          inverse = IsInverse-none S (c.num_layers * c.num_experts);
          old = λ s. omega arith;
          idle = refl;
          holds = Holds-none c.num_experts (map (clear_bank zeros) c.banks);
        })

  -- The pools that calls which return can lead to.
  pub data Reach (zeros : Row) : OffloadMoeCache Row → Type 0 where
    attached :
        (known names_match : Bool) (L E S : ℕ) (sources : List (Source Row))
        (c d : OffloadMoeCache Row)
        → init known L E S ≡ ok c
        → set_bank_sources zeros names_match sources c ≡ ok d
        → Reach zeros d
    fetched :
        (c d : OffloadMoeCache Row) (layer : ℕ) (is_prefill : Bool) (exclude expert_ids : List ℕ)
        → Reach zeros c
        → fetch_experts c layer is_prefill exclude expert_ids ≡ ok d
        → Reach zeros d
    cleared : (c : OffloadMoeCache Row) → Reach zeros c → Reach zeros (reset zeros c)
    resized :
        (c d : OffloadMoeCache Row) (S : ℕ)
        → Reach zeros c
        → rebuild zeros c S ≡ ok d
        → Reach zeros d

  -- Whatever fetches, resets and resizes follow on the attaching of the banks, as long as they return:
  -- the two maps are inverse to each other on slots of the pool and experts of the model, every bank has
  -- in each slot that holds an expert the host's row of that expert, and no copy is left pending.
  pub Reach-IsPool : (zeros : Row) (c : OffloadMoeCache Row) → Reach zeros c → IsPool c
  Reach-IsPool zeros _ (Reach.attached known names_match L E S sources b c made done) =
      attached-IsPool zeros known names_match L E S sources b c made done
  Reach-IsPool zeros _ (Reach.fetched b c layer is_prefill exclude expert_ids r done) =
      fetch-IsPool b c layer is_prefill exclude expert_ids (Reach-IsPool zeros b r) done
  Reach-IsPool zeros _ (Reach.cleared b r) = reset-IsPool zeros b (Reach-IsPool zeros b r)
  Reach-IsPool zeros _ (Reach.resized b c S r done) =
      rebuild-IsPool zeros b c S (Reach-IsPool zeros b r) done
